-- ===== src/Tests/Files.antt =====
-- The theorems on the combiner of small files, with a store that fails while its state is false.
use conserve.Common.{
  List, [], ◌∷◌, ◌++◌, Option, none, some, Bool, true, false, str, ◌≡◌, refl, arith, map,
  if◌then◌else◌,
}
use conserve.Common.Results.{Result, ok, err}
use conserve.Entry.{BlockHash, size_of_meta}
use conserve.Transport.{Bytes, not_found, other, Protocol}
use conserve.BlockDir.{BlockDir, transport, store_or_deduplicate}
use conserve.Combiner.{
  QueuedFile, FileCombiner, CombinerError, block, address_entry, zero_stats, after_store, flush,
  enqueue, push_file,
}
use conserve.Combiner.Slices.{Buffered}
use conserve.Combiner.Flush.{Flushed, flush-Flushed, push_file-Buffered, flush-stale_queue}
use conserve.Tests.Codec.{dir_entry, plain_lib, keep}
use conserve.Tests.Trees.{clock, notes}

abbrev flaky : Protocol Bool
flaky = record {
  read_file = λ s path. err not_found;
  write_file = λ s path content mode. (ok tt, s);
  list_dir = λ s path. err other;
  create_dir = λ s path. (if s then ok tt else err other, s);
  metadata = λ s path. err not_found;
  remove_file = λ s path. (err other, s);
  remove_dir_all = λ s path. (err other, s);
}

abbrev Cache : Type 0 → Type 0
Cache V = BlockHash → Option V

abbrev Combiner : Type 0
Combiner = FileCombiner (Cache Bytes) (Cache (Unit {0}))

abbrev blocks : BlockDir (Cache Bytes) (Cache (Unit {0}))
blocks = record {
  dir = str "d";
  stats = record {
    read_blocks = 0;
    read_block_compressed_bytes = 0;
    read_block_uncompressed_bytes = 0;
    cache_hit = 0;
  };
  cache = λ k. none;
  exists = λ k. none;
}

abbrev first_file : QueuedFile
first_file = record { start = 0; len = 2; entry = dir_entry (str "/a") }

abbrev second_file : QueuedFile
second_file = record { start = 2; len = 3; entry = dir_entry (str "/b") }

abbrev two_queued : Combiner
two_queued = record {
  buf = str "hiyou";
  queue = first_file ∷ second_file ∷ [];
  finished = [];
  stats = zero_stats;
  block_dir = blocks;
  max_block_size = 100;
}

abbrev two_contents : List Bytes
two_contents = str "hi" ∷ str "you" ∷ []

two_queued-Buffered : Buffered two_queued.buf two_queued.queue two_contents
two_queued-Buffered = (omega arith, refl, (omega arith, refl, tt))

-- The outcome of storing the combined block.
abbrev stored : Result CombinerError (Unit {0}) × Combiner × Bool
stored = after_store flaky plain_lib (keep Bytes) (keep (Unit {0})) two_queued (
    store_or_deduplicate flaky plain_lib (keep Bytes) (keep (Unit {0})) true blocks (str "hiyou")
      zero_stats)

two_queued_flushes :
    flush flaky plain_lib (keep Bytes) (keep (Unit {0})) true two_queued
    ≡ some (ok tt, stored.1, stored.2)
unfolding flush after_store store_or_deduplicate
two_queued_flushes = refl

flush-Flushed_example :
    Flushed flaky plain_lib (keep Bytes) (keep (Unit {0})) two_queued two_contents stored.1
flush-Flushed_example =
    flush-Flushed flaky plain_lib (keep Bytes) (keep (Unit {0})) true stored.2 two_queued stored.1
      first_file (second_file ∷ []) two_contents refl (omega arith) two_queued-Buffered
      two_queued_flushes

push_file-Buffered_example :
    (self' : Combiner) × (push_file flaky plain_lib
        (keep Bytes)
        (keep (Unit {0}))
        clock
        true
        two_queued
        notes
        (λ n. ok (str "new"))
      ≡ some (ok tt, self', true))
    × Buffered self'.buf self'.queue (two_contents ++ (str "new" ∷ []))
    × (self'.finished ≡ two_queued.finished)
unfolding size_of_meta
push_file-Buffered_example =
    push_file-Buffered flaky plain_lib (keep Bytes) (keep (Unit {0})) clock true two_queued notes
      (λ n. ok (str "new")) 8 b'n' (str "ew") two_contents two_queued-Buffered refl refl
      (omega arith)

abbrev failed : Result CombinerError (Unit {0}) × Combiner × Bool
failed = after_store flaky plain_lib (keep Bytes) (keep (Unit {0})) two_queued (
    store_or_deduplicate flaky plain_lib (keep Bytes) (keep (Unit {0})) false blocks (str "hiyou")
      zero_stats)

two_queued_fails :
    flush flaky plain_lib (keep Bytes) (keep (Unit {0})) false two_queued
    ≡ some (err (block (transport other)), failed.1, failed.2)
unfolding flush after_store store_or_deduplicate
two_queued_fails = refl

abbrev later : Combiner
later =
    enqueue flaky plain_lib (keep Bytes) (keep (Unit {0})) failed.1 (dir_entry (str "/c"))
      (str "new")

abbrev flushed_later : Result CombinerError (Unit {0}) × Combiner × Bool
flushed_later = after_store flaky plain_lib (keep Bytes) (keep (Unit {0})) later (
    store_or_deduplicate flaky plain_lib (keep Bytes) (keep (Unit {0})) true later.block_dir
      later.buf later.stats)

later_flushes :
    flush flaky plain_lib (keep Bytes) (keep (Unit {0})) true later
    ≡ some (ok tt, flushed_later.1, flushed_later.2)
unfolding flush after_store store_or_deduplicate enqueue
later_flushes = refl

flush-stale_queue_example :
    flushed_later.1.finished
    ≡ []
      ++ map (address_entry (str "new")) (
          first_file
          ∷ ((second_file ∷ [])
              ++ (record { start = 0; len = 3; entry = dir_entry (str "/c") } ∷ [])))
flush-stale_queue_example =
    flush-stale_queue flaky plain_lib (keep Bytes) (keep (Unit {0})) false failed.2 true
      flushed_later.2 two_queued failed.1 flushed_later.1 first_file (second_file ∷ [])
      (block (transport other)) (dir_entry (str "/c")) (str "new") refl two_queued_fails
      later_flushes
