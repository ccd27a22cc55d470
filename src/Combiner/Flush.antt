-- ===== src/Combiner/Flush.antt =====
-- What the addresses of a flushed block read, and what a failed flush leaves.
use conserve.Common.{
  ℕ, ◌<◌, List, [], ◌∷◌, ◌++◌, Option, none, some, Bool, true, false, Bool-cases, inl, inr, ◌≡◌,
  refl, ap, sym, subst, ◌∙◌, arith, length, map, suc,
}
use conserve.Common.Results.{Result, ok, err}
use mathlib.Core.Option.{some-injective}
use conserve.Entry.{
  Address, BlockHash, IndexEntry, EntryValue, TimeLib, metadata_from, size_of_meta,
}
use conserve.Transport.{Bytes, ErrorKind, Protocol, create_new, join}
use conserve.BlockDir.{
  BlockLib, LruCache, BlockDir, BlockError, BackupStats, Stored, store_or_deduplicate,
  store_checked, store_new, after_subdir, after_write, wrote, is_already_exists, contains, slice_of,
  usize_mod, subdir_relpath, path_of,
}
use conserve.Combiner.{
  QueuedFile, FileCombiner, CombinerError, block, address_entry, Outcome, after_store, flush_queue,
  flush, enqueue, flush_full, after_file, push_sized, push_file,
}
use conserve.Combiner.Slices.{Buffered, Buffered-enqueue}

module _ {S C E : Type 0} (p : Protocol S) (lib : BlockLib) (cache : LruCache Bytes C)
    (exists : LruCache (Unit {0}) E) where
  -- The entry has one address, in the block of the hash, which reads the content.
  pub record Restores (hash : BlockHash) (buf : Bytes) (e : IndexEntry) (content : Bytes)
      : Type 0 where
    pub address : Address
    pub addrs : e.addrs ≡ address ∷ []
    pub in_block : address.hash ≡ hash
    pub reads : slice_of p lib cache exists address (ok buf) ≡ some (ok content)

  abbrev pub RestoresAll : BlockHash → Bytes → List IndexEntry → List Bytes → Type 0
  RestoresAll hash buf [] [] = Unit
  RestoresAll hash buf [] (c ∷ contents) = ⊥
  RestoresAll hash buf (e ∷ entries) [] = ⊥
  RestoresAll hash buf (e ∷ entries) (c ∷ contents) =
      Restores hash buf e c × RestoresAll hash buf entries contents

  address_entry-RestoresAll :
      (hash : BlockHash) (buf : Bytes) (queue : List QueuedFile) (contents : List Bytes)
      → length buf < usize_mod
      → Buffered buf queue contents
      → RestoresAll hash buf (map (address_entry hash) queue) contents
  unfolding address_entry slice_of
  address_entry-RestoresAll hash buf [] [] h b = tt
  address_entry-RestoresAll hash buf [] (c ∷ contents) h b = elim b [ ]
  address_entry-RestoresAll hash buf (q ∷ queue) [] h b = elim b [ ]
  address_entry-RestoresAll hash buf (q ∷ queue) (c ∷ contents) h b = (
    record {
      address = record { hash = hash; start = q.start; len = q.len };
      addrs = refl;
      in_block = refl;
      reads = ground (arith, b.0, b.1, h);
    },
    address_entry-RestoresAll hash buf queue contents h b.2,
  )

  abbrev pub Named : BlockHash → Stored p lib cache exists → Type 0
  Named hash f = (h : BlockHash) → f.0 ≡ ok h → h ≡ hash

  after_write-Named :
      (self : BlockDir C E) (stats : BackupStats) (hash : BlockHash) (bytes z : Bytes)
      (r : Result ErrorKind (Unit {0}) × S)
      → Named hash (after_write p lib cache exists self stats hash bytes z r)
  unfolding after_write wrote
  after_write-Named self stats hash bytes z (ok u, s) = λ h k. ground arith
  after_write-Named self stats hash bytes z (err x, s) = elim (Bool-cases (is_already_exists x)) [
    | inl t ↦ rw t (λ h k. ground arith)
    | inr f ↦ rw f (λ h k. cc)
  ]

  store_new-Named :
      (s : S) (self : BlockDir C E) (stats : BackupStats) (hash : BlockHash) (bytes : Bytes)
      (z : Option Bytes)
      → Named hash (store_new p lib cache exists s self stats hash bytes z)
  unfolding store_new after_subdir
  store_new-Named s self stats hash bytes none = λ h k. cc
  store_new-Named s self stats hash bytes (some z) =
      by_subdir (p.create_dir s (join self.dir (subdir_relpath (lib.encode hash))))
    where
      by_subdir :
          (r : Result ErrorKind (Unit {0}) × S)
          → Named hash (after_subdir p lib cache exists self stats hash bytes z r)
      by_subdir (err x, s') = λ h k. cc
      by_subdir (ok u, s') =
          after_write-Named self stats hash bytes z
            (p.write_file s' (path_of p lib cache exists self hash) z create_new)

  -- A block is stored under the hash of its content.
  pub store-Named :
      (s : S) (self : BlockDir C E) (bytes : Bytes) (stats : BackupStats)
      → Named (lib.hash_bytes bytes) (store_or_deduplicate p lib cache exists s self bytes stats)
  unfolding store_or_deduplicate store_checked
  store-Named s self bytes stats =
      by_seen (contains p lib cache exists s self (lib.hash_bytes bytes))
    where
      by_seen :
          (r : Result BlockError Bool × BlockDir C E)
          → Named
              (lib.hash_bytes bytes)
              (store_checked p lib cache exists s stats (lib.hash_bytes bytes) bytes r)
      by_seen (err x, self') = λ h k. cc
      by_seen (ok true, self') = λ h k. ground arith
      by_seen (ok false, self') =
          store_new-Named s self' stats (lib.hash_bytes bytes) bytes (lib.compress bytes)

  -- What a flush that succeeds leaves.
  pub record Flushed (self : FileCombiner C E) (contents : List Bytes) (self' : FileCombiner C E)
      : Type 0 where
    pub entries : List IndexEntry
    pub finished : self'.finished ≡ self.finished ++ entries
    pub restores : RestoresAll (lib.hash_bytes self.buf) self.buf entries contents
    pub queue : self'.queue ≡ []
    pub buf : self'.buf ≡ []

  after_store-Flushed :
      (self : FileCombiner C E) (contents : List Bytes) (f : Stored p lib cache exists)
      → Named (lib.hash_bytes self.buf) f
      → length self.buf < usize_mod
      → Buffered self.buf self.queue contents
      → (after_store p lib cache exists self f).0 ≡ ok tt
      → Flushed self contents (after_store p lib cache exists self f).1
  unfolding after_store
  after_store-Flushed self contents (err e, bd, stats, s) named h b k = elim (apart k) [ ]
    where
      apart : ◌≡◌ {A = Result CombinerError (Unit {0})} (err (block e)) (ok tt) → ⊥
      apart x = cc
  after_store-Flushed self contents (ok hash, bd, stats, s) named h b k = record {
    entries = map (address_entry hash) self.queue;
    finished = refl;
    restores =
        rw (← named hash refl) (address_entry-RestoresAll hash self.buf self.queue contents h b);
    queue = refl;
    buf = refl;
  }

  -- If the buffer, shorter than 2^64, holds each queued file with its content, then a flush of a
  -- queue that is not empty, when it succeeds, finishes one entry for each queued file, in their
  -- order, whose only address lies in the block of the buffer's hash and reads that file's content;
  -- and it leaves the queue and the buffer empty.
  pub flush-Flushed :
      (s s' : S) (self self' : FileCombiner C E) (q : QueuedFile) (qs : List QueuedFile)
      (contents : List Bytes)
      → self.queue ≡ q ∷ qs
      → length self.buf < usize_mod
      → Buffered self.buf self.queue contents
      → flush p lib cache exists s self ≡ some (ok tt, self', s')
      → Flushed self contents self'
  unfolding flush flush_queue
  flush-Flushed s s' self self' q qs contents e h b k =
      let stored = store_or_deduplicate p lib cache exists s self.block_dir self.buf self.stats in
      let same : after_store p lib cache exists self stored ≡ (ok tt, self', s') =
        some-injective (after_store p lib cache exists self stored) (ok tt, self', s')
          (sym (ap (λ x. flush_queue p lib cache exists s self x self.buf) e) ∙ k) in
      subst (Flushed self contents) (ap (λ (x : Outcome p lib cache exists). x.1) same) (
        after_store-Flushed self contents stored (store-Named s self.block_dir self.buf self.stats)
          h b (ap (λ (x : Outcome p lib cache exists). x.0) same))

  -- A file of at least one byte whose content is read and which does not fill the block is queued:
  -- the buffer still holds each queued file with its content, the new one last.
  pub push_file-Buffered :
      (times : TimeLib) (s : S) (self : FileCombiner C E) (entry : EntryValue times)
      (read : ℕ → Result (Unit {0}) Bytes) (n b : ℕ) (content : Bytes) (contents : List Bytes)
      → Buffered self.buf self.queue contents
      → size_of_meta entry.kind_meta ≡ some (suc n)
      → read (suc n) ≡ ok (b ∷ content)
      → length (self.buf ++ b ∷ content) < self.max_block_size
      → (self' : FileCombiner C E) × (push_file p lib cache exists times s self entry read
          ≡ some (ok tt, self', s))
        × Buffered self'.buf self'.queue (contents ++ ((b ∷ content) ∷ []))
        × (self'.finished ≡ self.finished)
  unfolding push_file after_file flush_full enqueue
  push_file-Buffered times s self entry read n b content contents h e r fits = (
    enqueue p lib cache exists self (metadata_from times entry) (b ∷ content),
    ap (push_sized p lib cache exists s self (metadata_from times entry) read) e
        ∙ ap (after_file p lib cache exists s self (metadata_from times entry) (suc n)) r
        ∙ not_full,
    Buffered-enqueue self.buf self.queue contents (metadata_from times entry) (b ∷ content) h,
    refl,
  )
    where
      not_full :
          flush_full p lib cache exists s
            (enqueue p lib cache exists self (metadata_from times entry) (b ∷ content))
          ≡ some
              (ok tt, enqueue p lib cache exists self (metadata_from times entry) (b ∷ content), s)
      not_full = ground (arith, fits)

  after_store-finished :
      (self : FileCombiner C E) (f : Stored p lib cache exists)
      → Named (lib.hash_bytes self.buf) f
      → (after_store p lib cache exists self f).0 ≡ ok tt
      → (after_store p lib cache exists self f).1.finished
        ≡ self.finished ++ map (address_entry (lib.hash_bytes self.buf)) self.queue
  unfolding after_store
  after_store-finished self (err e, bd, stats, s) named k = elim (apart k) [ ]
    where
      apart : ◌≡◌ {A = Result CombinerError (Unit {0})} (err (block e)) (ok tt) → ⊥
      apart x = cc
  after_store-finished self (ok hash, bd, stats, s) named k =
      ap (λ h. self.finished ++ map (address_entry h) self.queue) (named hash refl)

  flush-finished :
      (s s' : S) (self self' : FileCombiner C E) (q : QueuedFile) (qs : List QueuedFile)
      → self.queue ≡ q ∷ qs
      → flush p lib cache exists s self ≡ some (ok tt, self', s')
      → self'.finished ≡ self.finished ++ map (address_entry (lib.hash_bytes self.buf)) (q ∷ qs)
  unfolding flush flush_queue
  flush-finished s s' self self' q qs e k =
      let stored = store_or_deduplicate p lib cache exists s self.block_dir self.buf self.stats in
      let same : after_store p lib cache exists self stored ≡ (ok tt, self', s') =
        some-injective (after_store p lib cache exists self stored) (ok tt, self', s')
          (sym (ap (λ x. flush_queue p lib cache exists s self x self.buf) e) ∙ k) in
      sym (ap (λ (x : Outcome p lib cache exists). x.1.finished) same)
      ∙ after_store-finished self stored (store-Named s self.block_dir self.buf self.stats)
          (ap (λ (x : Outcome p lib cache exists). x.0) same)
      ∙ ap (λ x. self.finished ++ map (address_entry (lib.hash_bytes self.buf)) x) e

  -- What a flush that fails leaves.
  abbrev Left : FileCombiner C E → FileCombiner C E → Type 0
  Left self self' = (self'.queue ≡ self.queue) × (self'.buf ≡ []) × (self'.finished ≡ self.finished)

  after_store-Left :
      (self : FileCombiner C E) (f : Stored p lib cache exists) (x : CombinerError)
      → (after_store p lib cache exists self f).0 ≡ err x
      → Left self (after_store p lib cache exists self f).1
  unfolding after_store
  after_store-Left self (err e, bd, stats, s) x k = (refl, refl, refl)
  after_store-Left self (ok hash, bd, stats, s) x k = elim (apart k) [ ]
    where
      apart : ◌≡◌ {A = Result CombinerError (Unit {0})} (ok tt) (err x) → ⊥
      apart y = cc

  flush-Left :
      (s s' : S) (self self' : FileCombiner C E) (q : QueuedFile) (qs : List QueuedFile)
      (x : CombinerError)
      → self.queue ≡ q ∷ qs
      → flush p lib cache exists s self ≡ some (err x, self', s')
      → Left self self'
  unfolding flush flush_queue
  flush-Left s s' self self' q qs x e k =
      let stored = store_or_deduplicate p lib cache exists s self.block_dir self.buf self.stats in
      let same : after_store p lib cache exists self stored ≡ (err x, self', s') =
        some-injective (after_store p lib cache exists self stored) (err x, self', s')
          (sym (ap (λ y. flush_queue p lib cache exists s self y self.buf) e) ∙ k) in
      subst (Left self) (ap (λ (y : Outcome p lib cache exists). y.1) same)
        (after_store-Left self stored x (ap (λ (y : Outcome p lib cache exists). y.0) same))

  -- If storing the block of a queue that is not empty fails, the buffer is emptied and the queue
  -- stays; when another file is queued behind it and the next flush succeeds, the old files' entries
  -- are finished with addresses in the new block, which holds that other file alone.
  pub flush-stale_queue :
      (s s1 s2 s3 : S) (self self1 self2 : FileCombiner C E) (q : QueuedFile) (qs : List QueuedFile)
      (x : CombinerError) (entry : IndexEntry) (content : Bytes)
      → self.queue ≡ q ∷ qs
      → flush p lib cache exists s self ≡ some (err x, self1, s1)
      → flush p lib cache exists s2 (enqueue p lib cache exists self1 entry content)
        ≡ some (ok tt, self2, s3)
      → self2.finished
        ≡ self.finished
          ++ map
              (address_entry (lib.hash_bytes content))
              (q ∷ (qs ++ (record { start = 0; len = length content; entry = entry } ∷ [])))
  unfolding enqueue
  flush-stale_queue s s1 s2 s3 self self1 self2 q qs x entry content e k l =
      let (queue, buf, finished) = flush-Left s s1 self self1 q qs x e k in
      let new_queue : List QueuedFile =
        record { start = length self1.buf; len = length content; entry = entry } ∷ [] in
      let held =
        flush-finished s2 s3 (enqueue p lib cache exists self1 entry content) self2 q
          (qs ++ new_queue) (ap (λ ys. ys ++ new_queue) (queue ∙ e)) l in
      subst
        (λ ys.
          self2.finished
          ≡ ys
            ++ map (address_entry (lib.hash_bytes content))
                (q ∷ (qs ++ (record { start = 0; len = length content; entry = entry } ∷ []))))
        finished
        (subst
          (λ (b : Bytes).
            self2.finished
            ≡ self1.finished
              ++ map (address_entry (lib.hash_bytes (b ++ content))) (
                  q
                  ∷ (qs
                      ++ (record { start = length b; len = length content; entry = entry } ∷ []))))
          buf held)
