-- ===== src/Backup/Counted.antt =====
-- No entry is lost or queued twice by the copying of an entry.
use conserve.Common.{
  ℕ, zero, suc, ◌+◌, List, [], ◌∷◌, ◌++◌, Option, none, some, Bool, true, false, ◌&&◌, Bool-cases,
  inl, inr, if◌then◌else◌, str_eq, ltb, leb, map, length, ◌≡◌, ◌≢◌, refl, ap, subst, arith, Str,
}
use conserve.Common.Results.{Result, ok, err}
use conserve.Apath.{Apath}
use conserve.Entry.{
  BlockHash, IndexEntry, EntryValue, TimeLib, Kind, file, dir, symlink, unknown, kind_of_meta,
  size_of_meta, target_of_meta, metadata_from,
}
use conserve.Change.{EntryChange}
use conserve.Transport.{Bytes, Protocol}
use conserve.Index.Writer.{push_entry}
use conserve.BlockDir.{BlockLib, LruCache, BlockDir, Stored, store_or_deduplicate}
use conserve.Combiner.{
  QueuedFile, FileCombiner, address_entry, Outcome, after_store, flush_queue, flush, finish_empty,
  enqueue, flush_full, after_file, push_sized, push_file,
}
use conserve.Backup.{Reader, Filed, store_file_content}
use conserve.Index.Entries.{advance_to}
use conserve.Backup.Copy.{
  BackupOptions, BackupWriter, Copied, queue_entry, copy_dir, with_target, copy_symlink,
  small_copied, large_copied, copy_opened, copy_sized, copy_content, keep_addrs, copy_unchanged,
  all_blocks_present, copy_compared, copy_found, copy_file, copy_advanced, ran_out, copy_entry,
  with_content, copy_kind,
}

abbrev pub one : Apath → Apath → ℕ
one q a = if str_eq a q then 1 else 0

-- How many entries, or queued files, have the path.
abbrev pub count : Apath → List IndexEntry → ℕ
count q [] = 0
count q (e ∷ es) = one q e.apath + count q es

abbrev pub count_queued : Apath → List QueuedFile → ℕ
count_queued q [] = 0
count_queued q (f ∷ fs) = one q f.entry.apath + count_queued q fs

count-append : (q : Apath) (xs ys : List IndexEntry) → count q (xs ++ ys) ≡ count q xs + count q ys
count-append q [] ys = omega arith
count-append q (x ∷ xs) ys = omega (arith, count-append q xs ys)

count_queued-append :
    (q : Apath) (xs ys : List QueuedFile)
    → count_queued q (xs ++ ys) ≡ count_queued q xs + count_queued q ys
count_queued-append q [] ys = omega arith
count_queued-append q (x ∷ xs) ys = omega (arith, count_queued-append q xs ys)

count-address_entry :
    (q : Apath) (hash : BlockHash) (fs : List QueuedFile)
    → count q (map (address_entry hash) fs) ≡ count_queued q fs
unfolding address_entry
count-address_entry q hash [] = refl
count-address_entry q hash (f ∷ fs) =
    ap (λ n. one q f.entry.apath + n) (count-address_entry q hash fs)

abbrev pub combined : {C E : Type 0} → Apath → FileCombiner C E → ℕ
combined q self = count q self.finished + count_queued q self.queue

-- The entries with the path that the writer has not written yet.
abbrev pub pending : {C E : Type 0} → Apath → BackupWriter C E → ℕ
pending q self = count q self.index_builder.entries + combined q self.file_combiner

module _ {S C E : Type 0} (p : Protocol S) (lib : BlockLib) (cache : LruCache Bytes C)
    (exists : LruCache (Unit {0}) E) (q : Apath) where
  -- If the combiner succeeds it holds so many entries with the path.
  abbrev Holds : ℕ → Option (Outcome p lib cache exists) → Type 0
  Holds n none = Unit
  Holds n (some (err e, self, s)) = Unit
  Holds n (some (ok u, self, s)) = combined q self ≡ n

  after_store-Holds :
      (self : FileCombiner C E) (r : Stored p lib cache exists)
      → Holds (combined q self) (some (after_store p lib cache exists self r))
  unfolding after_store
  after_store-Holds self (err e, block_dir, stats, s) = tt
  after_store-Holds self (ok hash, block_dir, stats, s) = omega (
    arith,
    count-append q self.finished (map (address_entry hash) self.queue),
    count-address_entry q hash self.queue,
  )

  flush-Holds :
      (s : S) (self : FileCombiner C E) → Holds (combined q self) (flush p lib cache exists s self)
  unfolding flush
  flush-Holds s self = by_queue self.queue self.buf
    where
      by_queue :
          (queue : List QueuedFile) (buf : Bytes)
          → Holds (combined q self) (flush_queue p lib cache exists s self queue buf)
      by_queue [] [] = unfold flush_queue in refl
      by_queue [] (b ∷ buf) = unfold flush_queue in tt
      by_queue (f ∷ fs) buf =
          unfold flush_queue in
          after_store-Holds self
            (store_or_deduplicate p lib cache exists s self.block_dir buf self.stats)

  flush_full-Holds :
      (s : S) (self : FileCombiner C E)
      → Holds (combined q self) (flush_full p lib cache exists s self)
  unfolding flush_full
  flush_full-Holds s self = elim (Bool-cases (ltb (length self.buf) self.max_block_size)) [
    | inl t ↦ rw t refl
    | inr f ↦ rw f (flush-Holds s self)
  ]

  finish_empty-combined :
      (self : FileCombiner C E) (entry : IndexEntry)
      → combined q (finish_empty p lib cache exists self entry)
        ≡ one q entry.apath + combined q self
  unfolding finish_empty
  finish_empty-combined self entry = omega (arith, count-append q self.finished (entry ∷ []))

  after_file-Holds :
      (s : S) (self : FileCombiner C E) (entry : IndexEntry) (n : ℕ) (r : Result (Unit {0}) Bytes)
      → Holds (one q entry.apath + combined q self) (after_file p lib cache exists s self entry n r)
  unfolding after_file
  after_file-Holds s self entry n (err e) = tt
  after_file-Holds s self entry n (ok []) = finish_empty-combined self entry
  after_file-Holds s self entry n (ok (b ∷ content)) =
      subst
        (λ m.
          Holds m
            (flush_full p lib cache exists s (enqueue p lib cache exists self entry (b ∷ content))))
        queued (flush_full-Holds s (enqueue p lib cache exists self entry (b ∷ content)))
    where
      queued :
          combined q (enqueue p lib cache exists self entry (b ∷ content))
          ≡ one q entry.apath + combined q self
      queued =
          unfold enqueue in
          omega (
            arith,
            count_queued-append q self.queue (
                record { start = length self.buf; len = length (b ∷ content); entry = entry } ∷ []),
          )

  push_file-Holds :
      (times : TimeLib) (s : S) (self : FileCombiner C E) (source : EntryValue times)
      (read : ℕ → Result (Unit {0}) Bytes)
      → Holds
          (one q source.apath + combined q self)
          (push_file p lib cache exists times s self source read)
  unfolding push_file
  push_file-Holds times s self source read = by_size (size_of_meta source.kind_meta)
    where
      by_size :
          (size : Option ℕ)
          → Holds
              (one q source.apath + combined q self)
              (push_sized p lib cache exists s self (metadata_from times source) read size)
      by_size none = unfold push_sized in tt
      by_size (some zero) =
          unfold push_sized metadata_from in finish_empty-combined self (metadata_from times source)
      by_size (some (suc n)) =
          unfold push_sized metadata_from in
          after_file-Holds s self (metadata_from times source) (suc n) (read (suc n))

module _ {S C E R : Type 0} (p : Protocol S) (lib : BlockLib) (cache : LruCache Bytes C)
    (exists : LruCache (Unit {0}) E) (reader : Reader R) (times : TimeLib)
    (time_eq : times.Time → times.Time → Bool) (open_file : EntryValue times → Result (Unit {0}) R)
    (options : BackupOptions) (fuel : ℕ) (q : Apath) where
  -- If the copying succeeds the writer holds so many entries with the path.
  abbrev Leaves : ℕ → Copied p lib cache exists reader times time_eq open_file options fuel → Type 0
  Leaves n none = Unit
  Leaves n (some (err e, self, s)) = Unit
  Leaves n (some (ok change, self, s)) = pending q self ≡ n

  module _ (s : S) (source : EntryValue times) where
    -- One entry with the path of the source.
    abbrev more : BackupWriter C E → ℕ
    more self = one q source.apath + pending q self

    queue_entry-pending :
        (self : BackupWriter C E) (entry : IndexEntry)
        → entry.apath ≡ source.apath
        → pending q
            (queue_entry p lib cache exists reader times time_eq open_file options fuel self entry)
          ≡ more self
    unfolding push_entry
    queue_entry-pending self entry e =
        omega (arith, count-append q self.index_builder.entries (entry ∷ []), ap (one q) e)

    copy_opened-Leaves :
        (self : BackupWriter C E) (change : EntryChange times.Time) (size : ℕ)
        (r : Result (Unit {0}) R)
        → Leaves (more self) (
            copy_opened p lib cache exists reader times time_eq open_file options fuel s self source
              change size r)
    unfolding copy_opened
    copy_opened-Leaves self change size (err e) = tt
    copy_opened-Leaves self change size (ok r) = by_size (leb size options.small_file_cap)
      where
        by_small :
            (o : Option (Outcome p lib cache exists))
            → Holds p lib cache exists q (one q source.apath + combined q self.file_combiner) o
            → Leaves (more self) (
                small_copied p lib cache exists reader times time_eq open_file options fuel self
                  change o)
        by_small none h = tt
        by_small (some (err e, combiner, s')) h = tt
        by_small (some (ok u, combiner, s')) h = omega (arith, h)

        by_large :
            (o : Option (Filed p lib cache exists reader options.max_block_size))
            → Leaves (more self) (
                large_copied p lib cache exists reader times time_eq open_file options fuel self
                  source change o)
        by_large none = tt
        by_large (some (err e, r', block_dir, stats, s')) = tt
        by_large (some (ok addrs, r', block_dir, (stats, counts), s')) =
            queue_entry-pending
              (with_content p lib cache exists reader times time_eq open_file options fuel self
                block_dir (stats, counts))
              (record (metadata_from times source) { addrs = addrs }) (unfold metadata_from in refl)

        by_size :
            (small : Bool)
            → Leaves (more self) (
                if small
                then small_copied p lib cache exists reader times time_eq open_file options fuel
                    self change
                    (push_file p lib cache exists times s self.file_combiner source
                      (λ n. (reader.read r n).0))
                else large_copied p lib cache exists reader times time_eq open_file options fuel
                    self source change
                    (store_file_content p lib cache exists reader options.max_block_size fuel r s
                      self.file_combiner.block_dir
                      (self.stats, self.counts)))
        by_size true = by_small _ (
            push_file-Holds p lib cache exists q times s self.file_combiner source
              (λ n. (reader.read r n).0))
        by_size false = by_large _

    copy_sized-Leaves :
        (self : BackupWriter C E) (change : EntryChange times.Time) (size : Option ℕ)
        → Leaves (more self) (
            copy_sized p lib cache exists reader times time_eq open_file options fuel s self source
              change size)
    unfolding copy_sized metadata_from
    copy_sized-Leaves self change none = tt
    copy_sized-Leaves self change (some zero) =
        queue_entry-pending self (metadata_from times source) refl
    copy_sized-Leaves self change (some (suc n)) =
        copy_opened-Leaves self change (suc n) (open_file source)

    copy_content-Leaves :
        (self : BackupWriter C E) (change : Option (EntryChange times.Time))
        → Leaves (more self) (
            copy_content p lib cache exists reader times time_eq open_file options fuel s self
              source change)
    copy_content-Leaves self none = tt
    copy_content-Leaves self (some change) =
        copy_sized-Leaves self change (size_of_meta source.kind_meta)

    keep_addrs-Leaves :
        (self : BackupWriter C E) (entry : IndexEntry) (change : Option (EntryChange times.Time))
        → entry.apath ≡ source.apath
        → Leaves (more self) (
            keep_addrs p lib cache exists reader times time_eq open_file options fuel s self entry
              change)
    keep_addrs-Leaves self entry none e = tt
    keep_addrs-Leaves self entry (some change) e = queue_entry-pending self entry e

    copy_file-Leaves :
        (self : BackupWriter C E)
        → Leaves
            (more self)
            (copy_file p lib cache exists reader times time_eq open_file options fuel s self source)
    unfolding copy_file copy_found copy_compared copy_unchanged metadata_from
    copy_file-Leaves self = by_broken (advance_to self.basis_index source.apath).0 (
        self.basis_breaks
        && ran_out (advance_to self.basis_index source.apath).0
            (advance_to self.basis_index source.apath).1.buffered_entries)
      where
        found : BackupWriter C E
        found =
            let counts = self.counts in
            record self {
              counts = record counts { files = counts.files + 1 };
              basis_index = (advance_to self.basis_index source.apath).1;
            }

        by_present :
            (basis : IndexEntry) (r : Bool × BlockDir C E)
            → Leaves (more self) (
                copy_unchanged p lib cache exists reader times time_eq open_file options fuel s
                  found source basis r)
        by_present basis (true, block_dir) = keep_addrs-Leaves _ _ _ refl
        by_present basis (false, block_dir) = copy_content-Leaves _ _

        by_compared :
            (basis : IndexEntry) (r : Option Bool)
            → Leaves (more self) (
                copy_compared p lib cache exists reader times time_eq open_file options fuel s found
                  source basis r)
        by_compared basis none = tt
        by_compared basis (some true) =
            by_present basis
              (all_blocks_present p lib cache exists s basis.addrs self.file_combiner.block_dir)
        by_compared basis (some false) = copy_content-Leaves _ _

        by_basis :
            (basis : Option IndexEntry)
            → Leaves (more self) (
                copy_found p lib cache exists reader times time_eq open_file options fuel s found
                  source basis)
        by_basis none = copy_content-Leaves _ _
        by_basis (some basis) = by_compared basis _

        by_broken :
            (basis : Option IndexEntry) (broken : Bool)
            → Leaves (more self) (
                copy_advanced p lib cache exists reader times time_eq open_file options fuel s found
                  source basis broken)
        by_broken basis true = tt
        by_broken basis false = by_basis basis

    copy_symlink-Leaves :
        (self : BackupWriter C E)
        → Leaves (more self) (
            copy_symlink p lib cache exists reader times time_eq open_file options fuel s self
              source)
    unfolding copy_symlink metadata_from
    copy_symlink-Leaves self = by_target (target_of_meta source.kind_meta)
      where
        linked : BackupWriter C E
        linked =
            let counts = self.counts in
            record self { counts = record counts { symlinks = counts.symlinks + 1 } }

        by_target :
            (target : Option Str)
            → Leaves (more self) (
                with_target p lib cache exists reader times time_eq open_file options fuel s linked
                  source target)
        by_target none = tt
        by_target (some t) = queue_entry-pending linked (metadata_from times source) refl

    copy_kind-Leaves :
        (self : BackupWriter C E) (kind : Kind)
        → kind ≢ unknown
        → Leaves (more self) (
            copy_kind p lib cache exists reader times time_eq open_file options fuel s self source
              kind)
    unfolding copy_dir metadata_from
    copy_kind-Leaves self dir known = queue_entry-pending self (metadata_from times source) refl
    copy_kind-Leaves self file known = copy_file-Leaves self
    copy_kind-Leaves self symlink known = copy_symlink-Leaves self
    copy_kind-Leaves self unknown known = elim (known refl) [ ]

    -- When the copying of a directory, a file or a link succeeds, by whichever way, one entry more with
    -- its path waits to be written, in the writer of the index or in the combiner, and the entries of
    -- every other path are as many as before.
    pub copy_entry-pending :
        (self self' : BackupWriter C E) (s' : S) (change : Option (EntryChange times.Time))
        → kind_of_meta source.kind_meta ≢ unknown
        → copy_entry p lib cache exists reader times time_eq open_file options fuel s self source
          ≡ some (ok change, self', s')
        → pending q self' ≡ one q source.apath + pending q self
    unfolding copy_entry
    copy_entry-pending self self' s' change known done =
        subst (Leaves (more self)) done
          (copy_kind-Leaves self (kind_of_meta source.kind_meta) known)
