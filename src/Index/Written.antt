-- ===== src/Index/Written.antt =====
-- What `finish_hunk` writes is what `read_hunk` reads.
use conserve.Common.{
  ℕ, ◌%◌, List, [], ◌∷◌, Option, none, some, Str, Bool, true, false, ◌==◌, ◌≡◌, ◌≢◌, refl, ap, sym,
  subst, ◌∙◌, if◌then◌else◌, length,
}
use conserve.Common.Results.{Result, ok, err}
use conserve.Common.Order.{Ascending}
use mathlib.Core.List.{Perm}
use mathlib.Core.Option.{some-injective}
use conserve.Apath.{cmp, CheckOrder}
use conserve.Entry.{IndexEntry}
use conserve.Transport.{Bytes, ErrorKind, create_new, Protocol, IsLawful, join}
use conserve.Index.{
  IndexCodec, IsFaithful, IndexError, snappy, json, transport, hunk_relpath, open_index, read_hunk,
  read_result, parse_hunk, count_hunk, hunks_per_subdir, subdir_relpath,
}
use conserve.Index.Past.{paths}
use conserve.Index.After.{hunk_at}
use conserve.Index.Writer.{
  IndexWriter, sort, check_ends, Finished, after_write, after_compress, after_subdir, make_subdir,
  after_json, finish_sorted, finish_hunk,
}
use conserve.Index.Sorted.{sort-Ascending}

module _ {S : Type 0} (p : Protocol S) (codec : IndexCodec) (lawful : IsLawful p)
    (faithful : IsFaithful codec) where
  -- The hunk file that a writer is about to write.
  abbrev pub hunk_file : IndexWriter → Str
  hunk_file w = join w.dir (hunk_relpath w.sequence)

  -- What a call leaves for its outcome.
  abbrev Leaves : S → IndexWriter → List IndexEntry → Finished S → Type 0
  Leaves s w sorted (r, w', s') =
      ((q : Str) → hunk_file w ≢ q → p.read_file s' q ≡ p.read_file s q)
      × (r ≡ ok tt → (hunk_at p codec s' w.dir w.sequence ≡ ok (some sorted)) × (w'.entries ≡ []))
      × ((x : IndexError) → r ≡ err x → (w'.entries ≡ w.entries) × (w'.sequence ≡ w.sequence))

  read_back :
      (s : S) (dir : Str) (n : ℕ) (sorted : List IndexEntry) (bytes z : Bytes)
      → codec.to_vec sorted ≡ some bytes
      → codec.compress bytes ≡ some z
      → p.read_file s (join dir (hunk_relpath n)) ≡ ok z
      → hunk_at p codec s dir n ≡ ok (some sorted)
  unfolding hunk_at read_hunk read_result parse_hunk open_index
  read_back s dir n sorted bytes z e f h =
      ap (λ (r : Result ErrorKind Bytes). (read_result p codec (open_index dir) r).0) h
      ∙ ap (λ (b : Option Bytes). (parse_hunk p codec (count_hunk (open_index dir) (length z)) b).0)
          (faithful.decompress-compress bytes z f)
      ∙ parsed
    where
      parsed :
          (parse_hunk p codec (count_hunk (open_index dir) (length z)) (some bytes)).0
          ≡ ok (some sorted)
      parsed = rw (parse_hunk, faithful.from_slice-to_vec sorted bytes e) refl

  after_write-Leaves :
      (s : S) (w : IndexWriter) (sorted : List IndexEntry) (bytes z : Bytes)
      → codec.to_vec sorted ≡ some bytes
      → codec.compress bytes ≡ some z
      → (r : Result ErrorKind (Unit {0}) × S) → p.write_file s (hunk_file w) z create_new ≡ r
      → Leaves s w sorted (after_write p codec w r)
  unfolding after_write
  after_write-Leaves s w sorted bytes z e f (ok u, s') h = (
    λ q n.
        sym (ap (λ (x : Result ErrorKind (Unit {0}) × S). p.read_file x.1 q) h)
        ∙ lawful.read_other s (hunk_file w) q z create_new n,
    λ _. (
      read_back s' w.dir w.sequence sorted bytes z e f
          (lawful.read_written s s' (hunk_file w) z create_new h),
      refl,
    ),
    λ x k. cc,
  )
  after_write-Leaves s w sorted bytes z e f (err x, s') h = (
    λ q n.
        sym (ap (λ (x : Result ErrorKind (Unit {0}) × S). p.read_file x.1 q) h)
        ∙ lawful.read_other s (hunk_file w) q z create_new n,
    λ k. cc,
    λ x k. (refl, refl),
  )

  unchanged :
      (s : S) (w : IndexWriter) (sorted : List IndexEntry) (x : IndexError)
      → Leaves s w sorted (err x, w, s)
  unchanged s w sorted x = (λ q n. refl, λ k. cc, λ y k. (refl, refl))

  after_compress-Leaves :
      (s : S) (w : IndexWriter) (sorted : List IndexEntry) (bytes : Bytes)
      → codec.to_vec sorted ≡ some bytes
      → (z : Option Bytes) → codec.compress bytes ≡ z
      → Leaves s w sorted (after_compress p codec w s z)
  unfolding after_compress
  after_compress-Leaves s w sorted bytes e none f = unchanged s w sorted snappy
  after_compress-Leaves s w sorted bytes e (some z) f =
      after_write-Leaves s w sorted bytes z e f (p.write_file s (hunk_file w) z create_new) refl

  same_files :
      (s0 s : S) (w : IndexWriter) (sorted : List IndexEntry) (f : Finished S)
      → ((q : Str) → p.read_file s q ≡ p.read_file s0 q)
      → Leaves s w sorted f
      → Leaves s0 w sorted f
  same_files s0 s w sorted f same (files, done, failed) = (λ q n. files q n ∙ same q, done, failed)

  after_subdir-Leaves :
      (s0 : S) (w : IndexWriter) (sorted : List IndexEntry) (bytes : Bytes)
      → codec.to_vec sorted ≡ some bytes
      → (r : Result ErrorKind (Unit {0}) × S) → ((q : Str) → p.read_file r.1 q ≡ p.read_file s0 q)
      → Leaves s0 w sorted (after_subdir p codec w bytes r)
  unfolding after_subdir
  after_subdir-Leaves s0 w sorted bytes e (err x, s) same =
      same_files s0 s w sorted (err (transport x), w, s) same (unchanged s w sorted (transport x))
  after_subdir-Leaves s0 w sorted bytes e (ok u, s) same =
      same_files s0 s w sorted (after_compress p codec w s (codec.compress bytes)) same
        (after_compress-Leaves s w sorted bytes e (codec.compress bytes) refl)

  make_subdir-same :
      (s : S) (w : IndexWriter) (q : Str)
      → p.read_file (make_subdir p codec w s).1 q ≡ p.read_file s q
  unfolding make_subdir
  make_subdir-same s w q = by_test (w.sequence % hunks_per_subdir == 0)
    where
      by_test :
          (b : Bool)
          → p.read_file
              (if b then p.create_dir s (join w.dir (subdir_relpath w.sequence)) else (ok tt, s)).1
              q
            ≡ p.read_file s q
      by_test true = lawful.read_create_dir s (join w.dir (subdir_relpath w.sequence)) q
      by_test false = refl

  after_json-Leaves :
      (s : S) (w : IndexWriter) (sorted : List IndexEntry) (bytes : Option Bytes)
      → codec.to_vec sorted ≡ bytes
      → Leaves s w sorted (after_json p codec w s bytes)
  unfolding after_json
  after_json-Leaves s w sorted none e = unchanged s w sorted json
  after_json-Leaves s w sorted (some bytes) e =
      after_subdir-Leaves s w sorted bytes e (make_subdir p codec w s) (make_subdir-same s w)

  -- What a call of `finish_hunk` on a queue that is not empty leaves.
  abbrev pub Hunk : S → IndexWriter → Finished S → Type 0
  Hunk s w (r, w', s') =
      (sorted : List IndexEntry) × Ascending cmp (paths sorted)
      × Perm sorted w.entries
      × ((q : Str) → hunk_file w ≢ q → p.read_file s' q ≡ p.read_file s q)
      × (r ≡ ok tt → (hunk_at p codec s' w.dir w.sequence ≡ ok (some sorted)) × (w'.entries ≡ []))
      × ((x : IndexError) → r ≡ err x → (w'.entries ≡ sorted) × (w'.sequence ≡ w.sequence))

  finish_sorted-Hunk :
      (s : S) (w : IndexWriter) (x : Option (List IndexEntry)) (f : Finished S)
      → sort w.entries ≡ x
      → finish_sorted p codec s w x ≡ some f
      → Hunk s w f
  unfolding finish_sorted
  finish_sorted-Hunk s w none f e h = cc
  finish_sorted-Hunk s w (some sorted) f e h = by_check (check_ends w.check_order sorted) h
    where
      by_check :
          (c : Option CheckOrder)
          → elim c [
            | none ↦ none
            | some c' ↦ some (
                after_json p codec
                  (record w { entries = sorted; check_order = c' })
                  s
                  (codec.to_vec sorted))
          ]
            ≡ some f
          → Hunk s w f
      by_check none k = cc
      by_check (some c') k =
          let w' = record w { entries = sorted; check_order = c' } in
          let order = sort-Ascending w.entries sorted e in
          let leaves = after_json-Leaves s w' sorted (codec.to_vec sorted) refl in
          subst (Hunk s w) (some-injective (after_json p codec w' s (codec.to_vec sorted)) f k)
            (sorted, order.0, order.1, leaves.0, leaves.1, leaves.2)

-- Over a lawful transport and a faithful codec, a call of `finish_hunk` with queued entries that does
-- not panic leaves every other file as it was; the hunk is a permutation of the queue in strictly
-- ascending order of paths; on success `read_hunk` reads that hunk back and the queue is empty; on
-- an error the sorted entries stay queued under the same sequence number.
pub finish_hunk-Hunk :
    {S : Type 0} (p : Protocol S) (codec : IndexCodec) (lawful : IsLawful p)
    (faithful : IsFaithful codec) (s : S) (w : IndexWriter) (f : Finished S)
    → w.entries ≢ []
    → finish_hunk p codec s w ≡ some f
    → Hunk p codec lawful faithful s w f
unfolding finish_hunk
finish_hunk-Hunk p codec lawful faithful s w f ne h = by_queue w.entries refl
  where
    by_queue : (es : List IndexEntry) → w.entries ≡ es → Hunk p codec lawful faithful s w f
    by_queue [] e = elim (ne e) [ ]
    by_queue (x ∷ es) e =
        finish_sorted-Hunk p codec lawful faithful s w (sort w.entries) f refl (rw e (rw e at h))
