-- ===== src/Backup/Flushed.antt =====
-- What `flush_group` of src/backup.rs leaves.
use conserve.Common.{
  List, [], ◌∷◌, ◌++◌, Option, none, some, Bool, true, false, ◌==◌, ◌≡◌, ◌≢◌, refl, ap, sym, subst,
  ◌∙◌, if◌then◌else◌, length, arith,
}
use conserve.Common.Results.{Result, ok, err}
use conserve.Common.Order.{Ascending}
use mathlib.Core.List.{Perm}
use conserve.Apath.{cmp}
use conserve.Entry.{IndexEntry}
use conserve.Transport.{Bytes, Protocol, IsLawful}
use conserve.Index.{IndexCodec, IsFaithful}
use conserve.Index.Past.{paths}
use conserve.Index.After.{hunk_at}
use conserve.Index.Writer.{IndexWriter, Finished, append_entries, finish_hunk}
use conserve.Index.Written.{finish_hunk-Hunk}
use conserve.BlockDir.{BlockLib, LruCache, BackupStats}
use conserve.Combiner.{
  QueuedFile, FileCombiner, CombinerError, Outcome, zero_stats, flush, drained, drain,
}
use conserve.Backup.Copy.{BackupWriter}
use conserve.Backup.Session.{Ended, add_stats}
use conserve.Backup.Loop.{flush_group, drained_group, hunk_finished}

module _ {S C E : Type 0} (p : Protocol S) (lib : BlockLib) (cache : LruCache Bytes C)
    (exists : LruCache (Unit {0}) E) where
  abbrev Drained : Type 0
  Drained = Option (Result CombinerError (BackupStats × List IndexEntry) × FileCombiner C E × S)

  abbrev pub IsDrained : FileCombiner C E → Type 0
  IsDrained self = (self.queue ≡ []) × (self.finished ≡ [])

  abbrev Empties : Drained → Type 0
  Empties none = Unit
  Empties (some (err e, self, s)) = Unit
  Empties (some (ok x, self, s)) = IsDrained self

  drained-Empties :
      (o : Option (Outcome p lib cache exists)) → Empties (drained p lib cache exists o)
  unfolding drained
  drained-Empties none = tt
  drained-Empties (some (err e, self, s)) = tt
  drained-Empties (some (ok u, self, s)) = by_test (length self.queue == 0) refl
    where
      Returned : Drained
      Returned =
          some
            (ok (self.stats, self.finished), record self { stats = zero_stats; finished = [] }, s)

      empty_queue : (q : List QueuedFile) → (length q == 0) ≡ true → q ≡ []
      empty_queue [] h = refl
      empty_queue (x ∷ q) h = ground arith

      by_buf : (b : Bool) → self.queue ≡ [] → Empties (if b then Returned else none)
      by_buf true e = (e, refl)
      by_buf false e = tt

      by_test :
          (b : Bool)
          → (length self.queue == 0) ≡ b
          → Empties (if b then (if (length self.buf == 0) then Returned else none) else none)
      by_test true h = by_buf (length self.buf == 0) (empty_queue self.queue h)
      by_test false h = tt

  module _ (codec : IndexCodec) (lawful : IsLawful p) (faithful : IsFaithful codec) where
    -- A hunk that holds the entries in the order of their paths, and nothing that waits.
    abbrev pub Flushed : IndexWriter → List IndexEntry → BackupWriter C E → S → Type 0
    Flushed w entries self' s' =
        (sorted : List IndexEntry) × Ascending cmp (paths sorted)
        × Perm sorted entries
        × (hunk_at p codec s' w.dir w.sequence ≡ ok (some sorted))
        × (self'.index_builder.entries ≡ [])
        × IsDrained self'.file_combiner

    abbrev Flushes : IndexWriter → List IndexEntry → Ended S (BackupWriter C E) → Type 0
    Flushes w entries none = Unit
    Flushes w entries (some (err e, s')) = Unit
    Flushes w entries (some (ok self', s')) = Flushed w entries self' s'

    hunk_finished-Flushes :
        (s : S) (w : IndexWriter) (self : BackupWriter C E) (f : Option (Finished S))
        → w.entries ≢ []
        → IsDrained self.file_combiner
        → finish_hunk p codec s w ≡ f
        → Flushes w w.entries (hunk_finished p lib cache exists codec self f)
    hunk_finished-Flushes s w self none ne empty h = tt
    hunk_finished-Flushes s w self (some (err e, w', s')) ne empty h = tt
    hunk_finished-Flushes s w self (some (ok u, w', s')) ne empty h =
        let (sorted, up, same, others, there, failed) =
          finish_hunk-Hunk p codec lawful faithful s w (ok u, w', s') ne h in
        let (at, left) = there refl in (sorted, up, same, at, left, empty)

    -- When a group is flushed, the entries that waited in the index and those that the combiner
    -- returns, at least one, are read back from the next hunk, in ascending order, and nothing waits
    -- any more in the index or the combiner.
    pub flush_group-Flushed :
        (s s1 s' : S) (self self' : BackupWriter C E) (stats : BackupStats)
        → (entries : List IndexEntry) (combiner : FileCombiner C E)
        → drain p lib cache exists s self.file_combiner ≡ some (ok (stats, entries), combiner, s1)
        → self.index_builder.entries ++ entries ≢ []
        → flush_group p lib cache exists codec s self ≡ some (ok self', s')
        → Flushed self.index_builder (self.index_builder.entries ++ entries) self' s'
    unfolding flush_group drain append_entries
    flush_group-Flushed s s1 s' self self' stats entries combiner got ne done =
        let w : IndexWriter = (append_entries self.index_builder entries).0 in
        subst (Flushes self.index_builder (self.index_builder.entries ++ entries))
          (sym (ap (drained_group p lib cache exists codec self) got) ∙ done)
          (hunk_finished-Flushes s1 w
            (record self { stats = add_stats self.stats stats; file_combiner = combiner })
            (finish_hunk p codec s1 w) ne
            (subst Empties got (drained-Empties (flush p lib cache exists s self.file_combiner)))
            refl)
