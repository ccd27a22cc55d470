-- ===== src/Index/Writer.antt =====
-- `IndexWriter` of src/index.rs: the queue of entries and the writing of hunks. The assertions are
-- those of a debug build; `none` is their panic.
use conserve.Common.{
  ℕ, ◌+◌, ◌%◌, List, [], ◌∷◌, ◌++◌, Option, none, some, Ordering, Str, ◌==◌, if◌then◌else◌,
}
use conserve.Common.Results.{Result, ok, err}
use conserve.Common.Decimal.{u32_mod}
use conserve.Apath.{cmp, CheckOrder, new_check, check}
use conserve.Entry.{IndexEntry}
use conserve.Transport.{Bytes, ErrorKind, create_new, Protocol, join}
use conserve.Index.{
  IndexCodec, IndexError, transport, snappy, json, hunks_per_subdir, subdir_relpath, hunk_relpath,
}
use conserve.Index.Hunks.{last}

pub record IndexWriter : Type 0 where
  pub dir : Str
  pub entries : List IndexEntry
  pub sequence : ℕ
  pub hunks_written : ℕ
  pub check_order : CheckOrder

unfoldable pub new : Str → IndexWriter
new dir = record {
  dir = dir;
  entries = [];
  sequence = 0;
  hunks_written = 0;
  check_order = new_check;
}

unfoldable pub push_entry : IndexWriter → IndexEntry → IndexWriter
push_entry self entry = record self { entries = self.entries ++ (entry ∷ []) }

-- The writer, and what is left of the argument.
unfoldable pub append_entries : IndexWriter → List IndexEntry → IndexWriter × List IndexEntry
append_entries self entries = (record self { entries = self.entries ++ entries }, [])

-- The sort of `finish_hunk`, with the assertion of its comparison.
unfoldable pub insert : IndexEntry → List IndexEntry → Option (List IndexEntry)
insert e [] = some (e ∷ [])
insert e (f ∷ es) =
    let later = insert e es in
    elim (cmp e.apath f.apath) [
      | Ordering.lt ↦ some (e ∷ f ∷ es)
      | Ordering.eq ↦ none
      | Ordering.gt ↦ elim later [ none ↦ none | some rest ↦ some (f ∷ rest) ]
    ]

unfoldable pub sort : List IndexEntry → Option (List IndexEntry)
sort [] = some []
sort (e ∷ es) = elim (sort es) [ none ↦ none | some sorted ↦ insert e sorted ]

-- The check of the first path, and of the last one when there are several.
unfoldable pub check_ends : CheckOrder → List IndexEntry → Option CheckOrder
check_ends c [] = some c
check_ends c (e ∷ []) = check c e.apath
check_ends c (e ∷ f ∷ es) = elim (check c e.apath) [
  | none ↦ none
  | some c' ↦ elim (last (f ∷ es)) [ none ↦ some c' | some l ↦ check c' l.apath ]
]

abbrev pub Finished : Type 0 → Type 0
Finished S = Result IndexError (Unit {0}) × IndexWriter × S

module _ {S : Type 0} (p : Protocol S) (codec : IndexCodec) where
  unfoldable pub after_write : IndexWriter → Result ErrorKind (Unit {0}) × S → Finished S
  after_write self (err e, s) = (err (transport e), self, s)
  after_write self (ok u, s) = (
    ok tt,
    record self {
      hunks_written = self.hunks_written + 1;
      entries = [];
      sequence = (self.sequence + 1) % u32_mod;
    },
    s,
  )

  unfoldable pub after_compress : IndexWriter → S → Option Bytes → Finished S
  unfolding after_write
  after_compress self s none = (err snappy, self, s)
  after_compress self s (some compressed_bytes) =
      after_write self
        (p.write_file s (join self.dir (hunk_relpath self.sequence)) compressed_bytes create_new)

  unfoldable pub after_subdir : IndexWriter → Bytes → Result ErrorKind (Unit {0}) × S → Finished S
  unfolding after_compress
  after_subdir self bytes (err e, s) = (err (transport e), self, s)
  after_subdir self bytes (ok u, s) = after_compress self s (codec.compress bytes)

  unfoldable pub make_subdir : IndexWriter → S → Result ErrorKind (Unit {0}) × S
  make_subdir self s =
      if self.sequence % hunks_per_subdir == 0
      then p.create_dir s (join self.dir (subdir_relpath self.sequence))
      else (ok tt, s)

  unfoldable pub after_json : IndexWriter → S → Option Bytes → Finished S
  unfolding after_subdir make_subdir
  after_json self s none = (err json, self, s)
  after_json self s (some bytes) = after_subdir self bytes (make_subdir self s)

  unfoldable pub finish_sorted : S → IndexWriter → Option (List IndexEntry) → Option (Finished S)
  unfolding after_json
  finish_sorted s self none = none
  finish_sorted s self (some sorted) = elim (check_ends self.check_order sorted) [
    | none ↦ none
    | some c ↦
        some
          (after_json (record self { entries = sorted; check_order = c }) s (codec.to_vec sorted))
  ]

  unfoldable pub finish_hunk : S → IndexWriter → Option (Finished S)
  unfolding finish_sorted
  finish_hunk s self = elim self.entries [
    | [] ↦ some (ok tt, self, s)
    | e ∷ es ↦ finish_sorted s self (sort (e ∷ es))
  ]

  -- `finish`: the number of hunks written.
  unfoldable pub finish : S → IndexWriter → Option (Result IndexError ℕ × S)
  unfolding finish_hunk
  finish s self = elim (finish_hunk s self) [
    | none ↦ none
    | some (ok u, self', s') ↦ some (ok self'.hunks_written, s')
    | some (err e, self', s') ↦ some (err e, s')
  ]
