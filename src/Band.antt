-- ===== src/Band.antt =====
-- Bands (src/band.rs), the tests on bands of src/archive.rs, src/jsonio.rs, and the listing of an
-- index's hunks (src/index.rs). The text of the JSON files and the order of version numbers are the
-- `serde_json` and `semver` crates' and are parameters, as is the clock.
use conserve.Common.{
  ℕ, List, [], ◌∷◌, ◌++◌, Option, none, some, Bool, true, false, Str, str, if◌then◌else◌, Ordering,
}
use Prim.Native.Nat.{compare}
use conserve.Common.Results.{Result, ok, err, map_err}
use conserve.Common.Decimal.{parse_u32}
use conserve.Transport.{Bytes, ErrorKind, create_new, Protocol, is_file, is_not_found, join}
use conserve.BandId.{BandId, to_string, zero_id, next_sibling}
use conserve.Entry.{ℤ}
use conserve.Index.{IndexRead, open_index}
use conserve.Index.Hunks.{IndexHunkIter, iter_hunks}
use conserve.Index.Writer.{IndexWriter}
use conserve.Index.Writer as Writer

abbrev pub index_dir : Str
index_dir = str "i"

abbrev pub band_head_filename : Str
band_head_filename = str "BANDHEAD"

abbrev pub band_tail_filename : Str
band_tail_filename = str "BANDTAIL"

pub record Head : Type 0 where
  pub start_time : ℤ
  pub band_format_version : Option Str
  pub format_flags : List Str

pub record Tail : Type 0 where
  pub end_time : ℤ
  pub index_hunk_count : Option ℕ

pub data BandError : Type 0 where
  transport : ErrorKind → BandError
  json : BandError
  band_head_missing : BandId → BandError
  unsupported_band_version : BandId → Str → BandError
  unsupported_band_format_flags : BandId → List Str → BandError
  band_not_found : BandId → BandError

-- What the bands use of other crates; `none` is an error, and a panic for a version that is no
-- version number.
pub record BandLib : Type 0 where
  pub head_to_string : Head → Option Bytes
  pub head_from_slice : Bytes → Option Head
  pub tail_to_string : Tail → Option Bytes
  pub version_matches : Str → Option Bool
  pub now : ℤ

pub record Band : Type 0 where
  pub band_id : BandId
  pub dir : Str
  pub head : Head

module _ {S : Type 0} (p : Protocol S) where
  -- `write_json`, given the text of the object.
  unfoldable pub write_json : S → Str → Option Bytes → Result BandError (Unit {0}) × S
  write_json s path none = (err json, s)
  write_json s path (some text) =
      let (r, s') = p.write_file s path (text ++ (10 ∷ [])) create_new in (map_err transport r, s')

  abbrev parsed : {T : Type 0} → Option T → Result BandError (Option T)
  parsed none = err json
  parsed (some t) = ok (some t)

  abbrev json_of :
      {T : Type 0} → (Bytes → Option T) → Result ErrorKind Bytes → Result BandError (Option T)
  json_of from_slice (ok bytes) = parsed (from_slice bytes)
  json_of from_slice (err e) = if is_not_found e then ok none else err (transport e)

  -- `read_json`: `ok none` is a file that is not there.
  unfoldable pub read_json :
      {T : Type 0} → (Bytes → Option T) → S → Str → Result BandError (Option T)
  read_json from_slice s path = json_of from_slice (p.read_file s path)

  -- `Archive::band_exists`, `Archive::band_is_closed` and `Band::is_closed`.
  unfoldable pub band_exists : S → BandId → Result ErrorKind Bool
  band_exists s band_id = is_file p s (to_string band_id ++ b'/' ∷ band_head_filename)

  unfoldable pub band_is_closed : S → BandId → Result ErrorKind Bool
  band_is_closed s band_id = is_file p s (to_string band_id ++ b'/' ∷ band_tail_filename)

  unfoldable pub is_closed : S → Band → Result ErrorKind Bool
  is_closed s self = is_file p s (join self.dir band_tail_filename)

  -- `Band::open` once the version is known to be supported: no format flag is.
  unfoldable pub check_flags : BandId → Str → Head → Result BandError Band
  check_flags band_id dir head = elim head.format_flags [
    | [] ↦ ok (record { band_id = band_id; dir = dir; head = head })
    | f ∷ fs ↦ err (unsupported_band_format_flags band_id (f ∷ fs))
  ]

  unfoldable pub check_version : BandLib → BandId → Str → Head → Option (Result BandError Band)
  unfolding check_flags
  check_version lib band_id dir head = elim head.band_format_version [
    | none ↦ some (check_flags band_id dir head)
    | some version ↦ elim (lib.version_matches version) [
      | none ↦ none
      | some true ↦ some (check_flags band_id dir head)
      | some false ↦ some (err (unsupported_band_version band_id version))
    ]
  ]

  unfoldable pub check_head :
      BandLib → BandId → Str → Result BandError (Option Head) → Option (Result BandError Band)
  unfolding check_version
  check_head lib band_id dir (err e) = some (err e)
  check_head lib band_id dir (ok none) = some (err (band_head_missing band_id))
  check_head lib band_id dir (ok (some head)) = check_version lib band_id dir head

  -- `Band::open`; `none` is the panic on a version that is no version number.
  unfoldable pub open_band : BandLib → S → BandId → Option (Result BandError Band)
  unfolding check_head read_json
  open_band lib s band_id =
      let dir = to_string band_id in
      check_head lib band_id dir (read_json lib.head_from_slice s (join dir band_head_filename))

  unfoldable pub index : Band → IndexRead
  index self = open_index (join self.dir index_dir)

  unfoldable pub index_builder : Band → IndexWriter
  index_builder self = Writer.new (join self.dir index_dir)

  -- `Band::close`.
  unfoldable pub close : BandLib → S → Band → ℕ → Result BandError (Unit {0}) × S
  unfolding write_json
  close lib s self index_hunk_count =
      write_json s (join self.dir band_tail_filename) (
        lib.tail_to_string
          (record { end_time = lib.now; index_hunk_count = some index_hunk_count }))

  abbrev delete_error : BandId → ErrorKind → BandError
  delete_error band_id e = if is_not_found e then band_not_found band_id else transport e

  -- `Band::delete`.
  unfoldable pub delete : S → BandId → Result BandError (Unit {0}) × S
  delete s band_id =
      let (r, s') = p.remove_dir_all s (to_string band_id) in (map_err (delete_error band_id) r, s')

  -- `Band::create_with_flags` with the default flags, none, after the archive's last band.
  abbrev new_head : BandLib → Head
  new_head lib = record {
    start_time = lib.now;
    band_format_version = some (str "0.6.3");
    format_flags = [];
  }

  abbrev made : BandLib → BandId → Str → Result BandError (Unit {0}) × S → Result BandError Band × S
  made lib band_id dir (err e, s) = (err e, s)
  made lib band_id dir (ok u, s) =
      (ok (record { band_id = band_id; dir = dir; head = new_head lib }), s)

  abbrev make_head :
      BandLib → BandId → Str → Result ErrorKind (Unit {0}) × S → Result BandError Band × S
  make_head lib band_id dir (err e, s) = (err (transport e), s)
  make_head lib band_id dir (ok u, s) =
      made lib band_id dir
        (write_json s (join dir band_head_filename) (lib.head_to_string (new_head lib)))

  abbrev make_index :
      BandLib → BandId → Str → Result ErrorKind (Unit {0}) × S → Result BandError Band × S
  make_index lib band_id dir (err e, s) = (err (transport e), s)
  make_index lib band_id dir (ok u, s) =
      make_head lib band_id dir (p.create_dir s (join dir index_dir))

  -- `map_or_else(BandId::zero, |b| b.next_sibling())`
  abbrev next_id : Option BandId → BandId
  next_id none = zero_id
  next_id (some b) = next_sibling b

  unfoldable pub create : BandLib → S → Option BandId → Result BandError Band × S
  create lib s last_band_id =
      let band_id = next_id last_band_id in
      make_index lib band_id (to_string band_id) (p.create_dir s (to_string band_id))

  -- `hunks_available`: the numbers among the names of the files in the subdirectories, sorted.
  abbrev pub place_number : Ordering → ℕ → ℕ → (ms rest : List ℕ) → List ℕ
  place_number Ordering.lt n m ms rest = n ∷ m ∷ ms
  place_number Ordering.eq n m ms rest = n ∷ m ∷ ms
  place_number Ordering.gt n m ms rest = m ∷ rest

  abbrev pub insert_number : ℕ → List ℕ → List ℕ
  insert_number n [] = n ∷ []
  insert_number n (m ∷ ms) = place_number (compare n m) n m ms (insert_number n ms)

  abbrev pub sort_numbers : List ℕ → List ℕ
  sort_numbers [] = []
  sort_numbers (n ∷ ns) = insert_number n (sort_numbers ns)

  abbrev numbers_in : List Str → List ℕ
  numbers_in [] = []
  numbers_in (f ∷ fs) =
      let rest = numbers_in fs in elim (parse_u32 f) [ none ↦ rest | some n ↦ n ∷ rest ]

  abbrev list_files : S → Str → List Str → List Str
  list_files s dir [] = []
  list_files s dir (d ∷ ds) =
      let rest = list_files s dir ds in
      elim (p.list_dir s (join dir d)) [ err e ↦ rest | ok list ↦ list.files ++ rest ]

  -- The numbers are sorted at the end, so that the order of the subdirectories does not matter.
  unfoldable pub hunks_available : S → IndexRead → Result ErrorKind (List ℕ)
  hunks_available s self = elim (p.list_dir s self.dir) [
    | err e ↦ err e
    | ok list ↦ ok (sort_numbers (numbers_in (list_files s self.dir list.dirs)))
  ]

  -- `iter_available_hunks`; `none` is its panic.
  unfoldable pub iter_available_hunks : S → IndexRead → Option IndexHunkIter
  unfolding hunks_available iter_hunks
  iter_available_hunks s self = elim (hunks_available s self) [
    | err e ↦ none
    | ok hunks ↦ some (iter_hunks self hunks)
  ]
