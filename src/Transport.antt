-- ===== src/Transport.antt =====
-- The transport of an archive (src/transport.rs): the `Protocol` trait as a record of operations
-- on a store, the laws that the trait documents, and `Transport`'s own functions. What a store
-- holds is passed from call to call; paths are relative to the top of the archive.
use conserve.Common.{ℕ, List, [], ◌∷◌, ◌++◌, Bool, true, false, Str, starts_with, length, ◌≡◌, ◌≢◌}
use conserve.Common.Results.{Result, ok, err}
use conserve.Entry.{Kind, file}

abbrev pub Bytes : Type 0
Bytes = List ℕ

pub data ErrorKind : Type 0 where
  not_found already_exists permission_denied create_transport connect url_scheme other : ErrorKind

pub data WriteMode : Type 0 where
  overwrite create_new : WriteMode

-- The modification time is not used by what is modelled here.
pub record Metadata : Type 0 where
  pub len : ℕ
  pub kind : Kind

pub record ListDir : Type 0 where
  pub files : List Str
  pub dirs : List Str

-- `trait Protocol`; an operation that writes returns the store that it leaves.
pub record Protocol (S : Type 0) : Type 0 where
  pub read_file : S → Str → Result ErrorKind Bytes
  pub write_file : S → Str → Bytes → WriteMode → Result ErrorKind (Unit {0}) × S
  pub list_dir : S → Str → Result ErrorKind ListDir
  pub create_dir : S → Str → Result ErrorKind (Unit {0}) × S
  pub metadata : S → Str → Result ErrorKind Metadata
  pub remove_file : S → Str → Result ErrorKind (Unit {0}) × S
  pub remove_dir_all : S → Str → Result ErrorKind (Unit {0}) × S

-- What the trait documents of the operations on files.
pub record IsLawful {S : Type 0} (p : Protocol S) : Type 0 where
  pub read_written :
      (s s' : S) (path : Str) (content : Bytes) (mode : WriteMode)
      → p.write_file s path content mode ≡ (ok tt, s')
      → p.read_file s' path ≡ ok content
  -- A failed write may leave what was there or a shorter file, at that path alone.
  pub read_other :
      (s : S) (path q : Str) (content : Bytes) (mode : WriteMode)
      → path ≢ q
      → p.read_file (p.write_file s path content mode).1 q ≡ p.read_file s q
  -- `CreateNew` fails on a file that is there, and changes nothing.
  pub create_new_exists :
      (s : S) (path : Str) (content old : Bytes)
      → p.read_file s path ≡ ok old
      → p.write_file s path content create_new ≡ (err already_exists, s)
  -- It reports a file as already there only if it changes nothing.
  pub already_exists_same :
      (s s' : S) (path : Str) (content : Bytes)
      → p.write_file s path content create_new ≡ (err already_exists, s')
      → s' ≡ s
  pub read_create_dir :
      (s : S) (path q : Str) → p.read_file (p.create_dir s path).1 q ≡ p.read_file s q
  pub metadata_create_dir :
      (s : S) (path q : Str) → path ≢ q → p.metadata (p.create_dir s path).1 q ≡ p.metadata s q
  -- What is already there is found by `metadata`.
  pub already_exists_metadata :
      (s s' : S) (path : Str) (content : Bytes)
      → p.write_file s path content create_new ≡ (err already_exists, s')
      → (m : Metadata) × (p.metadata s path ≡ ok m)
  pub metadata_read :
      (s : S) (path : Str) (content : Bytes)
      → p.read_file s path ≡ ok content
      → p.metadata s path ≡ ok (record { len = length content; kind = file })
  pub read_removed :
      (s s' : S) (path : Str)
      → p.remove_file s path ≡ (ok tt, s')
      → p.read_file s' path ≡ err not_found
  pub metadata_removed :
      (s s' : S) (path : Str)
      → p.remove_file s path ≡ (ok tt, s')
      → p.metadata s' path ≡ err not_found
  pub read_remove_other :
      (s : S) (path q : Str) → path ≢ q → p.read_file (p.remove_file s path).1 q ≡ p.read_file s q
  -- Removing a directory leaves alone what is not below it.
  pub read_remove_dir :
      (s : S) (path q : Str)
      → starts_with (path ++ b'/' ∷ []) q ≡ false
      → p.read_file (p.remove_dir_all s path).1 q ≡ p.read_file s q

unfoldable pub is_not_found : ErrorKind → Bool
is_not_found not_found = true
is_not_found _ = false

abbrev pub is_file_kind : Kind → Bool
is_file_kind file = true
is_file_kind _ = false

-- `chdir`: the path of a file below a directory.
unfoldable pub join : Str → Str → Str
join [] relpath = relpath
join (c ∷ base) [] = c ∷ base
join (c ∷ base) (d ∷ relpath) = (c ∷ base) ++ b'/' ∷ d ∷ relpath

module _ {S : Type 0} (p : Protocol S) where
  -- `Transport::is_file`.
  unfoldable pub is_file : S → Str → Result ErrorKind Bool
  is_file s path = elim (p.metadata s path) [
    | ok metadata ↦ ok (is_file_kind metadata.kind)
    | err not_found ↦ ok false
    | err already_exists ↦ err already_exists
    | err permission_denied ↦ err permission_denied
    | err create_transport ↦ err create_transport
    | err connect ↦ err connect
    | err url_scheme ↦ err url_scheme
    | err other ↦ err other
  ]
