-- ===== src/Tests/Shelf.antt =====
-- A small archive in memory: one complete band with one file, its block, and a block that nothing
-- refers to.
use conserve.Common.{
  ℕ, zero, suc, List, [], ◌∷◌, ◌++◌, Option, none, some, Str, str, str_eq, if◌then◌else◌,
}
use conserve.Common.Results.{Result, ok, err}
use conserve.Entry.{IndexEntry, file, pos}
use conserve.Transport.{Bytes, ErrorKind, not_found, ListDir, Protocol, IsLawful}
use conserve.Index.{IndexCodec}
use conserve.Band.{Band, BandLib, Head}
use conserve.BlockDir.{BlockDir}
use conserve.Entry.{BlockHash}
use conserve.Tests.Store.{Files, no_files, put, memory, memory-IsLawful}
use conserve.Tests.Codec.{dir_entry}

-- A name as long as the text of a hash.
abbrev pub fill : ℕ → ℕ → Str
fill c zero = []
fill c (suc n) = c ∷ fill c n

abbrev pub stuff : Bytes
stuff = fill b's' 128

abbrev pub junk : Bytes
junk = fill b'j' 128

abbrev pub file_entry : IndexEntry
file_entry = record (dir_entry (str "/a")) {
  kind = file;
  addrs = record { hash = stuff; start = 28; len = 100 } ∷ [];
}

-- Every hunk holds that file.
abbrev pub file_codec : IndexCodec
file_codec = record {
  compress = λ b. some b;
  decompress = λ b. some b;
  to_vec = λ es. none;
  from_slice = λ b. some (file_entry ∷ []);
}

abbrev stored : Files
stored =
    put (put no_files (str "d/sss/" ++ stuff) (some (1 ∷ stuff))) (str "d/jjj/" ++ junk)
      (some (1 ∷ junk))

abbrev pub shelf_files : Files
shelf_files =
    put (put (put stored (str "b0000/BANDHEAD") (some [])) (str "b0000/BANDTAIL") (some []))
      (str "b0000/i/00000/000000000") (some [])

abbrev dirs_of : List Str → Result ErrorKind ListDir
dirs_of names = ok (record { files = []; dirs = names })

abbrev files_of : List Str → Result ErrorKind ListDir
files_of names = ok (record { files = names; dirs = [] })

abbrev pub listing : Str → Result ErrorKind ListDir
listing path =
    if str_eq path []
    then dirs_of (str "b0000" ∷ str "d" ∷ [])
    else if str_eq path (str "b0000")
    then files_of (str "BANDHEAD" ∷ str "BANDTAIL" ∷ [])
    else if str_eq path (str "b0000/i")
    then dirs_of (str "00000" ∷ [])
    else if str_eq path (str "b0000/i/00000")
    then files_of (str "000000000" ∷ [])
    else if str_eq path (str "d")
    then dirs_of (str "jjj" ∷ str "sss" ∷ [])
    else if str_eq path (str "d/jjj")
    then files_of (junk ∷ [])
    else if str_eq path (str "d/sss")
    then files_of (stuff ∷ [])
    else err not_found

abbrev pub shelf : Protocol Files
shelf = record memory { list_dir = λ s path. listing path }

pub shelf-IsLawful : IsLawful shelf
shelf-IsLawful = record {
  read_written = memory-IsLawful.read_written;
  read_other = memory-IsLawful.read_other;
  create_new_exists = memory-IsLawful.create_new_exists;
  already_exists_same = memory-IsLawful.already_exists_same;
  read_create_dir = memory-IsLawful.read_create_dir;
  metadata_create_dir = memory-IsLawful.metadata_create_dir;
  already_exists_metadata = memory-IsLawful.already_exists_metadata;
  metadata_read = memory-IsLawful.metadata_read;
  read_removed = memory-IsLawful.read_removed;
  metadata_removed = memory-IsLawful.metadata_removed;
  read_remove_other = memory-IsLawful.read_remove_other;
  read_remove_dir = memory-IsLawful.read_remove_dir;
}

abbrev head : Head
head = record { start_time = pos 0; band_format_version = none; format_flags = [] }

abbrev pub band_lib : BandLib
band_lib = record {
  head_to_string = λ h. some [];
  head_from_slice = λ b. some head;
  tail_to_string = λ t. some [];
  version_matches = λ v. none;
  now = pos 0;
}

abbrev pub band : Band
band = record { band_id = 0; dir = str "b0000"; head = head }

abbrev pub Cache : Type 0 → Type 0
Cache V = BlockHash → Option V

abbrev pub blocks : BlockDir (Cache Bytes) (Cache (Unit {0}))
blocks = record {
  dir = str "d";
  stats = record {
    read_blocks = 0;
    read_block_compressed_bytes = 0;
    read_block_uncompressed_bytes = 0;
    cache_hit = 0;
  };
  cache = λ k. none;
  exists = λ k. none;
}
