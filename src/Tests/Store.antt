-- ===== src/Tests/Store.antt =====
-- A store in memory: files by their path. It keeps the laws of the transport.
use conserve.Common.{
  Option, none, some, Str, str_eq, str_eq_iff, length, if◌then◌else◌, ◌≡◌, ◌≢◌, refl, sym, ap,
  subst, arith, Bool-cases, inl, inr,
}
use conserve.Common.Results.{Result, ok, err}
use conserve.Entry.{file}
use conserve.Transport.{
  Bytes, ErrorKind, not_found, already_exists, other, WriteMode, overwrite, create_new, Metadata,
  Protocol, IsLawful,
}

abbrev pub Files : Type 0
Files = Str → Option Bytes

abbrev pub no_files : Files
no_files = λ q. none

abbrev pub put : Files → Str → Option Bytes → Files
put s path content = λ q. if str_eq q path then content else s q

abbrev pub content_of : Option Bytes → Result ErrorKind Bytes
content_of none = err not_found
content_of (some b) = ok b

abbrev pub metadata_of : Option Bytes → Result ErrorKind Metadata
metadata_of none = err not_found
metadata_of (some b) = ok (record { len = length b; kind = file })

abbrev pub create : Files → Str → Bytes → Option Bytes → Result ErrorKind (Unit {0}) × Files
create s path content none = (ok tt, put s path (some content))
create s path content (some old) = (err already_exists, s)

abbrev pub write : Files → Str → Bytes → WriteMode → Result ErrorKind (Unit {0}) × Files
write s path content overwrite = (ok tt, put s path (some content))
write s path content create_new = create s path content (s path)

abbrev pub memory : Protocol Files
memory = record {
  read_file = λ s path. content_of (s path);
  write_file = write;
  list_dir = λ s path. err other;
  create_dir = λ s path. (ok tt, s);
  metadata = λ s path. metadata_of (s path);
  remove_file = λ s path. (ok tt, put s path none);
  remove_dir_all = λ s path. (err other, s);
}

put-same : (s : Files) (path : Str) (c : Option Bytes) → put s path c path ≡ c
put-same s path c = ground (arith, str_eq_iff path path)

put-other : (s : Files) (path q : Str) (c : Option Bytes) → path ≢ q → put s path c q ≡ s q
put-other s path q c n = elim (Bool-cases (str_eq q path)) [
  | inl t ↦ elim (n (sym ((str_eq_iff q path).0 t))) [ ]
  | inr f ↦ rw f refl
]

created :
    (s s' : Files) (path : Str) (content : Bytes) (old : Option Bytes)
    → create s path content old ≡ (ok tt, s')
    → content_of (s' path) ≡ ok content
created s s' path content none h =
    subst (λ (x : Result ErrorKind (Unit {0}) × Files). content_of (x.1 path) ≡ ok content) h
      (rw (put-same s path (some content)) refl)
created s s' path content (some b) h =
    elim (apart (ap (λ (x : Result ErrorKind (Unit {0}) × Files). x.0) h)) [ ]
  where
    apart : ◌≡◌ {A = Result ErrorKind (Unit {0})} (err already_exists) (ok tt) → ⊥
    apart e = cc

create-other :
    (s : Files) (path q : Str) (content : Bytes) (old : Option Bytes)
    → path ≢ q
    → content_of ((create s path content old).1 q) ≡ content_of (s q)
create-other s path q content none n = rw (put-other s path q (some content) n) refl
create-other s path q content (some b) n = refl

refused :
    (s s' : Files) (path : Str) (content : Bytes) (old : Option Bytes)
    → create s path content old ≡ (err already_exists, s')
    → (s' ≡ s) × ((b : Bytes) × (old ≡ some b))
refused s s' path content none h =
    elim (apart (ap (λ (x : Result ErrorKind (Unit {0}) × Files). x.0) h)) [ ]
  where
    apart : ◌≡◌ {A = Result ErrorKind (Unit {0})} (ok tt) (err already_exists) → ⊥
    apart e = cc
refused s s' path content (some b) h =
    (sym (ap (λ (x : Result ErrorKind (Unit {0}) × Files). x.1) h), (b, refl))

-- The store in memory is lawful.
pub memory-IsLawful : IsLawful memory
memory-IsLawful = record {
  read_written = read_written;
  read_other = read_other;
  create_new_exists = create_new_exists;
  already_exists_same = λ s s' path content h. (refused s s' path content (s path) h).0;
  read_create_dir = λ s path q. refl;
  metadata_create_dir = λ s path q n. refl;
  already_exists_metadata = λ s s' path content h.
      let (b, e) = (refused s s' path content (s path) h).1 in
      (record { len = length b; kind = file }, rw e refl);
  metadata_read = λ s path content h. metadata_read (s path) content h;
  read_removed = λ s s' path h.
      subst (λ (x : Result ErrorKind (Unit {0}) × Files). content_of (x.1 path) ≡ err not_found) h
        (rw (put-same s path none) refl);
  metadata_removed = λ s s' path h.
      subst (λ (x : Result ErrorKind (Unit {0}) × Files). metadata_of (x.1 path) ≡ err not_found) h
        (rw (put-same s path none) refl);
  read_remove_dir = λ s path q n. refl;
  read_remove_other = λ s path q n. rw (put-other s path q none n) refl;
}
  where
    read_written :
        (s s' : Files) (path : Str) (content : Bytes) (mode : WriteMode)
        → write s path content mode ≡ (ok tt, s')
        → content_of (s' path) ≡ ok content
    read_written s s' path content overwrite h = created s s' path content none h
    read_written s s' path content create_new h = created s s' path content (s path) h

    read_other :
        (s : Files) (path q : Str) (content : Bytes) (mode : WriteMode)
        → path ≢ q
        → content_of ((write s path content mode).1 q) ≡ content_of (s q)
    read_other s path q content overwrite n = create-other s path q content none n
    read_other s path q content create_new n = create-other s path q content (s path) n

    create_new_exists :
        (s : Files) (path : Str) (content old : Bytes)
        → content_of (s path) ≡ ok old
        → create s path content (s path) ≡ (err already_exists, s)
    create_new_exists s path content old h = by_old (s path) h
      where
        by_old :
            (o : Option Bytes)
            → content_of o ≡ ok old
            → create s path content o ≡ (err already_exists, s)
        by_old none k = cc
        by_old (some b) k = refl

    metadata_read :
        (o : Option Bytes) (content : Bytes)
        → content_of o ≡ ok content
        → metadata_of o ≡ ok (record { len = length content; kind = file })
    metadata_read none content h = cc
    metadata_read (some b) content h = ground arith
