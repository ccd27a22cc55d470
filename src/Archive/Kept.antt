-- ===== src/Archive/Kept.antt =====
-- What deletion leaves alone: the blocks that the bands it keeps refer to.
use conserve.Common.{
  List, [], ◌∷◌, Option, none, some, Bool, true, false, Str, All, All-map, ◌≡◌, ◌≢◌, inl, inr, refl,
  ap, sym, subst, ◌∙◌, arith, Bool-cases, if◌then◌else◌, ◌||◌, ◌==◌, ==_iff,
}
use mathlib.Core.Option.{some-injective}
use conserve.Common.Results.{Result, ok, err}
use conserve.Entry.{Address, BlockHash, IndexEntry}
use conserve.Transport.{Bytes, Protocol, IsLawful, join}
use conserve.BandId.{BandId, to_string}
use conserve.Index.{IndexCodec}
use conserve.Band.{BandLib, BandError}
use conserve.Band as Band
use conserve.BlockDir.{
  BlockLib, IsFaithful, LruCache, BlockDir, BlockError, block_relpath, path_of, open_dir,
  after_lookup, after_read, get_block_content, delete_block, slice_of, read_address,
}
use conserve.BlockDir.Listing.{contains_hash, collect_set}
use conserve.Archive.{ArchiveError, block_dir_name, list_band_ids}
use conserve.Archive.Delete.{
  DeleteOptions, DeleteStats, keep_bands, entry_hashes, not_in, band_entries, add_hashes,
  referenced_blocks, or_stop, release, delete_each, delete_blocks, measured, Deleted, sweep_blocks,
  sweep, with_unreferenced, with_referenced, with_bands, with_lock, acquire, delete_bands,
}
use conserve.Archive.Referenced.{
  block_path-injective, outside_band, not_lock, contains_hash-append, not_in-Absent,
  entries-contains, keep_bands-has, has_band,
}
use conserve.GcLock.{gc_lock, GarbageCollectionLock, drop_lock, break_lock, Locked}
use conserve.GcLock as GcLock
use conserve.GcLock.Frame.{Frames, new-Frames, break_lock-Frames}

module _ {S C E : Type 0} (p : Protocol S) (lawful : IsLawful p) (blib : BlockLib)
    (faithful : IsFaithful blib) (cache : LruCache Bytes C) (exists : LruCache (Unit {0}) E)
    (lib : BandLib) (codec : IndexCodec) where
  -- The file of a block is read the same on both stores.
  abbrev SameBlock : S → S → BlockHash → Type 0
  SameBlock s s' h =
      p.read_file s' (join block_dir_name (block_relpath blib h))
      ≡ p.read_file s (join block_dir_name (block_relpath blib h))

  delete_each-SameBlock :
      (s : S) (bs : List BandId) (h : BlockHash) → SameBlock s (delete_each p lib codec s bs).1 h
  unfolding delete_each
  delete_each-SameBlock s [] h = refl
  delete_each-SameBlock s (b ∷ bs) h =
      by_result (λ s'. delete_each-SameBlock s' bs h) (Band.delete p s b)
        (unfold Band.delete in
          lawful.read_remove_dir s (to_string b) (join block_dir_name (block_relpath blib h))
            (outside_band blib b h))
    where
      by_result :
          ((s' : S) → SameBlock s' (delete_each p lib codec s' bs).1 h)
          → (r : Result BandError (Unit {0}) × S) → SameBlock s r.1 h
          → SameBlock s (or_stop p lib codec (λ s'. delete_each p lib codec s' bs) r).1 h
      by_result later (ok u, s') e = later s' ∙ e
      by_result later (err x, s') e = e

  delete_blocks-SameBlock :
      (s : S) (self : BlockDir C E) (hs : List BlockHash) (h : BlockHash)
      → self.dir ≡ block_dir_name
      → All (λ k. k ≢ h) hs
      → SameBlock s (delete_blocks p blib cache exists lib codec s self hs).2 h
  unfolding delete_blocks delete_block
  delete_blocks-SameBlock s self [] h d absent = refl
  delete_blocks-SameBlock s self (k ∷ ks) h d absent =
      delete_blocks-SameBlock (p.remove_file s (path_of p blib cache exists self k)).1 _ ks h d
        absent.1
      ∙ lawful.read_remove_other s (path_of p blib cache exists self k)
          (join block_dir_name (block_relpath blib h))
          (λ e. absent.0 (
            block_path-injective blib k h faithful
              (ap (λ (x : Str). join x (block_relpath blib k)) (sym d) ∙ e)))

  has_band-referenced :
      (s : S) (bs : List BandId) (b : BandId) (es : List IndexEntry) (referenced : List BlockHash)
      → has_band bs b ≡ true
      → band_entries p lib codec s b ≡ some es
      → referenced_blocks p lib codec s bs ≡ some referenced
      → (h : BlockHash) → contains_hash (entry_hashes es) h ≡ true
      → contains_hash referenced h ≡ true
  unfolding referenced_blocks add_hashes
  has_band-referenced s [] b es referenced m o r h c = cc
  has_band-referenced s (x ∷ xs) b es referenced m o r h c =
      by_rest (band_entries p lib codec s x) (referenced_blocks p lib codec s xs) refl
        (λ refs. has_band-referenced s xs b es refs) r
    where
      by_rest :
          (q : Option (List IndexEntry)) (rest : Option (List BlockHash))
          → band_entries p lib codec s x ≡ q
          → ((refs : List BlockHash)
              → has_band xs b ≡ true
              → band_entries p lib codec s b ≡ some es
              → rest ≡ some refs
              → (h : BlockHash) → contains_hash (entry_hashes es) h ≡ true
              → contains_hash refs h ≡ true)
          → add_hashes p lib codec q rest ≡ some referenced
          → contains_hash referenced h ≡ true
      by_rest none rest e later k = cc
      by_rest (some fs) none e later k = cc
      by_rest (some fs) (some refs) e later k =
          let split : contains_hash referenced h
              ≡ (contains_hash (entry_hashes fs) h || contains_hash refs h) =
            ap (λ hs. contains_hash hs h) (sym (some-injective _ _ k))
            ∙ contains_hash-append (entry_hashes fs) refs h in
          elim (Bool-cases (x == b)) [
            | inl t ↦
                split
                ∙ ap (λ es'. contains_hash (entry_hashes es') h || contains_hash refs h)
                    (some-injective fs es
                      (sym e ∙ ap (band_entries p lib codec s) ((==_iff x b).0 t) ∙ o))
                ∙ rw c refl
            | inr f ↦ ground (arith, split, later refs (ground (arith, m, f)) o refl h c)
          ]

  module _ (b : BandId) (es : List IndexEntry) (q : BlockHash)
      (in_es : contains_hash (entry_hashes es) q ≡ true) where
    -- The file of the block is the same after any outcome, on the store that it leaves.
    abbrev KeepsBlock : S → Option (Deleted p blib cache exists lib codec) → Type 0
    KeepsBlock s none = Unit
    KeepsBlock s (some (r, self, s')) = SameBlock s s' q

    sweep-KeepsBlock :
        (s : S) (self : BlockDir C E) (ids : List BandId) (unref : List BlockHash)
        (stats : DeleteStats) (r : Result ArchiveError (Unit {0}))
        → self.dir ≡ block_dir_name
        → All (λ k. k ≢ q) unref
        → KeepsBlock s (some (sweep p blib cache exists lib codec s self ids unref stats r))
    unfolding sweep
    sweep-KeepsBlock s self ids unref stats (err e) d absent = refl
    sweep-KeepsBlock s self ids unref stats (ok u) d absent =
        by_bands (delete_each p lib codec s ids) (delete_each-SameBlock s ids q)
      where
        by_bands :
            (r : Result ArchiveError (Unit {0}) × S)
            → SameBlock s r.1 q
            → SameBlock s (sweep_blocks p blib cache exists lib codec self ids unref stats r).2 q
        by_bands (err e, s') same = unfold sweep_blocks in same
        by_bands (ok u, s') same =
            unfold sweep_blocks in (delete_blocks-SameBlock s' self unref q d absent ∙ same)

    if-KeepsBlock :
        (s : S) (test : Bool) (x y : Deleted p blib cache exists lib codec)
        → KeepsBlock s (some x)
        → KeepsBlock s (some y)
        → KeepsBlock s (some (if test then x else y))
    if-KeepsBlock s true x y kx ky = kx
    if-KeepsBlock s false x y kx ky = ky

    with_referenced-KeepsBlock :
        (s : S) (self : BlockDir C E) (ids : List BandId) (options : DeleteOptions)
        (guard : GarbageCollectionLock) (present : Result BlockError (List BlockHash))
        (referenced : Option (List BlockHash))
        → self.dir ≡ block_dir_name
        → ((refs : List BlockHash) → referenced ≡ some refs → contains_hash refs q ≡ true)
        → KeepsBlock s (
            with_referenced p blib cache exists lib codec s self ids options guard present
              referenced)
    unfolding with_referenced with_unreferenced
    with_referenced-KeepsBlock s self ids options guard present none d c = tt
    with_referenced-KeepsBlock s self ids options guard (err e) (some refs) d c = refl
    with_referenced-KeepsBlock s self ids options guard (ok present) (some refs) d c =
        if-KeepsBlock s options.dry_run _ _ refl (
          sweep-KeepsBlock s self ids (not_in refs (collect_set present))
            (measured p blib cache exists lib codec s self (not_in refs (collect_set present))) _ d
            (not_in-Absent refs (collect_set present) q (c refs refl)))

    release-KeepsBlock :
        (s : S) (out : Option (Deleted p blib cache exists lib codec))
        → KeepsBlock s out
        → KeepsBlock s (release p blib cache exists lib codec out)
    unfolding drop_lock
    release-KeepsBlock s none k = tt
    release-KeepsBlock s (some (r, self, s')) k =
        lawful.read_remove_other s' gc_lock (join block_dir_name (block_relpath blib q))
          (not_lock blib q)
        ∙ k

  acquire-Frames :
      (q : Str) (other : gc_lock ≢ q) (s : S) (options : DeleteOptions)
      → Frames p lawful q other s (acquire p blib cache exists lib codec s options)
  unfolding acquire
  acquire-Frames q other s options = by_option options.break_lock
    where
      by_option :
          (b : Bool) → Frames p lawful q other s (if b then break_lock p s else GcLock.new p s)
      by_option true = break_lock-Frames p lawful q other s
      by_option false = new-Frames p lawful q other s

  fresh_read-SameBlock :
      (s s' : S) (a : Address)
      → SameBlock s s' a.hash
      → (read_address p blib cache exists s' (open_dir p blib cache exists block_dir_name) a).0
        ≡ (read_address p blib cache exists s (open_dir p blib cache exists block_dir_name) a).0
  unfolding read_address get_block_content open_dir
  fresh_read-SameBlock s s' a same =
      by_hit
        (record (open_dir p blib cache exists block_dir_name) {
          cache = (cache.get cache.empty a.hash).1;
        })
        refl (cache.get cache.empty a.hash).0
    where
      by_hit :
          (self : BlockDir C E)
          → self.dir ≡ block_dir_name
          → (hit : Option Bytes)
          → slice_of p blib cache exists a (after_lookup p blib cache exists s' self a.hash hit).0
            ≡ slice_of p blib cache exists a (after_lookup p blib cache exists s self a.hash hit).0
      by_hit self d (some bytes) = unfold after_lookup in refl
      by_hit self d none =
          unfold after_lookup in
          ap (λ r. slice_of p blib cache exists a (after_read p blib cache exists self a.hash r).0)
            (rw d same)

  -- After a deletion that got its lock, whatever it returns and whether it stopped at an error or
  -- not, every address of every entry in the index of a band that was listed and was not to be
  -- deleted reads, in a block directory opened afresh, what it read before the deletion. The
  -- conditions: the transport keeps its laws and the names of blocks tell their hashes apart.
  pub delete_bands-kept :
      (s s1 : S) (self : BlockDir C E) (ids all : List BandId) (options : DeleteOptions)
      (guard : GarbageCollectionLock) (b : BandId) (es : List IndexEntry)
      (out : Deleted p blib cache exists lib codec)
      → self.dir ≡ block_dir_name
      → acquire p blib cache exists lib codec s options ≡ (ok guard, s1)
      → list_band_ids p s1 ≡ ok all
      → has_band all b ≡ true
      → has_band ids b ≡ false
      → band_entries p lib codec s1 b ≡ some es
      → delete_bands p blib cache exists lib codec s self ids options ≡ some out
      → All
          (λ e.
            All
              (λ a.
                (read_address p blib cache exists out.2
                  (open_dir p blib cache exists block_dir_name)
                  a).0
                ≡ (read_address p blib cache exists s
                    (open_dir p blib cache exists block_dir_name)
                    a).0)
              e.addrs)
          es
  unfolding delete_bands with_lock with_bands
  delete_bands-kept s s1 self ids all options guard b es out d got listed in_all not_out entries
        done =
      All-map _ _ es
        (λ e. All-map _ _ e.addrs (λ a c. fresh_read-SameBlock s out.2 a (same a.hash c)))
        (entries-contains es (entry_hashes es) (λ h c. c))
    where
      same : (h : BlockHash) → contains_hash (entry_hashes es) h ≡ true → SameBlock s out.2 h
      same h c =
          subst (KeepsBlock b es h c s1)
            (sym (
                ap (with_lock p blib cache exists lib codec self ids options) got
                ∙ ap
                    (λ r.
                      release p blib cache exists lib codec
                        (with_bands p blib cache exists lib codec s1 self ids options guard r))
                    listed)
              ∙ done)
            (release-KeepsBlock b es h c s1 _ (
              with_referenced-KeepsBlock b es h c s1 self ids options guard _ _ d (λ refs r.
                has_band-referenced s1 (keep_bands ids all) b es refs
                  (keep_bands-has ids all b not_out in_all) entries r h c)))
          ∙ ap (λ (x : Locked p). p.read_file x.1 (join block_dir_name (block_relpath blib h)))
              (sym got)
          ∙ acquire-Frames (join block_dir_name (block_relpath blib h)) (not_lock blib h) s options
