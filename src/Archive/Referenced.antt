-- ===== src/Archive/Referenced.antt =====
-- The paths of blocks, and the hashes that deletion takes as referenced.
use conserve.Common.{
  ℕ, ◌≤◌, List, [], ◌∷◌, ◌++◌, Bool, true, false, Str, str_eq_iff, starts_with, any, length,
  length-append, take, All, ◌≡◌, ◌≢◌, ◌⊎◌, inl, inr, refl, ap, sym, ◌∙◌, arith, Bool-cases, ◌||◌,
  ◌==◌,
}
use conserve.Entry.{Address, BlockHash, IndexEntry}
use conserve.Transport.{join}
use conserve.BandId.{BandId, to_string}
use conserve.BlockDir.{BlockLib, IsFaithful, subdir_relpath, block_relpath}
use conserve.BlockDir.Listing.{contains_hash}
use conserve.Archive.{block_dir_name}
use conserve.Archive.Delete.{keep_bands, hashes_of, entry_hashes, not_in}
use conserve.GcLock.{gc_lock}

-- The path of a block determines its hash.
length-take3 :
    (xs : Str)
    → ((length (take 3 xs) ≡ length xs) × (length xs ≤ 3))
      ⊎ ((length (take 3 xs) ≡ 3) × (3 ≤ length xs))
length-take3 [] = inl (refl, omega arith)
length-take3 (a ∷ []) = inl (refl, omega arith)
length-take3 (a ∷ b ∷ []) = inl (refl, omega arith)
length-take3 (a ∷ b ∷ c ∷ xs) = inr (refl, omega arith)

same_length :
    (xs ys : Str)
    → take 3 xs ++ b'/' ∷ xs ≡ take 3 ys ++ b'/' ∷ ys
    → length (take 3 xs) ≡ length (take 3 ys)
same_length xs ys e = ground (
  arith,
  ap length e,
  length-append (take 3 xs) (b'/' ∷ xs),
  length-append (take 3 ys) (b'/' ∷ ys),
  length-take3 xs,
  length-take3 ys,
)

after_prefix : (t u xs ys : Str) → length t ≡ length u → t ++ b'/' ∷ xs ≡ u ++ b'/' ∷ ys → xs ≡ ys
after_prefix [] [] xs ys l e = cc
after_prefix [] (b ∷ u) xs ys l e = absurd (omega (arith, l))
after_prefix (a ∷ t) [] xs ys l e = absurd (omega (arith, l))
after_prefix (a ∷ t) (b ∷ u) xs ys l e = after_prefix t u xs ys (omega (arith, l)) cc

block_relpath-injective :
    (lib : BlockLib) (h k : BlockHash)
    → IsFaithful lib
    → block_relpath lib h ≡ block_relpath lib k
    → h ≡ k
unfolding block_relpath subdir_relpath
block_relpath-injective lib h k faithful e = faithful.encode-injective h k (
    after_prefix (take 3 (lib.encode h)) (take 3 (lib.encode k)) (lib.encode h) (lib.encode k)
      (same_length (lib.encode h) (lib.encode k) e) e)

-- The paths of blocks start with the name of the block directory.
join-after : (c : ℕ) (xs ys : Str) → join (c ∷ []) (xs ++ b'/' ∷ ys) ≡ c ∷ b'/' ∷ (xs ++ b'/' ∷ ys)
unfolding join
join-after c [] ys = refl
join-after c (x ∷ xs) ys = refl

block_path :
    (lib : BlockLib) (h : BlockHash)
    → join block_dir_name (block_relpath lib h) ≡ b'd' ∷ b'/' ∷ block_relpath lib h
unfolding block_relpath
block_path lib h = join-after b'd' (subdir_relpath (lib.encode h)) (lib.encode h)

pub block_path-injective :
    (lib : BlockLib) (h k : BlockHash)
    → IsFaithful lib
    → join block_dir_name (block_relpath lib h) ≡ join block_dir_name (block_relpath lib k)
    → h ≡ k
block_path-injective lib h k faithful e = block_relpath-injective lib h k faithful (
    after_prefix (b'd' ∷ []) (b'd' ∷ []) (block_relpath lib h) (block_relpath lib k) refl
      (sym (block_path lib h) ∙ e ∙ block_path lib k))

pub outside_band :
    (lib : BlockLib) (b : BandId) (h : BlockHash)
    → starts_with (to_string b ++ b'/' ∷ []) (join block_dir_name (block_relpath lib h)) ≡ false
unfolding to_string starts_with
outside_band lib b h = rw (block_path lib h) refl

pub not_lock :
    (lib : BlockLib) (h : BlockHash) → gc_lock ≢ join block_dir_name (block_relpath lib h)
not_lock lib h e = absurd (omega (arith, ap first_char (e ∙ block_path lib h)))
  where
    first_char : Str → ℕ
    first_char [] = 0
    first_char (c ∷ s) = c

pub contains_hash-append :
    (xs ys : List BlockHash) (h : BlockHash)
    → contains_hash (xs ++ ys) h ≡ (contains_hash xs h || contains_hash ys h)
unfolding contains_hash
contains_hash-append [] ys h = refl
contains_hash-append (x ∷ xs) ys h = ground (arith, contains_hash-append xs ys h)

-- No hash that is referenced is left in the difference.
pub not_in-Absent :
    (referenced present : List BlockHash) (h : BlockHash)
    → contains_hash referenced h ≡ true
    → All (λ k. k ≢ h) (not_in referenced present)
unfolding not_in
not_in-Absent referenced [] h c = tt
not_in-Absent referenced (k ∷ ks) h c = elim (Bool-cases (contains_hash referenced k)) [
  | inl t ↦ rw t (not_in-Absent referenced ks h c)
  | inr f ↦
      rw f (
        λ e. ground (arith, c, f, ap (contains_hash referenced) e),
        not_in-Absent referenced ks h c,
      )
]

-- A set that has the hashes of some entries has those of each address.
addrs-contains :
    (addrs : List Address) (referenced : List BlockHash)
    → ((h : BlockHash)
        → contains_hash (hashes_of addrs) h ≡ true
        → contains_hash referenced h ≡ true)
    → All (λ a. contains_hash referenced a.hash ≡ true) addrs
unfolding contains_hash
addrs-contains [] referenced sub = tt
addrs-contains (a ∷ addrs) referenced sub = (
  sub a.hash (rw ((str_eq_iff a.hash a.hash).1 refl) refl),
  addrs-contains addrs referenced (λ h c. sub h (ground (arith, c))),
)

pub entries-contains :
    (es : List IndexEntry) (referenced : List BlockHash)
    → ((h : BlockHash)
        → contains_hash (entry_hashes es) h ≡ true
        → contains_hash referenced h ≡ true)
    → All (λ e. All (λ a. contains_hash referenced a.hash ≡ true) e.addrs) es
entries-contains [] referenced sub = tt
entries-contains (e ∷ es) referenced sub = (
  addrs-contains e.addrs referenced (λ h c.
      sub h (ground (arith, c, contains_hash-append (hashes_of e.addrs) (entry_hashes es) h))),
  entries-contains es referenced (λ h c.
      sub h (ground (arith, c, contains_hash-append (hashes_of e.addrs) (entry_hashes es) h))),
)

-- A band that is listed and is not to be deleted is kept.
abbrev pub has_band : List BandId → BandId → Bool
has_band bs b = any (λ c. c == b) bs

pub keep_bands-has :
    (ids bs : List BandId) (b : BandId)
    → has_band ids b ≡ false
    → has_band bs b ≡ true
    → has_band (keep_bands ids bs) b ≡ true
unfolding keep_bands
keep_bands-has ids [] b out listed = listed
keep_bands-has ids (c ∷ cs) b out listed = ground (arith, out, listed, keep_bands-has ids cs b out)
