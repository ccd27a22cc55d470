-- ===== src/Tests/Codec.antt =====
-- A codec of indexes, a library for blocks and caches to apply the theorems to.
use conserve.Common.{
  ℕ, zero, List, [], ◌∷◌, Option, none, some, Str, str_eq, str_eq_iff, is_some, if◌then◌else◌, ◌≡◌,
  ◌≢◌, ◌⊎◌, refl, ap, sym, arith, Bool-cases, inl, inr,
}
use conserve.Apath.{Apath}
use conserve.Entry.{Kind, dir, ℤ, pos, Address, IndexEntry, BlockHash}
use conserve.Transport.{Bytes}
use conserve.Index.{IndexCodec}
use conserve.Index as Index
use conserve.BlockDir.{BlockLib, LruCache, IsLru}
use conserve.BlockDir as BlockDir

-- A directory with no owner, no mode and the time zero.
abbrev pub dir_entry : Apath → IndexEntry
dir_entry p = record {
  apath = p;
  kind = dir;
  mtime = pos 0;
  unix_mode = none;
  owner = record { user = none; group = none };
  mtime_nanos = 0;
  addrs = [];
  target = none;
}

abbrev encode :
    Kind
    → ℤ
    → Option ℕ
    → Option Str
    → Option Str
    → ℕ
    → List Address
    → Option Str
    → Apath
    → Option Bytes
encode dir (pos zero) none none none zero [] none p = some p
encode _ _ _ _ _ _ _ _ p = none

abbrev to_vec : List IndexEntry → Option Bytes
to_vec (e ∷ []) =
    encode e.kind e.mtime e.unix_mode e.owner.user e.owner.group e.mtime_nanos e.addrs e.target
      e.apath
to_vec _ = none

-- The codec writes a hunk of one such directory as its path.
abbrev pub plain_codec : IndexCodec
plain_codec = record {
  compress = λ b. some b;
  decompress = λ b. some b;
  to_vec = to_vec;
  from_slice = λ b. some (dir_entry b ∷ []);
}

decoded :
    (k : Kind) (m : ℤ) (u : Option ℕ) (us g : Option Str) (n : ℕ) (as_ : List Address)
    (t : Option Str) (p : Apath) (b : Bytes)
    → encode k m u us g n as_ t p ≡ some b
    → dir_entry b ≡ record {
      apath = p;
      kind = k;
      mtime = m;
      unix_mode = u;
      owner = record { user = us; group = g };
      mtime_nanos = n;
      addrs = as_;
      target = t;
    }
decoded dir (pos zero) none none none zero [] none p b h = ap dir_entry (ground arith)
decoded _ _ _ _ _ _ _ _ p b h = cc

pub plain_codec-IsFaithful : Index.IsFaithful plain_codec
plain_codec-IsFaithful = record {
  decompress-compress = λ b z h. sym h;
  from_slice-to_vec = from_slice-to_vec;
}
  where
    from_slice-to_vec :
        (es : List IndexEntry) (b : Bytes)
        → to_vec es ≡ some b
        → ◌≡◌ {A = Option (List IndexEntry)} (some (dir_entry b ∷ [])) (some es)
    from_slice-to_vec [] b h = cc
    from_slice-to_vec (e ∷ []) b h =
        ap (λ (x : IndexEntry). some (x ∷ []))
          (decoded e.kind e.mtime e.unix_mode e.owner.user e.owner.group e.mtime_nanos e.addrs
            e.target e.apath b h)
    from_slice-to_vec (e ∷ f ∷ es) b h = cc

-- Blocks named by their content, and compressed by a byte in front.
abbrev pub expand : Bytes → Option Bytes
expand [] = none
expand (x ∷ b) = some b

abbrev pub plain_lib : BlockLib
plain_lib = record {
  hash_bytes = λ b. b;
  encode = λ h. h;
  decode = λ s. some s;
  compress = λ b. some (1 ∷ b);
  decompress = expand;
}

pub plain_lib-IsFaithful : BlockDir.IsFaithful plain_lib
plain_lib-IsFaithful = record {
  decompress-compress = λ b z h. ground arith;
  decompress-nil = refl;
  encode-injective = λ h k e. e;
}

-- A cache that never forgets.
abbrev pub keep : (V : Type 0) → LruCache V (BlockHash → Option V)
keep V = record {
  empty = λ k. none;
  get = λ c k. (c k, c);
  contains = λ c k. is_some (c k);
  put = λ c k v. λ j. if str_eq j k then some v else c j;
  pop = λ c k. λ j. if str_eq j k then none else c j;
}

pub keep-IsLru : (V : Type 0) → IsLru (keep V)
keep-IsLru V = record {
  get-empty = λ k. refl;
  get-get = λ c k j v h. h;
  get-put = get-put;
  get-pop = get-pop;
  contains-get = λ c k. refl;
}
  where
    get-put :
        (c : BlockHash → Option V) (k j : BlockHash) (v w : V)
        → (if str_eq j k then some v else c j) ≡ some w
        → ((j ≡ k) × (w ≡ v)) ⊎ (c j ≡ some w)
    get-put c k j v w h = elim (Bool-cases (str_eq j k)) [
      | inl t ↦ inl ((str_eq_iff j k).0 t, ground arith)
      | inr f ↦ inr (rw f at h)
    ]

    get-pop :
        (c : BlockHash → Option V) (k j : BlockHash) (w : V)
        → (if str_eq j k then none else c j) ≡ some w
        → (j ≢ k) × (c j ≡ some w)
    get-pop c k j w h = elim (Bool-cases (str_eq j k)) [
      | inl t ↦ elim (never (rw t at h)) [ ]
      | inr f ↦ (λ e. ground (arith, str_eq_iff j k), rw f at h)
    ]
      where
        never : ◌≡◌ {A = Option V} none (some w) → ⊥
        never e = cc
