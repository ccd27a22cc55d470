-- ===== src/Validate/Sound.antt =====
-- What a validation without problems promises: the content of every file can be read.
use conserve.Common.{
  ℕ, ◌+◌, ◌-◌, ◌<◌, ◌≤◌, List, [], ◌∷◌, ◌++◌, Option, none, some, true, false, Bool-cases, ltb,
  str_eq, str_eq_iff, All, All-map, ◌≡◌, refl, ap, sym, subst, ◌∙◌, inl, inr, arith, length, drop,
  length-take, length-drop, Str,
}
use conserve.Common.Results.{Result, ok, err}
use conserve.Entry.{Address, BlockHash, IndexEntry}
use conserve.Apath.{root}
use conserve.Transport.{Bytes, ErrorKind, Protocol, ListDir}
use conserve.BandId.{BandId}
use conserve.Band.{BandLib}
use conserve.Index.{IndexCodec}
use conserve.Stitch.Tree.{StoredTree, open_tree, tree_entries}
use conserve.BlockDir.{
  BlockLib, LruCache, IsLru, BlockDir, BlockError, open_dir, get_block_content, slice_of,
  read_address, usize_mod, slice,
}
use conserve.BlockDir.Listing.{
  Validated, note_block, validate_each, validate, validate_listed, blocks, collect_set,
}
use conserve.BlockDir.Refines.{
  content_at, Represents, get_block_content-content_at, open_dir-Represents,
}
use conserve.Archive.{list_band_ids}
use conserve.Validate.{
  Problem, BlockLens, get_len, file_addrs, note_entries, noted, validate_stored_tree, Found,
  validate_bands, check_length, check_lengths, duplicated_bands, unreadable, after_blocks,
  after_bands, after_list, after_dir, validate_archive,
}
use conserve.Validate.Bands.{has_id, KeepsClean, validate_bands-KeepsClean}
use conserve.Validate.Lengths.{IsCovered, note_entries-IsCovered}

-- No problem: every length that was asked for is there.
check_lengths-none :
    (actual lens : BlockLens) (h : BlockHash) (l : ℕ)
    → check_lengths actual lens ≡ []
    → get_len lens h ≡ some l
    → (n : ℕ) × (get_len actual h ≡ some n) × (l ≤ n)
unfolding check_lengths get_len
check_lengths-none actual [] h l e g = cc
check_lengths-none actual ((k, m) ∷ lens) h l e g =
    by_length (get_len actual k) refl e (check_lengths-none actual lens h l)
  where
    by_length :
        (r : Option ℕ)
        → get_len actual k ≡ r
        → check_length k m r ++ check_lengths actual lens ≡ []
        → (check_lengths actual lens ≡ []
            → get_len lens h ≡ some l
            → (n : ℕ) × (get_len actual h ≡ some n) × (l ≤ n))
        → (n : ℕ) × (get_len actual h ≡ some n) × (l ≤ n)
    by_length none q e later = cc
    by_length (some n) q e later = elim (Bool-cases (ltb n m)) [
      | inl t ↦ cc
      | inr f ↦ elim (Bool-cases (str_eq k h)) [
        | inl same ↦
            (n, ap (get_len actual) (sym ((str_eq_iff k h).0 same)) ∙ q, ground (arith, f, same, g))
        | inr apart ↦ later (ground (arith, e, f)) (ground (arith, g, apart))
      ]
    ]

module _ {S C E : Type 0} (p : Protocol S) (blib : BlockLib) (cache : LruCache Bytes C)
    (exists : LruCache (Unit {0}) E) (lru : IsLru cache) (s : S) where
  -- The lengths of the blocks that were read are those of their contents.
  validate_each-get_len :
      (self : BlockDir C E) (hs : List BlockHash) (h : BlockHash) (n : ℕ)
      → Represents p blib cache exists lru s self
      → get_len (validate_each p blib cache exists s self hs).0.block_lens h ≡ some n
      → (bytes : Bytes) × (content_at p blib cache exists lru s self.dir h ≡ ok bytes)
        × (length bytes ≡ n)
  unfolding validate_each note_block get_len
  validate_each-get_len self [] h n rep g = cc
  validate_each-get_len self (k ∷ ks) h n rep g =
      by_read (get_block_content p blib cache exists s self k)
        (get_block_content-content_at p blib cache exists lru s self k rep)
        (λ self'. validate_each-get_len self' ks h n) g
    where
      Held : Str → Type 0
      Held dir =
          (bytes : Bytes) × (content_at p blib cache exists lru s dir h ≡ ok bytes)
          × (length bytes ≡ n)

      by_read :
          (r : Result BlockError Bytes × BlockDir C E)
          → (r.0 ≡ content_at p blib cache exists lru s self.dir k)
            × Represents p blib cache exists lru s r.1
            × (r.1.dir ≡ self.dir)
          → ((self' : BlockDir C E)
              → Represents p blib cache exists lru s self'
              → get_len (validate_each p blib cache exists s self' ks).0.block_lens h ≡ some n
              → Held self'.dir)
          → get_len
              (note_block p blib cache exists k r.0
                (validate_each p blib cache exists s r.1 ks).0).block_lens
              h
            ≡ some n
          → Held self.dir
      by_read (err e, self') (same, rep', d) later g = subst Held d (later self' rep' g)
      by_read (ok bytes, self') (same, rep', d) later g = elim (Bool-cases (str_eq k h)) [
        | inl t ↦ (
          bytes,
          ap (content_at p blib cache exists lru s self.dir) (sym ((str_eq_iff k h).0 t))
              ∙ sym same,
          ground (arith, t, g),
        )
        | inr f ↦ subst Held d (later self' rep' (ground (arith, f, g)))
      ]

nil-append : {A : Type 0} (xs ys : List A) → xs ++ ys ≡ [] → (xs ≡ []) × (ys ≡ [])
nil-append [] ys e = (refl, e)
nil-append (x ∷ xs) ys e = cc

module _ {S C E : Type 0} (p : Protocol S) (blib : BlockLib) (cache : LruCache Bytes C)
    (exists : LruCache (Unit {0}) E) (lru : IsLru cache) (s : S) where
  validate-get_len :
      (self self' : BlockDir C E) (v : Validated) (h : BlockHash) (n : ℕ)
      → Represents p blib cache exists lru s self
      → validate p blib cache exists s self ≡ ok (v, self')
      → get_len v.block_lens h ≡ some n
      → (bytes : Bytes) × (content_at p blib cache exists lru s self.dir h ≡ ok bytes)
        × (length bytes ≡ n)
  unfolding validate
  validate-get_len self self' v h n rep e g = by_listing (blocks p blib cache exists s self) e
    where
      by_listing :
          (r : Result BlockError (List BlockHash))
          → validate_listed p blib cache exists s self r ≡ ok (v, self')
          → (bytes : Bytes) × (content_at p blib cache exists lru s self.dir h ≡ ok bytes)
            × (length bytes ≡ n)
      by_listing (err x) k = cc
      by_listing (ok hashes) k =
          let same : validate_each p blib cache exists s self (collect_set hashes) ≡ (v, self') =
            cc in
          validate_each-get_len p blib cache exists lru s self (collect_set hashes) h n rep
            (ap (λ (x : Validated × BlockDir C E). get_len x.0.block_lens h) same ∙ g)

length-slice :
    (start len : ℕ) (bytes : Bytes)
    → start + len ≤ length bytes
    → length (slice start (start + len) bytes) ≡ len
length-slice start len bytes h =
    length-take (start + len - start) (drop start bytes)
      (omega (arith, h, length-drop start bytes (omega (arith, h))))
    ∙ omega arith

module _ {S C E : Type 0} (p : Protocol S) (blib : BlockLib) (cache : LruCache Bytes C)
    (exists : LruCache (Unit {0}) E) (lru : IsLru cache) (codec : IndexCodec) (lib : BandLib)
    (s : S) (dir : Str) where
  abbrev fresh : BlockDir C E
  fresh = open_dir p blib cache exists dir

  -- The address is read in full.
  abbrev pub CanRead : Address → Type 0
  CanRead a =
      (bytes : Bytes) × ((read_address p blib cache exists s (open_dir p blib cache exists dir) a).0
        ≡ some (ok bytes))
      × (length bytes ≡ a.len)

  read_address-content_at :
      (a : Address) (bytes : Bytes)
      → content_at p blib cache exists lru s dir a.hash ≡ ok bytes
      → a.start + a.len ≤ length bytes
      → a.start + a.len < usize_mod
      → CanRead a
  unfolding read_address slice_of open_dir
  read_address-content_at a bytes held inside below = (
    slice a.start (a.start + a.len) bytes,
    ap (slice_of p blib cache exists a) (
          (get_block_content-content_at p blib cache exists lru s fresh a.hash
            (open_dir-Represents p blib cache exists lru s dir)).0
          ∙ held)
        ∙ ground (arith, inside, below),
    length-slice a.start a.len bytes inside,
  )

  -- A validation that reads the blocks and ends without a problem has this of every band that it
  -- listed: if the band's tree opens and its entries are read, and the ends of their addresses do not
  -- overflow, then every address of every file among them is read in full from the block directory.
  pub validate_archive-CanRead :
      (ids : List BandId) (b : BandId) (st : StoredTree) (es : List IndexEntry)
      (of_tree : BlockLens) (self : BlockDir C E)
      → list_band_ids p s ≡ ok ids
      → has_id ids b ≡ true
      → open_tree p codec lib s b ≡ some (ok st)
      → tree_entries p codec lib s st root (λ a. false) ≡ ok es
      → note_entries es [] ≡ some of_tree
      → validate_archive p blib cache exists codec lib s
          (open_dir p blib cache exists dir)
          (record { skip_block_hashes = false })
        ≡ some (ok [], self)
      → All (λ e. All CanRead (file_addrs e)) es
  unfolding validate_archive
  validate_archive-CanRead ids b st es of_tree self listed m opens entries noted_all done =
      All-map _ _ es (λ e c. All-map _ _ (file_addrs e) covered c)
        (note_entries-IsCovered es [] of_tree noted_all)
    where
      found : validate_stored_tree p codec lib s st ≡ some of_tree
      found = unfold validate_stored_tree in (ap (noted p codec lib) entries ∙ noted_all)

      by_blocks :
          (ps : List Problem) (lens : BlockLens) (r : Result BlockError (Validated × BlockDir C E))
          → validate p blib cache exists s fresh ≡ r
          → after_blocks p blib cache exists codec lib fresh ps lens r ≡ some (ok [], self)
          → (ps ≡ [])
            × ((h : BlockHash) (l : ℕ)
                → get_len lens h ≡ some l
                → (bytes : Bytes) × (content_at p blib cache exists lru s dir h ≡ ok bytes)
                  × (l ≤ length bytes))
      by_blocks ps lens (err e) q k = cc
      by_blocks ps lens (ok (v, self')) q k =
          let nothing : ps ++ unreadable v.errors ++ check_lengths v.block_lens lens ≡ [] = cc in
          let (front, lengths) =
            nil-append (ps ++ unreadable v.errors) (check_lengths v.block_lens lens) nothing in
          (
            (nil-append ps (unreadable v.errors) front).0,
            λ h l g.
                let (n, has_n, le) = check_lengths-none v.block_lens lens h l lengths g in
                let (bytes, held, len) =
                  validate-get_len p blib cache exists lru s fresh self' v h n
                    (open_dir-Represents p blib cache exists lru s dir) q has_n in
                (bytes, unfold open_dir in held, omega (arith, le, len)),
          )

      by_problems :
          (a : Address) (dups problems : List Problem) (lens : BlockLens)
          → IsCovered of_tree a
          → KeepsClean p codec lib s a.hash (a.start + a.len) (some (lens, problems))
          → (dups ++ problems ≡ [])
            × ((h : BlockHash) (l : ℕ)
                → get_len lens h ≡ some l
                → (bytes : Bytes) × (content_at p blib cache exists lru s dir h ≡ ok bytes)
                  × (l ≤ length bytes))
          → CanRead a
      by_problems a dups (x ∷ ps) lens c clean k = cons-nil (nil-append dups (x ∷ ps) k.0).1
        where
          cons-nil : {A : Type 0} {y : Problem} {ys : List Problem} → y ∷ ys ≡ [] → A
          cons-nil e = cc
      by_problems a dups [] lens c (l, g, least) k =
          let (bytes, held, le) = k.1 a.hash l g in
          read_address-content_at a bytes held (omega (arith, least, le)) c.1

      by_found :
          (a : Address) (dups : List Problem) (r : Found p codec lib)
          → IsCovered of_tree a
          → KeepsClean p codec lib s a.hash (a.start + a.len) r
          → after_bands p blib cache exists codec lib s fresh
              (record { skip_block_hashes = false })
              dups
              r
            ≡ some (ok [], self)
          → CanRead a
      by_found a dups none c clean k = cc
      by_found a dups (some (lens, problems)) c clean k =
          by_problems a dups problems lens c clean
            (by_blocks (dups ++ problems) lens (validate p blib cache exists s fresh) refl k)

      by_dir :
          (a : Address) (r : Result ErrorKind ListDir)
          → IsCovered of_tree a
          → after_dir p blib cache exists codec lib s fresh (record { skip_block_hashes = false }) r
            ≡ some (ok [], self)
          → CanRead a
      by_dir a (err e) c k = cc
      by_dir a (ok list) c k =
          by_found a (duplicated_bands [] list.dirs) (validate_bands p codec lib s ids []) c
            (validate_bands-KeepsClean p codec lib s a.hash (a.start + a.len) b st of_tree opens
              found c.0 ids [] m)
            (ap
                (after_list p blib cache exists codec lib s fresh
                  (record { skip_block_hashes = false }) (duplicated_bands [] list.dirs))
                (sym listed)
              ∙ k)

      covered : (a : Address) → IsCovered of_tree a → CanRead a
      covered a c = by_dir a (p.list_dir s []) c done
