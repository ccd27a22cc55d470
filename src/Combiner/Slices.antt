-- ===== src/Combiner/Slices.antt =====
-- The buffer of the combiner holds each queued file where the queue says.
use conserve.Common.{
  ℕ, ◌+◌, ◌≤◌, List, [], ◌∷◌, ◌++◌, zero, suc, ◌≡◌, refl, ap, sym, ◌∙◌, arith, length, take, drop,
  length-append, drop-append_length,
}
use conserve.Transport.{Bytes}
use conserve.Entry.{IndexEntry}
use conserve.BlockDir.{slice}
use conserve.Combiner.{QueuedFile}

-- Each queued file stands in the buffer with the content that it is listed with.
abbrev pub Buffered : Bytes → List QueuedFile → List Bytes → Type 0
Buffered buf [] [] = Unit
Buffered buf [] (c ∷ contents) = ⊥
Buffered buf (q ∷ queue) [] = ⊥
Buffered buf (q ∷ queue) (c ∷ contents) =
    (q.start + q.len ≤ length buf)
    × (slice q.start (q.start + q.len) buf ≡ c)
    × Buffered buf queue contents

take-append : (n : ℕ) (xs ys : Bytes) → n ≤ length xs → take n (xs ++ ys) ≡ take n xs
take-append zero xs ys h = refl
take-append (suc n) [] ys h = absurd (omega (arith, h))
take-append (suc n) (x ∷ xs) ys h = ap (◌∷◌ x) (take-append n xs ys (omega (arith, h)))

slice-append :
    (start len : ℕ) (xs ys : Bytes)
    → start + len ≤ length xs
    → take len (drop start (xs ++ ys)) ≡ take len (drop start xs)
slice-append zero len xs ys h = take-append len xs ys (omega (arith, h))
slice-append (suc start) len [] ys h = absurd (omega (arith, h))
slice-append (suc start) len (x ∷ xs) ys h = slice-append start len xs ys (omega (arith, h))

pub slice-len :
    (start len : ℕ) (xs : Bytes) → slice start (start + len) xs ≡ take len (drop start xs)
slice-len start len xs = ap (λ n. take n (drop start xs)) (omega arith)

take_all : (xs : Bytes) → take (length xs) xs ≡ xs
take_all [] = refl
take_all (x ∷ xs) = ap (◌∷◌ x) (take_all xs)

-- A file put behind the buffer stands there with its content, and the others stay.
pub Buffered-enqueue :
    (buf : Bytes) (queue : List QueuedFile) (contents : List Bytes) (entry : IndexEntry)
    (content : Bytes)
    → Buffered buf queue contents
    → Buffered
        (buf ++ content)
        (queue ++ (record { start = length buf; len = length content; entry = entry } ∷ []))
        (contents ++ (content ∷ []))
Buffered-enqueue buf [] [] entry content h = (
  omega (arith, length-append buf content),
  slice-len (length buf) (length content) (buf ++ content)
      ∙ ap (take (length content)) (drop-append_length buf content)
      ∙ take_all content,
  tt,
)
Buffered-enqueue buf [] (c ∷ contents) entry content h = elim h [ ]
Buffered-enqueue buf (q ∷ queue) [] entry content h = elim h [ ]
Buffered-enqueue buf (q ∷ queue) (c ∷ contents) entry content h = (
  omega (arith, h.0, length-append buf content),
  slice-len q.start q.len (buf ++ content)
      ∙ slice-append q.start q.len buf content h.0
      ∙ sym (slice-len q.start q.len buf)
      ∙ h.1,
  Buffered-enqueue buf queue contents entry content h.2,
)
