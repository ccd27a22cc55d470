-- ===== src/Common/Text.antt =====
-- Rust's `str` as the list of its code points, with the operations of the standard library that
-- the program uses. `len` counts the bytes of the UTF-8 form, as `str::len` does; comparison and
-- prefix tests on the bytes are comparison and prefix tests on the code points.
use Prim.Native.Nat.{ℕ, ◌+◌, ◌≤◌, ◌<◌}
use Prim.Native.Char.{code}
use Prim.Native.String.{String}
use mathlib.Core.Path.{◌≡◌, refl, ap₂}
use mathlib.Core.Logic.{◌↔◌}
use mathlib.Core.Bool.{Bool, true, false, ◌&&◌, ◌||◌}
use mathlib.Core.List.{List, [], ◌∷◌, ◌++◌}
use native.Mathlib.Omega.{arith}
use conserve.Common.Tests.{◌==◌, ltb, if◌then◌else◌}
use conserve.Common.Lists.{length, All}

abbrev pub Str : Type 0
Str = List ℕ

-- The code points of a text.
abbrev pub str : String → Str
str String.[] = []
str (String.◌∷◌ c s) = code c ∷ str s

-- `char::len_utf8`.
pub len_utf8 : ℕ → ℕ
len_utf8 c = if ltb c 0x80 then 1 else if ltb c 0x800 then 2 else if ltb c 0x10000 then 3 else 4

-- `str::len`, in bytes.
unfoldable pub len : Str → ℕ
unfolding len_utf8
len [] = 0
len (c ∷ s) = len_utf8 c + len s

-- `==` on strings.
unfoldable pub str_eq : Str → Str → Bool
str_eq [] [] = true
str_eq [] (d ∷ t) = false
str_eq (c ∷ s) [] = false
str_eq (c ∷ s) (d ∷ t) = c == d && str_eq s t

-- `str::starts_with`.
unfoldable pub starts_with : Str → Str → Bool
starts_with [] t = true
starts_with (c ∷ s) [] = false
starts_with (c ∷ s) (d ∷ t) = c == d && starts_with s t

-- `str::ends_with` for one character.
unfoldable pub ends_with_char : ℕ → Str → Bool
ends_with_char k [] = false
ends_with_char k (c ∷ []) = c == k
ends_with_char k (c ∷ d ∷ s) = ends_with_char k (d ∷ s)

-- `str::contains` for one character.
unfoldable pub contains_char : ℕ → Str → Bool
contains_char k [] = false
contains_char k (c ∷ s) = c == k || contains_char k s

pub str_eq_iff : (s t : Str) → (str_eq s t ≡ true) ↔ (s ≡ t)
unfolding str_eq
str_eq_iff [] [] = (λ _. refl, λ _. refl)
str_eq_iff [] (d ∷ t) = (λ h. cc, λ h. cc)
str_eq_iff (c ∷ s) [] = (λ h. cc, λ h. cc)
str_eq_iff (c ∷ s) (d ∷ t) =
    (λ h. ground (arith, str_eq_iff s t), λ h. ground (arith, str_eq_iff s t))

-- A prefix test that succeeds splits the longer string.
pub starts_with-split : (s t : Str) → starts_with s t ≡ true → (r : Str) × (t ≡ s ++ r)
unfolding starts_with
starts_with-split [] t h = (t, refl)
starts_with-split (c ∷ s) [] h = cc
starts_with-split (c ∷ s) (d ∷ t) h =
    let (r, e) = starts_with-split s t (ground arith) in (r, ap₂ ◌∷◌ (ground arith) e)

pub starts_with-append : (s r : Str) → starts_with s (s ++ r) ≡ true
unfolding starts_with
starts_with-append [] r = refl
starts_with-append (c ∷ s) r = ground (arith, starts_with-append s r)

pub len-append : (s t : Str) → len (s ++ t) ≡ len s + len t
unfolding len
len-append [] t = omega arith
len-append (c ∷ s) t = omega (arith, len-append s t)

-- Every code point is ASCII.
abbrev pub IsAscii : Str → Type 0
IsAscii = All (λ c. c < 0x80)

-- Bytes and characters are as many in an ASCII string.
pub len-ascii : (s : Str) → IsAscii s → len s ≡ length s
unfolding len
len-ascii [] h = refl
len-ascii (c ∷ s) h = ground (arith, len-ascii s h.1)

-- A string has at least as many bytes as characters.
pub length-le-len : (s : Str) → length s ≤ len s
unfolding len
length-le-len [] = omega arith
length-le-len (c ∷ s) = ground (arith, length-le-len s)
