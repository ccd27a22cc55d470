-- ===== src/Common/Decimal.antt =====
-- Decimal numerals: `{}` and `{:0w}` of the formatter and `str::parse::<u32>`.
use conserve.Common.{
  ℕ, zero, suc, ◌+◌, ◌-◌, ◌*◌, ◌/◌, ◌%◌, ◌^◌, ◌<◌, ◌≤◌, [], ◌∷◌, ◌++◌, Option, none, some, Bool,
  ◌&&◌, ltb, leb, ◌==◌, if◌then◌else◌, Str, length, All, ◌≡◌, refl, arith, ◌∙◌, Bool-cases, inl,
  inr,
}

print_loop : ℕ → ℕ → Str → Str
print_loop zero n acc = acc
print_loop (suc fuel) n acc =
    let rest = print_loop fuel (n / 10) ((48 + n % 10) ∷ acc) in
    if ltb n 10 then (48 + n) ∷ acc else rest

-- `{}` of a number. The fuel is more than the number of its digits.
unfoldable pub print : ℕ → Str
unfolding print_loop
print n = print_loop (suc n) n []

unfoldable pub zeros : ℕ → Str
zeros zero = []
zeros (suc n) = 48 ∷ zeros n

-- `{:0w}`: zeros in front up to the width.
unfoldable pub print_padded : ℕ → ℕ → Str
unfolding print zeros
print_padded width n = zeros (width - length (print n)) ++ print n

abbrev pub u32_mod : ℕ
u32_mod = 2 ^ 32

abbrev is_digit : ℕ → Bool
is_digit c = leb 48 c && leb c 57

parse_loop : ℕ → Str → Option ℕ
parse_loop acc [] = some acc
parse_loop acc (c ∷ s) =
    let next = acc * 10 + (c - 48) in
    let rest = parse_loop next s in if is_digit c && ltb next u32_mod then rest else none

strip_plus : Str → Str
strip_plus [] = []
strip_plus (c ∷ s) = if c == b'+' then s else c ∷ s

abbrev parse_digits : Str → Option ℕ
parse_digits [] = none
parse_digits (c ∷ s) = parse_loop 0 (c ∷ s)

-- `parse::<u32>()`: digits, with an optional plus sign in front, and no overflow.
unfoldable pub parse_u32 : Str → Option ℕ
unfolding strip_plus parse_loop
parse_u32 s = parse_digits (strip_plus s)

abbrev IsDigits : Str → Type 0
IsDigits = All (λ c. (48 ≤ c) × (c ≤ 57))

print_loop-IsDigits : (fuel n : ℕ) (acc : Str) → IsDigits acc → IsDigits (print_loop fuel n acc)
unfolding print_loop
print_loop-IsDigits zero n acc h = h
print_loop-IsDigits (suc fuel) n acc h = elim (Bool-cases (ltb n 10)) [
  | inl e ↦ rw e (ground arith, h)
  | inr e ↦
      rw e (print_loop-IsDigits fuel (n / 10) ((48 + n % 10) ∷ acc) ((omega arith, omega arith), h))
]

parse-print_loop :
    (fuel n : ℕ) (rest : Str)
    → n < fuel
    → n < u32_mod
    → parse_loop 0 (print_loop fuel n rest) ≡ parse_loop n rest
unfolding parse_loop print_loop
parse-print_loop zero n rest h k = elim h [ ]
parse-print_loop (suc fuel) n rest h k = elim (Bool-cases (ltb n 10)) [
  | inl e ↦ rw e (ground arith)
  | inr e ↦ rw e (
      parse-print_loop fuel (n / 10) ((48 + n % 10) ∷ rest) (ground arith) (omega arith)
      ∙ ground arith)
]

parse-zeros : (k : ℕ) (s : Str) → parse_loop 0 (zeros k ++ s) ≡ parse_loop 0 s
unfolding parse_loop zeros
parse-zeros zero s = refl
parse-zeros (suc k) s = parse-zeros k s

zeros-IsDigits : (k : ℕ) (s : Str) → IsDigits s → IsDigits (zeros k ++ s)
unfolding zeros
zeros-IsDigits zero s h = h
zeros-IsDigits (suc k) s h = ((omega arith, omega arith), zeros-IsDigits k s h)

parse_u32-digits : (c : ℕ) (s : Str) → IsDigits (c ∷ s) → parse_u32 (c ∷ s) ≡ parse_loop 0 (c ∷ s)
unfolding parse_u32 strip_plus
parse_u32-digits c s h = ground arith

length-print_loop : (fuel n : ℕ) (acc : Str) → length acc < length (print_loop (suc fuel) n acc)
unfolding print_loop
length-print_loop zero n acc = ground arith
length-print_loop (suc fuel) n acc =
    ground (arith, length-print_loop fuel (n / 10) ((48 + n % 10) ∷ acc))

parse_u32-of_digits : (s : Str) → IsDigits s → 0 < length s → parse_u32 s ≡ parse_loop 0 s
parse_u32-of_digits [] h k = absurd (omega arith)
parse_u32-of_digits (c ∷ s) h k = parse_u32-digits c s h

length-append-right : (a b : Str) → length b ≤ length (a ++ b)
length-append-right [] b = omega arith
length-append-right (x ∷ a) b = omega (arith, length-append-right a b)

-- A padded numeral reads back as its number, whatever the width.
pub parse_u32-print_padded : (width n : ℕ) → n < u32_mod → parse_u32 (print_padded width n) ≡ some n
unfolding print_padded print
parse_u32-print_padded width n h =
    let k = width - length (print n) in
    parse_u32-of_digits (zeros k ++ print n)
      (zeros-IsDigits k (print n) (print_loop-IsDigits (suc n) n [] tt))
      (omega (arith, length-append-right (zeros k) (print n), length-print_loop n n []))
    ∙ parse-zeros k (print n)
    ∙ parse-print_loop (suc n) n [] (omega arith) h
    ∙ (unfold parse_loop in refl)
