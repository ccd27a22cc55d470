-- ===== src/BandId.antt =====
-- Band identifiers (src/bandid.rs): a 32-bit number, shown as `b` and at least four digits.
use conserve.Common.{
  ℕ, ◌+◌, ◌-◌, ◌%◌, ◌<◌, List, [], ◌∷◌, Option, none, some, Str, ◌≡◌, ap, arith, ◌==◌,
  if◌then◌else◌,
}
use conserve.Common.Decimal.{print_padded, parse_u32, u32_mod, parse_u32-print_padded}
use conserve.Common.Results.{Result, ok, err}

-- `struct BandId(u32)`
abbrev pub BandId : Type 0
BandId = ℕ

pub data BandIdError : Type 0 where
  invalid_version : Str → BandIdError

-- `none` is the panic of the assertion.
unfoldable pub new : List ℕ → Option BandId
new [] = none
new (n ∷ []) = some n
new (n ∷ m ∷ rest) = none

abbrev pub zero_id : BandId
zero_id = 0

-- The sum wraps, as in a release build.
unfoldable pub next_sibling : BandId → BandId
next_sibling self = (self + 1) % u32_mod

unfoldable pub previous : BandId → Option BandId
previous self = if self == 0 then none else some (self - 1)

abbrev parse_number : Str → Str → Result BandIdError BandId
parse_number s num = elim (parse_u32 num) [ none ↦ err (invalid_version s) | some n ↦ ok n ]

unfoldable pub from_str : Str → Result BandIdError BandId
from_str [] = err (invalid_version [])
from_str (c ∷ num) =
    if c == b'b' then parse_number (c ∷ num) num else err (invalid_version (c ∷ num))

unfoldable pub to_string : BandId → Str
to_string self = b'b' ∷ print_padded 4 self

-- The name of a band's directory, for a 32-bit number, is parsed back to the band's identifier.
pub from_str-to_string : (id : BandId) → id < u32_mod → from_str (to_string id) ≡ ok id
unfolding from_str to_string
from_str-to_string id h = ground (arith, parse_u32-print_padded 4 id h)

-- Different bands have different directories.
pub to_string-injective :
    (a b : BandId) → a < u32_mod → b < u32_mod → to_string a ≡ to_string b → a ≡ b
to_string-injective a b ha hb e =
    ground (arith, from_str-to_string a ha, from_str-to_string b hb, ap from_str e)

-- The band before the next one is the band itself, below the largest number.
pub previous-next_sibling : (id : BandId) → id + 1 < u32_mod → previous (next_sibling id) ≡ some id
unfolding previous next_sibling
previous-next_sibling id h = ground arith
