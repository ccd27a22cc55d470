-- ===== src/Apath.antt =====
-- Archive paths (src/apath.rs): validation, building children, the prefix test, the order of the
-- archive and the order check. A path is the string that it holds.
pub mod Order
pub mod Children
pub mod Prefix
pub mod Check
use conserve.Common.{
  ℕ, suc, ◌∷◌, [], List, ◌++◌, Option, none, some, Bool, true, false, ◌&&◌, ◌||◌, not, Ordering,
  ◌==◌, ltb, if◌then◌else◌, Str, str, len, str_eq, starts_with, ends_with_char, contains_char,
  get_elem?,
}
use Prim.Native.Nat.{compare}
use conserve.Common.Order.{lex}
use conserve.Common.Results.{Result, ok, err}

-- `struct Apath(String)`
abbrev pub Apath : Type 0
Apath = Str

abbrev pub slash : ℕ
slash = b'/'

-- `split('/')`: the first part, and the parts after it. There is always a first part.
abbrev cons_part : ℕ → Str × List Str → Str × List Str
cons_part c (h, t) = if c == slash then ([], h ∷ t) else (c ∷ h, t)

unfoldable pub split : Str → Str × List Str
split [] = ([], [])
split (c ∷ s) = cons_part c (split s)

-- The test of one part in the loop of `is_valid`.
unfoldable pub is_bad_part : Str → Bool
is_bad_part part =
    str_eq part [] || str_eq part (str ".") || str_eq part (str "..") || contains_char 0 part

unfoldable pub no_bad_part : List Str → Bool
no_bad_part [] = true
no_bad_part (part ∷ rest) = if is_bad_part part then false else no_bad_part rest

-- The parts of `a[1..]`.
unfoldable pub parts_after_slash : Str → List Str
parts_after_slash [] = []
parts_after_slash (c ∷ s) = let (h, t) = split s in h ∷ t

unfoldable pub is_valid : Str → Bool
is_valid a =
    if not (starts_with (slash ∷ []) a)
    then false
    else if len a == 1
    then true
    else no_bad_part (parts_after_slash a)

unfoldable pub append : Apath → Str → Apath
append self child_name =
    (if not (str_eq self (slash ∷ [])) then self ++ slash ∷ [] else self) ++ child_name

-- `== Some('/')`
abbrev pub is_slash_at : Option ℕ → Bool
is_slash_at none = false
is_slash_at (some c) = c == slash

unfoldable pub is_prefix_of : Apath → Apath → Bool
is_prefix_of self a = elim (compare (len self) (len a)) [
  | Ordering.gt ↦ false
  | Ordering.eq ↦ str_eq self a
  | Ordering.lt ↦
      starts_with self a && (ends_with_char slash self || is_slash_at (get_elem? a (len self)))
]

abbrev pub root : Apath
root = slash ∷ []

pub data ApathParseError : Type 0 where
  invalid : ApathParseError

unfoldable pub from_str : Str → Result ApathParseError Apath
from_str s = if not (is_valid s) then err invalid else ok s

-- `impl From<&str>` and `impl From<String>`: `none` is the panic of the assertion.
unfoldable pub from : Str → Option Apath
from s = if is_valid s then some s else none

-- `str::cmp`.
unfoldable pub cmp_str : Str → Str → Ordering
unfolding lex
cmp_str = lex compare

-- The loop of `Ord::cmp`: `oa` and `ob` are the current parts, the lists what the iterators hold.
unfoldable pub cmp_loop : Str → List Str → Str → List Str → Ordering
cmp_loop oa [] ob [] = cmp_str oa ob
cmp_loop oa [] ob (bc ∷ bit) = Ordering.lt
cmp_loop oa (ac ∷ ait) ob [] = Ordering.gt
cmp_loop oa (ac ∷ ait) ob (bc ∷ bit) = elim (cmp_str oa ob) [
  | Ordering.eq ↦ cmp_loop ac ait bc bit
  | Ordering.lt ↦ Ordering.lt
  | Ordering.gt ↦ Ordering.gt
]

unfoldable pub cmp : Apath → Apath → Ordering
cmp a b = let (oa, ait) = split a in let (ob, bit) = split b in cmp_loop oa ait ob bit

pub record CheckOrder : Type 0 where
  pub last_apath : Option Apath

abbrev pub new_check : CheckOrder
new_check = record { last_apath = none }

-- `CheckOrder::check`: `none` is the panic of the assertion.
unfoldable pub check : CheckOrder → Apath → Option CheckOrder
check self a = elim self.last_apath [
  | none ↦ some (record { last_apath = some a })
  | some last ↦ elim (cmp last a) [
    | Ordering.lt ↦ some (record { last_apath = some a })
    | Ordering.eq ↦ none
    | Ordering.gt ↦ none
  ]
]
