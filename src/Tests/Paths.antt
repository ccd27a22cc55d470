-- ===== src/Tests/Paths.antt =====
-- The theorems on paths and band identifiers at concrete paths.
use conserve.Common.{
  [], ◌∷◌, true, false, Ordering, Str, str, ◌≡◌, refl, ◌↔◌, arith, contains_char, starts_with, len,
  str_eq, IsAscii, is_some,
}
use conserve.Common.Results.{ok}
use conserve.Common.Order.{Ascending}
use conserve.Apath.{
  Apath, is_valid, append, cmp, cmp_str, is_prefix_of, is_bad_part, split, no_bad_part,
  parts_after_slash, new_check,
}
use conserve.Apath.Children.{IsName, cmp-append_deeper, cmp-append_subdirs}
use conserve.Apath.Prefix.{IsWithin, is_prefix_of_iff, is_prefix_of_misses}
use conserve.Apath.Check.{check_all, check_all_iff}
use conserve.BandId.{to_string, from_str, from_str-to_string}

abbrev photos : Apath
photos = str "/photos"

-- "/é": two bytes in one character.
abbrev accented : Apath
accented = b'/' ∷ 233 ∷ []

abbrev cats : Str
cats = str "cats"

abbrev dogs : Str
dogs = str "dogs"

photos-valid : is_valid photos ≡ true
unfolding is_valid split no_bad_part is_bad_part starts_with len parts_after_slash str_eq
    contains_char
photos-valid = refl

abbrev photos2 : Apath
photos2 = str "/photos2"

photos2-valid : is_valid photos2 ≡ true
unfolding is_valid split no_bad_part is_bad_part starts_with len parts_after_slash str_eq
    contains_char
photos2-valid = refl

photos-IsAscii : IsAscii photos
photos-IsAscii = (
  omega arith,
  (omega arith, (omega arith, (omega arith, (omega arith, (omega arith, (omega arith, tt)))))),
)

accented-valid : is_valid accented ≡ true
unfolding is_valid split no_bad_part is_bad_part starts_with len parts_after_slash str_eq
    contains_char
accented-valid = refl

cats-IsName : IsName cats
unfolding is_bad_part str_eq contains_char
cats-IsName = record { good = refl; whole = refl }

dogs-IsName : IsName dogs
unfolding is_bad_part str_eq contains_char
dogs-IsName = record { good = refl; whole = refl }

cmp-append_deeper_example :
    cmp (append photos dogs) (append (append photos cats) cats) ≡ Ordering.lt
cmp-append_deeper_example =
    cmp-append_deeper photos dogs cats cats photos-valid dogs-IsName cats-IsName cats-IsName

cmp-append_subdirs_example :
    cmp (append (append photos cats) dogs) (append (append photos dogs) cats) ≡ Ordering.lt
unfolding cmp_str
cmp-append_subdirs_example =
    cmp-append_subdirs photos cats dogs dogs cats photos-valid cats-IsName dogs-IsName dogs-IsName
      cats-IsName refl

is_prefix_of_iff_example : (is_prefix_of photos photos2 ≡ true) ↔ IsWithin photos photos2
is_prefix_of_iff_example = is_prefix_of_iff photos photos2 photos-IsAscii photos-valid photos2-valid

is_prefix_of_misses_example : is_prefix_of accented (append accented cats) ≡ false
unfolding len
is_prefix_of_misses_example =
    is_prefix_of_misses accented cats accented-valid (omega arith) cats-IsName

check_all_iff_example :
    (is_some (check_all new_check (photos ∷ cats ∷ [])) ≡ true) ↔ Ascending cmp (photos ∷ cats ∷ [])
check_all_iff_example = check_all_iff (photos ∷ cats ∷ [])

from_str-to_string_example : from_str (to_string 12345) ≡ ok 12345
from_str-to_string_example = from_str-to_string 12345 (omega arith)
