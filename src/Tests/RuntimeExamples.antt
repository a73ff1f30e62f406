-- ===== src/Tests/RuntimeExamples.antt =====
-- The theorems on the strings of the runtime at concrete inputs.
use lacsap.Prelude.{
  ℕ, ◌+◌, ◌-◌, ◌<◌, true, [], ◌++◌, ◌≡◌, ◌↔◌, ◌⊎◌, refl, codes, Text, arith, length,
}
use lacsap.Prelude.Int.{pos, ltb_ℤ, neg_ℤ}
use lacsap.Outcome.{done, ice}
use lacsap.Runtime.Arrays.{take, drop}
use lacsap.Runtime.Strings.{
  String, zeros, text, str_concat, str_compare, str_copy, str_index, str_trim, index_loop,
  starts_with, trim_left, trim_right,
}
use lacsap.Runtime.Strings.Concat.{IsString, str_concat-append, str_copy-take}
use lacsap.Runtime.Strings.Compare.{Before, str_compare-Before}
use lacsap.Runtime.Strings.Search.{IsFirst, StandsAt, str_index-IsFirst}
use lacsap.Runtime.Strings.Trim.{IsBlank, IsTrimmed, str_trim-IsTrimmed}

-- A string with a text of at most 6 bytes
abbrev string_of : Text → String
string_of t = record { len = length t; str = t ++ zeros (256 - length t) }

abbrev abcab : String
abcab = string_of (codes "abcab")

abbrev ca : String
ca = string_of (codes "ca")

abbrev spaced : String
spaced = string_of (codes "  ab ")

finds : str_index abcab ca ≡ 3
unfolding str_index index_loop starts_with text
finds = refl

finds_empty : str_index abcab (string_of []) ≡ 1
unfolding str_index index_loop starts_with text
finds_empty = refl

trims : trim_right (trim_left (text spaced)) 3 ≡ 2
unfolding trim_right trim_left text
trims = refl

negative_copy : str_copy abcab (pos 0) (pos 1) ≡ ice
unfolding str_copy
negative_copy = refl

str_concat-append_example :
    (r : String) × (str_concat abcab abcab ca ≡ done r)
    × IsString r
    × (text r ≡ take 255 (text abcab ++ text ca))
str_concat-append_example =
    str_concat-append abcab abcab ca (refl, omega arith) (refl, omega arith) (refl, omega arith)

str_copy-take_example :
    (r : String) × (str_copy abcab (pos 3) (pos 9) ≡ done r)
    × IsString r
    × (text r ≡ take 9 (drop 2 (text abcab)))
str_copy-take_example = str_copy-take abcab 2 9 (refl, omega arith) (omega arith)

str_compare-Before_example :
    ((ltb_ℤ (str_compare abcab ca) (pos 0) ≡ true) ↔ Before (text abcab) (text ca))
    × ((str_compare abcab ca ≡ pos 0) ↔ (text abcab ≡ text ca))
    × (str_compare ca abcab ≡ neg_ℤ (str_compare abcab ca))
str_compare-Before_example = str_compare-Before abcab ca

str_index-IsFirst_example :
    ((k : ℕ) × (str_index abcab ca ≡ 1 + k) × IsFirst k (text abcab) (text ca))
    ⊎ ((str_index abcab ca ≡ 0)
        × ((i : ℕ) → i < length (text abcab) → ¬ StandsAt i (text abcab) (text ca)))
str_index-IsFirst_example = str_index-IsFirst abcab ca

str_trim-IsTrimmed_example :
    (r : String) × (str_trim ca spaced ≡ done r)
    × IsString r
    × ((pre post : Text) × (text spaced ≡ pre ++ (text r ++ post)) × IsBlank pre × IsBlank post)
    × IsTrimmed (text r)
str_trim-IsTrimmed_example = str_trim-IsTrimmed ca spaced (refl, omega arith) (refl, omega arith)
