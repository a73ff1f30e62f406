-- ===== src/Runtime/Strings.antt =====
-- runtime/string.c, runtime/runtime.h: the strings of compiled programs and their operations. A
-- string is a byte of length and an array of `MaxStringLen + 1` bytes; a pointer into one is the
-- list of the bytes from there to the end of the text. The result is another string than the
-- operands, as the calls of the compiler have it.
pub mod Concat
pub mod Compare
pub mod Search
pub mod Trim
use lacsap.Prelude.{
  ℕ, zero, suc, ◌+◌, ◌-◌, Bool, true, false, ◌||◌, List, [], ◌∷◌, if◌then◌else◌, ltb, leb, ◌==◌,
  Text, length, get_or,
}
use lacsap.Prelude.Int.{ℤ, pos, negsuc, sub_ℕ}
use lacsap.Runtime.Arrays.{memcpy, take, drop}
use lacsap.Outcome.{Outcome, done, ice, undefined, ◌>>=◌}

-- `MaxStringLen`
abbrev pub max_string_len : ℕ
max_string_len = 255

-- `String`
pub record String : Type 0 where
  pub len : ℕ
  pub str : Text

-- `__StrConcat`
unfoldable pub str_concat : String → String → String → Outcome String
str_concat res a b =
    let over = ltb max_string_len (a.len + b.len) in
    let blen = if over then max_string_len - a.len else b.len in
    let total = if over then max_string_len else a.len + b.len in
    do
      first ← memcpy res.str 0 a.str 0 a.len
      both ← memcpy first a.len b.str 0 blen
      done (record { len = total; str = both })

-- `__StrAssign`
unfoldable pub str_assign : String → String → Outcome String
str_assign a b = do
  copied ← memcpy a.str 0 b.str 0 b.len
  done (record { len = b.len; str = copied })

-- The loop of `__StrCompare` over the shorter of two texts, and what follows it
unfoldable pub compare_texts : Text → Text → ℤ
compare_texts (x ∷ a) (y ∷ b) = if x == y then compare_texts a b else sub_ℕ x y
compare_texts a b = sub_ℕ (length a) (length b)

-- The bytes of a string up to its length
unfoldable pub text : String → Text
text s = take s.len s.str

-- `__StrCompare`
unfoldable pub str_compare : String → String → ℤ
unfolding compare_texts text
str_compare a b = compare_texts (text a) (text b)

-- `{ len, "" }` leaves the array zero.
abbrev pub zeros : ℕ → Text
zeros zero = []
zeros (suc n) = 0 ∷ zeros n

-- The length that `__StrCopy` comes to. The second test sees the length that the first has set.
abbrev pub copy_len : ℕ → ℕ → ℕ → ℕ
copy_len slen start len =
    let len' = if ltb slen start then 0 else len in
    if ltb slen (start + len') then slen - (start - 1) else len'

-- `__StrCopy`. A failed `assert` aborts; a sum above `INT_MAX` is undefined.
unfoldable pub str_copy : String → ℤ → ℤ → Outcome String
str_copy s (pos zero) len = ice
str_copy s (negsuc n) len = ice
str_copy s (pos start) (negsuc n) = ice
str_copy s (pos start) (pos len) =
    if ltb 0x7fff_ffff (start + (if ltb s.len start then 0 else len))
    then undefined
    else (let n = copy_len s.len start len in
        do bytes ← memcpy (zeros 256) 0 s.str (start - 1) n; done (record { len = n; str = bytes }))

-- The loop of `__StrTrim` from the left: what is left of the text
unfoldable pub trim_left : Text → Text
trim_left [] = []
trim_left (c ∷ t) = let rest = trim_left t in if leb c b' ' then rest else c ∷ t

-- The loop of `__StrTrim` from the right, over the first n bytes of the text at `s`: how many are
-- left. It stops at the first byte of the text, whatever that is.
unfoldable pub trim_right : Text → ℕ → ℕ
trim_right t (suc (suc n)) =
    let rest = trim_right t (suc n) in if leb (get_or t (suc n) 0) b' ' then rest else suc (suc n)
trim_right t n = n

-- `__StrTrim`
unfoldable pub str_trim : String → String → Outcome String
unfolding trim_left trim_right text
str_trim res s =
    let rest = trim_left (text s) in
    let n = trim_right rest (length rest) in
    do
      bytes ← memcpy res.str 0 s.str (length (text s) - length rest) n
      done (record { len = n; str = bytes })

-- The inner loop of `__StrIndex`: does the first text start with the second?
unfoldable pub starts_with : Text → Text → Bool
starts_with a [] = true
starts_with [] (y ∷ b) = false
starts_with (x ∷ a) (y ∷ b) = if x == y then starts_with a b else false

-- The outer loop of `__StrIndex`, at the place n of the text
unfoldable pub index_loop : ℕ → Text → Text → ℕ
unfolding starts_with
index_loop n [] b = 0
index_loop n (x ∷ a) b =
    let rest = index_loop (suc n) a b in if starts_with (x ∷ a) b then 1 + n else rest

-- `__StrIndex`
unfoldable pub str_index : String → String → ℕ
unfolding index_loop text
str_index a b = index_loop 0 (text a) (text b)
