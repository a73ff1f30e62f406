-- ===== src/Lexer/Convert.antt =====
-- lexer.cpp: the conversions of digit strings, with the C library's `strtoull` and `strtol`.
use lacsap.Prelude.{
  ℕ, ◌+◌, ◌-◌, ◌*◌, ◌%◌, ◌^◌, Bool, true, false, not, ◌&&◌, ◌||◌, [], ◌∷◌, ltb, leb, ◌==◌,
  if◌then◌else◌, Text, is_digit, is_xdigit, is_alpha, is_space, to_lower,
}
use lacsap.Outcome.{Outcome, done, ◌>>=◌}
use lacsap.Token.{TokenType, Location, Token, plain_token, int_token, real_token}
use lacsap.Lexer.Chars.{Lexer}

-- What a conversion of the C library gives: the value, the text from `endPtr` on, and whether it
-- set `errno` to `ERANGE`. An unsigned value is a number below 2^64, a `long` is its bit pattern.
pub record Converted (V : Type 0) : Type 0 where
  pub val : V
  pub rest : Text
  pub range : Bool

-- The C string of a `std::string` ends at its first NUL.
abbrev pub c_str : Text → Text
c_str [] = []
c_str (c ∷ s) = if c == 0 then [] else c ∷ c_str s

abbrev pub digit_value : ℕ → ℕ
digit_value c = if is_digit c then c - b'0' else if is_alpha c then to_lower c - b'a' + 10 else 99

-- The digits of the base at the front, read onto `acc`.
unfoldable pub read_digits : ℕ → ℕ → Text → ℕ × Text
read_digits base acc [] = (acc, [])
read_digits base acc (c ∷ s) =
    let rest = read_digits base (acc * base + digit_value c) s in
    if ltb (digit_value c) base then rest else (acc, c ∷ s)

abbrev pub starts_digit : ℕ → Text → Bool
starts_digit base [] = false
starts_digit base (c ∷ _) = ltb (digit_value c) base

abbrev pub skip_white : Text → Text
skip_white [] = []
skip_white (c ∷ s) = let rest = skip_white s in if is_space c then rest else c ∷ s

-- "0x" in front of a hexadecimal digit, in base 16
abbrev pub skip_prefix : ℕ → Text → Text
skip_prefix base (z ∷ x ∷ d ∷ s) =
    if base == 16 && z == b'0' && to_lower x == b'x' && is_xdigit d then d ∷ s else z ∷ x ∷ d ∷ s
skip_prefix base s = s

-- sign, and what follows it
abbrev pub split_sign : Text → Bool × Text
split_sign [] = (false, [])
split_sign (c ∷ s) =
    if c == b'-' then (true, s) else if c == b'+' then (false, s) else (false, c ∷ s)

-- The common part of `strtoull` and `strtol`: `finish` takes the sign and the value read.
strto : (Bool → ℕ → ℕ × Bool) → Text → ℕ → Converted ℕ
strto finish s base =
    let (neg, body) = split_sign (skip_white s) in
    let digits = skip_prefix base body in
    let (v, rest) = read_digits base 0 digits in
    let (val, range) = finish neg v in
    if starts_digit base digits
    then record { val = val; rest = rest; range = range }
    else record { val = 0; rest = s; range = false }

abbrev unsigned_limits : Bool → ℕ → ℕ × Bool
unsigned_limits neg v =
    if leb (2 ^ 64) v
    then (2 ^ 64 - 1, true)
    else if neg
    then ((2 ^ 64 - v) % 2 ^ 64, false)
    else (v, false)

abbrev signed_limits : Bool → ℕ → ℕ × Bool
signed_limits true v = if ltb (2 ^ 63) v then (2 ^ 63, true) else ((2 ^ 64 - v) % 2 ^ 64, false)
signed_limits false v = if leb (2 ^ 63) v then (2 ^ 63 - 1, true) else (v, false)

unfoldable pub strtoull : Text → ℕ → Converted ℕ
unfolding strto read_digits
strtoull = strto unsigned_limits

unfoldable pub strtol : Text → ℕ → Converted ℕ
unfolding strto read_digits
strtol = strto signed_limits

abbrev pub is_end : Text → Bool
is_end [] = true
is_end (_ ∷ _) = false

abbrev pub note_range : Bool → Lexer → Lexer
note_range range lx = record lx { erange = lx.erange || range }

-- `SafeConvert`: `narrow` is the conversion of the result to `T`, `top` the largest `T`.
-- Returned are the value, `err`, and the lexer with the new `errno`.
pub safe_convert : (Text → ℕ → Converted ℕ) → (ℕ → ℕ) → ℕ → Text → ℕ → Lexer → ℕ × Bool × Lexer
safe_convert fn narrow top num base lx =
    let r = fn (c_str num) base in
    let v = narrow r.val in
    let lx' = note_range r.range lx in (v, not (is_end r.rest) || (v == top && lx'.erange), lx')

-- `SafeConvert<uint64_t>(num, err, strtoull, base)`
unfoldable pub convert_uint64 : Text → ℕ → Lexer → ℕ × Bool × Lexer
unfolding safe_convert strtoull
convert_uint64 = safe_convert strtoull (λ v. v) (2 ^ 64 - 1)

-- `SafeConvert<int>(num, err, strtol, 10)`: the `int` is the low 32 bits of the `long`.
unfoldable pub convert_int : Text → Lexer → ℕ × Bool × Lexer
unfolding safe_convert strtol
convert_int num = safe_convert strtol (λ v. v % 2 ^ 32) (2 ^ 31 - 1) num 10

module _ {R : Type 0} where
  -- `ConvertInt`
  unfoldable pub convert_int_token : Text → Location → ℕ → Lexer → Outcome (Token R × Lexer)
  unfolding convert_uint64
  convert_int_token num w base lx =
      let (v, err, lx') = convert_uint64 num base lx in
      if err
      then (do t ← plain_token TokenType.overflow w; done (t, lx'))
      else do t ← int_token TokenType.integer w v; done (t, lx')

  -- `ConvertFloat`. `strtod` is the C library's: doubles are a type `R` here.
  unfoldable pub convert_float :
      (Text → Converted R) → Text → Location → Lexer → Outcome (Token R × Lexer)
  convert_float strtod num w lx =
      let r = strtod (c_str num) in
      let lx' = note_range r.range lx in
      if is_end r.rest
      then done (real_token w r.val, lx')
      else do t ← plain_token TokenType.overflow w; done (t, lx')

-- `ValidForBase`
unfoldable pub valid_for_base : ℕ → ℕ → Bool
valid_for_base c base =
    if base == 10
    then is_digit c
    else if base == 16
    then is_xdigit c
    else if ltb base 10 && (leb b'0' c && ltb c (b'0' + base))
    then true
    else (let l = to_lower c in is_digit l || (leb b'a' l && ltb (l + 10) (b'a' + base)))
