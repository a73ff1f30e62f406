-- ===== src/Lexer/Digits.antt =====
-- lexer.cpp: `SafeConvert` on a text of digits.
use native.Mathlib.Nat.{pow-suc, pow-zero}
use lacsap.Prelude.{
  ℕ, ◌+◌, ◌-◌, ◌*◌, ◌^◌, ◌≤◌, ◌<◌, ◌≡◌, refl, ◌∙◌, ap, arith, Bool, true, false, ◌&&◌, ◌||◌, [],
  ◌∷◌, Text, length, all, ltb, leb, ◌==◌, is_space, is_xdigit, to_lower,
}
use lacsap.Lexer.Chars.{Lexer}
use lacsap.Lexer.Convert.{
  c_str, digit_value, read_digits, convert_uint64, skip_prefix, skip_white, split_sign,
  starts_digit, strtoull,
}

-- A digit of the base
abbrev pub digit_of : ℕ → ℕ → Bool
digit_of base c = ltb (digit_value c) base

-- The value of a text by the places of its digits
unfoldable pub place_value : ℕ → Text → ℕ
place_value base [] = 0
place_value base (c ∷ s) = digit_value c * base ^ length s + place_value base s

shifted : (acc base p d v : ℕ) → (acc * base + d) * p + v ≡ acc * (p * base) + (d * p + v)
shifted acc base p d v = grind arith

read_digits-place_value :
    (base acc : ℕ) (s : Text)
    → all (digit_of base) s ≡ true
    → read_digits base acc s ≡ (acc * base ^ length s + place_value base s, [])
unfolding read_digits place_value
read_digits-place_value base acc [] h = ap (λ v. (v, [])) (rw pow-zero (omega arith))
read_digits-place_value base acc (c ∷ s) h =
    let d : ltb (digit_value c) base ≡ true = ground arith in
    rw (d, read_digits-place_value base (acc * base + digit_value c) s (ground arith), pow-suc)
      (ap (λ v. (v, [])) (shifted acc base (base ^ length s) (digit_value c) (place_value base s)))

-- A digit is neither NUL, nor white space, nor a sign.
digit-plain :
    (base c : ℕ)
    → base ≤ 36
    → digit_of base c ≡ true
    → ((c == 0) ≡ false) × (is_space c ≡ false) × ((c == b'-') ≡ false) × ((c == b'+') ≡ false)
digit-plain base c h d = (ground arith, ground arith, ground arith, ground arith)

c_str-digits : (base : ℕ) (s : Text) → base ≤ 36 → all (digit_of base) s ≡ true → c_str s ≡ s
c_str-digits base [] h d = refl
c_str-digits base (c ∷ s) h d =
    let (nul, _, _, _) = digit-plain base c h (ground arith) in
    rw (nul, c_str-digits base s h (ground arith)) refl

digit-no_x : (c : ℕ) → digit_of 16 c ≡ true → (to_lower c == b'x') ≡ false
digit-no_x c h = ground arith

skip_prefix-digits : (base : ℕ) (s : Text) → all (digit_of base) s ≡ true → skip_prefix base s ≡ s
skip_prefix-digits base [] h = refl
skip_prefix-digits base (a ∷ []) h = refl
skip_prefix-digits base (a ∷ b ∷ []) h = refl
skip_prefix-digits base (a ∷ b ∷ c ∷ s) h =
    let no : (base == 16 && a == b'0' && to_lower b == b'x' && is_xdigit c) ≡ false =
      ground arith in
    rw no refl

-- The steps of `strtoull`, on a text with neither white space, sign nor prefix
strtoull-plain :
    (base v : ℕ) (t : Text)
    → skip_white t ≡ t
    → split_sign t ≡ (false, t)
    → skip_prefix base t ≡ t
    → starts_digit base t ≡ true
    → read_digits base 0 t ≡ (v, [])
    → v < 2 ^ 64
    → strtoull t base ≡ record { val = v; rest = []; range = false }
unfolding strtoull
strtoull-plain base v t white sign prefix digit e lt =
    let fits : leb (2 ^ 64) v ≡ false = ground arith in
    rw (white, sign, prefix, digit, e, fits) refl

strtoull-digits :
    (base c : ℕ) (s : Text)
    → base ≤ 36
    → all (digit_of base) (c ∷ s) ≡ true
    → place_value base (c ∷ s) < 2 ^ 64
    → strtoull (c ∷ s) base ≡ record { val = place_value base (c ∷ s); rest = []; range = false }
strtoull-digits base c s h d lt =
    let (nul, white, minus, plus) = digit-plain base c h (ground arith) in
    let v = place_value base (c ∷ s) in
    let none_left : 0 * base ^ length (c ∷ s) + v ≡ v = omega arith in
    strtoull-plain base v (c ∷ s) (rw white refl) (rw (minus, plus) refl)
      (skip_prefix-digits base (c ∷ s) d) (ground arith)
      (read_digits-place_value base 0 (c ∷ s) d ∙ ap (λ x. (x, [])) none_left) lt

-- `SafeConvert`, as `ConvertInt` calls it, gives a text of at least one digit, all of a base up to
-- 36, the value of their places, without an error, if that is below 2^64 - 1.
pub convert_uint64-place_value :
    (base c : ℕ) (s : Text) (lx : Lexer)
    → base ≤ 36
    → all (digit_of base) (c ∷ s) ≡ true
    → place_value base (c ∷ s) < 2 ^ 64 - 1
    → convert_uint64 (c ∷ s) base lx
      ≡ (place_value base (c ∷ s), false, record lx { erange = lx.erange || false })
unfolding convert_uint64 strtoull
convert_uint64-place_value base c s lx h d lt =
    let v = place_value base (c ∷ s) in
    let below : v == 2 ^ 64 - 1 ≡ false = ground (arith, lt) in
    rw (c_str-digits base (c ∷ s) h d, strtoull-digits base c s h d (omega (arith, lt)), below) refl
