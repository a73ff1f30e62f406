-- ===== src/Runtime/Read/Readers.antt =====
-- runtime/read.c: what is read through an `Interface`: numbers, characters, texts and truth values.
-- The loops over what is read are on fuel; those that a buffer bounds count its free cells. An
-- `int64_t` that overflows is undefined.
use lacsap.Prelude.{
  ℕ, zero, suc, ◌+◌, ◌-◌, ◌*◌, ◌%◌, ◌^◌, Bool, true, false, not, ◌&&◌, [], ◌∷◌, ◌++◌, if◌then◌else◌,
  ◌==◌, ltb, leb, length, Text, codes, text_eq,
}
use lacsap.Prelude.Int.{ℤ, pos, negsuc, eq_ℤ, neg_ℤ}
use lacsap.Outcome.{Outcome, done, undefined, out_of_fuel, ◌>>=◌}
use lacsap.Runtime.Arrays.{memcpy}
use lacsap.Runtime.Strings.{String}
use lacsap.Runtime.Read.{Interface, signed_char, byte_of, is_space, is_digit}

-- `toupper` of a byte
abbrev to_upper : ℕ → ℕ
to_upper c = if leb b'a' c && leb c b'z' then c - 32 else c

-- `upstr`: up to the byte 0
unfoldable pub upstr : Text → Text
upstr [] = []
upstr (c ∷ cs) = let rest = upstr cs in if c == 0 then [] else to_upper c ∷ rest

-- n * 10 + (ch - '0') on `int64_t`
unfoldable pub add_digit : ℕ → ℤ → Outcome ℕ
add_digit n (pos c) = let m = n * 10 + (c - b'0') in if ltb m (2 ^ 63) then done m else undefined
add_digit n (negsuc c) = undefined

module _ {S : Type 0} (intf : Interface S) where
  unfoldable pub skip_spaces : ℕ → S → Outcome S
  skip_spaces zero s = out_of_fuel
  skip_spaces (suc n) s = do
    c ← intf.current_char s
    if not (is_space c) then done s else (do
      (ended, s₁) ← intf.is_eof s
      if ended then done s₁ else (do (r, s₂) ← intf.get_next s₁; skip_spaces n s₂))

  -- `get_sign`: whether it is -1
  unfoldable pub get_sign : S → Outcome (Bool × S)
  get_sign s = do
    c ← intf.current_char s
    let ch = byte_of c
    if ch == b'-'
        then (intf.get_next s >>= (λ (r, s₁). done (true, s₁)))
        else if ch == b'+'
        then (intf.get_next s >>= (λ (r, s₁). done (false, s₁)))
        else done (false, s)

  -- The loop of `readint64`
  unfoldable pub digits_loop : ℕ → ℕ → S → Outcome (ℕ × S)
  unfolding add_digit
  digits_loop zero v s = out_of_fuel
  digits_loop (suc n) v s = do
    c ← intf.current_char s
    let ch = signed_char (byte_of c)
    if not (is_digit ch) then done (v, s) else (do
      v₁ ← add_digit v ch
      (r, s₁) ← intf.get_next s
      if eq_ℤ r (pos 0) then done (v₁, s₁) else digits_loop n v₁ s₁)

  unfoldable pub readint64 : ℕ → S → Outcome (ℤ × S)
  unfolding skip_spaces get_sign digits_loop
  readint64 n s = do
    s₁ ← intf.preread s
    s₂ ← skip_spaces n s₁
    (minus, s₃) ← get_sign s₂
    (v, s₄) ← digits_loop n 0 s₃
    done (if minus then neg_ℤ (pos v) else pos v, s₄)

  unfoldable pub readchar : S → Outcome (ℕ × S)
  readchar s = do
    s₁ ← intf.preread s
    c ← intf.current_char s₁
    (r, s₂) ← intf.get_next s₁
    done (byte_of c, s₂)

  -- The loop of `readstr`, by the free cells of its buffer
  unfoldable pub line_text : ℕ → Text → S → Outcome (Text × S)
  line_text zero buffer s = do (ended, s₁) ← intf.is_eoln s; done (buffer, s₁)
  line_text (suc n) buffer s = do
    (ended, s₁) ← intf.is_eoln s
    if ended then done (buffer, s₁) else (do
      c ← intf.current_char s₁
      (r, s₂) ← intf.get_next s₁
      let more = buffer ++ byte_of c ∷ []
      if eq_ℤ r (pos 0) then done (more, s₂) else line_text n more s₂)

  unfoldable pub readstr : S → String → Outcome (String × S)
  unfolding line_text
  readstr s v = do
    s₁ ← intf.preread s
    (buffer, s₂) ← line_text 256 [] s₁
    copied ← memcpy v.str 0 buffer 0 (length buffer)
    done (record { len = length buffer % 256; str = copied }, s₂)

  -- The loop of `readchars`: the cells from `v` on, of which those that are written come first
  unfoldable pub chars_loop : ℕ → Text → S → Outcome (Text × S)
  chars_loop zero v s = out_of_fuel
  chars_loop (suc n) v s = do
    c ← intf.current_char s
    if eq_ℤ c (pos 10) then done (v, s) else (elim v [
      | [] ↦ undefined
      | x ∷ xs ↦ do
        (r, s₁) ← intf.get_next s
        if eq_ℤ r (pos 0)
            then done (byte_of c ∷ xs, s₁)
            else (do (rest, s₂) ← chars_loop n xs s₁; done (byte_of c ∷ rest, s₂))
    ])

  unfoldable pub readchars : ℕ → Text → S → Outcome (Text × S)
  unfolding chars_loop
  readchars n v s = intf.preread s >>= chars_loop n v

  -- The loop of `readbool`, by the free cells of its buffer
  unfoldable pub word_loop : ℕ → Text → S → Outcome (Text × S)
  word_loop zero str s = do c ← intf.current_char s; done (str, s)
  word_loop (suc n) str s = do
    c ← intf.current_char s
    if is_space (signed_char (byte_of c))
        then done (str, s)
        else (do (r, s₁) ← intf.get_next s; word_loop n (str ++ byte_of c ∷ []) s₁)

  -- `readbool`: 1, 0 or -1
  unfoldable pub readbool : ℕ → S → Outcome (ℤ × S)
  unfolding skip_spaces word_loop upstr
  readbool n s = do
    s₁ ← intf.preread s
    s₂ ← skip_spaces n s₁
    (str, s₃) ← word_loop 99 [] s₂
    let word = upstr str
    if text_eq word (codes "TRUE")
        then done (pos 1, s₃)
        else if text_eq word (codes "FALSE")
        then done (pos 0, s₃)
        else done (negsuc 0, s₃)
