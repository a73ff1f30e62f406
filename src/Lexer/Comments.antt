-- ===== src/Lexer/Comments.antt =====
-- lexer.cpp: comments in braces, alone and one after another.
use lacsap.Prelude.{
  none, is_space, Bool-cases, inl, inr, ℕ, zero, suc, ◌<◌, ◌≡◌, refl, arith, Bool, true, false, not,
  ◌||◌, List, [], ◌∷◌, ◌++◌, Text, length, all, ◌==◌,
}
use lacsap.Outcome.{done}
use lacsap.Source.{eof}
use lacsap.Source.Lines.{get-input}
use lacsap.Token.{
  TokenType, TokenEntry, Token, Location, is_set, plain_token, token_eq, carries_value,
}
use lacsap.Lexer.Chars.{Lexer, next_char, cur_char, where_is}
use lacsap.Lexer.Convert.{Converted}
use lacsap.Lexer.Skip.{
  brace_loop, skip_brace, space_loop, skip_star, skip_line, skip_round, skip_loop,
}
use lacsap.Lexer.Scan.{symbol, single_char, after_single, long_token, token_at, get_token}

-- The lexer has read the character and not looked at the text after it.
pub record Stands (c : ℕ) (t : Text) (lx : Lexer) : Type 0 where
  pub cur : lx.cur ≡ c
  pub input : lx.source.input ≡ t
  pub valid : lx.cur_valid ≡ 1

next_char-Stands :
    (b c : ℕ) (t : Text) (lx : Lexer) → Stands b (c ∷ t) lx → Stands c t (next_char lx)
unfolding next_char
next_char-Stands b c t lx s =
    let g = get-input c t lx.source s.input in
    record { cur = rw s.valid g.0; input = rw s.valid g.1; valid = rw s.valid refl }

-- No byte of a comment's text ends it.
abbrev pub in_comment : ℕ → Bool
in_comment c = not (c == eof || c == b'}')

brace_loop-Stands :
    (body t : Text) (b f : ℕ) (lx : Lexer)
    → Stands b (body ++ b'}' ∷ t) lx
    → all in_comment body ≡ true
    → length body < f
    → (lx' : Lexer) × (brace_loop f lx ≡ done lx') × Stands b'}' t lx'
unfolding brace_loop
brace_loop-Stands body t b zero lx s h fuel = absurd (omega arith)
brace_loop-Stands [] t b (suc f) lx s h fuel =
    let n = next_char-Stands b b'}' t lx s in (next_char lx, rw n.cur refl, n)
brace_loop-Stands (c ∷ body) t b (suc f) lx s h fuel =
    let n = next_char-Stands b c (body ++ b'}' ∷ t) lx s in
    let (lx', e, s') = brace_loop-Stands body t c f (next_char lx) n (ground arith) (omega arith) in
    let more : ((next_char lx).cur == eof || (next_char lx).cur == b'}') ≡ false =
      rw n.cur (ground arith) in
    (lx', rw more e, s')

-- A comment in braces is skipped to the byte after it, with no more fuel than it has bytes.
pub skip_brace-Stands :
    (body t : Text) (c f : ℕ) (lx : Lexer)
    → Stands b'{' (body ++ b'}' ∷ c ∷ t) lx
    → all in_comment body ≡ true
    → length body < f
    → (lx' : Lexer) × (skip_brace f lx ≡ done lx') × Stands c t lx'
unfolding skip_brace
skip_brace-Stands body t c f lx s h fuel =
    let (lx1, e, s1) = brace_loop-Stands body (c ∷ t) b'{' f lx s h fuel in
    let brace : (lx.cur == b'{') ≡ true = rw s.cur refl in
    (next_char lx1, rw (brace, e) refl, next_char-Stands b'}' c t lx1 s1)

space_loop-done : (f : ℕ) (lx : Lexer) → is_space lx.cur ≡ false → space_loop (suc f) lx ≡ done lx
unfolding space_loop
space_loop-done f lx h = rw h refl

skip_star-brace : (f : ℕ) (lx : Lexer) → lx.cur ≡ b'{' → skip_star f lx ≡ done lx
unfolding skip_star
skip_star-brace f lx h = let e : (lx.cur == b'(') ≡ false = rw h refl in rw e refl

skip_line-brace : (f : ℕ) (lx : Lexer) → lx.cur ≡ b'{' → skip_line f lx ≡ done lx
unfolding skip_line
skip_line-brace f lx h = let e : (lx.cur == b'/') ≡ false = rw h refl in rw e refl

-- A round that skips a comment stops at a brace right after it.
skip_round-brace :
    (body t : Text) (f : ℕ) (lx : Lexer)
    → Stands b'{' (body ++ b'}' ∷ b'{' ∷ t) lx
    → all in_comment body ≡ true
    → length body < suc f
    → (lx' : Lexer) × (skip_round (suc f) lx ≡ done lx') × Stands b'{' t lx'
unfolding skip_round
skip_round-brace body t f lx s h fuel =
    let (lx', e, s') = skip_brace-Stands body t b'{' (suc f) lx s h fuel in
    let plain : is_space lx.cur ≡ false = rw s.cur refl in
    (
      lx',
      rw
          (
            space_loop-done f lx plain,
            e,
            skip_star-brace (suc f) lx' s'.cur,
            skip_line-brace (suc f) lx' s'.cur,
          )
          refl,
      s',
    )

skip_loop-brace :
    (body t : Text) (f : ℕ) (lx : Lexer)
    → Stands b'{' (body ++ b'}' ∷ b'{' ∷ t) lx
    → all in_comment body ≡ true
    → length body < suc f
    → (lx' : Lexer) × (skip_loop (suc f) (suc f) lx ≡ done lx') × Stands b'{' t lx'
unfolding skip_loop
skip_loop-brace body t f lx s h fuel =
    let (lx', e, s') = skip_round-brace body t f lx s h fuel in
    let plain : is_space lx'.cur ≡ false = rw s'.cur refl in (lx', rw (e, plain) refl, s')

-- The token that an unskipped brace gives
abbrev pub unknown_at : {R : Type 0} → Location → Token R
unknown_at w = record {
  type = TokenType.unknown;
  loc = w;
  str_val = [];
  int_val = none;
  real_val = none;
}

module _ {R : Type 0} (strtod : Text → Converted R) (table : List TokenEntry) where
  token_at-brace :
      (f : ℕ) (w : Location) (lx : Lexer)
      → lx.cur ≡ b'{'
      → token_at strtod table f w lx ≡ done (unknown_at w, lx)
  unfolding token_at symbol single_char after_single long_token plain_token token_eq carries_value
  token_at-brace f w lx h =
      rw h (elim (Bool-cases (is_set w)) [ inl e ↦ rw e refl | inr e ↦ rw e refl ])

  -- A comment in braces that follows another at once is not skipped: its brace is a token of no
  -- known kind.
  pub get_token-adjacent :
      (body t : Text) (f : ℕ) (lx : Lexer)
      → Stands b'{' (body ++ b'}' ∷ b'{' ∷ t) lx
      → all in_comment body ≡ true
      → length body < f
      → (lx' : Lexer) × (get_token strtod table f lx ≡ done (unknown_at (where_is lx), lx'))
        × Stands b'{' t lx'
  unfolding get_token cur_char
  get_token-adjacent body t zero lx s h fuel = absurd (omega arith)
  get_token-adjacent body t (suc f) lx s h fuel =
      let (lx', e, s') = skip_loop-brace body t f lx s h fuel in
      let valid : (lx.cur_valid == 0) ≡ false = rw s.valid refl in
      (lx', rw (valid, e) (token_at-brace (suc f) (where_is lx) lx' s'.cur), s')
