-- ===== src/Lexer/Quoted.antt =====
-- lexer.cpp: `StringToken`, for strings and character constants.
use lacsap.Prelude.{
  ℕ, zero, suc, ◌+◌, ◌-◌, ◌^◌, Bool, true, false, not, ◌||◌, [], ◌∷◌, ◌++◌, ltb, ◌==◌,
  if◌then◌else◌, Text,
}
use lacsap.Outcome.{Outcome, done, out_of_fuel, ◌>>=◌}
use lacsap.Source.{eof}
use lacsap.Token.{TokenType, Location, Token, plain_token, int_token, str_token}
use lacsap.Lexer.Chars.{Lexer, next_char, peek_char, where_is}

pub data Quoted : Type 0 where
  closed : Text → Lexer → Quoted
  unterminated : Lexer → Quoted

-- `if (ch == quote) { … }`: whether the loop breaks, and the lexer. After a doubled quote `ch`
-- is the second of the two, which is the quote again.
unfoldable pub quote_step : ℕ → Lexer → Bool × Lexer
quote_step quote lx =
    if lx.cur == quote
    then (let lx' = peek_char lx in
        if not (lx'.next == quote) then (true, lx') else (false, next_char lx'))
    else (false, lx)

-- `for (;;)`
unfoldable pub string_loop : ℕ → ℕ → Text → Lexer → Outcome Quoted
string_loop zero quote str lx = out_of_fuel
string_loop (suc f) quote str lx =
    let (ended, lx') = quote_step quote lx in
    let rest = string_loop f quote (str ++ lx'.cur ∷ []) (next_char lx') in
    if ended
    then done (closed str lx')
    else if lx'.cur == b'\n' || lx'.cur == eof
    then done (unterminated lx')
    else rest

-- `(uint64_t)str[0]`: a `char` is signed.
abbrev pub sign_extend : ℕ → ℕ
sign_extend c = if ltb c 128 then c else 2 ^ 64 - 256 + c

module _ {R : Type 0} where
  -- The token of the characters between the quotes.
  unfoldable pub text_token : Location → Text → Outcome (Token R)
  text_token w (c ∷ []) = int_token TokenType.char w (sign_extend c)
  text_token w str = str_token TokenType.string_literal w str

  unfoldable pub string_end : Location → Quoted → Outcome (Token R × Lexer)
  string_end w (unterminated lx) = do t ← plain_token TokenType.unterm_string w; done (t, lx)
  string_end w (closed str lx) = do t ← text_token w str; done (t, next_char lx)

  -- `Lexer::StringToken`
  unfoldable pub string_token : ℕ → Lexer → Outcome (Token R × Lexer)
  string_token f lx = do r ← string_loop f lx.cur [] (next_char lx); string_end (where_is lx) r
