-- ===== src/Lexer/Tokens.antt =====
-- lexer.cpp: how the tokens of numbers and of quoted text are made.
use lacsap.Prelude.{
  ℕ, suc, ◌<◌, ◌≡◌, ◌≢◌, refl, arith, Bool, true, false, ◌&&◌, [], ◌∷◌, none, Text,
}
use lacsap.Outcome.{done, Ends, ends, Ends-bind, Ends-if, ◌>>=◌}
use lacsap.Source.{eof}
use lacsap.Token.{TokenType, Token, Location, plain_token, int_token, str_token, carries_value}
use lacsap.Lexer.Chars.{Lexer, next_char, where_is}
use lacsap.Lexer.Convert.{
  Converted, c_str, is_end, convert_int_token, convert_float, convert_uint64,
}
use lacsap.Lexer.Number.{
  IntPart, int_end, bad_base, number_loop, number_start, number_end, number_token, int_part,
}
use lacsap.Lexer.Quoted.{
  Quoted, closed, unterminated, string_loop, string_end, string_token, text_token,
}
use lacsap.Lexer.Loops.{Within, next_char-Within, next_char-Within_lt}
use lacsap.Lexer.NumberLoops.{Parts, number_loop-Ends_lt}
use lacsap.Lexer.TextLoops.{number_start-Scans, QuoteEnd, string_loop-Ends}

pub and-false : (b : Bool) → (b && false) ≡ false
and-false true = refl
and-false false = refl

-- A conversion may set `errno`, and nothing else of the lexer.
moved : {w : ℕ} {lx : Lexer} {b : Bool} → Within w lx → Within w (record lx { erange = b })
moved h = record {
  ready = record { some_char = h.ready.some_char; at_most_two = h.ready.at_most_two };
  bound = h.bound;
}

module _ {R : Type 0} where
  -- A token with no value is refused only for the kinds that carry one.
  pub plain_token-Ends :
      {P : Token R → Type 0} (t : TokenType) (w : Location)
      → carries_value t ≡ false
      → P (record { type = t; loc = w; str_val = []; int_val = none; real_val = none })
      → Ends P (plain_token t w)
  unfolding plain_token
  plain_token-Ends t w h p = rw (h, and-false) (ends _ p)

  -- A result whose lexer has at most `w` bytes left
  abbrev pub Leaves : ℕ → Token R × Lexer → Type 0
  Leaves w r = Within w r.1

  plain_token-Leaves :
      {w : ℕ} (t : TokenType) (loc : Location) (lx : Lexer)
      → carries_value t ≡ false
      → Within w lx
      → Ends (Leaves w) (plain_token {R = R} t loc >>= λ tok. done (tok, lx))
  plain_token-Leaves {w} t loc lx h b =
      Ends-bind (plain_token t loc) (λ tok. done (tok, lx))
        (plain_token-Ends {P = λ _. Within w lx} t loc h b) (λ tok p. ends (tok, lx) p)

  convert_int_token-Leaves :
      {w : ℕ} (num : Text) (loc : Location) (base : ℕ) (lx : Lexer)
      → Within w lx
      → Ends (Leaves w) (convert_int_token {R = R} num loc base lx)
  unfolding convert_int_token convert_uint64 int_token carries_value
  convert_int_token-Leaves {w} num loc base lx b =
      let (v, err, lx') = convert_uint64 num base lx in
      Ends-if err (λ _. plain_token-Leaves TokenType.overflow loc lx' refl (moved b))
        (λ _. ends (_, lx') (moved b))

  module _ (strtod : Text → Converted R) where
    convert_float-Leaves :
        {w : ℕ} (num : Text) (loc : Location) (lx : Lexer)
        → Within w lx
        → Ends (Leaves w) (convert_float strtod num loc lx)
    unfolding convert_float carries_value
    convert_float-Leaves num loc lx b =
        Ends-if (is_end (strtod (c_str num)).rest) (λ _. ends _ (moved b))
          (λ _. plain_token-Leaves TokenType.overflow loc _ refl (moved b))

    number_end-Leaves :
        {w : ℕ} (loc : Location) (r : IntPart)
        → Parts w r
        → Ends (Leaves w) (number_end strtod loc r)
    unfolding number_end carries_value
    number_end-Leaves loc (bad_base n) h = plain_token-Leaves TokenType.unknown loc n.lexer refl h
    number_end-Leaves loc (int_end n) s =
        Ends-if n.is_float (λ _. convert_float-Leaves n.num loc n.lexer s.within)
          (λ _. convert_int_token-Leaves n.num loc n.base n.lexer s.within)

    pub number_token-Leaves :
        (f w : ℕ) (lx : Lexer)
        → Within (suc w) lx
        → suc w < f
        → (number_start lx).lexer.cur ≢ eof
        → Ends (Leaves w) (number_token strtod f lx)
    unfolding number_token
    number_token-Leaves f w lx h fuel c =
        Ends-bind (number_loop f f int_part (number_start lx)) (number_end strtod (where_is lx))
          (number_loop-Ends_lt f w (number_start lx) (number_start-Scans lx h) fuel c)
          (λ r p. number_end-Leaves (where_is lx) r p)

  text_token-Ends :
      {P : Token R → Type 0} (loc : Location) (str : Text)
      → ((t : Token R) → P t)
      → Ends P (text_token loc str)
  unfolding text_token int_token str_token
  text_token-Ends loc [] p = ends _ (p _)
  text_token-Ends loc (c ∷ []) p = ends _ (p _)
  text_token-Ends loc (c ∷ d ∷ str) p = ends _ (p _)

  string_end-Leaves :
      {w : ℕ} (loc : Location) (q : Quoted) → QuoteEnd w q → Ends (Leaves w) (string_end loc q)
  unfolding string_end carries_value
  string_end-Leaves loc (unterminated lx) h =
      plain_token-Leaves TokenType.unterm_string loc lx refl h
  string_end-Leaves {w} loc (closed str lx) h =
      Ends-bind (text_token loc str) (λ t. done (t, next_char lx))
        (text_token-Ends {P = λ _. Within w (next_char lx)} loc str (λ _. next_char-Within lx h))
        (λ t p. ends (t, next_char lx) p)

  pub string_token-Leaves :
      (f w : ℕ) (lx : Lexer)
      → Within (suc w) lx
      → suc w < f
      → lx.cur ≢ eof
      → Ends (Leaves w) (string_token f lx)
  unfolding string_token
  string_token-Leaves f w lx h fuel c =
      let h1 = next_char-Within_lt lx h c in
      Ends-bind (string_loop f lx.cur [] (next_char lx)) (string_end (where_is lx))
        (string_loop-Ends f w lx.cur [] (next_char lx) h1 (omega (arith, h1.bound)) c)
        (λ q p. string_end-Leaves (where_is lx) q p)
