-- ===== src/Tests/LexerRuns.antt =====
-- Runs of the lexer.
use Prim.Native.String.{String}
use lacsap.Prelude.{ℕ, zero, suc, List, [], ◌∷◌, Text, codes, false, ◌≡◌, refl, Option, none, some}
use lacsap.Outcome.{Outcome, done, ◌>>=◌}
use lacsap.Source.{open_source, get}
use lacsap.Token.{
  TokenType, Standard, token_table, token_eq, key_word_to_token, plain_token, carries_value,
  int_token, str_token,
}
use lacsap.Lexer.{
  Lexer, Converted, get_token, new_lexer, skip_loop, skip_round, space_loop, cur_char, skip_brace,
  brace_loop, skip_star, skip_line, token_at, symbol, single_char, after_single, long_token,
  ident_loop, word_token, next_char, peek_char, convert_float, convert_int, convert_int_token,
  convert_uint64, valid_for_base, digit_loop, exponent_part, fraction_part, int_loop, next_state,
  number_end, number_loop, number_part, number_start, number_token, read_base, quote_step,
  string_end, string_loop, string_token, text_token, line_loop, star_loop, star_step,
}

-- A stand-in for `strtod` that reads no digit
abbrev no_strtod : Text → Converted ℕ
no_strtod s = record { val = 0; rest = []; range = false }

abbrev start : String → Lexer
start s = new_lexer 0 0 (open_source [] (codes s))

kinds : ℕ → Lexer → Outcome (List (TokenType × Option ℕ × Text))
unfolding get_token new_lexer open_source token_table skip_loop skip_round space_loop cur_char get
    skip_brace brace_loop skip_star skip_line token_at token_eq symbol single_char after_single
    long_token ident_loop word_token key_word_to_token next_char peek_char convert_float convert_int
    convert_int_token convert_uint64 valid_for_base digit_loop exponent_part fraction_part int_loop
    next_state number_end number_loop number_part number_start number_token read_base quote_step
    string_end string_loop string_token text_token line_loop star_loop star_step plain_token
    carries_value int_token str_token
kinds zero lx = done []
kinds (suc n) lx = do
  (t, lx') ← get_token no_strtod (token_table Standard.none_std) 40 lx
  rest ← kinds n lx'
  done ((t.type, t.int_val, t.str_val) ∷ rest)

run1 :
    kinds 6 (start " {c} Begin x:=16#fF ;'a'")
    ≡ done (
        (TokenType.begin, none, [])
        ∷ (TokenType.identifier, none, codes "x")
        ∷ (TokenType.assign, none, [])
        ∷ (TokenType.integer, some 255, [])
        ∷ (TokenType.semicolon, none, [])
        ∷ (TokenType.char, some 97, [])
        ∷ [])
unfolding kinds
run1 = refl

adjacent :
    kinds 2 (start "{a}{b} x")
    ≡ done ((TokenType.unknown, none, []) ∷ (TokenType.identifier, none, codes "x") ∷ [])
unfolding kinds
adjacent = refl
