-- ===== src/Tests/TokenExamples.antt =====
-- The theorems on tokens and the lexer at concrete inputs.
use mathlib.Core.List.{Mem, mem-cons_self}
use lacsap.Prelude.{ℕ, ◌<◌, ◌≡◌, refl, arith, codes, strlower, true, false}
use lacsap.Outcome.{done}
use lacsap.Token.{
  TokenType, Token, Standard, TokenEntry, token_table, key_word_to_token, has_two_underscores,
}
use lacsap.Token.Words.{key_word-strlower, key_word_found}
use lacsap.Source.{open_source}
use lacsap.Lexer.{Lexer, get_token, new_lexer}
use lacsap.Lexer.Window.{left}
use lacsap.Lexer.Total.{get_token-total, Emitted}
use lacsap.Tests.Samples.{no_strtod, start}

start_left : left (start "x := 16#fF") < 40
unfolding new_lexer open_source
start_left = omega arith

get_token-total_example :
    (r : Token ℕ × Lexer) × (get_token no_strtod
        (token_table Standard.none_std)
        40
        (start "x := 16#fF")
      ≡ done r)
    × Emitted (left (start "x := 16#fF")) r
unfolding new_lexer
get_token-total_example =
    get_token-total no_strtod Standard.none_std 40 (start "x := 16#fF") (omega arith) start_left

plain_word : has_two_underscores (codes "BEGIN") ≡ false
unfolding has_two_underscores
plain_word = refl

key_word-strlower_example :
    key_word_to_token (token_table Standard.iso7185) (strlower (codes "BEGIN"))
    ≡ key_word_to_token (token_table Standard.iso7185) (codes "BEGIN")
key_word-strlower_example = key_word-strlower Standard.iso7185 (codes "BEGIN") plain_word

first_entry : TokenEntry
first_entry = record { type = TokenType.for; is_key_word = true; str = codes "for" }

first_entry-Mem : Mem first_entry (token_table Standard.none_std)
unfolding first_entry token_table
first_entry-Mem = mem-cons_self

key_word_found_example :
    key_word_to_token (token_table Standard.none_std) (codes "for") ≡ TokenType.for
unfolding first_entry
key_word_found_example = key_word_found Standard.none_std first_entry first_entry-Mem refl
