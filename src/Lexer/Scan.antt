-- ===== src/Lexer/Scan.antt =====
-- lexer.cpp: `GetToken`.
use lacsap.Prelude.{
  ℕ, zero, suc, not, ◌||◌, List, [], ◌∷◌, ◌++◌, Option, none, some, ◌==◌, if◌then◌else◌, Text,
  is_alpha, is_alnum, is_digit, is_xdigit,
}
use lacsap.Outcome.{Outcome, done, out_of_fuel, ◌>>=◌}
use lacsap.Source.{eof}
use lacsap.Token.{
  TokenType, TokenEntry, Location, Token, plain_token, int_token, str_token, token_eq,
  key_word_to_token,
}
use lacsap.Lexer.Chars.{Lexer, cur_char, next_char, peek_char, where_is}
use lacsap.Lexer.Convert.{Converted}
use lacsap.Lexer.Number.{number_token}
use lacsap.Lexer.Quoted.{string_token}
use lacsap.Lexer.Skip.{skip_loop}

-- `case` with one second character: the kind of the two together, else that of the first alone.
abbrev pub one_or_two : ℕ → TokenType → TokenType → Lexer → TokenType × Lexer
one_or_two second pair single lx =
    let lx' = peek_char lx in if lx'.next == second then (pair, next_char lx') else (single, lx')

-- `case` with two of them
abbrev pub one_or_two_of : ℕ → TokenType → ℕ → TokenType → TokenType → Lexer → TokenType × Lexer
one_or_two_of c pair c' pair' single lx =
    let lx' = peek_char lx in
    if lx'.next == c
    then (pair, next_char lx')
    else if lx'.next == c'
    then (pair', next_char lx')
    else (single, lx')

-- `switch (ch)`
unfoldable pub symbol : Lexer → TokenType × Lexer
symbol lx =
    if lx.cur == b'.'
    then one_or_two_of b'.' TokenType.dot_dot b')' TokenType.right_square TokenType.period lx
    else if lx.cur == b'<'
    then one_or_two_of b'=' TokenType.less_or_equal b'>' TokenType.not_equal TokenType.less_than lx
    else if lx.cur == b'>'
    then one_or_two_of b'=' TokenType.greater_or_equal b'<' TokenType.sym_diff
        TokenType.greater_than lx
    else if lx.cur == b':'
    then one_or_two b'=' TokenType.assign TokenType.colon lx
    else if lx.cur == b'('
    then one_or_two b'.' TokenType.left_square TokenType.left_paren lx
    else if lx.cur == b'*'
    then one_or_two b'*' TokenType.power TokenType.multiply lx
    else (TokenType.unknown, lx)

-- `singleCharTokenTable`
abbrev pub single_char_token_table : List (ℕ × TokenType)
single_char_token_table =
    (b'(', TokenType.left_paren)
    ∷ (b')', TokenType.right_paren)
    ∷ (b'+', TokenType.plus)
    ∷ (b'-', TokenType.minus)
    ∷ (b'*', TokenType.multiply)
    ∷ (b'/', TokenType.divide)
    ∷ (b',', TokenType.comma)
    ∷ (b';', TokenType.semicolon)
    ∷ (b'=', TokenType.equal)
    ∷ (b'[', TokenType.left_square)
    ∷ (b']', TokenType.right_square)
    ∷ (b'^', TokenType.uparrow)
    ∷ (b'@', TokenType.at)
    ∷ []

-- `for (auto i : singleCharTokenTable) if (i.ch == ch)`
unfoldable pub single_char : ℕ → List (ℕ × TokenType) → Option TokenType
single_char ch [] = none
single_char ch ((c, t) ∷ table) = if c == ch then some t else single_char ch table

-- `while (isalnum(ch = NextChar()) || ch == '_')`
unfoldable pub ident_loop : ℕ → Text → Lexer → Outcome (Text × Lexer)
ident_loop zero str lx = out_of_fuel
ident_loop (suc f) str lx =
    let lx' = next_char lx in
    let rest = ident_loop f (str ++ lx'.cur ∷ []) lx' in
    if is_alnum lx'.cur || lx'.cur == b'_' then rest else done (str, lx')

module _ {R : Type 0} (table : List TokenEntry) where
  -- The token of a word, which starts at `w`.
  unfoldable pub word_token : Location → Text → Outcome (Token R)
  word_token w str =
      let tt = key_word_to_token table str in
      if not (token_eq tt TokenType.unknown)
      then if token_eq tt TokenType.line_number
        then int_token TokenType.integer w w.line_num
        else if token_eq tt TokenType.file_name
        then str_token TokenType.string_literal w w.fname
        else plain_token tt w
      else str_token TokenType.identifier w str

module _ {R : Type 0} (strtod : Text → Converted R) (table : List TokenEntry) where
  -- After the tables: quotes, words, numbers, and what is none of them.
  unfoldable pub long_token : ℕ → Location → Lexer → Outcome (Token R × Lexer)
  long_token f w lx =
      if lx.cur == b'\'' || lx.cur == b'"'
      then string_token f lx
      else if is_alpha lx.cur || lx.cur == b'_'
      then (do
        (str, lx') ← ident_loop f (lx.cur ∷ []) lx
        t ← word_token table w str
        done (t, lx'))
      else if is_digit lx.cur
      then number_token strtod f lx
      else if lx.cur == b'$'
      then (let lx' = peek_char lx in
          if is_xdigit lx'.next
          then number_token strtod f lx'
          else do t ← plain_token TokenType.unknown w; done (t, lx'))
      else do t ← plain_token TokenType.unknown w; done (t, lx)

  -- With what the search of `singleCharTokenTable` found
  unfoldable pub after_single : ℕ → Location → Lexer → Option TokenType → Outcome (Token R × Lexer)
  after_single f w lx (some t1) = do t ← plain_token t1 w; done (t, next_char lx)
  after_single f w lx none = long_token f w lx

  -- After the skipping loop, at the first character of the token.
  unfoldable pub token_at : ℕ → Location → Lexer → Outcome (Token R × Lexer)
  token_at f w lx =
      if lx.cur == eof
      then (do t ← plain_token TokenType.end_of_file w; done (t, lx))
      else (let (tt, lx') = symbol lx in
          if not (token_eq tt TokenType.unknown)
          then (do t ← plain_token tt w; done (t, next_char lx'))
          else after_single f w lx (single_char lx.cur single_char_token_table))

  -- `Lexer::GetToken`: the place is taken before the white space is skipped.
  unfoldable pub get_token : ℕ → Lexer → Outcome (Token R × Lexer)
  get_token f lx0 = do let lx = cur_char lx0; lx' ← skip_loop f f lx; token_at f (where_is lx) lx'
