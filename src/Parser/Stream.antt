-- ===== src/Parser/Stream.antt =====
-- parser.cpp: the token handling of `Parser`, which looks at most one token ahead, and its messages.
-- The traces that a verbosity above 0 writes are left out. `Lx` is the state of the lexer.
use lacsap.Prelude.{
  ℕ, ◌+◌, Bool, true, false, not, ◌&&◌, ◌||◌, List, [], ◌∷◌, Option, none, some, ltb, if◌then◌else◌,
  Text,
}
use lacsap.Outcome.{Outcome, done, ice, exited, ◌>>=◌, ◌>>◌}
use lacsap.Token.{TokenType, TokenEntry, Token, token_eq, type_str, get_ident_name, is_set}

-- `ExpectConsuming`
pub data ExpectConsuming : Type 0 where
  no_expect_consume : ExpectConsuming
  expect_consume : ExpectConsuming

-- `Terminator`
pub record Terminator : Type 0 where
  pub token : TokenType
  pub expect : ExpectConsuming

-- `Terminator(tok)`, with its default
unfoldable pub terminator : TokenType → Terminator
terminator t = record { token = t; expect = expect_consume }

-- `IsOneOf`
unfoldable pub is_one_of : TokenType → List Terminator → Bool
unfolding token_eq
is_one_of t [] = false
is_one_of t (i ∷ list) = token_eq t i.token || is_one_of t list

-- `ShouldConsume`
unfoldable pub should_consume : TokenType → List Terminator → Outcome ExpectConsuming
unfolding token_eq
should_consume t [] = ice
should_consume t (i ∷ list) = if token_eq t i.token then done i.expect else should_consume t list

-- `Parser`, as far as tokens and messages go
pub record Parser (R Lx : Type 0) : Type 0 where
  pub lexer : Lx
  pub cur_token : Token R
  pub next_token : Token R
  pub next_token_valid : Bool
  pub err_cnt : ℕ

-- What the parser takes from the lexer: `GetToken`; and the table of spellings
pub record TokenSource (R Lx : Type 0) : Type 0 where
  pub get_token : Lx → Outcome (Token R × Lx)
  pub table : List TokenEntry

module _ {R Lx : Type 0} where
  -- `CurrentToken().GetToken()`
  abbrev pub cur_type : Parser R Lx → TokenType
  cur_type p = p.cur_token.type

  -- `PrintError`, at the place of a token. The source is left where it was.
  unfoldable pub print_error : Token R → Parser R Lx → Outcome (Parser R Lx)
  print_error t p =
      let p' : Parser R Lx = record p { err_cnt = p.err_cnt + 1 } in
      if is_set t.loc && ltb 30 p'.err_cnt then exited else done p'

  -- `Error`, which gives a null pointer
  unfoldable pub error : {A : Type 0} → Parser R Lx → Outcome (Option A × Parser R Lx)
  unfolding print_error
  error p = print_error p.cur_token p >>= λ p'. done (none, p')

module _ {R Lx : Type 0} (S : TokenSource R Lx) where
  -- `NextToken`
  unfoldable pub next_token : Parser R Lx → Outcome (Parser R Lx)
  next_token p =
      if p.next_token_valid
      then done (record p { cur_token = p.next_token; next_token_valid = false })
      else (S.get_token p.lexer >>= λ (t, lx). done (record p { cur_token = t; lexer = lx }))

  -- `PeekToken`
  unfoldable pub peek_token : Parser R Lx → Outcome (TokenType × Parser R Lx)
  peek_token p =
      if p.next_token_valid
      then done (p.next_token.type, p)
      else (S.get_token p.lexer >>= λ (t, lx).
          done (t.type, record p { next_token_valid = true; next_token = t; lexer = lx }))

  -- Step over the token, where that is asked for.
  abbrev pub consume : ExpectConsuming → Parser R Lx → Outcome (Parser R Lx)
  consume no_expect_consume p = done p
  consume expect_consume p = next_token p

  -- `GetIdentifier`
  unfoldable pub get_identifier : ExpectConsuming → Parser R Lx → Outcome (Text × Parser R Lx)
  unfolding token_eq get_ident_name next_token
  get_identifier consumption p =
      if token_eq (cur_type p) TokenType.identifier
      then (do name ← get_ident_name p.cur_token; p' ← consume consumption p; done (name, p'))
      else done ([], p)

  -- `TypeStr`, which aborts on a kind that the table does not have
  abbrev has_type_str : TokenType → Outcome (Unit {0})
  has_type_str t = elim (type_str S.table t) [ none ↦ ice | some _ ↦ done tt ]

  -- `Expect`: its message spells both kinds.
  unfoldable pub expect : TokenType → ExpectConsuming → Parser R Lx → Outcome (Bool × Parser R Lx)
  unfolding token_eq next_token print_error type_str
  expect kind consumption p =
      if not (token_eq (cur_type p) kind)
      then (do
        has_type_str kind
        has_type_str (cur_type p)
        p' ← print_error p.cur_token p
        done (false, p'))
      else do p' ← consume consumption p; done (true, p')

  -- `AssertToken`: another token is an internal error, which the message before it may forestall.
  unfoldable pub assert_token : TokenType → Parser R Lx → Outcome (Parser R Lx)
  unfolding token_eq next_token print_error type_str
  assert_token kind p =
      if not (token_eq (cur_type p) kind)
      then (has_type_str kind
          >> (has_type_str (cur_type p) >> (print_error p.cur_token p >>= λ _. ice)))
      else next_token p

  -- `AcceptToken`
  unfoldable pub accept_token : TokenType → Parser R Lx → Outcome (Bool × Parser R Lx)
  unfolding token_eq next_token
  accept_token kind p =
      if token_eq (cur_type p) kind
      then (do p' ← next_token p; done (true, p'))
      else done (false, p)
