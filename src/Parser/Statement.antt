-- ===== src/Parser/Statement.antt =====
-- parser.cpp: the parser of statements, by kind. Recursion and loops are on fuel; the place where a block
-- ends, which `ParseBlock` hands on, is left out.
use lacsap.Prelude.{
  ℕ, zero, suc, ◌+◌, ◌/◌, ◌%◌, Bool, true, false, ◌||◌, List, [], ◌∷◌, ◌++◌, Option, none, some,
  ltb, if◌then◌else◌, Text,
}
use lacsap.Prelude.Int.{ℤ, pos, negsuc}
use lacsap.Outcome.{Outcome, done, undefined, out_of_fuel, ◌>>=◌}
use lacsap.Token.{TokenType, Token, Location, token_eq, get_int_val}
use lacsap.Stack.{Stack, find, find_top_level}
use lacsap.Constants.{Floats, to_int32}
use lacsap.Parser.Stream.{
  expect_consume, Parser, TokenSource, cur_type, print_error, error, next_token, peek_token,
  accept_token, assert_token, expect, get_identifier,
}
use lacsap.Parser.ConstEval.{NamedObject, var_def, Types}
use lacsap.Parser.ConstTerm.{set_member}
use lacsap.Parser.Ast.{
  ExprAst, Outside, exprs_of, null_expr, variable_expr, block_expr, if_expr, for_expr, for_in_expr,
  while_expr, repeat_expr, label_expr, goto_expr,
}
use lacsap.Parser.Expression.{Parsed, parse_expression}

-- `std::to_string`, of an `int`
unfoldable pub digits_of : ℕ → ℕ → Text
digits_of zero n = []
digits_of (suc k) n =
    let front = digits_of k (n / 10) in
    if ltb n 10 then (b'0' + n) ∷ [] else front ++ (b'0' + n % 10) ∷ []

abbrev pub to_string : ℤ → Text
to_string (pos n) = digits_of 10 n
to_string (negsuc n) = b'-' ∷ digits_of 10 (suc n)

module _ {R V Ty E Lx : Type 0} (F : Floats R) (S : TokenSource R Lx) (T : Types R Ty E Lx)
    (H : Outside R V Ty Lx) (ci : Bool) (names : Stack (NamedObject R Ty E)) where
  abbrev pub Step : Type 0
  Step = Parsed {R = R} {V = V} {Ty = Ty} {E = E} S T H ci names

  abbrev pub fails : Parser R Lx → Step
  fails p = done (none, p)

  -- Go on with a node; a null pointer is returned.
  abbrev pub with_node : Step → (ExprAst R V Ty → Parser R Lx → Step) → Step
  with_node m k = m >>= λ (o, p). elim o [ none ↦ done (none, p) | some e ↦ k e p ]

  -- Go on after an expected token, or return a null pointer.
  abbrev pub after_token : TokenType → Parser R Lx → (Parser R Lx → Step) → Step
  unfolding expect
  after_token kind p k =
      expect S kind expect_consume p >>= λ (ok, p'). if ok then k p' else done (none, p')

  abbrev pub is_at : TokenType → Parser R Lx → Bool
  is_at kind p = token_eq (cur_type p) kind

  -- `ExpectSemicolonOrEnd`
  unfoldable pub expect_semicolon_or_end : Parser R Lx → Outcome (Bool × Parser R Lx)
  unfolding token_eq expect
  expect_semicolon_or_end p =
      if is_at TokenType.end p
      then done (true, p)
      else expect S TokenType.semicolon expect_consume p

  -- `FindTopLevel`, undefined where there is no level
  abbrev pub on_top_level : ℤ → Outcome Bool
  unfolding find_top_level digits_of
  on_top_level n = elim (find_top_level ci (to_string n) names) [
    | none ↦ undefined
    | some none ↦ done false
    | some (some _) ↦ done true
  ]

  -- `int n = token.GetIntVal()`
  abbrev pub label_value : Token R → Outcome ℤ
  unfolding get_int_val to_int32
  label_value t = get_int_val t >>= λ o. set_member o >>= λ v. done (to_int32 v)

  -- `ParseGoto`
  unfoldable pub parse_goto : Parser R Lx → Step
  unfolding assert_token label_value find print_error on_top_level after_token
  parse_goto p = do
    p1 ← assert_token S TokenType.goto p
    let t = p1.cur_token
    after_token TokenType.integer p1 (λ p2. do
      n ← label_value t
      found ← on_top_level n
      if found then done (some (goto_expr t.loc n), p2) else (do p3 ← print_error t p2; fails p3))

  module _ (stmt : Parser R Lx → Step) (f : ℕ) where
    abbrev pub expr : Parser R Lx → Step
    expr = parse_expression S T H ci names f

    -- `CurrentToken().GetToken() == Token::Integer && PeekToken() == Token::Colon`
    unfoldable pub at_label : Parser R Lx → Outcome (Bool × Parser R Lx)
    unfolding peek_token token_eq
    at_label p =
        if is_at TokenType.integer p
        then (peek_token S p >>= λ (t, p'). done (token_eq t TokenType.colon, p'))
        else done (false, p)

    -- A label in a block, with its colon
    unfoldable pub block_label : Parser R Lx → Step
    unfolding accept_token label_value on_top_level error
    block_label p = do
      let t = p.cur_token
      (i, p1) ← accept_token S TokenType.integer p
      (c, p2) ← accept_token S TokenType.colon p1
      n ← label_value t
      found ← on_top_level n
      if found then done (some (label_expr t.loc ((n, n) ∷ []) null_expr), p2) else error p2

    -- The loop of `ParseBlock`, with the nodes so far
    unfoldable pub block_loop : ℕ → Location → List (ExprAst R V Ty) → Parser R Lx → Step
    unfolding accept_token at_label block_label expect_semicolon_or_end
    block_loop zero loc v p = out_of_fuel
    block_loop (suc n) loc v p = do
      (ended, p1) ← accept_token S TokenType.end p
      if ended then done (some (block_expr loc (exprs_of v)), p1) else (do
        (semicolon, p2) ← accept_token S TokenType.semicolon p1
        (labelled, p3) ← at_label p2
        if labelled
            then with_node (block_label p3) (λ l p4. block_loop n loc (v ++ l ∷ []) p4)
            else with_node (stmt p3) (λ s p4. do
              (ok, p5) ← expect_semicolon_or_end p4
              if ok then block_loop n loc (v ++ s ∷ []) p5 else fails p5))

    -- `ParseBlock`
    unfoldable pub parse_block : Parser R Lx → Step
    unfolding assert_token block_loop
    parse_block p = do p1 ← assert_token S TokenType.begin p; block_loop f p1.cur_token.loc [] p1

    -- The end of `ParseIfExpr`
    unfoldable pub else_part : Location → ExprAst R V Ty → ExprAst R V Ty → Parser R Lx → Step
    unfolding accept_token
    else_part loc c then_expr p = do
      (other, p1) ← accept_token S TokenType.else_kw p
      if other
          then with_node (stmt p1) (λ e p2. done (some (if_expr loc c then_expr e), p2))
          else done (some (if_expr loc c then_expr null_expr), p1)

    -- `ParseIfExpr`
    unfoldable pub parse_if_expr : Parser R Lx → Step
    unfolding assert_token else_part after_token
    parse_if_expr p = do
      p1 ← assert_token S TokenType.if_kw p
      with_node (expr p1) (λ c p2. after_token TokenType.then_kw p2 (λ p3.
          if is_at TokenType.else_kw p3
          then else_part p.cur_token.loc c null_expr p3
          else with_node (stmt p3) (λ t p4. else_part p.cur_token.loc c t p4)))

    -- The body after a "do"
    abbrev pub do_part : (ExprAst R V Ty → ExprAst R V Ty) → Parser R Lx → Step
    do_part node p =
        after_token TokenType.do_kw p
          (λ p1. with_node (stmt p1) (λ body p2. done (some (node body), p2)))

    -- The "to" or "downto" of a for loop, and what follows
    unfoldable pub for_to : Location → ExprAst R V Ty → ExprAst R V Ty → Parser R Lx → Step
    unfolding next_token error
    for_to loc var start p =
        let down = is_at TokenType.downto p in
        if down || is_at TokenType.to p
        then (do
          p1 ← next_token S p
          with_node (expr p1) (λ last p2. do_part (for_expr loc var start last down) p2))
        else error p

    -- `ParseForExpr` after the variable
    unfoldable pub for_rest : Location → ExprAst R V Ty → Parser R Lx → Step
    unfolding accept_token for_to
    for_rest loc var p = do
      (assigned, p1) ← accept_token S TokenType.assign p
      if assigned then with_node (expr p1) (λ start p2. for_to loc var start p2) else (do
        (inside, p2) ← accept_token S TokenType.in_kw p1
        if inside
            then with_node (expr p2) (λ start p3. do_part (for_in_expr loc var start) p3)
            else fails p2)

    -- The variable of a for statement, by what its name stands for
    unfoldable pub for_variable : Option (NamedObject R Ty E) → Text → Location → Parser R Lx → Step
    unfolding for_rest error
    for_variable (some var_def) name loc p = for_rest loc (variable_expr p.cur_token.loc name) p
    for_variable _ name loc p = error p

    -- `ParseForExpr`
    unfoldable pub parse_for_expr : Parser R Lx → Step
    unfolding assert_token get_identifier find for_variable error
    parse_for_expr p = do
      p1 ← assert_token S TokenType.for p
      (name, p2) ← get_identifier S expect_consume p1
      elim name [
        | [] ↦ error p2
        | c ∷ cs ↦ for_variable (find ci (c ∷ cs) names) (c ∷ cs) p1.cur_token.loc p2
      ]

    -- `ParseWhile`
    unfoldable pub parse_while : Parser R Lx → Step
    unfolding assert_token
    parse_while p = do
      p1 ← assert_token S TokenType.while p
      with_node (expr p1) (λ c p2. do_part (while_expr p.cur_token.loc c) p2)

    -- The loop of `ParseRepeat`, and the condition
    unfoldable pub repeat_loop :
        ℕ → Location → Location → List (ExprAst R V Ty) → Parser R Lx → Step
    unfolding accept_token
    repeat_loop zero loc loc2 v p = out_of_fuel
    repeat_loop (suc n) loc loc2 v p = do
      (ended, p1) ← accept_token S TokenType.until p
      if ended
          then with_node (expr p1)
              (λ c p2. done (some (repeat_expr loc c (block_expr loc2 (exprs_of v))), p2))
          else with_node (stmt p1) (λ s p2. do
            (semicolon, p3) ← accept_token S TokenType.semicolon p2
            repeat_loop n loc loc2 (v ++ s ∷ []) p3)

    -- `ParseRepeat`
    unfoldable pub parse_repeat : Parser R Lx → Step
    unfolding assert_token repeat_loop
    parse_repeat p = do
      p1 ← assert_token S TokenType.repeat p
      repeat_loop f p.cur_token.loc p1.cur_token.loc [] p1
