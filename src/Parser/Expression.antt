-- ===== src/Parser/Expression.antt =====
-- parser.cpp: the parser of expressions, over the symbol table. A constant that a name stands for is
-- read as the token that it translates to. Recursion is on fuel.
use lacsap.Prelude.{
  ℕ, zero, suc, ◌-◌, ◌^◌, Bool, Text, true, false, not, ◌&&◌, ◌||◌, List, [], ◌∷◌, ◌++◌, Option,
  none, some, ltb, if◌then◌else◌, ◌==◌, codes, length,
}
use lacsap.Prelude.Int.{ℤ, pos, ltb_ℤ}
use lacsap.Outcome.{Outcome, done, out_of_fuel, ice_if, ◌>>=◌, ◌>>◌}
use lacsap.Token.{
  TokenType, Token, Location, token_eq, precedence, get_ident_name, get_int_val, get_real_val,
  get_str_val, int_token, real_token, str_token,
}
use lacsap.Stack.{Stack, find}
use lacsap.Constants.{
  ConstDecl, int_const, real_const, char_const, bool_const, string_const, widen_char,
}
use lacsap.Parser.Stream.{
  expect_consume, terminator, Parser, TokenSource, cur_type, error, next_token, accept_token,
  assert_token, expect, get_identifier,
}
use lacsap.Parser.ConstEval.{NamedObject, var_def, Types, get_const_decl}
use lacsap.Parser.ConstTerm.{set_member, signed64, parse_separated_list}
use lacsap.Parser.ConstExpr.{next_prec}
use lacsap.Parser.Ast.{
  ExprAst, Outside, outside_expr, null_expr, nil_expr, real_expr, integer_expr, char_expr,
  string_expr, unary_expr, binary_expr, range_expr, set_expr, exprs_of, variable_expr,
}

module _ {R Ty E : Type 0} where
  -- `ConstDecl::Translate`, where it is no compound, set or enumeration. A `char` is signed.
  unfoldable pub translate : ConstDecl R Ty E → Option (Outcome (Token R))
  unfolding int_token real_token str_token
  translate (int_const w v) = some (int_token TokenType.integer w v)
  translate (real_const w r) = some (done (real_token w r))
  translate (char_const w c) = some (int_token TokenType.char w (widen_char c))
  translate (bool_const w v) =
      some (str_token TokenType.identifier w (if v == 0 then codes "false" else codes "true"))
  translate (string_const w s) = some (str_token TokenType.string_literal w s)
  translate _ = none

  -- The token for the constant that was found, if any
  unfoldable pub translated : Token R → Option (ConstDecl R Ty E) → Outcome (Token R)
  unfolding translate
  translated t none = done t
  translated t (some c) = elim (translate c) [ none ↦ done t | some t' ↦ t' ]

  -- `TranslateToken`
  unfoldable pub translate_token : Bool → Stack (NamedObject R Ty E) → Token R → Outcome (Token R)
  unfolding token_eq get_ident_name get_const_decl translated
  translate_token ci names t =
      if token_eq t.type TokenType.identifier
      then (do name ← get_ident_name t; translated t (get_const_decl ci names name))
      else done t

-- The tokens that go on with a variable, of the loop of `ParseIdentifierExpr`
abbrev pub is_suffix : TokenType → Bool
is_suffix t =
    token_eq t TokenType.left_square
    || (token_eq t TokenType.uparrow || (token_eq t TokenType.at || token_eq t TokenType.period))

-- `isa<VarDef>`
unfoldable pub is_variable : {R Ty E : Type 0} → Option (NamedObject R Ty E) → Bool
is_variable (some var_def) = true
is_variable _ = false

module _ {R V Ty E Lx : Type 0} (S : TokenSource R Lx) (T : Types R Ty E Lx) (H : Outside R V Ty Lx)
    (ci : Bool) (names : Stack (NamedObject R Ty E)) where
  -- What a function of the parser returns: a node or a null pointer
  abbrev pub Parsed : Type 0
  Parsed = Outcome (Option (ExprAst R V Ty) × Parser R Lx)

  abbrev pub from_outside : Outcome (Option V × Parser R Lx) → Parsed
  from_outside m = m >>= λ (v, p). done (elim v [ none ↦ none | some a ↦ some (outside_expr a) ], p)

  -- A node for the token that is there, and the next token
  abbrev step_to : ExprAst R V Ty → Parser R Lx → Parsed
  step_to e p = next_token S p >>= λ p'. done (some e, p')

  -- `ParseVariableExpr` of a variable, and the rest of `ParseIdentifierExpr`: the node has the place
  -- of the token after the name.
  unfoldable pub parse_variable_expr : Text → Parser R Lx → Parsed
  parse_variable_expr name p =
      let e = variable_expr p.cur_token.loc name in
      if is_suffix (cur_type p) then from_outside (H.suffix_expr e p) else done (some e, p)

  -- `ParseIdentifierExpr`, with `ParseCallOrVariableExpr`
  unfoldable pub parse_identifier_expr : Token R → Parser R Lx → Parsed
  unfolding get_ident_name is_variable assert_token parse_variable_expr
  parse_identifier_expr t p = do
    name ← get_ident_name t
    if is_variable (find ci name names) && not (H.is_function name)
        then assert_token S TokenType.identifier p >>= parse_variable_expr name
        else from_outside (H.identifier_expr t p)

  -- `ParseIntegerExpr`
  unfoldable pub parse_integer_expr : Token R → Parser R Lx → Parsed
  unfolding get_int_val next_token
  parse_integer_expr t p = do
    o ← get_int_val t
    v ← set_member o
    step_to (integer_expr t.loc (signed64 v) (ltb_ℤ (pos (2 ^ 32 - 1)) (signed64 v))) p

  -- `ParseStringExpr`, of a text that is shorter than 2^31
  unfoldable pub parse_string_expr : Token R → Parser R Lx → Parsed
  unfolding get_str_val next_token
  parse_string_expr t p = do
    s ← get_str_val t
    step_to (string_expr t.loc s (if ltb (length s) 2 then 1 else length s - 1)) p

  module _ (expr : Parser R Lx → Parsed) (f : ℕ) where
    -- `ParseParenExpr`
    unfoldable pub parse_paren_expr : Parser R Lx → Parsed
    unfolding assert_token expect
    parse_paren_expr p = do
      p1 ← assert_token S TokenType.left_paren p
      (v, p2) ← expr p1
      elim v [
        | none ↦ done (none, p2)
        | some e ↦ (do
          (closed, p3) ← expect S TokenType.right_paren expect_consume p2
          done (if closed then some e else none, p3))
      ]

    abbrev or_null : Option (ExprAst R V Ty) → ExprAst R V Ty
    or_null none = null_expr
    or_null (some e) = e

    -- `CCSetList::Consume`
    unfoldable pub consume_set :
        List (ExprAst R V Ty) → Parser R Lx → Outcome (Bool × List (ExprAst R V Ty) × Parser R Lx)
    unfolding accept_token
    consume_set values p = do
      (v, p1) ← expr p
      elim v [
        | none ↦ done (false, values, p1)
        | some e ↦ (do
          (dots, p2) ← accept_token S TokenType.dot_dot p1
          if not dots then done (true, values ++ e ∷ [], p2) else (do
            (last, p3) ← expr p2
            done (true, values ++ range_expr p3.cur_token.loc e (or_null last) ∷ [], p3)))
      ]

    -- The other elements have the type of the first.
    unfoldable pub same_expr_types : Ty → List (ExprAst R V Ty) → Bool
    same_expr_types ty [] = true
    same_expr_types ty (e ∷ es) = T.same_type (H.expr_type e) ty && same_expr_types ty es

    unfoldable pub set_of : Location → List (ExprAst R V Ty) → Parser R Lx → Parsed
    unfolding same_expr_types error
    set_of loc [] p = done (some (set_expr loc (exprs_of []) (T.set_decl none)), p)
    set_of loc (e ∷ es) p =
        if same_expr_types (H.expr_type e) es
        then done (some (set_expr loc (exprs_of (e ∷ es)) (T.set_decl (some (H.expr_type e)))), p)
        else error p

    -- `ParseSetExpr(0)`
    unfoldable pub parse_set_expr : Parser R Lx → Parsed
    unfolding assert_token terminator parse_separated_list consume_set set_of
    parse_set_expr p = do
      p1 ← assert_token S TokenType.left_square p
      let loc = p1.cur_token.loc
      (ok, values, p2) ←
          parse_separated_list S (terminator TokenType.comma ∷ [])
            (terminator TokenType.right_square ∷ []) true consume_set f [] p1
      if ok then set_of loc values p2 else done (none, p2)

    -- The end of `ParseUnaryOp`: a plus changes nothing.
    abbrev pub unary_of_element : Token R → Option (ExprAst R V Ty) → Option (ExprAst R V Ty)
    unary_of_element oper none = none
    unary_of_element oper (some rhs) =
        if token_eq oper.type TokenType.plus then some rhs else some (unary_expr oper.loc oper rhs)

    -- The name after an `@`, which `ParseUnaryOp` reads before the operand; `false` after a message
    abbrev pub at_name : Token R → Parser R Lx → Outcome (Bool × Parser R Lx)
    unfolding get_identifier token_eq error
    at_name oper p =
        if token_eq oper.type TokenType.at
        then (do
          (name, p1) ← get_identifier S expect_consume p
          elim name [
            | [] ↦ (error {A = Unit {0}} p1 >>= λ (n, p2). done (false, p2))
            | c ∷ cs ↦ done (true, p1)
          ])
        else done (true, p)

    -- The `switch` of `ParseExprElement` on the translated token; `operand` is the call of
    -- `ParseUnaryOp` for what stands after the operator.
    unfoldable pub element_at : (Parser R Lx → Parsed) → TokenType → Token R → Parser R Lx → Parsed
    unfolding assert_token next_token get_real_val get_int_val parse_integer_expr parse_string_expr
        parse_paren_expr parse_set_expr parse_identifier_expr
    element_at operand TokenType.default t p = from_outside (H.default_expr p)
    element_at operand TokenType.nil t p = do
      p1 ← assert_token S TokenType.nil p
      done (some (nil_expr p1.cur_token.loc), p1)
    element_at operand TokenType.real t p = do
      p1 ← next_token S p
      o ← get_real_val t
      v ← set_member o
      done (some (real_expr t.loc v), p1)
    element_at operand TokenType.integer t p = parse_integer_expr t p
    element_at operand TokenType.char t p = do
      p1 ← next_token S p
      o ← get_int_val t
      v ← set_member o
      done (some (char_expr t.loc v), p1)
    element_at operand TokenType.string_literal t p = parse_string_expr t p
    element_at operand TokenType.left_paren t p = parse_paren_expr p
    element_at operand TokenType.left_square t p = parse_set_expr p
    element_at operand TokenType.minus t p = operand p
    element_at operand TokenType.plus t p = operand p
    element_at operand TokenType.not_kw t p = operand p
    element_at operand TokenType.at t p = operand p
    element_at operand TokenType.size_of t p = from_outside (H.sizeof_expr p)
    element_at operand TokenType.identifier t p = parse_identifier_expr t p
    element_at operand _ t p = done (none, p)

    abbrev pub is_unary : TokenType → Bool
    is_unary t =
        token_eq t TokenType.minus
        || (token_eq t TokenType.plus || (token_eq t TokenType.not_kw || token_eq t TokenType.at))

    -- `ParseUnaryOp`, where `element` is `ParseExprElement`
    unfoldable pub parse_unary_op : (Parser R Lx → Parsed) → Parser R Lx → Parsed
    unfolding next_token token_eq at_name
    parse_unary_op element p = do
      let oper = p.cur_token
      ice_if (not (is_unary oper.type))
      p1 ← next_token S p
      (named, p2) ← at_name oper p1
      if not named
          then done (none, p2)
          else (do (rhs, p3) ← element p2; done (unary_of_element oper rhs, p3))

    -- `ParseExprElement`
    unfoldable pub parse_expr_element : ℕ → Parser R Lx → Parsed
    unfolding translate_token element_at parse_unary_op
    parse_expr_element zero p = out_of_fuel
    parse_expr_element (suc n) p = do
      t ← translate_token ci names p.cur_token
      element_at (parse_unary_op (parse_expr_element n)) t.type t p

    -- `ParseBinOpRHS`
    unfoldable pub parse_bin_op_rhs : ℕ → ℤ → ExprAst R V Ty → Parser R Lx → Parsed
    unfolding precedence next_token parse_expr_element
    parse_bin_op_rhs zero expr_prec lhs p = out_of_fuel
    parse_bin_op_rhs (suc n) expr_prec lhs p =
        let bin_op = p.cur_token in
        if ltb_ℤ (precedence bin_op.type) expr_prec
        then done (some lhs, p)
        else (next_token S p >>= λ p1. parse_expr_element f p1 >>= λ (rhs, p2). elim rhs [
          | none ↦ done (none, p2)
          | some r ↦ do
            (rhs', p3) ←
                if ltb_ℤ (precedence bin_op.type) (precedence (cur_type p2))
                then parse_bin_op_rhs n (next_prec (precedence bin_op.type)) r p2
                else done (some r, p2)
            elim rhs' [
              | none ↦ done (none, p3)
              | some r' ↦ parse_bin_op_rhs n expr_prec (binary_expr bin_op lhs r') p3
            ]
        ])

  -- `ParseExpression`
  unfoldable pub parse_expression : ℕ → Parser R Lx → Parsed
  unfolding parse_expr_element parse_bin_op_rhs
  parse_expression zero p = out_of_fuel
  parse_expression (suc f) p = do
    (lhs, p1) ← parse_expr_element (parse_expression f) f f p
    elim lhs [
      | none ↦ done (none, p1)
      | some l ↦ parse_bin_op_rhs (parse_expression f) f f (pos 0) l p1
    ]
