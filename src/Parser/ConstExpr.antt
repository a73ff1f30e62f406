-- ===== src/Parser/ConstExpr.antt =====
-- parser.cpp: `ParseConstTerm`, `ParseConstRHS` and `ParseConstExpr`. The recursion of these three
-- through brackets and the loops are on fuel.
use lacsap.Prelude.{
  ℕ, zero, suc, ◌+◌, ◌-◌, ◌*◌, ◌%◌, Bool, true, false, not, List, [], ◌∷◌, Option, none, some, ◌==◌,
  if◌then◌else◌, Text,
}
use lacsap.Prelude.Int.{ℤ, pos, negsuc, ltb_ℤ}
use lacsap.Outcome.{Outcome, done, out_of_fuel, undefined, ◌>>=◌}
use lacsap.Token.{
  TokenType, Location, token_eq, get_ident_name, get_int_val, get_real_val, get_str_val, precedence,
}
use lacsap.Stack.{Stack}
use lacsap.Constants.{
  ConstDecl, int_const, enum_const, real_const, char_const, bool_const, string_const, Floats,
  loc_of, u64,
}
use lacsap.Parser.Stream.{
  expect_consume, no_expect_consume, Terminator, terminator, is_one_of, Parser, TokenSource,
  cur_type, error, next_token, get_identifier, expect, assert_token,
}
use lacsap.Parser.ConstEval.{NamedObject, Types, get_const_decl, get_enum_value, parse_const_eval}
use lacsap.Parser.ConstTerm.{set_member, unary_of, parse_const_function, parse_const_set_expr}

-- `mul` as an `int`, and as the `uint64_t` that it is converted to
abbrev pub mul_of : Bool → ℤ
mul_of negative = if negative then negsuc 0 else pos 1

abbrev pub mul64_of : Bool → ℕ
mul64_of negative = if negative then u64 - 1 else 1

-- `unaryToken == Token::Not` and `unaryToken != Token::Unknown`
abbrev is_not : Option TokenType → Bool
is_not none = false
is_not (some t) = token_eq t TokenType.not_kw

abbrev has_unary : Option TokenType → Bool
has_unary none = false
has_unary (some _) = true

-- `!v`
abbrev flip : ℕ → ℕ
flip v = if v == 0 then 1 else 0

-- `tokPrec + 1`
abbrev pub next_prec : ℤ → ℤ
next_prec (pos n) = pos (n + 1)
next_prec (negsuc zero) = pos 0
next_prec (negsuc (suc n)) = negsuc n

module _ {R Ty E Lx : Type 0} (F : Floats R) (S : TokenSource R Lx) (T : Types R Ty E Lx)
    (ci : Bool) (names : Stack (NamedObject R Ty E)) where
  -- A constant for the token that is there, and the next token
  abbrev step_with :
      ConstDecl R Ty E → Parser R Lx → Outcome (Option (ConstDecl R Ty E) × Parser R Lx)
  step_with c p = next_token S p >>= λ p'. done (some c, p')

  -- A value of an enumeration
  unfoldable pub enum_term :
      Location
      → Option TokenType
      → Ty
      → ℕ
      → Parser R Lx
      → Outcome (Option (ConstDecl R Ty E) × Parser R Lx)
  unfolding token_eq next_token error
  enum_term loc unary ty v p =
      if T.is_bool ty
      then if is_not unary
        then step_with (bool_const loc (flip v)) p
        else if has_unary unary
        then error p
        else step_with (bool_const loc (v % 256)) p
      else if has_unary unary
      then error p
      else step_with (enum_const ty loc v) p

  -- A constant under "not"
  unfoldable pub named_not : Location → Bool → ConstDecl R Ty E → ConstDecl R Ty E
  named_not loc negated (bool_const w v) =
      if negated then bool_const loc (flip v) else bool_const w v
  named_not loc negated c = c

  -- A constant under "-"; the message for the others reads the name from the token.
  unfoldable pub named_minus :
      Location → ConstDecl R Ty E → Parser R Lx → Outcome (Option (ConstDecl R Ty E) × Parser R Lx)
  unfolding next_token error get_ident_name
  named_minus loc (real_const _ r) p = step_with (real_const loc (F.neg r)) p
  named_minus loc (int_const _ v) p = step_with (int_const loc ((u64 - v) % u64)) p
  named_minus loc _ p = get_ident_name p.cur_token >>= λ _. error p

  -- A name that is no call: of an enumeration's value, or of a constant
  unfoldable pub named_term :
      Location
      → Option TokenType
      → Bool
      → Text
      → Parser R Lx
      → Outcome (Option (ConstDecl R Ty E) × Parser R Lx)
  unfolding get_enum_value get_const_decl enum_term named_not named_minus next_token token_eq
  named_term loc unary negative name p = elim (get_enum_value ci names name) [
    | some (ty, v) ↦ enum_term loc unary ty v p
    | none ↦ elim (get_const_decl ci names name) [
      | none ↦ done (none, p)
      | some c ↦
          let c' = named_not loc (is_not unary) c in
          if negative then named_minus loc c' p else step_with c' p
    ]
  ]

  -- "sizeof"
  unfoldable pub sizeof_term :
      Location → Bool → Parser R Lx → Outcome (Option (ConstDecl R Ty E) × Parser R Lx)
  unfolding assert_token expect error
  sizeof_term loc negative p = do
    p1 ← assert_token S TokenType.size_of p
    (opened, p2) ← expect S TokenType.left_paren expect_consume p1
    if not opened then done (none, p2) else (do
      (ty, p3) ← T.type_from_expression p2
      (closed, p4) ← expect S TokenType.right_paren expect_consume p3
      if not closed then done (none, p4) else elim ty [
        | none ↦ error p4
        | some t ↦ done (some (int_const loc (T.size t * mul64_of negative % u64)), p4)
      ])

  module _
      (expr : List Terminator → Parser R Lx → Outcome (Option (ConstDecl R Ty E) × Parser R Lx))
      (f : ℕ) where
    -- The second `switch` of `ParseConstTerm`, after the unary operator
    unfoldable pub term_at :
        TokenType
        → Location
        → Option TokenType
        → Bool
        → Parser R Lx
        → Outcome (Option (ConstDecl R Ty E) × Parser R Lx)
    unfolding assert_token terminator expect parse_const_set_expr error next_token token_eq
        get_str_val get_int_val get_real_val sizeof_term get_identifier parse_const_function
        named_term
    term_at TokenType.left_paren loc unary negative p = do
      p1 ← assert_token S TokenType.left_paren p
      (cd, p2) ← expr (terminator TokenType.right_paren ∷ []) p1
      (closed, p3) ← expect S TokenType.right_paren expect_consume p2
      done (if closed then cd else none, p3)
    term_at TokenType.left_square loc unary negative p =
        parse_const_set_expr F S T ci names expr f p
    term_at TokenType.string_literal loc unary negative p =
        if has_unary unary
        then error p
        else (get_str_val p.cur_token >>= λ s. step_with (string_const loc s) p)
    term_at TokenType.integer loc unary negative p = do
      o ← get_int_val p.cur_token
      v ← set_member o
      let v' = if is_not unary then u64 - 1 - v else v
      step_with (int_const loc (v' * mul64_of negative % u64)) p
    term_at TokenType.real loc unary negative p =
        if is_not unary
        then error p
        else (get_real_val p.cur_token >>= λ o. set_member o >>= λ v.
            step_with (real_const loc (F.mul v (F.of_int (mul_of negative)))) p)
    term_at TokenType.char loc unary negative p =
        if has_unary unary
        then error p
        else (get_int_val p.cur_token >>= λ o.
            set_member o >>= λ v. step_with (char_const loc (v % 256)) p)
    term_at TokenType.size_of loc unary negative p = sizeof_term loc negative p
    term_at TokenType.identifier loc unary negative p = do
      (name, p1) ← get_identifier S no_expect_consume p
      (cd, p2) ← parse_const_function F S T ci names expr f name p1
      elim cd [ some c ↦ done (some c, p2) | none ↦ named_term loc unary negative name p2 ]
    term_at _ loc unary negative p = done (none, p)

    -- `ParseConstTerm`
    unfoldable pub parse_const_term :
        Location → Parser R Lx → Outcome (Option (ConstDecl R Ty E) × Parser R Lx)
    unfolding unary_of next_token term_at
    parse_const_term loc p = elim (unary_of (cur_type p)) [
      | none ↦ term_at (cur_type p) loc none false p
      | some (u, negative) ↦ next_token S p >>= λ p1. term_at (cur_type p1) loc (some u) negative p1
    ]

    -- `ParseConstRHS`: a null left operand is used as soon as an operator follows.
    unfoldable pub parse_const_rhs :
        ℕ
        → ℤ
        → Option (ConstDecl R Ty E)
        → Parser R Lx
        → Outcome (Option (ConstDecl R Ty E) × Parser R Lx)
    unfolding precedence next_token parse_const_term parse_const_eval loc_of
    parse_const_rhs zero expr_prec lhs p = out_of_fuel
    parse_const_rhs (suc n) expr_prec lhs p =
        let bin_op = cur_type p in
        if ltb_ℤ (precedence bin_op) expr_prec
        then done (lhs, p)
        else (next_token S p >>= λ p1. elim lhs [
          | none ↦ undefined
          | some l ↦ do
            (rhs, p2) ← parse_const_term (loc_of l) p1
            elim rhs [
              | none ↦ done (none, p2)
              | some r ↦ do
                (rhs', p3) ←
                    if ltb_ℤ (precedence bin_op) (precedence (cur_type p2))
                    then parse_const_rhs n (next_prec (precedence bin_op)) (some r) p2
                    else done (some r, p2)
                elim rhs' [
                  | none ↦ done (none, p3)
                  | some r' ↦ do
                    (lhs', p4) ← parse_const_eval F l bin_op r' p3
                    parse_const_rhs n expr_prec lhs' p4
                ]
            ]
        ])

    -- The loop of `ParseConstExpr`
    unfoldable pub const_expr_loop :
        ℕ
        → Location
        → List Terminator
        → Parser R Lx
        → Outcome (Option (ConstDecl R Ty E) × Parser R Lx)
    unfolding parse_const_term is_one_of parse_const_rhs
    const_expr_loop zero loc terminators p = out_of_fuel
    const_expr_loop (suc n) loc terminators p = do
      (cd, p1) ← parse_const_term loc p
      elim cd [
        | none ↦ done (none, p1)
        | some c ↦ if is_one_of (cur_type p1) terminators then done (some c, p1) else (do
          (cd', p2) ← parse_const_rhs f (pos 0) (some c) p1
          elim cd' [
            | none ↦ done (none, p2)
            | some c' ↦
                if is_one_of (cur_type p2) terminators
                then done (some c', p2)
                else const_expr_loop n loc terminators p2
          ])
      ]

  -- `ParseConstExpr`
  unfoldable pub parse_const_expr :
      ℕ → List Terminator → Parser R Lx → Outcome (Option (ConstDecl R Ty E) × Parser R Lx)
  unfolding const_expr_loop
  parse_const_expr zero terminators p = out_of_fuel
  parse_const_expr (suc f) terminators p =
      const_expr_loop (parse_const_expr f) f f p.cur_token.loc terminators p
