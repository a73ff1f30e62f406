-- ===== src/Parser/Case.antt =====
-- parser.cpp: `ParseCaseExpr`, and the functions that tell the kinds of statements apart.
use lacsap.Prelude.{
  ℕ, zero, suc, Bool, not, ◌||◌, List, [], ◌∷◌, ◌++◌, Option, none, some, if◌then◌else◌,
}
use lacsap.Prelude.Int.{ℤ, leb_ℤ}
use lacsap.Outcome.{Outcome, done, ice, undefined, out_of_fuel, ◌>>=◌}
use lacsap.Token.{TokenType, Location, token_eq}
use lacsap.Stack.{Stack}
use lacsap.Constants.{ConstDecl, Floats, Eval, value, null, to_int, to_int32}
use lacsap.Parser.Stream.{
  terminator, Parser, TokenSource, cur_type, error, next_token, accept_token, assert_token, expect,
}
use lacsap.Parser.ConstEval.{NamedObject, Types}
use lacsap.Parser.ConstExpr.{parse_const_expr}
use lacsap.Parser.Ast.{
  ExprAst, Outside, exprs_of, null_expr, block_expr, assign_expr, case_expr, label_expr,
}
use lacsap.Parser.Expression.{from_outside, parse_identifier_expr}
use lacsap.Parser.Statement.{
  Step, with_node, after_token, expect_semicolon_or_end, expr, parse_goto, parse_block,
  parse_if_expr, parse_for_expr, parse_while, parse_repeat,
}

-- `ToInt` of a pointer, as an `int`
abbrev pub int_of_const : {R Ty E : Type 0} → Option (ConstDecl R Ty E) → Outcome ℤ
unfolding to_int to_int32
int_of_const none = undefined
int_of_const (some c) = elim (to_int c) [
  | value v ↦ done (to_int32 v)
  | null ↦ ice
  | Eval.undefined ↦ ice
]

-- The variables of the loop of `ParseCaseExpr`
pub record CaseState (R V Ty : Type 0) : Type 0 where
  pub labels : List (ExprAst R V Ty)
  pub ranges : List (ℤ × ℤ)
  pub otherwise : Option (ExprAst R V Ty)
  pub label_type : Option Ty

abbrev pub or_null : {R V Ty : Type 0} → Option (ExprAst R V Ty) → ExprAst R V Ty
or_null none = null_expr
or_null (some e) = e

module _ {R V Ty E Lx : Type 0} (F : Floats R) (S : TokenSource R Lx) (T : Types R Ty E Lx)
    (H : Outside R V Ty Lx) (ci : Bool) (names : Stack (NamedObject R Ty E)) where
  -- A turn of the loop ends with the variables, or the function with a null pointer.
  abbrev pub Turn : Type 0
  Turn = Outcome (Option (CaseState R V Ty) × Parser R Lx)

  abbrev stops : Parser R Lx → Turn
  stops p = error {A = Unit {0}} p >>= λ (n, p'). done (none, p')

  module _ (stmt : Parser R Lx → Step {V = V} F S T H ci names) (f : ℕ) where
    -- "otherwise" or "else", with its statement
    unfoldable pub case_otherwise : CaseState R V Ty → Parser R Lx → Turn
    unfolding next_token error expect_semicolon_or_end
    case_otherwise c p = do
      p1 ← next_token S p
      elim c.otherwise [
        | some _ ↦ stops p1
        | none ↦ elim c.ranges [
          | _ ∷ _ ↦ stops p1
          | [] ↦ (do
            (s, p2) ← stmt p1
            (ok, p3) ← expect_semicolon_or_end F S T H ci names p2
            let label = label_expr p1.cur_token.loc [] (or_null s)
            done (
              if ok
                  then some (record c { labels = c.labels ++ label ∷ []; otherwise = s })
                  else none,
              p3,
            ))
        ]
      ]

    -- The end of a range of labels
    unfoldable pub case_range : CaseState R V Ty → Ty → ℤ → Parser R Lx → Turn
    unfolding terminator parse_const_expr error int_of_const
    case_range c ty low p = do
      (cd, p1) ←
          parse_const_expr F S T ci names f
            (terminator TokenType.comma ∷ terminator TokenType.colon ∷ []) p
      elim cd [
        | none ↦ undefined
        | some k ↦ if not (T.same_type ty (T.type_of k)) then stops p1 else (do
          high ← int_of_const (some k)
          if leb_ℤ high low
              then stops p1
              else done (some (record c { ranges = c.ranges ++ (low, high) ∷ [] }), p1))
      ]

    -- A label or a range of labels; the first one gives the type.
    unfoldable pub case_label : CaseState R V Ty → Parser R Lx → Turn
    unfolding terminator parse_const_expr accept_token error int_of_const case_range
    case_label c p = do
      (cd, p1) ←
          parse_const_expr F S T ci names f
            (terminator TokenType.comma
              ∷ terminator TokenType.colon
              ∷ terminator TokenType.dot_dot
              ∷ [])
            p
      low ← int_of_const cd
      elim cd [
        | none ↦ undefined
        | some k ↦
            let ty : Ty = elim c.label_type [ none ↦ T.type_of k | some ty ↦ ty ] in
            if not (T.same_type ty (T.type_of k)) then stops p1 else (do
              (dots, p2) ← accept_token S TokenType.dot_dot p1
              let c' : CaseState R V Ty = record c { label_type = some ty }
              if dots
                  then case_range c' ty low p2
                  else done (some (record c' { ranges = c.ranges ++ (low, low) ∷ [] }), p2))
      ]

    -- The first part of a turn
    unfoldable pub case_item : CaseState R V Ty → Parser R Lx → Turn
    unfolding token_eq case_otherwise case_label
    case_item c p =
        if token_eq (cur_type p) TokenType.otherwise || token_eq (cur_type p) TokenType.else_kw
        then case_otherwise c p
        else case_label c p

    -- The second part: a comma, or a colon and the statement
    unfoldable pub case_after : TokenType → CaseState R V Ty → Parser R Lx → Turn
    unfolding assert_token next_token expect_semicolon_or_end error
    case_after TokenType.comma c p = assert_token S TokenType.comma p >>= λ p1. done (some c, p1)
    case_after TokenType.colon c p = do
      p1 ← next_token S p
      (s, p2) ← stmt p1
      (ok, p3) ← expect_semicolon_or_end F S T H ci names p2
      let label = label_expr p1.cur_token.loc c.ranges (or_null s)
      done (
        if ok then some (record c { labels = c.labels ++ label ∷ []; ranges = [] }) else none,
        p3,
      )
    case_after TokenType.end c p = done (some c, p)
    case_after _ c p = stops p

    -- The loop of `ParseCaseExpr`
    unfoldable pub case_loop :
        ℕ
        → Location
        → ExprAst R V Ty
        → CaseState R V Ty
        → Parser R Lx
        → Step {V = V} F S T H ci names
    unfolding case_item case_after accept_token
    case_loop zero loc e c p = out_of_fuel
    case_loop (suc n) loc e c p = do
      (item, p1) ← case_item c p
      elim item [
        | none ↦ done (none, p1)
        | some c1 ↦ (do
          (after, p2) ← case_after (cur_type p1) c1 p1
          elim after [
            | none ↦ done (none, p2)
            | some c2 ↦ (do
              (ended, p3) ← accept_token S TokenType.end p2
              if ended
                  then done (some (case_expr loc e (exprs_of c2.labels) (or_null c2.otherwise)), p3)
                  else case_loop n loc e c2 p3)
          ])
      ]

    -- `ParseCaseExpr`
    unfoldable pub parse_case_expr : Parser R Lx → Step {V = V} F S T H ci names
    unfolding assert_token expect case_loop
    parse_case_expr p = do
      p1 ← assert_token S TokenType.case p
      with_node F S T H ci names (expr F S T H ci names stmt f p1) (λ e p2.
          after_token F S T H ci names TokenType.of p2 (λ p3.
            case_loop f p.cur_token.loc e
              (record { labels = []; ranges = []; otherwise = none; label_type = none }) p3))

    -- `ParsePrimary`
    unfoldable pub primary_at : TokenType → Parser R Lx → Step {V = V} F S T H ci names
    unfolding parse_if_expr parse_for_expr parse_while parse_repeat parse_case_expr parse_goto
        parse_identifier_expr next_token error
    primary_at TokenType.identifier p = parse_identifier_expr S T H ci names p.cur_token p
    primary_at TokenType.if_kw p = parse_if_expr F S T H ci names stmt f p
    primary_at TokenType.for p = parse_for_expr F S T H ci names stmt f p
    primary_at TokenType.while p = parse_while F S T H ci names stmt f p
    primary_at TokenType.repeat p = parse_repeat F S T H ci names stmt f p
    primary_at TokenType.case p = parse_case_expr p
    primary_at TokenType.with p = from_outside S T H ci names (H.simple_statement p)
    primary_at TokenType.write p = from_outside S T H ci names (H.simple_statement p)
    primary_at TokenType.writeln p = from_outside S T H ci names (H.simple_statement p)
    primary_at TokenType.write_str p = from_outside S T H ci names (H.simple_statement p)
    primary_at TokenType.read p = from_outside S T H ci names (H.simple_statement p)
    primary_at TokenType.readln p = from_outside S T H ci names (H.simple_statement p)
    primary_at TokenType.read_str p = from_outside S T H ci names (H.simple_statement p)
    primary_at TokenType.goto p = parse_goto F S T H ci names p
    primary_at _ p = next_token S p >>= error

    -- A primary, and what follows an assignment sign
    unfoldable pub primary_or_assign : Parser R Lx → Step {V = V} F S T H ci names
    unfolding primary_at accept_token error
    primary_or_assign p = do
      (o, p1) ← primary_at (cur_type p) p
      elim o [
        | none ↦ error p1
        | some e ↦ (do
          (assigned, p2) ← accept_token S TokenType.assign p1
          if not assigned then done (some e, p2) else (do
            (rhs, p3) ← expr F S T H ci names stmt f p2
            elim rhs [
              | none ↦ error p3
              | some r ↦ done (some (assign_expr p2.cur_token.loc e r), p3)
            ]))
      ]

    -- The `switch` of `ParseStatement`
    unfoldable pub statement_at : TokenType → Parser R Lx → Step {V = V} F S T H ci names
    unfolding parse_block primary_or_assign
    statement_at TokenType.begin p = parse_block F S T H ci names stmt f p
    statement_at TokenType.semicolon p = done (some (block_expr p.cur_token.loc (exprs_of [])), p)
    statement_at TokenType.end p = done (some (block_expr p.cur_token.loc (exprs_of [])), p)
    statement_at _ p = primary_or_assign p

  -- `ParseStatement`
  unfoldable pub parse_statement : ℕ → Parser R Lx → Step {V = V} F S T H ci names
  unfolding statement_at
  parse_statement zero p = out_of_fuel
  parse_statement (suc f) p = statement_at (parse_statement f) f (cur_type p) p
