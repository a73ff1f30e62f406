-- ===== src/Parser/ConstTerm.antt =====
-- parser.cpp: the terms of a constant expression. `expr` is `ParseConstExpr`, which a term calls for
-- what stands in brackets, and `f` the fuel of the loops.
use lacsap.Prelude.{
  ℕ, zero, suc, ◌+◌, ◌-◌, ◌%◌, ◌^◌, Bool, true, false, not, ◌&&◌, List, [], ◌∷◌, ◌++◌, Option, none,
  some, ltb, if◌then◌else◌, Text,
}
use lacsap.Prelude.Int.{ℤ, pos, negsuc, leb_ℤ}
use lacsap.Outcome.{Outcome, done, ice, out_of_fuel, undefined, ◌>>=◌}
use lacsap.Token.{TokenType, Location, token_eq}
use lacsap.Stack.{Stack}
use lacsap.Constants.{
  ConstDecl, ConstDecls, no_decls, more_decls, range_const, set_const, Eval, value, Floats, loc_of,
  to_int, is_evaluable_func, u64,
}
use lacsap.Parser.Stream.{
  expect_consume, Terminator, terminator, is_one_of, should_consume, Parser, TokenSource, cur_type,
  error, next_token, peek_token, consume, expect, assert_token, accept_token,
}
use lacsap.Parser.ConstEval.{NamedObject, Types, evaluated, eval_pointers}

-- A member of the token that its constructor may have left unset
abbrev pub set_member : {A : Type 0} → Option A → Outcome A
set_member none = undefined
set_member (some a) = done a

-- An `int64_t` from its bit pattern
abbrev pub signed64 : ℕ → ℤ
signed64 v = if ltb v (2 ^ 63) then pos v else negsuc (u64 - 1 - v)

module _ {R Lx A : Type 0} (S : TokenSource R Lx) where
  -- The loop of `ParseSeparatedList`. `item` is `Consume`, which also hands on what the list has
  -- collected.
  unfoldable pub separated_loop :
      List Terminator
      → List Terminator
      → (A → Parser R Lx → Outcome (Bool × A × Parser R Lx))
      → ℕ
      → A
      → Parser R Lx
      → Outcome (Bool × A × Parser R Lx)
  unfolding is_one_of should_consume next_token
  separated_loop separators terminators item zero a p = out_of_fuel
  separated_loop separators terminators item (suc f) a p = do
    (ok, a', p1) ← item a p
    if not ok
        then done (false, a', p1)
        else if is_one_of (cur_type p1) terminators
        then (do
          e ← should_consume (cur_type p1) terminators
          p2 ← consume S e p1
          done (true, a', p2))
        else if not (is_one_of (cur_type p1) separators)
        then done (false, a', p1)
        else (do
          e ← should_consume (cur_type p1) separators
          p2 ← consume S e p1
          separated_loop separators terminators item f a' p2)

  -- `ParseSeparatedList`
  unfoldable pub parse_separated_list :
      List Terminator
      → List Terminator
      → Bool
      → (A → Parser R Lx → Outcome (Bool × A × Parser R Lx))
      → ℕ
      → A
      → Parser R Lx
      → Outcome (Bool × A × Parser R Lx)
  unfolding separated_loop is_one_of should_consume next_token
  parse_separated_list separators terminators allow_empty item f a p =
      if allow_empty && is_one_of (cur_type p) terminators
      then (do e ← should_consume (cur_type p) terminators; p1 ← consume S e p; done (true, a, p1))
      else separated_loop separators terminators item f a p

-- The unary operator that a token is, if it is one, and whether it is the minus
unfoldable pub unary_of : TokenType → Option (TokenType × Bool)
unary_of TokenType.minus = some (TokenType.minus, true)
unary_of TokenType.plus = some (TokenType.plus, false)
unary_of TokenType.not_kw = some (TokenType.not_kw, false)
unary_of _ = none

module _ {R Ty E Lx : Type 0} (F : Floats R) (S : TokenSource R Lx) (T : Types R Ty E Lx)
    (ci : Bool) (names : Stack (NamedObject R Ty E))
    (expr : List Terminator → Parser R Lx → Outcome (Option (ConstDecl R Ty E) × Parser R Lx))
    (f : ℕ) where
  -- The arguments of a call, and the call. After a message the loop goes on.
  unfoldable pub const_args :
      ℕ
      → Text
      → List (Option (ConstDecl R Ty E))
      → Parser R Lx
      → Outcome (Option (ConstDecl R Ty E) × Parser R Lx)
  unfolding terminator accept_token expect evaluated eval_pointers
  const_args zero name args p = out_of_fuel
  const_args (suc n) name args p = do
    (cd, p1) ← expr (terminator TokenType.comma ∷ terminator TokenType.right_paren ∷ []) p
    (comma, p2) ← accept_token S TokenType.comma p1
    if comma then const_args n name (args ++ cd ∷ []) p2 else (do
      (closed, p3) ← expect S TokenType.right_paren expect_consume p2
      if closed
          then evaluated (eval_pointers F name (args ++ cd ∷ [])) p3
          else const_args n name (args ++ cd ∷ []) p3)

  -- `ParseConstFunction`
  unfoldable pub parse_const_function :
      Text → Parser R Lx → Outcome (Option (ConstDecl R Ty E) × Parser R Lx)
  unfolding token_eq peek_token next_token assert_token is_evaluable_func const_args
  parse_const_function name p = do
    (tt, p1) ← peek_token S p
    if not (token_eq tt TokenType.left_paren)
        then done (none, p1)
        else if is_evaluable_func Ty E F name
        then (do
          p2 ← next_token S p1
          p3 ← assert_token S TokenType.left_paren p2
          const_args f name [] p3)
        else done (none, p1)

  -- `Range(s, e)`, whose difference must not be negative; its overflow is undefined.
  range_of : Location → Ty → Eval ℕ → Eval ℕ → Outcome (ConstDecl R Ty E)
  range_of w ty (value a) (value b) =
      let fits = ltb ((b + u64 - a) % u64) (2 ^ 63) in
      if leb_ℤ (signed64 a) (signed64 b)
      then if fits then done (range_const w ty (signed64 a) (signed64 b)) else undefined
      else if fits
      then undefined
      else ice
  range_of w ty _ _ = ice

  -- `CCConstSetList::Consume`
  unfoldable pub consume_const_set :
      List (ConstDecl R Ty E) → Parser R Lx → Outcome (Bool × List (ConstDecl R Ty E) × Parser R Lx)
  unfolding terminator accept_token to_int loc_of range_of
  consume_const_set values p = do
    (cd, p1) ←
        expr
          (terminator TokenType.dot_dot
            ∷ terminator TokenType.comma
            ∷ terminator TokenType.right_square
            ∷ [])
          p
    elim cd [
      | none ↦ done (false, values, p1)
      | some c ↦ do
        (dots, p2) ← accept_token S TokenType.dot_dot p1
        if not dots then done (true, values ++ c ∷ [], p2) else (do
          (cde, p3) ← expr (terminator TokenType.comma ∷ terminator TokenType.right_square ∷ []) p2
          elim cde [
            | none ↦ done (false, values, p3)
            | some ce ↦
                if not (T.same_type (T.type_of c) (T.type_of ce))
                then done (false, values, p3)
                else do
                  r ← range_of (loc_of c) (T.type_of c) (to_int c) (to_int ce)
                  done (true, values ++ r ∷ [], p3)
          ])
    ]

  decls_of : List (ConstDecl R Ty E) → ConstDecls R Ty E
  decls_of [] = no_decls
  decls_of (c ∷ cs) = more_decls c (decls_of cs)

  -- The other elements have the type of the first.
  unfoldable pub same_types : Ty → List (ConstDecl R Ty E) → Bool
  same_types ty [] = true
  same_types ty (c ∷ cs) = T.same_type (T.type_of c) ty && same_types ty cs

  -- The set of the values
  unfoldable pub const_set :
      Location
      → List (ConstDecl R Ty E)
      → Parser R Lx
      → Outcome (Option (ConstDecl R Ty E) × Parser R Lx)
  unfolding decls_of same_types error
  const_set loc [] p = done (some (set_const loc (T.set_decl none) no_decls), p)
  const_set loc (c ∷ cs) p =
      if same_types (T.type_of c) cs
      then done (some (set_const loc (T.set_decl (some (T.type_of c))) (decls_of (c ∷ cs))), p)
      else error p

  -- `ParseConstSetExpr`
  unfoldable pub parse_const_set_expr :
      Parser R Lx → Outcome (Option (ConstDecl R Ty E) × Parser R Lx)
  unfolding assert_token terminator parse_separated_list consume_const_set const_set
  parse_const_set_expr p = do
    p1 ← assert_token S TokenType.left_square p
    let loc = p1.cur_token.loc
    (ok, values, p2) ←
        parse_separated_list S (terminator TokenType.comma ∷ [])
          (terminator TokenType.right_square ∷ []) true consume_const_set f [] p1
    if ok then const_set loc values p2 else done (none, p2)
