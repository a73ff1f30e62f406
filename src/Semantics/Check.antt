-- ===== src/Semantics/Check.antt =====
-- semantics.cpp: `BinaryExprType`, and the checks of binary and unary expressions, assignments and
-- ranges.
pub mod Numbers
use lacsap.Prelude.{
  ℕ, Bool, true, false, not, ◌&&◌, ◌||◌, Option, none, some, List, [], ◌∷◌, if◌then◌else◌, ◌==◌,
  leb, length,
}
use lacsap.Prelude.Int.{ℤ, ltb_ℤ}
use lacsap.Outcome.{Outcome, done, ice, undefined, ◌>>=◌}
use lacsap.Token.{TokenType, token_eq, is_compare}
use lacsap.Types.Fields.{is_some}
use lacsap.Types.Node.{
  Heap, load, TypeKind, get_kind, kind_eq, type_of, array_decl, tk_char, tk_string, tk_complex,
  tk_boolean, tk_pointer, tk_range, tk_dyn_range,
}
use lacsap.Types.Same.{same_as, array_ranges}
use lacsap.Types.Compatible.{
  compatible_type, assignable_type, is_integral, is_numeric, is_compound, range_size,
}
use lacsap.Semantics.State.{
  Expr, expr_type, set_expr, nil_expr, integer_expr, string_expr, Sema, Known, add_error, error_if,
  recast, get_range, is_set,
}
use lacsap.Semantics.Sets.{binary_set_update, update_set_type}
use lacsap.Semantics.Binary.{
  is_a, is_char_array, is_string_like, is_nil, Checked, in_type, divide_type, power_type, pow_type,
  other_type,
}

-- Is the operator one of these?
abbrev pub is_one_of : TokenType → List TokenType → Bool
is_one_of op [] = false
is_one_of op (t ∷ ts) = token_eq op t || is_one_of op ts

module _ (n : ℕ) (size : ℕ → ℕ) (known : Known) where
  -- `BinaryExprType` of a comparison; `none` goes on
  unfoldable pub compare_check :
      TokenType → Expr → Expr → Sema → Outcome (Option (Expr × Expr × Sema))
  unfolding is_a recast add_error
  compare_check op lhs rhs s = do
    lc ← is_a s.heap (expr_type lhs) tk_complex
    rc ← is_a s.heap (expr_type rhs) tk_complex
    ls ← is_a s.heap (expr_type lhs) tk_string
    rs ← is_a s.heap (expr_type rhs) tk_string
    if lc && rc
        then done (
            some (
              lhs,
              rhs,
              error_if (not (is_one_of op (TokenType.equal ∷ TokenType.not_equal ∷ []))) s,
            ))
        else (if ls || rs
            then (do
              rhs' ← recast n s.heap rhs known.string_type
              lhs' ← recast n s.heap lhs known.string_type
              done (some (lhs', rhs', s)))
            else done none)

  -- The `switch` of `BinaryExprType` and what follows it
  unfoldable pub switch_type : TokenType → Expr → Expr → Sema → Checked
  unfolding is_a is_string_like divide_type power_type pow_type other_type add_error
  switch_type op lhs rhs s = do
    lb ← is_a s.heap (expr_type lhs) tk_boolean
    rb ← is_a s.heap (expr_type rhs) tk_boolean
    lt ← is_string_like n s.heap (expr_type lhs)
    rt ← is_string_like n s.heap (expr_type rhs)
    lc ← is_a s.heap (expr_type lhs) tk_complex
    let rest = other_type n size known op lhs rhs s in
        if is_one_of op (TokenType.and_then ∷ TokenType.or_else ∷ [])
        then done (known.boolean_type, lhs, rhs, error_if (not lb || not rb) s)
        else (if token_eq op TokenType.plus && (lt && rt)
            then done (known.string_type, lhs, rhs, s)
            else (if token_eq op TokenType.pow && lc
                then pow_type n size known lhs rhs s
                else (if token_eq op TokenType.divide
                    then divide_type n size known lhs rhs s
                    else (if token_eq op TokenType.power
                        then power_type n size known lhs rhs s
                        else rest))))

  -- `BinaryExprType`
  unfoldable pub binary_expr_type : TokenType → Expr → Expr → Sema → Checked
  unfolding is_set in_type binary_set_update compare_check switch_type
  binary_expr_type op lhs rhs s =
      if token_eq op TokenType.in_kw then in_type n size known lhs rhs s else (do
        ls ← is_set s.heap (expr_type lhs)
        rs ← is_set s.heap (expr_type rhs)
        if ls && rs
            then (do
              (lhs', rhs', s') ← binary_set_update n known lhs rhs s
              done (if is_compare op then known.boolean_type else expr_type rhs, lhs', rhs', s'))
            else (if is_compare op
                then (do
                  checked ← compare_check op lhs rhs s
                  elim checked [
                    | some (lhs', rhs', s') ↦ done (known.boolean_type, lhs', rhs', s')
                    | none ↦ switch_type op lhs rhs s
                  ])
                else switch_type op lhs rhs s))

  -- The errors of the `switch` of `Check<BinaryExprAST>`, and the type that it finds or 0
  unfoldable pub operand_errors : TokenType → Expr → Expr → Sema → Outcome (ℕ × Sema)
  unfolding is_a is_numeric is_integral add_error
  operand_errors op lhs rhs s = do
    lk ← type_of n s.heap (expr_type lhs)
    rk ← type_of n s.heap (expr_type rhs)
    lc ← is_a s.heap (expr_type lhs) tk_char
    rc ← is_a s.heap (expr_type rhs) tk_char
    lb ← is_a s.heap (expr_type lhs) tk_boolean
    rb ← is_a s.heap (expr_type rhs) tk_boolean
    let whole = is_integral lk && is_integral rk in
        let numbers = is_numeric lk && is_numeric rk in
        done (
          if token_eq op TokenType.pow
          then (0, error_if (rc || not (is_integral rk)) (error_if (not (is_numeric lk)) s))
          else (if is_one_of op (TokenType.div ∷ TokenType.mod_kw ∷ [])
              then (0, error_if (lc || rc || not whole) s)
              else (if is_one_of op (TokenType.and ∷ TokenType.xor ∷ TokenType.or ∷ [])
                  then (
                    if lb && rb then known.boolean_type else 0,
                    error_if (lc || rc) (error_if (not whole) s),
                  )
                  else (if is_one_of op (TokenType.minus ∷ TokenType.multiply ∷ TokenType.plus ∷ [])
                      then (0, error_if (lc || rc) (error_if (not numbers) s))
                      else (0, s)))))

  -- The common type of the operands, with a cast of them to it if it is not compound
  unfoldable pub common_type : Expr → Expr → Sema → Checked
  unfolding is_compound recast add_error
  common_type lhs rhs s = do
    c ← compatible_type s.heap size n (expr_type lhs) (expr_type rhs)
    elim c [
      | none ↦ done (0, lhs, rhs, add_error s)
      | some ty ↦ (do
        k ← type_of n s.heap ty
        if is_compound k then done (ty, lhs, rhs, s) else (do
          lhs' ← recast n s.heap lhs ty
          rhs' ← recast n s.heap rhs ty
          done (ty, lhs', rhs', s)))
    ]

  -- `Check<BinaryExprAST>`, with the type that `UpdateType` is given
  unfoldable pub check_binary : TokenType → Expr → Expr → Sema → Checked
  unfolding binary_expr_type operand_errors common_type
  check_binary op lhs rhs s = do
    (ty, lhs', rhs', s') ← binary_expr_type op lhs rhs s
    if not (ty == 0) then done (ty, lhs', rhs', s') else (do
      (ty', s'') ← operand_errors op lhs' rhs' s'
      if not (ty' == 0) then done (ty', lhs', rhs', s'') else common_type lhs' rhs' s'')

  -- `Check<UnaryExprAST>`; the type is that of the operand.
  unfoldable pub check_unary : TokenType → Expr → Sema → Outcome (ℕ × Sema)
  unfolding is_a is_numeric is_integral add_error
  check_unary op rhs s = do
    k ← type_of n s.heap (expr_type rhs)
    is_char ← is_a s.heap (expr_type rhs) tk_char
    done (
      expr_type rhs,
      error_if (token_eq op TokenType.minus && not (is_numeric k))
          (error_if (token_eq op TokenType.not_kw && (not (is_integral k) || is_char)) s),
    )

  -- `Check<RangeExprAST>`
  unfoldable pub check_range : Expr → Expr → Sema → Outcome Sema
  unfolding add_error
  check_range low high s = do
    is_same ← same_as n s.heap (expr_type low) (expr_type high)
    done (error_if (not is_same) s)
