-- ===== src/Semantics/Binary.antt =====
-- semantics.cpp: the check of binary expressions.
use lacsap.Prelude.{ℕ, Bool, true, false, not, ◌&&◌, ◌||◌, if◌then◌else◌, ◌==◌}
use lacsap.Outcome.{Outcome, done, ice_if, ◌>>=◌, ◌>>◌}
use lacsap.Token.{TokenType, token_eq}
use lacsap.Types.Fields.{is_some}
use lacsap.Types.Node.{
  Heap, load, TypeKind, get_kind, kind_eq, type_of, array_decl, string_decl, dyn_array_decl,
  tk_char, tk_string, tk_array, tk_complex, tk_real, tk_pointer, tk_range,
}
use lacsap.Types.Same.{same_as}
use lacsap.Types.Compatible.{compatible_type, is_integral, is_numeric}
use lacsap.Semantics.State.{
  Expr, expr_type, set_expr, nil_expr, integer_expr, Sema, Known, add_error, error_if, recast,
  get_range, get_range_decl, update_range, update_subtype, set_base, is_set,
}
use lacsap.Semantics.Sets.{when}

-- `llvm::isa` by the kind of the object
unfoldable pub is_a : Heap → ℕ → TypeKind → Outcome Bool
is_a h p k = do t ← load h p; done (kind_eq (get_kind t) k)

-- `IsCharArray`
unfoldable pub is_char_array : Heap → ℕ → Outcome Bool
unfolding is_a
is_char_array h p = do
  t ← load h p
  elim t [
    | array_decl b rs ↦ is_a h b tk_char
    | string_decl b rs ↦ is_a h b tk_char
    | dyn_array_decl b r ↦ is_a h b tk_char
    | other ↦ done false
  ]

-- `IsStringLike`
unfoldable pub is_string_like : ℕ → Heap → ℕ → Outcome Bool
unfolding is_char_array
is_string_like n h p = do
  k ← type_of n h p
  if kind_eq k tk_char || kind_eq k tk_string
      then done true
      else (if kind_eq k tk_array then is_char_array h p else done false)

abbrev pub is_nil : Expr → Bool
is_nil (nil_expr t) = true
is_nil e = false

abbrev pub is_integer : Expr → Bool
is_integer (integer_expr t v) = true
is_integer e = false

-- `values.empty ()` of what may be a `SetExprAST`
abbrev pub is_empty_set : Expr → Bool
is_empty_set (set_expr t empty) = empty
is_empty_set e = false

-- What a check gives: a type, 0 for a null pointer, the operands, and the state
abbrev pub Checked : Type 0
Checked = Outcome (ℕ × Expr × Expr × Sema)

module _ (n : ℕ) (size : ℕ → ℕ) (known : Known) where
  -- `BinaryExprType` of an `in`
  unfoldable pub in_type : Expr → Expr → Sema → Checked
  unfolding is_integral update_subtype is_set set_base add_error get_range get_range_decl
      update_range
  in_type lhs rhs s = do
    k ← type_of n s.heap (expr_type lhs)
    s₁ ←
        when (is_empty_set rhs)
          (update_subtype (expr_type rhs) (expr_type lhs) (error_if (not (is_integral k)) s))
          (error_if (not (is_integral k)) s)
    right ← is_set s₁.heap (expr_type rhs)
    if right
        then (do
          b ← set_base s₁.heap (expr_type rhs)
          ice_if (b == 0)
          is_same ← same_as n s₁.heap (expr_type lhs) b
          r ← get_range n s₁.heap (expr_type rhs)
          s₂ ←
              when (not (is_some r))
                (do
                  (d, a) ← get_range_decl n (expr_type lhs) (error_if (not is_same) s₁)
                  update_range (expr_type rhs) d a)
                (error_if (not is_same) s₁)
          done (known.boolean_type, lhs, rhs, s₂))
        else done (known.boolean_type, lhs, rhs, add_error s₁)

  -- `BinaryExprType` of a division
  unfoldable pub divide_type : Expr → Expr → Sema → Checked
  unfolding is_numeric is_a recast add_error
  divide_type lhs rhs s = do
    lk ← type_of n s.heap (expr_type lhs)
    rk ← type_of n s.heap (expr_type rhs)
    lc ← is_a s.heap (expr_type lhs) tk_complex
    rc ← is_a s.heap (expr_type rhs) tk_complex
    let ty = if lc || rc then known.complex_type else known.real_type in
        (do
          lhs' ← recast n s.heap lhs ty
          rhs' ← recast n s.heap rhs ty
          c ← compatible_type s.heap size n ty ty
          done (
            ty,
            lhs',
            rhs',
            error_if (not (is_some c)) (error_if (not (is_numeric lk) || not (is_numeric rk)) s),
          ))

  -- `BinaryExprType` of a power with `**`
  unfoldable pub power_type : Expr → Expr → Sema → Checked
  unfolding is_numeric is_a recast add_error
  power_type lhs rhs s = do
    lk ← type_of n s.heap (expr_type lhs)
    rk ← type_of n s.heap (expr_type rhs)
    lc ← is_a s.heap (expr_type lhs) tk_complex
    rc ← is_a s.heap (expr_type rhs) tk_complex
    let ty = if lc then known.complex_type else known.real_type in
        (do
          lhs' ← recast n s.heap lhs ty
          rhs' ← recast n s.heap rhs known.real_type
          is_real ← is_a s.heap ty tk_real
          is_complex ← is_a s.heap ty tk_complex
          done (
            ty,
            lhs',
            rhs',
            error_if (not (is_real || is_complex))
                (error_if rc (error_if (not (is_numeric lk) || not (is_numeric rk)) s)),
          ))

  -- `BinaryExprType` of a power with `pow` of a complex number
  unfoldable pub pow_type : Expr → Expr → Sema → Checked
  unfolding is_integral is_a recast add_error
  pow_type lhs rhs s = do
    rk ← type_of n s.heap (expr_type rhs)
    is_char ← is_a s.heap (expr_type rhs) tk_char
    rhs' ← recast n s.heap rhs known.real_type
    done (expr_type lhs, lhs, rhs', error_if (not (is_integral rk) || is_char) s)

  -- The end of `BinaryExprType`: nil beside a pointer, and constants beside a range
  unfoldable pub other_type : TokenType → Expr → Expr → Sema → Checked
  unfolding is_a recast
  other_type op lhs rhs s = do
    lp ← is_a s.heap (expr_type lhs) tk_pointer
    rp ← is_a s.heap (expr_type rhs) tk_pointer
    lr ← is_a s.heap (expr_type lhs) tk_range
    rr ← is_a s.heap (expr_type rhs) tk_range
    if ((lp && is_nil rhs) || (rp && is_nil lhs))
          && (token_eq op TokenType.equal || token_eq op TokenType.not_equal)
        then (if is_nil rhs
            then (do rhs' ← recast n s.heap rhs (expr_type lhs); done (expr_type lhs, lhs, rhs', s))
            else (do
              lhs' ← recast n s.heap lhs (expr_type rhs)
              done (expr_type rhs, lhs', rhs, s)))
        else done (
            if lr && is_integer rhs
            then (expr_type lhs, lhs, rhs, s)
            else (if rr && is_integer lhs then (expr_type rhs, lhs, rhs, s) else (0, lhs, rhs, s)))
