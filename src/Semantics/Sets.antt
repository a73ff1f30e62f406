-- ===== src/Semantics/Sets.antt =====
-- semantics.cpp: the checks that complete the types of sets.
use lacsap.Prelude.{ℕ, Bool, not, ◌&&◌, ◌||◌, none, some, if◌then◌else◌, ◌==◌}
use lacsap.Prelude.Int.{ℤ, ltb_ℤ}
use lacsap.Outcome.{Outcome, done, ice_if, ◌>>=◌, ◌>>◌}
use lacsap.Types.Fields.{is_some}
use lacsap.Types.Node.{Range, range_eq, range_decl, set_decl}
use lacsap.Types.Same.{same_as}
use lacsap.Semantics.State.{
  Expr, expr_type, set_expr, Sema, Known, add_error, new_object, recast, get_range, get_range_decl,
  update_range, update_subtype, set_base, is_set,
}

-- The smaller and the larger of two bounds
abbrev pub min_ℤ : ℤ → ℤ → ℤ
min_ℤ a b = if ltb_ℤ b a then b else a

abbrev pub max_ℤ : ℤ → ℤ → ℤ
max_ℤ a b = if ltb_ℤ a b then b else a

-- A step of the checks that is taken under a condition
abbrev pub when : Bool → Outcome Sema → Sema → Outcome Sema
when b step s = if b then step else done s

module _ (n : ℕ) (known : Known) where
  -- The base types of an empty set on either side
  unfoldable pub complete_subtypes : Expr → Expr → Sema → Outcome Sema
  unfolding set_base update_subtype
  complete_subtypes lhs rhs s = do
    rb ← set_base s.heap (expr_type rhs)
    s₁ ← elim lhs [
      | set_expr t empty ↦ when (empty && not (rb == 0)) (update_subtype t rb s) s
      | other ↦ done s
    ]
    lb ← set_base s₁.heap (expr_type lhs)
    rb' ← set_base s₁.heap (expr_type rhs)
    elim rhs [
      | set_expr t empty ↦ when ((empty || rb' == 0) && not (lb == 0)) (update_subtype t lb s₁) s₁
      | other ↦ done s₁
    ]

  -- Neither side has a range: that of the integers, or of the base type of the right-hand side
  unfoldable pub guess_ranges : ℕ → ℕ → Sema → Outcome Sema
  unfolding get_range_decl set_base update_subtype update_range
  guess_ranges lty rty s = do
    (r, s₁) ← get_range_decl n known.integer_type s
    lb ← set_base s₁.heap lty
    rb ← set_base s₁.heap rty
    (r', s₂) ←
        if rb == 0 && lb == 0
        then (do
          a ← update_subtype rty known.integer_type s₁
          b ← update_subtype lty known.integer_type a
          done (r, b))
        else get_range_decl n rb s₁
    s₃ ← update_range lty r' s₂
    update_range rty r' s₃

  -- The ranges that are missing
  unfoldable pub complete_ranges : ℕ → ℕ → Sema → Outcome Sema
  unfolding get_range get_range_decl guess_ranges update_range
  complete_ranges lty rty s = do
    l ← get_range n s.heap lty
    r ← get_range n s.heap rty
    s₁ ← when (not (is_some l) && not (is_some r)) (guess_ranges lty rty s) s
    l₁ ← get_range n s₁.heap lty
    r₁ ← get_range n s₁.heap rty
    s₂ ←
        when (not (is_some l₁) && is_some r₁)
          (do (d, a) ← get_range_decl n rty s₁; update_range lty d a) s₁
    l₂ ← get_range n s₂.heap lty
    r₂ ← get_range n s₂.heap rty
    when (not (is_some r₂) && is_some l₂)
        (do (d, a) ← get_range_decl n lty s₂; update_range rty d a) s₂

  -- Both sides as sets over the ranges of both
  unfoldable pub join_ranges : Expr → Expr → ℕ → Range → Range → Sema → Outcome (Expr × Expr × Sema)
  unfolding new_object recast
  join_ranges lhs rhs rb l r s =
      let both : Range = record { start = min_ℤ l.start r.start; last = max_ℤ l.last r.last } in
      let (d, s₁) = new_object (range_decl both rb) s in
      let (t, s₂) = new_object (set_decl d rb) s₁ in
      do lhs' ← recast n s₂.heap lhs t; rhs' ← recast n s₂.heap rhs t; done (lhs', rhs', s₂)

  -- `BinarySetUpdate`: the operands after it; its type is that of the right-hand side before.
  unfoldable pub binary_set_update : Expr → Expr → Sema → Outcome (Expr × Expr × Sema)
  unfolding complete_subtypes complete_ranges join_ranges set_base get_range add_error range_eq
  binary_set_update lhs rhs s = do
    s₁ ← complete_subtypes lhs rhs s
    s₂ ← complete_ranges (expr_type lhs) (expr_type rhs) s₁
    l ← get_range n s₂.heap (expr_type lhs)
    r ← get_range n s₂.heap (expr_type rhs)
    lb ← set_base s₂.heap (expr_type lhs)
    rb ← set_base s₂.heap (expr_type rhs)
    is_same ← same_as n s₂.heap lb rb
    if not is_same then done (lhs, rhs, add_error s₂) else elim l [
      | none ↦ done (lhs, rhs, s₂)
      | some lr ↦ elim r [
        | none ↦ done (lhs, rhs, s₂)
        | some rr ↦ if range_eq rr lr then done (lhs, rhs, s₂) else join_ranges lhs rhs rb lr rr s₂
      ]
    ]

  -- `UpdateSetType`
  unfoldable pub update_set_type : ℕ → ℕ → Sema → Outcome Sema
  unfolding is_set get_range get_range_decl update_range update_subtype set_base
  update_set_type lty rty s = do
    left ← is_set s.heap lty
    right ← is_set s.heap rty
    if left && right
        then (do
          l ← get_range n s.heap lty
          lb ← set_base s.heap lty
          ice_if (not (is_some l) || lb == 0)
          r ← get_range n s.heap rty
          s₁ ← when (not (is_some r)) (do (d, a) ← get_range_decl n lty s; update_range rty d a) s
          rb ← set_base s₁.heap rty
          when (rb == 0) (update_subtype rty lb s₁) s₁)
        else done s
