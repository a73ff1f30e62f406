-- ===== src/Semantics/Assign/Ranges.antt =====
-- semantics.cpp: constants that are assigned to variables of a range.
use lacsap.Prelude.{ℕ, suc, true, false, some, ◌≡◌, ◌↔◌, refl, arith, Bool-cases, inl, inr}
use lacsap.Prelude.Int.{ℤ, leb_ℤ}
use lacsap.Outcome.{done}
use lacsap.Types.Node.{TypeDecl, Range, range_decl}
use lacsap.Types.Compatible.Numeric.{load-some}
use lacsap.Semantics.State.{
  Expr, expr_type, integer_expr, Sema, Known, add_error, error_if, get_range, is_set,
}
use lacsap.Semantics.Sets.{update_set_type}
use lacsap.Semantics.Binary.{is_a, is_char_array}
use lacsap.Semantics.Assign.{check_assign, assign_checked, out_of_range}

module _ (n : ℕ) (size : ℕ → ℕ) (known : Known) where
  errors-out_of_range :
      (r : Range) (v : ℤ) (s : Sema)
      → ((error_if (out_of_range r v) s).errors ≡ s.errors)
        ↔ ((leb_ℤ r.start v ≡ true) × (leb_ℤ v r.last ≡ true))
  unfolding add_error
  errors-out_of_range r v s = elim (Bool-cases (out_of_range r v)) [
    | inl out ↦ rw out (λ e. absurd (omega arith), λ p. absurd (ground arith))
    | inr inside ↦ rw inside (λ e. (ground arith, ground arith), λ p. refl)
  ]

  update_set_type-range :
      (lhs : Expr) (t b : ℕ) (r : Range) (u : TypeDecl) (s : Sema)
      → s.heap (expr_type lhs) ≡ some (range_decl r b)
      → s.heap t ≡ some u
      → update_set_type (suc n) known (expr_type lhs) t s ≡ done s
  unfolding update_set_type is_set
  update_set_type-range lhs t b r u s h hu =
      rw
        (
          update_set_type,
          load-some s.heap (expr_type lhs) (range_decl r b) h,
          load-some s.heap t u hu,
        )
        refl

  assign_checked-range :
      (lhs : Expr) (t b : ℕ) (v : ℤ) (r : Range) (s : Sema)
      → s.heap (expr_type lhs) ≡ some (range_decl r b)
      → assign_checked (suc n) size known lhs (integer_expr t v) s
        ≡ done (integer_expr t v, error_if (out_of_range r v) s)
  unfolding assign_checked is_a is_char_array get_range
  assign_checked-range lhs t b v r s h =
      rw (assign_checked, load-some s.heap (expr_type lhs) (range_decl r b) h) refl

  -- A constant that is assigned to an unprotected variable of a range is an error exactly if it is
  -- outside the range; the right-hand side stays as it is.
  pub check_assign-range :
      (lhs : Expr) (t b : ℕ) (v : ℤ) (r : Range) (u : TypeDecl) (s : Sema)
      → s.heap (expr_type lhs) ≡ some (range_decl r b)
      → s.heap t ≡ some u
      → (s' : Sema) × (check_assign (suc n) size known (some false) lhs (integer_expr t v) s
          ≡ done (integer_expr t v, s'))
        × ((s'.errors ≡ s.errors) ↔ ((leb_ℤ r.start v ≡ true) × (leb_ℤ v r.last ≡ true)))
  unfolding check_assign add_error
  check_assign-range lhs t b v r u s h hu =
      let checked : check_assign (suc n) size known (some false) lhs (integer_expr t v) s
          ≡ done (integer_expr t v, error_if (out_of_range r v) s) =
        rw (check_assign, update_set_type-range lhs t b r u s h hu)
          (assign_checked-range lhs t b v r s h) in
      (error_if (out_of_range r v) s, checked, errors-out_of_range r v s)
