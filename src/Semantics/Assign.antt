-- ===== src/Semantics/Assign.antt =====
-- semantics.cpp: the check of assignments. The variable that `FindParentOfType` finds on the
-- left-hand side is given, with whether it is protected.
pub mod Ranges
use lacsap.Prelude.{
  ℕ, Bool, true, false, not, ◌&&◌, ◌||◌, Option, none, some, List, [], ◌∷◌, if◌then◌else◌, ◌==◌,
  leb, length,
}
use lacsap.Prelude.Int.{ℤ, ltb_ℤ}
use lacsap.Outcome.{Outcome, done, ice, undefined, ◌>>=◌}
use lacsap.Types.Node.{
  Heap, load, kind_eq, type_of, Range, array_decl, string_decl, dyn_array_decl, tk_char, tk_pointer,
  tk_range, tk_dyn_range, tk_string,
}
use lacsap.Types.Compatible.{assignable_type, range_size}
use lacsap.Semantics.State.{
  Expr, expr_type, integer_expr, string_expr, Sema, Known, add_error, error_if, recast, get_range,
}
use lacsap.Semantics.Sets.{update_set_type}
use lacsap.Semantics.Binary.{is_a, is_char_array, is_nil}

-- The constant, if the expression is one
abbrev pub integer_of : Expr → Option ℤ
integer_of (integer_expr t v) = some v
integer_of e = none

-- The length of a constant text
abbrev pub string_length : Expr → Option ℕ
string_length (string_expr t text) = some (length text)
string_length e = none

abbrev pub out_of_range : Range → ℤ → Bool
out_of_range r v = ltb_ℤ v r.start || ltb_ℤ r.last v

module _ (n : ℕ) (size : ℕ → ℕ) (known : Known) where
  -- A constant text for an array of characters, which has to hold it in its only range
  unfoldable pub text_fits : Heap → ℕ → ℕ → Outcome Bool
  unfolding get_range range_size
  text_fits h lty len = do
    t ← load h lty
    elim t [
      | array_decl b (r ∷ []) ↦ (do
        range ← get_range n h r
        elim range [ none ↦ undefined | some range' ↦ done (leb len (range_size range')) ])
      | array_decl b rs ↦ done false
      | other ↦ undefined
    ]

  -- The end of `Check<AssignExprAST>`: `AssignableType`
  unfoldable pub assign_by_type : Expr → Expr → Sema → Outcome (Expr × Sema)
  unfolding recast add_error
  assign_by_type lhs rhs s = do
    c ← assignable_type s.heap size n (expr_type lhs) (expr_type rhs)
    elim c [
      | none ↦ done (rhs, add_error s)
      | some ty ↦ (do rhs' ← recast n s.heap rhs ty; done (rhs', s))
    ]

  -- `Check<AssignExprAST>` after `UpdateSetType`
  unfoldable pub assign_checked : Expr → Expr → Sema → Outcome (Expr × Sema)
  unfolding is_a is_char_array recast get_range add_error text_fits assign_by_type
  assign_checked lhs rhs s = do
    pointer ← is_a s.heap (expr_type lhs) tk_pointer
    ranged ← is_a s.heap (expr_type lhs) tk_range
    dynamic ← is_a s.heap (expr_type lhs) tk_dyn_range
    chars ← is_char_array s.heap (expr_type lhs)
    string ← is_a s.heap (expr_type lhs) tk_string
    let by_type = assign_by_type lhs rhs s in
        if pointer && is_nil rhs
        then (do rhs' ← recast n s.heap rhs (expr_type lhs); done (rhs', s))
        else elim (integer_of rhs) [
          | some v ↦
              if ranged
              then (do
                r ← get_range n s.heap (expr_type lhs)
                elim r [
                  | none ↦ undefined
                  | some range ↦ done (rhs, error_if (out_of_range range v) s)
                ])
              else (if dynamic
                  then (do
                    lk ← type_of n s.heap (expr_type lhs)
                    rk ← type_of n s.heap (expr_type rhs)
                    done (rhs, error_if (not (kind_eq lk rk)) s))
                  else by_type)
          | none ↦ elim (string_length rhs) [
            | some len ↦
                if chars && not string
                then (do
                  fits ← text_fits s.heap (expr_type lhs) len
                  done (rhs, error_if (not fits) s))
                else by_type
            | none ↦ by_type
          ]
        ]

  -- `Check<AssignExprAST>`: the right-hand side after it
  unfoldable pub check_assign : Option Bool → Expr → Expr → Sema → Outcome (Expr × Sema)
  unfolding add_error update_set_type assign_checked
  check_assign none lhs rhs s = done (rhs, add_error s)
  check_assign (some true) lhs rhs s = done (rhs, add_error s)
  check_assign (some false) lhs rhs s = do
    s' ← update_set_type n known (expr_type lhs) (expr_type rhs) s
    assign_checked lhs rhs s'
