-- ===== src/Semantics/Calls.antt =====
-- semantics.cpp: the checks of indices and of calls.
use lacsap.Prelude.{
  ℕ, Bool, true, false, not, ◌&&◌, ◌||◌, Option, none, some, List, [], ◌∷◌, if◌then◌else◌, ◌==◌,
  length,
}
use lacsap.Outcome.{Outcome, done, ice, undefined, ◌>>=◌}
use lacsap.Types.Fields.{is_some}
use lacsap.Types.Node.{Heap, load, kind_eq, type_of, range_decl, tk_pointer, tk_func_ptr}
use lacsap.Types.Compatible.{compatible_type, assignable_type, is_integral}
use lacsap.Semantics.State.{Expr, Sema, Known, add_error, error_if, recast}
use lacsap.Semantics.Sets.{update_set_type}
use lacsap.Semantics.Binary.{is_a, is_nil}
use lacsap.Semantics.Statements.{Arg, arg_type}

-- An index after the check: as it was, or under a check or a reduction to a range
pub data Index : Type 0 where
  kept : Arg → Index
  range_check : Arg → ℕ → Index
  range_reduce : Arg → ℕ → Index

-- A parameter of a prototype
pub record Param : Type 0 where
  pub param_type : ℕ
  pub is_ref : Bool

-- `dyn_cast<RangeDecl>` of a range of an array, whose null pointer would be used
abbrev is_range_decl : Heap → ℕ → Outcome Bool
is_range_decl h r = load h r >>= λ t. done (elim t [ range_decl r' b ↦ true | other ↦ false ])

module _ (n : ℕ) (size : ℕ → ℕ) (known : Known) (range_checks : Bool) where
  -- The test that the type of an index goes with its range, and the node for the index
  unfoldable pub fit_index : Arg → ℕ → Sema → Outcome (Index × Sema)
  unfolding compatible_type add_error
  fit_index e r s = do
    rk ← type_of n s.heap r
    ek ← type_of n s.heap (arg_type e)
    fits ←
        if kind_eq rk ek
        then done true
        else (compatible_type s.heap size n (arg_type e) r >>= λ c. done (is_some c))
    done (if range_checks then range_check e r else range_reduce e r, error_if (not fits) s)

  -- `Check<DynArrayExprAST>`, and the loop of `Check<ArrayExprAST>` for one index
  unfoldable pub check_dyn_index : Arg → ℕ → Sema → Outcome (Index × Sema)
  unfolding is_integral add_error fit_index
  check_dyn_index e r s = do
    k ← type_of n s.heap (arg_type e)
    let s₁ = error_if (not (is_integral k) || e.is_range) s
    if e.reduced then done (kept e, s₁) else fit_index e r s₁

  unfoldable pub check_index : Arg → ℕ → Sema → Outcome (Index × Sema)
  unfolding is_integral add_error fit_index
  check_index e r s = do
    k ← type_of n s.heap (arg_type e)
    let s₁ = error_if (not (is_integral k) || e.is_range) s
    static ← is_range_decl s.heap r
    if e.reduced then done (kept e, s₁) else (if static then fit_index e r s₁ else undefined)

  -- `Check<ArrayExprAST>`: an index without a range is past the end of `ranges`.
  unfoldable pub check_array : List Arg → List ℕ → Sema → Outcome (List Index × Sema)
  unfolding check_index
  check_array [] rs s = done ([], s)
  check_array (e ∷ es) [] s = undefined
  check_array (e ∷ es) (r ∷ rs) s = do
    (i, s₁) ← check_index e r s
    (is, s₂) ← check_array es rs s₁
    done (i ∷ is, s₂)

  -- An argument for a parameter of a function type: whether it is an error. A function that becomes
  -- a `TrampolineAST` stays as it is here. `matches` is `IsMatchWithoutClosure` or else `operator==` of the two prototypes, none if the argument is
  -- no `FunctionExprAST`.
  module _ (matches : Expr → ℕ → Option Bool) where
    unfoldable pub func_arg_bad : Expr → ℕ → Outcome Bool
    func_arg_bad a ty = elim (matches a ty) [ none ↦ ice | some m ↦ done (not m) ]

    -- An argument that is not assignable: nil for a pointer, or a function
    unfoldable pub other_arg : Param → Arg → Sema → Outcome (Expr × Sema)
    unfolding is_a recast add_error func_arg_bad
    other_arg p a s = do
      pointer ← is_a s.heap p.param_type tk_pointer
      function ← is_a s.heap p.param_type tk_func_ptr
      if pointer && is_nil a.value
          then (do a' ← recast n s.heap a.value p.param_type; done (a', s))
          else (if function
              then (do bad ← func_arg_bad a.value p.param_type; done (a.value, error_if bad s))
              else done (a.value, add_error s))

    -- The loop of `Check<CallExprAST>` for one argument
    unfoldable pub check_arg : Param → Arg → Sema → Outcome (Expr × Sema)
    unfolding update_set_type assignable_type recast add_error other_arg
    check_arg p a s = do
      s₁ ← update_set_type n known p.param_type (arg_type a) s
      c ← assignable_type s₁.heap size n p.param_type (arg_type a)
      elim c [
        | none ↦ other_arg p a s₁
        | some ty ↦
            if p.is_ref && not a.addressable
            then done (a.value, add_error (add_error s₁))
            else (do a' ← recast n s₁.heap a.value ty; done (a', s₁))
      ]

    unfoldable pub check_args : List Param → List Arg → Sema → Outcome (List Expr × Sema)
    unfolding check_arg
    check_args [] args s = done ([], s)
    check_args (p ∷ ps) [] s = done ([], s)
    check_args (p ∷ ps) (a ∷ rest) s = do
      (e, s₁) ← check_arg p a s
      (es, s₂) ← check_args ps rest s₁
      done (e ∷ es, s₂)

    abbrev pub values : List Arg → List Expr
    values [] = []
    values (a ∷ rest) = a.value ∷ values rest

    -- `Check<CallExprAST>`
    unfoldable pub check_call : List Param → List Arg → Sema → Outcome (List Expr × Sema)
    unfolding add_error check_args
    check_call ps args s =
        if not (length args == length ps)
        then done (values args, add_error s)
        else check_args ps args s
