-- ===== src/Semantics/Statements.antt =====
-- semantics.cpp: the checks of conditions, of for, case, read and write statements, and of constant
-- arrays.
pub mod Labels
use lacsap.Prelude.{
  ℕ, zero, suc, ◌+◌, ◌-◌, Bool, true, false, not, ◌&&◌, ◌||◌, Option, none, some, List, [], ◌∷◌,
  ◌++◌, if◌then◌else◌, ◌==◌, length,
}
use lacsap.Prelude.Int.{ℤ, pos, negsuc, leb_ℤ, eq_ℤ}
use lacsap.Outcome.{Outcome, done, out_of_fuel, undefined, ◌>>=◌}
use lacsap.Types.Fields.{is_some}
use lacsap.Types.Node.{
  Heap, load, TypeDecl, kind_eq, type_of, set_decl, array_decl, string_decl, file_decl, text_decl,
  tk_boolean, tk_integer, tk_real, tk_string, tk_text, tk_file, tk_array,
}
use lacsap.Types.Compatible.{compatible_type, assignable_type, is_integral, is_compound}
use lacsap.Semantics.State.{Expr, expr_type, Sema, add_error, error_if, recast}
use lacsap.Semantics.Binary.{is_a, is_char_array}

-- An expression with what the checks ask of its class: `AddressableAST` or `ClosureAST`,
-- `VariableExprAST`, `RangeExprAST`, `RangeReduceAST` or `RangeCheckAST`
pub record Arg : Type 0 where
  pub value : Expr
  pub addressable : Bool
  pub variable : Bool
  pub is_range : Bool
  pub reduced : Bool

abbrev pub arg_type : Arg → ℕ
arg_type a = expr_type a.value

-- The checks of the conditions of while, repeat and if statements
unfoldable pub check_condition : Expr → Sema → Outcome Sema
unfolding is_a add_error
check_condition cond s = do
  boolean ← is_a s.heap (expr_type cond) tk_boolean
  done (error_if (not boolean) s)

-- `==` of `std::pair<int, int>`, and `std::find`
unfoldable pub same_label : ℤ × ℤ → ℤ × ℤ → Bool
same_label a b = eq_ℤ a.0 b.0 && eq_ℤ a.1 b.1

unfoldable pub found : ℤ × ℤ → List (ℤ × ℤ) → Bool
unfolding same_label
found i [] = false
found i (v ∷ vals) = same_label v i || found i vals

-- The inner loop of `Check<CaseExprAST>` over the values of a label
unfoldable pub check_labels : List (ℤ × ℤ) → List (ℤ × ℤ) → Sema → List (ℤ × ℤ) × Sema
unfolding found add_error
check_labels [] vals s = (vals, s)
check_labels (i ∷ rest) vals s = check_labels rest (vals ++ i ∷ []) (error_if (found i vals) s)

-- The loop over the labels
unfoldable pub check_all_labels : List (List (ℤ × ℤ)) → List (ℤ × ℤ) → Sema → List (ℤ × ℤ) × Sema
unfolding check_labels
check_all_labels [] vals s = (vals, s)
check_all_labels (l ∷ ls) vals s =
    let (vals', s') = check_labels l vals s in check_all_labels ls vals' s'

-- `ArrayInit`
pub data ArrayInit : Type 0 where
  range_init : ℤ → ℤ → ArrayInit
  single_init : ℤ → ArrayInit
  otherwise_init : ArrayInit

-- `std::find` of an index, and `CheckDups`
abbrev pub found_index : ℤ → List ℤ → Bool
found_index x [] = false
found_index x (i ∷ is) = eq_ℤ i x || found_index x is

-- `i + 1`
abbrev pub next_ℤ : ℤ → ℤ
next_ℤ (pos n) = pos (suc n)
next_ℤ (negsuc zero) = pos 0
next_ℤ (negsuc (suc n)) = negsuc n

-- `CheckDups (x); indices.push_back (x);`
abbrev pub add_index : ℤ → List ℤ × Sema → List ℤ × Sema
add_index x (indices, s) = (indices ++ x ∷ [], error_if (found_index x indices) s)

-- The loop over a range of indices, on fuel
unfoldable pub check_index_range : ℕ → ℤ → ℤ → List ℤ × Sema → Outcome (List ℤ × Sema)
unfolding add_error
check_index_range zero i last st = out_of_fuel
check_index_range (suc n) i last st =
    let rest = check_index_range n (next_ℤ i) last (add_index i st) in
    if leb_ℤ i last then rest else done st

-- `Check<InitArrayAST>`
unfoldable pub check_init_array :
    ℕ → List ArrayInit → Bool → List ℤ × Sema → Outcome (List ℤ × Sema)
unfolding check_index_range add_error
check_init_array n [] has_otherwise st = done st
check_init_array n (range_init a b ∷ vs) has_otherwise st =
    check_index_range n a b st >>= check_init_array n vs has_otherwise
check_init_array n (single_init a ∷ vs) has_otherwise st =
    check_init_array n vs has_otherwise (add_index a st)
check_init_array n (otherwise_init ∷ vs) has_otherwise (indices, s) =
    check_init_array n vs true (indices, error_if has_otherwise s)

-- An argument of `Write`, with its width and its precision
pub record WriteArg : Type 0 where
  pub expr : Expr
  pub width : Option Expr
  pub precision : Option Expr

-- Is an expression, if there is one, of another type than an integer?
abbrev pub no_integer : Heap → Option Expr → Outcome Bool
unfolding is_a
no_integer h none = done false
no_integer h (some e) = is_a h (expr_type e) tk_integer >>= λ i. done (not i)

module _ (n : ℕ) (size : ℕ → ℕ) where
  -- `IsIntegral` of a type
  abbrev pub is_integral_type : ℕ → Heap → ℕ → Outcome Bool
  unfolding is_integral
  is_integral_type f h ty = type_of f h ty >>= λ k. done (is_integral k)

  -- `Check<CaseExprAST>`
  unfoldable pub check_case : Expr → List (List (ℤ × ℤ)) → Sema → Outcome Sema
  unfolding is_integral add_error check_all_labels
  check_case selector labels s = do
    k ← type_of n s.heap (expr_type selector)
    done ((check_all_labels labels [] (error_if (not (is_integral k)) s)).1)

  -- A bound of a for loop, cast to the type that `AssignableType` gives; `true` where there is none
  unfoldable pub for_bound : Expr → ℕ → Sema → Outcome (Bool × Expr)
  unfolding assignable_type recast
  for_bound e vty s = do
    c ← assignable_type s.heap size n (expr_type e) vty
    elim c [ none ↦ done (true, e) | some ty ↦ (do e' ← recast n s.heap e ty; done (false, e')) ]

  -- The part of `Check<ForExprAST>` for a loop over a set or an array
  unfoldable pub check_for_in : ℕ → Expr → Sema → Outcome Sema
  unfolding compatible_type add_error
  check_for_in vty start s = do
    t ← load s.heap (expr_type start)
    elim t [
      | set_decl r b ↦ (do
        c ← compatible_type s.heap size n b vty
        done (error_if (not (is_some c)) s))
      | array_decl b rs ↦ (do
        c ← compatible_type s.heap size n b vty
        done (error_if (not (is_some c)) (error_if (not (length rs == 1)) s)))
      | string_decl b rs ↦ (do
        c ← compatible_type s.heap size n b vty
        done (error_if (not (is_some c)) (error_if (not (length rs == 1)) s)))
      | other ↦ done (add_error s)
    ]

  -- `Check<ForExprAST>`: the start and the end after it
  unfoldable pub check_for : ℕ → Expr → Option Expr → Sema → Outcome (Expr × Option Expr × Sema)
  unfolding is_integral add_error for_bound check_for_in
  check_for vty start none s = do s' ← check_for_in vty start s; done (start, none, s')
  check_for vty start (some last) s = do
    k ← type_of n s.heap vty
    if not (is_integral k) then done (start, some last, add_error s) else (do
      (bad_start, start') ← for_bound start vty s
      (bad_end, last') ← for_bound last vty s
      done (start', some last', error_if (bad_start || bad_end) s))

  -- `llvm::isa<FileDecl>`, which takes text files too
  unfoldable pub is_file : Heap → ℕ → Outcome Bool
  unfolding is_a
  is_file h p = do f ← is_a h p tk_file; t ← is_a h p tk_text; done (f || t)

  -- The test of the first argument: a string, or a file that is a text file for `ReadLn` or `WriteLn`
  unfoldable pub check_stream : Bool → Bool → ℕ → Sema → Outcome (Bool × Sema)
  unfolding is_a is_file add_error
  check_stream to_string to_line ty s = do
    text ← is_a s.heap ty tk_text
    string ← is_a s.heap ty tk_string
    file ← is_file s.heap ty
    let is_text = to_string || text
    done (
      is_text,
      if to_string
          then error_if (not string) s
          else error_if (not is_text && to_line) (error_if (not file) s),
    )

  -- `llvm::isa<ArrayDecl>`
  abbrev pub is_array : Heap → ℕ → Outcome Bool
  unfolding is_a
  is_array h p = is_a h p tk_array >>= λ a. is_a h p tk_string >>= λ b. done (a || b)

  -- An argument of `Read` from a text
  unfoldable pub check_read_text : Arg → Sema → Outcome Sema
  unfolding is_compound is_a is_char_array add_error is_array
  check_read_text a s = do
    let s₁ = error_if (not a.addressable) s
    k ← type_of n s.heap (arg_type a)
    array ← is_array s.heap (arg_type a)
    chars ← is_char_array s.heap (arg_type a)
    string ← is_a s.heap (arg_type a) tk_string
    done (error_if (is_compound k && not (array && (chars || string))) s₁)

  unfoldable pub check_read_texts : List Arg → Sema → Outcome Sema
  unfolding check_read_text
  check_read_texts [] s = done s
  check_read_texts (a ∷ rest) s = check_read_text a s >>= check_read_texts rest

  -- Is the element of the file assignable from the type of the argument?
  unfoldable pub element_fits : ℕ → ℕ → Sema → Outcome Bool
  unfolding assignable_type
  element_fits file ty s = do
    t ← load s.heap file
    elim t [
      | file_decl b ↦ (do c ← assignable_type s.heap size n b ty; done (is_some c))
      | text_decl b ↦ (do c ← assignable_type s.heap size n b ty; done (is_some c))
      | other ↦ done false
    ]

  -- `Check<ReadAST>`, by whether it is `ReadStr`, and whether it is `ReadLn`
  unfoldable pub check_read : Bool → Bool → ℕ → List Arg → Sema → Outcome Sema
  unfolding check_stream check_read_texts add_error element_fits
  check_read from_string to_line src args s = do
    (is_text, s₁) ← check_stream from_string to_line src s
    if is_text then check_read_texts args s₁ else elim args [
      | [] ↦ done (add_error s₁)
      | a ∷ rest ↦ elim rest [
        | _ ∷ _ ↦ done (add_error s₁)
        | [] ↦
            if not a.variable
            then done (add_error s₁)
            else (do fits ← element_fits src (arg_type a) s₁; done (error_if (not fits) s₁))
      ]
    ]

  -- An argument of `Write` to a text
  unfoldable pub check_write_text : WriteArg → Sema → Outcome Sema
  unfolding is_compound is_a is_char_array add_error no_integer
  check_write_text a s = do
    k ← type_of n s.heap (expr_type a.expr)
    chars ← is_char_array s.heap (expr_type a.expr)
    string ← is_a s.heap (expr_type a.expr) tk_string
    real ← is_a s.heap (expr_type a.expr) tk_real
    s₁ ←
        if is_compound k
        then done (error_if (not (chars || string)) s)
        else (if is_some a.precision && not real
            then done (add_error s)
            else (do bad ← no_integer s.heap a.precision; done (error_if bad s)))
    bad_width ← no_integer s.heap a.width
    done (error_if bad_width s₁)

  unfoldable pub check_write_texts : List WriteArg → Sema → Outcome Sema
  unfolding check_write_text
  check_write_texts [] s = done s
  check_write_texts (a ∷ rest) s = check_write_text a s >>= check_write_texts rest

  -- `Check<WriteAST>`, by whether it is `WriteStr`, and whether it is `WriteLn`
  unfoldable pub check_write : Bool → Bool → ℕ → List WriteArg → Sema → Outcome Sema
  unfolding check_stream check_write_texts add_error element_fits
  check_write to_string to_line dest args s = do
    (is_text, s₁) ← check_stream to_string to_line dest s
    if is_text then check_write_texts args s₁ else elim args [
      | [] ↦ done (add_error s₁)
      | a ∷ rest ↦
          if not (length rest == 0) || (is_some a.width || is_some a.precision)
          then done (add_error s₁)
          else (do fits ← element_fits dest (expr_type a.expr) s₁; done (error_if (not fits) s₁))
    ]
