-- ===== src/Constants/Functions.antt =====
-- constants.cpp: the functions that can be called in a constant expression.
use Prim.Native.String.{String}
use lacsap.Prelude.{
  ℕ, ◌+◌, ◌-◌, ◌%◌, ◌^◌, Bool, true, false, ◌||◌, List, [], ◌∷◌, Option, none, some, ltb,
  if◌then◌else◌, Text, codes, strlower, text_eq, length,
}
use lacsap.Prelude.Int.{ℤ, pos, negsuc, pos_part, neg_part, sub_ℕ}
use lacsap.Constants.Decl.{
  ConstDecl, int_const, enum_const, real_const, char_const, bool_const, string_const, Eval, value,
  null, undefined, Floats, loc_of, to_int, ◌>>=◌,
}
use lacsap.Constants.Arith.{u64, error_const}
use lacsap.Constants.Power.{to_int32}

module _ {R Ty E : Type 0} where
  -- `UpdateValueSameType`
  unfoldable pub update_value_same_type : ConstDecl R Ty E → (ℕ → Eval ℕ) → Eval (ConstDecl R Ty E)
  update_value_same_type (int_const w v) func = func v >>= λ x. value (int_const w x)
  update_value_same_type (enum_const ty w v) func = func v >>= λ x. value (enum_const ty w x)
  update_value_same_type _ func = null

  -- The step of "succ" and "pred": the second argument, or 1
  unfoldable pub step_of : List (ConstDecl R Ty E) → Eval ℤ
  step_of [] = value (to_int32 1)
  step_of (int_const _ n ∷ _) = value (to_int32 n)
  step_of _ = null

-- The `int64_t` of a `uint64_t`
abbrev pub int64_of : ℕ → ℤ
int64_of v = if ltb v (2 ^ 63) then pos v else negsuc (u64 - 1 - v)

-- The `uint64_t` of a result on `int64_t`, whose overflow is undefined
unfoldable pub in_int64 : ℤ → Eval ℕ
in_int64 (pos x) = if ltb x (2 ^ 63) then value x else undefined
in_int64 (negsuc x) = if ltb x (2 ^ 63) then value (u64 - 1 - x) else undefined

-- `v + n` and `v - n` on `int64_t`
unfoldable pub add_int : ℤ → ℕ → Eval ℕ
unfolding in_int64
add_int n v =
    in_int64 (sub_ℕ (pos_part (int64_of v) + pos_part n) (neg_part (int64_of v) + neg_part n))

unfoldable pub sub_int : ℤ → ℕ → Eval ℕ
unfolding in_int64
sub_int n v =
    in_int64 (sub_ℕ (pos_part (int64_of v) + neg_part n) (neg_part (int64_of v) + pos_part n))

module _ {R Ty E : Type 0} where
  -- `args[0]` on no argument is undefined, in each of these.
  unfoldable pub chr_func : List (ConstDecl R Ty E) → Eval (ConstDecl R Ty E)
  chr_func [] = undefined
  chr_func (int_const w v ∷ _) = value (char_const w (v % 256))
  chr_func _ = null

  unfoldable pub succ_func : List (ConstDecl R Ty E) → Eval (ConstDecl R Ty E)
  unfolding update_value_same_type step_of add_int
  succ_func [] = undefined
  succ_func (c ∷ more) = step_of more >>= λ n. update_value_same_type c (add_int n)

  unfoldable pub pred_func : List (ConstDecl R Ty E) → Eval (ConstDecl R Ty E)
  unfolding update_value_same_type step_of sub_int
  pred_func [] = undefined
  pred_func (c ∷ more) = step_of more >>= λ n. update_value_same_type c (sub_int n)

  unfoldable pub ord_func : List (ConstDecl R Ty E) → Eval (ConstDecl R Ty E)
  unfolding loc_of to_int
  ord_func [] = undefined
  ord_func (c ∷ _) = to_int c >>= λ v. value (int_const (loc_of c) v)

  unfoldable pub length_func : List (ConstDecl R Ty E) → Eval (ConstDecl R Ty E)
  length_func [] = undefined
  length_func (string_const w s ∷ _) = value (int_const w (length s))
  length_func _ = null

  unfoldable pub odd_func : List (ConstDecl R Ty E) → Eval (ConstDecl R Ty E)
  odd_func [] = undefined
  odd_func (int_const w v ∷ _) = value (bool_const w (v % 2))
  odd_func _ = null

  -- "sin", "cos", "ln", "exp", "frac" and "int", which give a real for a real
  unfoldable pub real_func : (R → R) → List (ConstDecl R Ty E) → Eval (ConstDecl R Ty E)
  real_func fn [] = undefined
  real_func fn (real_const w r ∷ _) = value (real_const w (fn r))
  real_func fn _ = null

  -- "trunc" and "round", which give an integer for a real
  unfoldable pub real_to_int_func : (R → ℕ) → List (ConstDecl R Ty E) → Eval (ConstDecl R Ty E)
  real_to_int_func fn [] = undefined
  real_to_int_func fn (real_const w r ∷ _) = value (int_const w (fn r))
  real_to_int_func fn _ = null

-- `EvaluableFunc`
pub record EvaluableFunc (R Ty E : Type 0) : Type 0 where
  pub name : Text
  pub min_args : ℕ
  pub max_args : ℕ
  pub func : List (ConstDecl R Ty E) → Eval (ConstDecl R Ty E)

module _ {R Ty E : Type 0} (F : Floats R) where
  abbrev row :
      String → ℕ → ℕ → (List (ConstDecl R Ty E) → Eval (ConstDecl R Ty E)) → EvaluableFunc R Ty E
  row n lo hi f = record { name = codes n; min_args = lo; max_args = hi; func = f }

  -- `evaluableFunctions`
  unfoldable pub evaluable_functions : List (EvaluableFunc R Ty E)
  evaluable_functions =
      row "chr" 1 1 chr_func
      ∷ row "succ" 1 2 succ_func
      ∷ row "pred" 1 2 pred_func
      ∷ row "ord" 1 1 ord_func
      ∷ row "length" 1 1 length_func
      ∷ row "sin" 1 1 (real_func F.sin)
      ∷ row "cos" 1 1 (real_func F.cos)
      ∷ row "ln" 1 1 (real_func F.log)
      ∷ row "exp" 1 1 (real_func F.exp)
      ∷ row "frac" 1 1 (real_func F.frac)
      ∷ row "int" 1 1 (real_func (λ r. F.copysign (F.floor (F.fabs r)) r))
      ∷ row "trunc" 1 1 (real_to_int_func F.to_int64)
      ∷ row "round" 1 1 (real_to_int_func (λ r. F.to_int64 (F.round r)))
      ∷ row "odd" 1 1 odd_func
      ∷ []

module _ {R Ty E : Type 0} where
  -- `std::find_if`
  unfoldable pub find_func : Text → List (EvaluableFunc R Ty E) → Option (EvaluableFunc R Ty E)
  find_func name [] = none
  find_func name (f ∷ fs) = if text_eq name f.name then some f else find_func name fs

module _ {R Ty E : Type 0} (F : Floats R) where
  -- `FindEvaluableFunc`
  unfoldable pub find_evaluable_func : Text → Option (EvaluableFunc R Ty E)
  unfolding evaluable_functions find_func
  find_evaluable_func name = find_func (strlower name) (evaluable_functions F)

-- `func->func(args)`, after the test of the number of arguments
unfoldable pub call_func :
    {R Ty E : Type 0}
    → Option (EvaluableFunc R Ty E)
    → List (ConstDecl R Ty E)
    → Eval (ConstDecl R Ty E)
call_func none args = undefined
call_func (some f) args =
    if ltb (length args) f.min_args || ltb f.max_args (length args)
    then error_const
    else f.func args

module _ {R Ty E : Type 0} (F : Floats R) where
  -- `EvalFunction`: the pointer that the search gives is not tested.
  unfoldable pub eval_function : Text → List (ConstDecl R Ty E) → Eval (ConstDecl R Ty E)
  unfolding find_evaluable_func call_func
  eval_function name args = call_func (find_evaluable_func F name) args

abbrev pub found_some {ℓ} : {A : Type ℓ} → Option A → Bool
found_some none = false
found_some (some _) = true

-- `IsEvaluableFunc`
unfoldable pub is_evaluable_func : {R : Type 0} (Ty E : Type 0) → Floats R → Text → Bool
unfolding find_evaluable_func
is_evaluable_func {R} Ty E F name =
    found_some (find_evaluable_func {R = R} {Ty = Ty} {E = E} F name)
