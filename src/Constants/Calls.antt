-- ===== src/Constants/Calls.antt =====
-- constants.cpp: calls of the functions that can stand in a constant expression.
use lacsap.Prelude.{ℕ, ◌<◌, arith, List, [], ◌∷◌, Option, none, some, ◌^◌, ◌+◌, ◌≤◌}
use lacsap.Constants.Decl.{
  ConstDecl, int_const, enum_const, char_const, bool_const, Eval, value, null, undefined,
}
use lacsap.Prelude.Int.{pos_part, neg_part}
use lacsap.Constants.Power.{to_int32}
use lacsap.Constants.Functions.{EvaluableFunc, int64_of}

-- A result that is neither undefined behaviour nor an internal error
abbrev pub IsDefined : {A : Type 0} → Eval A → Type 0
IsDefined (value _) = Unit
IsDefined null = Unit
IsDefined undefined = ⊥

-- An integer whose amount, as an `int64_t`, is below 2^63 - 2^31
abbrev pub InMiddle : ℕ → Type 0
InMiddle v = pos_part (int64_of v) + neg_part (int64_of v) + 2 ^ 31 < 2 ^ 63

-- A constant that has an ordinal number, which a step of 32 bits does not take over the ends
abbrev pub IsOrdinal : {R Ty E : Type 0} → ConstDecl R Ty E → Type 0
IsOrdinal (int_const _ v) = InMiddle v
IsOrdinal (enum_const _ _ v) = InMiddle v
IsOrdinal (char_const _ _) = Unit
IsOrdinal (bool_const _ _) = Unit
IsOrdinal _ = ⊥

abbrev pub AreOrdinal : {R Ty E : Type 0} → List (ConstDecl R Ty E) → Type 0
AreOrdinal [] = Unit
AreOrdinal (c ∷ cs) = IsOrdinal c × AreOrdinal cs

module _ (R Ty E : Type 0) where
  -- A call with an ordinal first argument, and ordinal others, is defined.
  IsSafe : (List (ConstDecl R Ty E) → Eval (ConstDecl R Ty E)) → Type 0
  IsSafe f =
      (c : ConstDecl R Ty E) (cs : List (ConstDecl R Ty E)) → IsOrdinal c → IsDefined (f (c ∷ cs))

  -- The step is an `int`.
  pub small_step : (n : ℕ) → pos_part (to_int32 n) + neg_part (to_int32 n) ≤ 2 ^ 31
  unfolding to_int32
  small_step n = ground arith

  IsSafeRow : EvaluableFunc R Ty E → Type 0
  IsSafeRow f = 0 < f.min_args × IsSafe f.func

  AllSafe : List (EvaluableFunc R Ty E) → Type 0
  AllSafe [] = Unit
  AllSafe (f ∷ fs) = IsSafeRow f × AllSafe fs

  FoundSafe : Option (EvaluableFunc R Ty E) → Type 0
  FoundSafe none = Unit
  FoundSafe (some f) = IsSafeRow f
