-- ===== src/Parser/ConstEval.antt =====
-- parser.cpp: `ParseConstEval`, and the constants and functions that a name stands for.
use lacsap.Prelude.{
  ℕ, Bool, List, [], ◌∷◌, Option, none, some, ltb, ◌||◌, if◌then◌else◌, Text, length,
}
use lacsap.Outcome.{Outcome, done, undefined}
use lacsap.Token.{TokenType}
use lacsap.Stack.{Stack, find}
use lacsap.Constants.{
  ConstDecl, int_const, Eval, value, null, Floats, to_real_const_decl, plus_const, minus_const,
  times_const, over_const, mod_const, and_const, or_const, xor_const, shl_const, shr_const,
  pow_const, power_const, EvaluableFunc, find_evaluable_func, eval_function, step_of,
}
use lacsap.Parser.Stream.{Parser, error}

-- What a name stands for: a `ConstDef`, an `EnumDef`, a `VarDef`, or any other `NamedObject`
pub data NamedObject (R Ty E : Type 0) : Type 0 where
  const_def : ConstDecl R Ty E → NamedObject R Ty E
  enum_def : Ty → ℕ → NamedObject R Ty E
  var_def : NamedObject R Ty E
  other_object : NamedObject R Ty E

-- What the parser of constants takes from the types and from the rest of the parser.
pub record Types (R Ty E Lx : Type 0) : Type 0 where
  -- `isa<BoolDecl>`
  pub is_bool : Ty → Bool
  -- `Type()` of a constant, and whether two pointers to types are the same
  pub type_of : ConstDecl R Ty E → Ty
  pub same_type : Ty → Ty → Bool
  -- `new SetDecl(0, type)`, with the null pointer for an empty set
  pub set_decl : Option Ty → Ty
  -- `GetTypeFromExpression`, and `Size` after `EnsureSized`
  pub type_from_expression : Parser R Lx → Outcome (Option Ty × Parser R Lx)
  pub size : Ty → ℕ

module _ {R Ty E : Type 0} where
  -- The constant that `GetConstDecl` finds
  unfoldable pub get_const_decl :
      Bool → Stack (NamedObject R Ty E) → Text → Option (ConstDecl R Ty E)
  get_const_decl ci names name = elim (find ci name names) [
    | none ↦ none
    | some (const_def c) ↦ some c
    | some (enum_def _ _) ↦ none
    | some _ ↦ none
  ]

  -- The value of an enumeration that `GetEnumValue` finds
  unfoldable pub get_enum_value : Bool → Stack (NamedObject R Ty E) → Text → Option (Ty × ℕ)
  get_enum_value ci names name = elim (find ci name names) [
    | none ↦ none
    | some (const_def _) ↦ none
    | some (enum_def ty v) ↦ some (ty, v)
    | some _ ↦ none
  ]

  -- The constants of a list of pointers, if none is null
  abbrev pub no_nulls : List (Option (ConstDecl R Ty E)) → Option (List (ConstDecl R Ty E))
  no_nulls [] = some []
  no_nulls (none ∷ _) = none
  no_nulls (some c ∷ cs) = elim (no_nulls cs) [ none ↦ none | some ds ↦ some (c ∷ ds) ]

  -- A function on a list with a null pointer in it: only a second argument that is refused is seen
  -- before the null pointer is used.
  abbrev null_args : List (Option (ConstDecl R Ty E)) → Eval (ConstDecl R Ty E)
  null_args (none ∷ some c ∷ []) = elim (step_of (c ∷ [])) [
    | value _ ↦ Eval.undefined
    | null ↦ null
    | Eval.undefined ↦ Eval.undefined
  ]
  null_args _ = Eval.undefined

  abbrev call_with_nulls :
      Option (EvaluableFunc R Ty E) → List (Option (ConstDecl R Ty E)) → Eval (ConstDecl R Ty E)
  call_with_nulls none args = Eval.undefined
  call_with_nulls (some f) args =
      if ltb (length args) f.min_args || ltb f.max_args (length args) then null else null_args args

  -- `EvalFunction` on pointers
  unfoldable pub eval_pointers :
      Floats R → Text → List (Option (ConstDecl R Ty E)) → Eval (ConstDecl R Ty E)
  unfolding find_evaluable_func eval_function step_of
  eval_pointers F name args = elim (no_nulls args) [
    | none ↦ call_with_nulls (find_evaluable_func F name) args
    | some cs ↦ eval_function F name cs
  ]

module _ {R Ty E Lx : Type 0} where
  -- A result of the constants, with the parser as it is
  unfoldable pub evaluated :
      Eval (ConstDecl R Ty E) → Parser R Lx → Outcome (Option (ConstDecl R Ty E) × Parser R Lx)
  evaluated (value c) p = done (some c, p)
  evaluated null p = done (none, p)
  evaluated Eval.undefined p = undefined

module _ {R Ty E Lx : Type 0} (F : Floats R) where
  -- "div" on two integers, else the message
  const_div :
      ConstDecl R Ty E
      → ConstDecl R Ty E
      → Parser R Lx
      → Outcome (Option (ConstDecl R Ty E) × Parser R Lx)
  unfolding evaluated over_const error
  const_div (int_const w a) (int_const w' b) p =
      evaluated (over_const F (int_const w a) (int_const w' b)) p
  const_div _ _ p = error p

  -- "/" on what `ToRealConstDecl` gave, else the code of "div", into which it falls through
  const_divide :
      Eval (ConstDecl R Ty E)
      → Eval (ConstDecl R Ty E)
      → Outcome (Option (ConstDecl R Ty E) × Parser R Lx)
      → Parser R Lx
      → Outcome (Option (ConstDecl R Ty E) × Parser R Lx)
  unfolding evaluated over_const
  const_divide (value l) (value r) next p = evaluated (over_const F l r) p
  const_divide _ _ next p = next

  const_pow :
      ConstDecl R Ty E
      → ConstDecl R Ty E
      → Parser R Lx
      → Outcome (Option (ConstDecl R Ty E) × Parser R Lx)
  unfolding evaluated pow_const error
  const_pow lhs (int_const w y) p = evaluated (pow_const F lhs (int_const w y)) p
  const_pow _ _ p = error p

  -- `ParseConstEval`
  unfoldable pub parse_const_eval :
      ConstDecl R Ty E
      → TokenType
      → ConstDecl R Ty E
      → Parser R Lx
      → Outcome (Option (ConstDecl R Ty E) × Parser R Lx)
  unfolding evaluated const_div const_divide const_pow to_real_const_decl plus_const minus_const
      times_const mod_const and_const or_const xor_const shl_const shr_const power_const
  parse_const_eval lhs TokenType.plus rhs p = evaluated (plus_const F lhs rhs) p
  parse_const_eval lhs TokenType.minus rhs p = evaluated (minus_const F lhs rhs) p
  parse_const_eval lhs TokenType.multiply rhs p = evaluated (times_const F lhs rhs) p
  parse_const_eval lhs TokenType.divide rhs p =
      const_divide (to_real_const_decl F lhs) (to_real_const_decl F rhs) (const_div lhs rhs p) p
  parse_const_eval lhs TokenType.div rhs p = const_div lhs rhs p
  parse_const_eval lhs TokenType.mod_kw rhs p = evaluated (mod_const lhs rhs) p
  parse_const_eval lhs TokenType.and rhs p = evaluated (and_const lhs rhs) p
  parse_const_eval lhs TokenType.or rhs p = evaluated (or_const lhs rhs) p
  parse_const_eval lhs TokenType.xor rhs p = evaluated (xor_const lhs rhs) p
  parse_const_eval lhs TokenType.shl rhs p = evaluated (shl_const lhs rhs) p
  parse_const_eval lhs TokenType.shr rhs p = evaluated (shr_const lhs rhs) p
  parse_const_eval lhs TokenType.pow rhs p = const_pow lhs rhs p
  parse_const_eval lhs TokenType.power rhs p = evaluated (power_const F lhs rhs) p
  parse_const_eval lhs _ rhs p = done (none, p)
