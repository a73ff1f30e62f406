-- ===== src/Constants/Arith.antt =====
-- constants.cpp: the operators on constants.
use Prim.Native.Nat.{bit_and, bit_or, bit_xor}
use lacsap.Prelude.{
  ℕ, ◌+◌, ◌-◌, ◌*◌, ◌/◌, ◌%◌, ◌^◌, [], ◌∷◌, ◌++◌, Option, none, some, ltb, ◌==◌, if◌then◌else◌,
  Text,
}
use lacsap.Constants.Decl.{
  ConstDecl, int_const, real_const, char_const, string_const, Eval, value, null, undefined, Floats,
  no_location,
}

abbrev pub u64 : ℕ
u64 = 2 ^ 64

module _ {R Ty E : Type 0} where
  -- `GetAsReal`: the two values, left first, if it succeeds
  unfoldable pub get_as_real : Floats R → ConstDecl R Ty E → ConstDecl R Ty E → Option (R × R)
  get_as_real F (real_const _ l) (real_const _ r) = some (l, r)
  get_as_real F (real_const _ l) (int_const _ r) = some (l, F.of_uint64 r)
  get_as_real F (int_const _ l) (real_const _ r) = some (F.of_uint64 l, r)
  get_as_real F _ _ = none

  -- `GetAsString`: a character stands for the text of it.
  unfoldable pub get_as_string : ConstDecl R Ty E → ConstDecl R Ty E → Option (Text × Text)
  get_as_string (string_const _ l) (string_const _ r) = some (l, r)
  get_as_string (string_const _ l) (char_const _ r) = some (l, r ∷ [])
  get_as_string (char_const _ l) (string_const _ r) = some (l ∷ [], r)
  get_as_string _ _ = none

  -- `ErrorConst`: the message is written, and the pointer is null.
  abbrev pub error_const : Eval (ConstDecl R Ty E)
  error_const = null

  -- A pointer that is null hands over to what is tried next.
  abbrev pub if_null : Eval (ConstDecl R Ty E) → Eval (ConstDecl R Ty E) → Eval (ConstDecl R Ty E)
  if_null (value c) next = value c
  if_null null next = next
  if_null undefined next = undefined

  real_result : (R → R → R) → Option (R × R) → Eval (ConstDecl R Ty E)
  real_result fn none = null
  real_result fn (some (l, r)) = value (real_const no_location (fn l r))

  -- `DoRealMath`
  unfoldable pub do_real_math :
      Floats R → ConstDecl R Ty E → ConstDecl R Ty E → (R → R → R) → Eval (ConstDecl R Ty E)
  unfolding get_as_real real_result
  do_real_math F lhs rhs fn = real_result fn (get_as_real F lhs rhs)

  abbrev int_result : Eval ℕ → Eval (ConstDecl R Ty E)
  int_result (value v) = value (int_const no_location v)
  int_result null = null
  int_result undefined = undefined

  -- `DoIntegerMath`
  unfoldable pub do_integer_math :
      ConstDecl R Ty E → ConstDecl R Ty E → (ℕ → ℕ → Eval ℕ) → Eval (ConstDecl R Ty E)
  do_integer_math (int_const _ l) (int_const _ r) fn = int_result (fn l r)
  do_integer_math _ _ fn = null

  string_result : Option (Text × Text) → Eval (ConstDecl R Ty E)
  string_result none = error_const
  string_result (some (l, r)) = value (string_const no_location (l ++ r))

-- The lambdas of the operators, on `uint64_t`
abbrev pub add64 : ℕ → ℕ → Eval ℕ
add64 l r = value ((l + r) % u64)

abbrev pub sub64 : ℕ → ℕ → Eval ℕ
sub64 l r = value ((l + u64 - r) % u64)

abbrev pub mul64 : ℕ → ℕ → Eval ℕ
mul64 l r = value (l * r % u64)

abbrev pub div64 : ℕ → ℕ → Eval ℕ
div64 l r = if r == 0 then undefined else value (l / r)

abbrev pub mod64 : ℕ → ℕ → Eval ℕ
mod64 l r = if r == 0 then undefined else value (l % r)

abbrev pub shl64 : ℕ → ℕ → Eval ℕ
shl64 l r = if ltb r 64 then value (l * 2 ^ r % u64) else undefined

abbrev pub shr64 : ℕ → ℕ → Eval ℕ
shr64 l r = if ltb r 64 then value (l / 2 ^ r) else undefined

module _ {R Ty E : Type 0} (F : Floats R) where
  -- `operator+`: the numeric attempts take the operands the other way round.
  unfoldable pub plus_const : ConstDecl R Ty E → ConstDecl R Ty E → Eval (ConstDecl R Ty E)
  unfolding do_real_math do_integer_math get_as_string string_result
  plus_const lhs rhs =
      if_null (do_real_math F rhs lhs F.add)
        (if_null (do_integer_math rhs lhs add64) (string_result (get_as_string lhs rhs)))

  -- `operator-`
  unfoldable pub minus_const : ConstDecl R Ty E → ConstDecl R Ty E → Eval (ConstDecl R Ty E)
  unfolding do_real_math do_integer_math
  minus_const lhs rhs =
      if_null (do_real_math F lhs rhs F.sub) (if_null (do_integer_math lhs rhs sub64) error_const)

  -- `operator*`
  unfoldable pub times_const : ConstDecl R Ty E → ConstDecl R Ty E → Eval (ConstDecl R Ty E)
  unfolding do_real_math do_integer_math
  times_const lhs rhs =
      if_null (do_real_math F lhs rhs F.mul) (if_null (do_integer_math lhs rhs mul64) error_const)

  -- `operator/`
  unfoldable pub over_const : ConstDecl R Ty E → ConstDecl R Ty E → Eval (ConstDecl R Ty E)
  unfolding do_real_math do_integer_math
  over_const lhs rhs =
      if_null (do_real_math F lhs rhs F.quot) (if_null (do_integer_math lhs rhs div64) error_const)

module _ {R Ty E : Type 0} where
  -- `IntegerOrErrorMath`
  unfoldable pub integer_or_error_math :
      ConstDecl R Ty E → ConstDecl R Ty E → (ℕ → ℕ → Eval ℕ) → Eval (ConstDecl R Ty E)
  unfolding do_integer_math
  integer_or_error_math lhs rhs fn = if_null (do_integer_math lhs rhs fn) error_const

  -- `operator%`
  unfoldable pub mod_const : ConstDecl R Ty E → ConstDecl R Ty E → Eval (ConstDecl R Ty E)
  unfolding integer_or_error_math
  mod_const lhs rhs = integer_or_error_math lhs rhs mod64

  -- `operator&`
  unfoldable pub and_const : ConstDecl R Ty E → ConstDecl R Ty E → Eval (ConstDecl R Ty E)
  unfolding integer_or_error_math
  and_const lhs rhs = integer_or_error_math lhs rhs (λ l r. value (bit_and l r))

  -- `operator|`
  unfoldable pub or_const : ConstDecl R Ty E → ConstDecl R Ty E → Eval (ConstDecl R Ty E)
  unfolding integer_or_error_math
  or_const lhs rhs = integer_or_error_math lhs rhs (λ l r. value (bit_or l r))

  -- `operator^`
  unfoldable pub xor_const : ConstDecl R Ty E → ConstDecl R Ty E → Eval (ConstDecl R Ty E)
  unfolding integer_or_error_math
  xor_const lhs rhs = integer_or_error_math lhs rhs (λ l r. value (bit_xor l r))

  -- `operator<<`
  unfoldable pub shl_const : ConstDecl R Ty E → ConstDecl R Ty E → Eval (ConstDecl R Ty E)
  unfolding integer_or_error_math
  shl_const lhs rhs = integer_or_error_math lhs rhs shl64

  -- `operator>>`
  unfoldable pub shr_const : ConstDecl R Ty E → ConstDecl R Ty E → Eval (ConstDecl R Ty E)
  unfolding integer_or_error_math
  shr_const lhs rhs = integer_or_error_math lhs rhs shr64
