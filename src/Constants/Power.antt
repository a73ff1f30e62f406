-- ===== src/Constants/Power.antt =====
-- constants.cpp: `PowerToInt`, `Pow` and `Power`.
use lacsap.Prelude.{ℕ, zero, suc, ◌-◌, ◌%◌, ◌^◌, Bool, ltb, ◌==◌, if◌then◌else◌}
use lacsap.Prelude.Int.{ℤ, pos, negsuc, ◌*ℤ◌}
use lacsap.Constants.Decl.{
  ConstDecl, int_const, real_const, Eval, value, null, undefined, Floats, to_real_const_decl, ◌>>=◌,
}

-- `int y = v` for a `uint64_t`: the low 32 bits, signed
unfoldable pub to_int32 : ℕ → ℤ
to_int32 v = let low = v % 2 ^ 32 in if ltb low (2 ^ 31) then pos low else negsuc (2 ^ 32 - 1 - low)

-- An `int` as a `uint64_t`
unfoldable pub of_int : ℤ → ℕ
of_int (pos n) = n
of_int (negsuc n) = 2 ^ 64 - 1 - n

unfoldable pub fits_int32 : ℤ → Bool
fits_int32 (pos n) = ltb n (2 ^ 31)
fits_int32 (negsuc n) = ltb n (2 ^ 31)

-- `int` multiplication, whose overflow is undefined
unfoldable pub mul_int : ℤ → ℤ → Eval ℤ
unfolding fits_int32 ◌*ℤ◌
mul_int a b = let p = a *ℤ b in if fits_int32 p then value p else undefined

-- `1 / p` on `int`
unfoldable pub one_over_int : ℤ → Eval ℤ
one_over_int (pos n) = if n == 0 then undefined else value (pos (if n == 1 then 1 else 0))
one_over_int (negsuc n) = value (if n == 0 then negsuc 0 else pos 0)

module _ {T : Type 0} (one : T) (times : T → T → Eval T) (one_over : T → Eval T) where
  -- `do { res *= x; y--; } while (y > 0)`, with the rounds left
  unfoldable pub power_loop : T → ℕ → T → Eval T
  power_loop x zero res = value res
  power_loop x (suc y) res = times res x >>= power_loop x y

  -- `PowerToInt`; the negation of the least `int` is undefined.
  unfoldable pub power_to_int : T → ℤ → Eval T
  unfolding power_loop
  power_to_int x (pos y) = if y == 0 then value one else power_loop x y one
  power_to_int x (negsuc y) =
      if y == 2 ^ 31 - 1 then undefined else power_loop x (suc y) one >>= one_over

abbrev pub power_int : ℤ → ℤ → Eval ℤ
power_int = power_to_int (pos 1) mul_int one_over_int

abbrev pub power_real : {R : Type 0} → Floats R → R → ℤ → Eval R
power_real F =
    power_to_int (F.of_uint64 1) (λ a b. value (F.mul a b)) (λ p. value (F.quot (F.of_uint64 1) p))

module _ {R Ty E : Type 0} (F : Floats R) where
  -- `Pow`
  unfoldable pub pow_const : ConstDecl R Ty E → ConstDecl R Ty E → Eval (ConstDecl R Ty E)
  unfolding to_int32 of_int power_to_int mul_int one_over_int
  pow_const (int_const w x) (int_const _ y) =
      power_int (to_int32 x) (to_int32 y) >>= λ p. value (int_const w (of_int p))
  pow_const (real_const w x) (int_const _ y) =
      power_real F x (to_int32 y) >>= λ p. value (real_const w p)
  pow_const _ _ = null

  -- `llvm::cast<RealConstDecl>(p)`, for a pointer that `ToRealConstDecl` gave
  abbrev cast_real : Eval (ConstDecl R Ty E) → Eval (ConstDecl R Ty E)
  cast_real (value c) = value c
  cast_real null = undefined
  cast_real undefined = undefined

  power_reals : ConstDecl R Ty E → ConstDecl R Ty E → Eval (ConstDecl R Ty E)
  power_reals (real_const w x) (real_const _ y) = value (real_const w (F.exp (F.mul (F.log x) y)))
  power_reals _ _ = undefined

  -- `Power`
  unfoldable pub power_const : ConstDecl R Ty E → ConstDecl R Ty E → Eval (ConstDecl R Ty E)
  unfolding to_real_const_decl power_reals
  power_const lhs rhs = cast_real (to_real_const_decl F lhs) >>= λ l.
      cast_real (to_real_const_decl F rhs) >>= λ r. power_reals l r
