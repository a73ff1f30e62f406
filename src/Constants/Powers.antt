-- ===== src/Constants/Powers.antt =====
-- constants.cpp: integer powers of constants, and shifts.
use native.Mathlib.Nat.{pow-suc, pow-zero, pow-le-pow_right}
use lacsap.Prelude.{
  ℕ, zero, suc, ◌*◌, ◌%◌, ◌^◌, ◌≤◌, ◌<◌, ◌≡◌, refl, ap, ap₂, sym, ◌∙◌, arith, true, ltb, ◌==◌,
  Bool-cases, inl, inr,
}
use lacsap.Prelude.Int.{ℤ, pos}
use lacsap.Token.{Location}
use lacsap.Constants.Decl.{int_const, value, Floats, no_location, ◌>>=◌}
use lacsap.Constants.Arith.{u64, times_const, shl_const}
use lacsap.Constants.Power.{
  to_int32, of_int, mul_int, one_over_int, power_loop, power_to_int, power_int, pow_const,
}

mul_int-pos : (a b : ℕ) → a * b < 2 ^ 31 → mul_int (pos a) (pos b) ≡ value (pos (a * b))
unfolding mul_int
mul_int-pos a b h = ground arith

power_pos : (x y : ℕ) → 0 < x → 0 < x ^ y
power_pos x zero h = rw pow-zero (omega arith)
power_pos x (suc y) h = rw pow-suc (grind (arith, power_pos x y h))

shift_factor : (r x p : ℕ) → r * (p * x) ≡ r * x * p
shift_factor r x p = grind arith

le_times : (a p : ℕ) → 0 < p → a ≤ a * p
le_times a p h = grind arith

power_loop-pos :
    (x y r : ℕ)
    → 0 < x
    → r * x ^ y < 2 ^ 31
    → power_loop (pos 1) mul_int one_over_int (pos x) y (pos r) ≡ value (pos (r * x ^ y))
unfolding power_loop
power_loop-pos x zero r hx h = ap (λ k. value (pos k)) (rw pow-zero (omega arith))
power_loop-pos x (suc y) r hx h =
    let e : r * x ^ suc y ≡ r * x * x ^ y = rw pow-suc (shift_factor r x (x ^ y)) in
    let p = power_pos x y hx in
    rw (mul_int-pos r x (omega (arith, e, le_times (r * x) (x ^ y) p)), e)
      (power_loop-pos x y (r * x) hx (omega (arith, e)))

to_int32-small : (x : ℕ) → x < 2 ^ 31 → to_int32 x ≡ pos x
unfolding to_int32
to_int32-small x h = ground arith

power_int-pos : (x y : ℕ) → 0 < x → x ^ y < 2 ^ 31 → power_int (pos x) (pos y) ≡ value (pos (x ^ y))
unfolding power_to_int
power_int-pos x y hx h = elim (Bool-cases (y == 0)) [
  | inl z ↦ rw z (let e : y ≡ 0 = ground arith in ap (λ k. value (pos k)) (rw (e, pow-zero) refl))
  | inr nz ↦ rw nz (power_loop-pos x y 1 hx (omega arith) ∙ ap (λ k. value (pos k)) (omega arith))
]

power_two_int : (k : ℕ) → k < 31 → 2 ^ k < 2 ^ 31
power_two_int k h =
    let le : suc k ≤ 31 = omega arith in
    let m : 2 ^ suc k ≤ 2 ^ 31 = pow-le-pow_right (omega arith) le in
    let p = power_pos 2 k (omega arith) in omega (arith, rw pow-suc at m, p)

module _ {R Ty E : Type 0} (F : Floats R) where
  pow_const-of_power_int :
      (w w' : Location) (x y : ℕ) (p : ℤ)
      → power_int (to_int32 x) (to_int32 y) ≡ value p
      → pow_const {Ty = Ty} {E = E} F (int_const w x) (int_const w' y)
        ≡ value (int_const w (of_int p))
  unfolding pow_const
  pow_const-of_power_int w w' x y p h = ap (λ r. r >>= λ q. value (int_const w (of_int q))) h

  -- `pow` on positive integers is the power, as long as that is an `int`.
  pub pow_const-eq-power :
      (w w' : Location) (x y : ℕ)
      → 0 < x
      → x < 2 ^ 31
      → y < 2 ^ 31
      → x ^ y < 2 ^ 31
      → pow_const {Ty = Ty} {E = E} F (int_const w x) (int_const w' y) ≡ value (int_const w (x ^ y))
  unfolding of_int
  pow_const-eq-power w w' x y hx lx ly h =
      pow_const-of_power_int w w' x y (pos (x ^ y))
        (ap₂ power_int (to_int32-small x lx) (to_int32-small y ly) ∙ power_int-pos x y hx h)

  times_ints :
      (w w' : Location) (a b : ℕ)
      → times_const {Ty = Ty} {E = E} F (int_const w a) (int_const w' b)
        ≡ value (int_const no_location (a * b % u64))
  unfolding times_const
  times_ints w w' a b = refl

  shl_ints :
      (w w' : Location) (a k : ℕ)
      → k < 31
      → shl_const {R = R} {Ty = Ty} {E = E} (int_const w a) (int_const w' k)
        ≡ value (int_const no_location (a * 2 ^ k % u64))
  unfolding shl_const
  shl_ints w w' a k h = let e : ltb k 64 ≡ true = ground arith in rw e refl

  -- A shift to the left by less than 31 is the product with that power of two.
  shl-eq-times-pow :
      (w w' : Location) (x k : ℕ)
      → k < 31
      → shl_const {R = R} {Ty = Ty} {E = E} (int_const w x) (int_const w' k)
        ≡ (pow_const F (int_const w 2) (int_const w' k) >>= λ p. times_const F (int_const w x) p)
  shl-eq-times-pow w w' x k h =
      rw (pow_const-eq-power w w' 2 k (omega arith) (omega arith) (omega arith) (power_two_int k h))
        (shl_ints w w' x k h ∙ sym (times_ints w w x (2 ^ k)))
