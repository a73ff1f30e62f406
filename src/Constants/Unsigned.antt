-- ===== src/Constants/Unsigned.antt =====
-- constants.cpp: division and sums of negative integer constants.
use lacsap.Prelude.{ℕ, ◌+◌, ◌-◌, ◌/◌, ◌%◌, ◌^◌, ◌≤◌, ◌<◌, ◌≡◌, refl, arith, false, ◌==◌}
use lacsap.Token.{Location}
use lacsap.Constants.Decl.{int_const, real_const, value, Floats, no_location, ◌>>=◌}
use lacsap.Constants.Arith.{u64, minus_const, plus_const, over_const}

negated : (k : ℕ) → 0 < k → k ≤ 2 ^ 63 → (0 + u64 - k) % u64 ≡ u64 - k
negated k p h = omega arith

module _ {R Ty E : Type 0} (F : Floats R) where
  minus_ints :
      (w w' : Location) (a b : ℕ)
      → minus_const {Ty = Ty} {E = E} F (int_const w a) (int_const w' b)
        ≡ value (int_const no_location ((a + u64 - b) % u64))
  unfolding minus_const
  minus_ints w w' a b = refl

  over_ints :
      (w w' : Location) (a b : ℕ)
      → 0 < b
      → over_const {Ty = Ty} {E = E} F (int_const w a) (int_const w' b)
        ≡ value (int_const no_location (a / b))
  unfolding over_const
  over_ints w w' a b h = let e : b == 0 ≡ false = ground arith in rw e refl

  -- The quotient of a negative integer constant is that of its bit pattern: for 0 < k ≤ 2^63 and a
  -- positive divisor d, `(0 - k) div d` is (2^64 - k) / d.
  pub minus-over :
      (w : Location) (k d : ℕ)
      → 0 < k
      → k ≤ 2 ^ 63
      → 0 < d
      → (minus_const {Ty = Ty} {E = E} F (int_const w 0) (int_const w k) >>= λ n.
          over_const F n (int_const w d))
        ≡ value (int_const no_location ((u64 - k) / d))
  minus-over w k d p h q =
      rw (minus_ints w w 0 k, negated k p h) (over_ints no_location w (u64 - k) d q)

  -- The sum of a real constant and a negative integer constant takes the integer as its bit
  -- pattern, in either order of the operands.
  pub minus-plus_real :
      (w : Location) (k : ℕ) (r : R)
      → 0 < k
      → k ≤ 2 ^ 63
      → ((minus_const {Ty = Ty} {E = E} F (int_const w 0) (int_const w k) >>= λ n.
            plus_const F n (real_const w r))
          ≡ value (real_const no_location (F.add r (F.of_uint64 (u64 - k)))))
        × ((minus_const {Ty = Ty} {E = E} F (int_const w 0) (int_const w k) >>= λ n.
              plus_const F (real_const w r) n)
            ≡ value (real_const no_location (F.add (F.of_uint64 (u64 - k)) r)))
  unfolding plus_const
  minus-plus_real w k r p h =
      (rw (minus_ints w w 0 k, negated k p h) refl, rw (minus_ints w w 0 k, negated k p h) refl)
