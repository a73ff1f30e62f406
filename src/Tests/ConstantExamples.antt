-- ===== src/Tests/ConstantExamples.antt =====
-- The theorems on constants at concrete inputs.
use lacsap.Prelude.{ℕ, ◌+◌, ◌-◌, ◌/◌, ◌^◌, [], ◌∷◌, ◌≡◌, refl, codes, strlower, arith}
use lacsap.Constants.{
  undefined, succ_func, to_int32, ConstDecl, int_const, char_const, real_const, string_const, value,
  no_location, ◌>>=◌, u64, plus_const, minus_const, times_const, over_const, mod_const, pow_const,
  eval_function,
}
use lacsap.Constants.Laws.{kind_of, kind_result, sum_kind, number_kind, kind-arith, div-mod-const}
use lacsap.Constants.Powers.{pow_const-eq-power}
use lacsap.Constants.Unsigned.{minus-over, minus-plus_real}
use lacsap.Tests.Samples.{whole, here}

abbrev Const : Type 0
Const = ConstDecl ℕ ℕ ℕ

abbrev int : ℕ → Const
int v = int_const here v

abbrev chr : ℕ → Const
chr c = char_const here c

abbrev text : Const
text = string_const here (codes "ab")

kind-arith_example :
    (kind_result (plus_const whole text (chr 99)) ≡ sum_kind (kind_of text) (kind_of (chr 99)))
    × (kind_result (minus_const whole text (chr 99))
        ≡ number_kind (kind_of text) (kind_of (chr 99)))
    × (kind_result (times_const whole text (chr 99))
        ≡ number_kind (kind_of text) (kind_of (chr 99)))
kind-arith_example = kind-arith whole text (chr 99)

div-mod-const_example :
    (over_const whole (int 17) (int 5) >>= λ q.
    times_const whole q (int 5) >>= λ p. mod_const (int 17) (int 5) >>= λ r. plus_const whole p r)
    ≡ value (int_const no_location 17)
div-mod-const_example = div-mod-const whole here here 17 5 (omega arith) (omega arith)

pow_const-eq-power_example : pow_const whole (int 3) (int 4) ≡ value (int_const here (3 ^ 4))
pow_const-eq-power_example =
    pow_const-eq-power whole here here 3 4 (omega arith) (omega arith) (omega arith) (omega arith)

minus-over_example :
    (minus_const whole (int 0) (int 7) >>= λ n. over_const whole n (int 2))
    ≡ value (int_const no_location ((u64 - 7) / 2))
minus-over_example = minus-over whole here 7 2 (omega arith) (omega arith) (omega arith)

minus-plus_real_example :
    ((minus_const whole (int 0) (int 7) >>= λ n. plus_const whole n (real_const here 1))
      ≡ value (real_const no_location (1 + (u64 - 7))))
    × ((minus_const whole (int 0) (int 7) >>= λ n. plus_const whole (real_const here 1) n)
        ≡ value (real_const no_location ((u64 - 7) + 1)))
minus-plus_real_example = minus-plus_real whole here 7 1 (omega arith) (omega arith)

-- The step from the greatest `int64_t` overflows.
succ_overflow : eval_function whole (codes "Succ") (int 9223372036854775807 ∷ []) ≡ undefined
unfolding eval_function strlower succ_func to_int32
succ_overflow = refl
