-- ===== src/Runtime/Sets/Bits.antt =====
-- The bits of words, and what `&`, `|`, `^` and `~` do to them.
use Prim.Native.Nat.{
  min, max, differ, digits, bit_and, bit_or, bit_xor, bit_and-bitwise, bit_or-bitwise,
  bit_xor-bitwise,
}
use lacsap.Prelude.{ℕ, zero, suc, ◌+◌, ◌-◌, ◌*◌, ◌/◌, ◌%◌, ◌^◌, ◌≤◌, ◌<◌, ◌≡◌, refl, ap, ◌∙◌, arith}
use native.Mathlib.Nat.{pow-suc}

-- The bit of x at the place k
abbrev pub bit_at : ℕ → ℕ → ℕ
bit_at zero x = x % 2
bit_at (suc k) x = bit_at k (x / 2)

pub bit_at-le : (k x : ℕ) → bit_at k x ≤ 1
bit_at-le zero x = omega arith
bit_at-le (suc k) x = bit_at-le k (x / 2)

bit_at-zero : (k : ℕ) → bit_at k 0 ≡ 0
bit_at-zero zero = refl
bit_at-zero (suc k) = bit_at-zero k

module _ (z : ℕ → ℕ) (f : ℕ → ℕ → ℕ) (past : (k b : ℕ) → bit_at k (z b) ≡ f 0 (bit_at k b))
    (digit : (x y : ℕ) → x ≤ 1 → y ≤ 1 → f x y ≤ 1) where
  bit_at-digits : (n a b k : ℕ) → a ≤ n → bit_at k (digits z f n a b) ≡ f (bit_at k a) (bit_at k b)
  bit_at-digits zero zero b k h = rw (bit_at-zero k) (past k b)
  bit_at-digits zero (suc a) b k h = absurd (omega arith)
  bit_at-digits (suc n) zero b k h = rw (bit_at-zero k) (past k b)
  bit_at-digits (suc n) (suc a) b zero h =
      let small = digit (suc a % 2) (b % 2) (omega arith) (omega arith) in omega arith
  bit_at-digits (suc n) (suc a) b (suc k) h =
      let small = digit (suc a % 2) (b % 2) (omega arith) (omega arith) in
      let rest : (digits z f n (suc a / 2) (b / 2) * 2 + f (suc a % 2) (b % 2)) / 2
          ≡ digits z f n (suc a / 2) (b / 2) =
        omega arith in
      ap (bit_at k) rest ∙ bit_at-digits n (suc a / 2) (b / 2) k (omega arith)

differ-le : (x y : ℕ) → x ≤ 1 → y ≤ 1 → differ x y ≤ 1
differ-le zero y p q = q
differ-le (suc x) zero p q = p
differ-le (suc zero) (suc zero) p q = omega arith
differ-le (suc (suc x)) (suc y) p q = absurd (omega arith)
differ-le (suc zero) (suc (suc y)) p q = absurd (omega arith)

pub bit_at-bit_and : (k a b : ℕ) → bit_at k (bit_and a b) ≡ min (bit_at k a) (bit_at k b)
bit_at-bit_and k a b =
    ap (bit_at k) (λ i. bit_and-bitwise a b i)
    ∙ bit_at-digits (λ _. zero) min (λ k b. omega (arith, bit_at-zero k)) (λ x y p q. omega arith) a
        a b k (omega arith)

pub bit_at-bit_or : (k a b : ℕ) → bit_at k (bit_or a b) ≡ max (bit_at k a) (bit_at k b)
bit_at-bit_or k a b =
    ap (bit_at k) (λ i. bit_or-bitwise a b i)
    ∙ bit_at-digits (λ b. b) max (λ k b. omega arith) (λ x y p q. omega arith) a a b k (omega arith)

pub bit_at-bit_xor : (k a b : ℕ) → bit_at k (bit_xor a b) ≡ differ (bit_at k a) (bit_at k b)
bit_at-bit_xor k a b =
    ap (bit_at k) (λ i. bit_xor-bitwise a b i)
    ∙ bit_at-digits (λ b. b) differ (λ k b. refl) differ-le a a b k (omega arith)

min-digits-le : (n a b : ℕ) → a ≤ n → digits (λ _. zero) min n a b ≤ a
min-digits-le zero zero b h = omega arith
min-digits-le zero (suc a) b h = absurd (omega arith)
min-digits-le (suc n) zero b h = omega arith
min-digits-le (suc n) (suc a) b h = omega (arith, min-digits-le n (suc a / 2) (b / 2) (omega arith))

pub bit_and-le : (a b : ℕ) → bit_and a b ≤ a
bit_and-le a b =
    let e : bit_and a b ≡ digits (λ _. zero) min a a b = λ i. bit_and-bitwise a b i in
    rw e (min-digits-le a a b (omega arith))

bit_at-mask : (w k x : ℕ) → k < w → x < 2 ^ w → bit_at k (2 ^ w - 1 - x) ≡ 1 - bit_at k x
bit_at-mask zero k x h lt = absurd (omega arith)
bit_at-mask (suc w) zero x h lt = omega (arith, pow-suc 2 w)
bit_at-mask (suc w) (suc k) x h lt =
    let half : (2 ^ suc w - 1 - x) / 2 ≡ 2 ^ w - 1 - x / 2 = omega (arith, pow-suc 2 w) in
    ap (bit_at k) half ∙ bit_at-mask w k (x / 2) (omega arith) (omega (arith, pow-suc 2 w))

pub bit_at-complement : (k x : ℕ) → k < 32 → x < 2 ^ 32 → bit_at k (2 ^ 32 - 1 - x) ≡ 1 - bit_at k x
bit_at-complement k x h lt = bit_at-mask 32 k x h lt

-- Words with the same bits are the same.
pub bit_at_all :
    (w x y : ℕ) → x < 2 ^ w → y < 2 ^ w → ((k : ℕ) → k < w → bit_at k x ≡ bit_at k y) → x ≡ y
bit_at_all zero x y hx hy same = omega arith
bit_at_all (suc w) x y hx hy same =
    let half : x / 2 ≡ y / 2 =
      bit_at_all w (x / 2) (y / 2) (omega (arith, pow-suc 2 w)) (omega (arith, pow-suc 2 w))
        (λ k h. same (suc k) (omega arith)) in
    let low : x % 2 ≡ y % 2 = same 0 (omega arith) in omega arith
