-- ===== src/Runtime/Strings/Compare.antt =====
-- runtime/string.c: `__StrCompare`.
use lacsap.Prelude.{
  ℕ, ◌<◌, ◌∷◌, [], ◌≡◌, ◌↔◌, refl, ap₂, Bool-cases, inl, inr, Text, arith, ◌==◌, true,
}
use lacsap.Prelude.Int.{pos, neg_ℤ, ltb_ℤ}
use lacsap.Runtime.Strings.{String, text, str_compare, compare_texts}

-- The order of the dictionary on texts
pub data Before : Text → Text → Type 0 where
  ends_first : (y : ℕ) (b : Text) → Before [] (y ∷ b)
  smaller : {x y : ℕ} (a b : Text) → x < y → Before (x ∷ a) (y ∷ b)
  same_first : (x : ℕ) {a b : Text} → Before a b → Before (x ∷ a) (x ∷ b)

compare_self : (a : Text) → compare_texts a a ≡ pos 0
unfolding compare_texts
compare_self [] = refl
compare_self (x ∷ a) = ground (arith, compare_self a)

compare_zero : (a b : Text) → compare_texts a b ≡ pos 0 → a ≡ b
unfolding compare_texts
compare_zero [] [] h = refl
compare_zero [] (y ∷ b) h = ground arith
compare_zero (x ∷ a) [] h = ground arith
compare_zero (x ∷ a) (y ∷ b) h = elim (Bool-cases (x == y)) [
  | inl same ↦ ap₂ ◌∷◌ (ground arith) (compare_zero a b (rw same at h))
  | inr other ↦ ground arith
]

compare_swap : (a b : Text) → compare_texts b a ≡ neg_ℤ (compare_texts a b)
unfolding compare_texts neg_ℤ
compare_swap [] [] = refl
compare_swap [] (y ∷ b) = ground arith
compare_swap (x ∷ a) [] = ground arith
compare_swap (x ∷ a) (y ∷ b) = elim (Bool-cases (x == y)) [
  | inl same ↦ ground (arith, compare_swap a b)
  | inr other ↦ ground arith
]

compare-Before : {a b : Text} → Before a b → ltb_ℤ (compare_texts a b) (pos 0) ≡ true
unfolding compare_texts
compare-Before (ends_first y b) = ground arith
compare-Before (smaller a b h) = ground arith
compare-Before (same_first x h) = ground (arith, compare-Before h)

Before-compare : (a b : Text) → ltb_ℤ (compare_texts a b) (pos 0) ≡ true → Before a b
unfolding compare_texts
Before-compare [] [] h = ground arith
Before-compare [] (y ∷ b) h = ends_first y b
Before-compare (x ∷ a) [] h = ground arith
Before-compare (x ∷ a) (y ∷ b) h = elim (Bool-cases (x == y)) [
  | inl same ↦
      let e : y ≡ x = ground arith in rw e (same_first x (Before-compare a b (rw same at h)))
  | inr other ↦ smaller a b (ground arith)
]

-- `__StrCompare` orders the texts as a dictionary does: it is negative exactly if the first text
-- stands before the second, zero exactly if they are equal, and with the operands swapped it is the
-- negation.
pub str_compare-Before :
    (a b : String)
    → ((ltb_ℤ (str_compare a b) (pos 0) ≡ true) ↔ Before (text a) (text b))
      × ((str_compare a b ≡ pos 0) ↔ (text a ≡ text b))
      × (str_compare b a ≡ neg_ℤ (str_compare a b))
unfolding str_compare
str_compare-Before a b = (
  (Before-compare (text a) (text b), compare-Before),
  (compare_zero (text a) (text b), λ e. rw e (compare_self (text b))),
  compare_swap (text a) (text b),
)
