-- ===== src/Runtime/Strings/Search.antt =====
-- runtime/string.c: `__StrIndex` and `__StrTrim`.
use lacsap.Prelude.{
  ℕ, zero, suc, ◌+◌, ◌<◌, ◌∷◌, [], ◌≡◌, ◌⊎◌, refl, ap₂, Bool-cases, inl, inr, Text, arith, ◌==◌,
  length, true, false,
}
use lacsap.Runtime.Arrays.{take, drop}
use lacsap.Runtime.Strings.{String, text, str_index, index_loop, starts_with}

-- The second text stands in the first one at the place i, from 0.
abbrev pub StandsAt : ℕ → Text → Text → Type 0
StandsAt i a b = take (length b) (drop i a) ≡ b

starts_with_sound : (a b : Text) → starts_with a b ≡ true → take (length b) a ≡ b
unfolding starts_with
starts_with_sound a [] h = refl
starts_with_sound [] (y ∷ b) h = ground arith
starts_with_sound (x ∷ a) (y ∷ b) h = elim (Bool-cases (x == y)) [
  | inl same ↦ ap₂ ◌∷◌ (ground arith) (starts_with_sound a b (rw same at h))
  | inr other ↦ ground arith
]

starts_with_complete : (a b : Text) → take (length b) a ≡ b → starts_with a b ≡ true
unfolding starts_with
starts_with_complete [] [] h = refl
starts_with_complete (x ∷ a) [] h = refl
starts_with_complete [] (y ∷ b) h = cc
starts_with_complete (x ∷ a) (y ∷ b) h =
    let e : x ≡ y = cc in
    let t : take (length b) a ≡ b = cc in ground (arith, starts_with_complete a b t)

-- What the loop gives: a place with a match and no match before, or 0 if there is none
abbrev pub IsFirst : ℕ → Text → Text → Type 0
IsFirst k a b = StandsAt k a b × (k < length a) × ((i : ℕ) → i < k → ¬ StandsAt i a b)

none_before :
    (x : ℕ) (a b : Text) (k : ℕ)
    → starts_with (x ∷ a) b ≡ false
    → ((i : ℕ) → i < k → ¬ StandsAt i a b)
    → (i : ℕ) → i < suc k
    → ¬ StandsAt i (x ∷ a) b
none_before x a b k h before zero lt s =
    let found : starts_with (x ∷ a) b ≡ true = starts_with_complete (x ∷ a) b s in cc
none_before x a b k h before (suc i) lt s = before i (omega arith) s

index_loop-IsFirst :
    (n : ℕ) (a b : Text)
    → ((k : ℕ) × (index_loop n a b ≡ 1 + n + k) × IsFirst k a b)
      ⊎ ((index_loop n a b ≡ 0) × ((i : ℕ) → i < length a → ¬ StandsAt i a b))
unfolding index_loop
index_loop-IsFirst n [] b = inr (refl, λ i lt s. absurd (omega arith))
index_loop-IsFirst n (x ∷ a) b = elim (Bool-cases (starts_with (x ∷ a) b)) [
  | inl here ↦ inl (
    zero,
    rw here (omega arith),
    (starts_with_sound (x ∷ a) b here, omega arith, λ i lt s. absurd (omega arith)),
  )
  | inr later ↦ elim (index_loop-IsFirst (suc n) a b) [
    | inl (k, e, (s, lt, before)) ↦
        inl (suc k, rw later (omega arith), (s, omega arith, none_before x a b k later before))
    | inr (e, none) ↦ inr (rw later e, none_before x a b (length a) later none)
  ]
]

-- `__StrIndex` gives the first place, from 1, at which the second text stands in the first, and 0
-- if it stands at none of them. The places are those of the bytes of the first text: in an empty
-- text nothing is found.
pub str_index-IsFirst :
    (a b : String)
    → ((k : ℕ) × (str_index a b ≡ 1 + k) × IsFirst k (text a) (text b))
      ⊎ ((str_index a b ≡ 0) × ((i : ℕ) → i < length (text a) → ¬ StandsAt i (text a) (text b)))
unfolding str_index
str_index-IsFirst a b = index_loop-IsFirst 0 (text a) (text b)
