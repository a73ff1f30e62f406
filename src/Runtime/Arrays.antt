-- ===== src/Runtime/Arrays.antt =====
-- Arrays of C as lists of their cells, with `memcpy` of <string.h>.
use lacsap.Prelude.{
  ℕ, zero, suc, ◌+◌, ◌-◌, ◌≤◌, ◌||◌, ◌&&◌, List, [], ◌∷◌, ◌++◌, ◌≡◌, refl, ap, sym, ◌∙◌,
  if◌then◌else◌, leb, ◌==◌, length, length-append, arith,
}
use lacsap.Outcome.{Outcome, done, undefined}

module _ {ℓ} {A : Type ℓ} where
  abbrev pub take : ℕ → List A → List A
  take zero xs = []
  take (suc n) [] = []
  take (suc n) (x ∷ xs) = x ∷ take n xs

  abbrev pub drop : ℕ → List A → List A
  drop zero xs = xs
  drop (suc n) [] = []
  drop (suc n) (x ∷ xs) = drop n xs

  -- `memcpy (&dst[at], &src[from], n)` between arrays that do not overlap. A copy of no cells does
  -- nothing; cells outside the arrays are undefined.
  unfoldable pub memcpy : List A → ℕ → List A → ℕ → ℕ → Outcome (List A)
  memcpy dst at src from n =
      if n == 0 || (leb (at + n) (length dst) && leb (from + n) (length src))
      then done (take at dst ++ (take n (drop from src) ++ drop (at + n) dst))
      else undefined

  pub length-take : (n : ℕ) (xs : List A) → n ≤ length xs → length (take n xs) ≡ n
  length-take zero xs h = refl
  length-take (suc n) [] h = absurd (omega arith)
  length-take (suc n) (x ∷ xs) h = omega (arith, length-take n xs (omega arith))

  pub length-drop : (n : ℕ) (xs : List A) → length (drop n xs) ≡ length xs - n
  length-drop zero xs = omega arith
  length-drop (suc n) [] = omega arith
  length-drop (suc n) (x ∷ xs) = omega (arith, length-drop n xs)

  pub take-length : (n : ℕ) (xs : List A) → length xs ≤ n → take n xs ≡ xs
  take-length zero [] h = refl
  take-length zero (x ∷ xs) h = absurd (omega arith)
  take-length (suc n) [] h = refl
  take-length (suc n) (x ∷ xs) h = ap (λ t. x ∷ t) (take-length n xs (omega arith))

  -- Taking more than the first of two joined lists takes all of it.
  pub take-append :
      (n k : ℕ) (xs ys : List A) → length xs ≡ n → take (n + k) (xs ++ ys) ≡ xs ++ take k ys
  take-append zero k [] ys h = ap (λ m. take m ys) (omega arith)
  take-append zero k (x ∷ xs) ys h = absurd (omega arith)
  take-append (suc n) k [] ys h = absurd (omega arith)
  take-append (suc n) k (x ∷ xs) ys h =
      let e : suc n + k ≡ suc (n + k) = omega arith in
      ap (λ m. take m (x ∷ (xs ++ ys))) e ∙ ap (λ t. x ∷ t) (take-append n k xs ys (omega arith))

  pub take-take : (k n : ℕ) (xs : List A) → k ≤ n → take k (take n xs) ≡ take k xs
  take-take zero n xs h = refl
  take-take (suc k) zero xs h = absurd (omega arith)
  take-take (suc k) (suc n) [] h = refl
  take-take (suc k) (suc n) (x ∷ xs) h = ap (λ t. x ∷ t) (take-take k n xs (omega arith))

  -- Taking again what is longer takes all of it.
  pub take-take_short : (k n : ℕ) (xs : List A) → n ≤ k → take k (take n xs) ≡ take n xs
  take-take_short zero zero xs h = refl
  take-take_short zero (suc n) xs h = absurd (omega arith)
  take-take_short (suc k) zero xs h = refl
  take-take_short (suc k) (suc n) [] h = refl
  take-take_short (suc k) (suc n) (x ∷ xs) h =
      ap (λ t. x ∷ t) (take-take_short k n xs (omega arith))

  take-nil : (n : ℕ) → take n [] ≡ []
  take-nil zero = refl
  take-nil (suc n) = refl

  pub drop-take : (k n : ℕ) (xs : List A) → drop k (take n xs) ≡ take (n - k) (drop k xs)
  drop-take zero n xs = ap (λ m. take m xs) (omega arith)
  drop-take (suc k) zero xs =
      let e : zero ≡ zero - suc k = omega arith in ap (λ m. take m (drop (suc k) xs)) e
  drop-take (suc k) (suc n) [] = sym (take-nil (suc n - suc k))
  drop-take (suc k) (suc n) (x ∷ xs) = drop-take k n xs ∙ ap (λ m. take m (drop k xs)) (omega arith)

  pub take-drop_all : (n : ℕ) (xs : List A) → take n xs ++ drop n xs ≡ xs
  take-drop_all zero xs = refl
  take-drop_all (suc n) [] = refl
  take-drop_all (suc n) (x ∷ xs) = ap (λ t. x ∷ t) (take-drop_all n xs)

  -- A copy of nothing changes nothing, wherever it starts.
  pub memcpy_none :
      (dst : List A) (at : ℕ) (src : List A) (from : ℕ) → memcpy dst at src from 0 ≡ done dst
  unfolding memcpy
  memcpy_none dst at src from =
      ap (λ m. done (take at dst ++ drop m dst)) (omega arith) ∙ ap done (take-drop_all at dst)

  pub take-append_exact : (n : ℕ) (xs ys : List A) → length xs ≡ n → take n (xs ++ ys) ≡ xs
  take-append_exact zero [] ys h = refl
  take-append_exact zero (x ∷ xs) ys h = absurd (omega arith)
  take-append_exact (suc n) [] ys h = absurd (omega arith)
  take-append_exact (suc n) (x ∷ xs) ys h =
      ap (λ t. x ∷ t) (take-append_exact n xs ys (omega arith))

  -- Within the arrays a copy is defined, keeps their size and reads back.
  pub memcpy_lem :
      (dst : List A) (at : ℕ) (src : List A) (from n : ℕ)
      → at + n ≤ length dst
      → from + n ≤ length src
      → (d : List A) × (memcpy dst at src from n ≡ done d)
        × (length d ≡ length dst)
        × (take (at + n) d ≡ take at dst ++ take n (drop from src))
  unfolding memcpy
  memcpy_lem dst at src from n hd hs =
      let taken : length (take at dst) ≡ at = length-take at dst (omega arith) in
      let copied : length (take n (drop from src)) ≡ n =
        length-take n (drop from src) (omega (arith, length-drop from src)) in
      (
        take at dst ++ (take n (drop from src) ++ drop (at + n) dst),
        ground arith,
        omega (
          arith,
          length-append (take at dst) (take n (drop from src) ++ drop (at + n) dst),
          length-append (take n (drop from src)) (drop (at + n) dst),
          length-drop (at + n) dst,
        ),
        take-append at n (take at dst) (take n (drop from src) ++ drop (at + n) dst) taken
            ∙ ap (λ t. take at dst ++ t) (take-append_exact n (take n (drop from src)) _ copied),
      )
