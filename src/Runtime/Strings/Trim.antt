-- ===== src/Runtime/Strings/Trim.antt =====
-- runtime/string.c: `__StrTrim`.
use lacsap.Prelude.{
  ℕ, zero, suc, ◌+◌, ◌-◌, ◌≤◌, ◌<◌, ◌∷◌, ◌++◌, [], ◌≡◌, ◌⊎◌, refl, ap, ◌∙◌, sym, Bool-cases, inl,
  inr, Text, arith, leb, length, length-append, get_or, true, all,
}
use lacsap.Outcome.{done}
use lacsap.Runtime.Arrays.{take, drop, length-take, memcpy_lem, drop-take, take-take, take-drop_all}
use lacsap.Runtime.Strings.{String, text, trim_left, trim_right, str_trim}
use lacsap.Runtime.Strings.Concat.{IsString, length-text}

-- Only white space, or other bytes up to the space
abbrev pub IsBlank : Text → Type 0
IsBlank t = all (λ c. leb c b' ') t ≡ true

trim_left_rest : (t : Text) → (pre : Text) × IsBlank pre × (t ≡ pre ++ trim_left t)
unfolding trim_left
trim_left_rest [] = ([], refl, refl)
trim_left_rest (c ∷ t) = elim (Bool-cases (leb c b' ')) [
  | inl blank ↦
      let (pre, b, e) = trim_left_rest t in (c ∷ pre, ground arith, rw blank (ap (λ u. c ∷ u) e))
  | inr other ↦ ([], refl, rw other refl)
]

trim_left_first : (t : Text) → (trim_left t ≡ []) ⊎ (b' ' < get_or (trim_left t) 0 0)
unfolding trim_left
trim_left_first [] = inl refl
trim_left_first (c ∷ t) = elim (Bool-cases (leb c b' ')) [
  | inl blank ↦ rw blank (trim_left_first t)
  | inr other ↦ inr (rw other (ground arith))
]

drop-suc : (k : ℕ) (t : Text) → k < length t → drop k t ≡ get_or t k 0 ∷ drop (suc k) t
drop-suc zero [] h = absurd (omega arith)
drop-suc (suc k) [] h = absurd (omega arith)
drop-suc zero (x ∷ t) h = refl
drop-suc (suc k) (x ∷ t) h = drop-suc k t (omega arith)

-- What the loop from the right leaves: no more than there was, something if there was something,
-- with a last byte that is no blank unless it is also the first, and only blanks behind it
trim_right_lem :
    (t : Text) (n : ℕ)
    → n ≤ length t
    → IsBlank (drop n t)
    → b' ' < get_or t 0 0
    → (trim_right t n ≤ n)
      × IsBlank (drop (trim_right t n) t)
      × ((n ≡ 0) ⊎ ((m : ℕ) × (trim_right t n ≡ suc m) × (b' ' < get_or t m 0)))
unfolding trim_right
trim_right_lem t zero h b f = (omega arith, b, inl refl)
trim_right_lem t (suc zero) h b f = (omega arith, b, inr (0, refl, f))
trim_right_lem t (suc (suc n)) h b f = elim (Bool-cases (leb (get_or t (suc n) 0) b' ')) [
  | inl blank ↦
      let e = drop-suc (suc n) t (omega arith) in
      let b' : IsBlank (drop (suc n) t) = rw e (ground arith) in
      let (le, rest, last) = trim_right_lem t (suc n) (omega arith) b' f in
      rw blank
        (omega arith, rest, inr (elim last [ inl z ↦ absurd (omega arith) | inr some ↦ some ]))
  | inr other ↦ rw other (omega arith, b, inr (suc n, refl, ground arith))
]

drop-append_exact : (xs ys : Text) → drop (length xs) (xs ++ ys) ≡ ys
drop-append_exact [] ys = refl
drop-append_exact (x ∷ xs) ys = drop-append_exact xs ys

-- The trimmed text starts and ends with bytes above the space, if it has any.
abbrev pub IsTrimmed : Text → Type 0
IsTrimmed t = (t ≡ []) ⊎ ((b' ' < get_or t 0 0) × (b' ' < get_or t (length t - 1) 0))

drop-length : (xs : Text) → drop (length xs) xs ≡ []
drop-length [] = refl
drop-length (x ∷ xs) = drop-length xs

get_or-take : (n i : ℕ) (xs : Text) → i < n → get_or (take n xs) i 0 ≡ get_or xs i 0
get_or-take zero i xs h = absurd (omega arith)
get_or-take (suc n) i [] h = refl
get_or-take (suc n) zero (x ∷ xs) h = refl
get_or-take (suc n) (suc i) (x ∷ xs) h = get_or-take n i xs (omega arith)

-- What the loop from the right leaves of a text with no blank in front
trim_right-IsTrimmed :
    (u : Text)
    → (u ≡ []) ⊎ (b' ' < get_or u 0 0)
    → (trim_right u (length u) ≤ length u)
      × IsBlank (drop (trim_right u (length u)) u)
      × IsTrimmed (take (trim_right u (length u)) u)
unfolding trim_right
trim_right-IsTrimmed [] f = (omega arith, refl, inl refl)
trim_right-IsTrimmed (c ∷ u) (inl e) = cc
trim_right-IsTrimmed (c ∷ u) (inr f) =
    let t : Text = c ∷ u in
    let none : IsBlank (drop (length t) t) = rw (drop-length t) refl in
    let (le, b, last) = trim_right_lem t (length t) (omega arith) none f in
    (
      le,
      b,
      elim last [
        | inl z ↦ absurd (omega arith)
        | inr (m, e, above) ↦ rw e (
            inr (
              f,
              let l : length (take (suc m) t) ≡ suc m = length-take (suc m) t (omega arith) in
                  let i : length (take (suc m) t) - 1 ≡ m = omega arith in
                  rw (i, get_or-take (suc m) m t (omega arith)) above,
            ))
      ],
    )

-- Bytes behind a part of the text, read from the array
take-drop_array :
    (str : Text) (slen n : ℕ) (pre rest : Text)
    → take slen str ≡ pre ++ rest
    → n + length pre ≤ slen
    → take n (drop (length pre) str) ≡ take n rest
take-drop_array str slen n pre rest e h =
    let tail : drop (length pre) (take slen str) ≡ rest =
      ap (drop (length pre)) e ∙ drop-append_exact pre rest in
    rw (← tail, drop-take (length pre) slen str)
      (sym (take-take n (slen - length pre) (drop (length pre) str) (omega arith)))

-- `__StrTrim` is defined and gives a string. Its text is that of the operand without some bytes up
-- to the space at either end; what is left is empty or starts and ends with bytes above the space.
pub str_trim-IsTrimmed :
    (res s : String)
    → IsString res
    → IsString s
    → (r : String) × (str_trim res s ≡ done r)
      × IsString r
      × ((pre post : Text) × (text s ≡ pre ++ (text r ++ post)) × IsBlank pre × IsBlank post)
      × IsTrimmed (text r)
unfolding str_trim text
str_trim-IsTrimmed res s hr hs =
    let t : Text = text s in
    let (pre, bp, e) = trim_left_rest t in
    let rest : Text = trim_left t in
    let n : ℕ = trim_right rest (length rest) in
    let (le, bq, trimmed) = trim_right-IsTrimmed rest (trim_left_first t) in
    let len : length t ≡ s.len = length-text s hs in
    let split : length t ≡ length pre + length rest = ap length e ∙ length-append pre rest in
    let from : length t - length rest ≡ length pre = omega arith in
    let (d, m, l, k) =
      memcpy_lem res.str 0 s.str (length t - length rest) n (omega arith) (omega arith) in
    let read : take n d ≡ take n rest =
      ap (λ i. take i d) (omega arith)
      ∙ k
      ∙ ap (λ i. take n (drop i s.str)) from
      ∙ take-drop_array s.str s.len n pre rest e (omega arith) in
    let whole : t ≡ pre ++ (take n d ++ drop n rest) =
      e
      ∙ ap (λ u. pre ++ u) (sym (take-drop_all n rest))
      ∙ ap (λ u. pre ++ (u ++ drop n rest)) (sym read) in
    (
      record { len = n; str = d },
      rw m refl,
      (omega arith, omega arith),
      (pre, drop n rest, whole, bp, bq),
      rw read trimmed,
    )
