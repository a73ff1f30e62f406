-- ===== src/Runtime/Sets/Members.antt =====
-- runtime/set.c: the members of the sets that the operations give.
use Prim.Native.Nat.{min, max, differ, bit_and, bit_or, bit_xor}
use lacsap.Prelude.{
  ℕ, zero, suc, ◌+◌, ◌-◌, ◌*◌, ◌/◌, ◌%◌, ◌^◌, ◌≤◌, ◌<◌, Bool, true, not, ◌&&◌, ◌||◌, List, [], ◌∷◌,
  ◌≡◌, ◌↔◌, refl, ap, ◌∙◌, ◌==◌, ==_iff, length, get_or, arith, Bool-cases, inl, inr,
}
use lacsap.Outcome.{done}
use lacsap.Runtime.Sets.{
  each_word, set_union, set_diff, set_intersect, set_sym_diff, set_contains, complement,
}
use lacsap.Runtime.Sets.Bits.{
  bit_at, bit_at-le, bit_at-bit_and, bit_at-bit_or, bit_at-bit_xor, bit_at-complement, bit_at_all,
  bit_and-le,
}

-- Is the number a member of the set with these words?
abbrev pub has : List ℕ → ℕ → Bool
has a v = bit_at (v % 32) (get_or a (v / 32) 0) == 1

each_place :
    (f : ℕ → ℕ → ℕ) (x y : ℕ) (a b r : List ℕ) (n : ℕ)
    → ((i : ℕ) → i < n → get_or r i 0 ≡ f (get_or a i 0) (get_or b i 0))
    → (i : ℕ) → i < suc n
    → get_or (f x y ∷ r) i 0 ≡ f (get_or (x ∷ a) i 0) (get_or (y ∷ b) i 0)
each_place f x y a b r n at zero h = refl
each_place f x y a b r n at (suc i) h = at i (omega arith)

each_word-at :
    (f : ℕ → ℕ → ℕ) (a b : List ℕ) (n : ℕ)
    → n ≤ length a
    → n ≤ length b
    → (r : List ℕ) × (each_word f a b n ≡ done r)
      × ((i : ℕ) → i < n → get_or r i 0 ≡ f (get_or a i 0) (get_or b i 0))
unfolding each_word
each_word-at f a b zero ha hb = ([], refl, λ i h. absurd (omega arith))
each_word-at f [] b (suc n) ha hb = absurd (omega arith)
each_word-at f (x ∷ a) [] (suc n) ha hb = absurd (omega arith)
each_word-at f (x ∷ a) (y ∷ b) (suc n) ha hb =
    let (r, e, at) = each_word-at f a b n (omega arith) (omega arith) in
    (f x y ∷ r, rw (each_word, e) refl, each_place f x y a b r n at)

-- What the two digits of the operands give
max_digit : (x y : ℕ) → x ≤ 1 → y ≤ 1 → (max x y == 1) ≡ ((x == 1) || (y == 1))
max_digit x y p q = ground arith

min_digit : (x y : ℕ) → x ≤ 1 → y ≤ 1 → (min x y == 1) ≡ ((x == 1) && (y == 1))
min_digit x y p q = ground arith

less_digit : (x y : ℕ) → x ≤ 1 → y ≤ 1 → (min x (1 - y) == 1) ≡ ((x == 1) && not (y == 1))
less_digit x y p q = ground arith

differ_digit :
    (x y : ℕ)
    → x ≤ 1
    → y ≤ 1
    → (differ x y == 1) ≡ (((x == 1) || (y == 1)) && not ((x == 1) && (y == 1)))
differ_digit zero y p q = ground arith
differ_digit (suc zero) zero p q = refl
differ_digit (suc zero) (suc zero) p q = refl
differ_digit (suc zero) (suc (suc y)) p q = absurd (omega arith)
differ_digit (suc (suc x)) y p q = absurd (omega arith)

-- One of the loops, by what its operation does to the bits of two words
each_word-has :
    (f : ℕ → ℕ → ℕ) (g : Bool → Bool → Bool) (a b : List ℕ) (n v : ℕ)
    → n ≤ length a
    → n ≤ length b
    → v < 32 * n
    → ((k x y : ℕ)
        → k < 32
        → x ≡ get_or a (v / 32) 0
        → y ≡ get_or b (v / 32) 0
        → (bit_at k (f x y) == 1) ≡ g (bit_at k x == 1) (bit_at k y == 1))
    → (r : List ℕ) × (each_word f a b n ≡ done r) × (has r v ≡ g (has a v) (has b v))
each_word-has f g a b n v ha hb hv law =
    let (r, e, at) = each_word-at f a b n ha hb in
    (
      r,
      e,
      ap (λ w. bit_at (v % 32) w == 1) (at (v / 32) (omega arith))
          ∙ law (v % 32) (get_or a (v / 32) 0) (get_or b (v / 32) 0) (omega arith) refl refl,
    )

-- The loops of the sets are those of their members: for arrays that hold the words, of 32 bits in
-- the second set, a number below 32 times the words is a member of the union, of the intersection,
-- of the difference and of the symmetric difference as the names say.
pub set_ops-has :
    (a b : List ℕ) (n v : ℕ)
    → n ≤ length a
    → n ≤ length b
    → ((i : ℕ) → get_or b i 0 < 2 ^ 32)
    → v < 32 * n
    → ((r : List ℕ) × (set_union a b n ≡ done r) × (has r v ≡ (has a v || has b v)))
      × ((r : List ℕ) × (set_intersect a b n ≡ done r) × (has r v ≡ (has a v && has b v)))
      × ((r : List ℕ) × (set_diff a b n ≡ done r) × (has r v ≡ (has a v && not (has b v))))
      × ((r : List ℕ) × (set_sym_diff a b n ≡ done r)
          × (has r v ≡ ((has a v || has b v) && not (has a v && has b v))))
unfolding set_union set_intersect set_diff set_sym_diff
set_ops-has a b n v ha hb words hv = (
  each_word-has bit_or (λ p q. p || q) a b n v ha hb hv
      (λ k x y h ex ey.
        ap (λ w. w == 1) (bit_at-bit_or k x y)
        ∙ max_digit (bit_at k x) (bit_at k y) (bit_at-le k x) (bit_at-le k y)),
  each_word-has bit_and (λ p q. p && q) a b n v ha hb hv
      (λ k x y h ex ey.
        ap (λ w. w == 1) (bit_at-bit_and k x y)
        ∙ min_digit (bit_at k x) (bit_at k y) (bit_at-le k x) (bit_at-le k y)),
  each_word-has (λ x y. bit_and x (complement y)) (λ p q. p && not q) a b n v ha hb hv
      (λ k x y h ex ey.
        let small : y < 2 ^ 32 = rw ey (words (v / 32)) in
        ap (λ w. w == 1)
          (bit_at-bit_and k x (complement y)
            ∙ ap (min (bit_at k x)) (bit_at-complement k y h small))
        ∙ less_digit (bit_at k x) (bit_at k y) (bit_at-le k x) (bit_at-le k y)),
  each_word-has bit_xor (λ p q. (p || q) && not (p && q)) a b n v ha hb hv
      (λ k x y h ex ey.
        ap (λ w. w == 1) (bit_at-bit_xor k x y)
        ∙ differ_digit (bit_at k x) (bit_at k y) (bit_at-le k x) (bit_at-le k y)),
)

contains-words :
    (a b : List ℕ) (n i : ℕ)
    → set_contains a b n ≡ done true
    → i < n
    → bit_and (get_or a i 0) (get_or b i 0) ≡ get_or a i 0
unfolding set_contains
contains-words a b zero i e h = absurd (omega arith)
contains-words [] b (suc n) i e h = cc
contains-words (x ∷ a) [] (suc n) i e h = cc
contains-words (x ∷ a) (y ∷ b) (suc n) zero e h = elim (Bool-cases (bit_and x y == x)) [
  | inr differ ↦ cc (rw differ at e)
  | inl same ↦ (==_iff (bit_and x y) x).0 same
]
contains-words (x ∷ a) (y ∷ b) (suc n) (suc i) e h = elim (Bool-cases (bit_and x y == x)) [
  | inr differ ↦ cc (rw differ at e)
  | inl same ↦ contains-words a b n i (rw same at e) (omega arith)
]

words-contains :
    (a b : List ℕ) (n : ℕ)
    → n ≤ length a
    → n ≤ length b
    → ((i : ℕ) → i < n → bit_and (get_or a i 0) (get_or b i 0) ≡ get_or a i 0)
    → set_contains a b n ≡ done true
unfolding set_contains
words-contains a b zero ha hb h = refl
words-contains [] b (suc n) ha hb h = absurd (omega arith)
words-contains (x ∷ a) [] (suc n) ha hb h = absurd (omega arith)
words-contains (x ∷ a) (y ∷ b) (suc n) ha hb h =
    let first : (bit_and x y == x) ≡ true = (==_iff (bit_and x y) x).1 (h 0 (omega arith)) in
    rw (set_contains, first)
      (words-contains a b n (omega arith) (omega arith) (λ i lt. h (suc i) (omega arith)))

-- The bits of a word that the other word has too
contained_bits :
    (x y : ℕ)
    → x < 2 ^ 32
    → ((k : ℕ) → k < 32 → (bit_at k x == 1) ≡ true → (bit_at k y == 1) ≡ true)
    → bit_and x y ≡ x
contained_bits x y hx h = bit_at_all 32 (bit_and x y) x (omega (arith, bit_and-le x y)) hx (λ k lt.
    let e = bit_at-bit_and k x y in let c = h k lt in let lx = bit_at-le k x in ground arith)

-- `__SetContains` finds the words of the first array, of 32 bits, in the second one exactly if all
-- members of the first set, below 32 times the words, are members of the second.
pub set_contains-has :
    (a b : List ℕ) (n : ℕ)
    → n ≤ length a
    → n ≤ length b
    → ((i : ℕ) → get_or a i 0 < 2 ^ 32)
    → (set_contains a b n ≡ done true) ↔ ((v : ℕ) → v < 32 * n → has a v ≡ true → has b v ≡ true)
set_contains-has a b n ha hb words = (
  λ e v hv m.
      let i = v / 32 in
      let k = v % 32 in
      let same = contains-words a b n i e (omega arith) in
      let bits = bit_at-bit_and k (get_or a i 0) (get_or b i 0) in
      let whole = ap (bit_at k) same in let ly = bit_at-le k (get_or b i 0) in ground arith,
  λ h. words-contains a b n ha hb (λ i lt.
      contained_bits (get_or a i 0) (get_or b i 0) (words i) (λ k small m.
        let at : (32 * i + k) / 32 ≡ i = omega arith in
        let bit : (32 * i + k) % 32 ≡ k = omega arith in
        rw (at, bit) at (h (32 * i + k) (omega arith) (rw (at, bit) m)))),
)
