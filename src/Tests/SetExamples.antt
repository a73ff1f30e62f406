-- ===== src/Tests/SetExamples.antt =====
-- The theorems on the sets of the runtime at concrete inputs.
use lacsap.Prelude.{
  ℕ, zero, suc, ◌*◌, ◌^◌, ◌<◌, true, not, ◌&&◌, ◌||◌, List, [], ◌∷◌, ◌≡◌, ◌↔◌, refl, arith, get_or,
}
use lacsap.Outcome.{done}
use lacsap.Runtime.Sets.{
  each_word, set_union, set_diff, set_intersect, set_sym_diff, set_contains, set_equal,
}
use lacsap.Runtime.Sets.Members.{has, set_ops-has, set_contains-has}

-- The members 1, 2 and 33
abbrev some_numbers : List ℕ
some_numbers = 6 ∷ 2 ∷ []

-- The members 2 and 32
abbrev others : List ℕ
others = 4 ∷ 1 ∷ []

joins : set_union some_numbers others 2 ≡ done (6 ∷ 3 ∷ [])
unfolding set_union each_word
joins = refl

takes_away : set_diff some_numbers others 2 ≡ done (2 ∷ 2 ∷ [])
unfolding set_diff each_word
takes_away = refl

equals_itself : set_equal others others 2 ≡ done true
unfolding set_equal
equals_itself = refl

words_small : (i : ℕ) → get_or others i 0 < 2 ^ 32
words_small zero = omega arith
words_small (suc zero) = omega arith
words_small (suc (suc i)) = omega arith

set_ops-has_example :
    ((r : List ℕ) × (set_union some_numbers others 2 ≡ done r)
      × (has r 33 ≡ (has some_numbers 33 || has others 33)))
    × ((r : List ℕ) × (set_intersect some_numbers others 2 ≡ done r)
        × (has r 33 ≡ (has some_numbers 33 && has others 33)))
    × ((r : List ℕ) × (set_diff some_numbers others 2 ≡ done r)
        × (has r 33 ≡ (has some_numbers 33 && not (has others 33))))
    × ((r : List ℕ) × (set_sym_diff some_numbers others 2 ≡ done r)
        × (has r 33 ≡ (
            (has some_numbers 33 || has others 33) && not (has some_numbers 33 && has others 33))))
set_ops-has_example =
    set_ops-has some_numbers others 2 33 (omega arith) (omega arith) words_small (omega arith)

set_contains-has_example :
    (set_contains others some_numbers 2 ≡ done true)
    ↔ ((v : ℕ) → v < 32 * 2 → has others v ≡ true → has some_numbers v ≡ true)
set_contains-has_example =
    set_contains-has others some_numbers 2 (omega arith) (omega arith) words_small
