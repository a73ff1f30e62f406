-- ===== src/Runtime/Sets.antt =====
-- runtime/set.c: the operations on the words of sets. An array of words is a list; a loop past its
-- end is undefined. A word is an `unsigned int` of 32 bits.
pub mod Bits
pub mod Members
use Prim.Native.Nat.{bit_and, bit_or, bit_xor}
use lacsap.Prelude.{
  ℕ, zero, suc, ◌-◌, ◌^◌, Bool, true, false, not, List, [], ◌∷◌, if◌then◌else◌, ◌==◌,
}
use lacsap.Outcome.{Outcome, done, undefined, ◌>>=◌}

-- `~x`
abbrev pub complement : ℕ → ℕ
complement x = 2 ^ 32 - 1 - x

-- The loops that write `res`, by what they do with two words
unfoldable pub each_word : (ℕ → ℕ → ℕ) → List ℕ → List ℕ → ℕ → Outcome (List ℕ)
each_word f a b zero = done []
each_word f (x ∷ a) (y ∷ b) (suc n) = do rest ← each_word f a b n; done (f x y ∷ rest)
each_word f a b (suc n) = undefined

-- `__SetUnion`
unfoldable pub set_union : List ℕ → List ℕ → ℕ → Outcome (List ℕ)
set_union a b set_words = each_word bit_or a b set_words

-- `__SetDiff`
unfoldable pub set_diff : List ℕ → List ℕ → ℕ → Outcome (List ℕ)
set_diff a b set_words = each_word (λ x y. bit_and x (complement y)) a b set_words

-- `__SetIntersect`
unfoldable pub set_intersect : List ℕ → List ℕ → ℕ → Outcome (List ℕ)
set_intersect a b set_words = each_word bit_and a b set_words

-- `__SetSymDiff`
unfoldable pub set_sym_diff : List ℕ → List ℕ → ℕ → Outcome (List ℕ)
set_sym_diff a b set_words = each_word bit_xor a b set_words

-- `__SetContains`
unfoldable pub set_contains : List ℕ → List ℕ → ℕ → Outcome Bool
set_contains a b zero = done true
set_contains (x ∷ a) (y ∷ b) (suc n) =
    let rest = set_contains a b n in if not (bit_and x y == x) then done false else rest
set_contains a b (suc n) = undefined

-- `__SetEqual`, by `memcmp` of the words
unfoldable pub set_equal : List ℕ → List ℕ → ℕ → Outcome Bool
set_equal a b zero = done true
set_equal (x ∷ a) (y ∷ b) (suc n) =
    let rest = set_equal a b n in if not (x == y) then done false else rest
set_equal a b (suc n) = undefined
