-- ===== src/Tests/StackExamples.antt =====
-- The theorems on the symbol table at concrete inputs.
use lacsap.Prelude.{
  ℕ, [], ◌∷◌, ◌++◌, ◌≡◌, refl, codes, strlower, Text, true, some, none, if◌then◌else◌, text_eq,
}
use lacsap.Stack.{Level, Stack, add, find, find_top_level, lower_if_needed}
use lacsap.Stack.Laws.{find-add}
use lacsap.Stack.Scopes.{new_op, drop_op, add_op, run_ops, IsNested, scope_restores}

-- A scope that holds "x", over one that holds "x" and "y"
abbrev inner : Level ℕ
inner = (codes "x", 1) ∷ []

abbrev outer : Stack ℕ
outer = ((codes "x", 2) ∷ (codes "y", 3) ∷ []) ∷ []

y_free : find_top_level true (codes "Y") (inner ∷ outer) ≡ some none
unfolding find_top_level strlower
y_free = refl

find-add_example :
    (s' : Stack ℕ) × (add true (codes "Y") 9 (inner ∷ outer) ≡ some (true, s'))
    × ((j : Text)
        → find true j s' ≡ (
            if text_eq (lower_if_needed true (codes "Y")) (lower_if_needed true j)
            then some 9
            else find true j (inner ∷ outer)))
find-add_example = find-add true (codes "Y") 9 inner outer y_free

z_inner : find {T = ℕ} true (codes "y") (inner ∷ []) ≡ none
unfolding find strlower
z_inner = refl

scope_restores_example :
    run_ops true
      (new_op
        ∷ ((add_op (codes "Y") 5 ∷ new_op ∷ ((add_op (codes "x") 6 ∷ []) ++ drop_op ∷ []))
            ++ drop_op ∷ []))
      (inner ∷ outer)
    ≡ some (inner ∷ outer)
scope_restores_example = scope_restores true inner outer (
    IsNested.adds (codes "Y") 5 (
      IsNested.block (add_op (codes "x") 6 ∷ []) (IsNested.adds (codes "x") 6 IsNested.done)
        IsNested.done))
