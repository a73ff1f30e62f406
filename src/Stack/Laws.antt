-- ===== src/Stack/Laws.antt =====
-- stack.h, stack.cpp: what a look-up finds after an operation of the symbol table.
use lacsap.Prelude.{
  Bool, true, false, [], ◌∷◌, ◌++◌, strlower, none, some, ◌≡◌, refl, if◌then◌else◌, Text, text_eq,
  Option-cases, inl, inr, Bool-cases,
}
use lacsap.Stack.{
  Level, Stack, lower_if_needed, find_in, insert, add, find, find_levels, find_top_level, front,
  find_base_level, interface_add,
}

module _ {ℓ} {T : Type ℓ} where
  -- A name that the innermost level does not hold is added: from then on it is found with its
  -- value, and every other name is found as before. Names are compared as the option says.
  pub find-add :
      (ci : Bool) (n : Text) (v : T) (m : Level T) (s : Stack T)
      → find_top_level ci n (m ∷ s) ≡ some none
      → (s' : Stack T) × (add ci n v (m ∷ s) ≡ some (true, s'))
        × ((j : Text)
            → find ci j s' ≡ (
                if text_eq (lower_if_needed ci n) (lower_if_needed ci j)
                then some v
                else find ci j (m ∷ s)))
  unfolding add find find_top_level
  find-add ci n v m s h =
      let k = lower_if_needed ci n in
      let e : find_in k m ≡ none = cc in
      (
        ((k, v) ∷ m) ∷ s,
        rw e refl,
        λ j. elim (Bool-cases (text_eq k (lower_if_needed ci j))) [
          | inl same ↦ rw same refl
          | inr other ↦ rw other refl
        ],
      )

  -- A name that the innermost level holds is refused, and nothing changes.
  pub add_taken :
      (ci : Bool) (n : Text) (v w : T) (m : Level T) (s : Stack T)
      → find_top_level ci n (m ∷ s) ≡ some (some w)
      → add ci n v (m ∷ s) ≡ some (false, m ∷ s)
  unfolding add find_top_level
  add_taken ci n v w m s h = let e : find_in (lower_if_needed ci n) m ≡ some w = cc in rw e refl

  front-concat : (s : Stack T) (m : Level T) → front (s ++ m ∷ []) ≡ some m
  unfolding front
  front-concat [] m = refl
  front-concat (a ∷ []) m = refl
  front-concat (a ∷ b ∷ s) m = front-concat (b ∷ s) m

  find_levels-concat :
      (n : Text) (s : Stack T) (m : Level T)
      → find_levels n s ≡ none
      → find_levels n (s ++ m ∷ []) ≡ find_in n m
  unfolding find_levels
  find_levels-concat n [] m h = elim (Option-cases (find_in n m)) [
    | inl e ↦ rw e refl
    | inr (v, e) ↦ rw e refl
  ]
  find_levels-concat n (a ∷ s) m h = elim (Option-cases (find_in n a)) [
    | inl e ↦ rw e (find_levels-concat n s m (rw e at h))
    | inr (v, e) ↦ cc (e, h)
  ]

  -- `FindBaseLevel` reads the outermost level: a name that no inner level holds is found there.
  find_base_level-eq-find :
      (ci : Bool) (n : Text) (s : Stack T) (m : Level T)
      → find ci n s ≡ none
      → find_base_level ci n (s ++ m ∷ []) ≡ some (find ci n (s ++ m ∷ []))
  unfolding find find_base_level
  find_base_level-eq-find ci n s m h =
      rw (front-concat s m, find_base_level, find_levels-concat (lower_if_needed ci n) s m h) refl

  -- An interface list takes a name as a level of the table does.
  pub interface_add-eq-insert :
      (ci : Bool) (n : Text) (v : T) (m : Level T)
      → interface_add ci n v m ≡ insert (lower_if_needed ci n) v m
  unfolding interface_add insert lower_if_needed
  interface_add-eq-insert ci n v m =
      elim (Option-cases (find_in (if ci then strlower n else n) m)) [
        | inl e ↦ rw (e, interface_add) refl
        | inr (w, e) ↦ rw (e, interface_add) refl
      ]
