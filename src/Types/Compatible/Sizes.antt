-- ===== src/Types/Compatible/Sizes.antt =====
-- types.h, types.cpp: `Size` of the types of ranges, and `CompatibleType` on arrays.
use lacsap.Prelude.{
  ℕ, zero, suc, Bool, true, false, some, List, [], ◌∷◌, ◌≡◌, refl, ap, ◌==◌, length, arith,
}
use lacsap.Outcome.{done}
use lacsap.Types.Node.{Heap, Range, range_decl, dyn_range_decl, array_decl}
use lacsap.Types.Same.{same_as, array_ranges}
use lacsap.Types.Compatible.{compatible_by, array_compatible, compatible_type, same_sizes}
use lacsap.Types.Compatible.Numeric.{compatible_type-by}

-- `Size` of the type at an address, as far as ranges go: LLVM has the type of the base for them, so
-- that the size is that of the base. `own` has the sizes of the other types.
unfoldable pub type_size : (ℕ → ℕ) → Heap → ℕ → ℕ → ℕ
type_size own h zero p = own p
type_size own h (suc n) p = elim (h p) [
  | some (range_decl r b) ↦ type_size own h n b
  | some (dyn_range_decl l hi b) ↦ type_size own h n b
  | _ ↦ own p
]

-- Ranges over the same base types, place by place
pub data SameBases (h : Heap) : List ℕ → List ℕ → Type 0 where
  no_bases : SameBases h [] []
  same_base :
      (p q b : ℕ) (r r' : Range) {ps qs : List ℕ}
      → h p ≡ some (range_decl r b)
      → h q ≡ some (range_decl r' b)
      → SameBases h ps qs
      → SameBases h (p ∷ ps) (q ∷ qs)

module _ (own : ℕ → ℕ) (h : Heap) (m : ℕ) where
  size-range :
      (p b : ℕ) (r : Range)
      → h p ≡ some (range_decl r b)
      → type_size own h (suc m) p ≡ type_size own h m b
  unfolding type_size
  size-range p b r e = rw (type_size, e) refl

  same_sizes-SameBases :
      {rs rs' : List ℕ} → SameBases h rs rs' → same_sizes h (type_size own h (suc m)) rs rs' ≡ true
  same_sizes-SameBases no_bases = refl
  same_sizes-SameBases (same_base p q b r r' ep eq rest) =
      let self : (type_size own h m b == type_size own h m b) ≡ true = ground arith in
      rw (size-range p b r ep, size-range q b r' eq, self) (same_sizes-SameBases rest)

  length-SameBases : {rs rs' : List ℕ} → SameBases h rs rs' → length rs ≡ length rs'
  length-SameBases no_bases = refl
  length-SameBases (same_base p q b r r' ep eq rest) = ap suc (length-SameBases rest)

  -- Arrays of one base type are compatible when their ranges are, place by place, over the same
  -- types, whatever the bounds of the ranges are, so that they can have different numbers of
  -- elements. The condition is that `SameAs` on the two ends.
  pub compatible_type-array :
      (n p q b : ℕ) (rs rs' : List ℕ) (is_same : Bool)
      → h p ≡ some (array_decl b rs)
      → h q ≡ some (array_decl b rs')
      → same_as n h p q ≡ done is_same
      → SameBases h rs rs'
      → compatible_type h (type_size own h (suc m)) (suc n) p q ≡ done (some p)
  unfolding compatible_by array_compatible array_ranges
  compatible_type-array n p q b rs rs' true hp hq same bases =
      rw
        (
          compatible_type-by h (type_size own h (suc m)) n p q (array_decl b rs) (array_decl b rs')
              hp hq,
          same,
        )
        refl
  compatible_type-array n p q b rs rs' false hp hq same bases =
      let e₁ : (b == b) ≡ true = ground arith in
      let e₂ : (length rs == length rs') ≡ true = ground (arith, length-SameBases bases) in
      rw
        (
          compatible_type-by h (type_size own h (suc m)) n p q (array_decl b rs) (array_decl b rs')
              hp hq,
          same,
          e₁,
          e₂,
          same_sizes-SameBases bases,
        )
        refl
