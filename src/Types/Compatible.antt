-- ===== src/Types/Compatible.antt =====
-- types.h, types.cpp: `CompatibleType` and `AssignableType`, and the tests of types. The result is
-- the address of a type, or `none` for a null pointer. The size of the type of LLVM is a parameter.
pub mod Numeric
pub mod Sizes
use lacsap.Prelude.{
  ℕ, zero, suc, ◌+◌, Bool, true, false, not, ◌&&◌, ◌||◌, Option, none, some, List, [], ◌∷◌,
  if◌then◌else◌, ◌==◌, leb, length,
}
use lacsap.Prelude.Int.{ℤ, pos, leb_ℤ, ltb_ℤ, sub_ℕ, pos_part, neg_part}
use lacsap.Outcome.{Outcome, done, ice, undefined, out_of_fuel, ◌>>=◌}
use lacsap.Types.Class.{ClassDecl, class_compatible, derived_from}
use lacsap.Types.Node.{
  TypeDecl, TypeKind, Heap, load, type_of, kind_eq, Range, char_decl, integer_decl, int64_decl,
  real_decl, void_decl, bool_decl, range_decl, dyn_range_decl, array_decl, string_decl,
  dyn_array_decl, enum_decl, pointer_decl, function_decl, complex_decl, class_type, set_decl,
  tk_char, tk_integer, tk_long_int, tk_real, tk_complex, tk_range, tk_sch_range, tk_dyn_range,
  tk_enum, tk_boolean, tk_array, tk_string, tk_dyn_array, tk_record, tk_class,
}
use lacsap.Types.Same.{array_ranges, same_as}

abbrev pub is_kind : TypeKind → List TypeKind → Bool
is_kind k [] = false
is_kind k (j ∷ js) = kind_eq k j || is_kind k js

-- `IsNumeric`
unfoldable pub is_numeric : TypeKind → Bool
is_numeric k = is_kind k (tk_integer ∷ tk_long_int ∷ tk_real ∷ tk_complex ∷ [])

-- `IsIntegral`
unfoldable pub is_integral : TypeKind → Bool
is_integral k = is_kind k (
    tk_char ∷ tk_integer ∷ tk_long_int ∷ tk_range ∷ tk_sch_range ∷ tk_dyn_range ∷ tk_enum
    ∷ tk_boolean ∷ [])

-- `IsCompound`
unfoldable pub is_compound : TypeKind → Bool
is_compound k = is_kind k (tk_array ∷ tk_string ∷ tk_dyn_array ∷ tk_record ∷ tk_class ∷ [])

-- `this` or a null pointer
abbrev pub this_if : ℕ → Bool → Option ℕ
this_if p b = if b then some p else none

-- `Range::Size`, on 64 bits
unfoldable pub range_size : Range → ℕ
range_size r =
    pos_part (sub_ℕ (pos_part r.last + neg_part r.start + 1) (neg_part r.last + pos_part r.start))

module _ (h : Heap) (size : ℕ → ℕ) where
  -- `Capacity` of a string: `Ranges ()[0]->GetRange ()->Size () - 2`
  unfoldable pub capacity : List ℕ → Outcome ℤ
  unfolding range_size
  capacity [] = undefined
  capacity (r ∷ rs) = do
    t ← load h r
    elim t [ range_decl range b ↦ done (sub_ℕ (range_size range) 2) | other ↦ ice ]

  -- The loop of `ArrayDecl::CompatibleType` over the sizes of the ranges' types
  abbrev pub same_sizes : List ℕ → List ℕ → Bool
  same_sizes [] [] = true
  same_sizes (a ∷ as') (b ∷ bs) = size a == size b && same_sizes as' bs
  same_sizes _ _ = false

  -- The base type of what `ArrayDecl::classof` accepts
  abbrev pub array_base : TypeDecl → ℕ
  array_base (array_decl b rs) = b
  array_base (string_decl b rs) = b
  array_base t = 0

  -- `ArrayDecl::CompatibleType` after `SameAs`
  unfoldable pub array_compatible : ℕ → ℕ → List ℕ → TypeDecl → Option ℕ
  unfolding array_ranges
  array_compatible this b rs u = elim (array_ranges u) [
    | none ↦ none
    | some rs' ↦ this_if this (array_base u == b && length rs == length rs' && same_sizes rs rs')
  ]

  -- `DynArrayDecl::CompatibleType` after `SameAs`
  unfoldable pub dyn_array_compatible : ℕ → ℕ → TypeDecl → Option ℕ
  unfolding array_ranges
  dyn_array_compatible b ty u = elim (array_ranges u) [
    | none ↦ none
    | some rs ↦ this_if ty (array_base u == b && length rs == 1)
  ]

  -- `StringDecl::CompatibleType` after `SameAs`, with a type of kind k
  unfoldable pub string_compatible : ℕ → List ℕ → ℕ → TypeKind → TypeDecl → Outcome (Option ℕ)
  unfolding array_ranges capacity
  string_compatible this rs ty k u =
      if kind_eq k tk_char
      then done (some this)
      else (if kind_eq k tk_string
          then elim u [
            | string_decl b rs' ↦ (do
              theirs ← capacity rs'
              own ← capacity rs
              done (some (if ltb_ℤ own theirs then ty else this)))
            | other ↦ undefined
          ]
          else done (
              if kind_eq k tk_array
              then elim (array_ranges u) [ none ↦ none | some rs' ↦ this_if this (length rs' == 1) ]
              else none))

  -- `PointerDecl::CompatibleType` after `SameAs`
  unfoldable pub pointer_compatible : (ℕ → ℕ → Outcome Bool) → ℕ → ℕ → TypeDecl → Outcome (Option ℕ)
  pointer_compatible same this b (pointer_decl b' i f) = do
    same_base ← same b b'
    if same_base then done (some this) else (do
      t' ← load h b'
      t ← load h b
      elim t' [
        | class_type c' ↦ elim t [
          | class_type c ↦ done (this_if this (derived_from c' b))
          | other ↦ done none
        ]
        | other ↦ done none
      ])
  pointer_compatible same this b u = done none

  -- `ClassDecl::CompatibleType`: up the bases of the other class
  unfoldable pub class_type_compatible :
      (ℕ → ℕ → Outcome Bool) → ℕ → ℕ → TypeDecl → Outcome (Option ℕ)
  class_type_compatible same this ty (class_type c) = done (this_if this (class_compatible this c))
  class_type_compatible same this ty u = do is_same ← same ty this; done (this_if this is_same)

  -- `RangeBaseDecl::CompatibleType`
  unfoldable pub range_compatible :
      (ℕ → ℕ → Outcome Bool) → (ℕ → Outcome TypeKind) → ℕ → ℕ → Outcome (Option ℕ)
  range_compatible same kind this ty = do
    is_same ← same this ty
    k ← kind ty
    own ← kind this
    done (
        if is_same
        then some this
        else (if kind_eq k own then some ty else (if kind_eq k tk_real then some ty else none)))

  -- `CompatibleType` by the class of the object; `of_base` is that of the base type
  unfoldable pub compatible_by :
      (ℕ → ℕ → Outcome Bool)
      → (ℕ → Outcome TypeKind)
      → (ℕ → ℕ → Outcome (Option ℕ))
      → ℕ
      → TypeDecl
      → ℕ
      → TypeDecl
      → Outcome (Option ℕ)
  unfolding array_compatible dyn_array_compatible string_compatible pointer_compatible
      class_type_compatible range_compatible is_numeric
  compatible_by same kind of_base this char_decl ty u = do
    is_same ← same this ty
    k ← kind ty
    done (this_if this (is_same || kind_eq k tk_string))
  compatible_by same kind of_base this integer_decl ty u = do
    k ← kind ty
    done (
        if kind_eq k tk_integer
        then some this
        else (if is_kind k (tk_long_int ∷ tk_real ∷ tk_complex ∷ []) then some ty else none))
  compatible_by same kind of_base this int64_decl ty u = do
    k ← kind ty
    done (
        if is_kind k (tk_long_int ∷ tk_integer ∷ [])
        then some this
        else (if is_kind k (tk_real ∷ tk_complex ∷ []) then some ty else none))
  compatible_by same kind of_base this real_decl ty u = do
    is_same ← same this ty
    k ← kind ty
    done (
        if is_same || is_kind k (tk_long_int ∷ tk_integer ∷ [])
        then some this
        else (if kind_eq k tk_complex then some ty else none))
  compatible_by same kind of_base this (complex_decl fs c) ty u = do
    is_same ← same this ty
    k ← kind ty
    done (this_if this (is_same || is_numeric k))
  compatible_by same kind of_base this void_decl ty u = done none
  compatible_by same kind of_base this (range_decl r b) ty u = range_compatible same kind this ty
  compatible_by same kind of_base this (dyn_range_decl l hi b) ty u =
      range_compatible same kind this ty
  compatible_by same kind of_base this (array_decl b rs) ty u = do
    is_same ← same this ty
    done (if is_same then some this else array_compatible this b rs u)
  compatible_by same kind of_base this (dyn_array_decl b r) ty u = do
    is_same ← same this ty
    done (if is_same then some this else dyn_array_compatible b ty u)
  compatible_by same kind of_base this (string_decl b rs) ty u = do
    is_same ← same this ty
    k ← kind ty
    if is_same then done (some this) else string_compatible this rs ty k u
  compatible_by same kind of_base this (pointer_decl b i f) ty u = do
    is_same ← same this ty
    if is_same then done (some this) else pointer_compatible same this b u
  compatible_by same kind of_base this (function_decl p b) ty u = of_base b ty
  compatible_by same kind of_base this (class_type c) ty u = class_type_compatible same this ty u
  compatible_by same kind of_base this (set_decl r b) ty (set_decl r' b') = do
    is_same ← same b b'
    done (this_if this is_same)
  compatible_by same kind of_base this (set_decl r b) ty u = done none
  compatible_by same kind of_base this t ty u = do
    is_same ← same this ty
    done (this_if this is_same)

  -- `this->CompatibleType (ty)`
  unfoldable pub compatible_type : ℕ → ℕ → ℕ → Outcome (Option ℕ)
  unfolding compatible_by
  compatible_type zero this ty = out_of_fuel
  compatible_type (suc n) this ty = do
    t ← load h this
    u ← load h ty
    compatible_by (same_as n h) (type_of (suc n) h) (compatible_type n) this t ty u

  -- `AssignableType`, by the class of the object
  unfoldable pub assignable_by :
      (ℕ → ℕ → Outcome Bool)
      → (ℕ → Outcome TypeKind)
      → (ℕ → ℕ → Outcome (Option ℕ))
      → Outcome (Option ℕ)
      → ℕ
      → TypeDecl
      → ℕ
      → Outcome (Option ℕ)
  assignable_by same kind of_base compatible this char_decl ty = do
    is_same ← same this ty
    done (this_if this is_same)
  assignable_by same kind of_base compatible this integer_decl ty = do
    is_same ← same this ty
    done (this_if ty is_same)
  assignable_by same kind of_base compatible this int64_decl ty = do
    is_same ← same this ty
    k ← kind ty
    done (this_if this (is_same || kind_eq k tk_integer))
  assignable_by same kind of_base compatible this (range_decl r b) ty = do
    is_same ← same this ty
    k ← kind ty
    own ← kind this
    done (this_if ty (is_same || kind_eq k own))
  assignable_by same kind of_base compatible this (dyn_range_decl l hi b) ty = do
    is_same ← same this ty
    k ← kind ty
    own ← kind this
    done (this_if ty (is_same || kind_eq k own))
  assignable_by same kind of_base compatible this (function_decl p b) ty = of_base b ty
  assignable_by same kind of_base compatible this t ty = compatible

  -- `this->AssignableType (ty)`
  unfoldable pub assignable_type : ℕ → ℕ → ℕ → Outcome (Option ℕ)
  unfolding assignable_by compatible_type
  assignable_type zero this ty = out_of_fuel
  assignable_type (suc n) this ty = do
    t ← load h this
    assignable_by (same_as n h) (type_of (suc n) h) (assignable_type n)
        (compatible_type (suc n) this ty) this t ty
