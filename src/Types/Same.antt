-- ===== src/Types/Same.antt =====
-- types.h, types.cpp: the equality of types, `SameAs`.
use lacsap.Prelude.{
  ℕ, zero, suc, Bool, true, false, ◌&&◌, Option, none, some, List, [], ◌∷◌, if◌then◌else◌, ◌==◌,
  length,
}
use lacsap.Outcome.{Outcome, done, out_of_fuel, ◌>>=◌}
use lacsap.Types.Node.{
  TypeDecl, TypeKind, Heap, load, type_of, get_kind, kind_eq, range_eq, EnumValue, enum_value_eq,
  ProtoType, bool_decl, range_decl, dyn_range_decl, array_decl, string_decl, dyn_array_decl,
  enum_decl, pointer_decl, function_decl, func_ptr_decl, field_of, variant_decl, record_decl,
  complex_decl, class_type, member_func_decl, file_decl, text_decl, set_decl, forward_decl,
}

-- `SubType` of what `CompoundDecl::classof` accepts
unfoldable pub compound_base : TypeDecl → Option ℕ
compound_base (array_decl b rs) = some b
compound_base (string_decl b rs) = some b
compound_base (pointer_decl b i f) = some b
compound_base (field_of n b s) = some b
compound_base (func_ptr_decl p) = some 0
compound_base (file_decl b) = some b
compound_base (text_decl b) = some b
compound_base (set_decl r b) = some b
compound_base t = none

-- `Ranges` of what `ArrayDecl::classof` accepts
unfoldable pub array_ranges : TypeDecl → Option (List ℕ)
array_ranges (array_decl b rs) = some rs
array_ranges (string_decl b rs) = some rs
array_ranges t = none

-- Lists of the same pointers
abbrev pub same_pointers : List ℕ → List ℕ → Bool
same_pointers [] [] = true
same_pointers (a ∷ as') (b ∷ bs) = a == b && same_pointers as' bs
same_pointers _ _ = false

abbrev pub same_values : List EnumValue → List EnumValue → Bool
same_values [] [] = true
same_values (a ∷ as') (b ∷ bs) = enum_value_eq a b && same_values as' bs
same_values _ _ = false

-- The sizes of two lists, and then a test of their elements in turn, up to the first that fails
abbrev pub all_pairs : (ℕ → ℕ → Outcome Bool) → List ℕ → List ℕ → Outcome Bool
all_pairs same [] [] = done true
all_pairs same (a ∷ as') (b ∷ bs) = do
  first ← same a b
  if first then all_pairs same as' bs else done false
all_pairs same _ _ = done false

module _ (h : Heap) where
  -- `CompoundDecl::SameAs`, of the object at `this` with the base type b
  unfoldable pub compound_same :
      (ℕ → ℕ → Outcome Bool) → (ℕ → Outcome TypeKind) → ℕ → ℕ → ℕ → TypeDecl → Outcome Bool
  unfolding compound_base
  compound_same same kind this b ty u = if this == ty then done true else (do
    k ← kind this
    k' ← kind ty
    if kind_eq k k'
        then elim (compound_base u) [ none ↦ done false | some b' ↦ same b' b ]
        else done false)

  -- `ArrayDecl::SameAs`
  unfoldable pub array_same :
      (ℕ → ℕ → Outcome Bool) → (ℕ → Outcome TypeKind) → ℕ → ℕ → List ℕ → ℕ → TypeDecl → Outcome Bool
  unfolding compound_same array_ranges
  array_same same kind this b rs ty u = do
    compound ← compound_same same kind this b ty u
    if compound
        then elim (array_ranges u) [
          | none ↦ done false
          | some rs' ↦ if length rs == length rs' then all_pairs same rs rs' else done false
        ]
        else done false

  -- `SetDecl::SameAs`; the reference to a missing range of its own is undefined.
  unfoldable pub set_same :
      (ℕ → ℕ → Outcome Bool) → (ℕ → Outcome TypeKind) → ℕ → ℕ → ℕ → ℕ → TypeDecl → Outcome Bool
  unfolding compound_same
  set_same same kind this r b ty u = do
    compound ← compound_same same kind this b ty u
    if compound
        then elim u [
          | set_decl r' b' ↦ if r' == 0 then done false else same r r'
          | other ↦ done false
        ]
        else done false

  -- `PrototypeAST::operator==`
  unfoldable pub proto_same : (ℕ → ℕ → Outcome Bool) → ProtoType → ProtoType → Outcome Bool
  proto_same same p q =
      if q.proto_address == p.proto_address
      then done true
      else (if p.proto_base == q.proto_base && length p.arg_types == length q.arg_types
          then all_pairs same p.arg_types q.arg_types
          else done false)

  -- `TypeDecl::SameAs`
  unfoldable pub kind_same : (ℕ → Outcome TypeKind) → TypeDecl → ℕ → Outcome Bool
  kind_same kind t ty = do k ← kind ty; done (kind_eq (get_kind t) k)

  -- `RecordDecl::SameAs`
  unfoldable pub record_same : ℕ → ℕ → ℕ → TypeDecl → Bool
  record_same this cloned ty (record_decl fs v cloned') =
      if this == ty then true else (if cloned == ty then true else cloned' == this)
  record_same this cloned ty u = if this == ty then true else cloned == ty

  -- `SameAs` by the class of the object
  unfoldable pub same_by :
      (ℕ → ℕ → Outcome Bool) → (ℕ → Outcome TypeKind) → ℕ → TypeDecl → ℕ → TypeDecl → Outcome Bool
  unfolding compound_same array_same set_same proto_same kind_same record_same
  same_by same kind this bool_decl ty u = done (ty == this)
  same_by same kind this (range_decl r b) ty u = do
    k ← kind ty
    k' ← kind this
    elim u [ range_decl r' b' ↦ done (kind_eq k k' && range_eq r r') | other ↦ done (kind_eq k' k) ]
  same_by same kind this (dyn_range_decl l hi b) ty u = compound_same same kind this b ty u
  same_by same kind this (array_decl b rs) ty u = array_same same kind this b rs ty u
  same_by same kind this (string_decl b rs) ty u = array_same same kind this b rs ty u
  same_by same kind this (dyn_array_decl b r) ty u = compound_same same kind this b ty u
  same_by same kind this (enum_decl vs b) ty u = elim u [
    | enum_decl vs' b' ↦ done (length vs == length vs' && same_values vs vs')
    | other ↦ done false
  ]
  same_by same kind this (pointer_decl b i f) ty u = compound_same same kind this b ty u
  same_by same kind this (function_decl p b) ty u = compound_same same kind this b ty u
  same_by same kind this (func_ptr_decl p) ty u = elim u [
    | func_ptr_decl q ↦ proto_same same p q
    | function_decl q b ↦ proto_same same p q
    | other ↦ done false
  ]
  same_by same kind this (field_of n b s) ty u = same b ty
  same_by same kind this (variant_decl fs) ty u = elim u [
    | variant_decl fs' ↦ done (length fs == length fs' && same_pointers fs fs')
    | other ↦ done false
  ]
  same_by same kind this (record_decl fs v c) ty u = done (record_same this c ty u)
  same_by same kind this (complex_decl fs c) ty u = done (record_same this c ty u)
  same_by same kind this (class_type c) ty u = done (this == ty)
  same_by same kind this member_func_decl ty u = done (this == ty)
  same_by same kind this (file_decl b) ty u = compound_same same kind this b ty u
  same_by same kind this (text_decl b) ty u = compound_same same kind this b ty u
  same_by same kind this (set_decl r b) ty u = set_same same kind this r b ty u
  same_by same kind this (forward_decl n) ty u = done false
  same_by same kind this t ty u = kind_same kind t ty

-- `this->SameAs (ty)`
unfoldable pub same_as : ℕ → Heap → ℕ → ℕ → Outcome Bool
unfolding same_by
same_as zero h this ty = out_of_fuel
same_as (suc n) h this ty = do
  t ← load h this
  u ← load h ty
  same_by h (same_as n h) (type_of (suc n) h) this t ty u
