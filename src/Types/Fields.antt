-- ===== src/Types/Fields.antt =====
-- types.h, types.cpp: fields, and the collections of fields that records and classes have. The
-- type of a field is its address, and for a record its fields too, which `Element` goes into.
use lacsap.Prelude.{
  ℕ, zero, suc, Bool, true, false, ◌||◌, Option, none, some, [], ◌∷◌, if◌then◌else◌, Text, text_eq,
}
use lacsap.Outcome.{Outcome, done, ice, ◌>>=◌}

mutual
  -- The type of a field: `RecordDecl` with its fields, or another type
  pub data SubType : Type 0 where
    type_at : ℕ → SubType
    record_at : ℕ → Fields → SubType

  -- `FieldDecl`: the name, the type, and whether it is static
  pub data FieldDecl : Type 0 where
    field_decl : Text → SubType → Bool → FieldDecl

  -- `std::vector<FieldDecl*>`
  pub data Fields : Type 0 where
    no_fields : Fields
    field : FieldDecl → Fields → Fields

abbrev pub field_name : FieldDecl → Text
field_name (field_decl name sub is_static) = name

-- `fields.size()`
abbrev pub field_size : Fields → ℕ
field_size no_fields = 0
field_size (field f fs) = suc (field_size fs)

-- `fields[n]`
abbrev pub field_at : Fields → ℕ → Option FieldDecl
field_at no_fields n = none
field_at (field f fs) zero = some f
field_at (field f fs) (suc n) = field_at fs n

abbrev pub is_some {ℓ} : {A : Type ℓ} → Option A → Bool
is_some none = false
is_some (some a) = true

unfoldable mutual
  -- The loop of `FieldCollection::Element` from the field i on; -1 is `none`
  pub element_from : ℕ → Fields → Text → Outcome (Option ℕ)
  element_from i no_fields name = done none
  element_from i (field f fs) name =
      let rest = element_from (suc i) fs name in
      do
        inner ← has_inner f name
        if inner || text_eq (field_name f) name then done (some i) else rest

  -- The special case of a field without a name: has its record the element?
  pub has_inner : FieldDecl → Text → Outcome Bool
  has_inner (field_decl [] (record_at a fs) is_static) name = do
    found ← element_from 0 fs name
    done (is_some found)
  has_inner (field_decl [] (type_at a) is_static) name = ice
  has_inner (field_decl (c ∷ cs) sub is_static) name = done false

-- `FieldCollection::Element`
unfoldable pub element_of : Fields → Text → Outcome (Option ℕ)
element_of fs name = element_from 0 fs name

-- `FieldCollection::GetElement`
unfoldable pub get_field : Fields → ℕ → Outcome FieldDecl
get_field fs n = elim (field_at fs n) [ none ↦ ice | some f ↦ done f ]
