-- ===== src/Types/Class/Bases.antt =====
-- types.cpp: classes and the classes that they are derived from.
use lacsap.Prelude.{
  ℕ, true, ◌≡◌, ◌↔◌, refl, inl, inr, ◌==◌, ◌||◌, Bool-cases, Text, Option, List, arith,
}
use lacsap.Types.Fields.{Fields}
use lacsap.Types.Class.{
  ClassDecl, null, class_decl, MemberFuncDecl, derived_loop, derived_from, class_compatible,
}

-- The class has a base with this address, near or far.
pub data Derives : ClassDecl → ℕ → Type 0 where
  from_base :
      (a : ℕ) (nm : Text) (fs : Fields) (mf : List MemberFuncDecl) (v : Option ℕ) (b : ℕ)
      (nm' : Text) (fs' : Fields) (mf' : List MemberFuncDecl) (v' : Option ℕ) (base : ClassDecl)
      → Derives (class_decl a nm fs mf v (class_decl b nm' fs' mf' v' base)) b
  from_above :
      (a : ℕ) (nm : Text) (fs : Fields) (mf : List MemberFuncDecl) (v : Option ℕ) (base : ClassDecl)
      {ty : ℕ}
      → Derives base ty
      → Derives (class_decl a nm fs mf v base) ty

derived_from_sound : (c : ClassDecl) (ty : ℕ) → derived_from c ty ≡ true → Derives c ty
unfolding derived_from derived_loop
derived_from_sound null ty h = cc
derived_from_sound (class_decl a nm fs mf v null) ty h = cc
derived_from_sound (class_decl a nm fs mf v (class_decl b nm' fs' mf' v' base)) ty h =
    elim (Bool-cases (ty == b)) [
      | inl near ↦
          let e : b ≡ ty = ground arith in rw (← e) (from_base a nm fs mf v b nm' fs' mf' v' base)
      | inr far ↦
          from_above a nm fs mf v (class_decl b nm' fs' mf' v' base)
            (derived_from_sound (class_decl b nm' fs' mf' v' base) ty (rw far at h))
    ]

derived_from_complete : (c : ClassDecl) (ty : ℕ) → Derives c ty → derived_from c ty ≡ true
unfolding derived_from derived_loop
derived_from_complete c ty (from_base a nm fs mf v b nm' fs' mf' v' base) = ground arith
derived_from_complete c ty (from_above a nm fs mf v null d) = derived_from_complete null ty d
derived_from_complete c ty (from_above a nm fs mf v (class_decl b nm' fs' mf' v' base) d) =
    ground (arith, derived_from_complete (class_decl b nm' fs' mf' v' base) ty d)

class_compatible-loop : (ty : ℕ) (c : ClassDecl) → class_compatible ty c ≡ derived_loop c ty
unfolding class_compatible derived_loop
class_compatible-loop ty null = refl
class_compatible-loop ty (class_decl a nm fs mf v base) =
    ground (arith, class_compatible-loop ty base)

-- `DerivedFrom` finds exactly the bases of a class, the near one and those above it; and a class is
-- compatible with another exactly if it is that class or one of its bases.
pub derived_from-Derives :
    (a : ℕ) (nm : Text) (fs : Fields) (mf : List MemberFuncDecl) (v : Option ℕ) (base : ClassDecl)
    (ty : ℕ)
    → ((derived_from (class_decl a nm fs mf v base) ty ≡ true)
        ↔ Derives (class_decl a nm fs mf v base) ty)
      × (class_compatible ty (class_decl a nm fs mf v base)
          ≡ ((a == ty) || derived_from (class_decl a nm fs mf v base) ty))
unfolding derived_from class_compatible
derived_from-Derives a nm fs mf v base ty = (
  (
    derived_from_sound (class_decl a nm fs mf v base) ty,
    derived_from_complete (class_decl a nm fs mf v base) ty,
  ),
  elim (Bool-cases (a == ty)) [
    | inl same ↦ rw same refl
    | inr other ↦ rw other (class_compatible-loop ty base)
  ],
)
