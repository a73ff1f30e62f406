-- ===== src/Types/Class/Places.antt =====
-- types.cpp: the places of the fields of a class.
use lacsap.Prelude.{
  ℕ, suc, ◌+◌, ◌-◌, ◌<◌, ◌≤◌, Bool, true, false, not, ◌&&◌, ◌||◌, Option, none, some, List, ◌≡◌,
  ◌⊎◌, inl, inr, refl, ap, ◌∙◌, if◌then◌else◌, Text, text_eq, ltb, Bool-cases, Option-cases, arith,
}
use lacsap.Outcome.{Outcome, done, undefined, bind-done}
use lacsap.Types.Fields.{
  Fields, no_fields, field, FieldDecl, field_name, field_size, field_at, element_from, element_of,
  has_inner,
}
use lacsap.Types.Class.{MemberFuncDecl, ClassDecl, null, class_decl, field_count}
use lacsap.Types.Class.Table.{has_vtable, one_if, class_element, class_get_element, is_null}

-- The field has the name, or is a record without a name that has such a field.
abbrev pub Holds : FieldDecl → Text → Type 0
Holds f name = (has_inner f name ≡ done true) ⊎ (text_eq (field_name f) name ≡ true)

element_from-Holds :
    (i : ℕ) (fs : Fields) (name : Text) (k : ℕ)
    → element_from i fs name ≡ done (some k)
    → (j : ℕ) × (f : FieldDecl) × (k ≡ i + j)
      × (j < field_size fs)
      × (field_at fs j ≡ some f)
      × Holds f name
unfolding element_from
element_from-Holds i no_fields name k e = cc
element_from-Holds i (field f fs) name k e =
    let (inner, h, e') =
      bind-done (has_inner f name)
        (λ b.
          if b || text_eq (field_name f) name then done (some i) else element_from (suc i) fs name)
        (some k) e in
    elim (Bool-cases (inner || text_eq (field_name f) name)) [
      | inl here ↦
          let at : i ≡ k = cc (rw here at e') in
          let holds : Holds f name = elim (Bool-cases inner) [
            | inl b ↦ inl (h ∙ ap done b)
            | inr b ↦ inr (rw b at here)
          ] in
          (0, f, omega arith, omega arith, refl, holds)
      | inr later ↦
          let (j, g, at, lt, found, holds) =
            element_from-Holds (suc i) fs name k (rw later at e') in
          (suc j, g, omega arith, omega arith, found, holds)
    ]

-- Every class has a table of virtual functions if its base has one, and the other way round.
abbrev pub TablesAgree : ClassDecl → Type 0
TablesAgree null = Unit {0}
TablesAgree (class_decl a nm fs mf v base) =
    ((is_null base ≡ true) ⊎ (has_vtable (class_decl a nm fs mf v base) ≡ has_vtable base))
    × TablesAgree base

one_if-le : (b : Bool) → one_if b ≤ 1
one_if-le true = omega arith
one_if-le false = omega arith

own_place : (b : Bool) (n m : ℕ) → m ≤ n → (not b && ltb n m) ≡ false
own_place true n m h = refl
own_place false n m h = ground arith

found-is_null :
    (c : ClassDecl) (name : Text) (n : ℕ) → class_element c name ≡ done (some n) → is_null c ≡ false
unfolding class_element
found-is_null null name n e = cc
found-is_null (class_decl a nm fs mf v base) name n e = refl

class_element-Holds :
    (c : ClassDecl) (name : Text) (n : ℕ)
    → TablesAgree c
    → class_element c name ≡ done (some n)
    → (n < field_count c + one_if (has_vtable c))
      × ((f : FieldDecl) × (cn : Text) × (class_get_element c n ≡ done (f, cn)) × Holds f name)
unfolding class_element class_get_element field_count element_of
class_element-Holds null name n agree e = cc
class_element-Holds (class_decl a nm fs mf v base) name n agree e =
    let c : ClassDecl = class_decl a nm fs mf v base in
    let (own, o, e') =
      bind-done (element_of fs name)
        (λ own. elim own as (λ _. Outcome (Option ℕ)) [
          | some i ↦ done (some (i + field_count base + one_if (has_vtable c)))
          | none ↦ class_element base name
        ])
        (some n) e in
    elim (Option-cases own) [
      | inr (i, w) ↦
          let (j, f, at, lt, found, holds) = element_from-Holds 0 fs name i (o ∙ ap done w) in
          let place : i + field_count base + one_if (has_vtable c) ≡ n = cc (rw w at e') in
          let small : one_if (has_vtable c) ≤ 1 = one_if-le (has_vtable c) in
          let here : (not (is_null base) && ltb n (field_count base + one_if (has_vtable base)))
              ≡ false =
            elim agree.0 [
              | inl z ↦ rw z refl
              | inr same ↦
                  own_place (is_null base) n (field_count base + one_if (has_vtable base))
                    (rw (← same) (omega arith))
            ] in
          let e₁ : ltb (field_count base + field_size fs) n ≡ false = ground arith in
          let e₂ : ltb n (field_count base + one_if (has_vtable c)) ≡ false = ground arith in
          let e₃ : n - (field_count base + one_if (has_vtable c)) ≡ j = omega arith in
          (omega arith, (f, nm, rw (here, e₁, e₂, e₃, found) refl, holds))
      | inl w ↦
          let e'' : class_element base name ≡ done (some n) = rw w at e' in
          let (lt, (f, cn, got, holds)) = class_element-Holds base name n agree.1 e'' in
          let there : is_null base ≡ false = found-is_null base name n e'' in
          elim agree.0 [
            | inl z ↦ cc (z, there)
            | inr same ↦
                let below : (not (is_null base)
                      && ltb n (field_count base + one_if (has_vtable base)))
                    ≡ true =
                  rw there (ground arith) in
                (rw same (omega arith), (f, cn, rw below got, holds))
          ]
    ]

-- `GetElement` of what `Element` gives for a name is a field of that name, or the record that has
-- one, in every class whose bases have a table of virtual functions like it, or all have none.
pub class_get_element-Holds :
    (c : ClassDecl) (name : Text) (n : ℕ)
    → TablesAgree c
    → class_element c name ≡ done (some n)
    → (f : FieldDecl) × (cn : Text) × (class_get_element c n ≡ done (f, cn)) × Holds f name
class_get_element-Holds c name n agree e = (class_element-Holds c name n agree e).1

-- Where a class has a table of virtual functions and its base has none, `GetElement` of the place
-- of the last field of the base, with the table before it as `GetLlvmType` counts, is undefined.
pub class_get_element-undefined :
    (a : ℕ) (nm : Text) (fs : Fields) (mf : List MemberFuncDecl) (v : Option ℕ) (base : ClassDecl)
    → has_vtable (class_decl a nm fs mf v base) ≡ true
    → has_vtable base ≡ false
    → class_get_element (class_decl a nm fs mf v base) (field_count base) ≡ undefined
unfolding class_get_element
class_get_element-undefined a nm fs mf v base h k =
    let out : (not (is_null base)
          && ltb (field_count base) (field_count base + one_if (has_vtable base)))
        ≡ false =
      own_place (is_null base) (field_count base) (field_count base + one_if (has_vtable base))
        (rw k (omega arith)) in
    let in_range : ltb (field_count base + field_size fs) (field_count base) ≡ false =
      ground arith in
    let low : ltb (field_count base) (field_count base + 1) ≡ true = ground arith in
    rw (out, in_range, h, low) refl
