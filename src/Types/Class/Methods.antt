-- ===== src/Types/Class/Methods.antt =====
-- types.cpp: the member functions that a class has after its construction.
use lacsap.Prelude.{
  ℕ, suc, false, Option, none, some, List, [], ◌∷◌, ◌≡◌, refl, ap, ◌∙◌, inl, inr, ◌⊎◌,
  if◌then◌else◌, Text, text_eq, text_eq_sound, text_eq_self, Bool-cases, Option-cases,
}
use lacsap.Outcome.{Outcome, done, ice}
use lacsap.Types.Fields.{Fields}
use lacsap.Types.Class.{
  ClassDecl, MemberFuncDecl, adopt, place_func, place_funcs, new_class, membfuncs, func_index,
  memb_func, func_at, get_memb_func,
}

-- The function of a name, as a map would have it
abbrev pub find_func : List MemberFuncDecl → Text → Option MemberFuncDecl
find_func [] nm = none
find_func (m ∷ ms) nm = if text_eq m.proto.proto_name nm then some m else find_func ms nm

-- The last of the declared functions with a name, or else the inherited one
abbrev pub overlay :
    ℕ → Text → List MemberFuncDecl → Option MemberFuncDecl → Text → Option MemberFuncDecl
overlay a cn [] found nm = found
overlay a cn (m ∷ ms) found nm =
    overlay a cn ms (if text_eq m.proto.proto_name nm then some (adopt a cn m) else found) nm

adopt_name :
    (a : ℕ) (cn : Text) (m : MemberFuncDecl) → (adopt a cn m).proto.proto_name ≡ m.proto.proto_name
unfolding adopt
adopt_name a cn m = elim (Bool-cases m.is_static) [ inl s ↦ rw s refl | inr s ↦ rw s refl ]

text_eq_other : (a b : Text) → text_eq b a ≡ false → text_eq a b ≡ false
text_eq_other a b h = elim (Bool-cases (text_eq a b)) [
  | inl same ↦ cc (h, text_eq_sound a b same, text_eq_self b)
  | inr other ↦ other
]

find_func-place :
    (m : MemberFuncDecl) (fs : List MemberFuncDecl) (nm : Text)
    → find_func (place_func m fs) nm
      ≡ (if text_eq m.proto.proto_name nm then some m else find_func fs nm)
unfolding place_func
find_func-place m [] nm = refl
find_func-place m (j ∷ js) nm = elim (Bool-cases (text_eq j.proto.proto_name m.proto.proto_name)) [
  | inl same ↦
      let e = text_eq_sound j.proto.proto_name m.proto.proto_name same in
      elim (Bool-cases (text_eq m.proto.proto_name nm)) [
        | inl here ↦ rw (same, here) refl
        | inr other ↦ rw (same, other, e, other) refl
      ]
  | inr differ ↦ elim (Bool-cases (text_eq j.proto.proto_name nm)) [
    | inl first ↦
        let e = text_eq_sound j.proto.proto_name nm first in
        let own : text_eq m.proto.proto_name nm ≡ false =
          text_eq_other m.proto.proto_name nm (rw e at differ) in
        rw (differ, first, own) refl
    | inr other ↦ rw (differ, other) (find_func-place m js nm)
  ]
]

find_func-place_funcs :
    (a : ℕ) (cn : Text) (ms fs : List MemberFuncDecl) (nm : Text)
    → find_func (place_funcs a cn ms fs) nm ≡ overlay a cn ms (find_func fs nm) nm
unfolding place_funcs
find_func-place_funcs a cn [] fs nm = refl
find_func-place_funcs a cn (m ∷ ms) fs nm =
    find_func-place_funcs a cn ms (place_func (adopt a cn m) fs) nm
    ∙ ap (λ o. overlay a cn ms o nm)
        (find_func-place (adopt a cn m) fs nm
          ∙ ap (λ n. if text_eq n nm then some (adopt a cn m) else find_func fs nm)
              (adopt_name a cn m))

-- What a call of the method with a name comes to: `MembFunc`, and `GetMembFunc` of its index
abbrev pub called_func : ClassDecl → Text → Outcome (Option MemberFuncDecl)
called_func c nm = elim (memb_func c nm) [
  | none ↦ done none
  | some i ↦ elim (get_memb_func c i) [ done m ↦ done (some m) | _ ↦ ice ]
]

index_finds :
    (fs : List MemberFuncDecl) (nm : Text)
    → ((func_index fs nm ≡ none) × (find_func fs nm ≡ none))
      ⊎ ((i : ℕ) × (m : MemberFuncDecl) × (func_index fs nm ≡ some i)
          × (func_at fs i ≡ done m)
          × (find_func fs nm ≡ some m))
index_finds [] nm = inl (refl, refl)
index_finds (m ∷ ms) nm = elim (Bool-cases (text_eq m.proto.proto_name nm)) [
  | inl here ↦ inr (0, m, rw here refl, refl, rw here refl)
  | inr other ↦ elim (index_finds ms nm) [
    | inl (e, f) ↦ inl (rw (other, e) refl, rw other f)
    | inr (i, n, e, at, f) ↦ inr (suc i, n, rw (other, e) refl, at, rw other f)
  ]
]

called_func_lem : (c : ClassDecl) (nm : Text) → called_func c nm ≡ done (find_func (membfuncs c) nm)
unfolding memb_func get_memb_func
called_func_lem c nm = elim (index_finds (membfuncs c) nm) [
  | inl (e, f) ↦ rw (called_func, memb_func, e, f) refl
  | inr (i, m, e, at, f) ↦ rw (called_func, memb_func, e, get_memb_func, at, f) refl
]

-- The methods of a new class: under each name the last function that the class declares with it,
-- made a function of the class, and under other names those of the base. Neither look-up aborts.
pub new_class-called_func :
    (a : ℕ) (cn : Text) (fs : Fields) (ms : List MemberFuncDecl) (v : Option ℕ) (base : ClassDecl)
    (nm : Text)
    → (inherited : Option MemberFuncDecl) × (called_func base nm ≡ done inherited)
      × (called_func (new_class a cn fs ms v base) nm ≡ done (overlay a cn ms inherited nm))
unfolding new_class
new_class-called_func a cn fs ms v base nm = (
  find_func (membfuncs base) nm,
  called_func_lem base nm,
  called_func_lem (new_class a cn fs ms v base) nm
      ∙ ap done (find_func-place_funcs a cn ms (membfuncs base) nm),
)

func_index-place :
    (m : MemberFuncDecl) (fs : List MemberFuncDecl) (nm : Text) (i : ℕ)
    → func_index fs nm ≡ some i
    → func_index (place_func m fs) nm ≡ some i
unfolding place_func
func_index-place m [] nm i h = cc
func_index-place m (j ∷ js) nm i h =
    elim (Bool-cases (text_eq j.proto.proto_name m.proto.proto_name)) [
      | inl same ↦ rw (same, ← (text_eq_sound j.proto.proto_name m.proto.proto_name same)) h
      | inr differ ↦ elim (Bool-cases (text_eq j.proto.proto_name nm)) [
        | inl first ↦ rw (differ, first) (rw first at h)
        | inr other ↦ elim (Option-cases (func_index js nm)) [
          | inl e ↦ cc (rw (other, e) at h)
          | inr (k, e) ↦ rw (differ, other, func_index-place m js nm k e) (rw (other, e) at h)
        ]
      ]
    ]

func_index-place_funcs :
    (a : ℕ) (cn : Text) (ms fs : List MemberFuncDecl) (nm : Text) (i : ℕ)
    → func_index fs nm ≡ some i
    → func_index (place_funcs a cn ms fs) nm ≡ some i
unfolding place_funcs
func_index-place_funcs a cn [] fs nm i h = h
func_index-place_funcs a cn (m ∷ ms) fs nm i h =
    func_index-place_funcs a cn ms (place_func (adopt a cn m) fs) nm i
      (func_index-place (adopt a cn m) fs nm i h)

-- A method keeps its place in every class that is derived, overridden or not.
pub memb_func-new_class :
    (a : ℕ) (cn : Text) (fs : Fields) (ms : List MemberFuncDecl) (v : Option ℕ) (base : ClassDecl)
    (nm : Text) (i : ℕ)
    → memb_func base nm ≡ some i
    → memb_func (new_class a cn fs ms v base) nm ≡ some i
unfolding memb_func new_class
memb_func-new_class a cn fs ms v base nm i h =
    func_index-place_funcs a cn ms (membfuncs base) nm i h
