-- ===== src/Types/Class/Table.antt =====
-- types.cpp: the table of virtual functions of a class, and the places of its fields. Of
-- `vtableType`, a type of LLVM, it is kept whether it is made and whether it has its body.
use lacsap.Prelude.{
  ℕ, suc, ◌+◌, ◌-◌, Bool, true, false, not, ◌&&◌, Option, none, some, List, [], ◌∷◌, if◌then◌else◌,
  Text, ◌==◌, ltb,
}
use lacsap.Prelude.Int.{ℤ, pos, negsuc, eq_ℤ}
use lacsap.Outcome.{Outcome, done, ice, undefined, ◌>>=◌}
use lacsap.Types.Fields.{FieldDecl, field_size, field_at, element_of}
use lacsap.Types.Class.{
  ClassDecl, null, class_decl, MemberFuncDecl, memb_func, get_memb_func, field_count,
}

-- `Opacity`
pub data Opacity : Type 0 where
  opaque : Opacity
  filled_in : Opacity

pub data Made : Type 0 where
  not_made : Made
  made_opaque : Made
  made_filled : Made

-- What `VTableType` changes: `index` of the member functions, and `vtableType` of the classes, both
-- by their address
pub record VTables : Type 0 where
  pub virt_index : ℕ → ℤ
  pub made : ℕ → Made

-- Before the first call
abbrev pub new_tables : VTables
new_tables = record { virt_index = λ a. negsuc 0; made = λ a. not_made }

abbrev pub set_at {ℓ} : {A : Type ℓ} → (ℕ → A) → ℕ → A → ℕ → A
set_at f a x b = if b == a then x else f b

-- `vtableType && (opacity == Opaque || !vtableType->isOpaque())`
abbrev pub is_ready : Opacity → Made → Bool
is_ready op not_made = false
is_ready opaque made_opaque = true
is_ready filled_in made_opaque = false
is_ready op made_filled = true

-- The function of the base that a function overrides
unfoldable pub overridden : ClassDecl → MemberFuncDecl → Option MemberFuncDecl
unfolding memb_func get_memb_func
overridden base m = elim (memb_func base m.proto.proto_name) [
  | none ↦ none
  | some i ↦ elim (get_memb_func base i) [ done b ↦ some b | _ ↦ none ]
]

-- The variables of the loop
pub record TableLoop : Type 0 where
  pub index : ℕ
  pub needed : Bool
  pub indices : ℕ → ℤ

-- One turn of the loop of `VTableType`; `none` after the message that there is nothing to override
unfoldable pub table_step : ClassDecl → MemberFuncDecl → TableLoop → Option TableLoop
unfolding overridden
table_step base m s =
    if m.is_virtual
    then some (record {
      index = suc s.index;
      needed = true;
      indices =
          if eq_ℤ (s.indices m.func_address) (negsuc 0)
          then set_at s.indices m.func_address (pos s.index)
          else s.indices;
    })
    else (if m.is_override
        then elim (overridden base m) [
          | none ↦ none
          | some b ↦ some (record {
            index = suc s.index;
            needed = true;
            indices = set_at s.indices m.func_address (s.indices b.func_address);
          })
        ]
        else some s)

-- The loop: whether it ran to its end, and its variables then
unfoldable pub table_loop : ClassDecl → List MemberFuncDecl → TableLoop → Bool × TableLoop
unfolding table_step
table_loop base [] s = (true, s)
table_loop base (m ∷ ms) s = elim (table_step base m s) [
  | none ↦ (false, s)
  | some s' ↦ table_loop base ms s'
]

-- `VTableType`: whether there is a table
unfoldable pub vtable_type : Opacity → ClassDecl → VTables → Bool × VTables
unfolding table_loop
vtable_type op null st = (false, st)
vtable_type op (class_decl a nm fs mf v base) st =
    let (_, st₁) = vtable_type op base st in
    let (ok, s) =
      table_loop base mf (record { index = 0; needed = false; indices = st₁.virt_index }) in
    let st₂ : VTables = record st₁ { virt_index = s.indices } in
    let from_base = vtable_type op base st₂ in
    let now : Made = elim op [ opaque ↦ made_opaque | filled_in ↦ made_filled ] in
    if is_ready op (st.made a)
    then (true, st)
    else (if not ok
        then (false, st₂)
        else (if s.needed then (true, record st₂ { made = set_at st₂.made a now }) else from_base))

-- `VTableType (Opaque)` as a test. The places of fields do not depend on what it changes.
unfoldable pub has_vtable : ClassDecl → Bool
unfolding vtable_type
has_vtable c = (vtable_type opaque c new_tables).0

abbrev pub one_if : Bool → ℕ
one_if b = if b then 1 else 0

-- `ClassDecl::Element`; -1 is `none`
unfoldable pub class_element : ClassDecl → Text → Outcome (Option ℕ)
class_element null name = done none
class_element (class_decl a nm fs mf v base) name =
    let inherited = class_element base name in
    do
      own ← element_of fs name
      elim own [
        | some i ↦
            done (some (i + field_count base + one_if (has_vtable (class_decl a nm fs mf v base))))
        | none ↦ inherited
      ]

abbrev pub is_null : ClassDecl → Bool
is_null null = true
is_null (class_decl a nm fs mf v base) = false

-- `ClassDecl::GetElement`: the field and the name of its class. `fields[…]` out of its bounds is
-- undefined, as is the difference below 0, which is unsigned.
unfoldable pub class_get_element : ClassDecl → ℕ → Outcome (FieldDecl × Text)
class_get_element null n = undefined
class_get_element (class_decl a nm fs mf v base) n =
    let inherited = class_get_element base n in
    let b = field_count base in
    let first = b + one_if (has_vtable (class_decl a nm fs mf v base)) in
    if not (is_null base) && ltb n (b + one_if (has_vtable base))
    then inherited
    else (if ltb (b + field_size fs) n
        then ice
        else (if ltb n first
            then undefined
            else elim (field_at fs (n - first)) [ none ↦ undefined | some f ↦ done (f, nm) ]))
