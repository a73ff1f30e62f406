-- ===== src/Types/Class.antt =====
-- types.h, types.cpp: classes. A class is compared by its address; its base stands in it, `null` if
-- it has none. `MemberFuncDecl`s are shared by the classes that inherit them, and so have an
-- address; their index in the table of virtual functions, which is set later, is in `VTables`.
pub mod Bases
pub mod Places
pub mod Slots
pub mod Table
pub mod Methods
use lacsap.Prelude.{
  ℕ, zero, suc, ◌+◌, ◌-◌, ◌<◌, Bool, true, false, not, ◌&&◌, ◌||◌, Option, none, some, List, [],
  ◌∷◌, ◌++◌, if◌then◌else◌, Text, codes, text_eq, ◌==◌, ltb, length,
}
use lacsap.Outcome.{Outcome, done, ice, undefined, ◌>>=◌}
use lacsap.Types.Fields.{Fields, FieldDecl, field_size, field_at, element_of}

-- The arguments of a `PrototypeAST`: name and address of the type, and the flag `Reference`
pub record VarDef : Type 0 where
  pub var_name : Text
  pub var_type : ℕ
  pub is_ref : Bool

-- What `PrototypeAST` keeps of a member function; `base_obj` is the address of a class
pub record Prototype : Type 0 where
  pub proto_name : Text
  pub args : List VarDef
  pub base_obj : Option ℕ
  pub has_self : Bool

-- `MemberFuncDecl`, its flags one by one
pub record MemberFuncDecl : Type 0 where
  pub func_address : ℕ
  pub proto : Prototype
  pub is_static : Bool
  pub is_virtual : Bool
  pub is_override : Bool
  pub long_name : Text

-- `ClassDecl`: address, name, fields, member functions, the address of the variant part, and base
pub data ClassDecl : Type 0 where
  null : ClassDecl
  class_decl : ℕ → Text → Fields → List MemberFuncDecl → Option ℕ → ClassDecl → ClassDecl

abbrev pub membfuncs : ClassDecl → List MemberFuncDecl
membfuncs null = []
membfuncs (class_decl a nm fs mf v base) = mf

-- The constructor's work on a function of the class: the object is its first argument.
unfoldable pub adopt : ℕ → Text → MemberFuncDecl → MemberFuncDecl
adopt a nm m =
    let self : VarDef = record { var_name = codes "self"; var_type = a; is_ref = true } in
    let p : Prototype =
      if m.is_static
      then m.proto
      else record m.proto { args = self ∷ m.proto.args; base_obj = some a; has_self = true } in
    record m { proto = p; long_name = nm ++ (codes "$" ++ m.proto.proto_name) }

-- The inner loop: a function takes the place of the one with its name, or comes last.
unfoldable pub place_func : MemberFuncDecl → List MemberFuncDecl → List MemberFuncDecl
place_func m [] = m ∷ []
place_func m (j ∷ js) =
    if text_eq j.proto.proto_name m.proto.proto_name then m ∷ js else j ∷ place_func m js

-- The loop of the constructor
unfoldable pub place_funcs :
    ℕ → Text → List MemberFuncDecl → List MemberFuncDecl → List MemberFuncDecl
unfolding adopt place_func
place_funcs a nm [] fs = fs
place_funcs a nm (m ∷ ms) fs = place_funcs a nm ms (place_func (adopt a nm m) fs)

-- `ClassDecl::ClassDecl`
unfoldable pub new_class :
    ℕ → Text → Fields → List MemberFuncDecl → Option ℕ → ClassDecl → ClassDecl
unfolding place_funcs
new_class a nm flds mf v base = class_decl a nm flds (place_funcs a nm mf (membfuncs base)) v base

-- The loop of `MembFunc`; -1 is `none`
abbrev pub func_index : List MemberFuncDecl → Text → Option ℕ
func_index [] nm = none
func_index (m ∷ ms) nm =
    if text_eq m.proto.proto_name nm
    then some 0
    else elim (func_index ms nm) [ none ↦ none | some i ↦ some (suc i) ]

-- `MembFunc`
unfoldable pub memb_func : ClassDecl → Text → Option ℕ
memb_func c nm = func_index (membfuncs c) nm

abbrev pub func_at : List MemberFuncDecl → ℕ → Outcome MemberFuncDecl
func_at [] i = ice
func_at (m ∷ ms) zero = done m
func_at (m ∷ ms) (suc i) = func_at ms i

-- `GetMembFunc`
unfoldable pub get_memb_func : ClassDecl → ℕ → Outcome MemberFuncDecl
get_memb_func c i = func_at (membfuncs c) i

-- `MembFuncCount`
unfoldable pub memb_func_count : ClassDecl → ℕ
memb_func_count c = length (membfuncs c)

-- Is the function called through the table?
abbrev pub is_dispatched : MemberFuncDecl → Bool
is_dispatched m = m.is_virtual || m.is_override

abbrev pub count_dispatched : List MemberFuncDecl → ℕ
count_dispatched [] = 0
count_dispatched (m ∷ ms) = (if is_dispatched m then 1 else 0) + count_dispatched ms

-- `NumVirtFuncs`
unfoldable pub num_virt_funcs : ClassDecl → ℕ
num_virt_funcs c = count_dispatched (membfuncs c)

-- `FieldCount`
unfoldable pub field_count : ClassDecl → ℕ
field_count null = 0
field_count (class_decl a nm fs mf v base) = field_size fs + field_count base

abbrev pub base_of : ClassDecl → ClassDecl
base_of null = null
base_of (class_decl a nm fs mf v base) = base

-- The loop of `DerivedFrom`, which gives the class of the address or a null pointer
unfoldable pub derived_loop : ClassDecl → ℕ → Bool
derived_loop null ty = false
derived_loop (class_decl a nm fs mf v base) ty =
    let further = derived_loop base ty in if ty == a then true else further

-- `DerivedFrom`
unfoldable pub derived_from : ClassDecl → ℕ → Bool
unfolding derived_loop
derived_from c ty = derived_loop (base_of c) ty

-- `CompatibleType` of the class at an address, with another class
unfoldable pub class_compatible : ℕ → ClassDecl → Bool
class_compatible this null = false
class_compatible this (class_decl a nm fs mf v base) =
    let further = class_compatible this base in if a == this then true else further
