-- ===== src/Types/Node.antt =====
-- types.h, types.cpp: the objects of the types, at their addresses; 0 is the null pointer. The types
-- of schemas (schema.h) are left out.
use lacsap.Prelude.{ℕ, zero, suc, Bool, ◌&&◌, Option, none, some, List, Text, text_eq, ◌==◌}
use lacsap.Prelude.Int.{ℤ, eq_ℤ}
use lacsap.Outcome.{Outcome, done, undefined, out_of_fuel, ◌>>=◌}
use lacsap.Types.Class.{ClassDecl}

-- `TypeKind`
pub data TypeKind : Type 0 where
  tk_char : TypeKind
  tk_integer : TypeKind
  tk_long_int : TypeKind
  tk_real : TypeKind
  tk_void : TypeKind
  tk_array : TypeKind
  tk_sch_array : TypeKind
  tk_string : TypeKind
  tk_last_array : TypeKind
  tk_dyn_array : TypeKind
  tk_range : TypeKind
  tk_dyn_range : TypeKind
  tk_sch_range : TypeKind
  tk_enum : TypeKind
  tk_boolean : TypeKind
  tk_pointer : TypeKind
  tk_field : TypeKind
  tk_record : TypeKind
  tk_func_ptr : TypeKind
  tk_function : TypeKind
  tk_file : TypeKind
  tk_text : TypeKind
  tk_set : TypeKind
  tk_sch_set : TypeKind
  tk_variant : TypeKind
  tk_class : TypeKind
  tk_member_func : TypeKind
  tk_forward : TypeKind
  tk_complex : TypeKind

-- The value of an enumerator
abbrev pub kind_code : TypeKind → ℕ
kind_code tk_char = 0
kind_code tk_integer = 1
kind_code tk_long_int = 2
kind_code tk_real = 3
kind_code tk_void = 4
kind_code tk_array = 5
kind_code tk_sch_array = 6
kind_code tk_string = 7
kind_code tk_last_array = 8
kind_code tk_dyn_array = 9
kind_code tk_range = 10
kind_code tk_dyn_range = 11
kind_code tk_sch_range = 12
kind_code tk_enum = 13
kind_code tk_boolean = 14
kind_code tk_pointer = 15
kind_code tk_field = 16
kind_code tk_record = 17
kind_code tk_func_ptr = 18
kind_code tk_function = 19
kind_code tk_file = 20
kind_code tk_text = 21
kind_code tk_set = 22
kind_code tk_sch_set = 23
kind_code tk_variant = 24
kind_code tk_class = 25
kind_code tk_member_func = 26
kind_code tk_forward = 27
kind_code tk_complex = 28

abbrev pub kind_eq : TypeKind → TypeKind → Bool
kind_eq j k = kind_code j == kind_code k

-- `Range`
pub record Range : Type 0 where
  pub start : ℤ
  pub last : ℤ

-- `operator==` of `Range`
unfoldable pub range_eq : Range → Range → Bool
range_eq a b = eq_ℤ a.start b.start && eq_ℤ a.last b.last

-- `EnumValue`
pub record EnumValue : Type 0 where
  pub enum_name : Text
  pub enum_value : ℤ

-- `operator==` of `EnumValue`
unfoldable pub enum_value_eq : EnumValue → EnumValue → Bool
enum_value_eq a b = eq_ℤ a.enum_value b.enum_value && text_eq a.enum_name b.enum_name

-- What is compared of a `PrototypeAST`: its address, `baseobj`, and the types of its arguments
pub record ProtoType : Type 0 where
  pub proto_address : ℕ
  pub proto_base : ℕ
  pub arg_types : List ℕ

-- `TypeDecl` and the classes derived from it, with the addresses of the types that they refer to
pub data TypeDecl : Type 0 where
  char_decl : TypeDecl
  integer_decl : TypeDecl
  int64_decl : TypeDecl
  real_decl : TypeDecl
  void_decl : TypeDecl
  bool_decl : TypeDecl
  -- range, base type
  range_decl : Range → ℕ → TypeDecl
  -- names of the bounds, base type
  dyn_range_decl : Text → Text → ℕ → TypeDecl
  -- base type, ranges
  array_decl : ℕ → List ℕ → TypeDecl
  string_decl : ℕ → List ℕ → TypeDecl
  -- base type, range
  dyn_array_decl : ℕ → ℕ → TypeDecl
  -- values, base type
  enum_decl : List EnumValue → ℕ → TypeDecl
  -- base type, and whether it is incomplete and was forward declared
  pointer_decl : ℕ → Bool → Bool → TypeDecl
  function_decl : ProtoType → ℕ → TypeDecl
  func_ptr_decl : ProtoType → TypeDecl
  -- name, base type, whether it is static
  field_of : Text → ℕ → Bool → TypeDecl
  variant_decl : List ℕ → TypeDecl
  -- fields, variant part, `clonedFrom`
  record_decl : List ℕ → ℕ → ℕ → TypeDecl
  complex_decl : List ℕ → ℕ → TypeDecl
  class_type : ClassDecl → TypeDecl
  member_func_decl : TypeDecl
  file_decl : ℕ → TypeDecl
  text_decl : ℕ → TypeDecl
  -- range, base type
  set_decl : ℕ → ℕ → TypeDecl
  forward_decl : Text → TypeDecl

-- `getKind`
abbrev pub get_kind : TypeDecl → TypeKind
get_kind char_decl = tk_char
get_kind integer_decl = tk_integer
get_kind int64_decl = tk_long_int
get_kind real_decl = tk_real
get_kind void_decl = tk_void
get_kind bool_decl = tk_boolean
get_kind (range_decl r b) = tk_range
get_kind (dyn_range_decl l h b) = tk_dyn_range
get_kind (array_decl b rs) = tk_array
get_kind (string_decl b rs) = tk_string
get_kind (dyn_array_decl b r) = tk_dyn_array
get_kind (enum_decl vs b) = tk_enum
get_kind (pointer_decl b i f) = tk_pointer
get_kind (function_decl p b) = tk_function
get_kind (func_ptr_decl p) = tk_func_ptr
get_kind (field_of n b s) = tk_field
get_kind (variant_decl fs) = tk_variant
get_kind (record_decl fs v c) = tk_record
get_kind (complex_decl fs c) = tk_complex
get_kind (class_type c) = tk_class
get_kind member_func_decl = tk_member_func
get_kind (file_decl b) = tk_file
get_kind (text_decl b) = tk_text
get_kind (set_decl r b) = tk_set
get_kind (forward_decl n) = tk_forward

-- The objects by their address
abbrev pub Heap : Type 0
Heap = ℕ → Option TypeDecl

-- A use of the object at an address
abbrev pub load : Heap → ℕ → Outcome TypeDecl
load h p = elim (h p) [ none ↦ undefined | some t ↦ done t ]

-- `Type ()`: a range has the kind of its base type.
unfoldable pub type_of : ℕ → Heap → ℕ → Outcome TypeKind
type_of zero h p = out_of_fuel
type_of (suc n) h p =
    let of_base = type_of n h in
    do
      t ← load h p
      elim t [
        | range_decl r b ↦ of_base b
        | dyn_range_decl l hi b ↦ of_base b
        | other ↦ done (get_kind other)
      ]
