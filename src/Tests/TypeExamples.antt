-- ===== src/Tests/TypeExamples.antt =====
-- The theorems on types at concrete inputs: two classes, numbers and arrays.
use lacsap.Prelude.{
  ℕ, ◌<◌, Bool, true, false, Option, none, some, List, [], ◌∷◌, ◌≡◌, ◌↔◌, ◌||◌, ◌==◌, inl, inr,
  refl, codes, Text, leb, get_or, if◌then◌else◌,
}
use lacsap.Prelude.Int.{pos}
use lacsap.Outcome.{done, undefined}
use lacsap.Runtime.Arrays.{take}
use lacsap.Types.Fields.{
  Fields, no_fields, field, field_decl, type_at, FieldDecl, element_of, element_from,
}
use lacsap.Types.Class.{
  ClassDecl, null, class_decl, MemberFuncDecl, adopt, place_func, place_funcs, new_class, membfuncs,
  memb_func, get_memb_func, is_dispatched, count_dispatched, num_virt_funcs, field_count,
  derived_from, class_compatible,
}
use lacsap.Types.Class.Table.{
  opaque, new_tables, vtable_type, table_loop, table_step, overridden, has_vtable, class_element,
  class_get_element,
}
use lacsap.Types.Class.Slots.{IsLaidOut, vtable_type-slots}
use lacsap.Types.Class.Methods.{called_func, overlay, new_class-called_func}
use lacsap.Types.Class.Bases.{Derives, derived_from-Derives}
use lacsap.Types.Class.Places.{
  Holds, TablesAgree, class_get_element-Holds, class_get_element-undefined,
}
use lacsap.Types.Node.{Heap, type_of, range_eq, integer_decl, real_decl, array_decl, range_decl}
use lacsap.Types.Same.{
  same_as, same_by, array_same, compound_same, compound_base, array_ranges, kind_same,
}
use lacsap.Types.Compatible.{compatible_type}
use lacsap.Types.Compatible.Numeric.{integer, real, compatible_type-IsNumber}
use lacsap.Types.Compatible.Sizes.{type_size, same_base, no_bases, compatible_type-array}

-- A member function without arguments
abbrev method : ℕ → Text → Bool → Bool → MemberFuncDecl
method a nm virtual overrides = record {
  func_address = a;
  proto = record { proto_name = nm; args = []; base_obj = none; has_self = false };
  is_static = false;
  is_virtual = virtual;
  is_override = overrides;
  long_name = [];
}

abbrev integer_field : Text → Fields → Fields
integer_field nm fs = field (field_decl nm (type_at 1) false) fs

-- A figure can be drawn, a circle is a figure that is drawn otherwise and can grow.
figure_funcs : List MemberFuncDecl
figure_funcs = method 101 (codes "draw") true false ∷ method 102 (codes "area") false false ∷ []

circle_funcs : List MemberFuncDecl
circle_funcs = method 103 (codes "draw") false true ∷ method 104 (codes "grow") true false ∷ []

figure_fields : Fields
figure_fields = integer_field (codes "x") (integer_field (codes "y") no_fields)

figure : ClassDecl
figure = new_class 11 (codes "figure") figure_fields figure_funcs none null

circle_fields : Fields
circle_fields = integer_field (codes "r") no_fields

circle : ClassDecl
circle = new_class 12 (codes "circle") circle_fields circle_funcs none figure

slots : ℕ → ℕ
slots a = if a == 104 then 1 else 0

grow : MemberFuncDecl
grow = adopt 12 (codes "circle") (method 104 (codes "grow") true false)

circle-IsLaidOut : IsLaidOut slots circle
unfolding circle figure new_class place_funcs place_func adopt circle_funcs figure_funcs overridden
    memb_func get_memb_func slots
circle-IsLaidOut = (
  inl (refl, refl, inr (refl, inl (refl, refl, tt))),
  (inr (inr (_, refl, refl, refl)), (inr (inl refl), (inl refl, tt))),
  (inl (refl, refl, inr (refl, tt)), (inl refl, (inr (inl refl), tt)), tt),
)

circle-grow : get_memb_func circle 2 ≡ done grow
unfolding circle figure new_class place_funcs place_func adopt circle_funcs figure_funcs
    get_memb_func grow
circle-grow = refl

grow-is_dispatched : is_dispatched grow ≡ true
unfolding grow adopt
grow-is_dispatched = refl

vtable_type-slots_example :
    ((vtable_type opaque circle new_tables).1.virt_index grow.func_address
      ≡ pos (count_dispatched (take 2 (membfuncs circle))))
    × (count_dispatched (take 2 (membfuncs circle)) < num_virt_funcs circle)
vtable_type-slots_example =
    vtable_type-slots slots opaque circle new_tables 2 grow circle-IsLaidOut (λ a. inl refl)
      (λ a. refl) circle-grow grow-is_dispatched

new_class-called_func_example :
    (inherited : Option MemberFuncDecl) × (called_func figure (codes "draw") ≡ done inherited)
    × (called_func
          (new_class 12 (codes "circle") circle_fields circle_funcs none figure)
          (codes "draw")
        ≡ done (overlay 12 (codes "circle") circle_funcs inherited (codes "draw")))
new_class-called_func_example =
    new_class-called_func 12 (codes "circle") circle_fields circle_funcs none figure (codes "draw")

derived_from-Derives_example :
    ((derived_from (class_decl 12 [] no_fields [] none figure) 11 ≡ true)
      ↔ Derives (class_decl 12 [] no_fields [] none figure) 11)
    × (class_compatible 11 (class_decl 12 [] no_fields [] none figure)
        ≡ ((12 == 11) || derived_from (class_decl 12 [] no_fields [] none figure) 11))
derived_from-Derives_example = derived_from-Derives 12 [] no_fields [] none figure 11

circle-TablesAgree : TablesAgree circle
unfolding circle figure new_class place_funcs place_func adopt circle_funcs figure_funcs overridden
    memb_func get_memb_func has_vtable vtable_type table_loop table_step
circle-TablesAgree = (inr refl, (inl refl, tt))

circle-y : class_element circle (codes "y") ≡ done (some 2)
unfolding circle figure new_class place_funcs place_func adopt circle_funcs figure_funcs overridden
    memb_func get_memb_func has_vtable vtable_type table_loop table_step class_element element_of
    element_from circle_fields figure_fields field_count
circle-y = refl

class_get_element-Holds_example :
    (f : FieldDecl) × (cn : Text) × (class_get_element circle 2 ≡ done (f, cn))
    × Holds f (codes "y")
class_get_element-Holds_example =
    class_get_element-Holds circle (codes "y") 2 circle-TablesAgree circle-y

-- A class with a virtual function over one without
plain : ClassDecl
plain = class_decl 13 (codes "plain") figure_fields [] none null

plain-has_vtable : has_vtable plain ≡ false
unfolding plain has_vtable vtable_type table_loop
plain-has_vtable = refl

drawn-has_vtable : has_vtable (class_decl 14 [] circle_fields figure_funcs none plain) ≡ true
unfolding plain has_vtable vtable_type table_loop table_step figure_funcs
drawn-has_vtable = refl

class_get_element-undefined_example :
    class_get_element (class_decl 14 [] circle_fields figure_funcs none plain) (field_count plain)
    ≡ undefined
class_get_element-undefined_example =
    class_get_element-undefined 14 [] circle_fields figure_funcs none plain drawn-has_vtable
      plain-has_vtable

-- Integer at 1, Real at 2, two array types at 3 and 4 with ranges at 5 and 6
objects : Heap
objects p =
    get_or
      (none
        ∷ some integer_decl
        ∷ some real_decl
        ∷ some (array_decl 2 (5 ∷ []))
        ∷ some (array_decl 2 (6 ∷ []))
        ∷ some (range_decl (record { start = pos 1; last = pos 10 }) 1)
        ∷ some (range_decl (record { start = pos 1; last = pos 1000 }) 1)
        ∷ [])
      p none

integer_there : objects 1 ≡ some integer_decl
unfolding objects
integer_there = refl

real_there : objects 2 ≡ some real_decl
unfolding objects
real_there = refl

short_there : objects 3 ≡ some (array_decl 2 (5 ∷ []))
unfolding objects
short_there = refl

long_there : objects 4 ≡ some (array_decl 2 (6 ∷ []))
unfolding objects
long_there = refl

compatible_type-IsNumber_example :
    compatible_type objects (λ _. 4) 2 1 2 ≡ done (some (if leb 2 0 then 1 else 2))
compatible_type-IsNumber_example =
    compatible_type-IsNumber objects (λ _. 4) 0 1 2 integer_there real_there integer real

arrays_differ : same_as 3 objects 3 4 ≡ done false
unfolding objects same_as same_by array_same compound_same compound_base array_ranges type_of
    kind_same range_eq
arrays_differ = refl

short_range_there : objects 5 ≡ some (range_decl (record { start = pos 1; last = pos 10 }) 1)
unfolding objects
short_range_there = refl

long_range_there : objects 6 ≡ some (range_decl (record { start = pos 1; last = pos 1000 }) 1)
unfolding objects
long_range_there = refl

compatible_type-array_example :
    compatible_type objects (type_size (λ _. 4) objects 1) 4 3 4 ≡ done (some 3)
compatible_type-array_example =
    compatible_type-array (λ _. 4) objects 0 3 3 4 2 (5 ∷ []) (6 ∷ []) false short_there long_there
      arrays_differ
      (same_base 5 6 1 (record { start = pos 1; last = pos 10 })
        (record { start = pos 1; last = pos 1000 }) short_range_there long_range_there no_bases)
