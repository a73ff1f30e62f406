-- ===== src/Semantics/State.antt =====
-- semantics.cpp, expr.h: expressions, and what their checks change: the objects of the types, new
-- ones among them, and the number of errors. Messages are only counted.
use lacsap.Prelude.{
  ℕ, zero, suc, Bool, true, false, not, Option, none, some, if◌then◌else◌, Text, ◌==◌, length, ltb,
}
use lacsap.Prelude.Int.{ℤ, pos, negsuc, sub_ℕ}
use lacsap.Outcome.{Outcome, done, ice, ice_if, undefined, out_of_fuel, ◌>>=◌, ◌>>◌}
use lacsap.Types.Node.{
  Heap, load, TypeDecl, Range, type_of, char_decl, integer_decl, enum_decl, bool_decl, range_decl,
  set_decl,
}
use lacsap.Types.Compatible.{is_integral, range_size}
use lacsap.Types.Same.{same_as}

-- `ExprAST` and the classes that the checks tell apart, each with the address of its type. A
-- variable can be protected, a set can have no values; a cast keeps what it casts.
pub data Expr : Type 0 where
  integer_expr : ℕ → ℤ → Expr
  string_expr : ℕ → Text → Expr
  nil_expr : ℕ → Expr
  set_expr : ℕ → Bool → Expr
  type_cast : ℕ → Expr → Expr
  other_expr : ℕ → Expr

-- `ExprAST::Type`
abbrev pub expr_type : Expr → ℕ
expr_type (integer_expr t v) = t
expr_type (string_expr t s) = t
expr_type (nil_expr t) = t
expr_type (set_expr t empty) = t
expr_type (type_cast t e) = t
expr_type (other_expr t) = t

-- The objects, the address of the next new one, and `errors` of `Semantics`
pub record Sema : Type 0 where
  pub heap : Heap
  pub next : ℕ
  pub errors : ℕ

-- The types that `Types::Get` gives, of which there is one each
pub record Known : Type 0 where
  pub integer_type : ℕ
  pub real_type : ℕ
  pub complex_type : ℕ
  pub boolean_type : ℕ
  -- `Get<StringDecl> (255)`
  pub string_type : ℕ

-- `Error`
unfoldable pub add_error : Sema → Sema
add_error s = record s { errors = suc s.errors }

-- `Error` under a condition
abbrev pub error_if : Bool → Sema → Sema
error_if b s = if b then add_error s else s

abbrev pub write_object : Heap → ℕ → TypeDecl → Heap
write_object h p t q = if q == p then some t else h q

-- `new` of a type: its address and the state after
unfoldable pub new_object : TypeDecl → Sema → ℕ × Sema
new_object t s = (s.next, record s { heap = write_object s.heap s.next t; next = suc s.next })

-- `Recast`: a cast, if the type differs
unfoldable pub recast : ℕ → Heap → Expr → ℕ → Outcome Expr
recast n h a ty = do
  is_same ← same_as n h ty (expr_type a)
  done (if is_same then a else type_cast ty a)

-- `TypeDecl::GetRange` and those of the classes with ranges; a set without a range has none.
unfoldable pub get_range : ℕ → Heap → ℕ → Outcome (Option Range)
get_range zero h p = out_of_fuel
get_range (suc n) h p = do
  t ← load h p
  elim t [
    | char_decl ↦ done (some (record { start = pos 0; last = pos 255 }))
    | integer_decl ↦ done (some (record { start = negsuc 0x7fff_ffff; last = pos 0x7fff_ffff }))
    | enum_decl vs b ↦ done (some (record { start = pos 0; last = sub_ℕ (length vs) 1 }))
    | bool_decl ↦ done (some (record { start = pos 0; last = pos 1 }))
    | range_decl r b ↦ done (some r)
    | set_decl r b ↦ if r == 0 then done none else get_range n h r
    | other ↦ ice
  ]

-- `SetDecl::UpdateRange`
unfoldable pub update_range : ℕ → ℕ → Sema → Outcome Sema
update_range p r s = do
  t ← load s.heap p
  elim t [
    | set_decl r' b ↦ done (record s { heap = write_object s.heap p (set_decl r b) })
    | other ↦ undefined
  ]

-- `SetDecl::UpdateSubtype`
unfoldable pub update_subtype : ℕ → ℕ → Sema → Outcome Sema
update_subtype p ty s = do
  t ← load s.heap p
  elim t [
    | set_decl r b ↦ (do
      ice_if (not (b == 0))
      done (record s { heap = write_object s.heap p (set_decl r ty) }))
    | other ↦ undefined
  ]

-- `SubType` of a set, 0 for a null pointer; a null pointer itself, or another type, is undefined.
unfoldable pub set_base : Heap → ℕ → Outcome ℕ
set_base h p = do t ← load h p; elim t [ set_decl r b ↦ done b | other ↦ undefined ]

-- `llvm::isa<SetDecl>`
unfoldable pub is_set : Heap → ℕ → Outcome Bool
is_set h p = do t ← load h p; done (elim t [ set_decl r b ↦ true | other ↦ false ])

-- `MaxSetSize`
abbrev pub max_set_size : ℕ
max_set_size = 512

-- The range of a set, or of its base type: the part of `GetRangeDecl` before the new object
abbrev pub range_or_base : ℕ → Heap → ℕ → Outcome (Option Range)
range_or_base n h ty = do
  r ← get_range n h ty
  elim r [
    | some range ↦ done (some range)
    | none ↦ (do b ← set_base h ty; if b == 0 then done none else get_range n h b)
  ]

-- `GetRangeDecl`: the address of a new range, or 0 for a null pointer
unfoldable pub get_range_decl : ℕ → ℕ → Sema → Outcome (ℕ × Sema)
unfolding new_object is_integral range_size get_range set_base
get_range_decl n ty s = do
  r ← range_or_base n s.heap ty
  elim r [
    | none ↦ done (0, s)
    | some range ↦ (do
      k ← type_of n s.heap ty
      base ← if is_integral k then done ty else set_base s.heap ty
      let fits : Range =
            if ltb max_set_size (range_size range)
            then record { start = pos 0; last = pos 511 }
            else range in
          done (new_object (range_decl fits base) s))
  ]
