-- ===== src/Semantics/Check/Numbers.antt =====
-- semantics.cpp: the check of sums, differences and products of numbers.
use lacsap.Prelude.{
  ℕ, suc, Bool, true, false, ◌&&◌, some, [], ◌∷◌, ◌≡◌, refl, if◌then◌else◌, leb, Bool-cases, inl,
  inr,
}
use lacsap.Outcome.{done}
use lacsap.Token.{TokenType, token_eq, is_compare, ordinal}
use lacsap.Types.Node.{
  TypeDecl, TypeKind, Heap, get_kind, kind_eq, type_of, tk_char, tk_complex, tk_boolean, tk_pointer,
  tk_range, tk_integer, tk_long_int, tk_real, integer_decl, int64_decl, real_decl, complex_decl,
}
use lacsap.Types.Same.{same_as, same_by, kind_same, record_same}
use lacsap.Types.Compatible.{compatible_type, is_numeric, is_compound}
use lacsap.Types.Compatible.Numeric.{
  IsNumber, integer, long, real, complex, load-some, type_of-IsNumber, same_as-by,
  compatible_type-IsNumber,
}
use lacsap.Semantics.State.{Expr, expr_type, type_cast, Sema, Known, recast, is_set}
use lacsap.Semantics.Binary.{is_a, is_string_like, other_type, Checked}
use lacsap.Semantics.Check.{
  is_one_of, switch_type, binary_expr_type, operand_errors, common_type, check_binary,
}

-- The operators of arithmetic that both kinds of number have
pub data IsArithmetic : TokenType → Type 0 where
  plus : IsArithmetic TokenType.plus
  minus : IsArithmetic TokenType.minus
  multiply : IsArithmetic TokenType.multiply

-- What the checks ask of such an operator
abbrev IsSimple : TokenType → Type 0
IsSimple op =
    (token_eq op TokenType.in_kw ≡ false)
    × (is_compare op ≡ false)
    × (is_one_of op (TokenType.and_then ∷ TokenType.or_else ∷ []) ≡ false)
    × (token_eq op TokenType.pow ≡ false)
    × (token_eq op TokenType.divide ≡ false)
    × (token_eq op TokenType.power ≡ false)
    × (is_one_of op (TokenType.div ∷ TokenType.mod_kw ∷ []) ≡ false)
    × (is_one_of op (TokenType.and ∷ TokenType.xor ∷ TokenType.or ∷ []) ≡ false)
    × (is_one_of op (TokenType.minus ∷ TokenType.multiply ∷ TokenType.plus ∷ []) ≡ true)

IsArithmetic-IsSimple : {op : TokenType} → IsArithmetic op → IsSimple op
unfolding token_eq is_compare ordinal
IsArithmetic-IsSimple plus = (refl, refl, refl, refl, refl, refl, refl, refl, refl)
IsArithmetic-IsSimple minus = (refl, refl, refl, refl, refl, refl, refl, refl, refl)
IsArithmetic-IsSimple multiply = (refl, refl, refl, refl, refl, refl, refl, refl, refl)

is_a-some :
    (h : Heap) (p : ℕ) (t : TypeDecl) (k : TypeKind)
    → h p ≡ some t
    → is_a h p k ≡ done (kind_eq (get_kind t) k)
unfolding is_a
is_a-some h p t k e = rw (is_a, load-some h p t e) refl

-- What the checks ask of the type of an operand
abbrev IsPlain : Heap → ℕ → ℕ → Type 0
IsPlain h n p =
    (is_set h p ≡ done false)
    × (is_a h p tk_boolean ≡ done false)
    × (is_a h p tk_char ≡ done false)
    × (is_a h p tk_pointer ≡ done false)
    × (is_a h p tk_range ≡ done false)
    × (is_string_like (suc n) h p ≡ done false)
    × ((b : Bool) × (is_a h p tk_complex ≡ done b))
    × ((k : TypeKind) × (type_of (suc n) h p ≡ done k)
        × (is_numeric k ≡ true)
        × (is_compound k ≡ false))

IsNumber-IsPlain :
    (h : Heap) (n p : ℕ) {t : TypeDecl} {i : ℕ} → h p ≡ some t → IsNumber t i → IsPlain h n p
unfolding is_set is_a is_string_like is_numeric is_compound
IsNumber-IsPlain h n p e integer = (
  rw (is_set, load-some h p integer_decl e) refl,
  is_a-some h p integer_decl tk_boolean e,
  is_a-some h p integer_decl tk_char e,
  is_a-some h p integer_decl tk_pointer e,
  is_a-some h p integer_decl tk_range e,
  rw (is_string_like, type_of-IsNumber h n p e integer) refl,
  (_, is_a-some h p integer_decl tk_complex e),
  (get_kind integer_decl, type_of-IsNumber h n p e integer, refl, refl),
)
IsNumber-IsPlain h n p e long = (
  rw (is_set, load-some h p int64_decl e) refl,
  is_a-some h p int64_decl tk_boolean e,
  is_a-some h p int64_decl tk_char e,
  is_a-some h p int64_decl tk_pointer e,
  is_a-some h p int64_decl tk_range e,
  rw (is_string_like, type_of-IsNumber h n p e long) refl,
  (_, is_a-some h p int64_decl tk_complex e),
  (get_kind int64_decl, type_of-IsNumber h n p e long, refl, refl),
)
IsNumber-IsPlain h n p e real = (
  rw (is_set, load-some h p real_decl e) refl,
  is_a-some h p real_decl tk_boolean e,
  is_a-some h p real_decl tk_char e,
  is_a-some h p real_decl tk_pointer e,
  is_a-some h p real_decl tk_range e,
  rw (is_string_like, type_of-IsNumber h n p e real) refl,
  (_, is_a-some h p real_decl tk_complex e),
  (get_kind real_decl, type_of-IsNumber h n p e real, refl, refl),
)
IsNumber-IsPlain h n p e (complex fs c) = (
  rw (is_set, load-some h p (complex_decl fs c) e) refl,
  is_a-some h p (complex_decl fs c) tk_boolean e,
  is_a-some h p (complex_decl fs c) tk_char e,
  is_a-some h p (complex_decl fs c) tk_pointer e,
  is_a-some h p (complex_decl fs c) tk_range e,
  rw (is_string_like, type_of-IsNumber h n p e (complex fs c)) refl,
  (_, is_a-some h p (complex_decl fs c) tk_complex e),
  (get_kind (complex_decl fs c), type_of-IsNumber h n p e (complex fs c), refl, refl),
)

same_as-IsNumber :
    (h : Heap) (n p q : ℕ) {t u : TypeDecl} {i j : ℕ}
    → h p ≡ some t
    → h q ≡ some u
    → IsNumber t i
    → IsNumber u j
    → (b : Bool) × (same_as (suc n) h p q ≡ done b)
unfolding same_by kind_same
same_as-IsNumber h n p q {u = u} hp hq integer y = (
  kind_eq tk_integer (get_kind u),
  rw (same_as-by h n p q integer_decl u hp hq, type_of-IsNumber h n q hq y) refl,
)
same_as-IsNumber h n p q {u = u} hp hq long y = (
  kind_eq tk_long_int (get_kind u),
  rw (same_as-by h n p q int64_decl u hp hq, type_of-IsNumber h n q hq y) refl,
)
same_as-IsNumber h n p q {u = u} hp hq real y = (
  kind_eq tk_real (get_kind u),
  rw (same_as-by h n p q real_decl u hp hq, type_of-IsNumber h n q hq y) refl,
)
same_as-IsNumber h n p q {u = u} hp hq (complex fs c) y =
    (record_same h p c q u, rw (same_as-by h n p q (complex_decl fs c) u hp hq) refl)

and-false : (b : Bool) → (b && false) ≡ false
and-false true = refl
and-false false = refl

module _ (n : ℕ) (size : ℕ → ℕ) (known : Known) where
  switch_type-plain :
      (op : TokenType) (lhs rhs : Expr) (s : Sema)
      → IsSimple op
      → IsPlain s.heap n (expr_type lhs)
      → IsPlain s.heap n (expr_type rhs)
      → binary_expr_type (suc n) size known op lhs rhs s ≡ done (0, lhs, rhs, s)
  unfolding binary_expr_type switch_type other_type
  switch_type-plain op lhs rhs s (o₁, o₂, o₃, o₄, o₅, o₆, o₇, o₈, o₉)
        (ls, lb, lch, lp, lr, lt, (lc, le), lk) (rs, rb, rch, rp, rr, rt, rc, rk) =
      rw
        (
          binary_expr_type,
          o₁,
          ls,
          rs,
          o₂,
          switch_type,
          lb,
          rb,
          lt,
          rt,
          le,
          o₃,
          o₄,
          o₅,
          o₆,
          and-false (token_eq op TokenType.plus),
          other_type,
          lp,
          rp,
          lr,
          rr,
        )
        refl

  operand_errors-plain :
      (op : TokenType) (lhs rhs : Expr) (s : Sema)
      → IsSimple op
      → IsPlain s.heap n (expr_type lhs)
      → IsPlain s.heap n (expr_type rhs)
      → operand_errors (suc n) size known op lhs rhs s ≡ done (0, s)
  unfolding operand_errors
  operand_errors-plain op lhs rhs s (o₁, o₂, o₃, o₄, o₅, o₆, o₇, o₈, o₉)
        (ls, lb, lch, lp, lr, lt, lc, (lk, le, ln, lm))
        (rs, rb, rch, rp, rr, rt, rc, (rk, re, rn, rm)) =
      rw (operand_errors, le, re, lch, rch, lb, rb, o₄, o₇, o₈, o₉, ln, rn) refl

  recast-IsNumber :
      (h : Heap) (a : Expr) (ty : ℕ) {t u : TypeDecl} {i j : ℕ}
      → h ty ≡ some t
      → h (expr_type a) ≡ some u
      → IsNumber t i
      → IsNumber u j
      → (a' : Expr) × (recast (suc n) h a ty ≡ done a')
  unfolding recast
  recast-IsNumber h a ty ht hu x y =
      let (b, e) = same_as-IsNumber h n ty (expr_type a) ht hu x y in
      (if b then a else type_cast ty a, rw (recast, e) refl)

  -- What the check gives with a common type
  abbrev pub GivesType : Expr → Expr → Sema → Checked → ℕ → Type 0
  GivesType lhs rhs s checked ty =
      (lhs' rhs' : Expr) × (recast (suc n) s.heap lhs ty ≡ done lhs')
      × (recast (suc n) s.heap rhs ty ≡ done rhs')
      × (checked ≡ done (ty, lhs', rhs', s))

  common_type-at :
      (lhs rhs : Expr) (s : Sema) (ty : ℕ) {t u w : TypeDecl} {i j k : ℕ}
      → s.heap (expr_type lhs) ≡ some t
      → s.heap (expr_type rhs) ≡ some u
      → s.heap ty ≡ some w
      → IsNumber t i
      → IsNumber u j
      → IsNumber w k
      → compatible_type s.heap size (suc n) (expr_type lhs) (expr_type rhs) ≡ done (some ty)
      → GivesType lhs rhs s (common_type (suc n) size known lhs rhs s) ty
  unfolding common_type
  common_type-at lhs rhs s ty hl hr hw x y z c =
      let (lhs', l) = recast-IsNumber s.heap lhs ty hw hl z x in
      let (rhs', r) = recast-IsNumber s.heap rhs ty hw hr z y in
      let (_, _, _, _, _, _, _, (k, kind, num, plain)) = IsNumber-IsPlain s.heap n ty hw z in
      (lhs', rhs', l, r, rw (common_type, c, kind, plain, l, r) refl)

module _ (n : ℕ) (size : ℕ → ℕ) (known : Known) where
  common_type-IsNumber :
      (lhs rhs : Expr) (s : Sema) {t u : TypeDecl} {i j : ℕ}
      → s.heap (expr_type lhs) ≡ some t
      → s.heap (expr_type rhs) ≡ some u
      → IsNumber t i
      → IsNumber u j
      → GivesType
          (suc n)
          size
          known
          lhs
          rhs
          s
          (common_type (suc (suc n)) size known lhs rhs s)
          (if leb j i then expr_type lhs else expr_type rhs)
  common_type-IsNumber lhs rhs s {i = i} {j = j} hl hr x y =
      let c = compatible_type-IsNumber s.heap size n (expr_type lhs) (expr_type rhs) hl hr x y in
      elim (Bool-cases (leb j i)) [
        | inl left ↦ rw left (
            common_type-at (suc n) size known lhs rhs s (expr_type lhs) hl hr hl x y x
              (rw left at c))
        | inr right ↦ rw right (
            common_type-at (suc n) size known lhs rhs s (expr_type rhs) hl hr hr x y y
              (rw right at c))
      ]

  -- A sum, difference or product of two numbers is accepted without an error. Its type is that of
  -- the operands that comes later among Integer, LongInt, Real and Complex, and both operands are
  -- cast to it where theirs is another. Fuel of two is enough.
  pub check_binary-IsNumber :
      (op : TokenType) (lhs rhs : Expr) (s : Sema) {t u : TypeDecl} {i j : ℕ}
      → IsArithmetic op
      → s.heap (expr_type lhs) ≡ some t
      → s.heap (expr_type rhs) ≡ some u
      → IsNumber t i
      → IsNumber u j
      → GivesType
          (suc n)
          size
          known
          lhs
          rhs
          s
          (check_binary (suc (suc n)) size known op lhs rhs s)
          (if leb j i then expr_type lhs else expr_type rhs)
  unfolding check_binary
  check_binary-IsNumber op lhs rhs s a hl hr x y =
      let simple = IsArithmetic-IsSimple a in
      let pl = IsNumber-IsPlain s.heap (suc n) (expr_type lhs) hl x in
      let pr = IsNumber-IsPlain s.heap (suc n) (expr_type rhs) hr y in
      let e₁ = switch_type-plain (suc n) size known op lhs rhs s simple pl pr in
      let e₂ = operand_errors-plain (suc n) size known op lhs rhs s simple pl pr in
      let (lhs', rhs', l, r, e) = common_type-IsNumber lhs rhs s hl hr x y in
      (lhs', rhs', l, r, rw (check_binary, e₁, e₂) e)
