-- ===== src/Constants/Laws.antt =====
-- constants.cpp: what the operators and functions give.
use native.Mathlib.Nat.{div-add-mod}
use mathlib.Core.List.{append_assoc}
use lacsap.Prelude.{
  ℕ, ◌+◌, ◌-◌, ◌*◌, ◌/◌, ◌%◌, ◌<◌, ◌≡◌, refl, ap, arith, [], ◌∷◌, ◌==◌, Text, Bool-cases, inl, inr,
  ltb, ◌^◌, ◌∙◌,
}
use lacsap.Token.{Location}
use lacsap.Constants.Decl.{
  ConstDecl, int_const, enum_const, real_const, char_const, bool_const, string_const,
  compound_const, range_const, set_const, Eval, value, null, undefined, Floats, no_location,
  widen_char, ◌>>=◌,
}
use lacsap.Constants.Arith.{u64, plus_const, minus_const, times_const, over_const, mod_const}
use lacsap.Constants.Power.{to_int32}
use lacsap.Constants.Functions.{
  succ_func, pred_func, chr_func, ord_func, int64_of, in_int64, add_int, sub_int, step_of,
  update_value_same_type,
}
use lacsap.Constants.Calls.{InMiddle, small_step}
use lacsap.Prelude.Int.{ℤ, pos, negsuc, pos_part, neg_part}

-- The kinds of operand that arithmetic tells apart
pub data Kind : Type 0 where
  int_kind real_kind char_kind string_kind other_kind : Kind

module _ {R Ty E : Type 0} where
  abbrev pub kind_of : ConstDecl R Ty E → Kind
  kind_of (int_const _ _) = int_kind
  kind_of (real_const _ _) = real_kind
  kind_of (char_const _ _) = char_kind
  kind_of (string_const _ _) = string_kind
  kind_of _ = other_kind

  abbrev pub kind_result : Eval (ConstDecl R Ty E) → Eval Kind
  kind_result e = e >>= λ c. value (kind_of c)

-- The kind of a sum, a difference or a product of numbers
abbrev pub number_kind : Kind → Kind → Eval Kind
number_kind int_kind int_kind = value int_kind
number_kind int_kind real_kind = value real_kind
number_kind real_kind int_kind = value real_kind
number_kind real_kind real_kind = value real_kind
number_kind _ _ = null

-- `+` also joins texts, one of which may be a character.
abbrev pub sum_kind : Kind → Kind → Eval Kind
sum_kind string_kind string_kind = value string_kind
sum_kind string_kind char_kind = value string_kind
sum_kind char_kind string_kind = value string_kind
sum_kind a b = number_kind a b

quotient_remainder : (a b : ℕ) → a < u64 → (a % b + a / b * b % u64) % u64 ≡ a
quotient_remainder a b h = omega (arith, div-add-mod a b)

module _ {R Ty E : Type 0} (F : Floats R) where
  -- The kinds of two operands decide the kind of their sum, difference and product, and whether
  -- there is one: none of the three is ever undefined.
  pub kind-arith :
      (a b : ConstDecl R Ty E)
      → (kind_result (plus_const F a b) ≡ sum_kind (kind_of a) (kind_of b))
        × (kind_result (minus_const F a b) ≡ number_kind (kind_of a) (kind_of b))
        × (kind_result (times_const F a b) ≡ number_kind (kind_of a) (kind_of b))
  unfolding plus_const minus_const times_const
  kind-arith (int_const _ _) (int_const _ _) = (refl, refl, refl)
  kind-arith (int_const _ _) _ = (refl, refl, refl)
  kind-arith (enum_const _ _ _) (int_const _ _) = (refl, refl, refl)
  kind-arith (enum_const _ _ _) _ = (refl, refl, refl)
  kind-arith (real_const _ _) (int_const _ _) = (refl, refl, refl)
  kind-arith (real_const _ _) _ = (refl, refl, refl)
  kind-arith (char_const _ _) (int_const _ _) = (refl, refl, refl)
  kind-arith (char_const _ _) _ = (refl, refl, refl)
  kind-arith (bool_const _ _) (int_const _ _) = (refl, refl, refl)
  kind-arith (bool_const _ _) _ = (refl, refl, refl)
  kind-arith (string_const _ _) (int_const _ _) = (refl, refl, refl)
  kind-arith (string_const _ _) _ = (refl, refl, refl)
  kind-arith (compound_const _ _ _) (int_const _ _) = (refl, refl, refl)
  kind-arith (compound_const _ _ _) _ = (refl, refl, refl)
  kind-arith (range_const _ _ _ _) (int_const _ _) = (refl, refl, refl)
  kind-arith (range_const _ _ _ _) _ = (refl, refl, refl)
  kind-arith (set_const _ _ _) (int_const _ _) = (refl, refl, refl)
  kind-arith (set_const _ _ _) _ = (refl, refl, refl)

  -- Subtraction undoes addition on 64 bits.
  minus-plus :
      (w w' : Location) (a b : ℕ)
      → a < u64
      → b < u64
      → (plus_const {Ty = Ty} {E = E} F (int_const w a) (int_const w' b) >>= λ s.
          minus_const F s (int_const w' b))
        ≡ value (int_const no_location a)
  unfolding plus_const minus_const
  minus-plus w w' a b ha hb = let e : ((b + a) % u64 + u64 - b) % u64 ≡ a = omega arith in rw e refl

  -- A quotient and a remainder of unsigned values make up the dividend.
  pub div-mod-const :
      (w w' : Location) (a b : ℕ)
      → a < u64
      → 0 < b
      → (over_const {Ty = Ty} {E = E} F (int_const w a) (int_const w' b) >>= λ q.
          times_const F q (int_const w' b) >>= λ p.
          mod_const (int_const w a) (int_const w' b) >>= λ r. plus_const F p r)
        ≡ value (int_const no_location a)
  unfolding over_const times_const mod_const plus_const
  div-mod-const w w' a b ha hb = elim (Bool-cases (b == 0)) [
    | inl z ↦ absurd (ground arith)
    | inr nz ↦ rw nz (rw (quotient_remainder a b ha) refl)
  ]

  -- Joining texts is associative, whether the outer two are strings or characters; any other
  -- operand makes both ways fail.
  plus_assoc_text :
      (a c : ConstDecl R Ty E) (w : Location) (t : Text)
      → (plus_const F a (string_const w t) >>= λ x. plus_const F x c)
        ≡ (plus_const F (string_const w t) c >>= λ y. plus_const F a y)
  unfolding plus_const
  plus_assoc_text (int_const _ _) (int_const _ _) w t = refl
  plus_assoc_text (int_const _ _) _ w t = refl
  plus_assoc_text (enum_const _ _ _) (int_const _ _) w t = refl
  plus_assoc_text (enum_const _ _ _) _ w t = refl
  plus_assoc_text (real_const _ _) (int_const _ _) w t = refl
  plus_assoc_text (real_const _ _) _ w t = refl
  plus_assoc_text (char_const _ _) (int_const _ _) w t = refl
  plus_assoc_text (char_const _ _) _ w t = refl
  plus_assoc_text (bool_const _ _) (int_const _ _) w t = refl
  plus_assoc_text (bool_const _ _) _ w t = refl
  plus_assoc_text (string_const _ s) (string_const _ u) w t =
      ap (λ x. value (string_const no_location x)) (append_assoc s t u)
  plus_assoc_text (string_const _ s) (char_const _ d) w t =
      ap (λ x. value (string_const no_location x)) (append_assoc s t (d ∷ []))
  plus_assoc_text (string_const _ _) _ w t = refl
  plus_assoc_text (compound_const _ _ _) (int_const _ _) w t = refl
  plus_assoc_text (compound_const _ _ _) _ w t = refl
  plus_assoc_text (range_const _ _ _ _) (int_const _ _) w t = refl
  plus_assoc_text (range_const _ _ _ _) _ w t = refl
  plus_assoc_text (set_const _ _ _) (int_const _ _) w t = refl
  plus_assoc_text (set_const _ _ _) _ w t = refl

-- A step of `n` and back, where the amounts stay below 2^63
step_undone :
    (n : ℤ) (v : ℕ)
    → v < u64
    → pos_part (int64_of v) + neg_part (int64_of v) + (pos_part n + neg_part n) < 2 ^ 63
    → (add_int n v >>= sub_int n) ≡ value v
unfolding add_int sub_int in_int64
step_undone (pos n) v lt h = elim (Bool-cases (ltb v (2 ^ 63))) [
  | inl low ↦ ground arith
  | inr high ↦ ground arith
]
step_undone (negsuc n) v lt h = elim (Bool-cases (ltb v (2 ^ 63))) [
  | inl low ↦ ground arith
  | inr high ↦ ground arith
]

module _ {R Ty E : Type 0} where
  -- A character constant comes back from its "ord" by "chr".
  chr-ord :
      (w : Location) (c : ℕ)
      → c < 256
      → (ord_func {R = R} {Ty = Ty} {E = E} (char_const w c ∷ []) >>= λ i. chr_func (i ∷ []))
        ≡ value (char_const w c)
  unfolding ord_func chr_func
  chr-ord w c h = let e : widen_char c % 256 ≡ c = ground arith in rw e refl

  ord-chr :
      (w : Location) (v : ℕ)
      → v < 128
      → (chr_func {R = R} {Ty = Ty} {E = E} (int_const w v ∷ []) >>= λ c. ord_func (c ∷ []))
        ≡ value (int_const w v)
  unfolding ord_func chr_func
  ord-chr w v h = let e : widen_char (v % 256) ≡ v = ground arith in rw e refl

  undone :
      (e : Eval ℕ) (g : ℕ → Eval ℕ) (k : ℕ → ConstDecl R Ty E)
      (then_do : ConstDecl R Ty E → Eval (ConstDecl R Ty E)) (v : ℕ)
      → ((x : ℕ) → then_do (k x) ≡ (g x >>= λ y. value (k y)))
      → (e >>= g) ≡ value v
      → ((e >>= λ x. value (k x)) >>= then_do) ≡ value (k v)
  undone (value x) g k then_do v h e = h x ∙ ap (λ r. r >>= λ y. value (k y)) e
  undone null g k then_do v h e = ap (λ r. r >>= λ y. value (k y)) e
  undone undefined g k then_do v h e = ap (λ r. r >>= λ y. value (k y)) e

  -- "pred" with the same step takes an integer or an enumeration value back from its "succ", where
  -- the amount of the value, on 64 bits, is below 2^63 - 2^31.
  pred-succ :
      (w w' : Location) (ty : Ty) (v n : ℕ)
      → v < u64
      → InMiddle v
      → ((succ_func {R = R} {Ty = Ty} {E = E} (int_const w v ∷ int_const w' n ∷ []) >>= λ c.
            pred_func (c ∷ int_const w' n ∷ []))
          ≡ value (int_const w v))
        × ((succ_func {R = R} {Ty = Ty} {E = E} (enum_const ty w v ∷ []) >>= λ c.
              pred_func (c ∷ []))
            ≡ value (enum_const ty w v))
  unfolding succ_func pred_func update_value_same_type step_of
  pred-succ w w' ty v n lt h = (
    undone (add_int (to_int32 n) v) (sub_int (to_int32 n)) (int_const w)
        (λ c. pred_func (c ∷ int_const w' n ∷ [])) v (λ x. refl)
        (step_undone (to_int32 n) v lt (omega (arith, small_step R Ty E n))),
    undone (add_int (to_int32 1) v) (sub_int (to_int32 1)) (enum_const ty w)
        (λ c. pred_func (c ∷ [])) v (λ x. refl)
        (step_undone (to_int32 1) v lt (omega (arith, small_step R Ty E 1))),
  )
