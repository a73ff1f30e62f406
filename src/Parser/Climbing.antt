-- ===== src/Parser/Climbing.antt =====
-- `ParseConstExpr` on expressions of operators and integers: precedence climbing.
use mathlib.Core.Bool.{true≢false}
use lacsap.Prelude.{
  ℕ, zero, suc, ◌+◌, ◌*◌, ◌%◌, ◌≤◌, ◌<◌, ◌≡◌, refl, ◌∙◌, arith, Bool, true, false, List, [], ◌∷◌,
  Option, none, some, if◌then◌else◌, Bool-cases, inl, inr,
}
use lacsap.Prelude.Int.{ℤ, pos, ltb_ℤ}
use lacsap.Outcome.{Outcome, done, ◌>>=◌}
use lacsap.Token.{
  TokenType, TokenEntry, Token, Location, precedence, token_eq, token_eq_sound, get_int_val,
}
use lacsap.Stack.{Stack}
use lacsap.Constants.{ConstDecl, int_const, Floats, loc_of, u64}
use lacsap.Parser.Stream.{Parser, Terminator, terminator, is_one_of, next_token}
use lacsap.Parser.ConstEval.{NamedObject, Types, parse_const_eval}
use lacsap.Parser.ConstTerm.{unary_of}
use lacsap.Parser.ConstExpr.{
  next_prec, term_at, parse_const_term, parse_const_rhs, const_expr_loop, parse_const_expr,
}
use lacsap.Parser.Order.{IsLe, IsLe-trans, IsLe-self, lt_next, next_le, le_next}
use lacsap.Parser.Tree.{
  Tree, leaf, node, int_tok, first_loc, first_value, first, second, further, size, Binds, both,
  second-IsLe, list_source, at, Gives, literal, operation,
}

pub predecessor : (n : ℕ) → 0 < n → (m : ℕ) × (n ≡ suc m)
predecessor zero h = absurd (omega arith)
predecessor (suc m) h = (m, refl)

pub times_one : (v : ℕ) → v < u64 → v * 1 % u64 ≡ v
times_one v h = omega arith

module _ {R Ty E : Type 0} (F : Floats R) (table : List TokenEntry)
    (T : Types R Ty E (List (Token R))) (ci : Bool) (names : Stack (NamedObject R Ty E))
    (ahead : Token R) (errs : ℕ) where
  first_value-lt :
      {w : Location} {t : Tree R} {c : ConstDecl R Ty E} → Gives F w t c → first_value t < u64
  first_value-lt (literal place v h) = h
  first_value-lt (operation l o r a b c gl gr h) = first_value-lt gl

  module _
      (expr : List Terminator
        → Parser R (List (Token R))
        → Outcome (Option (ConstDecl R Ty E) × Parser R (List (Token R))))
      (f : ℕ) where
    abbrev pub rhs :
        ℕ
        → ℤ
        → Option (ConstDecl R Ty E)
        → Parser R (List (Token R))
        → Outcome (Option (ConstDecl R Ty E) × Parser R (List (Token R)))
    rhs = parse_const_rhs F (list_source table) T ci names expr f

    pub term_int :
        (w place : Location) (v : ℕ) (t : Token R) (ts : List (Token R))
        → v < u64
        → parse_const_term F
            (list_source table)
            T
            ci
            names
            expr
            f
            w
            (at ahead errs (int_tok place v) (t ∷ ts))
          ≡ done (some (int_const w v), at ahead errs t ts)
    unfolding parse_const_term unary_of term_at get_int_val token_eq next_token
    term_int w place v t ts h = rw (times_one v h) refl

    -- An operator that binds as `q` takes the literal after it, and goes on.
    rhs_step :
        (n : ℕ) (q : ℤ) (a : ConstDecl R Ty E) (o : Token R) (place : Location) (v : ℕ)
        (t : Token R) (ts : List (Token R))
        → IsLe q (precedence o.type)
        → v < u64
        → rhs (suc n) q (some a) (at ahead errs o (int_tok place v ∷ (t ∷ ts))) ≡ (
            (if ltb_ℤ (precedence o.type) (precedence t.type)
              then rhs n
                  (next_prec (precedence o.type))
                  (some (int_const (loc_of a) v))
                  (at ahead errs t ts)
              else done (some (int_const (loc_of a) v), at ahead errs t ts))
            >>= λ (rhs', p3). elim rhs' [
              | none ↦ done (none, p3)
              | some r' ↦ parse_const_eval F a o.type r' p3 >>= λ (lhs', p4). rhs n q lhs' p4
            ])
    unfolding parse_const_rhs next_token
    rhs_step n q a o place v t ts h lt =
        rw (h, term_int (loc_of a) place v t ts lt, times_one v lt) refl

    pub rhs_stop :
        (n : ℕ) (q : ℤ) (a : Option (ConstDecl R Ty E)) (k : Token R) (ks : List (Token R))
        → 0 < n
        → ltb_ℤ (precedence k.type) q ≡ true
        → rhs n q a (at ahead errs k ks) ≡ done (a, at ahead errs k ks)
    unfolding parse_const_rhs
    rhs_stop zero q a k ks p h = absurd (omega arith)
    rhs_stop (suc n) q a k ks p h = rw h refl

    -- What the loop reaches after an expression, and the fuel that is left
    Reaches : ℕ → ℤ → Location → Tree R → ConstDecl R Ty E → Token R → List (Token R) → Type 0
    Reaches n q w t c k ks =
        (n' : ℕ) × (n ≤ n' + size t)
        × (rhs n q (some (int_const w (first_value t)))
              (at ahead errs (second t k) (further t k ks))
            ≡ rhs n' q (some c) (at ahead errs k ks))

    -- The right operand, of which the first literal is read.
    operand :
        (n : ℕ) (w : Location) (o : Token R) (r : Tree R) (b : ConstDecl R Ty E) (k : Token R)
        (ks : List (Token R))
        → IsLe (precedence k.type) (precedence o.type)
        → Binds (next_prec (precedence o.type)) r
        → Gives F w r b
        → size r < n
        → (size r < n → Reaches n (next_prec (precedence o.type)) w r b k ks)
        → (if ltb_ℤ (precedence o.type) (precedence (second r k).type)
            then rhs n
                (next_prec (precedence o.type))
                (some (int_const w (first_value r)))
                (at ahead errs (second r k) (further r k ks))
            else done
                (some (int_const w (first_value r)), at ahead errs (second r k) (further r k ks)))
          ≡ done (some b, at ahead errs k ks)
    unfolding Reaches
    operand n w o (leaf place v) b k ks h bound (literal _ _ lt) fuel rec = rw h refl
    operand n w o (node l o' r) b k ks h (both _ _ _ le bl br) g fuel rec =
        let up =
          next_le (precedence (second l o').type) (precedence o.type)
            (second-IsLe (next_prec (precedence o.type)) l o' le bl) in
        let (n', room, e) = rec fuel in
        rw up (
          e
          ∙ rhs_stop n' (next_prec (precedence o.type)) (some b) k ks (omega arith)
              (lt_next (precedence k.type) (precedence o.type) h))

    after_left :
        (n : ℕ) (q : ℤ) (a b c : ConstDecl R Ty E) (o : Token R) (r : Tree R) (k : Token R)
        (ks : List (Token R))
        → IsLe q (precedence o.type)
        → IsLe (precedence k.type) (precedence o.type)
        → Binds (next_prec (precedence o.type)) r
        → Gives F (loc_of a) r b
        → ((p : Parser R (List (Token R))) → parse_const_eval F a o.type b p ≡ done (some c, p))
        → size r < n
        → (size r < n → Reaches n (next_prec (precedence o.type)) (loc_of a) r b k ks)
        → rhs (suc n) q (some a) (at ahead errs o (first r ∷ second r k ∷ further r k ks))
          ≡ rhs n q (some c) (at ahead errs k ks)
    after_left n q a b c o r k ks hq hk bound g ev fuel rec =
        rhs_step n q a o (first_loc r) (first_value r) (second r k) (further r k ks) hq
          (first_value-lt g)
        ∙ rw (operand n (loc_of a) o r b k ks hk bound g fuel rec, ev (at ahead errs k ks)) refl

    climb :
        (t : Tree R) (n : ℕ) (q m : ℤ) (w : Location) (c : ConstDecl R Ty E) (k : Token R)
        (ks : List (Token R))
        → IsLe q m
        → IsLe (precedence k.type) m
        → Binds m t
        → Gives F w t c
        → size t < n
        → Reaches n q w t c k ks
    unfolding Reaches
    climb (leaf place v) n q m w c k ks hq hk bound (literal _ _ lt) fuel = (n, omega arith, refl)
    climb (node l o r) n q m w c k ks hq hk (both _ _ _ le bl br) (operation _ _ _ a b _ gl gr ev)
          fuel =
        let p = precedence o.type in
        let (n1, room, e) =
          climb l n q p w a o (first r ∷ second r k ∷ further r k ks) (IsLe-trans q m p hq le)
            (IsLe-self p) bl gl (omega arith) in
        let (n2, s) = predecessor n1 (omega arith) in
        let hko = IsLe-trans (precedence k.type) m p hk le in
        (
          n2,
          omega arith,
          e
              ∙ rw s (
                  after_left n2 q a b c o r k ks (IsLe-trans q m p hq le) hko br gr ev (omega arith)
                    (λ lt.
                      climb r n2 (next_prec p) (next_prec p) (loc_of a) b k ks
                        (IsLe-self (next_prec p)) (le_next (precedence k.type) p hko) br gr lt)),
        )

    loop_ends :
        (n : ℕ) (w : Location) (terms : List Terminator) (p p1 p2 : Parser R (List (Token R)))
        (c1 c2 : ConstDecl R Ty E)
        → parse_const_term F (list_source table) T ci names expr f w p ≡ done (some c1, p1)
        → is_one_of p1.cur_token.type terms ≡ false
        → rhs f (pos 0) (some c1) p1 ≡ done (some c2, p2)
        → is_one_of p2.cur_token.type terms ≡ true
        → const_expr_loop F (list_source table) T ci names expr f (suc n) w terms p
          ≡ done (some c2, p2)
    unfolding const_expr_loop
    loop_ends n w terms p p1 p2 c1 c2 e1 more e2 stop = rw (e1, more, e2, stop) refl

  -- An operator is no semicolon.
  operator_goes_on :
      (t : TokenType)
      → IsLe (pos 0) (precedence t)
      → is_one_of t (terminator TokenType.semicolon ∷ []) ≡ false
  unfolding is_one_of terminator precedence
  operator_goes_on t h = elim (Bool-cases (token_eq t TokenType.semicolon)) [
    | inl e ↦ absurd (true≢false (rw (token_eq_sound t TokenType.semicolon e) at h))
    | inr e ↦ rw e refl
  ]

  pub semicolon_ends :
      (t : TokenType)
      → t ≡ TokenType.semicolon
      → is_one_of t (terminator TokenType.semicolon ∷ []) ≡ true
  unfolding is_one_of terminator token_eq
  semicolon_ends t e = rw e refl

  semicolon_below : (t : TokenType) → t ≡ TokenType.semicolon → IsLe (precedence t) (pos 0)
  unfolding precedence
  semicolon_below t e = rw e refl

  semicolon_stops : (t : TokenType) → t ≡ TokenType.semicolon → ltb_ℤ (precedence t) (pos 0) ≡ true
  unfolding precedence
  semicolon_stops t e = rw e refl

  -- An expression of integers below 2^64 and operators, up to a semicolon, has the value that its
  -- tree has, if the tree is the one that the binding of the operators asks for, to the left among
  -- equals, and its operations all have a value. The fuel has to be at
  -- least two more than the number of operators.
  pub parse_const_expr-climbs :
      (t : Tree R) (c : ConstDecl R Ty E) (k : Token R) (ks : List (Token R)) (f : ℕ)
      → k.type ≡ TokenType.semicolon
      → Binds (pos 0) t
      → Gives F (first_loc t) t c
      → size t < f
      → parse_const_expr F
          (list_source table)
          T
          ci
          names
          (suc f)
          (terminator TokenType.semicolon ∷ [])
          (at ahead errs (first t) (second t k ∷ further t k ks))
        ≡ done (some c, at ahead errs k ks)
  unfolding parse_const_expr const_expr_loop Reaches
  parse_const_expr-climbs t c k ks zero semi bound g fuel = absurd (omega arith)
  parse_const_expr-climbs (leaf place v) c k ks (suc f) semi bound (literal _ _ lt) fuel =
      rw
        (
          term_int (parse_const_expr F (list_source table) T ci names (suc f)) (suc f) place place v
              k ks lt,
          semicolon_ends k.type semi,
        )
        refl
  parse_const_expr-climbs (node l o r) c k ks (suc f) semi (both _ _ _ le bl br) g fuel =
      let expr = parse_const_expr F (list_source table) T ci names (suc f) in
      let t : Tree R = node l o r in
      let (n, room, e) =
        climb expr (suc f) t (suc f) (pos 0) (pos 0) (first_loc t) c k ks refl
          (semicolon_below k.type semi) (both l o r le bl br) g fuel in
      loop_ends expr (suc f) f (first_loc t) (terminator TokenType.semicolon ∷ [])
        (at ahead errs (first t) (second t k ∷ further t k ks))
        (at ahead errs (second t k) (further t k ks)) (at ahead errs k ks)
        (int_const (first_loc t) (first_value t)) c
        (term_int expr (suc f) (first_loc t) (first_loc t) (first_value t) (second t k)
          (further t k ks) (first_value-lt g))
        (operator_goes_on (second l o).type (second-IsLe (pos 0) l o le bl))
        (e
          ∙ rhs_stop expr (suc f) n (pos 0) (some c) k ks (omega arith)
              (semicolon_stops k.type semi))
        (semicolon_ends k.type semi)
