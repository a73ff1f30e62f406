-- ===== src/Parser/Formulas/Climb.antt =====
-- `ParseBinOpRHS` on the expressions of the grammar: precedence climbing.
use lacsap.Prelude.{
  ℕ, zero, suc, ◌+◌, ◌≤◌, ◌<◌, ◌≡◌, refl, ◌∙◌, arith, Bool, true, false, List, ◌∷◌, Option, none,
  some, if◌then◌else◌,
}
use lacsap.Prelude.Int.{ℤ, ltb_ℤ}
use lacsap.Outcome.{Outcome, done, ◌>>=◌}
use lacsap.Token.{TokenEntry, Token, precedence}
use lacsap.Stack.{Stack}
use lacsap.Parser.Stream.{Parser}
use lacsap.Parser.ConstEval.{NamedObject, Types}
use lacsap.Parser.ConstExpr.{next_prec}
use lacsap.Parser.Ast.{ExprAst, Outside, binary_expr}
use lacsap.Parser.Expression.{is_suffix, parse_expr_element, parse_bin_op_rhs, parse_expression}
use lacsap.Parser.Order.{IsLe, IsLe-trans, IsLe-self, lt_next, next_le, le_next}
use lacsap.Parser.Tree.{list_source, at}
use lacsap.Parser.Climbing.{predecessor}
use lacsap.Parser.Grammar.{
  Operand, Formula, leaf, node, spell_operand, spell, operand_node, formula_node, operand_size,
  formula_size, from, IsOperand, IsFormula, leaf_ok, node_ok,
}
use lacsap.Parser.Formulas.First.{
  next_from, first, second, further, spell-first, second_lem, second-is_suffix, first-IsOperand,
  size-first,
}

module _ {R V Ty E : Type 0} (table : List TokenEntry) (T : Types R Ty E (List (Token R)))
    (H : Outside R V Ty (List (Token R))) (ci : Bool) (names : Stack (NamedObject R Ty E))
    (ahead : Token R) (errs : ℕ) where
  abbrev Result : Type 0
  Result = Outcome (Option (ExprAst R V Ty) × Parser R (List (Token R)))

  module _ (f : ℕ) where
    unfoldable pub element : ℕ → Parser R (List (Token R)) → Result
    element =
        parse_expr_element (list_source table) T H ci names
          (parse_expression (list_source table) T H ci names f) f

    unfoldable pub rhs : ℕ → ℤ → ExprAst R V Ty → Parser R (List (Token R)) → Result
    rhs =
        parse_bin_op_rhs (list_source table) T H ci names
          (parse_expression (list_source table) T H ci names f) f

    -- An operand of a formula is read up to the token after it.
    abbrev pub Reads : Operand R V Ty → Type 0
    Reads x =
        (k : Token R) (ks : List (Token R))
        → is_suffix k.type ≡ false
        → element f (from ahead errs (spell_operand x (k ∷ ks)))
          ≡ done (some (operand_node x k.loc), at ahead errs k ks)

    pub rhs_step :
        (n : ℕ) (q : ℤ) (a : ExprAst R V Ty) (o : Token R) (r : Formula R V Ty) (k : Token R)
        (ks : List (Token R))
        → IsLe q (precedence o.type)
        → Reads (first table T H ci names ahead errs r)
        → is_suffix (second table T H ci names ahead errs r k).type ≡ false
        → rhs (suc n) q a (at ahead errs o (spell r (k ∷ ks))) ≡ (
            (if ltb_ℤ
                (precedence o.type)
                (precedence (second table T H ci names ahead errs r k).type)
              then rhs n
                  (next_prec (precedence o.type))
                  (operand_node
                    (first table T H ci names ahead errs r)
                    (second table T H ci names ahead errs r k).loc)
                  (at ahead errs
                    (second table T H ci names ahead errs r k)
                    (further table T H ci names ahead errs r k ks))
              else done (
                some (
                    operand_node
                      (first table T H ci names ahead errs r)
                      (second table T H ci names ahead errs r k).loc),
                at ahead errs
                    (second table T H ci names ahead errs r k)
                    (further table T H ci names ahead errs r k ks),
              ))
            >>= λ (rhs', p3). elim rhs' [
              | none ↦ done (none, p3)
              | some r' ↦ rhs n q (binary_expr o a r') p3
            ])
    unfolding rhs parse_bin_op_rhs element
    rhs_step n q a o r k ks h reads s =
        rw
          (
            h,
            next_from table ahead errs o (spell r (k ∷ ks)),
            spell-first table T H ci names ahead errs r k ks,
            reads (second table T H ci names ahead errs r k)
                (further table T H ci names ahead errs r k ks) s,
          )
          refl

    pub rhs_stop :
        (n : ℕ) (q : ℤ) (a : ExprAst R V Ty) (k : Token R) (ks : List (Token R))
        → 0 < n
        → ltb_ℤ (precedence k.type) q ≡ true
        → rhs n q a (at ahead errs k ks) ≡ done (some a, at ahead errs k ks)
    unfolding rhs parse_bin_op_rhs
    rhs_stop zero q a k ks p h = absurd (omega arith)
    rhs_stop (suc n) q a k ks p h = rw h refl

    -- What the loop reaches after a formula, and the fuel that is left
    abbrev pub Reaches : ℕ → ℤ → Formula R V Ty → Token R → List (Token R) → Type 0
    Reaches n q t k ks =
        (n' : ℕ) × (n ≤ n' + formula_size t)
        × (rhs n q
              (operand_node (first table T H ci names ahead errs t)
                (second table T H ci names ahead errs t k).loc)
              (at ahead errs (second table T H ci names ahead errs t k)
                (further table T H ci names ahead errs t k ks))
            ≡ rhs n' q (formula_node t k.loc) (at ahead errs k ks))

    -- The right operand, of which the first table T H ci names ahead errs part is read.
    pub right_operand :
        (n : ℕ) (o : Token R) (r : Formula R V Ty) (k : Token R) (ks : List (Token R))
        → IsLe (precedence k.type) (precedence o.type)
        → IsFormula H ci names ahead errs (next_prec (precedence o.type)) r
        → formula_size r < n
        → Reaches n (next_prec (precedence o.type)) r k ks
        → (if ltb_ℤ (precedence o.type) (precedence (second table T H ci names ahead errs r k).type)
            then rhs n
                (next_prec (precedence o.type))
                (operand_node
                  (first table T H ci names ahead errs r)
                  (second table T H ci names ahead errs r k).loc)
                (at ahead errs
                  (second table T H ci names ahead errs r k)
                  (further table T H ci names ahead errs r k ks))
            else done (
              some (
                  operand_node
                    (first table T H ci names ahead errs r)
                    (second table T H ci names ahead errs r k).loc),
              at ahead errs
                  (second table T H ci names ahead errs r k)
                  (further table T H ci names ahead errs r k ks),
            ))
          ≡ done (some (formula_node r k.loc), at ahead errs k ks)
    unfolding first second further formula_node
    right_operand n o (leaf x) k ks h b fuel reaches = rw h refl
    right_operand n o (node l o' r) k ks h b fuel (n', room, e) =
        let up =
          next_le (precedence (second table T H ci names ahead errs l o').type) (precedence o.type)
            (second_lem table T H ci names ahead errs (next_prec (precedence o.type)) l r o' b).0 in
        rw up (
          e
          ∙ rhs_stop n' (next_prec (precedence o.type)) (formula_node (node l o' r) k.loc) k ks
              (omega arith) (lt_next (precedence k.type) (precedence o.type) h))

    -- The operands for which the fuel is enough are read.
    abbrev pub AllRead : Type 0
    AllRead =
        (x : Operand R V Ty) → IsOperand H ci names ahead errs x → operand_size x < f → Reads x

    pub climb :
        (t : Formula R V Ty) (n : ℕ) (q m : ℤ) (k : Token R) (ks : List (Token R))
        → AllRead
        → formula_size t < f
        → IsLe q m
        → IsLe (precedence k.type) m
        → is_suffix k.type ≡ false
        → IsFormula H ci names ahead errs m t
        → formula_size t < n
        → Reaches n q t k ks
    unfolding first second further formula_node formula_size
    climb (leaf x) n q m k ks all lt hq hk s (leaf_ok _ b) fuel = (n, omega arith, refl)
    climb (node l o r) n q m k ks all lt hq hk s (node_ok _ _ _ le so bl br) fuel =
        let p = precedence o.type in
        let (n1, room, e) =
          climb l n q p o (spell r (k ∷ ks)) all (omega arith) (IsLe-trans q m p hq le)
            (IsLe-self p) so bl (omega arith) in
        let (n2, suc_n2) = predecessor n1 (omega arith) in
        let hko = IsLe-trans (precedence k.type) m p hk le in
        let room2 : formula_size r < n2 = omega arith in
        let small : operand_size (first table T H ci names ahead errs r) < f =
          omega (arith, size-first table T H ci names ahead errs r) in
        let right : Reaches n2 (next_prec p) r k ks =
          climb r n2 (next_prec p) (next_prec p) k ks all (omega arith) (IsLe-self (next_prec p))
            (le_next (precedence k.type) p hko) s br room2 in
        (
          n2,
          omega arith,
          e
              ∙ rw suc_n2 (
                  rhs_step n2 q (formula_node l o.loc) o r k ks (IsLe-trans q m p hq le)
                    (all (first table T H ci names ahead errs r)
                      (first-IsOperand table T H ci names ahead errs (next_prec p) r br) small)
                    (second-is_suffix table T H ci names ahead errs (next_prec p) r k br s)
                  ∙ rw (right_operand n2 o r k ks hko br room2 right) refl),
        )
