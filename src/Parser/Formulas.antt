-- ===== src/Parser/Formulas.antt =====
-- `ParseExpression` on the expressions of the grammar.
pub mod First
mod Climb
use lacsap.Prelude.{
  ℕ, zero, suc, ◌+◌, ◌≤◌, ◌<◌, ◌≡◌, refl, ◌∙◌, ap, arith, Bool, true, false, not, List, [], ◌∷◌,
  ◌++◌, Option, none, some, Text, if◌then◌else◌,
}
use lacsap.Prelude.Int.{ℤ, pos, negsuc, ltb_ℤ}
use lacsap.Outcome.{Outcome, done, ◌>>=◌}
use lacsap.Token.{
  TokenType, TokenEntry, Token, Location, precedence, token_eq, get_int_val, get_real_val,
  get_str_val, get_ident_name,
}
use lacsap.Stack.{Stack, find}
use lacsap.Parser.Stream.{Parser, TokenSource, next_token, assert_token, expect}
use lacsap.Parser.ConstEval.{NamedObject, Types, var_def, get_const_decl}
use lacsap.Parser.ConstExpr.{next_prec}
use lacsap.Parser.Ast.{ExprAst, Outside, binary_expr, variable_expr}
use lacsap.Parser.Expression.{
  is_suffix, Parsed, translate_token, translated, element_at, parse_unary_op, parse_expr_element,
  parse_bin_op_rhs, parse_expression, parse_paren_expr, parse_identifier_expr, parse_variable_expr,
  is_variable, parse_integer_expr, parse_string_expr,
}
use lacsap.Parser.Order.{IsLe, IsLe-trans, IsLe-self, lt_next, next_le, le_next}
use lacsap.Parser.Tree.{list_source, at}
use lacsap.Parser.Climbing.{predecessor}
use lacsap.Parser.Grammar.{
  Sign, minus_sign, plus_sign, not_sign, Operand, atom, paren, signed, Formula, leaf, node,
  spell_operand, spell, operand_node, formula_node, operand_size, formula_size, Closes, from,
  IsAtom, integer_atom, real_atom, char_atom, string_atom, variable_atom, name_token, IsOperand,
  atom_ok, paren_ok, signed_ok, IsFormula, leaf_ok, node_ok, signed_node, sign_token, left_bracket,
  right_bracket,
}
use lacsap.Parser.Formulas.First.{
  next_from, first, second, further, spell-first, second-is_suffix, first-IsOperand, size-first,
}
use lacsap.Parser.Formulas.Climb.{element, rhs, rhs_stop, climb}

closed_le : (a : ℤ) → ltb_ℤ a (pos 0) ≡ true → IsLe a (pos 0)
closed_le (pos n) h = ground arith
closed_le (negsuc n) h = ground arith

module _ {R V Ty E : Type 0} (table : List TokenEntry) (T : Types R Ty E (List (Token R)))
    (H : Outside R V Ty (List (Token R))) (ci : Bool) (names : Stack (NamedObject R Ty E))
    (ahead : Token R) (errs : ℕ) where
  abbrev Result : Type 0
  Result = Outcome (Option (ExprAst R V Ty) × Parser R (List (Token R)))

  pub variable_reads :
      (w : Location) (c : ℕ) (cs : Text) (k : Token R) (ks : List (Token R))
      → find ci (c ∷ cs) names ≡ some var_def
      → H.is_function (c ∷ cs) ≡ false
      → is_suffix k.type ≡ false
      → parse_identifier_expr
          (list_source table)
          T
          H
          ci
          names
          (name_token w (c ∷ cs))
          (at ahead errs (name_token w (c ∷ cs)) (k ∷ ks))
        ≡ done (some (variable_expr k.loc (c ∷ cs)), at ahead errs k ks)
  unfolding parse_identifier_expr parse_variable_expr is_variable get_ident_name assert_token expect
      token_eq
  variable_reads w c cs k ks found plain s = rw (found, plain, s) refl

  variable_get_const_decl :
      (name : Text) → find ci name names ≡ some var_def → get_const_decl ci names name ≡ none
  unfolding get_const_decl
  variable_get_const_decl name found = rw (get_const_decl, found) refl

  variable_translate :
      (w : Location) (c : ℕ) (cs : Text)
      → find ci (c ∷ cs) names ≡ some var_def
      → translate_token ci names (name_token w (c ∷ cs)) ≡ done (name_token w (c ∷ cs))
  unfolding translate_token translated get_ident_name token_eq
  variable_translate w c cs found =
      ap (translated (name_token w (c ∷ cs))) (variable_get_const_decl (c ∷ cs) found)

  module _ (f : ℕ) where
    -- What `ParseExpression` does with brackets is known for less fuel.
    abbrev Accepts : Type 0
    Accepts =
        (e : Formula R V Ty) (k : Token R) (ks : List (Token R))
        → IsFormula H ci names ahead errs (pos 0) e
        → Closes k.type
        → formula_size e + 1 < f
        → parse_expression (list_source table) T H ci names f (from ahead errs (spell e (k ∷ ks)))
          ≡ done (some (formula_node e k.loc), at ahead errs k ks)

    atom_reads :
        (t : Token R) (a : Location → ExprAst R V Ty) (n : ℕ) (k : Token R) (ks : List (Token R))
        → IsAtom H ci names ahead errs t a
        → is_suffix k.type ≡ false
        → element table T H ci names ahead errs f (suc n) (at ahead errs t (k ∷ ks))
          ≡ done (some (a k.loc), at ahead errs k ks)
    unfolding element parse_expr_element element_at parse_integer_expr parse_string_expr get_int_val
        get_real_val get_str_val token_eq next_token
    atom_reads t _ n k ks (integer_atom _ t' v e ty value) s = rw (e, ty, value) refl
    atom_reads t _ n k ks (real_atom _ t' v e ty value) s = rw (e, ty, value) refl
    atom_reads t _ n k ks (char_atom _ t' v e ty value) s = rw (e, ty, value) refl
    atom_reads t _ n k ks (string_atom _ t' e ty) s = rw (e, ty) refl
    atom_reads _ _ n k ks (variable_atom w c cs found plain) s =
        rw (variable_translate w c cs found) (variable_reads w c cs k ks found plain s)

    -- An operator that is a sign, and its operand
    sign_reads :
        (s : Sign) (w : Location) (x : Operand R V Ty) (n : ℕ) (k : Token R) (ks : List (Token R))
        → element table T H ci names ahead errs f n (from ahead errs (spell_operand x (k ∷ ks)))
          ≡ done (some (operand_node x k.loc), at ahead errs k ks)
        → element table T H ci names ahead errs f
            (suc n)
            (from ahead errs (spell_operand (signed s w x) (k ∷ ks)))
          ≡ done (some (operand_node (signed s w x) k.loc), at ahead errs k ks)
    unfolding element parse_expr_element translate_token element_at parse_unary_op spell_operand
        operand_node token_eq
    sign_reads minus_sign w x n k ks e =
        rw (next_from table ahead errs (sign_token minus_sign w) (spell_operand x (k ∷ ks)), e) refl
    sign_reads plus_sign w x n k ks e =
        rw (next_from table ahead errs (sign_token plus_sign w) (spell_operand x (k ∷ ks)), e) refl
    sign_reads not_sign w x n k ks e =
        rw (next_from table ahead errs (sign_token not_sign w) (spell_operand x (k ∷ ks)), e) refl

    paren_reads :
        (w w' : Location) (e : Formula R V Ty) (n : ℕ) (k : Token R) (ks : List (Token R))
        → parse_expression
            (list_source table)
            T
            H
            ci
            names
            f
            (from ahead errs (spell e (right_bracket w' ∷ (k ∷ ks))))
          ≡ done (some (formula_node e w'), at ahead errs (right_bracket w') (k ∷ ks))
        → element table T H ci names ahead errs f
            (suc n)
            (from ahead errs (spell_operand (paren w e w') (k ∷ ks)))
          ≡ done (some (operand_node (paren w e w') k.loc), at ahead errs k ks)
    unfolding element parse_expr_element translate_token element_at parse_paren_expr spell_operand
        operand_node token_eq assert_token expect
    paren_reads w w' e n k ks h =
        rw (next_from table ahead errs (left_bracket w) (spell e (right_bracket w' ∷ (k ∷ ks))), h)
          refl

    bracket_closes : (w : Location) → Closes (right_bracket {R = R} w).type
    unfolding precedence token_eq
    bracket_closes w = (refl, refl)

    operand_reads :
        (x : Operand R V Ty) (n : ℕ) (k : Token R) (ks : List (Token R))
        → Accepts
        → IsOperand H ci names ahead errs x
        → operand_size x < n
        → operand_size x < f
        → is_suffix k.type ≡ false
        → element table T H ci names ahead errs f n (from ahead errs (spell_operand x (k ∷ ks)))
          ≡ done (some (operand_node x k.loc), at ahead errs k ks)
    unfolding operand_size spell_operand operand_node
    operand_reads x zero k ks acc b fuel lt s = absurd (omega arith)
    operand_reads (atom t a) (suc n) k ks acc (atom_ok _ _ b) fuel lt s = atom_reads t a n k ks b s
    operand_reads (paren w e w') (suc n) k ks acc (paren_ok _ _ _ b) fuel lt s =
        paren_reads w w' e n k ks
          (acc e (right_bracket w') (k ∷ ks) b (bracket_closes w') (omega arith))
    operand_reads (signed g w x) (suc n) k ks acc (signed_ok _ _ _ b) fuel lt s =
        sign_reads g w x n k ks (operand_reads x n k ks acc b (omega arith) (omega arith) s)

  -- `ParseExpression` reads any expression of the grammar up to a token that closes it, and gives the
  -- node of its tree: the tree in which the operators bind by their precedence, to the left among
  -- equals, and signs bind more than all of them. An expression is made of values, names of
  -- constants with values, names of variables of no function type, signs, brackets and operators;
  -- calls, sets, and what
  -- goes on with a variable (an index, a field) are not among them. The node of a variable has the
  -- place of the token after it, as in the code. The fuel has to be more than the size and one.
  pub parse_expression-accepts :
      (f : ℕ) (e : Formula R V Ty) (k : Token R) (ks : List (Token R))
      → IsFormula H ci names ahead errs (pos 0) e
      → Closes k.type
      → formula_size e + 1 < f
      → parse_expression (list_source table) T H ci names f (from ahead errs (spell e (k ∷ ks)))
        ≡ done (some (formula_node e k.loc), at ahead errs k ks)
  unfolding parse_expression element rhs
  parse_expression-accepts zero e k ks b closes fuel = absurd (omega arith)
  parse_expression-accepts (suc f) e k ks b (stops, s) fuel =
      let acc = parse_expression-accepts f in
      let read =
        operand_reads f (first table T H ci names ahead errs e) f
          (second table T H ci names ahead errs e k) (further table T H ci names ahead errs e k ks)
          acc (first-IsOperand table T H ci names ahead errs (pos 0) e b)
          (omega (arith, size-first table T H ci names ahead errs e))
          (omega (arith, size-first table T H ci names ahead errs e))
          (second-is_suffix table T H ci names ahead errs (pos 0) e k b s) in
      let (n, room, climbed) =
        climb table T H ci names ahead errs f e f (pos 0) (pos 0) k ks
          (λ x bx lt k' ks' s'. operand_reads f x f k' ks' acc bx lt lt s') (omega arith) refl
          (closed_le (precedence k.type) stops) s b (omega arith) in
      rw (spell-first table T H ci names ahead errs e k ks, read)
        (climbed
          ∙ rhs_stop table T H ci names ahead errs f n (pos 0) (formula_node e k.loc) k ks
              (omega arith) stops)
