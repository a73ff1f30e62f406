-- ===== src/Parser/Formulas/First.antt =====
-- The operand that an expression begins with, and what follows it.
use lacsap.Prelude.{ℕ, ◌≤◌, ◌≡◌, refl, arith, Bool, false, List, [], ◌∷◌}
use lacsap.Prelude.Int.{ℤ}
use lacsap.Outcome.{done}
use lacsap.Token.{TokenEntry, Token, precedence}
use lacsap.Stack.{Stack}
use lacsap.Parser.Stream.{next_token}
use lacsap.Parser.ConstEval.{NamedObject, Types}
use lacsap.Parser.Ast.{Outside}
use lacsap.Parser.Expression.{is_suffix}
use lacsap.Parser.Order.{IsLe, IsLe-trans}
use lacsap.Parser.Tree.{list_source}
use lacsap.Parser.Grammar.{
  Operand, Formula, leaf, node, spell_operand, spell, operand_size, formula_size, from, IsOperand,
  IsFormula, leaf_ok, node_ok,
}

module _ {R : Type 0} (table : List TokenEntry) (ahead : Token R) (errs : ℕ) where
  pub next_from :
      (t : Token R) (ts : List (Token R))
      → next_token (list_source table) (from ahead errs (t ∷ ts)) ≡ done (from ahead errs ts)
  unfolding next_token
  next_from t [] = refl
  next_from t (u ∷ ts) = refl

module _ {R V Ty E : Type 0} (table : List TokenEntry) (T : Types R Ty E (List (Token R)))
    (H : Outside R V Ty (List (Token R))) (ci : Bool) (names : Stack (NamedObject R Ty E))
    (ahead : Token R) (errs : ℕ) where
  -- The operand that a formula begins with, and the tokens after it
  unfoldable pub first : Formula R V Ty → Operand R V Ty
  first (leaf x) = x
  first (node l o r) = first l

  unfoldable pub second : Formula R V Ty → Token R → Token R
  second (leaf x) k = k
  second (node l o r) k = second l o

  unfoldable pub further : Formula R V Ty → Token R → List (Token R) → List (Token R)
  unfolding second spell
  further (leaf x) k ks = ks
  further (node l o r) k ks = further l o (spell r (k ∷ ks))

  pub spell-first :
      (e : Formula R V Ty) (k : Token R) (ks : List (Token R))
      → spell e (k ∷ ks) ≡ spell_operand (first e) (second e k ∷ further e k ks)
  unfolding spell first second further
  spell-first (leaf x) k ks = refl
  spell-first (node l o r) k ks = spell-first l o (spell r (k ∷ ks))

  pub second_lem :
      (m : ℤ) (l r : Formula R V Ty) (o : Token R)
      → IsFormula H ci names ahead errs m (node l o r)
      → IsLe m (precedence (second l o).type) × (is_suffix (second l o).type ≡ false)
  unfolding second
  second_lem m (leaf x) r o (node_ok _ _ _ le s bl br) = (le, s)
  second_lem m (node l o' r') r o (node_ok _ _ _ le s bl br) =
      let (h, s') = second_lem (precedence o.type) l r' o' bl in
      (IsLe-trans m (precedence o.type) (precedence (second l o').type) le h, s')

  pub second-is_suffix :
      (m : ℤ) (e : Formula R V Ty) (k : Token R)
      → IsFormula H ci names ahead errs m e
      → is_suffix k.type ≡ false
      → is_suffix (second e k).type ≡ false
  unfolding second
  second-is_suffix m (leaf x) k b s = s
  second-is_suffix m (node l o r) k b s = (second_lem m l r o b).1

  pub first-IsOperand :
      (m : ℤ) (e : Formula R V Ty)
      → IsFormula H ci names ahead errs m e
      → IsOperand H ci names ahead errs (first e)
  unfolding first
  first-IsOperand m (leaf x) (leaf_ok _ b) = b
  first-IsOperand m (node l o r) (node_ok _ _ _ le s bl br) =
      first-IsOperand (precedence o.type) l bl

  pub size-first : (e : Formula R V Ty) → operand_size (first e) ≤ formula_size e
  unfolding first formula_size
  size-first (leaf x) = omega arith
  size-first (node l o r) = omega (arith, size-first l)
