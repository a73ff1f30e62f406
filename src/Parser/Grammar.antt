-- ===== src/Parser/Grammar.antt =====
-- The expressions of the language as trees over their tokens: how they are written, and the nodes
-- that the parser has to build for them.
use lacsap.Prelude.{
  ℕ, ◌+◌, ◌^◌, ◌≡◌, Bool, true, false, List, [], ◌∷◌, some, none, Text, if◌then◌else◌, ltb, length,
  ◌-◌,
}
use lacsap.Prelude.Int.{ℤ, pos, ltb_ℤ}
use lacsap.Outcome.{done}
use lacsap.Token.{TokenType, Token, Location, precedence}
use lacsap.Stack.{Stack, find}
use lacsap.Parser.Stream.{Parser}
use lacsap.Parser.ConstEval.{NamedObject, var_def}
use lacsap.Parser.ConstTerm.{signed64}
use lacsap.Parser.ConstExpr.{next_prec}
use lacsap.Parser.Ast.{
  ExprAst, Outside, variable_expr, real_expr, integer_expr, char_expr, string_expr, unary_expr,
  binary_expr,
}
use lacsap.Parser.Expression.{translate_token, is_suffix}
use lacsap.Parser.Order.{IsLe}
use lacsap.Parser.Tree.{at}
use lacsap.Parser.Terms.{sign}

-- The signs that can stand before an operand
pub data Sign : Type 0 where
  minus_sign : Sign
  plus_sign : Sign
  not_sign : Sign

abbrev pub sign_type : Sign → TokenType
sign_type minus_sign = TokenType.minus
sign_type plus_sign = TokenType.plus
sign_type not_sign = TokenType.not_kw

-- An operand is an atom of one token, with its node, which can hold the place of the token that
-- follows it; a formula in brackets; or a sign with an operand. The places are those of the brackets
-- and of the sign.
mutual
  pub data Operand (R V Ty : Type 0) : Type 0 where
    atom : Token R → (Location → ExprAst R V Ty) → Operand R V Ty
    paren : Location → Formula R V Ty → Location → Operand R V Ty
    signed : Sign → Location → Operand R V Ty → Operand R V Ty

  pub data Formula (R V Ty : Type 0) : Type 0 where
    leaf : Operand R V Ty → Formula R V Ty
    node : Formula R V Ty → Token R → Formula R V Ty → Formula R V Ty

module _ {R : Type 0} where
  abbrev pub sign_token : Sign → Location → Token R
  sign_token s w = sign (sign_type s) w

  abbrev pub name_token : Location → Text → Token R
  name_token w t = record {
    type = TokenType.identifier;
    loc = w;
    str_val = t;
    int_val = none;
    real_val = none;
  }

  abbrev pub left_bracket : Location → Token R
  left_bracket w = sign TokenType.left_paren w

  abbrev pub right_bracket : Location → Token R
  right_bracket w = sign TokenType.right_paren w

module _ {R V Ty : Type 0} where
  -- The tokens, before those that follow
  unfoldable mutual
    pub spell_operand : Operand R V Ty → List (Token R) → List (Token R)
    spell_operand (atom t a) rest = t ∷ rest
    spell_operand (paren w e w') rest = left_bracket w ∷ spell e (right_bracket w' ∷ rest)
    spell_operand (signed s w x) rest = sign_token s w ∷ spell_operand x rest

    pub spell : Formula R V Ty → List (Token R) → List (Token R)
    spell (leaf x) rest = spell_operand x rest
    spell (node l o r) rest = spell l (o ∷ spell r rest)

  -- A plus leaves the node of the operand as it is.
  abbrev pub signed_node : Sign → Location → ExprAst R V Ty → ExprAst R V Ty
  signed_node minus_sign w e = unary_expr w (sign_token minus_sign w) e
  signed_node plus_sign w e = e
  signed_node not_sign w e = unary_expr w (sign_token not_sign w) e

  -- The nodes, by the place of the token that follows
  unfoldable mutual
    pub operand_node : Operand R V Ty → Location → ExprAst R V Ty
    operand_node (atom t a) after = a after
    operand_node (paren w e w') after = formula_node e w'
    operand_node (signed s w x) after = signed_node s w (operand_node x after)

    pub formula_node : Formula R V Ty → Location → ExprAst R V Ty
    formula_node (leaf x) after = operand_node x after
    formula_node (node l o r) after = binary_expr o (formula_node l o.loc) (formula_node r after)

  unfoldable mutual
    pub operand_size : Operand R V Ty → ℕ
    operand_size (atom t a) = 0
    operand_size (paren w e w') = formula_size e + 2
    operand_size (signed s w x) = operand_size x + 1

    pub formula_size : Formula R V Ty → ℕ
    formula_size (leaf x) = operand_size x
    formula_size (node l o r) = formula_size l + formula_size r + 1

-- What may follow an expression: no operator, and nothing that goes on with a variable
abbrev pub Closes : TokenType → Type 0
Closes t = (ltb_ℤ (precedence t) (pos 0) ≡ true) × (is_suffix t ≡ false)

abbrev pub end_token : {R : Type 0} → Token R
end_token = sign TokenType.end_of_file (record { fname = []; line_num = 0; column = 0 })

-- The parser at the first of the tokens
abbrev pub from : {R : Type 0} → Token R → ℕ → List (Token R) → Parser R (List (Token R))
from ahead errs [] = at ahead errs end_token []
from ahead errs (t ∷ ts) = at ahead errs t ts

module _ {R V Ty E : Type 0} (H : Outside R V Ty (List (Token R))) (ci : Bool)
    (names : Stack (NamedObject R Ty E)) (ahead : Token R) (errs : ℕ) where
  -- The atoms: tokens of values, names of constants with values among them, and names of variables,
  -- whose nodes have the place of the token that follows.
  pub data IsAtom : Token R → (Location → ExprAst R V Ty) → Type 0 where
    integer_atom :
        (t t' : Token R) (v : ℕ)
        → translate_token ci names t ≡ done t'
        → t'.type ≡ TokenType.integer
        → t'.int_val ≡ some v
        → IsAtom t
            (λ after. integer_expr t'.loc (signed64 v) (ltb_ℤ (pos (2 ^ 32 - 1)) (signed64 v)))
    real_atom :
        (t t' : Token R) (v : R)
        → translate_token ci names t ≡ done t'
        → t'.type ≡ TokenType.real
        → t'.real_val ≡ some v
        → IsAtom t (λ after. real_expr t'.loc v)
    char_atom :
        (t t' : Token R) (v : ℕ)
        → translate_token ci names t ≡ done t'
        → t'.type ≡ TokenType.char
        → t'.int_val ≡ some v
        → IsAtom t (λ after. char_expr t'.loc v)
    string_atom :
        (t t' : Token R)
        → translate_token ci names t ≡ done t'
        → t'.type ≡ TokenType.string_literal
        → IsAtom t (λ after.
          string_expr t'.loc t'.str_val
            (if ltb (length t'.str_val) 2 then 1 else length t'.str_val - 1))
    variable_atom :
        (w : Location) (c : ℕ) (cs : Text)
        → find ci (c ∷ cs) names ≡ some var_def
        → H.is_function (c ∷ cs) ≡ false
        → IsAtom (name_token w (c ∷ cs)) (λ after. variable_expr after (c ∷ cs))

  -- The tree is the one that the binding of the operators asks for: all of them bind at least as
  -- `m`, those of a left operand at least as the operator after them, and those of a right operand
  -- more than the operator before them.
  mutual
    pub data IsOperand : Operand R V Ty → Type 0 where
      atom_ok : (t : Token R) (a : Location → ExprAst R V Ty) → IsAtom t a → IsOperand (atom t a)
      paren_ok :
          (w w' : Location) (e : Formula R V Ty) → IsFormula (pos 0) e → IsOperand (paren w e w')
      signed_ok :
          (s : Sign) (w : Location) (x : Operand R V Ty) → IsOperand x → IsOperand (signed s w x)

    pub data IsFormula : ℤ → Formula R V Ty → Type 0 where
      leaf_ok : {m : ℤ} (x : Operand R V Ty) → IsOperand x → IsFormula m (leaf x)
      node_ok :
          {m : ℤ} (l r : Formula R V Ty) (o : Token R)
          → IsLe m (precedence o.type)
          → is_suffix o.type ≡ false
          → IsFormula (precedence o.type) l
          → IsFormula (next_prec (precedence o.type)) r
          → IsFormula m (node l o r)
