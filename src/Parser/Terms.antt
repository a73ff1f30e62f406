-- ===== src/Parser/Terms.antt =====
-- `ParseConstExpr` on terms side by side, and on a sign before a bracket.
use lacsap.Prelude.{ℕ, suc, ◌<◌, ◌≡◌, refl, Bool, List, [], ◌∷◌, none, some}
use lacsap.Outcome.{done}
use lacsap.Token.{TokenType, TokenEntry, Token, Location, precedence, token_eq, get_int_val}
use lacsap.Stack.{Stack}
use lacsap.Constants.{int_const, Floats, u64}
use lacsap.Parser.Stream.{terminator, is_one_of, next_token}
use lacsap.Parser.ConstEval.{NamedObject, Types}
use lacsap.Parser.ConstTerm.{unary_of}
use lacsap.Parser.ConstExpr.{
  term_at, parse_const_term, parse_const_rhs, const_expr_loop, parse_const_expr,
}
use lacsap.Parser.Tree.{int_tok, list_source, at}
use lacsap.Parser.Climbing.{times_one}
use lacsap.Parser.Stream.{expect, assert_token}

-- A token without a value
abbrev pub sign : {R : Type 0} → TokenType → Location → Token R
sign t w = record { type = t; loc = w; str_val = []; int_val = none; real_val = none }

module _ {R Ty E : Type 0} (F : Floats R) (table : List TokenEntry)
    (T : Types R Ty E (List (Token R))) (ci : Bool) (names : Stack (NamedObject R Ty E))
    (ahead : Token R) (errs : ℕ) where
  -- Of two integers side by side the first is dropped: the expression is accepted, and its value is
  -- the second.
  pub parse_const_expr-drops :
      (w1 w2 w3 : Location) (u v : ℕ) (ks : List (Token R)) (f : ℕ)
      → u < u64
      → v < u64
      → parse_const_expr F
          (list_source table)
          T
          ci
          names
          (suc (suc (suc f)))
          (terminator TokenType.semicolon ∷ [])
          (at ahead errs (int_tok w1 u) (int_tok w2 v ∷ sign TokenType.semicolon w3 ∷ ks))
        ≡ done (some (int_const w1 v), at ahead errs (sign TokenType.semicolon w3) ks)
  unfolding parse_const_expr const_expr_loop parse_const_term parse_const_rhs unary_of term_at
      get_int_val token_eq next_token is_one_of terminator precedence
  parse_const_expr-drops w1 w2 w3 u v ks f hu hv = rw (times_one v hv) refl

  -- A minus before an integer in brackets is forgotten: the value is the integer.
  pub parse_const_expr-forgets_minus :
      (w1 w2 w3 w4 w5 : Location) (v : ℕ) (ks : List (Token R)) (f : ℕ)
      → v < u64
      → parse_const_expr F
          (list_source table)
          T
          ci
          names
          (suc (suc (suc f)))
          (terminator TokenType.semicolon ∷ [])
          (at ahead errs (sign TokenType.minus w1) (
            sign TokenType.left_paren w2
            ∷ int_tok w3 v
            ∷ sign TokenType.right_paren w4
            ∷ sign TokenType.semicolon w5
            ∷ ks))
        ≡ done (some (int_const w3 v), at ahead errs (sign TokenType.semicolon w5) ks)
  unfolding parse_const_expr const_expr_loop parse_const_term unary_of term_at get_int_val token_eq
      next_token is_one_of terminator expect assert_token
  parse_const_expr-forgets_minus w1 w2 w3 w4 w5 v ks f h = rw (times_one v h) refl
