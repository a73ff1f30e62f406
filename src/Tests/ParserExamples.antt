-- ===== src/Tests/ParserExamples.antt =====
-- Runs of the parser of constants, and its theorem at a concrete input.
use lacsap.Prelude.{ℕ, ◌<◌, ◌≡◌, refl, arith, true, false, List, [], ◌∷◌, none, some}
use lacsap.Prelude.Int.{pos}
use lacsap.Outcome.{done}
use lacsap.Token.{TokenType, Token, Standard, token_table, precedence}
use lacsap.Constants.{int_const, loc_of, no_location, plus_const, times_const}
use lacsap.Parser.{Types, terminator, parse_const_expr, parse_const_eval, evaluated}
use lacsap.Parser.Tree.{
  Tree, leaf, node, Binds, one, both, Gives, literal, operation, list_source, at, int_tok,
}
use lacsap.Parser.Climbing.{parse_const_expr-climbs}
use lacsap.Parser.Terms.{sign, parse_const_expr-drops, parse_const_expr-forgets_minus}
use lacsap.Tests.Samples.{whole, here}

-- Types that nothing asks for
abbrev pub no_types : Types ℕ ℕ ℕ (List (Token ℕ))
no_types = record {
  is_bool = λ ty. false;
  type_of = λ c. 0;
  same_type = λ a b. true;
  set_decl = λ o. 0;
  type_from_expression = λ p. done (none, p);
  size = λ ty. 0;
}

abbrev pub tok : TokenType → Token ℕ
tok t = record { type = t; loc = here; str_val = []; int_val = none; real_val = none }

abbrev lit : ℕ → Tree ℕ
lit v = leaf here v

-- 1 + 2 * 3
abbrev sum : Tree ℕ
sum = node (lit 1) (tok TokenType.plus) (node (lit 2) (tok TokenType.multiply) (lit 3))

sum-Binds : Binds (pos 0) sum
unfolding precedence
sum-Binds =
    both (lit 1) (tok TokenType.plus) (node (lit 2) (tok TokenType.multiply) (lit 3)) refl
      (one here 1) (both (lit 2) (tok TokenType.multiply) (lit 3) refl (one here 2) (one here 3))

lit-Gives : (v : ℕ) → v < 100 → Gives {Ty = ℕ} {E = ℕ} whole here (lit v) (int_const here v)
lit-Gives v h = literal here v (omega arith)

product-Gives :
    Gives {Ty = ℕ} {E = ℕ} whole here
      (node (lit 2) (tok TokenType.multiply) (lit 3))
      (int_const no_location 6)
unfolding parse_const_eval evaluated times_const loc_of
product-Gives =
    operation (lit 2) (tok TokenType.multiply) (lit 3) (int_const here 2) (int_const here 3)
      (int_const no_location 6) (lit-Gives 2 (omega arith)) (lit-Gives 3 (omega arith)) (λ p. refl)

sum-Gives : Gives {Ty = ℕ} {E = ℕ} whole here sum (int_const no_location 7)
unfolding parse_const_eval evaluated plus_const loc_of
sum-Gives =
    operation (lit 1) (tok TokenType.plus) (node (lit 2) (tok TokenType.multiply) (lit 3))
      (int_const here 1) (int_const no_location 6) (int_const no_location 7)
      (lit-Gives 1 (omega arith)) product-Gives (λ p. refl)

parse_const_expr-climbs_example :
    parse_const_expr whole
      (list_source (token_table Standard.none_std))
      no_types
      true
      ([] ∷ [])
      4
      (terminator TokenType.semicolon ∷ [])
      (at (tok TokenType.unknown) 0 (int_tok here 1) (
        tok TokenType.plus
        ∷ int_tok here 2
        ∷ tok TokenType.multiply
        ∷ int_tok here 3
        ∷ tok TokenType.semicolon
        ∷ []))
    ≡ done
        (some (int_const no_location 7), at (tok TokenType.unknown) 0 (tok TokenType.semicolon) [])
parse_const_expr-climbs_example =
    parse_const_expr-climbs whole (token_table Standard.none_std) no_types true ([] ∷ [])
      (tok TokenType.unknown) 0 sum (int_const no_location 7) (tok TokenType.semicolon) [] 3 refl
      sum-Binds sum-Gives (omega arith)

parse_const_expr-drops_example :
    parse_const_expr whole
      (list_source (token_table Standard.none_std))
      no_types
      true
      ([] ∷ [])
      3
      (terminator TokenType.semicolon ∷ [])
      (at
        (tok TokenType.unknown)
        0
        (int_tok here 5)
        (int_tok here 6 ∷ sign TokenType.semicolon here ∷ []))
    ≡ done
        (some (int_const here 6), at (tok TokenType.unknown) 0 (sign TokenType.semicolon here) [])
parse_const_expr-drops_example =
    parse_const_expr-drops whole (token_table Standard.none_std) no_types true ([] ∷ [])
      (tok TokenType.unknown) 0 here here here 5 6 [] 0 (omega arith) (omega arith)

parse_const_expr-forgets_minus_example :
    parse_const_expr whole
      (list_source (token_table Standard.none_std))
      no_types
      true
      ([] ∷ [])
      3
      (terminator TokenType.semicolon ∷ [])
      (at (tok TokenType.unknown) 0 (sign TokenType.minus here) (
        sign TokenType.left_paren here
        ∷ int_tok here 5
        ∷ sign TokenType.right_paren here
        ∷ sign TokenType.semicolon here
        ∷ []))
    ≡ done
        (some (int_const here 5), at (tok TokenType.unknown) 0 (sign TokenType.semicolon here) [])
parse_const_expr-forgets_minus_example =
    parse_const_expr-forgets_minus whole (token_table Standard.none_std) no_types true ([] ∷ [])
      (tok TokenType.unknown) 0 here here here here here 5 [] 0 (omega arith)
