-- ===== src/Tests/StatementExamples.antt =====
-- Runs of the parser of statements, and its theorems at concrete inputs.
use lacsap.Prelude.{ℕ, ◌≡◌, refl, arith, true, false, List, [], ◌∷◌, some, none, codes, strlower}
use lacsap.Prelude.Int.{pos}
use lacsap.Outcome.{done}
use lacsap.Token.{
  TokenType, TokenEntry, Token, Location, Standard, token_table, precedence, token_eq,
}
use lacsap.Stack.{Stack, find, find_levels, find_in, lower_if_needed}
use lacsap.Parser.{
  NamedObject, Outside, variable_expr, integer_expr, ExprAst, var_def, translate_token,
  parse_expression, parse_statement,
}
use lacsap.Parser.Tree.{list_source, at, int_tok}
use lacsap.Parser.Grammar.{
  Formula, atom, paren, signed, minus_sign, leaf, node, spell, formula_node, formula_size,
  operand_size, from, integer_atom, variable_atom, name_token, IsFormula, IsOperand, atom_ok,
  paren_ok, signed_ok, leaf_ok, node_ok, Closes,
}
use lacsap.Parser.Formulas.{parse_expression-accepts}
use lacsap.Parser.Sentences.{
  Stmt, assign, compound, if_else, if_then, last_stmt, more_stmts, spell_stmt, stmt_node, stmt_size,
  IsStmt, assign_ok, compound_ok, if_then_ok, if_else_ok, last_ok, more_ok,
}
use lacsap.Parser.Statements.{parse_statement-accepts}
use lacsap.Tests.Samples.{whole, here}
use lacsap.Tests.ParserExamples.{no_types, tok}

abbrev table : List TokenEntry
table = token_table Standard.none_std

-- The parts that are left out, which the examples do not reach: each fails.
abbrev nothing_else : Outside ℕ ℕ ℕ (List (Token ℕ))
nothing_else = record {
  is_function = λ name. false;
  suffix_expr = λ e p. done (none, p);
  identifier_expr = λ t p. done (none, p);
  default_expr = λ p. done (none, p);
  sizeof_expr = λ p. done (none, p);
  simple_statement = λ p. done (none, p);
  expr_type = λ e. 0;
}

-- The variable x
abbrev x_alone : Stack (NamedObject ℕ ℕ ℕ)
x_alone = ((codes "x", var_def) ∷ []) ∷ []

abbrev x : Formula ℕ ℕ ℕ
x = leaf (atom (name_token here (codes "x")) (λ after. variable_expr after (codes "x")))

abbrev five_node : Location → ExprAst ℕ ℕ ℕ
five_node after = integer_expr here (pos 5) false

abbrev five : Formula ℕ ℕ ℕ
five = leaf (atom (int_tok here 5) five_node)

x-IsOperand :
    IsOperand nothing_else true x_alone
      (tok TokenType.unknown)
      0
      (atom (name_token here (codes "x")) (λ after. variable_expr after (codes "x")))
unfolding find find_levels find_in lower_if_needed strlower
x-IsOperand =
    atom_ok (name_token here (codes "x")) (λ after. variable_expr after (codes "x"))
      (variable_atom here b'x' [] refl refl)

five-IsOperand :
    IsOperand nothing_else true x_alone (tok TokenType.unknown) 0 (atom (int_tok here 5) five_node)
unfolding translate_token token_eq
five-IsOperand =
    atom_ok (int_tok here 5) five_node
      (integer_atom (int_tok here 5) (int_tok here 5) 5 refl refl refl)

-- 5 * (x + -5)
abbrev inner : Formula ℕ ℕ ℕ
inner =
    node x (tok TokenType.plus) (leaf (signed minus_sign here (atom (int_tok here 5) five_node)))

abbrev product : Formula ℕ ℕ ℕ
product = node five (tok TokenType.multiply) (leaf (paren here inner here))

product-IsFormula : IsFormula nothing_else true x_alone (tok TokenType.unknown) 0 (pos 0) product
unfolding precedence token_eq
product-IsFormula =
    node_ok five (leaf (paren here inner here)) (tok TokenType.multiply) refl refl
      (leaf_ok (atom (int_tok here 5) five_node) five-IsOperand)
      (leaf_ok (paren here inner here) (
        paren_ok here here inner (
          node_ok x (leaf (signed minus_sign here (atom (int_tok here 5) five_node)))
            (tok TokenType.plus) refl refl
            (leaf_ok (atom (name_token here (codes "x")) (λ after. variable_expr after (codes "x")))
              x-IsOperand)
            (leaf_ok (signed minus_sign here (atom (int_tok here 5) five_node))
              (signed_ok minus_sign here (atom (int_tok here 5) five_node) five-IsOperand)))))

semicolon-Closes : Closes TokenType.semicolon
unfolding precedence token_eq
semicolon-Closes = (refl, refl)

parse_expression-accepts_example :
    parse_expression
      (list_source table)
      no_types
      nothing_else
      true
      x_alone
      9
      (from (tok TokenType.unknown) 0 (spell product (tok TokenType.semicolon ∷ [])))
    ≡ done (
      some (formula_node product here),
      at (tok TokenType.unknown) 0 (tok TokenType.semicolon) [],
    )
parse_expression-accepts_example =
    parse_expression-accepts table no_types nothing_else true x_alone (tok TokenType.unknown) 0 9
      product (tok TokenType.semicolon) [] product-IsFormula semicolon-Closes
      (unfold formula_size in omega arith)

-- if x then if x then x := 5 else begin x := x; x := 5 end
abbrev x_to : Formula ℕ ℕ ℕ → Stmt ℕ ℕ ℕ
x_to e = assign here b'x' [] here e

abbrev block : Stmt ℕ ℕ ℕ
block = compound here (more_stmts (x_to x) here (last_stmt (x_to five))) here

abbrev nested : Stmt ℕ ℕ ℕ
nested = if_then here x here (if_else here x here (x_to five) here block)

else-Closes : Closes TokenType.else_kw
unfolding precedence token_eq
else-Closes = (refl, refl)

x-IsFormula : IsFormula nothing_else true x_alone (tok TokenType.unknown) 0 (pos 0) x
x-IsFormula =
    leaf_ok (atom (name_token here (codes "x")) (λ after. variable_expr after (codes "x")))
      x-IsOperand

five-IsFormula : IsFormula nothing_else true x_alone (tok TokenType.unknown) 0 (pos 0) five
five-IsFormula = leaf_ok (atom (int_tok here 5) five_node) five-IsOperand

-- An assignment to x
x_to-IsStmt :
    (k : TokenType) (e : Formula ℕ ℕ ℕ)
    → Closes k
    → IsFormula nothing_else true x_alone (tok TokenType.unknown) 0 (pos 0) e
    → IsStmt nothing_else true x_alone (tok TokenType.unknown) 0 k (x_to e)
unfolding find find_levels find_in lower_if_needed strlower
x_to-IsStmt k e closes b = assign_ok here here b'x' [] e closes refl refl b

end-Closes : Closes TokenType.end
unfolding precedence token_eq
end-Closes = (refl, refl)

block-IsStmt : (k : TokenType) → IsStmt nothing_else true x_alone (tok TokenType.unknown) 0 k block
block-IsStmt k = compound_ok here here (more_stmts (x_to x) here (last_stmt (x_to five))) (
    more_ok (x_to x) here (last_stmt (x_to five))
      (x_to-IsStmt TokenType.semicolon x semicolon-Closes x-IsFormula)
      (last_ok (x_to five) (x_to-IsStmt TokenType.end five end-Closes five-IsFormula)))

nested-IsStmt :
    IsStmt nothing_else true x_alone (tok TokenType.unknown) 0 TokenType.semicolon nested
unfolding token_eq
nested-IsStmt =
    if_then_ok here here x (if_else here x here (x_to five) here block) refl refl x-IsFormula (
      if_else_ok here here here x (x_to five) block refl x-IsFormula
        (x_to-IsStmt TokenType.else_kw five else-Closes five-IsFormula)
        (block-IsStmt TokenType.semicolon))

parse_statement-accepts_example :
    parse_statement whole
      (list_source table)
      no_types
      nothing_else
      true
      x_alone
      20
      (from (tok TokenType.unknown) 0 (spell_stmt nested (tok TokenType.semicolon ∷ [])))
    ≡ done (
      some (stmt_node nested (tok TokenType.semicolon ∷ [])),
      at (tok TokenType.unknown) 0 (tok TokenType.semicolon) [],
    )
parse_statement-accepts_example =
    parse_statement-accepts whole table no_types nothing_else true x_alone (tok TokenType.unknown) 0
      20 nested (tok TokenType.semicolon) [] nested-IsStmt
      (unfold stmt_size formula_size operand_size in omega arith)
