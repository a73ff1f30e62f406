-- ===== src/Parser/Statements.antt =====
-- `ParseStatement` on the statements of the grammar.
mod Base
mod Blocks
mod Branches
mod Repeats
mod Fors
use mathlib.Core.Bool.{true≢false}
use mathlib.Core.List.{append_assoc, append-nil}
use lacsap.Prelude.{
  ℕ, zero, suc, ◌+◌, ◌<◌, ◌≡◌, refl, ◌∙◌, ap, arith, Bool, true, false, not, List, [], ◌∷◌, ◌++◌,
  Option, none, some, if◌then◌else◌, Text,
}
use lacsap.Prelude.Int.{pos}
use lacsap.Outcome.{Outcome, done, ◌>>=◌}
use lacsap.Token.{TokenType, TokenEntry, Token, Location, precedence, token_eq, get_ident_name}
use lacsap.Stack.{Stack, find}
use lacsap.Constants.{Floats}
use lacsap.Parser.Stream.{
  Parser, TokenSource, next_token, accept_token, assert_token, expect, peek_token, get_identifier,
  cur_type,
}
use lacsap.Parser.ConstEval.{NamedObject, var_def, Types}
use lacsap.Parser.Ast.{
  ExprAst, Outside, exprs_of, null_expr, outside_expr, variable_expr, block_expr, if_expr,
  while_expr, repeat_expr, for_expr, assign_expr,
}
use lacsap.Parser.Statement.{
  Step, expect_semicolon_or_end, at_label, block_loop, parse_block, else_part, parse_if_expr,
  for_rest, for_variable, parse_for_expr, parse_while, repeat_loop, parse_repeat, is_at, expr,
}
use lacsap.Parser.Case.{primary_at, primary_or_assign, statement_at, parse_statement}
use lacsap.Parser.Tree.{list_source, at}
use lacsap.Parser.Grammar.{
  Formula, spell, formula_node, formula_size, Closes, from, IsFormula, name_token,
}
use lacsap.Parser.Formulas.{parse_expression-accepts, variable_reads}
use lacsap.Parser.Formulas.First.{next_from}
use lacsap.Parser.Sentences.{
  Stmt, assign, compound, if_then, if_else, while_do, repeat_until, Stmts, no_stmts, last_stmt,
  more_stmts, for_to, for_in, word, to_word, head_loc, spell_stmt, spell_stmts, stmt_node,
  stmt_nodes, stmt_size, stmts_size, IsStmt, assign_ok, compound_ok, if_then_ok, if_else_ok,
  while_ok, repeat_ok, for_to_ok, for_in_ok, IsStmts, no_stmts_ok, last_ok, more_ok,
}
use lacsap.Parser.Statements.Base.{statement, Accepts, formula_reads}
use lacsap.Parser.Statements.Blocks.{compound_reads}
use lacsap.Parser.Statements.Branches.{else_reads, no_else_reads, if_reads, while_reads}
use lacsap.Parser.Statements.Repeats.{repeat_until_reads}
use lacsap.Parser.Statements.Fors.{for_to_reads, for_in_reads}
use lacsap.Parser.Statements.Base.{head_lem}

module _ {R V Ty E : Type 0} (F : Floats R) (table : List TokenEntry)
    (T : Types R Ty E (List (Token R))) (H : Outside R V Ty (List (Token R))) (ci : Bool)
    (names : Stack (NamedObject R Ty E)) (ahead : Token R) (errs : ℕ) where
  abbrev Read : Type 0
  Read = Outcome (Option (ExprAst R V Ty) × Parser R (List (Token R)))

  abbrev source : TokenSource R (List (Token R))
  source = list_source table

  module _ (f : ℕ) where
    -- A primary that no ":=" follows
    primary_ends :
        (p : Parser R (List (Token R))) (e : ExprAst R V Ty) (k : Token R) (ks : List (Token R))
        → primary_at F source T H ci names
            (statement F table T H ci names ahead errs f)
            f
            (cur_type p)
            p
          ≡ done (some e, at ahead errs k ks)
        → token_eq k.type TokenType.assign ≡ false
        → primary_or_assign F source T H ci names (statement F table T H ci names ahead errs f) f p
          ≡ done (some e, at ahead errs k ks)
    unfolding primary_or_assign accept_token
    primary_ends p e k ks read h = rw (read, h) refl

    assign_reads :
        (v w : Location) (c : ℕ) (cs : Text) (e : Formula R V Ty) (k : Token R)
        (ks : List (Token R))
        → Closes k.type
        → find ci (c ∷ cs) names ≡ some var_def
        → H.is_function (c ∷ cs) ≡ false
        → IsFormula H ci names ahead errs (pos 0) e
        → formula_size e + 1 < f
        → primary_or_assign F source T H ci names
            (statement F table T H ci names ahead errs f)
            f
            (from ahead errs (spell_stmt (assign v c cs w e) (k ∷ ks)))
          ≡ done (some (stmt_node (assign v c cs w e) (k ∷ ks)), at ahead errs k ks)
    unfolding primary_or_assign primary_at accept_token token_eq spell_stmt stmt_node
    assign_reads v w c cs e k ks closes found plain b fuel =
        let rest = spell e (k ∷ ks) in
        rw
          (
            variable_reads table T H ci names ahead errs v c cs (word TokenType.assign w) rest found
                plain refl,
            next_from table ahead errs (word TokenType.assign w) rest,
            formula_reads F table T H ci names ahead errs f e k ks b closes fuel,
            head_lem ahead errs rest,
          )
          refl

    -- `ParseStatement` with a little more fuel
    statement_reads :
        (s : Stmt R V Ty) (k : Token R) (ks : List (Token R))
        → Accepts F table T H ci names ahead errs f
        → IsStmt H ci names ahead errs k.type s
        → stmt_size s < f
        → parse_statement F source T H ci names (suc f) (from ahead errs (spell_stmt s (k ∷ ks)))
          ≡ done (some (stmt_node s (k ∷ ks)), at ahead errs k ks)
    unfolding parse_statement statement_at primary_at spell_stmt stmt_node stmt_size
    statement_reads (assign v c cs w e) k ks acc (assign_ok _ _ _ _ _ closes found plain b) fuel =
        assign_reads v w c cs e k ks closes found plain b (omega arith)
    statement_reads (compound w ss w') k ks acc (compound_ok _ _ _ b) fuel =
        compound_reads F table T H ci names ahead errs f w w' ss k ks acc b (omega arith)
    statement_reads (if_then w c w' s) k ks acc (if_then_ok _ _ _ _ no_else no_assign bc b) fuel =
        primary_ends (from ahead errs (spell_stmt (if_then w c w' s) (k ∷ ks)))
          (stmt_node (if_then w c w' s) (k ∷ ks)) k ks
          (if_reads F table T H ci names ahead errs f w w' c s k ks bc (omega arith)
              (acc s k ks b (omega arith))
            ∙ no_else_reads F table T H ci names ahead errs f w (formula_node c w')
                (stmt_node s (k ∷ ks)) k ks no_else)
          no_assign
    statement_reads (if_else w c w' s w'' t) k ks acc (if_else_ok _ _ _ _ _ _ no_assign bc bs bt)
          fuel =
        let other = word TokenType.else_kw w'' in
        let rest = spell_stmt t (k ∷ ks) in
        primary_ends (from ahead errs (spell_stmt (if_else w c w' s w'' t) (k ∷ ks)))
          (stmt_node (if_else w c w' s w'' t) (k ∷ ks)) k ks
          (if_reads F table T H ci names ahead errs f w w' c s other rest bc (omega arith)
              (acc s other rest bs (omega arith))
            ∙ else_reads F table T H ci names ahead errs f w w'' (formula_node c w')
                (stmt_node s (other ∷ rest)) t k ks (acc t k ks bt (omega arith)))
          no_assign
    statement_reads (while_do w c w' s) k ks acc (while_ok _ _ _ _ no_assign bc b) fuel =
        primary_ends (from ahead errs (spell_stmt (while_do w c w' s) (k ∷ ks)))
          (stmt_node (while_do w c w' s) (k ∷ ks)) k ks
          (while_reads F table T H ci names ahead errs f w w' c s k ks bc (omega arith)
            (acc s k ks b (omega arith)))
          no_assign
    statement_reads (repeat_until w ss w' c) k ks acc (repeat_ok _ _ _ _ closes no_assign bs bc)
          fuel =
        primary_ends (from ahead errs (spell_stmt (repeat_until w ss w' c) (k ∷ ks)))
          (stmt_node (repeat_until w ss w' c) (k ∷ ks)) k ks
          (repeat_until_reads F table T H ci names ahead errs f w w' ss c k ks acc bc closes
            (omega arith) bs (omega arith))
          no_assign
    statement_reads (for_to w v c cs w' a down w'' b w₃ s) k ks acc
          (for_to_ok _ _ _ _ _ _ _ _ _ _ _ no_assign found ba bb bs) fuel =
        primary_ends (from ahead errs (spell_stmt (for_to w v c cs w' a down w'' b w₃ s) (k ∷ ks)))
          (stmt_node (for_to w v c cs w' a down w'' b w₃ s) (k ∷ ks)) k ks
          (for_to_reads F table T H ci names ahead errs f w v w' w'' w₃ c cs a b down s k ks found
            ba bb (omega arith) (omega arith) (acc s k ks bs (omega arith)))
          no_assign
    statement_reads (for_in w v c cs w' a w'' s) k ks acc
          (for_in_ok _ _ _ _ _ _ _ _ no_assign found ba bs) fuel =
        primary_ends (from ahead errs (spell_stmt (for_in w v c cs w' a w'' s) (k ∷ ks)))
          (stmt_node (for_in w v c cs w' a w'' s) (k ∷ ks)) k ks
          (for_in_reads F table T H ci names ahead errs f w v w' w'' c cs a s k ks found ba
            (omega arith) (acc s k ks bs (omega arith)))
          no_assign

  -- `ParseStatement` reads any statement of the grammar (assignments to variables of no function type, blocks, "if",
  -- "while", "repeat" and "for", over the expressions of the grammar; no calls) up to a token that may follow it, and gives the node of its
  -- tree: an "else" belongs to the nearest "if" without one, and a block holds its statements in
  -- their order. The fuel has to be more than the size of the statement and one.
  pub parse_statement-accepts :
      (f : ℕ) (s : Stmt R V Ty) (k : Token R) (ks : List (Token R))
      → IsStmt H ci names ahead errs k.type s
      → stmt_size s + 1 < f
      → parse_statement F
          (list_source table)
          T
          H
          ci
          names
          f
          (from ahead errs (spell_stmt s (k ∷ ks)))
        ≡ done (some (stmt_node s (k ∷ ks)), at ahead errs k ks)
  parse_statement-accepts zero s k ks b fuel = absurd (omega arith)
  parse_statement-accepts (suc f) s k ks b fuel =
      statement_reads f s k ks (parse_statement-accepts f) b (omega arith)
