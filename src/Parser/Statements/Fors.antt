-- ===== src/Parser/Statements/Fors.antt =====
-- `ParseForExpr` on the statements of the grammar.
use lacsap.Prelude.{ℕ, ◌+◌, ◌<◌, ◌≡◌, refl, ◌∙◌, Bool, true, false, List, ◌∷◌, Option, some, Text}
use lacsap.Prelude.Int.{pos}
use lacsap.Outcome.{Outcome, done}
use lacsap.Token.{TokenType, TokenEntry, Token, Location, token_eq, get_ident_name}
use lacsap.Stack.{Stack, find}
use lacsap.Constants.{Floats}
use lacsap.Parser.Stream.{
  Parser, TokenSource, next_token, accept_token, assert_token, expect, get_identifier,
}
use lacsap.Parser.ConstEval.{NamedObject, var_def, Types}
use lacsap.Parser.Ast.{ExprAst, Outside, variable_expr, for_expr}
use lacsap.Parser.Statement
use lacsap.Parser.Statement.{
  Step, expect_semicolon_or_end, at_label, block_loop, parse_block, else_part, parse_if_expr,
  for_rest, for_variable, parse_for_expr, parse_while, repeat_loop, parse_repeat, is_at, expr,
}
use lacsap.Parser.Tree.{list_source, at}
use lacsap.Parser.Grammar.{name_token, Formula, spell, formula_node, formula_size, from, IsFormula}
use lacsap.Parser.Formulas.First.{next_from}
use lacsap.Parser.Sentences.{Stmt, for_to, for_in, word, to_word, spell_stmt, stmt_node}
use lacsap.Parser.Statements.Base.{statement, formula_reads, do_closes, to_closes}

module _ {R V Ty E : Type 0} (F : Floats R) (table : List TokenEntry)
    (T : Types R Ty E (List (Token R))) (H : Outside R V Ty (List (Token R))) (ci : Bool)
    (names : Stack (NamedObject R Ty E)) (ahead : Token R) (errs : ℕ) where
  abbrev Read : Type 0
  Read = Outcome (Option (ExprAst R V Ty) × Parser R (List (Token R)))

  abbrev source : TokenSource R (List (Token R))
  source = list_source table

  module _ (f : ℕ) where
    -- The words of a for statement F table T H ci names ahead errs f after its variable
    pub to_reads :
        (loc w w' : Location) (var start : ExprAst R V Ty) (down : Bool) (b : Formula R V Ty)
        (s : Stmt R V Ty) (k : Token R) (ks : List (Token R))
        → IsFormula H ci names ahead errs (pos 0) b
        → formula_size b + 1 < f
        → statement F table T H ci names ahead errs f (from ahead errs (spell_stmt s (k ∷ ks)))
          ≡ done (some (stmt_node s (k ∷ ks)), at ahead errs k ks)
        → Statement.for_to F source T H ci names
            (statement F table T H ci names ahead errs f)
            f
            loc
            var
            start
            (at ahead errs
              (to_word down w)
              (spell b (word TokenType.do_kw w' ∷ spell_stmt s (k ∷ ks))))
          ≡ done (
            some (for_expr loc var start (formula_node b w') down (stmt_node s (k ∷ ks))),
            at ahead errs k ks,
          )
    unfolding Statement.for_to token_eq expect
    to_reads loc w w' var start true b s k ks bb fuel read =
        let body = spell_stmt s (k ∷ ks) in
        rw
          (
            next_from table ahead errs (to_word true w) (spell b (word TokenType.do_kw w' ∷ body)),
            formula_reads F table T H ci names ahead errs f b (word TokenType.do_kw w') body bb
                (do_closes F table T H ci names ahead errs f w') fuel,
            next_from table ahead errs (word TokenType.do_kw w') body,
            read,
          )
          refl
    to_reads loc w w' var start false b s k ks bb fuel read =
        let body = spell_stmt s (k ∷ ks) in
        rw
          (
            next_from table ahead errs (to_word false w) (spell b (word TokenType.do_kw w' ∷ body)),
            formula_reads F table T H ci names ahead errs f b (word TokenType.do_kw w') body bb
                (do_closes F table T H ci names ahead errs f w') fuel,
            next_from table ahead errs (word TokenType.do_kw w') body,
            read,
          )
          refl

    pub variable_reads :
        (w v : Location) (c : ℕ) (cs : Text) (k : Token R) (ks : List (Token R))
        → find ci (c ∷ cs) names ≡ some var_def
        → parse_for_expr F source T H ci names
            (statement F table T H ci names ahead errs f)
            f
            (at ahead errs (word TokenType.for w) (name_token v (c ∷ cs) ∷ (k ∷ ks)))
          ≡ for_rest F source T H ci names
              (statement F table T H ci names ahead errs f)
              f
              v
              (variable_expr k.loc (c ∷ cs))
              (at ahead errs k ks)
    unfolding parse_for_expr for_variable assert_token token_eq get_identifier get_ident_name
        next_token
    variable_reads w v c cs k ks found = rw found refl

    pub for_to_reads :
        (w v w' w'' w₃ : Location) (c : ℕ) (cs : Text) (a b : Formula R V Ty) (down : Bool)
        (s : Stmt R V Ty) (k : Token R) (ks : List (Token R))
        → find ci (c ∷ cs) names ≡ some var_def
        → IsFormula H ci names ahead errs (pos 0) a
        → IsFormula H ci names ahead errs (pos 0) b
        → formula_size a + 1 < f
        → formula_size b + 1 < f
        → statement F table T H ci names ahead errs f (from ahead errs (spell_stmt s (k ∷ ks)))
          ≡ done (some (stmt_node s (k ∷ ks)), at ahead errs k ks)
        → parse_for_expr F source T H ci names
            (statement F table T H ci names ahead errs f)
            f
            (from ahead errs (spell_stmt (for_to w v c cs w' a down w'' b w₃ s) (k ∷ ks)))
          ≡ done
              (some (stmt_node (for_to w v c cs w' a down w'' b w₃ s) (k ∷ ks)), at ahead errs k ks)
    unfolding for_rest accept_token token_eq spell_stmt stmt_node
    for_to_reads w v w' w'' w₃ c cs a b down s k ks found ba bb la lb read =
        let last = spell b (word TokenType.do_kw w₃ ∷ spell_stmt s (k ∷ ks)) in
        let rest = spell a (to_word down w'' ∷ last) in
        variable_reads w v c cs (word TokenType.assign w') rest found
        ∙ rw
            (
              next_from table ahead errs (word TokenType.assign w') rest,
              formula_reads F table T H ci names ahead errs f a (to_word down w'') last ba
                  (to_closes F table T H ci names ahead errs f down w'') la,
            )
            (to_reads v w'' w₃ (variable_expr w' (c ∷ cs)) (formula_node a w'') down b s k ks bb lb
              read)

    pub for_in_reads :
        (w v w' w'' : Location) (c : ℕ) (cs : Text) (a : Formula R V Ty) (s : Stmt R V Ty)
        (k : Token R) (ks : List (Token R))
        → find ci (c ∷ cs) names ≡ some var_def
        → IsFormula H ci names ahead errs (pos 0) a
        → formula_size a + 1 < f
        → statement F table T H ci names ahead errs f (from ahead errs (spell_stmt s (k ∷ ks)))
          ≡ done (some (stmt_node s (k ∷ ks)), at ahead errs k ks)
        → parse_for_expr F source T H ci names
            (statement F table T H ci names ahead errs f)
            f
            (from ahead errs (spell_stmt (for_in w v c cs w' a w'' s) (k ∷ ks)))
          ≡ done (some (stmt_node (for_in w v c cs w' a w'' s) (k ∷ ks)), at ahead errs k ks)
    unfolding for_rest accept_token token_eq expect spell_stmt stmt_node
    for_in_reads w v w' w'' c cs a s k ks found ba la read =
        let body = spell_stmt s (k ∷ ks) in
        let rest = spell a (word TokenType.do_kw w'' ∷ body) in
        variable_reads w v c cs (word TokenType.in_kw w') rest found
        ∙ rw
            (
              next_from table ahead errs (word TokenType.in_kw w') rest,
              formula_reads F table T H ci names ahead errs f a (word TokenType.do_kw w'') body ba
                  (do_closes F table T H ci names ahead errs f w'') la,
              next_from table ahead errs (word TokenType.do_kw w'') body,
              read,
            )
            refl
