-- ===== src/Parser/Statements/Branches.antt =====
-- `ParseIfExpr` and `ParseWhile` on the statements of the grammar.
use lacsap.Prelude.{ℕ, ◌+◌, ◌<◌, ◌≡◌, refl, Bool, false, List, ◌∷◌, Option, some}
use lacsap.Prelude.Int.{pos}
use lacsap.Outcome.{Outcome, done}
use lacsap.Token.{TokenType, TokenEntry, Token, Location, token_eq}
use lacsap.Stack.{Stack}
use lacsap.Constants.{Floats}
use lacsap.Parser.Stream.{Parser, TokenSource, accept_token, assert_token, expect}
use lacsap.Parser.ConstEval.{NamedObject, Types}
use lacsap.Parser.Ast.{ExprAst, Outside, null_expr, if_expr}
use lacsap.Parser.Statement.{else_part, parse_if_expr, parse_while}
use lacsap.Parser.Tree.{list_source, at}
use lacsap.Parser.Grammar.{Formula, spell, formula_node, formula_size, from, IsFormula}
use lacsap.Parser.Formulas.First.{next_from}
use lacsap.Parser.Sentences.{Stmt, while_do, word, spell_stmt, stmt_node}
use lacsap.Parser.Statements.Base.{statement, starts, formula_reads, do_closes, then_closes}

module _ {R V Ty E : Type 0} (F : Floats R) (table : List TokenEntry)
    (T : Types R Ty E (List (Token R))) (H : Outside R V Ty (List (Token R))) (ci : Bool)
    (names : Stack (NamedObject R Ty E)) (ahead : Token R) (errs : ℕ) where
  abbrev Read : Type 0
  Read = Outcome (Option (ExprAst R V Ty) × Parser R (List (Token R)))

  abbrev source : TokenSource R (List (Token R))
  source = list_source table

  module _ (f : ℕ) where
    -- The condition and the branches of an if statement F table T H ci names ahead errs f
    pub else_reads :
        (w w'' : Location) (c s : ExprAst R V Ty) (t : Stmt R V Ty) (k : Token R)
        (ks : List (Token R))
        → statement F table T H ci names ahead errs f (from ahead errs (spell_stmt t (k ∷ ks)))
          ≡ done (some (stmt_node t (k ∷ ks)), at ahead errs k ks)
        → else_part F source T H ci names
            (statement F table T H ci names ahead errs f)
            f
            w
            c
            s
            (at ahead errs (word TokenType.else_kw w'') (spell_stmt t (k ∷ ks)))
          ≡ done (some (if_expr w c s (stmt_node t (k ∷ ks))), at ahead errs k ks)
    unfolding else_part accept_token token_eq
    else_reads w w'' c s t k ks read =
        rw (next_from table ahead errs (word TokenType.else_kw w'') (spell_stmt t (k ∷ ks)), read)
          refl

    pub no_else_reads :
        (w : Location) (c s : ExprAst R V Ty) (k : Token R) (ks : List (Token R))
        → token_eq k.type TokenType.else_kw ≡ false
        → else_part F source T H ci names
            (statement F table T H ci names ahead errs f)
            f
            w
            c
            s
            (at ahead errs k ks)
          ≡ done (some (if_expr w c s null_expr), at ahead errs k ks)
    unfolding else_part accept_token
    no_else_reads w c s k ks h = rw h refl

    -- An if statement F table T H ci names ahead errs f up to the end of its first branch
    pub if_reads :
        (w w' : Location) (c : Formula R V Ty) (s : Stmt R V Ty) (k : Token R) (ks : List (Token R))
        → IsFormula H ci names ahead errs (pos 0) c
        → formula_size c + 1 < f
        → statement F table T H ci names ahead errs f (from ahead errs (spell_stmt s (k ∷ ks)))
          ≡ done (some (stmt_node s (k ∷ ks)), at ahead errs k ks)
        → parse_if_expr F source T H ci names (statement F table T H ci names ahead errs f) f (
            from ahead errs (
              word TokenType.if_kw w ∷ spell c (word TokenType.then_kw w' ∷ spell_stmt s (k ∷ ks))))
          ≡ else_part F source T H ci names
              (statement F table T H ci names ahead errs f)
              f
              w
              (formula_node c w')
              (stmt_node s (k ∷ ks))
              (at ahead errs k ks)
    unfolding parse_if_expr assert_token token_eq expect
    if_reads w w' c s k ks b fuel read =
        let branch = spell_stmt s (k ∷ ks) in
        let (no_end, no_semicolon, no_until, no_label, no_else) =
          starts F table T H ci names ahead errs f s (k ∷ ks) in
        rw
          (
            next_from table ahead errs (word TokenType.if_kw w)
                (spell c (word TokenType.then_kw w' ∷ branch)),
            formula_reads F table T H ci names ahead errs f c (word TokenType.then_kw w') branch b
                (then_closes F table T H ci names ahead errs f w') fuel,
            next_from table ahead errs (word TokenType.then_kw w') branch,
            no_else,
            read,
          )
          refl

    pub while_reads :
        (w w' : Location) (c : Formula R V Ty) (s : Stmt R V Ty) (k : Token R) (ks : List (Token R))
        → IsFormula H ci names ahead errs (pos 0) c
        → formula_size c + 1 < f
        → statement F table T H ci names ahead errs f (from ahead errs (spell_stmt s (k ∷ ks)))
          ≡ done (some (stmt_node s (k ∷ ks)), at ahead errs k ks)
        → parse_while F source T H ci names
            (statement F table T H ci names ahead errs f)
            f
            (from ahead errs (spell_stmt (while_do w c w' s) (k ∷ ks)))
          ≡ done (some (stmt_node (while_do w c w' s) (k ∷ ks)), at ahead errs k ks)
    unfolding parse_while assert_token token_eq expect spell_stmt stmt_node
    while_reads w w' c s k ks b fuel read =
        let body = spell_stmt s (k ∷ ks) in
        rw
          (
            next_from table ahead errs (word TokenType.while w)
                (spell c (word TokenType.do_kw w' ∷ body)),
            formula_reads F table T H ci names ahead errs f c (word TokenType.do_kw w') body b
                (do_closes F table T H ci names ahead errs f w') fuel,
            next_from table ahead errs (word TokenType.do_kw w') body,
            read,
          )
          refl
