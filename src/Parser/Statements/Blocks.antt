-- ===== src/Parser/Statements/Blocks.antt =====
-- `ParseBlock` on the blocks of the grammar.
use mathlib.Core.List.{append_assoc, append-nil}
use lacsap.Prelude.{
  ℕ, zero, suc, ◌<◌, ◌≡◌, refl, ◌∙◌, arith, Bool, true, List, [], ◌∷◌, ◌++◌, Option, some,
}
use lacsap.Outcome.{Outcome, done}
use lacsap.Token.{TokenType, TokenEntry, Token, Location, token_eq}
use lacsap.Stack.{Stack}
use lacsap.Constants.{Floats}
use lacsap.Parser.Stream.{Parser, TokenSource, next_token, accept_token, assert_token, expect}
use lacsap.Parser.ConstEval.{NamedObject, Types}
use lacsap.Parser.Ast.{ExprAst, Outside, exprs_of, block_expr}
use lacsap.Parser.Statement.{expect_semicolon_or_end, block_loop, parse_block}
use lacsap.Parser.Tree.{list_source, at}
use lacsap.Parser.Grammar.{from}
use lacsap.Parser.Formulas.First.{next_from}
use lacsap.Parser.Sentences.{
  Stmt, compound, Stmts, no_stmts, last_stmt, more_stmts, word, head_loc, spell_stmt, spell_stmts,
  stmt_node, stmt_nodes, stmts_size, IsStmts, no_stmts_ok, last_ok, more_ok,
}
use lacsap.Parser.Statements.Base.{statement, Accepts, starts}
use lacsap.Parser.Statements.Base.{head_lem}

module _ {R V Ty E : Type 0} (F : Floats R) (table : List TokenEntry)
    (T : Types R Ty E (List (Token R))) (H : Outside R V Ty (List (Token R))) (ci : Bool)
    (names : Stack (NamedObject R Ty E)) (ahead : Token R) (errs : ℕ) where
  abbrev Read : Type 0
  Read = Outcome (Option (ExprAst R V Ty) × Parser R (List (Token R)))

  abbrev source : TokenSource R (List (Token R))
  source = list_source table

  module _ (f : ℕ) where
    abbrev pub in_block : ℕ → Location → List (ExprAst R V Ty) → Parser R (List (Token R)) → Read
    in_block n loc v p =
        block_loop F source T H ci names (statement F table T H ci names ahead errs f) f n loc v p

    -- A turn of the loop over a block, for a statement F table T H ci names ahead errs f
    pub block_turn :
        (s : Stmt R V Ty) (n : ℕ) (loc : Location) (v : List (ExprAst R V Ty)) (k : Token R)
        (ks : List (Token R)) (p : Parser R (List (Token R)))
        → statement F table T H ci names ahead errs f (from ahead errs (spell_stmt s (k ∷ ks)))
          ≡ done (some (stmt_node s (k ∷ ks)), at ahead errs k ks)
        → expect_semicolon_or_end F source T H ci names (at ahead errs k ks) ≡ done (true, p)
        → in_block (suc n) loc v (from ahead errs (spell_stmt s (k ∷ ks)))
          ≡ in_block n loc (v ++ stmt_node s (k ∷ ks) ∷ []) p
    unfolding block_loop
    block_turn s n loc v k ks p read ended =
        let (no_end, no_semicolon, no_until, no_label, no_else) =
          starts F table T H ci names ahead errs f s (k ∷ ks) in
        rw (no_end, no_semicolon, no_label, read, ended) refl

    pub at_end :
        (w : Location) (ks : List (Token R))
        → expect_semicolon_or_end F source T H ci names (at ahead errs (word TokenType.end w) ks)
          ≡ done (true, at ahead errs (word TokenType.end w) ks)
    unfolding expect_semicolon_or_end token_eq
    at_end w ks = refl

    pub at_semicolon :
        (w : Location) (ks : List (Token R))
        → expect_semicolon_or_end F source T H ci names
            (at ahead errs (word TokenType.semicolon w) ks)
          ≡ done (true, from ahead errs ks)
    unfolding expect_semicolon_or_end token_eq expect
    at_semicolon w ks = rw (next_from table ahead errs (word TokenType.semicolon w) ks) refl

    pub block_reads :
        (ss : Stmts R V Ty) (n : ℕ) (loc w : Location) (v : List (ExprAst R V Ty)) (k : Token R)
        (ks : List (Token R))
        → Accepts F table T H ci names ahead errs f
        → IsStmts H ci names ahead errs TokenType.end ss
        → stmts_size ss < f
        → stmts_size ss < n
        → in_block n loc v (from ahead errs (spell_stmts ss (word TokenType.end w ∷ (k ∷ ks))))
          ≡ done (
            some (block_expr loc (exprs_of (v ++ stmt_nodes ss (word TokenType.end w ∷ (k ∷ ks))))),
            at ahead errs k ks,
          )
    unfolding stmts_size spell_stmt stmt_node
    block_reads ss zero loc w v k ks acc b fuel room = absurd (omega arith)
    block_reads no_stmts (suc n) loc w v k ks acc b fuel room =
        unfold block_loop accept_token token_eq next_token in rw (append-nil v) refl
    block_reads (last_stmt s) (suc n) loc w v k ks acc (last_ok _ b) fuel room =
        block_turn s n loc v (word TokenType.end w) (k ∷ ks)
          (at ahead errs (word TokenType.end w) (k ∷ ks))
          (acc s (word TokenType.end w) (k ∷ ks) b (omega arith)) (at_end w (k ∷ ks))
        ∙ (block_reads no_stmts n loc w (v ++ stmt_node s (word TokenType.end w ∷ (k ∷ ks)) ∷ []) k
              ks acc no_stmts_ok (omega arith) (omega arith)
            ∙ rw (append-nil (v ++ stmt_node s (word TokenType.end w ∷ (k ∷ ks)) ∷ [])) refl)
    block_reads (more_stmts s w' ss) (suc n) loc w v k ks acc (more_ok _ _ _ b bs) fuel room =
        let rest = spell_stmts ss (word TokenType.end w ∷ (k ∷ ks)) in
        let node = stmt_node s (word TokenType.semicolon w' ∷ rest) in
        block_turn s n loc v (word TokenType.semicolon w') rest (from ahead errs rest)
          (acc s (word TokenType.semicolon w') rest b (omega arith)) (at_semicolon w' rest)
        ∙ (block_reads ss n loc w (v ++ node ∷ []) k ks acc bs (omega arith) (omega arith)
            ∙ rw (append_assoc v (node ∷ []) (stmt_nodes ss (word TokenType.end w ∷ (k ∷ ks))))
                refl)

    pub compound_reads :
        (w w' : Location) (ss : Stmts R V Ty) (k : Token R) (ks : List (Token R))
        → Accepts F table T H ci names ahead errs f
        → IsStmts H ci names ahead errs TokenType.end ss
        → stmts_size ss < f
        → parse_block F source T H ci names
            (statement F table T H ci names ahead errs f)
            f
            (from ahead errs (spell_stmt (compound w ss w') (k ∷ ks)))
          ≡ done (some (stmt_node (compound w ss w') (k ∷ ks)), at ahead errs k ks)
    unfolding parse_block spell_stmt stmt_node assert_token token_eq
    compound_reads w w' ss k ks acc b fuel =
        let inside = spell_stmts ss (word TokenType.end w' ∷ (k ∷ ks)) in
        rw (next_from table ahead errs (word TokenType.begin w) inside, head_lem ahead errs inside)
          (block_reads ss f (head_loc inside) w' [] k ks acc b fuel fuel)
