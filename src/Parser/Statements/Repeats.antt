-- ===== src/Parser/Statements/Repeats.antt =====
-- `ParseRepeat` on the statements of the grammar.
use mathlib.Core.List.{append_assoc, append-nil}
use lacsap.Prelude.{
  ℕ, zero, suc, ◌+◌, ◌<◌, ◌≡◌, refl, ◌∙◌, arith, Bool, true, false, List, [], ◌∷◌, ◌++◌, Option,
  some,
}
use lacsap.Prelude.Int.{pos}
use lacsap.Outcome.{Outcome, done}
use lacsap.Token.{TokenType, TokenEntry, Token, Location, token_eq}
use lacsap.Stack.{Stack}
use lacsap.Constants.{Floats}
use lacsap.Parser.Stream.{Parser, TokenSource, accept_token, assert_token}
use lacsap.Parser.ConstEval.{NamedObject, Types}
use lacsap.Parser.Ast.{ExprAst, Outside, exprs_of, block_expr, repeat_expr}
use lacsap.Parser.Statement.{repeat_loop, parse_repeat}
use lacsap.Parser.Tree.{list_source, at}
use lacsap.Parser.Grammar.{Formula, spell, formula_node, formula_size, Closes, from, IsFormula}
use lacsap.Parser.Formulas.First.{next_from}
use lacsap.Parser.Sentences.{
  Stmt, repeat_until, Stmts, no_stmts, last_stmt, more_stmts, word, head_loc, spell_stmt,
  spell_stmts, stmt_node, stmt_nodes, stmts_size, IsStmts, no_stmts_ok, last_ok, more_ok,
}
use lacsap.Parser.Statements.Base.{statement, Accepts, starts, formula_reads}
use lacsap.Parser.Statements.Base.{head_lem}

module _ {R V Ty E : Type 0} (F : Floats R) (table : List TokenEntry)
    (T : Types R Ty E (List (Token R))) (H : Outside R V Ty (List (Token R))) (ci : Bool)
    (names : Stack (NamedObject R Ty E)) (ahead : Token R) (errs : ℕ) where
  abbrev Read : Type 0
  Read = Outcome (Option (ExprAst R V Ty) × Parser R (List (Token R)))

  abbrev source : TokenSource R (List (Token R))
  source = list_source table

  module _ (f : ℕ) where
    abbrev pub in_repeat :
        ℕ → Location → Location → List (ExprAst R V Ty) → Parser R (List (Token R)) → Read
    in_repeat n loc loc2 v p =
        repeat_loop F source T H ci names (statement F table T H ci names ahead errs f) f n loc loc2
          v p

    -- A turn of the loop of a repeat statement F table T H ci names ahead errs f, for a statement F table T H ci names ahead errs f
    pub repeat_turn :
        (s : Stmt R V Ty) (n : ℕ) (loc loc2 : Location) (v : List (ExprAst R V Ty)) (k : Token R)
        (ks : List (Token R)) (semicolon : Bool) (p : Parser R (List (Token R)))
        → statement F table T H ci names ahead errs f (from ahead errs (spell_stmt s (k ∷ ks)))
          ≡ done (some (stmt_node s (k ∷ ks)), at ahead errs k ks)
        → accept_token source TokenType.semicolon (at ahead errs k ks) ≡ done (semicolon, p)
        → in_repeat (suc n) loc loc2 v (from ahead errs (spell_stmt s (k ∷ ks)))
          ≡ in_repeat n loc loc2 (v ++ stmt_node s (k ∷ ks) ∷ []) p
    unfolding repeat_loop
    repeat_turn s n loc loc2 v k ks semicolon p read ended =
        let (no_end, no_semicolon, no_until, no_label, no_else) =
          starts F table T H ci names ahead errs f s (k ∷ ks) in
        rw (no_until, read, ended) refl

    abbrev pub until : Location → Token R
    until w = word TokenType.until w

    pub no_semicolon_before_end :
        (w : Location) (ks : List (Token R))
        → accept_token source TokenType.semicolon (at ahead errs (until w) ks)
          ≡ done (false, at ahead errs (until w) ks)
    unfolding accept_token token_eq
    no_semicolon_before_end w ks = refl

    pub over_semicolon :
        (w : Location) (ks : List (Token R))
        → accept_token source TokenType.semicolon (at ahead errs (word TokenType.semicolon w) ks)
          ≡ done (true, from ahead errs ks)
    unfolding accept_token token_eq
    over_semicolon w ks = rw (next_from table ahead errs (word TokenType.semicolon w) ks) refl

    pub repeat_ends :
        (n : ℕ) (loc loc2 w : Location) (v : List (ExprAst R V Ty)) (c : Formula R V Ty)
        (k : Token R) (ks : List (Token R))
        → IsFormula H ci names ahead errs (pos 0) c
        → Closes k.type
        → formula_size c + 1 < f
        → in_repeat (suc n) loc loc2 v (from ahead errs (until w ∷ spell c (k ∷ ks)))
          ≡ done (
            some (repeat_expr loc (formula_node c k.loc) (block_expr loc2 (exprs_of v))),
            at ahead errs k ks,
          )
    unfolding repeat_loop accept_token token_eq
    repeat_ends n loc loc2 w v c k ks bc closes fuel =
        rw
          (
            next_from table ahead errs (until w) (spell c (k ∷ ks)),
            formula_reads F table T H ci names ahead errs f c k ks bc closes fuel,
          )
          refl

    pub repeat_reads :
        (ss : Stmts R V Ty) (n : ℕ) (loc loc2 w : Location) (v : List (ExprAst R V Ty))
        (c : Formula R V Ty) (k : Token R) (ks : List (Token R))
        → Accepts F table T H ci names ahead errs f
        → IsFormula H ci names ahead errs (pos 0) c
        → Closes k.type
        → formula_size c + 1 < f
        → IsStmts H ci names ahead errs TokenType.until ss
        → stmts_size ss < f
        → stmts_size ss < n
        → in_repeat n loc loc2 v (from ahead errs (spell_stmts ss (until w ∷ spell c (k ∷ ks))))
          ≡ done (
            some (
                repeat_expr loc
                  (formula_node c k.loc)
                  (block_expr loc2 (exprs_of (v ++ stmt_nodes ss (until w ∷ spell c (k ∷ ks)))))),
            at ahead errs k ks,
          )
    unfolding stmts_size spell_stmt stmt_node
    repeat_reads ss zero loc loc2 w v c k ks acc bc closes less b fuel room = absurd (omega arith)
    repeat_reads no_stmts (suc n) loc loc2 w v c k ks acc bc closes less b fuel room =
        repeat_ends n loc loc2 w v c k ks bc closes less ∙ rw (append-nil v) refl
    repeat_reads (last_stmt s) (suc n) loc loc2 w v c k ks acc bc closes less (last_ok _ b) fuel
          room =
        let rest = spell c (k ∷ ks) in
        let node = stmt_node s (until w ∷ rest) in
        repeat_turn s n loc loc2 v (until w) rest false (at ahead errs (until w) rest)
          (acc s (until w) rest b (omega arith)) (no_semicolon_before_end w rest)
        ∙ (repeat_reads no_stmts n loc loc2 w (v ++ node ∷ []) c k ks acc bc closes less no_stmts_ok
              (omega arith) (omega arith)
            ∙ rw (append-nil (v ++ node ∷ [])) refl)
    repeat_reads (more_stmts s w' ss) (suc n) loc loc2 w v c k ks acc bc closes less
          (more_ok _ _ _ b bs) fuel room =
        let rest = spell_stmts ss (until w ∷ spell c (k ∷ ks)) in
        let node = stmt_node s (word TokenType.semicolon w' ∷ rest) in
        repeat_turn s n loc loc2 v (word TokenType.semicolon w') rest true (from ahead errs rest)
          (acc s (word TokenType.semicolon w') rest b (omega arith)) (over_semicolon w' rest)
        ∙ (repeat_reads ss n loc loc2 w (v ++ node ∷ []) c k ks acc bc closes less bs (omega arith)
              (omega arith)
            ∙ rw (append_assoc v (node ∷ []) (stmt_nodes ss (until w ∷ spell c (k ∷ ks)))) refl)

    pub repeat_until_reads :
        (w w' : Location) (ss : Stmts R V Ty) (c : Formula R V Ty) (k : Token R)
        (ks : List (Token R))
        → Accepts F table T H ci names ahead errs f
        → IsFormula H ci names ahead errs (pos 0) c
        → Closes k.type
        → formula_size c + 1 < f
        → IsStmts H ci names ahead errs TokenType.until ss
        → stmts_size ss < f
        → parse_repeat F source T H ci names
            (statement F table T H ci names ahead errs f)
            f
            (from ahead errs (spell_stmt (repeat_until w ss w' c) (k ∷ ks)))
          ≡ done (some (stmt_node (repeat_until w ss w' c) (k ∷ ks)), at ahead errs k ks)
    unfolding parse_repeat spell_stmt stmt_node assert_token token_eq
    repeat_until_reads w w' ss c k ks acc bc closes less b fuel =
        let inside = spell_stmts ss (until w' ∷ spell c (k ∷ ks)) in
        rw (next_from table ahead errs (word TokenType.repeat w) inside, head_lem ahead errs inside)
          (repeat_reads ss f w (head_loc inside) w' [] c k ks acc bc closes less b fuel fuel)
