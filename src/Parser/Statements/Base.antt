-- ===== src/Parser/Statements/Base.antt =====
-- What the proofs on the kinds of statements share.
use lacsap.Prelude.{ℕ, ◌+◌, ◌<◌, ◌≡◌, refl, Bool, true, false, List, [], ◌∷◌, Option, some}
use lacsap.Prelude.Int.{pos}
use lacsap.Outcome.{Outcome, done}
use lacsap.Token.{TokenType, TokenEntry, Token, Location, precedence, token_eq}
use lacsap.Stack.{Stack}
use lacsap.Constants.{Floats}
use lacsap.Parser.Stream.{Parser, TokenSource, accept_token}
use lacsap.Parser.ConstEval.{NamedObject, Types}
use lacsap.Parser.Ast.{ExprAst, Outside}
use lacsap.Parser.Statement.{at_label, expr}
use lacsap.Parser.Case.{parse_statement}
use lacsap.Parser.Tree.{list_source, at}
use lacsap.Parser.Grammar.{Formula, spell, formula_node, formula_size, Closes, from, IsFormula}
use lacsap.Parser.Formulas.{parse_expression-accepts}
use lacsap.Parser.Sentences.{
  Stmt, assign, word, to_word, head_loc, spell_stmt, stmt_node, stmt_size, IsStmt,
}

module _ {R : Type 0} (ahead : Token R) (errs : ℕ) where
  pub head_lem : (ts : List (Token R)) → (from ahead errs ts).cur_token.loc ≡ head_loc ts
  head_lem [] = refl
  head_lem (t ∷ ts) = refl

module _ {R V Ty E : Type 0} (F : Floats R) (table : List TokenEntry)
    (T : Types R Ty E (List (Token R))) (H : Outside R V Ty (List (Token R))) (ci : Bool)
    (names : Stack (NamedObject R Ty E)) (ahead : Token R) (errs : ℕ) where
  abbrev Read : Type 0
  Read = Outcome (Option (ExprAst R V Ty) × Parser R (List (Token R)))

  abbrev source : TokenSource R (List (Token R))
  source = list_source table

  module _ (f : ℕ) where
    abbrev pub statement : Parser R (List (Token R)) → Read
    statement = parse_statement F source T H ci names f

    -- With less fuel `ParseStatement` reads statements.
    abbrev pub Accepts : Type 0
    Accepts =
        (s : Stmt R V Ty) (k : Token R) (ks : List (Token R))
        → IsStmt H ci names ahead errs k.type s
        → stmt_size s + 1 < f
        → statement (from ahead errs (spell_stmt s (k ∷ ks)))
          ≡ done (some (stmt_node s (k ∷ ks)), at ahead errs k ks)

    -- No statement begins with one of these tokens.
    pub starts :
        (s : Stmt R V Ty) (rest : List (Token R))
        → (accept_token source TokenType.end (from ahead errs (spell_stmt s rest))
            ≡ done (false, from ahead errs (spell_stmt s rest)))
          × (accept_token source TokenType.semicolon (from ahead errs (spell_stmt s rest))
              ≡ done (false, from ahead errs (spell_stmt s rest)))
          × (accept_token source TokenType.until (from ahead errs (spell_stmt s rest))
              ≡ done (false, from ahead errs (spell_stmt s rest)))
          × (at_label F source T H ci names statement f (from ahead errs (spell_stmt s rest))
              ≡ done (false, from ahead errs (spell_stmt s rest)))
          × (token_eq (from ahead errs (spell_stmt s rest)).cur_token.type TokenType.else_kw
              ≡ false)
    unfolding spell_stmt accept_token at_label token_eq
    starts (assign v c cs w e) rest = (refl, refl, refl, refl, refl)
    starts _ rest = (refl, refl, refl, refl, refl)

    pub formula_reads :
        (e : Formula R V Ty) (k : Token R) (ks : List (Token R))
        → IsFormula H ci names ahead errs (pos 0) e
        → Closes k.type
        → formula_size e + 1 < f
        → expr F source T H ci names statement f (from ahead errs (spell e (k ∷ ks)))
          ≡ done (some (formula_node e k.loc), at ahead errs k ks)
    formula_reads e k ks b c fuel =
        parse_expression-accepts table T H ci names ahead errs f e k ks b c fuel

    pub do_closes : (w : Location) → Closes (word {R = R} TokenType.do_kw w).type
    unfolding precedence token_eq
    do_closes w = (refl, refl)

    pub then_closes : (w : Location) → Closes (word {R = R} TokenType.then_kw w).type
    unfolding precedence token_eq
    then_closes w = (refl, refl)

    pub to_closes : (down : Bool) (w : Location) → Closes (to_word {R = R} down w).type
    unfolding precedence token_eq
    to_closes true w = (refl, refl)
    to_closes false w = (refl, refl)
