-- ===== src/Parser/Tree.antt =====
-- Expressions as trees: their tokens, the tree that the binding of the operators asks for, and the
-- value of a tree.
use lacsap.Prelude.{ℕ, ◌+◌, ◌<◌, ◌≡◌, false, List, [], ◌∷◌, none, some}
use lacsap.Prelude.Int.{ℤ}
use lacsap.Outcome.{Outcome, done}
use lacsap.Token.{TokenType, TokenEntry, Token, Location, precedence}
use lacsap.Constants.{ConstDecl, int_const, Floats, loc_of, u64}
use lacsap.Parser.Stream.{Parser, TokenSource}
use lacsap.Parser.ConstEval.{parse_const_eval}
use lacsap.Parser.ConstExpr.{next_prec}
use lacsap.Parser.Order.{IsLe, IsLe-trans}

-- An expression of integer literals, each with its place, and operators
pub data Tree (R : Type 0) : Type 0 where
  leaf : Location → ℕ → Tree R
  node : Tree R → Token R → Tree R → Tree R

module _ {R : Type 0} where
  abbrev pub int_tok : Location → ℕ → Token R
  int_tok w v = record {
    type = TokenType.integer;
    loc = w;
    str_val = [];
    int_val = some v;
    real_val = none;
  }

  abbrev pub first_loc : Tree R → Location
  first_loc (leaf w v) = w
  first_loc (node l o r) = first_loc l

  abbrev pub first_value : Tree R → ℕ
  first_value (leaf w v) = v
  first_value (node l o r) = first_value l

  abbrev pub first : Tree R → Token R
  first t = int_tok (first_loc t) (first_value t)

  -- The token after the first, where `k` and `ks` follow the expression
  abbrev pub second : Tree R → Token R → Token R
  second (leaf w v) k = k
  second (node l o r) k = second l o

  -- The tokens after these two
  abbrev pub further : Tree R → Token R → List (Token R) → List (Token R)
  further (leaf w v) k ks = ks
  further (node l o r) k ks = further l o (first r ∷ second r k ∷ further r k ks)

  abbrev pub size : Tree R → ℕ
  size (leaf w v) = 0
  size (node l o r) = size l + size r + 1

  -- Every operator binds at least as `m`, those of a left operand at least as the operator after
  -- them, and those of a right operand more than the operator before them.
  pub data Binds : ℤ → Tree R → Type 0 where
    one : {m : ℤ} (w : Location) (v : ℕ) → Binds m (leaf w v)
    both :
        {m : ℤ} (l : Tree R) (o : Token R) (r : Tree R)
        → IsLe m (precedence o.type)
        → Binds (precedence o.type) l
        → Binds (next_prec (precedence o.type)) r
        → Binds m (node l o r)

  -- The operator after the first literal binds at least as `m`.
  pub second-IsLe :
      (m : ℤ) (l : Tree R) (o : Token R)
      → IsLe m (precedence o.type)
      → Binds (precedence o.type) l
      → IsLe m (precedence (second l o).type)
  second-IsLe m (leaf w v) o h b = h
  second-IsLe m (node l o' r) o h (both _ _ _ h' bl br) =
      second-IsLe m l o' (IsLe-trans m (precedence o.type) (precedence o'.type) h h') bl

  -- The tokens of a list, one after another
  abbrev pub pull : List (Token R) → Outcome (Token R × List (Token R))
  pull [] = done (
    record {
      type = TokenType.end_of_file;
      loc = record { fname = []; line_num = 0; column = 0 };
      str_val = [];
      int_val = none;
      real_val = none;
    },
    [],
  )
  pull (t ∷ ts) = done (t, ts)

  abbrev pub list_source : List TokenEntry → TokenSource R (List (Token R))
  list_source table = record { get_token = pull; table = table }

  -- The parser at a token, with the tokens after it
  abbrev pub at : Token R → ℕ → Token R → List (Token R) → Parser R (List (Token R))
  at ahead errs t ts = record {
    lexer = ts;
    cur_token = t;
    next_token = ahead;
    next_token_valid = false;
    err_cnt = errs;
  }

module _ {R Ty E : Type 0} (F : Floats R) where
  -- The value of an expression at the place `w`: what `ParseConstEval` makes of its operands, the
  -- right one at the place of the left one's value.
  pub data Gives : Location → Tree R → ConstDecl R Ty E → Type 0 where
    literal :
        {w : Location} (place : Location) (v : ℕ) → v < u64 → Gives w (leaf place v) (int_const w v)
    operation :
        {w : Location} (l : Tree R) (o : Token R) (r : Tree R) (a b c : ConstDecl R Ty E)
        → Gives w l a
        → Gives (loc_of a) r b
        → ((p : Parser R (List (Token R))) → parse_const_eval F a o.type b p ≡ done (some c, p))
        → Gives w (node l o r) c
