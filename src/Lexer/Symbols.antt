-- ===== src/Lexer/Symbols.antt =====
-- What the switch and the table of single characters of `GetToken` find.
use lacsap.Prelude.{
  ℕ, ◌<◌, ◌≡◌, ◌≢◌, inl, inr, refl, arith, Bool, true, false, ◌&&◌, not, ◌==◌, if◌then◌else◌, List,
  [], ◌∷◌, Option, none, some, Bool-cases,
}
use lacsap.Source.{eof}
use lacsap.Token.{TokenType, carries_value}
use lacsap.Lexer.Chars.{Lexer, next_char, peek_char}
use lacsap.Lexer.Scan.{one_or_two, one_or_two_of, symbol, single_char, single_char_token_table}
use lacsap.Lexer.Window.{
  IsReady, left, left-next_char_lt, left-next_char, cur-peek_char, left-peek_char,
}
use lacsap.Lexer.Loops.{next_char-Within, peek_char-Within, Within-self}

-- A symbol has no value, and the step after it has taken a byte.
pub record Symbol (lx : Lexer) (r : TokenType × Lexer) : Type 0 where
  pub plain : carries_value r.0 ≡ false
  pub ready : IsReady r.1
  pub less : left (next_char r.1) < left lx

module _ (lx : Lexer) (r : IsReady lx) (c : lx.cur ≢ eof) where
  Symbol-if :
      (b : Bool) {x y : TokenType × Lexer}
      → Symbol lx x
      → Symbol lx y
      → Symbol lx (if b then x else y)
  Symbol-if true sx sy = sx
  Symbol-if false sx sy = sy

  peek_less : left (next_char (peek_char lx)) < left lx
  peek_less =
      let h = peek_char-Within lx (Within-self lx r) in
      omega
        (arith, left-next_char_lt (peek_char lx) h.ready (rw cur-peek_char c), left-peek_char lx r)

  Symbol-pair : (t : TokenType) → carries_value t ≡ false → Symbol lx (t, next_char (peek_char lx))
  Symbol-pair t p =
      let h = next_char-Within (peek_char lx) (peek_char-Within lx (Within-self lx r)) in
      record {
        plain = p;
        ready = h.ready;
        less = omega (arith, left-next_char (next_char (peek_char lx)) h.ready, peek_less);
      }

  Symbol-single : (t : TokenType) → carries_value t ≡ false → Symbol lx (t, peek_char lx)
  Symbol-single t p = record {
    plain = p;
    ready = (peek_char-Within lx (Within-self lx r)).ready;
    less = peek_less;
  }

  Symbol-one_or_two :
      (second : ℕ) (pair single : TokenType)
      → carries_value pair ≡ false
      → carries_value single ≡ false
      → Symbol lx (one_or_two second pair single lx)
  Symbol-one_or_two second pair single p q =
      Symbol-if ((peek_char lx).next == second) (Symbol-pair pair p) (Symbol-single single q)

  Symbol-one_or_two_of :
      (a : ℕ) (s : TokenType) (b : ℕ) (t single : TokenType)
      → carries_value s ≡ false
      → carries_value t ≡ false
      → carries_value single ≡ false
      → Symbol lx (one_or_two_of a s b t single lx)
  Symbol-one_or_two_of a s b t single p p' q =
      Symbol-if ((peek_char lx).next == a) (Symbol-pair s p)
        (Symbol-if ((peek_char lx).next == b) (Symbol-pair t p') (Symbol-single single q))

  pub symbol-Symbol : Symbol lx (symbol lx)
  unfolding symbol carries_value
  symbol-Symbol =
      Symbol-if (lx.cur == b'.')
        (Symbol-one_or_two_of b'.' TokenType.dot_dot b')' TokenType.right_square TokenType.period
          refl refl refl)
        (Symbol-if (lx.cur == b'<')
          (Symbol-one_or_two_of b'=' TokenType.less_or_equal b'>' TokenType.not_equal
            TokenType.less_than refl refl refl)
          (Symbol-if (lx.cur == b'>')
            (Symbol-one_or_two_of b'=' TokenType.greater_or_equal b'<' TokenType.sym_diff
              TokenType.greater_than refl refl refl)
            (Symbol-if (lx.cur == b':')
              (Symbol-one_or_two b'=' TokenType.assign TokenType.colon refl refl)
              (Symbol-if (lx.cur == b'(')
                (Symbol-one_or_two b'.' TokenType.left_square TokenType.left_paren refl refl)
                (Symbol-if (lx.cur == b'*')
                  (Symbol-one_or_two b'*' TokenType.power TokenType.multiply refl refl)
                  (record { plain = refl; ready = r; less = left-next_char_lt lx r c }))))))

pub and-true : (a : Bool) {b : Bool} → (a && b) ≡ true → (a ≡ true) × (b ≡ true)
and-true true h = (refl, h)
and-true false h = cc

pub not-true : (a : Bool) → not a ≡ true → a ≡ false
not-true true h = cc
not-true false h = refl

pub all_plain : List (ℕ × TokenType) → Bool
all_plain [] = true
all_plain ((_, t) ∷ table) = not (carries_value t) && all_plain table

abbrev pub plain_or_none : Option TokenType → Bool
plain_or_none none = true
plain_or_none (some t) = not (carries_value t)

pub single_char-plain :
    (c : ℕ) (table : List (ℕ × TokenType))
    → all_plain table ≡ true
    → plain_or_none (single_char c table) ≡ true
unfolding single_char all_plain
single_char-plain c [] h = refl
single_char-plain c ((d, u) ∷ table) h = elim (Bool-cases (d == c)) [
  | inl eq ↦ rw eq (and-true (not (carries_value u)) h).0
  | inr ne ↦ rw ne (single_char-plain c table (and-true (not (carries_value u)) h).1)
]

pub single_char_token_table-plain : all_plain single_char_token_table ≡ true
unfolding all_plain carries_value
single_char_token_table-plain = refl
