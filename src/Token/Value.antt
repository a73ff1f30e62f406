-- ===== src/Token/Value.antt =====
-- token.cpp, token.h: binding strength, the tests on kinds, and the token with its value.
use lacsap.Prelude.{ℕ, Bool, true, false, ◌&&◌, ◌||◌, not, [], ◌∷◌, Option, none, some, Text, ◌==◌}
use lacsap.Prelude.Int.{ℤ, pos, negsuc, leb_ℤ}
use lacsap.Outcome.{Outcome, done, ◌>>◌, ice_if}
use lacsap.Token.Enum.{TokenType, ordinal, token_eq}

-- `Token::Precedence`
unfoldable pub precedence : TokenType → ℤ
precedence TokenType.plus = pos 10
precedence TokenType.minus = pos 10
precedence TokenType.multiply = pos 40
precedence TokenType.divide = pos 40
precedence TokenType.power = pos 50
precedence TokenType.assign = pos 2
precedence TokenType.div = pos 40
precedence TokenType.mod_kw = pos 40
precedence TokenType.pow = pos 50
precedence TokenType.xor = pos 10
precedence TokenType.shr = pos 40
precedence TokenType.shl = pos 40
precedence TokenType.sym_diff = pos 40
precedence TokenType.less_or_equal = pos 5
precedence TokenType.less_than = pos 5
precedence TokenType.greater_or_equal = pos 5
precedence TokenType.greater_than = pos 5
precedence TokenType.equal = pos 5
precedence TokenType.not_equal = pos 5
precedence TokenType.in_kw = pos 5
precedence TokenType.and = pos 40
precedence TokenType.and_then = pos 40
precedence TokenType.or = pos 10
precedence TokenType.or_else = pos 10
precedence TokenType.not_kw = pos 60
precedence _ = negsuc 0

-- `Token::IsCompare`: the kinds from `FirstComparison` to `LastComparison`
unfoldable pub is_compare : TokenType → Bool
unfolding ordinal
is_compare t =
    leb_ℤ (ordinal TokenType.less_or_equal) (ordinal t)
    && leb_ℤ (ordinal t) (ordinal TokenType.in_kw)

-- location.h: `Location`
pub record Location : Type 0 where
  pub fname : Text
  pub line_num : ℕ
  pub column : ℕ

abbrev pub is_empty : Text → Bool
is_empty [] = true
is_empty (_ ∷ _) = false

-- `Location::operator bool`
abbrev pub is_set : Location → Bool
is_set w = not (is_empty w.fname) || not (w.line_num == 0)

-- `Token`. A value that the constructor leaves unset is `none`; `strVal` starts empty.
pub record Token (R : Type 0) : Type 0 where
  pub type : TokenType
  pub loc : Location
  pub str_val : Text
  pub int_val : Option ℕ
  pub real_val : Option R

-- The kinds whose tokens carry a value, which `Token(t, w)` refuses.
unfoldable pub carries_value : TokenType → Bool
unfolding token_eq
carries_value t =
    token_eq t TokenType.identifier
    || token_eq t TokenType.string_literal
    || token_eq t TokenType.integer
    || token_eq t TokenType.real

module _ {R : Type 0} where
  -- `Token(TokenType, const Location&)`
  unfoldable pub plain_token : TokenType → Location → Outcome (Token R)
  plain_token t w = do
    ice_if (is_set w && carries_value t)
    done (record { type = t; loc = w; str_val = []; int_val = none; real_val = none })

  -- `Token(TokenType, const Location&, const std::string&)`
  unfoldable pub str_token : TokenType → Location → Text → Outcome (Token R)
  unfolding token_eq
  str_token t w str = do
    ice_if (not (token_eq t TokenType.identifier) && not (token_eq t TokenType.string_literal))
    ice_if (token_eq t TokenType.identifier && is_empty str)
    done (record { type = t; loc = w; str_val = str; int_val = none; real_val = none })

  -- `Token(TokenType, const Location&, uint64_t)`
  unfoldable pub int_token : TokenType → Location → ℕ → Outcome (Token R)
  unfolding token_eq
  int_token t w v = do
    ice_if (not (token_eq t TokenType.integer) && not (token_eq t TokenType.char))
    done (record { type = t; loc = w; str_val = []; int_val = some v; real_val = none })

  -- `Token(const Location&, double)`
  unfoldable pub real_token : Location → R → Token R
  real_token w v = record {
    type = TokenType.real;
    loc = w;
    str_val = [];
    int_val = none;
    real_val = some v;
  }

  -- `Token::GetIdentName`
  unfoldable pub get_ident_name : Token R → Outcome Text
  unfolding token_eq
  get_ident_name t = do
    ice_if (not (token_eq t.type TokenType.identifier))
    ice_if (is_empty t.str_val)
    done t.str_val

  -- `Token::GetIntVal`
  unfoldable pub get_int_val : Token R → Outcome (Option ℕ)
  unfolding token_eq
  get_int_val t = do
    ice_if (not (token_eq t.type TokenType.integer) && not (token_eq t.type TokenType.char))
    done t.int_val

  -- `Token::GetRealVal`
  unfoldable pub get_real_val : Token R → Outcome (Option R)
  unfolding token_eq
  get_real_val t = do ice_if (not (token_eq t.type TokenType.real)); done t.real_val

  -- `Token::GetStrVal`
  unfoldable pub get_str_val : Token R → Outcome Text
  unfolding token_eq
  get_str_val t = do ice_if (not (token_eq t.type TokenType.string_literal)); done t.str_val
