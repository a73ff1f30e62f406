-- ===== src/Constants/Decl.antt =====
-- constants.h, constants.cpp: the kinds of constant, `ToInt`, `ToRealConstDecl` and `Translate`.
-- A `uint64_t` is a number below 2^64, a `char` the number of its byte. `R` stands for `double`,
-- `Ty` for the types and `E` for the expressions of the compiler, which constants only carry.
use lacsap.Prelude.{ℕ, ◌+◌, ◌-◌, ◌^◌, [], ltb, ◌==◌, if◌then◌else◌, Text, codes}
use lacsap.Prelude.Int.{ℤ}
use lacsap.Outcome.{Outcome, done, ice}
use lacsap.Token.{TokenType, Location, Token, int_token, str_token, real_token}

-- `ConstDecl` with its subclasses
mutual
  pub data ConstDecl (R Ty E : Type 0) : Type 0 where
    int_const : Location → ℕ → ConstDecl R Ty E
    enum_const : Ty → Location → ℕ → ConstDecl R Ty E
    real_const : Location → R → ConstDecl R Ty E
    char_const : Location → ℕ → ConstDecl R Ty E
    bool_const : Location → ℕ → ConstDecl R Ty E
    string_const : Location → Text → ConstDecl R Ty E
    compound_const : Location → Ty → E → ConstDecl R Ty E
    range_const : Location → Ty → ℤ → ℤ → ConstDecl R Ty E
    set_const : Location → Ty → ConstDecls R Ty E → ConstDecl R Ty E

  pub data ConstDecls (R Ty E : Type 0) : Type 0 where
    no_decls : ConstDecls R Ty E
    more_decls : ConstDecl R Ty E → ConstDecls R Ty E → ConstDecls R Ty E

-- What a function of the module gives: a constant, a null pointer after a message, or behaviour
-- that C++ leaves undefined (or that aborts), such as a division by zero.
pub data Eval {ℓ} (A : Type ℓ) : Type ℓ where
  value : A → Eval A
  null : Eval A
  undefined : Eval A

infixl 5 ◌>>=◌
abbrev pub ◌>>=◌ {ℓ κ} : {A : Type ℓ} {B : Type κ} → Eval A → (A → Eval B) → Eval B
value a >>= f = f a
null >>= f = null
undefined >>= f = undefined

-- What the module takes from `double` and <cmath>.
pub record Floats (R : Type 0) : Type 0 where
  pub add : R → R → R
  pub sub : R → R → R
  pub mul : R → R → R
  pub quot : R → R → R
  -- the conversion of a `uint64_t`
  pub of_uint64 : ℕ → R
  -- the conversion of an `int`
  pub of_int : ℤ → R
  pub neg : R → R
  -- the conversion to `int64_t`, as a bit pattern
  pub to_int64 : R → ℕ
  pub exp : R → R
  pub log : R → R
  pub sin : R → R
  pub cos : R → R
  pub floor : R → R
  pub round : R → R
  pub fabs : R → R
  pub copysign : R → R → R
  pub frac : R → R

abbrev pub no_location : Location
no_location = record { fname = []; line_num = 0; column = 0 }

-- A `char` widened to 64 bits is signed.
abbrev pub widen_char : ℕ → ℕ
widen_char c = if ltb c 128 then c else 2 ^ 64 - 256 + c

module _ {R Ty E : Type 0} where
  -- `Loc`
  unfoldable pub loc_of : ConstDecl R Ty E → Location
  loc_of (int_const w _) = w
  loc_of (enum_const _ w _) = w
  loc_of (real_const w _) = w
  loc_of (char_const w _) = w
  loc_of (bool_const w _) = w
  loc_of (string_const w _) = w
  loc_of (compound_const w _ _) = w
  loc_of (range_const w _ _ _) = w
  loc_of (set_const w _ _) = w

  -- `ToInt`, as a bit pattern; `undefined` is the internal error "Unknown constant type".
  unfoldable pub to_int : ConstDecl R Ty E → Eval ℕ
  to_int (int_const _ v) = value v
  to_int (char_const _ c) = value (widen_char c)
  to_int (enum_const _ _ v) = value v
  to_int (bool_const _ c) = value (widen_char c)
  to_int _ = undefined

  -- `ToRealConstDecl`
  unfoldable pub to_real_const_decl : Floats R → ConstDecl R Ty E → Eval (ConstDecl R Ty E)
  to_real_const_decl F (real_const w r) = value (real_const w r)
  to_real_const_decl F (int_const w v) = value (real_const w (F.of_uint64 v))
  to_real_const_decl F _ = null

  -- `Translate`
  unfoldable pub translate : ConstDecl R Ty E → Outcome (Token R)
  unfolding int_token str_token real_token
  translate (int_const w v) = int_token TokenType.integer w v
  translate (enum_const _ w v) = int_token TokenType.integer w v
  translate (real_const w r) = done (real_token w r)
  translate (char_const w c) = int_token TokenType.char w (widen_char c)
  translate (bool_const w c) =
      str_token TokenType.identifier w (if c == 0 then codes "false" else codes "true")
  translate (string_const w s) = str_token TokenType.string_literal w s
  translate (compound_const _ _ _) = ice
  translate (range_const _ _ _ _) = ice
  translate (set_const _ _ _) = ice
