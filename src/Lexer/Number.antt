-- ===== src/Lexer/Number.antt =====
-- lexer.cpp: `NumberToken`. A `while` loop takes fuel, and ends in `out_of_fuel` without it.
use lacsap.Prelude.{
  ℕ, zero, suc, Bool, true, false, not, ◌&&◌, ◌||◌, [], ◌∷◌, ◌++◌, ltb, ◌==◌, if◌then◌else◌, Text,
  is_digit,
}
use lacsap.Outcome.{Outcome, done, out_of_fuel, ◌>>=◌, ◌>>◌, ice_if}
use lacsap.Token.{TokenType, Location, Token, plain_token}
use lacsap.Lexer.Chars.{Lexer, next_char, peek_char, where_is}
use lacsap.Lexer.Convert.{Converted, convert_int, convert_int_token, convert_float, valid_for_base}

-- The local variables of `NumberToken`; its `ch` is always the current character.
pub record Scan : Type 0 where
  pub base : ℕ
  pub num : Text
  pub is_float : Bool
  pub lexer : Lexer

-- `num += ch; ch = NextChar();`
abbrev pub take_char : Scan → Scan
take_char n = record n { num = n.num ++ n.lexer.cur ∷ []; lexer = next_char n.lexer }

-- How the loop over the integer part ends: at its end, or by `return Token(Token::Unknown, w)`.
pub data IntPart : Type 0 where
  int_end : Scan → IntPart
  bad_base : Scan → IntPart

-- The branch for '#' up to the `return`: the base is read, and the digits start anew.
unfoldable pub read_base : Scan → Bool × Scan
read_base n =
    let lx = next_char n.lexer in
    let (v, err, lx') = convert_int n.num lx in
    (err || ltb v 2 || ltb 36 v, record n { base = v; num = []; lexer = lx' })

-- `while (ValidForBase(ch, base) || ch == '#')`
unfoldable pub int_loop : ℕ → Scan → Outcome IntPart
int_loop zero n = out_of_fuel
int_loop (suc f) n =
    let (bad, n') = read_base n in
    let in_base = int_loop f (take_char n') in
    let rest = int_loop f (take_char n) in
    if valid_for_base n.lexer.cur n.base || n.lexer.cur == b'#'
    then if n.lexer.cur == b'#' && n.base == 10
      then if bad then done (bad_base n') else in_base
      else rest
    else done (int_end n)

-- `while (isdigit(ch)) { num += ch; ch = NextChar(); }`
unfoldable pub digit_loop : ℕ → Scan → Outcome Scan
digit_loop zero n = out_of_fuel
digit_loop (suc f) n =
    let rest = digit_loop f (take_char n) in if is_digit n.lexer.cur then rest else done n

pub data NumState : Type 0 where
  int_part fraction exponent : NumState

-- `case Fraction`. The second `PeekChar` of the test finds the window as the first left it.
unfoldable pub fraction_part : ℕ → Scan → Outcome Scan
fraction_part f n = do
  ice_if (not (n.lexer.cur == b'.'))
  let lx = peek_char n.lexer
  if lx.next == b'.' || lx.next == b')'
      then done (record n { lexer = lx })
      else digit_loop f (take_char (record n { lexer = lx; is_float = true }))

abbrev pub take_sign : Scan → Scan
take_sign n = if n.lexer.cur == b'+' || n.lexer.cur == b'-' then take_char n else n

-- `case Exponent`
unfoldable pub exponent_part : ℕ → Scan → Outcome Scan
exponent_part f n = do
  ice_if (not (n.lexer.cur == b'e') && not (n.lexer.cur == b'E'))
  digit_loop f (take_sign (take_char (record n { is_float = true })))

-- The switch of the outer loop. Its default, an internal error, has no state left to stand for.
unfoldable pub number_part : NumState → ℕ → Scan → Outcome IntPart
number_part int_part f n = int_loop f (record n { lexer = next_char n.lexer })
number_part fraction f n = do n' ← fraction_part f n; done (int_end n')
number_part exponent f n = do n' ← exponent_part f n; done (int_end n')

abbrev is_fraction : NumState → Bool
is_fraction fraction = true
is_fraction _ = false

abbrev is_exponent : NumState → Bool
is_exponent exponent = true
is_exponent _ = false

-- The state after a part that ends at `ch`; `none` is `Done`.
pub data NextState : Type 0 where
  stop : NextState
  go_on : NumState → NextState

unfoldable pub next_state : NumState → ℕ → ℕ → NextState
next_state st ch base =
    if ch == b'.' && not (is_fraction st) && not (base == 16)
    then go_on fraction
    else if not (is_exponent st) && (ch == b'E' || ch == b'e')
    then go_on exponent
    else stop

-- `return`, or the choice of the next state and the rest of the loop
abbrev pub after_part : NumState → (NumState → Scan → Outcome IntPart) → IntPart → Outcome IntPart
after_part st rest (bad_base n) = done (bad_base n)
after_part st rest (int_end n) = elim (next_state st n.lexer.cur n.base) [
  | stop ↦ done (int_end n)
  | go_on st' ↦ rest st' n
]

-- `while (state != Done)`. `parts` is the fuel of this loop, `f` that of the loops in it.
unfoldable pub number_loop : ℕ → ℕ → NumState → Scan → Outcome IntPart
number_loop zero f st n = out_of_fuel
number_loop (suc parts) f st n = number_part st f n >>= after_part st (number_loop parts f)

-- The variables as they are when the outer loop starts.
unfoldable pub number_start : Lexer → Scan
number_start lx =
    let lx' = if lx.cur == b'$' then next_char lx else lx in
    record {
      base = if lx.cur == b'$' then 16 else 10;
      num = lx'.cur ∷ [];
      is_float = false;
      lexer = lx';
    }

module _ {R : Type 0} (strtod : Text → Converted R) where
  -- After the loop, `w` being the place of the token.
  unfoldable pub number_end : Location → IntPart → Outcome (Token R × Lexer)
  number_end w (bad_base n) = do t ← plain_token TokenType.unknown w; done (t, n.lexer)
  number_end w (int_end n) =
      if n.is_float
      then convert_float strtod n.num w n.lexer
      else convert_int_token n.num w n.base n.lexer

  -- `Lexer::NumberToken`
  unfoldable pub number_token : ℕ → Lexer → Outcome (Token R × Lexer)
  number_token f lx = do r ← number_loop f f int_part (number_start lx); number_end (where_is lx) r
