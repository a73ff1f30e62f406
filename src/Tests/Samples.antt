-- ===== src/Tests/Samples.antt =====
-- Stand-ins for what the code takes from its libraries, at small types.
use Prim.Native.String.{String}
use lacsap.Prelude.{ℕ, [], ◌+◌, ◌-◌, ◌*◌, ◌/◌, Text, codes, false}
use lacsap.Prelude.Int.{pos_part}
use lacsap.Source.{open_source}
use lacsap.Lexer.{Lexer, Converted, new_lexer}
use lacsap.Token.{Location}
use lacsap.Constants.{Floats}

-- A `strtod` that reads no digit
abbrev pub no_strtod : Text → Converted ℕ
no_strtod s = record { val = 0; rest = []; range = false }

abbrev pub start : String → Lexer
start s = new_lexer 0 0 (open_source (codes "a.pas") (codes s))

-- Whole numbers in place of `double`
abbrev pub whole : Floats ℕ
whole = record {
  add = λ a b. a + b;
  sub = λ a b. a - b;
  mul = λ a b. a * b;
  quot = λ a b. a / b;
  of_uint64 = λ a. a;
  of_int = λ a. pos_part a;
  neg = λ a. 0 - a;
  to_int64 = λ a. a;
  exp = λ a. a;
  log = λ a. a;
  sin = λ a. a;
  cos = λ a. a;
  floor = λ a. a;
  round = λ a. a;
  fabs = λ a. a;
  copysign = λ a b. a;
  frac = λ a. 0;
}

abbrev pub here : Location
here = record { fname = codes "a.pas"; line_num = 3; column = 7 }
