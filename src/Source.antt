-- ===== src/Source.antt =====
-- source.h, source.cpp: `FileSource`, the bytes of one file with the place of the next one.
-- A character is the byte that was read. `Get` returns a `char`, so the end of the file, -1, is
-- the byte 255. What `ifstream` has still to deliver is `input`, and `pos` is its `tellg`.
pub mod Lines
use lacsap.Prelude.{ℕ, ◌+◌, ◌%◌, List, [], ◌∷◌, Text, ◌==◌, if◌then◌else◌}
use lacsap.Token.{Location}

pub record FileSource : Type 0 where
  pub name : Text
  pub contents : Text
  pub input : Text
  pub pos : ℕ
  pub column : ℕ
  pub line_no : ℕ
  pub line_start : List (ℕ × ℕ)

-- `EOF` as the character that `Get` returns
abbrev pub eof : ℕ
eof = 255

-- `uint32_t` increment
abbrev pub inc32 : ℕ → ℕ
inc32 n = (n + 1) % 4294967296

-- `FileSource(const std::string&)`, on a file that holds `contents`
unfoldable pub open_source : Text → Text → FileSource
open_source name contents = record {
  name = name;
  contents = contents;
  input = contents;
  pos = 0;
  column = 1;
  line_no = 1;
  line_start = (1, 0) ∷ [];
}

-- `std::map::operator[]` as an assignment
abbrev pub set_start : ℕ → ℕ → List (ℕ × ℕ) → List (ℕ × ℕ)
set_start k v [] = (k, v) ∷ []
set_start k v ((j, w) ∷ m) = if j == k then (k, v) ∷ m else (j, w) ∷ set_start k v m

-- `std::map::operator[]` as a value: a missing key reads as 0.
abbrev pub start_of : ℕ → List (ℕ × ℕ) → ℕ
start_of k [] = 0
start_of k ((j, v) ∷ m) = if j == k then v else start_of k m

after_byte : ℕ → Text → FileSource → FileSource
after_byte c rest s =
    if c == b'\n'
    then record s {
      input = rest;
      pos = s.pos + 1;
      line_no = inc32 s.line_no;
      line_start = set_start (inc32 s.line_no) (s.pos + 1) s.line_start;
      column = 1;
    }
    else record s { input = rest; pos = s.pos + 1; column = inc32 s.column }

get_from : Text → FileSource → ℕ × FileSource
get_from [] s = (eof, record s { column = inc32 s.column })
get_from (c ∷ rest) s = (c, after_byte c rest s)

-- `FileSource::Get`
unfoldable pub get : FileSource → ℕ × FileSource
unfolding get_from after_byte
get s = get_from s.input s

-- `operator Location`
abbrev pub location : FileSource → Location
location s = record { fname = s.name; line_num = s.line_no; column = s.column }
