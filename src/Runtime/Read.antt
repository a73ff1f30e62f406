-- ===== src/Runtime/Read.antt =====
-- runtime/read.c: the text of a file, a byte at a time, and what is read from it or from a string.
-- Characters are signed, as `char` is, and `isspace` and `toupper` are those of the C locale. The
-- calls of <stdio.h> are the record `Stdio`.
pub mod Buffer
pub mod Bytes
pub mod Readers
use lacsap.Prelude.{
  ℕ, zero, suc, ◌+◌, ◌-◌, ◌*◌, ◌%◌, ◌^◌, Bool, true, false, not, ◌&&◌, ◌||◌, Option, none, some,
  List, [], ◌∷◌, ◌++◌, if◌then◌else◌, ◌==◌, ltb, leb, length, get_or, Text, codes, text_eq,
}
use lacsap.Prelude.Int.{ℤ, pos, negsuc, eq_ℤ, neg_ℤ, ltb_ℤ}
use lacsap.Outcome.{Outcome, done, undefined, out_of_fuel, ◌>>=◌}
use lacsap.Runtime.Arrays.{drop}
use lacsap.Runtime.Strings.{String}

-- `fread` of bytes, and `fgetc`, none for `EOF`
pub record Stdio (Stream : Type 0) : Type 0 where
  pub fread : ℕ → Stream → List ℕ × Stream
  pub fgetc : Stream → Option ℕ × Stream

-- A text file: its `File` and its `FileEntry`. `interactive` is `isText & 2`.
pub record TextFile (Stream : Type 0) : Type 0 where
  pub stream : Stream
  pub interactive : Bool
  pub record_size : ℕ
  pub buffer : List ℕ
  pub read_ahead : Bool
  pub read_pos : ℕ
  pub buffer_size : ℕ

abbrev pub eof : ℤ
eof = negsuc 0

-- A `char` as an `int`, and back
abbrev pub signed_char : ℕ → ℤ
signed_char b = if ltb b 128 then pos b else negsuc (255 - b)

abbrev pub byte_of : ℤ → ℕ
byte_of (pos n) = n % 256
byte_of (negsuc n) = 255 - n % 256

-- `isspace` and `isdigit`
abbrev pub is_space : ℤ → Bool
is_space (pos c) = c == 32 || (leb 9 c && leb c 13)
is_space (negsuc c) = false

abbrev pub is_digit : ℤ → Bool
is_digit (pos c) = leb b'0' c && leb c b'9'
is_digit (negsuc c) = false

-- The buffer with what `fread` gave, and the byte that is returned
abbrev pub filled : {Stream : Type 0} → List ℕ → Stream → TextFile Stream → ℤ × TextFile Stream
filled [] stream f = (eof, record f { stream = stream })
filled (b ∷ rest) stream f = (
  signed_char b,
  record f {
    stream = stream;
    buffer = (b ∷ rest) ++ drop (length (b ∷ rest)) f.buffer;
    buffer_size = length (b ∷ rest);
    read_ahead = true;
    read_pos = 1;
  },
)

module _ {Stream : Type 0} (io : Stdio Stream) where
  -- The end of `read_chunk_text`: the next part of the file
  unfoldable pub fill_buffer : TextFile Stream → ℤ × TextFile Stream
  fill_buffer f = let (bytes, stream) = io.fread f.record_size f.stream in filled bytes stream f

  -- `read_chunk_text`
  unfoldable pub read_chunk_text : TextFile Stream → Outcome (ℤ × TextFile Stream)
  unfolding fill_buffer
  read_chunk_text f =
      let (c, stream) = io.fgetc f.stream in
      if f.interactive
      then done (elim c [
        | none ↦ (eof, record f { stream = stream; read_ahead = false; buffer_size = 0 })
        | some b ↦ (pos b, record f { stream = stream; read_ahead = true; buffer_size = 1 })
      ])
      else if f.read_pos == f.buffer_size
      then done (fill_buffer f)
      else if ltb f.read_pos (length f.buffer)
      then done (
        signed_char (get_or f.buffer f.read_pos 0),
        record f { read_ahead = true; read_pos = f.read_pos + 1 },
      )
      else undefined

  -- `*file->buffer = ch`
  abbrev pub store_first : ℤ → List ℕ → Outcome (List ℕ)
  store_first c [] = undefined
  store_first c (b ∷ bs) = done (byte_of c ∷ bs)

  -- `__get_text`: whether there was a byte
  unfoldable pub get_text : TextFile Stream → Outcome (Bool × TextFile Stream)
  unfolding read_chunk_text
  get_text f = do
    (c, f₁) ← read_chunk_text f
    buffer ← store_first c f₁.buffer
    let f₂ : TextFile Stream = record f₁ { buffer = buffer }
    if eq_ℤ c eof then done (false, record f₂ { read_ahead = false }) else done (true, f₂)

  -- `*file->buffer`
  unfoldable pub current : TextFile Stream → Outcome ℤ
  current f = elim f.buffer [ [] ↦ undefined | b ∷ bs ↦ done (signed_char b) ]

  -- `__eof`
  unfoldable pub at_eof : TextFile Stream → Outcome (Bool × TextFile Stream)
  unfolding get_text
  at_eof f =
      if not f.read_ahead
      then (get_text f >>= (λ (more, f'). done (not more, f')))
      else done (false, f)

  -- `__eoln`
  unfoldable pub at_eoln : TextFile Stream → Outcome (Bool × TextFile Stream)
  unfolding get_text current at_eof
  at_eoln f = do
    (ended, f') ← at_eof f
    if ended then done (true, f') else (do c ← current f'; done (eq_ℤ c (pos 10), f'))

  -- `file_preread`
  unfoldable pub pre_read : TextFile Stream → Outcome (TextFile Stream)
  unfolding get_text
  pre_read f = if not f.read_ahead then (get_text f >>= (λ (more, f'). done f')) else done f

  -- The loop of `__read_nl`, and `__read_nl`
  unfoldable pub line_loop : ℕ → TextFile Stream → Outcome (TextFile Stream)
  unfolding get_text current
  line_loop zero f = out_of_fuel
  line_loop (suc n) f = do
    c ← current f
    if eq_ℤ c (pos 10)
        then done f
        else (do (more, f') ← get_text f; if more then line_loop n f' else done f')

  unfoldable pub read_nl : ℕ → TextFile Stream → Outcome (TextFile Stream)
  unfolding get_text line_loop
  read_nl n f = do
    (more, f₁) ← if f.read_ahead then done (true, f) else get_text f
    if not more then done f₁ else (do f₂ ← line_loop n f₁; done (record f₂ { read_ahead = false }))

-- `struct interface`: the functions that the readers call, by the state that they change
pub record Interface (S : Type 0) : Type 0 where
  -- 0 at the end
  pub get_next : S → Outcome (ℤ × S)
  pub is_eof : S → Outcome (Bool × S)
  pub is_eoln : S → Outcome (Bool × S)
  pub current_char : S → Outcome ℤ
  pub preread : S → Outcome S

-- `initFile`
unfoldable pub init_file : {Stream : Type 0} → Stdio Stream → Interface (TextFile Stream)
unfolding get_text at_eof at_eoln current pre_read
init_file io = record {
  get_next = λ f. get_text io f >>= (λ (more, f'). done (if more then pos 1 else pos 0, f'));
  is_eof = at_eof io;
  is_eoln = at_eoln io;
  current_char = current io;
  preread = pre_read io;
}

-- A string that is read, and the place in it
pub record StringReader : Type 0 where
  pub str : String
  pub strpos : ℕ

-- The place where `initStr` starts
abbrev pub open_str : String → StringReader
open_str s = record { str = s; strpos = 0 }

-- `str_current`: the bytes of a string are unsigned.
unfoldable pub str_current : StringReader → Outcome ℤ
str_current r =
    if ltb r.strpos (length r.str.str) then done (pos (get_or r.str.str r.strpos 0)) else undefined

-- `str_get_text`
unfoldable pub str_get_text : StringReader → Outcome (ℤ × StringReader)
unfolding str_current
str_get_text r =
    let next : StringReader = record r { strpos = r.strpos + 1 } in
    if r.strpos == r.str.len then done (eof, r) else (str_current next >>= λ c. done (c, next))

-- `initStr`
unfoldable pub init_str : Interface StringReader
unfolding str_get_text str_current
init_str = record {
  get_next = str_get_text;
  is_eof = λ r. done (r.strpos == r.str.len, r);
  is_eoln = λ r. done (r.strpos == r.str.len, r);
  current_char = str_current;
  preread = λ r. done r;
}
