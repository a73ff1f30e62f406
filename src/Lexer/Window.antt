-- ===== src/Lexer/Window.antt =====
-- What a lexer has still to read, and how the window of two characters changes it.
use lacsap.Prelude.{ℕ, ◌+◌, ◌≤◌, ◌<◌, ◌≡◌, ◌≢◌, arith, ltb, ◌==◌, if◌then◌else◌, length}
use lacsap.Source.{FileSource, eof, get}
use lacsap.Lexer.Chars.{Lexer, next_char, cur_char, peek_char}

-- A current character is there, and at most one more.
pub record IsReady (lx : Lexer) : Type 0 where
  pub some_char : 0 < lx.cur_valid
  pub at_most_two : lx.cur_valid ≤ 2

abbrev live : ℕ → ℕ
live c = if c == eof then 0 else 1

-- The bytes still to come, those of the window counted unless they are the end of the file.
abbrev pub left : Lexer → ℕ
left lx =
    length lx.source.input
    + (if ltb 0 lx.cur_valid then live lx.cur else 0)
    + (if ltb 1 lx.cur_valid then live lx.next else 0)

get-input : (s : FileSource) → length (get s).1.input + live (get s).0 ≤ length s.input
unfolding get
get-input s = ground arith

pub next_char-IsReady : (lx : Lexer) → IsReady lx → IsReady (next_char lx)
unfolding next_char
next_char-IsReady lx r = ground arith

-- No step of the window adds to what is left, and a step from a character takes one away.
pub left-next_char : (lx : Lexer) → IsReady lx → left (next_char lx) ≤ left lx
unfolding next_char
left-next_char lx r = ground (arith, get-input lx.source)

pub left-next_char_lt : (lx : Lexer) → IsReady lx → lx.cur ≢ eof → left (next_char lx) < left lx
unfolding next_char
left-next_char_lt lx r h = ground (arith, get-input lx.source)

pub peek_char-IsReady : (lx : Lexer) → IsReady lx → IsReady (peek_char lx)
unfolding peek_char
peek_char-IsReady lx r = ground arith

pub left-peek_char : (lx : Lexer) → IsReady lx → left (peek_char lx) ≤ left lx
unfolding peek_char
left-peek_char lx r = ground (arith, get-input lx.source)

pub cur-peek_char : (lx : Lexer) → (peek_char lx).cur ≡ lx.cur
unfolding peek_char
cur-peek_char lx = ground arith

pub cur_char-IsReady : (lx : Lexer) → lx.cur_valid ≤ 2 → IsReady (cur_char lx)
unfolding cur_char next_char
cur_char-IsReady lx r = ground arith

pub left-cur_char : (lx : Lexer) → left (cur_char lx) ≤ left lx
unfolding cur_char next_char
left-cur_char lx = ground (arith, get-input lx.source)

-- What was peeked at is the next character.
pub cur-next_char-peek_char :
    (lx : Lexer) → IsReady lx → (next_char (peek_char lx)).cur ≡ (peek_char lx).next
unfolding next_char peek_char
cur-next_char-peek_char lx r = ground arith
