-- ===== src/Lexer/Chars.antt =====
-- lexer.h, lexer.cpp: the state of a lexer, and its window of at most two characters.
-- `cur` and `next` are `curChar` and `nextChar`; `erange` is whether `errno` is `ERANGE`.
use lacsap.Prelude.{ℕ, ◌+◌, ◌-◌, Bool, false, ltb, ◌==◌, if◌then◌else◌}
use lacsap.Source.{FileSource, get, location}
use lacsap.Token.{Location}

pub record Lexer : Type 0 where
  pub source : FileSource
  pub cur : ℕ
  pub next : ℕ
  pub cur_valid : ℕ
  pub erange : Bool

-- `Lexer(Source&)`. It leaves both characters unset: `a` and `b` stand for what is there.
unfoldable pub new_lexer : ℕ → ℕ → FileSource → Lexer
new_lexer a b source = record { source = source; cur = a; next = b; cur_valid = 0; erange = false }

-- `NextChar`, with `GetChar` as `get`: the character returned is `cur` of the new state.
unfoldable pub next_char : Lexer → Lexer
next_char lx =
    if ltb 1 lx.cur_valid
    then record lx { cur_valid = lx.cur_valid - 1; cur = lx.next }
    else (let (c, s) = get lx.source in record lx { source = s; cur = c })

-- `CurChar`
unfoldable pub cur_char : Lexer → Lexer
unfolding next_char
cur_char lx =
    if lx.cur_valid == 0
    then (let lx' = next_char lx in record lx' { cur_valid = lx'.cur_valid + 1 })
    else lx

-- `PeekChar`: the character returned is `next` of the new state.
unfoldable pub peek_char : Lexer → Lexer
peek_char lx =
    if ltb 1 lx.cur_valid
    then lx
    else (let (c, s) = get lx.source in
        record lx { source = s; next = c; cur_valid = lx.cur_valid + 1 })

-- `Where`
abbrev pub where_is : Lexer → Location
where_is lx = location lx.source
