-- ===== src/Lexer/Skip.antt =====
-- lexer.cpp: the first loop of `GetToken`, over white space and comments.
use lacsap.Prelude.{ℕ, zero, suc, Bool, true, false, ◌||◌, ◌==◌, if◌then◌else◌, is_space}
use lacsap.Outcome.{Outcome, done, out_of_fuel, ◌>>=◌}
use lacsap.Source.{eof}
use lacsap.Lexer.Chars.{Lexer, next_char, peek_char}

-- `while (isspace(ch)) ch = NextChar();`
unfoldable pub space_loop : ℕ → Lexer → Outcome Lexer
space_loop zero lx = out_of_fuel
space_loop (suc f) lx =
    let rest = space_loop f (next_char lx) in if is_space lx.cur then rest else done lx

-- `while ((ch = NextChar()) != EOF && ch != '}') ;`
unfoldable pub brace_loop : ℕ → Lexer → Outcome Lexer
brace_loop zero lx = out_of_fuel
brace_loop (suc f) lx =
    let lx' = next_char lx in
    let rest = brace_loop f lx' in if lx'.cur == eof || lx'.cur == b'}' then done lx' else rest

-- One round of the loop over "(* … *)": whether it ends, and the lexer. It peeks at a '*' only.
unfoldable pub star_step : Lexer → Bool × Lexer
star_step lx =
    let lx1 = next_char lx in
    if lx1.cur == eof
    then (true, lx1)
    else if lx1.cur == b'*'
    then (let lx2 = peek_char lx1 in (lx2.next == b')', lx2))
    else (false, lx1)

-- `while ((ch = NextChar()) != EOF && !(ch == '*' && PeekChar() == ')')) ;`
unfoldable pub star_loop : ℕ → Lexer → Outcome Lexer
star_loop zero lx = out_of_fuel
star_loop (suc f) lx =
    let (ended, lx') = star_step lx in
    let rest = star_loop f lx' in if ended then done lx' else rest

-- `do { ch = NextChar(); } while (ch != '\n' && ch != EOF);`
unfoldable pub line_loop : ℕ → Lexer → Outcome Lexer
line_loop zero lx = out_of_fuel
line_loop (suc f) lx =
    let lx' = next_char lx in
    let rest = line_loop f lx' in if lx'.cur == b'\n' || lx'.cur == eof then done lx' else rest

-- `if (ch == '{')`
unfoldable pub skip_brace : ℕ → Lexer → Outcome Lexer
skip_brace f lx =
    if lx.cur == b'{' then (do lx' ← brace_loop f lx; done (next_char lx')) else done lx

-- `if (ch == '(' && PeekChar() == '*')`
unfoldable pub skip_star : ℕ → Lexer → Outcome Lexer
skip_star f lx =
    if lx.cur == b'('
    then (let lx1 = peek_char lx in
        if lx1.next == b'*'
        then (do lx2 ← star_loop f (next_char lx1); done (next_char (next_char lx2)))
        else done lx1)
    else done lx

-- `if (ch == '/' && PeekChar() == '/')`
unfoldable pub skip_line : ℕ → Lexer → Outcome Lexer
skip_line f lx =
    if lx.cur == b'/'
    then (let lx1 = peek_char lx in if lx1.next == b'/' then line_loop f lx1 else done lx1)
    else done lx

-- The body of the `do … while (isspace(ch))`
unfoldable pub skip_round : ℕ → Lexer → Outcome Lexer
skip_round f lx = do
  lx1 ← space_loop f lx
  lx2 ← skip_brace f lx1
  lx3 ← skip_star f lx2
  skip_line f lx3

-- `rounds` is the fuel of this loop, `f` that of the loops in it.
unfoldable pub skip_loop : ℕ → ℕ → Lexer → Outcome Lexer
skip_loop zero f lx = out_of_fuel
skip_loop (suc rounds) f lx = do
  lx' ← skip_round f lx
  let rest = skip_loop rounds f lx'
  if is_space lx'.cur then rest else done lx'
