-- ===== src/Lexer/Loops.antt =====
-- lexer.cpp: the loops over white space and comments, against what is left to read.
use lacsap.Prelude.{
  ℕ, zero, suc, ◌≤◌, ◌<◌, ◌≡◌, ◌≢◌, ◌⊎◌, ◌∙◌, sym, ◌-◌, arith, Bool, true, false, ◌||◌, ◌==◌,
  is_space, inl, inr,
}
use mathlib.Core.Bool.{false≢true}
use lacsap.Outcome.{done, Ends, ends, Ends-bind, Ends-weaken, Ends-if}
use lacsap.Source.{eof}
use lacsap.Lexer.Chars.{Lexer, next_char, peek_char}
use lacsap.Lexer.Window.{
  IsReady, left, next_char-IsReady, left-next_char, left-next_char_lt, peek_char-IsReady,
  left-peek_char, cur-peek_char, cur-next_char-peek_char,
}
use lacsap.Lexer.Skip.{
  space_loop, brace_loop, star_step, star_loop, line_loop, skip_brace, skip_star, skip_line,
  skip_round, skip_loop,
}

-- A lexer that can go on, with at most `w` bytes left.
pub record Within (w : ℕ) (lx : Lexer) : Type 0 where
  pub ready : IsReady lx
  pub bound : left lx ≤ w

pub next_char-Within : {w : ℕ} (lx : Lexer) → Within w lx → Within w (next_char lx)
next_char-Within lx h = record {
  ready = next_char-IsReady lx h.ready;
  bound = omega (arith, left-next_char lx h.ready, h.bound);
}

pub peek_char-Within : {w : ℕ} (lx : Lexer) → Within w lx → Within w (peek_char lx)
peek_char-Within lx h = record {
  ready = peek_char-IsReady lx h.ready;
  bound = omega (arith, left-peek_char lx h.ready, h.bound);
}

pub next_char-Within_lt :
    {w : ℕ} (lx : Lexer) → Within (suc w) lx → lx.cur ≢ eof → Within w (next_char lx)
next_char-Within_lt lx h c = record {
  ready = next_char-IsReady lx h.ready;
  bound = omega (arith, left-next_char_lt lx h.ready c, h.bound);
}

pub Within-weaken : {v w : ℕ} {lx : Lexer} → v ≤ w → Within v lx → Within w lx
Within-weaken le h = record { ready = h.ready; bound = omega (arith, h.bound) }

pub Within-self : (lx : Lexer) → IsReady lx → Within (left lx) lx
Within-self lx r = record { ready = r; bound = omega arith }

-- A character that passes such a test is not the end of the file.
pub ne_eof : (c : ℕ) → is_space c ≡ true → c ≢ eof
ne_eof c h = ground arith

space_loop-Ends :
    (f w : ℕ) (lx : Lexer)
    → Within w lx
    → left lx < f
    → Ends (λ lx'. Within w lx' × (is_space lx'.cur ≡ false)) (space_loop f lx)
unfolding space_loop
space_loop-Ends zero w lx h fuel = absurd (omega arith)
space_loop-Ends (suc f) w lx h fuel =
    Ends-if (is_space lx.cur)
      (λ sp.
        space_loop-Ends f w (next_char lx) (next_char-Within lx h)
          (omega (arith, left-next_char_lt lx h.ready (ne_eof lx.cur sp))))
      (λ ns. ends lx (h, ns))

brace_loop-Ends :
    (f w : ℕ) (lx : Lexer)
    → Within (suc w) lx
    → left lx < f
    → lx.cur ≢ eof
    → Ends (Within w) (brace_loop f lx)
unfolding brace_loop
brace_loop-Ends zero w lx h fuel c = absurd (omega arith)
brace_loop-Ends (suc f) w lx h fuel c =
    let lx' = next_char lx in
    let h' = next_char-Within_lt lx h c in
    Ends-if (lx'.cur == eof || lx'.cur == b'}') (λ _. ends lx' h')
      (λ more.
        brace_loop-Ends f w lx' (Within-weaken (omega arith) h')
          (omega (arith, left-next_char_lt lx h.ready c)) (ground arith))

line_loop-Ends :
    (f w : ℕ) (lx : Lexer)
    → Within (suc w) lx
    → left lx < f
    → lx.cur ≢ eof
    → Ends (Within w) (line_loop f lx)
unfolding line_loop
line_loop-Ends zero w lx h fuel c = absurd (omega arith)
line_loop-Ends (suc f) w lx h fuel c =
    let lx' = next_char lx in
    let h' = next_char-Within_lt lx h c in
    Ends-if (lx'.cur == b'\n' || lx'.cur == eof) (λ _. ends lx' h')
      (λ more.
        line_loop-Ends f w lx' (Within-weaken (omega arith) h')
          (omega (arith, left-next_char_lt lx h.ready c)) (ground arith))

record StarStep (lx : Lexer) (r : Bool × Lexer) : Type 0 where
  ready : IsReady r.1
  less : left r.1 < left lx
  inside : r.0 ≡ false → r.1.cur ≢ eof

star_step-StarStep : (lx : Lexer) → IsReady lx → lx.cur ≢ eof → StarStep lx (star_step lx)
unfolding star_step
star_step-StarStep lx r c =
    let lx1 = next_char lx in
    let r1 = next_char-IsReady lx r in
    let l1 = left-next_char_lt lx r c in
    let r2 = peek_char-IsReady lx1 r1 in
    let l2 = left-peek_char lx1 r1 in
    let c2 = cur-peek_char lx1 in
    record { ready = ground arith; less = ground arith; inside = ground arith }

star_loop-Ends :
    (f w : ℕ) (lx : Lexer)
    → Within (suc w) lx
    → left lx < f
    → lx.cur ≢ eof
    → Ends (Within w) (star_loop f lx)
unfolding star_loop
star_loop-Ends zero w lx h fuel c = absurd (omega arith)
star_loop-Ends (suc f) w lx h fuel c =
    let (ended, lx') = star_step lx in
    let s = star_step-StarStep lx h.ready c in
    let h' : Within w lx' = record { ready = s.ready; bound = omega (arith, s.less, h.bound) } in
    Ends-if ended (λ _. ends lx' h')
      (λ more.
        star_loop-Ends f w lx' (Within-weaken (omega arith) h') (omega (arith, s.less))
          (s.inside more))

-- White space does not follow, or something was skipped.
pub record Settled (w : ℕ) (lx : Lexer) : Type 0 where
  pub within : Within w lx
  pub moved : (is_space lx.cur ≡ false) ⊎ (left lx < w)

Settled-less : {w : ℕ} (lx : Lexer) → IsReady lx → left lx < w → Settled w lx
Settled-less lx r l = record { within = record { ready = r; bound = omega arith }; moved = inr l }

Settled-peek_char : {w : ℕ} (lx : Lexer) → Settled w lx → Settled w (peek_char lx)
Settled-peek_char lx s = record {
  within = peek_char-Within lx s.within;
  moved = elim s.moved [
    | inl ns ↦ inl (rw cur-peek_char ns)
    | inr l ↦ inr (omega (arith, left-peek_char lx s.within.ready))
  ];
}

moved_of_space :
    {w : ℕ} (lx : Lexer)
    → is_space lx.cur ≡ true
    → (is_space lx.cur ≡ false) ⊎ (left lx < w)
    → left lx < w
moved_of_space lx sp (inl ns) = absurd (false≢true (sym ns ∙ sp))
moved_of_space lx sp (inr l) = l

-- One byte less than is left at a character.
module _ (lx : Lexer) (r : IsReady lx) (c : lx.cur ≢ eof) where
  Within-pred : Within (suc (left lx - 1)) lx
  Within-pred = record { ready = r; bound = omega arith }

  Settled-of_Within : {w : ℕ} (lx' : Lexer) → left lx ≤ w → Within (left lx - 1) lx' → Settled w lx'
  Settled-of_Within lx' le h =
      Settled-less lx' h.ready (omega (arith, h.bound, left-next_char_lt lx r c))

skip_brace-Ends :
    (f w : ℕ) (lx : Lexer) → Settled w lx → left lx < f → Ends (Settled w) (skip_brace f lx)
unfolding skip_brace
skip_brace-Ends f w lx s fuel =
    let r = s.within.ready in
    Ends-if (lx.cur == b'{')
      (λ brace.
        let c : lx.cur ≢ eof = ground arith in
        Ends-bind (brace_loop f lx) (λ lx'. done (next_char lx'))
          (brace_loop-Ends f (left lx - 1) lx (Within-pred lx r c) fuel c)
          (λ lx' h.
            ends (next_char lx')
              (Settled-of_Within lx r c (next_char lx') s.within.bound (next_char-Within lx' h))))
      (λ _. ends lx s)

skip_line-Ends :
    (f w : ℕ) (lx : Lexer) → Settled w lx → left lx < f → Ends (Settled w) (skip_line f lx)
unfolding skip_line
skip_line-Ends f w lx s fuel =
    let lx1 = peek_char lx in
    let s1 = Settled-peek_char lx s in
    let r1 = s1.within.ready in
    Ends-if (lx.cur == b'/')
      (λ slash.
        let c : lx1.cur ≢ eof = rw cur-peek_char (ground arith) in
        Ends-if (lx1.next == b'/')
          (λ _.
            Ends-weaken (λ lx' h. Settled-of_Within lx1 r1 c lx' s1.within.bound h)
              (line_loop-Ends f (left lx1 - 1) lx1 (Within-pred lx1 r1 c)
                (omega (arith, left-peek_char lx s.within.ready)) c))
          (λ _. ends lx1 s1))
      (λ _. ends lx s)

skip_star-Ends :
    (f w : ℕ) (lx : Lexer) → Settled w lx → left lx < f → Ends (Settled w) (skip_star f lx)
unfolding skip_star
skip_star-Ends f w lx s fuel =
    let lx1 = peek_char lx in
    let s1 = Settled-peek_char lx s in
    let r1 = s1.within.ready in
    Ends-if (lx.cur == b'(')
      (λ open_paren.
        let c : lx1.cur ≢ eof = rw cur-peek_char (ground arith) in
        Ends-if (lx1.next == b'*')
          (λ star.
            let lx2 = next_char lx1 in
            let h2 = next_char-Within_lt lx1 (Within-pred lx1 r1 c) c in
            let c2 : lx2.cur ≢ eof =
              rw (cur-next_char-peek_char lx s.within.ready) (ground arith) in
            Ends-bind (star_loop f lx2) (λ lx3. done (next_char (next_char lx3)))
              (star_loop-Ends f (left lx1 - 1) lx2 (Within-weaken (omega arith) h2)
                (omega (arith, left-peek_char lx s.within.ready, left-next_char lx1 r1)) c2)
              (λ lx3 h3. ends (next_char (next_char lx3)) (
                Settled-of_Within lx1 r1 c (next_char (next_char lx3)) s1.within.bound
                  (next_char-Within (next_char lx3) (next_char-Within lx3 h3)))))
          (λ _. ends lx1 s1))
      (λ _. ends lx s)

skip_round-Ends :
    (f : ℕ) (lx : Lexer) → IsReady lx → left lx < f → Ends (Settled (left lx)) (skip_round f lx)
unfolding skip_round
skip_round-Ends f lx r fuel =
    let w = left lx in
    Ends-bind (space_loop f lx) _ (space_loop-Ends f w lx (Within-self lx r) fuel) λ lx1 (h1, ns).
      let s1 : Settled w lx1 = record { within = h1; moved = inl ns } in
      Ends-bind (skip_brace f lx1) _ (skip_brace-Ends f w lx1 s1 (omega (arith, h1.bound)))
        λ lx2 s2.
          Ends-bind (skip_star f lx2) _ (skip_star-Ends f w lx2 s2 (omega (arith, s2.within.bound)))
            λ lx3 s3. skip_line-Ends f w lx3 s3 (omega (arith, s3.within.bound))

-- The skipping loop ends at a character that is no white space.
pub skip_loop-Ends :
    (rounds f w : ℕ) (lx : Lexer)
    → Within w lx
    → left lx < rounds
    → left lx < f
    → Ends (λ lx'. Within w lx' × (is_space lx'.cur ≡ false)) (skip_loop rounds f lx)
unfolding skip_loop
skip_loop-Ends zero f w lx h fuel _ = absurd (omega arith)
skip_loop-Ends (suc rounds) f w lx h fuel fuel' =
    Ends-bind (skip_round f lx) _ (skip_round-Ends f lx h.ready fuel') λ lx' s.
      let h' : Within w lx' = Within-weaken h.bound s.within in
      Ends-if (is_space lx'.cur)
        (λ sp.
          let less : left lx' < left lx = moved_of_space lx' sp s.moved in
          skip_loop-Ends rounds f w lx' h' (omega arith) (omega arith))
        (λ ns. ends lx' (h', ns))
