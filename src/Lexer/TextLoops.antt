-- ===== src/Lexer/TextLoops.antt =====
-- lexer.cpp: the loops over quoted text and over words, against what is left to read.
use lacsap.Prelude.{
  ℕ, zero, suc, ◌≤◌, ◌<◌, ◌≡◌, ◌≢◌, inl, inr, refl, arith, Bool, false, ◌||◌, ◌==◌, [], ◌∷◌, ◌++◌,
  Text, is_alnum, Bool-cases,
}
use lacsap.Outcome.{Ends, ends, Ends-if}
use lacsap.Source.{eof}
use lacsap.Token.{is_empty}
use lacsap.Lexer.Chars.{Lexer, next_char, peek_char}
use lacsap.Lexer.Number.{number_start}
use lacsap.Lexer.Quoted.{Quoted, closed, unterminated, quote_step, string_loop}
use lacsap.Lexer.Scan.{ident_loop}
use lacsap.Lexer.Window.{left, left-next_char_lt, left-next_char, left-peek_char}
use lacsap.Lexer.Loops.{
  Within, next_char-Within, peek_char-Within, next_char-Within_lt, Within-weaken,
}
use lacsap.Lexer.NumberLoops.{Scans}

pub number_start-Scans : {w : ℕ} (lx : Lexer) → Within w lx → Scans w (number_start lx)
unfolding number_start
number_start-Scans lx h = elim (Bool-cases (lx.cur == b'$')) [
  | inl hex ↦ rw hex (record { within = next_char-Within lx h; base = omega arith })
  | inr dec ↦ rw dec (record { within = h; base = omega arith })
]

abbrev pub QuoteEnd : ℕ → Quoted → Type 0
QuoteEnd w (closed str lx) = Within w lx
QuoteEnd w (unterminated lx) = Within w lx

-- The step at a quote leaves no more to read, and goes on at the character that it tested.
record QuoteStep (w : ℕ) (lx : Lexer) (r : Bool × Lexer) : Type 0 where
  within : Within w r.1
  same : left r.1 ≤ left lx

quote_step-QuoteStep :
    {w : ℕ} (quote : ℕ) (lx : Lexer) → Within w lx → QuoteStep w lx (quote_step quote lx)
unfolding quote_step
quote_step-QuoteStep quote lx h =
    let lx1 = peek_char lx in
    let h1 = peek_char-Within lx h in
    let l1 = left-peek_char lx h.ready in
    elim (Bool-cases (lx.cur == quote)) [
      | inl at ↦ rw at (elim (Bool-cases (lx1.next == quote)) [
        | inl again ↦ rw again (record {
          within = next_char-Within lx1 h1;
          same = omega (arith, left-next_char lx1 h1.ready);
        })
        | inr other ↦ rw other (record { within = h1; same = l1 })
      ])
      | inr ne ↦ rw ne (record { within = h; same = omega arith })
    ]

pub string_loop-Ends :
    (f w quote : ℕ) (str : Text) (lx : Lexer)
    → Within w lx
    → left lx < f
    → quote ≢ eof
    → Ends (QuoteEnd w) (string_loop f quote str lx)
unfolding string_loop
string_loop-Ends zero w quote str lx h fuel q = absurd (omega arith)
string_loop-Ends (suc f) w quote str lx h fuel q =
    let (ended, lx') = quote_step quote lx in
    let s = quote_step-QuoteStep quote lx h in
    Ends-if ended (λ _. ends (closed str lx') s.within)
      (λ _.
        Ends-if (lx'.cur == b'\n' || lx'.cur == eof) (λ _. ends (unterminated lx') s.within)
          (λ more.
            let ne : lx'.cur ≢ eof = ground arith in
            string_loop-Ends f w quote (str ++ lx'.cur ∷ []) (next_char lx')
              (next_char-Within lx' s.within)
              (omega (arith, s.same, left-next_char_lt lx' s.within.ready ne)) q))

is_empty-concat : (str : Text) (c : ℕ) → is_empty (str ++ c ∷ []) ≡ false
is_empty-concat [] c = refl
is_empty-concat (d ∷ str) c = refl

pub ident_loop-Ends :
    (f w : ℕ) (str : Text) (lx : Lexer)
    → Within (suc w) lx
    → left lx < f
    → lx.cur ≢ eof
    → is_empty str ≡ false
    → Ends (λ r. Within w r.1 × (is_empty r.0 ≡ false)) (ident_loop f str lx)
unfolding ident_loop
ident_loop-Ends zero w str lx h fuel c e = absurd (omega arith)
ident_loop-Ends (suc f) w str lx h fuel c e =
    let lx' = next_char lx in
    let h' = next_char-Within_lt lx h c in
    Ends-if (is_alnum lx'.cur || lx'.cur == b'_')
      (λ more.
        let ne : lx'.cur ≢ eof = ground arith in
        ident_loop-Ends f w (str ++ lx'.cur ∷ []) lx' (Within-weaken (omega arith) h')
          (omega (arith, left-next_char_lt lx h.ready c)) ne (is_empty-concat str lx'.cur))
      (λ _. ends (str, lx') (h', e))
