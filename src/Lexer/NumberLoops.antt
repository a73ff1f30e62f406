-- ===== src/Lexer/NumberLoops.antt =====
-- lexer.cpp: the loops of `NumberToken`, against what is left to read.
use lacsap.Prelude.{
  ℕ, zero, suc, ◌-◌, ◌≤◌, ◌<◌, ◌≡◌, ◌≢◌, ◌⊎◌, inl, inr, refl, arith, true, false, ◌||◌, ◌&&◌, not,
  ◌==◌, Text, is_digit, Bool-cases,
}
use lacsap.Outcome.{Outcome, Ends, ends, Ends-bind, Ends-weaken, Ends-if}
use lacsap.Source.{eof}
use lacsap.Lexer.Chars.{Lexer, next_char, peek_char}
use lacsap.Lexer.Convert.{convert_int, valid_for_base}
use lacsap.Lexer.Number.{
  Scan, take_char, IntPart, int_end, bad_base, read_base, int_loop, digit_loop, NumState, int_part,
  fraction, exponent, fraction_part, exponent_part, take_sign, number_part, NextState, stop, go_on,
  next_state, after_part, number_loop,
}
use lacsap.Lexer.Window.{IsReady, left, left-next_char_lt, left-next_char, cur-peek_char}
use lacsap.Lexer.Loops.{
  Within, next_char-Within, peek_char-Within, next_char-Within_lt, Within-weaken,
}

-- The lexer of a scan has at most `w` bytes left, and its base is one of those allowed.
pub record Scans (w : ℕ) (n : Scan) : Type 0 where
  pub within : Within w n.lexer
  pub base : n.base ≤ 36

Scans-weaken : {v w : ℕ} {n : Scan} → v ≤ w → Scans v n → Scans w n
Scans-weaken le s = record { within = Within-weaken le s.within; base = s.base }

take_char-Scans : {w : ℕ} (n : Scan) → Scans w n → Scans w (take_char n)
take_char-Scans n s = record { within = next_char-Within n.lexer s.within; base = s.base }

valid-ne_eof : (c base : ℕ) → base ≤ 36 → (valid_for_base c base || c == b'#') ≡ true → c ≢ eof
unfolding valid_for_base
valid-ne_eof c base b h = ground arith

convert_int-Within :
    {w : ℕ} (num : Text) (lx : Lexer) → Within w lx → Within w (convert_int num lx).2
unfolding convert_int
convert_int-Within num lx h = record {
  ready = record { some_char = h.ready.some_char; at_most_two = h.ready.at_most_two };
  bound = h.bound;
}

read_base-Within : {w : ℕ} (n : Scan) → Within w n.lexer → Within w (read_base n).1.lexer
unfolding read_base
read_base-Within n h = convert_int-Within n.num (next_char n.lexer) (next_char-Within n.lexer h)

read_base-left :
    (n : Scan) → IsReady n.lexer → n.lexer.cur ≢ eof → left (read_base n).1.lexer < left n.lexer
unfolding read_base convert_int
read_base-left n r c = left-next_char_lt n.lexer r c

read_base-base : (n : Scan) → (read_base n).0 ≡ false → (read_base n).1.base ≤ 36
unfolding read_base
read_base-base n h = ground arith

-- Where a part of the number may end.
abbrev pub Parts : ℕ → IntPart → Type 0
Parts w (int_end n) = Scans w n
Parts w (bad_base n) = Within w n.lexer

int_loop-Ends : (f w : ℕ) (n : Scan) → Scans w n → left n.lexer < f → Ends (Parts w) (int_loop f n)
unfolding int_loop
int_loop-Ends zero w n s fuel = absurd (omega arith)
int_loop-Ends (suc f) w n s fuel =
    let c = n.lexer.cur in
    let (bad, n') = read_base n in
    Ends-if (valid_for_base c n.base || c == b'#')
      (λ more.
        let ne = valid-ne_eof c n.base s.base more in
        let less = left-next_char_lt n.lexer s.within.ready ne in
        Ends-if (c == b'#' && n.base == 10)
          (λ _.
            let h' = read_base-Within n s.within in
            let l' = read_base-left n s.within.ready ne in
            Ends-if bad (λ _. ends (bad_base n') h')
              (λ ok.
                let s' : Scans w n' = record { within = h'; base = read_base-base n ok } in
                int_loop-Ends f w (take_char n') (take_char-Scans n' s')
                  (omega (arith, left-next_char n'.lexer h'.ready))))
          (λ _. int_loop-Ends f w (take_char n) (take_char-Scans n s) (omega arith)))
      (λ _. ends (int_end n) s)

digit_loop-Ends :
    (f w : ℕ) (n : Scan) → Scans w n → left n.lexer < f → Ends (Scans w) (digit_loop f n)
unfolding digit_loop
digit_loop-Ends zero w n s fuel = absurd (omega arith)
digit_loop-Ends (suc f) w n s fuel =
    Ends-if (is_digit n.lexer.cur)
      (λ d.
        let ne : n.lexer.cur ≢ eof = ground arith in
        digit_loop-Ends f w (take_char n) (take_char-Scans n s)
          (omega (arith, left-next_char_lt n.lexer s.within.ready ne)))
      (λ _. ends n s)

-- What the switch expects of the current character in each state.
abbrev pub Enters : NumState → ℕ → Type 0
Enters int_part c = c ≢ eof
Enters fraction c = (c == b'.') ≡ true
Enters exponent c = (c == b'e' || c == b'E') ≡ true

Enters-ne_eof : (st : NumState) (c : ℕ) → Enters st c → c ≢ eof
Enters-ne_eof int_part c h = h
Enters-ne_eof fraction c h = ground arith
Enters-ne_eof exponent c h = ground arith

-- A part takes a byte, or ends the loop.
abbrev ScanEnd : NumState → ℕ → Scan → Type 0
ScanEnd st w n = Scans w n × ((left n.lexer < w) ⊎ (next_state st n.lexer.cur n.base ≡ stop))

abbrev PartEnd : NumState → ℕ → IntPart → Type 0
PartEnd st w (int_end n) = ScanEnd st w n
PartEnd st w (bad_base n) = Within w n.lexer

ScanEnd-of_Scans : (st : NumState) {v w : ℕ} (n : Scan) → v < w → Scans v n → ScanEnd st w n
ScanEnd-of_Scans st n l s = (Scans-weaken (omega arith) s, inl (omega (arith, s.within.bound)))

PartEnd-of_Parts : (st : NumState) {v w : ℕ} (r : IntPart) → v < w → Parts v r → PartEnd st w r
PartEnd-of_Parts st (int_end n) l s = ScanEnd-of_Scans st n l s
PartEnd-of_Parts st (bad_base n) l h = Within-weaken (omega arith) h

-- One byte is taken from a scan that stands at a character.
take_char-Scans_lt :
    {w : ℕ} (n : Scan) → Scans (suc w) n → n.lexer.cur ≢ eof → Scans w (take_char n)
take_char-Scans_lt n s c = record { within = next_char-Within_lt n.lexer s.within c; base = s.base }

take_sign-Scans : {w : ℕ} (n : Scan) → Scans w n → Scans w (take_sign n)
take_sign-Scans n s = elim (Bool-cases (n.lexer.cur == b'+' || n.lexer.cur == b'-')) [
  | inl sign ↦ rw sign (take_char-Scans n s)
  | inr plain ↦ rw plain s
]

next_state-dot : (c base : ℕ) → (c == b'.') ≡ true → next_state fraction c base ≡ stop
unfolding next_state
next_state-dot c base h = ground arith

fraction-Ends :
    (f w : ℕ) (n : Scan)
    → Scans (suc w) n
    → suc w < f
    → (n.lexer.cur == b'.') ≡ true
    → Ends (ScanEnd fraction (suc w)) (fraction_part f n)
unfolding fraction_part
fraction-Ends f w n s fuel dot = rw dot (
    let lx = peek_char n.lexer in
    let n1 : Scan = record n { lexer = lx } in
    let n2 : Scan = record n { lexer = lx; is_float = true } in
    let h = peek_char-Within n.lexer s.within in
    let dot1 : (lx.cur == b'.') ≡ true = rw cur-peek_char dot in
    Ends-if (lx.next == b'.' || lx.next == b')')
      (λ _. ends n1 (record { within = h; base = s.base }, inr (next_state-dot lx.cur n.base dot1)))
      (λ _.
        let s3 =
          take_char-Scans_lt n2 (record { within = h; base = s.base })
            (Enters-ne_eof fraction lx.cur dot1) in
        Ends-weaken (λ n' s'. ScanEnd-of_Scans fraction n' (omega arith) s')
          (digit_loop-Ends f w (take_char n2) s3 (omega (arith, s3.within.bound)))))

not_e : (c : ℕ) → (c == b'e' || c == b'E') ≡ true → (not (c == b'e') && not (c == b'E')) ≡ false
not_e c h = ground arith

exponent-Ends :
    (f w : ℕ) (n : Scan)
    → Scans (suc w) n
    → suc w < f
    → (n.lexer.cur == b'e' || n.lexer.cur == b'E') ≡ true
    → Ends (ScanEnd exponent (suc w)) (exponent_part f n)
unfolding exponent_part
exponent-Ends f w n s fuel e = rw (not_e n.lexer.cur e) (
    let n1 : Scan = record n { is_float = true } in
    let s1 =
      take_char-Scans_lt n1 (record { within = s.within; base = s.base })
        (Enters-ne_eof exponent n.lexer.cur e) in
    let s2 = take_sign-Scans (take_char n1) s1 in
    Ends-weaken (λ n' s'. ScanEnd-of_Scans exponent n' (omega arith) s')
      (digit_loop-Ends f w (take_sign (take_char n1)) s2 (omega (arith, s2.within.bound))))

number_part-Ends :
    (st : NumState) (f w : ℕ) (n : Scan)
    → Scans (suc w) n
    → suc w < f
    → Enters st n.lexer.cur
    → Ends (PartEnd st (suc w)) (number_part st f n)
unfolding number_part
number_part-Ends int_part f w n s fuel c =
    let n1 : Scan = record n { lexer = next_char n.lexer } in
    let s1 : Scans w n1 = record {
      within = next_char-Within_lt n.lexer s.within c;
      base = s.base;
    } in
    Ends-weaken (λ r p. PartEnd-of_Parts int_part r (omega arith) p)
      (int_loop-Ends f w n1 s1 (omega (arith, s1.within.bound)))
number_part-Ends fraction f w n s fuel c =
    Ends-bind (fraction_part f n) _ (fraction-Ends f w n s fuel c) (λ n' p. ends (int_end n') p)
number_part-Ends exponent f w n s fuel c =
    Ends-bind (exponent_part f n) _ (exponent-Ends f w n s fuel c) (λ n' p. ends (int_end n') p)

next_state-Enters :
    (st : NumState) (c base : ℕ) (st' : NumState) → next_state st c base ≡ go_on st' → Enters st' c
unfolding next_state
next_state-Enters st c base int_part h = ground arith
next_state-Enters st c base fraction h = ground arith
next_state-Enters st c base exponent h = ground arith

-- A state at a character leaves less to read, or it is the last.
less_of_go_on :
    (st st' : NumState) {w : ℕ} (n : Scan)
    → next_state st n.lexer.cur n.base ≡ go_on st'
    → (left n.lexer < w) ⊎ (next_state st n.lexer.cur n.base ≡ stop)
    → left n.lexer < w
less_of_go_on st st' n e (inl l) = l
less_of_go_on st st' n e (inr s) = cc

NextState-cases : (s : NextState) → (s ≡ stop) ⊎ ((st : NumState) × (s ≡ go_on st))
NextState-cases stop = inl refl
NextState-cases (go_on st) = inr (st, refl)

after_part-Ends :
    (st : NumState) (v w : ℕ) (rest : NumState → Scan → Outcome IntPart) (r : IntPart)
    → v ≤ w
    → PartEnd st v r
    → ((st' : NumState) (n : Scan)
        → Scans v n
        → left n.lexer < v
        → Enters st' n.lexer.cur
        → Ends (Parts w) (rest st' n))
    → Ends (Parts w) (after_part st rest r)
after_part-Ends st v w rest (bad_base n) le h k = ends (bad_base n) (Within-weaken le h)
after_part-Ends st v w rest (int_end n) le (s, m) k =
    elim (NextState-cases (next_state st n.lexer.cur n.base)) [
      | inl e ↦ rw (e, after_part) (ends (int_end n) (Scans-weaken le s))
      | inr (st', e) ↦
          rw (e, after_part)
            (k st' n s (less_of_go_on st st' n e m) (next_state-Enters st n.lexer.cur n.base st' e))
    ]

-- The whole loop ends, from a state that fits its character.
pub number_loop-Ends :
    (parts f w : ℕ) (st : NumState) (n : Scan)
    → Scans w n
    → left n.lexer < parts
    → left n.lexer < f
    → Enters st n.lexer.cur
    → Ends (Parts w) (number_loop parts f st n)
unfolding number_loop
number_loop-Ends zero f w st n s fuel _ c = absurd (omega arith)
number_loop-Ends (suc parts) f w st n s fuel fuel' c =
    let v = left n.lexer - 1 in
    let pos = left-next_char_lt n.lexer s.within.ready (Enters-ne_eof st n.lexer.cur c) in
    let s' : Scans (suc v) n = record {
      within = record { ready = s.within.ready; bound = omega arith };
      base = s.base;
    } in
    Ends-bind (number_part st f n) (after_part st (number_loop parts f))
      (number_part-Ends st f v n s' (omega arith) c)
      λ r p.
        after_part-Ends st (suc v) w (number_loop parts f) r (omega (arith, s.within.bound)) p
          λ st' n' sn less enter.
            number_loop-Ends parts f w st' n' (Scans-weaken (omega (arith, s.within.bound)) sn)
              (omega arith) (omega arith) enter

after_int-Ends :
    (w : ℕ) (rest : NumState → Scan → Outcome IntPart) (r : IntPart)
    → Parts w r
    → ((st : NumState) (n : Scan) → Scans w n → Enters st n.lexer.cur → Ends (Parts w) (rest st n))
    → Ends (Parts w) (after_part int_part rest r)
after_int-Ends w rest (bad_base n) h k = ends (bad_base n) h
after_int-Ends w rest (int_end n) s k =
    elim (NextState-cases (next_state int_part n.lexer.cur n.base)) [
      | inl e ↦ rw (e, after_part) (ends (int_end n) s)
      | inr (st, e) ↦
          rw (e, after_part) (k st n s (next_state-Enters int_part n.lexer.cur n.base st e))
    ]

-- From the integer part on, the loop takes at least one byte.
pub number_loop-Ends_lt :
    (f w : ℕ) (n : Scan)
    → Scans (suc w) n
    → suc w < f
    → n.lexer.cur ≢ eof
    → Ends (Parts w) (number_loop f f int_part n)
unfolding number_loop number_part
number_loop-Ends_lt zero w n s fuel c = absurd (omega arith)
number_loop-Ends_lt (suc f) w n s fuel c =
    let n1 : Scan = record n { lexer = next_char n.lexer } in
    let s1 : Scans w n1 = record {
      within = next_char-Within_lt n.lexer s.within c;
      base = s.base;
    } in
    Ends-bind (int_loop (suc f) n1) (after_part int_part (number_loop f (suc f)))
      (int_loop-Ends (suc f) w n1 s1 (omega (arith, s1.within.bound)))
      λ r p. after_int-Ends w (number_loop f (suc f)) r p λ st n' s' enter.
        number_loop-Ends f (suc f) w st n' s' (omega (arith, s'.within.bound))
          (omega (arith, s'.within.bound)) enter
