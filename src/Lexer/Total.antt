-- ===== src/Lexer/Total.antt =====
-- lexer.cpp: how `GetToken` ends, with the fuel that it takes.
use lacsap.Prelude.{
  ℕ, suc, ◌-◌, ◌≤◌, ◌<◌, ◌≡◌, ◌≢◌, ◌⊎◌, inl, inr, refl, arith, true, false, ◌||◌, not, ◌==◌, [],
  ◌∷◌, Option, none, some, Text, is_alpha, is_digit, is_xdigit, Bool-cases,
}
use lacsap.Outcome.{Outcome, done, Ends, ends, Ends-bind, Ends-weaken, Ends-if, Ends-value, ◌>>=◌}
use lacsap.Source.{eof}
use lacsap.Token.{
  TokenType, Token, Standard, Location, token_table, plain_token, int_token, str_token, is_empty,
  token_eq, carries_value, key_word_to_token,
}
use lacsap.Token.Words.{carries_value-key_word}
use lacsap.Lexer.Chars.{Lexer, next_char, peek_char, cur_char, where_is}
use lacsap.Lexer.Convert.{Converted}
use lacsap.Lexer.Number.{number_start}
use lacsap.Lexer.Skip.{skip_loop}
use lacsap.Lexer.Scan.{
  symbol, single_char, after_single, single_char_token_table, ident_loop, word_token, long_token,
  token_at, get_token,
}
use lacsap.Lexer.Window.{
  IsReady, left, next_char-IsReady, left-next_char_lt, cur-peek_char, cur_char-IsReady,
  left-cur_char, cur-next_char-peek_char,
}
use lacsap.Lexer.Loops.{
  Within, peek_char-Within, next_char-Within_lt, Within-weaken, skip_loop-Ends, Within-self,
}
use lacsap.Lexer.TextLoops.{ident_loop-Ends}
use lacsap.Lexer.Tokens.{plain_token-Ends, Leaves, number_token-Leaves, string_token-Leaves}
use lacsap.Lexer.Symbols.{
  symbol-Symbol, not-true, plain_or_none, single_char-plain, single_char_token_table-plain,
}

-- What `GetToken` gives from a lexer with `w` bytes left: it can be called again, and unless the
-- token is the end of the file or unknown, it has taken a byte.
pub record Emitted {R : Type 0} (w : ℕ) (r : Token R × Lexer) : Type 0 where
  pub ready : IsReady r.1
  pub bound : left r.1 ≤ w
  pub progress :
      (r.0.type ≡ TokenType.end_of_file) ⊎ ((r.0.type ≡ TokenType.unknown) ⊎ (left r.1 < w))

Emitted-weaken : {R : Type 0} {v w : ℕ} {r : Token R × Lexer} → v ≤ w → Emitted v r → Emitted w r
Emitted-weaken le e = record {
  ready = e.ready;
  bound = omega (arith, e.bound);
  progress = elim e.progress [
    | inl p ↦ inl p
    | inr (inl p) ↦ inr (inl p)
    | inr (inr p) ↦ inr (inr (omega arith))
  ];
}

-- Where the number starts, there is a character.
number_start-digit : (lx : Lexer) → is_digit lx.cur ≡ true → (number_start lx).lexer.cur ≢ eof
unfolding number_start
number_start-digit lx d = elim (Bool-cases (lx.cur == b'$')) [
  | inl hex ↦ absurd (ground arith)
  | inr dec ↦ rw dec (ground arith)
]

number_start-hex :
    (lx : Lexer)
    → IsReady lx
    → (lx.cur == b'$') ≡ true
    → is_xdigit (peek_char lx).next ≡ true
    → (number_start (peek_char lx)).lexer.cur ≢ eof
unfolding number_start
number_start-hex lx r hex x =
    let dollar : ((peek_char lx).cur == b'$') ≡ true = rw cur-peek_char hex in
    rw (dollar, cur-next_char-peek_char lx r) (ground arith)

module _ {R : Type 0} where
  Emitted-of_Leaves :
      {w : ℕ} {m : Outcome (Token R × Lexer)} → Ends (Leaves w) m → Ends (Emitted (suc w)) m
  Emitted-of_Leaves = Ends-weaken λ r h. record {
    ready = h.ready;
    bound = omega (arith, h.bound);
    progress = inr (inr (omega (arith, h.bound)));
  }

  -- A token that is the end of the file or unknown may leave the lexer where it is.
  idle-Emitted :
      {w : ℕ} (t : TokenType) (loc : Location) (lx : Lexer)
      → carries_value t ≡ false
      → (t ≡ TokenType.end_of_file) ⊎ (t ≡ TokenType.unknown)
      → Within w lx
      → Ends (Emitted w) (plain_token {R = R} t loc >>= λ tok. done (tok, lx))
  idle-Emitted {w} t loc lx h k b =
      Ends-bind (plain_token t loc) (λ tok. done (tok, lx))
        (plain_token-Ends
          {P = λ tok. (tok.type ≡ TokenType.end_of_file) ⊎ (tok.type ≡ TokenType.unknown)} t loc h
          k)
        (λ tok p.
          ends (tok, lx)
            (record {
              ready = b.ready;
              bound = b.bound;
              progress = elim p [ inl e ↦ inl e | inr u ↦ inr (inl u) ];
            }))

  -- After a step from a character
  after-Emitted :
      {w : ℕ} (t : TokenType) (loc : Location) (lx : Lexer)
      → carries_value t ≡ false
      → IsReady lx
      → left lx < w
      → Ends (Emitted w) (plain_token {R = R} t loc >>= λ tok. done (tok, lx))
  after-Emitted {w} t loc lx h r l =
      Ends-bind (plain_token t loc) (λ tok. done (tok, lx))
        (plain_token-Ends {P = λ _. left lx < w} t loc h l)
        (λ tok p.
          ends (tok, lx) (record { ready = r; bound = omega arith; progress = inr (inr l) }))

  module _ (std : Standard) where
    word_token-Ends :
        (loc : Location) (str : Text)
        → is_empty str ≡ false
        → Ends {A = Token R} (λ _. is_empty str ≡ false) (word_token (token_table std) loc str)
    unfolding word_token int_token str_token
    word_token-Ends loc str e =
        let tt = key_word_to_token (token_table std) str in
        Ends-if (not (token_eq tt TokenType.unknown))
          (λ _.
            Ends-if (token_eq tt TokenType.line_number) (λ _. ends _ e)
              (λ _.
                Ends-if (token_eq tt TokenType.file_name) (λ _. ends _ e)
                  (λ _. plain_token-Ends tt loc (carries_value-key_word std str) e)))
          (λ _. rw e (ends _ refl))

  module _ (strtod : Text → Converted R) (std : Standard) where
    identifier-Emitted :
        (f w : ℕ) (loc : Location) (lx : Lexer)
        → Within (suc w) lx
        → suc w < f
        → lx.cur ≢ eof
        → Ends (Emitted (suc w)) (do
          (str, lx') ← ident_loop f (lx.cur ∷ []) lx
          t ← word_token {R = R} (token_table std) loc str
          done (t, lx'))
    identifier-Emitted f w loc lx h fuel c =
        Ends-bind (ident_loop f (lx.cur ∷ []) lx) _
          (ident_loop-Ends f w (lx.cur ∷ []) lx h (omega (arith, h.bound)) c refl)
          (λ (str, lx') (h', e).
            Ends-bind (word_token (token_table std) loc str) (λ t. done (t, lx'))
              (word_token-Ends std loc str e)
              (λ t _.
                ends (t, lx')
                  (record {
                    ready = h'.ready;
                    bound = omega (arith, h'.bound);
                    progress = inr (inr (omega (arith, h'.bound)));
                  })))

    long_token-Emitted :
        (f w : ℕ) (loc : Location) (lx : Lexer)
        → Within (suc w) lx
        → suc w < f
        → lx.cur ≢ eof
        → Ends (Emitted (suc w)) (long_token strtod (token_table std) f loc lx)
    unfolding long_token carries_value
    long_token-Emitted f w loc lx h fuel c =
        let lx1 = peek_char lx in
        let h1 = peek_char-Within lx h in
        Ends-if (lx.cur == b'\'' || lx.cur == b'"')
          (λ _. Emitted-of_Leaves (string_token-Leaves f w lx h fuel c))
          (λ _.
            Ends-if (is_alpha lx.cur || lx.cur == b'_')
              (λ _. identifier-Emitted f w loc lx h fuel c)
              (λ _.
                Ends-if (is_digit lx.cur)
                  (λ d.
                    Emitted-of_Leaves
                      (number_token-Leaves strtod f w lx h fuel (number_start-digit lx d)))
                  (λ _.
                    Ends-if (lx.cur == b'$')
                      (λ hex.
                        Ends-if (is_xdigit lx1.next)
                          (λ x. Emitted-of_Leaves (
                            number_token-Leaves strtod f w lx1 h1 fuel
                              (number_start-hex lx h.ready hex x)))
                          (λ _. idle-Emitted TokenType.unknown loc lx1 refl (inr refl) h1))
                      (λ _. idle-Emitted TokenType.unknown loc lx refl (inr refl) h))))

    after_single-Emitted :
        (f w : ℕ) (loc : Location) (lx : Lexer) (o : Option TokenType)
        → Within (suc w) lx
        → suc w < f
        → lx.cur ≢ eof
        → plain_or_none o ≡ true
        → Ends (Emitted (suc w)) (after_single strtod (token_table std) f loc lx o)
    unfolding after_single
    after_single-Emitted f w loc lx (some t) h fuel c p =
        let h' = next_char-Within_lt lx h c in
        after-Emitted t loc (next_char lx) (not-true (carries_value t) p) h'.ready
          (omega (arith, h'.bound))
    after_single-Emitted f w loc lx none h fuel c p = long_token-Emitted f w loc lx h fuel c

    token_at-Emitted :
        (f w : ℕ) (loc : Location) (lx : Lexer)
        → Within w lx
        → w < f
        → Ends (Emitted w) (token_at strtod (token_table std) f loc lx)
    unfolding token_at carries_value
    token_at-Emitted f w loc lx h fuel =
        let (tt, lx') = symbol lx in
        Ends-if (lx.cur == eof) (λ _. idle-Emitted TokenType.end_of_file loc lx refl (inl refl) h)
          (λ more.
            let c : lx.cur ≢ eof = ground arith in
            let s = symbol-Symbol lx h.ready c in
            let less = left-next_char_lt lx h.ready c in
            Ends-if (not (token_eq tt TokenType.unknown))
              (λ _.
                after-Emitted tt loc (next_char lx') s.plain (next_char-IsReady lx' s.ready)
                  (omega (arith, s.less, h.bound)))
              (λ _.
                Ends-weaken (λ _ em. Emitted-weaken (omega (arith, h.bound)) em)
                  (after_single-Emitted f (left lx - 1) loc lx
                    (single_char lx.cur single_char_token_table)
                    (record { ready = h.ready; bound = omega arith }) (omega (arith, h.bound)) c
                    (single_char-plain lx.cur single_char_token_table
                      single_char_token_table-plain))))

    get_token-Emitted :
        (f : ℕ) (lx : Lexer)
        → lx.cur_valid ≤ 2
        → left lx < f
        → Ends (Emitted (left lx)) (get_token strtod (token_table std) f lx)
    unfolding get_token
    get_token-Emitted f lx v fuel =
        let lx1 = cur_char lx in
        let l1 = left-cur_char lx in
        let h1 = Within-weaken l1 (Within-self lx1 (cur_char-IsReady lx v)) in
        Ends-bind (skip_loop f f lx1) (token_at strtod (token_table std) f (where_is lx1))
          (skip_loop-Ends f f (left lx) lx1 h1 (omega arith) (omega arith))
          (λ lx2 (h2, _). token_at-Emitted f (left lx) (where_is lx1) lx2 h2 fuel)

    -- From every lexer whose window holds at most two characters, with more fuel than there are
    -- bytes left, `GetToken` ends in a token: no loop runs on and no internal error is met. The
    -- lexer can be called again, no byte is given back, and at least one is taken unless the token
    -- is the end of the file or unknown.
    pub get_token-total :
        (f : ℕ) (lx : Lexer)
        → lx.cur_valid ≤ 2
        → left lx < f
        → (r : Token R × Lexer) × (get_token strtod (token_table std) f lx ≡ done r)
          × Emitted (left lx) r
    get_token-total f lx v fuel = Ends-value (get_token-Emitted f lx v fuel)
