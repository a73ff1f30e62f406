-- ===== src/Tests/ReadExamples.antt =====
-- The theorem on the bytes of a file that is read at a concrete input.
use lacsap.Prelude.{
  ℕ, zero, suc, ◌<◌, ◌≤◌, true, false, none, some, List, [], ◌∷◌, ◌++◌, ◌≡◌, refl, ap, length,
  arith,
}
use lacsap.Outcome.{done, undefined}
use lacsap.Runtime.Arrays.{take, drop}
use lacsap.Prelude.Int.{negsuc, eq_ℤ, neg_ℤ}
use lacsap.Runtime.Read.{Stdio, TextFile, get_text, init_file, init_str, open_str}
use lacsap.Runtime.Read.Readers.{readint64}
use lacsap.Runtime.Read.Buffer.{ReadsInOrder, IsBuffered}
use lacsap.Runtime.Read.Bytes.{Next, get_text-Next}

-- A stream that is the list of its bytes
list_stdio : Stdio (List ℕ)
list_stdio = record {
  fread = λ n s. (take n s, drop n s);
  fgetc = λ s. elim s [ [] ↦ (none, []) | b ∷ rest ↦ (some b, rest) ];
}

length-take_most : (n : ℕ) (s : List ℕ) → length (take n s) ≤ n
length-take_most zero s = omega arith
length-take_most (suc n) [] = omega arith
length-take_most (suc n) (b ∷ s) = omega (arith, length-take_most n s)

append-take-drop : (n : ℕ) (s : List ℕ) → s ≡ take n s ++ drop n s
append-take-drop zero s = refl
append-take-drop (suc n) [] = refl
append-take-drop (suc n) (b ∷ s) = ap (λ t. b ∷ t) (append-take-drop n s)

take-empty : (n : ℕ) (s : List ℕ) → 0 < n → take n s ≡ [] → s ≡ []
take-empty zero s h e = absurd (omega arith)
take-empty (suc n) [] h e = refl
take-empty (suc n) (b ∷ s) h e = absurd (omega (arith, ap length e))

list_stdio-ReadsInOrder : ReadsInOrder list_stdio (λ s. s)
unfolding list_stdio
list_stdio-ReadsInOrder = record {
  at_most = length-take_most;
  in_order = append-take-drop;
  none_at_end = take-empty;
}

-- A new file with the bytes of "Hi!" and a buffer of two bytes
abbrev new_file : TextFile (List ℕ)
new_file = record {
  stream = 72 ∷ 105 ∷ 33 ∷ [];
  interactive = false;
  record_size = 2;
  buffer = 0 ∷ 0 ∷ [];
  read_ahead = false;
  read_pos = 0;
  buffer_size = 0;
}

new_file-IsBuffered : IsBuffered new_file
new_file-IsBuffered = record {
  batch = refl;
  whole = refl;
  room = omega arith;
  filled = omega arith;
  reached = omega arith;
  started = λ e. e;
}

get_text-Next_example : Next list_stdio (λ s. s) (72 ∷ 105 ∷ 33 ∷ []) (get_text list_stdio new_file)
get_text-Next_example =
    get_text-Next list_stdio (λ s. s) list_stdio-ReadsInOrder new_file new_file-IsBuffered
      (omega arith)

-- The byte 255 is taken for the end, with bytes left.
byte_255 :
    get_text list_stdio (record new_file { stream = 255 ∷ 33 ∷ [] })
    ≡ done (
      false,
      record new_file { stream = []; buffer = 255 ∷ 33 ∷ []; read_pos = 1; buffer_size = 2 },
    )
unfolding list_stdio get_text
byte_255 = refl

-- The bytes of " -42" and a line feed, through the file
minus_42 :
    elim (readint64
      (init_file list_stdio)
      10
      (record new_file { stream = 32 ∷ 45 ∷ 52 ∷ 50 ∷ 10 ∷ [] })) [
        | done (v, f) ↦ eq_ℤ v (negsuc 41)
        | _ ↦ false
      ]
    ≡ true
unfolding list_stdio get_text readint64 init_file neg_ℤ
minus_42 = refl

-- A string whose array holds a digit after its end: `fngetnext` of a string is not 0 there, and the
-- loop of `readint64` takes it again and again, until its sum overflows.
stale_digit : readint64 init_str 100 (open_str (record { len = 1; str = 49 ∷ 50 ∷ [] })) ≡ undefined
unfolding init_str readint64
stale_digit = refl
