-- ===== src/Source/Lines.antt =====
-- source.cpp: the place that a source has reached: lines, columns and the starts of lines.
use lacsap.Prelude.{
  ℕ, suc, ◌+◌, ◌^◌, ◌<◌, ◌≤◌, ◌≡◌, refl, ap, ◌∙◌, arith, length-append, false, get_or, List, [],
  ◌∷◌, ◌++◌, Text, length, ◌==◌, if◌then◌else◌, Bool-cases, inl, inr,
}
use lacsap.Source.{FileSource, open_source, get, after_byte, set_start, start_of, inc32}

-- As many calls of `Get` as the text has bytes
pub read : Text → FileSource → FileSource
unfolding get
read [] s = s
read (c ∷ t) s = read t (get s).1

-- The line feeds of a text
abbrev pub line_feeds : Text → ℕ
line_feeds [] = 0
line_feeds (c ∷ t) = if c == b'\n' then suc (line_feeds t) else line_feeds t

start_of-set_start : (k v : ℕ) (m : List (ℕ × ℕ)) → start_of k (set_start k v m) ≡ v
start_of-set_start k v [] = ground arith
start_of-set_start k v ((j, w) ∷ m) = elim (Bool-cases (j == k)) [
  | inl e ↦ rw e (ground arith)
  | inr e ↦ rw (e, e) (start_of-set_start k v m)
]

-- The start of another line stays.
set_start_other :
    (j k v : ℕ) (m : List (ℕ × ℕ)) → (j == k) ≡ false → start_of k (set_start j v m) ≡ start_of k m
set_start_other j k v [] h = rw h refl
set_start_other j k v ((i, w) ∷ m) h = elim (Bool-cases (i == j)) [
  | inl e ↦ let other : (i == k) ≡ false = ground arith in rw (e, h, other) refl
  | inr e ↦ rw e (ap (λ t. if i == k then w else t) (set_start_other j k v m h))
]

-- The column counts from the start that is kept for the line.
IsPlaced : FileSource → Type 0
IsPlaced s = start_of s.line_no s.line_start + s.column ≡ s.pos + 1

after_byte-IsPlaced :
    (c : ℕ) (rest : Text) (s : FileSource)
    → s.column + 1 < 2 ^ 32
    → IsPlaced s
    → IsPlaced (after_byte c rest s)
unfolding IsPlaced after_byte
after_byte-IsPlaced c rest s h p = elim (Bool-cases (c == b'\n')) [
  | inl e ↦ rw e (rw (start_of-set_start (inc32 s.line_no) (s.pos + 1) s.line_start) refl)
  | inr e ↦ rw e (omega (arith, h, p))
]

-- One byte on
record Stepped (c : ℕ) (rest : Text) (s s' : FileSource) : Type 0 where
  left : s'.input ≡ rest
  moved : s'.pos ≡ s.pos + 1
  line : s'.line_no + line_feeds rest ≡ s.line_no + line_feeds (c ∷ rest)
  low : s'.line_no ≤ s.line_no + 1
  narrow : s'.column ≤ s.column + 1

after_byte-Stepped :
    (c : ℕ) (rest : Text) (s : FileSource)
    → s.line_no + 1 < 2 ^ 32
    → s.column + 1 < 2 ^ 32
    → Stepped c rest s (after_byte c rest s)
unfolding after_byte
after_byte-Stepped c rest s hl hc = elim (Bool-cases (c == b'\n')) [
  | inl e ↦ rw e (record {
    left = refl;
    moved = refl;
    line = rw e (omega arith);
    low = omega arith;
    narrow = omega arith;
  })
  | inr e ↦ rw e (record {
    left = refl;
    moved = refl;
    line = rw e refl;
    low = omega arith;
    narrow = omega arith;
  })
]

get-after_byte :
    (c : ℕ) (rest : Text) (s : FileSource) → s.input ≡ c ∷ rest → (get s).1 ≡ after_byte c rest s
unfolding get
get-after_byte c rest s e = rw e refl

after_byte-input : (c : ℕ) (rest : Text) (s : FileSource) → (after_byte c rest s).input ≡ rest
unfolding after_byte
after_byte-input c rest s = elim (Bool-cases (c == b'\n')) [ inl e ↦ rw e refl | inr e ↦ rw e refl ]

-- `Get` takes the first byte of those that are still to be read.
pub get-input :
    (c : ℕ) (rest : Text) (s : FileSource)
    → s.input ≡ c ∷ rest
    → ((get s).0 ≡ c) × ((get s).1.input ≡ rest)
unfolding get
get-input c rest s e = rw e (refl, after_byte-input c rest s)

line_feeds-append : (a b : Text) → line_feeds (a ++ b) ≡ line_feeds a + line_feeds b
line_feeds-append [] b = omega arith
line_feeds-append (c ∷ a) b = ground (arith, line_feeds-append a b)

after_byte-line_no :
    (c : ℕ) (rest t : Text) (s : FileSource)
    → s.line_no + 1 < 2 ^ 32
    → (after_byte c rest s).line_no + line_feeds t ≡ s.line_no + line_feeds (c ∷ t)
unfolding after_byte
after_byte-line_no c rest t s h = elim (Bool-cases (c == b'\n')) [
  | inl e ↦ rw e (omega arith)
  | inr e ↦ rw e refl
]

-- The starts of the lines up to the present one are kept, and a line feed adds the next.
after_byte-kept :
    (c : ℕ) (rest : Text) (s : FileSource) (k : ℕ)
    → s.line_no + 1 < 2 ^ 32
    → k ≤ s.line_no
    → start_of k (after_byte c rest s).line_start ≡ start_of k s.line_start
unfolding after_byte
after_byte-kept c rest s k h le = elim (Bool-cases (c == b'\n')) [
  | inl e ↦ rw e (set_start_other (inc32 s.line_no) k (s.pos + 1) s.line_start (ground arith))
  | inr e ↦ rw e refl
]

after_byte-start :
    (rest : Text) (s : FileSource)
    → s.line_no + 1 < 2 ^ 32
    → start_of (s.line_no + 1) (after_byte b'\n' rest s).line_start ≡ s.pos + 1
unfolding after_byte
after_byte-start rest s h =
    let e : inc32 s.line_no ≡ s.line_no + 1 = omega arith in
    rw e (start_of-set_start (s.line_no + 1) (s.pos + 1) s.line_start)

after_byte-pos : (c : ℕ) (rest : Text) (s : FileSource) → (after_byte c rest s).pos ≡ s.pos + 1
unfolding after_byte
after_byte-pos c rest s = elim (Bool-cases (c == b'\n')) [ inl e ↦ rw e refl | inr e ↦ rw e refl ]

abbrev rest_of : Text → Text
rest_of [] = []
rest_of (c ∷ t) = t

-- What reading a text, with another after it, leads to
pub record Placed (a b : Text) (from : FileSource) (s : FileSource) : Type 0 where
  pub input : s.input ≡ b
  pub pos : s.pos ≡ from.pos + length a
  pub line : s.line_no ≡ from.line_no + line_feeds a
  pub place : start_of s.line_no s.line_start + s.column ≡ s.pos + 1
  pub kept : (k : ℕ) → k ≤ from.line_no → start_of k s.line_start ≡ start_of k from.line_start
  -- The line after each line feed of the text starts right after it.
  pub starts :
      (p q : Text)
      → a ≡ p ++ b'\n' ∷ q
      → start_of (from.line_no + line_feeds p + 1) s.line_start ≡ from.pos + length p + 1

next_start :
    (c : ℕ) (a b : Text) (s s' : FileSource)
    → s.line_no + 1 < 2 ^ 32
    → Placed a b (after_byte c (a ++ b) s) s'
    → (p q : Text) → c ∷ a ≡ p ++ b'\n' ∷ q
    → start_of (s.line_no + line_feeds p + 1) s'.line_start ≡ s.pos + length p + 1
next_start c a b s s' hl r [] q h =
    let same : c ≡ b'\n' = ap (λ t. get_or t 0 0) h in
    let r' : Placed a b (after_byte b'\n' (a ++ b) s) s' = rw same at r in
    let line = after_byte-line_no b'\n' (a ++ b) [] s hl in
    let here : s.line_no + 0 + 1 ≡ s.line_no + 1 = omega arith in
    ap (λ k. start_of k s'.line_start) here
    ∙ (r'.kept (s.line_no + 1) (omega (arith, line))
        ∙ (after_byte-start (a ++ b) s hl ∙ omega arith))
next_start c a b s s' hl r (d ∷ p) q h =
    let same : c ≡ d = ap (λ t. get_or t 0 0) h in
    let moved = (after_byte-pos c (a ++ b) s) in
    let place : s.line_no + line_feeds (d ∷ p) + 1
        ≡ (after_byte c (a ++ b) s).line_no + line_feeds p + 1 =
      omega
        (arith, same, after_byte-line_no c (a ++ b) p s hl, ap (λ x. line_feeds (x ∷ p)) same) in
    ap (λ k. start_of k s'.line_start) place ∙ (r.starts p q (ap rest_of h) ∙ omega (arith, moved))

read-Placed :
    (a b : Text) (s : FileSource)
    → s.input ≡ a ++ b
    → s.line_no + length a < 2 ^ 32
    → s.column + length a < 2 ^ 32
    → IsPlaced s
    → Placed a b s (read a s)
unfolding read IsPlaced
read-Placed [] b s e hl hc p = record {
  input = e;
  pos = omega arith;
  line = omega arith;
  place = p;
  kept = λ k le. refl;
  starts = λ p q h. absurd (omega (arith, ap length h, length-append p (b'\n' ∷ q)));
}
read-Placed (c ∷ a) b s e hl hc p =
    let s1 = after_byte c (a ++ b) s in
    let st = after_byte-Stepped c (a ++ b) s (omega arith) (omega arith) in
    let r =
      read-Placed a b s1 st.left (omega (arith, st.low)) (omega (arith, st.narrow))
        (after_byte-IsPlaced c (a ++ b) s (omega arith) p) in
    rw (get-after_byte c (a ++ b) s e) (record {
      input = r.input;
      pos = omega (arith, r.pos, st.moved);
      line = omega (arith, r.line, st.line, line_feeds-append (c ∷ a) b, line_feeds-append a b);
      place = r.place;
      kept = λ k le.
          r.kept k (omega (arith, after_byte-line_no c (a ++ b) [] s (omega arith)))
          ∙ after_byte-kept c (a ++ b) s k (omega arith) le;
      starts = λ p q h. next_start c a b s (read a s1) (omega arith) r p q h;
    })

-- After the bytes `a` of a file that is shorter than 2^32 - 1 bytes, the rest is still to be read,
-- the line is one more than the line feeds of `a`, the start that is kept for the first line is 0
-- and that for the line after a line feed is the place right after that line feed, and the column
-- is one more than the distance of the position from the start of the line.
pub read-open_source :
    (name a b : Text)
    → length a + 1 < 2 ^ 32
    → Placed a b (open_source name (a ++ b)) (read a (open_source name (a ++ b)))
unfolding open_source IsPlaced
read-open_source name a b h =
    read-Placed a b (open_source name (a ++ b)) refl (omega arith) (omega arith) (omega arith)
