-- ===== src/Runtime/Read/Buffer.antt =====
-- runtime/read.c: the buffer of a text file that is read, and the bytes that are left of the file.
use lacsap.Prelude.{
  ℕ, zero, suc, ◌-◌, ◌<◌, ◌≤◌, true, false, List, [], ◌∷◌, ◌++◌, ◌≡◌, refl, ap, ◌==◌, ltb, length,
  get_or, Bool-cases, inl, inr, arith,
}
use lacsap.Prelude.Int.{eq_ℤ}
use lacsap.Runtime.Arrays.{take, drop}
use lacsap.Runtime.Read.{Stdio, TextFile, eof, signed_char, byte_of}

pub byte_of-signed_char : (b : ℕ) → b < 256 → byte_of (signed_char b) ≡ b
byte_of-signed_char b h = elim (Bool-cases (ltb b 128)) [
  | inl low ↦ ground arith
  | inr high ↦ ground arith
]

pub eof-signed_char : (b : ℕ) → b < 256 → eq_ℤ (signed_char b) eof ≡ (b == 255)
eof-signed_char b h = elim (Bool-cases (ltb b 128)) [
  | inl low ↦ ground arith
  | inr high ↦ ground arith
]

pub eq-true : {a b : ℕ} → a ≡ b → (a == b) ≡ true
eq-true h = ground arith

pub eq-false : {a b : ℕ} → a < b → (a == b) ≡ false
eq-false h = ground arith

pub ltb-true : {a b : ℕ} → a < b → ltb a b ≡ true
ltb-true h = ground arith

-- The next byte, and what follows it
pub take-drop-next :
    (k i : ℕ) (bs : List ℕ)
    → i < length bs
    → take (suc k) (drop i bs) ≡ get_or bs i 0 ∷ take k (drop (suc i) bs)
take-drop-next k i [] h = absurd (omega arith)
take-drop-next k zero (b ∷ bs) h = refl
take-drop-next k (suc i) (b ∷ bs) h = take-drop-next k i bs (omega arith)

pub drop-first : (n x y : ℕ) (bs : List ℕ) → 0 < n → drop n (x ∷ bs) ≡ drop n (y ∷ bs)
drop-first zero x y bs h = absurd (omega arith)
drop-first (suc n) x y bs h = refl

pub front : (bs : List ℕ) → 0 < length bs → (x : ℕ) × (rest : List ℕ) × (bs ≡ x ∷ rest)
front [] h = absurd (omega arith)
front (x ∷ rest) h = (x, rest, refl)

pub take-length-++ : (xs ys : List ℕ) → take (length xs) (xs ++ ys) ≡ xs
take-length-++ [] ys = refl
take-length-++ (x ∷ xs) ys = ap (λ t. x ∷ t) (take-length-++ xs ys)

-- A part that is written over the front of an array leaves the length.
pub length-over :
    (xs ys : List ℕ) → length xs ≤ length ys → length (xs ++ drop (length xs) ys) ≡ length ys
length-over [] ys h = refl
length-over (x ∷ xs) [] h = absurd (omega arith)
length-over (x ∷ xs) (y ∷ ys) h = ap suc (length-over xs ys (omega arith))

-- The stream gives its contents in order, at most as many bytes as asked, and none at the end only.
pub record ReadsInOrder {Stream : Type 0} (io : Stdio Stream) (contents : Stream → List ℕ)
    : Type 0 where
  pub at_most : (n : ℕ) (s : Stream) → length (io.fread n s).0 ≤ n
  pub in_order : (n : ℕ) (s : Stream) → contents s ≡ (io.fread n s).0 ++ contents (io.fread n s).1
  pub none_at_end : (n : ℕ) (s : Stream) → 0 < n → (io.fread n s).0 ≡ [] → contents s ≡ []

-- A file that is read through a buffer of `record_size` bytes
pub record IsBuffered {Stream : Type 0} (f : TextFile Stream) : Type 0 where
  pub batch : f.interactive ≡ false
  pub whole : length f.buffer ≡ f.record_size
  pub room : 0 < f.record_size
  pub filled : f.buffer_size ≤ f.record_size
  pub reached : f.read_pos ≤ f.buffer_size
  pub started : f.read_pos ≡ 0 → f.buffer_size ≡ 0

-- The bytes that are not read yet
abbrev pub pending : {Stream : Type 0} → (Stream → List ℕ) → TextFile Stream → List ℕ
pending contents f =
    take (f.buffer_size - f.read_pos) (drop f.read_pos f.buffer) ++ contents f.stream
