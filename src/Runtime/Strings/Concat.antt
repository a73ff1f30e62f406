-- ===== src/Runtime/Strings/Concat.antt =====
-- runtime/string.c: joining, copying and assigning strings.
use lacsap.Prelude.{
  ℕ, zero, suc, ◌⊎◌, ◌+◌, ◌-◌, ◌≤◌, ◌++◌, ◌≡◌, refl, ap, ◌∙◌, sym, Bool-cases, inl, inr, false, ltb,
  length, length-append, Text, arith, if◌then◌else◌,
}
use lacsap.Prelude.Int.{pos}
use lacsap.Outcome.{done}
use lacsap.Runtime.Arrays.{
  take, drop, memcpy, memcpy_lem, take-append, take-length, length-take, take-take, take-take_short,
  drop-take, memcpy_none,
}
use lacsap.Runtime.Strings.{String, text, str_concat, str_assign, str_copy, copy_len, zeros}

-- The array has 256 bytes, and the length is a byte.
abbrev pub IsString : String → Type 0
IsString s = (length s.str ≡ 256) × (s.len ≤ 255)

-- The text that a join comes to, cut at 255 bytes or whole
pub length-text : (s : String) → IsString s → length (text s) ≡ s.len
unfolding text
length-text s h = length-take s.len s.str (omega arith)

-- Two copies, one after the other, hold the two texts.
copy_twice :
    (dst a b : Text) (m n : ℕ)
    → m + n ≤ length dst
    → m ≤ length a
    → n ≤ length b
    → (d₁ d : Text) × (memcpy dst 0 a 0 m ≡ done d₁)
      × (memcpy d₁ m b 0 n ≡ done d)
      × (length d ≡ length dst)
      × (take (m + n) d ≡ take m a ++ take n b)
copy_twice dst a b m n hd ha hb =
    let (d₁, e₁, l₁, t₁) = memcpy_lem dst 0 a 0 m (omega arith) (omega arith) in
    let (d₂, e₂, l₂, t₂) = memcpy_lem d₁ m b 0 n (omega arith) (omega arith) in
    let z : take m d₁ ≡ take m a = ap (λ k. take k d₁) (omega arith) ∙ t₁ in
    (d₁, d₂, e₁, e₂, l₂ ∙ l₁, t₂ ∙ ap (λ t. t ++ take n b) z)

-- The join of two strings is defined, is a string again, and its text is the text of the one and
-- then of the other, cut at 255 bytes.
pub str_concat-append :
    (res a b : String)
    → IsString res
    → IsString a
    → IsString b
    → (r : String) × (str_concat res a b ≡ done r)
      × IsString r
      × (text r ≡ take 255 (text a ++ text b))
unfolding str_concat text
str_concat-append res a b hr ha hb =
    let la : length (text a) ≡ a.len = length-text a ha in
    let lb : length (text b) ≡ b.len = length-text b hb in
    elim (Bool-cases (ltb 255 (a.len + b.len))) [
      | inl over ↦
          let k : ℕ = 255 - a.len in
          let (d₁, d, e₁, e, l, t) =
            copy_twice res.str a.str b.str a.len k (omega arith) (omega arith) (omega arith) in
          let whole : a.len + k ≡ 255 = omega arith in
          (
            record { len = 255; str = d },
            rw (over, e₁, e) refl,
            (omega arith, omega arith),
            rw (← whole) (
                t
                ∙ ap (λ u. text a ++ u) (sym (take-take k b.len b.str (ground arith)))
                ∙ sym (take-append a.len k (text a) (text b) la)),
          )
      | inr fits ↦
          let (d₁, d, e₁, e, l, t) =
            copy_twice res.str a.str b.str a.len b.len (ground arith) (omega arith) (omega arith) in
          (
            record { len = a.len + b.len; str = d },
            rw (fits, e₁, e) refl,
            (omega arith, ground arith),
            t
                ∙ sym (
                    take-length 255 (text a ++ text b)
                      (ground (arith, length-append (text a) (text b)))),
          )
    ]

-- An assignment is defined and gives a string with the text of the right-hand side.
pub str_assign-text :
    (a b : String)
    → IsString a
    → IsString b
    → (r : String) × (str_assign a b ≡ done r) × IsString r × (text r ≡ text b)
unfolding str_assign text
str_assign-text a b ha hb =
    let (d, e, l, t) = memcpy_lem a.str 0 b.str 0 b.len (omega arith) (omega arith) in
    (
      record { len = b.len; str = d },
      rw e refl,
      (omega arith, omega arith),
      ap (λ k. take k d) (omega arith) ∙ t,
    )

-- The length of a copy is the smaller of what is asked for and what is there.
copy_len_cases :
    (slen k len : ℕ)
    → ((copy_len slen (suc k) len ≡ len) × (len ≤ slen - k))
      ⊎ ((copy_len slen (suc k) len ≡ slen - k) × (slen - k ≤ len))
copy_len_cases slen k len = ground arith

take-copy_len :
    (slen k len : ℕ) (xs : Text)
    → take (copy_len slen (suc k) len) (drop k xs) ≡ take len (drop k (take slen xs))
take-copy_len slen k len xs = elim (copy_len_cases slen k len) [
  | inl (e, h) ↦ rw (e, drop-take k slen xs) (sym (take-take len (slen - k) (drop k xs) h))
  | inr (e, h) ↦ rw (e, drop-take k slen xs) (sym (take-take_short len (slen - k) (drop k xs) h))
]

-- A copy to a new array, which may be empty and start anywhere
copy_bytes :
    (str : Text) (k n : ℕ)
    → length str ≡ 256
    → n ≤ 256 - k
    → (d : Text) × (memcpy (zeros 256) 0 str (suc k - 1) n ≡ done d)
      × (length d ≡ 256)
      × (take n d ≡ take n (drop k str))
copy_bytes str k zero h small = (zeros 256, memcpy_none (zeros 256) 0 str (suc k - 1), refl, refl)
copy_bytes str k (suc n) h small =
    let (d, e, l, t) =
      memcpy_lem (zeros 256) 0 str (suc k - 1) (suc n) (omega arith) (omega arith) in
    let all : suc n ≡ 0 + suc n = omega arith in
    let place : suc k - 1 ≡ k = omega arith in
    (d, e, l, ap (λ m. take m d) all ∙ t ∙ ap (λ m. take (suc n) (drop m str)) place)

-- `copy (s, start, len)` with a start from 1 and a length from 0 whose sum is an int: it is
-- defined, and its text is at most len bytes of the text of s from the place start, fewer or none
-- where the text ends before.
pub str_copy-take :
    (s : String) (k len : ℕ)
    → IsString s
    → suc k + len ≤ 0x7fff_ffff
    → (r : String) × (str_copy s (pos (suc k)) (pos len) ≡ done r)
      × IsString r
      × (text r ≡ take len (drop k (text s)))
unfolding str_copy text
str_copy-take s k len hs fits =
    let small : ltb 0x7fff_ffff (suc k + (if ltb s.len (suc k) then 0 else len)) ≡ false =
      ground arith in
    let n : ℕ = copy_len s.len (suc k) len in
    let within : n ≤ s.len - k = ground (arith, copy_len_cases s.len k len) in
    let (d, e, l, t) = copy_bytes s.str k n (omega arith) (omega arith) in
    (
      record { len = n; str = d },
      rw (small, e) refl,
      (l, omega arith),
      t ∙ take-copy_len s.len k len s.str,
    )
