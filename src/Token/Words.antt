-- ===== src/Token/Words.antt =====
-- Key words: the table is searched the way that the lexer and the messages need.
use lacsap.Prelude.{
  ap, ap₂, ℕ, Bool, true, false, ◌&&◌, not, List, [], ◌∷◌, some, ◌≡◌, refl, arith, all, Text,
  text_eq, strlower, Bool-cases, inl, inr, to_lower, if◌then◌else◌,
}
use mathlib.Core.List.{Mem, mem-cons, not-mem-nil}
use mathlib.Core.Logic.Or
use lacsap.Token.Enum.{TokenType, token_eq, token_eq_sound}
use lacsap.Token.Value.{carries_value}
use lacsap.Token.Table.{
  Standard, TokenEntry, token_table, find_token, key_word_to_token, find_str, has_two_underscores,
  key_word_of,
}

-- Every key word of a list is found again by its spelling.
found_again : Standard → TokenEntry → Bool
found_again std e =
    if e.is_key_word then token_eq (key_word_to_token (token_table std) e.str) e.type else true

found_again_table : (std : Standard) → all (found_again std) (token_table std) ≡ true
unfolding found_again token_eq key_word_to_token token_table
found_again_table Standard.none_std = refl
found_again_table Standard.iso7185 = refl
found_again_table Standard.iso10206 = refl

to_lower_idem : (c : ℕ) → to_lower (to_lower c) ≡ to_lower c
to_lower_idem c = ground arith

strlower_idem : (s : Text) → strlower (strlower s) ≡ strlower s
unfolding strlower
strlower_idem [] = refl
strlower_idem (c ∷ s) = ap₂ ◌∷◌ (to_lower_idem c) (strlower_idem s)

underscore-strlower : (s : Text) → has_two_underscores (strlower s) ≡ has_two_underscores s
unfolding strlower has_two_underscores
underscore-strlower [] = refl
underscore-strlower (a ∷ []) = refl
underscore-strlower (a ∷ b ∷ s) = ground arith

find_token-strlower :
    (table : List TokenEntry) (s : Text)
    → has_two_underscores s ≡ false
    → find_token (strlower s) table ≡ find_token s table
unfolding find_token
find_token-strlower table s h = rw (underscore-strlower s, h, strlower_idem s)

-- Key words are recognised whatever the case of their letters: lowering a word that does not start
-- with two underscores does not change the kind that it is given.
pub key_word-strlower :
    (std : Standard) (s : Text)
    → has_two_underscores s ≡ false
    → key_word_to_token (token_table std) (strlower s) ≡ key_word_to_token (token_table std) s
unfolding key_word_to_token
key_word-strlower std s h = ap key_word_of (find_token-strlower (token_table std) s h)

module _ {ℓ} {A : Type ℓ} (p : A → Bool) where
  all-Mem : (xs : List A) {x : A} → all p xs ≡ true → Mem x xs → p x ≡ true
  all-Mem [] h m = absurd (not-mem-nil m)
  all-Mem (y ∷ xs) h m =
      Or.elim (hlevel) (mem-cons.0 m) (λ e. rw e (ground arith)) (all-Mem xs (ground arith))

-- Every key word of the table is given its kind when the lexer meets its spelling.
pub key_word_found :
    (std : Standard) (e : TokenEntry)
    → Mem e (token_table std)
    → e.is_key_word ≡ true
    → key_word_to_token (token_table std) e.str ≡ e.type
unfolding found_again
key_word_found std e m h =
    token_eq_sound _ e.type
      (rw h at (all-Mem (found_again std) (token_table std) (found_again_table std) m))

plain_key_word : TokenEntry → Bool
plain_key_word e = not (e.is_key_word && carries_value e.type)

plain_key_words : (std : Standard) → all plain_key_word (token_table std) ≡ true
unfolding plain_key_word carries_value token_table
plain_key_words Standard.none_std = refl
plain_key_words Standard.iso7185 = refl
plain_key_words Standard.iso10206 = refl

carries_value-unknown : carries_value TokenType.unknown ≡ false
unfolding carries_value
carries_value-unknown = refl

carries_value-entry :
    (e : TokenEntry) → plain_key_word e ≡ true → carries_value (key_word_of (some e)) ≡ false
unfolding plain_key_word
carries_value-entry e h = elim (Bool-cases e.is_key_word) [
  | inl k ↦ rw k (ground arith)
  | inr k ↦ rw k carries_value-unknown
]

key_word_of-find_str :
    (s : Text) (table : List TokenEntry)
    → all plain_key_word table ≡ true
    → carries_value (key_word_of (find_str s table)) ≡ false
unfolding find_str
key_word_of-find_str s [] h = carries_value-unknown
key_word_of-find_str s (e ∷ table) h = elim (Bool-cases (text_eq s e.str)) [
  | inl eq ↦ rw eq (carries_value-entry e (ground arith))
  | inr ne ↦ rw ne (key_word_of-find_str s table (ground arith))
]

-- No key word is of a kind that carries a value.
pub carries_value-key_word :
    (std : Standard) (s : Text) → carries_value (key_word_to_token (token_table std) s) ≡ false
unfolding key_word_to_token find_token
carries_value-key_word std s =
    key_word_of-find_str (if has_two_underscores s then s else strlower s) (token_table std)
      (plain_key_words std)
