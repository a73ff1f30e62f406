-- ===== src/Runtime/Files/Handles.antt =====
-- runtime/assign.c, runtime/bind.c: the handles that files are given.
use lacsap.Prelude.{
  ℕ, zero, suc, ◌≤◌, ◌<◌, true, false, some, List, [], ◌∷◌, ◌≡◌, inl, inr, refl, ◌∙◌, if◌then◌else◌,
  Text, ◌==◌, ltb, length, get_or, arith, Bool-cases,
}
use lacsap.Outcome.{done}
use lacsap.Runtime.Strings.{String}
use lacsap.Runtime.Files.{
  FileEntry, first_free, set_entry, no_entry, assign, bind, unbind, max_pascal_files,
}

first_free-le : (fs : List FileEntry) → first_free fs ≤ length fs
unfolding first_free
first_free-le [] = omega arith
first_free-le (e ∷ es) = ground (arith, first_free-le es)

first_free-in_use :
    (fs : List FileEntry)
    → first_free fs < length fs
    → (get_or fs (first_free fs) no_entry).in_use ≡ false
unfolding first_free
first_free-in_use [] h = absurd (omega arith)
first_free-in_use (e ∷ es) h = elim (Bool-cases e.in_use) [
  | inl used ↦ rw used (first_free-in_use es (ground arith))
  | inr free ↦ rw free refl
]

first_free_least :
    (fs : List FileEntry) (i : ℕ)
    → i < length fs
    → (get_or fs i no_entry).in_use ≡ false
    → first_free fs ≤ i
unfolding first_free
first_free_least [] i lt h = absurd (omega arith)
first_free_least (e ∷ es) zero lt h = rw h (omega arith)
first_free_least (e ∷ es) (suc i) lt h = ground (arith, first_free_least es i)

-- The entries before the first free one are in use.
before_free :
    (fs : List FileEntry) (j : ℕ) → j < first_free fs → (get_or fs j no_entry).in_use ≡ true
unfolding first_free
before_free [] j lt = absurd (omega arith)
before_free (e ∷ es) zero lt = ground arith
before_free (e ∷ es) (suc j) lt = elim (Bool-cases e.in_use) [
  | inl used ↦ before_free es j (ground arith)
  | inr free ↦ absurd (ground arith)
]

get_or-set_entry :
    (fs : List FileEntry) (i j : ℕ) (x : FileEntry)
    → i < length fs
    → get_or (set_entry fs i x) j no_entry ≡ (if j == i then x else get_or fs j no_entry)
get_or-set_entry [] i j x h = absurd (omega arith)
get_or-set_entry (e ∷ es) zero zero x h = refl
get_or-set_entry (e ∷ es) zero (suc j) x h = ground arith
get_or-set_entry (e ∷ es) (suc i) zero x h = ground arith
get_or-set_entry (e ∷ es) (suc i) (suc j) x h = ground (arith, get_or-set_entry es i j x)

-- If some entry of the full table is free, `__assign` gives a file the first free one, before which
-- all are in use: that entry then has the file and its name, is in use, and has nothing read ahead; the rest of it and the
-- other entries are as before.
pub assign-in_use :
    (f : ℕ) (nm : Text) (files : List FileEntry) (free : ℕ)
    → length files ≡ max_pascal_files
    → free < length files
    → (get_or files free no_entry).in_use ≡ false
    → (i : ℕ) × (files' : List FileEntry) × (assign f nm files ≡ done (i, files'))
      × (i ≤ free)
      × ((get_or files i no_entry).in_use ≡ false)
      × ((j : ℕ) → j < i → (get_or files j no_entry).in_use ≡ true)
      × (get_or files' i no_entry ≡ record (get_or files i no_entry) {
        file_data = f;
        name = some nm;
        in_use = true;
        read_ahead = 0;
      })
      × ((j : ℕ) → (j == i) ≡ false → get_or files' j no_entry ≡ get_or files j no_entry)
unfolding assign
assign-in_use f nm files free full lt h =
    let i = first_free files in
    let least = first_free_least files free lt h in
    let below : i < length files = omega arith in
    let e₁ : (i == max_pascal_files) ≡ false = ground arith in
    let e₂ : ltb i (length files) ≡ true = ground arith in
    let x : FileEntry = record (get_or files i no_entry) {
      file_data = f;
      name = some nm;
      in_use = true;
      read_ahead = 0;
    } in
    let self : (i == i) ≡ true = ground arith in
    let there = get_or-set_entry files i i x below in
    (
      i,
      set_entry files i x,
      rw (assign, e₁, e₂) refl,
      least,
      first_free-in_use files below,
      before_free files,
      there ∙ rw self refl,
      λ j other. get_or-set_entry files i j x below ∙ rw other refl,
    )

-- `__bind` and `__unbind` change nothing for any file that has a handle.
bind_nothing :
    (handle : ℕ) (nm : String) (files : List FileEntry)
    → handle ≤ max_pascal_files
    → (bind handle nm files ≡ done files) × (unbind handle files ≡ done files)
unfolding bind unbind
bind_nothing handle nm files h = (ground arith, ground arith)
