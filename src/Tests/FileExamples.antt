-- ===== src/Tests/FileExamples.antt =====
-- The theorems on the table of files of the runtime at concrete inputs.
use lacsap.Prelude.{
  ℕ, zero, suc, ◌≤◌, ◌<◌, true, false, some, List, [], ◌∷◌, ◌≡◌, refl, ap, arith, codes, length,
  get_or, ◌==◌,
}
use lacsap.Outcome.{done, ◌>>=◌}
use lacsap.Runtime.Files.{
  FileEntry, no_entry, assign, assign_unnamed, name_digits, first_free, binding, max_pascal_files,
}
use lacsap.Runtime.Files.Handles.{assign-in_use}
use lacsap.Runtime.Files.Names.{assign_unnamed_again}

abbrev free_entries : ℕ → List FileEntry
free_entries zero = []
free_entries (suc n) = no_entry ∷ free_entries n

length-free_entries : (n : ℕ) → length (free_entries n) ≡ n
length-free_entries zero = refl
length-free_entries (suc n) = ap suc (length-free_entries n)

-- A table in which only the first entry is in use
abbrev one_used : List FileEntry
one_used = record no_entry { in_use = true; name = some (codes "input") } ∷ free_entries 999

one_used_full : length one_used ≡ max_pascal_files
one_used_full = ap suc (length-free_entries 999)

assign-in_use_example :
    (i : ℕ) × (files' : List FileEntry) × (assign 64 (codes "out") one_used ≡ done (i, files'))
    × (i ≤ 3)
    × ((get_or one_used i no_entry).in_use ≡ false)
    × ((j : ℕ) → j < i → (get_or one_used j no_entry).in_use ≡ true)
    × (get_or files' i no_entry ≡ record (get_or one_used i no_entry) {
      file_data = 64;
      name = some (codes "out");
      in_use = true;
      read_ahead = 0;
    })
    × ((j : ℕ) → (j == i) ≡ false → get_or files' j no_entry ≡ get_or one_used j no_entry)
assign-in_use_example =
    assign-in_use 64 (codes "out") one_used 3 one_used_full (omega (arith, one_used_full)) refl

name_of_first :
    binding 1 (no_entry ∷ record no_entry { name = some (codes "out") } ∷ [])
    ≡ done (some (codes "out"))
unfolding binding
name_of_first = refl

-- A table of two entries
abbrev two_entries : List FileEntry
two_entries = no_entry ∷ no_entry ∷ []

abbrev first_taken : List FileEntry
first_taken =
    record no_entry { file_data = 64; in_use = true; name = some (codes "lacsap_tmp_file_000001") }
    ∷ no_entry
    ∷ []

takes_first : assign_unnamed 64 0 two_entries ≡ done (0, first_taken, 0)
unfolding assign_unnamed assign first_free name_digits
takes_first = refl

assign_unnamed_again_example :
    assign_unnamed 80 0 first_taken
    ≡ (assign 80 (codes "lacsap_tmp_file_000001") first_taken >>= λ r. done (r.0, r.1, 0))
assign_unnamed_again_example = assign_unnamed_again 64 80 0 0 0 two_entries first_taken takes_first
