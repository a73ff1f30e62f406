-- ===== src/Runtime/Files.antt =====
-- runtime/assign.c, runtime/bind.c, runtime/runtime.h: the table of files. Streams, buffers and the
-- addresses of files are numbers, a handle is not negative, and `malloc` does not fail.
pub mod Handles
pub mod Names
use lacsap.Prelude.{
  ℕ, zero, suc, ◌+◌, ◌-◌, ◌/◌, ◌%◌, Bool, true, false, not, ◌&&◌, ◌||◌, Option, none, some, List,
  [], ◌∷◌, ◌++◌, if◌then◌else◌, Text, codes, ◌==◌, ltb, length, get_or,
}
use lacsap.Outcome.{Outcome, done, ice, undefined, exited, ◌>>=◌}
use lacsap.Runtime.Arrays.{take}
use lacsap.Runtime.Strings.{String, text}

-- `MaxPascalFiles`
abbrev pub max_pascal_files : ℕ
max_pascal_files = 1000

-- `FileEntry`
pub record FileEntry : Type 0 where
  pub file_data : ℕ
  pub stream : Option ℕ
  pub name : Option Text
  pub in_use : Bool
  pub read_ahead : ℕ
  pub read_pos : ℕ
  pub buffer_size : ℕ

-- The loop of `__assign`: the first entry that is not in use, or the number of entries
unfoldable pub first_free : List FileEntry → ℕ
first_free [] = 0
first_free (e ∷ es) = let rest = first_free es in if e.in_use then suc rest else 0

-- `files[i] = …`
abbrev pub set_entry : List FileEntry → ℕ → FileEntry → List FileEntry
set_entry [] i x = []
set_entry (e ∷ es) zero x = x ∷ es
set_entry (e ∷ es) (suc i) x = e ∷ set_entry es i x

abbrev pub no_entry : FileEntry
no_entry = record {
  file_data = 0;
  stream = none;
  name = none;
  in_use = false;
  read_ahead = 0;
  read_pos = 0;
  buffer_size = 0;
}

-- `__assign` of the file at the address f: the handle that it is given, and the table
unfoldable pub assign : ℕ → Text → List FileEntry → Outcome (ℕ × List FileEntry)
unfolding first_free
assign f nm files =
    let i = first_free files in
    let e = get_or files i no_entry in
    if i == max_pascal_files
    then exited
    else (if ltb i (length files)
        then done (
          i,
          set_entry files i
              (record e { file_data = f; name = some nm; in_use = true; read_ahead = 0 }),
        )
        else undefined)

-- The loop of `__assign_unnamed` over the last digits of the name, from the last one: the digits,
-- and what is left of the number
unfoldable pub name_digits : ℕ → ℕ → Text × ℕ
name_digits zero n = ([], n)
name_digits (suc k) n =
    let (digits, rest) = name_digits k (n / 10) in (digits ++ (b'0' + n % 10) ∷ [], rest)

-- `__assign_unnamed`: also the `static int n`, which the loop divides
unfoldable pub assign_unnamed : ℕ → ℕ → List FileEntry → Outcome (ℕ × List FileEntry × ℕ)
unfolding assign name_digits
assign_unnamed f n files =
    let (digits, rest) = name_digits 6 (suc n % max_pascal_files) in
    do
      (handle, files') ← assign f (codes "lacsap_tmp_file_" ++ digits) files
      done (handle, files', rest)

-- `f->handle > 0 && f->handle > MaxPascalFiles`
abbrev pub bind_guard : ℕ → Bool
bind_guard handle = ltb 0 handle && ltb max_pascal_files handle

-- A write to `files[handle].name`, undefined past the end of the table
abbrev pub set_name : ℕ → Option Text → List FileEntry → Outcome (List FileEntry)
set_name handle nm files =
    if ltb handle (length files)
    then done (set_entry files handle (record (get_or files handle no_entry) { name = nm }))
    else undefined

-- `__bind`
unfoldable pub bind : ℕ → String → List FileEntry → Outcome (List FileEntry)
unfolding text
bind handle nm files =
    if bind_guard handle then set_name handle (some (text nm)) files else done files

-- `__unbind`
unfoldable pub unbind : ℕ → List FileEntry → Outcome (List FileEntry)
unbind handle files = if bind_guard handle then set_name handle none files else done files

-- The part of `__binding` that copies the name, of fewer than 255 bytes by an `assert`
abbrev pub bound_name : Option Text → Outcome (Option Text)
bound_name none = done none
bound_name (some nm) = if ltb (length nm) 255 then done (some nm) else ice

-- `__binding`: the name, if the file is bound
unfoldable pub binding : ℕ → List FileEntry → Outcome (Option Text)
binding handle files =
    if ltb 0 handle && ltb handle max_pascal_files
    then (if ltb handle (length files)
        then bound_name ((get_or files handle no_entry).name)
        else undefined)
    else done none
