-- ===== src/Runtime/Files/Names.antt =====
-- runtime/assign.c: the names of unnamed files.
use lacsap.Prelude.{ℕ, suc, ◌%◌, ◌<◌, List, ◌++◌, ◌≡◌, refl, codes, arith}
use lacsap.Outcome.{done, bind-done, ◌>>=◌}
use lacsap.Runtime.Files.{FileEntry, assign, assign_unnamed, name_digits, max_pascal_files}

name_digits_rest : (n : ℕ) → n < 1000 → (name_digits 6 n).1 ≡ 0
unfolding name_digits
name_digits_rest n h = omega arith

-- `__assign_unnamed` leaves its count at 0, since it divides the count itself into digits: after a
-- call that succeeds, another call is `__assign` of the one name "lacsap_tmp_file_000001", and
-- leaves 0 again.
pub assign_unnamed_again :
    (f g n h c : ℕ) (files files' : List FileEntry)
    → assign_unnamed f n files ≡ done (h, files', c)
    → assign_unnamed g c files'
      ≡ (assign g (codes "lacsap_tmp_file_000001") files' >>= λ r. done (r.0, r.1, 0))
unfolding assign_unnamed name_digits
assign_unnamed_again f g n h c files files' e =
    let (r, a, b) =
      bind-done
        (assign f (codes "lacsap_tmp_file_" ++ (name_digits 6 (suc n % max_pascal_files)).0) files)
        (λ r. done (r.0, r.1, (name_digits 6 (suc n % max_pascal_files)).1)) (h, files', c) e in
    let small : suc n % max_pascal_files < 1000 = omega arith in
    let zero_count : c ≡ 0 = cc (b, name_digits_rest (suc n % max_pascal_files) small) in
    rw zero_count refl
