-- ===== src/Tests/SemanticsExamples.antt =====
-- The theorems on the checks of types at concrete inputs.
use lacsap.Prelude.{true, false, some, none, [], ◌∷◌, ◌≡◌, ◌↔◌, refl, get_or, if◌then◌else◌, leb}
use lacsap.Prelude.Int.{pos, leb_ℤ}
use lacsap.Outcome.{done}
use lacsap.Token.{TokenType}
use lacsap.Types.Node.{Heap, integer_decl, real_decl, range_decl}
use lacsap.Types.Compatible.Numeric.{integer, real}
use lacsap.Semantics.State.{integer_expr, other_expr, Sema, Known}
use lacsap.Semantics.Check.{check_binary}
use lacsap.Semantics.Check.Numbers.{plus, GivesType, check_binary-IsNumber}
use lacsap.Semantics.Statements.{
  check_case, check_init_array, check_index_range, single_init, range_init,
}
use lacsap.Semantics.Statements.Labels.{AllDiffer, all_labels, check_case-AllDiffer}
use lacsap.Types.Node.{tk_integer, type_of}
use lacsap.Types.Compatible.{is_integral}
use lacsap.Semantics.Assign.{check_assign}
use lacsap.Semantics.Assign.Ranges.{check_assign-range}

-- Integer at 1, Real at 2, and the range 1..10 at 3
abbrev objects : Heap
objects p =
    get_or
      (none
        ∷ some integer_decl
        ∷ some real_decl
        ∷ some (range_decl (record { start = pos 1; last = pos 10 }) 1)
        ∷ [])
      p none

abbrev before : Sema
before = record { heap = objects; next = 4; errors = 0 }

abbrev known : Known
known = record {
  integer_type = 1;
  real_type = 2;
  complex_type = 0;
  boolean_type = 0;
  string_type = 0;
}

check_binary-IsNumber_example :
    GivesType 1
      (λ _. 4)
      known
      (other_expr 1)
      (other_expr 2)
      before
      (check_binary 2 (λ _. 4) known TokenType.plus (other_expr 1) (other_expr 2) before)
      (if leb 2 0 then 1 else 2)
check_binary-IsNumber_example =
    check_binary-IsNumber 0 (λ _. 4) known TokenType.plus (other_expr 1) (other_expr 2) before plus
      refl refl integer real

check_assign-range_example :
    (s' : Sema) × (check_assign 1
        (λ _. 4)
        known
        (some false)
        (other_expr 3)
        (integer_expr 1 (pos 11))
        before
      ≡ done (integer_expr 1 (pos 11), s'))
    × ((s'.errors ≡ 0) ↔ ((leb_ℤ (pos 1) (pos 11) ≡ true) × (leb_ℤ (pos 11) (pos 10) ≡ true)))
check_assign-range_example =
    check_assign-range 0 (λ _. 4) known (other_expr 3) 1 1 (pos 11)
      (record { start = pos 1; last = pos 10 }) integer_decl before refl refl

-- The labels 1..5 and 3, of two branches
check_case-AllDiffer_example :
    (s' : Sema) × (check_case 1
        (λ _. 4)
        (other_expr 1)
        (((pos 1, pos 5) ∷ []) ∷ ((pos 3, pos 3) ∷ []) ∷ [])
        before
      ≡ done s')
    × ((s'.errors ≡ 0)
        ↔ AllDiffer (all_labels (((pos 1, pos 5) ∷ []) ∷ ((pos 3, pos 3) ∷ []) ∷ [])))
check_case-AllDiffer_example =
    check_case-AllDiffer 1 (λ _. 4) (other_expr 1)
      (((pos 1, pos 5) ∷ []) ∷ ((pos 3, pos 3) ∷ []) ∷ []) tk_integer before
      (unfold type_of in refl) (unfold is_integral in refl)

-- An index that a range has already given
duplicate_index :
    check_init_array 9 (range_init (pos 1) (pos 3) ∷ single_init (pos 2) ∷ []) false ([], before)
    ≡ done (pos 1 ∷ pos 2 ∷ pos 3 ∷ pos 2 ∷ [], record before { errors = 1 })
unfolding check_init_array check_index_range
duplicate_index = refl
