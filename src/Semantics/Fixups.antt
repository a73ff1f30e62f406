-- ===== src/Semantics/Fixups.antt =====
-- semantics.cpp: the check of sets, and the queue of what is done after the walk over the tree.
use lacsap.Prelude.{ℕ, List, [], ◌∷◌, ◌++◌, none, some, if◌then◌else◌, ◌==◌}
use lacsap.Outcome.{Outcome, done, ◌>>=◌}
use lacsap.Semantics.State.{Sema, get_range, get_range_decl, update_range, set_base}

-- `SetRangeFixup`: the type of the set, and the guessed range, 0 for a null pointer
pub record SetRangeFixup : Type 0 where
  pub set_type : ℕ
  pub guess_range : ℕ

module _ (n : ℕ) where
  -- `Check<SetExprAST>`, with `fixups` of `Semantics`
  unfoldable pub check_set : ℕ → List SetRangeFixup → Sema → Outcome (List SetRangeFixup × Sema)
  unfolding get_range get_range_decl set_base
  check_set ty fixups s = do
    r ← get_range n s.heap ty
    elim r [
      | some range ↦ done (fixups, s)
      | none ↦ (do
        (guess, s₁) ← get_range_decl n ty s
        b ← set_base s₁.heap ty
        done (
          if b == 0 then fixups else fixups ++ record { set_type = ty; guess_range = guess } ∷ [],
          s₁,
        ))
    ]

  -- `SetRangeFixup::DoIt`
  unfoldable pub do_fixup : SetRangeFixup → Sema → Outcome Sema
  unfolding get_range update_range
  do_fixup f s = do
    r ← get_range n s.heap f.set_type
    elim r [ some range ↦ done s | none ↦ update_range f.set_type f.guess_range s ]

  -- `RunFixups`
  unfoldable pub run_fixups : List SetRangeFixup → Sema → Outcome Sema
  unfolding do_fixup
  run_fixups [] s = done s
  run_fixups (f ∷ fs) s = do_fixup f s >>= run_fixups fs
