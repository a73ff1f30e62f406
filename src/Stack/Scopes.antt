-- ===== src/Stack/Scopes.antt =====
-- stack.h: sequences of operations in which levels nest, as `StackWrapper` has it, whose
-- destructor drops the level that its constructor opened.
use lacsap.Prelude.{
  Bool, List, [], ◌∷◌, ◌++◌, Option, none, some, ◌≡◌, refl, Text, Option-cases, inl, inr,
}
use lacsap.Stack.{Level, Stack, new_level, drop_level, add, insert, lower_if_needed}

-- The operations that change the table
pub data Op {ℓ} (T : Type ℓ) : Type ℓ where
  new_op : Op T
  drop_op : Op T
  add_op : Text → T → Op T

module _ {ℓ} {T : Type ℓ} where
  abbrev pub without_answer : Option (Bool × Stack T) → Option (Stack T)
  without_answer none = none
  without_answer (some (_, s)) = some s

  -- One operation; the answer of `Add` is not kept.
  unfoldable pub apply_op : Bool → Op T → Stack T → Option (Stack T)
  apply_op ci new_op s = some (new_level s)
  apply_op ci drop_op s = drop_level s
  apply_op ci (add_op n v) s = without_answer (add ci n v s)

  abbrev pub then_run : Option (Stack T) → (Stack T → Option (Stack T)) → Option (Stack T)
  then_run none k = none
  then_run (some s) k = k s

  pub run_ops : Bool → List (Op T) → Stack T → Option (Stack T)
  run_ops ci [] s = some s
  run_ops ci (o ∷ os) s = then_run (apply_op ci o s) (run_ops ci os)

  run_ops-append :
      (ci : Bool) (xs ys : List (Op T)) (s : Stack T)
      → run_ops ci (xs ++ ys) s ≡ then_run (run_ops ci xs s) (run_ops ci ys)
  unfolding run_ops
  run_ops-append ci [] ys s = refl
  run_ops-append ci (x ∷ xs) ys s = elim (Option-cases (apply_op ci x s)) [
    | inl e ↦ rw e refl
    | inr (t, e) ↦ rw e (run_ops-append ci xs ys t)
  ]

-- Operations in which every level that is opened is dropped again.
pub data IsNested {ℓ} {T : Type ℓ} : List (Op T) → Type ℓ where
  done : IsNested []
  adds : {os : List (Op T)} (n : Text) (v : T) → IsNested os → IsNested (add_op n v ∷ os)
  block :
      {os : List (Op T)} (inner : List (Op T))
      → IsNested inner
      → IsNested os
      → IsNested (new_op ∷ (inner ++ drop_op ∷ os))

module _ {ℓ} {T : Type ℓ} where
  -- A nested run ends, and touches no level but the innermost.
  nested_run :
      (ci : Bool) {os : List (Op T)} (m : Level T) (s : Stack T)
      → IsNested os
      → (m' : Level T) × (run_ops ci os (m ∷ s) ≡ some (m' ∷ s))
  unfolding run_ops apply_op add new_level drop_level
  nested_run ci m s done = (m, refl)
  nested_run ci m s (adds n v k) =
      let m1 = (insert (lower_if_needed ci n) v m).1 in
      let (m', e) = nested_run ci m1 s k in (m', e)
  nested_run ci m s (block {os = os} inner i k) =
      let (m1, e1) = nested_run ci [] (m ∷ s) i in
      let (m2, e2) = nested_run ci m s k in
      (m2, rw (run_ops-append ci inner (drop_op ∷ os) ([] ∷ (m ∷ s)), e1) e2)

  -- Any nested run between a `NewLevel` and its `DropLevel` leaves the table as it was: every name
  -- declared in the scope is forgotten and every name that it hid is back.
  pub scope_restores :
      (ci : Bool) {os : List (Op T)} (m : Level T) (s : Stack T)
      → IsNested os
      → run_ops ci (new_op ∷ (os ++ drop_op ∷ [])) (m ∷ s) ≡ some (m ∷ s)
  unfolding run_ops apply_op add new_level drop_level
  scope_restores ci {os} m s k =
      let (m1, e1) = nested_run ci [] (m ∷ s) k in
      rw (run_ops-append ci os (drop_op ∷ []) ([] ∷ (m ∷ s)), e1) refl
