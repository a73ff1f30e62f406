-- ===== src/Semantics/Statements/Labels.antt =====
-- semantics.cpp: the labels of case statements.
use lacsap.Prelude.{
  ℕ, zero, suc, ◌+◌, ◌≤◌, ◌<◌, ◌≡◌, ◌≢◌, ◌↔◌, refl, ap, ◌∙◌, arith, true, false, List, [], ◌∷◌,
  ◌++◌, Bool-cases, inl, inr, length, get_or, ltb, sym, length-append,
}
use mathlib.Core.List.{append_assoc, append-nil}
use lacsap.Prelude.Int.{ℤ, pos, negsuc, eq_ℤ}
use lacsap.Outcome.{done}
use lacsap.Types.Node.{type_of, TypeKind}
use lacsap.Types.Compatible.{is_integral}
use lacsap.Semantics.State.{Expr, expr_type, Sema, add_error, error_if}
use lacsap.Semantics.Statements.{same_label, found, check_labels, check_all_labels, check_case}

-- The labels of a case statement in one list
abbrev pub all_labels : List (List (ℤ × ℤ)) → List (ℤ × ℤ)
all_labels [] = []
all_labels (l ∷ ls) = l ++ all_labels ls

-- No two places of the list hold the same label.
abbrev pub AllDiffer : List (ℤ × ℤ) → Type 0
AllDiffer l =
    (i j : ℕ) → i < j → j < length l → get_or l i (pos 0, pos 0) ≢ get_or l j (pos 0, pos 0)

eq_ℤ_iff : (a b : ℤ) → (eq_ℤ a b ≡ true) ↔ (a ≡ b)
eq_ℤ_iff (pos a) (pos b) = ground arith
eq_ℤ_iff (pos a) (negsuc b) = ground arith
eq_ℤ_iff (negsuc a) (pos b) = ground arith
eq_ℤ_iff (negsuc a) (negsuc b) = ground arith

same_label_iff : (a b : ℤ × ℤ) → (same_label a b ≡ true) ↔ (a ≡ b)
unfolding same_label
same_label_iff (a, b) (c, d) = ground (arith, eq_ℤ_iff a c, eq_ℤ_iff b d)

abbrev label_at : List (ℤ × ℤ) → ℕ → ℤ × ℤ
label_at l i = get_or l i (pos 0, pos 0)

found-at :
    (x : ℤ × ℤ) (l : List (ℤ × ℤ))
    → found x l ≡ true
    → (i : ℕ) × (i < length l) × (label_at l i ≡ x)
unfolding found
found-at x [] h = cc
found-at x (v ∷ l) h = elim (Bool-cases (same_label v x)) [
  | inl same ↦ (0, omega arith, (same_label_iff v x).0 same)
  | inr differ ↦ let (i, lt, e) = found-at x l (rw differ at h) in (suc i, omega arith, e)
]

at-found : (l : List (ℤ × ℤ)) (i : ℕ) → i < length l → found (label_at l i) l ≡ true
unfolding found
at-found [] i h = absurd (omega arith)
at-found (v ∷ l) zero h = rw ((same_label_iff v v).1 refl) refl
at-found (v ∷ l) (suc i) h = elim (Bool-cases (same_label v (label_at l i))) [
  | inl same ↦ rw same refl
  | inr differ ↦ rw differ (at-found l i (omega arith))
]

at-append_left : (l m : List (ℤ × ℤ)) (i : ℕ) → i < length l → label_at (l ++ m) i ≡ label_at l i
at-append_left [] m i h = absurd (omega arith)
at-append_left (v ∷ l) m zero h = refl
at-append_left (v ∷ l) m (suc i) h = at-append_left l m i (omega arith)

at-append_right : (l m : List (ℤ × ℤ)) (i : ℕ) → label_at (l ++ m) (length l + i) ≡ label_at m i
at-append_right [] m i = ap (label_at m) (omega arith)
at-append_right (v ∷ l) m i =
    let e : suc (length l) + i ≡ suc (length l + i) = omega arith in rw e (at-append_right l m i)

at-last : (l m : List (ℤ × ℤ)) (x : ℤ × ℤ) → label_at (l ++ x ∷ m) (length l) ≡ x
at-last l m x = ap (label_at (l ++ x ∷ m)) (omega arith) ∙ at-append_right l (x ∷ m) 0

AllDiffer-snoc :
    (vals : List (ℤ × ℤ)) (x : ℤ × ℤ)
    → AllDiffer vals
    → found x vals ≡ false
    → AllDiffer (vals ++ x ∷ [])
AllDiffer-snoc vals x d new i j lt lj e =
    let len = length-append vals (x ∷ []) in
    elim (Bool-cases (ltb j (length vals))) [
      | inl inside ↦
          let small : j < length vals = ground arith in
          d i j lt small (
            rw (at-append_left vals (x ∷ []) i (omega arith), at-append_left vals (x ∷ []) j small)
              at e)
      | inr outside ↦
          let at_end : j ≡ length vals = ground arith in
          let small : i < length vals = omega arith in
          let at_x : label_at vals i ≡ x =
            rw (at_end, at-append_left vals (x ∷ []) i small, at-last vals [] x) at e in
          cc (at-found vals i small, at_x, new)
    ]

found-differ :
    (vals l : List (ℤ × ℤ)) (x : ℤ × ℤ) → found x vals ≡ true → ¬ AllDiffer (vals ++ x ∷ l)
found-differ vals l x old d =
    let (i, lt, e) = found-at x vals old in
    let len = length-append vals (x ∷ l) in
    d i (length vals) lt (omega arith)
      (at-append_left vals (x ∷ l) i lt ∙ (e ∙ sym (at-last vals l x)))

errors_grow : (l vals : List (ℤ × ℤ)) (s : Sema) → s.errors ≤ (check_labels l vals s).1.errors
unfolding check_labels add_error
errors_grow [] vals s = omega arith
errors_grow (x ∷ l) vals s = elim (Bool-cases (found x vals)) [
  | inl old ↦ rw (check_labels, old) (omega (arith, errors_grow l (vals ++ x ∷ []) (add_error s)))
  | inr new ↦ rw (check_labels, new) (errors_grow l (vals ++ x ∷ []) s)
]

check_labels-AllDiffer :
    (l vals : List (ℤ × ℤ)) (s : Sema)
    → AllDiffer vals
    → ((check_labels l vals s).1.errors ≡ s.errors) ↔ AllDiffer (vals ++ l)
unfolding check_labels add_error
check_labels-AllDiffer [] vals s d = (λ e. rw (append-nil vals) d, λ h. refl)
check_labels-AllDiffer (x ∷ l) vals s d = elim (Bool-cases (found x vals)) [
  | inl old ↦
      let grown = errors_grow l (vals ++ x ∷ []) (add_error s) in
      rw (check_labels, old) (λ e. absurd (omega arith), λ h. absurd (found-differ vals l x old h))
  | inr new ↦
      let ih = check_labels-AllDiffer l (vals ++ x ∷ []) s (AllDiffer-snoc vals x d new) in
      rw (check_labels, new) (rw (append_assoc vals (x ∷ []) l) at ih)
]

check_labels-append :
    (a b vals : List (ℤ × ℤ)) (s : Sema)
    → check_labels b (check_labels a vals s).0 (check_labels a vals s).1
      ≡ check_labels (a ++ b) vals s
unfolding check_labels
check_labels-append [] b vals s = refl
check_labels-append (x ∷ a) b vals s =
    check_labels-append a b (vals ++ x ∷ []) (error_if (found x vals) s)

labels_in_one :
    (ls : List (List (ℤ × ℤ))) (vals : List (ℤ × ℤ)) (s : Sema)
    → check_all_labels ls vals s ≡ check_labels (all_labels ls) vals s
unfolding check_all_labels check_labels
labels_in_one [] vals s = refl
labels_in_one (l ∷ ls) vals s =
    labels_in_one ls (check_labels l vals s).0 (check_labels l vals s).1
    ∙ check_labels-append l (all_labels ls) vals s

-- A case statement on an integral value passes its check without an error exactly if no two of its
-- labels, over all of its branches, are the same: the same single value, or the same two ends of a
-- range.
pub check_case-AllDiffer :
    (n : ℕ) (size : ℕ → ℕ) (selector : Expr) (labels : List (List (ℤ × ℤ))) (k : TypeKind)
    (s : Sema)
    → type_of n s.heap (expr_type selector) ≡ done k
    → is_integral k ≡ true
    → (s' : Sema) × (check_case n size selector labels s ≡ done s')
      × ((s'.errors ≡ s.errors) ↔ AllDiffer (all_labels labels))
unfolding check_case
check_case-AllDiffer n size selector labels k s typed integral = (
  (check_labels (all_labels labels) [] s).1,
  rw (typed, integral, labels_in_one labels [] s) refl,
  check_labels-AllDiffer (all_labels labels) [] s (λ i j lt h. absurd (omega arith)),
)
