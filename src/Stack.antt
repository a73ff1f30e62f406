-- ===== src/Stack.antt =====
-- stack.h, stack.cpp: the symbol table. A `std::map` from names is a list of pairs with no key
-- twice, of which only look-ups are read. The levels of a stack stand innermost first: `back()` is
-- the head of the list, `front()` its last. On no level `back()`, `front()` and `pop_back()` are
-- undefined, and the operation is `none`.
-- The flag of each operation is the global `caseInsensitive`.
pub mod Laws
pub mod Scopes
use lacsap.Prelude.{
  ℕ, ◌-◌, Bool, true, false, List, [], ◌∷◌, Option, none, some, if◌then◌else◌, Text, text_eq,
  strlower, length,
}

-- `LowerIfNeeded`
unfoldable pub lower_if_needed : Bool → Text → Text
lower_if_needed case_insensitive name = if case_insensitive then strlower name else name

-- `MapType`
abbrev pub Level {ℓ} : Type ℓ → Type ℓ
Level T = List (Text × T)

-- `StackType`
abbrev pub Stack {ℓ} : Type ℓ → Type ℓ
Stack T = List (Level T)

-- The first of two look-ups that finds something
abbrev pub first_found {ℓ} : {T : Type ℓ} → Option T → Option T → Option T
first_found (some v) later = some v
first_found none later = later

module _ {ℓ} {T : Type ℓ} where
  -- `std::map::find`
  unfoldable pub find_in : Text → Level T → Option T
  find_in name [] = none
  find_in name ((k, v) ∷ m) = if text_eq k name then some v else find_in name m

  -- `insert`, which leaves a key that is there alone: whether it inserted, and the map
  abbrev pub insert_at : Option T → Text → T → Level T → Bool × Level T
  insert_at none name v m = (true, (name, v) ∷ m)
  insert_at (some _) name v m = (false, m)

  unfoldable pub insert : Text → T → Level T → Bool × Level T
  unfolding find_in
  insert name v m = insert_at (find_in name m) name v m

  -- `NewLevel`
  unfoldable pub new_level : Stack T → Stack T
  new_level s = [] ∷ s

  -- `Stack()`
  unfoldable pub new_stack : Stack T
  unfolding new_level
  new_stack = new_level []

  -- `MaxLevel`
  unfoldable pub max_level : Stack T → ℕ
  max_level s = length s - 1

  -- `GetLevel`
  unfoldable pub get_level : Stack T → Option (Level T)
  get_level [] = none
  get_level (m ∷ s) = some m

  -- `DropLevel`
  unfoldable pub drop_level : Stack T → Option (Stack T)
  drop_level [] = none
  drop_level (m ∷ s) = some s

  -- `Add`
  unfoldable pub add : Bool → Text → T → Stack T → Option (Bool × Stack T)
  unfolding lower_if_needed insert
  add ci name v [] = none
  add ci name v (m ∷ s) =
      let (inserted, m') = insert (lower_if_needed ci name) v m in some (inserted, m' ∷ s)

  -- The loop of `Find`, from the innermost level outwards
  unfoldable pub find_levels : Text → Stack T → Option T
  unfolding find_in
  find_levels name [] = none
  find_levels name (m ∷ s) = first_found (find_in name m) (find_levels name s)

  -- `Find`
  unfoldable pub find : Bool → Text → Stack T → Option T
  unfolding lower_if_needed find_levels
  find ci name s = find_levels (lower_if_needed ci name) s

  -- `FindTopLevel`
  unfoldable pub find_top_level : Bool → Text → Stack T → Option (Option T)
  unfolding lower_if_needed find_in
  find_top_level ci name [] = none
  find_top_level ci name (m ∷ s) = some (find_in (lower_if_needed ci name) m)

  -- `stack.front()`
  unfoldable pub front : Stack T → Option (Level T)
  front [] = none
  front (m ∷ []) = some m
  front (_ ∷ s) = front s

  -- `FindBaseLevel`
  unfoldable pub find_base_level : Bool → Text → Stack T → Option (Option T)
  unfolding lower_if_needed find_in front
  find_base_level ci name s = elim (front s) [
    | none ↦ none
    | some m ↦ some (find_in (lower_if_needed ci name) m)
  ]

  -- `InterfaceList::Add`
  unfoldable pub interface_add : Bool → Text → T → Level T → Bool × Level T
  unfolding find_in
  interface_add ci name obj list =
      let key = if ci then strlower name else name in
      elim (find_in key list) [ none ↦ (true, (key, obj) ∷ list) | some _ ↦ (false, list) ]
