-- ===== src/Types/Class/Slots.antt =====
-- types.cpp, expr.cpp: the indices of the virtual functions of a class.
use lacsap.Prelude.{
  ℕ, zero, suc, ◌+◌, ◌<◌, Bool, true, false, Option, none, some, List, [], ◌∷◌, ◌≡◌, ◌⊎◌, inl, inr,
  refl, ap, sym, ◌∙◌, if◌then◌else◌, ◌==◌, Bool-cases, Option-cases, arith,
}
use lacsap.Prelude.Int.{ℤ, pos, negsuc, eq_ℤ}
use lacsap.Outcome.{Outcome, done, ice, out_of_fuel, exited, undefined}
use lacsap.Runtime.Arrays.{take}
use lacsap.Types.Class.{
  ClassDecl, null, class_decl, MemberFuncDecl, membfuncs, memb_func, get_memb_func, func_index,
  func_at, is_dispatched, count_dispatched, num_virt_funcs,
}
use lacsap.Types.Class.Table.{
  Opacity, opaque, filled_in, not_made, made_opaque, made_filled, VTables, set_at, is_ready,
  overridden, TableLoop, table_step, table_loop, vtable_type,
}

found_done :
    (o : Outcome MemberFuncDecl) (b : MemberFuncDecl)
    → (elim o as (λ _. Option MemberFuncDecl) [ done f ↦ some f | _ ↦ none ]) ≡ some b
    → o ≡ done b
found_done (done f) b e = cc
found_done ice b e = cc
found_done out_of_fuel b e = cc
found_done exited b e = cc
found_done undefined b e = cc

-- A numbering gives each member function, by its address, the slot that it should have.
module _ (slot : ℕ → ℕ) where
  -- The functions that are called through the table have the slots from n on, in their order.
  abbrev pub IsNumbered : ℕ → List MemberFuncDecl → Type 0
  IsNumbered n [] = Unit {0}
  IsNumbered n (m ∷ ms) =
      ((is_dispatched m ≡ true) × (slot m.func_address ≡ n) × IsNumbered (suc n) ms)
      ⊎ ((is_dispatched m ≡ false) × IsNumbered n ms)

  -- What a function overrides is called through the table, in the same slot.
  abbrev pub OverridesWell : ClassDecl → List MemberFuncDecl → Type 0
  OverridesWell base [] = Unit {0}
  OverridesWell base (m ∷ ms) =
      ((m.is_virtual ≡ true)
        ⊎ (m.is_override ≡ false)
        ⊎ ((b : MemberFuncDecl) × (overridden base m ≡ some b)
            × (is_dispatched b ≡ true)
            × (slot b.func_address ≡ slot m.func_address)))
      × OverridesWell base ms

  -- A class and its bases have such slots.
  abbrev pub IsLaidOut : ClassDecl → Type 0
  IsLaidOut null = Unit {0}
  IsLaidOut (class_decl a nm fs mf v base) =
      IsNumbered 0 mf × OverridesWell base mf × IsLaidOut base

  -- Every index is unset or the slot.
  abbrev pub IsConsistent : (ℕ → ℤ) → Type 0
  IsConsistent idx = (a : ℕ) → (idx a ≡ negsuc 0) ⊎ (idx a ≡ pos (slot a))

  -- All of the functions have their slots as indices.
  abbrev pub AllSet : (ℕ → ℤ) → List MemberFuncDecl → Type 0
  AllSet idx [] = Unit {0}
  AllSet idx (m ∷ ms) =
      ((is_dispatched m ≡ false) ⊎ (idx m.func_address ≡ pos (slot m.func_address))) × AllSet idx ms

  abbrev ChainSet : (ℕ → ℤ) → ClassDecl → Type 0
  ChainSet idx null = Unit {0}
  ChainSet idx (class_decl a nm fs mf v base) = AllSet idx mf × ChainSet idx base

  -- An index that is set stays.
  abbrev Keeps : (ℕ → ℤ) → (ℕ → ℤ) → Type 0
  Keeps idx idx' = (a : ℕ) → idx a ≡ pos (slot a) → idx' a ≡ pos (slot a)

  AllSet-Keeps :
      (idx idx' : ℕ → ℤ) (ms : List MemberFuncDecl)
      → Keeps idx idx'
      → AllSet idx ms
      → AllSet idx' ms
  AllSet-Keeps idx idx' [] k h = tt
  AllSet-Keeps idx idx' (m ∷ ms) k (inl n, h) = (inl n, AllSet-Keeps idx idx' ms k h)
  AllSet-Keeps idx idx' (m ∷ ms) k (inr e, h) =
      (inr (k m.func_address e), AllSet-Keeps idx idx' ms k h)

  ChainSet-Keeps :
      (idx idx' : ℕ → ℤ) (c : ClassDecl) → Keeps idx idx' → ChainSet idx c → ChainSet idx' c
  ChainSet-Keeps idx idx' null k h = tt
  ChainSet-Keeps idx idx' (class_decl a nm fs mf v base) k (h, hs) =
      (AllSet-Keeps idx idx' mf k h, ChainSet-Keeps idx idx' base k hs)

  ChainSet-membfuncs : (idx : ℕ → ℤ) (c : ClassDecl) → ChainSet idx c → AllSet idx (membfuncs c)
  ChainSet-membfuncs idx null h = tt
  ChainSet-membfuncs idx (class_decl a nm fs mf v base) h = h.0

  AllSet-at :
      (idx : ℕ → ℤ) (ms : List MemberFuncDecl) (i : ℕ) (b : MemberFuncDecl)
      → AllSet idx ms
      → func_at ms i ≡ done b
      → is_dispatched b ≡ true
      → idx b.func_address ≡ pos (slot b.func_address)
  AllSet-at idx [] i b h e d = cc
  AllSet-at idx (m ∷ ms) zero b h e d =
      let same : m ≡ b = cc in
      elim h.0 [ inl n ↦ cc (n, d, ap (λ f. is_dispatched f) same) | inr s ↦ rw (← same) s ]
  AllSet-at idx (m ∷ ms) (suc i) b h e d = AllSet-at idx ms i b h.1 e d

  overridden-AllSet :
      (idx : ℕ → ℤ) (base : ClassDecl) (m b : MemberFuncDecl)
      → AllSet idx (membfuncs base)
      → overridden base m ≡ some b
      → is_dispatched b ≡ true
      → idx b.func_address ≡ pos (slot b.func_address)
  unfolding overridden memb_func get_memb_func
  overridden-AllSet idx base m b h e d =
      elim (Option-cases (func_index (membfuncs base) m.proto.proto_name)) [
        | inl n ↦ cc (rw (overridden, memb_func, n) at e)
        | inr (i, n) ↦
            AllSet-at idx (membfuncs base) i b h
              (found_done (func_at (membfuncs base) i) b (rw (overridden, memb_func, n) at e)) d
      ]

  -- Writing the slot of a function as its index
  set_at-IsConsistent :
      (idx : ℕ → ℤ) (a : ℕ) (x : ℤ)
      → IsConsistent idx
      → x ≡ pos (slot a)
      → IsConsistent (set_at idx a x)
        × Keeps idx (set_at idx a x)
        × (set_at idx a x a ≡ pos (slot a))
  set_at-IsConsistent idx a x c e = (
    λ b. elim (Bool-cases (b == a)) [
      | inl here ↦
          let at : b ≡ a = ground arith in inr (rw here (e ∙ ap (λ n. pos (slot n)) (sym at)))
      | inr other ↦ rw other (c b)
    ],
    λ b h. elim (Bool-cases (b == a)) [
      | inl here ↦ let at : b ≡ a = ground arith in rw here (e ∙ ap (λ n. pos (slot n)) (sym at))
      | inr other ↦ rw other h
    ],
    (let here : (a == a) ≡ true = ground arith in rw here e),
  )

  table_step-Advances :
      (base : ClassDecl) (m : MemberFuncDecl) (s : TableLoop)
      → AllSet s.indices (membfuncs base)
      → (m.is_virtual ≡ true)
        ⊎ (m.is_override ≡ false)
        ⊎ ((b : MemberFuncDecl) × (overridden base m ≡ some b)
            × (is_dispatched b ≡ true)
            × (slot b.func_address ≡ slot m.func_address))
      → (is_dispatched m ≡ true → slot m.func_address ≡ s.index)
      → IsConsistent s.indices
      → (s' : TableLoop) × (table_step base m s ≡ some s')
        × IsConsistent s'.indices
        × Keeps s.indices s'.indices
        × ((is_dispatched m ≡ false) ⊎ (s'.indices m.func_address ≡ pos (slot m.func_address)))
        × (s'.index ≡ (if is_dispatched m then suc s.index else s.index))
  unfolding table_step
  table_step-Advances base m s set over num c = elim (Bool-cases m.is_virtual) [
    | inl v ↦
        let d : is_dispatched m ≡ true = rw v refl in
        elim (Bool-cases (eq_ℤ (s.indices m.func_address) (negsuc 0))) [
          | inl unset ↦
              let (c', k, e) =
                set_at-IsConsistent s.indices m.func_address (pos s.index) c
                  (ap pos (sym (num d))) in
              (
                record {
                  index = suc s.index;
                  needed = true;
                  indices = set_at s.indices m.func_address (pos s.index);
                },
                rw (v, unset) refl,
                c',
                k,
                inr e,
                rw d refl,
              )
          | inr there ↦
              let there_set : s.indices m.func_address ≡ pos (slot m.func_address) =
                elim (c m.func_address) [ inl e ↦ cc (rw e at there) | inr e ↦ e ] in
              (
                record { index = suc s.index; needed = true; indices = s.indices },
                rw (v, there) refl,
                c,
                λ a h. h,
                inr there_set,
                rw d refl,
              )
        ]
    | inr nv ↦ elim (Bool-cases m.is_override) [
      | inl o ↦
          let d : is_dispatched m ≡ true = rw (nv, o) refl in
          elim over [
            | inl v ↦ cc
            | inr (inl n) ↦ cc
            | inr (inr (b, e, db, sb)) ↦
                let from_b : s.indices b.func_address ≡ pos (slot m.func_address) =
                  overridden-AllSet s.indices base m b set e db ∙ ap pos sb in
                let (c', k, at) =
                  set_at-IsConsistent s.indices m.func_address (s.indices b.func_address) c
                    from_b in
                (
                  record {
                    index = suc s.index;
                    needed = true;
                    indices = set_at s.indices m.func_address (s.indices b.func_address);
                  },
                  rw (nv, o, e) refl,
                  c',
                  k,
                  inr at,
                  rw d refl,
                )
          ]
      | inr plain ↦
          let d : is_dispatched m ≡ false = rw (nv, plain) refl in
          (s, rw (nv, plain) refl, c, λ a h. h, inl d, rw d refl)
    ]
  ]

  table_loop-Advances :
      (base : ClassDecl) (ms : List MemberFuncDecl) (n : ℕ) (s : TableLoop)
      → AllSet s.indices (membfuncs base)
      → OverridesWell base ms
      → IsNumbered n ms
      → s.index ≡ n
      → IsConsistent s.indices
      → (s' : TableLoop) × (table_loop base ms s ≡ (true, s'))
        × IsConsistent s'.indices
        × Keeps s.indices s'.indices
        × AllSet s'.indices ms
  unfolding table_loop
  table_loop-Advances base [] n s set over num i c = (s, refl, c, λ a h. h, tt)
  table_loop-Advances base (m ∷ ms) n s set (o, over) (inl (d, at, num)) i c =
      let (s', e, c', k, here, i') = table_step-Advances base m s set o (λ _. at ∙ sym i) c in
      let next : s'.index ≡ suc n = i' ∙ rw d (ap suc i) in
      let (s'', e'', c'', k', rest) =
        table_loop-Advances base ms (suc n) s'
          (AllSet-Keeps s.indices s'.indices (membfuncs base) k set) over num next c' in
      let kept : (is_dispatched m ≡ false)
          ⊎ (s''.indices m.func_address ≡ pos (slot m.func_address)) =
        elim here [ inl f ↦ inl f | inr x ↦ inr (k' m.func_address x) ] in
      (s'', rw (table_loop, e) e'', c'', λ a h. k' a (k a h), (kept, rest))
  table_loop-Advances base (m ∷ ms) n s set (o, over) (inr (d, num)) i c =
      let (s', e, c', k, here, i') = table_step-Advances base m s set o (λ t. cc) c in
      let same : s'.index ≡ n = i' ∙ rw d i in
      let (s'', e'', c'', k', rest) =
        table_loop-Advances base ms n s' (AllSet-Keeps s.indices s'.indices (membfuncs base) k set)
          over num same c' in
      (s'', rw (table_loop, e) e'', c'', λ a h. k' a (k a h), (inl d, rest))

  -- A call for a class whose bases have their indices
  vtable_type-Keeps :
      (op : Opacity) (c : ClassDecl) (st : VTables)
      → IsLaidOut c
      → IsConsistent st.virt_index
      → ChainSet st.virt_index c
      → IsConsistent (vtable_type op c st).1.virt_index
        × Keeps st.virt_index (vtable_type op c st).1.virt_index
  unfolding vtable_type
  vtable_type-Keeps op null st l c set = (c, λ a h. h)
  vtable_type-Keeps op (class_decl a nm fs mf v base) st (num, over, l) c (set, sets) =
      let st₁ : VTables = (vtable_type op base st).1 in
      let (c₁, k₁) = vtable_type-Keeps op base st l c sets in
      let sets₁ = ChainSet-Keeps st.virt_index st₁.virt_index base k₁ sets in
      let (s, e, c₂, k₂, own) =
        table_loop-Advances base mf 0
          (record { index = 0; needed = false; indices = st₁.virt_index })
          (ChainSet-membfuncs st₁.virt_index base sets₁) over num refl c₁ in
      let st₂ : VTables = record st₁ { virt_index = s.indices } in
      let (c₃, k₃) =
        vtable_type-Keeps op base st₂ l c₂
          (ChainSet-Keeps st₁.virt_index s.indices base k₂ sets₁) in
      elim (Bool-cases (is_ready op (st.made a))) [
        | inl r ↦ rw r (c, λ b h. h)
        | inr r ↦ elim (Bool-cases s.needed) [
          | inl n ↦ rw (r, e, n) (c₂, λ b h. k₂ b (k₁ b h))
          | inr n ↦ rw (r, e, n) (c₃, λ b h. k₃ b (k₂ b (k₁ b h)))
        ]
      ]

  -- The first call for a class
  vtable_type-ChainSet :
      (op : Opacity) (c : ClassDecl) (st : VTables)
      → IsLaidOut c
      → IsConsistent st.virt_index
      → ((a : ℕ) → st.made a ≡ not_made)
      → (r : Bool × VTables) × (vtable_type op c st ≡ r)
        × IsConsistent r.1.virt_index
        × ChainSet r.1.virt_index c
  unfolding vtable_type
  vtable_type-ChainSet op null st l c fresh = ((false, st), refl, c, tt)
  vtable_type-ChainSet op (class_decl a nm fs mf v base) st (num, over, l) c fresh =
      let (r₁, e₁, c₁, sets₁) = vtable_type-ChainSet op base st l c fresh in
      let st₁ : VTables = r₁.1 in
      let (s, e, c₂, k₂, own) =
        table_loop-Advances base mf 0
          (record { index = 0; needed = false; indices = st₁.virt_index })
          (ChainSet-membfuncs st₁.virt_index base sets₁) over num refl c₁ in
      let st₂ : VTables = record st₁ { virt_index = s.indices } in
      let sets₂ = ChainSet-Keeps st₁.virt_index s.indices base k₂ sets₁ in
      let (c₃, k₃) = vtable_type-Keeps op base st₂ l c₂ sets₂ in
      elim (Bool-cases s.needed) [
        | inl n ↦ (
          (
            true,
            record st₂ {
              made = set_at st₂.made a (elim op [ opaque ↦ made_opaque | filled_in ↦ made_filled ]);
            },
          ),
          rw (fresh a, e₁, e, n) refl,
          c₂,
          (own, sets₂),
        )
        | inr n ↦ (
          vtable_type op base st₂,
          rw (fresh a, e₁, e, n) refl,
          c₃,
          (
            AllSet-Keeps s.indices (vtable_type op base st₂).1.virt_index mf k₃ own,
            ChainSet-Keeps s.indices (vtable_type op base st₂).1.virt_index base k₃ sets₂,
          ),
        )
      ]

  slot-at :
      (n : ℕ) (ms : List MemberFuncDecl) (i : ℕ) (m : MemberFuncDecl)
      → IsNumbered n ms
      → func_at ms i ≡ done m
      → is_dispatched m ≡ true
      → (slot m.func_address ≡ n + count_dispatched (take i ms))
        × (slot m.func_address < n + count_dispatched ms)
  slot-at n [] i m num e d = cc
  slot-at n (f ∷ ms) zero m num e d =
      let same : f ≡ m = cc in
      elim num [
        | inl (df, at, rest) ↦ rw (← same) (omega arith, rw df (omega arith))
        | inr (df, rest) ↦ cc (df, d, ap (λ g. is_dispatched g) same)
      ]
  slot-at n (f ∷ ms) (suc i) m num e d = elim num [
    | inl (df, at, rest) ↦
        let (x, y) = slot-at (suc n) ms i m rest e d in rw df (omega arith, omega arith)
    | inr (df, rest) ↦ let (x, y) = slot-at n ms i m rest e d in rw df (omega arith, omega arith)
  ]

  -- After `VTableType` of a class for which nothing is made yet, each of its functions that is
  -- virtual or an override has as index the number of such functions before it, which is below
  -- `NumVirtFuncs`, if the class and its bases are laid out so: an override stands for a function
  -- of the base that is called through the table and comes as far down in its own class.
  pub vtable_type-slots :
      (op : Opacity) (c : ClassDecl) (st : VTables) (i : ℕ) (m : MemberFuncDecl)
      → IsLaidOut c
      → IsConsistent st.virt_index
      → ((a : ℕ) → st.made a ≡ not_made)
      → get_memb_func c i ≡ done m
      → is_dispatched m ≡ true
      → ((vtable_type op c st).1.virt_index m.func_address
          ≡ pos (count_dispatched (take i (membfuncs c))))
        × (count_dispatched (take i (membfuncs c)) < num_virt_funcs c)
  unfolding get_memb_func num_virt_funcs
  vtable_type-slots op null st i m l c fresh at d = cc
  vtable_type-slots op (class_decl a nm fs mf v base) st i m l c fresh at d =
      let (r, e, c', (own, above)) =
        vtable_type-ChainSet op (class_decl a nm fs mf v base) st l c fresh in
      let (x, y) = slot-at 0 mf i m l.0 at d in
      (rw e (AllSet-at r.1.virt_index mf i m own at d ∙ ap pos (omega arith)), omega arith)
