-- ===== src/Types/Compatible/Numeric.antt =====
-- types.cpp: `CompatibleType` on numbers, ranges and arrays.
use lacsap.Prelude.{
  ℕ, suc, Bool, true, false, none, some, List, ◌≡◌, refl, if◌then◌else◌, leb, arith, ◌||◌, ◌⊎◌,
}
use lacsap.Outcome.{done}
use lacsap.Types.Node.{
  TypeDecl, Heap, load, integer_decl, int64_decl, real_decl, complex_decl, range_decl, Range,
  type_of, get_kind, tk_integer,
}
use lacsap.Types.Same.{same_as, same_by, record_same}
use lacsap.Types.Compatible.{this_if, compatible_by, range_compatible, compatible_type}

-- The types of numbers, each with its place among them: Integer, LongInt, Real, Complex
pub data IsNumber : TypeDecl → ℕ → Type 0 where
  integer : IsNumber integer_decl 0
  long : IsNumber int64_decl 1
  real : IsNumber real_decl 2
  complex : (fs : List ℕ) (c : ℕ) → IsNumber (complex_decl fs c) 3

pub load-some : (h : Heap) (p : ℕ) (t : TypeDecl) → h p ≡ some t → load h p ≡ done t
load-some h p t e = rw (load, e) refl

-- `CompatibleType` of two objects that are there
pub compatible_type-by :
    (h : Heap) (size : ℕ → ℕ) (n p q : ℕ) (t u : TypeDecl)
    → h p ≡ some t
    → h q ≡ some u
    → compatible_type h size (suc n) p q
      ≡ compatible_by h size (same_as n h) (type_of (suc n) h) (compatible_type h size n) p t q u
unfolding compatible_type
compatible_type-by h size n p q t u hp hq =
    rw (compatible_type, load-some h p t hp, load-some h q u hq) refl

pub type_of-IsNumber :
    (h : Heap) (n q : ℕ) {u : TypeDecl} {j : ℕ}
    → h q ≡ some u
    → IsNumber u j
    → type_of (suc n) h q ≡ done (get_kind u)
unfolding type_of
type_of-IsNumber h n q hq integer = rw (type_of, load-some h q integer_decl hq) refl
type_of-IsNumber h n q hq long = rw (type_of, load-some h q int64_decl hq) refl
type_of-IsNumber h n q hq real = rw (type_of, load-some h q real_decl hq) refl
type_of-IsNumber h n q hq (complex fs c) = rw (type_of, load-some h q (complex_decl fs c) hq) refl

type_of-range :
    (h : Heap) (n p b : ℕ) (r : Range)
    → h p ≡ some (range_decl r b)
    → h b ≡ some integer_decl
    → type_of (suc (suc n)) h p ≡ done tk_integer
unfolding type_of
type_of-range h n p b r hp hb =
    rw (type_of, load-some h p (range_decl r b) hp) (type_of-IsNumber h n b hb integer)

this_if-numeric : (p : ℕ) (b : Bool) → done (this_if p (b || true)) ≡ done (some p)
this_if-numeric p true = refl
this_if-numeric p false = refl

pub same_as-by :
    (h : Heap) (n p q : ℕ) (t u : TypeDecl)
    → h p ≡ some t
    → h q ≡ some u
    → same_as (suc n) h p q ≡ same_by h (same_as n h) (type_of (suc n) h) p t q u
unfolding same_as
same_as-by h n p q t u hp hq = rw (same_as, load-some h p t hp, load-some h q u hq) refl

module _ (h : Heap) (size : ℕ → ℕ) where
  -- Of two types of numbers the one that comes later among Integer, LongInt, Real and Complex is
  -- the one that both are compatible with, whichever comes first in the call.
  pub compatible_type-IsNumber :
      (n p q : ℕ) {t u : TypeDecl} {i j : ℕ}
      → h p ≡ some t
      → h q ≡ some u
      → IsNumber t i
      → IsNumber u j
      → compatible_type h size (suc (suc n)) p q ≡ done (some (if leb j i then p else q))
  unfolding compatible_by same_by
  compatible_type-IsNumber n p q hp hq integer integer =
      rw
        (
          compatible_type-by h size (suc n) p q integer_decl integer_decl hp hq,
          type_of-IsNumber h (suc n) q hq integer,
        )
        refl
  compatible_type-IsNumber n p q hp hq integer long =
      rw
        (
          compatible_type-by h size (suc n) p q integer_decl int64_decl hp hq,
          type_of-IsNumber h (suc n) q hq long,
        )
        refl
  compatible_type-IsNumber n p q hp hq integer real =
      rw
        (
          compatible_type-by h size (suc n) p q integer_decl real_decl hp hq,
          type_of-IsNumber h (suc n) q hq real,
        )
        refl
  compatible_type-IsNumber n p q hp hq integer (complex fs' c') =
      rw
        (
          compatible_type-by h size (suc n) p q integer_decl (complex_decl fs' c') hp hq,
          type_of-IsNumber h (suc n) q hq (complex fs' c'),
        )
        refl
  compatible_type-IsNumber n p q hp hq long integer =
      rw
        (
          compatible_type-by h size (suc n) p q int64_decl integer_decl hp hq,
          type_of-IsNumber h (suc n) q hq integer,
        )
        refl
  compatible_type-IsNumber n p q hp hq long long =
      rw
        (
          compatible_type-by h size (suc n) p q int64_decl int64_decl hp hq,
          type_of-IsNumber h (suc n) q hq long,
        )
        refl
  compatible_type-IsNumber n p q hp hq long real =
      rw
        (
          compatible_type-by h size (suc n) p q int64_decl real_decl hp hq,
          type_of-IsNumber h (suc n) q hq real,
        )
        refl
  compatible_type-IsNumber n p q hp hq long (complex fs' c') =
      rw
        (
          compatible_type-by h size (suc n) p q int64_decl (complex_decl fs' c') hp hq,
          type_of-IsNumber h (suc n) q hq (complex fs' c'),
        )
        refl
  compatible_type-IsNumber n p q hp hq real integer =
      rw
        (
          compatible_type-by h size (suc n) p q real_decl integer_decl hp hq,
          same_as-by h n p q real_decl integer_decl hp hq,
          type_of-IsNumber h n q hq integer,
          type_of-IsNumber h (suc n) q hq integer,
        )
        refl
  compatible_type-IsNumber n p q hp hq real long =
      rw
        (
          compatible_type-by h size (suc n) p q real_decl int64_decl hp hq,
          same_as-by h n p q real_decl int64_decl hp hq,
          type_of-IsNumber h n q hq long,
          type_of-IsNumber h (suc n) q hq long,
        )
        refl
  compatible_type-IsNumber n p q hp hq real real =
      rw
        (
          compatible_type-by h size (suc n) p q real_decl real_decl hp hq,
          same_as-by h n p q real_decl real_decl hp hq,
          type_of-IsNumber h n q hq real,
          type_of-IsNumber h (suc n) q hq real,
        )
        refl
  compatible_type-IsNumber n p q hp hq real (complex fs' c') =
      rw
        (
          compatible_type-by h size (suc n) p q real_decl (complex_decl fs' c') hp hq,
          same_as-by h n p q real_decl (complex_decl fs' c') hp hq,
          type_of-IsNumber h n q hq (complex fs' c'),
          type_of-IsNumber h (suc n) q hq (complex fs' c'),
        )
        refl
  compatible_type-IsNumber n p q hp hq (complex fs c) integer =
      rw
        (
          compatible_type-by h size (suc n) p q (complex_decl fs c) integer_decl hp hq,
          same_as-by h n p q (complex_decl fs c) integer_decl hp hq,
          type_of-IsNumber h (suc n) q hq integer,
        )
        (this_if-numeric p (record_same h p c q integer_decl))
  compatible_type-IsNumber n p q hp hq (complex fs c) long =
      rw
        (
          compatible_type-by h size (suc n) p q (complex_decl fs c) int64_decl hp hq,
          same_as-by h n p q (complex_decl fs c) int64_decl hp hq,
          type_of-IsNumber h (suc n) q hq long,
        )
        (this_if-numeric p (record_same h p c q int64_decl))
  compatible_type-IsNumber n p q hp hq (complex fs c) real =
      rw
        (
          compatible_type-by h size (suc n) p q (complex_decl fs c) real_decl hp hq,
          same_as-by h n p q (complex_decl fs c) real_decl hp hq,
          type_of-IsNumber h (suc n) q hq real,
        )
        (this_if-numeric p (record_same h p c q real_decl))
  compatible_type-IsNumber n p q hp hq (complex fs c) (complex fs' c') =
      rw
        (
          compatible_type-by h size (suc n) p q (complex_decl fs c) (complex_decl fs' c') hp hq,
          same_as-by h n p q (complex_decl fs c) (complex_decl fs' c') hp hq,
          type_of-IsNumber h (suc n) q hq (complex fs' c'),
        )
        (this_if-numeric p (record_same h p c q (complex_decl fs' c')))

  -- A range of Integer is not compatible with LongInt, and neither with Complex, while these are
  -- compatible with it.
  pub compatible_type-range :
      (n p q b j : ℕ) (r : Range) (u : TypeDecl)
      → h p ≡ some (range_decl r b)
      → h b ≡ some integer_decl
      → h q ≡ some u
      → IsNumber u j
      → (j ≡ 1) ⊎ (j ≡ 3)
      → (compatible_type h size (suc (suc (suc n))) p q ≡ done none)
        × (compatible_type h size (suc (suc (suc n))) q p ≡ done (some q))
  unfolding compatible_by range_compatible same_by
  compatible_type-range n p q b j r u hp hb hq integer k = absurd (omega arith)
  compatible_type-range n p q b j r u hp hb hq real k = absurd (omega arith)
  compatible_type-range n p q b j r u hp hb hq long k = (
    rw
        (
          compatible_type-by h size (suc (suc n)) p q (range_decl r b) int64_decl hp hq,
          same_as-by h (suc n) p q (range_decl r b) int64_decl hp hq,
          type_of-IsNumber h (suc (suc n)) q hq long,
          type_of-range h (suc n) p b r hp hb,
          type_of-IsNumber h (suc n) q hq long,
          type_of-range h n p b r hp hb,
        )
        refl,
    rw
        (
          compatible_type-by h size (suc (suc n)) q p int64_decl (range_decl r b) hq hp,
          type_of-range h (suc n) p b r hp hb,
        )
        refl,
  )
  compatible_type-range n p q b j r u hp hb hq (complex fs c) k = (
    rw
        (
          compatible_type-by h size (suc (suc n)) p q (range_decl r b) (complex_decl fs c) hp hq,
          same_as-by h (suc n) p q (range_decl r b) (complex_decl fs c) hp hq,
          type_of-IsNumber h (suc (suc n)) q hq (complex fs c),
          type_of-range h (suc n) p b r hp hb,
          type_of-IsNumber h (suc n) q hq (complex fs c),
          type_of-range h n p b r hp hb,
        )
        refl,
    rw
        (
          compatible_type-by h size (suc (suc n)) q p (complex_decl fs c) (range_decl r b) hq hp,
          same_as-by h (suc n) q p (complex_decl fs c) (range_decl r b) hq hp,
          type_of-range h (suc n) p b r hp hb,
        )
        (this_if-numeric q (record_same h q c p (range_decl r b))),
  )
