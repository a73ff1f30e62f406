-- ===== src/Parser/Order.antt =====
-- The order of the binding strengths, and the one above a strength.
use lacsap.Prelude.{zero, suc, ◌≡◌, arith, true, false}
use lacsap.Prelude.Int.{ℤ, pos, negsuc, ltb_ℤ}
use lacsap.Parser.ConstExpr.{next_prec}

-- The order of precedences
abbrev pub IsLe : ℤ → ℤ → Type 0
IsLe a b = ltb_ℤ b a ≡ false

pub IsLe-trans : (a b c : ℤ) → IsLe a b → IsLe b c → IsLe a c
IsLe-trans (pos a) (pos b) (pos c) h k = ground arith
IsLe-trans (pos a) (pos b) (negsuc c) h k = ground arith
IsLe-trans (pos a) (negsuc b) c h k = ground arith
IsLe-trans (negsuc a) (pos b) (pos c) h k = ground arith
IsLe-trans (negsuc a) (pos b) (negsuc c) h k = ground arith
IsLe-trans (negsuc a) (negsuc b) (pos c) h k = ground arith
IsLe-trans (negsuc a) (negsuc b) (negsuc c) h k = ground arith

pub IsLe-self : (a : ℤ) → IsLe a a
IsLe-self (pos a) = ground arith
IsLe-self (negsuc a) = ground arith

-- `a ≤ b` says that `a < b + 1`.
pub lt_next : (a b : ℤ) → IsLe a b → ltb_ℤ a (next_prec b) ≡ true
lt_next (pos a) (pos b) h = ground arith
lt_next (pos a) (negsuc zero) h = ground arith
lt_next (pos a) (negsuc (suc b)) h = ground arith
lt_next (negsuc a) (pos b) h = ground arith
lt_next (negsuc a) (negsuc zero) h = ground arith
lt_next (negsuc a) (negsuc (suc b)) h = ground arith

-- `b + 1 ≤ a` says that `b < a`.
pub next_le : (a b : ℤ) → IsLe (next_prec b) a → ltb_ℤ b a ≡ true
next_le (pos a) (pos b) h = ground arith
next_le (pos a) (negsuc b) h = ground arith
next_le (negsuc a) (pos b) h = ground arith
next_le (negsuc a) (negsuc zero) h = ground arith
next_le (negsuc a) (negsuc (suc b)) h = ground arith

pub le_next : (a b : ℤ) → IsLe a b → IsLe a (next_prec b)
le_next (pos a) (pos b) h = ground arith
le_next (pos a) (negsuc zero) h = ground arith
le_next (pos a) (negsuc (suc b)) h = ground arith
le_next (negsuc a) (pos b) h = ground arith
le_next (negsuc a) (negsuc zero) h = ground arith
le_next (negsuc a) (negsuc (suc b)) h = ground arith
