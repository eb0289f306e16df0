-- ===== src/Grades/Rat.antt =====
-- Go's `*big.Rat`, as a numerator and a positive denominator that need not be in lowest terms: every
-- operation below gives the same rational either way.
use infraestructura_y_servic.Base.{
  ℕ, zero, suc, ◌+◌, ◌-◌, ◌*◌, ◌/◌, ◌%◌, ◌≡◌, ◌<◌, Bool, refl, arith,
}
use infraestructura_y_servic.Base.Int.{ℤ, pos, negsuc, ◌+ℤ◌, ◌*ℤ◌, ltb_ℤ, leb_ℤ}

pub record Rat : Type 0 where
  pub num : ℤ
  pub den : ℕ

abbrev pub of_int : ℤ → Rat
of_int n = record { num = n; den = 1 }

-- `SetFrac`, for a positive denominator.
abbrev pub frac : ℤ → ℕ → Rat
frac n d = record { num = n; den = d }

unfoldable pub mul : Rat → Rat → Rat
mul a b = record { num = a.num *ℤ b.num; den = a.den * b.den }

unfoldable pub add : Rat → Rat → Rat
add a b = record { num = a.num *ℤ pos b.den +ℤ b.num *ℤ pos a.den; den = a.den * b.den }

-- `a.Cmp(b) < 0`, `<= 0`.
unfoldable pub lt : Rat → Rat → Bool
lt a b = ltb_ℤ (a.num *ℤ pos b.den) (b.num *ℤ pos a.den)

unfoldable pub le : Rat → Rat → Bool
le a b = leb_ℤ (a.num *ℤ pos b.den) (b.num *ℤ pos a.den)

abbrev pub neg : ℕ → ℤ
neg zero = pos zero
neg (suc n) = negsuc n

-- `big.Int.Quo`: truncated towards zero.
unfoldable pub quo : ℤ → ℕ → ℤ
quo (pos n) d = pos (n / d)
quo (negsuc n) d = neg (suc n / d)

-- `big.Int.Mod`: Euclidean, never negative.
unfoldable pub mod_ℤ : ℤ → ℕ → ℕ
mod_ℤ (pos n) d = n % d
mod_ℤ (negsuc n) d = d - 1 - n % d

-- A rational that is n / d, with d positive.
abbrev pub IsFrac : ℕ → ℕ → Rat → Type 0
IsFrac n d r = (r.num ≡ pos n) × (r.den ≡ d) × (0 < d)

pos-mul : (m n : ℕ) → pos m *ℤ pos n ≡ pos (m * n)
unfolding ◌*ℤ◌
pos-mul m n = ground arith

pos-add : (m n : ℕ) → pos m +ℤ pos n ≡ pos (m + n)
unfolding ◌+ℤ◌
pos-add m n = ground arith

lt-mul : (d e : ℕ) → 0 < d → 0 < e → 0 < d * e
lt-mul zero e p q = absurd (omega arith)
lt-mul (suc d) zero p q = absurd (omega arith)
lt-mul (suc d) (suc e) p q = ground arith

pub mul-IsFrac :
    {n d m e : ℕ} (a b : Rat) → IsFrac n d a → IsFrac m e b → IsFrac (n * m) (d * e) (mul a b)
unfolding mul
mul-IsFrac {n} {d} {m} {e} a b (p, q, r) (s, t, u) =
    (rw (p, s) (pos-mul n m), rw (q, t) refl, lt-mul d e r u)

pub add-IsFrac :
    {n d m e : ℕ} (a b : Rat)
    → IsFrac n d a
    → IsFrac m e b
    → IsFrac (n * e + m * d) (d * e) (add a b)
unfolding add
add-IsFrac {n} {d} {m} {e} a b (p, q, r) (s, t, u) = (
  rw (p, q, s, t, pos-mul n e, pos-mul m d) (pos-add (n * e) (m * d)),
  rw (q, t) refl,
  lt-mul d e r u,
)
