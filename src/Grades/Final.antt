-- ===== src/Grades/Final.antt =====
-- backend/internal/grades/service.go, `computeWeightedFinal`: the weighted sum of exact rationals,
-- rounded half up to one decimal, and the threshold 4.0.
use native.Mathlib.Nat.{le-div_iff_mul-le, div-lt_iff_lt-mul}
use infraestructura_y_servic.Base.{
  ℕ, ◌+◌, ◌*◌, ◌/◌, ◌%◌, ◌≡◌, ◌≤◌, ◌<◌, ◌↔◌, Bool, true, refl, List, [], ◌∷◌, All, arith,
}
use infraestructura_y_servic.Base.Int.{ℤ, pos, ◌*ℤ◌}
use infraestructura_y_servic.Grades.Rat.{
  Rat, of_int, frac, mul, add, le, quo, mod_ℤ, IsFrac, mul-IsFrac, add-IsFrac,
}

pub record GradeWeight : Type 0 where
  pub value : Rat
  pub weight : Rat

-- The string "X.Y" by its two parts, and whether the course is passed.
pub record Final : Type 0 where
  pub int_part : ℤ
  pub frac_part : ℕ
  pub passed : Bool

-- The loop that adds the products to the sum.
unfoldable pub add_products : Rat → List GradeWeight → Rat
add_products sum [] = sum
add_products sum (p ∷ pairs) = add_products (add sum (mul p.value p.weight)) pairs

unfoldable pub weighted_sum : List GradeWeight → Rat
weighted_sum pairs = add_products (of_int (pos 0)) pairs

abbrev rounded : ℤ → Final
rounded n = record {
  int_part = quo n 10;
  frac_part = mod_ℤ n 10;
  passed = le (of_int (pos 4)) (frac n 10);
}

abbrev scaled : Rat → Rat
scaled sum = add (mul sum (of_int (pos 10))) (frac (pos 1) 2)

unfoldable pub compute_weighted_final : List GradeWeight → Final
compute_weighted_final pairs = let s = scaled (weighted_sum pairs) in rounded (quo s.num s.den)

-- A grade and a weight as the tables hold them: not negative.
abbrev pub IsGraded : GradeWeight → Type 0
IsGraded p = (n : ℕ) × (d : ℕ) × (m : ℕ) × (e : ℕ) × IsFrac n d p.value × IsFrac m e p.weight

add_products-IsFrac :
    (sum : Rat) (pairs : List GradeWeight) (n d : ℕ)
    → IsFrac n d sum
    → All IsGraded pairs
    → (k : ℕ) × (l : ℕ) × IsFrac k l (add_products sum pairs)
unfolding add_products
add_products-IsFrac sum [] n d h g = (n, d, h)
add_products-IsFrac sum (p ∷ pairs) n d h ((a, b, m, e, hv, hw), rest) =
    add_products-IsFrac (add sum (mul p.value p.weight)) pairs (n * (b * e) + (a * m) * d)
      (d * (b * e)) (add-IsFrac sum (mul p.value p.weight) h (mul-IsFrac p.value p.weight hv hw))
      rest

-- What rounding n / d half up to tenths gives, and when that passes.
abbrev pub RoundsTo : ℕ → ℕ → Final → Type 0
RoundsTo n d f =
    (t : ℕ) × (f.int_part ≡ pos (t / 10))
    × (f.frac_part ≡ t % 10)
    × (t * (2 * d) ≤ 20 * n + d)
    × (20 * n + d < (t + 1) * (2 * d))
    × ((f.passed ≡ true) ↔ (79 * d ≤ 20 * n))

-- Four, against a number of tenths.
le-frac : (t : ℕ) → (le (of_int (pos 4)) (frac (pos t) 10) ≡ true) ↔ (40 ≤ t)
unfolding le ◌*ℤ◌
le-frac t = (λ h. ground arith, λ h. ground arith)

rounded-RoundsTo :
    (n d : ℕ) (sum : Rat)
    → IsFrac n d sum
    → RoundsTo n d (rounded (quo (scaled sum).num (scaled sum).den))
unfolding quo mod_ℤ
rounded-RoundsTo n d sum h =
    let s =
      add-IsFrac (mul sum (of_int (pos 10))) (frac (pos 1) 2)
        (mul-IsFrac sum (of_int (pos 10)) h (refl, refl, omega arith)) (refl, refl, omega arith) in
    let q1 : n * 10 * 2 + 1 * (d * 1) ≡ 20 * n + d = omega arith in
    let q2 : d * 1 * 2 ≡ 2 * d = omega arith in
    let t : ℕ = (20 * n + d) / (2 * d) in
    let q : quo (scaled sum).num (scaled sum).den ≡ pos t = rw (s.0, s.1, q1, q2) refl in
    let wide : 0 < 2 * d = omega (arith, h.2) in
    let low = (le-div_iff_mul-le {k = 2 * d} {x = t} {y = 20 * n + d} wide).0 (omega arith) in
    let high = (div-lt_iff_lt-mul {k = 2 * d} {x = 20 * n + d} {y = t + 1} wide).0 (omega arith) in
    let bar = le-div_iff_mul-le {k = 2 * d} {x = 40} {y = 20 * n + d} wide in
    rw q (
      t,
      refl,
      refl,
      low,
      high,
      (λ y. omega (arith, bar.0 ((le-frac t).0 y)), λ y. (le-frac t).1 (bar.1 (omega arith))),
    )

-- For grades and weights that are not negative, the final is the exact weighted sum n / d rounded
-- half up to one decimal, and the course is passed exactly where that sum is at least 3.95.
pub compute_weighted_final-RoundsTo :
    (pairs : List GradeWeight)
    → All IsGraded pairs
    → (n : ℕ) × (d : ℕ) × IsFrac n d (weighted_sum pairs)
      × RoundsTo n d (compute_weighted_final pairs)
unfolding compute_weighted_final weighted_sum
compute_weighted_final-RoundsTo pairs g =
    let (n, d, h) = add_products-IsFrac (of_int (pos 0)) pairs 0 1 (refl, refl, omega arith) g in
    (n, d, h, rounded-RoundsTo n d (weighted_sum pairs) h)
