-- ===== src/Grades/Tests.antt =====
-- Runs of the arithmetic and the validation of schemes.
use infraestructura_y_servic.Base.{
  ℕ, ◌≡◌, ◌≢◌, refl, String, true, Option, some, List, [], ◌∷◌, All, arith, ◌↔◌,
}
use infraestructura_y_servic.Base.Int.{pos, negsuc, ◌+ℤ◌, ◌*ℤ◌}
use infraestructura_y_servic.Platform.Pgconv.{Numeric}
use infraestructura_y_servic.Driver.{ok}
use infraestructura_y_servic.Grades.Rat.{Rat, of_int, frac, add, mul, lt, le, quo, mod_ℤ, IsFrac}
use infraestructura_y_servic.Grades.Final.{
  GradeWeight, add_products, weighted_sum, compute_weighted_final, RoundsTo,
  compute_weighted_final-RoundsTo,
}
use infraestructura_y_servic.Grades.Numerics.{numeric_to_rat, numeric_to_rat-exact}
use infraestructura_y_servic.Grades.Weights.{
  Weight, texts, numerics, sum_from, same, IsWeight, weight_of, collect, total, validate_weights,
  validate_weights-IsWeight,
}

-- 3.9 and 4.0, at one half each: 3.95.
abbrev borderline : List GradeWeight
borderline =
    record { value = frac (pos 39) 10; weight = frac (pos 1) 2 }
    ∷ record { value = frac (pos 40) 10; weight = frac (pos 1) 2 }
    ∷ []

passes_by_rounding :
    compute_weighted_final borderline ≡ record { int_part = pos 4; frac_part = 0; passed = true }
unfolding compute_weighted_final weighted_sum add_products add mul le quo mod_ℤ ◌+ℤ◌ ◌*ℤ◌
passes_by_rounding = refl

compute_weighted_final-RoundsTo_example :
    (n : ℕ) × (d : ℕ) × IsFrac n d (weighted_sum borderline)
    × RoundsTo n d (compute_weighted_final borderline)
compute_weighted_final-RoundsTo_example = compute_weighted_final-RoundsTo borderline (
  (39, 10, 1, 2, (refl, refl, omega arith), (refl, refl, omega arith)),
  ((40, 10, 1, 2, (refl, refl, omega arith), (refl, refl, omega arith)), tt),
)

abbrev one_half : Numeric
one_half = record { int = some (pos 5); exp = negsuc 0; valid = true }

-- Readers for which every text is one half.
abbrev reads_half : String → Option Rat
reads_half _ = some (frac (pos 1) 2)

abbrev scans_half : String → Option Numeric
scans_half _ = some one_half

abbrev two_halves : List String
two_halves = "0.5" ∷ "0.5" ∷ []

accepts_two_halves :
    validate_weights reads_half scans_half two_halves ≡ ok (one_half ∷ one_half ∷ [])
unfolding validate_weights total collect weight_of add lt le ◌+ℤ◌ ◌*ℤ◌
accepts_two_halves = refl

validate_weights-IsWeight_example :
    (validate_weights reads_half scans_half two_halves ≡ ok (one_half ∷ one_half ∷ [])) ↔ (
      (two_halves ≢ [])
      × ((ws : List Weight) × All (IsWeight reads_half scans_half) ws
          × (texts ws ≡ two_halves)
          × (numerics ws ≡ (one_half ∷ one_half ∷ []))
          × (same (sum_from (of_int (pos 0)) ws) (of_int (pos 1)) ≡ true)))
validate_weights-IsWeight_example =
    validate_weights-IsWeight reads_half scans_half two_halves (one_half ∷ one_half ∷ [])

-- -1.5.
numeric_to_rat-exact_example :
    numeric_to_rat (record { int = some (negsuc 14); exp = negsuc 0; valid = true })
    ≡ some (frac (negsuc 14) 10)
numeric_to_rat-exact_example =
    numeric_to_rat-exact (record { int = some (negsuc 14); exp = negsuc 0; valid = true }) refl
