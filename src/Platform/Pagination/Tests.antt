-- ===== src/Platform/Pagination/Tests.antt =====
-- Three rows in pages of two, and the bounds 20 to 200 of the services.
use infraestructura_y_servic.Base.{ℕ, ◌≡◌, none, List, [], ◌∷◌, arith}
use infraestructura_y_servic.Base.Int.{pos, negsuc, ◌≤ℤ◌}
use infraestructura_y_servic.Platform.Pagination.{Clamp, apply, apply-bounds}
use infraestructura_y_servic.Platform.Pagination.Walk.{walk, walk-all}

abbrev service_clamp : Clamp
service_clamp = record { min = pos 20; max = pos 200 }

apply-bounds_example :
    (pos 20 ≤ℤ apply service_clamp (negsuc 4))
    × (apply service_clamp (negsuc 4) ≤ℤ pos 200)
    × (pos 20 ≤ℤ negsuc 4 → negsuc 4 ≤ℤ pos 200 → apply service_clamp (negsuc 4) ≡ negsuc 4)
apply-bounds_example = apply-bounds service_clamp (negsuc 4) (omega arith)

abbrev by_number : ℕ → ℕ
by_number n = n

abbrev three_rows : List ℕ
three_rows = 30 ∷ 20 ∷ 10 ∷ []

walk-all_example : walk by_number three_rows 2 3 none ≡ three_rows
walk-all_example =
    walk-all by_number three_rows 1 3
      ((omega arith, (omega arith, tt)), ((omega arith, tt), (tt, tt))) (omega arith)
