-- ===== src/Grades/Weights.antt =====
-- backend/internal/grades/service.go: `validateWeights` and `parseGradeValue`. The decimal readers,
-- `big.Rat.SetString` and `pgtype.Numeric.Scan`, are parameters.
use infraestructura_y_servic.Base.{
  ◌≡◌, ◌≢◌, String, Bool, true, false, ◌&&◌, ◌||◌, Option, none, some, List, [], ◌∷◌, All, refl,
  arith, if◌then◌else◌, inl, inr, Option-cases, ◌↔◌,
}
use infraestructura_y_servic.Base.Int.{pos}
use infraestructura_y_servic.Platform.Pgconv.{Numeric}
use infraestructura_y_servic.Driver.{Result, ok, err}
use infraestructura_y_servic.Driver.Laws.{Result-cases}
use infraestructura_y_servic.Grades.Errors.{Error, scheme_incomplete, invalid_input}
use infraestructura_y_servic.Grades.Rat.{Rat, of_int, frac, add, lt, le}

-- `a.Cmp(b) == 0`.
abbrev pub same : Rat → Rat → Bool
same a b = le a b && le b a

-- A weight's text, the decimal it reads as, and what `Scan` gives for it.
pub record Weight : Type 0 where
  pub text : String
  pub value : Rat
  pub scanned : Numeric

abbrev pub texts : List Weight → List String
texts [] = []
texts (w ∷ ws) = w.text ∷ texts ws

abbrev pub numerics : List Weight → List Numeric
numerics [] = []
numerics (w ∷ ws) = w.scanned ∷ numerics ws

-- The sum of the decimals, from a first term on.
abbrev pub sum_from : Rat → List Weight → Rat
sum_from sum [] = sum
sum_from sum (w ∷ ws) = sum_from (add sum w.value) ws

module _ (set_string : String → Option Rat) (scan : String → Option Numeric) where
  -- A weight of the list: a decimal in (0, 1.0] that `Scan` accepts.
  unfoldable pub weight_of : String → Result Error (Rat × Numeric)
  weight_of s = elim (set_string s) [
    | none ↦ err invalid_input
    | some r ↦
        if le r (of_int (pos 0)) || lt (of_int (pos 1)) r
        then err invalid_input
        else (elim (scan s) [ none ↦ err invalid_input | some n ↦ ok (r, n) ])
  ]

  -- The loop, from the sum so far.
  unfoldable pub collect : Rat → List String → Result Error (Rat × List Numeric)
  collect sum [] = ok (sum, [])
  collect sum (s ∷ strs) = elim (weight_of s) [
    | err e ↦ err e
    | ok w ↦ elim (collect (add sum w.0) strs) [
      | err e ↦ err e
      | ok rest ↦ ok (rest.0, w.1 ∷ rest.1)
    ]
  ]

  unfoldable pub total : Result Error (Rat × List Numeric) → Result Error (List Numeric)
  total (err e) = err e
  total (ok w) = if same w.0 (of_int (pos 1)) then ok w.1 else err scheme_incomplete

  unfoldable pub validate_weights : List String → Result Error (List Numeric)
  validate_weights [] = err scheme_incomplete
  validate_weights (s ∷ strs) = total (collect (of_int (pos 0)) (s ∷ strs))

  unfoldable pub parse_grade_value : String → Result Error Numeric
  parse_grade_value s = elim (set_string s) [
    | none ↦ err invalid_input
    | some r ↦
        if lt r (frac (pos 10) 10) || lt (frac (pos 70) 10) r
        then err invalid_input
        else (elim (scan s) [ none ↦ err invalid_input | some n ↦ ok n ])
  ]

  -- A weight as it should be: it reads as a decimal in (0, 1.0], and `Scan` accepts it.
  abbrev pub IsWeight : Weight → Type 0
  IsWeight w =
      (set_string w.text ≡ some w.value)
      × (le w.value (of_int (pos 0)) ≡ false)
      × (lt (of_int (pos 1)) w.value ≡ false)
      × (scan w.text ≡ some w.scanned)

  weight_of-IsWeight :
      (s : String) {r : Rat} {n : Numeric}
      → weight_of s ≡ ok (r, n)
      → IsWeight (record { text = s; value = r; scanned = n })
  unfolding weight_of
  weight_of-IsWeight s {r} {n} h = elim (Option-cases (set_string s)) [
    | inl e ↦ absurd (ground arith)
    | inr (x, e) ↦ elim (Option-cases (scan s)) [
      | inl k ↦ absurd (ground arith)
      | inr (m, k) ↦ (ground arith, ground arith, ground arith, ground arith)
    ]
  ]

  collect-IsWeight :
      (sum : Rat) (strs : List String) {end : Rat} {ns : List Numeric}
      → collect sum strs ≡ ok (end, ns)
      → (ws : List Weight) × All IsWeight ws
        × (texts ws ≡ strs)
        × (numerics ws ≡ ns)
        × (sum_from sum ws ≡ end)
  unfolding collect
  collect-IsWeight sum [] {end} {ns} h = ([], tt, refl, ground arith, ground arith)
  collect-IsWeight sum (s ∷ strs) {end} {ns} h = elim (Result-cases (weight_of s)) [
    | inr (e, q) ↦ absurd (ground arith)
    | inl ((r, n), q) ↦ elim (Result-cases (collect (add sum r) strs)) [
      | inr (e, k) ↦ absurd (ground arith)
      | inl ((end', ns'), k) ↦
          let (ws, each, t, u, s') = collect-IsWeight (add sum r) strs k in
          (
            record { text = s; value = r; scanned = n } ∷ ws,
            (weight_of-IsWeight s q, each),
            ground arith,
            ground arith,
            ground arith,
          )
    ]
  ]

  weight_of-accepts : (w : Weight) → IsWeight w → weight_of w.text ≡ ok (w.value, w.scanned)
  unfolding weight_of
  weight_of-accepts w (a, b, c, d) = ground arith

  collect-accepts :
      (sum : Rat) (ws : List Weight)
      → All IsWeight ws
      → collect sum (texts ws) ≡ ok (sum_from sum ws, numerics ws)
  unfolding collect
  collect-accepts sum [] h = refl
  collect-accepts sum (w ∷ ws) (h, rest) =
      let q = weight_of-accepts w h in
      let k = collect-accepts (add sum w.value) ws rest in ground arith

  -- A list of weights is accepted exactly where it is not empty, each of its texts reads as a decimal
  -- in (0, 1.0] and is accepted by `Scan`, and these decimals add up to exactly 1. What is returned
  -- are the numbers that `Scan` gives for the texts, in their order.
  pub validate_weights-IsWeight :
      (strs : List String) (ns : List Numeric)
      → (validate_weights strs ≡ ok ns) ↔ (
          (strs ≢ [])
          × ((ws : List Weight) × All IsWeight ws
              × (texts ws ≡ strs)
              × (numerics ws ≡ ns)
              × (same (sum_from (of_int (pos 0)) ws) (of_int (pos 1)) ≡ true)))
  unfolding validate_weights total
  validate_weights-IsWeight [] ns =
      (λ h. absurd (ground arith), λ (some_text, _). absurd (some_text refl))
  validate_weights-IsWeight (s ∷ strs) ns = (
    λ h. elim (Result-cases (collect (of_int (pos 0)) (s ∷ strs))) [
      | inr (e, q) ↦ absurd (ground arith)
      | inl ((end, ns'), q) ↦
          let (ws, each, t, u, s') = collect-IsWeight (of_int (pos 0)) (s ∷ strs) q in
          ((λ e. ground arith), (ws, each, t, ground arith, ground arith))
    ],
    λ (_, (ws, each, t, u, one)). let k = collect-accepts (of_int (pos 0)) ws each in ground arith,
  )

  -- A grade is accepted exactly where its text reads as a decimal in [1.0, 7.0] and
  -- `Scan` accepts it.
  pub parse_grade_value-accepts :
      (s : String) (n : Numeric)
      → (parse_grade_value s ≡ ok n) ↔ (
          (r : Rat) × (set_string s ≡ some r)
          × (lt r (frac (pos 10) 10) ≡ false)
          × (lt (frac (pos 70) 10) r ≡ false)
          × (scan s ≡ some n))
  unfolding parse_grade_value
  parse_grade_value-accepts s n = (
    λ h. elim (Option-cases (set_string s)) [
      | inl e ↦ absurd (ground arith)
      | inr (r, e) ↦ elim (Option-cases (scan s)) [
        | inl k ↦ absurd (ground arith)
        | inr (m, k) ↦ (r, e, ground arith, ground arith, ground arith)
      ]
    ],
    λ (r, e, lo, hi, k). ground arith,
  )
