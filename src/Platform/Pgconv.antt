-- ===== src/Platform/Pgconv.antt =====
-- backend/internal/platform/pgconv/pgconv.go: `NumericToString`, on texts that are lists of
-- character codes, with the decimal printer of `big.Int` that it calls.
pub mod Digits
pub mod RoundTrip
use infraestructura_y_servic.Base.{
  ℕ, zero, suc, ◌+◌, ◌-◌, ◌/◌, ◌%◌, ◌^◌, ◌<◌, Bool, true, false, Option, none, some, List, [], ◌∷◌,
  ◌++◌, ◌==◌, arith, length, replicate, if◌then◌else◌,
}
use infraestructura_y_servic.Base.Int.{ℤ, pos, negsuc, ◌*ℤ◌}

abbrev pub Text : Type 0
Text = List ℕ

-- A `pgtype.Numeric`: coefficient · 10 ^ exp, or NULL.
pub record Numeric : Type 0 where
  pub int : Option ℤ
  pub exp : ℤ
  pub valid : Bool

abbrev pub null_numeric : Numeric
null_numeric = record { int = none; exp = pos 0; valid = false }

-- A number's digits in front of a text, the last one first; `rounds` bounds how many there are, and
-- a number has at most as many digits as it is large.
unfoldable pub spell : ℕ → ℕ → Text → Text
spell zero n out = out
spell (suc rounds) n out =
    let more = spell rounds (n / 10) ((n % 10 + 48) ∷ out) in if n == 0 then out else more

-- `big.Int.String`.
unfoldable pub decimal : ℕ → Text
decimal n = if n == 0 then 48 ∷ [] else spell n n []

unfoldable pub big_string : ℤ → Text
big_string (pos n) = decimal n
big_string (negsuc n) = 45 ∷ decimal (suc n)

unfoldable pub repeat_zero : ℕ → Text
repeat_zero n = replicate n 48

-- `fmt.Sprintf("%0*s", scale, s)`.
unfoldable pub left_pad : ℕ → Text → Text
left_pad scale s = replicate (scale - length s) 48 ++ s

-- "int.frac", with `scale` digits behind the point.
unfoldable pub fixed_point : ℕ → ℕ → Text
fixed_point abs scale =
    decimal (abs / 10 ^ scale) ++ (46 ∷ left_pad scale (decimal (abs % 10 ^ scale)))

unfoldable pub signed_point : ℤ → ℕ → Text
signed_point (pos n) scale = fixed_point n scale
signed_point (negsuc n) scale = 45 ∷ fixed_point (suc n) scale

-- No coefficient counts as 0.
unfoldable pub text_of : Option ℤ → ℤ → Text
text_of none (pos e) = 48 ∷ []
text_of none (negsuc k) = 48 ∷ 46 ∷ repeat_zero (suc k)
text_of (some c) (pos zero) = big_string c
text_of (some c) (pos (suc e)) = big_string (c *ℤ pos (10 ^ suc e))
text_of (some c) (negsuc k) = signed_point c (suc k)

unfoldable pub numeric_to_string : Numeric → Text
numeric_to_string n = if n.valid then text_of n.int n.exp else []
