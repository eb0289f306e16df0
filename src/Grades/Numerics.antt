-- ===== src/Grades/Numerics.antt =====
-- backend/internal/grades/repository.go, `numericToRat`: the rational that a `pgtype.Numeric` is
-- read as, through its text. `big.Rat.SetString` is modelled on plain decimals, the texts that
-- `NumericToString` prints.
use infraestructura_y_servic.Base.{
  ℕ, zero, suc, ◌^◌, ◌≡◌, refl, ◌∙◌, subst, ◌<◌, ◌++◌, append-nil, All, length, true, false, Option,
  none, some, [], ◌∷◌, ◌==◌, any_of, arith, if◌then◌else◌,
}
use infraestructura_y_servic.Base.Int.{ℤ, pos, negsuc, ◌*ℤ◌}
use infraestructura_y_servic.Platform.Pgconv.{
  Text, Numeric, numeric_to_string, repeat_zero, decimal, text_of, big_string, signed_point,
  fixed_point,
}
use infraestructura_y_servic.Platform.Pgconv.RoundTrip.{
  mantissa, mantissa-big, mantissa-zeros, mantissa-fixed_point,
}
use infraestructura_y_servic.Platform.Pgconv.Digits.{
  IsDigit, is_digit, All-decimal, any_of-decimal, length-decimal_positive,
}
use infraestructura_y_servic.Grades.Rat.{Rat, frac, neg}

-- A number over the power of ten that the digits behind the point make.
unfoldable pub with_point : (ℕ → ℤ) → Option (ℕ × ℕ) → Option Rat
with_point sign none = none
with_point sign (some (n, k)) = some (frac (sign n) (10 ^ k))

unfoldable pub unsigned : (ℕ → ℤ) → Text → Option Rat
unsigned sign s = if any_of is_digit s then with_point sign (mantissa s 0 false 0) else none

unfoldable pub set_string : Text → Option Rat
set_string [] = none
set_string (c ∷ s) = if c == 45 then unsigned neg s else unsigned pos (c ∷ s)

unfoldable pub numeric_to_rat : Numeric → Option Rat
numeric_to_rat n = if n.valid then set_string (numeric_to_string n) else none

-- coefficient · 10 ^ exp.
abbrev pub exact : Option ℤ → ℤ → Rat
exact none (pos e) = frac (pos 0) 1
exact none (negsuc k) = frac (pos 0) (10 ^ suc k)
exact (some c) (pos zero) = frac c 1
exact (some c) (pos (suc e)) = frac (c *ℤ pos (10 ^ suc e)) 1
exact (some c) (negsuc k) = frac c (10 ^ suc k)

set_string-negative :
    (n : ℕ) (out : Text)
    → set_string (45 ∷ decimal n ++ out) ≡ with_point neg (mantissa (decimal n ++ out) 0 false 0)
unfolding set_string unsigned
set_string-negative n out = rw (any_of-decimal n out) refl

-- A text that starts with a digit has no sign.
set_string-unsigned :
    (s out : Text) → All IsDigit s → 0 < length s → set_string (s ++ out) ≡ unsigned pos (s ++ out)
unfolding set_string
set_string-unsigned [] out h k = absurd (omega arith)
set_string-unsigned (c ∷ s) out h k = ground arith

set_string-positive :
    (n : ℕ) (out : Text)
    → set_string (decimal n ++ out) ≡ with_point pos (mantissa (decimal n ++ out) 0 false 0)
unfolding unsigned
set_string-positive n out =
    set_string-unsigned (decimal n) out (All-decimal n) (length-decimal_positive n)
    ∙ rw (any_of-decimal n out) refl

set_string-big : (c : ℤ) → set_string (big_string c) ≡ some (frac c 1)
unfolding big_string with_point
set_string-big (pos n) =
    subst (λ s. set_string s ≡ some (frac (pos n) 1)) (append-nil (decimal n))
      (set_string-positive n [] ∙ rw (append-nil (decimal n), mantissa-big n) refl)
set_string-big (negsuc n) =
    subst (λ s. set_string (45 ∷ s) ≡ some (frac (negsuc n) 1)) (append-nil (decimal (suc n)))
      (set_string-negative (suc n) []
        ∙ rw (append-nil (decimal (suc n)), mantissa-big (suc n)) refl)

set_string-point :
    (c : ℤ) (k : ℕ) → set_string (signed_point c (suc k)) ≡ some (frac c (10 ^ suc k))
unfolding signed_point fixed_point with_point
set_string-point (pos n) k = set_string-positive _ _ ∙ rw (mantissa-fixed_point n k) refl
set_string-point (negsuc n) k = set_string-negative _ _ ∙ rw (mantissa-fixed_point (suc n) k) refl

set_string-zeros : (k : ℕ) → set_string (48 ∷ 46 ∷ repeat_zero k) ≡ some (frac (pos 0) (10 ^ k))
unfolding set_string unsigned any_of with_point
set_string-zeros k = rw (mantissa-zeros k) refl

text_of-exact : (i : Option ℤ) (e : ℤ) → set_string (text_of i e) ≡ some (exact i e)
unfolding text_of set_string unsigned any_of mantissa with_point
text_of-exact none (pos e) = refl
text_of-exact none (negsuc k) = set_string-zeros (suc k)
text_of-exact (some c) (pos zero) = set_string-big c
text_of-exact (some c) (pos (suc e)) = set_string-big (c *ℤ pos (10 ^ suc e))
text_of-exact (some c) (negsuc k) = set_string-point c k

-- Reading the text of a number that is not NULL gives exactly the number.
pub numeric_to_rat-exact :
    (n : Numeric) → n.valid ≡ true → numeric_to_rat n ≡ some (exact n.int n.exp)
unfolding numeric_to_rat numeric_to_string
numeric_to_rat-exact n h = rw h (text_of-exact n.int n.exp)
