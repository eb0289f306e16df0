-- ===== src/Platform/Pgconv/Digits.antt =====
-- Digits: how many `big.Int.String` prints, and the number they spell.
use native.Mathlib.Nat.{pow-succ'}
use infraestructura_y_servic.Base.{
  ℕ, ap, any_of, zero, suc, ◌+◌, ◌-◌, ◌*◌, ◌/◌, ◌%◌, ◌^◌, ◌≤◌, ◌<◌, ◌≡◌, refl, Bool-cases, inl, inr,
  Bool, true, ◌&&◌, [], ◌∷◌, ◌++◌, ◌==◌, leb, arith, length, replicate, All,
}
use infraestructura_y_servic.Platform.Pgconv.{Text, spell, decimal, left_pad}

pub spell_append : (r n : ℕ) (a b : Text) → spell r n a ++ b ≡ spell r n (a ++ b)
unfolding spell
spell_append zero n a b = refl
spell_append (suc r) n a b = ground (arith, spell_append r (n / 10) ((n % 10 + 48) ∷ a) b)

abbrev pub IsDigit : ℕ → Type 0
IsDigit c = (48 ≤ c) × (c ≤ 57)

-- The number that digits spell behind `n`.
unfoldable pub value : Text → ℕ → ℕ
value [] n = n
value (c ∷ s) n = value s (n * 10 + (c - 48))

pub value-shift : (s : Text) (n : ℕ) → value s n ≡ n * 10 ^ length s + value s 0
unfolding value
value-shift [] n = omega arith
value-shift (c ∷ s) n =
    let shifted : (l d v : ℕ) → (n * 10 + d) * l + v ≡ n * (10 * l) + ((0 * 10 + d) * l + v) =
      λ l d v. grind arith in
    rw
      (
        pow-succ' 10 (length s),
        value-shift s (n * 10 + (c - 48)),
        value-shift s (0 * 10 + (c - 48)),
      )
      (shifted (10 ^ length s) (c - 48) (value s 0))

value-spell : (r n : ℕ) (out : Text) → n ≤ r → value (spell r n out) 0 ≡ value out n
unfolding value spell
value-spell zero n out h = ap (value out) (omega arith)
value-spell (suc r) n out h = ground (arith, value-spell r (n / 10) ((n % 10 + 48) ∷ out))

pub value-decimal : (n : ℕ) → value (decimal n) 0 ≡ n
unfolding decimal value
value-decimal n = ground (arith, value-spell n n [])

pub length-zeros : (k : ℕ) → length (replicate {A = ℕ} k 48) ≡ k
length-zeros zero = refl
length-zeros (suc k) = ap suc (length-zeros k)

pub value-replicate : (z : ℕ) (s : Text) → value (replicate z 48 ++ s) 0 ≡ value s 0
unfolding value
value-replicate zero s = refl
value-replicate (suc z) s = value-replicate z s

length-spell : (r s n : ℕ) (out : Text) → n < 10 ^ s → length (spell r n out) ≤ s + length out
unfolding spell
length-spell zero s n out h = omega arith
length-spell (suc r) zero n out h = ground arith
length-spell (suc r) (suc s) n out h =
    ground (arith, length-spell r s (n / 10) ((n % 10 + 48) ∷ out), pow-succ' 10 s)

All-spell : (r n : ℕ) (out : Text) → All IsDigit out → All IsDigit (spell r n out)
unfolding spell
All-spell zero n out h = h
All-spell (suc r) n out h = elim (Bool-cases (n == 0)) [
  | inl e ↦ rw e h
  | inr e ↦ rw e (All-spell r (n / 10) ((n % 10 + 48) ∷ out) ((omega arith, omega arith), h))
]

pub All-append : (a b : Text) → All IsDigit a → All IsDigit b → All IsDigit (a ++ b)
All-append [] b h k = k
All-append (c ∷ a) b h k = (h.0, All-append a b h.1 k)

pub All-zeros : (z : ℕ) → All IsDigit (replicate z 48)
All-zeros zero = tt
All-zeros (suc z) = ((omega arith, omega arith), All-zeros z)

pub All-decimal : (n : ℕ) → All IsDigit (decimal n)
unfolding decimal
All-decimal n = elim (Bool-cases (n == 0)) [
  | inl e ↦ rw e ((omega arith, omega arith), tt)
  | inr e ↦ rw e (All-spell n n [] tt)
]

pub length-decimal : (s n : ℕ) → n < 10 ^ suc s → length (decimal n) ≤ suc s
unfolding decimal
length-decimal s n h = ground (arith, length-spell n (suc s) n [] h)

length-pad : (z : ℕ) (s : Text) → length (replicate z 48 ++ s) ≡ z + length s
length-pad zero s = omega arith
length-pad (suc z) s = ground (arith, length-pad z s)

pub length-left_pad : (scale : ℕ) (s : Text) → length s ≤ scale → length (left_pad scale s) ≡ scale
unfolding left_pad
length-left_pad scale s h = omega (arith, length-pad (scale - length s) s)

pub pow_pos : (k : ℕ) → 0 < 10 ^ k
pow_pos zero = omega arith
pow_pos (suc k) = omega (arith, pow-succ' 10 k, pow_pos k)

pub value-zeros : (k : ℕ) → value (replicate k 48) 0 ≡ 0
unfolding value
value-zeros zero = refl
value-zeros (suc k) = value-zeros k

-- A text with a digit in it.
abbrev pub is_digit : ℕ → Bool
is_digit c = leb 48 c && leb c 57

le-length-spell : (r n : ℕ) (out : Text) → length out ≤ length (spell r n out)
unfolding spell
le-length-spell zero n out = omega arith
le-length-spell (suc r) n out = ground (arith, le-length-spell r (n / 10) ((n % 10 + 48) ∷ out))

any_of-digits : (s : Text) → All IsDigit s → 0 < length s → any_of is_digit s ≡ true
unfolding any_of
any_of-digits [] h k = absurd (omega arith)
any_of-digits (c ∷ s) h k = ground arith

any_of-append : (a b : Text) → any_of is_digit a ≡ true → any_of is_digit (a ++ b) ≡ true
unfolding any_of
any_of-append [] b h = absurd (cc)
any_of-append (c ∷ a) b h = ground (arith, any_of-append a b)

pub length-decimal_positive : (n : ℕ) → 0 < length (decimal n)
unfolding decimal spell
length-decimal_positive zero = omega arith
length-decimal_positive (suc n) =
    ground (arith, le-length-spell n (suc n / 10) ((suc n % 10 + 48) ∷ []))

pub any_of-decimal : (n : ℕ) (out : Text) → any_of is_digit (decimal n ++ out) ≡ true
any_of-decimal n out =
    any_of-append (decimal n) out
      (any_of-digits (decimal n) (All-decimal n) (length-decimal_positive n))
