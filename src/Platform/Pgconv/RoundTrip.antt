-- ===== src/Platform/Pgconv/RoundTrip.antt =====
-- What the text of a `pgtype.Numeric` reads back as.
use native.Mathlib.Nat.{mod-lt, div-add-mod'}
use infraestructura_y_servic.Base.{
  ℕ, append-nil, zero, ap, ◌≤◌, suc, ◌+◌, ◌-◌, ◌*◌, ◌/◌, ◌%◌, ◌^◌, ◌≡◌, ◌∙◌, subst, Bool, true,
  false, not, ◌&&◌, Option, none, some, [], ◌∷◌, ◌++◌, ◌==◌, leb, arith, length, replicate,
  if◌then◌else◌, All,
}
use infraestructura_y_servic.Platform.Pgconv.{
  Text, spell, decimal, left_pad, fixed_point, repeat_zero,
}
use infraestructura_y_servic.Platform.Pgconv.Digits.{
  spell_append, IsDigit, value, value-shift, value-decimal, length-zeros, value-replicate,
  All-append, All-zeros, All-decimal, length-decimal, length-left_pad, pow_pos, value-zeros,
}

-- Decimals as they are printed: the digits' number, and how many of them stand behind the point.
unfoldable pub mantissa : Text → ℕ → Bool → ℕ → Option (ℕ × ℕ)
mantissa [] n seen k = some (n, k)
mantissa (c ∷ s) n seen k =
    if leb 48 c && leb c 57
    then mantissa s (n * 10 + (c - 48)) seen (if seen then suc k else k)
    else if c == 46 && not seen
    then mantissa s n true k
    else none

-- Digits before the point.
mantissa-spell :
    (r n : ℕ) (out : Text) → n ≤ r → mantissa (spell r n out) 0 false 0 ≡ mantissa out n false 0
unfolding mantissa spell
mantissa-spell zero n out h = ap (λ x. mantissa out x false 0) (omega arith)
mantissa-spell (suc r) n out h = ground (arith, mantissa-spell r (n / 10) ((n % 10 + 48) ∷ out))

mantissa-decimal :
    (n : ℕ) (out : Text) → mantissa (decimal n ++ out) 0 false 0 ≡ mantissa out n false 0
unfolding decimal mantissa
mantissa-decimal n out = ground (arith, spell_append n n [] out, mantissa-spell n n out)

-- Digits behind the point.
mantissa-value :
    (s : Text) (n k : ℕ) → All IsDigit s → mantissa s n true k ≡ some (value s n, k + length s)
unfolding mantissa value
mantissa-value [] n k h = ground arith
mantissa-value (c ∷ s) n k h = ground (arith, mantissa-value s (n * 10 + (c - 48)) (suc k) h.1)

-- A fixed-point text with at least one digit behind the point reads back as its number.
pub mantissa-fixed_point : (n k : ℕ) → mantissa (fixed_point n (suc k)) 0 false 0 ≡ some (n, suc k)
unfolding fixed_point mantissa left_pad
mantissa-fixed_point n k =
    let scale : ℕ = suc k in
    let q : ℕ = n / 10 ^ scale in
    let f : ℕ = n % 10 ^ scale in
    let zeros : ℕ = scale - length (decimal f) in
    let pad = left_pad scale (decimal f) in
    let long : length pad ≡ scale =
      length-left_pad scale (decimal f) (length-decimal k f (mod-lt n (pow_pos scale))) in
    let spelt : value pad 0 ≡ f = value-replicate zeros (decimal f) ∙ value-decimal f in
    let whole : value pad q ≡ n =
      rw (value-shift pad q, long, spelt) (div-add-mod' n (10 ^ scale)) in
    mantissa-decimal q (46 ∷ pad)
    ∙ mantissa-value pad q 0
        (All-append (replicate zeros 48) (decimal f) (All-zeros zeros) (All-decimal f))
    ∙ rw (whole, long) (ground arith)

pub mantissa-big : (n : ℕ) → mantissa (decimal n) 0 false 0 ≡ some (n, 0)
unfolding mantissa
mantissa-big n =
    subst (λ s. mantissa s 0 false 0 ≡ some (n, 0)) (append-nil (decimal n)) (mantissa-decimal n [])

pub mantissa-zeros : (k : ℕ) → mantissa (48 ∷ 46 ∷ repeat_zero k) 0 false 0 ≡ some (0, k)
unfolding mantissa repeat_zero
mantissa-zeros k =
    mantissa-value (replicate k 48) 0 0 (All-zeros k)
    ∙ rw (value-zeros k, length-zeros k) (ground arith)
