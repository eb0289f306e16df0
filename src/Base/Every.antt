-- ===== src/Base/Every.antt =====
-- What holds of every row of a table, and which rows it has, as statements change it.
use mathlib.Core.Path.{◌≡◌, refl}
use mathlib.Core.Bool.{Bool, true, false}
use mathlib.Core.List.{List, [], ◌∷◌}
use native.Mathlib.Omega.{arith}
use infraestructura_y_servic.Base.Tests.{if◌then◌else◌}
use infraestructura_y_servic.Base.Lists.{All, any_of, count_if, select, update_where}

module _ {A : Type 0} where
  pub All-weaken : (P Q : A → Type 0) (xs : List A) → ((x : A) → P x → Q x) → All P xs → All Q xs
  All-weaken P Q [] f a = tt
  All-weaken P Q (x ∷ xs) f a = (f x a.0, All-weaken P Q xs f a.1)

  pub All-both : (P Q : A → Type 0) (xs : List A) → All P xs → All Q xs → All (λ x. P x × Q x) xs
  All-both P Q [] a b = tt
  All-both P Q (x ∷ xs) a b = ((a.0, b.0), All-both P Q xs a.1 b.1)

  -- An update that keeps what holds of the rows that it touches.
  pub All-update :
      (P : A → Type 0) (p : A → Bool) (f : A → A) (xs : List A)
      → ((x : A) → p x ≡ true → P x → P (f x))
      → All P xs
      → All P (update_where p f xs)
  unfolding update_where
  All-update P p f [] keep a = tt
  All-update P p f (x ∷ xs) keep a = (row (p x) refl, All-update P p f xs keep a.1)
    where
      row : (b : Bool) → p x ≡ b → P (if b then f x else x)
      row true e = keep x e a.0
      row false e = a.0

  pub All-select : (P : A → Type 0) (p : A → Bool) (xs : List A) → All P xs → All P (select p xs)
  unfolding select
  All-select P p [] a = tt
  All-select P p (x ∷ xs) a = by_test (p x) (All-select P p xs a.1)
    where
      by_test :
          (b : Bool) → All P (select p xs) → All P (if b then x ∷ select p xs else select p xs)
      by_test true rest = (a.0, rest)
      by_test false rest = rest

  -- Where a count is 0, no row counts.
  pub count_none-All : (p : A → Bool) (xs : List A) → count_if p xs ≡ 0 → All (λ x. p x ≡ false) xs
  unfolding count_if
  count_none-All p [] h = tt
  count_none-All p (x ∷ xs) h = (ground arith, count_none-All p xs (ground arith))

  -- An update leaves a row that meets a predicate, where it keeps the predicate.
  pub any_of-update :
      (q p : A → Bool) (f : A → A) (xs : List A)
      → ((x : A) → p x ≡ true → q x ≡ true → q (f x) ≡ true)
      → any_of q xs ≡ true
      → any_of q (update_where p f xs) ≡ true
  unfolding any_of update_where
  any_of-update q p f [] keep h = h
  any_of-update q p f (x ∷ xs) keep h = ground (arith, keep x, any_of-update q p f xs keep)

  pub any_of-cons :
      (q : A → Bool) (x : A) (xs : List A) → any_of q xs ≡ true → any_of q (x ∷ xs) ≡ true
  unfolding any_of
  any_of-cons q x xs h = ground (arith, h)
