-- ===== src/Base/Rows.antt =====
-- How counts and searches change when rows are updated. A table is a list whose rows have an id.
use Prim.Native.Nat.{◌≤◌}
use mathlib.Core.Path.{◌≡◌, refl, subst}
use mathlib.Core.Logic.{inl, inr}
use mathlib.Core.Bool.{Bool, true}
use mathlib.Core.List.{List, [], ◌∷◌}
use mathlib.Core.Option.{none, some}
use native.Mathlib.Omega.{arith}
use infraestructura_y_servic.Base.Tests.{Bool-cases}
use infraestructura_y_servic.Base.Lists.{All, find_first, count_if, update_where}

module _ {ℓ} {A : Type ℓ} where
  -- The row that a search finds meets its predicate.
  pub find_first-holds :
      (p : A → Bool) (xs : List A) {r : A} → find_first p xs ≡ some r → p r ≡ true
  unfolding find_first
  find_first-holds p [] h = absurd (ground arith)
  find_first-holds p (x ∷ xs) {r} h = ground (arith, find_first-holds p xs {r = r})

  -- What holds of all rows holds of the one that is found.
  pub find_first-All {κ} :
      (P : A → Type κ) (p : A → Bool) (xs : List A) {r : A}
      → All P xs
      → find_first p xs ≡ some r
      → P r
  unfolding find_first
  find_first-All P p [] a h = absurd (ground arith)
  find_first-All P p (x ∷ xs) {r} a h = elim (Bool-cases (p x)) [
    | inl here ↦ subst P (ground arith) a.0
    | inr later ↦ find_first-All P p xs a.1 (ground arith)
  ]

  -- Nothing is counted exactly where nothing is found.
  pub count-find_none : (p : A → Bool) (xs : List A) → find_first p xs ≡ none → count_if p xs ≡ 0
  unfolding find_first count_if
  count-find_none p [] h = refl
  count-find_none p (x ∷ xs) h = ground (arith, count-find_none p xs)

  -- An update that makes no row count anew does not raise a count.
  pub count-update_le :
      (q p : A → Bool) (f : A → A) (xs : List A)
      → ((r : A) → p r ≡ true → q (f r) ≡ true → q r ≡ true)
      → count_if q (update_where p f xs) ≤ count_if q xs
  unfolding count_if update_where
  count-update_le q p f [] h = ground arith
  count-update_le q p f (x ∷ xs) h = ground (arith, h x, count-update_le q p f xs h)

  -- A row that is found counts.
  pub count-find_some :
      (q p : A → Bool) (xs : List A) {r : A}
      → find_first p xs ≡ some r
      → q r ≡ true
      → 1 ≤ count_if q xs
  unfolding find_first count_if
  count-find_some q p [] e h = absurd (ground arith)
  count-find_some q p (x ∷ xs) {r} e h = ground (arith, count-find_some q p xs {r = r})

  -- Two searches that find rows of which there is only one find the same row.
  pub find_first-same :
      (q p p' : A → Bool) (xs : List A) {a b : A}
      → count_if q xs ≤ 1
      → find_first p xs ≡ some a
      → find_first p' xs ≡ some b
      → q a ≡ true
      → q b ≡ true
      → a ≡ b
  unfolding find_first count_if
  find_first-same q p p' [] le e f h k = absurd (ground arith)
  find_first-same q p p' (x ∷ xs) {a} {b} le e f h k = ground (
    arith,
    count-find_some q p xs {r = a},
    count-find_some q p' xs {r = b},
    find_first-same q p p' xs {a = a} {b = b},
  )

  -- A stronger search finds the row that a weaker one finds, where that row meets it.
  pub find_first-stronger :
      (q p : A → Bool) (xs : List A) {r : A}
      → ((x : A) → q x ≡ true → p x ≡ true)
      → find_first p xs ≡ some r
      → q r ≡ true
      → find_first q xs ≡ some r
  unfolding find_first
  find_first-stronger q p [] le e h = absurd (ground arith)
  find_first-stronger q p (x ∷ xs) {r} le e h =
      ground (arith, le x, find_first-stronger q p xs {r = r} le)
