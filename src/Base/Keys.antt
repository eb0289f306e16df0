-- ===== src/Base/Keys.antt =====
-- Rows with an id: distinct and bounded ids, and what an update of one row does to counts and
-- searches.
use Prim.Native.Nat.{suc, ◌<◌, ℕ, ◌+◌, ◌≤◌}
use mathlib.Core.Path.{◌≡◌, refl, subst}
use mathlib.Core.Logic.{◌≢◌, inl, inr}
use mathlib.Core.Bool.{Bool, true}
use mathlib.Core.List.{List, [], ◌∷◌}
use mathlib.Core.Option.{some}
use native.Mathlib.Omega.{arith}
use infraestructura_y_servic.Base.Tests.{Bool-cases, ◌==◌, if◌then◌else◌}
use infraestructura_y_servic.Base.Lists.{All, find_first, count_if, update_where}
use infraestructura_y_servic.Base.Rows.{find_first-All}

module _ {ℓ} {A : Type ℓ} (id : A → ℕ) where
  -- No row has this id.
  abbrev pub IsFresh : ℕ → List A → Type 0
  IsFresh n = All (λ r. id r ≢ n)

  abbrev pub IsDistinct : List A → Type 0
  IsDistinct [] = Unit
  IsDistinct (x ∷ xs) = IsFresh (id x) xs × IsDistinct xs

  pub update-IsFresh_same :
      (n : ℕ) (f : A → A) (xs : List A) → IsFresh n xs → update_where (λ r. id r == n) f xs ≡ xs
  unfolding update_where
  update-IsFresh_same n f [] h = refl
  update-IsFresh_same n f (x ∷ xs) h = ground (arith, update-IsFresh_same n f xs h.1)

  -- An update of one id touches one row, so a count grows by one at most.
  pub count-update_id :
      (q : A → Bool) (n : ℕ) (f : A → A) (xs : List A)
      → IsDistinct xs
      → count_if q (update_where (λ r. id r == n) f xs) ≤ count_if q xs + 1
  unfolding count_if update_where
  count-update_id q n f [] d = ground arith
  count-update_id q n f (x ∷ xs) d =
      ground (arith, count-update_id q n f xs d.1, update-IsFresh_same n f xs)

  -- So too where the update makes no row count that did not count before.
  pub update-IsFresh :
      (p : A → Bool) (f : A → A) (n : ℕ) (xs : List A)
      → ((r : A) → id (f r) ≡ id r)
      → IsFresh n xs
      → IsFresh n (update_where p f xs)
  unfolding update_where
  update-IsFresh p f n [] keep h = tt
  update-IsFresh p f n (x ∷ xs) keep h = ground (arith, keep x, update-IsFresh p f n xs keep h.1)

  pub update-IsDistinct :
      (p : A → Bool) (f : A → A) (xs : List A)
      → ((r : A) → id (f r) ≡ id r)
      → IsDistinct xs
      → IsDistinct (update_where p f xs)
  unfolding update_where
  update-IsDistinct p f [] keep d = tt
  update-IsDistinct p f (x ∷ xs) keep d =
      ground
        (arith, keep x, update-IsFresh p f (id x) xs keep d.0, update-IsDistinct p f xs keep d.1)

  -- The row that a search found is the only one that an update of its id touches.
  pub count-update_found :
      (q p : A → Bool) (f : A → A) (xs : List A) {r : A}
      → IsDistinct xs
      → find_first p xs ≡ some r
      → (q (f r) ≡ true → q r ≡ true)
      → count_if q (update_where (λ x. id x == id r) f xs) ≤ count_if q xs
  unfolding count_if update_where find_first
  count-update_found q p f [] d e h = ground arith
  count-update_found q p f (x ∷ xs) {r} d e h = elim (Bool-cases (p x)) [
    | inl here ↦
        let q1 : x ≡ r = ground arith in
        ground
          (arith, update-IsFresh_same (id r) f xs (subst (λ (y : A). IsFresh (id y) xs) q1 d.0))
    | inr later ↦ ground (
      arith,
      find_first-All (λ (y : A). id y ≢ id x) p xs {r = r} d.0,
      count-update_found q p f xs {r = r} d.1,
    )
  ]

  -- An update of the id of a row that was found moves a count by that row alone.
  pub count-update_exact :
      (q p : A → Bool) (f : A → A) (xs : List A) {r : A}
      → IsDistinct xs
      → find_first p xs ≡ some r
      → count_if q (update_where (λ x. id x == id r) f xs) + (if q r then 1 else 0)
        ≡ count_if q xs + (if q (f r) then 1 else 0)
  unfolding count_if update_where find_first
  count-update_exact q p f [] d e = absurd (ground arith)
  count-update_exact q p f (x ∷ xs) {r} d e = elim (Bool-cases (p x)) [
    | inl here ↦
        let q1 : x ≡ r = ground arith in
        ground
          (arith, update-IsFresh_same (id r) f xs (subst (λ (y : A). IsFresh (id y) xs) q1 d.0))
    | inr later ↦ ground (
      arith,
      find_first-All (λ (y : A). id y ≢ id x) p xs {r = r} d.0,
      count-update_exact q p f xs {r = r} d.1,
    )
  ]

  -- A search by id finds the row as an update that keeps ids left it.
  pub find_first-update :
      (n : ℕ) (p : A → Bool) (f : A → A) (xs : List A) {r : A}
      → ((x : A) → id (f x) ≡ id x)
      → find_first (λ x. id x == n) xs ≡ some r
      → find_first (λ x. id x == n) (update_where p f xs) ≡ some (if p r then f r else r)
  unfolding find_first update_where
  find_first-update n p f [] keep e = absurd (ground arith)
  find_first-update n p f (x ∷ xs) {r} keep e =
      ground (arith, keep x, find_first-update n p f xs {r = r} keep)

  -- A row that was found is the one that a search by its id finds.
  pub find_first-by_id :
      (p : A → Bool) (xs : List A) {r : A}
      → IsDistinct xs
      → find_first p xs ≡ some r
      → find_first (λ x. id x == id r) xs ≡ some r
  unfolding find_first
  find_first-by_id p [] d e = absurd (ground arith)
  find_first-by_id p (x ∷ xs) {r} d e = ground (
    arith,
    find_first-All (λ (y : A). id y ≢ id x) p xs {r = r} d.0,
    find_first-by_id p xs {r = r} d.1,
  )

  -- A search that only the row with the id of a found row can meet finds that row.
  pub find_first_unique :
      (p q : A → Bool) (xs : List A) {r : A}
      → IsDistinct xs
      → find_first p xs ≡ some r
      → q r ≡ true
      → ((x : A) → q x ≡ true → id x ≡ id r)
      → find_first q xs ≡ some r
  unfolding find_first
  find_first_unique p q [] d e t only = absurd (ground arith)
  find_first_unique p q (x ∷ xs) {r} d e t only = ground (
    arith,
    only x,
    find_first-All (λ (y : A). id y ≢ id x) p xs {r = r} d.0,
    find_first_unique p q xs {r = r} d.1,
  )

  -- An update of the id of a found row touches what a search for that row alone would.
  pub count_unique :
      (q : A → Bool) (xs : List A) {r : A}
      → IsDistinct xs
      → find_first q xs ≡ some r
      → ((x : A) → q x ≡ true → id x ≡ id r)
      → count_if q xs ≡ 1
  unfolding find_first count_if
  count_unique q [] d e only = absurd (ground arith)
  count_unique q (x ∷ xs) {r} d e only = elim (Bool-cases (q x)) [
    | inl here ↦
        let q1 : x ≡ r = ground arith in
        ground
          (arith, count-unrelated q (id r) xs (subst (λ (y : A). IsFresh (id y) xs) q1 d.0) only)
    | inr later ↦ ground (arith, count_unique q xs {r = r} d.1)
  ]
    where
      count-unrelated :
          (q : A → Bool) (n : ℕ) (xs : List A)
          → IsFresh n xs
          → ((x : A) → q x ≡ true → id x ≡ n)
          → count_if q xs ≡ 0
      count-unrelated q n [] f only = refl
      count-unrelated q n (x ∷ xs) f only = ground (arith, only x, count-unrelated q n xs f.1 only)

  -- Identifiers below the next one.
  abbrev pub IsBounded : ℕ → List A → Type 0
  IsBounded n = All (λ r. id r < n)

  pub IsBounded-IsFresh : (n : ℕ) (xs : List A) → IsBounded n xs → IsFresh n xs
  IsBounded-IsFresh n [] h = tt
  IsBounded-IsFresh n (x ∷ xs) h = ground (arith, IsBounded-IsFresh n xs h.1)

  pub IsBounded-suc : (n : ℕ) (xs : List A) → IsBounded n xs → IsBounded (suc n) xs
  IsBounded-suc n [] h = tt
  IsBounded-suc n (x ∷ xs) h = ground (arith, IsBounded-suc n xs h.1)

  pub update-IsBounded :
      (n : ℕ) (p : A → Bool) (f : A → A) (xs : List A)
      → ((x : A) → id (f x) ≡ id x)
      → IsBounded n xs
      → IsBounded n (update_where p f xs)
  unfolding update_where
  update-IsBounded n p f [] keep h = tt
  update-IsBounded n p f (x ∷ xs) keep h =
      ground (arith, keep x, update-IsBounded n p f xs keep h.1)
