-- ===== src/Base/Joins.antt =====
-- The rows of a table, and of joins of tables.
use Prim.Native.Nat.{ℕ, zero, suc, ◌≤◌}
use mathlib.Core.Path.{◌≡◌, refl, sym, ◌∙◌, ap, subst}
use mathlib.Core.Logic.{◌⊎◌, inl, inr}
use mathlib.Core.Bool.{Bool, true, false}
use mathlib.Core.List.{List, [], ◌∷◌, ◌++◌}
use mathlib.Core.Option.{none, some}
use native.Mathlib.Omega.{arith}
use infraestructura_y_servic.Base.Tests.{Bool-cases, if◌then◌else◌}
use infraestructura_y_servic.Base.Lists.{find_first, count_if, any_of, select, take}

module _ {A B : Type 0} where
  -- `JOIN`: the rows that each row of a table is joined with, one after the other.
  unfoldable pub each : List A → (A → List B) → List B
  each [] f = []
  each (x ∷ xs) f = f x ++ each xs f

module _ {A : Type 0} where
  -- A row of a table.
  abbrev pub In : A → List A → Type 0
  In x [] = ⊥
  In x (y ∷ ys) = (x ≡ y) ⊎ In x ys

  In-left : (x : A) (xs ys : List A) → In x xs → In x (xs ++ ys)
  In-left x [] ys h = absurd h
  In-left x (y ∷ xs) ys (inl q) = inl q
  In-left x (y ∷ xs) ys (inr h) = inr (In-left x xs ys h)

  In-right : (x : A) (xs ys : List A) → In x ys → In x (xs ++ ys)
  In-right x [] ys h = h
  In-right x (y ∷ xs) ys h = inr (In-right x xs ys h)

  In-append : (x : A) (xs ys : List A) → In x (xs ++ ys) → In x xs ⊎ In x ys
  In-append x [] ys h = inr h
  In-append x (y ∷ xs) ys (inl q) = inl (inl q)
  In-append x (y ∷ xs) ys (inr h) = elim (In-append x xs ys h) [
    | inl l ↦ inl (inr l)
    | inr r ↦ inr r
  ]

  -- A selected row is a row that meets the predicate.
  pub In-select : (p : A → Bool) (x : A) (xs : List A) → In x (select p xs) → In x xs × (p x ≡ true)
  unfolding select
  In-select p x [] h = absurd h
  In-select p x (y ∷ xs) h = elim (Bool-cases (p y)) [
    | inl e ↦ elim (subst (λ b. In x (if b then y ∷ select p xs else select p xs)) e h) [
      | inl q ↦ (inl q, ap p q ∙ e)
      | inr l ↦ let (a, b) = In-select p x xs l in (inr a, b)
    ]
    | inr e ↦
        let l = subst (λ b. In x (if b then y ∷ select p xs else select p xs)) e h in
        let (a, b) = In-select p x xs l in (inr a, b)
  ]

  pub select-In : (p : A → Bool) (x : A) (xs : List A) → In x xs → p x ≡ true → In x (select p xs)
  unfolding select
  select-In p x [] h e = absurd h
  select-In p x (y ∷ xs) (inl q) e =
      subst (λ b. In x (if b then y ∷ select p xs else select p xs)) (sym (ap p (sym q) ∙ e))
        (inl q)
  select-In p x (y ∷ xs) (inr h) e = elim (Bool-cases (p y)) [
    | inl b ↦
        subst (λ b. In x (if b then y ∷ select p xs else select p xs)) (sym b)
          (inr (select-In p x xs h e))
    | inr b ↦
        subst (λ b. In x (if b then y ∷ select p xs else select p xs)) (sym b)
          (select-In p x xs h e)
  ]

  -- A row that meets a predicate counts.
  count-In : (p : A → Bool) (x : A) (xs : List A) → In x xs → p x ≡ true → 1 ≤ count_if p xs
  unfolding count_if
  count-In p x [] h e = absurd h
  count-In p x (y ∷ xs) (inl q) e = ground (arith, ap p q)
  count-In p x (y ∷ xs) (inr h) e = omega (arith, count-In p x xs h e)

  -- The only row that meets a predicate is the one that a search finds.
  pub find_first-In :
      (p : A → Bool) (x : A) (xs : List A)
      → count_if p xs ≤ 1
      → In x xs
      → p x ≡ true
      → find_first p xs ≡ some x
  unfolding find_first count_if
  find_first-In p x [] le h e = absurd h
  find_first-In p x (y ∷ xs) le (inl q) e = ground (arith, ap p q)
  find_first-In p x (y ∷ xs) le (inr h) e =
      ground (arith, count-In p x xs h e, find_first-In p x xs)

  -- A row that a search finds is in the table.
  pub In-find_first :
      (p : A → Bool) (xs : List A) {x : A} → find_first p xs ≡ some x → In x xs × (p x ≡ true)
  unfolding find_first
  In-find_first p [] e = absurd (ground arith)
  In-find_first p (y ∷ xs) {x} e = elim (Bool-cases (p y)) [
    | inl b ↦ (inl (ground arith), ground arith)
    | inr b ↦ let (l, q) = In-find_first p xs {x = x} (ground arith) in (inr l, q)
  ]

  -- Where a search finds nothing, no row of the table meets the predicate.
  pub In-find_none :
      (p : A → Bool) (x : A) (xs : List A) → In x xs → find_first p xs ≡ none → p x ≡ false
  unfolding find_first
  In-find_none p x [] h e = absurd h
  In-find_none p x (y ∷ xs) (inl q) e = ground (arith, ap p q)
  In-find_none p x (y ∷ xs) (inr h) e = ground (arith, In-find_none p x xs h)

  pub In-any_of :
      (p : A → Bool) (xs : List A) → any_of p xs ≡ true → (x : A) × In x xs × (p x ≡ true)
  unfolding any_of
  In-any_of p [] e = absurd (ground arith)
  In-any_of p (y ∷ xs) e = elim (Bool-cases (p y)) [
    | inl b ↦ (y, inl refl, b)
    | inr b ↦ let (x, l, q) = In-any_of p xs (ground arith) in (x, inr l, q)
  ]

  pub any_of-In : (p : A → Bool) (x : A) (xs : List A) → In x xs → p x ≡ true → any_of p xs ≡ true
  unfolding any_of
  any_of-In p x [] h e = absurd h
  any_of-In p x (y ∷ xs) (inl q) e = ground (arith, ap p q)
  any_of-In p x (y ∷ xs) (inr h) e = ground (arith, any_of-In p x xs h e)

  pub In-take : (n : ℕ) (x : A) (xs : List A) → In x (take n xs) → In x xs
  In-take zero x xs h = absurd h
  In-take (suc n) x [] h = h
  In-take (suc n) x (y ∷ xs) (inl q) = inl q
  In-take (suc n) x (y ∷ xs) (inr h) = inr (In-take n x xs h)

module _ {A B : Type 0} where
  -- A row of a join is a row of what some row of the table is joined with.
  pub In-each :
      (y : B) (xs : List A) (f : A → List B) → In y (each xs f) → (x : A) × In x xs × In y (f x)
  unfolding each
  In-each y [] f h = absurd h
  In-each y (x ∷ xs) f h = elim (In-append y (f x) (each xs f) h) [
    | inl l ↦ (x, inl refl, l)
    | inr r ↦ let (z, a, b) = In-each y xs f r in (z, inr a, b)
  ]

  pub each-In :
      (x : A) (y : B) (xs : List A) (f : A → List B) → In x xs → In y (f x) → In y (each xs f)
  unfolding each
  each-In x y [] f h k = absurd h
  each-In x y (z ∷ xs) f (inl q) k = In-left y (f z) (each xs f) (subst (λ u. In y (f u)) q k)
  each-In x y (z ∷ xs) f (inr h) k = In-right y (f z) (each xs f) (each-In x y xs f h k)
