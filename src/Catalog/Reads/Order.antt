-- ===== src/Catalog/Reads/Order.antt =====
-- backend/internal/catalog and backend/internal/reports: an ORDER BY keeps the rows.
use infraestructura_y_servic.Base.{
  ◌≡◌, ◌⊎◌, inl, inr, sym, subst, Bool, List, [], ◌∷◌, Bool-cases, if◌then◌else◌,
}
use infraestructura_y_servic.Base.Joins.{In}
use infraestructura_y_servic.Catalog.Reads.{insert_ordered, order_by}

module _ {A : Type 0} (precedes : A → A → Bool) where
  insert_ordered-In :
      (x r : A) (xs : List A) → (x ≡ r) ⊎ In x xs → In x (insert_ordered precedes r xs)
  unfolding insert_ordered
  insert_ordered-In x r [] h = h
  insert_ordered-In x r (y ∷ ys) h = elim (Bool-cases (precedes y r)) [
    | inl e ↦
        subst (λ b. In x (if b then y ∷ insert_ordered precedes r ys else r ∷ y ∷ ys)) (sym e)
          (elim h [
            | inl q ↦ inr (insert_ordered-In x r ys (inl q))
            | inr (inl q) ↦ inl q
            | inr (inr l) ↦ inr (insert_ordered-In x r ys (inr l))
          ])
    | inr e ↦
        subst (λ b. In x (if b then y ∷ insert_ordered precedes r ys else r ∷ y ∷ ys)) (sym e) h
  ]

  pub order_by-In : (x : A) (xs : List A) → In x xs → In x (order_by precedes xs)
  unfolding order_by
  order_by-In x [] h = h
  order_by-In x (y ∷ ys) (inl q) = insert_ordered-In x y (order_by precedes ys) (inl q)
  order_by-In x (y ∷ ys) (inr l) =
      insert_ordered-In x y (order_by precedes ys) (inr (order_by-In x ys l))

  In-insert_ordered :
      (x r : A) (xs : List A) → In x (insert_ordered precedes r xs) → (x ≡ r) ⊎ In x xs
  unfolding insert_ordered
  In-insert_ordered x r [] h = h
  In-insert_ordered x r (y ∷ ys) h = elim (Bool-cases (precedes y r)) [
    | inl e ↦
        elim (subst (λ b. In x (if b then y ∷ insert_ordered precedes r ys else r ∷ y ∷ ys)) e h) [
          | inl q ↦ inr (inl q)
          | inr l ↦ elim (In-insert_ordered x r ys l) [ inl q ↦ inl q | inr m ↦ inr (inr m) ]
        ]
    | inr e ↦ subst (λ b. In x (if b then y ∷ insert_ordered precedes r ys else r ∷ y ∷ ys)) e h
  ]

  pub In-order_by : (x : A) (xs : List A) → In x (order_by precedes xs) → In x xs
  unfolding order_by
  In-order_by x [] h = h
  In-order_by x (y ∷ ys) h = elim (In-insert_ordered x y (order_by precedes ys) h) [
    | inl q ↦ inl q
    | inr l ↦ inr (In-order_by x ys l)
  ]
