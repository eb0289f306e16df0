-- ===== src/Driver/Laws.antt =====
-- Inversion of a computation that ends well: the intermediate value and world.
use infraestructura_y_servic.Base.{Option, ℕ, ◌⊎◌, inl, inr, ◌≡◌, refl, ap, subst, arith}
use infraestructura_y_servic.Store.{Db}
use infraestructura_y_servic.Driver.{
  PgError, Faults, Result, ok, err, World, M, ◌>>=◌, call, or_fail, reads, Fault, transaction,
}

bind_cases :
    {E A B : Type 0} (f : A → M E B) (r : Result E A) (v : World) {w' : World} {b : B}
    → (elim r [ ok a ↦ f a v | err e ↦ (err e, v) ]) ≡ (ok b, w')
    → (a : A) × (r ≡ ok a) × (f a v ≡ (ok b, w'))
bind_cases f (ok a) v h = (a, refl, h)
bind_cases f (err e) v h = cc

module _ {E A B : Type 0} where
  pub bind-ok :
      (m : M E A) (f : A → M E B) {w w' : World} {b : B}
      → (m >>= f) w ≡ (ok b, w')
      → (a : A) × (v : World) × (m w ≡ (ok a, v)) × (f a v ≡ (ok b, w'))
  bind-ok m f {w} h =
      let (a, e, k) = bind_cases f (m w).0 (m w).1 h in (a, (m w).1, ground arith, k)

-- A computation whose first step ends well goes on with its value.
pub bind-value :
    {E A B : Type 0} (m : M E A) (f : A → M E B) {w v : World} {a : A}
    → m w ≡ (ok a, v)
    → (m >>= f) w ≡ f a v
bind-value {E} {A} m f e =
    ap (λ (x : Result E A × World). elim x.0 [ ok a ↦ f a x.1 | err e ↦ (err e, x.1) ]) e

-- The same where the first step leaves the world alone.
pub keeps-ok :
    {E A B : Type 0} (m : M E A) (f : A → M E B) {w w' : World} {b : B}
    → ((a : A) (v : World) → m w ≡ (ok a, v) → v ≡ w)
    → (m >>= f) w ≡ (ok b, w')
    → (a : A) × (m w ≡ (ok a, w)) × (f a w ≡ (ok b, w'))
keeps-ok m f {w} {w'} {b} keep h =
    let (a, v, e, k) = bind-ok m f h in
    let q : v ≡ w = keep a v e in
    (a, subst (λ x. m w ≡ (ok a, x)) q e, subst (λ x. f a x ≡ (ok b, w')) q k)

module _ {E A : Type 0} where
  -- A step that leaves the world alone when it ends well: its value, or its error.
  pub keeps_cases :
      (m : M E A) (w : World)
      → ((a : A) (v : World) → m w ≡ (ok a, v) → v ≡ w)
      → ((a : A) × (m w ≡ (ok a, w))) ⊎ ((e : E) × (v : World) × (m w ≡ (err e, v)))
  keeps_cases m w h = pair_cases (m w).0 (m w).1 refl
    where
      pair_cases :
          (r : Result E A) (v : World)
          → m w ≡ (r, v)
          → ((a : A) × (m w ≡ (ok a, w))) ⊎ ((e : E) × (v : World) × (m w ≡ (err e, v)))
      pair_cases (ok a) v q = inl (a, ground (arith, h a v q))
      pair_cases (err e) v q = inr (e, v, q)

  -- A read that ends well read the tables, and left everything alone.
  pub read-ok :
      (faults : Faults) (n : ℕ) (t : PgError → E) (q : Db → Result PgError A) {w w' : World} {a : A}
      → (call faults n (reads q) >>= or_fail t) w ≡ (ok a, w')
      → (q w.db ≡ ok a) × (w' ≡ w)
  read-ok faults n t q h = ground arith

  -- A property of the world that a run ends in, from its two ways to end.
  pub ends {ℓ} :
      (P : World → Type ℓ) (m : M E A) (w : World)
      → ((a : A) (v : World) → m w ≡ (ok a, v) → P v)
      → ((e : E) (v : World) → m w ≡ (err e, v) → P v)
      → P (m w).1
  ends P m w good bad = by_result (m w).0 refl
    where
      by_result : (r : Result E A) → (m w).0 ≡ r → P (m w).1
      by_result (ok a) q = good a (m w).1 (ground arith)
      by_result (err e) q = bad e (m w).1 (ground arith)

-- A value or an error.
pub Result-cases :
    {E A : Type 0} (r : Result E A) → ((a : A) × (r ≡ ok a)) ⊎ ((e : E) × (r ≡ err e))
Result-cases (ok a) = inl (a, refl)
Result-cases (err e) = inr (e, refl)

module _ {E A : Type 0} (t : PgError → E) (begin commit : Option Fault) (body : M E A) where
  -- A transaction that ends well is its body.
  pub transaction-ok :
      (w : World) {w' : World} {a : A}
      → transaction t begin commit body w ≡ (ok a, w')
      → body w ≡ (ok a, w')
  transaction-ok w h = ground arith

  -- One that does not leaves the tables as they were.
  pub transaction-err :
      (w : World) {w' : World} {e : E}
      → transaction t begin commit body w ≡ (err e, w')
      → w'.db ≡ w.db
  transaction-err w h = ground arith
