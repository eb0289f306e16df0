-- ===== src/SectionEnrollment/Sessions/Overbooking.antt =====
-- backend/internal/sectionenrollment/repository.go: seats and capacity over the steps of Sessions.
use infraestructura_y_servic.Base.{
  sym, ℕ, ◌≡◌, ◌≢◌, ◌<◌, ◌≤◌, inl, inr, refl, subst, Bool, true, none, some, arith, ◌==◌,
  if◌then◌else◌, Bool-cases, find_first, count_if, update_where, IsBounded-IsFresh, IsBounded-suc,
  update-IsBounded, update-IsDistinct, count-update_le, count-update_id, count-update_found,
  find_first-update, find_first-holds, find_first-All,
}
use infraestructura_y_servic.Store.{Uuid, Section, SectionEnrollment}
use infraestructura_y_servic.SectionEnrollment.Queries.{
  find_section, active_seats, is_active_in, revived, can_withdraw, withdrawn_at, can_settle,
  settled,
}
use infraestructura_y_servic.SectionEnrollment.Repository.Effects.{with_row, with_update}
use infraestructura_y_servic.SectionEnrollment.Invariant.{IsSound, row_id}
use infraestructura_y_servic.SectionEnrollment.Sessions.{
  Phase, outside, admitted, State, put, Step, lock, admit, insert, revive, abort, withdraw, settle,
  clock, Reach, here, next,
}
use infraestructura_y_servic.SectionEnrollment.Sessions.Invariant.{
  Holding, IsSafe, Holding-mono, moved-IsSafe, others, lock-IsSafe, admit-IsSafe, abort-IsSafe,
}

insert-IsSafe :
    (s : State) (t id e : ℕ)
    → IsSafe s
    → s.phase t ≡ admitted id e none
    → IsSafe (record { db = with_row e id s.db; phase = put t outside s.phase })
unfolding find_section count_if find_first
insert-IsSafe s t id e v at =
    let room : Holding (admitted id e none) s.db =
      subst (λ (x : Phase). Holding x s.db) at (v.holding t) in
    moved-IsSafe s v t outside (with_row e id s.db)
      (record {
        distinct = (
          IsBounded-IsFresh row_id s.db.next_id s.db.section_enrollments v.fits.bounded,
          v.fits.distinct,
        );
        bounded = (
          omega arith,
          IsBounded-suc row_id s.db.next_id s.db.section_enrollments v.fits.bounded,
        );
        seats = λ k x q. ground (arith, v.fits.seats k x q, room x);
      })
      (λ u k _ c h. absurd (ground arith)) tt
      (others s v t outside (with_row e id s.db) id (ground arith) (λ _. refl)
        (λ k differs. ground arith)
        (λ old r found.
          let below =
            find_first-All (λ (x : SectionEnrollment). x.id < s.db.next_id) (λ x. x.id == old)
              s.db.section_enrollments {r = r} v.fits.bounded found in
          let same : (r.id == old) ≡ true =
            find_first-holds (λ (x : SectionEnrollment). x.id == old) s.db.section_enrollments
              found in
          (r, ground arith, refl)))

-- An update that keeps ids, sections and free seats, by a session without the lock.
update-IsSafe :
    (s : State) (p : SectionEnrollment → Bool) (f : SectionEnrollment → SectionEnrollment)
    → ((r : SectionEnrollment) → (f r).id ≡ r.id)
    → ((r : SectionEnrollment) → (f r).section_id ≡ r.section_id)
    → ((k : Uuid) (r : SectionEnrollment)
        → p r ≡ true
        → is_active_in k (f r) ≡ true
        → is_active_in k r ≡ true)
    → IsSafe s
    → IsSafe (record { db = with_update p f s.db; phase = s.phase })
unfolding find_section
update-IsSafe s p f ids sections seat v =
    let fewer : (k : Uuid)
        → active_seats k (update_where p f s.db.section_enrollments)
          ≤ active_seats k s.db.section_enrollments =
      λ k. count-update_le (is_active_in k) p f s.db.section_enrollments (seat k) in
    record {
      fits = record {
        distinct = update-IsDistinct row_id p f s.db.section_enrollments ids v.fits.distinct;
        bounded =
            update-IsBounded row_id s.db.next_id p f s.db.section_enrollments ids v.fits.bounded;
        seats = λ k x q. omega (arith, fewer k, v.fits.seats k x q);
      };
      alone = v.alone;
      holding = λ u.
          Holding-mono (s.phase u) s.db (with_update p f s.db) (λ _. refl) (λ k _. fewer k)
            (λ old r found. (
              if p r then f r else r,
              find_first-update row_id old p f s.db.section_enrollments {r = r} ids found,
              ground (arith, sections r),
            ))
            (v.holding u);
    }

revive-IsSafe :
    (s : State) (t id e old : ℕ)
    → IsSafe s
    → s.phase t ≡ admitted id e (some old)
    → IsSafe (record {
      db = with_update (λ r. r.id == old) (revived s.db.now) s.db;
      phase = put t outside s.phase;
    })
unfolding find_section
revive-IsSafe s t id e old v at =
    let held : Holding (admitted id e (some old)) s.db =
      subst (λ (x : Phase). Holding x s.db) at (v.holding t) in
    let (r, found, of) = held.1 in
    let rows = s.db.section_enrollments in
    let same : (r.id == old) ≡ true =
      find_first-holds (λ (x : SectionEnrollment). x.id == old) rows found in
    let q1 : r.id ≡ old = ground arith in
    let fewer : (k : Uuid)
        → k ≢ id
        → active_seats k (update_where (λ x. x.id == old) (revived s.db.now) rows)
          ≤ active_seats k rows =
      λ k differs.
        subst
          (λ (n : Uuid).
            active_seats k (update_where (λ x. x.id == n) (revived s.db.now) rows)
            ≤ active_seats k rows)
          q1
          (count-update_found row_id (is_active_in k) (λ x. x.id == old) (revived s.db.now) rows
            {r = r} v.fits.distinct found (λ h. ground arith)) in
    moved-IsSafe s v t outside (with_update (λ x. x.id == old) (revived s.db.now) s.db)
      (record {
        distinct = update-IsDistinct row_id _ _ rows (λ _. refl) v.fits.distinct;
        bounded = update-IsBounded row_id s.db.next_id _ _ rows (λ _. refl) v.fits.bounded;
        seats = λ k x q. elim (Bool-cases (k == id)) [
          | inl mine ↦
              let q2 : k ≡ id = ground arith in
              omega (
                arith,
                count-update_id {0} row_id (is_active_in k) old (revived s.db.now) rows
                    v.fits.distinct,
                subst (λ (n : Uuid). active_seats n rows < x.capacity) (sym q2)
                    (held.0 x (subst (λ (n : Uuid). find_section n s.db ≡ some x) q2 q)),
              )
          | inr other ↦ omega (arith, fewer k (ground arith), v.fits.seats k x q)
        ];
      })
      (λ u k _ c h. absurd (ground arith)) tt
      (others s v t outside (with_update (λ x. x.id == old) (revived s.db.now) s.db) id
        (ground arith) (λ _. refl) fewer
        (λ n x at_n. (
          if x.id == old then revived s.db.now x else x,
          find_first-update row_id n (λ y. y.id == old) (revived s.db.now) rows {r = x} (λ _. refl)
              at_n,
          ground arith,
        )))

clock-IsSafe :
    (s : State) (n : ℕ)
    → IsSafe s
    → IsSafe (record { db = record s.db { now = n }; phase = s.phase })
unfolding find_section
clock-IsSafe s n v = record {
  fits = record {
    distinct = v.fits.distinct;
    bounded = v.fits.bounded;
    seats = λ k x q. v.fits.seats k x q;
  };
  alone = v.alone;
  holding = λ u.
      Holding-mono (s.phase u) s.db (record s.db { now = n }) (λ _. refl) (λ _ _. ground arith)
        (λ old r found. (r, found, refl)) (v.holding u);
}

Step-IsSafe : {s t : State} → Step s t → IsSafe s → IsSafe t
Step-IsSafe {s} (lock t id row out free found) v = lock-IsSafe s t id row v free found
Step-IsSafe {s} (admit t id e row is_admin revival at choice room) v =
    admit-IsSafe s t id e row is_admin revival v at choice room
Step-IsSafe {s} (insert t id e at free) v = insert-IsSafe s t id e v at
Step-IsSafe {s} (revive t id e old at) v = revive-IsSafe s t id e old v at
Step-IsSafe {s} (abort t) v = abort-IsSafe s t v
Step-IsSafe {s} (withdraw id) v =
    update-IsSafe s (can_withdraw id) (withdrawn_at s.db.now) (λ _. refl) (λ _. refl)
      (λ k r met h. ground arith) v
Step-IsSafe {s} (settle id outcome grade) v =
    update-IsSafe s (can_settle id outcome) (settled outcome grade s.db.now) (λ _. refl) (λ _. refl)
      (λ k r met h. ground arith) v
Step-IsSafe {s} (clock n) v = clock-IsSafe s n v

Reach-IsSafe : {s t : State} → Reach s t → IsSafe s → IsSafe t
Reach-IsSafe here v = v
Reach-IsSafe (next r st) v = Step-IsSafe st (Reach-IsSafe r v)

-- From sound tables and with no transaction begun, every interleaving of enrollment transactions,
-- withdrawals and outcomes keeps the active inscriptions of every section within its capacity.
pub Reach-active_seats :
    (s t : State)
    → IsSound s.db
    → ((u : ℕ) → s.phase u ≡ outside)
    → Reach s t
    → (id : Uuid) (x : Section) → find_section id t.db ≡ some x
    → active_seats id t.db.section_enrollments ≤ x.capacity
Reach-active_seats s t v quiet r =
    (Reach-IsSafe r (record {
      fits = record { distinct = v.distinct; bounded = v.bounded; seats = v.seats };
      alone = λ u w id hu hw. absurd (ground (arith, quiet u));
      holding = λ u. subst (λ (x : Phase). Holding x s.db) (sym (quiet u)) tt;
    })).fits.seats
