-- ===== src/Enrollment/Invariant.antt =====
-- backend/internal/enrollment: the invariant of the enrollments table, and the writes.
use infraestructura_y_servic.Base.{
  IsBounded, IsBounded-IsFresh, IsBounded-suc, update-IsBounded, ℕ, ◌≡◌, ◌≤◌, inl, inr, refl, subst,
  sym, Bool, true, Option, some, List, [], arith, ◌∷◌, ◌==◌, count_if, IsDistinct,
  update-IsDistinct, count-update_le, count-update_exact, find_first-holds, count-find_none,
}
use infraestructura_y_servic.Store.{Uuid, ProgramQuota, Enrollment, Db}
use infraestructura_y_servic.Driver.{Faults, World}
use infraestructura_y_servic.Driver.Laws.{ends}
use infraestructura_y_servic.Enrollment.Queries.{
  CreateEnrollmentParams, find_quota, has_key, find_key, is_active_in, active_enrollments, revived,
  can_pay, can_pay_own, paid_at_now, can_cancel, cancelled_at,
}
use infraestructura_y_servic.Enrollment.Repository.{
  create_enrollment_tx, mark_enrollment_paid, mark_own_enrollment_paid, cancel_enrollment,
}
use infraestructura_y_servic.Enrollment.Repository.Effects.{
  with_update, Created, create_enrollment_tx-ok, create_enrollment_tx-err,
  mark_enrollment_paid-moves, mark_own_enrollment_paid-moves, cancel_enrollment-moves,
}
use infraestructura_y_servic.Enrollment.Repository.Transitions.{row_id}

-- Identifiers are primary keys and below the next one, UNIQUE (student_id, program_id, year) holds,
-- and no program has more active enrollments of a year than its quota.
pub record IsSound (db : Db) : Type 0 where
  pub distinct : IsDistinct row_id db.enrollments
  pub bounded : IsBounded row_id db.next_id db.enrollments
  pub keys : (s p : Uuid) (y : ℕ) → count_if (has_key s p y) db.enrollments ≤ 1
  pub quotas :
      (p : Uuid) (y : ℕ) (q : ProgramQuota)
      → find_quota p y db ≡ some q
      → active_enrollments p y db.enrollments ≤ q.capacity

-- An update that keeps ids and keys, and takes no seat.
with_update-IsSound :
    (p : Enrollment → Bool) (f : Enrollment → Enrollment) (db : Db)
    → ((r : Enrollment) → (f r).id ≡ r.id)
    → ((s g : Uuid) (y : ℕ) (r : Enrollment) → has_key s g y (f r) ≡ has_key s g y r)
    → ((g : Uuid) (y : ℕ) (r : Enrollment)
        → p r ≡ true
        → is_active_in g y (f r) ≡ true
        → is_active_in g y r ≡ true)
    → IsSound db
    → IsSound (with_update p f db)
unfolding find_quota
with_update-IsSound p f db keep key seat v = record {
  distinct = update-IsDistinct row_id p f db.enrollments keep v.distinct;
  bounded = update-IsBounded row_id db.next_id p f db.enrollments keep v.bounded;
  keys = λ s g y. omega (
    arith,
    count-update_le {0} (has_key s g y) p f db.enrollments (λ r _ h. ground (arith, key s g y r)),
    v.keys s g y,
  );
  quotas = λ g y q h. omega (
    arith,
    count-update_le {0} (is_active_in g y) p f db.enrollments (seat g y),
    v.quotas g y q h,
  );
}

Created-IsSound :
    (p : CreateEnrollmentParams) (actor : Option Uuid) (db db' : Db) (row : Enrollment)
    → Created p actor db db' row
    → IsSound db
    → IsSound db'
unfolding find_quota find_key count_if
Created-IsSound p actor db db' row c v = elim c.written [
  | inl (free, _, moved) ↦ subst IsSound (sym moved) (record {
    distinct = (IsBounded-IsFresh row_id db.next_id db.enrollments v.bounded, v.distinct);
    bounded = (omega arith, IsBounded-suc row_id db.next_id db.enrollments v.bounded);
    keys = λ s g y. ground (
      arith,
      v.keys s g y,
      count-find_none (has_key p.student_id p.program_id p.year) db.enrollments free,
    );
    quotas = λ g y q h. ground (arith, v.quotas g y q h, c.found, c.seats);
  })
  | inr (r, held, idle, _, moved) ↦
      let holds = find_first-holds (has_key p.student_id p.program_id p.year) db.enrollments held in
      subst IsSound (sym moved) (record {
        distinct = update-IsDistinct row_id _ _ db.enrollments (λ _. refl) v.distinct;
        bounded = update-IsBounded row_id db.next_id _ _ db.enrollments (λ _. refl) v.bounded;
        keys = λ s g y. omega (
          arith,
          count-update_le {0} (has_key s g y) (λ e. e.id == r.id) (revived actor db.now)
              db.enrollments (λ _ _ h. h),
          v.keys s g y,
        );
        quotas = λ g y q h.
            let moves =
              count-update_exact row_id (is_active_in g y)
                (has_key p.student_id p.program_id p.year) (revived actor db.now) db.enrollments
                {r = r} v.distinct held in
            ground (arith, v.quotas g y q h, c.found, c.seats);
      })
]

-- The writes of the slice.
pub data Operation : Type 0 where
  creating : CreateEnrollmentParams → Option Uuid → Operation
  paying : Uuid → Option Uuid → Operation
  paying_own : Uuid → Uuid → Option Uuid → Operation
  cancelling : Uuid → Option Uuid → Operation

abbrev pub perform : Faults → Operation → World → World
perform faults (creating p actor) w = (create_enrollment_tx faults p actor w).1
perform faults (paying id actor) w = (mark_enrollment_paid faults id actor w).1
perform faults (paying_own id student actor) w =
    (mark_own_enrollment_paid faults id student actor w).1
perform faults (cancelling id actor) w = (cancel_enrollment faults id actor w).1

abbrev pub history : List (Faults × Operation) → World → World
history [] w = w
history ((faults, op) ∷ ops) w = history ops (perform faults op w)

perform-IsSound :
    (faults : Faults) (op : Operation) (w : World) → IsSound w.db → IsSound (perform faults op w).db
perform-IsSound faults (creating p actor) w v =
    ends (λ u. IsSound u.db) (create_enrollment_tx faults p actor) w
      (λ row u q.
        Created-IsSound p actor w.db u.db row (create_enrollment_tx-ok faults p actor w q) v)
      (λ _ _ q. subst IsSound (sym (create_enrollment_tx-err faults p actor w q)) v)
perform-IsSound faults (paying id actor) w v = elim (mark_enrollment_paid-moves faults id actor w) [
  | inl q ↦ subst IsSound (sym q) v
  | inr q ↦ subst IsSound (sym q) (
      with_update-IsSound (can_pay id) (paid_at_now actor w.db.now) w.db (λ _. refl)
        (λ _ _ _ _. refl) (λ g y r met h. ground arith) v)
]
perform-IsSound faults (paying_own id student actor) w v =
    elim (mark_own_enrollment_paid-moves faults id actor w student) [
      | inl q ↦ subst IsSound (sym q) v
      | inr q ↦ subst IsSound (sym q) (
          with_update-IsSound (can_pay_own id student) (paid_at_now actor w.db.now) w.db (λ _. refl)
            (λ _ _ _ _. refl) (λ g y r met h. ground arith) v)
    ]
perform-IsSound faults (cancelling id actor) w v =
    elim (cancel_enrollment-moves faults id actor w) [
      | inl q ↦ subst IsSound (sym q) v
      | inr q ↦ subst IsSound (sym q) (
          with_update-IsSound (can_cancel id) (cancelled_at actor w.db.now) w.db (λ _. refl)
            (λ _ _ _ _. refl) (λ g y r met h. ground arith) v)
    ]

-- Any sequence of creations, payments and cancellations, with any failures, from a sound table
-- leaves a sound table: no quota is exceeded and no student has two rows for a program and year.
pub history-IsSound :
    (ops : List (Faults × Operation)) (w : World) → IsSound w.db → IsSound (history ops w).db
history-IsSound [] w v = v
history-IsSound ((faults, op) ∷ ops) w v =
    history-IsSound ops (perform faults op w) (perform-IsSound faults op w v)
