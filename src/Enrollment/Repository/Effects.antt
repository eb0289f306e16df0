-- ===== src/Enrollment/Repository/Effects.antt =====
-- backend/internal/enrollment/repository.go: what the methods do to the tables.
use infraestructura_y_servic.Base.{
  ℕ, suc, ◌≡◌, ◌<◌, ◌⊎◌, inl, inr, Bool, false, Option, none, some, arith, ◌∷◌, ◌==◌, Option-cases,
  find_first, update_where,
}
use infraestructura_y_servic.Store.{Uuid, is_null, cancelled, ProgramQuota, Enrollment, Db}
use infraestructura_y_servic.Driver.{Faults, ok, err, World}
use infraestructura_y_servic.Driver.Laws.{keeps_cases}
use infraestructura_y_servic.Enrollment.Errors.{Error}
use infraestructura_y_servic.Enrollment.Queries.{
  CreateEnrollmentParams, find_quota, find_key, active_enrollments, fresh_row, revived, can_pay,
  can_pay_own, paid_at_now, can_cancel, cancelled_at, insert_enrollment, revive_enrollment,
  mark_paid, mark_own_paid, cancel,
}
use infraestructura_y_servic.Enrollment.Repository.{
  lock_quota, lock_key, quota_gate, quota_of, existing_key, write, create_body,
  create_enrollment_tx, mark_enrollment_paid, mark_own_enrollment_paid, cancel_enrollment,
  wrong_state, wrong_own_state, paid_or, unless_cancelled,
}

abbrev pub with_row : CreateEnrollmentParams → Option Uuid → Db → Db
with_row p actor db = record db {
  enrollments = fresh_row p actor db ∷ db.enrollments;
  next_id = suc db.next_id;
}

abbrev pub with_update : (Enrollment → Bool) → (Enrollment → Enrollment) → Db → Db
with_update p f db = record db { enrollments = update_where p f db.enrollments }

-- A cancelled or soft-deleted row: it holds no seat.
abbrev pub IsIdle : Enrollment → Type 0
IsIdle e = (e.status ≡ cancelled) ⊎ (is_null e.deleted_at ≡ false)

-- Step 2's choice, by the row of the key.
abbrev pub Revival : Option Enrollment → Option Uuid → Type 0
Revival found revival =
    ((found ≡ none) × (revival ≡ none))
    ⊎ ((r : Enrollment) × (found ≡ some r) × IsIdle r × (revival ≡ some r.id))

-- What a creation that went through has checked and written.
pub record Created (p : CreateEnrollmentParams) (actor : Option Uuid) (db db' : Db)
    (row : Enrollment) : Type 0 where
  pub quota : ProgramQuota
  pub found : find_quota p.program_id p.year db ≡ some quota
  pub seats : active_enrollments p.program_id p.year db.enrollments < quota.capacity
  pub written :
      ((find_key p db.enrollments ≡ none)
        × (row ≡ fresh_row p actor db)
        × (db' ≡ with_row p actor db))
      ⊎ ((r : Enrollment) × (find_key p db.enrollments ≡ some r)
          × IsIdle r
          × ((r' : Enrollment) × (find_first (λ e. e.id == r.id) db.enrollments ≡ some r')
              × (row ≡ revived actor db.now r'))
          × (db' ≡ with_update (λ e. e.id == r.id) (revived actor db.now) db))

module _ (faults : Faults) (p : CreateEnrollmentParams) {w w' : World} where
  lock_quota-ok :
      {capacity : ℕ}
      → lock_quota faults p w ≡ (ok capacity, w')
      → ((q : ProgramQuota) × (find_quota p.program_id p.year w.db ≡ some q)
          × (q.capacity ≡ capacity))
        × (w' ≡ w)
  unfolding lock_quota quota_of
  lock_quota-ok h = elim (Option-cases (find_quota p.program_id p.year w.db)) [
    | inl e ↦ absurd (ground arith)
    | inr (q, e) ↦ ((q, e, ground arith), ground arith)
  ]

  lock_key-ok :
      {revival : Option Uuid}
      → lock_key faults p w ≡ (ok revival, w')
      → Revival (find_key p w.db.enrollments) revival × (w' ≡ w)
  unfolding lock_key existing_key
  lock_key-ok h = elim (Option-cases (find_key p w.db.enrollments)) [
    | inl e ↦ (inl (e, ground arith), ground arith)
    | inr (r, e) ↦ (inr (r, e, ground arith, ground arith), ground arith)
  ]

  quota_gate-ok :
      (capacity : ℕ)
      → quota_gate faults p capacity w ≡ (ok tt, w')
      → (active_enrollments p.program_id p.year w.db.enrollments < capacity) × (w' ≡ w)
  unfolding quota_gate
  quota_gate-ok capacity h = ground arith

module _ (faults : Faults) (p : CreateEnrollmentParams) (actor : Option Uuid) (w : World)
    {w' : World} {row : Enrollment} where
  write-ok_none :
      write faults p actor none w ≡ (ok row, w')
      → (row ≡ fresh_row p actor w.db) × (w'.db ≡ with_row p actor w.db)
  unfolding write insert_enrollment
  write-ok_none h = ground arith

  write-ok_some :
      (id : Uuid)
      → write faults p actor (some id) w ≡ (ok row, w')
      → ((r : Enrollment) × (find_first (λ e. e.id == id) w.db.enrollments ≡ some r)
          × (row ≡ revived actor w.db.now r))
        × (w'.db ≡ with_update (λ e. e.id == id) (revived actor w.db.now) w.db)
  unfolding write revive_enrollment
  write-ok_some id h = elim (Option-cases (find_first (λ e. e.id == id) w.db.enrollments)) [
    | inl e ↦ absurd (ground arith)
    | inr (r, e) ↦ ((r, e, ground arith), ground arith)
  ]

  create_body-ok : create_body faults p actor w ≡ (ok row, w') → Created p actor w.db w'.db row
  unfolding create_body
  create_body-ok h =
      elim (keeps_cases (lock_quota faults p) w (λ _ _ e. (lock_quota-ok faults p e).1)) [
        | inr (_, _, x) ↦ absurd (ground arith)
        | inl (c, e1) ↦
            elim (keeps_cases (lock_key faults p) w (λ _ _ e. (lock_key-ok faults p e).1)) [
              | inr (_, _, x) ↦ absurd (ground arith)
              | inl (v, e2) ↦
                  elim (keeps_cases (quota_gate faults p c) w
                    (λ _ _ e. (quota_gate-ok faults p c e).1)) [
                      | inr (_, _, x) ↦ absurd (ground arith)
                      | inl (_, e3) ↦
                          let ((q, found, cap), _) = lock_quota-ok faults p e1 in
                          let (room, _) = quota_gate-ok faults p c e3 in
                          record {
                            quota = q;
                            found = found;
                            seats = ground arith;
                            written = elim (lock_key-ok faults p e2).0 [
                              | inl (free, fresh) ↦
                                  let o = write-ok_none (ground arith) in inl (free, o.0, o.1)
                              | inr (r, held, idle, old) ↦
                                  let o = write-ok_some r.id (ground arith) in
                                  inr (r, held, idle, o.0, o.1)
                            ];
                          }
                    ]
            ]
      ]

  pub create_enrollment_tx-ok :
      create_enrollment_tx faults p actor w ≡ (ok row, w') → Created p actor w.db w'.db row
  unfolding create_enrollment_tx
  create_enrollment_tx-ok h = create_body-ok (ground arith)

module _ (faults : Faults) (p : CreateEnrollmentParams) (actor : Option Uuid) (w : World)
    {w' : World} {e : Error} where
  -- A creation that is refused, or that a failing driver call or commit ends, leaves the tables as
  -- they were.
  pub create_enrollment_tx-err : create_enrollment_tx faults p actor w ≡ (err e, w') → w'.db ≡ w.db
  unfolding create_enrollment_tx
  create_enrollment_tx-err h = ground arith

module _ (faults : Faults) (id : Uuid) (actor : Option Uuid) (w : World) where
  pub mark_enrollment_paid-moves :
      ((mark_enrollment_paid faults id actor w).1.db ≡ w.db)
      ⊎ ((mark_enrollment_paid faults id actor w).1.db
          ≡ with_update (can_pay id) (paid_at_now actor w.db.now) w.db)
  unfolding mark_enrollment_paid wrong_state paid_or mark_paid
  mark_enrollment_paid-moves = elim (Option-cases (faults 0)) [
    | inr (f, e) ↦ inl (ground arith)
    | inl e ↦ elim (Option-cases (find_first (can_pay id) w.db.enrollments)) [
      | inl q ↦ inl (ground arith)
      | inr (r, q) ↦ inr (ground arith)
    ]
  ]

  pub mark_own_enrollment_paid-moves :
      (student : Uuid)
      → ((mark_own_enrollment_paid faults id student actor w).1.db ≡ w.db)
        ⊎ ((mark_own_enrollment_paid faults id student actor w).1.db
            ≡ with_update (can_pay_own id student) (paid_at_now actor w.db.now) w.db)
  unfolding mark_own_enrollment_paid wrong_own_state paid_or mark_own_paid
  mark_own_enrollment_paid-moves student = elim (Option-cases (faults 0)) [
    | inr (f, e) ↦ inl (ground arith)
    | inl e ↦ elim (Option-cases (find_first (can_pay_own id student) w.db.enrollments)) [
      | inl q ↦ inl (ground arith)
      | inr (r, q) ↦ inr (ground arith)
    ]
  ]

  pub cancel_enrollment-moves :
      ((cancel_enrollment faults id actor w).1.db ≡ w.db)
      ⊎ ((cancel_enrollment faults id actor w).1.db
          ≡ with_update (can_cancel id) (cancelled_at actor w.db.now) w.db)
  unfolding cancel_enrollment unless_cancelled cancel
  cancel_enrollment-moves = elim (Option-cases (faults 0)) [
    | inr (f, e) ↦ inl (ground arith)
    | inl e ↦ inr (ground arith)
  ]
