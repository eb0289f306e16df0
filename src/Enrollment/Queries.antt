-- ===== src/Enrollment/Queries.antt =====
-- backend/internal/enrollment/query.sql: the statements of the slice, on the tables.
use infraestructura_y_servic.Base.{
  ℕ, suc, Bool, true, false, not, ◌&&◌, Option, none, some, List, ◌∷◌, ◌==◌, find_first, count_if,
  update_where,
}
use infraestructura_y_servic.Store.{
  Uuid, Time, is_null, ProgramQuota, EnrollmentStatus, pending, paid, cancelled, Enrollment, Db,
}
use infraestructura_y_servic.Driver.{no_rows, unique_violation, ok, err, Query, reads, one_row}

abbrev pub is_pending : EnrollmentStatus → Bool
is_pending pending = true
is_pending _ = false

abbrev pub is_cancelled : EnrollmentStatus → Bool
is_cancelled cancelled = true
is_cancelled _ = false

pub record CreateEnrollmentParams : Type 0 where
  pub student_id : Uuid
  pub program_id : Uuid
  pub year : ℕ

unfoldable pub find_quota : Uuid → ℕ → Db → Option ProgramQuota
find_quota program year db =
    find_first (λ q. q.program_id == program && (q.year == year && is_null q.deleted_at))
      db.program_quotas

abbrev pub lock_program_quota_for_year : Uuid → ℕ → Query ℕ
lock_program_quota_for_year program year =
    reads λ db. elim (find_quota program year db) [ none ↦ err no_rows | some q ↦ ok q.capacity ]

-- The columns of the UNIQUE constraint, whatever the status, soft-deleted rows included.
abbrev pub has_key : Uuid → Uuid → ℕ → Enrollment → Bool
has_key student program year e =
    e.student_id == student && (e.program_id == program && e.year == year)

unfoldable pub find_key : CreateEnrollmentParams → List Enrollment → Option Enrollment
find_key p rows = find_first (has_key p.student_id p.program_id p.year) rows

abbrev pub get_enrollment_by_key_for_update : CreateEnrollmentParams → Query Enrollment
get_enrollment_by_key_for_update p = reads λ db. one_row (find_key p db.enrollments)

-- program_id = $1 AND year = $2 AND status <> 'cancelled' AND deleted_at IS NULL.
abbrev pub is_active_in : Uuid → ℕ → Enrollment → Bool
is_active_in program year e =
    e.program_id == program
    && (e.year == year && (not (is_cancelled e.status) && is_null e.deleted_at))

abbrev pub active_enrollments : Uuid → ℕ → List Enrollment → ℕ
active_enrollments program year rows = count_if (is_active_in program year) rows

abbrev pub count_active_enrollments : Uuid → ℕ → Query ℕ
count_active_enrollments program year =
    reads λ db. ok (active_enrollments program year db.enrollments)

abbrev pub fresh_row : CreateEnrollmentParams → Option Uuid → Db → Enrollment
fresh_row p actor db = record {
  id = db.next_id;
  student_id = p.student_id;
  program_id = p.program_id;
  year = p.year;
  status = pending;
  paid_at = none;
  created_at = db.now;
  updated_at = db.now;
  deleted_at = none;
  created_by = actor;
  updated_by = actor;
}

-- INSERT … RETURNING *, under UNIQUE (student_id, program_id, year).
unfoldable pub insert_enrollment : CreateEnrollmentParams → Option Uuid → Query Enrollment
insert_enrollment p actor db = elim (find_key p db.enrollments) [
  | some _ ↦ (err unique_violation, db)
  | none ↦ (
    ok (fresh_row p actor db),
    record db { enrollments = fresh_row p actor db ∷ db.enrollments; next_id = suc db.next_id },
  )
]

-- UPDATE … WHERE p RETURNING *, for a predicate that at most one row meets (its id is fixed).
abbrev pub update_one : (Enrollment → Bool) → (Enrollment → Enrollment) → Query Enrollment
update_one p f db = elim (find_first p db.enrollments) [
  | none ↦ (err no_rows, db)
  | some r ↦ (ok (f r), record db { enrollments = update_where p f db.enrollments })
]

abbrev pub revived : Option Uuid → Time → Enrollment → Enrollment
revived actor now e = record e {
  status = pending;
  paid_at = none;
  deleted_at = none;
  updated_at = now;
  updated_by = actor;
}

unfoldable pub revive_enrollment : Uuid → Option Uuid → Query Enrollment
revive_enrollment id actor db = update_one (λ e. e.id == id) (revived actor db.now) db

abbrev pub can_pay : Uuid → Enrollment → Bool
can_pay id e = e.id == id && (is_pending e.status && is_null e.deleted_at)

abbrev pub can_pay_own : Uuid → Uuid → Enrollment → Bool
can_pay_own id student e =
    e.id == id && (e.student_id == student && (is_pending e.status && is_null e.deleted_at))

abbrev pub paid_at_now : Option Uuid → Time → Enrollment → Enrollment
paid_at_now actor now e = record e {
  status = paid;
  paid_at = some now;
  updated_at = now;
  updated_by = actor;
}

unfoldable pub mark_paid : Uuid → Option Uuid → Query Enrollment
mark_paid id actor db = update_one (can_pay id) (paid_at_now actor db.now) db

unfoldable pub mark_own_paid : Uuid → Uuid → Option Uuid → Query Enrollment
mark_own_paid id student actor db =
    update_one (can_pay_own id student) (paid_at_now actor db.now) db

-- status IN ('pending', 'paid').
abbrev pub can_cancel : Uuid → Enrollment → Bool
can_cancel id e = e.id == id && (not (is_cancelled e.status) && is_null e.deleted_at)

abbrev pub cancelled_at : Option Uuid → Time → Enrollment → Enrollment
cancelled_at actor now e = record e { status = cancelled; updated_at = now; updated_by = actor }

-- `:execrows`: the number of rows that the update touched.
unfoldable pub cancel : Uuid → Option Uuid → Query ℕ
cancel id actor db = (
  ok (count_if (can_cancel id) db.enrollments),
  record db {
    enrollments = update_where (can_cancel id) (cancelled_at actor db.now) db.enrollments;
  },
)

unfoldable pub find_live : Uuid → Db → Option Enrollment
find_live id db = find_first (λ e. e.id == id && is_null e.deleted_at) db.enrollments

abbrev pub get : Uuid → Query Enrollment
get id = reads λ db. one_row (find_live id db)
