-- ===== src/Enrollment/Service.antt =====
-- backend/internal/enrollment/service.go: identifiers from the wire, the caller from the session.
-- `uuid.Parse` is a parameter, and the session's user is an argument.
use infraestructura_y_servic.Base.{
  ◌≡◌, String, Option, none, some, ◌==◌, if◌then◌else◌, arith, Option-cases, inl, inr,
}
use infraestructura_y_servic.Base.Int.{ℤ, pos, pos_part, ltb_ℤ}
use infraestructura_y_servic.Store.{Uuid, Enrollment}
use infraestructura_y_servic.Driver.{Faults, ok, err, World, M, ◌>>=◌, ◌>>◌, pure, raise, check}
use infraestructura_y_servic.Enrollment.Errors.{Error, not_found, invalid_input}
use infraestructura_y_servic.Enrollment.Queries.{find_live}
use infraestructura_y_servic.Enrollment.Repository.{
  create_enrollment_tx, mark_enrollment_paid, mark_own_enrollment_paid, cancel_enrollment,
  get_enrollment,
}

-- The user that `auth.UserIDFromContext` finds: the session's.
abbrev pub Caller : Type 0
Caller = Option Uuid

unfoldable pub caller_id : Caller → M Error Uuid
caller_id none = raise not_found
caller_id (some user) = pure user

module _ (parse : String → Option Uuid) (faults : Faults) where
  unfoldable pub parse_uuid : String → M Error Uuid
  parse_uuid s w = elim (parse s) [ none ↦ (err invalid_input, w) | some id ↦ (ok id, w) ]

  pub create_enrollment : Caller → String → String → ℤ → M Error Enrollment
  unfolding parse_uuid
  create_enrollment caller student program year = do
    check (ltb_ℤ (pos 0) year) invalid_input
    student_id ← parse_uuid student
    program_id ← parse_uuid program
    create_enrollment_tx faults
        (record { student_id = student_id; program_id = program_id; year = pos_part year }) caller

  pub pay : Caller → String → M Error Enrollment
  unfolding parse_uuid
  pay caller id_str = do id ← parse_uuid id_str; mark_enrollment_paid faults id caller

  pub pay_own : Caller → String → M Error Enrollment
  unfolding caller_id parse_uuid
  pay_own caller id_str = do
    user ← caller_id caller
    id ← parse_uuid id_str
    mark_own_enrollment_paid faults id user caller

  pub cancel_by_id : Caller → String → M Error (Unit {0})
  unfolding parse_uuid
  cancel_by_id caller id_str = do id ← parse_uuid id_str; cancel_enrollment faults id caller

  pub get_by_id : String → M Error Enrollment
  unfolding parse_uuid
  get_by_id id_str = do id ← parse_uuid id_str; get_enrollment faults id

  unfoldable pub owned_by : Uuid → Enrollment → M Error Enrollment
  owned_by user row w = ((if row.student_id == user then ok row else err not_found), w)

  unfoldable pub get_own_enrollment : Caller → String → M Error Enrollment
  unfolding caller_id parse_uuid owned_by
  get_own_enrollment caller id_str = do
    user ← caller_id caller
    id ← parse_uuid id_str
    row ← get_enrollment faults id
    owned_by user row

  -- However the driver fails, a caller gets an enrollment as its own only with a session, for an
  -- identifier that parses, whose live row is that enrollment and names the caller as its student;
  -- and nothing changes.
  pub get_own_enrollment-own :
      (caller : Caller) (id_str : String) (w : World) {w' : World} {row : Enrollment}
      → get_own_enrollment caller id_str w ≡ (ok row, w')
      → ((id : Uuid) × (parse id_str ≡ some id) × (find_live id w.db ≡ some row))
        × (caller ≡ some row.student_id)
        × (w' ≡ w)
  unfolding get_own_enrollment caller_id parse_uuid owned_by get_enrollment
  get_own_enrollment-own none id_str w h = absurd (ground arith)
  get_own_enrollment-own (some user) id_str w h = elim (Option-cases (parse id_str)) [
    | inl e ↦ absurd (ground arith)
    | inr (id, e) ↦ ((id, e, ground arith), ground arith, ground arith)
  ]
