-- ===== src/SectionEnrollment/Invariant.antt =====
-- backend/internal/sectionenrollment: the invariant of the inscriptions table, and the writes.
use infraestructura_y_servic.Base.{
  IsBounded, IsBounded-IsFresh, IsBounded-suc, update-IsBounded, ◌≡◌, ◌<◌, ◌≤◌, inl, inr, refl,
  subst, sym, Bool, true, Option, none, some, arith, ◌==◌, Option-cases, Bool-cases, count_if,
  IsDistinct, update-IsDistinct, count-update_le, count-update_id, count-update_found,
  find_first-holds, count-find_none,
}
use infraestructura_y_servic.Platform.Pgconv.{Numeric}
use infraestructura_y_servic.Store.{Uuid, Section, Status, SectionEnrollment, Db}
use infraestructura_y_servic.Driver.{Faults, ok, World}
use infraestructura_y_servic.Driver.Laws.{ends}
use infraestructura_y_servic.SectionEnrollment.Queries.{
  find_section, has_key, find_key, is_active_in, active_seats, revived, section_row, SectionRow,
  can_withdraw, withdrawn_at, can_settle, settled,
}
use infraestructura_y_servic.SectionEnrollment.Repository.{
  EnrollSectionParams, write, enroll_section_tx, withdraw_section,
  set_section_enrollment_outcome_tx,
}
use infraestructura_y_servic.SectionEnrollment.Repository.Steps.{Enrolled}
use infraestructura_y_servic.SectionEnrollment.Repository.Effects.{
  with_row, with_update, write-ok_none, write-ok_some, withdraw_section-ok, outcome-ok,
  withdraw_section-err, outcome-err, enroll_section_tx-err, enroll_section_tx-ok,
}

abbrev pub row_id : SectionEnrollment → Uuid
row_id r = r.id

-- Identifiers are primary keys and below the next one, a key has one live row, and no section
-- holds more active inscriptions than it has seats.
pub record IsSound (db : Db) : Type 0 where
  pub distinct : IsDistinct row_id db.section_enrollments
  pub bounded : IsBounded row_id db.next_id db.section_enrollments
  pub keys : (e s : Uuid) → count_if (has_key e s) db.section_enrollments ≤ 1
  pub seats :
      (id : Uuid) (s : Section)
      → find_section id db ≡ some s
      → active_seats id db.section_enrollments ≤ s.capacity

-- The capacity that a joined section row shows is the section's.
pub section_row-capacity :
    (id : Uuid) (db : Db) (row : SectionRow)
    → section_row id db ≡ some row
    → (s : Section) × (find_section id db ≡ some s) × (s.capacity ≡ row.capacity)
section_row-capacity id db row h = elim (Option-cases (find_section id db)) [
  | inl e ↦ absurd (ground arith)
  | inr (s, e) ↦ (s, e, ground arith)
]

-- An update that keeps ids and keys, and makes no seat active anew.
with_update-IsSound :
    (p : SectionEnrollment → Bool) (f : SectionEnrollment → SectionEnrollment) (db : Db)
    → ((r : SectionEnrollment) → (f r).id ≡ r.id)
    → ((e s : Uuid) (r : SectionEnrollment)
        → p r ≡ true
        → has_key e s (f r) ≡ true
        → has_key e s r ≡ true)
    → ((s : Uuid) (r : SectionEnrollment)
        → p r ≡ true
        → is_active_in s (f r) ≡ true
        → is_active_in s r ≡ true)
    → IsSound db
    → IsSound (with_update p f db)
unfolding find_section
with_update-IsSound p f db keep key seat v = record {
  distinct = update-IsDistinct row_id p f db.section_enrollments keep v.distinct;
  bounded = update-IsBounded row_id db.next_id p f db.section_enrollments keep v.bounded;
  keys = λ e s.
      omega
        (arith, count-update_le {0} (has_key e s) p f db.section_enrollments (key e s), v.keys e s);
  seats = λ id s q. omega (
    arith,
    count-update_le {0} (is_active_in id) p f db.section_enrollments (seat id),
    v.seats id s q,
  );
}

-- A free seat of the row that was read is a free seat of the section.
seat_left :
    (id : Uuid) (db : Db) (row : SectionRow) (s : Section)
    → section_row id db ≡ some row
    → find_section id db ≡ some s
    → active_seats id db.section_enrollments < row.capacity
    → active_seats id db.section_enrollments < s.capacity
seat_left id db row s h e lt = let (t, q, c) = section_row-capacity id db row h in ground arith

with_row-IsSound :
    (e s : Uuid) (db : Db) (row : SectionRow)
    → find_key e s db.section_enrollments ≡ none
    → section_row s db ≡ some row
    → active_seats s db.section_enrollments < row.capacity
    → IsSound db
    → IsSound (with_row e s db)
unfolding find_section find_key count_if
with_row-IsSound e s db row free found room v = record {
  distinct = (IsBounded-IsFresh row_id db.next_id db.section_enrollments v.bounded, v.distinct);
  bounded = (omega arith, IsBounded-suc row_id db.next_id db.section_enrollments v.bounded);
  keys = λ e' s'.
      ground (arith, v.keys e' s', count-find_none (has_key e s) db.section_enrollments free);
  seats = λ id t q. elim (Bool-cases (s == id)) [
    | inl same ↦
        let q1 : s ≡ id = ground arith in ground (arith, seat_left s db row t found (rw q1 q) room)
    | inr differs ↦ ground (arith, v.seats id t q)
  ];
}

with_revived-IsSound :
    (e s : Uuid) (db : Db) (row : SectionRow) (r : SectionEnrollment)
    → find_key e s db.section_enrollments ≡ some r
    → section_row s db ≡ some row
    → active_seats s db.section_enrollments < row.capacity
    → IsSound db
    → IsSound (with_update (λ x. x.id == r.id) (revived db.now) db)
unfolding find_section find_key
with_revived-IsSound e s db row r key found room v =
    let held : has_key e s r ≡ true = find_first-holds (has_key e s) db.section_enrollments key in
    record {
      distinct = update-IsDistinct row_id _ _ db.section_enrollments (λ _. refl) v.distinct;
      bounded = update-IsBounded row_id db.next_id _ _ db.section_enrollments (λ _. refl) v.bounded;
      keys = λ e' s'. omega (
        arith,
        count-update_found {0} row_id (has_key e' s') (has_key e s) (revived db.now)
            db.section_enrollments {r = r} v.distinct key (λ h. ground arith),
        v.keys e' s',
      );
      seats = λ id t q. elim (Bool-cases (s == id)) [
        | inl same ↦
            let q1 : s ≡ id = ground arith in
            omega (
              arith,
              count-update_id {0} row_id (is_active_in id) r.id (revived db.now)
                  db.section_enrollments v.distinct,
              subst (λ (x : Uuid). active_seats x db.section_enrollments < t.capacity) q1
                  (seat_left s db row t found (rw q1 q) room),
            )
        | inr differs ↦ omega (
          arith,
          count-update_found {0} row_id (is_active_in id) (has_key e s) (revived db.now)
              db.section_enrollments {r = r} v.distinct key (λ h. ground arith),
          v.seats id t q,
        )
      ];
    }

-- What `write` leaves behind is sound, for the revival that step 6 chose.
Enrolled-IsSound :
    (faults : Faults) (p : EnrollSectionParams) (is_admin : Bool) (w : World) {w' : World}
    {row : SectionEnrollment}
    → Enrolled faults p is_admin w (ok row, w')
    → IsSound w.db
    → IsSound w'.db
Enrolled-IsSound faults p is_admin w {w'} {row} g v = elim g.key [
  | inl (free, fresh) ↦
      let (_, _, moved) = write-ok_none faults w g.link.enrollment_id p.section_id (
        subst
          (λ (u : Option Uuid). write faults g.link.enrollment_id p.section_id u w ≡ (ok row, w'))
          fresh g.written) in
      subst IsSound (sym moved) (
        with_row-IsSound g.link.enrollment_id p.section_id w.db g.section free g.eligible.found
          g.seats v)
  | inr (r, held, _, _, old) ↦
      let (_, _, _, moved) = write-ok_some faults w g.link.enrollment_id p.section_id r.id (
        subst
          (λ (u : Option Uuid). write faults g.link.enrollment_id p.section_id u w ≡ (ok row, w'))
          old g.written) in
      subst IsSound (sym moved) (
        with_revived-IsSound g.link.enrollment_id p.section_id w.db g.section r held
          g.eligible.found g.seats v)
]

module _ (faults : Faults) (w : World) (v : IsSound w.db) where
  -- An enrollment, by a student or an administrator, whatever the driver does, leaves a sound table
  -- sound: no section ends up with more active inscriptions than it has seats, and no key with two
  -- live rows.
  pub enroll_section_tx-IsSound :
      (p : EnrollSectionParams) (is_admin : Bool)
      → IsSound (enroll_section_tx faults p is_admin w).1.db
  enroll_section_tx-IsSound p is_admin =
      ends (λ u. IsSound u.db) (enroll_section_tx faults p is_admin) w
        (λ _ _ q.
          Enrolled-IsSound faults p is_admin w (enroll_section_tx-ok faults p is_admin w q) v)
        (λ _ _ q. subst IsSound (sym (enroll_section_tx-err faults p is_admin w q)) v)

  -- So does a withdrawal.
  pub withdraw_section-IsSound : (id : Uuid) → IsSound (withdraw_section faults id w).1.db
  withdraw_section-IsSound id =
      ends (λ u. IsSound u.db) (withdraw_section faults id) w
        (λ _ _ q.
          let (_, _, _, moved) = withdraw_section-ok faults w id q in
          subst IsSound (sym moved) (
            with_update-IsSound (can_withdraw id) (withdrawn_at w.db.now) w.db (λ _. refl)
              (λ _ _ _ _ h. h) (λ s r met h. ground arith) v))
        (λ _ _ q. subst (λ (u : World). IsSound u.db) (sym (withdraw_section-err faults w id q)) v)

  -- So does the outcome that the grades slice writes.
  pub outcome-IsSound :
      (id : Uuid) (outcome : Status) (grade : Numeric)
      → IsSound (set_section_enrollment_outcome_tx faults id outcome grade w).1.db
  outcome-IsSound id outcome grade =
      ends (λ u. IsSound u.db) (set_section_enrollment_outcome_tx faults id outcome grade) w
        (λ _ _ q.
          let (_, _, _, moved) = outcome-ok faults w id outcome grade q in
          subst IsSound (sym moved) (
            with_update-IsSound (can_settle id outcome) (settled outcome grade w.db.now) w.db
              (λ _. refl) (λ _ _ _ _ h. h) (λ s r met h. ground arith) v))
        (λ _ _ q.
          subst (λ (u : World). IsSound u.db) (sym (outcome-err faults w id outcome grade q)) v)
