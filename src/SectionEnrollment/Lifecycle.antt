-- ===== src/SectionEnrollment/Lifecycle.antt =====
-- backend/internal/sectionenrollment: statuses under sequences of the writes of the slice.
use infraestructura_y_servic.Base.{
  ◌≡◌, ◌≢◌, ◌<◌, ◌⊎◌, inl, inr, refl, ap, subst, Bool, true, Option, some, List, [], ◌∷◌, arith,
  ◌==◌, Bool-cases, find_first, find_first-update, find_first-by_id, find_first-holds,
  find_first-All,
}
use infraestructura_y_servic.Platform.Pgconv.{Numeric}
use infraestructura_y_servic.Store.{Uuid, Status, in_progress, withdrawn, SectionEnrollment, Db}
use infraestructura_y_servic.Driver.{Faults, ok, World}
use infraestructura_y_servic.Driver.Laws.{ends}
use infraestructura_y_servic.SectionEnrollment.Queries.{
  is_outcome, has_key, find_key, revived, can_withdraw, withdrawn_at, can_settle, settled,
}
use infraestructura_y_servic.SectionEnrollment.Repository.{
  EnrollSectionParams, write, enroll_section_tx, withdraw_section,
  set_section_enrollment_outcome_tx,
}
use infraestructura_y_servic.SectionEnrollment.Repository.Steps.{Enrolled}
use infraestructura_y_servic.SectionEnrollment.Repository.Effects.{
  with_row, with_update, write-ok_none, write-ok_some, withdraw_section-ok, outcome-ok,
  withdraw_section-err, outcome-err, enroll_section_tx-err, enroll_section_tx-ok,
}
use infraestructura_y_servic.SectionEnrollment.Invariant.{
  IsSound, row_id, enroll_section_tx-IsSound, withdraw_section-IsSound, outcome-IsSound,
}

-- The writes of the slice.
pub data Operation : Type 0 where
  enrolling : EnrollSectionParams → Bool → Operation
  withdrawing : Uuid → Operation
  settling : Uuid → Status → Numeric → Operation

abbrev pub perform : Faults → Operation → World → World
perform faults (enrolling p is_admin) w = (enroll_section_tx faults p is_admin w).1
perform faults (withdrawing id) w = (withdraw_section faults id w).1
perform faults (settling id outcome grade) w =
    (set_section_enrollment_outcome_tx faults id outcome grade w).1

-- One write after the other, each with its own failures.
abbrev pub run : List (Faults × Operation) → World → World
run [] w = w
run ((faults, op) ∷ ops) w = run ops (perform faults op w)

abbrev pub row_of : Uuid → Db → Option SectionEnrollment
row_of n db = find_first (λ r. r.id == n) db.section_enrollments

-- What a write may do to the status of row n: an enrollment by an administrator revives a withdrawn
-- inscription, a withdrawal withdraws the running one that it names, and an outcome, passed or
-- failed, is given to the one that it names where that is not withdrawn, so to a passed or a failed
-- one as well.
abbrev pub Edge : Operation → Uuid → Status → Status → Type 0
Edge (enrolling p is_admin) n s t = (is_admin ≡ true) × (s ≡ withdrawn) × (t ≡ in_progress)
Edge (withdrawing id) n s t = (n ≡ id) × (s ≡ in_progress) × (t ≡ withdrawn)
Edge (settling id outcome grade) n s t =
    (n ≡ id) × (s ≢ withdrawn) × (is_outcome outcome ≡ true) × (t ≡ outcome)

-- The row n, if there was one, is still there with its key, and with its status or one that the
-- write may give it.
abbrev pub Moved : Operation → Uuid → SectionEnrollment → Db → Type 0
Moved op n r db =
    (r' : SectionEnrollment) × (row_of n db ≡ some r')
    × (r'.enrollment_id ≡ r.enrollment_id)
    × (r'.section_id ≡ r.section_id)
    × ((r'.status ≡ r.status) ⊎ Edge op n r.status r'.status)

module _ (op : Operation) (n : Uuid) (r : SectionEnrollment) (db : Db) {db' : Db}
    (at : row_of n db ≡ some r) where
  Moved-same : db' ≡ db → Moved op n r db'
  Moved-same q = (r, ground arith, refl, refl, inl refl)

  Moved-update :
      (p : SectionEnrollment → Bool) (f : SectionEnrollment → SectionEnrollment)
      → db' ≡ with_update p f db
      → ((x : SectionEnrollment) → (f x).id ≡ x.id)
      → (f r).enrollment_id ≡ r.enrollment_id
      → (f r).section_id ≡ r.section_id
      → (p r ≡ true → Edge op n r.status (f r).status)
      → Moved op n r db'
  Moved-update p f q keep e s edge =
      let found = find_first-update row_id n p f db.section_enrollments {r = r} keep at in
      elim (Bool-cases (p r)) [
        | inl met ↦ (f r, ground arith, e, s, inr (edge met))
        | inr unmet ↦ (r, ground arith, refl, refl, inl refl)
      ]

  Moved-insert : (e s : Uuid) → IsSound db → db' ≡ with_row e s db → Moved op n r db'
  unfolding find_first
  Moved-insert e s v q =
      let below =
        find_first-All (λ (x : SectionEnrollment). x.id < db.next_id) (λ x. x.id == n)
          db.section_enrollments {r = r} v.bounded at in
      let same : (r.id == n) ≡ true =
        find_first-holds (λ (x : SectionEnrollment). x.id == n) db.section_enrollments at in
      (r, ground arith, refl, refl, inl refl)

module _ (faults : Faults) (w : World) (v : IsSound w.db) (n : Uuid) (r : SectionEnrollment)
    (at : row_of n w.db ≡ some r) where
  enroll_section_tx-Moved :
      (p : EnrollSectionParams) (is_admin : Bool) {w' : World} {row : SectionEnrollment}
      → Enrolled faults p is_admin w (ok row, w')
      → Moved (enrolling p is_admin) n r w'.db
  unfolding find_key
  enroll_section_tx-Moved p is_admin {w'} {row} g = elim g.key [
    | inl (free, fresh) ↦
        let (_, _, moved) = write-ok_none faults w g.link.enrollment_id p.section_id (
          subst
            (λ (u : Option Uuid). write faults g.link.enrollment_id p.section_id u w ≡ (ok row, w'))
            fresh g.written) in
        Moved-insert (enrolling p is_admin) n r w.db at g.link.enrollment_id p.section_id v moved
    | inr (old, held, was, admin, at_old) ↦
        let (_, _, _, moved) = write-ok_some faults w g.link.enrollment_id p.section_id old.id (
          subst
            (λ (u : Option Uuid). write faults g.link.enrollment_id p.section_id u w ≡ (ok row, w'))
            at_old g.written) in
        let same =
          find_first-by_id row_id (has_key g.link.enrollment_id p.section_id)
            w.db.section_enrollments {r = old} v.distinct held in
        let mine =
          find_first-by_id row_id (λ x. x.id == n) w.db.section_enrollments {r = r} v.distinct at in
        Moved-update (enrolling p is_admin) n r w.db at (λ x. x.id == old.id) (revived w.db.now)
          moved (λ _. refl) refl refl
          (λ met.
            let q1 : r.id ≡ old.id = ground arith in
            let q2 : r ≡ old = ground arith in (admin, ground arith, refl))
  ]

  named : (r.id == n) ≡ true
  unfolding find_first
  named = find_first-holds (λ (x : SectionEnrollment). x.id == n) w.db.section_enrollments at

  -- On a sound table, whatever write is made and however the driver fails, no inscription
  -- disappears or changes its enrollment or section, and its status changes in these ways only: an
  -- enrollment by an administrator turns withdrawn into in_progress, a withdrawal turns in_progress
  -- into withdrawn where it names the inscription, and an outcome, passed or failed, takes the place
  -- of any status but withdrawn, passed and failed included, where it names the inscription.
  pub perform-Moved : (op : Operation) → Moved op n r (perform faults op w).db
  perform-Moved (enrolling p is_admin) =
      ends (λ u. Moved (enrolling p is_admin) n r u.db) (enroll_section_tx faults p is_admin) w
        (λ _ _ q. enroll_section_tx-Moved p is_admin (enroll_section_tx-ok faults p is_admin w q))
        (λ _ _ q.
          Moved-same (enrolling p is_admin) n r w.db at
            (enroll_section_tx-err faults p is_admin w q))
  perform-Moved (withdrawing id) =
      ends (λ u. Moved (withdrawing id) n r u.db) (withdraw_section faults id) w
        (λ _ _ q.
          let (_, _, _, moved) = withdraw_section-ok faults w id q in
          Moved-update (withdrawing id) n r w.db at (can_withdraw id) (withdrawn_at w.db.now) moved
            (λ _. refl) refl refl (λ met. (ground (arith, named), ground arith, refl)))
        (λ _ _ q.
          Moved-same (withdrawing id) n r w.db at
            (ap (λ (u : World). u.db) (withdraw_section-err faults w id q)))
  perform-Moved (settling id outcome grade) =
      ends (λ u. Moved (settling id outcome grade) n r u.db)
        (set_section_enrollment_outcome_tx faults id outcome grade) w
        (λ _ _ q.
          let (_, _, _, moved) = outcome-ok faults w id outcome grade q in
          Moved-update (settling id outcome grade) n r w.db at (can_settle id outcome)
            (settled outcome grade w.db.now) moved (λ _. refl) refl refl
            (λ met. (ground (arith, named), (λ e. ground arith), ground arith, refl)))
        (λ _ _ q.
          Moved-same (settling id outcome grade) n r w.db at
            (ap (λ (u : World). u.db) (outcome-err faults w id outcome grade q)))

moved_outcome :
    (op : Operation) (n : Uuid) {s t : Status}
    → (t ≡ s) ⊎ Edge op n s t
    → is_outcome s ≡ true
    → is_outcome t ≡ true
moved_outcome (enrolling p is_admin) n moved done = ground arith
moved_outcome (withdrawing id) n moved done = ground arith
moved_outcome (settling id outcome grade) n moved done = ground arith

perform-IsSound :
    (faults : Faults) (op : Operation) (w : World) → IsSound w.db → IsSound (perform faults op w).db
perform-IsSound faults (enrolling p is_admin) w v = enroll_section_tx-IsSound faults w v p is_admin
perform-IsSound faults (withdrawing id) w v = withdraw_section-IsSound faults w v id
perform-IsSound faults (settling id outcome grade) w v = outcome-IsSound faults w v id outcome grade

-- Any sequence of writes, with any failures, from a sound table leaves a sound table.
pub run-IsSound :
    (ops : List (Faults × Operation)) (w : World) → IsSound w.db → IsSound (run ops w).db
run-IsSound [] w v = v
run-IsSound ((faults, op) ∷ ops) w v =
    run-IsSound ops (perform faults op w) (perform-IsSound faults op w v)

-- On a sound table, an inscription that is passed or failed is passed or failed after any sequence
-- of writes: it is never withdrawn, and never runs again.
pub run-is_outcome :
    (ops : List (Faults × Operation)) (w : World) (n : Uuid) (r : SectionEnrollment)
    → IsSound w.db
    → row_of n w.db ≡ some r
    → is_outcome r.status ≡ true
    → (r' : SectionEnrollment) × (row_of n (run ops w).db ≡ some r') × (is_outcome r'.status ≡ true)
run-is_outcome [] w n r v at done = (r, at, done)
run-is_outcome ((faults, op) ∷ ops) w n r v at done =
    let (r', at', _, _, edge) = perform-Moved faults w v n r at op in
    run-is_outcome ops (perform faults op w) n r' (perform-IsSound faults op w v) at'
      (moved_outcome op n edge done)
