-- ===== src/SectionEnrollment/Enrollable/Pages.antt =====
-- backend/internal/sectionenrollment/service.go: the pages of `ListEnrollableSections`.
use infraestructura_y_servic.Base.{
  ◌+◌, ◌≡◌, ◌⊎◌, inl, inr, subst, sym, false, String, Option, none, some, List, [], ◌∷◌, arith,
  take, ltb, Bool-cases, Option-cases, if◌then◌else◌,
}
use infraestructura_y_servic.Base.Int.{ℤ}
use infraestructura_y_servic.Base.Joins.{In, In-take}
use infraestructura_y_servic.Platform.Pagination.Members.{In-paginate}
use infraestructura_y_servic.Store.{Uuid, SectionEnrollment}
use infraestructura_y_servic.Driver.{Faults, no_faults, ok, err, World, M, ◌>>=◌, pure}
use infraestructura_y_servic.Driver.Laws.{bind-ok, read-ok}
use infraestructura_y_servic.SectionEnrollment.Errors.{
  Error, withdrawn_not_revivable, translate_pg_error,
}
use infraestructura_y_servic.SectionEnrollment.Repository.{enroll_section_tx}
use infraestructura_y_servic.SectionEnrollment.Service.{caller_id}
use infraestructura_y_servic.SectionEnrollment.Enrollable.{
  EnrollableRow, enrollable, insert_ascending, sort_ascending, clamped, EnrollableResult, result_of,
  list_enrollable, parse_token, list_enrollable_page,
}
use infraestructura_y_servic.SectionEnrollment.Enrollable.Agreement.{
  IsKeyed, own_params, enrollable-enrolls,
}

In-insert_ascending :
    (x y : EnrollableRow) (xs : List EnrollableRow)
    → In x (insert_ascending y xs)
    → (x ≡ y) ⊎ In x xs
unfolding insert_ascending
In-insert_ascending x y [] h = h
In-insert_ascending x y (z ∷ xs) h = elim (Bool-cases (ltb z.section_id y.section_id)) [
  | inl e ↦ elim (subst (λ b. In x (if b then z ∷ insert_ascending y xs else y ∷ z ∷ xs)) e h) [
    | inl q ↦ inr (inl q)
    | inr l ↦ elim (In-insert_ascending x y xs l) [ inl q ↦ inl q | inr m ↦ inr (inr m) ]
  ]
  | inr e ↦ subst (λ b. In x (if b then z ∷ insert_ascending y xs else y ∷ z ∷ xs)) e h
]

In-sort_ascending :
    (x : EnrollableRow) (xs : List EnrollableRow) → In x (sort_ascending xs) → In x xs
unfolding sort_ascending
In-sort_ascending x [] h = h
In-sort_ascending x (y ∷ xs) h = elim (In-insert_ascending x y (sort_ascending xs) h) [
  | inl q ↦ inl q
  | inr l ↦ inr (In-sort_ascending x xs l)
]

parse_token-keeps :
    (faults : Faults) (parse : String → Option Uuid) (page_token : Option String) (w v : World)
    {token : Option Uuid}
    → parse_token faults parse page_token w ≡ (ok token, v)
    → v ≡ w
unfolding parse_token
parse_token-keeps faults parse none w v h = ground arith
parse_token-keeps faults parse (some s) w v h = elim (Option-cases (parse s)) [
  | inl n ↦ ground arith
  | inr (id, e) ↦ ground arith
]

-- The method after its token is read.
abbrev page_behind : Faults → Uuid → ℤ → Option Uuid → M Error EnrollableResult
page_behind faults student size token = do
  rows ← list_enrollable faults student token (clamped size + 1)
  pure (result_of (clamped size) rows)

module _ (faults : Faults) (parse : String → Option Uuid) (student : Uuid) (size : ℤ)
    (page_token : Option String) (w : World) {w' : World} {result : EnrollableResult}
    (h : list_enrollable_page faults parse (some student) size page_token w ≡ (ok result, w')) where
  page_rows :
      (token : Option Uuid) × (w' ≡ w)
      × (result
          ≡ result_of
              (clamped size)
              (take (clamped size + 1) (sort_ascending (enrollable student token w.db))))
  unfolding list_enrollable_page caller_id list_enrollable
  page_rows =
      let (token, v, e, k) =
        bind-ok (parse_token faults parse page_token) (page_behind faults student size) {w = w} h in
      let (rows, u, f, g) =
        bind-ok (list_enrollable faults student token (clamped size + 1))
          (λ x. pure (result_of (clamped size) x)) {w = v} k in
      let q : v ≡ w = parse_token-keeps faults parse page_token w v e in
      let (read, stays) =
        read-ok faults 0 translate_pg_error
          (λ db. ok (take (clamped size + 1) (sort_ascending (enrollable student token db)))) f in
      (token, ground arith, ground arith)

  -- Every section on a page that `ListEnrollableSections` returns, whatever the driver does, is one
  -- that the student can enroll in next, where keys are unique and the driver answers: the
  -- enrollment returns a new row of the section, unless the student has withdrawn from it before,
  -- which is refused as such.
  pub list_enrollable_page-enrolls :
      (row : EnrollableRow)
      → IsKeyed w.db
      → In row result.sections
      → ((r : SectionEnrollment) × ((enroll_section_tx no_faults
              (own_params student row.section_id row.program_id)
              false
              w').0
            ≡ ok r)
          × (r.section_id ≡ row.section_id))
        ⊎ ((enroll_section_tx no_faults
              (own_params student row.section_id row.program_id)
              false
              w').0
            ≡ err withdrawn_not_revivable)
  list_enrollable_page-enrolls row k on =
      let (token, same, is) = page_rows in
      enrollable-enrolls student token w' row (subst (λ x. IsKeyed x.db) (sym same) k) (
        subst (λ x. In row (enrollable student token x.db)) (sym same)
          (In-sort_ascending row (enrollable student token w.db) (
            In-take (clamped size + 1) row (sort_ascending (enrollable student token w.db)) (
              In-paginate (clamped size) row
                (take (clamped size + 1) (sort_ascending (enrollable student token w.db)))
                (subst (λ x. In row x.sections) is on)))))
