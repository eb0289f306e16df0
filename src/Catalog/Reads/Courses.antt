-- ===== src/Catalog/Reads/Courses.antt =====
-- backend/internal/catalog: `ListProgramCourses` on a catalog whose links hold.
use infraestructura_y_servic.Base.{
  ◌≡◌, inl, inr, refl, subst, sym, none, List, [], ◌∷◌, ◌==◌, arith, select, All, Option-cases,
}
use infraestructura_y_servic.Base.Joins.{In, In-any_of, each-In, select-In}
use infraestructura_y_servic.Store.{Uuid, ProgramCourse, Course}
use infraestructura_y_servic.Driver.{Faults, ok, World}
use infraestructura_y_servic.Driver.Laws.{read-ok}
use infraestructura_y_servic.Catalog.Errors.{translate_pg_error}
use infraestructura_y_servic.Catalog.Programs.{is_live_course}
use infraestructura_y_servic.Catalog.Repository.{run_query}
use infraestructura_y_servic.Catalog.Links.{IsLinked, IsJoined}
use infraestructura_y_servic.Catalog.Reads.Order.{order_by-In}
use infraestructura_y_servic.Catalog.Reads.{
  order_by, ProgramCourseRow, with_course, is_earlier, joined_courses, list_program_courses,
}

All-In : {A : Type 0} (P : A → Type 0) (x : A) (xs : List A) → All P xs → In x xs → P x
All-In P x [] h k = absurd k
All-In P x (y ∷ ys) h (inl q) = subst P (sym q) h.0
All-In P x (y ∷ ys) h (inr l) = All-In P x ys h.1 l

-- On a catalog whose links hold, `ListProgramCourses`, whatever the driver does, leaves no
-- association of the program out: the row has a live course with the association's identifier.
pub list_program_courses_complete :
    (faults : Faults) (program : Uuid) (w : World) {w' : World} {rows : List ProgramCourseRow}
    (pc : ProgramCourse)
    → IsLinked w.db
    → list_program_courses faults program w ≡ (ok rows, w')
    → In pc w.db.program_courses
    → pc.program_id ≡ program
    → (c : Course) × In (with_course pc c) rows × (c.id ≡ pc.course_id) × (c.deleted_at ≡ none)
unfolding list_program_courses run_query
list_program_courses_complete faults program w {w'} {rows} pc v h on is =
    let (read, _) =
      read-ok faults 0 translate_pg_error
        (λ db. ok (order_by is_earlier (joined_courses program db))) h in
    let (_, held) = All-In (IsJoined w.db) pc w.db.program_courses v.associations on in
    let (c, there, live) = In-any_of (is_live_course pc.course_id) w.db.courses held in
    let listed : In (with_course pc c) (joined_courses program w.db) =
      each-In pc (with_course pc c) (select (λ r. r.program_id == program) w.db.program_courses) _
        (select-In (λ r. r.program_id == program) pc w.db.program_courses on (ground (arith, is)))
        (each-In c (with_course pc c) (select (is_live_course pc.course_id) w.db.courses) _
          (select-In (is_live_course pc.course_id) c w.db.courses there live) (inl refl)) in
    let same : rows ≡ order_by is_earlier (joined_courses program w.db) = ground (arith, read) in
    (
      c,
      subst (λ xs. In (with_course pc c) xs) (sym same)
          (order_by-In is_earlier (with_course pc c) (joined_courses program w.db) listed),
      ground (arith, live),
      elim (Option-cases c.deleted_at) [
        | inl e ↦ e
        | inr (t, e) ↦ absurd (ground (arith, live, e))
      ],
    )
