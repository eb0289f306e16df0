-- ===== src/Catalog/History/Seats.antt =====
-- backend/internal/catalog: each call of the service on quotas, sections and teachers makes one of the
-- changes.
use infraestructura_y_servic.Base.{
  suc, ◌≡◌, sym, subst, String, Bool, true, false, not, Option, some, ◌==◌, ◌&&◌, any_of, select,
  ◌∷◌,
}
use infraestructura_y_servic.Base.Int.{ℤ}
use infraestructura_y_servic.Store.{Uuid, Date}
use infraestructura_y_servic.Driver.{Faults, World, ◌>>=◌}
use infraestructura_y_servic.Access.Interceptors.{Context}
use infraestructura_y_servic.Catalog.Tables.{program_quotas, sections, section_teachers}
use infraestructura_y_servic.Catalog.Programs.{is_program, is_live_course}
use infraestructura_y_servic.Catalog.Terms.{
  is_period, is_quota, has_year, resized_quota, deleted_quota,
}
use infraestructura_y_servic.Catalog.Sections.{
  is_live_section, fresh_section, resized_section, deleted_section, is_assignment,
}
use infraestructura_y_servic.Catalog.Service.{
  require_positive, parsed, actor_from_context, CreateProgramQuotaServiceParams,
  CreateSectionServiceParams,
}
use infraestructura_y_servic.Catalog.Service
use infraestructura_y_servic.Catalog.Repository
use infraestructura_y_servic.Catalog.Repository.Effects.{
  bound, inserted, updated, marked, removed, transacted, deleted_one,
}
use infraestructura_y_servic.Catalog.Change.{
  Change, unchanged, quota_resized, quota_deleted, section_added, section_resized, section_deleted,
  teachers_changed,
}
use infraestructura_y_servic.Catalog.History.Changes.{require_positive-lt, require_positive_keeps}
use infraestructura_y_servic.Catalog.History.Offers.{parsed_keeps, parsed-ok, upsert-Change}

module _ (parse : String → Option Uuid) (parse_date : String → Option Date) (faults : Faults)
    (ctx : Context) (live : Bool) (w : World) where
  abbrev actor : Option Uuid
  actor = actor_from_context ctx

  pub create_program_quota-Change :
      (p : CreateProgramQuotaServiceParams)
      → ((id : Uuid)
          → parse p.program_id ≡ some id
          → live ≡ true
          → any_of (is_program id) w.db.programs ≡ true)
      → Change w.db live (Service.create_program_quota parse parse_date faults ctx p w).1.db
  unfolding Service.create_program_quota
  create_program_quota-Change p on =
      bound (Change w.db live) (require_positive p.year)
        (λ year. require_positive p.capacity >>= λ capacity. parsed (parse p.program_id) >>= λ id.
          Repository.create_program_quota faults
            (record { program_id = id; year = year; capacity = capacity }) actor)
        w (require_positive_keeps p.year w) unchanged
        λ year e1.
          bound (Change w.db live) (require_positive p.capacity)
            (λ capacity. parsed (parse p.program_id) >>= λ id.
              Repository.create_program_quota faults
                (record { program_id = id; year = year; capacity = capacity }) actor)
            w (require_positive_keeps p.capacity w) unchanged
            λ capacity e2.
              bound (Change w.db live) (parsed (parse p.program_id))
                (λ id.
                  Repository.create_program_quota faults
                    (record { program_id = id; year = year; capacity = capacity }) actor)
                w (parsed_keeps (parse p.program_id) w) unchanged
                λ id e3.
                  upsert-Change parse parse_date faults ctx live w
                    (record { program_id = id; year = year; capacity = capacity })
                    (require_positive-lt p.year w e1, require_positive-lt p.capacity w e2)
                    (on id (parsed-ok (parse p.program_id) w e3))

  pub update_program_quota-Change :
      (id : Uuid) (year capacity : ℤ)
      → Change w.db live
          (Service.update_program_quota parse parse_date faults ctx id year capacity w).1.db
  unfolding Service.update_program_quota Repository.update_program_quota
  update_program_quota-Change id year_input capacity_input =
      bound (Change w.db live) (require_positive year_input)
        (λ year. require_positive capacity_input >>= λ capacity.
          Repository.update_program_quota faults id (record { year = year; capacity = capacity })
            actor)
        w (require_positive_keeps year_input w) unchanged
        λ year e1.
          bound (Change w.db live) (require_positive capacity_input)
            (λ capacity.
              Repository.update_program_quota faults id
                (record { year = year; capacity = capacity }) actor)
            w (require_positive_keeps capacity_input w) unchanged
            λ capacity e2.
              updated (Change w.db live) faults 0 program_quotas w unchanged
                (λ q r. not (r.id == id) && has_year q.program_id year r) (is_quota id)
                (resized_quota (record { year = year; capacity = capacity }) actor)
                (quota_resized id (record { year = year; capacity = capacity }) actor
                  (require_positive-lt year_input w e1, require_positive-lt capacity_input w e2))

  pub delete_program_quota-Change :
      (id : Uuid)
      → Change w.db live (Service.delete_program_quota parse parse_date faults ctx id w).1.db
  unfolding Service.delete_program_quota Repository.soft_delete_program_quota
  delete_program_quota-Change id =
      marked (Change w.db live) faults 0 program_quotas w unchanged (is_quota id)
        (deleted_quota actor) (quota_deleted id actor)

  pub create_section-Change :
      (p : CreateSectionServiceParams)
      → ((course period : Uuid)
          → parse p.course_id ≡ some course
          → parse p.academic_period_id ≡ some period
          → live ≡ true
          → (any_of (is_live_course course) w.db.courses ≡ true)
            × (any_of (is_period period) w.db.academic_periods ≡ true))
      → Change w.db live (Service.create_section parse parse_date faults ctx p w).1.db
  unfolding Service.create_section Repository.create_section
  create_section-Change p on =
      bound (Change w.db live) (require_positive p.seat_capacity)
        (λ capacity. parsed (parse p.course_id) >>= λ course.
          parsed (parse p.academic_period_id) >>= λ period.
          Repository.create_section faults
            (record { course_id = course; academic_period_id = period; seat_capacity = capacity })
            actor)
        w (require_positive_keeps p.seat_capacity w) unchanged
        λ capacity e1.
          bound (Change w.db live) (parsed (parse p.course_id))
            (λ course. parsed (parse p.academic_period_id) >>= λ period.
              Repository.create_section faults
                (record {
                  course_id = course;
                  academic_period_id = period;
                  seat_capacity = capacity;
                })
                actor)
            w (parsed_keeps (parse p.course_id) w) unchanged
            λ course e2.
              bound (Change w.db live) (parsed (parse p.academic_period_id))
                (λ period.
                  Repository.create_section faults
                    (record {
                      course_id = course;
                      academic_period_id = period;
                      seat_capacity = capacity;
                    })
                    actor)
                w (parsed_keeps (parse p.academic_period_id) w) unchanged
                λ period e3.
                  inserted (Change w.db live) faults 0 sections w unchanged suc
                    (λ db.
                      any_of (λ c. c.id == course) db.courses
                      && any_of (λ r. r.id == period) db.academic_periods)
                    (λ _. false)
                    (fresh_section
                      (record {
                        course_id = course;
                        academic_period_id = period;
                        seat_capacity = capacity;
                      })
                      actor)
                    (λ _.
                      section_added
                        (record {
                          course_id = course;
                          academic_period_id = period;
                          seat_capacity = capacity;
                        })
                        actor (require_positive-lt p.seat_capacity w e1)
                        (on course period (parsed-ok (parse p.course_id) w e2)
                          (parsed-ok (parse p.academic_period_id) w e3)))

  pub update_section-Change :
      (id : Uuid) (seat_capacity : ℤ)
      → Change w.db live
          (Service.update_section parse parse_date faults ctx id seat_capacity w).1.db
  unfolding Service.update_section Repository.update_section
  update_section-Change id seat_capacity =
      bound (Change w.db live) (require_positive seat_capacity)
        (λ capacity. Repository.update_section faults id capacity actor) w
        (require_positive_keeps seat_capacity w) unchanged
        λ capacity e.
          updated (Change w.db live) faults 0 sections w unchanged (λ _ _. false)
            (is_live_section id) (resized_section capacity actor)
            (section_resized id capacity actor (require_positive-lt seat_capacity w e))

  pub delete_section-Change :
      (id : Uuid) → Change w.db live (Service.delete_section parse parse_date faults ctx id w).1.db
  unfolding Service.delete_section Repository.delete_section_tx Repository.delete_section_body
  delete_section-Change id =
      transacted (Change w.db live) faults (Repository.delete_section_body faults id actor) w
        unchanged
        λ _ w' h.
          let (a, e) =
            deleted_one faults sections (is_live_section id) (deleted_section actor) w
              section_teachers (λ r. r.section_id == id) h in
          subst (Change w.db live) (sym e) (section_deleted id actor)

  pub assign_teacher_to_section-Change :
      (section teacher : Uuid)
      → Change w.db live
          (Service.assign_teacher_to_section parse parse_date faults ctx section teacher w).1.db
  unfolding Service.assign_teacher_to_section Repository.assign_teacher_to_section
  assign_teacher_to_section-Change section teacher =
      inserted (Change w.db live) faults 0 section_teachers w unchanged (λ n. n)
        (λ db.
          any_of (λ s. s.id == section) db.sections
          && any_of (λ t. t.user_id == teacher) db.teacher_profiles)
        (is_assignment section teacher)
        (λ db. record { section_id = section; teacher_id = teacher; created_at = db.now })
        (λ _. teachers_changed (
          record { section_id = section; teacher_id = teacher; created_at = w.db.now }
          ∷ w.db.section_teachers))

  pub remove_teacher_from_section-Change :
      (section teacher : Uuid)
      → Change w.db live
          (Service.remove_teacher_from_section parse parse_date faults ctx section teacher w).1.db
  unfolding Service.remove_teacher_from_section Repository.remove_teacher_from_section
  remove_teacher_from_section-Change section teacher =
      removed (Change w.db live) faults 0 section_teachers w unchanged
        (is_assignment section teacher)
        (teachers_changed
          (select (λ r. not (is_assignment section teacher r)) w.db.section_teachers))
