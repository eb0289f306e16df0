-- ===== src/Catalog/History/Links.antt =====
-- backend/internal/catalog: under any sequence of calls, live rows refer to live rows.
use infraestructura_y_servic.Base.{
  suc, ◌≡◌, refl, sym, subst, String, true, Option, List, [], ◌∷◌, arith, any_of, not,
  IsBounded-suc,
}
use infraestructura_y_servic.Store.{Uuid, Date, Db}
use infraestructura_y_servic.Driver.{Faults, World}
use infraestructura_y_servic.Access.Interceptors.{Context}
use infraestructura_y_servic.Catalog.Programs.{
  is_program, is_live_course, fresh_program, is_association, fresh_course,
}
use infraestructura_y_servic.Catalog.Terms.{
  is_period, is_quota, has_year, fresh_quota, replaced_quota, resized_quota, deleted_quota,
}
use infraestructura_y_servic.Catalog.Sections.{
  is_live_section, fresh_section, resized_section, deleted_section,
}
use infraestructura_y_servic.Catalog.Links.{
  IsLinked, period_id, insert_program-IsLinked, update_program-IsLinked, delete_program-IsLinked,
}
use infraestructura_y_servic.Catalog.Links.Courses.{
  insert_course-IsLinked, update_course-IsLinked, delete_course-IsLinked,
  insert_program_course-IsLinked, delete_program_course-IsLinked,
}
use infraestructura_y_servic.Catalog.Links.Terms.{
  insert_academic_period-IsLinked, update_academic_period-IsLinked, delete_academic_period-IsLinked,
  quotas-IsLinked, quota-IsLinked, sections-IsLinked, section-IsLinked,
}
use infraestructura_y_servic.Catalog.Change.{
  Change, unchanged, program_added, program_renamed, program_deleted, course_added, course_renamed,
  course_deleted, association_added, association_removed, period_added, period_moved,
  period_deleted, quota_added, quota_replaced, quota_resized, quota_deleted, section_added,
  section_resized, section_deleted, teachers_changed,
}
use infraestructura_y_servic.Catalog.History.{Operation, perform, targets_live, run, stays_on_live}
use infraestructura_y_servic.Catalog.History.Calls.{perform-Change}

-- A change that refers new rows to live ones keeps the links.
pub Change-IsLinked : (db : Db) {db' : Db} → Change db true db' → IsLinked db → IsLinked db'
Change-IsLinked db unchanged v = v
Change-IsLinked db (program_added p actor _) v =
    insert_program-IsLinked db v (fresh_program p actor db)
Change-IsLinked db (program_renamed id p actor _) v =
    update_program-IsLinked db v (is_program id) p actor
Change-IsLinked db (program_deleted id actor a b) v = delete_program-IsLinked db v id actor a b
Change-IsLinked db (course_added p actor _ _) v =
    insert_course-IsLinked db v (fresh_course p actor db)
Change-IsLinked db (course_renamed id p actor _ _) v =
    update_course-IsLinked db v (is_live_course id) p actor
Change-IsLinked db (course_deleted id actor a b) v = delete_course-IsLinked db v id actor a b
Change-IsLinked db (association_added program course on) v =
    insert_program_course-IsLinked db v
      (record { program_id = program; course_id = course; created_at = db.now }) (on refl)
Change-IsLinked db (association_removed program course) v =
    delete_program_course-IsLinked db v (λ r. not (is_association program course r))
Change-IsLinked db (period_added p _) v = insert_academic_period-IsLinked db v p
Change-IsLinked db (period_moved id p _) v = update_academic_period-IsLinked db v (is_period id) p
Change-IsLinked db (period_deleted id a) v = delete_academic_period-IsLinked db v id a
Change-IsLinked db (quota_added p actor _ on) v =
    quotas-IsLinked db v (fresh_quota p actor db ∷ db.program_quotas) (suc db.next_id)
      ((λ _. on refl), v.quotas) (IsBounded-suc period_id db.next_id db.academic_periods v.bounded)
Change-IsLinked db (quota_replaced p actor _ on) v =
    quota-IsLinked db v (has_year p.program_id p.year) (replaced_quota p actor db) (λ q e h live.
      let same : q.program_id ≡ p.program_id = ground (arith, e) in
      subst (λ x. any_of (is_program x) db.programs ≡ true) (sym same) (on refl))
Change-IsLinked db (quota_resized id p actor _) v =
    quota-IsLinked db v (is_quota id) (resized_quota p actor db) (λ q e h. h)
Change-IsLinked db (quota_deleted id actor) v =
    quota-IsLinked db v (is_quota id) (deleted_quota actor db)
      (λ q e h live. absurd (ground (arith, live)))
Change-IsLinked db (section_added p actor _ on) v =
    sections-IsLinked db v (fresh_section p actor db ∷ db.sections) (suc db.next_id)
      ((λ _. on refl), v.sections)
      (IsBounded-suc period_id db.next_id db.academic_periods v.bounded)
Change-IsLinked db (section_resized id capacity actor _) v =
    section-IsLinked db v (is_live_section id) (resized_section capacity actor db) (λ s e h. h)
Change-IsLinked db (section_deleted id actor) v =
    section-IsLinked db v (is_live_section id) (deleted_section actor db)
      (λ s e h live. absurd (ground (arith, live)))
Change-IsLinked db (teachers_changed teachers) v = record {
  sections = v.sections;
  associations = v.associations;
  quotas = v.quotas;
  distinct = v.distinct;
  bounded = v.bounded;
}

module _ (parse : String → Option Uuid) (parse_date : String → Option Date) where
  -- Whatever calls of the service run, with any failures, live rows keep referring to live rows, as
  -- long as no call refers a new row to a soft-deleted one.
  pub run-IsLinked :
      (ops : List (Faults × (Context × Operation))) (w : World)
      → IsLinked w.db
      → stays_on_live parse parse_date ops w ≡ true
      → IsLinked (run parse parse_date ops w).db
  unfolding run stays_on_live
  run-IsLinked [] w v h = v
  run-IsLinked ((faults, (ctx, op)) ∷ ops) w v h =
      let on : targets_live parse parse_date op w.db ≡ true = ground (arith, h) in
      let rest : stays_on_live parse parse_date ops (perform parse parse_date faults ctx op w)
          ≡ true =
        ground (arith, h) in
      run-IsLinked ops (perform parse parse_date faults ctx op w)
        (Change-IsLinked w.db
          (subst (λ b. Change w.db b (perform parse parse_date faults ctx op w).db) on
            (perform-Change parse parse_date faults ctx w op))
          v)
        rest
