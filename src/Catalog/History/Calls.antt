-- ===== src/Catalog/History/Calls.antt =====
-- backend/internal/catalog: each call of the service makes one of the changes.
use infraestructura_y_servic.Base.{String, true, Option, arith}
use infraestructura_y_servic.Store.{Uuid, Date}
use infraestructura_y_servic.Driver.{Faults, World}
use infraestructura_y_servic.Access.Interceptors.{Context}
use infraestructura_y_servic.Catalog.Change.{Change}
use infraestructura_y_servic.Catalog.History.{
  Operation, creating_program, updating_program, deleting_program, creating_course, updating_course,
  deleting_course, adding_course, removing_course, creating_period, updating_period,
  deleting_period, creating_quota, updating_quota, deleting_quota, creating_section,
  updating_section, deleting_section, assigning_teacher, removing_teacher, perform, targets_live,
}
use infraestructura_y_servic.Catalog.History.Changes.{
  create_program-Change, update_program-Change, delete_program-Change, create_course-Change,
  update_course-Change, delete_course-Change, add_course_to_program-Change,
  remove_course_from_program-Change,
}
use infraestructura_y_servic.Catalog.History.Offers.{
  create_academic_period-Change, update_academic_period-Change, delete_academic_period-Change,
}
use infraestructura_y_servic.Catalog.History.Seats.{
  create_program_quota-Change, update_program_quota-Change, delete_program_quota-Change,
  create_section-Change, update_section-Change, delete_section-Change,
  assign_teacher_to_section-Change, remove_teacher_from_section-Change,
}

module _ (parse : String → Option Uuid) (parse_date : String → Option Date) (faults : Faults)
    (ctx : Context) (w : World) where
  pub perform-Change :
      (op : Operation)
      → Change w.db
          (targets_live parse parse_date op w.db)
          (perform parse parse_date faults ctx op w).db
  unfolding perform
  perform-Change (creating_program p) = create_program-Change parse parse_date faults ctx true w p
  perform-Change (updating_program id p) =
      update_program-Change parse parse_date faults ctx true w id p
  perform-Change (deleting_program id) = delete_program-Change parse parse_date faults ctx true w id
  perform-Change (creating_course p) = create_course-Change parse parse_date faults ctx true w p
  perform-Change (updating_course id p) =
      update_course-Change parse parse_date faults ctx true w id p
  perform-Change (deleting_course id) = delete_course-Change parse parse_date faults ctx true w id
  perform-Change (adding_course program course) =
      add_course_to_program-Change parse parse_date faults ctx
        (targets_live parse parse_date (adding_course program course) w.db) w program course
        (λ h. (ground (arith, h), ground (arith, h)))
  perform-Change (removing_course program course) =
      remove_course_from_program-Change parse parse_date faults ctx true w program course
  perform-Change (creating_period p) =
      create_academic_period-Change parse parse_date faults ctx true w p
  perform-Change (updating_period id p) =
      update_academic_period-Change parse parse_date faults ctx true w id p
  perform-Change (deleting_period id) =
      delete_academic_period-Change parse parse_date faults ctx true w id
  perform-Change (creating_quota p) =
      create_program_quota-Change parse parse_date faults ctx
        (targets_live parse parse_date (creating_quota p) w.db) w p (λ id e h. ground (arith, e, h))
  perform-Change (updating_quota id year capacity) =
      update_program_quota-Change parse parse_date faults ctx true w id year capacity
  perform-Change (deleting_quota id) =
      delete_program_quota-Change parse parse_date faults ctx true w id
  perform-Change (creating_section p) =
      create_section-Change parse parse_date faults ctx
        (targets_live parse parse_date (creating_section p) w.db) w p
        (λ course period e f h. (ground (arith, e, f, h), ground (arith, e, f, h)))
  perform-Change (updating_section id capacity) =
      update_section-Change parse parse_date faults ctx true w id capacity
  perform-Change (deleting_section id) = delete_section-Change parse parse_date faults ctx true w id
  perform-Change (assigning_teacher section teacher) =
      assign_teacher_to_section-Change parse parse_date faults ctx true w section teacher
  perform-Change (removing_teacher section teacher) =
      remove_teacher_from_section-Change parse parse_date faults ctx true w section teacher
