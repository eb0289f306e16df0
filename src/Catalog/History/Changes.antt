-- ===== src/Catalog/History/Changes.antt =====
-- backend/internal/catalog: each call of the service makes one of the changes.
use infraestructura_y_servic.Base.{
  ℕ, zero, suc, ◌≡◌, ◌<◌, refl, sym, subst, String, Bool, true, not, Option, ◌==◌, ◌&&◌, arith,
  any_of,
}
use infraestructura_y_servic.Base.Int.{ℤ, pos, negsuc}
use infraestructura_y_servic.Platform.Texts.{same_text}
use infraestructura_y_servic.Platform.Pgconv.{Text}
use infraestructura_y_servic.Store.{Uuid, Date}
use infraestructura_y_servic.Driver.{Faults, ok, World, ◌>>=◌}
use infraestructura_y_servic.Access.Interceptors.{Context}
use infraestructura_y_servic.Catalog.Tables.{
  programs, courses, program_courses, program_quotas, sections,
}
use infraestructura_y_servic.Catalog.Programs.{
  CreateProgramParams, is_program, is_live_course, fresh_program, renamed_program, is_quota_of,
  deleted_program, fresh_course, renamed_course, is_section_of_course, deleted_course,
  is_association,
}
use infraestructura_y_servic.Catalog.Service.{
  require_positive, require_texts, actor_from_context, CourseInput,
}
use infraestructura_y_servic.Catalog.Service
use infraestructura_y_servic.Catalog.Repository
use infraestructura_y_servic.Catalog.Repository.Effects.{
  bound, inserted, updated, removed, transacted, deleted_two,
}
use infraestructura_y_servic.Catalog.Change.{
  IsNamed, Change, unchanged, program_added, program_renamed, program_deleted, course_added,
  course_renamed, course_deleted, association_added, association_removed,
}

pub require_texts-IsNamed :
    (code name : Text) (w : World) {w' : World}
    → require_texts code name w ≡ (ok tt, w')
    → IsNamed code name
unfolding require_texts
require_texts-IsNamed code name w h = ground arith

pub require_texts_keeps : (code name : Text) (w : World) → (require_texts code name w).1 ≡ w
unfolding require_texts
require_texts_keeps code name w = ground arith

pub require_positive-lt :
    (n : ℤ) (w : World) {w' : World} {m : ℕ} → require_positive n w ≡ (ok m, w') → 0 < m
unfolding require_positive
require_positive-lt (pos zero) w h = absurd (ground arith)
require_positive-lt (pos (suc n)) w h = ground arith
require_positive-lt (negsuc n) w h = absurd (ground arith)

pub require_positive_keeps : (n : ℤ) (w : World) → (require_positive n w).1 ≡ w
unfolding require_positive
require_positive_keeps (pos zero) w = refl
require_positive_keeps (pos (suc n)) w = refl
require_positive_keeps (negsuc n) w = refl

module _ (parse : String → Option Uuid) (parse_date : String → Option Date) (faults : Faults)
    (ctx : Context) (live : Bool) (w : World) where
  abbrev actor : Option Uuid
  actor = actor_from_context ctx

  pub create_program-Change :
      (p : CreateProgramParams)
      → Change w.db live (Service.create_program parse parse_date faults ctx p w).1.db
  unfolding Service.create_program Repository.create_program
  create_program-Change p =
      bound (Change w.db live) (require_texts p.code p.name)
        (λ _. Repository.create_program faults p actor) w (require_texts_keeps p.code p.name w)
        unchanged
        λ _ e.
          inserted (Change w.db live) faults 0 programs w unchanged suc (λ _. true)
            (λ r. same_text r.code p.code) (fresh_program p actor)
            (λ _. program_added p actor (require_texts-IsNamed p.code p.name w e))

  pub update_program-Change :
      (id : Uuid) (p : CreateProgramParams)
      → Change w.db live (Service.update_program parse parse_date faults ctx id p w).1.db
  unfolding Service.update_program Repository.update_program
  update_program-Change id p =
      bound (Change w.db live) (require_texts p.code p.name)
        (λ _. Repository.update_program faults id p actor) w (require_texts_keeps p.code p.name w)
        unchanged
        λ _ e.
          updated (Change w.db live) faults 0 programs w unchanged
            (λ _ r. not (r.id == id) && same_text r.code p.code) (is_program id)
            (renamed_program p actor)
            (program_renamed id p actor (require_texts-IsNamed p.code p.name w e))

  pub delete_program-Change :
      (id : Uuid) → Change w.db live (Service.delete_program parse parse_date faults ctx id w).1.db
  unfolding Service.delete_program Repository.delete_program_tx Repository.delete_program_body
  delete_program-Change id =
      transacted (Change w.db live) faults (Repository.delete_program_body faults id actor) w
        unchanged
        λ _ w' h.
          let (a, b, e) =
            deleted_two faults programs (is_program id) (deleted_program actor) w program_courses
              (λ r. r.program_id == id) program_quotas (is_quota_of id) h in
          subst (Change w.db live) (sym e) (program_deleted id actor a b)

  pub create_course-Change :
      (p : CourseInput)
      → Change w.db live (Service.create_course parse parse_date faults ctx p w).1.db
  unfolding Service.create_course Repository.create_course
  create_course-Change p =
      bound (Change w.db live) (require_texts p.code p.name)
        (λ _. require_positive p.credits >>= λ credits.
          Repository.create_course faults
            (record { code = p.code; name = p.name; credits = credits }) actor)
        w (require_texts_keeps p.code p.name w) unchanged
        λ _ e.
          bound (Change w.db live) (require_positive p.credits)
            (λ credits.
              Repository.create_course faults
                (record { code = p.code; name = p.name; credits = credits }) actor)
            w (require_positive_keeps p.credits w) unchanged
            λ credits f.
              inserted (Change w.db live) faults 0 courses w unchanged suc (λ _. true)
                (λ r. same_text r.code p.code)
                (fresh_course (record { code = p.code; name = p.name; credits = credits }) actor)
                (λ _.
                  course_added (record { code = p.code; name = p.name; credits = credits }) actor
                    (require_texts-IsNamed p.code p.name w e) (require_positive-lt p.credits w f))

  pub update_course-Change :
      (id : Uuid) (p : CourseInput)
      → Change w.db live (Service.update_course parse parse_date faults ctx id p w).1.db
  unfolding Service.update_course Repository.update_course
  update_course-Change id p =
      bound (Change w.db live) (require_texts p.code p.name)
        (λ _. require_positive p.credits >>= λ credits.
          Repository.update_course faults id
            (record { code = p.code; name = p.name; credits = credits }) actor)
        w (require_texts_keeps p.code p.name w) unchanged
        λ _ e.
          bound (Change w.db live) (require_positive p.credits)
            (λ credits.
              Repository.update_course faults id
                (record { code = p.code; name = p.name; credits = credits }) actor)
            w (require_positive_keeps p.credits w) unchanged
            λ credits f.
              updated (Change w.db live) faults 0 courses w unchanged
                (λ _ r. not (r.id == id) && same_text r.code p.code) (is_live_course id)
                (renamed_course (record { code = p.code; name = p.name; credits = credits }) actor)
                (course_renamed id (record { code = p.code; name = p.name; credits = credits })
                  actor (require_texts-IsNamed p.code p.name w e)
                  (require_positive-lt p.credits w f))

  pub delete_course-Change :
      (id : Uuid) → Change w.db live (Service.delete_course parse parse_date faults ctx id w).1.db
  unfolding Service.delete_course Repository.delete_course_tx Repository.delete_course_body
  delete_course-Change id =
      transacted (Change w.db live) faults (Repository.delete_course_body faults id actor) w
        unchanged
        λ _ w' h.
          let (a, b, e) =
            deleted_two faults courses (is_live_course id) (deleted_course actor) w program_courses
              (λ r. r.course_id == id) sections (is_section_of_course id) h in
          subst (Change w.db live) (sym e) (course_deleted id actor a b)

  pub add_course_to_program-Change :
      (program course : Uuid)
      → (live ≡ true
          → (any_of (is_program program) w.db.programs ≡ true)
            × (any_of (is_live_course course) w.db.courses ≡ true))
      → Change w.db live
          (Service.add_course_to_program parse parse_date faults ctx program course w).1.db
  unfolding Service.add_course_to_program Repository.add_course_to_program
  add_course_to_program-Change program course on =
      inserted (Change w.db live) faults 0 program_courses w unchanged (λ n. n)
        (λ db. any_of (λ p. p.id == program) db.programs && any_of (λ c. c.id == course) db.courses)
        (is_association program course)
        (λ db. record { program_id = program; course_id = course; created_at = db.now })
        (λ _. association_added program course on)

  pub remove_course_from_program-Change :
      (program course : Uuid)
      → Change w.db live
          (Service.remove_course_from_program parse parse_date faults ctx program course w).1.db
  unfolding Service.remove_course_from_program Repository.remove_course_from_program
  remove_course_from_program-Change program course =
      removed (Change w.db live) faults 0 program_courses w unchanged
        (is_association program course) (association_removed program course)
