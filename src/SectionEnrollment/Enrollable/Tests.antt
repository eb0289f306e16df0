-- ===== src/SectionEnrollment/Enrollable/Tests.antt =====
-- The sections that student 1 of the small campus may enroll in.
use infraestructura_y_servic.Base.{
  ◌≡◌, refl, ◌⊎◌, false, none, some, [], ◌∷◌, inl, ap, arith, count_if, find_first, select, any_of,
}
use infraestructura_y_servic.Base.Joins.{In, each}
use infraestructura_y_servic.Store.{paid, SectionEnrollment}
use infraestructura_y_servic.Driver.{no_faults, ok, err}
use infraestructura_y_servic.SectionEnrollment.Errors.{withdrawn_not_revivable}
use infraestructura_y_servic.SectionEnrollment.Queries.{
  is_open, fresh_row, find_key, find_enrollment_of, find_section, in_program,
}
use infraestructura_y_servic.SectionEnrollment.Repository.{enroll_section_tx}
use infraestructura_y_servic.SectionEnrollment.Repository.Progress.{enroll_section_tx-progress}
use infraestructura_y_servic.SectionEnrollment.Enrollable.Completeness.{IsOffered}
use infraestructura_y_servic.SectionEnrollment.Campus.{matricula, campus, start, open_row}
use infraestructura_y_servic.SectionEnrollment.Enrollable.{
  EnrollableRow, enrollable, EnrollableResult, list_enrollable_page, parse_token, list_enrollable,
  insert_ascending, sort_ascending,
}
use infraestructura_y_servic.SectionEnrollment.Enrollable.Pages.{list_enrollable_page-enrolls}
use infraestructura_y_servic.SectionEnrollment.Service.{caller_id}
use infraestructura_y_servic.Platform.Pagination.{apply, paginate, token_of}
use infraestructura_y_servic.Base.Int.{pos}
use infraestructura_y_servic.SectionEnrollment.Enrollable.Agreement.{IsKeyed, own_params}

campus-IsKeyed : IsKeyed campus
unfolding count_if
campus-IsKeyed = record {
  sections = λ id. ground arith;
  periods = λ id. ground arith;
  enrollments = λ student program year. ground arith;
}

abbrev offer : EnrollableRow
offer = record {
  section_id = 100;
  program_id = 60;
  course_name = [];
  course_code = [];
  period_year = 2026;
  period_term = 1;
  seats_available = 1;
}

-- Section 101 has a closed window, so only section 100 is listed.
offers : enrollable 1 none campus ≡ offer ∷ []
unfolding enrollable each select is_open any_of count_if
offers = refl

offered : In offer (enrollable 1 none campus)
unfolding enrollable each select is_open any_of count_if
offered = inl refl

abbrev first_page : EnrollableResult
first_page = record { sections = offer ∷ []; next_page_token = none }

answers :
    list_enrollable_page no_faults (λ s. none) (some 1) (pos 50) none start ≡ (ok first_page, start)
unfolding list_enrollable_page caller_id parse_token list_enrollable apply enrollable each select
    is_open any_of count_if insert_ascending sort_ascending paginate token_of
answers = refl

list_enrollable_page-enrolls_example :
    ((r : SectionEnrollment) × ((enroll_section_tx no_faults (own_params 1 100 60) false start).0
        ≡ ok r)
      × (r.section_id ≡ 100))
    ⊎ ((enroll_section_tx no_faults (own_params 1 100 60) false start).0
        ≡ err withdrawn_not_revivable)
list_enrollable_page-enrolls_example =
    list_enrollable_page-enrolls no_faults (λ s. none) 1 (pos 50) none start answers offer
      campus-IsKeyed (inl refl)

campus-IsOffered : IsOffered 100 campus
unfolding find_section find_first any_of
campus-IsOffered = record { course = λ s q. ground arith; period = λ s p q r. ground arith }

enrolls : enroll_section_tx no_faults (own_params 1 100 60) false start ≡ (
  ok (fresh_row 11 100 campus),
  (enroll_section_tx no_faults (own_params 1 100 60) false start).1,
)
unfolding find_section find_first is_open any_of in_program count_if find_key find_enrollment_of
enrolls =
    ap (λ r. (r, (enroll_section_tx no_faults (own_params 1 100 60) false start).1))
      (enroll_section_tx-progress (own_params 1 100 60) start open_row (matricula 11 1 paid) refl
        refl refl (omega arith) refl refl refl)
