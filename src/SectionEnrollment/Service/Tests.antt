-- ===== src/SectionEnrollment/Service/Tests.antt =====
-- Student 2 reads the inscription 201; student 1 is told that there is none.
use infraestructura_y_servic.Base.{
  ◌≡◌, refl, String, true, ◌&&◌, Option, some, ◌==◌, any_of, select, find_first,
}
use infraestructura_y_servic.Store.{Uuid, in_progress}
use infraestructura_y_servic.Driver.{no_faults, err}
use infraestructura_y_servic.SectionEnrollment.Errors.{not_found}
use infraestructura_y_servic.SectionEnrollment.Queries.{find_live}
use infraestructura_y_servic.SectionEnrollment.Repository.{get_section_enrollment}
use infraestructura_y_servic.SectionEnrollment.Campus.{campus, start, seat}
use infraestructura_y_servic.SectionEnrollment.Service.{
  is_own, insert_descending, sort_descending, list_own_section_enrollments, parse_uuid, caller_id,
  found_among, own_list, get_own_section_enrollment,
}
use infraestructura_y_servic.SectionEnrollment.Service.Ownership.{get_own_section_enrollment-own}

abbrev parses_201 : String → Option Uuid
parses_201 _ = some 201

others_row_is_not_found :
    (get_own_section_enrollment parses_201 no_faults (some 1) "201" start).0 ≡ err not_found
unfolding get_own_section_enrollment get_section_enrollment caller_id parse_uuid found_among
    own_list list_own_section_enrollments sort_descending insert_descending find_live find_first
    any_of select
others_row_is_not_found = refl

get_own_section_enrollment-own_example :
    ((user : Uuid) × (some 2 ≡ some user)
      × (any_of (λ r. is_own user campus r && r.id == 201) campus.section_enrollments ≡ true))
    × ((id : Uuid) × (some 201 ≡ some id) × (find_live id campus ≡ some (seat 201 12 in_progress)))
    × (start ≡ start)
unfolding get_own_section_enrollment get_section_enrollment caller_id parse_uuid found_among
    own_list list_own_section_enrollments sort_descending insert_descending find_live find_first
    any_of select
get_own_section_enrollment-own_example =
    get_own_section_enrollment-own parses_201 no_faults (some 2) "201" start refl
