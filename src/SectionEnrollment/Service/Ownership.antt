-- ===== src/SectionEnrollment/Service/Ownership.antt =====
-- backend/internal/sectionenrollment/service.go: whose inscription `GetOwnSectionEnrollment` returns.
use infraestructura_y_servic.Base.{
  ℕ, zero, suc, ◌≡◌, String, Bool, true, ◌&&◌, Option, none, some, List, [], ◌∷◌, ◌==◌, select,
  any_of, take, arith, refl, sym, ◌∙◌, Option-cases, inl, inr,
}
use infraestructura_y_servic.Store.{Uuid, SectionEnrollment}
use infraestructura_y_servic.Driver.{Faults, ok, World}
use infraestructura_y_servic.SectionEnrollment.Queries.{find_live}
use infraestructura_y_servic.SectionEnrollment.Repository.{get_section_enrollment}
use infraestructura_y_servic.SectionEnrollment.Service.{
  is_own, insert_descending, sort_descending, list_own_section_enrollments, parse_uuid, caller_id,
  found_among, own_list, get_own_section_enrollment,
}

module _ (q : SectionEnrollment → Bool) where
  any_of-take :
      (n : ℕ) (xs : List SectionEnrollment) → any_of q (take n xs) ≡ true → any_of q xs ≡ true
  unfolding any_of
  any_of-take zero xs h = absurd (ground arith)
  any_of-take (suc n) [] h = absurd (ground arith)
  any_of-take (suc n) (x ∷ xs) h = ground (arith, any_of-take n xs)

  any_of-insert_descending :
      (x : SectionEnrollment) (xs : List SectionEnrollment)
      → any_of q (insert_descending x xs) ≡ any_of q (x ∷ xs)
  unfolding any_of insert_descending
  any_of-insert_descending x [] = refl
  any_of-insert_descending x (y ∷ xs) = ground (arith, any_of-insert_descending x xs)

  any_of-sort_descending :
      (xs : List SectionEnrollment) → any_of q (sort_descending xs) ≡ any_of q xs
  unfolding any_of sort_descending
  any_of-sort_descending [] = refl
  any_of-sort_descending (x ∷ xs) =
      ground (arith, any_of-insert_descending x (sort_descending xs), any_of-sort_descending xs)

  any_of-select :
      (p : SectionEnrollment → Bool) (xs : List SectionEnrollment)
      → any_of q (select p xs) ≡ any_of (λ r. p r && q r) xs
  unfolding any_of select
  any_of-select p [] = refl
  any_of-select p (x ∷ xs) = ground (arith, any_of-select p xs)

  -- A row that is found among the first n of the selected ones stands in the table.
  any_of-list :
      (p : SectionEnrollment → Bool) (n : ℕ) (xs : List SectionEnrollment)
      → any_of q (take n (sort_descending (select p xs))) ≡ true
      → any_of (λ r. p r && q r) xs ≡ true
  any_of-list p n xs h =
      sym (any_of-select p xs)
      ∙ sym (any_of-sort_descending (select p xs))
      ∙ any_of-take n (sort_descending (select p xs)) h

-- However the driver fails, a caller gets an inscription as its own only with a session, for an
-- identifier that parses, whose live row is that inscription, where a live row of its id is linked
-- to an enrollment of the caller; and nothing changes.
pub get_own_section_enrollment-own :
    (parse : String → Option Uuid) (faults : Faults) (caller : Option Uuid) (id_str : String)
    (w : World) {w' : World} {row : SectionEnrollment}
    → get_own_section_enrollment parse faults caller id_str w ≡ (ok row, w')
    → ((user : Uuid) × (caller ≡ some user)
        × (any_of (λ r. is_own user w.db r && r.id == row.id) w.db.section_enrollments ≡ true))
      × ((id : Uuid) × (parse id_str ≡ some id) × (find_live id w.db ≡ some row))
      × (w' ≡ w)
unfolding get_own_section_enrollment get_section_enrollment caller_id parse_uuid found_among
    own_list list_own_section_enrollments
get_own_section_enrollment-own parse faults none id_str w h = absurd (ground arith)
get_own_section_enrollment-own parse faults (some user) id_str w {row = row} h =
    elim (Option-cases (parse id_str)) [
      | inl e ↦ absurd (ground arith)
      | inr (id, e) ↦
          let own = select (is_own user w.db) w.db.section_enrollments in
          let found : any_of (λ r. r.id == row.id) (take 201 (sort_descending own)) ≡ true =
            ground arith in
          (
            (
              user,
              refl,
              any_of-list (λ r. r.id == row.id) (is_own user w.db) 201 w.db.section_enrollments
                  found,
            ),
            (id, e, ground arith),
            ground arith,
          )
    ]
