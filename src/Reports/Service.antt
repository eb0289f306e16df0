-- ===== src/Reports/Service.antt =====
-- backend/internal/reports/service.go, repository.go and cache.go: GetSectionGradeReport. The cache
-- is what Redis holds; its encoding is a parameter, and a command of it may fail.
use infraestructura_y_servic.Base.{
  ℕ, Bool, false, Option, none, some, List, [], ◌∷◌, ◌==◌, ◌&&◌, if◌then◌else◌,
}
use infraestructura_y_servic.Platform.Pgconv.{Text}
use infraestructura_y_servic.Store.{Uuid}
use infraestructura_y_servic.Driver.{Faults, Result, ok, err, pg_error_of}
use infraestructura_y_servic.Access.Policy.{perm_catalog_manage}
use infraestructura_y_servic.Access.Interceptors.{Context}
use infraestructura_y_servic.Reports.Errors.{Error, not_found, translate_pg_error}
use infraestructura_y_servic.Reports.Queries.{
  Archive, ActaRow, is_teacher_for_section, acta_section_exists, acta_for_section_admin,
  acta_for_section_by_teacher,
}
use infraestructura_y_servic.Reports.Builders.{
  SectionGradeReport, build_section_grade_response, acta_cap,
}

-- What a key spells.
pub data Key : Type 0 where
  section_grades : Uuid → Key
  section_occupancy : Uuid → Key
  program_enrollment : Uuid → ℕ → Key
  student_record : Uuid → Key

abbrev pub is_section_grades : Uuid → Key → Bool
is_section_grades id (section_grades s) = s == id
is_section_grades id (section_occupancy p) = false
is_section_grades id (program_enrollment p year) = false
is_section_grades id (student_record s) = false

abbrev is_section_occupancy : Uuid → Key → Bool
is_section_occupancy id (section_grades s) = false
is_section_occupancy id (section_occupancy p) = p == id
is_section_occupancy id (program_enrollment p year) = false
is_section_occupancy id (student_record s) = false

abbrev is_program_enrollment : Uuid → ℕ → Key → Bool
is_program_enrollment id y (section_grades s) = false
is_program_enrollment id y (section_occupancy p) = false
is_program_enrollment id y (program_enrollment p year) = p == id && year == y
is_program_enrollment id y (student_record s) = false

abbrev is_student_record : Uuid → Key → Bool
is_student_record id (section_grades s) = false
is_student_record id (section_occupancy p) = false
is_student_record id (program_enrollment p year) = false
is_student_record id (student_record s) = s == id

abbrev pub same_key : Key → Key → Bool
same_key (section_grades id) k = is_section_grades id k
same_key (section_occupancy id) k = is_section_occupancy id k
same_key (program_enrollment id year) k = is_program_enrollment id year k
same_key (student_record id) k = is_student_record id k

pub record State : Type 0 where
  pub archive : Archive
  pub entries : List (Key × Text)

unfoldable pub entry_at : Key → List (Key × Text) → Option Text
entry_at key [] = none
entry_at key ((k, bytes) ∷ entries) =
    let rest = entry_at key entries in if same_key key k then some bytes else rest

-- Which commands of the cache fail.
pub record CacheFaults : Type 0 where
  pub get_fails : Bool
  pub set_fails : Bool

unfoldable pub caller_is_admin : Context → Bool
caller_is_admin ctx = elim ctx.permissions [ none ↦ false | some perms ↦ perms perm_catalog_manage ]

-- A statement that reads `a`, or its error.
unfoldable pub fetched : {A : Type 0} → Faults → ℕ → A → Result Error A
fetched faults n a = elim (faults n) [
  | some f ↦ err (translate_pg_error (pg_error_of f))
  | none ↦ ok a
]

-- The caller that is a teacher of the section, and none for an admin.
unfoldable pub membership : Faults → Context → Uuid → Archive → Result Error (Option Uuid)
membership faults ctx section a = if caller_is_admin ctx then ok none else elim ctx.user_id [
  | none ↦ err not_found
  | some caller ↦ elim (fetched faults 0 (is_teacher_for_section section caller a.db)) [
    | err e ↦ err e
    | ok member ↦ if member then ok (some caller) else err not_found
  ]
]

-- A failure, a missing key and an entry that cannot be read are all a miss.
unfoldable pub cache_get :
    {A : Type 0} → (Text → Option A) → CacheFaults → Key → List (Key × Text) → Option A
cache_get unmarshal cf key entries =
    if cf.get_fails
    then none
    else elim (entry_at key entries) [ none ↦ none | some bytes ↦ unmarshal bytes ]

unfoldable pub cache_set :
    {A : Type 0} → (A → Option Text) → CacheFaults → Key → A → List (Key × Text) → List (Key × Text)
cache_set marshal cf key r entries = elim (marshal r) [
  | none ↦ entries
  | some bytes ↦ if cf.set_fails then entries else (key, bytes) ∷ entries
]

module _ (marshal : SectionGradeReport → Option Text) (unmarshal : Text → Option SectionGradeReport)
    (collates : Text → Text → Bool) where
  -- The rows of the acta: an admin is told whether the section exists.
  unfoldable pub acta : Faults → Option Uuid → Uuid → Archive → Result Error (List ActaRow)
  acta faults none section a = elim (fetched faults 1 (acta_section_exists section a.db)) [
    | err e ↦ err e
    | ok found ↦
        if found
        then fetched faults 2 (acta_for_section_admin collates section a)
        else err not_found
  ]
  acta faults (some caller) section a =
      fetched faults 1 (acta_for_section_by_teacher collates section caller a)

  unfoldable pub computed :
      Faults → CacheFaults → Option Uuid → Uuid → State → Result Error SectionGradeReport × State
  computed faults cf caller section s = elim (acta faults caller section s.archive) [
    | err e ↦ (err e, s)
    | ok rows ↦
        let r = build_section_grade_response section s.archive.db.now rows acta_cap in
        (ok r, record s { entries = cache_set marshal cf (section_grades section) r s.entries })
  ]

  unfoldable pub get_section_grade_report :
      Faults → CacheFaults → Context → Uuid → State → Result Error SectionGradeReport × State
  get_section_grade_report faults cf ctx section s =
      elim (membership faults ctx section s.archive) [
        | err e ↦ (err e, s)
        | ok caller ↦ elim (cache_get unmarshal cf (section_grades section) s.entries) [
          | some r ↦ (ok r, s)
          | none ↦ computed faults cf caller section s
        ]
      ]
