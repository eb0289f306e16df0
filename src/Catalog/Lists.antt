-- ===== src/Catalog/Lists.antt =====
-- backend/internal/catalog: the statements and methods that list. What ILIKE matches is a parameter,
-- and so are strings.TrimSpace and `uuid.Parse`; a page token that is empty is `none`.
pub mod Scope
use infraestructura_y_servic.Base.{
  ℕ, suc, ◌+◌, String, Bool, true, false, ◌&&◌, ◌||◌, Option, none, some, List, [], ◌∷◌, ◌==◌, ltb,
  select, any_of, take, map, if◌then◌else◌,
}
use infraestructura_y_servic.Base.Int.{ℤ, pos, pos_part}
use infraestructura_y_servic.Base.Joins.{each}
use infraestructura_y_servic.Platform.Pgconv.{Text}
use infraestructura_y_servic.Platform.Search.{search_pattern}
use infraestructura_y_servic.Platform.Pagination.{Clamp, apply, paginate, token_of}
use infraestructura_y_servic.Store.{
  Uuid, is_null, Section, Program, Course, AcademicPeriod, ProgramCourse, ProgramQuota,
  SectionTeacher, Db,
}
use infraestructura_y_servic.Driver.{Faults, ok, err, M, Query, ◌>>=◌, pure, raise, reads}
use infraestructura_y_servic.Access.Policy.{perm_catalog_manage}
use infraestructura_y_servic.Access.Interceptors.{Context}
use infraestructura_y_servic.Catalog.Errors.{Error, invalid_input, unauthenticated}
use infraestructura_y_servic.Catalog.Programs.{is_live_course}
use infraestructura_y_servic.Catalog.Terms.{is_period}
use infraestructura_y_servic.Catalog.Repository.{run_query}

module _ {A : Type 0} (id : A → Uuid) where
  -- ORDER BY id DESC.
  unfoldable pub insert_by_id : A → List A → List A
  insert_by_id r [] = r ∷ []
  insert_by_id r (x ∷ xs) = if ltb (id x) (id r) then r ∷ x ∷ xs else x ∷ insert_by_id r xs

  unfoldable pub sort_by_id : List A → List A
  sort_by_id [] = []
  sort_by_id (x ∷ xs) = insert_by_id x (sort_by_id xs)

-- page_token IS NULL OR id < page_token.
abbrev pub is_before : Option Uuid → Uuid → Bool
is_before none id = true
is_before (some token) id = ltb id token

-- An optional filter on a column.
abbrev pub is_filtered : Option Uuid → Uuid → Bool
is_filtered none id = true
is_filtered (some x) id = id == x

pub record OwnSectionRow : Type 0 where
  pub id : Uuid
  pub course_id : Uuid
  pub academic_period_id : Uuid
  pub seat_capacity : ℕ
  pub course_code : Text
  pub course_name : Text
  pub period_year : ℕ
  pub period_term : ℕ

abbrev pub labelled : Section → Course → AcademicPeriod → OwnSectionRow
labelled s c ap = record {
  id = s.id;
  course_id = s.course_id;
  academic_period_id = s.academic_period_id;
  seat_capacity = s.capacity;
  course_code = c.code;
  course_name = c.name;
  period_year = ap.year;
  period_term = ap.term;
}

abbrev pub is_listed : Option Uuid → Section → Bool
is_listed token s = is_null s.deleted_at && is_before token s.id

module _ (like : Text → Text → Bool) where
  -- query IS NULL OR code ILIKE … OR name ILIKE ….
  abbrev pub matches : Option Text → Text → Text → Bool
  matches none code name = true
  matches (some pattern) code name = like pattern code || like pattern name

  abbrev pub list_programs_query : Option Uuid → Option Text → ℕ → Query (List Program)
  list_programs_query token query limit = reads λ db. ok (
      take limit (
        sort_by_id (λ p. p.id)
          (select
            (λ p. is_null p.deleted_at && (is_before token p.id && matches query p.code p.name))
            db.programs)))

  abbrev pub list_courses_query : Option Uuid → Option Text → ℕ → Query (List Course)
  list_courses_query token query limit = reads λ db. ok (
      take limit (
        sort_by_id (λ c. c.id)
          (select
            (λ c. is_null c.deleted_at && (is_before token c.id && matches query c.code c.name))
            db.courses)))

  -- A section with its live course and its live period, where the search matches the course.
  abbrev pub with_labels : Option Text → Db → Section → List OwnSectionRow
  with_labels query db s =
      each (select (λ c. is_live_course s.course_id c && matches query c.code c.name) db.courses)
        λ c.
          each (select (is_period s.academic_period_id) db.academic_periods)
            λ ap. labelled s c ap ∷ []

  abbrev pub own_sections : Uuid → Option Uuid → Option Text → Db → List OwnSectionRow
  own_sections teacher token query db = each (select (is_listed token) db.sections) λ s.
      each (select (λ st. st.section_id == s.id && st.teacher_id == teacher) db.section_teachers)
        λ st. with_labels query db s

  abbrev pub list_own_sections_paged :
      Uuid → Option Uuid → Option Text → ℕ → Query (List OwnSectionRow)
  list_own_sections_paged teacher token query limit =
      reads λ db. ok (take limit (sort_by_id (λ r. r.id) (own_sections teacher token query db)))

  abbrev pub all_sections : Option Uuid → Option Text → Db → List OwnSectionRow
  all_sections token query db =
      each (select (is_listed token) db.sections) λ s. with_labels query db s

  abbrev pub list_all_sections_paged : Option Uuid → Option Text → ℕ → Query (List OwnSectionRow)
  list_all_sections_paged token query limit =
      reads λ db. ok (take limit (sort_by_id (λ r. r.id) (all_sections token query db)))

abbrev pub list_sections_query : Option Uuid → Option Uuid → Option Uuid → ℕ → Query (List Section)
list_sections_query token course period limit = reads λ db. ok (
    take limit (
      sort_by_id (λ s. s.id)
        (select
          (λ s.
            is_null s.deleted_at
            && (is_before token s.id
                && (is_filtered course s.course_id && is_filtered period s.academic_period_id)))
          db.sections)))

abbrev pub catalog_clamp : Clamp
catalog_clamp = record { min = pos 20; max = pos 200 }

abbrev pub clamped_size : ℤ → ℕ
clamped_size size = pos_part (apply catalog_clamp size)

pub record ListResult (A : Type 0) : Type 0 where
  pub items : List A
  pub next_page_token : Option Uuid

abbrev pub page_result : {A : Type 0} → (A → Uuid) → ℕ → List A → ListResult A
page_result id size rows =
    let page = paginate rows size in
    record { items = page.items; next_page_token = token_of page id }

-- perms.Has(PermCatalogManage), and false without permissions in the context.
unfoldable pub caller_is_catalog_admin : Context → Bool
caller_is_catalog_admin ctx = elim ctx.permissions [
  | none ↦ false
  | some perms ↦ perms perm_catalog_manage
]

module _ (parse : String → Option Uuid) (trim : Text → Text) (like : Text → Text → Bool)
    (faults : Faults) where
  unfoldable pub read_token : Option String → M Error (Option Uuid)
  read_token none w = (ok none, w)
  read_token (some s) w = elim (parse s) [
    | none ↦ (err invalid_input, w)
    | some id ↦ (ok (some id), w)
  ]

  pub list_programs : ℤ → Option String → Text → M Error (ListResult Program)
  list_programs size page_token query = do
    token ← read_token page_token
    rows ←
        run_query faults 0
          (list_programs_query like token (search_pattern trim query) (clamped_size size + 1))
    pure (page_result (λ p. p.id) (clamped_size size) rows)

  pub list_courses : ℤ → Option String → Text → M Error (ListResult Course)
  list_courses size page_token query = do
    token ← read_token page_token
    rows ←
        run_query faults 0
          (list_courses_query like token (search_pattern trim query) (clamped_size size + 1))
    pure (page_result (λ c. c.id) (clamped_size size) rows)

  pub list_sections : Option Uuid → Option Uuid → ℤ → Option String → M Error (ListResult Section)
  list_sections course period size page_token = do
    token ← read_token page_token
    rows ← run_query faults 0 (list_sections_query token course period (clamped_size size + 1))
    pure (page_result (λ s. s.id) (clamped_size size) rows)

  -- The rows of the caller's scope: every section for a catalog admin, and else its own.
  unfoldable pub scoped_sections :
      Bool → Uuid → Option Uuid → Option Text → ℕ → M Error (List OwnSectionRow)
  scoped_sections true user token query limit =
      run_query faults 0 (list_all_sections_paged like token query limit)
  scoped_sections false user token query limit =
      run_query faults 0 (list_own_sections_paged like user token query limit)

  unfoldable pub session_user : Context → M Error Uuid
  session_user ctx w = elim ctx.user_id [ none ↦ (err unauthenticated, w) | some u ↦ (ok u, w) ]

  unfoldable pub list_own_sections :
      Context → ℤ → Option String → Text → M Error (ListResult OwnSectionRow)
  list_own_sections ctx size page_token query = do
    user ← session_user ctx
    token ← read_token page_token
    rows ←
        scoped_sections (caller_is_catalog_admin ctx) user token (search_pattern trim (trim query))
          (clamped_size size + 1)
    pure (page_result (λ r. r.id) (clamped_size size) rows)
