-- ===== src/Catalog/History/Offers.antt =====
-- backend/internal/catalog: each call of the service on periods, quotas and sections makes one of the
-- changes.
use infraestructura_y_servic.Base.{
  ℕ, suc, ◌≡◌, ◌<◌, ◌⊎◌, inl, inr, refl, sym, ◌∙◌, subst, String, Bool, true, not, Option, none,
  some, ◌∷◌, ◌==◌, ◌&&◌, arith, any_of, find_first, update_where, Option-cases, Bool-cases, ltb,
}
use infraestructura_y_servic.Base.Int.{ℤ, pos, negsuc}
use infraestructura_y_servic.Store.{Uuid, Date}
use infraestructura_y_servic.Driver.{Faults, ok, World, M, ◌>>=◌, ◌>>◌, check, pure}
use infraestructura_y_servic.Driver.Laws.{bind-ok}
use infraestructura_y_servic.Access.Interceptors.{Context}
use infraestructura_y_servic.Catalog.Errors.{Error, invalid_input}
use infraestructura_y_servic.Catalog.Tables.{academic_periods, sections}
use infraestructura_y_servic.Catalog.Programs.{is_program}
use infraestructura_y_servic.Catalog.Terms.{
  CreateAcademicPeriodParams, CreateProgramQuotaParams, is_period, has_term, fresh_period,
  moved_period, is_section_of_period, deleted_period, has_year, fresh_quota, replaced_quota,
  upsert_program_quota,
}
use infraestructura_y_servic.Catalog.Service.{
  require_positive, require_term, parsed, validate_academic_period, actor_from_context,
  CreateAcademicPeriodServiceParams, CreateProgramQuotaServiceParams, CreateSectionServiceParams,
}
use infraestructura_y_servic.Catalog.Service
use infraestructura_y_servic.Catalog.Repository
use infraestructura_y_servic.Catalog.Repository.Effects.{
  bound, inserted, updated, transacted, deleted_one, run_query-cases,
}
use infraestructura_y_servic.Catalog.Change.{
  IsTerm, Change, unchanged, period_added, period_moved, period_deleted, quota_added,
  quota_replaced,
}
use infraestructura_y_servic.Catalog.History.Changes.{require_positive-lt, require_positive_keeps}

pub parsed_keeps : (a : Option ℕ) (w : World) → (parsed a w).1 ≡ w
unfolding parsed
parsed_keeps none w = refl
parsed_keeps (some n) w = refl

pub parsed-ok :
    (a : Option ℕ) (w : World) {w' : World} {n : ℕ} → parsed a w ≡ (ok n, w') → a ≡ some n
unfolding parsed
parsed-ok none w h = absurd (ground arith)
parsed-ok (some n) w h = ground arith

require_term_keeps : (n : ℤ) (w : World) → (require_term n w).1 ≡ w
unfolding require_term
require_term_keeps (pos n) w = refl
require_term_keeps (negsuc n) w = refl

require_term-ok :
    (n : ℤ) (w : World) {w' : World} {m : ℕ} → require_term n w ≡ (ok m, w') → (m ≡ 1) ⊎ (m ≡ 2)
unfolding require_term
require_term-ok (pos n) w {m = m} h = elim (Bool-cases (m == 1)) [
  | inl e ↦ inl (ground arith)
  | inr e ↦ inr (ground arith)
]
require_term-ok (negsuc n) w h = absurd (ground arith)

-- The steps of the validation, from the last one.
abbrev after_end : ℕ → ℕ → Date → Date → M Error CreateAcademicPeriodParams
after_end year term start end = do
  check (ltb start end) invalid_input
  pure (record { year = year; term = term; start_date = start; end_date = end })

module _ (parse_date : String → Option Date) (p : CreateAcademicPeriodServiceParams) where
  abbrev after_start : ℕ → ℕ → Date → M Error CreateAcademicPeriodParams
  after_start year term start = do
    end ← parsed (parse_date p.end_date)
    after_end year term start end

  abbrev after_term : ℕ → ℕ → M Error CreateAcademicPeriodParams
  after_term year term = do start ← parsed (parse_date p.start_date); after_start year term start

  abbrev after_year : ℕ → M Error CreateAcademicPeriodParams
  after_year year = do term ← require_term p.term; after_term year term

module _ (parse_date : String → Option Date) (p : CreateAcademicPeriodServiceParams)
    (w : World) where
  validate_academic_period_keeps : (validate_academic_period parse_date p w).1 ≡ w
  unfolding validate_academic_period
  validate_academic_period_keeps = ground (
    arith,
    require_positive_keeps p.year w,
    require_term_keeps p.term w,
    parsed_keeps (parse_date p.start_date) w,
    parsed_keeps (parse_date p.end_date) w,
  )

  validate_academic_period-IsTerm :
      {w' : World} {a : CreateAcademicPeriodParams}
      → validate_academic_period parse_date p w ≡ (ok a, w')
      → IsTerm a
  unfolding validate_academic_period
  validate_academic_period-IsTerm {w'} {a} h =
      let (year, w1, e1, h1) = bind-ok (require_positive p.year) (after_year parse_date p) h in
      let q1 : w1 ≡ w = ground (arith, e1, require_positive_keeps p.year w) in
      let (term, w2, e2, h2) = bind-ok (require_term p.term) (after_term parse_date p year) h1 in
      let (start, w3, e3, h3) =
        bind-ok (parsed (parse_date p.start_date)) (after_start parse_date p year term) h2 in
      let (end, w4, e4, h4) =
        bind-ok (parsed (parse_date p.end_date)) (after_end year term start) h3 in
      let lt = require_positive-lt p.year w e1 in
      let one = require_term-ok p.term w1 e2 in
      (ground (arith, lt, h4), ground (arith, one, h4), ground (arith, h4))

module _ (parse : String → Option Uuid) (parse_date : String → Option Date) (faults : Faults)
    (ctx : Context) (live : Bool) (w : World) where
  abbrev actor : Option Uuid
  actor = actor_from_context ctx

  pub create_academic_period-Change :
      (p : CreateAcademicPeriodServiceParams)
      → Change w.db live (Service.create_academic_period parse parse_date faults ctx p w).1.db
  unfolding Service.create_academic_period Repository.create_academic_period
  create_academic_period-Change p =
      bound (Change w.db live) (validate_academic_period parse_date p)
        (λ a. Repository.create_academic_period faults a) w
        (validate_academic_period_keeps parse_date p w) unchanged
        λ a e.
          inserted (Change w.db live) faults 0 academic_periods w unchanged suc (λ _. true)
            (has_term a) (fresh_period a)
            (λ _. period_added a (validate_academic_period-IsTerm parse_date p w e))

  pub update_academic_period-Change :
      (id : Uuid) (p : CreateAcademicPeriodServiceParams)
      → Change w.db live (Service.update_academic_period parse parse_date faults ctx id p w).1.db
  unfolding Service.update_academic_period Repository.update_academic_period
  update_academic_period-Change id p =
      bound (Change w.db live) (validate_academic_period parse_date p)
        (λ a. Repository.update_academic_period faults id a) w
        (validate_academic_period_keeps parse_date p w) unchanged
        λ a e.
          updated (Change w.db live) faults 0 academic_periods w unchanged
            (λ _ r. not (r.id == id) && has_term a r) (is_period id) (moved_period a)
            (period_moved id a (validate_academic_period-IsTerm parse_date p w e))

  pub delete_academic_period-Change :
      (id : Uuid)
      → Change w.db live (Service.delete_academic_period parse parse_date faults ctx id w).1.db
  unfolding Service.delete_academic_period Repository.delete_academic_period_tx
      Repository.delete_academic_period_body
  delete_academic_period-Change id =
      transacted (Change w.db live) faults (Repository.delete_academic_period_body faults id) w
        unchanged
        λ _ w' h.
          let (a, e) =
            deleted_one faults academic_periods (is_period id) deleted_period w sections
              (is_section_of_period id) h in
          subst (Change w.db live) (sym e) (period_deleted id a)

  pub upsert-Change :
      (p : CreateProgramQuotaParams)
      → (0 < p.year) × (0 < p.capacity)
      → (live ≡ true → any_of (is_program p.program_id) w.db.programs ≡ true)
      → Change w.db live (Repository.create_program_quota faults p actor w).1.db
  unfolding Repository.create_program_quota upsert_program_quota
  upsert-Change p range on = elim (run_query-cases faults 0 (upsert_program_quota p actor) w) [
    | inl e ↦ subst (Change w.db live) (sym e) unchanged
    | inr e ↦ elim (Option-cases (find_first (has_year p.program_id p.year) w.db.program_quotas)) [
      | inr (q, f) ↦
          let g : (upsert_program_quota p actor w.db).1 ≡ record w.db {
            program_quotas =
                update_where (has_year p.program_id p.year) (replaced_quota p actor w.db)
                  w.db.program_quotas;
          } =
            ground (arith, f) in
          subst (Change w.db live) (sym (e ∙ g)) (quota_replaced p actor range on)
      | inl f ↦ elim (Bool-cases (any_of (λ r. r.id == p.program_id) w.db.programs)) [
        | inl r ↦
            let g : (upsert_program_quota p actor w.db).1 ≡ record w.db {
              program_quotas = fresh_quota p actor w.db ∷ w.db.program_quotas;
              next_id = suc w.db.next_id;
            } =
              ground (arith, f, r) in
            subst (Change w.db live) (sym (e ∙ g)) (quota_added p actor range on)
        | inr r ↦
            let g : (upsert_program_quota p actor w.db).1 ≡ w.db = ground (arith, f, r) in
            subst (Change w.db live) (sym (e ∙ g)) unchanged
      ]
    ]
  ]
