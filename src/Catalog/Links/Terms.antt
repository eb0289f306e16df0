-- ===== src/Catalog/Links/Terms.antt =====
-- backend/internal/catalog: the statements on periods, quotas and sections keep the links.
use infraestructura_y_servic.Base.{
  ℕ, suc, ◌≡◌, refl, Bool, true, false, List, ◌∷◌, ◌==◌, arith, any_of, count_if, All, update_where,
  IsBounded, IsBounded-suc, IsBounded-IsFresh, update-IsDistinct, update-IsBounded,
}
use infraestructura_y_servic.Base.Every.{
  All-weaken, All-both, All-update, count_none-All, any_of-update, any_of-cons,
}
use infraestructura_y_servic.Store.{Uuid, is_null, AcademicPeriod, ProgramQuota, Section, Db}
use infraestructura_y_servic.Catalog.Programs.{is_live_course}
use infraestructura_y_servic.Catalog.Terms.{
  is_period, CreateAcademicPeriodParams, fresh_period, moved_period, is_section_of_period,
  deleted_period,
}
use infraestructura_y_servic.Catalog.Links.{IsLinked, IsHeld, IsFunded, period_id}

module _ (db : Db) (v : IsLinked db) where
  pub insert_academic_period-IsLinked :
      (p : CreateAcademicPeriodParams)
      → IsLinked (record db {
        academic_periods = fresh_period p db ∷ db.academic_periods;
        next_id = suc db.next_id;
      })
  insert_academic_period-IsLinked p = record {
    sections =
        All-weaken (IsHeld db)
          (IsHeld (record db {
            academic_periods = fresh_period p db ∷ db.academic_periods;
            next_id = suc db.next_id;
          }))
          db.sections
          (λ s h live. (
            (h live).0,
            any_of-cons (is_period s.academic_period_id) (fresh_period p db) db.academic_periods
                (h live).1,
          ))
          v.sections;
    associations = v.associations;
    quotas = v.quotas;
    distinct = (IsBounded-IsFresh period_id db.next_id db.academic_periods v.bounded, v.distinct);
    bounded = (omega arith, IsBounded-suc period_id db.next_id db.academic_periods v.bounded);
  }

  period-IsLinked :
      (p : AcademicPeriod → Bool) (f : AcademicPeriod → AcademicPeriod)
      → ((x : AcademicPeriod) → period_id (f x) ≡ period_id x)
      → All
          (λ s.
            is_null s.deleted_at ≡ true
            → (any_of (is_live_course s.course_id) db.courses ≡ true)
              × (any_of (is_period s.academic_period_id) (update_where p f db.academic_periods)
                  ≡ true))
          db.sections
      → IsLinked (record db { academic_periods = update_where p f db.academic_periods })
  period-IsLinked p f keep held = record {
    sections = held;
    associations = v.associations;
    quotas = v.quotas;
    distinct = update-IsDistinct period_id p f db.academic_periods keep v.distinct;
    bounded = update-IsBounded period_id db.next_id p f db.academic_periods keep v.bounded;
  }

  pub update_academic_period-IsLinked :
      (p : AcademicPeriod → Bool) (a : CreateAcademicPeriodParams)
      → IsLinked
          (record db { academic_periods = update_where p (moved_period a db) db.academic_periods })
  update_academic_period-IsLinked p a =
      period-IsLinked p (moved_period a db) (λ x. refl)
        (All-weaken (IsHeld db)
          (IsHeld (record db {
            academic_periods = update_where p (moved_period a db) db.academic_periods;
          }))
          db.sections
          (λ s h live. (
            (h live).0,
            any_of-update (is_period s.academic_period_id) p (moved_period a db) db.academic_periods
                (λ r e k. k) (h live).1,
          ))
          v.sections)

  -- A period that no live section refers to is deleted.
  pub delete_academic_period-IsLinked :
      (id : Uuid)
      → count_if (is_section_of_period id) db.sections ≡ 0
      → IsLinked (record db {
        academic_periods = update_where (is_period id) (deleted_period db) db.academic_periods;
      })
  delete_academic_period-IsLinked id no_sections =
      period-IsLinked (is_period id) (deleted_period db) (λ x. refl)
        (All-weaken (λ s. IsHeld db s × (is_section_of_period id s ≡ false))
          (IsHeld (record db {
            academic_periods = update_where (is_period id) (deleted_period db) db.academic_periods;
          }))
          db.sections
          (λ s h live.
            let apart : s.academic_period_id == id ≡ false = ground (arith, h.1, live) in
            (
              (h.0 live).0,
              any_of-update (is_period s.academic_period_id) (is_period id) (deleted_period db)
                  db.academic_periods (λ r e k. absurd (ground (arith, e, k, apart))) (h.0 live).1,
            ))
          (All-both (IsHeld db) (λ s. is_section_of_period id s ≡ false) db.sections v.sections
            (count_none-All (is_section_of_period id) db.sections no_sections)))

  -- Quotas whose live rows have a live program.
  pub quotas-IsLinked :
      (rows : List ProgramQuota) (next : ℕ)
      → All (IsFunded db) rows
      → IsBounded period_id next db.academic_periods
      → IsLinked (record db { program_quotas = rows; next_id = next })
  quotas-IsLinked rows next all bound = record {
    sections = v.sections;
    associations = v.associations;
    quotas = all;
    distinct = v.distinct;
    bounded = bound;
  }

  pub quota-IsLinked :
      (p : ProgramQuota → Bool) (f : ProgramQuota → ProgramQuota)
      → ((q : ProgramQuota) → p q ≡ true → IsFunded db q → IsFunded db (f q))
      → IsLinked (record db { program_quotas = update_where p f db.program_quotas })
  quota-IsLinked p f keep =
      quotas-IsLinked (update_where p f db.program_quotas) db.next_id
        (All-update (IsFunded db) p f db.program_quotas keep v.quotas) v.bounded

  -- Sections whose live rows have a live course and a live period.
  pub sections-IsLinked :
      (rows : List Section) (next : ℕ)
      → All (IsHeld db) rows
      → IsBounded period_id next db.academic_periods
      → IsLinked (record db { sections = rows; next_id = next })
  sections-IsLinked rows next all bound = record {
    sections = all;
    associations = v.associations;
    quotas = v.quotas;
    distinct = v.distinct;
    bounded = bound;
  }

  pub section-IsLinked :
      (p : Section → Bool) (f : Section → Section)
      → ((s : Section) → p s ≡ true → IsHeld db s → IsHeld db (f s))
      → IsLinked (record db { sections = update_where p f db.sections })
  section-IsLinked p f keep =
      sections-IsLinked (update_where p f db.sections) db.next_id
        (All-update (IsHeld db) p f db.sections keep v.sections) v.bounded
