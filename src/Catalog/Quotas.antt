-- ===== src/Catalog/Quotas.antt =====
-- backend/internal/catalog and backend/internal/enrollment: `CreateProgramQuota` as the update of a map
-- from programs and years to capacities, which enrollments read.
use infraestructura_y_servic.Base.{
  ℕ, ◌≡◌, inl, inr, refl, Bool, true, false, Option, none, some, List, [], ◌∷◌, ◌==◌, ◌&&◌, arith,
  find_first, update_where, Bool-cases, Option-cases, if◌then◌else◌,
}
use infraestructura_y_servic.Store.{Uuid, is_null, ProgramQuota, Db}
use infraestructura_y_servic.Driver.{Faults, ok, World}
use infraestructura_y_servic.Enrollment.Queries.{find_quota}
use infraestructura_y_servic.Catalog.Terms.{
  CreateProgramQuotaParams, has_year, fresh_quota, replaced_quota, upsert_program_quota,
}
use infraestructura_y_servic.Catalog.Repository.{run_query, create_program_quota}

-- The capacity that an enrollment in the program and year is held to, if there is one.
abbrev capacity_in : Option ProgramQuota → Option ℕ
capacity_in none = none
capacity_in (some q) = some q.capacity

abbrev pub capacity_of : Db → Uuid → ℕ → Option ℕ
capacity_of db program year = capacity_in (find_quota program year db)

abbrev is_live_year : Uuid → ℕ → ProgramQuota → Bool
is_live_year program year q = q.program_id == program && (q.year == year && is_null q.deleted_at)

module _ (p : CreateProgramQuotaParams) (actor : Option Uuid) (db : Db) where
  -- A search of the key, after the update of its rows, finds the new capacity.
  replaced_same :
      (program : Uuid) (year : ℕ) (rows : List ProgramQuota) {q : ProgramQuota}
      → (program == p.program_id && year == p.year) ≡ true
      → find_first (has_year p.program_id p.year) rows ≡ some q
      → capacity_in (
          find_first
            (is_live_year program year)
            (update_where (has_year p.program_id p.year) (replaced_quota p actor db) rows))
        ≡ some p.capacity
  unfolding find_first update_where
  replaced_same program year [] k h = absurd (ground arith)
  replaced_same program year (x ∷ rows) {q} k h =
      ground (arith, k, replaced_same program year rows {q = q})

  -- A search of another key finds what it found.
  replaced_other :
      (program : Uuid) (year : ℕ) (rows : List ProgramQuota)
      → (program == p.program_id && year == p.year) ≡ false
      → find_first
          (is_live_year program year)
          (update_where (has_year p.program_id p.year) (replaced_quota p actor db) rows)
        ≡ find_first (is_live_year program year) rows
  unfolding find_first update_where
  replaced_other program year [] h = refl
  replaced_other program year (x ∷ rows) h = ground (arith, h, replaced_other program year rows)

  added_first :
      (program : Uuid) (year : ℕ) (rows : List ProgramQuota)
      → find_first (is_live_year program year) (fresh_quota p actor db ∷ rows) ≡ (
          if program == p.program_id && year == p.year
          then some (fresh_quota p actor db)
          else find_first (is_live_year program year) rows)
  unfolding find_first
  added_first program year rows = elim (Bool-cases (program == p.program_id && year == p.year)) [
    | inl k ↦ ground (arith, k)
    | inr k ↦ ground (arith, k)
  ]

-- A quota that is created, whatever the driver does, sets the capacity of its program and year, and
-- leaves every other capacity alone: one that is there, soft-deleted or not, is replaced.
pub create_program_quota-capacity_of :
    (faults : Faults) (p : CreateProgramQuotaParams) (actor : Option Uuid) (w : World) {w' : World}
    {row : ProgramQuota}
    → create_program_quota faults p actor w ≡ (ok row, w')
    → (program : Uuid) (year : ℕ)
    → capacity_of w'.db program year ≡ (
        if program == p.program_id && year == p.year
        then some p.capacity
        else capacity_of w.db program year)
unfolding create_program_quota run_query upsert_program_quota find_quota
create_program_quota-capacity_of faults p actor w {w'} h program year =
    elim (Option-cases (find_first (has_year p.program_id p.year) w.db.program_quotas)) [
      | inr (q, f) ↦
          let e : w'.db.program_quotas
              ≡ update_where (has_year p.program_id p.year) (replaced_quota p actor w.db)
                  w.db.program_quotas =
            ground (arith, f, h) in
          elim (Bool-cases (program == p.program_id && year == p.year)) [
            | inl k ↦
                let set = replaced_same p actor w.db program year w.db.program_quotas k f in
                ground (arith, e, k, set)
            | inr k ↦
                let kept = replaced_other p actor w.db program year w.db.program_quotas k in
                ground (arith, e, k, kept)
          ]
      | inl f ↦
          let e : w'.db.program_quotas ≡ fresh_quota p actor w.db ∷ w.db.program_quotas =
            ground (arith, f, h) in
          let first = added_first p actor w.db program year w.db.program_quotas in
          elim (Bool-cases (program == p.program_id && year == p.year)) [
            | inl k ↦ ground (arith, e, k, first)
            | inr k ↦ ground (arith, e, k, first)
          ]
    ]
