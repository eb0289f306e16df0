-- ===== src/Reports/Summaries/Occupancy.antt =====
-- backend/internal/reports and backend/internal/sectionenrollment: the occupancy report on sound
-- inscriptions.
use infraestructura_y_servic.Base.{
  ℕ, ◌≡◌, ◌≤◌, ◌⊎◌, inl, inr, refl, sym, ap, subst, Bool, true, Option, some, List, [], ◌∷◌, ◌==◌,
  ◌&&◌, arith, ltb, take, length, map, select, any_of, Bool-cases, Option-cases, if◌then◌else◌,
}
use infraestructura_y_servic.Base.Joins.{In, In-take, In-each, In-select, find_first-In}
use infraestructura_y_servic.Platform.Pgconv.{Text}
use infraestructura_y_servic.Store.{Uuid, is_null, Db}
use infraestructura_y_servic.Driver.{Faults, ok}
use infraestructura_y_servic.Access.Interceptors.{Context}
use infraestructura_y_servic.SectionEnrollment.Queries.{is_section, find_section}
use infraestructura_y_servic.SectionEnrollment.Invariant.{IsSound}
use infraestructura_y_servic.SectionEnrollment.Enrollable.Agreement.{IsKeyed}
use infraestructura_y_servic.Catalog.Terms.{is_period}
use infraestructura_y_servic.Catalog.Reads.Order.{In-order_by}
use infraestructura_y_servic.Catalog.Reads.{order_by}
use infraestructura_y_servic.Reports.Queries.{Archive}
use infraestructura_y_servic.Reports.SummaryQueries.{
  OccupancyRow, occupancy_rows, occupancy_for_period,
}
use infraestructura_y_servic.Reports.Cache.{entry_at-cache_set}
use infraestructura_y_servic.Reports.Service.{
  Key, section_occupancy, State, CacheFaults, entry_at, caller_is_admin, fetched, cache_get,
  cache_set,
}
use infraestructura_y_servic.Reports.Summaries.{
  limited, Report, SectionOccupancyRow, build, occupancy_line, rebuilt, cached_report,
  get_section_occupancy_report,
}

In-map :
    {A B : Type 0} (f : A → B) (y : B) (xs : List A)
    → In y (map f xs)
    → (x : A) × In x xs × (y ≡ f x)
In-map f y [] h = absurd h
In-map f y (x ∷ xs) (inl q) = (x, inl refl, q)
In-map f y (x ∷ xs) (inr l) = let (z, a, b) = In-map f y xs l in (z, inr a, b)

In-limited : {A : Type 0} (limit : ℕ) (x : A) (xs : List A) → In x (limited xs limit) → In x xs
In-limited limit x xs h = elim (Bool-cases (ltb limit (length xs))) [
  | inl e ↦ In-take limit x xs (subst (λ b. In x (if b then take limit xs else xs)) e h)
  | inr e ↦ subst (λ b. In x (if b then take limit xs else xs)) e h
]

-- A report that is answered was in the cache, or is built of a subject that exists, and stored.
cached_report-ok :
    {A : Type 0} (marshal : A → Option Text) (unmarshal : Text → Option A) (faults : Faults)
    (cf : CacheFaults) (key : Key) (exists : Archive → Bool) (report : Archive → A) (s : State)
    {r : A} {s' : State}
    → cached_report marshal unmarshal faults cf key exists report s ≡ (ok r, s')
    → ((cache_get unmarshal cf key s.entries ≡ some r) × (s' ≡ s))
      ⊎ ((exists s.archive ≡ true)
          × (r ≡ report s.archive)
          × (s'.entries ≡ cache_set marshal cf key r s.entries))
unfolding cached_report rebuilt fetched
cached_report-ok marshal unmarshal faults cf key exists report s h =
    elim (Option-cases (cache_get unmarshal cf key s.entries)) [
      | inr (hit, c) ↦ inl (ground (arith, c, h), ground (arith, c, h))
      | inl c ↦ elim (Bool-cases (exists s.archive)) [
        | inl e ↦ inr (e, ground (arith, c, e, h), ground (arith, c, e, h))
        | inr e ↦ absurd (ground (arith, c, e, h))
      ]
    ]

-- A row of the statement counts seats of a section within its capacity.
occupancy_rows-seats :
    (period : Uuid) (db : Db) (r : OccupancyRow)
    → IsSound db
    → IsKeyed db
    → In r (occupancy_rows period db)
    → r.active_seat_count ≤ r.capacity
unfolding find_section
occupancy_rows-seats period db r v k h =
    let (s, a, h1) =
      In-each r (select (λ s. s.academic_period_id == period && is_null s.deleted_at) db.sections) _
        h in
    let (ap, _, h2) =
      In-each r (select (λ ap. ap.id == s.academic_period_id) db.academic_periods) _ h1 in
    let (name, _, h3) = In-each r _ _ h2 in
    let (there, live) =
      In-select (λ s. s.academic_period_id == period && is_null s.deleted_at) s db.sections a in
    let found =
      find_first-In (is_section s.id) s db.sections (k.sections s.id) there
        (ground (arith, live)) in
    let held = v.seats s.id s found in
    elim h3 [
      | inl q ↦ subst (λ (x : OccupancyRow). x.active_seat_count ≤ x.capacity) (sym q) held
      | inr no_row ↦ absurd no_row
    ]

-- No row of the report shows more seats taken than the section has.
abbrev pub IsFit : Report SectionOccupancyRow → Type 0
IsFit report =
    (row : SectionOccupancyRow) → In row report.rows → row.active_seat_count ≤ row.capacity

module _ (marshal : Report SectionOccupancyRow → Option Text)
    (unmarshal : Text → Option (Report SectionOccupancyRow)) (percentage : ℕ → ℕ → Text) where
  occupancy_line-seats :
      (r : OccupancyRow)
      → r.active_seat_count ≤ r.capacity
      → (occupancy_line percentage r).active_seat_count ≤ (occupancy_line percentage r).capacity
  unfolding occupancy_line
  occupancy_line-seats r h = ground (arith, h)

  abbrev occupancy_of : Uuid → Db → Report SectionOccupancyRow
  occupancy_of period db =
      build (λ r. r.academic_period_name) (occupancy_line percentage) period db.now
        (occupancy_for_period period db) 1000

  build-IsFit : (period : Uuid) (db : Db) → IsSound db → IsKeyed db → IsFit (occupancy_of period db)
  unfolding build occupancy_for_period
  build-IsFit period db v k row h =
      let sorted = order_by (λ a b. ltb a.section_id b.section_id) (occupancy_rows period db) in
      let (r, a, q) = In-map (occupancy_line percentage) row (limited (take 1001 sorted) 1000) h in
      let there = In-take 1001 r sorted (In-limited 1000 r (take 1001 sorted) a) in
      subst (λ (x : SectionOccupancyRow). x.active_seat_count ≤ x.capacity) (sym q)
        (occupancy_line-seats r (
          occupancy_rows-seats period db r v k (
            In-order_by (λ a b. ltb a.section_id b.section_id) r (occupancy_rows period db) there)))

  -- Every report of the cache is fit.
  abbrev pub IsFitCache : List (Key × Text) → Type 0
  IsFitCache entries =
      (period : Uuid) (bytes : Text) (r : Report SectionOccupancyRow)
      → entry_at (section_occupancy period) entries ≡ some bytes
      → unmarshal bytes ≡ some r
      → IsFit r

  module _
      (lossless : (r : Report SectionOccupancyRow) (bytes : Text)
        → marshal r ≡ some bytes
        → unmarshal bytes ≡ some r) where
    cache_set-IsFitCache :
        (cf : CacheFaults) (period : Uuid) (r : Report SectionOccupancyRow)
        (entries : List (Key × Text))
        → IsFitCache entries
        → IsFit r
        → IsFitCache (cache_set marshal cf (section_occupancy period) r entries)
    cache_set-IsFitCache cf period r entries v b id bytes x e u =
        elim (entry_at-cache_set marshal cf (section_occupancy period) (section_occupancy id) r
          entries e) [
            | inl before ↦ v id bytes x before u
            | inr (here, stored) ↦
                let is : r ≡ x = ground (arith, lossless r bytes stored, u) in subst IsFit is b
          ]

    -- Whatever commands of the driver and of the cache fail, `GetSectionOccupancyReport` answers
    -- only admins, and on sound inscriptions with one section for each identifier no row of what it
    -- answers or stores shows more seats taken than the section has, where what the cache holds is
    -- so already and the encoding of reports loses nothing.
    pub get_section_occupancy_report-IsFit :
        (faults : Faults) (cf : CacheFaults) (ctx : Context) (period : Uuid) (s : State)
        {r : Report SectionOccupancyRow} {s' : State}
        → IsSound s.archive.db
        → IsKeyed s.archive.db
        → IsFitCache s.entries
        → get_section_occupancy_report marshal unmarshal percentage faults cf ctx period s
          ≡ (ok r, s')
        → (caller_is_admin ctx ≡ true) × IsFit r × IsFitCache s'.entries
    unfolding get_section_occupancy_report cache_get
    get_section_occupancy_report-IsFit faults cf ctx period s {r} {s'} v k fit h =
        elim (Bool-cases (caller_is_admin ctx)) [
          | inr e ↦ absurd (ground (arith, e, h))
          | inl e ↦
              elim (cached_report-ok marshal unmarshal faults cf (section_occupancy period)
                (λ a. any_of (is_period period) a.db.academic_periods)
                (λ a. occupancy_of period a.db) s {r = r} {s' = s'} (ground (arith, e, h))) [
                  | inl (hit, same) ↦
                      elim (Option-cases (entry_at (section_occupancy period) s.entries)) [
                        | inl n ↦ absurd (ground (arith, n, hit))
                        | inr (bytes, there) ↦ (
                          e,
                          fit period bytes r there (ground (arith, there, hit)),
                          subst (λ (x : State). IsFitCache x.entries) (sym same) fit,
                        )
                      ]
                  | inr (_, is, stored) ↦
                      let good : IsFit r =
                        subst IsFit (sym is) (build-IsFit period s.archive.db v k) in
                      (
                        e,
                        good,
                        subst IsFitCache (sym stored)
                            (cache_set-IsFitCache cf period r s.entries fit good),
                      )
                ]
        ]
