-- ===== src/Reports/Scope.antt =====
-- backend/internal/reports/service.go: who is answered, and with what.
use infraestructura_y_servic.Base.{
  ℕ, ap, ◌∙◌, take, ◌≡◌, ◌⊎◌, inl, inr, sym, subst, Bool, true, Option, none, some, List, [], arith,
  Bool-cases, Option-cases, if◌then◌else◌,
}
use infraestructura_y_servic.Platform.Pgconv.{Text}
use infraestructura_y_servic.Store.{Uuid}
use infraestructura_y_servic.Driver.{Faults, ok}
use infraestructura_y_servic.Driver.Laws.{Result-cases}
use infraestructura_y_servic.Access.Interceptors.{Context}
use infraestructura_y_servic.Catalog.Reads.{order_by}
use infraestructura_y_servic.Reports.Queries.{
  Archive, ActaRow, is_teacher_for_section, acta_for_section_admin, acta_for_section_by_teacher,
  acta_rows, acta_precedes,
}
use infraestructura_y_servic.Reports.Builders.{
  SectionGradeReport, build_section_grade_response, acta_cap,
}
use infraestructura_y_servic.Reports.Cache.{entry_at-cache_set}
use infraestructura_y_servic.Reports.Service.{
  Key, section_grades, State, entry_at, CacheFaults, caller_is_admin, fetched, membership,
  cache_get, cache_set, acta, computed, get_section_grade_report,
}

fetched-ok :
    {A : Type 0} (faults : Faults) (n : ℕ) (a : A) {b : A} → fetched faults n a ≡ ok b → b ≡ a
unfolding fetched
fetched-ok faults n a h = ground arith

-- An admin, or a teacher of the section.
abbrev pub MaySee : Context → Uuid → Archive → Type 0
MaySee ctx section a =
    (caller_is_admin ctx ≡ true)
    ⊎ ((user : Uuid) × (ctx.user_id ≡ some user)
        × (is_teacher_for_section section user a.db ≡ true))

abbrev IsMember : Option Uuid → Uuid → Archive → Type 0
IsMember none section a = Unit {0}
IsMember (some user) section a = is_teacher_for_section section user a.db ≡ true

membership-ok :
    (faults : Faults) (ctx : Context) (section : Uuid) (a : Archive) {caller : Option Uuid}
    → membership faults ctx section a ≡ ok caller
    → MaySee ctx section a × IsMember caller section a
unfolding membership fetched
membership-ok faults ctx section a {caller} h = elim (Bool-cases (caller_is_admin ctx)) [
  | inl e ↦
      let is : caller ≡ none = ground (arith, e, h) in
      (inl e, subst (λ c. IsMember c section a) (sym is) tt)
  | inr e ↦ elim (Option-cases ctx.user_id) [
    | inl n ↦ absurd (ground (arith, e, n, h))
    | inr (user, u) ↦ elim (Bool-cases (is_teacher_for_section section user a.db)) [
      | inl t ↦
          let is : caller ≡ some user = ground (arith, e, u, t, h) in
          (inr (user, u, t), subst (λ c. IsMember c section a) (sym is) t)
      | inr t ↦ absurd (ground (arith, e, u, t, h))
    ]
  ]
]

module _ (marshal : SectionGradeReport → Option Text) (unmarshal : Text → Option SectionGradeReport)
    (collates : Text → Text → Bool) where
  by_teacher_lem :
      (user section : Uuid) (a : Archive)
      → is_teacher_for_section section user a.db ≡ true
      → acta_for_section_by_teacher collates section user a
        ≡ acta_for_section_admin collates section a
  unfolding acta_for_section_by_teacher acta_for_section_admin
  by_teacher_lem user section a m =
      ap (λ b. take 501 (order_by (acta_precedes collates) (if b then acta_rows section a else [])))
        m

  -- The rows are those that an admin gets.
  acta-ok :
      (faults : Faults) (caller : Option Uuid) (section : Uuid) (a : Archive) {rows : List ActaRow}
      → IsMember caller section a
      → acta marshal unmarshal collates faults caller section a ≡ ok rows
      → rows ≡ acta_for_section_admin collates section a
  unfolding acta fetched
  acta-ok faults none section a m h = ground (arith, h)
  acta-ok faults (some user) section a m h =
      fetched-ok faults 1 (acta_for_section_by_teacher collates section user a) h
      ∙ by_teacher_lem user section a m

  -- What the cache is read for is built from the store at a moment of `past`.
  abbrev pub IsBuilt : (Archive → Type 0) → Uuid → SectionGradeReport → Type 0
  IsBuilt past section r =
      (a : Archive) × past a
      × (r
          ≡ build_section_grade_response section a.db.now
              (acta_for_section_admin collates section a) acta_cap)

  abbrev pub IsTrusted : (Archive → Type 0) → List (Key × Text) → Type 0
  IsTrusted past entries =
      (section : Uuid) (bytes : Text) (r : SectionGradeReport)
      → entry_at (section_grades section) entries ≡ some bytes
      → unmarshal bytes ≡ some r
      → IsBuilt past section r

  module _
      (lossless : (r : SectionGradeReport) (bytes : Text)
        → marshal r ≡ some bytes
        → unmarshal bytes ≡ some r)
      (past : Archive → Type 0) where
    cache_get-IsBuilt :
        (cf : CacheFaults) (section : Uuid) (entries : List (Key × Text)) {r : SectionGradeReport}
        → IsTrusted past entries
        → cache_get unmarshal cf (section_grades section) entries ≡ some r
        → IsBuilt past section r
    unfolding cache_get
    cache_get-IsBuilt cf section entries {r} v h =
        elim (Option-cases (entry_at (section_grades section) entries)) [
          | inl n ↦ absurd (ground (arith, n, h))
          | inr (bytes, e) ↦ v section bytes r e (ground (arith, e, h))
        ]

    -- A report that is built now may be stored.
    cache_set-IsTrusted :
        (cf : CacheFaults) (section : Uuid) (r : SectionGradeReport) (entries : List (Key × Text))
        → IsTrusted past entries
        → IsBuilt past section r
        → IsTrusted past (cache_set marshal cf (section_grades section) r entries)
    cache_set-IsTrusted cf section r entries v b id bytes x e u =
        elim (entry_at-cache_set marshal cf (section_grades section) (section_grades id) r entries
          e) [
            | inl before ↦ v id bytes x before u
            | inr (here, stored) ↦
                let is : r ≡ x = ground (arith, lossless r bytes stored, u) in
                subst (λ y. IsBuilt past id y) is
                  (subst (λ i. IsBuilt past i r) (ground (arith, here)) b)
          ]

    -- `GetSectionGradeReport`, whatever commands of the driver and of the cache fail and whatever
    -- the cache holds of what was built before, answers only an admin or a teacher of the section,
    -- and answers and stores only what the statement for admins gives of that section in the store,
    -- now or at a moment of `past`, where the encoding of reports loses nothing.
    pub get_section_grade_report-IsBuilt :
        (faults : Faults) (cf : CacheFaults) (ctx : Context) (section : Uuid) (s : State)
        {r : SectionGradeReport} {s' : State}
        → past s.archive
        → IsTrusted past s.entries
        → get_section_grade_report marshal unmarshal collates faults cf ctx section s ≡ (ok r, s')
        → MaySee ctx section s.archive × IsBuilt past section r × IsTrusted past s'.entries
    unfolding get_section_grade_report computed
    get_section_grade_report-IsBuilt faults cf ctx section s {r} {s'} now v h =
        elim (Result-cases (membership faults ctx section s.archive)) [
          | inr (e, m) ↦ absurd (ground (arith, m, h))
          | inl (caller, m) ↦
              let (may, member) = membership-ok faults ctx section s.archive m in
              elim (Option-cases (cache_get unmarshal cf (section_grades section) s.entries)) [
                | inr (hit, c) ↦
                    let is : hit ≡ r = ground (arith, m, c, h) in
                    let same : s ≡ s' = ground (arith, m, c, h) in
                    (
                      may,
                      cache_get-IsBuilt cf section s.entries v (
                          subst
                            (λ x.
                              cache_get unmarshal cf (section_grades section) s.entries ≡ some x)
                            is c),
                      subst (λ (x : State). IsTrusted past x.entries) same v,
                    )
                | inl c ↦
                    elim (Result-cases
                      (acta marshal unmarshal collates faults caller section s.archive)) [
                        | inr (e, k) ↦ absurd (ground (arith, m, c, k, h))
                        | inl (rows, k) ↦
                            let q = acta-ok faults caller section s.archive member k in
                            let is : build_section_grade_response section s.archive.db.now rows
                                  acta_cap
                                ≡ r =
                              ground (arith, m, c, k, h) in
                            let stored : cache_set marshal cf (section_grades section) r s.entries
                                ≡ s'.entries =
                              ground (arith, m, c, k, h, is) in
                            let built : IsBuilt past section r = (
                              s.archive,
                              now,
                              sym is
                                  ∙ ap
                                      (λ xs.
                                        build_section_grade_response section s.archive.db.now xs
                                          acta_cap)
                                      q,
                            ) in
                            (
                              may,
                              built,
                              subst (λ es. IsTrusted past es) stored
                                  (cache_set-IsTrusted cf section r s.entries v built),
                            )
                      ]
              ]
        ]
