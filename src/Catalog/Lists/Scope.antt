-- ===== src/Catalog/Lists/Scope.antt =====
-- backend/internal/catalog/service.go: which sections `ListOwnSections` lists.
use infraestructura_y_servic.Base.{
  ℕ, ◌+◌, ◌≡◌, ◌⊎◌, inl, inr, refl, subst, ap, String, Bool, true, false, Option, none, some, List,
  [], ◌∷◌, ◌==◌, ◌&&◌, arith, take, ltb, select, any_of, Bool-cases, Option-cases, if◌then◌else◌,
}
use infraestructura_y_servic.Base.Int.{ℤ}
use infraestructura_y_servic.Base.Joins.{In, In-take, In-each, In-select, any_of-In}
use infraestructura_y_servic.Platform.Pgconv.{Text}
use infraestructura_y_servic.Platform.Search.{search_pattern}
use infraestructura_y_servic.Platform.Pagination.Members.{In-paginate}
use infraestructura_y_servic.Store.{Uuid, Section, Db}
use infraestructura_y_servic.Driver.{Faults, ok, World, M, ◌>>=◌, pure}
use infraestructura_y_servic.Driver.Laws.{bind-ok, read-ok}
use infraestructura_y_servic.Access.Interceptors.{Context}
use infraestructura_y_servic.Catalog.Errors.{Error, translate_pg_error}
use infraestructura_y_servic.Catalog.Programs.{is_live_course}
use infraestructura_y_servic.Catalog.Terms.{is_period}
use infraestructura_y_servic.Catalog.Sections.{is_live_section}
use infraestructura_y_servic.Catalog.Repository.{run_query}
use infraestructura_y_servic.Catalog.Lists.{
  OwnSectionRow, with_labels, is_listed, own_sections, all_sections, insert_by_id, sort_by_id,
  ListResult, page_result, clamped_size, caller_is_catalog_admin, matches, read_token, session_user,
  scoped_sections, list_own_sections,
}

module _ {A : Type 0} (id : A → Uuid) where
  In-insert_by_id : (x y : A) (xs : List A) → In x (insert_by_id id y xs) → (x ≡ y) ⊎ In x xs
  unfolding insert_by_id
  In-insert_by_id x y [] h = h
  In-insert_by_id x y (z ∷ xs) h = elim (Bool-cases (ltb (id z) (id y))) [
    | inl e ↦ subst (λ b. In x (if b then y ∷ z ∷ xs else z ∷ insert_by_id id y xs)) e h
    | inr e ↦ elim (subst (λ b. In x (if b then y ∷ z ∷ xs else z ∷ insert_by_id id y xs)) e h) [
      | inl q ↦ inr (inl q)
      | inr l ↦ elim (In-insert_by_id x y xs l) [ inl q ↦ inl q | inr m ↦ inr (inr m) ]
    ]
  ]

  pub In-sort_by_id : (x : A) (xs : List A) → In x (sort_by_id id xs) → In x xs
  unfolding sort_by_id
  In-sort_by_id x [] h = h
  In-sort_by_id x (y ∷ xs) h = elim (In-insert_by_id x y (sort_by_id id xs) h) [
    | inl q ↦ inl q
    | inr l ↦ inr (In-sort_by_id x xs l)
  ]

module _ (like : Text → Text → Bool) (query : Option Text) (db : Db) (row : OwnSectionRow) where
  -- The id of a labelled row is its section's.
  In-with_labels : (s : Section) → In row (with_labels like query db s) → row.id ≡ s.id
  In-with_labels s h =
      let (c, _, h1) =
        In-each row
          (select (λ c. is_live_course s.course_id c && matches like query c.code c.name)
            db.courses)
          _ h in
      let (p, _, h2) =
        In-each row (select (is_period s.academic_period_id) db.academic_periods) _ h1 in
      elim h2 [ inl q ↦ ap (λ (r : OwnSectionRow). r.id) q | inr no_row ↦ absurd no_row ]

  is_live :
      (s : Section) (token : Option Uuid)
      → In s (select (is_listed token) db.sections)
      → row.id ≡ s.id
      → any_of (is_live_section row.id) db.sections ≡ true
  is_live s token a q =
      let (there, on) = In-select (is_listed token) s db.sections a in
      any_of-In (is_live_section row.id) s db.sections there (ground (arith, on, q))

  In-own_sections :
      (teacher : Uuid) (token : Option Uuid)
      → In row (own_sections like teacher token query db)
      → (any_of (is_live_section row.id) db.sections ≡ true)
        × (any_of (λ t. t.section_id == row.id && t.teacher_id == teacher) db.section_teachers
            ≡ true)
  In-own_sections teacher token h =
      let (s, a1, h1) = In-each row (select (is_listed token) db.sections) _ h in
      let (st, a2, h2) =
        In-each row
          (select (λ st. st.section_id == s.id && st.teacher_id == teacher) db.section_teachers) _
          h1 in
      let q = In-with_labels s h2 in
      let (there, on) =
        In-select (λ st. st.section_id == s.id && st.teacher_id == teacher) st db.section_teachers
          a2 in
      (
        is_live s token a1 q,
        any_of-In (λ t. t.section_id == row.id && t.teacher_id == teacher) st db.section_teachers
            there (ground (arith, on, q)),
      )

  In-all_sections :
      (token : Option Uuid)
      → In row (all_sections like token query db)
      → any_of (is_live_section row.id) db.sections ≡ true
  In-all_sections token h =
      let (s, a1, h1) = In-each row (select (is_listed token) db.sections) _ h in
      is_live s token a1 (In-with_labels s h1)

read_token_keeps :
    (parse : String → Option Uuid) (trim : Text → Text) (like : Text → Text → Bool)
    (faults : Faults) (t : Option String) (w v : World) {token : Option Uuid}
    → read_token parse trim like faults t w ≡ (ok token, v)
    → v ≡ w
unfolding read_token
read_token_keeps parse trim like faults none w v h = ground arith
read_token_keeps parse trim like faults (some s) w v h = elim (Option-cases (parse s)) [
  | inl n ↦ ground arith
  | inr (id, e) ↦ ground arith
]

module _ (parse : String → Option Uuid) (trim : Text → Text) (like : Text → Text → Bool)
    (faults : Faults) (user : Uuid) (token : Option Uuid) (query : Option Text) (limit : ℕ) where
  abbrev scope : Bool → Db → List OwnSectionRow
  scope admin db =
      if admin then all_sections like token query db else own_sections like user token query db

  scoped_sections-ok :
      (admin : Bool) (w : World) {w' : World} {rows : List OwnSectionRow}
      → scoped_sections parse trim like faults admin user token query limit w ≡ (ok rows, w')
      → (w' ≡ w) × (rows ≡ take limit (sort_by_id (λ (r : OwnSectionRow). r.id) (scope admin w.db)))
  unfolding scoped_sections run_query
  scoped_sections-ok true w h =
      let (read, same) =
        read-ok faults 0 translate_pg_error
          (λ db. ok (take limit (sort_by_id (λ (r : OwnSectionRow). r.id) (scope true db)))) h in
      (same, ground (arith, read))
  scoped_sections-ok false w h =
      let (read, same) =
        read-ok faults 0 translate_pg_error
          (λ db. ok (take limit (sort_by_id (λ (r : OwnSectionRow). r.id) (scope false db)))) h in
      (same, ground (arith, read))

  -- What a row of the scope is.
  In-scope :
      (db : Db) (row : OwnSectionRow) (admin : Bool)
      → In row (scope admin db)
      → (any_of (is_live_section row.id) db.sections ≡ true)
        × ((admin ≡ true)
            ⊎ (any_of (λ t. t.section_id == row.id && t.teacher_id == user) db.section_teachers
                ≡ true))
  In-scope db row true h = (In-all_sections like query db row token h, inl refl)
  In-scope db row false h =
      let (a, b) = In-own_sections like query db row user token h in (a, inr b)

  abbrev after_token : Bool → ℕ → M Error (ListResult OwnSectionRow)
  after_token admin size = do
    rows ← scoped_sections parse trim like faults admin user token query limit
    pure (page_result (λ r. r.id) size rows)

  In-after_token :
      (admin : Bool) (size : ℕ) (w : World) {w' : World} {result : ListResult OwnSectionRow}
      (row : OwnSectionRow)
      → after_token admin size w ≡ (ok result, w')
      → In row result.items
      → In row (scope admin w.db)
  In-after_token admin size w {w'} {result} row h on =
      let (rows, v, e, k) =
        bind-ok (scoped_sections parse trim like faults admin user token query limit)
          (λ rows. pure (page_result (λ (r : OwnSectionRow). r.id) size rows)) {w = w} h in
      let (_, q) = scoped_sections-ok admin w e in
      let is : result ≡ page_result (λ (r : OwnSectionRow). r.id) size rows = ground (arith, k) in
      let sorted = sort_by_id (λ (r : OwnSectionRow). r.id) (scope admin w.db) in
      In-sort_by_id (λ (r : OwnSectionRow). r.id) row (scope admin w.db)
        (In-take limit row sorted (
          subst (λ x. In row x) q
            (In-paginate size row rows
              (subst (λ (x : ListResult OwnSectionRow). In row x.items) is on))))

-- Every section that `ListOwnSections` returns, whatever the driver does, is a live one, and the
-- caller has a session and is a teacher of the section or an admin of the catalog.
pub list_own_sections-scope :
    (parse : String → Option Uuid) (trim : Text → Text) (like : Text → Text → Bool)
    (faults : Faults) (ctx : Context) (size : ℤ) (page_token : Option String) (query : Text)
    (w : World) {w' : World} {result : ListResult OwnSectionRow} (row : OwnSectionRow)
    → list_own_sections parse trim like faults ctx size page_token query w ≡ (ok result, w')
    → In row result.items
    → (user : Uuid) × (ctx.user_id ≡ some user)
      × (any_of (is_live_section row.id) w.db.sections ≡ true)
      × ((caller_is_catalog_admin ctx ≡ true)
          ⊎ (any_of (λ t. t.section_id == row.id && t.teacher_id == user) w.db.section_teachers
              ≡ true))
unfolding list_own_sections session_user
list_own_sections-scope parse trim like faults ctx size page_token query w {w'} {result} row h on =
    elim (Option-cases ctx.user_id) [
      | inl n ↦ absurd (ground (arith, n, h))
      | inr (user, u) ↦
          let g : (read_token parse trim like faults page_token >>= λ token.
          after_token parse trim like faults user token (search_pattern trim (trim query))
            (clamped_size size + 1) (caller_is_catalog_admin ctx) (clamped_size size))
                w
              ≡ (ok result, w') =
            ground (arith, u, h) in
          let (token, v, e, k) =
            bind-ok (read_token parse trim like faults page_token)
              (λ token.
                after_token parse trim like faults user token (search_pattern trim (trim query))
                  (clamped_size size + 1) (caller_is_catalog_admin ctx) (clamped_size size))
              {w = w} g in
          let same : v ≡ w =
            read_token_keeps parse trim like faults page_token w v {token = token} e in
          let there =
            In-after_token parse trim like faults user token (search_pattern trim (trim query))
              (clamped_size size + 1) (caller_is_catalog_admin ctx) (clamped_size size) v row k
              on in
          let (a, b) =
            In-scope parse trim like faults user token (search_pattern trim (trim query))
              (clamped_size size + 1) v.db row (caller_is_catalog_admin ctx) there in
          (
            user,
            u,
            subst (λ (x : World). any_of (is_live_section row.id) x.db.sections ≡ true) same a,
            subst
                (λ (x : World).
                  (caller_is_catalog_admin ctx ≡ true)
                  ⊎ (any_of (λ t. t.section_id == row.id && t.teacher_id == user)
                        x.db.section_teachers
                      ≡ true))
                same b,
          )
    ]
