-- ===== src/Platform/Pagination/Walk.antt =====
-- Following the page tokens of a keyset-paginated list: WHERE id < token ORDER BY id DESC LIMIT
-- size + 1, as the list queries of backend/internal/*/query.sql and their services do.
use infraestructura_y_servic.Base.{
  subst, ℕ, zero, suc, ◌≡◌, ◌≤◌, ◌<◌, Option, none, some, List, [], ◌∷◌, ◌++◌, length, take, ltb,
  select, arith, Bool-cases, inl, inr, All, refl, sym, append_assoc, append-nil, ap, ◌∙◌,
}
use infraestructura_y_servic.Store.{Uuid}
use infraestructura_y_servic.Platform.Pagination.{Page, paginate, last, token_of}

module _ {A : Type 0} (id : A → Uuid) where
  -- The rows below the cursor, in the order of the query.
  unfoldable pub below : Option Uuid → List A → List A
  below none rows = rows
  below (some t) rows = select (λ r. ltb (id r) t) rows

  -- One call: the over-fetched rows, cut to a page.
  abbrev pub page_after : List A → ℕ → Option Uuid → Page A
  page_after rows size token = paginate (take (suc size) (below token rows)) size

  -- Every item that the calls return, from a token on, in at most this many calls.
  unfoldable pub walk : List A → ℕ → ℕ → Option Uuid → List A
  walk rows size zero token = []
  walk rows size (suc calls) token =
      let page = page_after rows size token in
      page.items ++ (elim (token_of page id) [ none ↦ [] | some t ↦ walk rows size calls (some t) ])

  -- Sorted by id, descending, without repetitions.
  abbrev pub IsDescending : List A → Type 0
  IsDescending [] = Unit
  IsDescending (x ∷ xs) = All (λ y. id y < id x) xs × IsDescending xs

  select-All :
      (t : Uuid) (xs : List A) → All (λ y. id y < t) xs → select (λ r. ltb (id r) t) xs ≡ xs
  unfolding select
  select-All t [] h = refl
  select-All t (x ∷ xs) h = ground (arith, select-All t xs h.1)

  last_below :
      (x l : A) (pre rest : List A) → All (λ y. id y < id x) (pre ++ l ∷ rest) → id l < id x
  last_below x l [] rest h = h.0
  last_below x l (y ∷ pre) rest h = last_below x l pre rest h.1

  -- Below the id of a row stand the rows after it.
  below-some :
      (l : A) (pre rest : List A)
      → IsDescending (pre ++ l ∷ rest)
      → below (some (id l)) (pre ++ l ∷ rest) ≡ rest
  unfolding below select
  below-some l [] rest d = ground (arith, select-All (id l) rest d.0)
  below-some l (x ∷ pre) rest d =
      ground (arith, last_below x l pre rest d.0, below-some l pre rest d.1)

  -- A page that is not the last one: the items up to a last one, and a rest.
  record Cut (size : ℕ) (ys : List A) : Type 0 where
    front : List A
    end : A
    rest : List A
    whole : ys ≡ front ++ end ∷ rest
    items : take size (take (suc size) ys) ≡ front ++ end ∷ []
    shorter : length rest < length ys

  cut : (size : ℕ) (ys : List A) → suc size < length ys → Cut (suc size) ys
  cut size [] h = absurd (omega arith)
  cut zero (y ∷ []) h = absurd (omega arith)
  cut zero (y ∷ z ∷ ys) h = record {
    front = [];
    end = y;
    rest = z ∷ ys;
    whole = refl;
    items = refl;
    shorter = omega arith;
  }
  cut (suc size) (y ∷ ys) h =
      let c = cut size ys (omega arith) in
      record {
        front = y ∷ c.front;
        end = c.end;
        rest = c.rest;
        whole = ap (λ (zs : List A). y ∷ zs) c.whole;
        items = ap (λ (zs : List A). y ∷ zs) c.items;
        shorter = omega (arith, c.shorter);
      }

  last-append : (front : List A) (end : A) → last (front ++ end ∷ []) ≡ some end
  last-append [] end = refl
  last-append (x ∷ []) end = refl
  last-append (x ∷ y ∷ front) end = last-append (y ∷ front) end

  take_all : (n : ℕ) (ys : List A) → length ys ≤ n → take n ys ≡ ys
  take_all zero [] h = refl
  take_all zero (y ∷ ys) h = absurd (omega arith)
  take_all (suc n) [] h = refl
  take_all (suc n) (y ∷ ys) h = ground (arith, take_all n ys)

  length-take_lt : (n : ℕ) (ys : List A) → n < length ys → length (take (suc n) ys) ≡ suc n
  length-take_lt zero [] h = absurd (omega arith)
  length-take_lt zero (y ∷ ys) h = refl
  length-take_lt (suc n) [] h = absurd (omega arith)
  length-take_lt (suc n) (y ∷ ys) h = ground (arith, length-take_lt n ys)

  walk-below :
      (rows : List A) (size calls : ℕ) (token : Option Uuid) (pre ys : List A)
      → IsDescending rows
      → rows ≡ pre ++ ys
      → below token rows ≡ ys
      → length ys ≤ calls
      → walk rows (suc size) calls token ≡ ys
  unfolding walk paginate token_of
  walk-below rows size zero token pre [] d split at h = refl
  walk-below rows size zero token pre (y ∷ ys) d split at h = absurd (omega arith)
  walk-below rows size (suc calls) token pre ys d split at h =
      elim (Bool-cases (ltb (suc size) (length ys))) [
        | inr final ↦
            let q = take_all (suc (suc size)) ys (ground arith) in
            let e = append-nil ys in ground arith
        | inl more ↦
            let c = cut size ys (ground arith) in
            let split_at : rows ≡ pre ++ c.front ++ c.end ∷ c.rest =
              split
              ∙ ap (λ (zs : List A). pre ++ zs) c.whole
              ∙ sym (append_assoc pre c.front (c.end ∷ c.rest)) in
            let e = last-append c.front c.end in
            let n = length-take_lt (suc size) ys (ground arith) in
            let next = below-some c.end (pre ++ c.front) c.rest (subst IsDescending split_at d) in
            let back : below (some (id c.end)) rows ≡ c.rest =
              subst (λ (zs : List A). below (some (id c.end)) zs ≡ c.rest) (sym split_at) next in
            let rest =
              walk-below rows size calls (some (id c.end)) (pre ++ c.front ++ c.end ∷ []) c.rest d
                (split_at ∙ sym (append_assoc (pre ++ c.front) (c.end ∷ []) c.rest)) back
                (omega (arith, c.shorter)) in
            let joined = append_assoc c.front (c.end ∷ []) c.rest in
            let whole = c.whole in let items = c.items in ground arith
      ]

  -- Following the tokens from the first page on gives every row once, in the order of the list, in
  -- as many calls as there are rows at the most, for a list sorted by descending ids and pages of at
  -- least one row.
  pub walk-all :
      (rows : List A) (size calls : ℕ)
      → IsDescending rows
      → length rows ≤ calls
      → walk rows (suc size) calls none ≡ rows
  unfolding below
  walk-all rows size calls d h = walk-below rows size calls none [] rows d refl refl h
