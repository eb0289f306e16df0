-- ===== src/Platform/Pagination/Members.antt =====
-- backend/internal/platform/pagination: the rows of a page.
use infraestructura_y_servic.Base.{ℕ, Bool, true, false, List, take, ltb, length, if◌then◌else◌}
use infraestructura_y_servic.Base.Joins.{In, In-take}
use infraestructura_y_servic.Platform.Pagination.{Page, paginate}

module _ {A : Type 0} where
  abbrev items_of : Bool → ℕ → List A → List A
  items_of b size rows =
      let page : Page A =
        if b
        then record { items = take size rows; has_next = true }
        else record { items = rows; has_next = false } in
      page.items

  In-items_of :
      (b : Bool) (size : ℕ) (x : A) (rows : List A) → In x (items_of b size rows) → In x rows
  In-items_of true size x rows h = In-take size x rows h
  In-items_of false size x rows h = h

  -- A row of a page is one of the rows that were fetched.
  pub In-paginate : (size : ℕ) (x : A) (rows : List A) → In x (paginate rows size).items → In x rows
  unfolding paginate
  In-paginate size x rows h = In-items_of (ltb size (length rows)) size x rows h
