-- ===== src/Platform/Pagination.antt =====
-- backend/internal/platform/pagination: page sizes, pages and page tokens. A token is the UUID whose
-- text it is, and no token is the empty text.
pub mod Walk
pub mod Members
mod Tests
use infraestructura_y_servic.Base.{
  ℕ, zero, suc, ◌+◌, ◌≡◌, ◌≤◌, Bool, true, false, Option, none, some, List, [], ◌∷◌, ◌++◌, length,
  take, ltb, if◌then◌else◌, select, arith, Bool-cases, inl, inr,
}
use infraestructura_y_servic.Base.Int.{ℤ, ◌≤ℤ◌, ltb_ℤ}
use infraestructura_y_servic.Store.{Uuid}

pub record Clamp : Type 0 where
  pub min : ℤ
  pub max : ℤ

unfoldable pub apply : Clamp → ℤ → ℤ
apply c n = if ltb_ℤ n c.min then c.min else if ltb_ℤ c.max n then c.max else n

pub record Page {ℓ} (A : Type ℓ) : Type ℓ where
  pub items : List A
  pub has_next : Bool

module _ {ℓ} {A : Type ℓ} where
  unfoldable pub paginate : List A → ℕ → Page A
  paginate rows size =
      if ltb size (length rows)
      then record { items = take size rows; has_next = true }
      else record { items = rows; has_next = false }

  abbrev pub last : List A → Option A
  last [] = none
  last (x ∷ []) = some x
  last (x ∷ y ∷ xs) = last (y ∷ xs)

  abbrev token_of_last : (A → Uuid) → Option A → Option Uuid
  token_of_last id none = none
  token_of_last id (some x) = some (id x)

  unfoldable pub token_of : Page A → (A → Uuid) → Option Uuid
  token_of p id = if p.has_next then token_of_last id (last p.items) else none

-- A size between the bounds, whatever the caller asked for, and the caller's own within them.
pub apply-bounds :
    (c : Clamp) (n : ℤ)
    → c.min ≤ℤ c.max
    → (c.min ≤ℤ apply c n) × (apply c n ≤ℤ c.max) × (c.min ≤ℤ n → n ≤ℤ c.max → apply c n ≡ n)
unfolding apply
apply-bounds c n h = elim (Bool-cases (ltb_ℤ n c.min)) [
  | inl low ↦ (ground arith, ground arith, λ a b. ground arith)
  | inr fits ↦ elim (Bool-cases (ltb_ℤ c.max n)) [
    | inl high ↦ (ground arith, ground arith, λ a b. ground arith)
    | inr within ↦ (ground arith, ground arith, λ a b. ground arith)
  ]
]
