-- ===== src/Reports/Cache.antt =====
-- backend/internal/reports/cache.go: what an entry of the cache is after a report is stored.
use infraestructura_y_servic.Base.{
  ◌≡◌, ◌⊎◌, inl, inr, true, Option, some, List, arith, Bool-cases, Option-cases,
}
use infraestructura_y_servic.Platform.Pgconv.{Text}
use infraestructura_y_servic.Reports.Service.{Key, same_key, CacheFaults, entry_at, cache_set}

-- It was there before, or it is what was stored, where the key is the one that it was stored at.
pub entry_at-cache_set :
    {A : Type 0} (marshal : A → Option Text) (cf : CacheFaults) (key k : Key) (r : A)
    (entries : List (Key × Text)) {bytes : Text}
    → entry_at k (cache_set marshal cf key r entries) ≡ some bytes
    → (entry_at k entries ≡ some bytes) ⊎ ((same_key k key ≡ true) × (marshal r ≡ some bytes))
unfolding cache_set entry_at
entry_at-cache_set marshal cf key k r entries {bytes} e = elim (Option-cases (marshal r)) [
  | inl n ↦ inl (ground (arith, n, e))
  | inr (stored, m) ↦ elim (Bool-cases cf.set_fails) [
    | inl f ↦ inl (ground (arith, m, f, e))
    | inr f ↦ elim (Bool-cases (same_key k key)) [
      | inr other ↦ inl (ground (arith, m, f, other, e))
      | inl here ↦ inr (here, ground (arith, m, f, here, e))
    ]
  ]
]
