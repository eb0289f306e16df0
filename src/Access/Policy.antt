-- ===== src/Access/Policy.antt =====
-- backend/internal/authz: permission sets, decisions and policies. A permission code is the number
-- that its text spells; only equality of codes matters.
use infraestructura_y_servic.Base.{
  ℕ, ◌≡◌, ◌≢◌, ◌↔◌, Bool, true, false, ◌&&◌, List, [], ◌∷◌, All, ◌==◌, if◌then◌else◌, refl, arith,
  any_of,
}
use infraestructura_y_servic.Store.{Uuid}

abbrev pub Permission : Type 0
Permission = ℕ

-- "catalog.manage".
abbrev pub perm_catalog_manage : Permission
perm_catalog_manage = 2015679700564413395106757171308389

-- A set by its membership test, `Has`.
abbrev pub PermissionSet : Type 0
PermissionSet = Permission → Bool

abbrev pub new_permission_set : List Permission → PermissionSet
new_permission_set codes p = any_of (λ q. q == p) codes

-- A decision: allowed, denied by a rule, or denied because a policy failed.
pub data Decision : Type 0 where
  allow deny deny_err : Decision

pub record AccessRequest : Type 0 where
  pub subject_id : Uuid
  pub permissions : PermissionSet
  pub resource_owner_id : Uuid
  pub has_resource : Bool

abbrev pub PolicyFunc : Type 0
PolicyFunc = AccessRequest → Decision

abbrev pub is_allowed : Decision → Bool
is_allowed allow = true
is_allowed _ = false

-- The loop of `AllOf`: the first decision that is not an allowance.
abbrev first_denial : List PolicyFunc → PolicyFunc
first_denial [] req = allow
first_denial (p ∷ ps) req = if is_allowed (p req) then first_denial ps req else p req

unfoldable pub all_of : List PolicyFunc → PolicyFunc
all_of [] req = deny
all_of (p ∷ ps) req = first_denial (p ∷ ps) req

unfoldable pub require_permission : Permission → PolicyFunc
require_permission p req = if req.permissions p then allow else deny

unfoldable pub require_self : PolicyFunc
require_self req =
    if req.has_resource && req.subject_id == req.resource_owner_id then allow else deny

first_denial-allows :
    (ps : List PolicyFunc) (req : AccessRequest)
    → (first_denial ps req ≡ allow) ↔ All (λ p. p req ≡ allow) ps
first_denial-allows [] req = (λ _. tt, λ _. refl)
first_denial-allows (p ∷ ps) req = (
  λ h. (ground arith, (first_denial-allows ps req).0 (ground arith)),
  λ (here, rest). let q = (first_denial-allows ps req).1 rest in ground arith,
)

-- A composed policy allows exactly where there is a policy and every one of them allows.
pub all_of-allows :
    (ps : List PolicyFunc) (req : AccessRequest)
    → (all_of ps req ≡ allow) ↔ ((ps ≢ []) × All (λ p. p req ≡ allow) ps)
unfolding all_of
all_of-allows [] req = (λ h. absurd (ground arith), λ (some_policy, _). absurd (some_policy refl))
all_of-allows (p ∷ ps) req = (
  λ h. (λ e. ground arith, (first_denial-allows (p ∷ ps) req).0 h),
  λ (_, each). (first_denial-allows (p ∷ ps) req).1 each,
)
