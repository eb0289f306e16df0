-- ===== src/Access/Interceptors.antt =====
-- backend/internal/auth/interceptor.go and authzinterceptor.go: the chain from a request to its
-- handler. The session store's `Touch`, the role loader and the cookie reader are parameters.
use infraestructura_y_servic.Base.{
  ℕ, ◌≡◌, ◌⊎◌, inl, inr, Bool, true, false, Option, none, some, List, [], ◌∷◌, ◌==◌, if◌then◌else◌,
  refl, arith, any_of, Option-cases, Bool-cases,
}
use infraestructura_y_servic.Store.{Uuid}
use infraestructura_y_servic.Driver.{Result, ok, err}
use infraestructura_y_servic.Driver.Laws.{Result-cases}
use infraestructura_y_servic.Access.Policy.{
  PermissionSet, Decision, allow, deny, deny_err, AccessRequest, PolicyFunc,
}

-- A procedure is the number that its path spells.
abbrev pub Procedure : Type 0
Procedure = ℕ

pub data Code : Type 0 where
  unauthenticated permission_denied internal : Code

-- What `Touch` fails with.
pub data TouchError : Type 0 where
  session_not_found store_failure : TouchError

-- The values that the context carries.
pub record Context : Type 0 where
  pub user_id : Option Uuid
  pub permissions : Option PermissionSet

abbrev pub background : Context
background = record { user_id = none; permissions = none }

abbrev pub Handler : Type 0 → Type 0
Handler A = Context → Result Code A

abbrev no_permissions : PermissionSet
no_permissions _ = false

abbrev permissions_of : Option PermissionSet → PermissionSet
permissions_of none = no_permissions
permissions_of (some s) = s

-- The zero UUID where no user is in the context.
abbrev subject_of : Option Uuid → Uuid
subject_of none = 0
subject_of (some id) = id

abbrev pub access_request : Context → AccessRequest
access_request ctx = record {
  subject_id = subject_of ctx.user_id;
  permissions = permissions_of ctx.permissions;
  resource_owner_id = 0;
  has_resource = false;
}

abbrev pub lookup : List (Procedure × PolicyFunc) → Procedure → Option PolicyFunc
lookup [] proc = none
lookup ((name, policy) ∷ rest) proc = if name == proc then some policy else lookup rest proc

abbrev pub listed : List Procedure → Procedure → Bool
listed names proc = any_of (λ n. n == proc) names

-- A context that a live session of the request has filled.
abbrev pub IsSession :
    (ℕ → Result TouchError Uuid) → (Uuid → Option PermissionSet) → Option ℕ → Context → Type 0
IsSession touch load sid ctx =
    (s : ℕ) × (user : Uuid) × (perms : PermissionSet) × (sid ≡ some s)
    × (touch s ≡ ok user)
    × (load user ≡ some perms)
    × (ctx ≡ record { user_id = some user; permissions = some perms })

-- Authorized: exempt, or under a policy of its own that allows it.
abbrev pub IsAuthorized :
    List Procedure → List (Procedure × PolicyFunc) → Procedure → Context → Type 0
IsAuthorized exempt policies proc ctx =
    (listed exempt proc ≡ true)
    ⊎ ((pf : PolicyFunc) × (lookup policies proc ≡ some pf) × (pf (access_request ctx) ≡ allow))

module _ {A : Type 0} where
  unfoldable pub by_decision : Decision → Result Code A → Result Code A
  by_decision allow reply = reply
  by_decision deny reply = err permission_denied
  by_decision deny_err reply = err internal

  unfoldable pub authz_interceptor :
      List Procedure → List (Procedure × PolicyFunc) → Procedure → Handler A → Handler A
  unfolding by_decision
  authz_interceptor exempt policies proc next ctx =
      if listed exempt proc then next ctx else (elim (lookup policies proc) [
        | none ↦ err permission_denied
        | some pf ↦ by_decision (pf (access_request ctx)) (next ctx)
      ])

  authz_interceptor-ok :
      (exempt : List Procedure) (policies : List (Procedure × PolicyFunc)) (proc : Procedure)
      (next : Handler A) (ctx : Context) {a : A}
      → authz_interceptor exempt policies proc next ctx ≡ ok a
      → (next ctx ≡ ok a) × IsAuthorized exempt policies proc ctx
  unfolding authz_interceptor by_decision
  authz_interceptor-ok exempt policies proc next ctx h = elim (Bool-cases (listed exempt proc)) [
    | inl free ↦ (ground arith, inl free)
    | inr bound ↦ elim (Option-cases (lookup policies proc)) [
      | inl missing ↦ absurd (ground arith)
      | inr (pf, found) ↦ (ground arith, inr (pf, found, ground arith))
    ]
  ]

module _ (touch : ℕ → Result TouchError Uuid) (load : Uuid → Option PermissionSet)
    {A : Type 0} where
  unfoldable pub with_roles : Handler A → Uuid → Result Code A
  with_roles next user = elim (load user) [
    | none ↦ err internal
    | some perms ↦ next (record { user_id = some user; permissions = some perms })
  ]

  unfoldable pub with_session : Handler A → Result TouchError Uuid → Result Code A
  unfolding with_roles
  with_session next (ok user) = with_roles next user
  with_session next (err session_not_found) = err unauthenticated
  with_session next (err store_failure) = err internal

  -- `sid` is what `parseSID` reads from the cookie header, if anything.
  unfoldable pub session_interceptor : List Procedure → Procedure → Option ℕ → Handler A → Handler A
  unfolding with_session
  session_interceptor public proc sid next ctx =
      if listed public proc
      then next ctx
      else (elim sid [ none ↦ err unauthenticated | some s ↦ with_session next (touch s) ])

  -- The chain of cmd/api/main.go: the session first, then the authorization.
  unfoldable pub serve :
      (public exempt : List Procedure)
      → List (Procedure × PolicyFunc)
      → Procedure
      → Option ℕ
      → Handler A
      → Result Code A
  unfolding session_interceptor authz_interceptor
  serve public exempt policies proc sid next =
      session_interceptor public proc sid (authz_interceptor exempt policies proc next) background

  -- A request reaches its handler only if its procedure is public or it carries a live session whose
  -- user's permissions were loaded, and only if the procedure is exempt or its policy allows it.
  pub serve-IsAuthorized :
      (public exempt : List Procedure) (policies : List (Procedure × PolicyFunc)) (proc : Procedure)
      (sid : Option ℕ) (next : Handler A) {a : A}
      → serve public exempt policies proc sid next ≡ ok a
      → (ctx : Context) × (next ctx ≡ ok a)
        × IsAuthorized exempt policies proc ctx
        × ((listed public proc ≡ true) × (ctx ≡ background) ⊎ IsSession touch load sid ctx)
  unfolding serve session_interceptor with_session with_roles
  serve-IsAuthorized public exempt policies proc sid next {a} h =
      elim (Bool-cases (listed public proc)) [
        | inl free ↦
            let o =
              authz_interceptor-ok exempt policies proc next background {a = a} (ground arith) in
            (background, o.0, o.1, inl (free, refl))
        | inr bound ↦ elim (Option-cases sid) [
          | inl missing ↦ absurd (ground arith)
          | inr (s, present) ↦ elim (Result-cases (touch s)) [
            | inr (e, failed) ↦ absurd (ground arith)
            | inl (user, live) ↦ elim (Option-cases (load user)) [
              | inl failed ↦ absurd (ground arith)
              | inr (perms, loaded) ↦
                  let ctx : Context = record { user_id = some user; permissions = some perms } in
                  let o =
                    authz_interceptor-ok exempt policies proc next ctx {a = a} (ground arith) in
                  (ctx, o.0, o.1, inr (s, user, perms, present, live, loaded, refl))
            ]
          ]
        ]
      ]
