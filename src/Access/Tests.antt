-- ===== src/Access/Tests.antt =====
-- A small deployment: login (1) is public, logout (2) is exempt, enrolling (3) wants permission 7.
use infraestructura_y_servic.Base.{
  ℕ, ◌≡◌, ◌⊎◌, refl, true, Option, some, List, [], ◌∷◌, ◌==◌, if◌then◌else◌, any_of,
}
use infraestructura_y_servic.Store.{Uuid}
use infraestructura_y_servic.Driver.{Result, ok, err}
use infraestructura_y_servic.Access.Policy.{
  PermissionSet, PolicyFunc, AccessRequest, require_permission, new_permission_set,
}
use infraestructura_y_servic.Access.Interceptors.{
  Code, Context, Procedure, TouchError, session_not_found, session_interceptor, authz_interceptor,
  with_session, with_roles, by_decision, background, permission_denied, serve, IsAuthorized,
  IsSession, listed, serve-IsAuthorized,
}

abbrev sessions : ℕ → Result TouchError Uuid
sessions s = if s == 500 then ok 1 else err session_not_found

abbrev roles : Uuid → Option PermissionSet
roles user = some (new_permission_set (7 ∷ []))

abbrev table : List (Procedure × PolicyFunc)
table = (3, require_permission 7) ∷ (4, require_permission 8) ∷ []

abbrev whoami : Context → Result Code (Option Uuid)
whoami ctx = ok ctx.user_id

enrolls_with_permission :
    serve sessions roles (1 ∷ []) (1 ∷ 2 ∷ []) table 3 (some 500) whoami ≡ ok (some 1)
unfolding serve session_interceptor authz_interceptor with_session with_roles by_decision any_of
    require_permission
enrolls_with_permission = refl

lacks_permission :
    serve sessions roles (1 ∷ []) (1 ∷ 2 ∷ []) table 4 (some 500) whoami ≡ err permission_denied
unfolding serve session_interceptor authz_interceptor with_session with_roles by_decision any_of
    require_permission
lacks_permission = refl

serve-IsAuthorized_example :
    (ctx : Context) × (whoami ctx ≡ ok (some 1))
    × IsAuthorized (1 ∷ 2 ∷ []) table 3 ctx
    × ((listed (1 ∷ []) 3 ≡ true) × (ctx ≡ background) ⊎ IsSession sessions roles (some 500) ctx)
serve-IsAuthorized_example =
    serve-IsAuthorized sessions roles (1 ∷ []) (1 ∷ 2 ∷ []) table 3 (some 500) whoami
      enrolls_with_permission

abbrev own_row : AccessRequest
own_row = record {
  subject_id = 1;
  permissions = new_permission_set (7 ∷ []);
  resource_owner_id = 1;
  has_resource = true;
}
