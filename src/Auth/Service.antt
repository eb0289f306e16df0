-- ===== src/Auth/Service.antt =====
-- backend/internal/auth/service.go and repository.go: login, logout and the password reset.
-- bcrypt's two functions and the random identifiers are parameters, and which calls of PostgreSQL
-- fail. The constant-time comparison for an unknown user has no effect on the result.
use infraestructura_y_servic.Base.{
  ℕ, Bool, ◌&&◌, Option, none, some, List, ◌==◌, if◌then◌else◌, find_first, update_where,
}
use infraestructura_y_servic.Platform.Pgconv.{Text}
use infraestructura_y_servic.Platform.Texts.{same_text, is_blank}
use infraestructura_y_servic.Store.{Uuid, Time, is_null}
use infraestructura_y_servic.Driver.{Result, ok, err}
use infraestructura_y_servic.Auth.Store.{
  Redis, Codec, StoreError, not_found, store_failure, create, delete, set_reset, get_del_reset,
}

pub data Error : Type 0 where
  user_not_found invalid_credentials invalid_input invalid_token internal : Error

-- A row of users.
pub record User : Type 0 where
  pub id : Uuid
  pub email : Text
  pub password_hash : Text
  pub deleted_at : Option Time

-- The surroundings of the service: its configuration, bcrypt, and the clock.
pub record Setting : Type 0 where
  pub session_ttl : ℕ
  pub reset_token_ttl : ℕ
  pub is_production : Bool
  pub generate_hash : Text → Option Text
  pub compare_hash : Text → Text → Bool
  pub now : Time

module _ (r : Redis) where
  -- The users table and the keyspace.
  pub record Accounts : Type 0 where
    pub users : List User
    pub keys : r.Keyspace

module _ (r : Redis) (x : Codec) (c : Setting) (down : Bool) where
  -- SELECT … WHERE email = $1 AND deleted_at IS NULL.
  abbrev pub get_user_by_email : Text → List User → Result Error User
  get_user_by_email email users =
      if down
      then err internal
      else (elim (find_first (λ u. same_text u.email email && is_null u.deleted_at) users) [
        | none ↦ err user_not_found
        | some u ↦ ok u
      ])

  -- UPDATE users SET password_hash = $2 WHERE id = $1.
  abbrev pub update_password_hash : Uuid → Text → List User → Option (List User)
  update_password_hash id hash users =
      if down
      then none
      else some (update_where (λ u. u.id == id) (λ u. record u { password_hash = hash }) users)

  abbrev stored : {A : Type 0} → A → Result StoreError (Unit {0}) → Result Error A
  stored a (ok _) = ok a
  stored a (err _) = err internal

  -- A session for the user, under a minted identifier.
  abbrev login_as : User → Option Text → Accounts r → Result Error Text × Accounts r
  login_as user none w = (err internal, w)
  login_as user (some sid) w =
      let (e, keys) =
        create r x sid (record { user_id = user.id; issued_at = c.now }) c.session_ttl w.keys in
      (stored sid e, record w { keys = keys })

  unfoldable pub login : Text → Text → Option Text → Accounts r → Result Error Text × Accounts r
  login email password minted w =
      if is_blank email
      then (err invalid_input, w)
      else if is_blank password
      then (err invalid_input, w)
      else (elim (get_user_by_email email w.users) [
        | err user_not_found ↦ (err invalid_credentials, w)
        | err _ ↦ (err internal, w)
        | ok user ↦
            if c.compare_hash user.password_hash password
            then login_as user minted w
            else (err invalid_credentials, w)
      ])

  unfoldable pub logout : Text → Accounts r → Result Error (Unit {0}) × Accounts r
  logout sid w = let (e, keys) = delete r x sid w.keys in (stored tt e, record w { keys = keys })

  -- The token that a development build returns.
  abbrev dev_token : Text → Option Text
  dev_token token = if c.is_production then none else some token

  abbrev request_for : User → Option Text → Accounts r → Result Error (Option Text) × Accounts r
  request_for user none w = (err internal, w)
  request_for user (some token) w =
      let (e, keys) = set_reset r x token user.id c.reset_token_ttl w.keys in
      (stored (dev_token token) e, record w { keys = keys })

  unfoldable pub request_password_reset :
      Text → Option Text → Accounts r → Result Error (Option Text) × Accounts r
  request_password_reset email minted w =
      if is_blank email then (err invalid_input, w) else (elim (get_user_by_email email w.users) [
        | err user_not_found ↦ (ok none, w)
        | err _ ↦ (err internal, w)
        | ok user ↦ request_for user minted w
      ])

  -- From the consumed token on: the hash, and the update.
  abbrev reset_of :
      Text → Result StoreError Uuid → Accounts r → Result Error (Unit {0}) × Accounts r
  reset_of password (err not_found) w = (err invalid_token, w)
  reset_of password (err store_failure) w = (err internal, w)
  reset_of password (ok user) w = elim (c.generate_hash password) [
    | none ↦ (err internal, w)
    | some hash ↦ elim (update_password_hash user hash w.users) [
      | none ↦ (err internal, w)
      | some users ↦ (ok tt, record w { users = users })
    ]
  ]

  unfoldable pub confirm_password_reset :
      Text → Text → Accounts r → Result Error (Unit {0}) × Accounts r
  confirm_password_reset token password w =
      if is_blank token
      then (err invalid_input, w)
      else if is_blank password
      then (err invalid_input, w)
      else let (user, keys) = get_del_reset r x token w.keys in
        reset_of password user (record w { keys = keys })
