-- ===== src/Auth/Resets.antt =====
-- backend/internal/auth/service.go: a password-reset token over any sequence of requests.
use infraestructura_y_servic.Base.{
  ℕ, ◌≡◌, ◌≢◌, sym, subst, ◌⊎◌, inl, inr, Bool, Option, none, some, List, [], ◌∷◌, arith,
  Bool-cases, Option-cases, All,
}
use infraestructura_y_servic.Platform.Pgconv.{Text}
use infraestructura_y_servic.Platform.Texts.{is_blank}
use infraestructura_y_servic.Driver.{ok}
use infraestructura_y_servic.Driver.Laws.{Result-cases}
use infraestructura_y_servic.Auth.Store.{
  Redis, Codec, Session, session_key, reset_key, create, delete, set_reset, get_del_reset,
}
use infraestructura_y_servic.Auth.Service.{
  Setting, Accounts, get_user_by_email, login, logout, request_password_reset,
  confirm_password_reset,
}

pub data Operation : Type 0 where
  logging_in : (email password : Text) (minted : Option Text) → Operation
  logging_out : (sid : Text) → Operation
  requesting : (email : Text) (minted : Option Text) → Operation
  confirming : (token password : Text) → Operation

-- The request does not mint this reset token.
abbrev pub IsOther : Text → Operation → Type 0
IsOther t (requesting _ minted) = minted ≢ some t
IsOther t _ = Unit

module _ (r : Redis) (x : Codec) (c : Setting) where
  -- One request, with whether the users table answers it.
  unfoldable pub perform : Bool × Operation → Accounts r → Accounts r
  perform (down, logging_in email password minted) w = (login r x c down email password minted w).1
  perform (down, logging_out sid) w = (logout r x c down sid w).1
  perform (down, requesting email minted) w = (request_password_reset r x c down email minted w).1
  perform (down, confirming token password) w =
      (confirm_password_reset r x c down token password w).1

  unfoldable pub run : List (Bool × Operation) → Accounts r → Accounts r
  run [] w = w
  run (op ∷ ops) w = run ops (perform op w)

  -- The token is not in the store.
  abbrev IsSpent : Text → Accounts r → Type 0
  IsSpent t w = r.value w.keys (reset_key t) ≡ none

  module _ (t : Text) where
    create-IsSpent :
        (sid : Text) (session : Session) (ttl : ℕ) (s : r.Keyspace)
        → r.value s (reset_key t) ≡ none
        → r.value (create r x sid session ttl s).1 (reset_key t) ≡ none
    unfolding create
    create-IsSpent sid session ttl s h = elim (Option-cases (x.marshal session)) [
      | inl n ↦ ground (arith, n)
      | inr (v, e) ↦
          let apart : reset_key t ≢ session_key sid = λ q. absurd (ground (arith, q)) in
          ground (arith, e, r.set-other (session_key sid) v ttl s (reset_key t) apart h)
    ]

    login-IsSpent :
        (down : Bool) (email password : Text) (minted : Option Text) (w : Accounts r)
        → IsSpent t w
        → IsSpent t (login r x c down email password minted w).1
    unfolding login
    login-IsSpent down email password minted w h =
        elim (Result-cases (get_user_by_email r x c down email w.users)) [
          | inl (user, q) ↦ elim (Option-cases minted) [
            | inl m ↦ ground (arith, q, m)
            | inr (sid, m) ↦
                let kept =
                  create-IsSpent sid (record { user_id = user.id; issued_at = c.now }) c.session_ttl
                    w.keys h in
                ground (arith, q, m, kept)
          ]
          | inr (e, q) ↦ ground (arith, q)
        ]

    logout-IsSpent :
        (down : Bool) (sid : Text) (w : Accounts r)
        → IsSpent t w
        → IsSpent t (logout r x c down sid w).1
    unfolding logout delete
    logout-IsSpent down sid w h = r.del-absent (session_key sid) w.keys (reset_key t) h

    request-IsSpent :
        (down : Bool) (email : Text) (minted : Option Text) (w : Accounts r)
        → minted ≢ some t
        → IsSpent t w
        → IsSpent t (request_password_reset r x c down email minted w).1
    unfolding request_password_reset set_reset
    request-IsSpent down email minted w n h =
        elim (Result-cases (get_user_by_email r x c down email w.users)) [
          | inl (user, q) ↦ elim (Option-cases minted) [
            | inl m ↦ ground (arith, q, m)
            | inr (token, m) ↦
                let apart : reset_key t ≢ reset_key token = λ p. n (ground (arith, p, m)) in
                let kept =
                  r.set-other (reset_key token) (x.print user.id) c.reset_token_ttl w.keys
                    (reset_key t) apart h in
                ground (arith, q, m, kept)
          ]
          | inr (e, q) ↦ ground (arith, q)
        ]

    -- The keyspace that a confirmation leaves.
    confirm-keys :
        (down : Bool) (token password : Text) (w : Accounts r)
        → ((confirm_password_reset r x c down token password w).1.keys ≡ w.keys)
          ⊎ ((confirm_password_reset r x c down token password w).1.keys
              ≡ (get_del_reset r x token w.keys).1)
    unfolding confirm_password_reset
    confirm-keys down token password w = elim (Bool-cases (is_blank token)) [
      | inl b ↦ inl (ground (arith, b))
      | inr b ↦ elim (Bool-cases (is_blank password)) [
        | inl b' ↦ inl (ground (arith, b, b'))
        | inr b' ↦ inr (ground (arith, b, b'))
      ]
    ]

    confirm-IsSpent :
        (down : Bool) (token password : Text) (w : Accounts r)
        → IsSpent t w
        → IsSpent t (confirm_password_reset r x c down token password w).1
    unfolding get_del_reset
    confirm-IsSpent down token password w h =
        let kept = r.get_del-absent (reset_key token) w.keys (reset_key t) h in
        elim (confirm-keys down token password w) [
          | inl q ↦ subst (λ s. r.value s (reset_key t) ≡ none) (sym q) h
          | inr q ↦ subst (λ s. r.value s (reset_key t) ≡ none) (sym q) kept
        ]

    -- A confirmation that succeeds takes the token out of the store.
    confirm-takes :
        (down : Bool) (password : Text) (w : Accounts r) {w' : Accounts r}
        → confirm_password_reset r x c down t password w ≡ (ok tt, w')
        → IsSpent t w'
    unfolding confirm_password_reset get_del_reset
    confirm-takes down password w h = elim (Result-cases (r.get_del (reset_key t) w.keys).0) [
      | inl (v, q) ↦
          let gone = r.get_del-taken (reset_key t) v w.keys q in ground (arith, gone, q, h)
      | inr (e, q) ↦ absurd (ground (arith, q, h))
    ]

    -- Without the token in the store, a confirmation fails, and changes no user.
    confirm-spent :
        (down : Bool) (password : Text) (w : Accounts r)
        → IsSpent t w
        → ((confirm_password_reset r x c down t password w).0 ≢ ok tt)
          × ((confirm_password_reset r x c down t password w).1.users ≡ w.users)
    unfolding confirm_password_reset get_del_reset
    confirm-spent down password w h = elim (Result-cases (r.get_del (reset_key t) w.keys).0) [
      | inl (v, q) ↦ absurd (r.get_del-held (reset_key t) v w.keys q h)
      | inr (e, q) ↦ (λ p. ground (arith, q, p), ground (arith, q))
    ]

    run-IsSpent :
        (ops : List (Bool × Operation)) (w : Accounts r)
        → All (λ op. IsOther t op.1) ops
        → IsSpent t w
        → IsSpent t (run ops w)
    unfolding run perform
    run-IsSpent [] w a h = h
    run-IsSpent ((down, logging_in email password minted) ∷ ops) w a h =
        run-IsSpent ops _ a.1 (login-IsSpent down email password minted w h)
    run-IsSpent ((down, logging_out sid) ∷ ops) w a h =
        run-IsSpent ops _ a.1 (logout-IsSpent down sid w h)
    run-IsSpent ((down, requesting email minted) ∷ ops) w a h =
        run-IsSpent ops _ a.1 (request-IsSpent down email minted w a.0 h)
    run-IsSpent ((down, confirming token password) ∷ ops) w a h =
        run-IsSpent ops _ a.1 (confirm-IsSpent down token password w h)

  -- A password-reset token serves once: after a confirmation that succeeds, and any requests that do
  -- not mint the same token again, whichever of them fail, a confirmation with the token fails and
  -- changes no user.
  pub confirm_password_reset-once :
      (t first second : Text) (down late : Bool) (ops : List (Bool × Operation)) (w : Accounts r)
      {w' : Accounts r}
      → confirm_password_reset r x c down t first w ≡ (ok tt, w')
      → All (λ op. IsOther t op.1) ops
      → ((confirm_password_reset r x c late t second (run ops w')).0 ≢ ok tt)
        × ((confirm_password_reset r x c late t second (run ops w')).1.users ≡ (run ops w').users)
  confirm_password_reset-once t first second down late ops w {w'} h a =
      confirm-spent t late second (run ops w')
        (run-IsSpent t ops w' a (confirm-takes t down first w h))
