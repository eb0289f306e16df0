-- ===== src/Auth/Store.antt =====
-- backend/internal/auth/session/store.go: sessions and password-reset tokens in Redis. The client's
-- commands are an interface, with what their documentation says of a key that is absent.
use infraestructura_y_servic.Base.{ℕ, ◌≡◌, ◌≢◌, Option, none, some, ◌∷◌}
use infraestructura_y_servic.Platform.Pgconv.{Text}
use infraestructura_y_servic.Store.{Uuid, Time}
use infraestructura_y_servic.Driver.{Result, ok, err}

-- `redis.Nil`, or a failure of the client.
pub data RedisError : Type 0 where
  nil failure : RedisError

-- SET with a time to live, GETEX, GETDEL and DEL on a keyspace, and the value of a key. A key may
-- expire before any command: an absent key only comes back by SET.
pub record Redis : Type 1 where
  pub Keyspace : Type 0
  pub value : Keyspace → Text → Option Text
  pub set : Text → Text → ℕ → Keyspace → Result RedisError (Unit {0}) × Keyspace
  pub get_ex : Text → ℕ → Keyspace → Result RedisError Text × Keyspace
  pub get_del : Text → Keyspace → Result RedisError Text × Keyspace
  pub del : Text → Keyspace → Result RedisError (Unit {0}) × Keyspace
  pub set-other :
      (k v : Text) (ttl : ℕ) (s : Keyspace) (x : Text)
      → x ≢ k
      → value s x ≡ none
      → value (set k v ttl s).1 x ≡ none
  pub get_ex-absent :
      (k : Text) (ttl : ℕ) (s : Keyspace) (x : Text)
      → value s x ≡ none
      → value (get_ex k ttl s).1 x ≡ none
  pub get_del-absent :
      (k : Text) (s : Keyspace) (x : Text) → value s x ≡ none → value (get_del k s).1 x ≡ none
  pub del-absent :
      (k : Text) (s : Keyspace) (x : Text) → value s x ≡ none → value (del k s).1 x ≡ none
  pub get_del-taken :
      (k v : Text) (s : Keyspace) → (get_del k s).0 ≡ ok v → value (get_del k s).1 k ≡ none
  pub get_del-held : (k v : Text) (s : Keyspace) → (get_del k s).0 ≡ ok v → value s k ≢ none

pub record Session : Type 0 where
  pub user_id : Uuid
  pub issued_at : Time

-- "session:" and "reset:".
abbrev pub session_key : Text → Text
session_key sid = 115 ∷ 101 ∷ 115 ∷ 115 ∷ 105 ∷ 111 ∷ 110 ∷ 58 ∷ sid

abbrev pub reset_key : Text → Text
reset_key token = 114 ∷ 101 ∷ 115 ∷ 101 ∷ 116 ∷ 58 ∷ token

-- ErrNotFound, or any other error.
pub data StoreError : Type 0 where
  not_found store_failure : StoreError

abbrev failed : {A B : Type 0} → Result RedisError A → B → Result StoreError B
failed (ok _) b = ok b
failed (err _) b = err store_failure

abbrev pub found : {B : Type 0} → (Text → Option B) → Result RedisError Text → Result StoreError B
found read (err nil) = err not_found
found read (err failure) = err store_failure
found read (ok v) = elim (read v) [ none ↦ err store_failure | some b ↦ ok b ]

-- json.Marshal, json.Unmarshal, UUID.String and uuid.Parse.
pub record Codec : Type 0 where
  pub marshal : Session → Option Text
  pub unmarshal : Text → Option Session
  pub print : Uuid → Text
  pub parse : Text → Option Uuid

module _ (r : Redis) (x : Codec) where
  unfoldable pub create :
      Text → Session → ℕ → r.Keyspace → Result StoreError (Unit {0}) × r.Keyspace
  create sid session ttl s = elim (x.marshal session) [
    | none ↦ (err store_failure, s)
    | some data_text ↦ let (e, s') = r.set (session_key sid) data_text ttl s in (failed e tt, s')
  ]

  unfoldable pub touch : Text → ℕ → r.Keyspace → Result StoreError Session × r.Keyspace
  touch sid ttl s = let (v, s') = r.get_ex (session_key sid) ttl s in (found x.unmarshal v, s')

  unfoldable pub delete : Text → r.Keyspace → Result StoreError (Unit {0}) × r.Keyspace
  delete sid s = let (e, s') = r.del (session_key sid) s in (failed e tt, s')

  unfoldable pub set_reset :
      Text → Uuid → ℕ → r.Keyspace → Result StoreError (Unit {0}) × r.Keyspace
  set_reset token user ttl s =
      let (e, s') = r.set (reset_key token) (x.print user) ttl s in (failed e tt, s')

  unfoldable pub get_del_reset : Text → r.Keyspace → Result StoreError Uuid × r.Keyspace
  get_del_reset token s = let (v, s') = r.get_del (reset_key token) s in (found x.parse v, s')
