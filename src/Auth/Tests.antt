-- ===== src/Auth/Tests.antt =====
-- A keyspace that is a function, and a password reset on it.
use infraestructura_y_servic.Base.{
  ◌≡◌, ◌≢◌, refl, Bool, true, false, Option, none, some, List, [], ◌∷◌, if◌then◌else◌, arith,
  Bool-cases, inl, inr, find_first, update_where, All,
}
use infraestructura_y_servic.Platform.Pgconv.{Text}
use infraestructura_y_servic.Platform.Texts.{same_text, same_text_eq, same_text_refl}
use infraestructura_y_servic.Store.{Uuid}
use infraestructura_y_servic.Driver.{Result, ok, err}
use infraestructura_y_servic.Auth.Store.{
  RedisError, nil, Redis, Codec, reset_key, create, get_del_reset,
}
use infraestructura_y_servic.Auth.Service.{User, Setting, Accounts, login, confirm_password_reset}
use infraestructura_y_servic.Auth.Resets.{
  Operation, logging_in, logging_out, requesting, confirming, IsOther, run,
  confirm_password_reset-once,
}

abbrev Memory : Type 0
Memory = Text → Option Text

abbrev without : Text → Memory → Memory
without k s x = if same_text x k then none else s x

abbrev put : Text → Text → Memory → Memory
put k v s x = if same_text x k then some v else s x

abbrev answer : Option Text → Result RedisError Text
answer none = err nil
answer (some v) = ok v

without-none : (k : Text) (s : Memory) (x : Text) → s x ≡ none → without k s x ≡ none
without-none k s x h = ground (arith, h)

put-none : (k v : Text) (s : Memory) (x : Text) → x ≢ k → s x ≡ none → put k v s x ≡ none
put-none k v s x n h = elim (Bool-cases (same_text x k)) [
  | inl e ↦ absurd (n (same_text_eq x k e))
  | inr e ↦ ground (arith, e, h)
]

without-same : (k : Text) (s : Memory) → without k s k ≡ none
without-same k s = ground (arith, same_text_refl k)

held : (k v : Text) (s : Memory) → answer (s k) ≡ ok v → s k ≢ none
held k v s h q = absurd (ground (arith, h, q))

-- A keyspace whose keys never expire.
abbrev memory : Redis
memory = record {
  Keyspace = Memory;
  value = λ s k. s k;
  set = λ k v ttl s. (ok tt, put k v s);
  get_ex = λ k ttl s. (answer (s k), s);
  get_del = λ k s. (answer (s k), without k s);
  del = λ k s. (ok tt, without k s);
  set-other = λ k v ttl s x n h. put-none k v s x n h;
  get_ex-absent = λ k ttl s x h. h;
  get_del-absent = λ k s x h. without-none k s x h;
  del-absent = λ k s x h. without-none k s x h;
  get_del-taken = λ k v s h. without-same k s;
  get_del-held = held;
}

abbrev read_id : Text → Option Uuid
read_id [] = none
read_id (id ∷ _) = some id

abbrev codec : Codec
codec = record {
  marshal = λ s. some (s.user_id ∷ s.issued_at ∷ []);
  unmarshal = λ t. none;
  print = λ id. id ∷ [];
  parse = read_id;
}

abbrev setting : Setting
setting = record {
  session_ttl = 100;
  reset_token_ttl = 10;
  is_production = true;
  generate_hash = λ p. some (9 ∷ p);
  compare_hash = λ h p. same_text h (9 ∷ p);
  now = 15;
}

abbrev with_hash : Text → User
with_hash h = record { id = 1; email = 97 ∷ []; password_hash = h; deleted_at = none }

-- User 1 has asked for a reset, under the token 5.
abbrev before : Accounts memory
before = record {
  users = with_hash (9 ∷ 1 ∷ []) ∷ [];
  keys = put (reset_key (5 ∷ [])) (1 ∷ []) (λ k. none);
}

abbrev after : Accounts memory
after = record {
  users = with_hash (9 ∷ 2 ∷ []) ∷ [];
  keys = without (reset_key (5 ∷ [])) before.keys;
}

confirms :
    confirm_password_reset memory codec setting false (5 ∷ []) (2 ∷ []) before ≡ (ok tt, after)
unfolding confirm_password_reset get_del_reset update_where
confirms = refl

abbrev requests : List (Bool × Operation)
requests =
    (false, logging_in (97 ∷ []) (2 ∷ []) (some (7 ∷ [])))
    ∷ (false, requesting (97 ∷ []) (some (6 ∷ [])))
    ∷ (true, confirming (6 ∷ []) (3 ∷ []))
    ∷ (false, logging_out (7 ∷ []))
    ∷ []

new_password :
    (login memory codec setting false (97 ∷ []) (2 ∷ []) (some (7 ∷ [])) after).0 ≡ ok (7 ∷ [])
unfolding login create find_first
new_password = refl

others : All (λ (op : Bool × Operation). IsOther (5 ∷ []) op.1) requests
others = (tt, ((λ q. absurd (ground (arith, q))), (tt, (tt, tt))))

confirm_password_reset-once_example :
    ((confirm_password_reset memory codec setting false
        (5 ∷ [])
        (4 ∷ [])
        (run memory codec setting requests after)).0
      ≢ ok tt)
    × ((confirm_password_reset memory codec setting false
          (5 ∷ [])
          (4 ∷ [])
          (run memory codec setting requests after)).1.users
        ≡ (run memory codec setting requests after).users)
confirm_password_reset-once_example =
    confirm_password_reset-once memory codec setting (5 ∷ []) (2 ∷ []) (4 ∷ []) false false requests
      before confirms others
