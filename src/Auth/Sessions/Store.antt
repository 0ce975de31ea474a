-- ===== src/Auth/Sessions/Store.antt =====
-- src/auth/sessionStore.ts: the class `SessionStore`.
pub mod Written
use authenik8_core_beta.Common.{
  ℕ, Bool, false, ◌||◌, Option, none, some, List, [], ◌++◌, ltb, ◌==◌, length,
}
use authenik8_core_beta.Common.Text.{Text, text}
use authenik8_core_beta.Common.Effects.{Result, ok}
use authenik8_core_beta.Common.Effects.Async.{M, ◌>>=◌, ◌>>◌, pure, lift, if_present}
use authenik8_core_beta.Common.Effects.Pure as Pure
use authenik8_core_beta.Auth.{Platform, SessionRedisClient, assert_identifier}
use authenik8_core_beta.Auth.Sessions.{
  SessionMetadata, StoredSession, SessionDefaults, max_token_length, max_session_ttl_seconds,
  parse_session, in_field, sessions_of, find_entry, or_none, validate_metadata, session_value,
  default_metadata, session_token_matches,
}

-- The fields of the class, with `Date.now`.
pub record SessionStore (S : Type 0) : Type 0 where
  pub redis : Option (SessionRedisClient S)
  pub namespace : Text
  pub platform : Platform
  pub now : M S ℕ

module _ {S : Type 0} (store : SessionStore S) where
  unfoldable pub session_key : Text → Result Text
  session_key principal_id =
      Pure.◌>>=◌ (assert_identifier principal_id "principalId")
        λ id. ok (store.namespace ++ text ":" ++ id)

  unfoldable pub session_field : Text → Result Text
  session_field session_id = assert_identifier session_id "sessionId"

  unfoldable pub list : Text → M S (List SessionMetadata)
  list principal_id =
      if_present store.redis
        (λ redis.
          if_present redis.hgetall
            (λ hgetall. lift (session_key principal_id) >>= λ key.
              hgetall key >>= λ sessions. pure (sessions_of store.platform (or_none sessions)))
            (pure []))
        (pure [])

  unfoldable pub get : Text → Text → M S (Option StoredSession)
  get principal_id session_id =
      if_present store.redis
        (λ redis. do
          key ← lift (session_key principal_id)
          field ← lift (session_field session_id)
          if_present redis.hget
              (λ hget. hget key field >>= λ value.
                pure (in_field field (parse_session store.platform value)))
              (if_present redis.hgetall
                (λ hgetall. hgetall key >>= λ sessions. pure (
                  in_field field
                    (parse_session store.platform (find_entry field (or_none sessions)))))
                (pure none)))
        (pure none)

  unfoldable pub upsert_with :
      SessionRedisClient S
      → (Text → Text → Text → M S (Unit {0}))
      → Text
      → Text
      → SessionMetadata
      → ℕ
      → M S (Unit {0})
  upsert_with redis hset principal_id token metadata ttl_seconds = do
    lift (
        Pure.throw_if (length token == 0 || ltb max_token_length (length token))
          "session token is invalid or too large")
    lift (validate_metadata metadata)
    lift (
        Pure.throw_if (ltb ttl_seconds 1 || ltb max_session_ttl_seconds ttl_seconds)
          "session TTL must be between 1 second and 31 days")
    key ← lift (session_key principal_id)
    field ← lift (session_field metadata.session_id)
    hset key field (store.platform.json_stringify (session_value store.platform token metadata))
    if_present redis.expire (λ expire. expire key ttl_seconds) (pure tt)

  unfoldable pub upsert : Text → Text → SessionMetadata → ℕ → M S (Unit {0})
  upsert principal_id token metadata ttl_seconds =
      if_present store.redis
        (λ redis.
          if_present redis.hset
            (λ hset. upsert_with redis hset principal_id token metadata ttl_seconds) (pure tt))
        (pure tt)

  unfoldable pub metadata_or_default :
      Text → Option SessionDefaults → Option StoredSession → M S SessionMetadata
  metadata_or_default session_id defaults (some existing) = pure existing.metadata
  metadata_or_default session_id defaults none =
      store.now >>= λ now. pure (default_metadata session_id defaults now)

  unfoldable pub update_token : Text → Text → Text → ℕ → Option SessionDefaults → M S (Unit {0})
  update_token principal_id session_id token ttl_seconds defaults = do
    existing ← get principal_id session_id
    metadata ← metadata_or_default session_id defaults existing
    upsert principal_id token metadata ttl_seconds

  unfoldable pub matches_session : Text → Option StoredSession → Result Bool
  matches_session token none = ok false
  matches_session token (some session) = session_token_matches store.platform session token

  unfoldable pub token_matches : Text → Text → Text → M S Bool
  token_matches principal_id session_id token = do
    session ← get principal_id session_id
    lift (matches_session token session)

  unfoldable pub revoke : Text → Text → M S (Unit {0})
  revoke principal_id session_id =
      if_present store.redis
        (λ redis.
          if_present redis.hdel
            (λ hdel. do
              key ← lift (session_key principal_id)
              field ← lift (session_field session_id)
              hdel key field)
            (pure tt))
        (pure tt)

  unfoldable pub revoke_all : Text → M S (Unit {0})
  revoke_all principal_id =
      if_present store.redis
        (λ redis.
          if_present redis.del (λ del. lift (session_key principal_id) >>= λ key. del key)
            (pure tt))
        (pure tt)
