-- ===== src/Auth.antt =====
-- src/auth/ and src/utility/lockHelper.ts: what the token services share, the Redis client that they
-- are given, token fingerprints and the lock.
pub mod Jwt
pub mod Jwk
pub mod Bearer
pub mod Sessions
pub mod Refresh
mod Tests
use authenik8_core_beta.Common.{
  ℕ, Bool, Option, none, some, List, ◌∷◌, ◌&&◌, ◌==◌, length, if◌then◌else◌, String, true, false,
}
use authenik8_core_beta.Common.Text.{Text, eqb}
use authenik8_core_beta.Common.Value.{Value, string, is_unsafe, is_unsafe_value}
use authenik8_core_beta.Common.Effects.{Result, ok, err, unsafe_text}
use authenik8_core_beta.Common.Effects.Async.{M, ◌>>=◌, ◌>>◌, pure, branch}

-- `createHash("sha256")…digest("base64url")`, `Buffer.from(value)`, which throws on some values, and
-- JSON (`none` where `JSON.parse` throws).
pub record Platform : Type 0 where
  pub sha256 : Text → Text
  pub buffer_from : Value → Result (List ℕ)
  pub json_parse : Text → Option Value
  pub json_stringify : Value → Text

-- The hash commands of the client, each of which the code looks for before it calls it.
pub record SessionRedisClient (S : Type 0) : Type 0 where
  pub hget : Option (Text → Text → M S (Option Text))
  pub hgetall : Option (Text → M S (Option (List (Text × Text))))
  pub hset : Option (Text → Text → Text → M S (Unit {0}))
  pub hdel : Option (Text → Text → M S (Unit {0}))
  pub del : Option (Text → M S (Unit {0}))
  pub expire : Option (Text → ℕ → M S (Unit {0}))

-- The commands of the lock: `SET key value PX ttl NX`, with whether it answered `OK`, and the two
-- calls of its script, which Redis runs as one step.
pub record LockRedisClient (S : Type 0) : Type 0 where
  pub set_px_nx : Text → Text → ℕ → M S Bool
  pub script_get : Text → M S (Option Text)
  pub script_del : Text → M S (Unit {0})

unfoldable pub token_fingerprint : Platform → Text → Text
token_fingerprint platform token = platform.sha256 token

-- `timingSafeEqual` on buffers of one length is equality of their bytes.
unfoldable pub token_fingerprint_matches : Platform → Value → Text → Result Bool
unfolding token_fingerprint
token_fingerprint_matches platform expected_fingerprint token =
    elim (platform.buffer_from expected_fingerprint) [
      | err e ↦ err e
      | ok expected ↦ elim (platform.buffer_from (string (token_fingerprint platform token))) [
        | err e ↦ err e
        | ok actual ↦ ok (length expected == length actual && eqb expected actual)
      ]
    ]

abbrev pub max_identifier_length : ℕ
max_identifier_length = 256

-- `assertIdentifier`, and `validateRefreshIdentifier` on a string.
unfoldable pub assert_identifier : Text → String → Result Text
unfolding is_unsafe
assert_identifier value label =
    if is_unsafe max_identifier_length value
    then err (unsafe_text label max_identifier_length)
    else ok value

module _ {S : Type 0} (redis : LockRedisClient S) where
  unfoldable pub acquire : M S Text → Text → ℕ → M S (Option Text)
  acquire random_uuid key ttl = do
    value ← random_uuid
    set ← redis.set_px_nx key value ttl
    pure (if set then some value else none)

  -- The script of `release`, which deletes the key where it still has the value.
  unfoldable pub delete_if_held : Text → Text → Option Text → M S (Unit {0})
  delete_if_held key value none = pure tt
  delete_if_held key value (some held) = branch (eqb held value) (redis.script_del key) (pure tt)

  unfoldable pub release : Text → Text → M S (Unit {0})
  release key value = do held ← redis.script_get key; delete_if_held key value held
