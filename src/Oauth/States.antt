-- ===== src/Oauth/States.antt =====
-- src/oauth/state.ts, the state store of src/oauth/core.ts and src/oauth/callback.ts: the one-time
-- state of a log-in, and what its callback returns.
pub mod Laws
mod Tests
use authenik8_core_beta.Common.{
  ℕ, Bool, true, false, not, ◌&&◌, ◌||◌, Option, none, some, List, [], ◌∷◌, ◌++◌, if◌then◌else◌,
  ltb, leb, ◌==◌, length, every,
}
use authenik8_core_beta.Common.Text.{Text, text, eqb, byte_length}
use authenik8_core_beta.Common.Value.{
  Value, string, null, object, Fields, end, field, keys, property, is_object, is_unsafe,
}
use authenik8_core_beta.Common.Effects.{Result, ok, err, plain}
use authenik8_core_beta.Common.Effects.Async.{M, ◌>>=◌, ◌>>◌, pure, throw, lift, branch, if_present}
use authenik8_core_beta.Common.Effects.Pure as Pure
use authenik8_core_beta.Oauth.Engine.{
  Tokens, IdentityResult, new_user_creation, existing_provider_login,
}

-- `OAuthState`: the mode, with the user of a link.
pub data OAuthState : Type 0 where
  login_state : OAuthState
  link_state : Text → OAuthState

abbrev pub oauth_state_ttl_seconds : ℕ
oauth_state_ttl_seconds = 300

abbrev pub max_oauth_state_record_bytes : ℕ
max_oauth_state_record_bytes = 1024

-- OAUTH_STATE_PATTERN, `/^[a-f0-9]{64}$/`.
unfoldable pub is_lower_hex : ℕ → Bool
is_lower_hex c = (leb b'a' c && leb c b'f') || (leb b'0' c && leb c b'9')

unfoldable pub is_valid_oauth_state_token : Text → Bool
unfolding is_lower_hex every
is_valid_oauth_state_token state = length state == 64 && every is_lower_hex state

-- The two keys, in either order.
unfoldable pub has_state_keys : Value → Bool
unfolding keys eqb
has_state_keys (object fields) = elim (keys fields) [
  | k ∷ l ∷ [] ↦
      (eqb k (text "mode") && eqb l (text "userId"))
      || (eqb k (text "userId") && eqb l (text "mode"))
  | _ ↦ false
]
has_state_keys _ = false

unfoldable pub state_of : Value → Value → Option OAuthState
unfolding eqb is_unsafe
state_of (string mode) null = if eqb mode (text "login") then some login_state else none
state_of (string mode) (string user_id) =
    if eqb mode (text "link") && not (is_unsafe 256 user_id)
    then some (link_state user_id)
    else none
state_of _ _ = none

-- `isValidOAuthState`, with the state that it accepts.
unfoldable pub valid_oauth_state : Value → Option OAuthState
unfolding has_state_keys property state_of
valid_oauth_state value =
    if has_state_keys value
    then state_of (property (text "mode") value) (property (text "userId") value)
    else none

-- What `JSON.stringify` is given for a state.
unfoldable pub oauth_state_value : OAuthState → Value
oauth_state_value login_state =
    object (field (text "mode") (string (text "login")) (field (text "userId") null end))
oauth_state_value (link_state user_id) =
    object (field (text "mode") (string (text "link")) (field (text "userId") (string user_id) end))

-- `isValidOAuthState` on a state.
unfoldable pub is_valid_state : OAuthState → Bool
unfolding is_unsafe
is_valid_state login_state = true
is_valid_state (link_state user_id) = not (is_unsafe 256 user_id)

-- The Redis client: `get_del` is `GETDEL`, or the script that reads and deletes in one step.
pub record StateRedis (S : Type 0) : Type 0 where
  pub setex : Text → ℕ → Text → M S (Unit {0})
  pub get : Text → M S (Option Text)
  pub del : Text → M S (Unit {0})
  pub get_del : Text → M S (Option Text)

-- `createRedisOAuthStateStore`, after the check of the prefix, over JSON (`none` where `JSON.parse`
-- throws).
pub record StateStore (S : Type 0) : Type 0 where
  pub redis : StateRedis S
  pub prefix : Text
  pub json_parse : Text → Option Value
  pub json_stringify : Value → Text

unfoldable pub state_key : Text → Text → Text
state_key prefix state = prefix ++ text ":state:" ++ state

module _ {S : Type 0} (store : StateStore S) where
  unfoldable pub parse_oauth_state : Text → Option OAuthState
  unfolding valid_oauth_state byte_length
  parse_oauth_state serialized =
      if ltb max_oauth_state_record_bytes (byte_length serialized)
      then none
      else elim (store.json_parse serialized) [ none ↦ none | some value ↦ valid_oauth_state value ]

  -- `stored ? parseOAuthState(stored) : null`.
  unfoldable pub read_state : Option Text → Option OAuthState
  read_state none = none
  read_state (some stored) = if length stored == 0 then none else parse_oauth_state stored

  unfoldable pub set_state : Text → OAuthState → ℕ → M S (Unit {0})
  set_state state value ttl_seconds = do
    lift (
        Pure.throw_if (not (is_valid_oauth_state_token state))
          "OAuth state must be a 256-bit lower-case hexadecimal value")
    lift (Pure.throw_if (not (is_valid_state value)) "OAuth state payload is invalid")
    lift (
        Pure.throw_if (ttl_seconds == 0 || ltb oauth_state_ttl_seconds ttl_seconds)
          "OAuth state TTL must be between 1 and 300 seconds")
    store.redis.setex (state_key store.prefix state) ttl_seconds
        (store.json_stringify (oauth_state_value value))

  unfoldable pub get_state : Text → M S (Option OAuthState)
  get_state state =
      branch (not (is_valid_oauth_state_token state)) (pure none)
        (store.redis.get (state_key store.prefix state) >>= λ stored. pure (read_state stored))

  unfoldable pub del_state : Text → M S (Unit {0})
  del_state state =
      branch (not (is_valid_oauth_state_token state)) (pure tt)
        (store.redis.del (state_key store.prefix state))

  unfoldable pub take_state : Text → M S (Option OAuthState)
  take_state state =
      branch (not (is_valid_oauth_state_token state)) (pure none)
        (store.redis.get_del (state_key store.prefix state) >>= λ stored. pure (read_state stored))

  unfoldable pub checked_state : Option OAuthState → Option OAuthState
  checked_state none = none
  checked_state (some value) = if is_valid_state value then some value else none

  -- `consumeOAuthState` over this store.
  unfoldable pub consume_oauth_state : Text → M S (Option OAuthState)
  consume_oauth_state state =
      branch (not (is_valid_oauth_state_token state)) (pure none)
        (take_state state >>= λ value. pure (checked_state value))

-- `OAuthCallbackResult`, without the profile and the mode that it repeats.
pub record CallbackResult : Type 0 where
  pub identity : Option IdentityResult
  pub tokens : Option Tokens

-- The result of `finalizeOAuthCallback` for an identity.
unfoldable pub callback_tokens : IdentityResult → Option Tokens
callback_tokens (new_user_creation u tokens) = some tokens
callback_tokens (existing_provider_login u tokens) = some tokens
callback_tokens _ = none

unfoldable pub callback_result : IdentityResult → CallbackResult
unfolding callback_tokens
callback_result identity = record { identity = some identity; tokens = callback_tokens identity }

unfoldable pub finalize_oauth_callback :
    {S : Type 0} → Option (M S IdentityResult) → M S CallbackResult
finalize_oauth_callback engine =
    if_present engine (λ resolve. resolve >>= λ identity. pure (callback_result identity))
      (pure (record { identity = none; tokens = none }))
