-- ===== src/Oauth/RedisAdapter.antt =====
-- src/oauth/adapters/redisAdapter.ts: the identity adapter over Redis, with its two scripts.
pub mod Finds
pub mod Scripts
pub mod Changes
pub mod Index
pub mod Contention
pub mod Claims
mod Tests
use authenik8_core_beta.Common.{
  ℕ, zero, suc, String, Bool, true, false, not, ◌&&◌, ◌||◌, Option, none, some, List, [], ◌∷◌, ◌++◌,
  if◌then◌else◌, ltb, leb, ◌==◌, length,
}
use authenik8_core_beta.Common.Text.{Text, text, eqb, byte_length}
use authenik8_core_beta.Common.Value.{Value, string, array, items, from_items}
use authenik8_core_beta.Common.Effects.{Error, Result, ok, err, plain}
use authenik8_core_beta.Common.Effects.Pure as Pure
use authenik8_core_beta.Common.Effects.Async.{M, ◌>>=◌, ◌>>◌, pure, throw, lift, branch}
use authenik8_core_beta.Redis.{validate_redis_key_prefix}
use authenik8_core_beta.Oauth.Validation.{
  max_identity_providers_per_user, IdentityProviderRecord, IdentityUser, validate_identity_provider,
  validate_identity_user_id, normalize_identity_email, validate_identity_user, user_value,
}
use authenik8_core_beta.Oauth.Engine.{OAuthIdentityAdapter, has_provider}
use authenik8_core_beta.Oauth.Memory.{user_or_null, creation_value, add_provider, new_user}

abbrev pub max_link_cas_attempts : ℕ
max_link_cas_attempts = 5

abbrev pub max_serialized_user_bytes : ℕ
max_serialized_user_bytes = 32_768

-- The Redis client. The calls of the scripts stand apart from the command `GET`: Redis runs a script
-- as one step, while other clients may act at a command.
pub record IdentityRedis (S : Type 0) : Type 0 where
  pub get : Text → M S (Option Text)
  pub script_get : Text → M S (Option Text)
  pub script_set : Text → Text → M S (Unit {0})

-- The adapter after `createRedisIdentityAdapter`, with its `identityPrefix`, SHA-256 in base64url,
-- JSON (`none` where `JSON.parse` throws), `toLowerCase` and `randomUUID`.
pub record RedisIdentity (S : Type 0) : Type 0 where
  pub redis : IdentityRedis S
  pub prefix : Text
  pub digest : Text → Text
  pub json_parse : Text → Option Value
  pub json_stringify : Value → Text
  pub lower_case : Text → Text
  pub random_uuid : M S Text

unfoldable pub identity_prefix : Text → Result Text
unfolding validate_redis_key_prefix
identity_prefix prefix =
    Pure.◌>>=◌ (validate_redis_key_prefix prefix) λ valid. ok (valid ++ text ":{identity}")

pub data CreationStatus : Type 0 where
  created existing_provider existing_email : CreationStatus

unfoldable pub status_name : CreationStatus → String
status_name created = "created"
status_name existing_provider = "existing-provider"
status_name existing_email = "existing-email"

unfoldable pub status_of : Text → Option CreationStatus
unfolding eqb
status_of t =
    if eqb t (text "created")
    then some created
    else if eqb t (text "existing-provider")
    then some existing_provider
    else if eqb t (text "existing-email")
    then some existing_email
    else none

abbrev pub invalid_transaction : Error
invalid_transaction = plain "OAuth identity transaction returned an invalid result"

unfoldable pub creation_of : List Value → Result (CreationStatus × Text)
unfolding status_of
creation_of (string status ∷ string user_id ∷ []) = elim (status_of status) [
  | none ↦ err invalid_transaction
  | some s ↦ ok (s, user_id)
]
creation_of _ = err invalid_transaction

unfoldable pub creation_result : Value → Result (CreationStatus × Text)
unfolding items creation_of
creation_result (array vs) = creation_of (items vs)
creation_result _ = err invalid_transaction

-- The answer of the creation script.
unfoldable pub creation_answer : CreationStatus → Text → Value
unfolding from_items status_name
creation_answer status user_id =
    array (from_items (string (text (status_name status)) ∷ string user_id ∷ []))

-- `parseUser` on a text that is not empty.
unfoldable pub valid_user : Result IdentityUser → Result (Option IdentityUser)
valid_user (ok u) = ok (some u)
valid_user (err e) = err (plain "OAuth identity store contains an invalid user record")

-- `value and value ~= id` of the link script.
unfoldable pub is_other : Text → Option Text → Bool
unfolding eqb
is_other user_id none = false
is_other user_id (some found) = not (eqb found user_id)

unfoldable pub is_same_id : Option IdentityUser → Text → Bool
unfolding eqb
is_same_id none user_id = true
is_same_id (some u) user_id = eqb u.id user_id

unfoldable pub is_there_with : (IdentityUser → Bool) → Option IdentityUser → Bool
is_there_with test none = true
is_there_with test (some u) = test u

abbrev pub target_missing : Error
target_missing = plain "OAuth link target user not found"

-- The user to update, and the text that it was read from.
unfoldable pub link_target_of :
    Text → Option Text → Option IdentityUser → Result (Text × IdentityUser)
unfolding eqb
link_target_of user_id (some serialized) (some u) =
    if eqb u.id user_id then ok (serialized, u) else err target_missing
link_target_of user_id _ _ = err target_missing

unfoldable pub updated_user : IdentityProviderRecord → IdentityUser → IdentityUser
unfolding has_provider add_provider
updated_user identity u = if has_provider identity u then u else add_provider identity u

module _ {S : Type 0} (adapter : RedisIdentity S) where
  unfoldable pub user_key : Text → Text
  user_key user_id = adapter.prefix ++ text ":user:" ++ adapter.digest user_id

  -- For an email that is normalised.
  unfoldable pub email_index : Text → Text
  email_index email = adapter.prefix ++ text ":email:" ++ adapter.digest email

  unfoldable pub email_key : Text → Result Text
  unfolding normalize_identity_email
  email_key email =
      Pure.◌>>=◌ (normalize_identity_email adapter.lower_case (string email))
        λ e. ok (email_index e)

  unfoldable pub provider_key : IdentityProviderRecord → Text
  provider_key identity =
      adapter.prefix
      ++ text ":provider:"
      ++ adapter.digest (identity.provider ++ 0 ∷ identity.provider_id)

  unfoldable pub parse_user : Option Text → Result (Option IdentityUser)
  unfolding valid_user byte_length validate_identity_user
  parse_user none = ok none
  parse_user (some serialized) =
      if length serialized == 0
      then ok none
      else if ltb max_serialized_user_bytes (byte_length serialized)
      then err (plain "OAuth identity store user record exceeds the size limit")
      else elim (adapter.json_parse serialized) [
        | none ↦ err (plain "OAuth identity store contains invalid JSON")
        | some value ↦ valid_user (validate_identity_user adapter.lower_case value)
      ]
