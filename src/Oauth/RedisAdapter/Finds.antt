-- ===== src/Oauth/RedisAdapter/Finds.antt =====
-- src/oauth/adapters/redisAdapter.ts: `getUserById` and the three ways to find a user.
use authenik8_core_beta.Common.{Option, none, some, length, ◌==◌}
use authenik8_core_beta.Common.Text.{Text, eqb}
use authenik8_core_beta.Common.Value.{Value, string}
use authenik8_core_beta.Common.Effects.{plain}
use authenik8_core_beta.Common.Effects.Async.{M, ◌>>=◌, pure, throw, lift, branch}
use authenik8_core_beta.Oauth.Validation.{
  IdentityUser, validate_identity_provider, validate_identity_user_id, normalize_identity_email,
}
use authenik8_core_beta.Oauth.Engine.{has_provider}
use authenik8_core_beta.Oauth.Memory.{user_or_null}
use authenik8_core_beta.Oauth.RedisAdapter.{
  RedisIdentity, is_same_id, is_there_with, user_key, email_key, provider_key, parse_user,
}

module _ {S : Type 0} (adapter : RedisIdentity S) where
  unfoldable pub read_user : Text → M S (Option IdentityUser)
  read_user user_id = do
    serialized ← adapter.redis.get (user_key adapter user_id)
    found ← lift (parse_user adapter serialized)
    branch (is_same_id found user_id) (pure found)
        (throw (plain "OAuth identity index integrity check failed"))

  unfoldable pub get_user_by_id : Option Text → M S (Option IdentityUser)
  get_user_by_id none = pure none
  get_user_by_id (some user_id) = branch (length user_id == 0) (pure none) (read_user user_id)

  unfoldable pub find_user_by_id : Text → M S Value
  find_user_by_id user_id = do
    valid ← lift (validate_identity_user_id (string user_id))
    found ← get_user_by_id (some valid)
    pure (user_or_null found)

  unfoldable pub find_user_by_email : Text → M S Value
  find_user_by_email email = do
    normalized ← lift (normalize_identity_email adapter.lower_case (string email))
    key ← lift (email_key adapter normalized)
    user_id ← adapter.redis.get key
    found ← get_user_by_id user_id
    branch (is_there_with (λ u. eqb u.email normalized) found) (pure (user_or_null found))
        (throw (plain "OAuth email index integrity check failed"))

  unfoldable pub find_user_by_provider : Text → Text → M S Value
  find_user_by_provider provider provider_id = do
    identity ← lift (validate_identity_provider (string provider) (string provider_id))
    user_id ← adapter.redis.get (provider_key adapter identity)
    found ← get_user_by_id user_id
    branch (is_there_with (has_provider identity) found) (pure (user_or_null found))
        (throw (plain "OAuth provider index integrity check failed"))
