-- ===== src/Oauth/RedisAdapter/Changes.antt =====
-- src/oauth/adapters/redisAdapter.ts: `createUser` and `linkProvider`.
use authenik8_core_beta.Common.{
  ℕ, zero, suc, not, ◌&&◌, Option, none, some, if◌then◌else◌, leb, length,
}
use authenik8_core_beta.Common.Text.{Text, text, eqb}
use authenik8_core_beta.Common.Value.{Value, string}
use authenik8_core_beta.Common.Effects.{Result, ok, err, plain}
use authenik8_core_beta.Common.Effects.Pure as Pure
use authenik8_core_beta.Common.Effects.Async.{M, ◌>>=◌, ◌>>◌, pure, throw, lift, branch}
use authenik8_core_beta.Oauth.Validation.{
  max_identity_providers_per_user, IdentityProviderRecord, IdentityUser, validate_identity_provider,
  validate_identity_user_id, normalize_identity_email, user_value,
}
use authenik8_core_beta.Oauth.Engine.{OAuthIdentityAdapter, has_provider}
use authenik8_core_beta.Oauth.Memory.{creation_value, new_user}
use authenik8_core_beta.Oauth.RedisAdapter.{
  RedisIdentity, CreationStatus, created, existing_provider, existing_email, status_name,
  creation_result, target_missing, link_target_of, updated_user, user_key, email_key, provider_key,
  parse_user, max_link_cas_attempts,
}
use authenik8_core_beta.Oauth.RedisAdapter.Finds.{
  get_user_by_id, find_user_by_id, find_user_by_email, find_user_by_provider,
}
use authenik8_core_beta.Oauth.RedisAdapter.Scripts.{create_user_script, link_provider_script}

-- The checks of a user that was found instead of created.
unfoldable pub check_resolved :
    CreationStatus → Text → IdentityProviderRecord → Option IdentityUser → Result IdentityUser
unfolding has_provider eqb
check_resolved status email identity none =
    err (plain "OAuth identity index points to a missing user")
check_resolved created email identity (some u) = ok u
check_resolved existing_provider email identity (some u) =
    if has_provider identity u
    then ok u
    else err (plain "OAuth provider index integrity check failed")
check_resolved existing_email email identity (some u) =
    if eqb u.email email then ok u else err (plain "OAuth email index integrity check failed")

-- The provider limit, for a user that has not got the provider account.
unfoldable pub check_limit : IdentityProviderRecord → IdentityUser → Result (Unit {0})
unfolding has_provider
check_limit identity u =
    Pure.throw_if
      (not (has_provider identity u) && leb max_identity_providers_per_user (length u.providers))
      "OAuth identity provider limit exceeded"

module _ {S : Type 0} (adapter : RedisIdentity S) where
  unfoldable pub resolved_user : CreationStatus → Text → IdentityUser → M S (Option IdentityUser)
  resolved_user created user_id user = pure (some user)
  resolved_user _ user_id user = get_user_by_id adapter (some user_id)

  unfoldable pub finish_creation :
      Text → IdentityProviderRecord → IdentityUser → CreationStatus × Text → M S Value
  finish_creation email identity user (status, user_id) = do
    found ← resolved_user status user_id user
    resolved ← lift (check_resolved status email identity found)
    pure (creation_value (status_name status) resolved)

  unfoldable pub create_user : Text → Text → Text → M S Value
  create_user email provider provider_id = do
    normalized ← lift (normalize_identity_email adapter.lower_case (string email))
    identity ← lift (validate_identity_provider (string provider) (string provider_id))
    user_id ← adapter.random_uuid
    key ← lift (email_key adapter normalized)
    answer ←
        create_user_script adapter.redis (user_key adapter user_id) key
          (provider_key adapter identity) user_id
          (adapter.json_stringify (user_value (new_user user_id normalized identity)))
    transaction ← lift (creation_result answer)
    finish_creation normalized identity (new_user user_id normalized identity) transaction

  -- What follows an answer of the script; `again` is the rest of the loop.
  unfoldable pub after_link : Text → M S (Unit {0}) → M S (Unit {0})
  unfolding eqb
  after_link answer again = branch (eqb answer (text "linked")) (pure tt) (
      branch (eqb answer (text "provider-conflict"))
        (throw (plain "OAuth provider is already linked"))
        (branch (eqb answer (text "email-conflict")) (throw (plain "OAuth email index conflict")) (
          branch (eqb answer (text "user-missing")) (throw target_missing) (
            branch (not (eqb answer (text "stale")))
              (throw (plain "OAuth provider link transaction failed")) again))))

  -- One turn of the loop with a user that was read.
  unfoldable pub link_user :
      Text → IdentityProviderRecord → M S (Unit {0}) → Text × IdentityUser → M S (Unit {0})
  link_user user_id identity again (serialized, existing) = do
    lift (check_limit identity existing)
    key ← lift (email_key adapter existing.email)
    answer ←
        link_provider_script adapter.redis (provider_key adapter identity)
          (user_key adapter user_id) key user_id serialized
          (adapter.json_stringify (user_value (updated_user identity existing)))
    after_link answer again

  -- One turn of the loop.
  unfoldable pub link_turn : Text → IdentityProviderRecord → M S (Unit {0}) → M S (Unit {0})
  link_turn user_id identity again = do
    serialized ← adapter.redis.get (user_key adapter user_id)
    existing ← lift (parse_user adapter serialized)
    target ← lift (link_target_of user_id serialized existing)
    link_user user_id identity again target

  -- The loop, with the number of attempts that are left.
  unfoldable pub link_attempts : ℕ → Text → IdentityProviderRecord → M S (Unit {0})
  link_attempts zero user_id identity =
      throw (plain "OAuth provider link contention limit exceeded")
  link_attempts (suc n) user_id identity =
      link_turn user_id identity (link_attempts n user_id identity)

  unfoldable pub link_provider : Text → Text → Text → M S (Unit {0})
  link_provider user_id provider provider_id = do
    valid ← lift (validate_identity_user_id (string user_id))
    identity ← lift (validate_identity_provider (string provider) (string provider_id))
    link_attempts max_link_cas_attempts user_id identity

  unfoldable pub redis_identity_adapter : OAuthIdentityAdapter S
  redis_identity_adapter = record {
    find_user_by_id = find_user_by_id adapter;
    find_user_by_email = find_user_by_email adapter;
    find_user_by_provider = find_user_by_provider adapter;
    create_user = create_user;
    link_provider = link_provider;
  }
