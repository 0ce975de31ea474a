-- ===== src/Oauth/RedisAdapter/Scripts.antt =====
-- The two Lua scripts of src/oauth/adapters/redisAdapter.ts, as their calls of Redis.
use authenik8_core_beta.Common.{not, Option, none, some}
use authenik8_core_beta.Common.Text.{Text, text, eqb}
use authenik8_core_beta.Common.Value.{Value}
use authenik8_core_beta.Common.Effects.Async.{M, ◌>>=◌, ◌>>◌, pure, branch}
use authenik8_core_beta.Oauth.RedisAdapter.{
  IdentityRedis, existing_provider, existing_email, created, creation_answer, is_other,
}

module _ {S : Type 0} (redis : IdentityRedis S) where
  -- CREATE_USER_SCRIPT.
  unfoldable pub create_absent : Text → Text → Text → Text → Text → Option Text → M S Value
  create_absent user_key email_key provider_key user_id serialized (some found) =
      pure (creation_answer existing_email found)
  create_absent user_key email_key provider_key user_id serialized none = do
    redis.script_set user_key serialized
    redis.script_set email_key user_id
    redis.script_set provider_key user_id
    pure (creation_answer created user_id)

  unfoldable pub create_unowned : Text → Text → Text → Text → Text → Option Text → M S Value
  create_unowned user_key email_key provider_key user_id serialized (some found) =
      pure (creation_answer existing_provider found)
  create_unowned user_key email_key provider_key user_id serialized none =
      redis.script_get email_key >>= λ found.
      create_absent user_key email_key provider_key user_id serialized found

  unfoldable pub create_user_script : Text → Text → Text → Text → Text → M S Value
  create_user_script user_key email_key provider_key user_id serialized =
      redis.script_get provider_key >>= λ found.
      create_unowned user_key email_key provider_key user_id serialized found

  -- LINK_PROVIDER_SCRIPT.
  unfoldable pub link_current : Text → Text → Text → Text → Text → Text → Option Text → M S Text
  link_current provider_key user_key email_key user_id expected updated none =
      pure (text "user-missing")
  link_current provider_key user_key email_key user_id expected updated (some current) =
      branch (not (eqb current expected)) (pure (text "stale")) do
        redis.script_set user_key updated
        redis.script_set email_key user_id
        redis.script_set provider_key user_id
        pure (text "linked")

  unfoldable pub link_provider_script : Text → Text → Text → Text → Text → Text → M S Text
  link_provider_script provider_key user_key email_key user_id expected updated = do
    owner ← redis.script_get provider_key
    branch (is_other user_id owner) (pure (text "provider-conflict")) do
      holder ← redis.script_get email_key
      branch (is_other user_id holder) (pure (text "email-conflict")) do
        current ← redis.script_get user_key
        link_current provider_key user_key email_key user_id expected updated current
