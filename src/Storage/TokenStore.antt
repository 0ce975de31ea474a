-- ===== src/Storage/TokenStore.antt =====
-- src/storage/RedisTokenStore.ts: refresh tokens, the deny list, rate counters and the allow list.
pub mod Laws
mod Tests
use authenik8_core_beta.Common.{
  ℕ, Bool, true, false, ◌++◌, ◌∷◌, [], Option, none, some, List, ◌==◌, any,
}
use authenik8_core_beta.Common.Text.{Text, text, eqb, join}
use authenik8_core_beta.Common.Value.{is_unsafe}
use authenik8_core_beta.Common.Effects.{Result, ok}
use authenik8_core_beta.Common.Effects.Pure as Pure
use authenik8_core_beta.Common.Effects.Async.{M, ◌>>=◌, ◌>>◌, pure, lift, branch}
use authenik8_core_beta.Auth.Refresh.{TokenStore}

-- The Redis commands; `set_ex` is `SET key value EX seconds`, and `exists` gives a count.
pub record TokenRedis (S : Type 0) : Type 0 where
  pub get : Text → M S (Option Text)
  pub set : Text → Text → M S (Unit {0})
  pub set_ex : Text → Text → ℕ → M S (Unit {0})
  pub del : Text → M S (Unit {0})
  pub exists : Text → M S ℕ
  pub incr : Text → M S ℕ
  pub expire : Text → ℕ → M S (Unit {0})

module _ {S : Type 0} (redis : TokenRedis S) where
  -- `set`; a time of 0 counts as none. The script of `compareAndSet` writes in the same way.
  unfoldable pub set : Text → Text → ℕ → M S (Unit {0})
  set key value expiry = branch (expiry == 0) (redis.set key value) (redis.set_ex key value expiry)

  -- COMPARE_AND_SET_SCRIPT, which Redis runs as one step, from the value that it has read.
  unfoldable pub replace_if : Text → Text → Text → ℕ → Option Text → M S Bool
  replace_if key expected value expiry none = pure false
  replace_if key expected value expiry (some held) =
      branch (eqb held expected) (set key value expiry >> pure true) (pure false)

  unfoldable pub compare_and_set : Text → Text → Text → ℕ → M S Bool
  compare_and_set key expected value expiry = do
    held ← redis.get key
    replace_if key expected value expiry held

  unfoldable pub token_key : Text → List Text → Result Text
  token_key prefix parts =
      Pure.◌>>=◌
        (Pure.throw_if (any (is_unsafe 256) parts) "Redis token-store key component is invalid")
        λ u. ok (prefix ++ text ":" ++ join (text ":") parts)

  unfoldable pub store_refresh_token : Text → Text → Text → ℕ → M S (Unit {0})
  store_refresh_token prefix token user_id ttl = do
    key ← lift (token_key prefix (text "refresh" ∷ user_id ∷ []))
    redis.set_ex key token ttl

  unfoldable pub get_refresh_token : Text → Text → M S (Option Text)
  get_refresh_token prefix user_id = do
    key ← lift (token_key prefix (text "refresh" ∷ user_id ∷ []))
    redis.get key

  unfoldable pub delete_refresh_token : Text → Text → M S (Unit {0})
  delete_refresh_token prefix user_id = do
    key ← lift (token_key prefix (text "refresh" ∷ user_id ∷ []))
    redis.del key

  unfoldable pub blacklist_token : Text → Text → ℕ → M S (Unit {0})
  blacklist_token prefix user_id ttl = do
    key ← lift (token_key prefix (text "blacklist" ∷ user_id ∷ []))
    redis.set_ex key (text "1") ttl

  unfoldable pub is_blacklisted : Text → Text → M S Bool
  is_blacklisted prefix user_id = do
    key ← lift (token_key prefix (text "blacklist" ∷ user_id ∷ []))
    count ← redis.exists key
    pure (count == 1)

  unfoldable pub increment_rate_limit : Text → Text → ℕ → M S ℕ
  increment_rate_limit prefix ip ttl = do
    key ← lift (token_key prefix (text "rate" ∷ ip ∷ []))
    count ← redis.incr key
    branch (count == 1) (redis.expire key ttl >> pure count) (pure count)

  unfoldable pub add_to_whitelist : Text → Text → M S (Unit {0})
  add_to_whitelist prefix ip = do
    key ← lift (token_key prefix (text "whitelist" ∷ ip ∷ []))
    redis.set key (text "1")

  unfoldable pub remove_from_whitelist : Text → Text → M S (Unit {0})
  remove_from_whitelist prefix ip = do
    key ← lift (token_key prefix (text "whitelist" ∷ ip ∷ []))
    redis.del key

  unfoldable pub is_whitelisted : Text → Text → M S Bool
  is_whitelisted prefix ip = do
    key ← lift (token_key prefix (text "whitelist" ∷ ip ∷ []))
    count ← redis.exists key
    pure (count == 1)

-- The class as the token store of the refresh service.
unfoldable pub redis_token_store : {S : Type 0} → TokenRedis S → TokenStore S
redis_token_store redis = record {
  get = redis.get;
  set = some (set redis);
  del = some redis.del;
  compare_and_set = some (compare_and_set redis);
}
