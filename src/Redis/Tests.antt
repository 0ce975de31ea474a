-- ===== src/Redis/Tests.antt =====
-- Runs of the validation of key prefixes, and instances of its theorems.
use authenik8_core_beta.Common.{◌≡◌, refl, every, any}
use authenik8_core_beta.Common.Text as Text
use authenik8_core_beta.Common.Text.{text}
use authenik8_core_beta.Common.Effects.{ok}
use authenik8_core_beta.Redis as Redis
use authenik8_core_beta.Redis.{validate_redis_key_prefix, redis_key}

running : Unit {0}
unfolding Text.trim Text.trim_start Text.trim_end Text.is_space Redis.is_alphanumeric
    Redis.is_prefix_char Redis.matches_prefix_pattern Redis.ends_with_colon
    Redis.validate_redis_key_prefix every any
running = tt

trimmed_runs : validate_redis_key_prefix (text " app:v1 ") ≡ ok (text "app:v1")
unfolding running
trimmed_runs = refl
