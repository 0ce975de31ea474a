-- ===== src/Redis.antt =====
-- src/redis/keyNamespace.ts: the prefixes under which every service keeps its Redis keys.
pub mod Laws
mod Tests
use authenik8_core_beta.Common.{
  ℕ, Bool, true, false, not, ◌&&◌, ◌||◌, Option, none, some, List, [], ◌∷◌, if◌then◌else◌, ltb, leb,
  ◌==◌, length, every, take, ◌++◌,
}
use authenik8_core_beta.Common.Text.{Text, text, trim, join}
use authenik8_core_beta.Common.Effects.{Result, ok, err, plain}
use authenik8_core_beta.Common.Effects.Pure.{◌>>=◌, ◌>>◌, throw_if}

abbrev pub max_prefix_length : ℕ
max_prefix_length = 128

unfoldable pub is_alphanumeric : ℕ → Bool
is_alphanumeric c =
    (leb b'A' c && leb c b'Z') || (leb b'a' c && leb c b'z') || (leb b'0' c && leb c b'9')

unfoldable pub is_prefix_char : ℕ → Bool
unfolding is_alphanumeric
is_prefix_char c = is_alphanumeric c || c == b':' || c == b'.' || c == b'_' || c == b'-'

-- PREFIX_PATTERN, `/^[A-Za-z0-9][A-Za-z0-9:._-]*$/`.
unfoldable pub matches_prefix_pattern : Text → Bool
unfolding is_alphanumeric is_prefix_char every
matches_prefix_pattern [] = false
matches_prefix_pattern (c ∷ s) = is_alphanumeric c && every is_prefix_char s

-- `endsWith(":")`.
unfoldable pub ends_with_colon : Text → Bool
ends_with_colon [] = false
ends_with_colon (c ∷ []) = c == b':'
ends_with_colon (c ∷ d ∷ s) = ends_with_colon (d ∷ s)

unfoldable pub validate_redis_key_prefix : Text → Result Text
unfolding matches_prefix_pattern ends_with_colon trim
validate_redis_key_prefix prefix = do
  let normalized = trim prefix
  throw_if
      (length normalized == 0
        || ltb max_prefix_length (length normalized)
        || not (matches_prefix_pattern normalized)
        || ends_with_colon normalized)
      "redisKeyPrefix must be 1-128 letters, numbers, colons, dots, underscores, or hyphens and may not end with a colon"
  ok normalized

-- `resolveRedisKeyPrefix`, over the digest `sha256` in base64url.
unfoldable pub resolve_redis_key_prefix :
    (Text → Text) → Option Text → Text → List Text → Result Text
unfolding validate_redis_key_prefix join
resolve_redis_key_prefix sha256 (some configured) issuer audiences =
    validate_redis_key_prefix configured
resolve_redis_key_prefix sha256 none issuer audiences =
    ok (text "authenik8:v2:" ++ take 22 (sha256 (issuer ++ 0 ∷ join (0 ∷ []) audiences)))

unfoldable pub redis_key : Text → List Text → Text
unfolding join
redis_key prefix parts = join (text ":") (prefix ∷ parts)
