-- ===== src/Auth/Jwk.antt =====
-- src/auth/jwk.ts: the configuration of keys, the lifetimes of tokens, and the form of a token.
pub mod Config
pub mod PublicKeys
pub mod KeyRing
pub mod Laws
mod Tests
use authenik8_core_beta.Common.{
  ℕ, ◌+◌, ◌*◌, ◌-◌, String, Bool, true, false, not, ◌&&◌, ◌||◌, Option, none, some, List, [], ◌∷◌,
  ◌++◌, if◌then◌else◌, ltb, leb, ◌==◌, length, any, every, map,
}
use authenik8_core_beta.Common.Text.{Text, text, eqb, includes, byte_length}
use authenik8_core_beta.Common.Value.{is_unsafe}
use authenik8_core_beta.Common.Effects.{Error, Result, ok, err, plain}
use authenik8_core_beta.Common.Effects.Pure.{◌>>=◌, ◌>>◌, throw_if}
use authenik8_core_beta.Security.ClientIp.{split}

pub data Authenik8TokenUse : Type 0 where
  access guest refresh agent_token agent_delegation : Authenik8TokenUse

unfoldable pub token_use_name : Authenik8TokenUse → Text
token_use_name access = text "access"
token_use_name guest = text "guest"
token_use_name refresh = text "refresh"
token_use_name agent_token = text "agent"
token_use_name agent_delegation = text "agent-delegation"

-- The fields of a `JWK` that the code reads.
pub record Jwk : Type 0 where
  pub kid : Option Text
  pub kty : Option Text
  pub crv : Option Text
  pub x : Option Text
  pub y : Option Text
  pub d : Option Text
  pub alg : Option Text
  pub key_use : Option Text
  pub key_ops : Option (List Text)

-- `string | string[]`.
pub data Audience : Type 0 where
  one : Text → Audience
  many : List Text → Audience

pub record Authenik8JwkConfig : Type 0 where
  pub keys : List Jwk
  pub active_kid : Text
  pub issuer : Text
  pub audience : Audience

-- `Buffer.from(text, "base64url")` and `buffer.toString("base64url")`.
pub record Base64url : Type 0 where
  pub decode : Text → List ℕ
  pub encode : List ℕ → Text

abbrev pub max_compact_jwt_length : ℕ
max_compact_jwt_length = 16_384

abbrev pub max_jwk_keys : ℕ
max_jwk_keys = 16

abbrev pub max_kid_length : ℕ
max_kid_length = 128

abbrev pub max_generic_token_ttl_seconds : ℕ
max_generic_token_ttl_seconds = 2_678_400

unfoldable pub is_canonical : Base64url → Text → Bool
unfolding eqb
is_canonical base64url segment = eqb (base64url.encode (base64url.decode segment)) segment

unfoldable pub is_empty : Text → Bool
is_empty t = length t == 0

unfoldable pub assert_canonical_compact_jwt : Base64url → Text → Result (Unit {0})
unfolding is_canonical is_empty any every split
assert_canonical_compact_jwt base64url token = do
  throw_if (length token == 0 || ltb max_compact_jwt_length (length token))
      "JWT must be between 1 and 16384 characters"
  throw_if (not (length (split b'.' token) == 3) || any is_empty (split b'.' token))
      "JWT must contain three non-empty compact segments"
  throw_if (not (every (is_canonical base64url) (split b'.' token)))
      "JWT contains non-canonical base64url encoding"

-- The secret, whose UTF-8 code the keys of HS256 are.
unfoldable pub hmac_secret : Text → Result Text
unfolding byte_length
hmac_secret secret =
    if ltb (byte_length secret) 32 || ltb 4096 (byte_length secret)
    then err (
        plain
          "JWT HMAC secret must contain between 32 and 4096 bytes of cryptographically random material")
    else ok secret

-- A lifetime that the configuration gives, a number of seconds or a text.
pub data Lifetime : Type 0 where
  seconds : ℕ → Lifetime
  duration : Text → Lifetime

-- The number before the unit, from the digits read so far.
unfoldable pub amount_of : ℕ → Text → Option (ℕ × ℕ)
amount_of amount [] = none
amount_of amount (unit ∷ []) = some (amount, unit)
amount_of amount (c ∷ t) =
    let rest = amount_of (amount * 10 + (c - b'0')) t in
    if leb b'0' c && leb c b'9' then rest else none

unfoldable pub multiplier : ℕ → Option ℕ
multiplier unit =
    if unit == b's'
    then some 1
    else if unit == b'm'
    then some 60
    else if unit == b'h'
    then some 3600
    else if unit == b'd'
    then some 86_400
    else none

-- `/^(\d+)([smhd])$/`: one digit at least, and a unit.
unfoldable pub duration_seconds : Text → Option ℕ
unfolding amount_of multiplier
duration_seconds value = if length value == 1 then none else elim (amount_of 0 value) [
  | none ↦ none
  | some (amount, unit) ↦ elim (multiplier unit) [
    | none ↦ none
    | some factor ↦ some (amount * factor)
  ]
]

abbrev pub max_safe_seconds : ℕ
max_safe_seconds = 9_007_199_254_740_991

unfoldable pub bounded_lifetime : ℕ → String → ℕ → ℕ → Result ℕ
bounded_lifetime value label minimum maximum =
    if ltb max_safe_seconds value || ltb value minimum || ltb maximum value
    then err (plain label)
    else ok value

-- The error has the label and the bounds.
unfoldable pub normalize_token_lifetime : Lifetime → String → ℕ → ℕ → Result ℕ
unfolding duration_seconds bounded_lifetime
normalize_token_lifetime (seconds value) label minimum maximum =
    bounded_lifetime value label minimum maximum
normalize_token_lifetime (duration value) label minimum maximum = elim (duration_seconds value) [
  | none ↦ err (plain label)
  | some value ↦ bounded_lifetime value label minimum maximum
]

abbrev pub access_token_algorithm : Text
access_token_algorithm = text "ES256"

abbrev pub legacy_token_algorithm : Text
legacy_token_algorithm = text "HS256"
