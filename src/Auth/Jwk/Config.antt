-- ===== src/Auth/Jwk/Config.antt =====
-- src/auth/jwk.ts: the checks of issuer, audience and keys.
use authenik8_core_beta.Common.{
  ℕ, String, Bool, false, not, ◌&&◌, ◌||◌, Option, none, some, List, [], ◌∷◌, if◌then◌else◌, ltb,
  ◌==◌, length, any,
}
use authenik8_core_beta.Common.Text.{Text, text, eqb, includes}
use authenik8_core_beta.Common.Value.{is_unsafe}
use authenik8_core_beta.Common.Effects.{Result, ok, err, plain}
use authenik8_core_beta.Common.Effects.Pure.{◌>>◌, throw_if}
use authenik8_core_beta.Auth.Jwk.{
  Jwk, Audience, one, many, Authenik8JwkConfig, Base64url, is_canonical, max_kid_length,
  max_jwk_keys, access_token_algorithm,
}

unfoldable pub assert_bounded_claim : Text → String → ℕ → Result (Unit {0})
unfolding is_unsafe
assert_bounded_claim value label maximum = throw_if (is_unsafe maximum value) label

unfoldable pub audiences : Audience → List Text
audiences (one audience) = audience ∷ []
audiences (many audience) = audience

unfoldable pub validate_issuer_and_audience : Text → Audience → Result (Unit {0})
unfolding assert_bounded_claim audiences any is_unsafe
validate_issuer_and_audience issuer audience = do
  assert_bounded_claim issuer "issuer" 2048
  throw_if (length (audiences audience) == 0 || ltb 32 (length (audiences audience)))
      "audience must contain between 1 and 32 values"
  throw_if (any (is_unsafe 512) (audiences audience)) "audience"

-- `value === t` for a field that may be absent.
unfoldable pub field_is : Option Text → Text → Bool
unfolding eqb
field_is none t = false
field_is (some value) t = eqb value t

-- `value && value !== t`.
unfoldable pub is_given_not : Option Text → Text → Bool
unfolding eqb
is_given_not none t = false
is_given_not (some value) t = not (length value == 0) && not (eqb value t)

unfoldable pub is_given_text : Option Text → Bool
is_given_text none = false
is_given_text (some value) = not (length value == 0)

unfoldable pub assert_p256_component : Base64url → Option Text → Result (Unit {0})
unfolding is_canonical
assert_p256_component base64url none = err (plain "JWT key must include the component")
assert_p256_component base64url (some value) =
    throw_if (not (length (base64url.decode value) == 32) || not (is_canonical base64url value))
      "JWT key has an invalid P-256 value"

unfoldable pub assert_optional_component : Base64url → Option Text → Result (Unit {0})
unfolding assert_p256_component
assert_optional_component base64url none = ok tt
assert_optional_component base64url (some value) = assert_p256_component base64url (some value)

-- `key.key_ops && !key.key_ops.includes(operation)`.
unfoldable pub lacks_operation : Option (List Text) → Text → Bool
unfolding includes
lacks_operation none operation = false
lacks_operation (some operations) operation = not (includes operations operation)

unfoldable pub check_key : Base64url → List Text → Text → Jwk → Result (Unit {0})
unfolding assert_bounded_claim includes field_is assert_p256_component assert_optional_component
    is_given_not lacks_operation is_given_text
check_key base64url kids kid key = do
  throw_if (length kid == 0) "Every JWT signing key must have a kid"
  assert_bounded_claim kid "JWT kid" max_kid_length
  throw_if (includes kids kid) "Duplicate JWT kid"
  throw_if (not (field_is key.kty (text "EC")) || not (field_is key.crv (text "P-256")))
      "JWT key must be an ES256 P-256 EC JWK"
  assert_p256_component base64url key.x
  assert_p256_component base64url key.y
  assert_optional_component base64url key.d
  throw_if (is_given_not key.alg access_token_algorithm) "JWT key must use ES256"
  throw_if (is_given_not key.key_use (text "sig")) "JWT key must declare use=sig"
  throw_if
      (lacks_operation key.key_ops (if is_given_text key.d then text "sign" else text "verify"))
      "JWT key has incompatible key_ops"

-- The loop over the keys, after those with these kids.
unfoldable pub check_keys : Base64url → List Text → List Jwk → Result (Unit {0})
unfolding check_key
check_keys base64url kids [] = ok tt
check_keys base64url kids (key ∷ keys) = elim key.kid [
  | none ↦ err (plain "Every JWT signing key must have a kid")
  | some kid ↦ check_key base64url kids kid key >> check_keys base64url (kid ∷ kids) keys
]

-- `keys.find((key) => key.kid === kid)`.
unfoldable pub find_key : Text → List Jwk → Option Jwk
unfolding field_is
find_key kid [] = none
find_key kid (key ∷ keys) =
    let rest = find_key kid keys in if field_is key.kid kid then some key else rest

unfoldable pub check_active : Option Jwk → Result (Unit {0})
unfolding is_given_text
check_active none = err (plain "Active JWT kid not found")
check_active (some key) = throw_if (not (is_given_text key.d)) "Active JWT key must be private"

unfoldable pub validate_jwk_config : Base64url → Authenik8JwkConfig → Result (Unit {0})
unfolding validate_issuer_and_audience assert_bounded_claim check_keys find_key check_active
validate_jwk_config base64url config = do
  validate_issuer_and_audience config.issuer config.audience
  assert_bounded_claim config.active_kid "jwt.activeKid" max_kid_length
  throw_if (length config.keys == 0 || ltb max_jwk_keys (length config.keys))
      "jwt.keys must contain between 1 and 16 keys"
  check_keys base64url [] config.keys
  check_active (find_key config.active_kid config.keys)

-- `publicJwk`.
unfoldable pub public_jwk : Jwk → Jwk
public_jwk key = record {
  kid = key.kid;
  kty = key.kty;
  crv = key.crv;
  x = key.x;
  y = key.y;
  d = none;
  alg = some access_token_algorithm;
  key_use = some (text "sig");
  key_ops = some (text "verify" ∷ []);
}
