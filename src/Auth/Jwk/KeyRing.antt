-- ===== src/Auth/Jwk/KeyRing.antt =====
-- src/auth/jwk.ts: `JwtKeyRing` and `verifyAccessTokenWithJwks`, over the library jose.
use authenik8_core_beta.Common.{
  ℕ, ◌+◌, ◌/◌, Bool, false, not, ◌||◌, Option, none, some, List, [], if◌then◌else◌, ltb, ◌==◌,
  length, map,
}
use authenik8_core_beta.Common.Text.{Text, text, eqb}
use authenik8_core_beta.Common.Value.{
  Value, string, number, object, array, from_items, Fields, end, field, put_field, property,
}
use authenik8_core_beta.Common.Effects.{Result, ok, err, plain}
use authenik8_core_beta.Common.Effects.Pure as Pure
use authenik8_core_beta.Common.Effects.Async.{M, ◌>>=◌, ◌>>◌, pure, throw, lift, branch}
use authenik8_core_beta.Auth.Jwk.{
  Jwk, Audience, one, many, Authenik8JwkConfig, Authenik8TokenUse, access, token_use_name,
  Base64url, assert_canonical_compact_jwt, hmac_secret, max_generic_token_ttl_seconds,
  access_token_algorithm, legacy_token_algorithm,
}
use authenik8_core_beta.Auth.Jwk.Config.{
  validate_issuer_and_audience, validate_jwk_config, find_key, public_jwk,
}
use authenik8_core_beta.Auth.Jwk.PublicKeys.{validate_public_jwks}

-- What a token is signed or verified with.
pub data KeyMaterial : Type 0 where
  private_key : Jwk → KeyMaterial
  public_keys : List Jwk → KeyMaterial
  shared_secret : Text → KeyMaterial

-- `SignJWT`, `jwtVerify` and `decodeJwt` of jose: `sign` is given the protected header and the claims,
-- `verify` the only algorithm, the issuer and the audience that it accepts.
pub record Jose (S : Type 0) : Type 0 where
  pub sign : KeyMaterial → Fields → Fields → M S Text
  pub verify : KeyMaterial → Text → Text → Audience → Text → M S Fields
  pub decode : Text → M S Fields
  pub base64url : Base64url
  pub now_ms : M S ℕ
  pub random_uuid : M S Text

pub record JwtKeyRingOptions : Type 0 where
  pub jwk : Option Authenik8JwkConfig
  pub legacy_secret : Option Text
  pub issuer : Option Text
  pub audience : Option Audience

-- The fields of the class: a configuration of keys, or a secret.
pub data RingKeys : Type 0 where
  configured : Authenik8JwkConfig → RingKeys
  legacy : Text → RingKeys

pub record JwtKeyRing : Type 0 where
  pub issuer : Text
  pub audience : Audience
  pub keys : RingKeys

abbrev pub or_issuer : Option Text → Text
or_issuer none = text "authenik8-core"
or_issuer (some issuer) = issuer

abbrev pub or_audience : Option Audience → Audience
or_audience none = one (text "authenik8-api")
or_audience (some audience) = audience

unfoldable pub legacy_ring : Text → Text → Audience → Result JwtKeyRing
unfolding hmac_secret validate_issuer_and_audience
legacy_ring secret issuer audience =
    if length secret == 0
    then err (plain "Configure jwt.keys or provide the deprecated jwtSecret")
    else Pure.◌>>=◌ (hmac_secret secret) λ encoded.
      Pure.◌>>=◌ (validate_issuer_and_audience issuer audience)
        λ u. ok (record { issuer = issuer; audience = audience; keys = legacy encoded })

unfoldable pub ring_of :
    Base64url → Option Authenik8JwkConfig → Option Text → Text → Audience → Result JwtKeyRing
unfolding validate_jwk_config legacy_ring
ring_of base64url (some config) secret issuer audience =
    Pure.◌>>=◌ (validate_jwk_config base64url config) λ u.
      ok (record { issuer = config.issuer; audience = config.audience; keys = configured config })
ring_of base64url none none issuer audience =
    err (plain "Configure jwt.keys or provide the deprecated jwtSecret")
ring_of base64url none (some secret) issuer audience = legacy_ring secret issuer audience

-- The constructor.
unfoldable pub new_key_ring : Base64url → JwtKeyRingOptions → Result JwtKeyRing
unfolding ring_of
new_key_ring base64url options =
    ring_of base64url options.jwk options.legacy_secret (or_issuer options.issuer)
      (or_audience options.audience)

unfoldable pub get_jwks : JwtKeyRing → List Jwk
unfolding public_jwk
get_jwks ring = elim ring.keys [
  | configured config ↦ map public_jwk config.keys
  | legacy secret ↦ []
]

-- `activePrivateJwk`, where an absent key is an error of the platform.
unfoldable pub active_private_jwk : Authenik8JwkConfig → Result Jwk
unfolding find_key
active_private_jwk config = elim (find_key config.active_kid config.keys) [
  | none ↦ err (plain "Cannot read properties of undefined")
  | some key ↦ ok key
]

unfoldable pub header_of : Text → Text → Fields
header_of algorithm kid =
    field (text "alg") (string algorithm)
      (field (text "kid") (string kid) (field (text "typ") (string (text "JWT")) end))

unfoldable pub protected_header : RingKeys → Fields
unfolding header_of
protected_header (configured config) = header_of access_token_algorithm config.active_kid
protected_header (legacy secret) = header_of legacy_token_algorithm (text "legacy-hs256")

unfoldable pub signing_key : RingKeys → Result KeyMaterial
unfolding active_private_jwk
signing_key (configured config) = Pure.◌>>=◌ (active_private_jwk config) λ key. ok (private_key key)
signing_key (legacy secret) = ok (shared_secret secret)

unfoldable pub audience_value : Audience → Value
unfolding from_items
audience_value (one audience) = string audience
audience_value (many audience) = array (from_items (map string audience))

-- The claims of a token that is signed at this time.
unfoldable pub signed_claims : JwtKeyRing → Fields → Authenik8TokenUse → ℕ → Text → ℕ → Fields
unfolding put_field token_use_name audience_value
signed_claims ring payload token_use now jti expires_in_seconds =
    put_field (text "exp") (number (now + expires_in_seconds)) (
      put_field (text "jti") (string jti) (
        put_field (text "iat") (number now) (
          put_field (text "aud") (audience_value ring.audience) (
            put_field (text "iss") (string ring.issuer)
              (put_field (text "tokenUse") (string (token_use_name token_use)) payload)))))

-- `payload.tokenUse === tokenUse`.
unfoldable pub is_text : Value → Text → Bool
unfolding eqb
is_text (string t) expected = eqb t expected
is_text _ expected = false

unfoldable pub has_token_use : Authenik8TokenUse → Fields → Bool
unfolding is_text property token_use_name
has_token_use token_use payload =
    is_text (property (text "tokenUse") (object payload)) (token_use_name token_use)

module _ {S : Type 0} (jose : Jose S) where
  unfoldable pub decode_bounded_jwt : Text → M S Fields
  unfolding assert_canonical_compact_jwt
  decode_bounded_jwt token =
      lift (assert_canonical_compact_jwt jose.base64url token) >> jose.decode token

  -- `verifyAccessTokenWithJwks` with keys that are given.
  unfoldable pub verify_access_token_with_jwks : List Jwk → Text → Audience → Text → M S Fields
  unfolding assert_canonical_compact_jwt validate_issuer_and_audience validate_public_jwks
      has_token_use
  verify_access_token_with_jwks keys issuer audience token = do
    lift (assert_canonical_compact_jwt jose.base64url token)
    lift (validate_issuer_and_audience issuer audience)
    lift (validate_public_jwks jose.base64url keys)
    payload ← jose.verify (public_keys keys) access_token_algorithm issuer audience token
    branch (not (has_token_use access payload)) (throw (plain "Expected an access token"))
        (pure payload)

  module _ (ring : JwtKeyRing) where
    unfoldable pub sign_jwt : Fields → ℕ → Authenik8TokenUse → M S Text
    unfolding protected_header signing_key signed_claims
    sign_jwt payload expires_in_seconds token_use = do
      lift (
          Pure.throw_if
            (expires_in_seconds == 0 || ltb max_generic_token_ttl_seconds expires_in_seconds)
            "JWT expiry must be between 1 and 2678400 seconds")
      now ← jose.now_ms
      jti ← jose.random_uuid
      key ← lift (signing_key ring.keys)
      jose.sign key (protected_header ring.keys)
          (signed_claims ring payload token_use (now / 1000) jti expires_in_seconds)

    unfoldable pub jwt_verify : RingKeys → Text → M S Fields
    unfolding public_jwk
    jwt_verify (configured config) token =
        jose.verify (public_keys (map public_jwk config.keys)) access_token_algorithm ring.issuer
          ring.audience token
    jwt_verify (legacy secret) token =
        jose.verify (shared_secret secret) legacy_token_algorithm ring.issuer ring.audience token

    unfoldable pub verify_jwt : Text → Authenik8TokenUse → M S Fields
    unfolding assert_canonical_compact_jwt has_token_use
    verify_jwt token token_use = do
      lift (assert_canonical_compact_jwt jose.base64url token)
      payload ← jwt_verify ring.keys token
      branch (not (has_token_use token_use payload))
          (throw (plain "Expected a token of another use")) (pure payload)
