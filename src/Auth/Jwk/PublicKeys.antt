-- ===== src/Auth/Jwk/PublicKeys.antt =====
-- src/auth/jwk.ts: `validatePublicJwks`.
use authenik8_core_beta.Common.{
  Bool, true, false, not, ◌||◌, Option, none, some, List, [], ◌∷◌, ltb, ◌==◌, length,
}
use authenik8_core_beta.Common.Text.{Text, text, includes}
use authenik8_core_beta.Common.Effects.{Result, ok, err, plain}
use authenik8_core_beta.Common.Effects.Pure as Pure
use authenik8_core_beta.Auth.Jwk.{
  Jwk, Base64url, max_jwk_keys, max_kid_length, access_token_algorithm,
}
use authenik8_core_beta.Auth.Jwk.Config.{
  assert_bounded_claim, field_is, is_given_not, lacks_operation, assert_p256_component,
}

unfoldable pub check_public_key : Base64url → List Text → Text → Jwk → Result (Unit {0})
unfolding assert_bounded_claim includes field_is assert_p256_component is_given_not lacks_operation
check_public_key base64url kids kid key =
    Pure.◌>>◌ (assert_bounded_claim kid "JWKS kid" max_kid_length) (
      Pure.◌>>◌ (Pure.throw_if (includes kids kid) "JWKS contains a duplicate kid") (
        Pure.◌>>◌
          (Pure.throw_if
            (not (field_is key.kty (text "EC"))
              || not (field_is key.crv (text "P-256"))
              || is_given key.d)
            "JWKS key must be a public P-256 EC key")
          (Pure.◌>>◌ (assert_p256_component base64url key.x) (
            Pure.◌>>◌ (assert_p256_component base64url key.y) (
              Pure.◌>>◌
                (Pure.throw_if (is_given_not key.alg access_token_algorithm)
                  "JWKS key must use ES256")
                (Pure.◌>>◌
                  (Pure.throw_if (is_given_not key.key_use (text "sig"))
                    "JWKS key must declare use=sig")
                  (Pure.throw_if (lacks_operation key.key_ops (text "verify"))
                    "JWKS key has incompatible key_ops")))))))
  where
    is_given : Option Text → Bool
    is_given none = false
    is_given (some d) = true

unfoldable pub check_public_keys : Base64url → List Text → List Jwk → Result (Unit {0})
unfolding check_public_key
check_public_keys base64url kids [] = ok tt
check_public_keys base64url kids (key ∷ keys) = elim key.kid [
  | none ↦ err (plain "JWKS kid is invalid or exceeds 128 characters")
  | some kid ↦
      Pure.◌>>◌ (check_public_key base64url kids kid key)
        (check_public_keys base64url (kid ∷ kids) keys)
]

unfoldable pub validate_public_jwks : Base64url → List Jwk → Result (Unit {0})
unfolding check_public_keys
validate_public_jwks base64url keys =
    Pure.◌>>◌
      (Pure.throw_if (length keys == 0 || ltb max_jwk_keys (length keys))
        "JWKS must contain between 1 and 16 public keys")
      (check_public_keys base64url [] keys)
