-- ===== src/Auth/Jwk/Laws.antt =====
-- What a key ring of src/auth/jwk.ts signs with, and which tokens it accepts.
use authenik8_core_beta.Common.{
  Bool-cases, ℕ, ◌≡◌, refl, ap, sym, subst, ◌∙◌, inl, inr, true, false, Option, none, some, List,
  [], ◌∷◌, arith,
}
use authenik8_core_beta.Common.Text.{Text, text, eqb, eqb→eq, eqb_refl}
use authenik8_core_beta.Common.Value.{
  Value, string, Fields, end, field, put_field, get_field, property,
}
use authenik8_core_beta.Common.Effects.{Result, ok, err}
use authenik8_core_beta.Common.Effects.Pure.{>>=-eq-ok, ◌>>=◌}
use authenik8_core_beta.Common.Effects.Hoare.{
  Yields, Yields-then, Yields-bind, Yields-pure, Yields-branch, Yields-lift, Yields-throw,
  Yields-weaken,
}
use authenik8_core_beta.Auth.Jwk.{
  Jwk, Authenik8JwkConfig, Authenik8TokenUse, token_use_name, Base64url, Audience, hmac_secret,
}
use authenik8_core_beta.Auth.Jwk.Config.{
  is_given_text, find_key, field_is, check_active, validate_jwk_config,
  validate_issuer_and_audience,
}
use authenik8_core_beta.Auth.Jwk.KeyRing.{
  KeyMaterial, private_key, shared_secret, Jose, JwtKeyRingOptions, JwtKeyRing, RingKeys,
  configured, legacy, legacy_ring, ring_of, new_key_ring, signing_key, active_private_jwk,
  signed_claims, is_text, has_token_use, sign_jwt, verify_jwt, jwt_verify,
}

field_is-eq : (found : Option Text) (kid : Text) → field_is found kid ≡ true → found ≡ some kid
unfolding field_is
field_is-eq none kid h = cc
field_is-eq (some t) kid h = ap some (eqb→eq t kid h)

find_key-kid :
    (kid : Text) (keys : List Jwk) (key : Jwk) → find_key kid keys ≡ some key → key.kid ≡ some kid
unfolding find_key
find_key-kid kid [] key h = cc
find_key-kid kid (k ∷ ks) key h = elim (Bool-cases (field_is k.kid kid)) [
  | inl e ↦
      let same : k ≡ key = ground (arith, h, e) in
      ap (λ j. j.kid) (sym same) ∙ field_is-eq k.kid kid e
  | inr e ↦ find_key-kid kid ks key (ground (arith, h, e))
]

-- What a ring signs with: a private key under the active identifier, or a secret.
abbrev pub CanSign : RingKeys → Result KeyMaterial → Type 0
CanSign (configured config) material =
    (key : Jwk) × (material ≡ ok (private_key key))
    × (key.kid ≡ some config.active_kid)
    × (is_given_text key.d ≡ true)
CanSign (legacy secret) material = material ≡ ok (shared_secret secret)

active-CanSign :
    (config : Authenik8JwkConfig) (found : Option Jwk)
    → find_key config.active_kid config.keys ≡ found
    → check_active found ≡ ok tt
    → CanSign (configured config) (signing_key (configured config))
unfolding check_active signing_key active_private_jwk
active-CanSign config none e h = cc
active-CanSign config (some key) e h =
    (key, ground (arith, e), find_key-kid config.active_kid config.keys key e, ground (arith, h))

validate_jwk_config-active :
    (base64url : Base64url) (config : Authenik8JwkConfig)
    → validate_jwk_config base64url config ≡ ok tt
    → check_active (find_key config.active_kid config.keys) ≡ ok tt
unfolding validate_jwk_config
validate_jwk_config-active base64url config h = ground (arith, h)

abbrev secret_ring : Text → Text → Audience → JwtKeyRing
secret_ring encoded issuer audience = record {
  issuer = issuer;
  audience = audience;
  keys = legacy encoded;
}

legacy_ring-CanSign :
    (secret issuer : Text) (audience : Audience) (ring : JwtKeyRing)
    → legacy_ring secret issuer audience ≡ ok ring
    → CanSign ring.keys (signing_key ring.keys)
unfolding legacy_ring signing_key
legacy_ring-CanSign secret issuer audience ring h =
    let (encoded, e, k) =
      >>=-eq-ok (hmac_secret secret)
        (λ encoded. validate_issuer_and_audience issuer audience >>= λ u.
          ok (secret_ring encoded issuer audience))
        {y = ring} (ground (arith, h)) in
    let (u, e', built) =
      >>=-eq-ok (validate_issuer_and_audience issuer audience)
        (λ u. ok (secret_ring encoded issuer audience)) {y = ring} k in
    let same : secret_ring encoded issuer audience ≡ ring = ground (arith, built) in
    subst (λ r. CanSign r.keys (signing_key r.keys)) same refl

ring_of-CanSign :
    (base64url : Base64url) (jwk : Option Authenik8JwkConfig) (secret : Option Text) (issuer : Text)
    (audience : Audience) (ring : JwtKeyRing)
    → ring_of base64url jwk secret issuer audience ≡ ok ring
    → CanSign ring.keys (signing_key ring.keys)
unfolding ring_of
ring_of-CanSign base64url (some config) secret issuer audience ring h =
    let (u, valid, built) = >>=-eq-ok (validate_jwk_config base64url config) _ h in
    let same : configured config ≡ ring.keys = ap (λ r. keys_of r) built in
    subst (λ keys. CanSign keys (signing_key keys)) same
      (active-CanSign config _ refl (validate_jwk_config-active base64url config valid))
  where
    keys_of : Result JwtKeyRing → RingKeys
    keys_of (ok r) = r.keys
    keys_of (err e) = configured config
ring_of-CanSign base64url none none issuer audience ring h = cc
ring_of-CanSign base64url none (some secret) issuer audience ring h =
    legacy_ring-CanSign secret issuer audience ring h

-- A key ring that the constructor has made can sign: with the private key of the active identifier,
-- or with the secret where no keys are configured, so that the key which `activePrivateJwk` takes for
-- granted is there.
pub new_key_ring-CanSign :
    (base64url : Base64url) (options : JwtKeyRingOptions) (ring : JwtKeyRing)
    → new_key_ring base64url options ≡ ok ring
    → CanSign ring.keys (signing_key ring.keys)
unfolding new_key_ring
new_key_ring-CanSign base64url options ring h =
    ring_of-CanSign base64url options.jwk options.legacy_secret _ _ ring h

put_field_ne :
    (k j : Text) (v : Value) (fs : Fields)
    → eqb k j ≡ false
    → get_field j (put_field k v fs) ≡ get_field j fs
unfolding put_field get_field
put_field_ne k j v end h = rw h refl
put_field_ne k j v (field i w fs) h = elim (Bool-cases (eqb i k)) [
  | inl e ↦ let same = eqb→eq i k e in rw e (ground (arith, h, same))
  | inr e ↦ rw e (ground (arith, put_field_ne k j v fs h))
]

put_field_eq : (k : Text) (v : Value) (fs : Fields) → get_field k (put_field k v fs) ≡ v
unfolding put_field get_field
put_field_eq k v end = ground (arith, eqb_refl k)
put_field_eq k v (field i w fs) = elim (Bool-cases (eqb i k)) [
  | inl e ↦ rw e (ground (arith, e))
  | inr e ↦ rw e (ground (arith, e, put_field_eq k v fs))
]

-- The claims of a signed token have its use.
signed_claims-use :
    (ring : JwtKeyRing) (payload : Fields) (token_use : Authenik8TokenUse) (now : ℕ) (jti : Text)
    (expiry : ℕ)
    → get_field (text "tokenUse") (signed_claims ring payload token_use now jti expiry)
      ≡ string (token_use_name token_use)
unfolding signed_claims eqb
signed_claims-use ring payload token_use now jti expiry =
    put_field_ne (text "exp") (text "tokenUse") _ _ refl
    ∙ (put_field_ne (text "jti") (text "tokenUse") _ _ refl
        ∙ (put_field_ne (text "iat") (text "tokenUse") _ _ refl
            ∙ (put_field_ne (text "aud") (text "tokenUse") _ _ refl
                ∙ (put_field_ne (text "iss") (text "tokenUse") _ _ refl
                    ∙ put_field_eq (text "tokenUse") _ payload))))

use-refused :
    (used signed : Authenik8TokenUse) (claims : Fields)
    → get_field (text "tokenUse") claims ≡ string (token_use_name signed)
    → eqb (token_use_name signed) (token_use_name used) ≡ false
    → has_token_use used claims ≡ false
unfolding has_token_use is_text property
use-refused used signed claims e h = ap (λ v. is_text v (token_use_name used)) e ∙ h

module _ {S : Type 0} (jose : Jose S) (ring : JwtKeyRing) where
  -- A verified token is of the use that was asked for.
  pub verify_jwt-use :
      (token : Text) (token_use : Authenik8TokenUse)
      → Yields
          (λ payload. has_token_use token_use payload ≡ true)
          (verify_jwt jose ring token token_use)
  unfolding verify_jwt
  verify_jwt-use token token_use = Yields-lift _ _ λ u c.
      Yields-then _ _
        λ payload. Yields-branch _ _ _ (λ h. Yields-throw _) λ h. Yields-pure _ (ground (arith, h))

  -- What the code relies on of jose: a token carries the claim `tokenUse` that it was signed with, and
  -- a verification gives it.
  pub record CarriesUse : Type 0 where
    pub use_of : Text → Value
    pub sign :
        (key : KeyMaterial) (header claims : Fields)
        → Yields
            (λ token. use_of token ≡ get_field (text "tokenUse") claims)
            (jose.sign key header claims)
    pub verify :
        (key : KeyMaterial) (algorithm issuer : Text) (audience : Audience) (token : Text)
        → Yields
            (λ payload. get_field (text "tokenUse") payload ≡ use_of token)
            (jose.verify key algorithm issuer audience token)

  module _ (laws : CarriesUse) where
    verify-use :
        (keys : RingKeys) (token : Text)
        → Yields
            (λ payload. get_field (text "tokenUse") payload ≡ laws.use_of token)
            (jwt_verify jose ring keys token)
    unfolding jwt_verify
    verify-use (configured config) token = laws.verify _ _ _ _ token
    verify-use (legacy secret) token = laws.verify _ _ _ _ token

    -- A token that a key ring has signed for one use is accepted for no use of another name: no such
    -- verification returns, if a token carries the use that it was signed with.
    pub sign_jwt-other_use :
        (payload : Fields) (expiry : ℕ) (signed : Authenik8TokenUse)
        → Yields
            (λ token.
              (used : Authenik8TokenUse)
              → eqb (token_use_name signed) (token_use_name used) ≡ false
              → Yields (λ p. ⊥) (verify_jwt jose ring token used))
            (sign_jwt jose ring payload expiry signed)
    unfolding sign_jwt verify_jwt
    sign_jwt-other_use payload expiry signed = Yields-then _ _ λ u. Yields-then _ _ λ now.
        Yields-then _ _ λ jti. Yields-then _ _ λ key.
          Yields-weaken
            (λ token carries used other. Yields-then _ _ λ c.
              Yields-bind _ _ _ (verify-use ring.keys token) λ found same.
                Yields-branch _ _ _ (λ h. Yields-throw _)
                  λ h. absurd (
                    ground (
                      arith,
                      h,
                      use-refused used signed found
                          (same ∙ (carries ∙ signed_claims-use ring payload signed _ jti expiry))
                          other,
                    )))
            (laws.sign _ _ _)
