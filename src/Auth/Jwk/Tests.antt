-- ===== src/Auth/Jwk/Tests.antt =====
-- Runs of the key ring, and instances of its theorems.
use authenik8_core_beta.Common.{
  ◌≡◌, refl, ap, sym, false, none, some, [], ◌∷◌, ◌++◌, arith, any, every,
}
use authenik8_core_beta.Common.Text as Text
use authenik8_core_beta.Common.Value as Value
use authenik8_core_beta.Common.Effects.Async as Async
use authenik8_core_beta.Common.Text.{Text, text, eqb}
use authenik8_core_beta.Common.Value.{Value, string, Fields, end, field, get_field}
use authenik8_core_beta.Common.Effects.{ok, err, plain}
use authenik8_core_beta.Common.Effects.Async.{M}
use authenik8_core_beta.Common.Effects.Hoare.{Yields}
use authenik8_core_beta.Security.ClientIp as ClientIp
use authenik8_core_beta.Auth.Jwk as Jwk
use authenik8_core_beta.Auth.Jwk.{
  Authenik8JwkConfig, Authenik8TokenUse, access, refresh, token_use_name, one,
  normalize_token_lifetime, duration,
}
use authenik8_core_beta.Auth.Jwk.Config as Config
use authenik8_core_beta.Auth.Jwk.KeyRing as KeyRing
use authenik8_core_beta.Auth.Jwk.KeyRing.{
  Jose, JwtKeyRing, configured, new_key_ring, sign_jwt, verify_jwt, signing_key,
}
use authenik8_core_beta.Auth.Jwk.Laws.{
  CanSign, CarriesUse, new_key_ring-CanSign, sign_jwt-other_use,
}

abbrev component : Text
component = text "01234567890123456789012345678901"

abbrev key : Jwk.Jwk
key = record {
  kid = some (text "k1");
  kty = some (text "EC");
  crv = some (text "P-256");
  x = some component;
  y = some component;
  d = some component;
  alg = none;
  key_use = none;
  key_ops = some (text "sign" ∷ []);
}

abbrev config : Authenik8JwkConfig
config = record {
  keys = key ∷ [];
  active_kid = text "k1";
  issuer = text "me";
  audience = one (text "api");
}

abbrev plain_base64url : Jwk.Base64url
plain_base64url = record { decode = λ t. t; encode = λ t. t }

abbrev ring : JwtKeyRing
ring = record { issuer = text "me"; audience = one (text "api"); keys = configured config }

-- A token is a text with the use at its end.
drop4 : Text → Text
drop4 (a ∷ b ∷ c ∷ d ∷ t) = t
drop4 t = t

token_for : Value → M (Unit {0}) Text
token_for (string t) s = (ok (text "a.b." ++ t), s)
token_for _ s = (err (plain "no use"), s)

abbrev test_jose : Jose (Unit {0})
test_jose = record {
  sign = λ k header claims. token_for (get_field (text "tokenUse") claims);
  verify = λ k algorithm issuer audience token s.
      (ok (field (text "tokenUse") (string (drop4 token)) end), s);
  decode = λ token s. (ok end, s);
  base64url = plain_base64url;
  now_ms = λ s. (ok 7000, s);
  random_uuid = λ s. (ok (text "uuid"), s);
}

running : Unit {0}
unfolding Text.eqb Text.is_control Text.contains_control_character Text.includes Text.is_high
    Text.is_low Text.unit_bytes Text.byte_length_from Text.byte_length Value.is_unsafe
    Value.get_field Value.put_field Value.property Value.from_items Async.◌>>=◌ Async.pure
    Async.throw Async.lift Async.branch any every ClientIp.add_to_first ClientIp.split
    Jwk.token_use_name Jwk.is_canonical Jwk.is_empty Jwk.assert_canonical_compact_jwt Jwk.amount_of
    Jwk.multiplier Jwk.duration_seconds Jwk.bounded_lifetime Jwk.normalize_token_lifetime
    Config.assert_bounded_claim Config.audiences Config.validate_issuer_and_audience Config.field_is
    Config.is_given_not Config.is_given_text Config.assert_p256_component
    Config.assert_optional_component Config.lacks_operation Config.check_key Config.check_keys
    Config.find_key Config.check_active Config.validate_jwk_config Config.public_jwk KeyRing.ring_of
    KeyRing.new_key_ring KeyRing.active_private_jwk KeyRing.header_of KeyRing.protected_header
    KeyRing.signing_key KeyRing.audience_value KeyRing.signed_claims KeyRing.is_text
    KeyRing.has_token_use KeyRing.sign_jwt KeyRing.jwt_verify KeyRing.verify_jwt drop4 token_for
running = tt

lifetime_runs :
    (normalize_token_lifetime (duration (text "15m")) "agent" 60 3600 ≡ ok 900)
    × (normalize_token_lifetime (duration (text "2h")) "agent" 60 3600 ≡ err (plain "agent"))
    × (normalize_token_lifetime (duration (text "m")) "agent" 60 3600 ≡ err (plain "agent"))
unfolding running
lifetime_runs = (refl, refl, refl)

ring_runs :
    new_key_ring plain_base64url
      (record { jwk = some config; legacy_secret = none; issuer = none; audience = none })
    ≡ ok ring
unfolding running
ring_runs = refl

ring-CanSign : CanSign (configured config) (signing_key (configured config))
ring-CanSign =
    new_key_ring-CanSign plain_base64url
      (record { jwk = some config; legacy_secret = none; issuer = none; audience = none }) ring
      ring_runs

access_runs : sign_jwt test_jose ring end 900 access tt ≡ (ok (text "a.b.access"), tt)
unfolding running
access_runs = refl

verify_runs :
    verify_jwt test_jose ring (text "a.b.access") access tt
    ≡ (ok (field (text "tokenUse") (string (text "access")) end), tt)
unfolding running
verify_runs = refl

refuses-use :
    (v : Value)
    → Yields {S = Unit {0}} (λ token. string (drop4 token) ≡ v) (λ s. (err (plain "no use"), s))
refuses-use v = record { holds = λ s token s' h. cc }

token_for-use : (v : Value) → Yields (λ token. string (drop4 token) ≡ v) (token_for v)
unfolding running
token_for-use (string t) = record {
  holds = λ s token s' h.
      let same : text "a.b." ++ t ≡ token = ground (arith, h) in
      ap (λ x. string (drop4 x)) (sym same);
}
token_for-use v = refuses-use v

test-CarriesUse : CarriesUse test_jose ring
unfolding running
test-CarriesUse = record {
  use_of = λ token. string (drop4 token);
  sign = λ k header claims. token_for-use (get_field (text "tokenUse") claims);
  verify = λ k algorithm issuer audience token. record {
    holds = λ s payload s' h.
        let same : field (text "tokenUse") (string (drop4 token)) end ≡ payload =
          ground (arith, h) in
        ap (get_field (text "tokenUse")) (sym same);
  };
}

access-other_use :
    Yields
      (λ token.
        (used : Authenik8TokenUse)
        → eqb (token_use_name access) (token_use_name used) ≡ false
        → Yields (λ p. ⊥) (verify_jwt test_jose ring token used))
      (sign_jwt test_jose ring end 900 access)
access-other_use = sign_jwt-other_use test_jose ring test-CarriesUse end 900 access
