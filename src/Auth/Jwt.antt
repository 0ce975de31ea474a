-- ===== src/Auth/Jwt.antt =====
-- src/auth/jwtAuth.ts: the claims of access tokens, and the tokens and sessions of `JWTService`.
pub mod Authenticate
pub mod Laws
mod Tests
use authenik8_core_beta.Common.{
  ℕ, String, Bool, true, false, not, ◌&&◌, ◌||◌, Option, none, some, List, [], ◌∷◌, if◌then◌else◌,
  ltb, length, any,
}
use authenik8_core_beta.Common.Text.{Text, text, byte_length}
use authenik8_core_beta.Common.Value.{
  Value, undefined, string, number, array, object, items, Fields, end, field, put_field, property,
  is_unsafe_value,
}
use authenik8_core_beta.Common.Effects.{Error, Result, ok, err, plain}
use authenik8_core_beta.Common.Effects.Pure as Pure
use authenik8_core_beta.Common.Effects.Async.{
  M, ◌>>=◌, ◌>>◌, pure, throw, lift, branch, if_present, try_catch,
}
use authenik8_core_beta.Audit as Audit
use authenik8_core_beta.Audit.{
  AuditEventInput, AuditEmitter, AuditActor, AuditSeverity, info, warning, success,
  AuthAuditEventType, access_token_issued, guest_token_issued, session_revoked, session_revoked_all,
}
use authenik8_core_beta.Risk.{RiskPrincipal, human, SessionObservation, SessionRiskState}
use authenik8_core_beta.Auth.Sessions.{SessionMetadata, StoredSession, SessionDefaults}
use authenik8_core_beta.Auth.Sessions.Store as Store
use authenik8_core_beta.Auth.Sessions.Store.{SessionStore}
use authenik8_core_beta.Auth.Jwk.{access, guest}
use authenik8_core_beta.Auth.Jwk.KeyRing.{Jose, JwtKeyRing, sign_jwt, verify_jwt}
use authenik8_core_beta.Authorization.{Request}

abbrev pub max_access_payload_bytes : ℕ
max_access_payload_bytes = 8192

abbrev pub max_identity_claim_length : ℕ
max_identity_claim_length = 256

abbrev pub max_authorization_claims : ℕ
max_authorization_claims = 64

abbrev pub max_authorization_claim_length : ℕ
max_authorization_claim_length = 128

unfoldable pub assert_optional_claim : Value → String → ℕ → Result (Unit {0})
unfolding is_unsafe_value
assert_optional_claim undefined label maximum = ok tt
assert_optional_claim value label maximum = Pure.throw_if (is_unsafe_value maximum value) label

unfoldable pub assert_optional_claim_array : Value → String → Result (Unit {0})
unfolding is_unsafe_value items any
assert_optional_claim_array undefined label = ok tt
assert_optional_claim_array (array vs) label =
    Pure.throw_if
      (ltb max_authorization_claims (length (items vs))
        || any (is_unsafe_value max_authorization_claim_length) (items vs))
      label
assert_optional_claim_array _ label = err (plain label)

abbrev claim : String → Fields → Value
claim name payload = property (text name) (object payload)

unfoldable pub validate_access_claims : Fields → Result (Unit {0})
unfolding assert_optional_claim assert_optional_claim_array property
validate_access_claims payload =
    Pure.◌>>◌
      (assert_optional_claim (claim "userId" payload) "userId is invalid" max_identity_claim_length)
      (Pure.◌>>◌
        (assert_optional_claim (claim "sessionId" payload) "sessionId is invalid"
          max_identity_claim_length)
        (Pure.◌>>◌ (assert_optional_claim (claim "email" payload) "email is invalid" 254) (
          Pure.◌>>◌
            (assert_optional_claim (claim "role" payload) "role is invalid"
              max_authorization_claim_length)
            (Pure.◌>>◌ (assert_optional_claim (claim "scope" payload) "scope is invalid" 8256) (
              Pure.◌>>◌
                (assert_optional_claim (claim "tenantId" payload) "tenantId is invalid"
                  max_identity_claim_length)
                (Pure.◌>>◌ (assert_optional_claim_array (claim "roles" payload) "roles") (
                  Pure.◌>>◌
                    (assert_optional_claim_array (claim "permissions" payload) "permissions")
                    (Pure.◌>>◌ (assert_optional_claim_array (claim "scopes" payload) "scopes")
                      (assert_optional_claim_array (claim "tenantIds" payload) "tenantIds")))))))))

-- `validateAccessPayload`, over `JSON.stringify` (`none` where it throws).
unfoldable pub validate_access_payload : (Value → Option Text) → Fields → Result (Unit {0})
unfolding validate_access_claims byte_length
validate_access_payload json_stringify payload =
    Pure.◌>>◌ (validate_access_claims payload) (elim (json_stringify (object payload)) [
      | none ↦ err (plain "Access token payload must be JSON serializable")
      | some serialized ↦
          Pure.throw_if (ltb max_access_payload_bytes (byte_length serialized))
            "Access token payload must not exceed 8192 bytes"
    ])

-- A claim that is a text and not empty.
unfoldable pub given_claim : String → Fields → Option Text
unfolding property
given_claim name payload = elim (claim name payload) [
  | string t ↦ if ltb 0 (length t) then some t else none
  | _ ↦ none
]

unfoldable pub text_claim : String → Fields → Option Text
unfolding property
text_claim name payload = elim (claim name payload) [ string t ↦ some t | _ ↦ none ]

-- What the service calls of the risk service.
pub record AccessRisk (S : Type 0) : Type 0 where
  pub quarantined_now : RiskPrincipal → M S Bool
  pub assess_context :
      RiskPrincipal → SessionObservation → SessionObservation → M S SessionRiskState

-- A request with the header `authorization` and the cookie `token`.
pub record JwtRequest : Type 0 where
  pub request : Request
  pub authorization : Value
  pub cookie : Value

-- The fields of the class. The Redis client is that of the session store.
pub record JwtService (S : Type 0) : Type 0 where
  pub expiry_seconds : ℕ
  pub on_guest_token : M S (Unit {0})
  pub allow_cookie_auth : Bool
  pub session_store : SessionStore S
  pub jose : Jose S
  pub ring : JwtKeyRing
  pub emit : AuditEmitter S
  pub risk : Option (AccessRisk S)
  pub resolve_request_context : Option (JwtRequest → M S SessionObservation)
  pub json_stringify : Value → Option Text

-- `meta?.device || "unknown"`.
unfoldable pub or_unknown : Option Text → Text
or_unknown none = text "unknown"
or_unknown (some t) = if ltb 0 (length t) then t else text "unknown"

unfoldable pub user_subject : Option Text → AuditActor
user_subject none = record { type = Audit.unknown; id = none }
user_subject (some id) = record { type = Audit.user; id = some id }

-- An event of the system about this subject.
unfoldable pub token_event :
    AuthAuditEventType → AuditSeverity → AuditActor → Option Text → Option Text → AuditEventInput
token_event type severity subject session_id tenant_id = record {
  type = type;
  severity = severity;
  outcome = success;
  actor = record { type = Audit.system; id = none };
  subject = some subject;
  session_id = session_id;
  tenant_id = tenant_id;
  correlation_id = none;
  metadata = end;
}

module _ {S : Type 0} (service : JwtService S) where
  unfoldable pub list_sessions : Text → M S (List SessionMetadata)
  list_sessions user_id = Store.list service.session_store user_id

  unfoldable pub revoke_all_sessions : Text → M S (Unit {0})
  revoke_all_sessions user_id =
      Store.revoke_all service.session_store user_id
      >> service.emit
          (token_event session_revoked_all warning (user_subject (some user_id)) none none)

  unfoldable pub revoke_session : Text → Text → M S (Unit {0})
  revoke_session user_id session_id =
      Store.revoke service.session_store user_id session_id
      >> service.emit
          (token_event session_revoked warning (user_subject (some user_id)) (some session_id) none)

  unfoldable pub signed_session_id : Option Text → M S Text
  signed_session_id none = service.jose.random_uuid
  signed_session_id (some session_id) = pure session_id

  -- `persistSessionToken`; without a Redis client, `updateToken` does nothing.
  unfoldable pub persist_session_token :
      Option Text → Text → Text → SessionDefaults → M S (Unit {0})
  persist_session_token user_id session_id token metadata =
      if_present service.session_store.redis
        (λ redis.
          if_present user_id
            (λ user.
              Store.update_token service.session_store user session_id token service.expiry_seconds
                (some metadata))
            (pure tt))
        (pure tt)

  unfoldable pub revoke_signed : Option Text → Text → M S (Unit {0})
  revoke_signed user_id session_id =
      if_present user_id (λ user. Store.revoke service.session_store user session_id) (pure tt)

  unfoldable pub sign_token : Fields → Option Text → Option Text → M S Text
  unfolding validate_access_payload put_field
  sign_token payload device ip = do
    lift (validate_access_payload service.json_stringify payload)
    session_id ← signed_session_id (text_claim "sessionId" payload)
    token ←
        sign_jwt service.jose service.ring
          (put_field (text "sessionId") (string session_id) payload) service.expiry_seconds access
    now ← service.session_store.now
    persist_session_token (given_claim "userId" payload) session_id token (record {
      device = some (or_unknown device);
      ip = some (or_unknown ip);
      created_at = some now;
    })
    try_catch
          (service.emit (
            token_event access_token_issued info (user_subject (given_claim "userId" payload))
              (some session_id) (text_claim "tenantId" payload)))
          (λ error. revoke_signed (given_claim "userId" payload) session_id >> throw error)
        >> pure token

  unfoldable pub guest_token : M S Text
  guest_token = do
    id ← service.jose.random_uuid
    now ← service.session_store.now
    service.on_guest_token
    token ←
        sign_jwt service.jose service.ring
          (field (text "type") (string (text "guest"))
            (field (text "id") (string id) (field (text "createdAt") (number now) end)))
          service.expiry_seconds guest
    service.emit (
        token_event guest_token_issued info (record { type = Audit.guest; id = some id }) none none)
    pure token

  unfoldable pub verify_token : Text → M S (Option Fields)
  unfolding validate_access_claims
  verify_token token =
      try_catch
        (verify_jwt service.jose service.ring token access >>= λ payload.
          lift (validate_access_claims payload) >> pure (some payload))
        (λ error. pure none)

  unfoldable pub verify_guest_token : Text → M S (Option Fields)
  verify_guest_token token =
      try_catch
        (verify_jwt service.jose service.ring token guest >>= λ payload. pure (some payload))
        (λ error. pure none)

  -- `await this.risk?.isQuarantined(principal)`.
  unfoldable pub is_quarantined_now : RiskPrincipal → M S Bool
  is_quarantined_now principal =
      if_present service.risk (λ risk. risk.quarantined_now principal) (pure false)

  unfoldable pub session_is_active : RiskPrincipal → Option StoredSession → M S Bool
  session_is_active principal none = pure false
  session_is_active principal (some session) =
      is_quarantined_now principal >>= λ quarantined. pure (not quarantined)

  unfoldable pub has_active_session : Text → Text → M S Bool
  has_active_session user_id session_id =
      if_present service.session_store.redis
        (λ redis. Store.get service.session_store user_id session_id >>= λ session.
          session_is_active (record { kind = human; id = user_id; session_id = session_id })
            session)
        (pure false)
