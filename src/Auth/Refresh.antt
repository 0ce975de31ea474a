-- ===== src/Auth/Refresh.antt =====
-- src/auth/refreshService.ts: `RefreshService`, over any token store, Redis client, signer and key
-- ring.
pub mod Flow
pub mod Issue
pub mod Laws
pub mod Rotation
pub mod Liveness
mod Tests
use authenik8_core_beta.Common.{
  ℕ, Bool, true, false, not, ◌&&◌, ◌||◌, Option, none, some, List, [], ◌∷◌, ◌++◌, if◌then◌else◌,
  ltb, ◌==◌, length, map, filter, String, take,
}
use authenik8_core_beta.Common.Text.{Text, text, join, distinct}
use authenik8_core_beta.Common.Value.{Value, undefined, string, is_unsafe, end}
use authenik8_core_beta.Common.Effects.{
  Error, Result, ok, err, plain, missing_token, invalid_token, unsafe_text,
}
use authenik8_core_beta.Common.Effects.Async.{
  M, ◌>>=◌, ◌>>◌, pure, throw, lift, branch, try_catch, try_finally, if_present,
}
use authenik8_core_beta.Common.Effects.Pure as Pure
use authenik8_core_beta.Audit.{
  AuditEventInput, AuditEmitter, AuditActor, user, system, AuditSeverity, info, warning, critical,
  AuditOutcome, success, denied, AuthAuditEventType, refresh_token_issued, refresh_token_rotated,
  refresh_token_replay_detected, refresh_token_concurrent_use_detected, session_revoked,
  session_revoked_all,
}
use authenik8_core_beta.Risk.{
  RiskPrincipal, human, RiskSignalType, refresh_replay, concurrent_refresh, RiskSignal,
}
use authenik8_core_beta.Risk.Service.{SessionRiskReporter}
use authenik8_core_beta.Auth.{
  Platform, SessionRedisClient, LockRedisClient, token_fingerprint, token_fingerprint_matches,
  max_identifier_length, assert_identifier, acquire, release,
}
use authenik8_core_beta.Auth.Sessions.{matches_token_hash, or_none}
use authenik8_core_beta.Auth.Sessions.Store.{SessionStore}
use authenik8_core_beta.Auth.Sessions.Store as Store

-- `RequiredRefreshPayload`.
pub record RefreshPayload : Type 0 where
  pub user_id : Text
  pub email : Text
  pub session_id : Text

-- The claims that the service reads of a verified token.
pub record RefreshClaims : Type 0 where
  pub user_id : Value
  pub email : Value
  pub session_id : Value

-- `TokenStore`; an expiry that is 0 counts as none.
pub record TokenStore (S : Type 0) : Type 0 where
  pub get : Text → M S (Option Text)
  pub set : Option (Text → Text → ℕ → M S (Unit {0}))
  pub del : Option (Text → M S (Unit {0}))
  pub compare_and_set : Option (Text → Text → Text → ℕ → M S Bool)

-- `JwtKeyRing`, as the service uses it: it signs for a time in seconds and verifies refresh tokens.
pub record RefreshKeys (S : Type 0) : Type 0 where
  pub sign : RefreshPayload → ℕ → M S Text
  pub verify : Text → M S RefreshClaims

pub record RefreshResult : Type 0 where
  pub access_token : Text
  pub refresh_token : Text

-- The fields of the class. The Redis client is there; each of its hash commands may be absent.
pub record RefreshService (S : Type 0) : Type 0 where
  pub token_store : TokenStore S
  pub access_token_signer : RefreshPayload → M S Text
  pub rotate_refresh_tokens : Bool
  pub refresh_token_ttl : ℕ
  pub lock : LockRedisClient S
  pub session_store : SessionStore S
  pub refresh_keys : RefreshKeys S
  pub redis : SessionRedisClient S
  pub emit : AuditEmitter S
  pub risk : Option (SessionRiskReporter S)
  pub key_prefix : Text
  pub random_uuid : M S Text
  pub platform : Platform

abbrev pub refresh_lock_ttl_ms : ℕ
refresh_lock_ttl_ms = 30_000

abbrev pub max_fallback_session_ids : ℕ
max_fallback_session_ids = 10_000

-- `validateRefreshIdentifier` on a value of any type.
unfoldable pub validate_refresh_identifier : Value → String → Result Text
unfolding assert_identifier
validate_refresh_identifier (string value) label = assert_identifier value label
validate_refresh_identifier _ label = err (unsafe_text label max_identifier_length)

unfoldable pub is_refresh_email : Value → Bool
unfolding is_unsafe
is_refresh_email (string email) = not (is_unsafe 254 email)
is_refresh_email _ = false

unfoldable pub pair_digest : Platform → Text → Text → Text
pair_digest platform first second = platform.sha256 (first ++ 0 ∷ second)

-- `refreshTokenMatches` on a stored text, which is a fingerprint or, from older versions, a token.
unfoldable pub expected_fingerprint : Platform → Text → Text
unfolding matches_token_hash token_fingerprint
expected_fingerprint platform stored =
    if matches_token_hash stored then stored else token_fingerprint platform stored

unfoldable pub refresh_token_matches : Platform → Option Text → Text → Result Bool
refresh_token_matches platform none presented = ok false
refresh_token_matches platform (some stored) presented =
    if length stored == 0 || ltb 16_384 (length stored)
    then ok false
    else token_fingerprint_matches platform (string (expected_fingerprint platform stored))
        presented

-- What `verifyRefreshToken` makes of the claims.
unfoldable pub payload_of : RefreshClaims → Result RefreshPayload
unfolding is_refresh_email
payload_of claims = Pure.◌>>=◌ (validate_refresh_identifier claims.user_id "userId") λ user_id.
    Pure.◌>>=◌ (validate_refresh_identifier claims.session_id "sessionId") λ session_id.
      elim claims.email [
        | string email ↦
            if is_refresh_email (string email)
            then ok (record { user_id = user_id; email = email; session_id = session_id })
            else err (invalid_token "Invalid refresh token")
        | _ ↦ err (invalid_token "Invalid refresh token")
      ]

-- The handler of `verifyRefreshToken`.
unfoldable pub as_invalid : Error → Error
as_invalid (invalid_token message) = invalid_token message
as_invalid _ = invalid_token "Invalid refresh token"

unfoldable pub refresh_principal : RefreshPayload → RiskPrincipal
refresh_principal decoded = record {
  kind = human;
  id = decoded.user_id;
  session_id = decoded.session_id;
}

unfoldable pub refresh_signal : RiskSignalType → RefreshPayload → RiskSignal
refresh_signal type decoded = record {
  type = type;
  principal = refresh_principal decoded;
  fingerprint = none;
  metadata = end;
}

-- The events of the service: about a user as the actor, or of the system with the user as subject.
unfoldable pub actor_event :
    AuthAuditEventType → AuditSeverity → AuditOutcome → RefreshPayload → AuditEventInput
actor_event type severity outcome decoded = record {
  type = type;
  severity = severity;
  outcome = outcome;
  actor = record { type = user; id = some decoded.user_id };
  subject = none;
  session_id = some decoded.session_id;
  tenant_id = none;
  correlation_id = none;
  metadata = end;
}

unfoldable pub subject_event :
    AuthAuditEventType → AuditSeverity → Text → Option Text → AuditEventInput
subject_event type severity user_id session_id = record {
  type = type;
  severity = severity;
  outcome = success;
  actor = record { type = system; id = none };
  subject = some (record { type = user; id = some user_id });
  session_id = session_id;
  tenant_id = none;
  correlation_id = none;
  metadata = end;
}

unfoldable pub is_nonempty : Text → Bool
is_nonempty t = not (length t == 0)

module _ {S : Type 0} (service : RefreshService S) where
  -- `[this.keyPrefix, ...parts].filter(Boolean).join(":")`.
  unfoldable pub scoped : List Text → Text
  unfolding join filter is_nonempty
  scoped parts = join (text ":") (filter is_nonempty (service.key_prefix ∷ parts))

  unfoldable pub refresh_key : Text → Text → Text
  refresh_key user_id session_id =
      scoped (text "refresh" ∷ pair_digest service.platform user_id session_id ∷ [])

  unfoldable pub refresh_family_index_key : Text → Text
  refresh_family_index_key user_id = scoped (text "refresh-families" ∷ user_id ∷ [])

  unfoldable pub lock_key : Text → Text → Text
  lock_key user_id session_id =
      scoped (text "lock" ∷ pair_digest service.platform user_id session_id ∷ [])

  unfoldable pub sign_refresh_token : RefreshPayload → M S Text
  sign_refresh_token payload = service.refresh_keys.sign payload service.refresh_token_ttl

  unfoldable pub verify_refresh_token : Text → M S RefreshPayload
  verify_refresh_token token =
      try_catch (service.refresh_keys.verify token >>= λ claims. lift (payload_of claims))
        λ error. throw (as_invalid error)

  unfoldable pub revoke_refresh_family : Text → Text → M S (Unit {0})
  revoke_refresh_family user_id session_id = do
    if_present service.token_store.del (λ del. del (refresh_key user_id session_id)) (pure tt)
    if_present service.redis.hdel (λ hdel. hdel (refresh_family_index_key user_id) session_id)
        (pure tt)
    Store.revoke service.session_store user_id session_id

  unfoldable pub track_refresh_family : Text → Text → M S (Unit {0})
  track_refresh_family user_id session_id =
      if_present service.redis.hset
        (λ hset. do
          hset (refresh_family_index_key user_id) session_id (text "1")
          if_present service.redis.expire
              (λ expire. expire (refresh_family_index_key user_id) service.refresh_token_ttl)
              (pure tt))
        (pure tt)

  unfoldable pub report_risk : RiskSignal → M S (Unit {0})
  report_risk signal =
      if_present service.risk (λ risk. risk.report_signal signal >>= λ state. pure tt) (pure tt)

  unfoldable pub report_concurrent_refresh : RefreshPayload → M S (Unit {0})
  report_concurrent_refresh decoded = do
    report_risk (refresh_signal concurrent_refresh decoded)
    service.emit (actor_event refresh_token_concurrent_use_detected warning denied decoded)
