-- ===== src/Risk.antt =====
-- src/risk/types.ts and the values of src/risk/sessionRiskService.ts: principals, signals, stored
-- states and the settings of the service.
pub mod States
pub mod Service
mod Tests
use authenik8_core_beta.Common.{
  ℕ, ◌≡◌, refl, String, Bool, true, false, not, ◌&&◌, ◌||◌, Option, none, some, List, [], ◌∷◌, map,
  if◌then◌else◌, ltb, leb, ◌==◌, length, any, every,
}
use authenik8_core_beta.Common.Text.{Text, text, eqb, byte_length, distinct, includes}
use authenik8_core_beta.Common.Value.{
  Value, undefined, string, array, object, Fields, end, field, items, from_items, property,
  is_object, is_unsafe,
}
use authenik8_core_beta.Common.Effects.{Error, Result, ok, err, plain, out_of_range}
use authenik8_core_beta.Common.Effects.Pure.{◌>>=◌, ◌>>◌, throw_if, traverse}
use authenik8_core_beta.Redis.{validate_redis_key_prefix}

pub data RiskPrincipalKind : Type 0 where
  human agent : RiskPrincipalKind

pub data RiskSignalType : Type 0 where
  refresh_replay concurrent_refresh ip_change device_change suspicious_agent_activity :
      RiskSignalType

pub record RiskPrincipal : Type 0 where
  pub kind : RiskPrincipalKind
  pub id : Text
  pub session_id : Text

pub record SessionObservation : Type 0 where
  pub ip : Option Text
  pub device : Option Text

pub record RiskSignal : Type 0 where
  pub type : RiskSignalType
  pub principal : RiskPrincipal
  pub fingerprint : Option Text
  pub metadata : Fields

pub data SessionStatus : Type 0 where
  active quarantined : SessionStatus

pub record SessionRiskState : Type 0 where
  pub status : SessionStatus
  pub reasons : List RiskSignalType
  pub quarantined_at : Option Text
  pub expires_at : Option Text

pub data ContextChangeAction : Type 0 where
  ignore audit quarantine : ContextChangeAction

pub record SessionRiskConfig : Type 0 where
  pub enabled : Option Bool
  pub signal_window_seconds : Option ℕ
  pub quarantine_seconds : Option ℕ
  pub concurrent_refresh_threshold : Option ℕ
  pub suspicious_agent_threshold : Option ℕ
  pub ip_change_action : Option ContextChangeAction
  pub device_change_action : Option ContextChangeAction

-- The fields that the constructor sets.
pub record RiskSettings : Type 0 where
  pub enabled : Bool
  pub signal_window_seconds : ℕ
  pub quarantine_seconds : ℕ
  pub concurrent_refresh_threshold : ℕ
  pub suspicious_agent_threshold : ℕ
  pub ip_change_action : ContextChangeAction
  pub device_change_action : ContextChangeAction
  pub key_prefix : Text

unfoldable pub signal_text : RiskSignalType → Text
signal_text refresh_replay = text "refresh_replay"
signal_text concurrent_refresh = text "concurrent_refresh"
signal_text ip_change = text "ip_change"
signal_text device_change = text "device_change"
signal_text suspicious_agent_activity = text "suspicious_agent_activity"

-- SIGNAL_TYPES.
abbrev pub signal_types : List RiskSignalType
signal_types =
    refresh_replay ∷ concurrent_refresh ∷ ip_change ∷ device_change ∷ suspicious_agent_activity ∷ []

-- The member of SIGNAL_TYPES with this spelling.
unfoldable pub find_signal : Text → List RiskSignalType → Option RiskSignalType
unfolding signal_text
find_signal t [] = none
find_signal t (s ∷ ss) = if eqb (signal_text s) t then some s else find_signal t ss

unfoldable pub kind_text : RiskPrincipalKind → Text
kind_text human = text "human"
kind_text agent = text "agent"

abbrev pub active_state : SessionRiskState
active_state = record { status = active; reasons = []; quarantined_at = none; expires_at = none }

abbrev pub or_default {ℓ} : {A : Type ℓ} → Option A → A → A
or_default none d = d
or_default (some a) d = a

unfoldable pub positive_integer : Option ℕ → ℕ → String → ℕ → Result ℕ
positive_integer value fallback name maximum =
    let resolved = or_default value fallback in
    if resolved == 0 || ltb maximum resolved then err (out_of_range name maximum) else ok resolved

abbrev pub max_risk_identifier_length : ℕ
max_risk_identifier_length = 256

abbrev pub max_risk_fingerprint_length : ℕ
max_risk_fingerprint_length = 512

abbrev pub max_risk_state_bytes : ℕ
max_risk_state_bytes = 4096

unfoldable pub validate_principal : RiskPrincipal → Result (Unit {0})
unfolding is_unsafe
validate_principal principal =
    throw_if
      (is_unsafe max_risk_identifier_length principal.id
        || is_unsafe max_risk_identifier_length principal.session_id)
      "Risk principal is invalid"

unfoldable pub validate_fingerprint : Option Text → Result (Unit {0})
unfolding is_unsafe
validate_fingerprint none = ok tt
validate_fingerprint (some fingerprint) =
    throw_if (is_unsafe max_risk_fingerprint_length fingerprint)
      "Risk signal fingerprint is invalid"

-- The constructor of `SessionRiskService`, for the configuration and the key prefix.
unfoldable pub risk_settings : SessionRiskConfig → Text → Result RiskSettings
unfolding positive_integer validate_redis_key_prefix
risk_settings config prefix = do
  key_prefix ← validate_redis_key_prefix prefix
  window ← positive_integer config.signal_window_seconds 300 "risk.signalWindowSeconds" 31_622_400
  seconds ← positive_integer config.quarantine_seconds 900 "risk.quarantineSeconds" 31_622_400
  concurrent ←
      positive_integer config.concurrent_refresh_threshold 2 "risk.concurrentRefreshThreshold"
        1_000_000
  suspicious ←
      positive_integer config.suspicious_agent_threshold 5 "risk.suspiciousAgentThreshold" 1_000_000
  ok (record {
    enabled = or_default config.enabled true;
    signal_window_seconds = window;
    quarantine_seconds = seconds;
    concurrent_refresh_threshold = concurrent;
    suspicious_agent_threshold = suspicious;
    ip_change_action = or_default config.ip_change_action audit;
    device_change_action = or_default config.device_change_action audit;
    key_prefix = key_prefix;
  })
