-- ===== src/Risk/States/Laws.antt =====
-- Stored states of src/risk/sessionRiskService.ts: what is read back is what was written.
use authenik8_core_beta.Common.{
  ◌≤◌, ◌<◌, ◌≡◌, refl, true, some, List, [], ◌∷◌, map, length, arith, length-map,
}
use authenik8_core_beta.Common.Text.{Text, eqb, byte_length}
use authenik8_core_beta.Common.Value.{array, from_items, items-from_items}
use authenik8_core_beta.Common.Effects.{ok}
use authenik8_core_beta.Common.Effects.Pure.{traverse}
use authenik8_core_beta.Risk.{
  RiskSignalType, refresh_replay, concurrent_refresh, ip_change, device_change,
  suspicious_agent_activity, quarantined, SessionRiskState, max_risk_state_bytes,
}
use authenik8_core_beta.Risk.States.{
  Platform, signal_eqb, unique, read_reason, read_reasons, read_date, read_state, parse_risk_state,
  reason_value, state_value,
}

pub signal_eqb→eq : (a b : RiskSignalType) → signal_eqb a b ≡ true → a ≡ b
unfolding signal_eqb
signal_eqb→eq refresh_replay refresh_replay h = refl
signal_eqb→eq concurrent_refresh concurrent_refresh h = refl
signal_eqb→eq ip_change ip_change h = refl
signal_eqb→eq device_change device_change h = refl
signal_eqb→eq suspicious_agent_activity suspicious_agent_activity h = refl
signal_eqb→eq _ _ h = cc

pub signal_eqb_refl : (a : RiskSignalType) → signal_eqb a a ≡ true
unfolding signal_eqb
signal_eqb_refl refresh_replay = refl
signal_eqb_refl concurrent_refresh = refl
signal_eqb_refl ip_change = refl
signal_eqb_refl device_change = refl
signal_eqb_refl suspicious_agent_activity = refl

read_reason-reason_value : (r : RiskSignalType) → read_reason (reason_value r) ≡ ok r
unfolding read_reason reason_value eqb
read_reason-reason_value refresh_replay = refl
read_reason-reason_value concurrent_refresh = refl
read_reason-reason_value ip_change = refl
read_reason-reason_value device_change = refl
read_reason-reason_value suspicious_agent_activity = refl

traverse-reason_value :
    (rs : List RiskSignalType) → traverse read_reason (map reason_value rs) ≡ ok rs
unfolding traverse
traverse-reason_value [] = refl
traverse-reason_value (r ∷ rs) = rw (read_reason-reason_value r, traverse-reason_value rs)

-- What the service writes: a quarantine with its reasons, each once, and two dates.
pub record IsStored (platform : Platform) (state : SessionRiskState) : Type 0 where
  pub status : state.status ≡ quarantined
  pub nonempty : 0 < length state.reasons
  pub few : length state.reasons ≤ 5
  pub distinct : length (unique state.reasons) ≡ length state.reasons
  pub since : Text
  pub since_lem : state.quarantined_at ≡ some since
  pub since_date : platform.is_date since ≡ true
  pub until : Text
  pub until_lem : state.expires_at ≡ some until
  pub until_date : platform.is_date until ≡ true

read_reasons_complete :
    (rs : List RiskSignalType)
    → 0 < length rs
    → length rs ≤ 5
    → length (unique rs) ≡ length rs
    → read_reasons (array (from_items (map reason_value rs))) ≡ ok rs
unfolding read_reasons
read_reasons_complete rs h k d =
    rw (items-from_items (map reason_value rs), traverse-reason_value rs)
      (ground (arith, length-map rs reason_value))

-- A quarantine with one to five different reasons and two dates, which is what the service writes, is
-- read back as it was, if `JSON.parse` undoes `JSON.stringify` on
-- it and the text is within the limit.
pub parse_risk_state-state_value :
    (platform : Platform) (state : SessionRiskState) (stored : Text)
    → IsStored platform state
    → platform.json_parse stored ≡ some (state_value state)
    → length stored ≤ max_risk_state_bytes
    → byte_length stored ≤ max_risk_state_bytes
    → parse_risk_state platform stored ≡ ok state
unfolding parse_risk_state read_state state_value read_date eqb
parse_risk_state-state_value platform state stored s h l b = rw h (
    ground (
      arith,
      s.status,
      s.since_lem,
      s.until_lem,
      s.since_date,
      s.until_date,
      read_reasons_complete state.reasons s.nonempty s.few s.distinct,
    ))
