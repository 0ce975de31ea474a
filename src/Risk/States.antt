-- ===== src/Risk/States.antt =====
-- How src/risk/sessionRiskService.ts stores the state of a session, and what it accepts of a stored
-- text. `JSON.parse`, `JSON.stringify` and the calendar are the parameter `Platform`.
pub mod Laws
use authenik8_core_beta.Common.{
  ℕ, String, Bool, true, false, not, ◌&&◌, ◌||◌, Option, none, some, List, [], ◌∷◌, ◌++◌, map,
  if◌then◌else◌, ltb, leb, ◌==◌, length, any,
}
use authenik8_core_beta.Common.Text.{Text, text, eqb, byte_length, distinct}
use authenik8_core_beta.Common.Value.{
  Value, undefined, string, array, object, Fields, end, field, Items, items, from_items, property,
  is_object,
}
use authenik8_core_beta.Common.Effects.{Error, Result, ok, err, plain}
use authenik8_core_beta.Common.Effects.Pure.{◌>>=◌, ◌>>◌, throw_if, traverse}
use authenik8_core_beta.Risk.{
  RiskSignalType, SessionStatus, active, quarantined, SessionRiskState, signal_text, signal_types,
  find_signal, max_risk_state_bytes,
}

-- The parts of the platform: JSON (`none` where `JSON.parse` throws), `Number.isFinite(Date.parse(t))`,
-- `new Date(ms).toISOString()` and the SHA-256 digest in base64url.
pub record Platform : Type 0 where
  pub json_parse : Text → Option Value
  pub json_stringify : Value → Text
  pub is_date : Text → Bool
  pub iso : ℕ → Text
  pub sha256 : Text → Text

unfoldable pub signal_eqb : RiskSignalType → RiskSignalType → Bool
unfolding signal_text eqb
signal_eqb a b = eqb (signal_text a) (signal_text b)

unfoldable pub has_signal : List RiskSignalType → RiskSignalType → Bool
has_signal [] s = false
has_signal (r ∷ rs) s = signal_eqb r s || has_signal rs s

-- `[...new Set(reasons)]`, with what has been seen.
unfoldable pub unique_from : List RiskSignalType → List RiskSignalType → List RiskSignalType
unique_from seen [] = []
unique_from seen (r ∷ rs) =
    let again = unique_from seen rs in
    let first = r ∷ unique_from (r ∷ seen) rs in if has_signal seen r then again else first

unfoldable pub unique : List RiskSignalType → List RiskSignalType
unfolding unique_from has_signal signal_eqb
unique rs = unique_from [] rs

unfoldable pub invalid_state {ℓ} : {A : Type ℓ} → Result A
invalid_state = err (plain "Stored risk state is invalid")

unfoldable pub read_reason : Value → Result RiskSignalType
unfolding invalid_state find_signal
read_reason (string t) = elim (find_signal t signal_types) [ none ↦ invalid_state | some r ↦ ok r ]
read_reason _ = invalid_state

unfoldable pub read_reasons : Value → Result (List RiskSignalType)
unfolding items traverse
read_reasons (array vs) = do
  throw_if (length (items vs) == 0 || ltb (length signal_types) (length (items vs)))
      "Stored risk state is invalid"
  reasons ← traverse read_reason (items vs)
  throw_if (not (length (unique reasons) == length reasons)) "Stored risk state is invalid"
  ok reasons
read_reasons _ = invalid_state

-- `candidate.status !== "quarantined"`.
unfoldable pub is_quarantined_text : Value → Bool
is_quarantined_text (string t) = eqb t (text "quarantined")
is_quarantined_text _ = false

module _ (platform : Platform) where
  unfoldable pub read_date : Value → Result Text
  unfolding invalid_state
  read_date (string t) = if platform.is_date t then ok t else invalid_state
  read_date _ = invalid_state

  unfoldable pub read_state : Value → Result SessionRiskState
  unfolding property is_object is_quarantined_text
  read_state value = do
    throw_if (not (is_object value)) "Stored risk state is invalid"
    throw_if (not (is_quarantined_text (property (text "status") value)))
        "Stored risk state is invalid"
    reasons ← read_reasons (property (text "reasons") value)
    quarantined_at ← read_date (property (text "quarantinedAt") value)
    expires_at ← read_date (property (text "expiresAt") value)
    ok (record {
      status = quarantined;
      reasons = reasons;
      quarantined_at = some quarantined_at;
      expires_at = some expires_at;
    })

  unfoldable pub parse_risk_state : Text → Result SessionRiskState
  unfolding invalid_state
  parse_risk_state stored = do
    throw_if
        (ltb max_risk_state_bytes (length stored) || ltb max_risk_state_bytes (byte_length stored))
        "Stored risk state exceeds the size limit"
    elim (platform.json_parse stored) [ none ↦ invalid_state | some value ↦ read_state value ]

unfoldable pub status_text : SessionStatus → Text
status_text active = text "active"
status_text quarantined = text "quarantined"

unfoldable pub date_value : Option Text → Value
date_value none = undefined
date_value (some t) = string t

unfoldable pub reason_value : RiskSignalType → Value
reason_value r = string (signal_text r)

-- The object that `JSON.stringify` is given.
unfoldable pub state_value : SessionRiskState → Value
unfolding status_text date_value reason_value from_items
state_value state = object (
    field (text "status") (string (status_text state.status)) (
      field (text "reasons") (array (from_items (map reason_value state.reasons))) (
        field (text "quarantinedAt") (date_value state.quarantined_at)
          (field (text "expiresAt") (date_value state.expires_at) end))))
