-- ===== src/Risk/Service.antt =====
-- src/risk/sessionRiskService.ts: `SessionRiskService` over any `SessionRiskStore`.
pub mod Laws
use authenik8_core_beta.Common.{
  ℕ, Bool, true, false, not, ◌&&◌, ◌||◌, Option, none, some, List, [], ◌∷◌, ◌++◌, map,
  if◌then◌else◌, ltb, leb, ◌==◌, length, ◌+◌, ◌*◌,
}
use authenik8_core_beta.Common.Text.{Text, text, eqb, join}
use authenik8_core_beta.Common.Value.{
  Value, number, string, array, Fields, end, field, from_items, spread,
}
use authenik8_core_beta.Common.Effects.{Error, Result, ok, err, plain}
use authenik8_core_beta.Common.Effects.Async.{M, ◌>>=◌, ◌>>◌, pure, throw, lift, branch}
use authenik8_core_beta.Audit.{
  ActorType, user, agent, system, AuditActor, AuditSeverity, info, warning, critical, success,
  denied, AuditEventInput, AuditEmitter, AuthAuditEventType, session_quarantined,
  session_quarantine_released, session_risk_detected,
}
use authenik8_core_beta.Risk as Risk
use authenik8_core_beta.Risk.{
  RiskPrincipalKind, human, RiskSignalType, refresh_replay, concurrent_refresh, ip_change,
  device_change, suspicious_agent_activity, RiskPrincipal, SessionObservation, RiskSignal,
  SessionStatus, active, quarantined, SessionRiskState, ContextChangeAction, ignore, audit,
  quarantine, RiskSettings, signal_text, signal_types, kind_text, active_state, validate_principal,
  validate_fingerprint,
}
use authenik8_core_beta.Risk.States.{Platform, unique, parse_risk_state, state_value, reason_value}

-- `SessionRiskStore`.
pub record SessionRiskStore (S : Type 0) : Type 0 where
  pub get : Text → M S (Option Text)
  pub set : Text → Text → ℕ → M S (Unit {0})
  pub set_if_absent : Text → Text → ℕ → M S Bool
  pub increment : Text → M S ℕ
  pub expire : Text → ℕ → M S (Unit {0})
  pub delete : List Text → M S (Unit {0})

-- The part of `SessionRiskReporter` that other components call.
pub record SessionRiskReporter (S : Type 0) : Type 0 where
  pub report_signal : RiskSignal → M S SessionRiskState
  pub quarantined_now : RiskPrincipal → M S Bool

-- The service: its settings, the arguments of its constructor and `Date.now`.
pub record SessionRiskService (S : Type 0) : Type 0 where
  pub settings : RiskSettings
  pub store : SessionRiskStore S
  pub emit : AuditEmitter S
  pub now : M S ℕ
  pub platform : Platform

-- A change of context that `assessContext` looks at.
pub record ContextChange : Type 0 where
  pub type : RiskSignalType
  pub before : Option Text
  pub after : Option Text

unfoldable pub actor_type : RiskPrincipalKind → ActorType
actor_type human = user
actor_type Risk.agent = agent

unfoldable pub principal_actor : RiskPrincipal → AuditActor
principal_actor p = record { type = actor_type p.kind; id = some p.id }

-- The events of `quarantine` and `release`.
unfoldable pub session_event :
    AuthAuditEventType → AuditSeverity → Bool → RiskPrincipal → Fields → AuditEventInput
session_event type severity succeeded principal metadata = record {
  type = type;
  severity = severity;
  outcome = if succeeded then success else denied;
  actor = record { type = system; id = none };
  subject = some (principal_actor principal);
  session_id = some principal.session_id;
  tenant_id = none;
  correlation_id = none;
  metadata = metadata;
}

unfoldable pub detected_severity : RiskSignalType → AuditSeverity
detected_severity refresh_replay = critical
detected_severity _ = warning

-- The event of `report`.
unfoldable pub detected_event : RiskSignal → ℕ → AuditEventInput
detected_event signal count = record {
  type = session_risk_detected;
  severity = detected_severity signal.type;
  outcome = denied;
  actor = principal_actor signal.principal;
  subject = none;
  session_id = some signal.principal.session_id;
  tenant_id = none;
  correlation_id = none;
  metadata =
      spread
        (field (text "signal") (string (signal_text signal.type))
          (field (text "count") (number count) end))
        signal.metadata;
}

unfoldable pub is_ignore : ContextChangeAction → Bool
is_ignore ignore = true
is_ignore _ = false

unfoldable pub is_quarantine : ContextChangeAction → Bool
is_quarantine quarantine = true
is_quarantine _ = false

unfoldable pub action_for : RiskSettings → RiskSignalType → ContextChangeAction
action_for settings ip_change = settings.ip_change_action
action_for settings device_change = settings.device_change_action
action_for settings _ = quarantine

-- `none` is `Number.POSITIVE_INFINITY`.
unfoldable pub threshold_for : RiskSettings → RiskSignalType → Option ℕ
unfolding action_for is_quarantine
threshold_for settings refresh_replay = some 1
threshold_for settings concurrent_refresh = some settings.concurrent_refresh_threshold
threshold_for settings suspicious_agent_activity = some settings.suspicious_agent_threshold
threshold_for settings type = if is_quarantine (action_for settings type) then some 1 else none

-- `count >= threshold`.
unfoldable pub reaches : ℕ → Option ℕ → Bool
reaches count none = false
reaches count (some threshold) = leb threshold count

unfoldable pub has_status_quarantined : SessionRiskState → Bool
has_status_quarantined state = elim state.status [ active ↦ false | quarantined ↦ true ]

unfoldable pub is_known : Option Text → Bool
is_known none = false
is_known (some value) = not (length value == 0) && not (eqb value (text "unknown"))

unfoldable pub same_text : Option Text → Option Text → Bool
same_text none none = true
same_text (some s) (some t) = eqb s t
same_text _ _ = false

-- What `assessContext` skips.
unfoldable pub is_unchanged : ContextChange → Bool
unfolding is_known same_text
is_unchanged change =
    not (is_known change.before)
    || not (is_known change.after)
    || same_text change.before change.after

unfoldable pub context_changes : SessionObservation → SessionObservation → List ContextChange
context_changes expected observed =
    record { type = ip_change; before = expected.ip; after = observed.ip }
    ∷ record { type = device_change; before = expected.device; after = observed.device }
    ∷ []

unfoldable pub changed_metadata : RiskSignalType → Fields
changed_metadata ip_change = field (text "changed") (string (text "ip")) end
changed_metadata _ = field (text "changed") (string (text "device")) end

-- `value!`.
abbrev pub or_empty : Option Text → Text
or_empty none = []
or_empty (some t) = t

unfoldable pub state_after_quarantine :
    SessionRiskState → List RiskSignalType → Text → Text → SessionRiskState
state_after_quarantine existing reasons now until = record {
  status = quarantined;
  reasons = unique (existing.reasons ++ reasons);
  quarantined_at = some (elim existing.quarantined_at [ none ↦ now | some since ↦ since ]);
  expires_at = some until;
}

module _ {S : Type 0} (service : SessionRiskService S) where
  unfoldable pub principal_key : RiskPrincipal → Text
  unfolding join kind_text
  principal_key principal = join (text ":") (
      service.settings.key_prefix
      ∷ kind_text principal.kind
      ∷ service.platform.sha256
          (kind_text principal.kind ++ 0 ∷ principal.id ++ 0 ∷ principal.session_id)
      ∷ [])

  unfoldable pub quarantine_key : RiskPrincipal → Text
  quarantine_key principal = principal_key principal ++ text ":quarantine"

  unfoldable pub counter_key : RiskPrincipal → RiskSignalType → Text
  counter_key principal type = principal_key principal ++ text ":count:" ++ signal_text type

  unfoldable pub fingerprint_of : Text → Text → Text
  fingerprint_of before after = service.platform.sha256 (before ++ 0 ∷ after)

  unfoldable pub increment_signal : RiskPrincipal → RiskSignalType → M S ℕ
  increment_signal principal type = do
    let key = counter_key principal type
    count ← service.store.increment key
    branch (ltb 9_007_199_254_740_991 count || ltb count 1)
        (throw (plain "Risk signal counter returned an invalid value"))
        (branch (count == 1)
          (service.store.expire key service.settings.signal_window_seconds >> pure count)
          (pure count))

  unfoldable pub claim_fingerprint : RiskSignal → Option Text → M S Bool
  claim_fingerprint signal none = pure true
  claim_fingerprint signal (some fingerprint) =
      service.store.set_if_absent
        (principal_key signal.principal
          ++ text ":seen:"
          ++ signal_text signal.type
          ++ text ":"
          ++ service.platform.sha256 fingerprint)
        (text "1") service.settings.signal_window_seconds

  -- `!stored`.
  unfoldable pub read_stored : Option Text → M S SessionRiskState
  read_stored none = pure active_state
  read_stored (some stored) =
      branch (length stored == 0) (pure active_state)
        (lift (parse_risk_state service.platform stored))

  unfoldable pub get_state : RiskPrincipal → M S SessionRiskState
  get_state principal = do
    lift (validate_principal principal)
    branch (not service.settings.enabled) (pure active_state)
        (service.store.get (quarantine_key principal) >>= λ stored. read_stored stored)

  unfoldable pub is_quarantined : RiskPrincipal → M S Bool
  is_quarantined principal = do state ← get_state principal; pure (has_status_quarantined state)

  unfoldable pub store_quarantine : RiskPrincipal → SessionRiskState → M S SessionRiskState
  store_quarantine principal state = do
    service.store.set (quarantine_key principal)
        (service.platform.json_stringify (state_value state)) service.settings.quarantine_seconds
    service.emit (
        session_event session_quarantined critical false principal
          (field (text "reasons") (array (from_items (map reason_value state.reasons))) end))
    pure state

  unfoldable pub quarantine_session : RiskPrincipal → List RiskSignalType → M S SessionRiskState
  quarantine_session principal reasons = do
    lift (validate_principal principal)
    branch (length (unique reasons) == 0)
        (throw (plain "Quarantine requires at least one valid reason"))
        (do
          existing ← get_state principal
          now ← service.now
          store_quarantine principal (
              state_after_quarantine existing (unique reasons) (service.platform.iso now)
                (service.platform.iso (now + service.settings.quarantine_seconds * 1000))))

  unfoldable pub release : RiskPrincipal → M S (Unit {0})
  release principal = do
    lift (validate_principal principal)
    service.store.delete (quarantine_key principal ∷ map (counter_key principal) signal_types)
    service.emit (session_event session_quarantine_released info true principal end)

  -- What `report` returns: the new quarantine, or the state that is stored.
  unfoldable pub or_current : RiskPrincipal → Option SessionRiskState → M S SessionRiskState
  or_current principal none = get_state principal
  or_current principal (some state) = pure state

  unfoldable pub count_signal : RiskSignal → M S SessionRiskState
  count_signal signal = do
    count ← increment_signal signal.principal signal.type
    new_state ←
        branch (reaches count (threshold_for service.settings signal.type))
          (quarantine_session signal.principal (signal.type ∷ []) >>= λ state. pure (some state))
          (pure none)
    service.emit (detected_event signal count)
    or_current signal.principal new_state

  unfoldable pub report : RiskSignal → M S SessionRiskState
  report signal = do
    lift (validate_principal signal.principal)
    lift (validate_fingerprint signal.fingerprint)
    branch (not service.settings.enabled || is_ignore (action_for service.settings signal.type))
        (get_state signal.principal)
        (do
          first ← claim_fingerprint signal signal.fingerprint
          branch (not first) (get_state signal.principal) (count_signal signal))

  unfoldable pub report_change : RiskPrincipal → ContextChange → M S SessionRiskState
  report_change principal change = report (record {
    type = change.type;
    principal = principal;
    fingerprint = some (fingerprint_of (or_empty change.before) (or_empty change.after));
    metadata = changed_metadata change.type;
  })

  -- The loop of `assessContext`, from the state so far.
  unfoldable pub assess_changes :
      RiskPrincipal → List ContextChange → SessionRiskState → M S SessionRiskState
  assess_changes principal [] state = pure state
  assess_changes principal (change ∷ changes) state =
      branch (is_unchanged change) (assess_changes principal changes state) (
        report_change principal change >>= λ next.
        branch (has_status_quarantined next) (pure next) (assess_changes principal changes next))

  unfoldable pub assess_context :
      RiskPrincipal → SessionObservation → SessionObservation → M S SessionRiskState
  assess_context principal expected observed = do
    lift (validate_principal principal)
    state ← get_state principal
    assess_changes principal (context_changes expected observed) state

  -- The service as the reporter that it is for other components.
  abbrev pub reporter : SessionRiskReporter S
  reporter = record { report_signal = report; quarantined_now = is_quarantined }
