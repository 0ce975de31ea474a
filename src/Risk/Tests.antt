-- ===== src/Risk/Tests.antt =====
-- Runs of the risk service over a store of one entry, and instances of its theorems.
use authenik8_core_beta.Common.{
  ◌≡◌, refl, true, false, Option, none, some, [], ◌∷◌, arith, if◌then◌else◌, any, every,
}
use authenik8_core_beta.Common.Text as Text
use authenik8_core_beta.Common.Value as Value
use authenik8_core_beta.Common.Effects.Pure as Pure
use authenik8_core_beta.Common.Effects.Async as Async
use authenik8_core_beta.Common.Text.{Text, text, eqb, byte_length}
use authenik8_core_beta.Common.Value.{Value, string, undefined, end}
use authenik8_core_beta.Common.Effects.{ok}
use authenik8_core_beta.Common.Effects.Async.{M}
use authenik8_core_beta.Common.Effects.Hoare.{Yields, Keeps, IsPreorder}
use authenik8_core_beta.Risk as Risk
use authenik8_core_beta.Risk.States as States
use authenik8_core_beta.Risk.Service as Service
use authenik8_core_beta.Risk.{
  RiskPrincipal, human, RiskSignal, RiskSignalType, refresh_replay, concurrent_refresh, ip_change,
  RiskSettings, SessionRiskState, SessionObservation, quarantined, audit,
}
use authenik8_core_beta.Risk.States.{Platform, parse_risk_state, state_value}
use authenik8_core_beta.Risk.States.Laws.{IsStored, parse_risk_state-state_value}
use authenik8_core_beta.Risk.Service.{
  SessionRiskService, report, quarantine_session, assess_context,
}
use authenik8_core_beta.Risk.Service.Laws.{
  IsQuarantineFor, report-IsQuarantineFor, assess_context-unquarantined,
}

abbrev ann_state : SessionRiskState
ann_state = record {
  status = quarantined;
  reasons = refresh_replay ∷ ip_change ∷ [];
  quarantined_at = some (text "t0");
  expires_at = some (text "t1");
}

-- JSON for the one state that is stored here.
test_parse : Text → Option Value
test_parse t = if eqb t (text "{}") then some (state_value ann_state) else none

abbrev test_platform : Platform
test_platform = record {
  json_parse = test_parse;
  json_stringify = λ v. text "{}";
  is_date = λ t. true;
  iso = λ n. text "t1";
  sha256 = λ t. text "digest";
}

running : Unit {0}
unfolding Text.eqb Text.is_control Text.contains_control_character Text.join Text.unit_bytes
    Text.is_high Text.is_low Text.byte_length_from Text.byte_length Value.is_unsafe Value.items
    Value.from_items Value.get_field Value.property Value.is_object Value.spread Value.put_field
    Pure.traverse Async.◌>>=◌ Async.pure Async.throw Async.lift Async.branch Risk.signal_text
    Risk.find_signal Risk.kind_text Risk.validate_principal Risk.validate_fingerprint
    States.signal_eqb States.has_signal States.unique_from States.unique States.read_reason
    States.read_reasons States.is_quarantined_text States.read_date States.read_state
    States.parse_risk_state States.status_text States.date_value States.reason_value
    States.state_value Service.actor_type Service.principal_actor Service.session_event
    Service.detected_severity Service.detected_event Service.is_ignore Service.is_quarantine
    Service.action_for Service.threshold_for Service.reaches Service.has_status_quarantined
    Service.is_known Service.same_text Service.is_unchanged Service.context_changes
    Service.changed_metadata Service.state_after_quarantine Service.principal_key
    Service.quarantine_key Service.counter_key Service.fingerprint_of Service.increment_signal
    Service.claim_fingerprint Service.read_stored Service.get_state Service.store_quarantine
    Service.quarantine_session Service.or_current Service.count_signal Service.report
    Service.report_change Service.assess_changes Service.assess_context any every test_parse
running = tt

ann_state-IsStored : IsStored test_platform ann_state
unfolding running
ann_state-IsStored = record {
  status = refl;
  nonempty = omega arith;
  few = omega arith;
  distinct = refl;
  since = text "t0";
  since_lem = refl;
  since_date = refl;
  until = text "t1";
  until_lem = refl;
  until_date = refl;
}

ann_parsed : test_parse (text "{}") ≡ some (state_value ann_state)
unfolding running
ann_parsed = refl

ann_bytes : byte_length (text "{}") ≡ 2
unfolding running
ann_bytes = refl

ann_state-read : parse_risk_state test_platform (text "{}") ≡ ok ann_state
ann_state-read =
    parse_risk_state-state_value test_platform ann_state (text "{}") ann_state-IsStored ann_parsed
      (omega arith) (ground (arith, ann_bytes))

-- The state is the stored text.
abbrev Stored : Type 0
Stored = Option Text

abbrev test_settings : RiskSettings
test_settings = record {
  enabled = true;
  signal_window_seconds = 300;
  quarantine_seconds = 900;
  concurrent_refresh_threshold = 2;
  suspicious_agent_threshold = 5;
  ip_change_action = audit;
  device_change_action = audit;
  key_prefix = text "risk";
}

abbrev test_service : SessionRiskService Stored
test_service = record {
  settings = test_settings;
  store = record {
    get = λ key s. (ok s, s);
    set = λ key value ttl s. (ok tt, some value);
    set_if_absent = λ key value ttl s. (ok true, s);
    increment = λ key s. (ok 1, s);
    expire = λ key ttl s. (ok tt, s);
    delete = λ keys s. (ok tt, none);
  };
  emit = λ event s. (ok tt, s);
  now = λ s. (ok 7, s);
  platform = test_platform;
}

abbrev ann : RiskPrincipal
ann = record { kind = human; id = text "ann"; session_id = text "s1" }

abbrev replayed : RiskSignal
replayed = record { type = refresh_replay; principal = ann; fingerprint = none; metadata = end }

quarantine_runs : report test_service replayed none ≡ (
  ok (record ann_state { reasons = refresh_replay ∷ []; quarantined_at = some (text "t1") }),
  some (text "{}"),
)
unfolding running
quarantine_runs = refl

acted : Service.is_ignore (Service.action_for test_settings refresh_replay) ≡ false
unfolding running
acted = refl

threshold : Service.threshold_for test_settings refresh_replay ≡ some 1
unfolding running
threshold = refl

replayed-IsQuarantineFor :
    Yields (IsQuarantineFor (refresh_replay ∷ [])) (report test_service replayed)
replayed-IsQuarantineFor = report-IsQuarantineFor test_service replayed refl acted threshold refl

abbrev Unchanged : Stored → Stored → Type 0
Unchanged s t = t ≡ s

Unchanged-IsPreorder : IsPreorder Unchanged
Unchanged-IsPreorder = record { reflexive = λ s. refl; transitive = λ s t u h k. cc (h, k) }

abbrev seen_at : Text → SessionObservation
seen_at ip = record { ip = some ip; device = some (text "phone") }

unacted : Service.is_quarantine audit ≡ false
unfolding running
unacted = refl

ann-unquarantined :
    Keeps Unchanged
      (assess_context test_service ann (seen_at (text "1.1.1.1")) (seen_at (text "2.2.2.2")))
ann-unquarantined =
    assess_context-unquarantined test_service Unchanged-IsPreorder
      (record {
        get = λ key. record { holds = λ s. refl };
        set_if_absent = λ key value ttl. record { holds = λ s. refl };
        increment = λ key. record { holds = λ s. refl };
        expire = λ key ttl. record { holds = λ s. refl };
        emit = λ event. record { holds = λ s. refl };
      })
      ann (seen_at (text "1.1.1.1")) (seen_at (text "2.2.2.2")) unacted unacted
