-- ===== src/Audit/Dispatcher/Delivery.antt =====
-- src/audit/auditDispatcher.ts: the class `AuditDispatcher`.
pub mod Laws
use authenik8_core_beta.Common.{
  ℕ, Bool, true, false, if◌then◌else◌, Option, none, some, List, [], ◌∷◌, ltb, length, ◌==◌,
}
use authenik8_core_beta.Common.Text.{Text}
use authenik8_core_beta.Common.Value.{Value}
use authenik8_core_beta.Common.Effects.{Error, Result, ok, err, plain, audit_delivery}
use authenik8_core_beta.Common.Effects.Pure as Pure
use authenik8_core_beta.Common.Effects.Async.{
  M, ◌>>=◌, ◌>>◌, pure, throw, lift, branch, if_present, try_catch,
}
use authenik8_core_beta.Audit.{
  AuditEventInput, AuthAuditEventType, AuditSeverity, AuditOutcome, AuditActor,
}
use authenik8_core_beta.Audit.Dispatcher.{
  detached_metadata, optional_safe_string, detached_actor, detached_subject,
}

-- `AuthAuditEvent`; its version is always 1.
pub record AuthAuditEvent : Type 0 where
  pub id : Text
  pub type : AuthAuditEventType
  pub occurred_at : Text
  pub severity : AuditSeverity
  pub outcome : AuditOutcome
  pub actor : AuditActor
  pub subject : Option AuditActor
  pub session_id : Option Text
  pub tenant_id : Option Text
  pub correlation_id : Option Text
  pub metadata : Value

-- `AuditSink.write`.
abbrev pub AuditSink : Type 0 → Type 0
AuditSink S = AuthAuditEvent → M S (Unit {0})

-- The fields of the class, with `randomUUID` and the time in ISO form.
pub record AuditDispatcher (S : Type 0) : Type 0 where
  pub sinks : List (AuditSink S)
  pub is_strict : Bool
  pub on_delivery_error : Option (Error → AuthAuditEvent → M S (Unit {0}))
  pub random_uuid : M S Text
  pub now_iso : M S Text

-- The constructor's check of the sinks.
unfoldable pub check_sinks : {S : Type 0} → List (AuditSink S) → Result (List (AuditSink S))
check_sinks sinks =
    if ltb 64 (length sinks)
    then err (plain "audit.sinks must not contain more than 64 sinks")
    else ok sinks

-- One promise of `Promise.allSettled`: the reason, where it is rejected.
unfoldable pub settle : {S : Type 0} → M S (Unit {0}) → M S (Option Error)
settle call = try_catch (call >> pure none) λ error. pure (some error)

unfoldable pub add_failure : Option Error → List Error → List Error
add_failure none failures = failures
add_failure (some error) failures = error ∷ failures

module _ {S : Type 0} where
  unfoldable pub deliver : List (AuditSink S) → AuthAuditEvent → M S (List Error)
  deliver [] event = pure []
  deliver (sink ∷ sinks) event = do
    failed ← settle (sink event)
    failures ← deliver sinks event
    pure (add_failure failed failures)

  unfoldable pub notify :
      (Error → AuthAuditEvent → M S (Unit {0})) → List Error → AuthAuditEvent → M S (Unit {0})
  notify on_error [] event = pure tt
  notify on_error (error ∷ errors) event =
      settle (on_error error event) >>= λ ignored. notify on_error errors event

module _ {S : Type 0} (dispatcher : AuditDispatcher S) where
  unfoldable pub event_of : AuditEventInput → M S AuthAuditEvent
  event_of input = do
    session_id ← lift (optional_safe_string input.session_id "audit.sessionId" 256)
    tenant_id ← lift (optional_safe_string input.tenant_id "audit.tenantId" 256)
    correlation_id ← lift (optional_safe_string input.correlation_id "audit.correlationId" 128)
    id ← dispatcher.random_uuid
    occurred_at ← dispatcher.now_iso
    actor ← lift (detached_actor input.actor "audit.actor.id")
    subject ← lift (detached_subject input.subject)
    pure (record {
      id = id;
      type = input.type;
      occurred_at = occurred_at;
      severity = input.severity;
      outcome = input.outcome;
      actor = actor;
      subject = subject;
      session_id = session_id;
      tenant_id = tenant_id;
      correlation_id = correlation_id;
      metadata = detached_metadata input.metadata;
    })

  unfoldable pub report_failures : AuthAuditEvent → List Error → M S (Unit {0})
  report_failures event [] = pure tt
  report_failures event (error ∷ errors) =
      if_present dispatcher.on_delivery_error (λ on_error. notify on_error (error ∷ errors) event)
        (pure tt)
      >> branch dispatcher.is_strict (throw audit_delivery) (pure tt)

  unfoldable pub emit : AuditEventInput → M S (Unit {0})
  emit input = do
    event ← event_of input
    failures ← deliver dispatcher.sinks event
    report_failures event failures
