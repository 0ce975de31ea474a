-- ===== src/Audit/Dispatcher/Tests.antt =====
-- Runs of the dispatcher with two sinks, of which the first throws, and an instance of its theorem.
use authenik8_core_beta.Common.{
  arith, ℕ, zero, suc, ◌≡◌, refl, Bool, true, false, none, List, [], ◌∷◌, All,
}
use authenik8_core_beta.Common.Text as Text
use authenik8_core_beta.Common.Text.{Text, text}
use authenik8_core_beta.Common.Value as Value
use authenik8_core_beta.Common.Effects.{ok, err, plain, audit_delivery}
use authenik8_core_beta.Common.Effects.Async as Async
use authenik8_core_beta.Common.Effects.Async.{M}
use authenik8_core_beta.Audit.{AuditEventInput, agent_revoked, critical, success, system}
use authenik8_core_beta.Audit.Dispatcher as Dispatcher
use authenik8_core_beta.Audit.Dispatcher.{detached_metadata}
use authenik8_core_beta.Audit.Dispatcher.Bounds.{
  HasShort, FieldsHaveShort, IsBounded, detached_metadata-IsBounded,
}
use authenik8_core_beta.Audit.Dispatcher.Delivery as Delivery
use authenik8_core_beta.Audit.Dispatcher.Delivery.{
  AuthAuditEvent, AuditSink, AuditDispatcher, event_of, emit,
}
use authenik8_core_beta.Audit.Dispatcher.Delivery.Laws.{LeavesMarks, emit-Reached}

-- The marks that the two sinks have left.
data TestSink : Type 0 where
  failing : TestSink
  logging : TestSink

abbrev Marks : Type 0
Marks = Bool × Bool

abbrev write : TestSink → AuditSink Marks
write failing event s = (err (plain "unreachable"), (true, s.1))
write logging event s = (ok tt, (s.0, true))

abbrev Reached : TestSink → Marks → Type 0
Reached failing s = s.0 ≡ true
Reached logging s = s.1 ≡ true

abbrev names : List TestSink
names = failing ∷ logging ∷ []

dispatcher_with : Bool → AuditDispatcher Marks
dispatcher_with is_strict = record {
  sinks = write failing ∷ write logging ∷ [];
  is_strict = is_strict;
  on_delivery_error = none;
  random_uuid = λ s. (ok (text "1"), s);
  now_iso = λ s. (ok (text "2026"), s);
}

marks : (name : TestSink) (event : AuthAuditEvent) (s : Marks) → Reached name (write name event s).1
marks failing event s = refl
marks logging event s = refl

stays :
    (name later : TestSink) (event : AuthAuditEvent) (s : Marks)
    → Reached name s
    → Reached name (write later event s).1
stays failing failing event s h = refl
stays failing logging event s h = h
stays logging failing event s h = h
stays logging logging event s h = refl

dispatcher_LeavesMarks : LeavesMarks (dispatcher_with false) write Reached
unfolding dispatcher_with
dispatcher_LeavesMarks = record {
  marks = marks;
  stays = λ name later event. record { holds = stays name later event };
  reports = λ name on_error h. cc;
}

test_input : AuditEventInput
test_input = record {
  type = agent_revoked;
  severity = critical;
  outcome = success;
  actor = record { type = system; id = none };
  subject = none;
  session_id = none;
  tenant_id = none;
  correlation_id = none;
  metadata = Value.field (text "reason") (Value.string (text "lost")) Value.end;
}

running : Unit {0}
unfolding Async.◌>>=◌ Async.pure Async.throw Async.lift Async.branch Async.if_present
    Async.try_catch Text.includes Text.eqb Value.put_field Dispatcher.clone_audit_value
    Dispatcher.detached_metadata Dispatcher.optional_safe_string Dispatcher.detached_actor
    Dispatcher.detached_subject Delivery.settle Delivery.add_failure Delivery.deliver
    Delivery.event_of Delivery.report_failures Delivery.emit dispatcher_with test_input
running = tt

strict_throws :
    emit (dispatcher_with true) test_input (false, false) ≡ (err audit_delivery, (true, true))
unfolding running
strict_throws = refl

test_event : AuthAuditEvent
unfolding running
test_event = record {
  id = text "1";
  type = agent_revoked;
  occurred_at = text "2026";
  severity = critical;
  outcome = success;
  actor = record { type = system; id = none };
  subject = none;
  session_id = none;
  tenant_id = none;
  correlation_id = none;
  metadata = Value.object test_input.metadata;
}

event_runs :
    event_of (dispatcher_with false) test_input (false, false) ≡ (ok test_event, (false, false))
unfolding running test_event
event_runs = refl

sinks_are : (dispatcher_with false).sinks ≡ write failing ∷ write logging ∷ []
unfolding dispatcher_with
sinks_are = refl

revoked-Reached :
    All (λ name. Reached name (emit (dispatcher_with false) test_input (false, false)).1) names
    × ((dispatcher_with false).is_strict ≡ false
        → (emit (dispatcher_with false) test_input (false, false)).0 ≡ ok tt)
revoked-Reached =
    emit-Reached (dispatcher_with false) write Reached dispatcher_LeavesMarks names test_input
      test_event (false, false) (false, false) sinks_are event_runs

-- Metadata with a key that reaches a prototype, and seven arrays and objects too many within each other.
nested : ℕ → Value.Value
nested zero = Value.null
nested (suc n) = Value.array (Value.cons (nested n) Value.nil)

abbrev hostile : Value.Fields
hostile =
    Value.field (text "__proto__") (Value.boolean true) (
      Value.field (text "constructors") (nested 7)
        (Value.field (text "deep") (nested 15) Value.end))

wrapped : ℕ → Value.Value → Value.Value
wrapped zero v = v
wrapped (suc n) v = Value.array (Value.cons (wrapped n v) Value.nil)

hostile_runs :
    detached_metadata hostile
    ≡ Value.object (
        Value.field (text "constructors") (nested 7) (
          Value.field
            (text "deep")
            (wrapped 7 (Value.string (text "[depth limit reached]")))
            Value.end))
unfolding running nested wrapped
hostile_runs = refl

nested_short : (n : ℕ) → HasShort 2048 (nested n)
unfolding HasShort nested
nested_short zero = tt
nested_short (suc n) = (nested_short n, tt)

hostile_short : FieldsHaveShort 2048 hostile
unfolding HasShort
hostile_short = (tt, (nested_short 7, (nested_short 15, tt)))

hostile-IsBounded : IsBounded 2048 8 (detached_metadata hostile)
hostile-IsBounded = detached_metadata-IsBounded 2048 hostile (omega arith) hostile_short

-- The text of a bigint is copied whole.
bigint_run :
    (digits : Text)
    → detached_metadata (Value.field (text "n") (Value.bigint digits) Value.end)
      ≡ Value.object (Value.field (text "n") (Value.string digits) Value.end)
unfolding running
bigint_run digits = refl
