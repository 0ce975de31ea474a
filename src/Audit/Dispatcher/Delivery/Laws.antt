-- ===== src/Audit/Dispatcher/Delivery/Laws.antt =====
-- What the delivery of src/audit/auditDispatcher.ts does to the state: `emit` of `AuditDispatcher`.
use authenik8_core_beta.Common.{
  ◌≡◌, refl, sym, subst, false, Option, none, some, List, [], ◌∷◌, All,
}
use authenik8_core_beta.Common.Effects.{Error, Result, ok, err}
use authenik8_core_beta.Common.Effects.Async.{
  M, and_then, caught, ◌>>=◌, pure, branch, if_present, try_catch,
}
use authenik8_core_beta.Common.Effects.Hoare.{
  Keeps, IsPreorder, Keeps-bind, Keeps-pure, Keeps-throw, Keeps-branch, Keeps-if_present,
}
use authenik8_core_beta.Audit.{AuditEventInput}
use authenik8_core_beta.Audit.Dispatcher.Delivery.{
  AuthAuditEvent, AuditSink, AuditDispatcher, settle, add_failure, deliver, notify, event_of,
  report_failures, emit,
}

abbrev failure_of : Result (Unit {0}) → Option Error
failure_of (ok u) = none
failure_of (err error) = some error

settled :
    {S : Type 0} (out : Result (Unit {0}) × S)
    → caught (and_then out (λ u. pure none)) (λ error. pure (some error))
      ≡ (ok (failure_of out.0), out.1)
unfolding pure
settled (ok u, s) = refl
settled (err error, s) = refl

settle_lem :
    {S : Type 0} (call : M S (Unit {0})) (s : S)
    → settle call s ≡ (ok (failure_of (call s).0), (call s).1)
unfolding settle try_catch ◌>>=◌
settle_lem call s = settled (call s)

module _ {S : Type 0} where
  -- The state after all sinks, and their failures.
  abbrev final : List (AuditSink S) → AuthAuditEvent → S → S
  final [] event s = s
  final (sink ∷ sinks) event s = final sinks event (sink event s).1

  abbrev failures : List (AuditSink S) → AuthAuditEvent → S → List Error
  failures [] event s = []
  failures (sink ∷ sinks) event s =
      add_failure (failure_of (sink event s).0) (failures sinks event (sink event s).1)

  deliver_lem :
      (sinks : List (AuditSink S)) (event : AuthAuditEvent) (s : S)
      → deliver sinks event s ≡ (ok (failures sinks event s), final sinks event s)
  unfolding deliver ◌>>=◌ pure
  deliver_lem [] event s = refl
  deliver_lem (sink ∷ sinks) event s =
      rw (settle_lem (sink event) s, deliver_lem sinks event (sink event s).1) refl

  notify-ok :
      (on_error : Error → AuthAuditEvent → M S (Unit {0})) (errors : List Error)
      (event : AuthAuditEvent) (s : S)
      → (notify on_error errors event s).0 ≡ ok tt
  unfolding notify ◌>>=◌ pure
  notify-ok on_error [] event s = refl
  notify-ok on_error (error ∷ errors) event s =
      rw (settle_lem (on_error error event) s)
        (notify-ok on_error errors event (on_error error event s).1)

  and_then-ok_tt :
      (out : Result (Unit {0}) × S) → out.0 ≡ ok tt → (and_then out (λ u. pure tt)).0 ≡ ok tt
  unfolding pure
  and_then-ok_tt (ok u, s) h = refl
  and_then-ok_tt (err error, s) h = h

  told-ok :
      (o : Option (Error → AuthAuditEvent → M S (Unit {0}))) (errors : List Error)
      (event : AuthAuditEvent) (s : S)
      → (and_then
          (if_present o (λ on_error. notify on_error errors event) (pure tt) s)
          (λ u. pure tt)).0
        ≡ ok tt
  unfolding if_present pure
  told-ok none errors event s = refl
  told-ok (some on_error) errors event s = and_then-ok_tt _ (notify-ok on_error errors event s)

  module _ {R : S → S → Type 0} (order : IsPreorder R) where
    settle-Keeps : (call : M S (Unit {0})) → Keeps R call → Keeps R (settle call)
    settle-Keeps call keeps = record {
      holds = λ s. subst (λ out. R s out.1) (sym (settle_lem call s)) (keeps.holds s);
    }

    notify-Keeps :
        (on_error : Error → AuthAuditEvent → M S (Unit {0})) (errors : List Error)
        (event : AuthAuditEvent)
        → ((error : Error) → Keeps R (on_error error event))
        → Keeps R (notify on_error errors event)
    unfolding notify
    notify-Keeps on_error [] event keeps = Keeps-pure order _
    notify-Keeps on_error (error ∷ errors) event keeps =
        Keeps-bind order _ _ (settle-Keeps _ (keeps error))
          λ ignored. notify-Keeps on_error errors event keeps

module _ {S N : Type 0} (dispatcher : AuditDispatcher S) (write : N → AuditSink S)
    (Reached : N → S → Type 0) where
  abbrev pub sinks_of : List N → List (AuditSink S)
  sinks_of [] = []
  sinks_of (name ∷ names) = write name ∷ sinks_of names

  -- A call of a sink is seen in the state, whether it returns or throws, and stays so.
  pub record LeavesMarks : Type 0 where
    pub marks : (name : N) (event : AuthAuditEvent) (s : S) → Reached name (write name event s).1
    pub stays :
        (name later : N) (event : AuthAuditEvent)
        → Keeps (λ s t. Reached name s → Reached name t) (write later event)
    pub reports :
        (name : N) (on_error : Error → AuthAuditEvent → M S (Unit {0}))
        → dispatcher.on_delivery_error ≡ some on_error
        → (error : Error) (event : AuthAuditEvent)
        → Keeps (λ s t. Reached name s → Reached name t) (on_error error event)

  abbrev Stays : N → S → S → Type 0
  Stays name s t = Reached name s → Reached name t

  Stays-IsPreorder : (name : N) → IsPreorder (Stays name)
  Stays-IsPreorder name = record { reflexive = λ s h. h; transitive = λ s t u f g h. g (f h) }

  module _ (laws : LeavesMarks) where
    final-stays :
        (name : N) (names : List N) (event : AuthAuditEvent) (s : S)
        → Reached name s
        → Reached name (final (sinks_of names) event s)
    final-stays name [] event s h = h
    final-stays name (later ∷ names) event s h =
        final-stays name names event _ ((laws.stays name later event).holds s h)

    final-Reached :
        (names : List N) (event : AuthAuditEvent) (s : S)
        → All (λ name. Reached name (final (sinks_of names) event s)) names
    final-Reached [] event s = tt
    final-Reached (name ∷ names) event s =
        (final-stays name names event _ (laws.marks name event s), final-Reached names event _)

    report_failures-Stays :
        (name : N) (event : AuthAuditEvent) (errors : List Error)
        → Keeps (Stays name) (report_failures dispatcher event errors)
    unfolding report_failures
    report_failures-Stays name event [] = Keeps-pure (Stays-IsPreorder name) _
    report_failures-Stays name event (error ∷ errors) =
        Keeps-bind (Stays-IsPreorder name) _ _
          (Keeps-if_present dispatcher.on_delivery_error _ _
            (λ on_error present.
              notify-Keeps (Stays-IsPreorder name) on_error (error ∷ errors) event
                (λ e. laws.reports name on_error present e event))
            λ absent. Keeps-pure (Stays-IsPreorder name) _)
          λ u.
            Keeps-branch _ _ _ (λ h. Keeps-throw (Stays-IsPreorder name) _)
              λ h. Keeps-pure (Stays-IsPreorder name) _

    All-weaken :
        {P Q : N → Type 0} (names : List N)
        → ((name : N) → P name → Q name)
        → All P names
        → All Q names
    All-weaken [] f h = tt
    All-weaken (name ∷ names) f (h, k) = (f name h, All-weaken names f k)

    emit_lem :
        (input : AuditEventInput) (event : AuthAuditEvent) (s s' : S)
        → event_of dispatcher input s ≡ (ok event, s')
        → emit dispatcher input s
          ≡ report_failures dispatcher event
              (failures dispatcher.sinks event s')
              (final dispatcher.sinks event s')
    unfolding emit ◌>>=◌
    emit_lem input event s s' h = rw (h, deliver_lem dispatcher.sinks event s') refl

    report_failures-ok :
        (event : AuthAuditEvent) (errors : List Error) (s : S)
        → dispatcher.is_strict ≡ false
        → (report_failures dispatcher event errors s).0 ≡ ok tt
    unfolding report_failures ◌>>=◌ branch pure
    report_failures-ok event [] s h = refl
    report_failures-ok event (error ∷ errors) s h =
        rw (h) (told-ok dispatcher.on_delivery_error (error ∷ errors) event s)

    -- Where the event is well formed, emit has called every sink, also where some of them have thrown,
    -- and without strict delivery it returns, whatever the sinks do.
    pub emit-Reached :
        (names : List N) (input : AuditEventInput) (event : AuthAuditEvent) (s s' : S)
        → dispatcher.sinks ≡ sinks_of names
        → event_of dispatcher input s ≡ (ok event, s')
        → All (λ name. Reached name (emit dispatcher input s).1) names
          × (dispatcher.is_strict ≡ false → (emit dispatcher input s).0 ≡ ok tt)
    emit-Reached names input event s s' given h = rw (emit_lem input event s s' h) (
      All-weaken names (λ name. (report_failures-Stays name event _).holds _)
          (subst (λ sinks. All (λ name. Reached name (final sinks event s')) names) (sym given)
            (final-Reached names event s')),
      report_failures-ok event _ _,
    )
