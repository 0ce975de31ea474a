-- ===== src/Risk/Service/Laws.antt =====
-- What the operations of src/risk/sessionRiskService.ts promise, whatever the store does.
use authenik8_core_beta.Common.{
  ℕ, ◌≡◌, refl, true, false, not, ◌||◌, Option, none, some, List, [], ◌∷◌, ◌++◌, arith, ◌<◌, All,
  subst,
}
use authenik8_core_beta.Common.Text.{Text}
use authenik8_core_beta.Common.Effects.Hoare.{
  Yields, Yields-bind, Yields-then, Yields-pure, Yields-throw, Yields-branch, Keeps, IsPreorder,
  Keeps-bind, Keeps-lift, Keeps-pure, Keeps-throw, Keeps-branch,
}
use authenik8_core_beta.Audit.{AuditEventInput}
use authenik8_core_beta.Risk.{
  RiskPrincipal, RiskSignalType, RiskSignal, SessionObservation, quarantined, SessionRiskState,
}
use authenik8_core_beta.Risk.States.{has_signal, unique_from, unique}
use authenik8_core_beta.Risk.States.Laws.{signal_eqb→eq}
use authenik8_core_beta.Risk.Service.{
  SessionRiskService, ContextChange, is_ignore, is_quarantine, action_for, threshold_for, reaches,
  context_changes, increment_signal, claim_fingerprint, read_stored, get_state,
  state_after_quarantine, store_quarantine, quarantine_session, or_current, count_signal, report,
  report_change, assess_changes, assess_context,
}

abbrev pub Has : List RiskSignalType → RiskSignalType → Type 0
Has rs r = has_signal rs r ≡ true

has_signal-unique_from :
    (seen rs : List RiskSignalType) (r : RiskSignalType)
    → (has_signal (unique_from seen rs) r || has_signal seen r)
      ≡ (has_signal rs r || has_signal seen r)
unfolding has_signal unique_from
has_signal-unique_from seen [] r = refl
has_signal-unique_from seen (q ∷ rs) r = ground (
  arith,
  has_signal-unique_from seen rs r,
  has_signal-unique_from (q ∷ seen) rs r,
  signal_eqb→eq q r,
)

-- Removing duplicates keeps the set of reasons.
has_signal-unique :
    (rs : List RiskSignalType) (r : RiskSignalType) → has_signal (unique rs) r ≡ has_signal rs r
unfolding unique has_signal
has_signal-unique rs r = ground (arith, has_signal-unique_from [] rs r)

has_signal-++ :
    (rs qs : List RiskSignalType) (r : RiskSignalType)
    → has_signal (rs ++ qs) r ≡ (has_signal rs r || has_signal qs r)
unfolding has_signal
has_signal-++ [] qs r = refl
has_signal-++ (x ∷ rs) qs r = ground (arith, has_signal-++ rs qs r)

-- A quarantine with all of these reasons.
pub record IsQuarantineFor (reasons : List RiskSignalType) (state : SessionRiskState) : Type 0 where
  pub status : state.status ≡ quarantined
  pub reason : (r : RiskSignalType) → Has reasons r → Has state.reasons r

state_after_quarantine-IsQuarantineFor :
    (existing : SessionRiskState) (reasons : List RiskSignalType) (now until : Text)
    → IsQuarantineFor reasons (state_after_quarantine existing (unique reasons) now until)
unfolding state_after_quarantine
state_after_quarantine-IsQuarantineFor existing reasons now until = record {
  status = refl;
  reason = λ r h. ground (
    arith,
    has_signal-unique (existing.reasons ++ unique reasons) r,
    has_signal-++ existing.reasons (unique reasons) r,
    has_signal-unique reasons r,
  );
}

module _ {S : Type 0} (service : SessionRiskService S) where
  -- A state that `quarantine` returns is a quarantine that has every given reason, whatever the store
  -- holds and does.
  pub quarantine_session-IsQuarantineFor :
      (principal : RiskPrincipal) (reasons : List RiskSignalType)
      → Yields (IsQuarantineFor reasons) (quarantine_session service principal reasons)
  unfolding quarantine_session store_quarantine
  quarantine_session-IsQuarantineFor principal reasons = Yields-then _ _ λ u.
      Yields-branch _ _ _ (λ h. Yields-throw _)
        λ h. Yields-then _ _ λ existing. Yields-then _ _ λ now. Yields-then _ _ λ u.
          Yields-then _ _
            λ u. Yields-pure _ (state_after_quarantine-IsQuarantineFor existing reasons _ _)

  -- A count that is returned is one or more.
  increment_signal-positive :
      (principal : RiskPrincipal) (type : RiskSignalType)
      → Yields (λ count. 0 < count) (increment_signal service principal type)
  unfolding increment_signal
  increment_signal-positive principal type = Yields-then _ _ λ count.
      Yields-branch _ _ _ (λ h. Yields-throw _)
        λ h.
          Yields-branch _ _ _ (λ k. Yields-then _ _ λ u. Yields-pure _ (ground arith))
            λ k. Yields-pure _ (ground arith)

  claim_fingerprint-absent :
      (signal : RiskSignal) (f : Option Text)
      → f ≡ none
      → Yields (λ first. first ≡ true) (claim_fingerprint service signal f)
  unfolding claim_fingerprint
  claim_fingerprint-absent signal none h = Yields-pure _ refl
  claim_fingerprint-absent signal (some f) h = cc

  or_current-IsQuarantineFor :
      (principal : RiskPrincipal) (reasons : List RiskSignalType)
      (new_state : Option SessionRiskState)
      → (state : SessionRiskState) × (new_state ≡ some state) × IsQuarantineFor reasons state
      → Yields (IsQuarantineFor reasons) (or_current service principal new_state)
  unfolding or_current
  or_current-IsQuarantineFor principal reasons none (state, h, q) = cc
  or_current-IsQuarantineFor principal reasons (some new_state) (state, h, q) =
      Yields-pure _ (let e : state ≡ new_state = cc in subst (IsQuarantineFor reasons) e q)

  count_signal-IsQuarantineFor :
      (signal : RiskSignal)
      → threshold_for service.settings signal.type ≡ some 1
      → Yields (IsQuarantineFor (signal.type ∷ [])) (count_signal service signal)
  unfolding count_signal reaches
  count_signal-IsQuarantineFor signal threshold =
      Yields-bind (λ count. 0 < count) _ _ (increment_signal-positive _ _)
        λ count positive.
          Yields-bind
            (λ new_state.
              (state : SessionRiskState) × (new_state ≡ some state)
              × IsQuarantineFor (signal.type ∷ []) state)
            _ _
            (Yields-branch _ _ _
              (λ h.
                Yields-bind (IsQuarantineFor (signal.type ∷ [])) _ _
                  (quarantine_session-IsQuarantineFor signal.principal (signal.type ∷ []))
                  λ state q. Yields-pure _ (state, refl, q))
              λ h. absurd (reached count positive h))
            λ new_state q. Yields-then _ _ λ u. or_current-IsQuarantineFor _ _ new_state q
    where
      reached :
          (count : ℕ)
          → 0 < count
          → reaches count (threshold_for service.settings signal.type) ≡ false
          → ⊥
      reached count positive h = ground (arith, threshold)

  -- In an enabled service, a signal that is not ignored, with threshold 1 and no fingerprint,
  -- quarantines the session: a state that `report` returns is a quarantine that has the signal among
  -- its reasons, whatever the store does.
  pub report-IsQuarantineFor :
      (signal : RiskSignal)
      → service.settings.enabled ≡ true
      → is_ignore (action_for service.settings signal.type) ≡ false
      → threshold_for service.settings signal.type ≡ some 1
      → signal.fingerprint ≡ none
      → Yields (IsQuarantineFor (signal.type ∷ [])) (report service signal)
  unfolding report
  report-IsQuarantineFor signal enabled acted threshold new = Yields-then _ _ λ u.
      Yields-then _ _ λ u.
        Yields-branch _ _ _ (λ h. absurd (contradiction h))
          λ h.
            Yields-bind (λ first. first ≡ true) _ _ (claim_fingerprint-absent signal _ new)
              λ first claimed.
                Yields-branch _ _ _ (λ k. absurd (ground (arith, k, claimed)))
                  λ k. count_signal-IsQuarantineFor signal threshold
    where
      contradiction :
          (not service.settings.enabled || is_ignore (action_for service.settings signal.type))
            ≡ true
          → ⊥
      contradiction h = ground (arith, enabled, acted)

  module _ {R : S → S → Type 0} (order : IsPreorder R) where
    -- All calls that `report` and `assessContext` make but the one that writes a quarantine.
    pub record KeepsWithoutQuarantine : Type 0 where
      pub get : (key : Text) → Keeps R (service.store.get key)
      pub set_if_absent :
          (key value : Text) (ttl : ℕ) → Keeps R (service.store.set_if_absent key value ttl)
      pub increment : (key : Text) → Keeps R (service.store.increment key)
      pub expire : (key : Text) (ttl : ℕ) → Keeps R (service.store.expire key ttl)
      pub emit : (event : AuditEventInput) → Keeps R (service.emit event)

    read_stored-Keeps : (stored : Option Text) → Keeps R (read_stored service stored)
    unfolding read_stored
    read_stored-Keeps none = Keeps-pure order _
    read_stored-Keeps (some stored) =
        Keeps-branch _ _ _ (λ h. Keeps-pure order _) λ h. Keeps-lift order _

    get_state-Keeps :
        ((key : Text) → Keeps R (service.store.get key))
        → (principal : RiskPrincipal) → Keeps R (get_state service principal)
    unfolding get_state
    get_state-Keeps get principal = Keeps-bind order _ _ (Keeps-lift order _) λ u.
        Keeps-branch _ _ _ (λ h. Keeps-pure order _)
          λ h. Keeps-bind order _ _ (get _) λ stored. read_stored-Keeps stored

    -- A signal that the settings ignore is looked up only: `report` does no call but `get`.
    pub report-ignored :
        (signal : RiskSignal)
        → (not service.settings.enabled || is_ignore (action_for service.settings signal.type))
          ≡ true
        → ((key : Text) → Keeps R (service.store.get key))
        → Keeps R (report service signal)
    unfolding report
    report-ignored signal ignored get = Keeps-bind order _ _ (Keeps-lift order _) λ u.
        Keeps-bind order _ _ (Keeps-lift order _) λ u.
          Keeps-branch _ _ _ (λ h. get_state-Keeps get signal.principal)
            λ h. absurd (ground (arith, ignored, h))

    module _ (calls : KeepsWithoutQuarantine) where
      claim_fingerprint-Keeps :
          (signal : RiskSignal) (f : Option Text) → Keeps R (claim_fingerprint service signal f)
      unfolding claim_fingerprint
      claim_fingerprint-Keeps signal none = Keeps-pure order _
      claim_fingerprint-Keeps signal (some f) = calls.set_if_absent _ _ _

      increment_signal-Keeps :
          (principal : RiskPrincipal) (type : RiskSignalType)
          → Keeps R (increment_signal service principal type)
      unfolding increment_signal
      increment_signal-Keeps principal type = Keeps-bind order _ _ (calls.increment _) λ count.
          Keeps-branch _ _ _ (λ h. Keeps-throw order _)
            λ h.
              Keeps-branch _ _ _
                (λ k. Keeps-bind order _ _ (calls.expire _ _) λ u. Keeps-pure order _)
                λ k. Keeps-pure order _

      or_current-Keeps :
          (principal : RiskPrincipal) (new_state : Option SessionRiskState)
          → Keeps R (or_current service principal new_state)
      unfolding or_current
      or_current-Keeps principal none = get_state-Keeps calls.get principal
      or_current-Keeps principal (some state) = Keeps-pure order _

      count_signal-Keeps :
          (signal : RiskSignal)
          → threshold_for service.settings signal.type ≡ none
          → Keeps R (count_signal service signal)
      unfolding count_signal reaches
      count_signal-Keeps signal never = Keeps-bind order _ _ (increment_signal-Keeps _ _) λ count.
          Keeps-bind order _ _
            (Keeps-branch _ _ _ (λ h. absurd (unreached count h)) λ h. Keeps-pure order _)
            λ new_state. Keeps-bind order _ _ (calls.emit _) λ u. or_current-Keeps _ new_state
        where
          unreached :
              (count : ℕ) → reaches count (threshold_for service.settings signal.type) ≡ true → ⊥
          unreached count h = ground (arith, never)

      report-unbounded :
          (signal : RiskSignal)
          → threshold_for service.settings signal.type ≡ none
          → Keeps R (report service signal)
      unfolding report
      report-unbounded signal never = Keeps-bind order _ _ (Keeps-lift order _) λ u.
          Keeps-bind order _ _ (Keeps-lift order _) λ u.
            Keeps-branch _ _ _ (λ h. get_state-Keeps calls.get signal.principal)
              λ h. Keeps-bind order _ _ (claim_fingerprint-Keeps _ _) λ first.
                Keeps-branch _ _ _ (λ k. get_state-Keeps calls.get signal.principal)
                  λ k. count_signal-Keeps signal never

      assess_changes-Keeps :
          (principal : RiskPrincipal) (changes : List ContextChange) (state : SessionRiskState)
          → All (λ change. threshold_for service.settings change.type ≡ none) changes
          → Keeps R (assess_changes service principal changes state)
      unfolding assess_changes report_change
      assess_changes-Keeps principal [] state h = Keeps-pure order _
      assess_changes-Keeps principal (change ∷ changes) state (h, hs) =
          Keeps-branch _ _ _ (λ k. assess_changes-Keeps principal changes state hs)
            λ k. Keeps-bind order _ _ (report-unbounded _ h) λ next.
              Keeps-branch _ _ _ (λ l. Keeps-pure order _)
                λ l. assess_changes-Keeps principal changes next hs

      -- Where neither action is `quarantine`, no change of context quarantines a session: a preorder of
      -- states that the calls of `KeepsWithoutQuarantine` keep, `set` and `delete` not among them, is
      -- kept by `assessContext`, whether it returns or throws.
      pub assess_context-unquarantined :
          (principal : RiskPrincipal) (expected observed : SessionObservation)
          → is_quarantine service.settings.ip_change_action ≡ false
          → is_quarantine service.settings.device_change_action ≡ false
          → Keeps R (assess_context service principal expected observed)
      unfolding assess_context context_changes threshold_for action_for
      assess_context-unquarantined principal expected observed ip device =
          Keeps-bind order _ _ (Keeps-lift order _) λ u.
            Keeps-bind order _ _ (get_state-Keeps calls.get principal)
              λ state. assess_changes-Keeps principal _ state (rw ip refl, (rw device refl, tt))
