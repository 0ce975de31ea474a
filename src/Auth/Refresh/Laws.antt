-- ===== src/Auth/Refresh/Laws.antt =====
-- What src/auth/refreshService.ts promises of a refresh, over a token store whose entries a function
-- of the state gives.
use authenik8_core_beta.Common.{ℕ, ◌≡◌, ◌≢◌, refl, subst, Bool, true, false, Option, none, some}
use authenik8_core_beta.Common.Text.{Text}
use authenik8_core_beta.Common.Effects.{ok}
use authenik8_core_beta.Common.Effects.Async.{M}
use authenik8_core_beta.Common.Effects.Hoare.{
  Keeps, IsPreorder, Yields, Keeps-bind, Keeps-branch, Keeps-pure, Keeps-lift,
}
use authenik8_core_beta.Common.Effects.Triples.{
  Ensures, Ensures-bind, Ensures-lift, Ensures-pure, Ensures-throw, Ensures-branch,
  Ensures-if_present, Ensures-kept, Ensures-finally, Ensures-catch, Ensures-Yields, Ensures-fact,
  Ensures-then,
}
use authenik8_core_beta.Audit.{AuditEventInput}
use authenik8_core_beta.Risk.{RiskPrincipal}
use authenik8_core_beta.Risk.Service.{SessionRiskReporter}
use authenik8_core_beta.Auth.{acquire, delete_if_held, release}
use authenik8_core_beta.Auth.Refresh.{
  TokenStore, RefreshPayload, RefreshService, RefreshResult, refresh_token_matches, refresh_key,
  verify_refresh_token,
}
use authenik8_core_beta.Auth.Refresh.Flow.{
  reject_replay, refresh_matched, refresh_locked, refresh_with_lock, refuse_quarantined,
  refresh_decoded, refresh,
}

-- What the service relies on of its `TokenStore`: `get` reads an entry and changes none, and
-- `compareAndSet` answers true where it has found the expected entry and has replaced it, and false
-- where it leaves the entry as it was.
pub record ImplementsStore {S : Type 0} (token_store : TokenStore S)
    (stored : S → Text → Option Text) : Type 0 where
  pub get :
      (key : Text) (s : S) (value : Option Text) (s' : S)
      → token_store.get key s ≡ (ok value, s')
      → (value ≡ stored s key) × ((k : Text) → stored s' k ≡ stored s k)
  pub compare_and_set :
      (cas : Text → Text → Text → ℕ → M S Bool)
      → token_store.compare_and_set ≡ some cas
      → (key expected value : Text) (ttl : ℕ) (s s' : S)
      → cas key expected value ttl s ≡ (ok true, s')
      → (stored s key ≡ some expected) × (stored s' key ≡ some value)
  pub refused :
      (cas : Text → Text → Text → ℕ → M S Bool)
      → token_store.compare_and_set ≡ some cas
      → (key expected value : Text) (ttl : ℕ) (s s' : S)
      → cas key expected value ttl s ≡ (ok false, s')
      → stored s' key ≡ stored s key

module _ {S : Type 0} (service : RefreshService S) (stored : S → Text → Option Text) where
  -- The call changes no entry of the token store.
  abbrev pub Same : S → S → Type 0
  Same s t = (key : Text) → stored t key ≡ stored s key

  Same-IsPreorder : IsPreorder Same
  Same-IsPreorder = record {
    reflexive = λ s key. refl;
    transitive = λ s t u h k key. cc (h key, k key);
  }

  -- The token store reads and replaces its entries; what else a refresh calls leaves them as they
  -- are. The calls that revoke are not restricted.
  pub record IsTokenStore : Type 0 where
    pub token_store : ImplementsStore service.token_store stored
    pub sign :
        (payload : RefreshPayload) (ttl : ℕ) → Keeps Same (service.refresh_keys.sign payload ttl)
    pub verify : (token : Text) → Keeps Same (service.refresh_keys.verify token)
    pub access : (payload : RefreshPayload) → Keeps Same (service.access_token_signer payload)
    pub emit : (event : AuditEventInput) → Keeps Same (service.emit event)
    pub quarantined :
        (risk : SessionRiskReporter S)
        → service.risk ≡ some risk
        → (principal : RiskPrincipal) → Keeps Same (risk.quarantined_now principal)
    pub uuid : Keeps Same service.random_uuid
    pub lock_set : (key value : Text) (ttl : ℕ) → Keeps Same (service.lock.set_px_nx key value ttl)
    pub lock_get : (key : Text) → Keeps Same (service.lock.script_get key)
    pub lock_del : (key : Text) → Keeps Same (service.lock.script_del key)

  -- The entry under the key is this one.
  abbrev pub Entry : Text → Option Text → S → Type 0
  Entry key value s = stored s key ≡ value

  pub Entry-stable :
      (key : Text) (value : Option Text) (s t : S)
      → Same s t
      → Entry key value s
      → Entry key value t
  Entry-stable key value s t same h = cc (same key)

  module _ (laws : IsTokenStore) where
    delete_if_held-Same :
        (key value : Text) (held : Option Text)
        → Keeps Same (delete_if_held service.lock key value held)
    unfolding delete_if_held
    delete_if_held-Same key value none = Keeps-pure Same-IsPreorder _
    delete_if_held-Same key value (some held) =
        Keeps-branch _ _ _ (λ h. laws.lock_del _) λ h. Keeps-pure Same-IsPreorder _

    release-Same : (key value : Text) → Keeps Same (release service.lock key value)
    unfolding release
    release-Same key value =
        Keeps-bind Same-IsPreorder _ _ (laws.lock_get _) λ held. delete_if_held-Same key value held

    acquire-Same :
        (key : Text) (ttl : ℕ) → Keeps Same (acquire service.lock service.random_uuid key ttl)
    unfolding acquire
    acquire-Same key ttl = Keeps-bind Same-IsPreorder _ _ laws.uuid λ value.
        Keeps-bind Same-IsPreorder _ _ (laws.lock_set _ _ _) λ set. Keeps-pure Same-IsPreorder _

    refuse_quarantined-Entry :
        (decoded : RefreshPayload) (key : Text) (value : Option Text)
        → Ensures (Entry key value) (refuse_quarantined service decoded) (λ u. Entry key value)
    unfolding refuse_quarantined
    refuse_quarantined-Entry decoded key value =
        Ensures-if_present _ _ _
          (λ risk present.
            Ensures-bind (λ u. Entry key value) _ _
              (Ensures-kept _ (laws.quarantined risk present _) (Entry-stable key value))
              λ quarantined.
                Ensures-branch _ _ _ (λ h. Ensures-throw _) λ h. Ensures-pure _ λ s e. e)
          λ absent. Ensures-pure _ λ s e. e

    pub reject_replay-refuses :
        {P : S → Type 0} (decoded : RefreshPayload) {Q : RefreshResult → S → Type 0}
        → Ensures P (reject_replay service decoded) Q
    unfolding reject_replay
    reject_replay-refuses decoded = Ensures-then _ _ λ u. Ensures-throw _

    verify_refresh_token-Entry :
        (presented key : Text) (value : Option Text)
        → Ensures
            (Entry key value)
            (verify_refresh_token service presented)
            (λ decoded. Entry key value)
    unfolding verify_refresh_token
    verify_refresh_token-Entry presented key value =
        Ensures-catch _ _
          (Ensures-bind (λ claims. Entry key value) _ _
            (Ensures-kept _ (laws.verify presented) (Entry-stable key value))
            λ claims. Ensures-kept _ (Keeps-lift Same-IsPreorder _) (Entry-stable key value))
          λ e. Ensures-throw _

    refresh_with_lock-Ensures :
        {P : S → Type 0} (decoded : RefreshPayload) (presented : Text)
        {Q : RefreshResult → S → Type 0}
        → ((r : RefreshResult) (s t : S) → Same s t → Q r s → Q r t)
        → Ensures P (refresh_locked service decoded presented) Q
        → (lock_value : Option Text)
        → Ensures P (refresh_with_lock service decoded presented lock_value) Q
    unfolding refresh_with_lock
    refresh_with_lock-Ensures decoded presented stable body none =
        Ensures-then _ _ λ u. Ensures-throw _
    refresh_with_lock-Ensures decoded presented stable body (some lock_value) =
        Ensures-finally _ _ body λ r s. stable r s _ ((release-Same _ _).holds s)

    -- From an entry under the key that the verified token names, to what holds after the body.
    pub refresh-Ensures :
        (decoded : RefreshPayload) (presented : Text) (value : Option Text)
        {Q : RefreshResult → S → Type 0}
        → Yields (λ d. d ≡ decoded) (verify_refresh_token service presented)
        → ((r : RefreshResult) (s t : S) → Same s t → Q r s → Q r t)
        → Ensures
            (Entry (refresh_key service decoded.user_id decoded.session_id) value)
            (refresh_locked service decoded presented)
            Q
        → Ensures
            (Entry (refresh_key service decoded.user_id decoded.session_id) value)
            (refresh service presented)
            Q
    unfolding refresh refresh_decoded
    refresh-Ensures decoded presented value {Q} verified stable body =
        Ensures-branch _ _ _ (λ h. Ensures-throw _)
          λ h.
            Ensures-bind (λ d s. (d ≡ decoded) × Entry key value s) _ _
              (Ensures-Yields _ verified (verify_refresh_token-Entry presented key value))
              λ d. decoded_case d
      where
        key : Text
        key = refresh_key service decoded.user_id decoded.session_id

        from_decoded : Ensures (Entry key value) (refresh_decoded service decoded presented) Q
        from_decoded =
            Ensures-bind (λ u. Entry key value) _ _ (refuse_quarantined-Entry decoded key value)
              λ u.
                Ensures-bind (λ l. Entry key value) _ _
                  (Ensures-kept _ (acquire-Same _ _) (Entry-stable key value))
                  λ lock_value. refresh_with_lock-Ensures decoded presented stable body lock_value

        decoded_case :
            (d : RefreshPayload)
            → Ensures
                (λ s. (d ≡ decoded) × Entry key value s)
                (refresh_decoded service d presented)
                Q
        decoded_case d = record {
          holds = λ s (e, entry) r s' h.
              from_decoded.holds s entry r s'
                (subst (λ x. refresh_decoded service x presented s ≡ (ok r, s')) e h);
        }

    refresh_matched-refuses :
        {P : S → Type 0} {Q : RefreshResult → S → Type 0} (decoded : RefreshPayload) (key : Text)
        (found : Option Text) (presented : Text) (matches : Bool)
        → matches ≢ true
        → Ensures P (refresh_matched service decoded key found presented matches) Q
    unfolding refresh_matched
    refresh_matched-refuses decoded key none presented matches h = reject_replay-refuses decoded
    refresh_matched-refuses decoded key (some t) presented false h = reject_replay-refuses decoded
    refresh_matched-refuses decoded key (some t) presented true h = absurd (h refl)

    refresh_locked-refuses :
        (decoded : RefreshPayload) (presented : Text) (value : Option Text)
        → refresh_token_matches service.platform value presented ≢ ok true
        → Ensures
            (Entry (refresh_key service decoded.user_id decoded.session_id) value)
            (refresh_locked service decoded presented)
            (λ r s. ⊥)
    unfolding refresh_locked
    refresh_locked-refuses decoded presented value h =
        Ensures-bind (λ found s. found ≡ value) _ _
          (record {
            holds = λ s e found s' run.
                let (e', same) = laws.token_store.get _ s found s' run in cc (e, e');
          })
          λ found.
            Ensures-fact _ (λ s e. e)
              λ e.
                Ensures-lift (refresh_token_matches service.platform found presented) _
                  λ matches h'.
                    refresh_matched-refuses decoded _ found presented matches λ k. h (cc (e, h', k))

    -- A token that the stored entry does not match is refused. Under `IsTokenStore`, where the verified
    -- token is that of the session `decoded`, the entry of that session is `value` and `value` does not
    -- match the presented token, `refresh` does not return.
    pub refresh-replayed :
        (decoded : RefreshPayload) (presented : Text) (value : Option Text)
        → Yields (λ d. d ≡ decoded) (verify_refresh_token service presented)
        → refresh_token_matches service.platform value presented ≢ ok true
        → Ensures
            (Entry (refresh_key service decoded.user_id decoded.session_id) value)
            (refresh service presented)
            (λ r s. ⊥)
    refresh-replayed decoded presented value verified h =
        refresh-Ensures decoded presented value verified (λ r s t same q. q)
          (refresh_locked-refuses decoded presented value h)
