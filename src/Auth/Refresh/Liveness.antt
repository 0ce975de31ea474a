-- ===== src/Auth/Refresh/Liveness.antt =====
-- When src/auth/refreshService.ts does refresh a token: no call throws, and the store has the token.
use authenik8_core_beta.Common.{
  ◌≡◌, refl, ℕ, Bool, true, false, Option, none, some, length, ◌==◌, arith, sym, subst, [], ◌∷◌,
}
use authenik8_core_beta.Common.Text.{Text, text, eqb}
use authenik8_core_beta.Common.Effects.{ok}
use authenik8_core_beta.Common.Effects.Async.{M, pure, branch}
use authenik8_core_beta.Common.Effects.Returns.{
  Returns, Returns-bind, Returns-pure, Returns-lift, Returns-else-branch, Returns-if_present,
  Returns-finally, Returns-catch, Returns-fact, Returns-weaken,
}
use authenik8_core_beta.Audit.{AuditEventInput}
use authenik8_core_beta.Risk.Service.{SessionRiskReporter}
use authenik8_core_beta.Auth.{token_fingerprint, acquire, delete_if_held, release}
use authenik8_core_beta.Auth.Refresh.{
  RefreshPayload, RefreshClaims, RefreshService, payload_of, refresh_token_matches, refresh_key,
  refresh_principal, sign_refresh_token, verify_refresh_token, lock_key, scoped, pair_digest,
  refresh_lock_ttl_ms,
}
use authenik8_core_beta.Auth.Refresh.Flow.{
  rotate_token_if_enabled, sign_access, issue_refreshed, refresh_matched, refresh_locked,
  refresh_with_lock, refuse_quarantined, refresh_decoded, refresh,
}

module _ {S : Type 0} (service : RefreshService S) (decoded : RefreshPayload)
    (presented : Text) where
  -- The key of the session's lock.
  abbrev pub lock_name : Text
  lock_name =
      scoped service
        (text "lock" ∷ pair_digest service.platform decoded.user_id decoded.session_id ∷ [])

  -- The calls of a refresh return, from a state that satisfies `Before` until the lock is set, `Locked`
  -- until the entry is replaced, and `After` from then on: the token is verified as one of `decoded`,
  -- no risk service holds the session, its lock is free and can be set once, its entry matches the
  -- token and is replaced.
  pub record IsHealthy (Before Locked After : S → Type 0) : Type 0 where
    pub claims : RefreshClaims
    pub claims_lem : payload_of claims ≡ ok decoded
    pub verify :
        Returns Before (service.refresh_keys.verify presented) (λ c s. (c ≡ claims) × Before s)
    pub released :
        (risk : SessionRiskReporter S)
        → service.risk ≡ some risk
        → Returns Before
            (risk.quarantined_now (refresh_principal decoded))
            (λ b s. (b ≡ false) × Before s)
    pub uuid : Returns Before service.random_uuid (λ v. Before)
    pub lock_set :
        (value : Text)
        → Returns Before
            (service.lock.set_px_nx lock_name value 30_000)
            (λ b s. (b ≡ true) × Locked s)
    pub held : Text
    pub held_lem : refresh_token_matches service.platform (some held) presented ≡ ok true
    pub get :
        Returns Locked
          (service.token_store.get (refresh_key service decoded.user_id decoded.session_id))
          (λ found s. (found ≡ some held) × Locked s)
    pub sign : (ttl : ℕ) → Returns Locked (service.refresh_keys.sign decoded ttl) (λ t. Locked)
    pub set : Text → Text → Text → ℕ → M S Bool
    pub set_lem : service.token_store.compare_and_set ≡ some set
    pub replace :
        (value : Text) (ttl : ℕ)
        → Returns Locked
            (set (refresh_key service decoded.user_id decoded.session_id) held value ttl)
            (λ b s. (b ≡ true) × After s)
    pub access : Returns After (service.access_token_signer decoded) (λ t. After)
    pub emit : (event : AuditEventInput) → Returns After (service.emit event) (λ u. After)
    pub lock_get : Returns After (service.lock.script_get lock_name) (λ v. After)
    pub lock_del : Returns After (service.lock.script_del lock_name) (λ u. After)

  module _ {Before Locked After : S → Type 0} (healthy : IsHealthy Before Locked After) where
    delete_if_held-Returns :
        (value : Text) (held : Option Text)
        → Returns After (delete_if_held service.lock lock_name value held) (λ u. After)
    unfolding delete_if_held branch
    delete_if_held-Returns value none = Returns-pure _ λ s p. p
    delete_if_held-Returns value (some held) = by_test (eqb held value)
      where
        by_test :
            (b : Bool)
            → Returns After (branch b (service.lock.script_del lock_name) (pure tt)) (λ u. After)
        by_test true = healthy.lock_del
        by_test false = Returns-pure _ λ s p. p

    release-Returns :
        (value : Text)
        → Returns After
            (release service.lock (lock_key service decoded.user_id decoded.session_id) value)
            (λ u. After)
    unfolding release lock_key
    release-Returns value =
        Returns-bind (λ v. After) _ _ healthy.lock_get λ held. delete_if_held-Returns value held

    acquire-Returns :
        Returns Before
          (acquire service.lock service.random_uuid
            (lock_key service decoded.user_id decoded.session_id)
            refresh_lock_ttl_ms)
          (λ l s. ((v : Text) × (l ≡ some v)) × Locked s)
    unfolding acquire lock_key
    acquire-Returns =
        Returns-bind (λ v. Before) _ _ healthy.uuid
          λ value.
            Returns-bind (λ b s. (b ≡ true) × Locked s) _ _ (healthy.lock_set value)
              λ set. Returns-pure _ λ s (e, p). ((value, rw e refl), p)

    refuse_quarantined-Returns : Returns Before (refuse_quarantined service decoded) (λ u. Before)
    unfolding refuse_quarantined
    refuse_quarantined-Returns =
        Returns-if_present _ _ _
          (λ risk present.
            Returns-bind (λ b s. (b ≡ false) × Before s) _ _ (healthy.released risk present)
              λ b.
                Returns-fact _ (λ s (e, p). e)
                  λ e. Returns-else-branch b _ _ e (Returns-pure _ λ s (e', p). p))
          λ absent. Returns-pure _ λ s p. p

    sign_access-Returns : Returns After (sign_access service decoded) (λ t. After)
    unfolding sign_access
    sign_access-Returns = Returns-catch _ _ (
        Returns-bind (λ t. After) _ _ healthy.access
          λ token. Returns-bind (λ u. After) _ _ (healthy.emit _) λ u. Returns-pure _ λ s p. p)

    verify_refresh_token-Returns :
        Returns Before (verify_refresh_token service presented) (λ d s. (d ≡ decoded) × Before s)
    unfolding verify_refresh_token
    verify_refresh_token-Returns = Returns-catch _ _ (
        Returns-bind (λ c s. (c ≡ healthy.claims) × Before s) _ _ healthy.verify
          λ c.
            Returns-fact _ (λ s (e, p). e)
              λ e. Returns-lift _ decoded (cc (e, healthy.claims_lem)) λ s (e', p). (refl, p))

    module _ (rotate : service.rotate_refresh_tokens ≡ true) where
      rotate_token_if_enabled-Returns :
          Returns Locked
            (rotate_token_if_enabled service
              (refresh_key service decoded.user_id decoded.session_id)
              healthy.held
              decoded)
            (λ t. After)
      unfolding rotate_token_if_enabled sign_refresh_token
      rotate_token_if_enabled-Returns = Returns-else-branch _ _ _ (ground (arith, rotate)) (
          Returns-if_present _ _ _
            (λ set present.
              Returns-bind (λ t. Locked) _ _ (healthy.sign _)
                λ token.
                  Returns-bind (λ b s. (b ≡ true) × After s) _ _
                    (subst
                      (λ f.
                        Returns Locked
                          (f (refresh_key service decoded.user_id decoded.session_id) healthy.held
                            (token_fingerprint service.platform token) service.refresh_token_ttl)
                          (λ b s. (b ≡ true) × After s))
                      (let e : healthy.set ≡ set = cc (present, healthy.set_lem) in e)
                      (healthy.replace _ _))
                    λ b.
                      Returns-fact _ (λ s (e, p). e)
                        λ e.
                          Returns-else-branch _ _ _ (ground (arith, e))
                            (Returns-pure _ λ s (e', p). p))
            λ absent. absurd (none≢set absent))
        where
          none≢set : service.token_store.compare_and_set ≡ none → ⊥
          none≢set h = cc (h, healthy.set_lem)

      issue_refreshed-Returns :
          Returns Locked
            (issue_refreshed service decoded
              (refresh_key service decoded.user_id decoded.session_id)
              healthy.held
              presented)
            (λ r. After)
      unfolding issue_refreshed
      issue_refreshed-Returns =
          Returns-bind (λ t. After) _ _ rotate_token_if_enabled-Returns
            λ new_token.
              Returns-bind (λ t. After) _ _ sign_access-Returns
                λ access_token. Returns-pure _ λ s p. p

      refresh_matched-Returns :
          (found : Option Text) (matches : Bool)
          → found ≡ some healthy.held
          → matches ≡ true
          → Returns Locked
              (refresh_matched service decoded
                (refresh_key service decoded.user_id decoded.session_id)
                found
                presented
                matches)
              (λ r. After)
      unfolding refresh_matched
      refresh_matched-Returns found matches e k = rw (e, k) issue_refreshed-Returns

      refresh_locked-Returns :
          Returns Locked (refresh_locked service decoded presented) (λ r. After)
      unfolding refresh_locked
      refresh_locked-Returns =
          Returns-bind (λ found s. (found ≡ some healthy.held) × Locked s) _ _ healthy.get
            λ found.
              Returns-fact _ (λ s (e, p). e)
                λ e.
                  Returns-bind (λ matches s. (matches ≡ true) × Locked s) _ _
                    (Returns-lift _ true (cc (e, healthy.held_lem)) λ s (e', p). (refl, p))
                    λ matches.
                      Returns-fact _ (λ s (k, p). k)
                        λ k.
                          Returns-weaken _ (λ s (k', p). p)
                            (refresh_matched-Returns found matches e k)

      refresh_with_lock-Returns :
          (lock_value : Option Text)
          → (v : Text) × (lock_value ≡ some v)
          → Returns Locked (refresh_with_lock service decoded presented lock_value) (λ r. After)
      unfolding refresh_with_lock
      refresh_with_lock-Returns none (v, e) = cc
      refresh_with_lock-Returns (some lock_value) e =
          Returns-finally (λ r. After) _ _ refresh_locked-Returns λ r. release-Returns lock_value

      refresh_decoded-Returns :
          Returns Before (refresh_decoded service decoded presented) (λ r. After)
      unfolding refresh_decoded
      refresh_decoded-Returns =
          Returns-bind (λ u. Before) _ _ refuse_quarantined-Returns
            λ u.
              Returns-bind (λ l s. ((v : Text) × (l ≡ some v)) × Locked s) _ _ acquire-Returns
                λ l.
                  Returns-fact _ (λ s (e, p). e)
                    λ e. Returns-weaken _ (λ s (e', p). p) (refresh_with_lock-Returns l e)

      -- Under `IsHealthy` and with rotation, a refresh with a token that is not empty returns a result,
      -- and the state after it satisfies `After`.
      pub refresh-Returns :
          (length presented == 0) ≡ false → Returns Before (refresh service presented) (λ r. After)
      unfolding refresh
      refresh-Returns nonempty = Returns-else-branch _ _ _ nonempty (
          Returns-bind (λ d s. (d ≡ decoded) × Before s) _ _ verify_refresh_token-Returns
            λ d.
              Returns-fact _ (λ s (e, p). e)
                λ e. Returns-weaken _ (λ s (e', p). p) (from_decoded d e))
        where
          from_decoded :
              (d : RefreshPayload)
              → d ≡ decoded
              → Returns Before (refresh_decoded service d presented) (λ r. After)
          from_decoded d e =
              subst (λ x. Returns Before (refresh_decoded service x presented) (λ r. After)) (sym e)
                refresh_decoded-Returns
