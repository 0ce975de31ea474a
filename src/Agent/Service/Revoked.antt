-- ===== src/Agent/Service/Revoked.antt =====
-- What the revocation of an agent stops.
use authenik8_core_beta.Common.{
  ◌≡◌, ap, sym, ◌∙◌, Bool, true, false, Option, none, some, arith, ◌==◌, ◌≢◌, [], ◌∷◌, ◌++◌, filter,
}
use authenik8_core_beta.Common.Text.{Text, text, join}
use authenik8_core_beta.Common.Effects.{ok}
use authenik8_core_beta.Common.Effects.Pure as Pure
use authenik8_core_beta.Auth.{SessionRedisClient, assert_identifier}
use authenik8_core_beta.Auth.Refresh.{is_nonempty}
use authenik8_core_beta.Common.Effects.Async.{M, ◌>>◌, pure, if_present}
use authenik8_core_beta.Common.Effects.Hoare.{
  Yields, Yields-then, Yields-pure, Yields-branch, Keeps, IsPreorder, Keeps-lift-bind, Keeps-pure,
  Keeps-if_present,
}
use authenik8_core_beta.Common.Effects.Triples.{
  Ensures, Ensures-bind, Ensures-lift, Ensures-pure, Ensures-throw, Ensures-branch, Ensures-kept,
  Ensures-catch, Ensures-fact, Ensures-then, Ensures-weaken, Ensures-of,
}
use authenik8_core_beta.Agent.{
  RegisteredAgentIdentity, AgentTokenPayload, AgentTokenResult, AgentTokenUse, IssueAgentTokenInput,
}
use authenik8_core_beta.Auth.Sessions.Store as Store
use authenik8_core_beta.Agent.Service.{
  AgentIdentityService, revoked_key, is_revoked, resolve_active_agent, revoke_agent,
}
use authenik8_core_beta.Audit.{AuditEventInput}
use authenik8_core_beta.Agent.Service.Keys.{mark_key, sessions_key, prefixed-apart, ok-injective}
use authenik8_core_beta.Agent.Service.Granted.{assert-same}
use authenik8_core_beta.Agent.Service.Issue.{issue_token, issue_for_agent, audited}
use authenik8_core_beta.Agent.Service.Verify.{
  verify_registered, verify_session, verify_unrevoked, verify_payload, verify_as, verify_token,
  reject_verified_agent, risk_principal,
}

module _ {S : Type 0} (service : AgentIdentityService S) (stored : S → Text → Bool) where
  abbrev Marked : Text → S → Type 0
  Marked agent_id s = stored s (revoked_key service agent_id) ≡ true

  -- Agents that are marked as revoked stay so.
  abbrev pub StaysRevoked : S → S → Type 0
  StaysRevoked s s' = (agent_id : Text) → Marked agent_id s → Marked agent_id s'

  -- The key of all sessions of agents, as the constructor makes it.
  abbrev pub sessions_namespace : Text
  sessions_namespace =
      join (text ":") (filter is_nonempty (service.key_prefix ∷ text "agent-sessions" ∷ []))

  -- `DEL` removes no other entry.
  abbrev pub LeavesOthers : Text → S → S → Type 0
  LeavesOthers key s s' =
      (other : Text) → other ≢ key → stored s other ≡ true → stored s' other ≡ true

  -- The marks of revoked agents are entries of Redis, and its commands are those of `SET`, `EXISTS` and
  -- `DEL`; the other services leave the marks. Sessions have the namespace that the constructor gives.
  pub record KeepsRevocations : Type 0 where
    pub set :
        (key value : Text)
        → Ensures (λ s. Unit {0}) (service.redis.set key value) (λ u s. stored s key ≡ true)
    pub exists :
        (key : Text) (held : Bool)
        → Ensures
            (λ s. stored s key ≡ held)
            (service.redis.exists key)
            (λ n s. ((n == 1) ≡ held) × (stored s key ≡ held))
    pub namespace_lem : service.sessions.namespace ≡ sessions_namespace
    pub del :
        (redis : SessionRedisClient S) (del : Text → M S (Unit {0}))
        → service.sessions.redis ≡ some redis
        → redis.del ≡ some del
        → (key : Text) → Keeps (LeavesOthers key) (del key)
    pub emit : (event : AuditEventInput) → Keeps StaysRevoked (service.emit event)
    pub decode : (token : Text) → Keeps StaysRevoked (service.keys.decode_token_use token)
    pub verify :
        (token : Text) (token_use : AgentTokenUse)
        → Keeps StaysRevoked (service.keys.verify token token_use)
    pub quarantined :
        (payload : AgentTokenPayload)
        → Keeps StaysRevoked (
            if_present service.risk
              (λ risk. risk.quarantined_now (risk_principal payload))
              (pure false))

  module _ (laws : KeepsRevocations) where
    -- The key of an agent's sessions is that of no mark.
    session_key-other :
        (principal_id agent_id key : Text)
        → Store.session_key service.sessions principal_id ≡ ok key
        → revoked_key service agent_id ≢ key
    unfolding Store.session_key revoked_key mark_key sessions_key
    session_key-other principal_id agent_id key h e =
        let (id, valid, k) = Pure.>>=-eq-ok (assert_identifier principal_id "principalId") _ h in
        prefixed-apart service.key_prefix agent_id id
          (e ∙ (sym (ok-injective _ _ k) ∙ ap (λ n. (n ++ text ":") ++ id) laws.namespace_lem))

    StaysRevoked-IsPreorder : IsPreorder StaysRevoked
    StaysRevoked-IsPreorder = record {
      reflexive = λ s agent_id h. h;
      transitive = λ s t u f g agent_id h. g agent_id (f agent_id h);
    }

    revoke_all-StaysRevoked :
        (principal_id : Text) → Keeps StaysRevoked (Store.revoke_all service.sessions principal_id)
    unfolding Store.revoke_all
    revoke_all-StaysRevoked principal_id =
        Keeps-if_present service.sessions.redis _ _
          (λ redis present.
            Keeps-if_present redis.del _ _
              (λ del given. Keeps-lift-bind StaysRevoked-IsPreorder _ _ λ key e. record {
                holds = λ s agent_id h.
                    (laws.del redis del present given key).holds s (revoked_key service agent_id)
                      (session_key-other principal_id agent_id key e) h;
              })
              λ absent. Keeps-pure StaysRevoked-IsPreorder _)
          λ absent. Keeps-pure StaysRevoked-IsPreorder _

    kept :
        {A : Type 0} (agent_id : Text) (m : M S A)
        → Keeps StaysRevoked m
        → Ensures (Marked agent_id) m (λ a s. Marked agent_id s)
    kept agent_id m keeps = Ensures-kept m keeps λ s t r h. r agent_id h

    revoke_agent-Marked :
        (agent_id : Text)
        → Ensures (λ s. Unit {0}) (revoke_agent service agent_id) (λ u s. Marked agent_id s)
    unfolding revoke_agent
    revoke_agent-Marked agent_id = Ensures-lift _ _ λ valid e. rw (assert-same agent_id valid e) (
        Ensures-bind (λ u s. Marked valid s) _ _ (laws.set _ _)
          λ u.
            Ensures-bind (λ v s. Marked valid s) _ _ (kept valid _ (revoke_all-StaysRevoked valid))
              λ v. kept valid _ (laws.emit _))

    is_revoked-held :
        (agent_id : Text) (held : Bool)
        → Ensures
            (λ s. stored s (revoked_key service agent_id) ≡ held)
            (is_revoked service agent_id)
            (λ revoked s. (revoked ≡ held) × (stored s (revoked_key service agent_id) ≡ held))
    unfolding is_revoked
    is_revoked-held agent_id held =
        Ensures-bind _ _ _ (laws.exists _ held) λ n. Ensures-pure _ λ s h. h

    -- A revoked agent is not resolved.
    resolve-refused :
        {Q : RegisteredAgentIdentity → S → Type 0} (agent_id : Text)
        → Ensures (Marked agent_id) (resolve_active_agent service agent_id) Q
    unfolding resolve_active_agent
    resolve-refused agent_id = Ensures-lift _ _ λ valid e.
        Ensures-bind (λ revoked s. (revoked ≡ true) × (stored s (revoked_key service valid) ≡ true))
          _ _
          (Ensures-weaken _
            (λ s h.
              ap (λ id. stored s (revoked_key service id)) (sym (assert-same agent_id valid e)) ∙ h)
            (is_revoked-held valid true))
          λ revoked.
            Ensures-fact _ (λ s (r, h). r)
              λ r. Ensures-branch _ _ _ (λ k. Ensures-throw _) λ k. absurd (ground (arith, r, k))

    audited-refused :
        {P : S → Type 0} {Q : AgentTokenResult → S → Type 0} (agent_id : Text)
        (m : M S AgentTokenResult)
        → Ensures P m Q
        → Ensures P (audited service agent_id m) Q
    unfolding audited
    audited-refused agent_id m ensures =
        Ensures-catch _ _ ensures λ e. Ensures-then _ _ λ u. Ensures-throw e

    -- After revokeAgent has returned, issueToken for the agent does not return, while the mark of
    -- the revocation stays.
    pub revoke_agent-issue_token :
        (agent_id : Text) (input : IssueAgentTokenInput)
        → input.agent_id ≡ agent_id
        → Ensures
            (λ s. Unit {0})
            (revoke_agent service agent_id >> issue_token service input)
            (λ result s. ⊥)
    unfolding issue_token issue_for_agent
    revoke_agent-issue_token agent_id input same =
        Ensures-bind _ _ _ (revoke_agent-Marked agent_id) λ u. rw (sym same) (
          audited-refused _ _ (
            Ensures-bind (λ agent s. ⊥) _ _ (resolve-refused input.agent_id)
              λ agent. record { holds = λ s p. absurd p }))

    -- What a verification gives is no token of the agent.
    abbrev pub IsNotOf : Text → Option AgentTokenPayload → Type 0
    IsNotOf agent_id none = Unit
    IsNotOf agent_id (some payload) = ¬ (payload.agent_id ≡ agent_id)

    reject-IsNotOf :
        (agent_id : Text) (payload : AgentTokenPayload) (reason : Text)
        → Yields (IsNotOf agent_id) (reject_verified_agent service payload reason)
    unfolding reject_verified_agent
    reject-IsNotOf agent_id payload reason = Yields-then _ _ λ u. Yields-pure _ tt

    verify_session-IsNotOf :
        (agent_id token : Text) (payload : AgentTokenPayload)
        → ¬ (payload.agent_id ≡ agent_id)
        → Yields (IsNotOf agent_id) (verify_session service token payload)
    unfolding verify_session verify_registered
    verify_session-IsNotOf agent_id token payload other = Yields-then _ _ λ matches.
        Yields-branch _ _ _ (λ k. reject-IsNotOf agent_id payload _)
          λ k. Yields-then _ _ λ registered. Yields-then _ _ λ allowed.
            Yields-branch _ _ _ (λ l. reject-IsNotOf agent_id payload _)
              λ l. Yields-then _ _ λ active.
                Yields-branch _ _ _ (λ m. reject-IsNotOf agent_id payload _)
                  λ m. Yields-pure _ other

    -- An unmarked agent is another one.
    is_revoked-other :
        (agent_id : Text) (payload : AgentTokenPayload)
        → Ensures
            (Marked agent_id)
            (is_revoked service payload.agent_id)
            (λ revoked s. revoked ≡ false → ¬ (payload.agent_id ≡ agent_id))
    is_revoked-other agent_id payload = record {
      holds = λ s marked revoked s' h unmarked same.
          let (e, k) =
            (is_revoked-held payload.agent_id true).holds s
              (ap (λ id. stored s (revoked_key service id)) same ∙ marked) revoked s' h in
          ground (arith, e, unmarked);
    }

    verify_payload-refused :
        (agent_id token : Text) (payload : AgentTokenPayload)
        → Ensures
            (Marked agent_id)
            (verify_payload service token payload)
            (λ found s. IsNotOf agent_id found)
    unfolding verify_payload verify_unrevoked
    verify_payload-refused agent_id token payload =
        Ensures-branch _ _ _ (λ k. Ensures-pure _ λ s h. tt)
          λ k.
            Ensures-bind (λ q s. Marked agent_id s) _ _ (kept agent_id _ (laws.quarantined payload))
              λ quarantined.
                Ensures-branch _ _ _ (λ l. Ensures-of _ (reject-IsNotOf agent_id payload _))
                  λ l. Ensures-bind _ _ _ (is_revoked-other agent_id payload) λ revoked.
                    Ensures-fact _ (λ s other. other)
                      λ other.
                        Ensures-branch _ _ _ (λ m. Ensures-of _ (reject-IsNotOf agent_id payload _))
                          λ m.
                            Ensures-of _ (verify_session-IsNotOf agent_id token payload (other m))

    verify_as-refused :
        (agent_id token : Text) (token_use : Option AgentTokenUse)
        → Ensures
            (Marked agent_id)
            (verify_as service token token_use)
            (λ found s. IsNotOf agent_id found)
    unfolding verify_as
    verify_as-refused agent_id token none = Ensures-pure _ λ s h. tt
    verify_as-refused agent_id token (some token_use) =
        Ensures-bind (λ payload s. Marked agent_id s) _ _
          (kept agent_id _ (laws.verify token token_use))
          λ payload. verify_payload-refused agent_id token payload

    -- After revokeAgent has returned, verifyToken accepts no token of the agent, while the mark of the
    -- revocation stays.
    pub revoke_agent-verify_token :
        (agent_id token : Text)
        → Ensures
            (λ s. Unit {0})
            (revoke_agent service agent_id >> verify_token service token)
            (λ found s. IsNotOf agent_id found)
    unfolding verify_token
    revoke_agent-verify_token agent_id token =
        Ensures-bind _ _ _ (revoke_agent-Marked agent_id) λ u.
          Ensures-catch _ _
            (Ensures-bind (λ value s. Marked agent_id s) _ _ (kept agent_id _ (laws.decode token))
              λ value. verify_as-refused agent_id token _)
            λ error. Ensures-pure _ λ s h. tt
