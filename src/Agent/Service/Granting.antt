-- ===== src/Agent/Service/Granting.antt =====
-- For whom `AgentIdentityService` issues tokens, and with which scopes.
use authenik8_core_beta.Common.{
  ◌≡◌, refl, ap, sym, subst, ◌∙◌, Bool, true, Option, none, some, List, arith,
}
use authenik8_core_beta.Common.Text.{Text, includes}
use authenik8_core_beta.Common.Value.{Fields}
use authenik8_core_beta.Common.Effects.{ok}
use authenik8_core_beta.Common.Effects.Async.{M}
use authenik8_core_beta.Common.Effects.Hoare.{
  Yields, Yields-then, Yields-bind, Yields-pure, Yields-branch, Yields-lift, Yields-throw,
  Yields-catch, Yields-weaken, Yields-if_present,
}
use authenik8_core_beta.Agent.{
  RegisteredAgentIdentity, AgentTokenResult, IssueAgentTokenInput, IssueDelegatedAgentTokenInput,
  AgentTokenPayload,
}
use authenik8_core_beta.Agent.Service.{
  AgentIdentityService, AgentDelegationRequest, authorized_scopes,
}
use authenik8_core_beta.Agent.Service.Granted.{
  IsGranted, IsRegistry, authorized-Has, resolve_active_agent-IsGranted,
}
use authenik8_core_beta.Agent.Service.Issue.{
  HumanSession, use_of, audited, issue_for_agent, issue_token, is_authorized, issue_for_human,
  issue_delegated_token,
}
use authenik8_core_beta.Agent.Service.Signed.{
  IsTokenFor, IsDelegatedBy, Names, human_session-Names, SignsClaims, IsIssued, issue-IsIssued,
}

module _ {S : Type 0} (service : AgentIdentityService S)
    (carries : Text → AgentTokenPayload → Type 0) where
  module _ (keys : SignsClaims service carries) where
    audited-Yields :
        {P : AgentTokenResult → Type 0} (agent_id : Text) (m : M S AgentTokenResult)
        → Yields P m
        → Yields P (audited service agent_id m)
    unfolding audited
    audited-Yields agent_id m yields =
        Yields-catch _ _ yields λ e. Yields-then _ _ λ u. Yields-throw e

    module _ (registry : Text → Option RegisteredAgentIdentity)
        (laws : IsRegistry service registry) where
      -- A result for this agent, which the registry lists as active with all scopes of the result, and
      -- whose token carries the same claims.
      abbrev pub IsGrantedFor : Text → Option HumanSession → AgentTokenResult → Type 0
      IsGrantedFor agent_id human result =
          (result.token_use ≡ use_of human)
          × IsGranted registry agent_id result.scopes
          × (payload : AgentTokenPayload) × IsTokenFor carries agent_id result payload
          × IsDelegatedBy human payload

      issued-IsGrantedFor :
          (agent : RegisteredAgentIdentity) (agent_id : Text) (requested scopes : List Text)
          (human : Option HumanSession) (result : AgentTokenResult)
          → agent.agent_id ≡ agent_id
          → IsGranted registry agent_id agent.scopes
          → authorized_scopes agent requested ≡ ok scopes
          → IsIssued service carries agent.agent_id scopes human result
          → IsGrantedFor agent_id human result
      issued-IsGrantedFor agent agent_id requested scopes human result same
            (found, listed, active, has) e (s, u, payload, token, by) =
          (
            u,
            (
              found,
              listed,
              active,
              λ t m. has t (
                  authorized-Has agent requested scopes e t (ap (λ ts. includes ts t) (sym s) ∙ m)),
            ),
            payload,
            subst (λ id. IsTokenFor carries id result payload) same token,
            by,
          )

      -- Where resolveAgent answers from a registry and signing keeps the claims, every token that
      -- issueToken returns carries claims of the agent itself, with the scopes, the use and the session
      -- of the result and of no user, and the registry lists the agent as active with all these scopes.
      pub issue_token-IsGranted :
          (input : IssueAgentTokenInput)
          → Yields (IsGrantedFor input.agent_id none) (issue_token service input)
      unfolding issue_token issue_for_agent
      issue_token-IsGranted input = audited-Yields _ _ (
          Yields-bind _ _ _ (resolve_active_agent-IsGranted service registry laws input.agent_id)
            λ agent (same, granted). Yields-lift _ _ λ scopes e.
              Yields-weaken
                (λ result issued.
                  issued-IsGrantedFor agent input.agent_id _ scopes none result same granted e
                    issued)
                (issue-IsIssued service carries keys agent scopes input.session none))

      module _ (humans : Text → Option Fields) (IsLive : Text → Text → Type 0)
          (Allowed : AgentDelegationRequest → Type 0) where
        -- Access tokens have these claims, and sessions of users and the policy of the application these
        -- answers.
        pub record Delegates : Type 0 where
          pub human :
              (token : Text)
              → Yields (λ found. found ≡ humans token) (service.verify_human_token token)
          pub live :
              (user_id session_id : Text)
              → Yields
                  (λ b. b ≡ true → IsLive user_id session_id)
                  (service.has_human_session user_id session_id)
          pub policy :
              (authorize : AgentDelegationRequest → M S Bool)
              → service.authorize_delegation ≡ some authorize
              → (request : AgentDelegationRequest)
              → Yields (λ b. b ≡ true → Allowed request) (authorize request)

        -- The policy has allowed this user to delegate these scopes to the agent.
        pub record IsAllowed (agent_id : Text) (human : HumanSession) (scopes : List Text)
            : Type 0 where
          pub request : AgentDelegationRequest
          pub allowed : Allowed request
          pub agent_lem : request.agent.agent_id ≡ agent_id
          pub user_lem : request.user_id ≡ human.user_id
          pub session_lem : request.session_id ≡ human.session_id
          pub scopes_lem : request.requested_scopes ≡ scopes

        abbrev pub IsDelegation : IssueDelegatedAgentTokenInput → AgentTokenResult → Type 0
        IsDelegation input result =
            (human : HumanSession) × IsGrantedFor input.agent_id (some human) result
            × Names (humans input.user_access_token) human
            × IsLive human.user_id human.session_id
            × IsAllowed input.agent_id human result.scopes

        module _ (answers : Delegates) where
          is_authorized-Allowed :
              (request : AgentDelegationRequest)
              → Yields (λ b. b ≡ true → Allowed request) (is_authorized service request)
          unfolding is_authorized
          is_authorized-Allowed request =
              Yields-if_present _ _ _
                (λ authorize present. answers.policy authorize present request)
                λ absent. Yields-pure _ λ h. cc

          -- Delegation fails closed: where the services answer as these laws say, issueDelegatedToken
          -- returns only for a user whom the access token names, whose session is live and whom the
          -- policy of the application has allowed to delegate these scopes to the agent; the token carries
          -- claims of this agent and user, with the scopes, the use and the session of the result, and the
          -- registry lists the agent as active with all these scopes.
          pub issue_delegated_token-IsGranted :
              (input : IssueDelegatedAgentTokenInput)
              → Yields (IsDelegation input) (issue_delegated_token service input)
          unfolding issue_delegated_token issue_for_human
          issue_delegated_token-IsGranted input = audited-Yields _ _ (
              Yields-bind _ _ _
                (resolve_active_agent-IsGranted service registry laws input.agent_id)
                λ agent (same, granted). Yields-lift _ _ λ scopes e.
                  Yields-bind (λ found. found ≡ humans input.user_access_token) _ _
                    (answers.human _)
                    λ user named. Yields-lift _ _ λ human k.
                      Yields-bind _ _ _ (answers.live human.user_id human.session_id) λ active live.
                        Yields-branch _ _ _ (λ l. Yields-throw _)
                          λ l. Yields-bind _ _ _ (is_authorized-Allowed _) λ authorized allowed.
                            Yields-branch _ _ _ (λ m. Yields-throw _)
                              λ m.
                                Yields-weaken
                                  (λ result issued. (
                                    human,
                                    issued-IsGrantedFor agent input.agent_id _ scopes (some human)
                                        result same granted e issued,
                                    subst (λ u. Names u human) named
                                        (human_session-Names user human k),
                                    live (ground (arith, l)),
                                    record {
                                      request = _;
                                      allowed = allowed (ground (arith, m));
                                      agent_lem = same;
                                      user_lem = refl;
                                      session_lem = refl;
                                      scopes_lem = sym issued.0;
                                    },
                                  ))
                                  (issue-IsIssued service carries keys agent scopes input.session
                                    (some human)))
