-- ===== src/Agent/Service/Granted.antt =====
-- Which agents get through `AgentIdentityService`, and with which scopes.
use authenik8_core_beta.Common.{
  ◌⊎◌, inl, inr, ◌≡◌, refl, ap, sym, ◌∙◌, true, Option, none, some, List, arith,
}
use authenik8_core_beta.Common.Text.{Text, includes, Has}
use authenik8_core_beta.Common.Effects.{ok}
use authenik8_core_beta.Common.Effects.Pure.{>>=-eq-ok}
use authenik8_core_beta.Common.Effects.Hoare.{
  Yields, Yields-then, Yields-bind, Yields-pure, Yields-branch, Yields-lift, Yields-last,
  Yields-throw, Yields-catch,
}
use authenik8_core_beta.Agent.{
  RegisteredAgentIdentity, AgentTokenPayload, normalize_scopes, assert_agent_id, AgentTokenUse,
}
use authenik8_core_beta.Agent.Laws.{normalize_scopes-IsNormalized, scopes_are_allowed-Has}
use authenik8_core_beta.Agent.Claims.{claims_are_valid}
use authenik8_core_beta.Agent.Service.{
  AgentIdentityService, is_active, active_agent, authorized_scopes, resolve_active_agent,
}
use authenik8_core_beta.Agent.Service.Verify.{
  AgentReply, accepted, answered, verify_registered, verify_session, verify_unrevoked,
  verify_payload, verify_as, verify_token, reject_verified_agent, admit_agent, authenticate_agent,
}

-- The registry lists the agent as active, with each of these scopes.
abbrev pub IsGranted : (Text → Option RegisteredAgentIdentity) → Text → List Text → Type 0
IsGranted registry agent_id scopes =
    (agent : RegisteredAgentIdentity) × (registry agent_id ≡ some agent)
    × (is_active agent.active ≡ true)
    × ((t : Text) → Has scopes t → Has agent.scopes t)

abbrev with_scopes : Text → RegisteredAgentIdentity → List Text → RegisteredAgentIdentity
with_scopes agent_id found scopes = record {
  agent_id = agent_id;
  scopes = scopes;
  active = found.active;
}

active_agent-IsGranted :
    (registry : Text → Option RegisteredAgentIdentity) (agent_id : Text)
    (found : Option RegisteredAgentIdentity) (agent : RegisteredAgentIdentity)
    → found ≡ registry agent_id
    → active_agent agent_id found ≡ ok agent
    → (agent.agent_id ≡ agent_id) × IsGranted registry agent_id agent.scopes
unfolding active_agent
active_agent-IsGranted registry agent_id none agent e h = cc
active_agent-IsGranted registry agent_id (some found) agent e h =
    let (scopes, n, k) =
      >>=-eq-ok (normalize_scopes found.scopes) (λ scopes. ok (with_scopes agent_id found scopes))
        {y = agent} (ground (arith, h)) in
    let built : with_scopes agent_id found scopes ≡ agent = ground (arith, k) in
    let normal = normalize_scopes-IsNormalized found.scopes scopes n in
    (
      sym (ap (λ a. a.agent_id) built),
      (
        found,
        sym e,
        ground (arith, h),
        λ t m. sym (normal.same t) ∙ (ap (λ a. includes a.scopes t) built ∙ m),
      ),
    )

pub assert-same : (t valid : Text) → assert_agent_id t ≡ ok valid → t ≡ valid
unfolding assert_agent_id
assert-same t valid h = ground (arith, h)

pub authorized-Has :
    (agent : RegisteredAgentIdentity) (requested scopes : List Text)
    → authorized_scopes agent requested ≡ ok scopes
    → (t : Text) → Has scopes t
    → Has agent.scopes t
unfolding authorized_scopes
authorized-Has agent requested scopes h t m =
    let (allowed, n, k) = >>=-eq-ok (normalize_scopes agent.scopes) _ h in
    let (normalized, n', k') = >>=-eq-ok (normalize_scopes requested) _ k in
    let same : normalized ≡ scopes = ground (arith, k') in
    let normal = normalize_scopes-IsNormalized agent.scopes allowed n in
    sym (normal.same t)
    ∙ scopes_are_allowed-Has normalized allowed (ground (arith, k')) t
        (ap (λ ts. includes ts t) same ∙ m)

module _ {S : Type 0} (service : AgentIdentityService S)
    (registry : Text → Option RegisteredAgentIdentity) where
  -- `resolveAgent` answers from this registry.
  pub record IsRegistry : Type 0 where
    pub resolve :
        (agent_id : Text)
        → Yields (λ found. found ≡ registry agent_id) (service.resolve_agent agent_id)

  module _ (laws : IsRegistry) where
    pub resolve_active_agent-IsGranted :
        (agent_id : Text)
        → Yields
            (λ agent. (agent.agent_id ≡ agent_id) × IsGranted registry agent_id agent.scopes)
            (resolve_active_agent service agent_id)
    unfolding resolve_active_agent
    resolve_active_agent-IsGranted agent_id = Yields-lift _ _ λ valid e.
        rw (assert-same agent_id valid e) (
          Yields-then _ _ λ revoked.
            Yields-branch _ _ _ (λ k. Yields-throw _)
              λ k.
                Yields-bind (λ found. found ≡ registry valid) _ _ (laws.resolve valid)
                  λ found e'.
                    Yields-last _ λ agent h. active_agent-IsGranted registry valid found agent e' h)

    -- The payload that a verification may give.
    abbrev pub IsVerified : Option AgentTokenPayload → Type 0
    IsVerified none = Unit
    IsVerified (some payload) =
        (claims_are_valid payload ≡ true) × IsGranted registry payload.agent_id payload.scopes

    reject-IsVerified :
        (payload : AgentTokenPayload) (reason : Text)
        → Yields IsVerified (reject_verified_agent service payload reason)
    unfolding reject_verified_agent
    reject-IsVerified payload reason = Yields-then _ _ λ u. Yields-pure _ tt

    verify_registered-IsVerified :
        (payload : AgentTokenPayload)
        → claims_are_valid payload ≡ true
        → Yields IsVerified (verify_registered service payload)
    unfolding verify_registered
    verify_registered-IsVerified payload valid =
        Yields-bind _ _ _ (resolve_active_agent-IsGranted payload.agent_id)
          λ agent (same, (found, listed, active, has)). Yields-lift _ _ λ allowed e.
            let normal = normalize_scopes-IsNormalized agent.scopes allowed e in
            Yields-branch _ _ _ (λ k. reject-IsVerified payload _)
              λ k. Yields-then _ _ λ delegating.
                Yields-branch _ _ _ (λ l. reject-IsVerified payload _)
                  λ l. Yields-pure _ (
                    valid,
                    (
                      found,
                      listed,
                      active,
                      λ t m. has t (
                          sym (normal.same t)
                          ∙ scopes_are_allowed-Has payload.scopes allowed (ground (arith, k)) t m),
                    ),
                  )

    verify_payload-IsVerified :
        (token : Text) (payload : AgentTokenPayload)
        → Yields IsVerified (verify_payload service token payload)
    unfolding verify_payload verify_unrevoked verify_session
    verify_payload-IsVerified token payload =
        Yields-branch _ _ _ (λ k. Yields-pure _ tt)
          λ k. Yields-then _ _ λ quarantined.
            Yields-branch _ _ _ (λ l. reject-IsVerified payload _)
              λ l. Yields-then _ _ λ revoked.
                Yields-branch _ _ _ (λ l'. reject-IsVerified payload _)
                  λ l'. Yields-then _ _ λ matches.
                    Yields-branch _ _ _ (λ m. reject-IsVerified payload _)
                      λ m. verify_registered-IsVerified payload (ground (arith, k))

    verify_as-IsVerified :
        (token : Text) (token_use : Option AgentTokenUse)
        → Yields IsVerified (verify_as service token token_use)
    unfolding verify_as
    verify_as-IsVerified token none = Yields-pure _ tt
    verify_as-IsVerified token (some token_use) =
        Yields-then _ _ λ payload. verify_payload-IsVerified token payload

    verify_token-IsVerified : (token : Text) → Yields IsVerified (verify_token service token)
    unfolding verify_token
    verify_token-IsVerified token =
        Yields-catch _ _ (Yields-then _ _ λ value. verify_as-IsVerified token _)
          λ error. Yields-pure _ tt

    -- Who the middleware accepts; others get 401 or 403.
    abbrev pub IsAccepted : List Text → AgentReply → Type 0
    IsAccepted required (accepted payload) =
        ((t : Text) → Has required t → Has payload.scopes t)
        × (claims_are_valid payload ≡ true)
        × IsGranted registry payload.agent_id payload.scopes
    IsAccepted required (answered status code) = (status ≡ 401) ⊎ (status ≡ 403)

    admit_agent-IsAccepted :
        (required : List Text) (found : Option AgentTokenPayload)
        → IsVerified found
        → Yields (IsAccepted required) (admit_agent service required found)
    unfolding admit_agent
    admit_agent-IsAccepted required none v = Yields-pure _ (inr refl)
    admit_agent-IsAccepted required (some payload) v =
        Yields-branch _ _ _ (λ k. Yields-then _ _ λ u. Yields-pure _ (inr refl))
          λ k.
            let (valid, granted) = v in
            Yields-pure _
              (scopes_are_allowed-Has required payload.scopes (ground (arith, k)), valid, granted)

    -- An agent that the middleware of `requireAgent` and `requireScopes` accepts has valid claims with
    -- all the scopes that the route requires, and the registry lists it as active with all its
    -- scopes, whatever else the service calls; all others get 401 or 403.
    pub authenticate_agent-IsAccepted :
        (required : List Text) (authorization : Option Text)
        → Yields (IsAccepted required) (authenticate_agent service required authorization)
    unfolding authenticate_agent
    authenticate_agent-IsAccepted required authorization =
        Yields-branch _ _ _ (λ k. Yields-pure _ (inl refl))
          λ k.
            Yields-bind IsVerified _ _ (verify_token-IsVerified _)
              λ found v. admit_agent-IsAccepted required found v
