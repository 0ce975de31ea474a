-- ===== src/Agent/Service/Issue.antt =====
-- src/agent/agentIdentity.ts: `issue`, `issueToken` and `issueDelegatedToken`.
use authenik8_core_beta.Common.{
  String, Bool, false, not, ◌||◌, Option, none, some, List, [], ◌∷◌, if◌then◌else◌, ◌==◌, length,
  map,
}
use authenik8_core_beta.Common.Text.{Text, text}
use authenik8_core_beta.Common.Value.{
  string, array, object, Fields, end, field, from_items, property, truthy,
}
use authenik8_core_beta.Common.Effects.{Error, Result, ok, err, agent_identity}
use authenik8_core_beta.Common.Effects.Pure as Pure
use authenik8_core_beta.Common.Effects.Async.{
  M, ◌>>=◌, ◌>>◌, pure, throw, lift, branch, if_present, try_catch,
}
use authenik8_core_beta.Audit.{agent_token_issued, info}
use authenik8_core_beta.Auth.Sessions.Store as Store
use authenik8_core_beta.Agent.{
  user_actor, agent_actor, RegisteredAgentIdentity, AgentTokenPayload, AgentTokenResult,
  AgentTokenUse, agent_use, delegation_use, AgentSessionInput, IssueAgentTokenInput,
  IssueDelegatedAgentTokenInput, assert_agent_id, assert_delegated_identity,
  optional_session_metadata,
}
use authenik8_core_beta.Agent.Claims.{agent_subject, user_subject}
use authenik8_core_beta.Agent.Service.{
  AgentIdentityService, AgentDelegationRequest, authorized_scopes, is_revoked, resolve_active_agent,
  audit_agent_rejection, revoked_agent, subject_event,
}

-- The verified user of a delegation. A token is issued for `agent-delegation` exactly where there is one.
pub record HumanSession : Type 0 where
  pub user_id : Text
  pub session_id : Text

unfoldable pub use_of : Option HumanSession → AgentTokenUse
use_of none = agent_use
use_of (some human) = delegation_use

unfoldable pub use_name : AgentTokenUse → Text
use_name agent_use = text "agent"
use_name delegation_use = text "agent-delegation"

-- The claims of the token.
unfoldable pub issued_payload : Text → List Text → Text → Option HumanSession → AgentTokenPayload
issued_payload agent_id scopes session_id none = record {
  sub = some (agent_subject agent_id);
  agent_id = agent_id;
  scopes = scopes;
  session_id = session_id;
  token_use = agent_use;
  actor_chain = record { type = agent_actor; id = agent_id } ∷ [];
  delegated_user_id = none;
  delegated_session_id = none;
  act = none;
}
issued_payload agent_id scopes session_id (some human) = record {
  sub = some (user_subject human.user_id);
  agent_id = agent_id;
  scopes = scopes;
  session_id = session_id;
  token_use = delegation_use;
  actor_chain =
      record { type = user_actor; id = human.user_id }
      ∷ record { type = agent_actor; id = agent_id }
      ∷ [];
  delegated_user_id = some human.user_id;
  delegated_session_id = some human.session_id;
  act = some (agent_subject agent_id);
}

-- `metadata` of the event.
unfoldable pub delegated_metadata : Option HumanSession → Fields
delegated_metadata none = end
delegated_metadata (some human) = field (text "delegatedUserId") (string human.user_id) end

unfoldable pub issued_metadata : List Text → Option HumanSession → Fields
unfolding use_name use_of delegated_metadata from_items
issued_metadata scopes human =
    field (text "tokenUse") (string (use_name (use_of human)))
      (field (text "scopes") (array (from_items (map string scopes))) (delegated_metadata human))

abbrev pub or_text : Option Text → Text → Text
or_text none t = t
or_text (some given) t = given

abbrev denied_delegation : String → Error
denied_delegation message = agent_identity "AGENT_DELEGATION_DENIED" message

-- `!user?.userId || !user.sessionId`, and the two identifiers.
unfoldable pub human_session : Option Fields → Result HumanSession
unfolding property truthy
human_session none =
    err (denied_delegation "Delegation requires an active human access-token session")
human_session (some user) =
    if not (truthy (property (text "userId") (object user)))
      || not (truthy (property (text "sessionId") (object user)))
    then err (denied_delegation "Delegation requires an active human access-token session")
    else Pure.◌>>=◌
        (assert_delegated_identity (property (text "userId") (object user))
          "Delegated userId is invalid")
        λ user_id.
          Pure.◌>>=◌
            (assert_delegated_identity (property (text "sessionId") (object user))
              "Delegated sessionId is invalid")
            λ session_id. ok (record { user_id = user_id; session_id = session_id })

module _ {S : Type 0} (service : AgentIdentityService S) where
  unfoldable pub issued_session_id : Option Text → M S Text
  issued_session_id none = service.random_uuid
  issued_session_id (some given) =
      branch (length given == 0) service.random_uuid (lift (assert_agent_id given))

  -- After the session is written: the agent may have been revoked meanwhile.
  unfoldable pub finish_issue :
      Text → List Text → Option HumanSession → Text → Text → M S AgentTokenResult
  finish_issue agent_id scopes human session_id access_token = do
    revoked ← is_revoked service agent_id
    branch revoked (Store.revoke service.sessions agent_id session_id >> throw revoked_agent) (
        try_catch
          (service.emit (
            subject_event agent_token_issued info agent_id (some session_id)
              (issued_metadata scopes human)))
          (λ error. Store.revoke service.sessions agent_id session_id >> throw error)
        >> pure (record {
          access_token = access_token;
          session_id = session_id;
          scopes = scopes;
          token_use = use_of human;
        }))

  unfoldable pub issue :
      RegisteredAgentIdentity
      → List Text
      → AgentSessionInput
      → Option HumanSession
      → M S AgentTokenResult
  issue agent scopes input human = do
    session_id ← issued_session_id input.session_id
    label ← lift (optional_session_metadata input.label "Agent label is invalid" 200)
    ip ← lift (optional_session_metadata input.ip "Agent IP is invalid" 100)
    access_token ←
        service.keys.sign (issued_payload agent.agent_id scopes session_id human)
          service.token_expiry_seconds
    now ← service.now
    Store.upsert service.sessions agent.agent_id access_token
        (record {
          session_id = session_id;
          device = or_text label (agent_subject agent.agent_id);
          ip = or_text ip (text "unknown");
          created_at = now;
        })
        service.token_expiry_seconds
    finish_issue agent.agent_id scopes human session_id access_token

  -- `input.scopes ?? agent.scopes`.
  unfoldable pub requested_scopes : Option (List Text) → RegisteredAgentIdentity → List Text
  requested_scopes none agent = agent.scopes
  requested_scopes (some scopes) agent = scopes

  -- `catch (error) { await this.auditAgentRejection(agentId, error); throw error; }`.
  unfoldable pub audited : Text → M S AgentTokenResult → M S AgentTokenResult
  audited agent_id issued =
      try_catch issued λ error. audit_agent_rejection service agent_id error >> throw error

  unfoldable pub issue_for_agent : IssueAgentTokenInput → M S AgentTokenResult
  issue_for_agent input = do
    agent ← resolve_active_agent service input.agent_id
    scopes ← lift (authorized_scopes agent (requested_scopes input.scopes agent))
    issue agent scopes input.session none

  unfoldable pub issue_token : IssueAgentTokenInput → M S AgentTokenResult
  issue_token input = audited input.agent_id (issue_for_agent input)

  -- `this.config.authorizeDelegation ? await … : false`.
  unfoldable pub is_authorized : AgentDelegationRequest → M S Bool
  is_authorized request =
      if_present service.authorize_delegation (λ authorize. authorize request) (pure false)

  unfoldable pub issue_for_human : IssueDelegatedAgentTokenInput → M S AgentTokenResult
  issue_for_human input = do
    agent ← resolve_active_agent service input.agent_id
    scopes ← lift (authorized_scopes agent input.scopes)
    user ← service.verify_human_token input.user_access_token
    human ← lift (human_session user)
    active ← service.has_human_session human.user_id human.session_id
    branch (not active)
        (throw (denied_delegation "The delegating human session is no longer active"))
        (is_authorized (record {
          agent = agent;
          user_id = human.user_id;
          session_id = human.session_id;
          requested_scopes = scopes;
        })
          >>= λ authorized.
              branch (not authorized)
                (throw (denied_delegation "Agent delegation was denied by application policy"))
                (issue agent scopes input.session (some human)))

  unfoldable pub issue_delegated_token : IssueDelegatedAgentTokenInput → M S AgentTokenResult
  issue_delegated_token input = audited input.agent_id (issue_for_human input)
