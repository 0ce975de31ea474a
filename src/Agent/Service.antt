-- ===== src/Agent/Service.antt =====
-- src/agent/agentIdentity.ts: the class `AgentIdentityService`, over the key ring, the registry of
-- agents, the session store and Redis.
pub mod Keys
pub mod Issue
pub mod Verify
pub mod Granted
pub mod Signed
pub mod Granting
pub mod Revoked
use authenik8_core_beta.Common.{
  ℕ, Bool, true, false, not, ◌&&◌, ◌||◌, Option, none, some, List, [], ◌∷◌, ◌++◌, if◌then◌else◌,
  ◌==◌, filter, map,
}
use authenik8_core_beta.Common.Text.{Text, text, eqb, join}
use authenik8_core_beta.Common.Value.{Value, undefined, boolean, string, Fields, end, field}
use authenik8_core_beta.Common.Effects.{Error, Result, ok, err, agent_identity}
use authenik8_core_beta.Common.Effects.Pure as Pure
use authenik8_core_beta.Common.Effects.Async.{M, ◌>>=◌, ◌>>◌, pure, throw, lift, branch, if_present}
use authenik8_core_beta.Audit as Audit
use authenik8_core_beta.Audit.{
  AuditEventInput, AuditEmitter, AuditActor, AuditSeverity, warning, critical, success, denied,
  AuthAuditEventType, agent_revoked, agent_activated, agent_token_rejected,
}
use authenik8_core_beta.Risk.Service.{SessionRiskReporter}
use authenik8_core_beta.Auth.Sessions.{SessionMetadata}
use authenik8_core_beta.Auth.Sessions.Store as Store
use authenik8_core_beta.Auth.Sessions.Store.{SessionStore}
use authenik8_core_beta.Auth.Refresh.{is_nonempty}
use authenik8_core_beta.Agent.{
  RegisteredAgentIdentity, AgentTokenPayload, AgentTokenUse, AgentSessionMetadata, assert_agent_id,
  normalize_scopes, scopes_are_allowed,
}

-- The commands of the Redis client that are there after the constructor's check.
pub record AgentRedis (S : Type 0) : Type 0 where
  pub exists : Text → M S ℕ
  pub set : Text → Text → M S (Unit {0})
  pub del : Text → M S (Unit {0})

-- `JwtKeyRing` and `decodeBoundedJwt`, as the service uses them: it signs claims for a time in
-- seconds, and verifies a token of a use.
pub record AgentKeys (S : Type 0) : Type 0 where
  pub sign : AgentTokenPayload → ℕ → M S Text
  pub verify : Text → AgentTokenUse → M S AgentTokenPayload
  pub decode_token_use : Text → M S Value

-- `AgentDelegationRequest`: the user is given by its verified identifiers.
pub record AgentDelegationRequest : Type 0 where
  pub agent : RegisteredAgentIdentity
  pub user_id : Text
  pub session_id : Text
  pub requested_scopes : List Text

-- The fields of the class. `verify_human_token` gives the claims of an access token.
pub record AgentIdentityService (S : Type 0) : Type 0 where
  pub resolve_agent : Text → M S (Option RegisteredAgentIdentity)
  pub authorize_delegation : Option (AgentDelegationRequest → M S Bool)
  pub redis : AgentRedis S
  pub keys : AgentKeys S
  pub sessions : SessionStore S
  pub verify_human_token : Text → M S (Option Fields)
  pub has_human_session : Text → Text → M S Bool
  pub emit : AuditEmitter S
  pub risk : Option (SessionRiskReporter S)
  pub key_prefix : Text
  pub token_expiry_seconds : ℕ
  pub random_uuid : M S Text
  pub now : M S ℕ

-- `agent.active`: absent, or the Boolean true.
unfoldable pub is_active : Value → Bool
is_active undefined = true
is_active (boolean b) = b
is_active _ = false

abbrev pub unknown_agent : Error
unknown_agent = agent_identity "AGENT_INVALID" "Agent identity is unknown or inactive"

abbrev pub revoked_agent : Error
revoked_agent = agent_identity "AGENT_REVOKED" "Agent identity is revoked"

-- The agent that the registry has returned for this identifier, with its scopes in order.
unfoldable pub active_agent : Text → Option RegisteredAgentIdentity → Result RegisteredAgentIdentity
unfolding is_active eqb
active_agent agent_id none = err unknown_agent
active_agent agent_id (some agent) =
    if not (eqb agent.agent_id agent_id) || not (is_active agent.active)
    then err unknown_agent
    else Pure.◌>>=◌ (normalize_scopes agent.scopes)
        λ scopes. ok (record { agent_id = agent_id; scopes = scopes; active = agent.active })

unfoldable pub authorized_scopes : RegisteredAgentIdentity → List Text → Result (List Text)
unfolding scopes_are_allowed
authorized_scopes agent requested = Pure.◌>>=◌ (normalize_scopes agent.scopes) λ allowed.
    Pure.◌>>=◌ (normalize_scopes requested) λ scopes.
      if scopes_are_allowed scopes allowed
      then ok scopes
      else err
          (agent_identity "AGENT_SCOPE_DENIED" "Requested agent scopes exceed the registered grant")

unfoldable pub agent_session : SessionMetadata → AgentSessionMetadata
agent_session session = record {
  session_id = session.session_id;
  label = session.device;
  ip = session.ip;
  created_at = session.created_at;
}

-- The actor of a rejected request to issue: `unknown` where the identifier is not one.
unfoldable pub rejected_actor : Text → Result Text → AuditActor
rejected_actor agent_id (ok valid) = record { type = Audit.agent; id = some valid }
rejected_actor agent_id (err e) = record { type = Audit.unknown; id = none }

unfoldable pub rejection_reason : Error → Fields
rejection_reason (agent_identity code message) = field (text "reason") (string (text code)) end
rejection_reason _ = field (text "reason") (string (text "issuance_failed")) end

-- The events of the class have these fields in common.
unfoldable pub agent_event :
    AuthAuditEventType
    → AuditSeverity
    → Audit.AuditOutcome
    → AuditActor
    → Option Text
    → Fields
    → AuditEventInput
agent_event type severity outcome actor session_id metadata = record {
  type = type;
  severity = severity;
  outcome = outcome;
  actor = actor;
  subject = none;
  session_id = session_id;
  tenant_id = none;
  correlation_id = none;
  metadata = metadata;
}

-- An event of the system about this agent.
unfoldable pub subject_event :
    AuthAuditEventType → AuditSeverity → Text → Option Text → Fields → AuditEventInput
unfolding agent_event
subject_event type severity agent_id session_id metadata =
    record (agent_event type severity success (record { type = Audit.system; id = none }) session_id
      metadata) { subject = some (record { type = Audit.agent; id = some agent_id }) }

module _ {S : Type 0} (service : AgentIdentityService S) where
  unfoldable pub revoked_key : Text → Text
  unfolding join filter is_nonempty
  revoked_key agent_id =
      join (text ":")
        (filter is_nonempty (service.key_prefix ∷ text "agent-revoked" ∷ agent_id ∷ []))

  unfoldable pub is_revoked : Text → M S Bool
  unfolding revoked_key
  is_revoked agent_id = service.redis.exists (revoked_key agent_id) >>= λ found. pure (found == 1)

  unfoldable pub resolve_active_agent : Text → M S RegisteredAgentIdentity
  resolve_active_agent agent_id = do
    valid ← lift (assert_agent_id agent_id)
    revoked ← is_revoked valid
    branch revoked (throw revoked_agent)
        (service.resolve_agent valid >>= λ agent. lift (active_agent valid agent))

  unfoldable pub list_sessions : Text → M S (List AgentSessionMetadata)
  list_sessions agent_id = do
    valid ← lift (assert_agent_id agent_id)
    sessions ← Store.list service.sessions valid
    pure (map agent_session sessions)

  unfoldable pub revoke_session : Text → Text → M S (Unit {0})
  revoke_session agent_id session_id = do
    agent ← lift (assert_agent_id agent_id)
    session ← lift (assert_agent_id session_id)
    Store.revoke service.sessions agent session

  unfoldable pub revoke_agent : Text → M S (Unit {0})
  revoke_agent agent_id = do
    valid ← lift (assert_agent_id agent_id)
    service.redis.set (revoked_key valid) (text "1")
    Store.revoke_all service.sessions valid
    service.emit (subject_event agent_revoked critical valid none end)

  unfoldable pub activate_agent : Text → M S (Unit {0})
  activate_agent agent_id = do
    valid ← lift (assert_agent_id agent_id)
    service.redis.del (revoked_key valid)
    service.emit (subject_event agent_activated warning valid none end)

  unfoldable pub audit_agent_rejection : Text → Error → M S (Unit {0})
  audit_agent_rejection agent_id error = service.emit (
      agent_event agent_token_rejected warning denied
        (rejected_actor agent_id (assert_agent_id agent_id)) none (rejection_reason error))
