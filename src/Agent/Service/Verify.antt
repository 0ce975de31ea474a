-- ===== src/Agent/Service/Verify.antt =====
-- src/agent/agentIdentity.ts: `verifyToken`, and the middleware of `requireAgent` and `requireScopes`.
use authenik8_core_beta.Common.{
  ℕ, Bool, true, false, not, Option, none, some, List, [], ◌∷◌, if◌then◌else◌, ◌==◌, length, map,
}
use authenik8_core_beta.Common.Text.{Text, text, eqb, trim}
use authenik8_core_beta.Common.Value.{Value, string, array, Fields, end, field, from_items}
use authenik8_core_beta.Common.Effects.{Result, ok, err}
use authenik8_core_beta.Common.Effects.Async.{
  M, ◌>>=◌, ◌>>◌, pure, lift, branch, if_present, try_catch,
}
use authenik8_core_beta.Audit as Audit
use authenik8_core_beta.Audit.{agent_token_rejected, warning, denied}
use authenik8_core_beta.Risk.{RiskPrincipal, agent, suspicious_agent_activity}
use authenik8_core_beta.Auth.Sessions.Store as Store
use authenik8_core_beta.Agent.{
  AgentTokenPayload, AgentTokenUse, agent_use, delegation_use, normalize_scopes, scopes_are_allowed,
}
use authenik8_core_beta.Agent.Claims.{claims_are_valid}
use authenik8_core_beta.Agent.Service.{
  AgentIdentityService, is_revoked, resolve_active_agent, agent_event,
}
use authenik8_core_beta.Agent.Service.Issue.{or_text}

unfoldable pub token_use_of : Value → Option AgentTokenUse
unfolding eqb
token_use_of (string t) =
    if eqb t (text "agent")
    then some agent_use
    else if eqb t (text "agent-delegation")
    then some delegation_use
    else none
token_use_of _ = none

unfoldable pub risk_principal : AgentTokenPayload → RiskPrincipal
risk_principal payload = record {
  kind = agent;
  id = payload.agent_id;
  session_id = payload.session_id;
}

abbrev pub reason_field : Text → Fields → Fields
reason_field reason rest = field (text "reason") (string reason) rest

-- How the middleware ends: `next()` with the agent on the request, or a response.
pub data AgentReply : Type 0 where
  accepted : AgentTokenPayload → AgentReply
  answered : ℕ → Text → AgentReply

-- `authorization?.startsWith("Bearer ") ? authorization.slice(…).trim() : undefined`.
unfoldable pub after_text : Text → Text → Option Text
after_text [] t = some t
after_text (p ∷ ps) [] = none
after_text (p ∷ ps) (c ∷ t) = let rest = after_text ps t in if p == c then rest else none

unfoldable pub presented_token : Option Text → Text
unfolding after_text trim
presented_token none = []
presented_token (some header) = elim (after_text (text "Bearer ") header) [
  | none ↦ []
  | some token ↦ trim token
]

module _ {S : Type 0} (service : AgentIdentityService S) where
  -- The report and the event of a rejection; the event may have more metadata.
  unfoldable pub report_agent : AgentTokenPayload → Text → Fields → M S (Unit {0})
  report_agent payload reason more =
      if_present service.risk
        (λ risk.
          risk.report_signal (record {
            type = suspicious_agent_activity;
            principal = risk_principal payload;
            fingerprint = none;
            metadata = reason_field reason end;
          })
          >>= λ state. pure tt)
        (pure tt)
      >> service.emit (
          agent_event agent_token_rejected warning denied
            (record { type = Audit.agent; id = some payload.agent_id }) (some payload.session_id)
            (reason_field reason more))

  unfoldable pub reject_verified_agent : AgentTokenPayload → Text → M S (Option AgentTokenPayload)
  reject_verified_agent payload reason = report_agent payload reason end >> pure none

  -- Whether the session that has delegated is active; the identifiers are there in valid claims.
  unfoldable pub delegation_is_active : AgentTokenUse → AgentTokenPayload → M S Bool
  delegation_is_active agent_use payload = pure true
  delegation_is_active delegation_use payload =
      service.has_human_session (or_text payload.delegated_user_id [])
        (or_text payload.delegated_session_id [])

  unfoldable pub verify_registered : AgentTokenPayload → M S (Option AgentTokenPayload)
  verify_registered payload = do
    registered ← resolve_active_agent service payload.agent_id
    allowed ← lift (normalize_scopes registered.scopes)
    branch (not (scopes_are_allowed payload.scopes allowed))
        (reject_verified_agent payload (text "registry_scope_mismatch"))
        (delegation_is_active payload.token_use payload >>= λ active.
          branch (not active) (reject_verified_agent payload (text "delegating_session_inactive"))
            (pure (some payload)))

  unfoldable pub verify_session : Text → AgentTokenPayload → M S (Option AgentTokenPayload)
  verify_session token payload = do
    matches ← Store.token_matches service.sessions payload.agent_id payload.session_id token
    branch (not matches) (reject_verified_agent payload (text "session_token_mismatch"))
        (verify_registered payload)

  unfoldable pub verify_unrevoked : Text → AgentTokenPayload → M S (Option AgentTokenPayload)
  verify_unrevoked token payload = do
    revoked ← is_revoked service payload.agent_id
    branch revoked (reject_verified_agent payload (text "revoked_agent"))
        (verify_session token payload)

  unfoldable pub verify_payload : Text → AgentTokenPayload → M S (Option AgentTokenPayload)
  verify_payload token payload = branch (not (claims_are_valid payload)) (pure none) (
      if_present service.risk (λ risk. risk.quarantined_now (risk_principal payload)) (pure false)
      >>= λ quarantined.
          branch quarantined (reject_verified_agent payload (text "quarantined_session"))
            (verify_unrevoked token payload))

  unfoldable pub verify_as : Text → Option AgentTokenUse → M S (Option AgentTokenPayload)
  verify_as token none = pure none
  verify_as token (some token_use) =
      service.keys.verify token token_use >>= λ payload. verify_payload token payload

  unfoldable pub verify_token : Text → M S (Option AgentTokenPayload)
  verify_token token =
      try_catch
        (service.keys.decode_token_use token >>= λ value. verify_as token (token_use_of value))
        λ error. pure none

  unfoldable pub admit_agent : List Text → Option AgentTokenPayload → M S AgentReply
  admit_agent required none = pure (answered 403 (text "AGENT_TOKEN_INVALID"))
  admit_agent required (some payload) =
      branch (not (scopes_are_allowed required payload.scopes))
        (report_agent payload (text "route_scope_denied")
            (field (text "requiredScopes") (array (from_items (map string required))) end)
          >> pure (answered 403 (text "AGENT_SCOPE_REQUIRED")))
        (pure (accepted payload))

  -- `authenticate`, for the header `authorization`.
  unfoldable pub authenticate_agent : List Text → Option Text → M S AgentReply
  unfolding presented_token
  authenticate_agent required authorization =
      branch (length (presented_token authorization) == 0)
        (pure (answered 401 (text "AGENT_TOKEN_REQUIRED")))
        (verify_token (presented_token authorization) >>= λ verified. admit_agent required verified)

  unfoldable pub require_agent : Option Text → M S AgentReply
  require_agent authorization = authenticate_agent [] authorization

  unfoldable pub require_scopes : List Text → Result (Option Text → M S AgentReply)
  require_scopes scopes = elim (normalize_scopes scopes) [
    | err e ↦ err e
    | ok required ↦ ok (authenticate_agent required)
  ]
