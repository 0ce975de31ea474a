-- ===== src/Agent/Tests.antt =====
-- Runs of the agent service, and instances of its theorems.
use authenik8_core_beta.Common.{
  ℕ, ◌≡◌, ◌≢◌, refl, arith, Bool, true, false, Option, none, some, List, [], ◌∷◌, ◌++◌, sym, ap,
  subst, ◌∙◌, any, every, filter, if◌then◌else◌, ◌==◌,
}
use authenik8_core_beta.Common.Text as Text
use authenik8_core_beta.Common.Value as Value
use authenik8_core_beta.Common.Effects.Async as Async
use authenik8_core_beta.Common.Text.{Text, text, Has}
use authenik8_core_beta.Common.Value.{Value, string, Fields, end, field}
use authenik8_core_beta.Common.Effects.{Result, ok, err}
use authenik8_core_beta.Common.Effects.Async.{M, ◌>>=◌, ◌>>◌}
use authenik8_core_beta.Common.Effects.Hoare.{Yields}
use authenik8_core_beta.Common.Effects.Triples.{Ensures}
use authenik8_core_beta.Redis as Redis
use authenik8_core_beta.Security.ClientIp as ClientIp
use authenik8_core_beta.Auth as Auth
use authenik8_core_beta.Auth.{SessionRedisClient}
use authenik8_core_beta.Auth.Refresh as Refresh
use authenik8_core_beta.Auth.Sessions as Sessions
use authenik8_core_beta.Auth.Sessions.Store as Store
use authenik8_core_beta.Agent as Agent
use authenik8_core_beta.Agent.{
  RegisteredAgentIdentity, AgentTokenPayload, agent_use, IssueAgentTokenInput,
  IssueDelegatedAgentTokenInput, normalize_scopes, delegation_use,
}
use authenik8_core_beta.Agent.Laws.{IsNormalized, normalize_scopes-IsNormalized}
use authenik8_core_beta.Agent.Claims as Claims
use authenik8_core_beta.Agent.Service as Service
use authenik8_core_beta.Agent.Service.{AgentIdentityService, AgentDelegationRequest, revoke_agent}
use authenik8_core_beta.Agent.Service.Issue as Issue
use authenik8_core_beta.Agent.Service.Issue.{issue_token, issue_delegated_token, issued_payload}
use authenik8_core_beta.Agent.Service.Verify as Verify
use authenik8_core_beta.Agent.Service.Verify.{verify_token, authenticate_agent, accepted}
use authenik8_core_beta.Agent.Service.Granted.{
  IsRegistry, IsAccepted, authenticate_agent-IsAccepted,
}
use authenik8_core_beta.Agent.Service.Signed.{SignsClaims}
use authenik8_core_beta.Agent.Service.Granting.{
  IsGrantedFor, Delegates, IsDelegation, issue_token-IsGranted, issue_delegated_token-IsGranted,
}
use authenik8_core_beta.Agent.Service.Revoked.{
  KeepsRevocations, IsNotOf, revoke_agent-issue_token, revoke_agent-verify_token,
}

abbrev bot : RegisteredAgentIdentity
bot = record {
  agent_id = text "bot";
  scopes = text "docs:write" ∷ text "docs:read" ∷ [];
  active = Value.undefined;
}

abbrev bot_registry : Text → Option RegisteredAgentIdentity
bot_registry agent_id = if Text.eqb agent_id (text "bot") then some bot else none

bot_payload : AgentTokenPayload
unfolding issued_payload
bot_payload = issued_payload (text "bot") (text "docs:read" ∷ []) (text "s1") none

abbrev digest : Text
digest = text "0123456789012345678901234567890123456789abc"

-- JSON for the one session that is stored here.
abbrev bot_session : Value
bot_session = Value.object (
    Value.field (text "tokenHash") (Value.string digest) (
      Value.field (text "sessionId") (Value.string (text "s1")) (
        Value.field (text "device") (Value.string (text "bot")) (
          Value.field (text "ip") (Value.string (text "1.1.1.1"))
            (Value.field (text "createdAt") (Value.number 7) Value.end)))))

without : Text → List Text → List Text
without key [] = []
without key (k ∷ ks) = let rest = without key ks in if Text.eqb k key then rest else k ∷ rest

-- The text of a test token.
token_of : AgentTokenPayload → Text
token_of payload = payload.agent_id ++ (text ":" ++ Text.join (text " ") payload.scopes)

human_claims : Fields
human_claims =
    field (text "userId") (string (text "ann")) (field (text "sessionId") (string (text "h1")) end)

-- The state has the keys of Redis. The session of every token is stored.
abbrev Keys : Type 0
Keys = List Text

abbrev test_policy : AgentDelegationRequest → M Keys Bool
test_policy request s = (ok (Text.eqb request.user_id (text "ann")), s)

abbrev test_del : Text → M Keys (Unit {0})
test_del key s = (ok tt, without key s)

abbrev test_client : SessionRedisClient Keys
test_client = record {
  hget = some (λ key name s. (ok (some (text "{}")), s));
  hgetall = none;
  hset = some (λ key name value s. (ok tt, key ∷ s));
  hdel = some (λ key name s. (ok tt, s));
  del = some test_del;
  expire = some (λ key seconds s. (ok tt, s));
}

abbrev test_service : AgentIdentityService Keys
test_service = record {
  resolve_agent = λ agent_id s. (ok (bot_registry agent_id), s);
  authorize_delegation = some test_policy;
  redis = record {
    exists = λ key s. (ok (if Text.includes s key then 1 else 0), s);
    set = λ key value s. (ok tt, key ∷ s);
    del = λ key s. (ok tt, without key s);
  };
  keys = record {
    sign = λ payload seconds s. (ok (token_of payload), s);
    verify = λ token token_use s. (ok bot_payload, s);
    decode_token_use = λ token s. (ok (string (text "agent")), s);
  };
  sessions = record {
    redis = some test_client;
    namespace = text "agent-sessions";
    platform = record {
      sha256 = λ t. digest;
      buffer_from = λ v. ok [];
      json_parse = λ t. some bot_session;
      json_stringify = λ v. text "{}";
    };
    now = λ s. (ok 7, s);
  };
  verify_human_token = λ token s. (ok (some human_claims), s);
  has_human_session = λ user_id session_id s. (ok (Text.eqb session_id (text "h1")), s);
  emit = λ event s. (ok tt, s);
  risk = none;
  key_prefix = [];
  token_expiry_seconds = 900;
  random_uuid = λ s. (ok (text "s1"), s);
  now = λ s. (ok 7, s);
}

abbrev bot_input : IssueAgentTokenInput
bot_input = record {
  agent_id = text "bot";
  scopes = some (text "docs:read" ∷ []);
  session = record { session_id = none; label = Value.undefined; ip = Value.undefined };
}

abbrev delegated_input : IssueDelegatedAgentTokenInput
delegated_input = record {
  agent_id = text "bot";
  user_access_token = text "human";
  scopes = text "docs:read" ∷ [];
  session = record { session_id = none; label = Value.undefined; ip = Value.undefined };
}

running : Unit {0}
unfolding Text.eqb Text.is_control Text.contains_control_character Text.is_space Text.trim_start
    Text.trim_end Text.trim Text.join Text.includes Text.distinct_from Text.distinct Value.is_unsafe
    Value.keys Value.get_field Value.property Value.truthy Value.from_items Async.◌>>=◌ Async.pure
    Async.throw Async.lift Async.branch Async.if_present Async.try_catch any every filter
    Redis.is_alphanumeric ClientIp.add_to_first ClientIp.split Auth.token_fingerprint
    Auth.assert_identifier Refresh.is_nonempty Sessions.is_base64url Sessions.matches_token_hash
    Sessions.is_short Sessions.is_created_at Sessions.has_token Sessions.check_session
    Sessions.read_session Sessions.parse_session Sessions.in_field Sessions.validate_metadata
    Sessions.session_value Sessions.session_token_matches Store.session_key Store.session_field
    Store.get Store.upsert_with Store.upsert Store.matches_session Store.token_matches Store.revoke
    Store.revoke_all Agent.is_id_char Agent.is_agent_id Agent.assert_agent_id Agent.is_scope_start
    Agent.is_scope_char Agent.is_scope_name Agent.matches_scope_pattern Agent.is_scope
    Agent.text_leb Agent.insert_sorted Agent.sort Agent.normalize_scopes Agent.scopes_are_allowed
    Agent.assert_delegated_text Agent.assert_delegated_identity Agent.optional_session_metadata
    Claims.claim_is Claims.is_absent Claims.is_actor_type Claims.is_actor Claims.is_agent_chain
    Claims.is_delegation_chain Claims.agent_claims Claims.delegation_claims Claims.use_claims
    Claims.check_claims Claims.or_false Claims.claims_are_valid Service.is_active
    Service.active_agent Service.authorized_scopes Service.revoked_key Service.is_revoked
    Service.resolve_active_agent Service.revoke_agent Service.rejected_actor
    Service.rejection_reason Service.agent_event Service.subject_event Service.audit_agent_rejection
    Issue.use_of Issue.use_name Issue.issued_payload Issue.delegated_metadata Issue.issued_metadata
    Issue.human_session Issue.issued_session_id Issue.finish_issue Issue.issue
    Issue.requested_scopes Issue.audited Issue.issue_for_agent Issue.issue_token Issue.is_authorized
    Issue.issue_for_human Issue.issue_delegated_token Verify.token_use_of Verify.risk_principal
    Verify.after_text Verify.presented_token Verify.report_agent Verify.reject_verified_agent
    Verify.delegation_is_active Verify.verify_registered Verify.verify_session
    Verify.verify_unrevoked Verify.verify_payload Verify.verify_as Verify.verify_token
    Verify.admit_agent Verify.authenticate_agent bot_payload without token_of human_claims
running = tt

scopes_run :
    normalize_scopes (text "docs:write" ∷ text "docs:read" ∷ text "docs:write" ∷ [])
    ≡ ok (text "docs:read" ∷ text "docs:write" ∷ [])
unfolding running
scopes_run = refl

scope_runs :
    (Agent.is_scope (text "docs") ≡ false)
    × (Agent.is_scope (text "a.b:c:d/e") ≡ true)
    × (Agent.is_agent_id (text "-a") ≡ false)
unfolding running
scope_runs = (refl, refl, refl)

issue_runs : issue_token test_service bot_input [] ≡ (
  ok (record {
    access_token = text "bot:docs:read";
    session_id = text "s1";
    scopes = text "docs:read" ∷ [];
    token_use = agent_use;
  }),
  text "agent-sessions:bot" ∷ [],
)
unfolding running
issue_runs = refl

revoked_run :
    (revoke_agent test_service (text "bot") >> issue_token test_service bot_input)
      (text "agent-sessions:bot" ∷ [])
    ≡ (err (Service.revoked_agent), text "agent-revoked:bot" ∷ [])
unfolding running
revoked_run = refl

delegated_runs : issue_delegated_token test_service delegated_input [] ≡ (
  ok (record {
    access_token = text "bot:docs:read";
    session_id = text "s1";
    scopes = text "docs:read" ∷ [];
    token_use = delegation_use;
  }),
  text "agent-sessions:bot" ∷ [],
)
unfolding running
delegated_runs = refl

authenticate_runs :
    authenticate_agent test_service (text "docs:read" ∷ []) (some (text "Bearer t")) []
    ≡ (ok (accepted bot_payload), [])
unfolding running
authenticate_runs = refl

scopes-IsNormalized :
    IsNormalized
      (text "docs:write" ∷ text "docs:read" ∷ text "docs:write" ∷ [])
      (text "docs:read" ∷ text "docs:write" ∷ [])
scopes-IsNormalized = normalize_scopes-IsNormalized _ _ scopes_run

test-IsRegistry : IsRegistry test_service bot_registry
test-IsRegistry = record {
  resolve = λ agent_id. record { holds = λ s found s' h. ground (arith, h) };
}

bot-IsAccepted :
    Yields
      (IsAccepted test_service bot_registry test-IsRegistry (text "docs:read" ∷ []))
      (authenticate_agent test_service (text "docs:read" ∷ []) (some (text "Bearer t")))
bot-IsAccepted =
    authenticate_agent-IsAccepted test_service bot_registry test-IsRegistry (text "docs:read" ∷ [])
      (some (text "Bearer t"))

Carries : Text → AgentTokenPayload → Type 0
Carries token payload = token ≡ token_of payload

test-SignsClaims : SignsClaims test_service Carries
unfolding Carries
test-SignsClaims = record {
  sign = λ payload seconds. record { holds = λ s token s' h. sym (ground (arith, h)) };
}

bot-IsGranted :
    Yields
      (IsGrantedFor test_service Carries test-SignsClaims bot_registry test-IsRegistry
        (text "bot")
        none)
      (issue_token test_service bot_input)
bot-IsGranted =
    issue_token-IsGranted test_service Carries test-SignsClaims bot_registry test-IsRegistry
      bot_input

abbrev humans : Text → Option Fields
humans token = some human_claims

abbrev IsLive : Text → Text → Type 0
IsLive user_id session_id = session_id ≡ text "h1"

abbrev Allowed : AgentDelegationRequest → Type 0
Allowed request = request.user_id ≡ text "ann"

test_policy-Allowed :
    (authorize : AgentDelegationRequest → M Keys Bool)
    → test_service.authorize_delegation ≡ some authorize
    → (request : AgentDelegationRequest) (s : Keys) (b : Bool) (s' : Keys)
    → authorize request s ≡ (ok b, s')
    → b ≡ true
    → Allowed request
test_policy-Allowed authorize present request s b s' h t =
    let same : test_policy ≡ authorize = ground (arith, present) in
    let k : test_policy request s ≡ (ok b, s') = ap (λ f. f request s) same ∙ h in
    Text.eqb→eq request.user_id (text "ann") (ground (arith, k, t))

test-Delegates :
    Delegates test_service Carries test-SignsClaims bot_registry test-IsRegistry humans IsLive
      Allowed
test-Delegates = record {
  human = λ token. record { holds = λ s found s' h. sym (ground (arith, h)) };
  live = λ user_id session_id. record {
    holds = λ s b s' h t. Text.eqb→eq session_id (text "h1") (ground (arith, h, t));
  };
  policy =
      λ authorize present request. record { holds = test_policy-Allowed authorize present request };
}

delegated-IsGranted :
    Yields
      (IsDelegation test_service Carries test-SignsClaims bot_registry test-IsRegistry humans IsLive
        Allowed delegated_input)
      (issue_delegated_token test_service delegated_input)
delegated-IsGranted =
    issue_delegated_token-IsGranted test_service Carries test-SignsClaims bot_registry
      test-IsRegistry humans IsLive Allowed test-Delegates delegated_input

marked_of : Keys → Text → Bool
marked_of s key = Text.includes s key

includes-without :
    (key other : Text) (s : Keys)
    → other ≢ key
    → Text.includes s other ≡ true
    → Text.includes (without key s) other ≡ true
unfolding Text.includes without
includes-without key other [] apart h = cc
includes-without key other (k ∷ ks) apart h =
    ground (arith, includes-without key other ks apart, Text.eqb_iff k key, Text.eqb_iff k other)

counted :
    (i held : Bool) (s : Keys) (n : ℕ) (s' : Keys)
    → i ≡ held
    → Path (Result ℕ × Keys) (ok (if i then 1 else 0), s) (ok n, s')
    → ((n == 1) ≡ held) × (s ≡ s')
counted true held s n s' p h = (ground (arith, p, h), ground (arith, h))
counted false held s n s' p h = (ground (arith, p, h), ground (arith, h))

exists-held :
    (key : Text) (held : Bool) (s : Keys)
    → marked_of s key ≡ held
    → (n : ℕ) (s' : Keys) → test_service.redis.exists key s ≡ (ok n, s')
    → ((n == 1) ≡ held) × (marked_of s' key ≡ held)
unfolding marked_of
exists-held key held s p n s' h =
    let (e, same) = counted (Text.includes s key) held s n s' p h in
    (e, subst (λ t. marked_of t key ≡ held) same p)

set-held : (key : Text) (s : Keys) → marked_of (key ∷ s) key ≡ true
unfolding marked_of Text.includes
set-held key s = let e = Text.eqb_refl key in ground (arith, e)

del-held :
    (redis : SessionRedisClient Keys) (del : Text → M Keys (Unit {0}))
    → test_service.sessions.redis ≡ some redis
    → redis.del ≡ some del
    → (key : Text) (s : Keys) (other : Text) → other ≢ key
    → marked_of s other ≡ true
    → marked_of (del key s).1 other ≡ true
unfolding marked_of
del-held redis del present given key s other apart h =
    let client : test_client ≡ redis = ground (arith, present) in
    let k : some test_del ≡ some del = ap (λ r. r.del) client ∙ given in
    let same : test_del ≡ del = ground (arith, k) in
    subst (λ f. marked_of (f key s).1 other ≡ true) same (includes-without key other s apart h)

test-KeepsRevocations : KeepsRevocations test_service marked_of
unfolding running marked_of
test-KeepsRevocations = record {
  set = λ key value. record {
    holds = λ s p u s' h.
        let same : key ∷ s ≡ s' = ground (arith, h) in
        subst (λ t. marked_of t key ≡ true) same (set-held key s);
  };
  exists = λ key held. record { holds = λ s p n s' h. exists-held key held s p n s' h };
  namespace_lem = refl;
  del =
      λ redis del present given key. record { holds = λ s. del-held redis del present given key s };
  emit = λ event. record { holds = λ s agent_id h. h };
  decode = λ token. record { holds = λ s agent_id h. h };
  verify = λ token token_use. record { holds = λ s agent_id h. h };
  quarantined = λ payload. record { holds = λ s agent_id h. h };
}

bot_revoked-issue :
    Ensures
      (λ s. Unit {0})
      (revoke_agent test_service (text "bot") >> issue_token test_service bot_input)
      (λ result s. ⊥)
bot_revoked-issue =
    revoke_agent-issue_token test_service marked_of test-KeepsRevocations (text "bot") bot_input
      refl

bot_revoked-verify :
    Ensures
      (λ s. Unit {0})
      (revoke_agent test_service (text "bot") >> verify_token test_service (text "t"))
      (λ found s. IsNotOf test_service marked_of test-KeepsRevocations (text "bot") found)
bot_revoked-verify =
    revoke_agent-verify_token test_service marked_of test-KeepsRevocations (text "bot") (text "t")
