-- ===== src/Agent/Claims.antt =====
-- src/agent/agentIdentity.ts, `claimsAreValid`: which claims a token of an agent may have.
use authenik8_core_beta.Common.{
  String, Bool, true, false, ◌&&◌, Option, none, some, List, [], ◌∷◌, ◌++◌, length, ◌==◌,
  if◌then◌else◌,
}
use authenik8_core_beta.Common.Text.{Text, text, eqb}
use authenik8_core_beta.Common.Effects.{Result, ok, err, agent_identity}
use authenik8_core_beta.Common.Effects.Pure.{◌>>=◌}
use authenik8_core_beta.Agent.{
  IdentityActor, IdentityActorType, user_actor, agent_actor, AgentTokenPayload, AgentTokenUse,
  agent_use, delegation_use, assert_agent_id, normalize_scopes, assert_delegated_text,
}

abbrev pub agent_subject : Text → Text
agent_subject agent_id = text "agent:" ++ agent_id

abbrev pub user_subject : Text → Text
user_subject user_id = text "user:" ++ user_id

-- `value === t` for a claim that may be absent.
unfoldable pub claim_is : Option Text → Text → Bool
unfolding eqb
claim_is none t = false
claim_is (some value) t = eqb value t

-- `!value`.
unfoldable pub is_absent : Option Text → Bool
is_absent none = true
is_absent (some t) = length t == 0

unfoldable pub is_actor_type : IdentityActorType → IdentityActorType → Bool
is_actor_type user_actor user_actor = true
is_actor_type agent_actor agent_actor = true
is_actor_type _ _ = false

unfoldable pub is_actor : IdentityActorType → Text → IdentityActor → Bool
unfolding eqb is_actor_type
is_actor type id actor = is_actor_type actor.type type && eqb actor.id id

unfoldable pub is_agent_chain : Text → List IdentityActor → Bool
unfolding is_actor
is_agent_chain agent_id (actor ∷ []) = is_actor agent_actor agent_id actor
is_agent_chain agent_id _ = false

unfoldable pub is_delegation_chain : Text → Text → List IdentityActor → Bool
unfolding is_actor
is_delegation_chain user_id agent_id (first ∷ second ∷ []) =
    is_actor user_actor user_id first && is_actor agent_actor agent_id second
is_delegation_chain user_id agent_id _ = false

unfoldable pub agent_claims : AgentTokenPayload → Bool
unfolding claim_is is_agent_chain is_absent
agent_claims payload =
    claim_is payload.sub (agent_subject payload.agent_id)
    && is_agent_chain payload.agent_id payload.actor_chain
    && is_absent payload.delegated_user_id
    && is_absent payload.delegated_session_id

unfoldable pub assert_delegated_claim : Option Text → String → Result Text
assert_delegated_claim none message = err (agent_identity "AGENT_DELEGATION_DENIED" message)
assert_delegated_claim (some t) message = assert_delegated_text t message

unfoldable pub delegation_claims : AgentTokenPayload → Result Bool
unfolding assert_delegated_claim claim_is is_delegation_chain
delegation_claims payload = do
  user_id ← assert_delegated_claim payload.delegated_user_id "Delegated userId is invalid"
  session_id ← assert_delegated_claim payload.delegated_session_id "Delegated sessionId is invalid"
  ok (
      claim_is payload.sub (user_subject user_id)
      && claim_is payload.act (agent_subject payload.agent_id)
      && is_delegation_chain user_id payload.agent_id payload.actor_chain)

unfoldable pub use_claims : AgentTokenUse → AgentTokenPayload → Result Bool
unfolding agent_claims delegation_claims
use_claims agent_use payload = ok (agent_claims payload)
use_claims delegation_use payload = delegation_claims payload

unfoldable pub check_claims : AgentTokenPayload → Result Bool
unfolding use_claims assert_agent_id normalize_scopes
check_claims payload = do
  agent_id ← assert_agent_id payload.agent_id
  session_id ← assert_agent_id payload.session_id
  scopes ← normalize_scopes payload.scopes
  if length scopes == length payload.scopes then use_claims payload.token_use payload else ok false

-- `catch { return false; }`.
unfoldable pub or_false : Result Bool → Bool
or_false (ok b) = b
or_false (err e) = false

unfoldable pub claims_are_valid : AgentTokenPayload → Bool
unfolding check_claims or_false
claims_are_valid payload = or_false (check_claims payload)
