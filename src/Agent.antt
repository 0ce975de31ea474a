-- ===== src/Agent.antt =====
-- src/agent/types.ts, and the checks of src/agent/agentIdentity.ts on identifiers, scopes and claims.
pub mod Claims
pub mod Service
pub mod Laws
mod Tests
use authenik8_core_beta.Common.{
  ℕ, String, Bool, true, false, not, ◌&&◌, ◌||◌, Option, none, some, List, [], ◌∷◌, ◌++◌,
  if◌then◌else◌, ltb, leb, ◌==◌, length, any, every,
}
use authenik8_core_beta.Common.Text.{
  Text, text, eqb, distinct, includes, contains_control_character,
}
use authenik8_core_beta.Common.Value.{Value, undefined, string, boolean, is_unsafe}
use authenik8_core_beta.Common.Effects.{Result, ok, err, agent_identity}
use authenik8_core_beta.Common.Effects.Pure.{◌>>=◌}
use authenik8_core_beta.Redis.{is_alphanumeric}
use authenik8_core_beta.Security.ClientIp.{split}

pub data AgentTokenUse : Type 0 where
  agent_use delegation_use : AgentTokenUse

pub data IdentityActorType : Type 0 where
  user_actor agent_actor : IdentityActorType

pub record IdentityActor : Type 0 where
  pub type : IdentityActorType
  pub id : Text

-- What the registry of the application returns; `active` is tested for its type.
pub record RegisteredAgentIdentity : Type 0 where
  pub agent_id : Text
  pub scopes : List Text
  pub active : Value

-- The fields of `AgentSessionInput`; label and IP are tested for their types.
pub record AgentSessionInput : Type 0 where
  pub session_id : Option Text
  pub label : Value
  pub ip : Value

pub record IssueAgentTokenInput : Type 0 where
  pub agent_id : Text
  pub scopes : Option (List Text)
  pub session : AgentSessionInput

pub record IssueDelegatedAgentTokenInput : Type 0 where
  pub agent_id : Text
  pub user_access_token : Text
  pub scopes : List Text
  pub session : AgentSessionInput

-- The claims of a token, of their declared types; `act` is `act.sub`.
pub record AgentTokenPayload : Type 0 where
  pub sub : Option Text
  pub agent_id : Text
  pub scopes : List Text
  pub session_id : Text
  pub token_use : AgentTokenUse
  pub actor_chain : List IdentityActor
  pub delegated_user_id : Option Text
  pub delegated_session_id : Option Text
  pub act : Option Text

pub record AgentTokenResult : Type 0 where
  pub access_token : Text
  pub session_id : Text
  pub scopes : List Text
  pub token_use : AgentTokenUse

pub record AgentSessionMetadata : Type 0 where
  pub session_id : Text
  pub label : Text
  pub ip : Text
  pub created_at : ℕ

abbrev pub max_scopes : ℕ
max_scopes = 64

abbrev pub max_scope_length : ℕ
max_scope_length = 128

abbrev pub max_delegated_id_length : ℕ
max_delegated_id_length = 256

-- AGENT_ID_PATTERN.
unfoldable pub is_id_char : ℕ → Bool
unfolding is_alphanumeric
is_id_char c = is_alphanumeric c || c == b'.' || c == b'_' || c == b'-'

unfoldable pub is_agent_id : Text → Bool
unfolding is_alphanumeric is_id_char every
is_agent_id [] = false
is_agent_id (c ∷ rest) = is_alphanumeric c && every is_id_char rest && leb (length rest) 127

unfoldable pub assert_agent_id : Text → Result Text
unfolding is_agent_id
assert_agent_id agent_id =
    if is_agent_id agent_id
    then ok agent_id
    else err (
        agent_identity "AGENT_INVALID"
          "agentId must be 1-128 letters, numbers, dots, underscores, or hyphens")

-- SCOPE_PATTERN: two or more names with colons between them.
unfoldable pub is_scope_start : ℕ → Bool
is_scope_start c = leb b'a' c && leb c b'z'

unfoldable pub is_scope_char : ℕ → Bool
unfolding is_scope_start
is_scope_char c =
    is_scope_start c
    || (leb b'0' c && leb c b'9')
    || c == b'.'
    || c == b'_'
    || c == b'/'
    || c == b'-'

unfoldable pub is_scope_name : Text → Bool
unfolding is_scope_start is_scope_char every
is_scope_name [] = false
is_scope_name (c ∷ rest) = is_scope_start c && every is_scope_char rest

unfoldable pub matches_scope_pattern : Text → Bool
unfolding split is_scope_name every
matches_scope_pattern scope =
    leb 2 (length (split b':' scope)) && every is_scope_name (split b':' scope)

unfoldable pub is_scope : Text → Bool
unfolding matches_scope_pattern
is_scope scope = leb (length scope) max_scope_length && matches_scope_pattern scope

-- Array.prototype.sort, which compares code units.
unfoldable pub text_leb : Text → Text → Bool
text_leb [] t = true
text_leb (c ∷ s) [] = false
text_leb (c ∷ s) (d ∷ t) = let rest = text_leb s t in ltb c d || (c == d && rest)

unfoldable pub insert_sorted : Text → List Text → List Text
insert_sorted t [] = t ∷ []
insert_sorted t (s ∷ ss) =
    let rest = insert_sorted t ss in if text_leb t s then t ∷ s ∷ ss else s ∷ rest

unfoldable pub sort : List Text → List Text
unfolding text_leb insert_sorted
sort [] = []
sort (t ∷ ts) = insert_sorted t (sort ts)

unfoldable pub normalize_scopes : List Text → Result (List Text)
unfolding distinct is_scope sort
normalize_scopes scopes =
    let normalized = distinct scopes in
    if length normalized == 0 || ltb max_scopes (length normalized)
    then err (agent_identity "AGENT_SCOPE_DENIED" "Agent tokens require between 1 and 64 scopes")
    else if not (every is_scope normalized)
    then err (
        agent_identity "AGENT_SCOPE_DENIED"
          "Agent scopes must be at most 128 characters and use lower-case resource:action names")
    else ok (sort normalized)

unfoldable pub scopes_are_allowed : List Text → List Text → Bool
unfolding every includes
scopes_are_allowed requested allowed = every (includes allowed) requested

unfoldable pub assert_delegated_text : Text → String → Result Text
unfolding is_unsafe
assert_delegated_text value message =
    if is_unsafe max_delegated_id_length value
    then err (agent_identity "AGENT_DELEGATION_DENIED" message)
    else ok value

-- The message is that of the label.
unfoldable pub assert_delegated_identity : Value → String → Result Text
unfolding assert_delegated_text
assert_delegated_identity (string value) message = assert_delegated_text value message
assert_delegated_identity _ message = err (agent_identity "AGENT_DELEGATION_DENIED" message)

unfoldable pub optional_session_metadata : Value → String → ℕ → Result (Option Text)
unfolding is_unsafe
optional_session_metadata undefined message maximum = ok none
optional_session_metadata (string value) message maximum =
    if is_unsafe maximum value
    then err (agent_identity "AGENT_INVALID" message)
    else ok (some value)
optional_session_metadata _ message maximum = err (agent_identity "AGENT_INVALID" message)
