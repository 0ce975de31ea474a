-- ===== src/Agent/Service/Signed.antt =====
-- What the tokens that `issue` of src/agent/agentIdentity.ts signs carry, and for whom delegation is.
use authenik8_core_beta.Common.{◌≡◌, refl, ap, ◌∙◌, Option, none, some, List, arith, ℕ, String}
use authenik8_core_beta.Common.Text.{Text, text}
use authenik8_core_beta.Common.Value.{Value, Fields, string, object, property}
use authenik8_core_beta.Common.Effects.{Result, ok}
use authenik8_core_beta.Common.Effects.Pure as Pure
use authenik8_core_beta.Common.Effects.Pure.{>>=-eq-ok}
use authenik8_core_beta.Common.Effects.Hoare.{
  Yields, Yields-then, Yields-bind, Yields-pure, Yields-branch, Yields-throw,
}
use authenik8_core_beta.Agent.{
  RegisteredAgentIdentity, AgentTokenResult, AgentSessionInput, AgentTokenPayload,
  assert_delegated_identity, assert_delegated_text,
}
use authenik8_core_beta.Agent.Service.{AgentIdentityService}
use authenik8_core_beta.Agent.Service.Issue.{
  HumanSession, use_of, issued_payload, human_session, finish_issue, issue,
}

-- The token carries these claims: of the agent, with the scopes, the use and the session of the result.
pub record IsTokenFor (carries : Text → AgentTokenPayload → Type 0) (agent_id : Text)
    (result : AgentTokenResult) (payload : AgentTokenPayload) : Type 0 where
  pub signed : carries result.access_token payload
  pub agent_lem : payload.agent_id ≡ agent_id
  pub scopes_lem : payload.scopes ≡ result.scopes
  pub use_lem : payload.token_use ≡ result.token_use
  pub session_lem : payload.session_id ≡ result.session_id

-- The user of a delegation, in the claims of the token.
abbrev pub IsDelegatedBy : Option HumanSession → AgentTokenPayload → Type 0
IsDelegatedBy none payload =
    (payload.delegated_user_id ≡ none) × (payload.delegated_session_id ≡ none)
IsDelegatedBy (some human) payload =
    (payload.delegated_user_id ≡ some human.user_id)
    × (payload.delegated_session_id ≡ some human.session_id)

-- The claims of an access token name this user and session.
abbrev pub Names : Option Fields → HumanSession → Type 0
Names user human =
    (claims : Fields) × (user ≡ some claims)
    × (property (text "userId") (object claims) ≡ string human.user_id)
    × (property (text "sessionId") (object claims) ≡ string human.session_id)

delegated_text :
    (t : Text) (label : String) (id : Text) → assert_delegated_text t label ≡ ok id → t ≡ id
unfolding assert_delegated_text
delegated_text t label id h = ground (arith, h)

delegated_identity :
    (v : Value) (label : String) (id : Text)
    → assert_delegated_identity v label ≡ ok id
    → v ≡ string id
unfolding assert_delegated_identity
delegated_identity (string t) label id h = ap string (delegated_text t label id h)
delegated_identity _ label id h = cc

pub human_session-Names :
    (user : Option Fields) (human : HumanSession) → human_session user ≡ ok human → Names user human
unfolding human_session
human_session-Names none human h = cc
human_session-Names (some claims) human h =
    let (user_id, e, k) =
      >>=-eq-ok
        (assert_delegated_identity (property (text "userId") (object claims))
          "Delegated userId is invalid")
        (rest claims) {y = human} (ground (arith, h)) in
    let (session_id, e', k') =
      >>=-eq-ok _ (λ id. ok (record { user_id = user_id; session_id = id })) {y = human} k in
    let same : record { user_id = user_id; session_id = session_id } ≡ human = ground (arith, k') in
    (
      claims,
      refl,
      delegated_identity _ _ user_id e ∙ ap (λ x. string x.user_id) same,
      delegated_identity _ _ session_id e' ∙ ap (λ x. string x.session_id) same,
    )
  where
    rest : Fields → Text → Result HumanSession
    rest claims user_id =
        Pure.◌>>=◌
          (assert_delegated_identity (property (text "sessionId") (object claims))
            "Delegated sessionId is invalid")
          λ id. ok (record { user_id = user_id; session_id = id })

module _ {S : Type 0} (service : AgentIdentityService S)
    (carries : Text → AgentTokenPayload → Type 0) where
  -- A signed token carries the claims that were signed.
  pub record SignsClaims : Type 0 where
    pub sign :
        (payload : AgentTokenPayload) (seconds : ℕ)
        → Yields (λ token. carries token payload) (service.keys.sign payload seconds)

  -- The result of an issue, and the claims of its token.
  abbrev pub IsIssued : Text → List Text → Option HumanSession → AgentTokenResult → Type 0
  IsIssued agent_id scopes human result =
      (result.scopes ≡ scopes)
      × (result.token_use ≡ use_of human)
      × (payload : AgentTokenPayload) × IsTokenFor carries agent_id result payload
      × IsDelegatedBy human payload

  payload-IsIssued :
      (agent_id : Text) (scopes : List Text) (session_id token : Text) (human : Option HumanSession)
      → carries token (issued_payload agent_id scopes session_id human)
      → IsIssued agent_id scopes human (record {
        access_token = token;
        session_id = session_id;
        scopes = scopes;
        token_use = use_of human;
      })
  unfolding issued_payload use_of
  payload-IsIssued agent_id scopes session_id token none signed = (
    refl,
    refl,
    _,
    record {
      signed = signed;
      agent_lem = refl;
      scopes_lem = refl;
      use_lem = refl;
      session_lem = refl;
    },
    (refl, refl),
  )
  payload-IsIssued agent_id scopes session_id token (some human) signed = (
    refl,
    refl,
    _,
    record {
      signed = signed;
      agent_lem = refl;
      scopes_lem = refl;
      use_lem = refl;
      session_lem = refl;
    },
    (refl, refl),
  )

  module _ (keys : SignsClaims) where
    pub issue-IsIssued :
        (agent : RegisteredAgentIdentity) (scopes : List Text) (input : AgentSessionInput)
        (human : Option HumanSession)
        → Yields (IsIssued agent.agent_id scopes human) (issue service agent scopes input human)
    unfolding issue finish_issue
    issue-IsIssued agent scopes input human = Yields-then _ _ λ session_id. Yields-then _ _ λ label.
        Yields-then _ _ λ ip.
          Yields-bind
            (λ token. carries token (issued_payload agent.agent_id scopes session_id human)) _ _
            (keys.sign _ _)
            λ token signed. Yields-then _ _ λ now. Yields-then _ _ λ stored.
              Yields-then _ _ λ revoked.
                Yields-branch _ _ _ (λ k. Yields-then _ _ λ u. Yields-throw _)
                  λ k. Yields-then _ _ λ emitted.
                    Yields-pure _
                      (payload-IsIssued agent.agent_id scopes session_id token human signed)
