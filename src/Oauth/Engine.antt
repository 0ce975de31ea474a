-- ===== src/Oauth/Engine.antt =====
-- createIdentityEngine of src/oauth/brain/identityEngine.ts: what a provider's profile does to the
-- accounts of an application. The adapter answers with values of type `unknown`, which the engine
-- validates; every call of a dependency may throw and changes the state `S` of the world.
pub mod Results
pub mod Frames
use authenik8_core_beta.Common.{
  String, Bool, true, false, not, ◌&&◌, ◌||◌, Option, none, some, List, if◌then◌else◌, any,
}
use authenik8_core_beta.Common.Text.{Text, text, eqb}
use authenik8_core_beta.Common.Value.{
  Value, undefined, null, boolean, string, Fields, end, field, property, truthy,
}
use authenik8_core_beta.Common.Effects.{Error, plain, Result, ok, err}
use authenik8_core_beta.Common.Effects.Pure
use authenik8_core_beta.Common.Effects.Async.{M, ◌>>=◌, ◌>>◌, pure, throw, lift, branch}
use authenik8_core_beta.Audit.{
  AuditEmitter, AuditActor, AuditEventInput, AuthAuditEventType, oauth_provider_linked,
  oauth_provider_link_rejected, oauth_user_created, AuditSeverity, info, warning, AuditOutcome,
  success, denied, user, system,
}
use authenik8_core_beta.Oauth.Validation.{
  IdentityProviderRecord, IdentityUser, validate_identity_provider, validate_identity_user_id,
  normalize_identity_email, validate_identity_user, user_value,
}
use authenik8_core_beta.Oauth.Policy.{IdentityPolicy, can_auto_link}

pub data OAuthMode : Type 0 where
  login link : OAuthMode

pub record IdentityContext : Type 0 where
  pub email : Text
  pub provider : IdentityProviderRecord
  pub mode : OAuthMode
  pub user_id : Option Text

pub record Tokens : Type 0 where
  pub access_token : Text
  pub refresh_token : Text

-- The payload of `issueTokens`.
pub record TokenRequest : Type 0 where
  pub user_id : Text
  pub email : Text
  pub session_id : Text
  pub role : Option Text

pub data IdentityResult : Type 0 where
  existing_provider_login : IdentityUser → Tokens → IdentityResult
  existing_email_conflict : Text → IdentityUser → String → IdentityResult
  new_user_creation : IdentityUser → Tokens → IdentityResult
  link_provider : IdentityUser → IdentityResult
  invalid_link_request : String → IdentityResult
  link_required : Text → Text → IdentityResult

pub record OAuthIdentityAdapter (S : Type 0) : Type 0 where
  pub find_user_by_id : Text → M S Value
  pub find_user_by_email : Text → M S Value
  pub find_user_by_provider : Text → Text → M S Value
  pub create_user : Text → Text → Text → M S Value
  pub link_provider : Text → Text → Text → M S (Unit {0})

-- The arguments of `createIdentityEngine`, and what it takes from the platform.
pub record Dependencies (S : Type 0) : Type 0 where
  pub adapter : OAuthIdentityAdapter S
  pub issue_tokens : TokenRequest → M S Tokens
  pub audit : AuditEmitter S
  pub policy : IdentityPolicy
  pub random_uuid : M S Text
  pub lower_case : Text → Text

-- The argument of `resolveOAuth`, unvalidated.
pub record OAuthArgs : Type 0 where
  pub mode : Text
  pub email : Value
  pub email_verified : Value
  pub provider : Value
  pub provider_id : Value
  pub user_id : Value

unfoldable pub is_entry : IdentityProviderRecord → IdentityProviderRecord → Bool
is_entry identity entry =
    eqb entry.provider identity.provider && eqb entry.provider_id identity.provider_id

unfoldable pub has_provider : IdentityProviderRecord → IdentityUser → Bool
unfolding any is_entry
has_provider identity u = any (is_entry identity) u.providers

-- An audit event of the engine.
unfoldable pub engine_event :
    AuthAuditEventType → AuditSeverity → AuditOutcome → AuditActor → Text → Fields → AuditEventInput
engine_event type severity outcome actor subject metadata = record {
  type = type;
  severity = severity;
  outcome = outcome;
  actor = actor;
  subject = some (record { type = user; id = some subject });
  session_id = none;
  tenant_id = none;
  correlation_id = none;
  metadata = metadata;
}

abbrev pub user_actor : Text → AuditActor
user_actor id = record { type = user; id = some id }

abbrev pub system_actor : AuditActor
system_actor = record { type = system; id = none }

unfoldable pub link_metadata : Text → String → String → Fields
link_metadata provider key value =
    field (text "provider") (string provider) (field (text key) (string (text value)) end)

-- `args.mode`, `args.profile.email_verified` and `args.userId`.
unfoldable pub parse_mode : Text → Result OAuthMode
parse_mode mode =
    if eqb mode (text "login")
    then ok login
    else if eqb mode (text "link")
    then ok link
    else err (plain "OAuth identity mode is invalid")

unfoldable pub parse_verified : Value → Result Bool
parse_verified (boolean b) = ok b
parse_verified _ = err (plain "OAuth email verification claim is invalid")

unfoldable pub parse_user_id : Value → Result (Option Text)
unfolding validate_identity_user_id
parse_user_id undefined = ok none
parse_user_id null = ok none
parse_user_id v = Pure.◌>>=◌ (validate_identity_user_id v) λ i. ok (some i)

-- `!linkedUser || !linkedUser.providers.some(…)`.
unfoldable pub require_linked : IdentityContext → Option IdentityUser → Result IdentityUser
require_linked ctx none = err (plain "OAuth provider link verification failed")
require_linked ctx (some u) =
    if has_provider ctx.provider u
    then ok u
    else err (plain "OAuth provider link verification failed")

-- `creation.status === status`.
unfoldable pub has_status : String → Value → Bool
has_status status (string t) = eqb t (text status)
has_status status _ = false

module _ {S : Type 0} (env : Dependencies S) where
  -- `providerBelongsTo` and `emailBelongsTo`.
  unfoldable pub provider_belongs_to : Value → IdentityContext → Result IdentityUser
  provider_belongs_to v ctx = Pure.◌>>=◌ (validate_identity_user env.lower_case v) λ u.
      if has_provider ctx.provider u
      then ok u
      else err (plain "OAuth identity adapter provider mismatch")

  unfoldable pub email_belongs_to : Value → IdentityContext → Result IdentityUser
  email_belongs_to v ctx = Pure.◌>>=◌ (validate_identity_user env.lower_case v) λ u.
      if eqb u.email ctx.email then ok u else err (plain "OAuth identity adapter email mismatch")

  -- The user of a creation goes through both checks, through the second as the value that it now is.
  unfoldable pub created_user : Value → IdentityContext → Result IdentityUser
  created_user v ctx =
      Pure.◌>>=◌ (email_belongs_to v ctx) λ u. provider_belongs_to (user_value u) ctx

  -- `found ? check(found) : null`.
  unfoldable pub checked : (Value → Result IdentityUser) → Value → Result (Option IdentityUser)
  checked check found =
      if truthy found then Pure.◌>>=◌ (check found) (λ u. ok (some u)) else ok none

  unfoldable pub issue_tokens_for_user : IdentityUser → M S Tokens
  issue_tokens_for_user u = do
    session_id ← env.random_uuid
    env.issue_tokens (record {
      user_id = u.id;
      email = u.email;
      session_id = session_id;
      role = elim u.role [ none ↦ none | some role ↦ some (env.lower_case role) ];
    })

  unfoldable pub issue_existing_login : IdentityUser → M S IdentityResult
  issue_existing_login u = do
    tokens ← issue_tokens_for_user u
    pure (existing_provider_login u tokens)

  -- The part of `linkForLogin` below its guard.
  unfoldable pub auto_link : IdentityContext → IdentityUser → M S IdentityResult
  unfolding engine_event link_metadata
  auto_link ctx u = do
    env.adapter.link_provider u.id ctx.provider.provider ctx.provider.provider_id
    found ← env.adapter.find_user_by_provider ctx.provider.provider ctx.provider.provider_id
    linked ← lift (provider_belongs_to found ctx)
    lift (Pure.throw_if (not (eqb linked.id u.id)) "OAuth provider link verification failed")
    env.audit (
        engine_event oauth_provider_linked info success (user_actor u.id) u.id
          (link_metadata ctx.provider.provider "method" "verified_email_policy"))
    issue_existing_login linked

  unfoldable pub link_for_login : IdentityContext → IdentityUser → Bool → M S IdentityResult
  unfolding can_auto_link
  link_for_login ctx u email_verified =
      branch (not (can_auto_link email_verified env.policy))
        (pure (link_required ctx.email ctx.provider.provider)) (auto_link ctx u)

  unfoldable pub read_back_link : IdentityContext → IdentityUser → M S IdentityResult
  unfolding engine_event link_metadata
  read_back_link ctx target = do
    result ← env.adapter.find_user_by_id target.id
    found ← lift (checked (validate_identity_user env.lower_case) result)
    linked ← lift (require_linked ctx found)
    env.audit (
        engine_event oauth_provider_linked info success (user_actor linked.id) linked.id
          (link_metadata ctx.provider.provider "method" "authenticated_link"))
    pure (link_provider linked)

  -- The link request of an authenticated user, once the user is found; `existing` is the owner of the
  -- provider account, if any.
  unfoldable pub link_target :
      IdentityContext → Option IdentityUser → IdentityUser → M S IdentityResult
  unfolding engine_event link_metadata
  link_target ctx none target = do
    env.adapter.link_provider target.id ctx.provider.provider ctx.provider.provider_id
    read_back_link ctx target
  link_target ctx (some owner) target =
      branch (eqb owner.id target.id) (read_back_link ctx target) do
        env.audit (
            engine_event oauth_provider_link_rejected warning denied (user_actor target.id)
              target.id (link_metadata ctx.provider.provider "reason" "already_linked"))
        pure (invalid_link_request "Provider cannot be linked")

  -- `!targetUser || targetUser.id !== ctx.userId`.
  unfoldable pub with_target :
      IdentityContext → Option IdentityUser → Text → Option IdentityUser → M S IdentityResult
  with_target ctx existing user_id none =
      pure (invalid_link_request "Invalid authenticated user for linking")
  with_target ctx existing user_id (some target) =
      branch (eqb target.id user_id) (link_target ctx existing target)
        (pure (invalid_link_request "Invalid authenticated user for linking"))

  -- `resolveOAuth` in mode "link", below the look-up of the provider account.
  unfoldable pub resolve_link :
      IdentityContext → Option IdentityUser → Option Text → M S IdentityResult
  resolve_link ctx existing none =
      pure (invalid_link_request "Missing authenticated user for linking")
  resolve_link ctx existing (some user_id) = do
    result ← env.adapter.find_user_by_id user_id
    target ← lift (checked (validate_identity_user env.lower_case) result)
    with_target ctx existing user_id target

  unfoldable pub announce_created : IdentityContext → IdentityUser → M S IdentityResult
  unfolding engine_event
  announce_created ctx created = do
    env.audit (
        engine_event oauth_user_created info success system_actor created.id
          (field (text "provider") (string ctx.provider.provider) end))
    tokens ← issue_tokens_for_user created
    pure (new_user_creation created tokens)

  -- What the engine makes of the answer of `createUser`.
  unfoldable pub after_creation : IdentityContext → Bool → Value → M S IdentityResult
  after_creation ctx email_verified creation =
      let status = property (text "status") creation in
      let account = property (text "user") creation in
      branch (has_status "existing-provider" status)
        (lift (provider_belongs_to account ctx) >>= issue_existing_login)
        (branch (has_status "existing-email" status)
          (lift (email_belongs_to account ctx) >>= λ u. link_for_login ctx u email_verified)
          (branch (has_status "created" status)
            (lift (created_user account ctx) >>= announce_created ctx)
            (throw (plain "OAuth identity adapter returned an invalid result"))))

  -- The log-in of a provider account that nobody owns.
  unfoldable pub login_by_email : IdentityContext → Bool → Option IdentityUser → M S IdentityResult
  login_by_email ctx email_verified (some u) = link_for_login ctx u email_verified
  login_by_email ctx email_verified none = do
    creation ← env.adapter.create_user ctx.email ctx.provider.provider ctx.provider.provider_id
    after_creation ctx email_verified creation

  -- `resolveOAuth` in mode "login", below the look-up of the provider account.
  unfoldable pub resolve_login : IdentityContext → Bool → Option IdentityUser → M S IdentityResult
  resolve_login ctx email_verified (some owner) = issue_existing_login owner
  resolve_login ctx email_verified none = do
    result ← env.adapter.find_user_by_email ctx.email
    found ← lift (checked (λ v. email_belongs_to v ctx) result)
    login_by_email ctx email_verified found

  unfoldable pub resolve_mode :
      IdentityContext → Bool → Option IdentityUser → OAuthMode → M S IdentityResult
  resolve_mode ctx email_verified existing link = resolve_link ctx existing ctx.user_id
  resolve_mode ctx email_verified existing login = resolve_login ctx email_verified existing

  unfoldable pub resolve_context : IdentityContext → Bool → M S IdentityResult
  resolve_context ctx email_verified = do
    result ← env.adapter.find_user_by_provider ctx.provider.provider ctx.provider.provider_id
    existing ← lift (checked (λ v. provider_belongs_to v ctx) result)
    resolve_mode ctx email_verified existing ctx.mode

  unfoldable pub resolve_oauth : OAuthArgs → M S IdentityResult
  resolve_oauth args = do
    mode ← lift (parse_mode args.mode)
    verified ← lift (parse_verified args.email_verified)
    provider ← lift (validate_identity_provider args.provider args.provider_id)
    email ← lift (normalize_identity_email env.lower_case args.email)
    user_id ← lift (parse_user_id args.user_id)
    resolve_context (record { email = email; provider = provider; mode = mode; user_id = user_id })
        verified
