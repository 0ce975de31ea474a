-- ===== src/Oauth/Engine/Results.antt =====
-- What a result of `resolveOAuth` says about the account, whatever the adapter answers.
use authenik8_core_beta.Common.{
  ◌≡◌, refl, ap, sym, ◌∙◌, Bool, true, false, Option, none, some, arith,
}
use authenik8_core_beta.Common.Text.{Text, eqb→eq}
use authenik8_core_beta.Common.Value.{Value}
use authenik8_core_beta.Common.Effects.{ok}
use authenik8_core_beta.Common.Effects.Pure
use authenik8_core_beta.Common.Effects.Async.{M}
use authenik8_core_beta.Common.Effects.Hoare.{
  Yields, Yields-then, Yields-pure, Yields-throw, Yields-lift, Yields-branch, Yields-weaken,
}
use authenik8_core_beta.Oauth.Validation.{
  IdentityUser, validate_identity_provider, normalize_identity_email, validate_identity_user,
  user_value,
}
use authenik8_core_beta.Oauth.Validation.Laws.{
  IsIdentityUser, validate_identity_user_complete, validate_identity_user-IsIdentityUser,
}
use authenik8_core_beta.Oauth.Policy.{can_auto_link}
use authenik8_core_beta.Oauth.Engine.{
  OAuthMode, login, link, IdentityContext, IdentityResult, existing_provider_login,
  existing_email_conflict, new_user_creation, link_provider, invalid_link_request, link_required,
  Dependencies, OAuthArgs, has_provider, parse_mode, parse_verified, parse_user_id, require_linked,
  provider_belongs_to, email_belongs_to, created_user, checked, issue_tokens_for_user,
  issue_existing_login, auto_link, link_for_login, read_back_link, link_target, with_target,
  resolve_link, announce_created, after_creation, login_by_email, resolve_login, resolve_mode,
  resolve_context, resolve_oauth,
}

module _ {S : Type 0} (env : Dependencies S) where
  -- A well-formed account that holds the provider account of the profile.
  abbrev pub Owns : IdentityContext → IdentityUser → Type 0
  Owns ctx u = IsIdentityUser env.lower_case u × (has_provider ctx.provider u ≡ true)

  -- Who is logged in holds the provider account; who is created has the email of the profile too. A
  -- link happens in link mode only, and a request to link by hand only if the policy asks for it.
  abbrev pub IsJustified : IdentityContext → Bool → IdentityResult → Type 0
  IsJustified ctx verified (existing_provider_login u tokens) = Owns ctx u × (ctx.mode ≡ login)
  IsJustified ctx verified (existing_email_conflict email u message) = ⊥
  IsJustified ctx verified (new_user_creation u tokens) =
      Owns ctx u × (u.email ≡ ctx.email) × (ctx.mode ≡ login)
  IsJustified ctx verified (link_provider u) = Owns ctx u × (ctx.mode ≡ link)
  IsJustified ctx verified (invalid_link_request message) = ctx.mode ≡ link
  IsJustified ctx verified (link_required email provider) =
      (email ≡ ctx.email)
      × (provider ≡ ctx.provider.provider)
      × (ctx.mode ≡ login)
      × (can_auto_link verified env.policy ≡ false)

  provider_belongs_to-Owns :
      (v : Value) (ctx : IdentityContext) (u : IdentityUser)
      → provider_belongs_to env v ctx ≡ ok u
      → Owns ctx u
  unfolding provider_belongs_to
  provider_belongs_to-Owns v ctx u h =
      ground (arith, validate_identity_user-IsIdentityUser env.lower_case v u)

  email_belongs_to-email :
      (v : Value) (ctx : IdentityContext) (u : IdentityUser)
      → email_belongs_to env v ctx ≡ ok u
      → IsIdentityUser env.lower_case u × (u.email ≡ ctx.email)
  unfolding email_belongs_to
  email_belongs_to-email v ctx u h =
      ground
        (arith, validate_identity_user-IsIdentityUser env.lower_case v u, eqb→eq u.email ctx.email)

  provider_belongs_to-user_value :
      (ctx : IdentityContext) (u u' : IdentityUser)
      → IsIdentityUser env.lower_case u
      → provider_belongs_to env (user_value u) ctx ≡ ok u'
      → u ≡ u'
  unfolding provider_belongs_to
  provider_belongs_to-user_value ctx u u' valid h =
      ground (arith, validate_identity_user_complete env.lower_case u valid)

  created_user-Owns :
      (v : Value) (ctx : IdentityContext) (u : IdentityUser)
      → created_user env v ctx ≡ ok u
      → Owns ctx u × (u.email ≡ ctx.email)
  unfolding created_user
  created_user-Owns v ctx u h =
      let (u', by_email, by_provider) = Pure.>>=-eq-ok (email_belongs_to env v ctx) _ h in
      let (valid, email) = email_belongs_to-email v ctx u' by_email in
      let same = provider_belongs_to-user_value ctx u' u valid by_provider in
      (
        provider_belongs_to-Owns _ ctx u by_provider,
        ap (λ (w : IdentityUser). w.email) (sym same) ∙ email,
      )

  require_linked-Owns :
      (ctx : IdentityContext) (found : Value) (o : Option IdentityUser) (u : IdentityUser)
      → checked env (validate_identity_user env.lower_case) found ≡ ok o
      → require_linked ctx o ≡ ok u
      → Owns ctx u
  unfolding checked require_linked
  require_linked-Owns ctx found o u h k =
      ground (arith, validate_identity_user-IsIdentityUser env.lower_case found u)

  checked-Owns :
      (ctx : IdentityContext) (found : Value) (u : IdentityUser)
      → checked env (λ v. provider_belongs_to env v ctx) found ≡ ok (some u)
      → Owns ctx u
  unfolding checked
  checked-Owns ctx found u h = ground (arith, provider_belongs_to-Owns found ctx u)

  module _ (ctx : IdentityContext) (verified : Bool) where
    abbrev Good : M S IdentityResult → Type 0
    Good = Yields (IsJustified ctx verified)

    issue_existing_login-Good :
        (u : IdentityUser) → Owns ctx u → ctx.mode ≡ login → Good (issue_existing_login env u)
    unfolding issue_existing_login
    issue_existing_login-Good u owns m =
        Yields-then (issue_tokens_for_user env u) _ λ t. Yields-pure _ (owns, m)

    auto_link-Good : (u : IdentityUser) → ctx.mode ≡ login → Good (auto_link env ctx u)
    unfolding auto_link
    auto_link-Good u m = Yields-then _ _ λ _. Yields-then _ _ λ found. Yields-lift _ _ λ linked e.
        Yields-then _ _ λ _.
          Yields-then _ _
            λ _. issue_existing_login-Good linked (provider_belongs_to-Owns found ctx linked e) m

    link_for_login-Good :
        (u : IdentityUser) → ctx.mode ≡ login → Good (link_for_login env ctx u verified)
    unfolding link_for_login
    link_for_login-Good u m =
        Yields-branch _ _ _ (λ h. Yields-pure _ (refl, refl, m, ground arith))
          (λ _. auto_link-Good u m)

    read_back_link-Good : (u : IdentityUser) → ctx.mode ≡ link → Good (read_back_link env ctx u)
    unfolding read_back_link
    read_back_link-Good u m = Yields-then _ _ λ result. Yields-lift _ _ λ found e.
        Yields-lift _ _ λ linked e'.
          Yields-then _ _ λ _. Yields-pure _ (require_linked-Owns ctx result found linked e e', m)

    link_target-Good :
        (existing : Option IdentityUser) (u : IdentityUser)
        → ctx.mode ≡ link
        → Good (link_target env ctx existing u)
    unfolding link_target
    link_target-Good none u m = Yields-then _ _ λ _. read_back_link-Good u m
    link_target-Good (some owner) u m =
        Yields-branch _ _ _ (λ _. read_back_link-Good u m) λ _. Yields-then _ _ λ _. Yields-pure _ m

    with_target-Good :
        (existing target : Option IdentityUser) (user_id : Text)
        → ctx.mode ≡ link
        → Good (with_target env ctx existing user_id target)
    unfolding with_target
    with_target-Good existing none user_id m = Yields-pure _ m
    with_target-Good existing (some u) user_id m =
        Yields-branch _ _ _ (λ _. link_target-Good existing u m) (λ _. Yields-pure _ m)

    resolve_link-Good :
        (existing : Option IdentityUser) (user_id : Option Text)
        → ctx.mode ≡ link
        → Good (resolve_link env ctx existing user_id)
    unfolding resolve_link
    resolve_link-Good existing none m = Yields-pure _ m
    resolve_link-Good existing (some user_id) m =
        Yields-then _ _
          λ result. Yields-then _ _ λ target. with_target-Good existing target user_id m

    announce_created-Good :
        (u : IdentityUser)
        → Owns ctx u × (u.email ≡ ctx.email)
        → ctx.mode ≡ login
        → Good (announce_created env ctx u)
    unfolding announce_created
    announce_created-Good u h m =
        Yields-then _ _ λ _. Yields-then _ _ λ tokens. Yields-pure _ (h.0, h.1, m)

    after_creation-Good :
        (creation : Value) → ctx.mode ≡ login → Good (after_creation env ctx verified creation)
    unfolding after_creation
    after_creation-Good creation m =
        Yields-branch _ _ _
          (λ _.
            Yields-lift _ _
              λ u e. issue_existing_login-Good u (provider_belongs_to-Owns _ ctx u e) m)
          λ _.
            Yields-branch _ _ _ (λ _. Yields-lift _ _ λ u e. link_for_login-Good u m)
              λ _.
                Yields-branch _ _ _
                  (λ _.
                    Yields-lift _ _ λ u e. announce_created-Good u (created_user-Owns _ ctx u e) m)
                  (λ _. Yields-throw _)

    resolve_login-Good :
        (found : Value) (existing : Option IdentityUser)
        → ctx.mode ≡ login
        → checked env (λ v. provider_belongs_to env v ctx) found ≡ ok existing
        → Good (resolve_login env ctx verified existing)
    unfolding resolve_login login_by_email
    resolve_login-Good found (some u) m h =
        issue_existing_login-Good u (checked-Owns ctx found u h) m
    resolve_login-Good found none m h = Yields-then _ _ λ result. Yields-then _ _ (elim [
      | some u ↦ link_for_login-Good u m
      | none ↦ Yields-then _ _ λ creation. after_creation-Good creation m
    ])

    resolve_mode-Good :
        (found : Value) (existing : Option IdentityUser) (mode : OAuthMode)
        → ctx.mode ≡ mode
        → checked env (λ v. provider_belongs_to env v ctx) found ≡ ok existing
        → Good (resolve_mode env ctx verified existing mode)
    unfolding resolve_mode
    resolve_mode-Good found existing link m h = resolve_link-Good existing ctx.user_id m
    resolve_mode-Good found existing login m h = resolve_login-Good found existing m h

    pub resolve_context-Good : Good (resolve_context env ctx verified)
    unfolding resolve_context
    resolve_context-Good =
        Yields-then _ _
          λ found. Yields-lift _ _ λ existing e. resolve_mode-Good found existing ctx.mode refl e

-- The context and the email claim that the unvalidated argument stands for.
pub record Describes {S : Type 0} (env : Dependencies S) (args : OAuthArgs) (ctx : IdentityContext)
    (verified : Bool) : Type 0 where
  pub mode : parse_mode args.mode ≡ ok ctx.mode
  pub verified_claim : parse_verified args.email_verified ≡ ok verified
  pub provider : validate_identity_provider args.provider args.provider_id ≡ ok ctx.provider
  pub email : normalize_identity_email env.lower_case args.email ≡ ok ctx.email
  pub user_id : parse_user_id args.user_id ≡ ok ctx.user_id

pub data IsExplained {S : Type 0} (env : Dependencies S) (args : OAuthArgs)
    (result : IdentityResult) : Type 0 where
  explained :
      (ctx : IdentityContext) (verified : Bool)
      → Describes env args ctx verified
      → IsJustified env ctx verified result
      → IsExplained env args result

resolve_oauth-Yields :
    {S : Type 0} (env : Dependencies S) (args : OAuthArgs)
    → Yields (IsExplained env args) (resolve_oauth env args)
unfolding resolve_oauth
resolve_oauth-Yields env args = Yields-lift _ _ λ mode e₀. Yields-lift _ _ λ verified e₁.
    Yields-lift _ _ λ provider e₂. Yields-lift _ _ λ email e₃. Yields-lift _ _ λ user_id e₄.
      let ctx : IdentityContext = record {
        email = email;
        provider = provider;
        mode = mode;
        user_id = user_id;
      } in
      let d : Describes env args ctx verified = record {
        mode = e₀;
        verified_claim = e₁;
        provider = e₂;
        email = e₃;
        user_id = e₄;
      } in
      Yields-weaken (λ result j. explained ctx verified d j) (resolve_context-Good env ctx verified)

-- Whatever the adapter, the token service and the audit sinks do, a result that `resolveOAuth`
-- returns is justified by the validated argument: a log-in is for a well-formed account that holds
-- the provider account, a new account has the normalised email too, a link is made in link mode
-- only, "link required" is the answer only in login mode and where the policy refuses to link, and
-- an email conflict is never the answer.
pub resolve_oauth-IsExplained :
    {S : Type 0} (env : Dependencies S) (args : OAuthArgs) (s s' : S) (result : IdentityResult)
    → resolve_oauth env args s ≡ (ok result, s')
    → IsExplained env args result
resolve_oauth-IsExplained env args s s' result = (resolve_oauth-Yields env args).holds s result s'
