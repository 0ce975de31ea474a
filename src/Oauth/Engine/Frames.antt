-- ===== src/Oauth/Engine/Frames.antt =====
-- Which calls `resolveOAuth` makes: what a relation of states that the listed calls keep says of it.
use authenik8_core_beta.Common.{◌≡◌, refl, Bool, false, not, Option, none, some, arith}
use authenik8_core_beta.Common.Text.{Text, eqb→eq}
use authenik8_core_beta.Common.Value.{Value}
use authenik8_core_beta.Common.Effects.{ok}
use authenik8_core_beta.Common.Effects.Hoare.{
  Keeps, IsPreorder, Keeps-bind, Keeps-lift-bind, Keeps-pure, Keeps-throw, Keeps-branch,
}
use authenik8_core_beta.Audit.{AuditEventInput}
use authenik8_core_beta.Oauth.Validation.{
  IdentityProviderRecord, IdentityUser, validate_identity_provider,
}
use authenik8_core_beta.Oauth.Policy.{can_auto_link}
use authenik8_core_beta.Oauth.Engine.{
  OAuthMode, login, link, IdentityContext, TokenRequest, Dependencies, OAuthArgs, parse_mode,
  parse_verified, parse_user_id, issue_tokens_for_user, issue_existing_login, link_for_login,
  read_back_link, link_target, with_target, resolve_link, announce_created, after_creation,
  login_by_email, resolve_login, resolve_mode, resolve_context, resolve_oauth,
}

module _ {S : Type 0} (env : Dependencies S) {R : S → S → Type 0} (order : IsPreorder R) where
  -- All calls but `linkProvider`.
  pub record KeepsWithoutLink : Type 0 where
    pub by_id : (i : Text) → Keeps R (env.adapter.find_user_by_id i)
    pub by_email : (e : Text) → Keeps R (env.adapter.find_user_by_email e)
    pub by_provider : (p i : Text) → Keeps R (env.adapter.find_user_by_provider p i)
    pub creation : (e p i : Text) → Keeps R (env.adapter.create_user e p i)
    pub tokens : (t : TokenRequest) → Keeps R (env.issue_tokens t)
    pub audit : (e : AuditEventInput) → Keeps R (env.audit e)
    pub uuid : Keeps R env.random_uuid

  module _ (calls : KeepsWithoutLink) where
    issue_tokens_for_user-Keeps : (u : IdentityUser) → Keeps R (issue_tokens_for_user env u)
    unfolding issue_tokens_for_user
    issue_tokens_for_user-Keeps u = Keeps-bind order _ _ calls.uuid λ i. calls.tokens _

    issue_existing_login-Keeps : (u : IdentityUser) → Keeps R (issue_existing_login env u)
    unfolding issue_existing_login
    issue_existing_login-Keeps u =
        Keeps-bind order _ _ (issue_tokens_for_user-Keeps u) λ t. Keeps-pure order _

    module _ (ctx : IdentityContext) (verified : Bool)
        (refused : can_auto_link verified env.policy ≡ false) where
      link_for_login-Keeps : (u : IdentityUser) → Keeps R (link_for_login env ctx u verified)
      unfolding link_for_login
      link_for_login-Keeps u =
          Keeps-branch _ _ _ (λ _. Keeps-pure order _) (λ allowed. absurd (contradiction allowed))
        where
          contradiction : not (can_auto_link verified env.policy) ≡ false → ⊥
          contradiction h = ground arith

      announce_created-Keeps : (u : IdentityUser) → Keeps R (announce_created env ctx u)
      unfolding announce_created
      announce_created-Keeps u =
          Keeps-bind order _ _ (calls.audit _)
            λ _. Keeps-bind order _ _ (issue_tokens_for_user-Keeps u) λ _. Keeps-pure order _

      after_creation-Keeps : (v : Value) → Keeps R (after_creation env ctx verified v)
      unfolding after_creation
      after_creation-Keeps v =
          Keeps-branch _ _ _ (λ _. Keeps-lift-bind order _ _ λ u _. issue_existing_login-Keeps u)
            λ _.
              Keeps-branch _ _ _ (λ _. Keeps-lift-bind order _ _ λ u _. link_for_login-Keeps u)
                λ _.
                  Keeps-branch _ _ _
                    (λ _. Keeps-lift-bind order _ _ λ u _. announce_created-Keeps u)
                    λ _. Keeps-throw order _

      login_by_email-Keeps :
          (found : Option IdentityUser) → Keeps R (login_by_email env ctx verified found)
      unfolding login_by_email
      login_by_email-Keeps (some u) = link_for_login-Keeps u
      login_by_email-Keeps none =
          Keeps-bind order _ _ (calls.creation _ _ _) λ v. after_creation-Keeps v

      resolve_login-Keeps :
          (existing : Option IdentityUser) → Keeps R (resolve_login env ctx verified existing)
      unfolding resolve_login
      resolve_login-Keeps (some owner) = issue_existing_login-Keeps owner
      resolve_login-Keeps none =
          Keeps-bind order _ _ (calls.by_email _)
            λ v. Keeps-lift-bind order _ _ λ found _. login_by_email-Keeps found

  -- The calls that a link request makes: it links the requested account to the given user only.
  pub record KeepsForLink (user_id : Option Text) (provider : IdentityProviderRecord) : Type 0 where
    pub by_id : (i : Text) → Keeps R (env.adapter.find_user_by_id i)
    pub by_provider : (p i : Text) → Keeps R (env.adapter.find_user_by_provider p i)
    pub audit : (e : AuditEventInput) → Keeps R (env.audit e)
    pub linking :
        (i : Text)
        → user_id ≡ some i
        → Keeps R (env.adapter.link_provider i provider.provider provider.provider_id)

  module _ (ctx : IdentityContext) (calls : KeepsForLink ctx.user_id ctx.provider) where
    read_back_link-Keeps : (u : IdentityUser) → Keeps R (read_back_link env ctx u)
    unfolding read_back_link
    read_back_link-Keeps u = Keeps-bind order _ _ (calls.by_id _) λ v.
        Keeps-lift-bind order _ _ λ found _.
          Keeps-lift-bind order _ _
            λ linked _. Keeps-bind order _ _ (calls.audit _) λ _. Keeps-pure order _

    link_target-Keeps :
        (existing : Option IdentityUser) (u : IdentityUser)
        → ctx.user_id ≡ some u.id
        → Keeps R (link_target env ctx existing u)
    unfolding link_target
    link_target-Keeps none u h =
        Keeps-bind order _ _ (calls.linking u.id h) λ _. read_back_link-Keeps u
    link_target-Keeps (some owner) u h =
        Keeps-branch _ _ _ (λ _. read_back_link-Keeps u)
          λ _. Keeps-bind order _ _ (calls.audit _) λ _. Keeps-pure order _

    with_target-Keeps :
        (existing target : Option IdentityUser) (user_id : Text)
        → ctx.user_id ≡ some user_id
        → Keeps R (with_target env ctx existing user_id target)
    unfolding with_target
    with_target-Keeps existing none user_id h = Keeps-pure order _
    with_target-Keeps existing (some u) user_id h =
        Keeps-branch _ _ _
          (λ same. link_target-Keeps existing u (ground (arith, eqb→eq u.id user_id same)))
          (λ _. Keeps-pure order _)

    resolve_link-Keeps :
        (existing : Option IdentityUser) (user_id : Option Text)
        → ctx.user_id ≡ user_id
        → Keeps R (resolve_link env ctx existing user_id)
    unfolding resolve_link
    resolve_link-Keeps existing none h = Keeps-pure order _
    resolve_link-Keeps existing (some user_id) h =
        Keeps-bind order _ _ (calls.by_id _)
          λ v. Keeps-lift-bind order _ _ λ target _. with_target-Keeps existing target user_id h

  resolve_mode-Keeps_login :
      KeepsWithoutLink
      → (ctx : IdentityContext) (verified : Bool) → can_auto_link verified env.policy ≡ false
      → (existing : Option IdentityUser) (mode : OAuthMode) → mode ≡ login
      → Keeps R (resolve_mode env ctx verified existing mode)
  unfolding resolve_mode
  resolve_mode-Keeps_login calls ctx verified refused existing login m =
      resolve_login-Keeps calls ctx verified refused existing
  resolve_mode-Keeps_login calls ctx verified refused existing link m = cc

  resolve_mode-Keeps_link :
      (ctx : IdentityContext) (verified : Bool)
      → KeepsForLink ctx.user_id ctx.provider
      → (existing : Option IdentityUser) (mode : OAuthMode) → mode ≡ link
      → Keeps R (resolve_mode env ctx verified existing mode)
  unfolding resolve_mode
  resolve_mode-Keeps_link ctx verified calls existing link m =
      resolve_link-Keeps ctx calls existing ctx.user_id refl
  resolve_mode-Keeps_link ctx verified calls existing login m = cc

  resolve_login_context :
      KeepsWithoutLink
      → (ctx : IdentityContext) (verified : Bool) → can_auto_link verified env.policy ≡ false
      → ctx.mode ≡ login
      → Keeps R (resolve_context env ctx verified)
  unfolding resolve_context
  resolve_login_context calls ctx verified refused m =
      Keeps-bind order _ _ (calls.by_provider _ _) λ v.
        Keeps-lift-bind order _ _
          λ existing _. resolve_mode-Keeps_login calls ctx verified refused existing ctx.mode m

  resolve_link_context :
      (ctx : IdentityContext) (verified : Bool)
      → KeepsForLink ctx.user_id ctx.provider
      → ctx.mode ≡ link
      → Keeps R (resolve_context env ctx verified)
  unfolding resolve_context
  resolve_link_context ctx verified calls m = Keeps-bind order _ _ (calls.by_provider _ _) λ v.
      Keeps-lift-bind order _ _
        λ existing _. resolve_mode-Keeps_link ctx verified calls existing ctx.mode m

  module _ (args : OAuthArgs) where
    -- A log-in that may not link by email makes no call of `linkProvider`, whatever the adapter
    -- answers: a relation of states that every other call keeps is kept by `resolveOAuth`, with no
    -- assumption about `linkProvider`.
    pub login_makes_no_link :
        KeepsWithoutLink
        → parse_mode args.mode ≡ ok login
        → ((verified : Bool)
            → parse_verified args.email_verified ≡ ok verified
            → can_auto_link verified env.policy ≡ false)
        → Keeps R (resolve_oauth env args)
    unfolding resolve_oauth
    login_makes_no_link calls m refused = Keeps-lift-bind order _ _ λ mode e₀.
        Keeps-lift-bind order _ _ λ verified e₁. Keeps-lift-bind order _ _ λ provider _.
          Keeps-lift-bind order _ _ λ email _.
            Keeps-lift-bind order _ _ λ user_id _.
              resolve_login_context calls _ verified (refused verified e₁) (ground arith)

    -- A link request makes no call of `createUser`, `findUserByEmail`, `issueTokens` or `randomUUID`,
    -- and links nothing but the validated provider account, to the validated user: a relation that
    -- those calls keep is kept by `resolveOAuth`.
    pub link_request_links_only :
        ((provider : IdentityProviderRecord) (user_id : Option Text)
          → validate_identity_provider args.provider args.provider_id ≡ ok provider
          → parse_user_id args.user_id ≡ ok user_id
          → KeepsForLink user_id provider)
        → parse_mode args.mode ≡ ok link
        → Keeps R (resolve_oauth env args)
    unfolding resolve_oauth
    link_request_links_only calls m = Keeps-lift-bind order _ _ λ mode e₀.
        Keeps-lift-bind order _ _ λ verified _. Keeps-lift-bind order _ _ λ provider e₂.
          Keeps-lift-bind order _ _ λ email _. Keeps-lift-bind order _ _ λ user_id e₄.
            resolve_link_context _ verified (calls provider user_id e₂ e₄) (ground arith)
