-- ===== src/Oauth/RedisAdapter/Claims.antt =====
-- The operations of the Redis adapter keep its indexes: once an email or a provider account belongs to a user, it does
-- not pass to another one.
use authenik8_core_beta.Common.{ℕ, ◌≡◌, false, Option, none, some, arith, zero, suc}
use authenik8_core_beta.Common.Text.{Text, eqb→eq}
use authenik8_core_beta.Common.Effects.Async.{M}
use authenik8_core_beta.Common.Effects.Hoare.{
  Keeps, IsPreorder, Keeps-bind, Keeps-lift-bind, Keeps-pure, Keeps-throw, Keeps-branch,
}
use authenik8_core_beta.Common.Effects.Guards.{
  Guards, Guards-bind, Guards-pure, Guards-branch, Guards-Keeps, Guards-weaken,
}
use authenik8_core_beta.Oauth.Validation.{IdentityProviderRecord, IdentityUser}
use authenik8_core_beta.Oauth.RedisAdapter.{
  RedisIdentity, user_key, is_other, CreationStatus, created, existing_provider, existing_email,
}
use authenik8_core_beta.Oauth.RedisAdapter.Finds.{read_user, get_user_by_id}
use authenik8_core_beta.Oauth.RedisAdapter.Scripts.{
  create_absent, create_unowned, create_user_script, link_current, link_provider_script,
}
use authenik8_core_beta.Oauth.RedisAdapter.Changes.{
  resolved_user, finish_creation, create_user, after_link, link_user, link_turn, link_attempts,
  link_provider, redis_identity_adapter,
}
use authenik8_core_beta.Oauth.RedisAdapter.Index.{
  IsIndexKey, Claimed, Claimed-IsPreorder, IsIdentityRedis, Open, provider_key-IsIndexKey,
  email_key-IsIndexKey, script_get-Guards, writes-Guards,
}

module _ {S : Type 0} (adapter : RedisIdentity S) (entries : S → Text → Option Text)
    (laws : IsIdentityRedis adapter entries) (user_id : Text) where
  create_absent-Guards :
      (email provider value : Text) (found : Option Text)
      → IsIndexKey adapter entries email
      → IsIndexKey adapter entries provider
      → Guards
          (Claimed adapter entries)
          (λ s. Open adapter entries user_id provider s × (entries s email ≡ found))
          (create_absent adapter.redis
            (user_key adapter user_id)
            email
            provider
            user_id
            value
            found)
          (λ answer s. Unit {0})
  unfolding create_absent
  create_absent-Guards email provider value (some found) i j =
      Guards-pure (Claimed-IsPreorder adapter entries) _ λ s p. tt
  create_absent-Guards email provider value none i j =
      Guards-weaken (λ s (free, e). ((λ id h. absurd (ground (arith, e, h))), free))
        (writes-Guards adapter entries laws user_id value email provider _ i j)

  create_unowned-Guards :
      (email provider value : Text) (found : Option Text)
      → IsIndexKey adapter entries email
      → IsIndexKey adapter entries provider
      → Guards
          (Claimed adapter entries)
          (λ s. Unit {0} × (entries s provider ≡ found))
          (create_unowned adapter.redis
            (user_key adapter user_id)
            email
            provider
            user_id
            value
            found)
          (λ answer s. Unit {0})
  unfolding create_unowned
  create_unowned-Guards email provider value (some found) i j =
      Guards-pure (Claimed-IsPreorder adapter entries) _ λ s p. tt
  create_unowned-Guards email provider value none i j =
      Guards-weaken (λ s (p, e) id h. absurd (ground (arith, e, h)))
        (Guards-bind (Claimed-IsPreorder adapter entries) _ _ _
          (script_get-Guards adapter entries laws user_id
            {P = Open adapter entries user_id provider} email)
          λ found. create_absent-Guards email provider value found i j)

  create_user_script-Claimed :
      (email provider value : Text)
      → IsIndexKey adapter entries email
      → IsIndexKey adapter entries provider
      → Keeps
          (Claimed adapter entries)
          (create_user_script adapter.redis (user_key adapter user_id) email provider user_id value)
  unfolding create_user_script
  create_user_script-Claimed email provider value i j =
      Guards-Keeps
        (Guards-bind {P = λ s. Unit {0}} (Claimed-IsPreorder adapter entries) _ _ _
          (script_get-Guards adapter entries laws user_id {P = λ s. Unit {0}} provider)
          λ found. create_unowned-Guards email provider value found i j)
        λ s. tt

  not-other :
      (key : Text) (found : Option Text) (s : S)
      → entries s key ≡ found
      → is_other user_id found ≡ false
      → Open adapter entries user_id key s
  unfolding is_other
  not-other key none s e h id k = absurd (ground (arith, e, k))
  not-other key (some t) s e h id k = ground (arith, e, k, eqb→eq t user_id)

  link_current-Guards :
      (email provider expected value : Text) (current : Option Text)
      → IsIndexKey adapter entries email
      → IsIndexKey adapter entries provider
      → Guards
          (Claimed adapter entries)
          (λ s. Open adapter entries user_id email s × Open adapter entries user_id provider s)
          (link_current adapter.redis provider
            (user_key adapter user_id)
            email
            user_id
            expected
            value
            current)
          (λ answer s. Unit {0})
  unfolding link_current
  link_current-Guards email provider expected value none i j =
      Guards-pure (Claimed-IsPreorder adapter entries) _ λ s p. tt
  link_current-Guards email provider expected value (some current) i j =
      Guards-branch _ _ _ (λ h. Guards-pure (Claimed-IsPreorder adapter entries) _ λ s p. tt)
        λ h. writes-Guards adapter entries laws user_id value email provider _ i j

  link_provider_script-Claimed :
      (email provider expected value : Text)
      → IsIndexKey adapter entries email
      → IsIndexKey adapter entries provider
      → Keeps (Claimed adapter entries) (
          link_provider_script adapter.redis provider
            (user_key adapter user_id)
            email
            user_id
            expected
            value)
  unfolding link_provider_script
  link_provider_script-Claimed email provider expected value i j =
      Guards-Keeps
        (Guards-bind {P = λ s. Unit {0}} (Claimed-IsPreorder adapter entries) _ _ _
          (script_get-Guards adapter entries laws user_id {P = λ s. Unit {0}} provider)
          λ owner.
            Guards-branch _ _ _ (λ h. Guards-pure (Claimed-IsPreorder adapter entries) _ λ s p. tt)
              λ h.
                Guards-weaken (λ s (p, e). not-other provider owner s e h)
                  (Guards-bind (Claimed-IsPreorder adapter entries) _ _ _
                    (script_get-Guards adapter entries laws user_id
                      {P = Open adapter entries user_id provider} email)
                    λ holder.
                      Guards-branch _ _ _
                        (λ k. Guards-pure (Claimed-IsPreorder adapter entries) _ λ s p. tt)
                        λ k.
                          Guards-weaken (λ s (free, e). (not-other email holder s e k, free))
                            (Guards-bind (Claimed-IsPreorder adapter entries) _ _ _
                              (script_get-Guards adapter entries laws user_id
                                {P = λ s.
                                  Open adapter entries user_id email s
                                  × Open adapter entries user_id provider s}
                                (user_key adapter user_id))
                              λ current.
                                Guards-weaken (λ s (free, e). free)
                                  (link_current-Guards email provider expected value current i j))))
        λ s. tt

module _ {S : Type 0} (adapter : RedisIdentity S) (entries : S → Text → Option Text)
    (laws : IsIdentityRedis adapter entries) where
  abbrev order : IsPreorder (Claimed adapter entries)
  order = Claimed-IsPreorder adapter entries

  abbrev Keeping : {A : Type 0} → M S A → Type 0
  Keeping m = Keeps (Claimed adapter entries) m

  read_user-Claimed : (id : Text) → Keeping (read_user adapter id)
  unfolding read_user
  read_user-Claimed id = Keeps-bind order _ _ (laws.get _) λ serialized.
      Keeps-lift-bind order _ _
        λ found e. Keeps-branch _ _ _ (λ h. Keeps-pure order _) λ h. Keeps-throw order _

  get_user_by_id-Claimed : (id : Option Text) → Keeping (get_user_by_id adapter id)
  unfolding get_user_by_id
  get_user_by_id-Claimed none = Keeps-pure order _
  get_user_by_id-Claimed (some id) =
      Keeps-branch _ _ _ (λ h. Keeps-pure order _) λ h. read_user-Claimed id

  resolved_user-Claimed :
      (status : CreationStatus) (id : Text) (u : IdentityUser)
      → Keeping (resolved_user adapter status id u)
  unfolding resolved_user
  resolved_user-Claimed created id u = Keeps-pure order _
  resolved_user-Claimed existing_provider id u = get_user_by_id-Claimed (some id)
  resolved_user-Claimed existing_email id u = get_user_by_id-Claimed (some id)

  finish_creation-Claimed :
      (email : Text) (identity : IdentityProviderRecord) (u : IdentityUser)
      (transaction : CreationStatus × Text)
      → Keeping (finish_creation adapter email identity u transaction)
  unfolding finish_creation
  finish_creation-Claimed email identity u (status, id) =
      Keeps-bind order _ _ (resolved_user-Claimed status id u)
        λ found. Keeps-lift-bind order _ _ λ resolved e. Keeps-pure order _

  create_user-Claimed :
      (email provider provider_id : Text) → Keeping (create_user adapter email provider provider_id)
  unfolding create_user
  create_user-Claimed email provider provider_id = Keeps-lift-bind order _ _ λ normalized n.
      Keeps-lift-bind order _ _ λ identity v. Keeps-bind order _ _ laws.uuid λ id.
        Keeps-lift-bind order _ _ λ key e.
          Keeps-bind order _ _
            (create_user_script-Claimed adapter entries laws id key _ _
              (email_key-IsIndexKey adapter entries normalized key e)
              (provider_key-IsIndexKey adapter entries identity))
            λ answer.
              Keeps-lift-bind order _ _
                λ transaction t. finish_creation-Claimed normalized identity _ transaction

  after_link-Claimed :
      (answer : Text) (again : M S (Unit {0}))
      → Keeping again
      → Keeping (after_link adapter answer again)
  unfolding after_link
  after_link-Claimed answer again h =
      Keeps-branch _ _ _ (λ k. Keeps-pure order _)
        λ k.
          Keeps-branch _ _ _ (λ k. Keeps-throw order _)
            λ k.
              Keeps-branch _ _ _ (λ k. Keeps-throw order _)
                λ k.
                  Keeps-branch _ _ _ (λ k. Keeps-throw order _)
                    λ k. Keeps-branch _ _ _ (λ k. Keeps-throw order _) λ k. h

  link_user-Claimed :
      (user_id : Text) (identity : IdentityProviderRecord) (again : M S (Unit {0}))
      (target : Text × IdentityUser)
      → Keeping again
      → Keeping (link_user adapter user_id identity again target)
  unfolding link_user
  link_user-Claimed user_id identity again (serialized, existing) h =
      Keeps-lift-bind order _ _ λ u l. Keeps-lift-bind order _ _ λ key e.
        Keeps-bind order _ _
          (link_provider_script-Claimed adapter entries laws user_id key _ serialized _
            (email_key-IsIndexKey adapter entries existing.email key e)
            (provider_key-IsIndexKey adapter entries identity))
          λ answer. after_link-Claimed answer again h

  link_attempts-Claimed :
      (n : ℕ) (user_id : Text) (identity : IdentityProviderRecord)
      → Keeping (link_attempts adapter n user_id identity)
  unfolding link_attempts link_turn
  link_attempts-Claimed zero user_id identity = Keeps-throw order _
  link_attempts-Claimed (suc n) user_id identity = Keeps-bind order _ _ (laws.get _) λ serialized.
      Keeps-lift-bind order _ _ λ existing e. Keeps-lift-bind order _ _ λ target t.
        link_user-Claimed user_id identity _ target (link_attempts-Claimed n user_id identity)

  link_provider-Claimed :
      (user_id provider provider_id : Text)
      → Keeping (link_provider adapter user_id provider provider_id)
  unfolding link_provider
  link_provider-Claimed user_id provider provider_id =
      Keeps-lift-bind order _ _
        λ valid n. Keeps-lift-bind order _ _ λ identity v. link_attempts-Claimed _ user_id identity

  -- createUser and linkProvider of the Redis adapter never pass an email or a provider account from
  -- one user to another: whoever an index names before the call, it names after it, whether the call
  -- returns or throws, if Redis runs scripts as one step and other clients keep the indexes, too.
  pub redis_identity_adapter-Claimed :
      (email user_id provider provider_id : Text)
      → Keeping ((redis_identity_adapter adapter).create_user email provider provider_id)
        × Keeping ((redis_identity_adapter adapter).link_provider user_id provider provider_id)
  unfolding redis_identity_adapter
  redis_identity_adapter-Claimed email user_id provider provider_id = (
    create_user-Claimed email provider provider_id,
    link_provider-Claimed user_id provider provider_id,
  )
