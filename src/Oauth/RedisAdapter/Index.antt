-- ===== src/Oauth/RedisAdapter/Index.antt =====
-- The indexes of the Redis adapter: once an email or a provider account belongs to a user, it does
-- not pass to another one.
use authenik8_core_beta.Common.{
  ◌≡◌, refl, subst, ap, sym, ◌∙◌, ◌⊎◌, inl, inr, Option, some, [], ◌∷◌, ◌++◌, append_assoc, arith,
}
use authenik8_core_beta.Common.Text.{Text, text}
use authenik8_core_beta.Common.Effects.{ok}
use authenik8_core_beta.Common.Value.{string}
use authenik8_core_beta.Common.Effects.Pure.{>>=-eq-ok}
use authenik8_core_beta.Common.Effects.Async.{◌>>◌, pure}
use authenik8_core_beta.Common.Effects.Hoare.{Keeps, IsPreorder}
use authenik8_core_beta.Common.Effects.Guards.{
  Guards, Guards-bind, Guards-pure, Guards-weaken, Guards-any,
}
use authenik8_core_beta.Oauth.Validation.{normalize_identity_email, IdentityProviderRecord}
use authenik8_core_beta.Oauth.RedisAdapter.{
  RedisIdentity, user_key, email_index, email_key, provider_key,
}

append_cancel : (p s t : Text) → p ++ s ≡ p ++ t → s ≡ t
append_cancel [] s t h = h
append_cancel (c ∷ p) s t h = append_cancel p s t (ground (arith, h))

-- A text follows a prefix and a name in one way.
name_cancel : (p m n s t : Text) → p ++ m ++ s ≡ p ++ n ++ t → m ++ s ≡ n ++ t
name_cancel p m n s t h =
    append_cancel p (m ++ s) (n ++ t) (sym (append_assoc p m s) ∙ (h ∙ append_assoc p n t))

module _ {S : Type 0} (adapter : RedisIdentity S) (entries : S → Text → Option Text) where
  -- The keys of the indexes of emails and of provider accounts.
  abbrev pub IsIndexKey : Text → Type 0
  IsIndexKey key =
      ((d : Text) × (key ≡ adapter.prefix ++ text ":email:" ++ d))
      ⊎ ((d : Text) × (key ≡ adapter.prefix ++ text ":provider:" ++ d))

  -- Whoever an index names before, it names after.
  abbrev pub Claimed : S → S → Type 0
  Claimed s s' =
      (key : Text)
      → IsIndexKey key
      → (id : Text) → entries s key ≡ some id
      → entries s' key ≡ some id

  pub Claimed-IsPreorder : IsPreorder Claimed
  Claimed-IsPreorder = record {
    reflexive = λ s key i id h. h;
    transitive = λ s t u h k key i id e. k key i id (h key i id e);
  }

  -- Inside a script Redis reads an entry, changing nothing, and writes one entry or fails. At a
  -- command other clients may act, who keep the indexes, too.
  pub record IsIdentityRedis : Type 0 where
    pub get : (key : Text) → Keeps Claimed (adapter.redis.get key)
    pub uuid : Keeps Claimed adapter.random_uuid
    pub script_get : (key : Text) (s : S) → adapter.redis.script_get key s ≡ (ok (entries s key), s)
    pub script_set :
        (key value : Text) (s : S) (k : Text)
        → (entries (adapter.redis.script_set key value s).1 k ≡ entries s k)
          ⊎ ((k ≡ key) × (entries (adapter.redis.script_set key value s).1 k ≡ some value))

  user-not-index : (id key : Text) → IsIndexKey key → ¬ (key ≡ user_key adapter id)
  unfolding user_key
  user-not-index id key (inl (d, e)) h =
      let same =
        name_cancel adapter.prefix (text ":email:") (text ":user:") d (adapter.digest id)
          (sym e ∙ h) in
      ground (arith, same)
  user-not-index id key (inr (d, e)) h =
      let same =
        name_cancel adapter.prefix (text ":provider:") (text ":user:") d (adapter.digest id)
          (sym e ∙ h) in
      ground (arith, same)

  pub provider_key-IsIndexKey :
      (identity : IdentityProviderRecord) → IsIndexKey (provider_key adapter identity)
  unfolding provider_key
  provider_key-IsIndexKey identity = inr (_, refl)

  pub email_key-IsIndexKey : (email key : Text) → email_key adapter email ≡ ok key → IsIndexKey key
  unfolding email_key email_index
  email_key-IsIndexKey email key h =
      let (e, n, k) = >>=-eq-ok (normalize_identity_email adapter.lower_case (string email)) _ h in
      inl (adapter.digest e, ground (arith, k))

  -- The entry under the key names nobody else.
  abbrev pub Open : Text → Text → S → Type 0
  Open user_id key s = (id : Text) → entries s key ≡ some id → id ≡ user_id

  module _ (laws : IsIdentityRedis) (user_id : Text) where
    pub script_get-Guards :
        {P : S → Type 0} (key : Text)
        → Guards Claimed P (adapter.redis.script_get key) (λ found s. P s × (entries s key ≡ found))
    script_get-Guards {P} key = record {
      moves = λ s p k i id e. rw (laws.script_get key s) e;
      ensures = record {
        holds = λ s p found s' h.
            let same : s ≡ s' = ground (arith, h, laws.script_get key s) in
            let e : entries s key ≡ found = ground (arith, h, laws.script_get key s) in
            subst (λ t. P t × (entries t key ≡ found)) same (p, e);
      };
    }

    -- Writing the user's own identifier.
    claim-Open :
        (key k : Text) (s : S)
        → Open user_id k s
        → Open user_id k (adapter.redis.script_set key user_id s).1
    claim-Open key k s free id e = elim (laws.script_set key user_id s k) [
      | inl same ↦ free id (sym same ∙ e)
      | inr (same, now) ↦ ground (arith, now, e)
    ]

    claim-Guards :
        (key k : Text)
        → Guards Claimed
            (λ s. Open user_id key s × Open user_id k s)
            (adapter.redis.script_set key user_id)
            (λ u s. Open user_id k s)
    claim-Guards key k = record {
      moves = λ s (free, other) key' i id e. elim (laws.script_set key user_id s key') [
        | inl same ↦ same ∙ e
        | inr (same, now) ↦ now ∙ ap some (sym (free id (ap (entries s) (sym same) ∙ e)))
      ];
      ensures = record {
        holds = λ s (free, other) u s' h.
            subst (λ out. Open user_id k out.1) h (claim-Open key k s other);
      };
    }

    -- Writing a user.
    store-same :
        (value key : Text) (s : S)
        → IsIndexKey key
        → entries (adapter.redis.script_set (user_key adapter user_id) value s).1 key
          ≡ entries s key
    store-same value key s i = elim (laws.script_set (user_key adapter user_id) value s key) [
      | inl same ↦ same
      | inr (same, now) ↦ absurd (user-not-index user_id key i same)
    ]

    store-Guards :
        (value key k : Text)
        → IsIndexKey key
        → IsIndexKey k
        → Guards Claimed
            (λ s. Open user_id key s × Open user_id k s)
            (adapter.redis.script_set (user_key adapter user_id) value)
            (λ u s. Open user_id key s × Open user_id k s)
    store-Guards value key k i j = record {
      moves = λ s p key' i' id e. store-same value key' s i' ∙ e;
      ensures = record {
        holds = λ s (free, other) u s' h.
            subst (λ out. Open user_id key out.1 × Open user_id k out.1) h
              (
                λ id e. free id (sym (store-same value key s i) ∙ e),
                λ id e. other id (sym (store-same value k s j) ∙ e),
              );
      };
    }

    -- The three writes of both scripts.
    pub writes-Guards :
        {A : Type 0} (value email provider : Text) (a : A)
        → IsIndexKey email
        → IsIndexKey provider
        → Guards Claimed
            (λ s. Open user_id email s × Open user_id provider s)
            (adapter.redis.script_set (user_key adapter user_id) value
              >> (adapter.redis.script_set email user_id
                  >> (adapter.redis.script_set provider user_id >> pure a)))
            (λ b s. Unit {0})
    writes-Guards value email provider a i j =
        Guards-bind Claimed-IsPreorder (λ u s. Open user_id email s × Open user_id provider s) _ _
          (store-Guards value email provider i j)
          λ u.
            Guards-bind Claimed-IsPreorder (λ v s. Open user_id provider s) _ _
              (claim-Guards email provider)
              λ v.
                Guards-bind Claimed-IsPreorder (λ w s. Unit {0}) _ _
                  (Guards-weaken (λ s free. (free, free))
                    (Guards-any (claim-Guards provider provider)))
                  λ w. Guards-pure Claimed-IsPreorder a λ s p. tt
