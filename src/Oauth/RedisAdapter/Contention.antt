-- ===== src/Oauth/RedisAdapter/Contention.antt =====
-- The loop of `linkProvider` of the Redis adapter, where no other client acts.
use authenik8_core_beta.Common.{
  ℕ, ◌≡◌, refl, ap, sym, ◌∙◌, subst, false, Option, none, some, arith, suc,
}
use authenik8_core_beta.Common.Text.{Text, text, eqb, eqb_refl}
use authenik8_core_beta.Common.Effects.{Result, ok, err}
use authenik8_core_beta.Common.Effects.Async.{M, and_then, ◌>>=◌, lift, branch}
use authenik8_core_beta.Common.Effects.Triples.{
  Ensures, Ensures-bind, Ensures-pure, Ensures-branch, Ensures-then, Ensures-weaken, Ensures-fact,
}
use authenik8_core_beta.Oauth.Validation.{IdentityProviderRecord, IdentityUser}
use authenik8_core_beta.Oauth.RedisAdapter.{RedisIdentity, user_key, link_target_of}
use authenik8_core_beta.Oauth.RedisAdapter.Scripts.{link_current, link_provider_script}
use authenik8_core_beta.Oauth.RedisAdapter.Changes.{after_link, link_user, link_turn, link_attempts}

-- Two continuations that agree on what the call gives.
and_then-same :
    {S A B : Type 0} (out : Result A × S) (f g : A → M S B)
    → ((a : A) (s : S) → out ≡ (ok a, s) → f a s ≡ g a s)
    → and_then out f ≡ and_then out g
and_then-same (ok a, s) f g same = same a s refl
and_then-same (err e, s) f g same = refl

bind-same :
    {S A B : Type 0} (m : M S A) (f g : A → M S B) (s : S)
    → ((a : A) (s' : S) → m s ≡ (ok a, s') → f a s' ≡ g a s')
    → (m >>= f) s ≡ (m >>= g) s
unfolding ◌>>=◌
bind-same m f g s same = and_then-same (m s) f g same

lift-same :
    {S A B : Type 0} (r : Result A) (f g : A → M S B) (s : S)
    → ((a : A) → r ≡ ok a → f a s ≡ g a s)
    → (lift r >>= f) s ≡ (lift r >>= g) s
unfolding ◌>>=◌ lift
lift-same (ok a) f g s same = same a refl
lift-same (err e) f g s same = refl

link_target_of-read :
    (user_id : Text) (serialized : Option Text) (existing : Option IdentityUser) (expected : Text)
    (u : IdentityUser)
    → link_target_of user_id serialized existing ≡ ok (expected, u)
    → serialized ≡ some expected
unfolding link_target_of
link_target_of-read user_id none existing expected u h = cc
link_target_of-read user_id (some t) none expected u h = cc
link_target_of-read user_id (some t) (some v) expected u h = ground (arith, h)

module _ {S : Type 0} (adapter : RedisIdentity S) (entries : S → Text → Option Text) where
  -- Redis reads entries, and no other client acts at a read.
  pub record IsAlone : Type 0 where
    pub get : (key : Text) (s : S) → adapter.redis.get key s ≡ (ok (entries s key), s)
    pub script_get : (key : Text) (s : S) → adapter.redis.script_get key s ≡ (ok (entries s key), s)

  module _ (laws : IsAlone) where
    script_get-read :
        {P : S → Type 0} (key : Text)
        → Ensures P (adapter.redis.script_get key) (λ found s. P s × (entries s key ≡ found))
    script_get-read {P} key = record {
      holds = λ s p found s' h.
          let same : s ≡ s' = ground (arith, h, laws.script_get key s) in
          let e : entries s key ≡ found = ground (arith, h, laws.script_get key s) in
          subst (λ t. P t × (entries t key ≡ found)) same (p, e);
    }

    -- Not the answer for which the loop goes on.
    abbrev Decided : Text → S → Type 0
    Decided answer s = eqb answer (text "stale") ≡ false

    link_current-Decided :
        (provider user email user_id expected updated : Text) (current : Option Text)
        → Ensures
            (λ s. (entries s user ≡ some expected) × (entries s user ≡ current))
            (link_current adapter.redis provider user email user_id expected updated current)
            Decided
    unfolding link_current eqb
    link_current-Decided provider user email user_id expected updated none =
        Ensures-pure _ λ s h. refl
    link_current-Decided provider user email user_id expected updated (some current) =
        Ensures-fact _ (λ s (e, c). held s e c)
          λ same.
            Ensures-branch _ _ _ (λ h. absurd (ground (arith, h, same, eqb_refl current)))
              λ h.
                Ensures-then _ _
                  λ u. Ensures-then _ _ λ v. Ensures-then _ _ λ w. Ensures-pure _ λ s p. refl
      where
        held :
            (s : S)
            → entries s user ≡ some expected
            → entries s user ≡ some current
            → current ≡ expected
        held s e c = ground (arith, e, c)

    link_provider_script-Decided :
        (provider user email user_id expected updated : Text)
        → Ensures
            (λ s. entries s user ≡ some expected)
            (link_provider_script adapter.redis provider user email user_id expected updated)
            Decided
    unfolding link_provider_script eqb
    link_provider_script-Decided provider user email user_id expected updated =
        Ensures-bind _ _ _ (script_get-read provider) λ owner.
          Ensures-branch _ _ _ (λ h. Ensures-pure _ λ s p. refl)
            λ h. Ensures-bind _ _ _ (script_get-read email) λ holder.
              Ensures-branch _ _ _ (λ k. Ensures-pure _ λ s p. refl)
                λ k. Ensures-bind _ _ _ (script_get-read user) λ current.
                  Ensures-weaken _ (λ s (((e, o), p), c). (e, c))
                    (link_current-Decided provider user email user_id expected updated current)

    after_link-same :
        (answer : Text) (again other : M S (Unit {0})) (s : S)
        → Decided answer s
        → after_link adapter answer again s ≡ after_link adapter answer other s
    unfolding after_link branch
    after_link-same answer again other s h = ground (arith, h)

    link_user-same :
        (user_id : Text) (identity : IdentityProviderRecord) (again other : M S (Unit {0}))
        (expected : Text) (u : IdentityUser) (s : S)
        → entries s (user_key adapter user_id) ≡ some expected
        → link_user adapter user_id identity again (expected, u) s
          ≡ link_user adapter user_id identity other (expected, u) s
    unfolding link_user
    link_user-same user_id identity again other expected u s held = lift-same _ _ _ s λ v l.
        lift-same _ _ _ s λ key e. bind-same _ _ _ s λ answer s' h.
          after_link-same answer again other s'
            ((link_provider_script-Decided _ _ _ user_id expected _).holds s held answer s' h)

    link_turn-same :
        (user_id : Text) (identity : IdentityProviderRecord) (again other : M S (Unit {0})) (s : S)
        → link_turn adapter user_id identity again s ≡ link_turn adapter user_id identity other s
    unfolding link_turn
    link_turn-same user_id identity again other s = bind-same _ _ _ s λ serialized s' h.
        lift-same _ _ _ s' λ existing e. lift-same _ _ _ s' λ (expected, u) t.
          link_user-same user_id identity again other expected u s' (
            let found = link_target_of-read user_id serialized existing expected u t in
            let same : s ≡ s' = ground (arith, h, laws.get (user_key adapter user_id) s) in
            let e' : entries s (user_key adapter user_id) ≡ serialized =
              ground (arith, h, laws.get (user_key adapter user_id) s) in
            ap (λ x. entries x (user_key adapter user_id)) (sym same) ∙ (e' ∙ found))

    -- Where no other client acts, the loop of linkProvider ends at its first attempt: whatever number
    -- of attempts is allowed, it does what one turn does, and what the turn would go on with is not
    -- called.
    pub link_attempts-first :
        (n : ℕ) (user_id : Text) (identity : IdentityProviderRecord) (again : M S (Unit {0}))
        (s : S)
        → link_attempts adapter (suc n) user_id identity s
          ≡ link_turn adapter user_id identity again s
    unfolding link_attempts
    link_attempts-first n user_id identity again s = link_turn-same user_id identity _ again s
