-- ===== src/Storage/TokenStore/Laws.antt =====
-- What the compare-and-set of src/storage/RedisTokenStore.ts leaves in the store.
use authenik8_core_beta.Common.{ℕ, ◌≡◌, Bool, true, false, Option, none, some, ap, sym, subst, ◌∙◌}
use authenik8_core_beta.Common.Text.{Text, eqb→eq}
use authenik8_core_beta.Common.Effects.Triples.{
  Ensures, Ensures-bind, Ensures-pure, Ensures-branch, Ensures-fact,
}
use authenik8_core_beta.Storage.TokenStore.{TokenRedis, set, replace_if, compare_and_set}

module _ {S : Type 0} (redis : TokenRedis S) (stored : S → Text → Option Text) where
  -- The commands read and write the entries of the store; a read changes nothing.
  pub record IsRedis : Type 0 where
    pub get :
        (key k : Text) (held : Option Text)
        → Ensures
            (λ s. stored s k ≡ held)
            (redis.get key)
            (λ found s. (stored s k ≡ held) × (found ≡ stored s key))
    pub set :
        (key value : Text)
        → Ensures (λ s. Unit {0}) (redis.set key value) (λ u s. stored s key ≡ some value)
    pub set_ex :
        (key value : Text) (ttl : ℕ)
        → Ensures (λ s. Unit {0}) (redis.set_ex key value ttl) (λ u s. stored s key ≡ some value)

  -- The answer says whether the entry was the expected one: then the new one is in its place, and
  -- otherwise the entry is what it was.
  abbrev pub Replaced : Text → Text → Text → Option Text → Bool → S → Type 0
  Replaced key expected value held true s = (held ≡ some expected) × (stored s key ≡ some value)
  Replaced key expected value held false s = stored s key ≡ held

  module _ (laws : IsRedis) where
    set-stored :
        {P : S → Type 0} (key value : Text) (ttl : ℕ)
        → Ensures P (set redis key value ttl) (λ u s. stored s key ≡ some value)
    unfolding set
    set-stored key value ttl =
        Ensures-branch _ _ _ (λ h. record { holds = λ s p. (laws.set key value).holds s tt })
          λ h. record { holds = λ s p. (laws.set_ex key value ttl).holds s tt }

    replace_if-Replaced :
        (key expected value : Text) (ttl : ℕ) (held : Option Text)
        → Ensures
            (λ s. stored s key ≡ held)
            (replace_if redis key expected value ttl held)
            (Replaced key expected value held)
    unfolding replace_if
    replace_if-Replaced key expected value ttl none = Ensures-pure _ λ s e. e
    replace_if-Replaced key expected value ttl (some held) =
        Ensures-branch _ _ _
          (λ h.
            Ensures-bind (λ u s. stored s key ≡ some value) _ _ (set-stored key value ttl)
              λ u. Ensures-pure _ λ s e. (ap some (eqb→eq held expected h), e))
          λ h. Ensures-pure _ λ s e. e

    -- Under `IsRedis`, a `compareAndSet` that answers true has found the expected entry and has replaced
    -- it, and one that answers false leaves the entry as it was.
    pub compare_and_set-Replaced :
        (key expected value : Text) (ttl : ℕ) (held : Option Text)
        → Ensures
            (λ s. stored s key ≡ held)
            (compare_and_set redis key expected value ttl)
            (Replaced key expected value held)
    unfolding compare_and_set
    compare_and_set-Replaced key expected value ttl held =
        Ensures-bind (λ found s. (stored s key ≡ held) × (found ≡ stored s key)) _ _
          (laws.get key key held) λ found. Ensures-fact _ (λ s (e, k). k ∙ e) λ e. at_found found e
      where
        at_found :
            (found : Option Text)
            → found ≡ held
            → Ensures
                (λ s. (stored s key ≡ held) × (found ≡ stored s key))
                (replace_if redis key expected value ttl found)
                (Replaced key expected value held)
        at_found found e =
            subst
              (λ x.
                Ensures (λ s. (stored s key ≡ held) × (found ≡ stored s key))
                  (replace_if redis key expected value ttl x) (Replaced key expected value held))
              (sym e)
              (record {
                holds = λ s (k, l). (replace_if-Replaced key expected value ttl held).holds s k;
              })
