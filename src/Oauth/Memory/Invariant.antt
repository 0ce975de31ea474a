-- ===== src/Oauth/Memory/Invariant.antt =====
-- The store of memoryAdapter.ts stays consistent: no email and no provider account has two owners.
use authenik8_core_beta.Common.{
  ℕ, suc, ◌≤◌, ◌≡◌, ◌≢◌, refl, sym, ap, ◌∙◌, subst, Bool, true, false, none, some, arith, [], ◌∷◌,
  Bool-cases, Option-cases, ◌⊎◌, inl, inr, any, any-append,
}
use authenik8_core_beta.Common.Text.{Text, eqb→eq, eqb_iff, eqb_refl}
use authenik8_core_beta.Common.Trim.{IsNormalizing}
use authenik8_core_beta.Common.Dict.{
  Dict, lookup, insert, lookup-insert, HasDistinctKeys, insert-HasDistinctKeys,
}
use authenik8_core_beta.Common.Value.{Value}
use authenik8_core_beta.Common.Effects.{Result}
use authenik8_core_beta.Oauth.Validation.{IdentityProviderRecord, IdentityUser}
use authenik8_core_beta.Oauth.Engine.{is_entry, has_provider}
use authenik8_core_beta.Oauth.Memory.{
  Memory, find_value, has_email, new_user, create_user, add_provider, link_provider, random_uuid,
}
use authenik8_core_beta.Oauth.Memory.Outcomes.{
  Creation, refused, provider_taken, email_taken, added, create_user-Creation, Linking, owned,
  missing, full, present, linked, LinkRun, rejected, validated, link_provider-LinkRun,
}

pub find_value-none :
    (p : IdentityUser → Bool) (m : Dict IdentityUser) (k : Text) (u : IdentityUser)
    → find_value p m ≡ none
    → lookup k m ≡ some u
    → p u ≡ false
unfolding find_value lookup
find_value-none p [] k u h l = cc
find_value-none p ((j, v) ∷ m) k u h l = ground (arith, find_value-none p m k u)

pub find_value-some :
    (p : IdentityUser → Bool) (m : Dict IdentityUser) (u : IdentityUser)
    → HasDistinctKeys m
    → find_value p m ≡ some u
    → (k : Text) × (lookup k m ≡ some u) × (p u ≡ true)
unfolding find_value lookup
find_value-some p [] u d h = cc
find_value-some p ((j, v) ∷ m) u d h = elim (Bool-cases (p v)) [
  | inl hit ↦ (j, ground (arith, eqb_refl j), ground arith)
  | inr miss ↦
      let (k, l, holds) = find_value-some p m u d.1 (ground arith) in
      (k, ground (arith, eqb_iff j k), holds)
]

-- What `randomUUID` promises: no identifier comes twice.
abbrev pub NeverRepeats : (ℕ → Text) → Type 0
NeverRepeats uuid = (m n : ℕ) → uuid m ≡ uuid n → m ≡ n

pub record IsConsistent (uuid : ℕ → Text) (s : Memory) : Type 0 where
  pub distinct : HasDistinctKeys s.users
  pub keyed : (k : Text) (u : IdentityUser) → lookup k s.users ≡ some u → u.id ≡ k
  pub one_email :
      (j k : Text) (u v : IdentityUser)
      → lookup j s.users ≡ some u
      → lookup k s.users ≡ some v
      → u.email ≡ v.email
      → j ≡ k
  pub one_owner :
      (identity : IdentityProviderRecord) (j k : Text) (u v : IdentityUser)
      → lookup j s.users ≡ some u
      → lookup k s.users ≡ some v
      → has_provider identity u ≡ true
      → has_provider identity v ≡ true
      → j ≡ k
  pub fresh : (n : ℕ) → s.supply ≤ n → lookup (uuid n) s.users ≡ none

is_entry_iff : (a b : IdentityProviderRecord) → is_entry a b ≡ true → b ≡ a
unfolding is_entry
is_entry_iff a b h =
    ground (arith, eqb→eq b.provider a.provider, eqb→eq b.provider_id a.provider_id)

has_provider-new_user :
    (identity e : IdentityProviderRecord) (i email : Text)
    → has_provider identity (new_user i email e) ≡ true
    → e ≡ identity
unfolding has_provider new_user any
has_provider-new_user identity e i email h = ground (arith, is_entry_iff identity e)

has_provider-add :
    (identity e : IdentityProviderRecord) (u : IdentityUser)
    → has_provider identity (add_provider e u) ≡ true
    → (has_provider identity u ≡ true) ⊎ (e ≡ identity)
unfolding has_provider add_provider any
has_provider-add identity e u h =
    ground (arith, any-append (is_entry identity) u.providers (e ∷ []), is_entry_iff identity e)

module _ (uuid : ℕ → Text) (s : Memory) (c : IsConsistent uuid s) (k : Text) (w : IdentityUser)
    (supply : ℕ) (id : w.id ≡ k)
    (email : (j : Text) (v : IdentityUser) → lookup j s.users ≡ some v → v.email ≡ w.email → j ≡ k)
    (owner : (identity : IdentityProviderRecord) (j : Text) (v : IdentityUser)
      → lookup j s.users ≡ some v
      → has_provider identity w ≡ true
      → has_provider identity v ≡ true
      → j ≡ k)
    (later : (n : ℕ) → supply ≤ n → (s.supply ≤ n) × (uuid n ≢ k)) where
  abbrev inserted : Memory
  inserted = record { users = insert k w s.users; supply = supply }

  inserted-cases :
      (j : Text) (v : IdentityUser)
      → lookup j (insert k w s.users) ≡ some v
      → ((j ≡ k) × (v ≡ w)) ⊎ (lookup j s.users ≡ some v)
  inserted-cases j v h = ground (arith, lookup-insert k j w s.users, eqb→eq k j)

  keyed_inserted : (j : Text) (v : IdentityUser) → lookup j (insert k w s.users) ≡ some v → v.id ≡ j
  keyed_inserted j v h = ground (arith, inserted-cases j v h, c.keyed j v)

  email_inserted :
      (i j : Text) (u v : IdentityUser)
      → lookup i (insert k w s.users) ≡ some u
      → lookup j (insert k w s.users) ≡ some v
      → u.email ≡ v.email
      → i ≡ j
  email_inserted i j u v h l e =
      ground (
        arith,
        inserted-cases i u h,
        inserted-cases j v l,
        c.one_email i j u v,
        email i u,
        email j v,
      )

  owner_inserted :
      (identity : IdentityProviderRecord) (i j : Text) (u v : IdentityUser)
      → lookup i (insert k w s.users) ≡ some u
      → lookup j (insert k w s.users) ≡ some v
      → has_provider identity u ≡ true
      → has_provider identity v ≡ true
      → i ≡ j
  owner_inserted identity i j u v h l p q = ground (
    arith,
    inserted-cases i u h,
    inserted-cases j v l,
    c.one_owner identity i j u v,
    owner identity i u,
    owner identity j v,
  )

  fresh_inserted : (n : ℕ) → supply ≤ n → lookup (uuid n) (insert k w s.users) ≡ none
  fresh_inserted n h =
      ground (arith, lookup-insert k (uuid n) w s.users, eqb_iff k (uuid n), later n h, c.fresh n)

  insert-IsConsistent : IsConsistent uuid inserted
  insert-IsConsistent = record {
    distinct = insert-HasDistinctKeys k w s.users c.distinct;
    keyed = keyed_inserted;
    one_email = email_inserted;
    one_owner = owner_inserted;
    fresh = fresh_inserted;
  }

module _ (users : Dict IdentityUser) (i e : Text) (identity : IdentityProviderRecord) where
  no_email_twice :
      (j : Text) (v : IdentityUser)
      → find_value (has_email e) users ≡ none
      → lookup j users ≡ some v
      → v.email ≡ (new_user i e identity).email
      → j ≡ i
  unfolding new_user has_email
  no_email_twice j v free l same =
      ground (arith, find_value-none (has_email e) users j v free l, eqb_iff v.email e)

  no_owner_twice :
      (a : IdentityProviderRecord) (j : Text) (v : IdentityUser)
      → find_value (has_provider identity) users ≡ none
      → lookup j users ≡ some v
      → has_provider a (new_user i e identity) ≡ true
      → has_provider a v ≡ true
      → j ≡ i
  no_owner_twice a j v free l p q =
      let same = has_provider-new_user a identity i e p in
      let lacks : has_provider a v ≡ false =
        subst (λ b. has_provider b v ≡ false) same
          (find_value-none (has_provider identity) users j v free l) in
      ground arith

module _ (lower_case : Text → Text) (uuid : ℕ → Text) (unique : NeverRepeats uuid) where
  -- `Creation` over the state that it leaves, so that it can be matched.
  Creation-IsConsistent :
      (email provider provider_id : Text) (s : Memory) {out : Result Value × Memory}
      → IsConsistent uuid s
      → Creation lower_case uuid email provider provider_id s out
      → IsConsistent uuid out.1
  Creation-IsConsistent email provider provider_id s c (refused error why) = c
  Creation-IsConsistent email provider provider_id s c (provider_taken e identity u r h) = c
  Creation-IsConsistent email provider provider_id s c (email_taken e identity u r h k) = c
  Creation-IsConsistent email provider provider_id s c (added e identity r h k) =
      insert-IsConsistent uuid s c (uuid s.supply) (new_user (uuid s.supply) e identity)
        (suc s.supply) (unfold new_user in refl)
        (λ j v. no_email_twice s.users (uuid s.supply) e identity j v k)
        (λ a j v. no_owner_twice s.users (uuid s.supply) e identity a j v h)
        (λ n m. (omega arith, λ same. absurd (omega (arith, unique n s.supply same))))

  -- `createUser` keeps the store consistent, whether it answers or throws.
  pub create_user-IsConsistent :
      IsNormalizing lower_case
      → (email provider provider_id : Text) (s : Memory) → IsConsistent uuid s
      → IsConsistent uuid (create_user lower_case uuid email provider provider_id s).1
  create_user-IsConsistent law email provider provider_id s c =
      Creation-IsConsistent email provider provider_id s c
        (create_user-Creation lower_case uuid law email provider provider_id s)

-- A user that gets one more provider account which nobody else holds.
module _ (uuid : ℕ → Text) (s : Memory) (c : IsConsistent uuid s) (i : Text)
    (identity : IdentityProviderRecord) (u : IdentityUser) (l : lookup i s.users ≡ some u)
    (free : (owner : IdentityUser)
      → find_value (has_provider identity) s.users ≡ some owner
      → owner.id ≡ i) where
  unowned :
      (j : Text) (v : IdentityUser)
      → lookup j s.users ≡ some v
      → has_provider identity v ≡ true
      → j ≡ i
  unowned j v m p = elim (Option-cases (find_value (has_provider identity) s.users)) [
    | inl none_found ↦ absurd (clash none_found)
    | inr (o, found) ↦
        let (k, at, holds) = find_value-some (has_provider identity) s.users o c.distinct found in
        c.one_owner identity j k v o m at p holds ∙ sym (c.keyed k o at) ∙ free o found
  ]
    where
      clash : find_value (has_provider identity) s.users ≡ none → ⊥
      clash h = ground (arith, find_value-none (has_provider identity) s.users j v h m)

  add_provider-IsConsistent :
      IsConsistent uuid (record s { users = insert i (add_provider identity u) s.users })
  unfolding add_provider
  add_provider-IsConsistent =
      insert-IsConsistent uuid s c i (add_provider identity u) s.supply (c.keyed i u l)
        (λ j v m same. c.one_email j i v u m l same) owner_lem
        (λ n h. (h, λ same. ground (arith, c.fresh n h, ap (λ k. lookup k s.users) same)))
    where
      owner_lem :
          (a : IdentityProviderRecord) (j : Text) (v : IdentityUser)
          → lookup j s.users ≡ some v
          → has_provider a (add_provider identity u) ≡ true
          → has_provider a v ≡ true
          → j ≡ i
      owner_lem a j v m p q = elim (has_provider-add a identity u p) [
        | inl old ↦ c.one_owner a j i v u m l q old
        | inr same ↦ unowned j v m (subst (λ b. has_provider b v ≡ true) (sym same) q)
      ]

Linking-IsConsistent :
    (uuid : ℕ → Text) (i : Text) (identity : IdentityProviderRecord) (s : Memory)
    {out : Result (Unit {0}) × Memory}
    → IsConsistent uuid s
    → Linking i identity s out
    → IsConsistent uuid out.1
Linking-IsConsistent uuid i identity s c (owned owner h other) = c
Linking-IsConsistent uuid i identity s c (missing h) = c
Linking-IsConsistent uuid i identity s c (full u h many) = c
Linking-IsConsistent uuid i identity s c (present u h has) = c
Linking-IsConsistent uuid i identity s c (linked u free l lacks few) =
    add_provider-IsConsistent uuid s c i identity u l free

LinkRun-IsConsistent :
    (uuid : ℕ → Text) (i p n : Text) (s : Memory) {out : Result (Unit {0}) × Memory}
    → IsConsistent uuid s
    → LinkRun i p n s out
    → IsConsistent uuid out.1
LinkRun-IsConsistent uuid i p n s c (rejected error why) = c
LinkRun-IsConsistent uuid i p n s c (validated identity valid k run) =
    Linking-IsConsistent uuid i identity s c run

-- `linkProvider` keeps the store consistent, whatever its arguments.
pub link_provider-IsConsistent :
    (uuid : ℕ → Text) (user_id provider provider_id : Text) (s : Memory)
    → IsConsistent uuid s
    → IsConsistent uuid (link_provider user_id provider provider_id s).1
link_provider-IsConsistent uuid i p n s c =
    LinkRun-IsConsistent uuid i p n s c (link_provider-LinkRun i p n s)

pub random_uuid-IsConsistent :
    (uuid : ℕ → Text) (s : Memory) → IsConsistent uuid s → IsConsistent uuid (random_uuid uuid s).1
unfolding random_uuid
random_uuid-IsConsistent uuid s c = record {
  distinct = c.distinct;
  keyed = c.keyed;
  one_email = c.one_email;
  one_owner = c.one_owner;
  fresh = λ n h. c.fresh n (omega arith);
}
