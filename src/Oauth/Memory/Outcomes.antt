-- ===== src/Oauth/Memory/Outcomes.antt =====
-- What `createUser` and `linkProvider` of memoryAdapter.ts answer and leave behind, on every branch.
use authenik8_core_beta.Common.{
  ℕ, suc, ◌≡◌, refl, sym, ap, ◌∙◌, subst, true, false, Option, none, some, arith, Bool-cases, ◌⊎◌,
  inl, inr, length, leb, ◌≤◌, ◌<◌, ◌≢◌, leb→le,
}
use authenik8_core_beta.Common.Text.{Text, eqb, eqb→eq, eqb_iff}
use authenik8_core_beta.Common.Trim.{IsNormalizing}
use authenik8_core_beta.Common.Dict.{lookup, insert}
use authenik8_core_beta.Common.Value.{Value, string}
use authenik8_core_beta.Common.Effects.{Error, plain, Result, ok, err}
use authenik8_core_beta.Common.Effects.Async.{and_then, ◌>>=◌, pure, throw, lift, branch}
use authenik8_core_beta.Oauth.Validation.{
  max_identity_providers_per_user, IdentityProviderRecord, IdentityUser, validate_identity_provider,
  validate_identity_user_id, normalize_identity_email,
}
use authenik8_core_beta.Oauth.Validation.Laws.{
  IsProvider, validate_identity_provider-IsProvider, validate_identity_provider_complete,
}
use authenik8_core_beta.Oauth.Engine.{has_provider}
use authenik8_core_beta.Oauth.Memory.{
  Memory, find_value, get_users, set_user, has_email, creation_value, new_user, random_uuid,
  owner_of_email, owner_of_provider, add_user, create_without_provider, create_with_owner,
  create_user, refuse_other_owner, add_provider, link_to, link_provider,
}

module _ (lower_case : Text → Text) where
  normalize_again :
      IsNormalizing lower_case
      → (t e : Text) → normalize_identity_email lower_case (string t) ≡ ok e
      → normalize_identity_email lower_case (string e) ≡ ok e
  unfolding normalize_identity_email
  normalize_again law t e h = ground (arith, law t)

-- An email and a provider account that the validation lets through.
pub record IsRequest (lower_case : Text → Text) (email provider provider_id : Text) (e : Text)
    (identity : IdentityProviderRecord) : Type 0 where
  pub email_ok : normalize_identity_email lower_case (string email) ≡ ok e
  pub identity_ok : validate_identity_provider (string provider) (string provider_id) ≡ ok identity

-- The answers of `createUser`, each with the state that it leaves.
pub data Creation (lower_case : Text → Text) (uuid : ℕ → Text) (email provider provider_id : Text)
    (s : Memory) : Result Value × Memory → Type 0 where
  refused :
      (error : Error)
      → (normalize_identity_email lower_case (string email) ≡ err error)
        ⊎ ((e : Text) × (normalize_identity_email lower_case (string email) ≡ ok e)
            × (validate_identity_provider (string provider) (string provider_id) ≡ err error))
      → Creation lower_case uuid email provider provider_id s (err error, s)
  provider_taken :
      (e : Text) (identity : IdentityProviderRecord) (u : IdentityUser)
      → IsRequest lower_case email provider provider_id e identity
      → find_value (has_provider identity) s.users ≡ some u
      → Creation lower_case uuid email provider provider_id s
          (ok (creation_value "existing-provider" u), s)
  email_taken :
      (e : Text) (identity : IdentityProviderRecord) (u : IdentityUser)
      → IsRequest lower_case email provider provider_id e identity
      → find_value (has_provider identity) s.users ≡ none
      → find_value (has_email e) s.users ≡ some u
      → Creation lower_case uuid email provider provider_id s
          (ok (creation_value "existing-email" u), s)
  added :
      (e : Text) (identity : IdentityProviderRecord)
      → IsRequest lower_case email provider provider_id e identity
      → find_value (has_provider identity) s.users ≡ none
      → find_value (has_email e) s.users ≡ none
      → Creation lower_case uuid email provider provider_id s (
        ok (creation_value "created" (new_user (uuid s.supply) e identity)),
        record {
          users = insert (uuid s.supply) (new_user (uuid s.supply) e identity) s.users;
          supply = suc s.supply;
        },
      )

pub Result-cases {ℓ} :
    {A : Type ℓ} (r : Result A) → ((e : Error) × (r ≡ err e)) ⊎ ((a : A) × (r ≡ ok a))
Result-cases (ok a) = inr (a, refl)
Result-cases (err e) = inl (e, refl)

pub owner_of_provider_lem :
    (identity : IdentityProviderRecord) (s : Memory)
    → IsProvider identity
    → owner_of_provider identity.provider identity.provider_id s
      ≡ (ok (find_value (has_provider identity) s.users), s)
unfolding owner_of_provider ◌>>=◌ lift pure get_users
owner_of_provider_lem identity s h = rw (validate_identity_provider_complete identity h)

module _ (lower_case : Text → Text) (uuid : ℕ → Text) where
  owner_of_email_lem :
      (e : Text) (s : Memory)
      → normalize_identity_email lower_case (string e) ≡ ok e
      → owner_of_email lower_case e s ≡ (ok (find_value (has_email e) s.users), s)
  unfolding owner_of_email ◌>>=◌ lift pure get_users
  owner_of_email_lem e s h = rw h

  module _ (law : IsNormalizing lower_case) (email provider provider_id : Text) (s : Memory)
      (e : Text) (identity : IdentityProviderRecord)
      (request : IsRequest lower_case email provider provider_id e identity) where
    abbrev Outcome : Result Value × Memory → Type 0
    Outcome = Creation lower_case uuid email provider provider_id s

    create_without_provider-Creation :
        (o : Option IdentityUser)
        → find_value (has_provider identity) s.users ≡ none
        → find_value (has_email e) s.users ≡ o
        → Outcome (create_without_provider lower_case uuid e identity o s)
    unfolding create_without_provider add_user ◌>>=◌ pure random_uuid set_user
    create_without_provider-Creation none free h = added e identity request free h
    create_without_provider-Creation (some u) free h = email_taken e identity u request free h

    create_with_owner-Creation :
        (o : Option IdentityUser)
        → find_value (has_provider identity) s.users ≡ o
        → Outcome (create_with_owner lower_case uuid e identity o s)
    unfolding create_with_owner ◌>>=◌ pure
    create_with_owner-Creation (some u) h = provider_taken e identity u request h
    create_with_owner-Creation none h =
        rw (owner_of_email_lem e s (normalize_again lower_case law email e request.email_ok))
          (create_without_provider-Creation _ h refl)

  -- `createUser` answers "existing-provider" where somebody holds the provider account, otherwise
  -- "existing-email" where somebody has the email, and adds one user otherwise; it throws exactly the
  -- error of the validation where the email or the provider account is invalid. Only the third answer changes the store, by the new user under a new identifier.
  pub create_user-Creation :
      IsNormalizing lower_case
      → (email provider provider_id : Text) (s : Memory)
      → Creation lower_case uuid email provider provider_id s
          (create_user lower_case uuid email provider provider_id s)
  unfolding create_user ◌>>=◌ lift
  create_user-Creation law email provider provider_id s =
      elim (Result-cases (normalize_identity_email lower_case (string email))) [
        | inl (error, h) ↦ rw h (refused error (inl h))
        | inr (e, h) ↦
            rw h
              (elim (Result-cases
                (validate_identity_provider (string provider) (string provider_id))) [
                  | inl (error, k) ↦ rw k (refused error (inr (e, h, k)))
                  | inr (identity, k) ↦
                      rw
                        (
                          k,
                          owner_of_provider_lem identity s (
                              validate_identity_provider-IsProvider (string provider)
                                (string provider_id) k),
                        )
                        (create_with_owner-Creation law email provider provider_id s e identity
                          (record { email_ok = h; identity_ok = k }) _ refl)
                ])
      ]

-- The outcomes of `linkProvider`, each with the state that it leaves.
pub data Linking (user_id : Text) (identity : IdentityProviderRecord) (s : Memory)
    : Result (Unit {0}) × Memory → Type 0 where
  owned :
      (owner : IdentityUser)
      → find_value (has_provider identity) s.users ≡ some owner
      → owner.id ≢ user_id
      → Linking user_id identity s (err (plain "OAuth provider is already linked"), s)
  missing :
      lookup user_id s.users ≡ none
      → Linking user_id identity s (err (plain "OAuth link target user not found"), s)
  full :
      (u : IdentityUser)
      → lookup user_id s.users ≡ some u
      → 32 ≤ length u.providers
      → Linking user_id identity s (err (plain "OAuth identity provider limit exceeded"), s)
  present :
      (u : IdentityUser)
      → lookup user_id s.users ≡ some u
      → has_provider identity u ≡ true
      → Linking user_id identity s (ok tt, s)
  linked :
      (u : IdentityUser)
      → ((owner : IdentityUser)
          → find_value (has_provider identity) s.users ≡ some owner
          → owner.id ≡ user_id)
      → lookup user_id s.users ≡ some u
      → has_provider identity u ≡ false
      → length u.providers < 32
      → Linking user_id identity s
          (ok tt, record s { users = insert user_id (add_provider identity u) s.users })

module _ (user_id : Text) (identity : IdentityProviderRecord) (s : Memory) where
  refuse_other_owner-cases :
      (o : Option IdentityUser)
      → ((owner : IdentityUser) × (o ≡ some owner)
          × (owner.id ≢ user_id)
          × (refuse_other_owner user_id o ≡ err (plain "OAuth provider is already linked")))
        ⊎ (((owner : IdentityUser) → o ≡ some owner → owner.id ≡ user_id)
            × (refuse_other_owner user_id o ≡ ok tt))
  unfolding refuse_other_owner
  refuse_other_owner-cases none = inr ((λ owner h. cc), refl)
  refuse_other_owner-cases (some u) = elim (Bool-cases (eqb u.id user_id)) [
    | inl same ↦ inr ((λ owner h. ground (arith, eqb→eq u.id user_id same)), rw same)
    | inr other ↦ inl (u, refl, (λ e. ground (arith, eqb_iff u.id user_id)), rw other)
  ]

  link_to-Linking :
      ((owner : IdentityUser)
        → find_value (has_provider identity) s.users ≡ some owner
        → owner.id ≡ user_id)
      → (o : Option IdentityUser) → lookup user_id s.users ≡ o
      → Linking user_id identity s (link_to user_id identity o s)
  unfolding link_to throw pure branch set_user
  link_to-Linking free none h = missing h
  link_to-Linking free (some u) h = elim (Bool-cases (has_provider identity u)) [
    | inl has ↦ rw has (present u h has)
    | inr lacks ↦
        rw lacks (elim (Bool-cases (leb max_identity_providers_per_user (length u.providers))) [
          | inl many ↦ rw many (full u h (leb→le _ _ many))
          | inr few ↦ rw few (linked u free h lacks (ground arith))
        ])
  ]

  after_refusal-Linking :
      (r : Result (Unit {0}))
      → refuse_other_owner user_id (find_value (has_provider identity) s.users) ≡ r
      → Linking user_id identity s (
          and_then
            (r, s)
            λ _. get_users >>= λ users. link_to user_id identity (lookup user_id users))
  unfolding ◌>>=◌ get_users
  after_refusal-Linking r h =
      elim (refuse_other_owner-cases (find_value (has_provider identity) s.users)) [
        | inl (owner, found, other, e) ↦
            subst
              (λ q. Linking user_id identity s (
                and_then (q, s)
                  λ _. get_users >>= λ users. link_to user_id identity (lookup user_id users)))
              (sym e ∙ h) (owned owner found other)
        | inr (free, e) ↦
            subst
              (λ q. Linking user_id identity s (
                and_then (q, s)
                  λ _. get_users >>= λ users. link_to user_id identity (lookup user_id users)))
              (sym e ∙ h) (link_to-Linking free _ refl)
      ]

validated_user_id : (i j : Text) → validate_identity_user_id (string i) ≡ ok j → i ≡ j
unfolding validate_identity_user_id
validated_user_id i j h = ground arith

-- `linkProvider` on validated arguments: refused where another user holds the provider account, the
-- user is missing or has 32 of them; it adds the account to that one user otherwise, and changes
-- nothing where the user has it already.
pub link_provider-Linking :
    (user_id provider provider_id : Text) (identity : IdentityProviderRecord) (s : Memory)
    → validate_identity_user_id (string user_id) ≡ ok user_id
    → validate_identity_provider (string provider) (string provider_id) ≡ ok identity
    → Linking user_id identity s (link_provider user_id provider provider_id s)
unfolding link_provider ◌>>=◌ lift
link_provider-Linking user_id provider provider_id identity s h k =
    rw
      (
        h,
        k,
        owner_of_provider_lem identity s
            (validate_identity_provider-IsProvider (string provider) (string provider_id) k),
      )
      (after_refusal-Linking user_id identity s _ refl)

rejected_user :
    (user_id provider provider_id : Text) (error : Error) (s : Memory)
    → validate_identity_user_id (string user_id) ≡ err error
    → link_provider user_id provider provider_id s ≡ (err error, s)
unfolding link_provider ◌>>=◌ lift
rejected_user user_id provider provider_id error s h = rw h

rejected_provider :
    (user_id provider provider_id i : Text) (error : Error) (s : Memory)
    → validate_identity_user_id (string user_id) ≡ ok i
    → validate_identity_provider (string provider) (string provider_id) ≡ err error
    → link_provider user_id provider provider_id s ≡ (err error, s)
unfolding link_provider ◌>>=◌ lift
rejected_provider user_id provider provider_id i error s h k = rw (h, k)

-- The runs of `linkProvider`.
pub data LinkRun (user_id provider provider_id : Text) (s : Memory)
    : Result (Unit {0}) × Memory → Type 0 where
  rejected :
      (error : Error)
      → (validate_identity_user_id (string user_id) ≡ err error)
        ⊎ ((validate_identity_user_id (string user_id) ≡ ok user_id)
            × (validate_identity_provider (string provider) (string provider_id) ≡ err error))
      → LinkRun user_id provider provider_id s (err error, s)
  validated :
      {out : Result (Unit {0}) × Memory} (identity : IdentityProviderRecord)
      → validate_identity_user_id (string user_id) ≡ ok user_id
      → validate_identity_provider (string provider) (string provider_id) ≡ ok identity
      → Linking user_id identity s out
      → LinkRun user_id provider provider_id s out

pub link_provider-LinkRun :
    (user_id provider provider_id : Text) (s : Memory)
    → LinkRun user_id provider provider_id s (link_provider user_id provider provider_id s)
link_provider-LinkRun user_id provider provider_id s =
    elim (Result-cases (validate_identity_user_id (string user_id))) [
      | inl (error, h) ↦
          rw (rejected_user user_id provider provider_id error s h) (rejected error (inl h))
      | inr (i, h) ↦
          let valid : validate_identity_user_id (string user_id) ≡ ok user_id =
            h ∙ ap ok (sym (validated_user_id user_id i h)) in
          elim (Result-cases (validate_identity_provider (string provider) (string provider_id))) [
            | inl (error, k) ↦
                rw (rejected_provider user_id provider provider_id i error s h k)
                  (rejected error (inr (valid, k)))
            | inr (identity, k) ↦
                validated identity valid k
                  (link_provider-Linking user_id provider provider_id identity s valid k)
          ]
    ]
