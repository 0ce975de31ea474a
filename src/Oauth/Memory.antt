-- ===== src/Oauth/Memory.antt =====
-- memoryAdapter of src/oauth/adapters/memoryAdapter.ts. The `Map` of users is an association list in
-- insertion order; `structuredClone` copies a value that nothing here mutates, and is left out.
-- `randomUUID` is the parameter `uuid`: its n-th answer.
pub mod Outcomes
pub mod Invariant
use authenik8_core_beta.Common.{
  ℕ, suc, ◌+◌, String, Bool, true, false, not, ◌&&◌, ◌||◌, Option, none, some, List, [], ◌∷◌, ◌++◌,
  map, length, leb, if◌then◌else◌, any,
}
use authenik8_core_beta.Common.Text.{Text, text, eqb}
use authenik8_core_beta.Common.Dict.{Dict, lookup, insert}
use authenik8_core_beta.Common.Value.{Value, null, string, object, end, field}
use authenik8_core_beta.Common.Effects.{Error, plain, Result, ok, err}
use authenik8_core_beta.Common.Effects.Pure
use authenik8_core_beta.Common.Effects.Async.{M, ◌>>=◌, ◌>>◌, pure, throw, lift, branch}
use authenik8_core_beta.Oauth.Validation.{
  max_identity_providers_per_user, IdentityProviderRecord, IdentityUser, validate_identity_provider,
  validate_identity_user_id, normalize_identity_email, user_value,
}
use authenik8_core_beta.Oauth.Engine.{OAuthIdentityAdapter, is_entry, has_provider}

pub record Memory : Type 0 where
  pub users : Dict IdentityUser
  -- How many identifiers `randomUUID` has given out.
  pub supply : ℕ

-- `[...users.values()].find(…)`.
unfoldable pub find_value : (IdentityUser → Bool) → Dict IdentityUser → Option IdentityUser
find_value p [] = none
find_value p ((k, u) ∷ m) = if p u then some u else find_value p m

-- `user ? copyUser(user) : null`.
unfoldable pub user_or_null : Option IdentityUser → Value
user_or_null none = null
user_or_null (some u) = user_value u

unfoldable pub get_users : M Memory (Dict IdentityUser)
get_users s = (ok s.users, s)

unfoldable pub set_user : Text → IdentityUser → M Memory (Unit {0})
set_user k u s = (ok tt, record s { users = insert k u s.users })

unfoldable pub has_email : Text → IdentityUser → Bool
has_email email u = eqb u.email email

-- `{ status, user }`.
unfoldable pub creation_value : String → IdentityUser → Value
creation_value status u =
    object (field (text "status") (string (text status)) (field (text "user") (user_value u) end))

-- `providerOwner && providerOwner.id !== validUserId`.
unfoldable pub refuse_other_owner : Text → Option IdentityUser → Result (Unit {0})
refuse_other_owner user_id none = ok tt
refuse_other_owner user_id (some owner) =
    Pure.throw_if (not (eqb owner.id user_id)) "OAuth provider is already linked"

unfoldable pub add_provider : IdentityProviderRecord → IdentityUser → IdentityUser
add_provider identity u = record u { providers = u.providers ++ identity ∷ [] }

unfoldable pub link_to : Text → IdentityProviderRecord → Option IdentityUser → M Memory (Unit {0})
link_to user_id identity none = throw (plain "OAuth link target user not found")
link_to user_id identity (some u) = branch (has_provider identity u) (pure tt) (
    branch (leb max_identity_providers_per_user (length u.providers))
      (throw (plain "OAuth identity provider limit exceeded"))
      (set_user user_id (add_provider identity u)))

unfoldable pub find_user_by_id : Text → M Memory Value
find_user_by_id user_id = do
  i ← lift (validate_identity_user_id (string user_id))
  users ← get_users
  pure (user_or_null (lookup i users))

unfoldable pub new_user : Text → Text → IdentityProviderRecord → IdentityUser
new_user id email identity = record {
  id = id;
  email = email;
  role = none;
  providers = identity ∷ [];
}

-- The user that `findUserByProvider` copies, before it is made a value.
unfoldable pub owner_of_provider : Text → Text → M Memory (Option IdentityUser)
owner_of_provider provider provider_id = do
  identity ← lift (validate_identity_provider (string provider) (string provider_id))
  users ← get_users
  pure (find_value (has_provider identity) users)

unfoldable pub find_user_by_provider : Text → Text → M Memory Value
find_user_by_provider provider provider_id = do
  owner ← owner_of_provider provider provider_id
  pure (user_or_null owner)

unfoldable pub link_provider : Text → Text → Text → M Memory (Unit {0})
link_provider user_id provider provider_id = do
  i ← lift (validate_identity_user_id (string user_id))
  identity ← lift (validate_identity_provider (string provider) (string provider_id))
  owner ← owner_of_provider identity.provider identity.provider_id
  lift (refuse_other_owner i owner)
  users ← get_users
  link_to i identity (lookup i users)

unfoldable pub random_uuid : (ℕ → Text) → M Memory Text
random_uuid uuid s = (ok (uuid s.supply), record s { supply = suc s.supply })

module _ (lower_case : Text → Text) where
  -- The user that `findUserByEmail` copies, before it is made a value.
  unfoldable pub owner_of_email : Text → M Memory (Option IdentityUser)
  owner_of_email email = do
    e ← lift (normalize_identity_email lower_case (string email))
    users ← get_users
    pure (find_value (has_email e) users)

  unfoldable pub find_user_by_email : Text → M Memory Value
  find_user_by_email email = do owner ← owner_of_email email; pure (user_or_null owner)

-- `createUser`, where nobody owns the provider account or the email.
unfoldable pub add_user : (ℕ → Text) → Text → IdentityProviderRecord → M Memory Value
add_user uuid email identity = do
  id ← random_uuid uuid
  set_user id (new_user id email identity)
  pure (creation_value "created" (new_user id email identity))

module _ (lower_case : Text → Text) (uuid : ℕ → Text) where
  unfoldable pub create_without_provider :
      Text → IdentityProviderRecord → Option IdentityUser → M Memory Value
  create_without_provider email identity (some u) = pure (creation_value "existing-email" u)
  create_without_provider email identity none = add_user uuid email identity

  unfoldable pub create_with_owner :
      Text → IdentityProviderRecord → Option IdentityUser → M Memory Value
  create_with_owner email identity (some u) = pure (creation_value "existing-provider" u)
  create_with_owner email identity none = do
    by_email ← owner_of_email lower_case email
    create_without_provider email identity by_email

  unfoldable pub create_user : Text → Text → Text → M Memory Value
  create_user email provider provider_id = do
    e ← lift (normalize_identity_email lower_case (string email))
    identity ← lift (validate_identity_provider (string provider) (string provider_id))
    owner ← owner_of_provider identity.provider identity.provider_id
    create_with_owner e identity owner

  unfoldable pub memory_adapter : OAuthIdentityAdapter Memory
  memory_adapter = record {
    find_user_by_id = find_user_by_id;
    find_user_by_email = find_user_by_email lower_case;
    find_user_by_provider = find_user_by_provider;
    create_user = create_user;
    link_provider = link_provider;
  }

unfoldable pub reset : M Memory (Unit {0})
reset s = (ok tt, record s { users = [] })

-- `[...users.values()]`.
unfoldable pub dump_values : Dict IdentityUser → List IdentityUser
dump_values [] = []
dump_values ((k, u) ∷ m) = u ∷ dump_values m

unfoldable pub dump : M Memory (List IdentityUser)
unfolding dump_values
dump s = (ok (dump_values s.users), s)
