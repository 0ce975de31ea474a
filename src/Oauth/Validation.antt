-- ===== src/Oauth/Validation.antt =====
-- src/oauth/identityValidation.ts, and the identity types of src/oauth/types.ts.
-- `toLowerCase` needs the tables of Unicode and is the parameter `lower_case`.
pub mod Laws
use authenik8_core_beta.Common.{
  ℕ, suc, ◌+◌, ◌≤◌, ◌≡◌, refl, String, Bool, true, false, not, ◌&&◌, ◌||◌, Option, none, some, List,
  [], ◌∷◌, ◌++◌, map, arith, if◌then◌else◌, ltb, leb, ◌==◌, length, any, every,
}
use authenik8_core_beta.Common.Text.{
  Text, text, eqb, trim, index_of, last_index_of, contains_control_character, distinct,
}
use authenik8_core_beta.Common.Value.{
  Value, undefined, string, array, object, end, field, Items, items, from_items, property, truthy,
  is_object, is_undefined, is_unsafe, is_unsafe_value,
}
use authenik8_core_beta.Common.Effects.{Result, ok, err, plain}
use authenik8_core_beta.Common.Effects.Pure.{◌>>=◌, ◌>>◌, throw_if, traverse}

abbrev pub max_identity_email_length : ℕ
max_identity_email_length = 254

abbrev pub max_identity_user_id_length : ℕ
max_identity_user_id_length = 256

abbrev pub max_identity_provider_id_length : ℕ
max_identity_provider_id_length = 512

abbrev pub max_identity_providers_per_user : ℕ
max_identity_providers_per_user = 32

abbrev pub max_identity_role_length : ℕ
max_identity_role_length = 128

pub record IdentityProviderRecord : Type 0 where
  pub provider : Text
  pub provider_id : Text

pub record IdentityUser : Type 0 where
  pub id : Text
  pub email : Text
  pub role : Option Text
  pub providers : List IdentityProviderRecord

is_lower_letter : ℕ → Bool
is_lower_letter c = leb b'a' c && leb c b'z'

is_digit : ℕ → Bool
is_digit c = leb b'0' c && leb c b'9'

is_provider_char : ℕ → Bool
unfolding is_lower_letter is_digit
is_provider_char c = is_lower_letter c || is_digit c || c == b'.' || c == b'_' || c == b'-'

-- PROVIDER_PATTERN, `/^[a-z][a-z0-9._-]{0,63}$/`.
unfoldable pub matches_provider_pattern : Text → Bool
unfolding is_lower_letter is_provider_char every
matches_provider_pattern [] = false
matches_provider_pattern (c ∷ s) =
    is_lower_letter c && every is_provider_char s && leb (length s) 63

-- `at` is the position of "@" in an email of `n` code units, if any, and `last` the last one.
unfoldable pub is_bad_at : Option ℕ → Option ℕ → ℕ → Bool
is_bad_at (some at) (some last) n = at == 0 || not (at == last) || at + 1 == n
is_bad_at _ _ n = true

unfoldable pub is_invalid_email : Text → Bool
unfolding is_bad_at contains_control_character index_of last_index_of
is_invalid_email email =
    length email == 0
    || ltb max_identity_email_length (length email)
    || contains_control_character email
    || is_bad_at (index_of b'@' email) (last_index_of b'@' email) (length email)

-- The two halves of `validateIdentityProvider`.
unfoldable pub validate_provider_name : Value → Result Text
unfolding matches_provider_pattern
validate_provider_name (string provider) = do
  throw_if (not (matches_provider_pattern provider)) "OAuth identity provider is invalid"
  ok provider
validate_provider_name _ = err (plain "OAuth identity provider is invalid")

unfoldable pub validate_provider_id : Value → Result Text
unfolding is_unsafe
validate_provider_id (string i) = do
  throw_if (is_unsafe max_identity_provider_id_length i) "OAuth providerId is invalid"
  ok i
validate_provider_id _ = err (plain "OAuth providerId is invalid")

unfoldable pub validate_identity_provider : Value → Value → Result IdentityProviderRecord
unfolding validate_provider_name validate_provider_id
validate_identity_provider provider_value provider_id_value = do
  provider ← validate_provider_name provider_value
  provider_id ← validate_provider_id provider_id_value
  ok (record { provider = provider; provider_id = provider_id })

unfoldable pub validate_identity_user_id : Value → Result Text
unfolding is_unsafe
validate_identity_user_id (string value) = do
  throw_if (is_unsafe max_identity_user_id_length value) "OAuth identity user is invalid"
  ok value
validate_identity_user_id _ = err (plain "OAuth identity user is invalid")

-- The string under which `validateIdentityUser` compares providers: `${provider}\0${providerId}`.
unfoldable pub provider_tag : IdentityProviderRecord → Text
provider_tag entry = entry.provider ++ 0 ∷ entry.provider_id

-- `candidate.role`, if it may stand in a user.
unfoldable pub validate_role : Value → Result (Option Text)
unfolding is_unsafe
validate_role undefined = ok none
validate_role (string role) = do
  throw_if (is_unsafe max_identity_role_length role) "OAuth identity user role is invalid"
  ok (some role)
validate_role _ = err (plain "OAuth identity user role is invalid")

unfoldable pub validate_provider_entry : Value → Result IdentityProviderRecord
unfolding validate_identity_provider property is_object
validate_provider_entry entry = do
  throw_if (not (is_object entry)) "OAuth identity user provider is invalid"
  validate_identity_provider (property (text "provider") entry) (property (text "providerId") entry)

unfoldable pub validate_providers : Value → Result (List IdentityProviderRecord)
unfolding validate_provider_entry provider_tag items traverse
validate_providers (array entries) = do
  throw_if (ltb max_identity_providers_per_user (length (items entries)))
      "OAuth identity user providers are invalid"
  providers ← traverse validate_provider_entry (items entries)
  throw_if (not (length (distinct (map provider_tag providers)) == length providers))
      "OAuth identity user contains duplicate providers"
  ok providers
validate_providers _ = err (plain "OAuth identity user providers are invalid")

-- `email !== candidate.email`.
unfoldable pub is_same_text : Text → Value → Bool
is_same_text email (string t) = eqb email t
is_same_text email _ = false

module _ (lower_case : Text → Text) where
  unfoldable pub normalize_identity_email : Value → Result Text
  unfolding is_invalid_email trim
  normalize_identity_email (string value) = do
    let email = lower_case (trim value)
    throw_if (is_invalid_email email) "OAuth profile has an invalid email"
    ok email
  normalize_identity_email _ = err (plain "OAuth profile has an invalid email")

  unfoldable pub validate_identity_user : Value → Result IdentityUser
  validate_identity_user value = do
    throw_if (not (is_object value)) "OAuth identity adapter returned an invalid user"
    id ← validate_identity_user_id (property (text "id") value)
    email ← normalize_identity_email (property (text "email") value)
    throw_if (not (is_same_text email (property (text "email") value)))
        "OAuth identity user email must be normalized"
    role ← validate_role (property (text "role") value)
    providers ← validate_providers (property (text "providers") value)
    ok (record { id = id; email = email; role = role; providers = providers })

-- A typed user as the value that an adapter returns.
unfoldable pub provider_value : IdentityProviderRecord → Value
provider_value entry = object (
    field (text "provider") (string entry.provider)
      (field (text "providerId") (string entry.provider_id) end))

unfoldable pub role_value : Option Text → Value
role_value none = undefined
role_value (some role) = string role

unfoldable pub user_value : IdentityUser → Value
unfolding provider_value role_value from_items
user_value user = object (
    field (text "id") (string user.id) (
      field (text "email") (string user.email) (
        field (text "role") (role_value user.role)
          (field (text "providers") (array (from_items (map provider_value user.providers))) end))))
