-- ===== src/Oauth/Validation/Laws.antt =====
-- What `validateIdentityUser` of src/oauth/identityValidation.ts establishes of an adapter's answer.
use authenik8_core_beta.Common.{
  ◌≤◌, ◌≡◌, refl, true, false, Option, none, some, List, [], ◌∷◌, map, arith, length, All,
  length-map,
}
use authenik8_core_beta.Common.Text.{
  Text, text, eqb_iff, eqb_refl, trim, IsDistinct, distinct-length, IsDistinct-length,
}
use authenik8_core_beta.Common.Value.{
  Value, undefined, string, array, items, from_items, items-from_items, property, is_object,
  is_unsafe,
}
use authenik8_core_beta.Common.Effects.{ok}
use authenik8_core_beta.Common.Effects.Pure.{traverse, >>=-eq-ok}
use authenik8_core_beta.Oauth.Validation.{
  max_identity_user_id_length, max_identity_provider_id_length, max_identity_providers_per_user,
  max_identity_role_length, IdentityProviderRecord, IdentityUser, matches_provider_pattern,
  is_invalid_email, validate_identity_provider, validate_identity_user_id, provider_tag,
  validate_role, validate_provider_entry, validate_providers, normalize_identity_email,
  is_same_text, validate_identity_user, provider_value, user_value,
}

abbrev pub IsProvider : IdentityProviderRecord → Type 0
IsProvider e =
    (matches_provider_pattern e.provider ≡ true)
    × (is_unsafe max_identity_provider_id_length e.provider_id ≡ false)

abbrev pub IsRole : Option Text → Type 0
IsRole none = Unit
IsRole (some role) = is_unsafe max_identity_role_length role ≡ false

pub record IsIdentityUser (lower_case : Text → Text) (u : IdentityUser) : Type 0 where
  pub id_safe : is_unsafe max_identity_user_id_length u.id ≡ false
  pub email_valid : is_invalid_email u.email ≡ false
  pub email_normal : lower_case (trim u.email) ≡ u.email
  pub role_safe : IsRole u.role
  pub few : length u.providers ≤ max_identity_providers_per_user
  pub providers_valid : All IsProvider u.providers
  pub distinct_providers : IsDistinct (map provider_tag u.providers)

pub validate_identity_provider-IsProvider :
    (p i : Value) {e : IdentityProviderRecord}
    → validate_identity_provider p i ≡ ok e
    → IsProvider e
unfolding validate_identity_provider
validate_identity_provider-IsProvider (string p) (string i) h = ground arith
validate_identity_provider-IsProvider (string p) _ h = ground arith
validate_identity_provider-IsProvider _ _ h = cc

pub validate_identity_provider_complete :
    (e : IdentityProviderRecord)
    → IsProvider e
    → validate_identity_provider (string e.provider) (string e.provider_id) ≡ ok e
unfolding validate_identity_provider
validate_identity_provider_complete e h = ground arith

validate_provider_entry-IsProvider :
    (v : Value) {e : IdentityProviderRecord} → validate_provider_entry v ≡ ok e → IsProvider e
unfolding validate_provider_entry
validate_provider_entry-IsProvider v {e} h = ground (
  arith,
  validate_identity_provider-IsProvider (property (text "provider") v)
      (property (text "providerId") v) {e = e},
)

traverse-IsProvider :
    (vs : List Value) (es : List IdentityProviderRecord)
    → traverse validate_provider_entry vs ≡ ok es
    → All IsProvider es
unfolding traverse
traverse-IsProvider [] es h = ground arith
traverse-IsProvider (v ∷ vs) es h =
    let (e, first, rest) = >>=-eq-ok (validate_provider_entry v) _ h in
    let (fs, later, same) = >>=-eq-ok (traverse validate_provider_entry vs) _ rest in
    ground
      (arith, validate_provider_entry-IsProvider v {e = e} first, traverse-IsProvider vs fs later)

traverse_complete :
    (es : List IdentityProviderRecord)
    → All IsProvider es
    → traverse validate_provider_entry (map provider_value es) ≡ ok es
unfolding traverse validate_provider_entry provider_value
traverse_complete [] h = refl
traverse_complete (e ∷ es) h =
    rw (validate_identity_provider_complete e h.0, traverse_complete es h.1)

length-traverse :
    (vs : List Value) (es : List IdentityProviderRecord)
    → traverse validate_provider_entry vs ≡ ok es
    → length es ≡ length vs
unfolding traverse
length-traverse [] es h = ground arith
length-traverse (v ∷ vs) es h =
    let (e, first, rest) = >>=-eq-ok (validate_provider_entry v) _ h in
    let (fs, later, same) = >>=-eq-ok (traverse validate_provider_entry vs) _ rest in
    ground (arith, length-traverse vs fs later)

pub record AreProviders (es : List IdentityProviderRecord) : Type 0 where
  pub few : length es ≤ max_identity_providers_per_user
  pub valid : All IsProvider es
  pub distinct : IsDistinct (map provider_tag es)

validate_providers-AreProviders :
    (v : Value) (es : List IdentityProviderRecord) → validate_providers v ≡ ok es → AreProviders es
unfolding validate_providers
validate_providers-AreProviders (array vs) es h = ground (
  arith,
  traverse-IsProvider (items vs) es,
  length-traverse (items vs) es,
  distinct-length (map provider_tag es),
  length-map es provider_tag,
)
validate_providers-AreProviders _ es h = cc

validate_providers_complete :
    (es : List IdentityProviderRecord)
    → AreProviders es
    → validate_providers (array (from_items (map provider_value es))) ≡ ok es
unfolding validate_providers
validate_providers_complete es h =
    rw (items-from_items (map provider_value es), traverse_complete es h.valid)
      (ground (
        arith,
        h.few,
        length-map es provider_value,
        length-map es provider_tag,
        IsDistinct-length (map provider_tag es) h.distinct,
      ))

validated_email :
    (lower_case : Text → Text) (v : Value) (e : Text)
    → normalize_identity_email lower_case v ≡ ok e
    → is_same_text e v ≡ true
    → (is_invalid_email e ≡ false) × (lower_case (trim e) ≡ e)
unfolding normalize_identity_email is_same_text
validated_email lower_case (string t) e h same = ground (arith, eqb_iff e t)
validated_email lower_case _ e h same = cc

safe_user_id :
    (v : Value) (i : Text)
    → validate_identity_user_id v ≡ ok i
    → is_unsafe max_identity_user_id_length i ≡ false
unfolding validate_identity_user_id
safe_user_id (string t) i h = ground arith
safe_user_id _ i h = cc

validate_role-IsRole : (v : Value) (role : Option Text) → validate_role v ≡ ok role → IsRole role
unfolding validate_role
validate_role-IsRole undefined role h = ground arith
validate_role-IsRole (string t) role h = ground arith
validate_role-IsRole _ role h = cc

-- Whatever an adapter returns, a user that the validation accepts is well formed.
pub validate_identity_user-IsIdentityUser :
    (lower_case : Text → Text) (v : Value) (u : IdentityUser)
    → validate_identity_user lower_case v ≡ ok u
    → IsIdentityUser lower_case u
unfolding validate_identity_user
validate_identity_user-IsIdentityUser lower_case v u h = ground (
  arith,
  safe_user_id (property (text "id") v) u.id,
  validated_email lower_case (property (text "email") v) u.email,
  validate_role-IsRole (property (text "role") v) u.role,
  validate_providers-AreProviders (property (text "providers") v) u.providers,
)

-- A well-formed user passes the validation unchanged.
pub validate_identity_user_complete :
    (lower_case : Text → Text) (u : IdentityUser)
    → IsIdentityUser lower_case u
    → validate_identity_user lower_case (user_value u) ≡ ok u
unfolding validate_identity_user validate_identity_user_id normalize_identity_email is_same_text
    validate_role user_value property is_object
validate_identity_user_complete lower_case u h = ground (
  arith,
  eqb_refl u.email,
  validate_providers_complete u.providers
      (record { few = h.few; valid = h.providers_valid; distinct = h.distinct_providers }),
)
