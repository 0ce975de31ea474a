-- ===== src/Oauth/Policy.antt =====
-- src/oauth/brain/identityPolicy.ts. The flags are Booleans by type, so the test that refuses other
-- values is left out.
use authenik8_core_beta.Common.{Bool, false, not, ◌&&◌, ◌||◌, Option, none, some}

pub record IdentityPolicy : Type 0 where
  pub auto_link_on_verified_email_match : Bool
  pub allow_unverified_auto_link : Bool

pub record IdentityPolicyConfig : Type 0 where
  pub auto_link_on_verified_email_match : Option Bool
  pub allow_unverified_auto_link : Option Bool

abbrev pub identity_policy : IdentityPolicy
identity_policy = record {
  auto_link_on_verified_email_match = false;
  allow_unverified_auto_link = false;
}

-- `flag ?? false`.
abbrev pub flag_or_false : Option Bool → Bool
flag_or_false none = false
flag_or_false (some b) = b

unfoldable pub resolve_identity_policy : IdentityPolicyConfig → IdentityPolicy
resolve_identity_policy configured = record {
  auto_link_on_verified_email_match = flag_or_false configured.auto_link_on_verified_email_match;
  allow_unverified_auto_link = flag_or_false configured.allow_unverified_auto_link;
}

-- `canAutoLink` of src/oauth/brain/identityEngine.ts.
unfoldable pub can_auto_link : Bool → IdentityPolicy → Bool
can_auto_link email_verified policy =
    (email_verified && policy.auto_link_on_verified_email_match)
    || (not email_verified && policy.allow_unverified_auto_link)
