-- ===== src/Oauth/Tests.antt =====
-- Runs of the identity engine over the memory adapter, and instances of its theorems.
use authenik8_core_beta.Common.{
  any, every, subst, ℕ, ◌+◌, String, ◌≡◌, refl, Bool, true, false, none, some, [], ◌∷◌, arith,
}
use authenik8_core_beta.Common.Text.{Text, text, eqb, trim, trim_start, is_space, distinct}
use authenik8_core_beta.Common.Trim.{ascii_lower_case, ascii_lower_case-IsNormalizing}
use authenik8_core_beta.Common.Dict.{lookup, insert}
use authenik8_core_beta.Common.Value.{Value, undefined, null, string, boolean, property}
use authenik8_core_beta.Common.Effects.{Result, ok}
use authenik8_core_beta.Common.Effects.Async.{M, ◌>>=◌, pure, lift, throw, branch}
use authenik8_core_beta.Audit.{AuditEventInput}
use authenik8_core_beta.Oauth.Validation.{
  IdentityProviderRecord, IdentityUser, validate_identity_provider, validate_identity_user_id,
  normalize_identity_email, validate_identity_user, user_value,
}
use authenik8_core_beta.Oauth.Validation.Laws.{
  IsIdentityUser, validate_identity_user-IsIdentityUser, validate_identity_user_complete,
}
use authenik8_core_beta.Oauth.Policy.{identity_policy, can_auto_link}
use authenik8_core_beta.Oauth.Engine.{
  Tokens, TokenRequest, IdentityResult, new_user_creation, existing_provider_login, link_required,
  link_provider, Dependencies, OAuthArgs, parse_mode, parse_verified, parse_user_id, resolve_oauth,
}
use authenik8_core_beta.Oauth.Engine.Results.{IsExplained, resolve_oauth-IsExplained}
use authenik8_core_beta.Oauth.Memory.{Memory, create_user, find_value}
use authenik8_core_beta.Common.Text
use authenik8_core_beta.Common.Dict
use authenik8_core_beta.Common.Value
use authenik8_core_beta.Common.Trim
use authenik8_core_beta.Common.Effects.Pure
use authenik8_core_beta.Common.Effects.Async
use authenik8_core_beta.Oauth.Validation
use authenik8_core_beta.Oauth.Policy
use authenik8_core_beta.Oauth.Engine
use authenik8_core_beta.Oauth.Memory
use authenik8_core_beta.Oauth.Accounts
use authenik8_core_beta.Oauth.Accounts.{
  memory_service, SameUsers, LeavesUsers, KeepsAccounts, KeepsOthers, login_keeps_accounts,
  link_request_keeps_others,
}
use authenik8_core_beta.Oauth.Memory.Invariant.{
  NeverRepeats, IsConsistent, create_user-IsConsistent, link_provider-IsConsistent,
}
use authenik8_core_beta.Oauth.Memory.Outcomes.{Creation, create_user-Creation}

-- The n-th identifier.
abbrev test_uuid : ℕ → Text
test_uuid n = b'u' ∷ (n + 200) ∷ []

test_issue_tokens : TokenRequest → M Memory Tokens
test_issue_tokens t s = (ok (record { access_token = t.user_id; refresh_token = t.session_id }), s)

test_audit : AuditEventInput → M Memory (Unit {0})
test_audit e s = (ok tt, s)

abbrev test_service : Dependencies Memory
test_service =
    memory_service ascii_lower_case test_uuid identity_policy test_issue_tokens test_audit

-- What runs when the engine does.
running : Unit {0}
unfolding Text.eqb Text.is_control Text.contains_control_character Text.is_space Text.trim_start
    Text.trim_end Text.trim Text.index_of Text.last_index_of Text.includes Text.distinct_from
    Text.distinct Dict.lookup Dict.insert Dict.delete Value.items Value.from_items Value.keys
    Value.get_field Value.property Value.truthy Value.is_object Value.is_undefined Value.is_unsafe
    Value.is_unsafe_value Trim.ascii_lower Trim.ascii_lower_case Pure.traverse Async.◌>>=◌
    Async.pure Async.throw Async.lift Async.try_catch Async.try_finally Async.branch
    Validation.matches_provider_pattern Validation.is_bad_at Validation.is_invalid_email
    Validation.validate_provider_name Validation.validate_provider_id
    Validation.validate_identity_provider Validation.validate_identity_user_id
    Validation.provider_tag Validation.validate_role Validation.validate_provider_entry
    Validation.validate_providers Validation.is_same_text Validation.normalize_identity_email
    Validation.validate_identity_user Validation.provider_value Validation.role_value
    Validation.user_value Policy.resolve_identity_policy Policy.can_auto_link Engine.is_entry
    Engine.has_provider Engine.engine_event Engine.link_metadata Engine.parse_mode
    Engine.parse_verified Engine.parse_user_id Engine.require_linked Engine.has_status
    Engine.provider_belongs_to Engine.email_belongs_to Engine.created_user Engine.checked
    Engine.issue_tokens_for_user Engine.issue_existing_login Engine.auto_link Engine.link_for_login
    Engine.read_back_link Engine.link_target Engine.with_target Engine.resolve_link
    Engine.announce_created Engine.after_creation Engine.login_by_email Engine.resolve_login
    Engine.resolve_mode Engine.resolve_context Engine.resolve_oauth Memory.find_value
    Memory.user_or_null Memory.get_users Memory.set_user Memory.has_email Memory.creation_value
    Memory.refuse_other_owner Memory.add_provider Memory.link_to Memory.find_user_by_id
    Memory.new_user Memory.owner_of_provider Memory.find_user_by_provider Memory.link_provider
    Memory.random_uuid Memory.owner_of_email Memory.find_user_by_email Memory.add_user
    Memory.create_without_provider Memory.create_with_owner Memory.create_user Memory.memory_adapter
    Memory.reset Memory.dump_values Memory.dump Accounts.memory_service any every test_issue_tokens
    test_audit
running = tt

abbrev args_of : String → String → String → Value → OAuthArgs
args_of mode email provider_id user_id = record {
  mode = text mode;
  email = string (text email);
  email_verified = boolean true;
  provider = string (text "google");
  provider_id = string (text provider_id);
  user_id = user_id;
}

abbrev empty_memory : Memory
empty_memory = record { users = []; supply = 0 }

abbrev google : String → IdentityProviderRecord
google i = record { provider = text "google"; provider_id = text i }

abbrev ann : IdentityUser
ann = record {
  id = test_uuid 0;
  email = text "ann@x.io";
  role = none;
  providers = google "g1" ∷ [];
}

abbrev with_ann : Memory
with_ann = record { users = (test_uuid 0, ann) ∷ []; supply = 1 }

-- A log-in creates the account, and logs it in.
abbrev first_login : Result IdentityResult × Memory
first_login = (
  ok (new_user_creation ann (record { access_token = test_uuid 0; refresh_token = test_uuid 1 })),
  record { users = (test_uuid 0, ann) ∷ []; supply = 2 },
)

first_login_runs :
    resolve_oauth test_service (args_of "login" " Ann@X.io" "g1" null) empty_memory ≡ first_login
unfolding running
first_login_runs = refl

-- Another provider account with her email does not get in.
takeover_runs :
    resolve_oauth test_service (args_of "login" "ann@x.io" "evil" null) with_ann
    ≡ (ok (link_required (text "ann@x.io") (text "google")), with_ann)
unfolding running
takeover_runs = refl

-- She links a second one herself.
link_runs :
    (resolve_oauth test_service (args_of "link" "ann@x.io" "g2" (string (test_uuid 0))) with_ann).0
    ≡ ok (link_provider (record ann { providers = google "g1" ∷ google "g2" ∷ [] }))
unfolding running
link_runs = refl

resolve_oauth-IsExplained_example :
    IsExplained test_service
      (args_of "login" " Ann@X.io" "g1" null)
      (new_user_creation ann (record { access_token = test_uuid 0; refresh_token = test_uuid 1 }))
resolve_oauth-IsExplained_example =
    resolve_oauth-IsExplained test_service (args_of "login" " Ann@X.io" "g1" null) empty_memory _ _
      first_login_runs

test_uuid-NeverRepeats : NeverRepeats test_uuid
test_uuid-NeverRepeats m n h = let e : m + 200 ≡ n + 200 = cc in omega arith

test_issue_tokens-leaves : (t : TokenRequest) → LeavesUsers (test_issue_tokens t)
unfolding test_issue_tokens
test_issue_tokens-leaves t = record { holds = λ s. record { users = refl; supply = omega arith } }

test_audit-leaves : (e : AuditEventInput) → LeavesUsers (test_audit e)
unfolding test_audit
test_audit-leaves e = record { holds = λ s. record { users = refl; supply = omega arith } }

empty-IsConsistent : IsConsistent test_uuid empty_memory
unfolding lookup
empty-IsConsistent = record {
  distinct = tt;
  keyed = λ k u h. cc;
  one_email = λ j k u v h l e. cc;
  one_owner = λ i j k u v h l p q. cc;
  fresh = λ n h. refl;
}

-- The store after the first creation, by the theorem.
created-IsConsistent :
    IsConsistent test_uuid
      (create_user ascii_lower_case test_uuid
        (text "Ann@x.io")
        (text "google")
        (text "g1")
        empty_memory).1
created-IsConsistent =
    create_user-IsConsistent ascii_lower_case test_uuid test_uuid-NeverRepeats
      ascii_lower_case-IsNormalizing (text "Ann@x.io") (text "google") (text "g1") empty_memory
      empty-IsConsistent

created_runs :
    (create_user ascii_lower_case test_uuid
      (text "Ann@x.io")
      (text "google")
      (text "g1")
      empty_memory).1
    ≡ with_ann
unfolding running
created_runs = refl

with_ann-IsConsistent : IsConsistent test_uuid with_ann
with_ann-IsConsistent = subst (IsConsistent test_uuid) created_runs created-IsConsistent

link_provider-IsConsistent_example :
    IsConsistent test_uuid
      (Memory.link_provider (test_uuid 0) (text "google") (text "g2") with_ann).1
link_provider-IsConsistent_example =
    link_provider-IsConsistent test_uuid (test_uuid 0) (text "google") (text "g2") with_ann
      with_ann-IsConsistent

create_user-Creation_example :
    Creation ascii_lower_case test_uuid (text "ann@x.io") (text "google") (text "evil") with_ann (
      create_user ascii_lower_case test_uuid
        (text "ann@x.io")
        (text "google")
        (text "evil")
        with_ann)
create_user-Creation_example =
    create_user-Creation ascii_lower_case test_uuid ascii_lower_case-IsNormalizing (text "ann@x.io")
      (text "google") (text "evil") with_ann

abbrev takeover : OAuthArgs
takeover = args_of "login" "ann@x.io" "evil" null

login_keeps_accounts_example :
    KeepsAccounts test_uuid with_ann (resolve_oauth test_service takeover with_ann).1
login_keeps_accounts_example =
    login_keeps_accounts ascii_lower_case test_uuid identity_policy test_issue_tokens test_audit
      ascii_lower_case-IsNormalizing test_uuid-NeverRepeats test_issue_tokens-leaves
      test_audit-leaves takeover with_ann (unfold running in refl) no_link
  where
    no_link :
        (verified : Bool)
        → parse_verified takeover.email_verified ≡ ok verified
        → can_auto_link verified identity_policy ≡ false
    no_link true h = unfold running in refl
    no_link false h = unfold running in refl

link_request_keeps_others_example :
    KeepsOthers test_uuid
      (some (test_uuid 0))
      with_ann
      (resolve_oauth test_service
        (args_of "link" "ann@x.io" "g2" (string (test_uuid 0)))
        with_ann).1
link_request_keeps_others_example =
    link_request_keeps_others ascii_lower_case test_uuid identity_policy test_issue_tokens
      test_audit ascii_lower_case-IsNormalizing test_uuid-NeverRepeats test_issue_tokens-leaves
      test_audit-leaves (args_of "link" "ann@x.io" "g2" (string (test_uuid 0))) (some (test_uuid 0))
      with_ann (unfold running in refl) (unfold running in refl)

ann-IsIdentityUser : IsIdentityUser ascii_lower_case ann
ann-IsIdentityUser =
    validate_identity_user-IsIdentityUser ascii_lower_case (user_value ann) ann
      (unfold running in refl)

validate_identity_user_complete_example :
    validate_identity_user ascii_lower_case (user_value ann) ≡ ok ann
validate_identity_user_complete_example =
    validate_identity_user_complete ascii_lower_case ann ann-IsIdentityUser
