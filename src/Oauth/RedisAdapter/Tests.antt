-- ===== src/Oauth/RedisAdapter/Tests.antt =====
-- Runs of the Redis adapter over a list of entries, and instances of its theorems.
use authenik8_core_beta.Common.{
  ◌≡◌, ◌⊎◌, refl, sym, arith, Bool-cases, inl, inr, Option, none, some, [], ◌∷◌, any,
}
use authenik8_core_beta.Common.Text as Text
use authenik8_core_beta.Common.Value as Value
use authenik8_core_beta.Common.Dict as Dict
use authenik8_core_beta.Common.Effects.Async as Async
use authenik8_core_beta.Common.Effects.Pure as Pure
use authenik8_core_beta.Common.Text.{Text, text, eqb, eqb→eq}
use authenik8_core_beta.Common.Dict.{Dict, lookup, insert, lookup-insert}
use authenik8_core_beta.Common.Effects.{ok, err, plain}
use authenik8_core_beta.Common.Effects.Async.{M}
use authenik8_core_beta.Common.Effects.Hoare.{Keeps}
use authenik8_core_beta.Oauth.Validation as Validation
use authenik8_core_beta.Oauth.Validation.{IdentityProviderRecord, IdentityUser, user_value}
use authenik8_core_beta.Oauth.Engine as Engine
use authenik8_core_beta.Oauth.Memory as Memory
use authenik8_core_beta.Oauth.RedisAdapter as Adapter
use authenik8_core_beta.Oauth.RedisAdapter.{RedisIdentity}
use authenik8_core_beta.Oauth.RedisAdapter.Finds as Finds
use authenik8_core_beta.Oauth.RedisAdapter.Scripts as Scripts
use authenik8_core_beta.Oauth.RedisAdapter.Changes as Changes
use authenik8_core_beta.Oauth.RedisAdapter.Changes.{
  create_user, link_provider, link_turn, link_attempts, redis_identity_adapter,
}
use authenik8_core_beta.Oauth.RedisAdapter.Index.{Claimed, IsIdentityRedis}
use authenik8_core_beta.Oauth.RedisAdapter.Claims.{redis_identity_adapter-Claimed}
use authenik8_core_beta.Oauth.RedisAdapter.Contention.{IsAlone, link_attempts-first}

abbrev ann : IdentityUser
ann = record {
  id = text "u1";
  email = text "ann@x.io";
  role = none;
  providers = record { provider = text "google"; provider_id = text "g1" } ∷ [];
}

ann_value : Value.Value
unfolding user_value
ann_value = user_value ann

abbrev github : IdentityProviderRecord
github = record { provider = text "github"; provider_id = text "h1" }

-- The state is the entries of Redis; every user is stored as the same text.
abbrev test_adapter : RedisIdentity (Dict Text)
test_adapter = record {
  redis = record {
    get = λ key s. (ok (lookup key s), s);
    script_get = λ key s. (ok (lookup key s), s);
    script_set = λ key value s. (ok tt, insert key value s);
  };
  prefix = text "p:{identity}";
  digest = λ t. t;
  json_parse = λ t. some ann_value;
  json_stringify = λ v. text "{}";
  lower_case = λ t. t;
  random_uuid = λ s. (ok (text "u1"), s);
}

running : Unit {0}
unfolding Text.eqb Text.is_control Text.contains_control_character Text.is_space Text.trim_start
    Text.trim_end Text.trim Text.index_of Text.last_index_of Text.includes Text.distinct_from
    Text.distinct Text.is_high Text.is_low Text.unit_bytes Text.byte_length_from Text.byte_length
    Value.items Value.from_items Value.get_field Value.property Value.is_object Value.is_unsafe
    Value.truthy Pure.traverse Async.◌>>=◌ Async.pure Async.throw Async.lift Async.branch any
    Dict.lookup Dict.insert Validation.matches_provider_pattern Validation.is_bad_at
    Validation.is_invalid_email Validation.validate_provider_name Validation.validate_provider_id
    Validation.validate_identity_provider Validation.validate_identity_user_id
    Validation.provider_tag Validation.validate_role Validation.validate_provider_entry
    Validation.validate_providers Validation.is_same_text Validation.normalize_identity_email
    Validation.validate_identity_user Validation.provider_value Validation.role_value
    Validation.user_value Engine.is_entry Engine.has_provider Memory.creation_value
    Memory.add_provider Memory.new_user Adapter.status_name Adapter.status_of Adapter.creation_of
    Adapter.creation_result Adapter.creation_answer Adapter.valid_user Adapter.is_other
    Adapter.is_same_id Adapter.is_there_with Adapter.link_target_of Adapter.updated_user
    Adapter.user_key Adapter.email_index Adapter.email_key Adapter.provider_key Adapter.parse_user
    Finds.read_user Finds.get_user_by_id Scripts.create_absent Scripts.create_unowned
    Scripts.create_user_script Scripts.link_current Scripts.link_provider_script
    Changes.check_resolved Changes.check_limit Changes.resolved_user Changes.finish_creation
    Changes.create_user Changes.after_link Changes.link_user Changes.link_turn Changes.link_attempts
    Changes.link_provider ann_value
running = tt

abbrev stored : Dict Text
stored =
    (text "p:{identity}:user:u1", text "{}")
    ∷ (text "p:{identity}:email:ann@x.io", text "u1")
    ∷ (text "p:{identity}:provider:google\0g1", text "u1")
    ∷ []

create_runs :
    create_user test_adapter (text "ann@x.io") (text "google") (text "g1") []
    ≡ (ok (Memory.creation_value "created" ann), stored)
unfolding running
create_runs = refl

again_runs :
    create_user test_adapter (text "ann@x.io") (text "github") (text "h1") stored
    ≡ (ok (Memory.creation_value "existing-email" ann), stored)
unfolding running
again_runs = refl

link_runs : link_provider test_adapter (text "u1") (text "github") (text "h1") stored ≡ (
  ok tt,
  (text "p:{identity}:user:u1", text "{}")
      ∷ (text "p:{identity}:email:ann@x.io", text "u1")
      ∷ (text "p:{identity}:provider:google\0g1", text "u1")
      ∷ (text "p:{identity}:provider:github\0h1", text "u1")
      ∷ [],
)
unfolding running
link_runs = refl

taken_runs :
    link_provider test_adapter (text "u2") (text "google") (text "g1") stored
    ≡ (err (plain "OAuth link target user not found"), stored)
unfolding running
taken_runs = refl

abbrev entry_of : Dict Text → Text → Option Text
entry_of s key = lookup key s

write-entry :
    (key value : Text) (s : Dict Text) (k : Text)
    → (entry_of (insert key value s) k ≡ entry_of s k)
      ⊎ ((k ≡ key) × (entry_of (insert key value s) k ≡ some value))
write-entry key value s k = elim (Bool-cases (eqb key k)) [
  | inl e ↦ inr (sym (eqb→eq key k e), ground (arith, e, lookup-insert key k value s))
  | inr e ↦ inl (ground (arith, e, lookup-insert key k value s))
]

test-IsIdentityRedis : IsIdentityRedis test_adapter entry_of
test-IsIdentityRedis = record {
  get = λ key. record { holds = λ s k i id h. h };
  uuid = record { holds = λ s k i id h. h };
  script_get = λ key s. refl;
  script_set = λ key value s k. write-entry key value s k;
}

ann-Claimed :
    Keeps (Claimed test_adapter entry_of) (
      (redis_identity_adapter test_adapter).create_user
        (text "ann@x.io")
        (text "google")
        (text "g1"))
    × Keeps (Claimed test_adapter entry_of) (
        (redis_identity_adapter test_adapter).link_provider (text "u1") (text "google") (text "g1"))
ann-Claimed =
    redis_identity_adapter-Claimed test_adapter entry_of test-IsIdentityRedis (text "ann@x.io")
      (text "u1") (text "google") (text "g1")

test-IsAlone : IsAlone test_adapter entry_of
test-IsAlone = record { get = λ key s. refl; script_get = λ key s. refl }

abbrev unlinked : M (Dict Text) (Unit {0})
unlinked s = (ok tt, [])

ann-first :
    link_attempts test_adapter 5 (text "u1") github stored
    ≡ link_turn test_adapter (text "u1") github unlinked stored
ann-first =
    link_attempts-first test_adapter entry_of test-IsAlone 4 (text "u1") github unlinked stored
