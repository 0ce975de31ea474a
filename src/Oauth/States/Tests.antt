-- ===== src/Oauth/States/Tests.antt =====
-- Runs of the state store over one entry, and instances of its theorems.
use authenik8_core_beta.Common.{◌≡◌, refl, Option, none, some, arith, every}
use authenik8_core_beta.Common.Text as Text
use authenik8_core_beta.Common.Value as Value
use authenik8_core_beta.Common.Effects.Async as Async
use authenik8_core_beta.Common.Text.{Text, text, eqb}
use authenik8_core_beta.Common.Effects.{ok}
use authenik8_core_beta.Common.Effects.Async.{M, ◌>>=◌, ◌>>◌}
use authenik8_core_beta.Common.Effects.Triples.{Ensures}
use authenik8_core_beta.Oauth.States as States
use authenik8_core_beta.Oauth.States.{
  OAuthState, link_state, StateStore, oauth_state_value, set_state, consume_oauth_state,
}
use authenik8_core_beta.Oauth.States.Laws.{
  IsStateRedis, KeepsState, consume_oauth_state-once, set_state-consume_oauth_state,
}

abbrev linked : OAuthState
linked = link_state (text "ann")

abbrev token : Text
token = text "0123456789abcdef0123456789abcdef0123456789abcdef0123456789abcdef"

linked_value : Value.Value
unfolding oauth_state_value
linked_value = oauth_state_value linked

-- The state is the one entry of the store; JSON is that of one state.
abbrev test_store : StateStore (Option Text)
test_store = record {
  redis = record {
    setex = λ key ttl value s. (ok tt, some value);
    get = λ key s. (ok s, s);
    del = λ key s. (ok tt, none);
    get_del = λ key s. (ok s, none);
  };
  prefix = text "oauth";
  json_parse = λ t. some linked_value;
  json_stringify = λ v. text "{}";
}

running : Unit {0}
unfolding Text.eqb Text.is_control Text.contains_control_character Text.is_high Text.is_low
    Text.unit_bytes Text.byte_length_from Text.byte_length Value.is_unsafe Value.keys
    Value.get_field Value.property Async.◌>>=◌ Async.pure Async.lift Async.branch every
    States.is_lower_hex States.is_valid_oauth_state_token States.has_state_keys States.state_of
    States.valid_oauth_state States.oauth_state_value States.is_valid_state States.parse_oauth_state
    States.read_state States.set_state States.take_state States.checked_state
    States.consume_oauth_state linked_value
running = tt

stored_of : Option Text → Text → Option Text
stored_of s key = s

consume_runs : consume_oauth_state test_store token (some (text "{}")) ≡ (ok (some linked), none)
unfolding running
consume_runs = refl

test-IsStateRedis : IsStateRedis test_store stored_of
unfolding stored_of
test-IsStateRedis = record {
  setex = λ key value ttl. record { holds = λ s p u s' h. ground arith };
  get_del = λ key held. record { holds = λ s p found s' h. (ground (arith, p), ground arith) };
}

linked-KeepsState : KeepsState test_store stored_of linked
unfolding running
linked-KeepsState = record { parse = refl; nonempty = omega arith; short = omega arith }

token-once :
    Ensures
      (λ s. Unit {0})
      (consume_oauth_state test_store token >>= λ first. consume_oauth_state test_store token)
      (λ second s. second ≡ none)
token-once = consume_oauth_state-once test_store stored_of test-IsStateRedis token

linked-consumed :
    Ensures
      (λ s. Unit {0})
      (set_state test_store token linked 300 >> consume_oauth_state test_store token)
      (λ found s. found ≡ some linked)
linked-consumed =
    set_state-consume_oauth_state test_store stored_of test-IsStateRedis token linked 300
      linked-KeepsState
