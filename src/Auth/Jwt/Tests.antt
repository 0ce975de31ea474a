-- ===== src/Auth/Jwt/Tests.antt =====
-- Runs of the access tokens, and an instance of the theorem on the middleware.
use authenik8_core_beta.Common.{
  ◌≡◌, refl, Bool, true, false, Option, none, some, [], arith, any, every,
}
use authenik8_core_beta.Common.Text as Text
use authenik8_core_beta.Common.Value as Value
use authenik8_core_beta.Common.Effects.Async as Async
use authenik8_core_beta.Common.Text.{Text, text}
use authenik8_core_beta.Common.Value.{Value, string, Fields, end, field}
use authenik8_core_beta.Common.Effects.{ok, err, plain}
use authenik8_core_beta.Common.Effects.Async.{M}
use authenik8_core_beta.Common.Effects.Hoare.{Yields}
use authenik8_core_beta.Security.ClientIp as ClientIp
use authenik8_core_beta.Auth as Auth
use authenik8_core_beta.Auth.Bearer as Bearer
use authenik8_core_beta.Auth.Sessions as Sessions
use authenik8_core_beta.Auth.Sessions.{StoredSession}
use authenik8_core_beta.Auth.Sessions.Store as Store
use authenik8_core_beta.Auth.Jwk as Jwk
use authenik8_core_beta.Auth.Jwk.{legacy_token_algorithm, one}
use authenik8_core_beta.Auth.Jwk.KeyRing as KeyRing
use authenik8_core_beta.Auth.Jwk.KeyRing.{legacy}
use authenik8_core_beta.Auth.Jwt as Jwt
use authenik8_core_beta.Auth.Jwt.{JwtService, JwtRequest}
use authenik8_core_beta.Auth.Jwt.Authenticate as Authenticate
use authenik8_core_beta.Auth.Jwt.Authenticate.{authenticate_jwt, token_from_request}
use authenik8_core_beta.Auth.Jwt.Laws.{
  HasSessions, IsAuthenticated, authenticate_jwt-IsAuthenticated,
}
use authenik8_core_beta.Authorization.{next, response}

abbrev digest : Text
digest = text "0123456789012345678901234567890123456789abc"

abbrev ann : Fields
ann = field (text "userId") (string (text "ann")) (
    field (text "sessionId") (string (text "s1"))
      (field (text "tokenUse") (string (text "access")) end))

abbrev ann_session : StoredSession
ann_session = record {
  metadata = record {
    session_id = text "s1";
    device = text "phone";
    ip = text "1.1.1.1";
    created_at = 7;
  };
  token_hash = string digest;
  token = Value.undefined;
}

-- JSON for the one session that is stored here.
abbrev ann_stored : Value
ann_stored = Value.object (
    Value.field (text "tokenHash") (Value.string digest) (
      Value.field (text "sessionId") (Value.string (text "s1")) (
        Value.field (text "device") (Value.string (text "phone")) (
          Value.field (text "ip") (Value.string (text "1.1.1.1"))
            (Value.field (text "createdAt") (Value.number 7) Value.end)))))

-- The state is whether sessions are in quarantine.
abbrev test_service : JwtService Bool
test_service = record {
  expiry_seconds = 3600;
  on_guest_token = λ s. (ok tt, s);
  allow_cookie_auth = false;
  session_store = record {
    redis = some (record {
      hget = some (λ key name s. (ok (some (text "{}")), s));
      hgetall = none;
      hset = none;
      hdel = none;
      del = none;
      expire = none;
    });
    namespace = text "sessions";
    platform = record {
      sha256 = λ t. digest;
      buffer_from = λ v. ok [];
      json_parse = λ t. some ann_stored;
      json_stringify = λ v. text "{}";
    };
    now = λ s. (ok 7, s);
  };
  jose = record {
    sign = λ k header claims s. (ok (text "a.b.c"), s);
    verify = λ k algorithm issuer audience token s. (ok ann, s);
    decode = λ token s. (ok ann, s);
    base64url = record { decode = λ t. t; encode = λ t. t };
    now_ms = λ s. (ok 7000, s);
    random_uuid = λ s. (ok (text "s1"), s);
  };
  ring = record { issuer = text "me"; audience = one (text "api"); keys = legacy (text "secret") };
  emit = λ event s. (ok tt, s);
  risk = some (record {
    quarantined_now = λ principal s. (ok false, s);
    assess_context = λ principal baseline observed s. (err (plain "not assessed"), s);
  });
  resolve_request_context = none;
  json_stringify = λ v. some [];
}

abbrev request : JwtRequest
request = record {
  request = record { authenticated = false; user = none; request_id = Value.undefined };
  authorization = string (text "Bearer a.b.c");
  cookie = Value.undefined;
}

running : Unit {0}
unfolding Text.eqb Text.is_control Text.contains_control_character Value.is_unsafe
    Value.is_unsafe_value Value.keys Value.get_field Value.put_field Value.property Value.truthy
    Value.items Async.◌>>=◌ Async.pure Async.throw Async.lift Async.branch Async.if_present
    Async.try_catch any every ClientIp.add_to_first ClientIp.split Auth.token_fingerprint
    Auth.token_fingerprint_matches Auth.assert_identifier Bearer.lower_letter Bearer.after_prefix
    Bearer.is_segment Bearer.is_compact Bearer.bearer_token Sessions.is_base64url
    Sessions.matches_token_hash Sessions.is_short Sessions.is_created_at Sessions.has_token
    Sessions.check_session Sessions.read_session Sessions.parse_session Sessions.in_field
    Sessions.session_token_matches Store.session_key Store.session_field Store.get
    Jwk.token_use_name Jwk.is_canonical Jwk.is_empty Jwk.assert_canonical_compact_jwt
    KeyRing.is_text KeyRing.has_token_use KeyRing.jwt_verify KeyRing.verify_jwt
    Jwt.assert_optional_claim Jwt.assert_optional_claim_array Jwt.validate_access_claims
    Jwt.given_claim Jwt.text_claim Jwt.verify_token Jwt.is_quarantined_now Authenticate.cookie_token
    Authenticate.choose_token Authenticate.access_principal Authenticate.authenticated_as
    Authenticate.token_from_request Authenticate.assess_session Authenticate.session_matches
    Authenticate.check_session_of Authenticate.session_is_valid Authenticate.observation_of
    Authenticate.reject_request Authenticate.rejected_event Authenticate.authenticate_session
    Authenticate.authenticate_decoded Authenticate.authenticate_token Authenticate.authenticate_jwt
running = tt

authenticate_runs : authenticate_jwt test_service request false ≡ (
  ok (next (record { authenticated = true; user = some ann; request_id = Value.undefined })),
  false,
)
unfolding running
authenticate_runs = refl

missing_runs :
    authenticate_jwt test_service (record request { authorization = Value.undefined }) false
    ≡ (ok (response 401), false)
unfolding running
missing_runs = refl

sessions_of : Text → Text → Option StoredSession
sessions_of user_id session_id = Sessions.in_field session_id (some ann_session)

test-HasSessions : HasSessions test_service sessions_of (λ principal. false)
unfolding running sessions_of
test-HasSessions = record {
  get = λ user_id session_id. record { holds = λ s found s' h. ground (arith, h) };
  quarantined = λ principal. record { holds = λ s answer s' h. ground (arith, h) };
}

ann-IsAuthenticated :
    Yields
      (IsAuthenticated test_service sessions_of
        (λ principal. false)
        (token_from_request test_service request))
      (authenticate_jwt test_service request)
ann-IsAuthenticated =
    authenticate_jwt-IsAuthenticated test_service sessions_of (λ principal. false) test-HasSessions
      request
