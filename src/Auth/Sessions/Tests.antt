-- ===== src/Auth/Sessions/Tests.antt =====
-- An instance of the round trip of a stored session.
use authenik8_core_beta.Common.{
  ℕ, ◌≡◌, ◌↔◌, refl, true, Option, none, some, List, [], ◌∷◌, arith, every, length, ◌==◌,
  if◌then◌else◌,
}
use authenik8_core_beta.Common.Text as Text
use authenik8_core_beta.Common.Value as Value
use authenik8_core_beta.Redis as Redis
use authenik8_core_beta.Auth as Auth
use authenik8_core_beta.Auth.Sessions as Sessions
use authenik8_core_beta.Common.Text.{Text, text, eqb}
use authenik8_core_beta.Common.Value.{Value}
use authenik8_core_beta.Common.Effects.{Result, ok, err, plain}
use authenik8_core_beta.Common.Effects.Async.{M, ◌>>◌}
use authenik8_core_beta.Common.Effects.Returns.{Returns}
use authenik8_core_beta.Auth.{Platform, SessionRedisClient, token_fingerprint}
use authenik8_core_beta.Auth.Refresh.Rotation.{IsDigest}
use authenik8_core_beta.Auth.Sessions.Store.{SessionStore, upsert, token_matches}
use authenik8_core_beta.Auth.Sessions.Store.Written.{HasHashes, IsStorable, upsert-token_matches}
use authenik8_core_beta.Auth.Sessions.{
  SessionMetadata, in_field, parse_session, matches_token_hash, validate_metadata, session_value,
}
use authenik8_core_beta.Auth.Sessions.Laws.{written, parse_session-session_value}

abbrev digest : Text
digest = text "0123456789012345678901234567890123456789abc"

abbrev phone : SessionMetadata
phone = record {
  session_id = text "s1";
  device = text "phone";
  ip = text "1.1.1.1";
  created_at = 7;
}

-- JSON for the one session that is stored here.
phone_value : Value
phone_value = Value.object (
    Value.field (text "tokenHash") (Value.string digest) (
      Value.field (text "sessionId") (Value.string (text "s1")) (
        Value.field (text "device") (Value.string (text "phone")) (
          Value.field (text "ip") (Value.string (text "1.1.1.1"))
            (Value.field (text "createdAt") (Value.number 7) Value.end)))))

abbrev test_platform : Platform
test_platform = record {
  sha256 = λ t. digest;
  buffer_from = λ v. err (plain "no buffer");
  json_parse = λ t. some phone_value;
  json_stringify = λ v. text "{}";
}

running : Unit {0}
unfolding Text.eqb Text.is_control Text.contains_control_character Value.is_unsafe
    Redis.is_alphanumeric Auth.token_fingerprint Auth.assert_identifier Sessions.is_base64url
    Sessions.matches_token_hash Sessions.is_short Sessions.is_created_at Sessions.validate_metadata
    Sessions.session_value every phone_value
running = tt

digest_lem : matches_token_hash (token_fingerprint test_platform (text "t")) ≡ true
unfolding running
digest_lem = refl

phone_valid : validate_metadata phone ≡ ok tt
unfolding running
phone_valid = refl

phone_parsed :
    test_platform.json_parse (text "{}") ≡ some (session_value test_platform (text "t") phone)
unfolding running
phone_parsed = refl

phone_read :
    in_field (text "s1") (parse_session test_platform (some (text "{}")))
    ≡ some (written test_platform (text "t") phone)
phone_read =
    parse_session-session_value test_platform (text "t") phone (text "{}") digest_lem phone_valid
      phone_parsed (omega arith) (omega arith)

-- A store of one field of one hash; a digest keeps the length of the token.
marked_digest : Text → Text
marked_digest t =
    (if length t == 1 then b'A' else b'B') ∷ text "123456789012345678901234567890123456789abc"

value_of : Text → Value
value_of token =
    session_value
      (record {
        sha256 = marked_digest;
        buffer_from = λ v. err (plain "no buffer");
        json_parse = λ t. none;
        json_stringify = λ v. [];
      })
      token phone

buffer_of : Value → Result (List ℕ)
buffer_of (Value.string t) = ok t
buffer_of _ = err (plain "no buffer")

abbrev store_platform : Platform
store_platform = record {
  sha256 = marked_digest;
  buffer_from = buffer_of;
  json_parse = λ t. some (value_of (text "t"));
  json_stringify = λ v. text "{}";
}

abbrev write_field : Text → Text → Text → M (Option Text) (Unit {0})
write_field key field value s = (ok tt, some value)

abbrev read_field : Text → Text → M (Option Text) (Option Text)
read_field key field s = (ok s, s)

abbrev hash_client : SessionRedisClient (Option Text)
hash_client = record {
  hget = some read_field;
  hgetall = none;
  hset = some write_field;
  hdel = none;
  del = none;
  expire = none;
}

abbrev hash_store : SessionStore (Option Text)
hash_store = record {
  redis = some hash_client;
  namespace = text "sessions";
  platform = store_platform;
  now = λ s. (ok 7, s);
}

abbrev hashes_of : Option Text → Text → Text → Option Text
hashes_of s key field = s

store_platform-IsDigest : IsDigest store_platform
unfolding running marked_digest buffer_of
store_platform-IsDigest = record {
  pattern = λ t. ground arith;
  bytes = marked_digest;
  bytes_lem = λ t. refl;
  bytes_inj = λ t u h. h;
}

client-HasHashes : HasHashes hash_store hash_client write_field read_field hashes_of
client-HasHashes = record {
  redis_lem = refl;
  hset_lem = refl;
  hget_lem = refl;
  writes = λ key field value. record { holds = λ s p. (tt, some value, refl, refl) };
  reads = λ key field held. record { holds = λ s p. (s, s, refl, p) };
  leaves = λ expire present. cc;
}

phone-IsStorable :
    IsStorable hash_store hash_client write_field read_field hashes_of
      (text "ann")
      (text "t")
      phone
      60
unfolding running value_of
phone-IsStorable = record {
  principal_lem = refl;
  metadata_lem = refl;
  token_min = omega arith;
  token_max = omega arith;
  ttl_min = omega arith;
  ttl_max = omega arith;
  parsed = refl;
  text_min = omega arith;
  text_max = omega arith;
}

phone-matches :
    Returns
      (λ s. Unit {0})
      (upsert hash_store (text "ann") (text "t") phone 60
        >> token_matches hash_store (text "ann") (text "s1") (text "t2"))
      (λ b s. (b ≡ true) ↔ (
        token_fingerprint store_platform (text "t") ≡ token_fingerprint store_platform (text "t2")))
phone-matches =
    upsert-token_matches hash_store hash_client write_field read_field hashes_of client-HasHashes
      (text "ann") (text "t") phone 60 phone-IsStorable store_platform-IsDigest (text "t2")
