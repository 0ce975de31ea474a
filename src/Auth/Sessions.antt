-- ===== src/Auth/Sessions.antt =====
-- src/auth/sessionStore.ts: the sessions of a principal, in one Redis hash.
pub mod Store
pub mod Laws
mod Tests
use authenik8_core_beta.Common.{
  ℕ, ◌+◌, Bool, true, false, not, ◌&&◌, ◌||◌, Option, none, some, List, [], ◌∷◌, ◌++◌,
  if◌then◌else◌, ltb, leb, ◌==◌, length, every,
}
use authenik8_core_beta.Common.Text.{Text, text, eqb, contains_control_character}
use authenik8_core_beta.Common.Value.{
  Value, undefined, number, string, object, Fields, end, field, property, truthy, is_object,
  is_unsafe, is_unsafe_value,
}
use authenik8_core_beta.Common.Effects.{Error, Result, ok, err, plain}
use authenik8_core_beta.Common.Effects.Async.{M, ◌>>=◌, ◌>>◌, pure, lift, branch, if_present}
use authenik8_core_beta.Common.Effects.Pure as Pure
use authenik8_core_beta.Auth.{
  Platform, SessionRedisClient, token_fingerprint, token_fingerprint_matches, max_identifier_length,
  assert_identifier,
}
use authenik8_core_beta.Redis.{is_alphanumeric}

pub record SessionMetadata : Type 0 where
  pub session_id : Text
  pub device : Text
  pub ip : Text
  pub created_at : ℕ

-- A session as it is read: its metadata, with `tokenHash` and `token` as they stand.
pub record StoredSession : Type 0 where
  pub metadata : SessionMetadata
  pub token_hash : Value
  pub token : Value

-- `Partial<Omit<SessionMetadata, "sessionId">>`.
pub record SessionDefaults : Type 0 where
  pub device : Option Text
  pub ip : Option Text
  pub created_at : Option ℕ

abbrev pub max_device_length : ℕ
max_device_length = 512

abbrev pub max_ip_length : ℕ
max_ip_length = 128

abbrev pub max_token_length : ℕ
max_token_length = 16_384

abbrev pub max_session_ttl_seconds : ℕ
max_session_ttl_seconds = 2_678_400

abbrev pub max_safe_integer : ℕ
max_safe_integer = 9_007_199_254_740_991

-- TOKEN_HASH_PATTERN, `/^[A-Za-z0-9_-]{43}$/`.
unfoldable pub is_base64url : ℕ → Bool
unfolding is_alphanumeric
is_base64url c = is_alphanumeric c || c == b'_' || c == b'-'

unfoldable pub matches_token_hash : Text → Bool
unfolding is_base64url every
matches_token_hash t = length t == 43 && every is_base64url t

-- A text of at most so many code units with no control character; it may be empty.
unfoldable pub is_short : ℕ → Text → Bool
is_short maximum t = leb (length t) maximum && not (contains_control_character t)

unfoldable pub is_created_at : ℕ → Bool
is_created_at n = leb n max_safe_integer && ltb 0 n

unfoldable pub has_token : Value → Value → Bool
unfolding matches_token_hash
has_token token_hash token =
    elim token_hash [ string t ↦ matches_token_hash t | _ ↦ false ]
    || elim token [ string t ↦ ltb 0 (length t) && leb (length t) max_token_length | _ ↦ false ]

-- `isStoredSession`, with the session that it accepts.
unfoldable pub check_session : Value → Value → Value → Value → Value → Value → Option StoredSession
unfolding is_short is_created_at is_unsafe has_token
check_session (string session_id) (string device) (string ip) (number created_at) token_hash token =
    if not (is_unsafe max_identifier_length session_id)
      && is_short max_device_length device
      && is_short max_ip_length ip
      && is_created_at created_at
      && has_token token_hash token
    then some (record {
      metadata = record {
        session_id = session_id;
        device = device;
        ip = ip;
        created_at = created_at;
      };
      token_hash = token_hash;
      token = token;
    })
    else none
check_session _ _ _ _ _ _ = none

unfoldable pub read_session : Value → Option StoredSession
unfolding is_object property check_session
read_session value =
    if is_object value
    then check_session (property (text "sessionId") value) (property (text "device") value)
        (property (text "ip") value) (property (text "createdAt") value)
        (property (text "tokenHash") value) (property (text "token") value)
    else none

unfoldable pub parse_session : Platform → Option Text → Option StoredSession
unfolding read_session
parse_session platform none = none
parse_session platform (some value) =
    if length value == 0 || ltb (max_token_length + 2048) (length value)
    then none
    else elim (platform.json_parse value) [ none ↦ none | some parsed ↦ read_session parsed ]

-- `session?.sessionId === field ? session : null`.
unfoldable pub in_field : Text → Option StoredSession → Option StoredSession
in_field name none = none
in_field name (some session) = if eqb session.metadata.session_id name then some session else none

unfoldable pub sessions_of : Platform → List (Text × Text) → List SessionMetadata
unfolding in_field parse_session
sessions_of platform [] = []
sessions_of platform ((name, value) ∷ entries) =
    let rest = sessions_of platform entries in
    elim (in_field name (parse_session platform (some value))) [
      | none ↦ rest
      | some session ↦ session.metadata ∷ rest
    ]

unfoldable pub find_entry : Text → List (Text × Text) → Option Text
find_entry k [] = none
find_entry k ((j, v) ∷ entries) = if eqb j k then some v else find_entry k entries

unfoldable pub or_none {ℓ} : {A : Type ℓ} → Option (List A) → List A
or_none none = []
or_none (some entries) = entries

unfoldable pub validate_metadata : SessionMetadata → Result (Unit {0})
unfolding is_short is_created_at assert_identifier
validate_metadata metadata = Pure.◌>>=◌ (assert_identifier metadata.session_id "sessionId") λ id.
    Pure.◌>>◌
      (Pure.throw_if (not (is_short max_device_length metadata.device))
        "session device must not exceed 512 characters")
      (Pure.◌>>◌
        (Pure.throw_if (not (is_short max_ip_length metadata.ip))
          "session IP must not exceed 128 characters")
        (Pure.throw_if (not (is_created_at metadata.created_at))
          "session createdAt must be a positive timestamp"))

-- What `JSON.stringify` is given in `upsert`.
unfoldable pub session_value : Platform → Text → SessionMetadata → Value
unfolding token_fingerprint
session_value platform token metadata = object (
    field (text "tokenHash") (string (token_fingerprint platform token)) (
      field (text "sessionId") (string metadata.session_id) (
        field (text "device") (string metadata.device) (
          field (text "ip") (string metadata.ip)
            (field (text "createdAt") (number metadata.created_at) end)))))

unfoldable pub default_metadata : Text → Option SessionDefaults → ℕ → SessionMetadata
default_metadata session_id none now = record {
  session_id = session_id;
  device = text "unknown";
  ip = text "unknown";
  created_at = now;
}
default_metadata session_id (some defaults) now = record {
  session_id = session_id;
  device = elim defaults.device [ none ↦ text "unknown" | some device ↦ device ];
  ip = elim defaults.ip [ none ↦ text "unknown" | some ip ↦ ip ];
  created_at = elim defaults.created_at [ none ↦ now | some created ↦ created ];
}

unfoldable pub session_token_matches : Platform → StoredSession → Text → Result Bool
unfolding truthy token_fingerprint_matches
session_token_matches platform session token =
    if truthy session.token_hash
    then token_fingerprint_matches platform session.token_hash token
    else elim session.token [
      | string stored ↦
          if length stored == 0
          then ok false
          else token_fingerprint_matches platform (string (token_fingerprint platform stored)) token
      | other_value ↦
          if truthy other_value then err (plain "The data argument is invalid") else ok false
    ]
