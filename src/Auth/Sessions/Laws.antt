-- ===== src/Auth/Sessions/Laws.antt =====
-- Stored sessions of src/auth/sessionStore.ts: what `upsert` writes is read back.
use authenik8_core_beta.Common.{◌≡◌, refl, ◌<◌, ◌≤◌, true, some, arith, length}
use authenik8_core_beta.Common.Text.{Text, eqb, eqb_refl}
use authenik8_core_beta.Common.Value.{undefined, string, number}
use authenik8_core_beta.Common.Effects.{ok}
use authenik8_core_beta.Auth.{Platform, token_fingerprint, assert_identifier}
use authenik8_core_beta.Auth.Sessions.{
  SessionMetadata, StoredSession, matches_token_hash, has_token, check_session, read_session,
  parse_session, in_field, validate_metadata, session_value,
}

-- The session that `upsert` has written.
abbrev pub written : Platform → Text → SessionMetadata → StoredSession
written platform token metadata = record {
  metadata = metadata;
  token_hash = string (token_fingerprint platform token);
  token = undefined;
}

check_session-written :
    (platform : Platform) (token : Text) (metadata : SessionMetadata)
    → matches_token_hash (token_fingerprint platform token) ≡ true
    → validate_metadata metadata ≡ ok tt
    → check_session
        (string metadata.session_id)
        (string metadata.device)
        (string metadata.ip)
        (number metadata.created_at)
        (string (token_fingerprint platform token))
        undefined
      ≡ some (written platform token metadata)
unfolding check_session validate_metadata assert_identifier has_token
check_session-written platform token metadata digest valid = ground (arith, digest, valid)

read_session-value :
    (platform : Platform) (token : Text) (metadata : SessionMetadata)
    → read_session (session_value platform token metadata)
      ≡ check_session
          (string metadata.session_id)
          (string metadata.device)
          (string metadata.ip)
          (number metadata.created_at)
          (string (token_fingerprint platform token))
          undefined
unfolding read_session session_value eqb
read_session-value platform token metadata = refl

-- A session that `upsert` writes is found again under its identifier, with the fingerprint of the
-- token: the metadata is valid, the fingerprint is a digest, `JSON.parse` undoes `JSON.stringify` on
-- what is written, and the text is not too long.
pub parse_session-session_value :
    (platform : Platform) (token : Text) (metadata : SessionMetadata) (stored : Text)
    → matches_token_hash (token_fingerprint platform token) ≡ true
    → validate_metadata metadata ≡ ok tt
    → platform.json_parse stored ≡ some (session_value platform token metadata)
    → 0 < length stored
    → length stored ≤ 18_432
    → in_field metadata.session_id (parse_session platform (some stored))
      ≡ some (written platform token metadata)
unfolding in_field parse_session
parse_session-session_value platform token metadata stored digest valid parsed nonempty short =
    ground (
      arith,
      parsed,
      read_session-value platform token metadata,
      check_session-written platform token metadata digest valid,
      eqb_refl metadata.session_id,
    )
