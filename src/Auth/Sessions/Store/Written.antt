-- ===== src/Auth/Sessions/Store/Written.antt =====
-- What `upsert` of src/auth/sessionStore.ts stores, as `tokenMatches` finds it.
use authenik8_core_beta.Common.{
  ℕ, ◌≡◌, ◌↔◌, ◌≤◌, ◌<◌, refl, Bool, true, ◌&&◌, Option, some, ◌++◌, arith, length, ltb, ◌||◌, ◌==◌,
}
use authenik8_core_beta.Common.Text.{Text, text, eqb, eqb→eq, eqb_refl}
use authenik8_core_beta.Common.Value.{string, truthy}
use authenik8_core_beta.Common.Effects.{Result, ok}
use authenik8_core_beta.Common.Effects.Pure as Pure
use authenik8_core_beta.Common.Effects.Async.{M, ◌>>=◌, ◌>>◌, lift, if_present}
use authenik8_core_beta.Common.Effects.Returns.{
  Returns, Returns-bind, Returns-pure, Returns-lift, Returns-if_present, Returns-fact,
}
use authenik8_core_beta.Auth.{
  SessionRedisClient, Platform, assert_identifier, token_fingerprint, token_fingerprint_matches,
}
use authenik8_core_beta.Auth.Refresh.Rotation.{IsDigest}
use authenik8_core_beta.Auth.Sessions.{
  SessionMetadata, matches_token_hash, validate_metadata, session_value, parse_session, in_field,
  session_token_matches,
}
use authenik8_core_beta.Auth.Sessions.Laws.{written, parse_session-session_value}
use authenik8_core_beta.Auth.Sessions.Store.{
  SessionStore, session_key, session_field, get, upsert_with, upsert, matches_session,
  token_matches,
}

lift-Returns :
    {S A B : Type 0} {P : S → Type 0} {Q : B → S → Type 0} (r : Result A) (a : A) (f : A → M S B)
    → r ≡ ok a
    → Returns P (f a) Q
    → Returns P (lift r >>= f) Q
unfolding ◌>>=◌ lift
lift-Returns r a f e returns = rw e returns

given-Returns :
    {S A B : Type 0} {P : S → Type 0} {Q : B → S → Type 0} (o : Option A) (a : A) (f : A → M S B)
    (m : M S B)
    → o ≡ some a
    → Returns P (f a) Q
    → Returns P (if_present o f m) Q
unfolding if_present
given-Returns o a f m e returns = rw e returns

valid-session_id :
    (metadata : SessionMetadata)
    → validate_metadata metadata ≡ ok tt
    → assert_identifier metadata.session_id "sessionId" ≡ ok metadata.session_id
unfolding validate_metadata assert_identifier
valid-session_id metadata h = ground (arith, h)

digest-truthy : (t : Text) → matches_token_hash t ≡ true → truthy (string t) ≡ true
unfolding matches_token_hash truthy
digest-truthy t h = ground (arith, h)

-- The answer of the comparison.
same_bytes : (platform : Platform) → IsDigest platform → Text → Text → Bool
same_bytes platform digest stored token =
    length (digest.bytes stored) == length (digest.bytes token)
    && eqb (digest.bytes stored) (digest.bytes token)

compared :
    (platform : Platform) (digest : IsDigest platform) (stored token : Text)
    → token_fingerprint_matches platform (string (platform.sha256 stored)) token
      ≡ ok (same_bytes platform digest stored token)
unfolding token_fingerprint_matches token_fingerprint same_bytes
compared platform digest stored token =
    let e = digest.bytes_lem stored in let f = digest.bytes_lem token in ground (arith, e, f)

written-matches :
    (platform : Platform) (digest : IsDigest platform) (stored token : Text)
    (metadata : SessionMetadata)
    → session_token_matches platform (written platform stored metadata) token
      ≡ ok (same_bytes platform digest stored token)
unfolding session_token_matches token_fingerprint
written-matches platform digest stored token metadata =
    rw (digest-truthy (platform.sha256 stored) (digest.pattern stored))
      (compared platform digest stored token)

same_bytes_iff :
    (platform : Platform) (digest : IsDigest platform) (stored token : Text)
    → (same_bytes platform digest stored token ≡ true)
      ↔ (token_fingerprint platform stored ≡ token_fingerprint platform token)
unfolding same_bytes token_fingerprint
same_bytes_iff platform digest stored token = (
  λ h.
      digest.bytes_inj stored token
        (eqb→eq (digest.bytes stored) (digest.bytes token) (ground (arith, h))),
  λ h.
      let same : digest.bytes stored ≡ digest.bytes token =
        cc (digest.bytes_lem stored, digest.bytes_lem token, h) in
      rw same (let e = eqb_refl (digest.bytes token) in ground (arith, e)),
)

module _ {S : Type 0} (store : SessionStore S) (redis : SessionRedisClient S)
    (hset : Text → Text → Text → M S (Unit {0})) (hget : Text → Text → M S (Option Text))
    (hashes : S → Text → Text → Option Text) where
  -- The client has hashes: HSET writes a field, HGET reads it, and EXPIRE with a time to live leaves it.
  pub record HasHashes : Type 0 where
    pub redis_lem : store.redis ≡ some redis
    pub hset_lem : redis.hset ≡ some hset
    pub hget_lem : redis.hget ≡ some hget
    pub writes :
        (key field value : Text)
        → Returns (λ s. Unit {0}) (hset key field value) (λ u s. hashes s key field ≡ some value)
    pub reads :
        (key field : Text) (held : Option Text)
        → Returns (λ s. hashes s key field ≡ held) (hget key field) (λ found s. found ≡ held)
    pub leaves :
        (expire : Text → ℕ → M S (Unit {0}))
        → redis.expire ≡ some expire
        → (key field : Text) (held : Option Text) (ttl : ℕ) → 0 < ttl
        → Returns
            (λ s. hashes s key field ≡ held)
            (expire key ttl)
            (λ u s. hashes s key field ≡ held)

  -- What `upsert` accepts, and `JSON.parse` gives back.
  pub record IsStorable (principal_id token : Text) (metadata : SessionMetadata) (ttl : ℕ)
      : Type 0 where
    pub principal_lem : assert_identifier principal_id "principalId" ≡ ok principal_id
    pub metadata_lem : validate_metadata metadata ≡ ok tt
    pub token_min : 0 < length token
    pub token_max : length token ≤ 16_384
    pub ttl_min : 0 < ttl
    pub ttl_max : ttl ≤ 2_678_400
    pub parsed :
        store.platform.json_parse
          (store.platform.json_stringify (session_value store.platform token metadata))
        ≡ some (session_value store.platform token metadata)
    pub text_min :
        0 < length (store.platform.json_stringify (session_value store.platform token metadata))
    pub text_max :
        length (store.platform.json_stringify (session_value store.platform token metadata))
        ≤ 18_432

  module _ (laws : HasHashes) (principal_id token : Text) (metadata : SessionMetadata) (ttl : ℕ)
      (storable : IsStorable principal_id token metadata ttl) where
    abbrev Stored : S → Type 0
    Stored s =
        hashes s (store.namespace ++ text ":" ++ principal_id) metadata.session_id
        ≡ some (store.platform.json_stringify (session_value store.platform token metadata))

    fingerprint_lem :
        IsDigest store.platform → matches_token_hash (token_fingerprint store.platform token) ≡ true
    unfolding token_fingerprint
    fingerprint_lem digest = digest.pattern token

    key_lem : session_key store principal_id ≡ ok (store.namespace ++ text ":" ++ principal_id)
    unfolding session_key
    key_lem = rw storable.principal_lem refl

    field_lem : session_field store metadata.session_id ≡ ok metadata.session_id
    unfolding session_field
    field_lem = valid-session_id metadata storable.metadata_lem

    token_lem :
        Pure.throw_if
          (length token == 0 || ltb 16_384 (length token))
          "session token is invalid or too large"
        ≡ ok tt
    token_lem = ground (arith, storable.token_min, storable.token_max)

    ttl_lem :
        Pure.throw_if
          (ltb ttl 1 || ltb 2_678_400 ttl)
          "session TTL must be between 1 second and 31 days"
        ≡ ok tt
    ttl_lem = ground (arith, storable.ttl_min, storable.ttl_max)

    found_lem :
        IsDigest store.platform
        → in_field metadata.session_id (
            parse_session store.platform
              (some (store.platform.json_stringify (session_value store.platform token metadata))))
          ≡ some (written store.platform token metadata)
    found_lem digest =
        parse_session-session_value store.platform token metadata _ (fingerprint_lem digest)
          storable.metadata_lem storable.parsed storable.text_min storable.text_max

    upsert-Stored :
        Returns (λ s. Unit {0}) (upsert store principal_id token metadata ttl) (λ u. Stored)
    unfolding upsert upsert_with
    upsert-Stored = given-Returns store.redis redis _ _ laws.redis_lem (
        given-Returns redis.hset hset _ _ laws.hset_lem (
          lift-Returns _ tt _ token_lem (
            lift-Returns _ tt _ storable.metadata_lem (
              lift-Returns _ tt _ ttl_lem (
                lift-Returns _ _ _ key_lem (
                  lift-Returns _ _ _ field_lem (
                    Returns-bind (λ u. Stored) _ _ (laws.writes _ _ _)
                      λ u.
                        Returns-if_present _ _ _
                          (λ expire present. laws.leaves expire present _ _ _ ttl storable.ttl_min)
                          λ absent. Returns-pure _ λ s p. p)))))))

    get-written :
        IsDigest store.platform
        → Returns Stored
            (get store principal_id metadata.session_id)
            (λ found s. found ≡ some (written store.platform token metadata))
    unfolding get
    get-written digest = given-Returns store.redis redis _ _ laws.redis_lem (
        lift-Returns _ _ _ key_lem (
          lift-Returns _ _ _ field_lem (
            given-Returns redis.hget hget _ _ laws.hget_lem (
              Returns-bind
                (λ found s.
                  found
                  ≡ some
                      (store.platform.json_stringify (session_value store.platform token metadata)))
                _ _ (laws.reads _ _ _)
                λ found.
                  Returns-fact _ (λ s e. e) λ e. Returns-pure _ λ s e'. rw e (found_lem digest)))))

    -- After upsert has stored a session, tokenMatches answers, and exactly true for the tokens with the
    -- fingerprint of the stored one.
    pub upsert-token_matches :
        IsDigest store.platform
        → (presented : Text)
        → Returns
            (λ s. Unit {0})
            (upsert store principal_id token metadata ttl
              >> token_matches store principal_id metadata.session_id presented)
            (λ b s. (b ≡ true) ↔ (
              token_fingerprint store.platform token ≡ token_fingerprint store.platform presented))
    unfolding token_matches matches_session
    upsert-token_matches digest presented =
        Returns-bind (λ u s. Stored s) _ _ upsert-Stored
          λ u.
            Returns-bind (λ found s. found ≡ some (written store.platform token metadata)) _ _
              (get-written digest)
              λ found.
                Returns-fact _ (λ s e. e)
                  λ e.
                    Returns-lift _ (same_bytes store.platform digest token presented)
                      (rw e (written-matches store.platform digest token presented metadata))
                      λ s e'. same_bytes_iff store.platform digest token presented
