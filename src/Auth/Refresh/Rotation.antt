-- ===== src/Auth/Refresh/Rotation.antt =====
-- Rotation in src/auth/refreshService.ts: a refresh token is used once.
use authenik8_core_beta.Common.{
  ℕ, ◌≡◌, ◌≢◌, refl, Bool, true, false, Option, none, some, List, arith,
}
use authenik8_core_beta.Common.Text.{Text, eqb→eq}
use authenik8_core_beta.Common.Effects.{ok}
use authenik8_core_beta.Common.Effects.Hoare.{Yields}
use authenik8_core_beta.Common.Effects.Triples.{
  Ensures, Ensures-bind, Ensures-lift, Ensures-pure, Ensures-throw, Ensures-branch,
  Ensures-if_present, Ensures-kept, Ensures-catch, Ensures-then,
}
use authenik8_core_beta.Common.Value.{string}
use authenik8_core_beta.Auth.Sessions.{matches_token_hash}
use authenik8_core_beta.Auth.{Platform, token_fingerprint_matches, token_fingerprint}
use authenik8_core_beta.Auth.Refresh.{
  RefreshPayload, RefreshService, RefreshResult, expected_fingerprint, refresh_token_matches,
  refresh_key, verify_refresh_token,
}
use authenik8_core_beta.Auth.Refresh.Flow.{
  rotate_token_if_enabled, sign_access, or_presented, issue_refreshed, refresh_matched,
  refresh_locked, refresh,
}
use authenik8_core_beta.Auth.Refresh.Laws.{
  IsTokenStore, Entry, Entry-stable, reject_replay-refuses, refresh-Ensures, refresh-replayed,
}

-- What the code relies on of SHA-256 in base64url: 43 characters of its alphabet, which `Buffer.from`
-- tells apart.
pub record IsDigest (platform : Platform) : Type 0 where
  pub pattern : (t : Text) → matches_token_hash (platform.sha256 t) ≡ true
  pub bytes : Text → List ℕ
  pub bytes_lem : (t : Text) → platform.buffer_from (string (platform.sha256 t)) ≡ ok (bytes t)
  pub bytes_inj : (t u : Text) → bytes t ≡ bytes u → platform.sha256 t ≡ platform.sha256 u

fingerprint-mismatch :
    (platform : Platform)
    → IsDigest platform
    → (token presented : Text)
    → token_fingerprint platform token ≢ token_fingerprint platform presented
    → refresh_token_matches platform (some (token_fingerprint platform token)) presented ≢ ok true
unfolding token_fingerprint refresh_token_matches expected_fingerprint token_fingerprint_matches
fingerprint-mismatch platform digest token presented different h = different (
    digest.bytes_inj token presented (
      eqb→eq _ _ (
        ground
          (arith, h, digest.pattern token, digest.bytes_lem token, digest.bytes_lem presented))))

module _ {S : Type 0} (service : RefreshService S) (stored : S → Text → Option Text)
    (laws : IsTokenStore service stored) where
  sign_access-Entry :
      (decoded : RefreshPayload) (key : Text) (value : Option Text)
      → Ensures
          (Entry service stored key value)
          (sign_access service decoded)
          (λ token. Entry service stored key value)
  unfolding sign_access
  sign_access-Entry decoded key value =
      Ensures-catch _ _
        (Ensures-bind (λ token. Entry service stored key value) _ _
          (Ensures-kept _ (laws.access _) (Entry-stable service stored key value))
          λ token.
            Ensures-bind (λ u. Entry service stored key value) _ _
              (Ensures-kept _ (laws.emit _) (Entry-stable service stored key value))
              λ u. Ensures-pure _ λ s e. e)
        λ e. Ensures-then _ _ λ u. Ensures-throw _

  -- The new token, with the entry that stands for it.
  abbrev Rotated : Text → Option Text → S → Type 0
  Rotated key new_token s =
      (t : Text) × (new_token ≡ some t)
      × (stored s key ≡ some (token_fingerprint service.platform t))

  rotate_token_if_enabled-Rotated :
      {P : S → Type 0} (key expected : Text) (decoded : RefreshPayload)
      → service.rotate_refresh_tokens ≡ true
      → Ensures P (rotate_token_if_enabled service key expected decoded) (Rotated key)
  unfolding rotate_token_if_enabled
  rotate_token_if_enabled-Rotated key expected decoded rotate =
      Ensures-branch _ _ _ (λ h. absurd (ground (arith, rotate, h)))
        λ h.
          Ensures-if_present _ _ _
            (λ cas present. Ensures-then _ _ λ token.
              Ensures-bind
                (λ rotated s.
                  rotated ≡ true → stored s key ≡ some (token_fingerprint service.platform token))
                _ _
                (record {
                  holds = λ s p rotated s' run e.
                      (laws.token_store.compare_and_set cas present key expected
                        (token_fingerprint service.platform token) service.refresh_token_ttl s s'
                        (cc (e, run))).1;
                })
                λ rotated.
                  Ensures-branch _ _ _ (λ k. Ensures-then _ _ λ u. Ensures-throw _)
                    λ k. Ensures-pure _ λ s e. (token, refl, e (ground (arith, k))))
            λ absent. Ensures-throw _

  issue_refreshed-Entry :
      {P : S → Type 0} (key expected : Text) (decoded : RefreshPayload) (presented : Text)
      → service.rotate_refresh_tokens ≡ true
      → Ensures P (issue_refreshed service decoded key expected presented) (λ r.
        Entry service stored key (some (token_fingerprint service.platform r.refresh_token)))
  unfolding issue_refreshed or_presented
  issue_refreshed-Entry key expected decoded presented rotate =
      Ensures-bind (Rotated key) _ _ (rotate_token_if_enabled-Rotated key expected decoded rotate)
        λ new_token.
          Ensures-bind (λ access_token. Rotated key new_token) _ _ (sign_access-Rotated new_token)
            λ access_token. Ensures-pure _ λ s (t, e, entry). rw e entry
    where
      sign_access-Rotated :
          (new_token : Option Text)
          → Ensures
              (Rotated key new_token)
              (sign_access service decoded)
              (λ token. Rotated key new_token)
      sign_access-Rotated new_token = record {
        holds = λ s (t, e, entry) token s' run.
            (t, e, (sign_access-Entry decoded key _).holds s entry token s' run);
      }

  refresh_matched-Entry :
      {P : S → Type 0} (decoded : RefreshPayload) (key : Text) (found : Option Text)
      (presented : Text) (matches : Bool)
      → service.rotate_refresh_tokens ≡ true
      → Ensures P (refresh_matched service decoded key found presented matches) (λ r.
        Entry service stored key (some (token_fingerprint service.platform r.refresh_token)))
  unfolding refresh_matched
  refresh_matched-Entry decoded key none presented matches rotate =
      reject_replay-refuses service stored laws decoded
  refresh_matched-Entry decoded key (some t) presented false rotate =
      reject_replay-refuses service stored laws decoded
  refresh_matched-Entry decoded key (some t) presented true rotate =
      issue_refreshed-Entry key t decoded presented rotate

  refresh_locked-Entry :
      {P : S → Type 0} (decoded : RefreshPayload) (presented : Text)
      → service.rotate_refresh_tokens ≡ true
      → Ensures P (refresh_locked service decoded presented) (λ r.
        Entry service stored
          (refresh_key service decoded.user_id decoded.session_id)
          (some (token_fingerprint service.platform r.refresh_token)))
  unfolding refresh_locked
  refresh_locked-Entry decoded presented rotate = Ensures-then _ _ λ found.
      Ensures-lift _ _ λ matches h. refresh_matched-Entry decoded _ found presented matches rotate

  -- With rotation, a refresh that returns has replaced the entry of the session. Under
  -- `IsTokenStore`, where the verified token is that of the session `decoded`, what it leaves under
  -- the key of that session is the fingerprint of the token that it returns.
  pub refresh-rotated :
      (decoded : RefreshPayload) (presented : Text) (value : Option Text)
      → Yields (λ d. d ≡ decoded) (verify_refresh_token service presented)
      → service.rotate_refresh_tokens ≡ true
      → Ensures
          (Entry service stored (refresh_key service decoded.user_id decoded.session_id) value)
          (refresh service presented)
          (λ r.
            Entry service stored
              (refresh_key service decoded.user_id decoded.session_id)
              (some (token_fingerprint service.platform r.refresh_token)))
  refresh-rotated decoded presented value verified rotate =
      refresh-Ensures service stored laws decoded presented value verified
        (λ r s t same q. Entry-stable service stored _ _ s t same q)
        (refresh_locked-Entry decoded presented rotate)

  -- With rotation, a refresh token is used once. The conditions are those of `IsTokenStore` and
  -- `IsDigest`, and that the presented token, where it is verified, is that of the session `decoded`.
  -- If a refresh with it has returned, and the entry of the session has not changed since (in `t`),
  -- a second refresh with it does not return, provided that the presented token and the one that the
  -- first refresh returned have different fingerprints.
  pub refresh-once :
      (decoded : RefreshPayload) (presented : Text) (value : Option Text)
      → IsDigest service.platform
      → Yields (λ d. d ≡ decoded) (verify_refresh_token service presented)
      → service.rotate_refresh_tokens ≡ true
      → (s s' : S) (r : RefreshResult)
      → stored s (refresh_key service decoded.user_id decoded.session_id) ≡ value
      → refresh service presented s ≡ (ok r, s')
      → token_fingerprint service.platform r.refresh_token
        ≢ token_fingerprint service.platform presented
      → (t t' : S) (r' : RefreshResult)
      → stored t (refresh_key service decoded.user_id decoded.session_id)
        ≡ stored s' (refresh_key service decoded.user_id decoded.session_id)
      → refresh service presented t ≢ (ok r', t')
  refresh-once decoded presented value digest verified rotate s s' r entry first different t t' r'
        same second =
      (refresh-replayed service stored laws decoded presented _ verified
          (fingerprint-mismatch service.platform digest r.refresh_token presented different)).holds
        t
        (cc (
          same,
          (refresh-rotated decoded presented value verified rotate).holds s entry r s' first,
        ))
        r' t' second
