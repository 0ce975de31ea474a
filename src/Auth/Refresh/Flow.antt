-- ===== src/Auth/Refresh/Flow.antt =====
-- src/auth/refreshService.ts: `refresh`, from the rotation of a token up, and `revokeSession`.
use authenik8_core_beta.Common.{Bool, true, not, Option, none, some, ◌==◌, length}
use authenik8_core_beta.Common.Text.{Text}
use authenik8_core_beta.Common.Effects.{plain, missing_token, invalid_token}
use authenik8_core_beta.Common.Effects.Async.{
  M, ◌>>=◌, ◌>>◌, pure, throw, lift, branch, try_catch, try_finally, if_present,
}
use authenik8_core_beta.Audit.{
  info, warning, critical, success, denied, refresh_token_rotated, refresh_token_replay_detected,
  session_revoked,
}
use authenik8_core_beta.Risk.{refresh_replay}
use authenik8_core_beta.Auth.{token_fingerprint, assert_identifier, acquire, release}
use authenik8_core_beta.Auth.Refresh.{
  RefreshPayload, RefreshResult, RefreshService, refresh_lock_ttl_ms, refresh_token_matches,
  refresh_principal, refresh_signal, actor_event, subject_event, refresh_key, lock_key,
  sign_refresh_token, verify_refresh_token, revoke_refresh_family, report_risk,
  report_concurrent_refresh,
}

module _ {S : Type 0} (service : RefreshService S) where
  unfoldable pub rotate_token_if_enabled : Text → Text → RefreshPayload → M S (Option Text)
  rotate_token_if_enabled key stored decoded =
      branch (not service.rotate_refresh_tokens) (pure none) (
        if_present service.token_store.compare_and_set
          (λ compare_and_set. do
            new_token ← sign_refresh_token service decoded
            rotated ←
                compare_and_set key stored (token_fingerprint service.platform new_token)
                  service.refresh_token_ttl
            branch (not rotated)
                (try_finally (report_concurrent_refresh service decoded)
                    (revoke_refresh_family service decoded.user_id decoded.session_id)
                  >> throw (invalid_token "Concurrent refresh detected"))
                (pure (some new_token)))
          (throw (plain "TokenStore must implement compareAndSet for atomic refresh rotation")))

  -- What follows a stored token that does not match.
  unfoldable pub reject_replay : RefreshPayload → M S RefreshResult
  reject_replay decoded = do
    try_finally
        (report_risk service (refresh_signal refresh_replay decoded)
          >> service.emit (actor_event refresh_token_replay_detected critical denied decoded))
        (revoke_refresh_family service decoded.user_id decoded.session_id)
    throw (invalid_token "Invalid refresh token")

  unfoldable pub sign_access : RefreshPayload → M S Text
  sign_access decoded =
      try_catch
        (do
          access_token ← service.access_token_signer decoded
          service.emit (actor_event refresh_token_rotated info success decoded)
          pure access_token)
        λ error. revoke_refresh_family service decoded.user_id decoded.session_id >> throw error

  -- `newRefreshToken ?? refreshToken`.
  unfoldable pub or_presented : Option Text → Text → Text
  or_presented none presented = presented
  or_presented (some new_token) presented = new_token

  unfoldable pub issue_refreshed : RefreshPayload → Text → Text → Text → M S RefreshResult
  issue_refreshed decoded key stored presented = do
    new_token ← rotate_token_if_enabled key stored decoded
    access_token ← sign_access decoded
    pure (record { access_token = access_token; refresh_token = or_presented new_token presented })

  -- A match has a stored text.
  unfoldable pub refresh_matched :
      RefreshPayload → Text → Option Text → Text → Bool → M S RefreshResult
  refresh_matched decoded key (some stored) presented true =
      issue_refreshed decoded key stored presented
  refresh_matched decoded key _ presented _ = reject_replay decoded

  -- The body under the lock.
  unfoldable pub refresh_locked : RefreshPayload → Text → M S RefreshResult
  refresh_locked decoded presented = do
    let key = refresh_key service decoded.user_id decoded.session_id
    stored ← service.token_store.get key
    matches ← lift (refresh_token_matches service.platform stored presented)
    refresh_matched decoded key stored presented matches

  unfoldable pub refresh_with_lock : RefreshPayload → Text → Option Text → M S RefreshResult
  refresh_with_lock decoded presented none =
      report_concurrent_refresh service decoded
      >> throw (invalid_token "Concurrent refresh detected")
  refresh_with_lock decoded presented (some lock_value) =
      try_finally (refresh_locked decoded presented)
        (release service.lock (lock_key service decoded.user_id decoded.session_id) lock_value)

  unfoldable pub refuse_quarantined : RefreshPayload → M S (Unit {0})
  refuse_quarantined decoded =
      if_present service.risk
        (λ risk. risk.quarantined_now (refresh_principal decoded) >>= λ quarantined.
          branch quarantined (throw (invalid_token "Session quarantined")) (pure tt))
        (pure tt)

  unfoldable pub refresh_decoded : RefreshPayload → Text → M S RefreshResult
  refresh_decoded decoded presented = do
    refuse_quarantined decoded
    lock_value ←
        acquire service.lock service.random_uuid
          (lock_key service decoded.user_id decoded.session_id) refresh_lock_ttl_ms
    refresh_with_lock decoded presented lock_value

  -- `refresh`, where an absent token is an empty one.
  unfoldable pub refresh : Text → M S RefreshResult
  refresh presented =
      branch (length presented == 0) (throw missing_token)
        (verify_refresh_token service presented >>= λ decoded. refresh_decoded decoded presented)

  unfoldable pub revoke_session : Text → Text → M S (Unit {0})
  revoke_session user_id session_id = do
    valid_user ← lift (assert_identifier user_id "userId")
    valid_session ← lift (assert_identifier session_id "sessionId")
    revoke_refresh_family service valid_user valid_session
    service.emit (subject_event session_revoked warning valid_user (some valid_session))
