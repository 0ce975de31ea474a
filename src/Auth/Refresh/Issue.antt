-- ===== src/Auth/Refresh/Issue.antt =====
-- src/auth/refreshService.ts: `generateRefreshToken` and `revokeAllSessions`.
pub mod Laws
use authenik8_core_beta.Common.{
  ℕ, Bool, true, false, not, ◌||◌, Option, none, some, List, [], ◌∷◌, ◌++◌, if◌then◌else◌, ltb,
  ◌==◌, length, map, ◌-◌, suc, zero,
}
use authenik8_core_beta.Common.Text.{Text, text, distinct}
use authenik8_core_beta.Common.Value.{Value, undefined, string}
use authenik8_core_beta.Common.Effects.{Error, Result, ok, err, plain}
use authenik8_core_beta.Common.Effects.Async.{
  M, ◌>>=◌, ◌>>◌, pure, throw, lift, branch, try_catch, if_present,
}
use authenik8_core_beta.Common.Effects.Pure as Pure
use authenik8_core_beta.Audit.{info, warning, refresh_token_issued, session_revoked_all}
use authenik8_core_beta.Auth.{token_fingerprint, assert_identifier}
use authenik8_core_beta.Auth.Sessions.{or_none}
use authenik8_core_beta.Auth.Sessions.Store as Store
use authenik8_core_beta.Auth.Refresh.{
  RefreshPayload, RefreshClaims, RefreshService, max_fallback_session_ids,
  validate_refresh_identifier, is_refresh_email, subject_event, refresh_key,
  refresh_family_index_key, sign_refresh_token, revoke_refresh_family, track_refresh_family,
}

-- The email of the payload of `generateRefreshToken`.
unfoldable pub issued_email : Value → Result Text
unfolding is_refresh_email
issued_email (string email) =
    if is_refresh_email (string email)
    then ok email
    else err (plain "generateRefreshToken: payload.email is invalid")
issued_email _ = err (plain "generateRefreshToken: payload.email is invalid")

abbrev pub revocation_batch_size : ℕ
revocation_batch_size = 100

-- `Promise.all` of calls that the store answers in the order in which they are started: all of them
-- are made, and the first error is that of the whole.
unfoldable pub run_all : {S A : Type 0} → (A → M S (Unit {0})) → List A → M S (Unit {0})
run_all call [] = pure tt
run_all call (a ∷ rest) =
    try_catch (call a) (λ error. try_catch (run_all call rest) (λ other. pure tt) >> throw error)
    >> run_all call rest

-- The deletions of `revokeAllSessions`, one batch after the other.
unfoldable pub run_batches : {S A : Type 0} → (A → M S (Unit {0})) → List (List A) → M S (Unit {0})
run_batches call [] = pure tt
run_batches call (batch ∷ batches) = run_all call batch >> run_batches call batches

-- The slices of `size` elements; the first has room for fewer. An empty slice may end them.
unfoldable pub push : {A : Type 0} → A → List (List A) → List (List A)
push a [] = (a ∷ []) ∷ []
push a (batch ∷ batches) = (a ∷ batch) ∷ batches

unfoldable pub chunks_from : {A : Type 0} → ℕ → ℕ → List A → List (List A)
chunks_from size room [] = [] ∷ []
chunks_from size zero (a ∷ rest) = [] ∷ push a (chunks_from size (size - 1) rest)
chunks_from size (suc room) (a ∷ rest) = push a (chunks_from size room rest)

unfoldable pub chunks : {A : Type 0} → ℕ → List A → List (List A)
unfolding chunks_from push
chunks size all = chunks_from size size all

module _ {S : Type 0} (service : RefreshService S) where
  unfoldable pub issued_session_id : Value → M S Text
  issued_session_id undefined = service.random_uuid
  issued_session_id v =
      lift (validate_refresh_identifier v "generateRefreshToken: payload.sessionId")

  unfoldable pub store_issued : RefreshPayload → Text → M S (Unit {0})
  store_issued payload token =
      if_present service.token_store.set
        (λ set.
          set (refresh_key service payload.user_id payload.session_id)
            (token_fingerprint service.platform token) service.refresh_token_ttl
          >> try_catch (track_refresh_family service payload.user_id payload.session_id) λ error.
            if_present service.token_store.del
              (λ del. del (refresh_key service payload.user_id payload.session_id)) (pure tt)
            >> throw error)
        (pure tt)

  unfoldable pub issue : RefreshPayload → M S Text
  issue payload = do
    token ← sign_refresh_token service payload
    store_issued payload token
    try_catch
        (service.emit
          (subject_event refresh_token_issued info payload.user_id (some payload.session_id)))
        λ error. revoke_refresh_family service payload.user_id payload.session_id >> throw error
    pure token

  unfoldable pub generate_refresh_token : RefreshClaims → M S Text
  generate_refresh_token claims = do
    user_id ←
        lift (validate_refresh_identifier claims.user_id "generateRefreshToken: payload.userId")
    email ← lift (issued_email claims.email)
    session_id ← issued_session_id claims.session_id
    issue (record { user_id = user_id; email = email; session_id = session_id })

  unfoldable pub delete_families : Text → List Text → M S (Unit {0})
  delete_families user_id session_ids =
      if_present service.token_store.del
        (λ del.
          run_batches (λ session_id. del (refresh_key service user_id session_id))
            (chunks revocation_batch_size session_ids))
        (pure tt)

  unfoldable pub indexed_families : Text → M S (List Text)
  indexed_families user_id =
      if_present service.redis.hgetall
        (λ hgetall. hgetall (refresh_family_index_key service user_id) >>= λ families.
          pure (map (λ entry. entry.0) (or_none families)))
        (pure [])

  unfoldable pub delete_index : Text → M S (Unit {0})
  delete_index user_id =
      if_present service.redis.del (λ del. del (refresh_family_index_key service user_id)) (pure tt)

  unfoldable pub revoke_all_sessions : Text → List Text → M S (Unit {0})
  revoke_all_sessions user_id fallback = do
    valid_user ← lift (assert_identifier user_id "userId")
    lift (
        Pure.throw_if (ltb max_fallback_session_ids (length fallback))
          "fallbackSessionIds must not contain more than 10000 entries")
    valid ← lift (Pure.traverse (λ id. assert_identifier id "sessionId") fallback)
    indexed ← indexed_families valid_user
    checked ← lift (
        Pure.traverse (λ id. assert_identifier id "indexed sessionId")
          (distinct (valid ++ indexed)))
    delete_families valid_user (distinct (valid ++ indexed))
    delete_index valid_user
    Store.revoke_all service.session_store valid_user
    service.emit (subject_event session_revoked_all warning valid_user none)
