-- ===== src/Auth/Jwt/Authenticate.antt =====
-- src/auth/jwtAuth.ts: `verifyActiveToken` and the middleware `authenticateJWT`.
use authenik8_core_beta.Common.{
  ℕ, String, Bool, true, false, not, ◌&&◌, Option, none, some, if◌then◌else◌, ltb, length,
}
use authenik8_core_beta.Common.Text.{Text, text, eqb}
use authenik8_core_beta.Common.Value.{Value, string, Fields, end, field}
use authenik8_core_beta.Common.Effects.Async.{M, ◌>>=◌, ◌>>◌, pure, lift, branch, if_present}
use authenik8_core_beta.Audit as Audit
use authenik8_core_beta.Audit.{AuditEventInput, AuditActor, warning, denied, access_token_rejected}
use authenik8_core_beta.Risk.{
  RiskPrincipal, human, SessionObservation, SessionRiskState, active, quarantined,
}
use authenik8_core_beta.Auth.Bearer.{bearer_token}
use authenik8_core_beta.Auth.Sessions.{StoredSession, session_token_matches}
use authenik8_core_beta.Auth.Sessions.Store as Store
use authenik8_core_beta.Auth.Jwt.{
  JwtRequest, JwtService, given_claim, user_subject, verify_token, is_quarantined_now,
}
use authenik8_core_beta.Authorization.{Request, Reply, next, response, bounded_request_string}

abbrev pub max_cookie_length : ℕ
max_cookie_length = 16_384

unfoldable pub cookie_token : Bool → Value → Option Text
cookie_token true (string token) = if ltb max_cookie_length (length token) then none else some token
cookie_token _ _ = none

-- A bearer token is never empty.
unfoldable pub choose_token : Option Text → Option Text → Option Text
unfolding eqb
choose_token none cookie = cookie
choose_token (some bearer) none = some bearer
choose_token (some bearer) (some cookie) =
    if ltb 0 (length cookie) && not (eqb bearer cookie) then none else some bearer

unfoldable pub access_principal : Text → Text → RiskPrincipal
access_principal user_id session_id = record { kind = human; id = user_id; session_id = session_id }

unfoldable pub is_quarantine : SessionRiskState → Bool
is_quarantine state = elim state.status [ active ↦ false | quarantined ↦ true ]

unfoldable pub rejected_event : JwtRequest → AuditActor → Option Text → String → AuditEventInput
unfolding bounded_request_string
rejected_event req actor session_id reason = record {
  type = access_token_rejected;
  severity = warning;
  outcome = denied;
  actor = actor;
  subject = none;
  session_id = session_id;
  tenant_id = none;
  correlation_id = bounded_request_string 128 req.request.request_id;
  metadata = field (text "reason") (string (text reason)) end;
}

-- `(req as any).user = decoded` and the mark of the request.
unfoldable pub authenticated_as : JwtRequest → Fields → Request
authenticated_as req claims = record {
  authenticated = true;
  user = some claims;
  request_id = req.request.request_id;
}

module _ {S : Type 0} (service : JwtService S) where
  unfoldable pub token_from_request : JwtRequest → Option Text
  unfolding bearer_token cookie_token choose_token
  token_from_request req =
      choose_token (bearer_token req.authorization)
        (cookie_token service.allow_cookie_auth req.cookie)

  unfoldable pub assess_session :
      RiskPrincipal → StoredSession → Option SessionObservation → M S Bool
  unfolding is_quarantine
  assess_session principal session none = pure true
  assess_session principal session (some observed) =
      if_present service.risk
        (λ risk.
          risk.assess_context principal
            (record { ip = some session.metadata.ip; device = some session.metadata.device })
            observed
          >>= λ state. pure (not (is_quarantine state)))
        (pure true)

  unfoldable pub session_matches :
      RiskPrincipal → Text → Option SessionObservation → Option StoredSession → M S Bool
  session_matches principal token observed none = pure false
  session_matches principal token observed (some session) = do
    matches ← lift (session_token_matches service.session_store.platform session token)
    branch (not matches) (pure false) (
        is_quarantined_now service principal >>= λ quarantined.
        branch quarantined (pure false) (assess_session principal session observed))

  unfoldable pub check_session_of :
      Option Text → Option Text → Text → Option SessionObservation → M S Bool
  check_session_of (some user_id) (some session_id) token observed = do
    session ← Store.get service.session_store user_id session_id
    session_matches (access_principal user_id session_id) token observed session
  check_session_of _ _ token observed = pure false

  unfoldable pub session_is_valid : Fields → Text → Option SessionObservation → M S Bool
  session_is_valid decoded token observed =
      check_session_of (given_claim "userId" decoded) (given_claim "sessionId" decoded) token
        observed

  unfoldable pub active_claims : Text → Option Fields → M S (Option Fields)
  active_claims token none = pure none
  active_claims token (some decoded) =
      if_present service.session_store.redis
        (λ redis. session_is_valid decoded token none >>= λ valid.
          pure (if valid then some decoded else none))
        (pure (some decoded))

  unfoldable pub verify_active_token : Text → M S (Option Fields)
  verify_active_token token = verify_token service token >>= λ decoded. active_claims token decoded

  unfoldable pub reject_request : JwtRequest → AuditActor → Option Text → String → ℕ → M S Reply
  reject_request req actor session_id reason status =
      service.emit (rejected_event req actor session_id reason) >> pure (response status)

  -- `this.resolveRequestContext?.(req)`.
  unfoldable pub observation_of : JwtRequest → M S (Option SessionObservation)
  observation_of req =
      if_present service.resolve_request_context
        (λ resolve. resolve req >>= λ observed. pure (some observed)) (pure none)

  unfoldable pub authenticate_session : JwtRequest → Text → Fields → M S Reply
  unfolding authenticated_as
  authenticate_session req token decoded = do
    observed ← observation_of req
    valid ← session_is_valid decoded token observed
    branch (not valid)
        (reject_request req (record { type = Audit.user; id = given_claim "userId" decoded })
          (given_claim "sessionId" decoded) "inactive_or_quarantined_session" 403)
        (pure (next (authenticated_as req decoded)))

  unfoldable pub authenticate_decoded : JwtRequest → Text → Option Fields → M S Reply
  authenticate_decoded req token none =
      reject_request req (user_subject none) none "invalid_or_expired" 403
  authenticate_decoded req token (some decoded) =
      if_present service.session_store.redis (λ redis. authenticate_session req token decoded)
        (pure (next (authenticated_as req decoded)))

  unfoldable pub authenticate_token : JwtRequest → Option Text → M S Reply
  authenticate_token req none = reject_request req (user_subject none) none "missing" 401
  authenticate_token req (some token) =
      branch (not (ltb 0 (length token)))
        (reject_request req (user_subject none) none "missing" 401)
        (verify_token service token >>= λ decoded. authenticate_decoded req token decoded)

  unfoldable pub authenticate_jwt : JwtRequest → M S Reply
  unfolding token_from_request
  authenticate_jwt req = authenticate_token req (token_from_request req)
