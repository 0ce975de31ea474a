-- ===== src/Auth/Jwt/Laws.antt =====
-- Whom the middleware `authenticateJWT` of src/auth/jwtAuth.ts lets through.
use authenik8_core_beta.Common.{
  ℕ, ◌≡◌, ◌≢◌, refl, sym, ◌∙◌, ◌⊎◌, inl, inr, Bool, true, false, Option, none, some, arith, String,
}
use authenik8_core_beta.Common.Text.{Text}
use authenik8_core_beta.Common.Value.{Fields}
use authenik8_core_beta.Common.Effects.{ok}
use authenik8_core_beta.Common.Effects.Hoare.{
  Yields, Yields-then, Yields-bind, Yields-pure, Yields-branch, Yields-lift, Yields-catch,
  Yields-weaken, Yields-any, Yields-if_present,
}
use authenik8_core_beta.Audit.{AuditActor}
use authenik8_core_beta.Risk.{RiskPrincipal, SessionObservation}
use authenik8_core_beta.Auth.Sessions.{StoredSession, session_token_matches}
use authenik8_core_beta.Auth.Sessions.Store as Store
use authenik8_core_beta.Auth.Jwk.{access}
use authenik8_core_beta.Auth.Jwk.KeyRing.{has_token_use}
use authenik8_core_beta.Auth.Jwk.Laws.{verify_jwt-use}
use authenik8_core_beta.Auth.Jwt.{
  JwtRequest, JwtService, given_claim, validate_access_claims, verify_token, is_quarantined_now,
}
use authenik8_core_beta.Auth.Jwt.Authenticate.{
  access_principal, authenticated_as, session_matches, check_session_of, session_is_valid,
  reject_request, authenticate_session, authenticate_decoded, authenticate_token, authenticate_jwt,
  token_from_request,
}
use authenik8_core_beta.Authorization.{Reply, next, response}

-- Claims that a verified access token may have.
abbrev pub IsAccess : Fields → Type 0
IsAccess claims = (has_token_use access claims ≡ true) × (validate_access_claims claims ≡ ok tt)

module _ {S : Type 0} (service : JwtService S) (sessions : Text → Text → Option StoredSession)
    (quarantine : RiskPrincipal → Bool) where
  -- The session store holds these sessions, and the risk service these quarantines.
  pub record HasSessions : Type 0 where
    pub get :
        (user_id session_id : Text)
        → Yields
            (λ found. found ≡ sessions user_id session_id)
            (Store.get service.session_store user_id session_id)
    pub quarantined :
        (principal : RiskPrincipal)
        → Yields (λ answer. answer ≡ quarantine principal) (is_quarantined_now service principal)

  -- The claims name a stored session that is not in quarantine and whose token this is.
  abbrev pub IsActive : Text → Fields → Type 0
  IsActive token claims =
      (user_id : Text) × (session_id : Text) × (session : StoredSession) × (given_claim "userId"
          claims
        ≡ some user_id)
      × (given_claim "sessionId" claims ≡ some session_id)
      × (sessions user_id session_id ≡ some session)
      × (session_token_matches service.session_store.platform session token ≡ ok true)
      × (quarantine (access_principal user_id session_id) ≡ false)

  -- How the middleware ends for the token of the request: it lets it through with the claims of the
  -- token, marked, or answers 401 or 403.
  abbrev pub IsAuthenticated : Option Text → Reply → Type 0
  IsAuthenticated presented (response status) = (status ≡ 401) ⊎ (status ≡ 403)
  IsAuthenticated presented (next req) =
      (token : Text) × (claims : Fields) × (presented ≡ some token)
      × (req.authenticated ≡ true)
      × (req.user ≡ some claims)
      × IsAccess claims
      × (service.session_store.redis ≢ none → IsActive token claims)

  module _ (laws : HasSessions) where
    session_matches-IsActive :
        (user_id session_id token : Text) (observed : Option SessionObservation)
        (found : Option StoredSession)
        → Yields
            (λ valid.
              valid ≡ true
              → (session : StoredSession) × (found ≡ some session)
                × (session_token_matches service.session_store.platform session token ≡ ok true)
                × (quarantine (access_principal user_id session_id) ≡ false))
            (session_matches service (access_principal user_id session_id) token observed found)
    unfolding session_matches
    session_matches-IsActive user_id session_id token observed none = Yields-pure _ λ h. cc
    session_matches-IsActive user_id session_id token observed (some session) =
        Yields-lift _ _ λ matches e.
          Yields-branch _ _ _ (λ k. Yields-pure _ λ h. cc)
            λ k. Yields-bind _ _ _ (laws.quarantined _) λ answer q.
              Yields-branch _ _ _ (λ l. Yields-pure _ λ h. cc)
                λ l.
                  Yields-any _
                    λ valid h. (session, refl, ground (arith, e, k), ground (arith, q, l))

    check_session_of-IsActive :
        (claims : Fields) (user session : Option Text) (token : Text)
        (observed : Option SessionObservation)
        → given_claim "userId" claims ≡ user
        → given_claim "sessionId" claims ≡ session
        → Yields
            (λ valid. valid ≡ true → IsActive token claims)
            (check_session_of service user session token observed)
    unfolding check_session_of
    check_session_of-IsActive claims none session token observed u s = Yields-pure _ λ h. cc
    check_session_of-IsActive claims (some user_id) none token observed u s = Yields-pure _ λ h. cc
    check_session_of-IsActive claims (some user_id) (some session_id) token observed u s =
        Yields-bind _ _ _ (laws.get user_id session_id) λ found g.
          Yields-weaken
            (λ valid active h.
              let (session, f, m, q) = active h in
              (user_id, session_id, session, u, s, sym g ∙ f, m, q))
            (session_matches-IsActive user_id session_id token observed found)

    verify_token-IsAccess :
        (token : Text)
        → Yields
            (λ found. (claims : Fields) → found ≡ some claims → IsAccess claims)
            (verify_token service token)
    unfolding verify_token
    verify_token-IsAccess token =
        Yields-catch _ _
          (Yields-bind _ _ _ (verify_jwt-use service.jose service.ring token access) λ payload used.
            Yields-lift _ _ λ u valid.
              Yields-pure _ λ claims h. (ground (arith, used, h), ground (arith, valid, h)))
          λ error. Yields-pure _ λ claims h. cc

    reject-IsAuthenticated :
        (presented : Option Text) (req : JwtRequest) (actor : AuditActor) (session_id : Option Text)
        (reason : String) (status : ℕ)
        → (status ≡ 401) ⊎ (status ≡ 403)
        → Yields
            (IsAuthenticated presented)
            (reject_request service req actor session_id reason status)
    unfolding reject_request
    reject-IsAuthenticated presented req actor session_id reason status h =
        Yields-then _ _ λ u. Yields-pure _ h

    authenticate_session-IsAuthenticated :
        (req : JwtRequest) (token : Text) (claims : Fields)
        → IsAccess claims
        → Yields (IsAuthenticated (some token)) (authenticate_session service req token claims)
    unfolding authenticate_session session_is_valid authenticated_as
    authenticate_session-IsAuthenticated req token claims granted = Yields-then _ _ λ observed.
        Yields-bind _ _ _ (check_session_of-IsActive claims _ _ token observed refl refl)
          λ valid active.
            Yields-branch _ _ _ (λ k. reject-IsAuthenticated (some token) req _ _ _ 403 (inr refl))
              λ k.
                Yields-pure _
                  (token, claims, refl, refl, refl, granted, λ present. active (ground (arith, k)))

    authenticate_decoded-IsAuthenticated :
        (req : JwtRequest) (token : Text) (found : Option Fields)
        → ((claims : Fields) → found ≡ some claims → IsAccess claims)
        → Yields (IsAuthenticated (some token)) (authenticate_decoded service req token found)
    unfolding authenticate_decoded authenticated_as
    authenticate_decoded-IsAuthenticated req token none granted =
        reject-IsAuthenticated (some token) req _ _ _ 403 (inr refl)
    authenticate_decoded-IsAuthenticated req token (some claims) granted =
        Yields-if_present service.session_store.redis _ _
          (λ redis present.
            authenticate_session-IsAuthenticated req token claims (granted claims refl))
          λ absent. Yields-pure _ (
            token,
            claims,
            refl,
            refl,
            refl,
            granted claims refl,
            λ present. absurd (present absent),
          )

    authenticate_token-IsAuthenticated :
        (req : JwtRequest) (presented : Option Text)
        → Yields (IsAuthenticated presented) (authenticate_token service req presented)
    unfolding authenticate_token
    authenticate_token-IsAuthenticated req none =
        reject-IsAuthenticated none req _ _ _ 401 (inl refl)
    authenticate_token-IsAuthenticated req (some token) =
        Yields-branch _ _ _ (λ k. reject-IsAuthenticated (some token) req _ _ _ 401 (inl refl))
          λ k.
            Yields-bind _ _ _ (verify_token-IsAccess token)
              λ found granted. authenticate_decoded-IsAuthenticated req token found granted

    -- Where the session store holds certain sessions and the risk service certain quarantines, the
    -- middleware lets a request through only for a token of the use "access" with valid claims and, if
    -- there is a Redis client, of a stored session that is not in quarantine and that has this very
    -- token; it marks the request and gives it these claims. All others get 401 or 403.
    pub authenticate_jwt-IsAuthenticated :
        (req : JwtRequest)
        → Yields (IsAuthenticated (token_from_request service req)) (authenticate_jwt service req)
    unfolding authenticate_jwt
    authenticate_jwt-IsAuthenticated req =
        authenticate_token-IsAuthenticated req (token_from_request service req)
