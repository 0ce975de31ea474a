-- ===== src/Authorization/Laws.antt =====
-- Who passes the checks of src/authorization/authorizationService.ts.
use authenik8_core_beta.Common.{
  or_cases, ◌≡◌, ◌↔◌, refl, ◌⊎◌, inl, inr, Bool, true, false, Option, none, some, List, [], ◌∷◌,
  arith, any, every, length, ◌<◌, if◌then◌else◌,
}
use authenik8_core_beta.Common.Text.{Text, includes, Has, eqb_iff, every-Has}
use authenik8_core_beta.Common.Value.{Value, string, Fields, is_unsafe}
use authenik8_core_beta.Authorization.Claims.{
  HasRole, HasPermission, HasScope, BelongsTo, granted_roles_iff, granted_permissions_iff,
  granted_scopes_iff, tenant_ids_iff,
}
use authenik8_core_beta.Common.Effects.Async.{M}
use authenik8_core_beta.Common.Effects.Hoare.{
  Yields, Yields-then, Yields-bind, Yields-pure, Yields-branch, Yields-if_present,
}
use authenik8_core_beta.Common.Effects.Returns.{Returns}
use authenik8_core_beta.Authorization.{
  Request, Reply, next, response, RequirementKind, role, permission, scope, tenant, granted_roles,
  granted_permissions, granted_scopes, claims_allow, tenant_allowed, AuthorizationService, deny,
  requested_tenant, decide, is_given, authorize_user, authorize_request, authorize,
  bounded_request_string,
}

-- What each kind of requirement asks of the claims: one of the roles, or all of the permissions or
-- scopes; a tenant requirement asks nothing more.
abbrev pub Grants : RequirementKind → List Text → Fields → Type 0
Grants role required claims = (r : Text) × Has required r × HasRole claims r
Grants permission required claims = (p : Text) → Has required p → HasPermission claims p
Grants scope required claims = (s : Text) → Has required s → HasScope claims s
Grants tenant required claims = Unit

any-Has :
    (granted required : List Text)
    → any (includes granted) required ≡ true
    → (r : Text) × Has required r × Has granted r
unfolding any includes
any-Has granted [] h = cc
any-Has granted (r ∷ rs) h = elim (or_cases (includes granted r) (any (includes granted) rs) h) [
  | inl k ↦ (r, ground (arith, eqb_iff r r), k)
  | inr k ↦ let (q, m, n) = any-Has granted rs k in (q, ground (arith, m), n)
]

Has-any :
    (granted required : List Text) (r : Text)
    → Has required r
    → Has granted r
    → any (includes granted) required ≡ true
unfolding any includes
Has-any granted [] r h k = cc
Has-any granted (q ∷ qs) r h k = ground (arith, Has-any granted qs r, eqb_iff q r)

Has-every :
    (granted required : List Text)
    → ((r : Text) → Has required r → Has granted r)
    → every (includes granted) required ≡ true
unfolding every includes
Has-every granted [] h = refl
Has-every granted (q ∷ qs) h =
    let k = Has-every granted qs (λ r m. h r (ground (arith, m))) in
    let l = h q (ground (arith, eqb_iff q q)) in ground (arith, k, l)

-- The test of the claims decides what the requirement asks.
pub claims_allow_iff :
    (kind : RequirementKind) (required : List Text) (claims : Fields)
    → (claims_allow kind required claims ≡ true) ↔ Grants kind required claims
unfolding claims_allow
claims_allow_iff role required claims = (
  λ h.
      let (r, m, k) = any-Has (granted_roles claims) required h in
      (r, m, (granted_roles_iff claims r).0 k),
  λ (r, h, k). Has-any (granted_roles claims) required r h ((granted_roles_iff claims r).1 k),
)
claims_allow_iff permission required claims = (
  λ h p k.
      (granted_permissions_iff claims p).0
        (every-Has (includes (granted_permissions claims)) required p h k),
  λ h.
      Has-every (granted_permissions claims) required
        λ p m. (granted_permissions_iff claims p).1 (h p m),
)
claims_allow_iff scope required claims = (
  λ h p k.
      (granted_scopes_iff claims p).0 (every-Has (includes (granted_scopes claims)) required p h k),
  λ h. Has-every (granted_scopes claims) required λ p m. (granted_scopes_iff claims p).1 (h p m),
)
claims_allow_iff tenant required claims = (λ h. tt, λ h. refl)

module _ {S : Type 0} (service : AuthorizationService S) (kind : RequirementKind)
    (required : List Text) (resolver : Option (Request → M S Value)) where
  -- What the resolver may answer to a request.
  pub record NamesTenants (Named : Request → Value → Type 0) : Type 0 where
    pub names :
        (resolve : Request → M S Value)
        → resolver ≡ some resolve
        → (req : Request) → Yields (Named req) (resolve req)

  -- There is no resolver, or it has named this tenant for the request, to which the user belongs.
  abbrev pub InTenant : (Request → Value → Type 0) → Request → Fields → Type 0
  InTenant Named req claims =
      (resolver ≡ none) ⊎ ((t : Text) × (0 < length t) × Named req (string t) × BelongsTo claims t)

  -- How a check may end: it has let the request of an authorised user through, it has answered 403, or
  -- the authentication has answered.
  abbrev pub IsJustified : (Request → Value → Type 0) → Option Reply → Type 0
  IsJustified Named none = Unit
  IsJustified Named (some (response status)) = status ≡ 403
  IsJustified Named (some (next req)) =
      (claims : Fields) × (req.user ≡ some claims)
      × Grants kind required claims
      × InTenant Named req claims

  module _ (Named : Request → Value → Type 0) (laws : NamesTenants Named) where
    abbrev Justified : Reply → Type 0
    Justified reply = IsJustified Named (some reply)

    -- A tenant that is asked for is one that the resolver has named.
    abbrev Asked : Request → Option Text → Type 0
    Asked req none = Unit
    Asked req (some t) = Named req (string t)

    bounded_request_string-Asked :
        (req : Request) (v : Value) → Named req v → Asked req (bounded_request_string 256 v)
    unfolding bounded_request_string
    bounded_request_string-Asked req (string t) named = by_test (is_unsafe 256 t)
      where
        by_test : (b : Bool) → Asked req (if b then none else some t)
        by_test true = tt
        by_test false = named
    bounded_request_string-Asked req _ named = tt

    requested_tenant-Asked :
        (req : Request) → Yields (Asked req) (requested_tenant service resolver req)
    unfolding requested_tenant
    requested_tenant-Asked req =
        Yields-if_present _ _ _
          (λ resolve present.
            Yields-bind (Named req) _ _ (laws.names resolve present req)
              λ v named. Yields-pure _ (bounded_request_string-Asked req v named))
          λ absent. Yields-pure _ tt

    tenant_allowed-InTenant :
        (req : Request) (r : Option (Request → M S Value)) (requested : Option Text)
        (claims : Fields)
        → resolver ≡ r
        → Asked req requested
        → tenant_allowed (is_given service r) requested claims ≡ true
        → InTenant Named req claims
    unfolding tenant_allowed is_given
    tenant_allowed-InTenant req none requested claims e asked h = inl e
    tenant_allowed-InTenant req (some resolve) none claims e asked h = cc
    tenant_allowed-InTenant req (some resolve) (some t) claims e asked h =
        inr (t, ground (arith, h), asked, (tenant_ids_iff claims t).0 (ground (arith, h)))

    deny-Justified :
        (req : Request) (t : Option Text) (claims : Option Fields)
        → Yields Justified (deny service req kind required t claims)
    unfolding deny
    deny-Justified req t claims = Yields-then _ _ λ u. Yields-pure _ refl

    decide-Justified :
        (req : Request) (claims : Fields) (requested : Option Text)
        → req.user ≡ some claims
        → Asked req requested
        → Yields Justified
            (decide service kind required (is_given service resolver) req claims requested)
    unfolding decide
    decide-Justified req claims requested h asked =
        Yields-branch _ _ _ (λ k. deny-Justified req requested (some claims))
          λ k. Yields-pure _ (
            claims,
            h,
            (claims_allow_iff kind required claims).0 (ground (arith, k)),
            tenant_allowed-InTenant req resolver requested claims refl asked (ground (arith, k)),
          )

    authorize_user-Justified :
        (req : Request) (u : Option Fields)
        → req.user ≡ u
        → Yields Justified (authorize_user service kind required resolver req u)
    unfolding authorize_user
    authorize_user-Justified req none h = deny-Justified req none none
    authorize_user-Justified req (some claims) h =
        Yields-bind (Asked req) _ _ (requested_tenant-Asked req)
          λ requested asked. decide-Justified req claims requested h asked

    authorize_request-Justified :
        (req : Option Request)
        → Yields (IsJustified Named) (authorize_request service kind required resolver req)
    unfolding authorize_request
    authorize_request-Justified none = Yields-pure _ tt
    authorize_request-Justified (some req) =
        Yields-bind Justified _ _ (authorize_user-Justified req req.user refl)
          λ reply j. Yields-pure _ j

    -- Whatever the authentication and the audit do, a request that a check lets through has a user
    -- whose claims grant what is required and, if there is a resolver, who belongs to the tenant that
    -- it has named for the request; all others get 403, or the answer of the authentication.
    pub authorize-IsJustified :
        (req : Request) → Yields (IsJustified Named) (authorize service kind required resolver req)
    unfolding authorize
    authorize-IsJustified req = Yields-then _ _ λ r. authorize_request-Justified r

  -- There is no resolver, or it returns the name of a tenant of the user, of 1 to 256 safe characters.
  abbrev pub Resolves : (S → Type 0) → Request → Fields → Type 0
  Resolves P req claims =
      (resolver ≡ none)
      ⊎ ((resolve : Request → M S Value) × (resolver ≡ some resolve)
          × (t : Text) × (is_unsafe 256 t ≡ false)
          × BelongsTo claims t
          × Returns P (resolve req) (λ v s. (v ≡ string t) × P s))
