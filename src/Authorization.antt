-- ===== src/Authorization.antt =====
-- src/authorization/authorizationService.ts, with the request that its middleware sees.
pub mod Claims
pub mod Laws
pub mod Admin
pub mod Guest
mod Tests
use authenik8_core_beta.Common.{
  ℕ, String, Bool, true, false, not, ◌&&◌, ◌||◌, Option, none, some, List, [], ◌∷◌, ◌++◌, map,
  if◌then◌else◌, ltb, ◌==◌, length, any, every,
}
use authenik8_core_beta.Common.Text.{Text, text, trim, distinct, includes, is_space}
use authenik8_core_beta.Common.Value.{
  Value, string, array, object, Fields, end, field, items, from_items, property, is_unsafe,
}
use authenik8_core_beta.Common.Effects.{Result, ok, err, plain}
use authenik8_core_beta.Common.Effects.Async.{M, ◌>>=◌, ◌>>◌, pure, branch, if_present}
use authenik8_core_beta.Audit as Audit
use authenik8_core_beta.Audit.{AuditEventInput, AuditEmitter, warning, denied, authorization_denied}

-- What a handler sees of a request: whether it carries the mark of src/auth/requestIdentity.ts, the
-- claims of its user, and the header `x-request-id`.
pub record Request : Type 0 where
  pub authenticated : Bool
  pub user : Option Fields
  pub request_id : Value

-- How a handler ends: `next()` for this request, or a response with this status.
pub data Reply : Type 0 where
  next : Request → Reply
  response : ℕ → Reply

pub data RequirementKind : Type 0 where
  role permission scope tenant : RequirementKind

abbrev pub max_requirements : ℕ
max_requirements = 64

-- The error has the label and the bounds.
unfoldable pub normalize_requirements : List Text → String → Result (List Text)
unfolding is_unsafe distinct
normalize_requirements values label =
    let normalized = distinct (map trim values) in
    if length normalized == 0
      || ltb max_requirements (length normalized)
      || any (is_unsafe 128) normalized
    then err (plain label)
    else ok normalized

unfoldable pub bounded_request_string : ℕ → Value → Option Text
bounded_request_string maximum (string value) = if is_unsafe maximum value then none else some value
bounded_request_string maximum _ = none

-- The strings of a list of values.
unfoldable pub strings_of : List Value → List Text
strings_of [] = []
strings_of (string t ∷ vs) = t ∷ strings_of vs
strings_of (_ ∷ vs) = strings_of vs

unfoldable pub string_array : Value → List Text
unfolding items strings_of
string_array (array vs) = strings_of (items vs)
string_array _ = []

-- `typeof value === "string" ? [value] : []`.
unfoldable pub string_or_none : Value → List Text
string_or_none (string t) = t ∷ []
string_or_none _ = []

-- `value.split(/\s+/).filter(Boolean)`; the first word is the one that is being read.
unfoldable pub words_from : Text → List Text
unfolding is_space
words_from [] = [] ∷ []
words_from (c ∷ s) =
    let rest = words_from s in
    if is_space c then [] ∷ rest else elim rest [ [] ↦ (c ∷ []) ∷ [] | w ∷ ws ↦ (c ∷ w) ∷ ws ]

unfoldable pub nonempty : List Text → List Text
nonempty [] = []
nonempty ([] ∷ ts) = nonempty ts
nonempty ((c ∷ t) ∷ ts) = (c ∷ t) ∷ nonempty ts

unfoldable pub words : Text → List Text
unfolding words_from nonempty
words t = nonempty (words_from t)

-- `user.scope`, where it is a text.
unfoldable pub scope_words : Value → List Text
scope_words (string t) = words t
scope_words _ = []

unfoldable pub granted_roles : Fields → List Text
unfolding property
granted_roles user =
    string_or_none (property (text "role") (object user))
    ++ string_array (property (text "roles") (object user))

unfoldable pub granted_permissions : Fields → List Text
unfolding property
granted_permissions user = string_array (property (text "permissions") (object user))

unfoldable pub granted_scopes : Fields → List Text
unfolding property
granted_scopes user =
    string_array (property (text "scopes") (object user))
    ++ scope_words (property (text "scope") (object user))

unfoldable pub tenant_ids : Fields → List Text
unfolding property
tenant_ids user =
    string_or_none (property (text "tenantId") (object user))
    ++ string_array (property (text "tenantIds") (object user))

-- The callbacks that the four methods hand to `authorize`.
unfoldable pub claims_allow : RequirementKind → List Text → Fields → Bool
claims_allow role required user = any (includes (granted_roles user)) required
claims_allow permission required user = every (includes (granted_permissions user)) required
claims_allow scope required user = every (includes (granted_scopes user)) required
claims_allow tenant required user = true

unfoldable pub kind_name : RequirementKind → Text
kind_name role = text "role"
kind_name permission = text "permission"
kind_name scope = text "scope"
kind_name tenant = text "tenant"

-- `user.userId` and the like, where they are texts.
unfoldable pub claim_text : Text → Option Fields → Option Text
unfolding property
claim_text name none = none
claim_text name (some user) = elim (property name (object user)) [ string t ↦ some t | _ ↦ none ]

unfoldable pub denied_event :
    Request → RequirementKind → List Text → Option Text → Option Fields → AuditEventInput
unfolding claim_text bounded_request_string
denied_event req kind required tenant_id claims = record {
  type = authorization_denied;
  severity = warning;
  outcome = denied;
  actor = record { type = Audit.user; id = claim_text (text "userId") claims };
  subject = none;
  session_id = claim_text (text "sessionId") claims;
  tenant_id = tenant_id;
  correlation_id = bounded_request_string 128 req.request_id;
  metadata =
      field (text "kind") (string (kind_name kind))
        (field (text "required") (array (from_items (map string required))) end);
}

-- The options of the service. `authenticate` gives the request on which it called `next`, or `none`
-- where it has answered itself.
pub record AuthorizationService (S : Type 0) : Type 0 where
  pub authenticate : Request → M S (Option Request)
  pub resolve_tenant : Option (Request → M S Value)
  pub emit : AuditEmitter S

-- `!tenantResolver || (!!requestedTenant && tenantIds(user).has(requestedTenant))`.
unfoldable pub tenant_allowed : Bool → Option Text → Fields → Bool
tenant_allowed resolves none user = not resolves
tenant_allowed resolves (some requested) user =
    not resolves || (not (length requested == 0) && includes (tenant_ids user) requested)

module _ {S : Type 0} (service : AuthorizationService S) where
  unfoldable pub deny :
      Request → RequirementKind → List Text → Option Text → Option Fields → M S Reply
  deny req kind required tenant_id claims =
      service.emit (denied_event req kind required tenant_id claims) >> pure (response 403)

  unfoldable pub run_authentication : Request → M S (Option Request)
  run_authentication req = branch req.authenticated (pure (some req)) (service.authenticate req)

  unfoldable pub requested_tenant : Option (Request → M S Value) → Request → M S (Option Text)
  requested_tenant resolver req =
      if_present resolver
        (λ resolve. resolve req >>= λ value. pure (bounded_request_string 256 value)) (pure none)

  unfoldable pub decide :
      RequirementKind → List Text → Bool → Request → Fields → Option Text → M S Reply
  decide kind required resolves req claims requested =
      branch
        (not (claims_allow kind required claims) || not (tenant_allowed resolves requested claims))
        (deny req kind required requested (some claims)) (pure (next req))

  unfoldable pub is_given : {A : Type 0} → Option A → Bool
  is_given none = false
  is_given (some a) = true

  unfoldable pub authorize_user :
      RequirementKind
      → List Text
      → Option (Request → M S Value)
      → Request
      → Option Fields
      → M S Reply
  authorize_user kind required resolver req none = deny req kind required none none
  authorize_user kind required resolver req (some claims) =
      requested_tenant resolver req >>= λ requested.
      decide kind required (is_given resolver) req claims requested

  -- The handler that `authorize` makes; `none` is an authentication that has answered.
  unfoldable pub authorize_request :
      RequirementKind
      → List Text
      → Option (Request → M S Value)
      → Option Request
      → M S (Option Reply)
  authorize_request kind required resolver none = pure none
  authorize_request kind required resolver (some req) =
      authorize_user kind required resolver req req.user >>= λ reply. pure (some reply)

  unfoldable pub authorize :
      RequirementKind → List Text → Option (Request → M S Value) → Request → M S (Option Reply)
  authorize kind required resolver req = run_authentication req >>= λ authenticated.
      authorize_request kind required resolver authenticated

  -- `requireRole`, `requirePermission` and `requireScope`.
  unfoldable pub require :
      RequirementKind → List Text → String → Result (Request → M S (Option Reply))
  unfolding normalize_requirements
  require kind values label = elim (normalize_requirements values label) [
    | err e ↦ err e
    | ok required ↦ ok (authorize kind required service.resolve_tenant)
  ]

  unfoldable pub or_own : Option (Request → M S Value) → Option (Request → M S Value)
  or_own none = service.resolve_tenant
  or_own (some resolver) = some resolver

  unfoldable pub require_tenant :
      Option (Request → M S Value) → Result (Request → M S (Option Reply))
  require_tenant resolver = elim (or_own resolver) [
    | none ↦ err (plain "requireTenant needs authorization.resolveTenant or an explicit resolver")
    | some resolve ↦ ok (authorize tenant [] (some resolve))
  ]
