-- ===== src/Authorization/Tests.antt =====
-- Runs of the checks, and instances of their theorems.
use authenik8_core_beta.Common.{
  ℕ, ◌≡◌, refl, true, false, Option, none, some, List, [], ◌∷◌, any, every, arith, ap, ◌∙◌,
}
use authenik8_core_beta.Common.Text as Text
use authenik8_core_beta.Common.Value as Value
use authenik8_core_beta.Common.Effects.Async as Async
use authenik8_core_beta.Common.Text.{Text, text, Has}
use authenik8_core_beta.Common.Value.{Value, string, array, Fields, end, field, cons, nil}
use authenik8_core_beta.Common.Effects.{ok}
use authenik8_core_beta.Common.Effects.Async.{M}
use authenik8_core_beta.Common.Effects.Hoare.{Yields}
use authenik8_core_beta.Common.Effects.Returns.{Returns}
use authenik8_core_beta.Authorization as Authorization
use authenik8_core_beta.Authorization.{
  Request, Reply, next, permission, role, claims_allow, AuthorizationService, authorize, is_given,
  requested_tenant, tenant_allowed,
}
use authenik8_core_beta.Auth.Sessions.Store.{SessionStore}
use authenik8_core_beta.Authorization.Admin.{RequireAdminOptions, AdminActions, require_admin}
use authenik8_core_beta.Authorization.Admin.Laws.{IsAdmitted, require_admin-IsAdmitted}
use authenik8_core_beta.Authorization.Laws.{
  NamesTenants, Grants, IsJustified, claims_allow_iff, authorize-IsJustified,
}

-- The state is the number of audit events.
abbrev test_service : AuthorizationService ℕ
test_service = record {
  authenticate = λ req s. (ok none, s);
  resolve_tenant = none;
  emit = λ event s. (ok tt, 1);
}

abbrev reader : Fields
reader =
    field (text "permissions")
      (array (cons (string (text "read")) (cons (string (text "write")) nil))) end

abbrev marked : Request
marked = record { authenticated = true; user = some reader; request_id = Value.undefined }

abbrev no_resolver : Option (Request → M ℕ Value)
no_resolver = none

running : Unit {0}
unfolding Text.eqb Text.includes Text.is_space Value.items Value.property Value.get_field
    Value.from_items Async.◌>>=◌ Async.pure Async.branch Async.if_present any every
    Authorization.string_array Authorization.strings_of Authorization.string_or_none
    Authorization.granted_roles Authorization.granted_permissions Authorization.granted_scopes
    Authorization.tenant_ids Authorization.claims_allow Authorization.tenant_allowed
    Authorization.deny Authorization.run_authentication Authorization.requested_tenant
    Authorization.decide Authorization.is_given Authorization.authorize_user
    Authorization.authorize_request Authorization.authorize Authorization.words
    Authorization.words_from Authorization.nonempty Authorization.bounded_request_string
    Value.is_unsafe Text.is_control Text.contains_control_character
running = tt

read_runs :
    authorize test_service permission (text "read" ∷ []) none marked 0
    ≡ (ok (some (next marked)), 0)
unfolding running
read_runs = refl

delete_runs :
    authorize test_service permission (text "delete" ∷ []) none marked 0
    ≡ (ok (some (Authorization.response 403)), 1)
unfolding running
delete_runs = refl

words_run : Authorization.words (text " a  b:c ") ≡ text "a" ∷ text "b:c" ∷ []
unfolding running
words_run = refl

read_granted : claims_allow permission (text "read" ∷ []) reader ≡ true
unfolding running
read_granted = refl

read_iff : Grants permission (text "read" ∷ []) reader
read_iff = (claims_allow_iff permission (text "read" ∷ []) reader).0 read_granted

-- A user of the tenant that the resolver names.
abbrev member : Fields
member = field (text "tenantId") (string (text "acme")) reader

abbrev member_request : Request
member_request = record { authenticated = true; user = some member; request_id = Value.undefined }

acme_resolver : Request → M ℕ Value
acme_resolver req s = (ok (string (text "acme")), s)

abbrev Named : Request → Value → Type 0
Named req v = v ≡ string (text "acme")

abbrev to_read : List Text
to_read = text "read" ∷ []

tenant_runs :
    (authorize test_service permission to_read (some acme_resolver) member_request 0
      ≡ (ok (some (next member_request)), 0))
    × (authorize test_service permission to_read (some acme_resolver) marked 0
        ≡ (ok (some (Authorization.response 403)), 1))
unfolding running acme_resolver
tenant_runs = (refl, refl)

test-NamesTenants : NamesTenants test_service permission to_read (some acme_resolver) Named
unfolding acme_resolver
test-NamesTenants = record {
  names = λ resolve h req. record {
    holds = λ s v s' e.
        let same : acme_resolver ≡ resolve = ground (arith, h) in named same req s v s' e;
  };
}
  where
    named :
        {resolve : Request → M ℕ Value}
        → acme_resolver ≡ resolve
        → (req : Request) (s : ℕ) (v : Value) (s' : ℕ) → resolve req s ≡ (ok v, s')
        → v ≡ string (text "acme")
    named same req s v s' e =
        let k : acme_resolver req s ≡ (ok v, s') = ap (λ f. f req s) same ∙ e in ground (arith, k)

member-IsJustified :
    Yields
      (IsJustified test_service permission to_read (some acme_resolver) Named)
      (authorize test_service permission to_read (some acme_resolver) member_request)
member-IsJustified =
    authorize-IsJustified test_service permission to_read (some acme_resolver) Named
      test-NamesTenants member_request

abbrev admin_options : RequireAdminOptions ℕ
admin_options = record {
  require_auth = λ req s. (ok (some req), s);
  has_store = false;
  list_sessions = none;
  revoke_session = none;
  revoke_all_sessions = none;
}

abbrev no_sessions : SessionStore ℕ
no_sessions = record {
  redis = none;
  namespace = text "sessions";
  platform = record {
    sha256 = λ t. t;
    buffer_from = λ v. ok [];
    json_parse = λ t. none;
    json_stringify = λ v. [];
  };
  now = λ s. (ok 1, s);
}

reader-IsAdmitted :
    (out : Option (Reply × Option (AdminActions ℕ))) × (require_admin admin_options no_sessions
        marked 0
      ≡ (ok out, 0))
    × IsAdmitted admin_options no_sessions (some marked) out
reader-IsAdmitted = require_admin-IsAdmitted admin_options no_sessions marked (some marked) 0 0 refl
