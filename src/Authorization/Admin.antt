-- ===== src/Authorization/Admin.antt =====
-- src/middleware/adminService.ts: the middleware for administrators.
pub mod Laws
use authenik8_core_beta.Common.{
  ℕ, Bool, true, false, not, ◌&&◌, ◌||◌, Option, none, some, List, [], ◌∷◌, ◌++◌, if◌then◌else◌,
  leb, ◌==◌, length, every, take,
}
use authenik8_core_beta.Common.Text.{Text, text, eqb}
use authenik8_core_beta.Common.Value.{
  Value, string, undefined, null, object, Fields, property, put_field, truthy,
}
use authenik8_core_beta.Common.Effects.Async.{M, ◌>>=◌, ◌>>◌, pure, branch, if_present}
use authenik8_core_beta.Auth.Sessions.{SessionMetadata, is_base64url}
use authenik8_core_beta.Auth.Sessions.Store as Store
use authenik8_core_beta.Auth.Sessions.Store.{SessionStore}
use authenik8_core_beta.Authorization.{Request, Reply, next, response}

-- `RequireAdminOptions`: `require_auth` is as `authenticate` of the authorization service.
pub record RequireAdminOptions (S : Type 0) : Type 0 where
  pub require_auth : Request → M S (Option Request)
  pub has_store : Bool
  pub list_sessions : Option (Text → M S (List SessionMetadata))
  pub revoke_session : Option (Text → Text → M S (Unit {0}))
  pub revoke_all_sessions : Option (Text → M S (Unit {0}))

-- `req.adminActions`.
pub record AdminActions (S : Type 0) : Type 0 where
  pub list_sessions : Text → M S (List SessionMetadata)
  pub revoke_session : Text → Text → M S (Unit {0})
  pub revoke_all_sessions : Text → M S (Unit {0})

-- `user?.role === "admin"`.
unfoldable pub is_admin : Option Fields → Bool
unfolding property eqb
is_admin none = false
is_admin (some claims) = elim (property (text "role") (object claims)) [
  | string r ↦ eqb r (text "admin")
  | _ ↦ false
]

unfoldable pub is_there : {A : Type 0} → Option A → Bool
is_there none = false
is_there (some a) = true

module _ {S : Type 0} (options : RequireAdminOptions S) (session_store : SessionStore S) where
  unfoldable pub admin_actions : AdminActions S
  admin_actions = record {
    list_sessions = λ user_id.
        if_present options.list_sessions (λ list. list user_id) (Store.list session_store user_id);
    revoke_session = λ user_id session_id.
        if_present options.revoke_session (λ revoke. revoke user_id session_id)
          (Store.revoke session_store user_id session_id);
    revoke_all_sessions = λ user_id.
        if_present options.revoke_all_sessions (λ revoke. revoke user_id)
          (Store.revoke_all session_store user_id);
  }

  -- Whether `attachAdminActions` is called.
  unfoldable pub has_actions : Bool
  unfolding is_there
  has_actions =
      options.has_store
      || is_there options.list_sessions
      || is_there options.revoke_session
      || is_there options.revoke_all_sessions

  -- The callback of `requireAuth`: the reply, with the actions where they are attached.
  unfoldable pub admit : Option Request → Option (Reply × Option (AdminActions S))
  admit none = none
  admit (some req) = some (
      if is_admin req.user
      then (next req, if has_actions then some admin_actions else none)
      else (response 403, none))

  unfoldable pub require_admin : Request → M S (Option (Reply × Option (AdminActions S)))
  require_admin req = options.require_auth req >>= λ authenticated. pure (admit authenticated)
