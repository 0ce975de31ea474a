-- ===== src/Authorization/Admin/Laws.antt =====
-- Who passes the middleware for administrators.
use authenik8_core_beta.Common.{
  ◌≡◌, refl, ap, true, false, Option, none, some, if◌then◌else◌, ◌⊎◌, inl, inr, subst, arith,
  Bool-cases,
}
use authenik8_core_beta.Common.Text.{text, eqb, eqb→eq, eqb_iff}
use authenik8_core_beta.Common.Value.{Value, string, object, Fields, property}
use authenik8_core_beta.Common.Effects.{ok}
use authenik8_core_beta.Common.Effects.Async.{◌>>=◌, pure}
use authenik8_core_beta.Auth.Sessions.Store.{SessionStore}
use authenik8_core_beta.Authorization.{Request, Reply, next, response}
use authenik8_core_beta.Authorization.Admin.{
  RequireAdminOptions, AdminActions, is_admin, admit, require_admin, has_actions, admin_actions,
}

-- The request has a user whose role is "admin".
abbrev pub IsAdministrator : Request → Type 0
IsAdministrator req =
    (claims : Fields) × (req.user ≡ some claims)
    × (property (text "role") (object claims) ≡ string (text "admin"))

is_admin-IsAdministrator :
    (req : Request) (u : Option Fields) → req.user ≡ u → is_admin u ≡ true → IsAdministrator req
unfolding is_admin
is_admin-IsAdministrator req none e h = cc
is_admin-IsAdministrator req (some claims) e h = (claims, e, by_role _ h)
  where
    by_role :
        (v : Value)
        → elim v [ string r ↦ eqb r (text "admin") | _ ↦ false ] ≡ true
        → v ≡ string (text "admin")
    by_role (string r) k = ap string (eqb→eq r _ k)
    by_role _ k = cc

by_administrator :
    (r : Value)
    → r ≡ string (text "admin")
    → elim r [ string t ↦ eqb t (text "admin") | _ ↦ false ] ≡ true
by_administrator (string t) h = (eqb_iff t (text "admin")).1 (ground (arith, h))
by_administrator _ h = cc

IsAdministrator-is_admin :
    (req : Request) (u : Option Fields) → req.user ≡ u → IsAdministrator req → is_admin u ≡ true
unfolding is_admin
IsAdministrator-is_admin req none e (claims, h, k) = cc (e, h)
IsAdministrator-is_admin req (some found) e (claims, h, k) =
    let same : claims ≡ found = ground (arith, e, h) in
    by_administrator _
      (subst (λ c. property (text "role") (object c) ≡ string (text "admin")) same k)

module _ {S : Type 0} (options : RequireAdminOptions S) (session_store : SessionStore S) where
  -- The answer to a request that `requireAuth` has passed on, or to none: an administrator passes, and
  -- all others get 403 and no actions.
  abbrev pub IsAdmitted : Option Request → Option (Reply × Option (AdminActions S)) → Type 0
  IsAdmitted none out = out ≡ none
  IsAdmitted (some req) out =
      (IsAdministrator req × (actions : Option (AdminActions S)) × (out ≡ some (next req, actions)))
      ⊎ ((¬ IsAdministrator req) × (out ≡ some (response 403, none)))

  admit-IsAdmitted : (req : Option Request) → IsAdmitted req (admit options session_store req)
  unfolding admit
  admit-IsAdmitted none = refl
  admit-IsAdmitted (some req) = elim (Bool-cases (is_admin req.user)) [
    | inl h ↦ inl (
      is_admin-IsAdministrator req req.user refl h,
      if has_actions options session_store
          then some (admin_actions options session_store)
          else none,
      rw h refl,
    )
    | inr h ↦
        inr ((λ k. let e = IsAdministrator-is_admin req req.user refl k in cc (e, h)), rw h refl)
  ]

  -- Where requireAuth answers, the middleware answers without a further call: it passes on a request
  -- of an administrator, answers all others with 403, without the actions, and nothing where
  -- requireAuth has passed on none.
  pub require_admin-IsAdmitted :
      (req : Request) (authenticated : Option Request) (s s' : S)
      → options.require_auth req s ≡ (ok authenticated, s')
      → (out : Option (Reply × Option (AdminActions S))) × (require_admin options session_store req
            s
          ≡ (ok out, s'))
        × IsAdmitted authenticated out
  unfolding require_admin ◌>>=◌ pure
  require_admin-IsAdmitted req authenticated s s' h =
      (admit options session_store authenticated, rw h refl, admit-IsAdmitted authenticated)
