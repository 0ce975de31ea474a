-- ===== src/Authorization/Guest.antt =====
-- src/auth/guestModeService.ts: the middleware for guests.
use authenik8_core_beta.Common.{ℕ, Option, none, some}
use authenik8_core_beta.Common.Text.{Text, text}
use authenik8_core_beta.Common.Value.{
  Value, string, undefined, null, object, Fields, property, put_field, truthy,
}
use authenik8_core_beta.Common.Effects.Async.{M, ◌>>=◌, pure, branch}
use authenik8_core_beta.Auth.Bearer.{bearer_token}

-- The options of `createIncognito`.
pub record IncognitoOptions (S : Type 0) : Type 0 where
  pub guest_token : M S Text
  pub verify_access_token : Text → M S (Option Fields)
  pub verify_guest_token : Text → M S (Option Fields)

-- `next()` with this user, and with a guest token in the header that is set; or a response.
pub data GuestReply : Type 0 where
  admitted : Fields → Option Text → GuestReply
  refused : ℕ → GuestReply

-- `user.type ?? "authenticated"`.
unfoldable pub typed_user : Fields → Fields
unfolding property put_field
typed_user claims =
    put_field (text "type")
      (elim (property (text "type") (object claims)) [
        | undefined ↦ string (text "authenticated")
        | null ↦ string (text "authenticated")
        | kind ↦ kind
      ])
      claims

unfoldable pub admit_guest : Text → Option Fields → GuestReply
admit_guest token none = refused 500
admit_guest token (some claims) = admitted claims (some token)

unfoldable pub admit_user : Option Fields → GuestReply
unfolding typed_user
admit_user none = refused 401
admit_user (some claims) = admitted (typed_user claims) none

module _ {S : Type 0} (options : IncognitoOptions S) where
  unfoldable pub issue_guest : M S GuestReply
  issue_guest = do
    token ← options.guest_token
    claims ← options.verify_guest_token token
    pure (admit_guest token claims)

  unfoldable pub with_token : Value → Option Text → M S GuestReply
  with_token authorization none = branch (truthy authorization) (pure (refused 401)) issue_guest
  with_token authorization (some token) =
      options.verify_access_token token >>= λ claims. pure (admit_user claims)

  -- The handler, for the header `authorization`.
  unfoldable pub incognito : Value → M S GuestReply
  unfolding bearer_token truthy
  incognito authorization = with_token authorization (bearer_token authorization)
