-- ===== src/Auth/Bearer.antt =====
-- The header `authorization` of src/auth/jwtAuth.ts and src/auth/guestModeService.ts.
use authenik8_core_beta.Common.{
  ℕ, ◌+◌, Bool, not, ◌&&◌, Option, none, some, [], ◌∷◌, if◌then◌else◌, leb, ltb, ◌==◌, length,
  every,
}
use authenik8_core_beta.Common.Text.{Text, text}
use authenik8_core_beta.Common.Value.{Value, string}
use authenik8_core_beta.Auth.Sessions.{is_base64url}
use authenik8_core_beta.Security.ClientIp.{split}

unfoldable pub lower_letter : ℕ → ℕ
lower_letter c = if leb b'A' c && leb c b'Z' then c + 32 else c

-- The rest of a text after a prefix that is given in lower case, in letters of any case.
unfoldable pub after_prefix : Text → Text → Option Text
unfolding lower_letter
after_prefix [] t = some t
after_prefix (p ∷ ps) [] = none
after_prefix (p ∷ ps) (c ∷ t) =
    let rest = after_prefix ps t in if lower_letter c == p then rest else none

unfoldable pub is_segment : Text → Bool
unfolding is_base64url every
is_segment t = not (length t == 0) && every is_base64url t

-- Three segments with dots between them.
unfoldable pub is_compact : Text → Bool
unfolding split is_segment every
is_compact t = length (split b'.' t) == 3 && every is_segment (split b'.' t)

abbrev pub max_authorization_length : ℕ
max_authorization_length = 16_400

-- The group of `/^Bearer (…\.…\.…)$/i`, for a header that is not too long.
unfoldable pub bearer_token : Value → Option Text
unfolding after_prefix is_compact
bearer_token (string header) =
    if ltb max_authorization_length (length header)
    then none
    else elim (after_prefix (text "bearer ") header) [
      | none ↦ none
      | some token ↦ if is_compact token then some token else none
    ]
bearer_token _ = none
