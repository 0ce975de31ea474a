-- ===== src/Agent/Service/Keys.antt =====
-- The keys of src/agent/agentIdentity.ts: `scoped` for the marks of revoked agents and for sessions.
use authenik8_core_beta.Common.{
  ℕ, ◌≡◌, refl, ap, sym, ◌∙◌, true, [], ◌∷◌, ◌++◌, append_assoc, filter, arith,
}
use authenik8_core_beta.Common.Text.{Text, text, join}
use authenik8_core_beta.Common.Effects.{ok}
use authenik8_core_beta.Auth.Refresh.{is_nonempty}

append-cancel : (p s t : Text) → p ++ s ≡ p ++ t → s ≡ t
append-cancel [] s t h = h
append-cancel (c ∷ p) s t h = append-cancel p s t (ground (arith, h))

marks-apart : (s t : Text) → text "agent-revoked" ++ s ≡ text "agent-sessions" ++ t → ⊥
marks-apart s t h = ground (arith, h)

cons-nonempty : (c : ℕ) (t : Text) → is_nonempty (c ∷ t) ≡ true
unfolding is_nonempty
cons-nonempty c t = ground arith

-- `scoped("agent-revoked", agentId)`.
unfoldable pub mark_key : (prefix agent_id : Text) → Text
unfolding join filter is_nonempty
mark_key prefix agent_id =
    join (text ":") (filter is_nonempty (prefix ∷ text "agent-revoked" ∷ agent_id ∷ []))

-- `scoped("agent-sessions")`.
unfoldable pub sessions_key : (prefix : Text) → Text
unfolding join filter is_nonempty
sessions_key prefix = join (text ":") (filter is_nonempty (prefix ∷ text "agent-sessions" ∷ []))

sessions_key-cons :
    (c : ℕ) (p : Text) → sessions_key (c ∷ p) ≡ ((c ∷ p) ++ text ":") ++ text "agent-sessions"
unfolding join filter is_nonempty sessions_key
sessions_key-cons c p = rw (cons-nonempty c p) refl

mark_key-cons :
    (c : ℕ) (p agent_id : Text)
    → (t : Text) × (mark_key (c ∷ p) agent_id
        ≡ ((c ∷ p) ++ text ":") ++ (text "agent-revoked" ++ t))
unfolding join filter is_nonempty mark_key
mark_key-cons c p [] = ([], rw (cons-nonempty c p) refl)
mark_key-cons c p (d ∷ a) = (text ":" ++ (d ∷ a), rw (cons-nonempty c p, cons-nonempty d a) refl)

mark_key-empty : (agent_id : Text) → (t : Text) × (mark_key [] agent_id ≡ text "agent-revoked" ++ t)
unfolding join filter is_nonempty mark_key
mark_key-empty [] = ([], refl)
mark_key-empty (d ∷ a) = (text ":" ++ (d ∷ a), rw (cons-nonempty d a) refl)

pub prefixed-apart :
    (prefix agent_id id : Text)
    → mark_key prefix agent_id ≡ (sessions_key prefix ++ text ":") ++ id
    → ⊥
unfolding join filter is_nonempty sessions_key
prefixed-apart [] agent_id id h =
    let (t, e) = mark_key-empty agent_id in marks-apart t (text ":" ++ id) (sym e ∙ h)
prefixed-apart (c ∷ p) agent_id id h =
    let (t, e) = mark_key-cons c p agent_id in
    let start = (c ∷ p) ++ text ":" in
    let k =
      sym e
      ∙ (h
          ∙ (ap (λ x. (x ++ text ":") ++ id) (sessions_key-cons c p)
              ∙ (ap (λ x. x ++ id) (append_assoc start (text "agent-sessions") (text ":"))
                  ∙ append_assoc start (text "agent-sessions" ++ text ":") id))) in
    marks-apart t (text ":" ++ id) (append-cancel start _ _ k)

pub ok-injective : (s t : Text) → ok s ≡ ok t → s ≡ t
ok-injective s t h = ground (arith, h)
