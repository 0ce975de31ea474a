-- ===== src/Oauth/States/Laws.antt =====
-- The state of an OAuth log-in is used once, and is what was stored.
use authenik8_core_beta.Common.{
  Bool-cases, ℕ, ◌≡◌, refl, ◌≤◌, ◌<◌, true, false, Option, none, some, arith, length, inl, inr, ap,
  ◌∙◌,
}
use authenik8_core_beta.Common.Text.{Text, eqb, byte_length}
use authenik8_core_beta.Common.Effects.Async.{◌>>=◌, ◌>>◌}
use authenik8_core_beta.Common.Effects.Triples.{
  Ensures, Ensures-bind, Ensures-lift, Ensures-pure, Ensures-branch, Ensures-fact, Ensures-then,
  Ensures-at, Ensures-result, Ensures-weaken,
}
use authenik8_core_beta.Oauth.States.{
  OAuthState, login_state, link_state, is_valid_oauth_state_token, has_state_keys, state_of,
  valid_oauth_state, oauth_state_value, is_valid_state, StateStore, state_key, parse_oauth_state,
  read_state, set_state, take_state, checked_state, consume_oauth_state,
}

valid_oauth_state-value :
    (value : OAuthState)
    → is_valid_state value ≡ true
    → valid_oauth_state (oauth_state_value value) ≡ some value
unfolding valid_oauth_state oauth_state_value has_state_keys state_of is_valid_state eqb
valid_oauth_state-value login_state h = refl
valid_oauth_state-value (link_state user_id) h = ground (arith, h)

module _ {S : Type 0} (store : StateStore S) (stored : S → Text → Option Text) where
  -- The commands of Redis: an entry is written, and is read and deleted in one step.
  pub record IsStateRedis : Type 0 where
    pub setex :
        (key value : Text) (ttl : ℕ)
        → Ensures
            (λ s. Unit {0})
            (store.redis.setex key ttl value)
            (λ u s. stored s key ≡ some value)
    pub get_del :
        (key : Text) (held : Option Text)
        → Ensures
            (λ s. stored s key ≡ held)
            (store.redis.get_del key)
            (λ found s. (found ≡ held) × (stored s key ≡ none))

  -- JSON keeps a state, in a text that is neither empty nor too long.
  pub record KeepsState (value : OAuthState) : Type 0 where
    pub parse :
        store.json_parse (store.json_stringify (oauth_state_value value))
        ≡ some (oauth_state_value value)
    pub nonempty : 0 < length (store.json_stringify (oauth_state_value value))
    pub short : byte_length (store.json_stringify (oauth_state_value value)) ≤ 1024

  read_state-value :
      (value : OAuthState)
      → is_valid_state value ≡ true
      → KeepsState value
      → read_state store (some (store.json_stringify (oauth_state_value value))) ≡ some value
  unfolding read_state parse_oauth_state
  read_state-value value h json =
      ground (arith, json.parse, json.nonempty, json.short, valid_oauth_state-value value h)

  module _ (laws : IsStateRedis) where
    consume-held :
        (state : Text) (held : Option Text)
        → is_valid_oauth_state_token state ≡ true
        → Ensures
            (λ s. stored s (state_key store.prefix state) ≡ held)
            (consume_oauth_state store state)
            (λ found s.
              (stored s (state_key store.prefix state) ≡ none)
              × (found ≡ checked_state store (read_state store held)))
    unfolding consume_oauth_state take_state
    consume-held state held valid =
        Ensures-branch _ _ _ (λ h. absurd (ground (arith, valid, h)))
          λ h.
            Ensures-bind
              (λ found s.
                (stored s (state_key store.prefix state) ≡ none) × (found ≡ read_state store held))
              _ _
              (Ensures-branch _ _ _ (λ k. absurd (ground (arith, valid, k)))
                λ k.
                  Ensures-bind
                    (λ found s. (found ≡ held) × (stored s (state_key store.prefix state) ≡ none)) _
                    _ (laws.get_del _ held)
                    λ found. Ensures-pure _ λ s (e, gone). (gone, ap (read_state store) e))
              λ found. Ensures-pure _ λ s (gone, e). (gone, ap (checked_state store) e)

    nothing : checked_state store (read_state store none) ≡ none
    unfolding checked_state read_state
    nothing = refl

    consume-invalid :
        {P : S → Type 0} (state : Text)
        → is_valid_oauth_state_token state ≡ false
        → Ensures P (consume_oauth_state store state) (λ found s. found ≡ none)
    unfolding consume_oauth_state
    consume-invalid state invalid =
        Ensures-branch _ _ _ (λ h. Ensures-pure _ λ s p. refl)
          λ h. absurd (ground (arith, invalid, h))

    -- A state is consumed once: under `IsStateRedis`, and whatever the store holds, a second
    -- `consumeOAuthState` with the same token that returns has found no state.
    pub consume_oauth_state-once :
        (state : Text)
        → Ensures
            (λ s. Unit {0})
            (consume_oauth_state store state >>= λ first. consume_oauth_state store state)
            (λ second s. second ≡ none)
    consume_oauth_state-once state = elim (Bool-cases (is_valid_oauth_state_token state)) [
      | inl valid ↦
          Ensures-bind (λ first s. stored s (state_key store.prefix state) ≡ none) _ _
            (Ensures-at (λ s. stored s (state_key store.prefix state)) _
              λ held. Ensures-result _ (λ first s (gone, e). gone) (consume-held state held valid))
            λ first.
              Ensures-result _ (λ second s (gone, e). e ∙ nothing) (consume-held state none valid)
      | inr invalid ↦ Ensures-then _ _ λ first. consume-invalid state invalid
    ]

    set_state-stored :
        (state : Text) (value : OAuthState) (ttl : ℕ)
        → Ensures
            (λ s. Unit {0})
            (set_state store state value ttl)
            (λ u s.
              ((is_valid_oauth_state_token state ≡ true) × (is_valid_state value ≡ true))
              × (stored s (state_key store.prefix state)
                  ≡ some (store.json_stringify (oauth_state_value value))))
    unfolding set_state
    set_state-stored state value ttl = Ensures-lift _ _ λ u h. Ensures-lift _ _ λ v k.
        Ensures-lift _ _ λ w l.
          Ensures-result _ (λ x s e. ((ground (arith, h), ground (arith, k)), e))
            (laws.setex _ _ ttl)

    kept :
        (value : OAuthState)
        → is_valid_state value ≡ true
        → checked_state store (some value) ≡ some value
    unfolding checked_state
    kept value h = rw h refl

    -- The state that `set` has stored is the one that `consumeOAuthState` returns, where JSON keeps it.
    pub set_state-consume_oauth_state :
        (state : Text) (value : OAuthState) (ttl : ℕ)
        → KeepsState value
        → Ensures
            (λ s. Unit {0})
            (set_state store state value ttl >> consume_oauth_state store state)
            (λ found s. found ≡ some value)
    set_state-consume_oauth_state state value ttl json =
        Ensures-bind _ _ _ (set_state-stored state value ttl) λ u.
          Ensures-fact _ (λ s (valid, e). valid)
            λ (token, valid).
              Ensures-weaken _ (λ s (v, e). e)
                (Ensures-result _
                  (λ found s (gone, e).
                    e
                    ∙ (ap (checked_state store) (read_state-value value valid json)
                        ∙ kept value valid))
                  (consume-held state _ token))
