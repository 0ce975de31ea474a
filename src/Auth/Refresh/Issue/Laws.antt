-- ===== src/Auth/Refresh/Issue/Laws.antt =====
-- What a revocation of all sessions of a user leaves in the token store.
use authenik8_core_beta.Common.{
  or_cases, ℕ, ◌≡◌, refl, Bool, true, Option, none, some, List, [], ◌∷◌, ◌++◌, ◌||◌, any, suc,
  arith, ◌⊎◌, inl, inr, subst, ◌-◌, zero, String, ◌∙◌, sym,
}
use authenik8_core_beta.Common.Text.{Text, includes, distinct, Has, includes-distinct, eqb, eqb→eq}
use authenik8_core_beta.Common.Effects.{ok}
use authenik8_core_beta.Common.Effects.Async.{M, ◌>>◌}
use authenik8_core_beta.Common.Effects.Hoare.{Yields}
use authenik8_core_beta.Common.Effects.Pure.{traverse, >>=-eq-ok}
use authenik8_core_beta.Audit.{AuditEventInput, warning, session_revoked_all}
use authenik8_core_beta.Auth.{SessionRedisClient, assert_identifier}
use authenik8_core_beta.Auth.Sessions.Store as Store
use authenik8_core_beta.Auth.Refresh.{RefreshService, refresh_key, subject_event}
use authenik8_core_beta.Common.Effects.Triples.{
  Ensures, Ensures-bind, Ensures-lift, Ensures-pure, Ensures-throw, Ensures-if_present,
  Ensures-catch, Ensures-then, Ensures-fact,
}
use authenik8_core_beta.Auth.Refresh.Issue.{
  delete_families, indexed_families, delete_index, revoke_all_sessions, run_all, run_batches, push,
  chunks_from, chunks,
}

abbrev within : List (List Text) → Text → Bool
within batches t = any (λ batch. includes batch t) batches

within-push :
    (a : Text) (batches : List (List Text)) (t : Text)
    → within (push a batches) t ≡ (eqb a t || within batches t)
unfolding push any includes
within-push a [] t = ground arith
within-push a (batch ∷ batches) t = ground arith

within-chunks_from :
    (size room : ℕ) (ts : List Text) (t : Text)
    → within (chunks_from size room ts) t ≡ includes ts t
unfolding chunks_from any includes
within-chunks_from size room [] t = refl
within-chunks_from size zero (a ∷ rest) t = ground (
  arith,
  within-push a (chunks_from size (size - 1) rest) t,
  within-chunks_from size (size - 1) rest t,
)
within-chunks_from size (suc room) (a ∷ rest) t =
    ground
      (arith, within-push a (chunks_from size room rest) t, within-chunks_from size room rest t)

within-chunks : (size : ℕ) (ts : List Text) (t : Text) → within (chunks size ts) t ≡ includes ts t
unfolding chunks
within-chunks size ts t = within-chunks_from size size ts t

-- Calls each of which makes `Gone` hold for its argument, and none of which undoes it for another.
module _ {S : Type 0} (call : Text → M S (Unit {0})) (Gone : Text → S → Type 0)
    (gone : (t : Text) → Ensures (λ s. Unit {0}) (call t) (λ u. Gone t))
    (stable : (t u : Text) → Ensures (Gone t) (call u) (λ v. Gone t)) where
  run_all-stable : (ts : List Text) (t : Text) → Ensures (Gone t) (run_all call ts) (λ u. Gone t)
  unfolding run_all
  run_all-stable [] t = Ensures-pure _ λ s g. g
  run_all-stable (a ∷ rest) t =
      Ensures-bind (λ u. Gone t) _ _
        (Ensures-catch _ _ (stable t a) λ e. Ensures-then _ _ λ u. Ensures-throw _)
        λ u. run_all-stable rest t

  run_all-gone :
      (ts : List Text) (t : Text)
      → Has ts t
      → Ensures (λ s. Unit {0}) (run_all call ts) (λ u. Gone t)
  unfolding run_all includes
  run_all-gone [] t h = cc
  run_all-gone (a ∷ rest) t h = elim (or_cases (eqb a t) (includes rest t) h) [
    | inl e ↦
        Ensures-bind (λ u. Gone a) _ _
          (Ensures-catch _ _ (gone a) λ e. Ensures-then _ _ λ u. Ensures-throw _)
          λ u.
            subst (λ x. Ensures (Gone a) (run_all call rest) (λ v. Gone x)) (eqb→eq a t e)
              (run_all-stable rest a)
    | inr k ↦ Ensures-then _ _ λ u. run_all-gone rest t k
  ]

  run_batches-stable :
      (batches : List (List Text)) (t : Text)
      → Ensures (Gone t) (run_batches call batches) (λ u. Gone t)
  unfolding run_batches
  run_batches-stable [] t = Ensures-pure _ λ s g. g
  run_batches-stable (batch ∷ batches) t =
      Ensures-bind (λ u. Gone t) _ _ (run_all-stable batch t) λ u. run_batches-stable batches t

  run_batches-gone :
      (batches : List (List Text)) (t : Text)
      → within batches t ≡ true
      → Ensures (λ s. Unit {0}) (run_batches call batches) (λ u. Gone t)
  unfolding run_batches any
  run_batches-gone [] t h = cc
  run_batches-gone (batch ∷ batches) t h = elim (or_cases (includes batch t) (within batches t) h) [
    | inl e ↦
        Ensures-bind (λ u. Gone t) _ _ (run_all-gone batch t e) λ u. run_batches-stable batches t
    | inr k ↦ Ensures-then _ _ λ u. run_batches-gone batches t k
  ]

assert_identifier-same :
    (t : Text) (label : String) (u : Text) → assert_identifier t label ≡ ok u → u ≡ t
unfolding assert_identifier
assert_identifier-same t label u h = ground arith

traverse-same :
    (label : String) (ts us : List Text)
    → traverse (λ t. assert_identifier t label) ts ≡ ok us
    → us ≡ ts
unfolding traverse
traverse-same label [] us h = ground arith
traverse-same label (t ∷ rest) us h =
    let (u, e, h') = >>=-eq-ok (assert_identifier t label) _ h in
    let (vs, k, h'') = >>=-eq-ok (traverse (λ x. assert_identifier x label) rest) _ h' in
    let same : u ≡ t = assert_identifier-same t label u e in
    let rest_same : vs ≡ rest = traverse-same label rest vs k in cc (same, rest_same, h'')

includes-++ :
    (ts us : List Text) (t : Text) → includes (ts ++ us) t ≡ (includes ts t || includes us t)
unfolding includes
includes-++ [] us t = refl
includes-++ (a ∷ ts) us t = ground (arith, includes-++ ts us t)

module _ {S : Type 0} (service : RefreshService S) (stored : S → Text → Option Text) where
  -- The token store deletes entries, and no call of a revocation puts one back.
  pub record IsRevocable : Type 0 where
    pub del : Text → M S (Unit {0})
    pub del_lem : service.token_store.del ≡ some del
    pub gone : (key : Text) → Ensures (λ s. Unit {0}) (del key) (λ u s. stored s key ≡ none)
    pub del_stable :
        (key k : Text) → Ensures (λ s. stored s key ≡ none) (del k) (λ u s. stored s key ≡ none)
    pub index_stable :
        (key : Text) (del : Text → M S (Unit {0}))
        → service.redis.del ≡ some del
        → (k : Text) → Ensures (λ s. stored s key ≡ none) (del k) (λ u s. stored s key ≡ none)
    pub sessions_stable :
        (key : Text) (redis : SessionRedisClient S) (del : Text → M S (Unit {0}))
        → service.session_store.redis ≡ some redis
        → redis.del ≡ some del
        → (k : Text) → Ensures (λ s. stored s key ≡ none) (del k) (λ u s. stored s key ≡ none)
    pub emit_stable :
        (key : Text) (event : AuditEventInput)
        → Ensures (λ s. stored s key ≡ none) (service.emit event) (λ u s. stored s key ≡ none)

  module _ (laws : IsRevocable) where
    delete_families-gone :
        (user_id : Text) (ids : List Text) (id : Text)
        → Has ids id
        → Ensures
            (λ s. Unit {0})
            (delete_families service user_id ids)
            (λ u s. stored s (refresh_key service user_id id) ≡ none)
    unfolding delete_families
    delete_families-gone user_id ids id h =
        Ensures-if_present _ _ _
          (λ del present.
            let e : laws.del ≡ del = cc (present, laws.del_lem) in
            subst
              (λ d.
                Ensures (λ s. Unit {0})
                  (run_batches (λ i. d (refresh_key service user_id i)) (chunks 100 ids))
                  (λ u s. stored s (refresh_key service user_id id) ≡ none))
              e
              (run_batches-gone (λ i. laws.del (refresh_key service user_id i))
                (λ i s. stored s (refresh_key service user_id i) ≡ none) (λ i. laws.gone _)
                (λ i j. laws.del_stable _ _) (chunks 100 ids) id (within-chunks 100 ids id ∙ h)))
          λ absent. absurd (some≢none absent)
      where
        some≢none : service.token_store.del ≡ none → ⊥
        some≢none k = cc (k, laws.del_lem)

    revoke_all-stable :
        (key user_id : Text)
        → Ensures
            (λ s. stored s key ≡ none)
            (Store.revoke_all service.session_store user_id)
            (λ u s. stored s key ≡ none)
    unfolding Store.revoke_all
    revoke_all-stable key user_id =
        Ensures-if_present _ _ _
          (λ redis present.
            Ensures-if_present _ _ _
              (λ del present'.
                Ensures-lift _ _ λ k h. laws.sessions_stable key redis del present present' k)
              λ absent. Ensures-pure _ λ s g. g)
          λ absent. Ensures-pure _ λ s g. g

    delete_index-stable :
        (key user_id : Text)
        → Ensures
            (λ s. stored s key ≡ none)
            (delete_index service user_id)
            (λ u s. stored s key ≡ none)
    unfolding delete_index
    delete_index-stable key user_id =
        Ensures-if_present _ _ _ (λ del present. laws.index_stable key del present _)
          λ absent. Ensures-pure _ λ s g. g

    indexed_families-known :
        (user_id : Text) (fallback : List Text) (id : Text)
        → Has fallback id ⊎ Yields (λ ids. Has ids id) (indexed_families service user_id)
        → Ensures
            (λ s. Unit {0})
            (indexed_families service user_id)
            (λ ids s. Has (fallback ++ ids) id)
    indexed_families-known user_id fallback id (inl has) = record {
      holds = λ s p ids s' h. ground (arith, includes-++ fallback ids id, has);
    }
    indexed_families-known user_id fallback id (inr yields) = record {
      holds = λ s p ids s' h.
          let has = yields.holds s ids s' h in ground (arith, includes-++ fallback ids id, has);
    }

    -- The rest of a revocation, from the deletions on.
    revocation-gone :
        {P : S → Type 0} (user_id : Text) (ids : List Text) (id : Text)
        → Has ids id
        → Ensures P
            (delete_families service user_id ids
              >> (delete_index service user_id
                  >> (Store.revoke_all service.session_store user_id
                      >> service.emit (subject_event session_revoked_all warning user_id none))))
            (λ u s. stored s (refresh_key service user_id id) ≡ none)
    revocation-gone user_id ids id h =
        Ensures-bind (λ u s. stored s (refresh_key service user_id id) ≡ none) _ _
          (record { holds = λ s p. (delete_families-gone user_id ids id h).holds s tt })
          λ u.
            Ensures-bind (λ u s. stored s (refresh_key service user_id id) ≡ none) _ _
              (delete_index-stable _ user_id)
              λ u.
                Ensures-bind (λ u s. stored s (refresh_key service user_id id) ≡ none) _ _
                  (revoke_all-stable _ user_id) λ u. laws.emit_stable _ _

    -- A revocation that returns has deleted the entries of all sessions that it was given or that the
    -- index of the user lists: under `IsRevocable`, none is stored under their keys.
    pub revoke_all_sessions-gone :
        (user_id : Text) (fallback : List Text) (id : Text)
        → Has fallback id ⊎ Yields (λ ids. Has ids id) (indexed_families service user_id)
        → Ensures
            (λ s. Unit {0})
            (revoke_all_sessions service user_id fallback)
            (λ u s. stored s (refresh_key service user_id id) ≡ none)
    unfolding revoke_all_sessions
    revoke_all_sessions-gone user_id fallback id known = Ensures-lift _ _ λ user e.
        Ensures-lift _ _ λ u h. Ensures-lift _ _ λ valid k.
          let same : user ≡ user_id = assert_identifier-same user_id "userId" user e in
          Ensures-bind (λ ids s. Has (fallback ++ ids) id) _ _
            (subst
              (λ x.
                Ensures (λ s. Unit {0}) (indexed_families service x)
                  (λ ids s. Has (fallback ++ ids) id))
              (sym same) (indexed_families-known user_id fallback id known))
            λ ids.
              Ensures-fact _ (λ s has. has)
                λ has. Ensures-lift _ _ λ checked h'. rw (same) (
                  revocation-gone user_id (distinct (valid ++ ids)) id (
                    let k' : valid ≡ fallback = traverse-same "sessionId" fallback valid k in
                    rw (includes-distinct (valid ++ ids) id, k') has))
