-- ===== src/Auth/Tests.antt =====
-- Runs of the refresh service over a store of one entry, and instances of its theorems.
use authenik8_core_beta.Common.{
  ℕ, ◌≡◌, ◌≢◌, refl, ap, subst, inl, Bool, true, false, Option, none, some, List, [], ◌∷◌, arith,
  if◌then◌else◌, length, any, every, filter, ◌==◌,
}
use authenik8_core_beta.Common.Text as Text
use authenik8_core_beta.Common.Value as Value
use authenik8_core_beta.Common.Effects.Pure as Pure
use authenik8_core_beta.Common.Effects.Async as Async
use authenik8_core_beta.Common.Text.{eqb→eq, Text, text, eqb}
use authenik8_core_beta.Common.Value.{Value, string, undefined}
use authenik8_core_beta.Common.Effects.{Result, ok, err, plain}
use authenik8_core_beta.Common.Effects.Async.{M}
use authenik8_core_beta.Common.Effects.Hoare.{Yields, Keeps}
use authenik8_core_beta.Common.Effects.Triples.{Ensures}
use authenik8_core_beta.Redis as Redis
use authenik8_core_beta.Auth as Auth
use authenik8_core_beta.Auth.Sessions as Sessions
use authenik8_core_beta.Auth.Sessions.Store as Store
use authenik8_core_beta.Auth.Refresh as Refresh
use authenik8_core_beta.Auth.Refresh.Flow as Flow
use authenik8_core_beta.Auth.{Platform, SessionRedisClient, token_fingerprint}
use authenik8_core_beta.Auth.Refresh.{
  RefreshPayload, RefreshClaims, RefreshService, RefreshResult, refresh_key, refresh_token_matches,
  verify_refresh_token,
}
use authenik8_core_beta.Auth.Refresh.Flow.{refresh}
use authenik8_core_beta.Auth.Refresh.Issue as Issue
use authenik8_core_beta.Auth.Refresh.Issue.{revoke_all_sessions, generate_refresh_token}
use authenik8_core_beta.Auth.Refresh.Issue.Laws.{IsRevocable, revoke_all_sessions-gone}
use authenik8_core_beta.Auth.Refresh.Laws.{IsTokenStore, refresh-replayed}
use authenik8_core_beta.Auth.Refresh.Rotation.{IsDigest, refresh-rotated, refresh-once}

-- The state is the one entry of the token store.
abbrev OneEntry : Type 0
OneEntry = Option Text

abbrev letters : Text
letters = text "AAAAAAAAAAAAAAAAAAAAAAAAAAAAAAAAAAAAAAAAAA"

-- Digests that tell a token of one character from all others.
test_sha256 : Text → Text
test_sha256 t = (if length t == 1 then b'A' else b'B') ∷ letters

test_buffer : Value → Result (List ℕ)
test_buffer (string t) = ok t
test_buffer _ = err (plain "no buffer")

abbrev test_platform : Platform
test_platform = record {
  sha256 = test_sha256;
  buffer_from = test_buffer;
  json_parse = λ t. none;
  json_stringify = λ v. [];
}

abbrev no_commands : SessionRedisClient OneEntry
no_commands = record {
  hget = none;
  hgetall = none;
  hset = none;
  hdel = none;
  del = none;
  expire = none;
}

test_set : Text → Text → Text → ℕ → M OneEntry Bool
test_set key expected value ttl none = (ok false, none)
test_set key expected value ttl (some held) =
    if eqb held expected then (ok true, some value) else (ok false, some held)

abbrev done : M OneEntry (Unit {0})
done s = (ok tt, s)

abbrev ann : RefreshPayload
ann = record { user_id = text "ann"; email = text "ann@example.com"; session_id = text "s1" }

abbrev test_service : RefreshService OneEntry
test_service = record {
  token_store = record {
    get = λ key s. (ok s, s);
    set = none;
    del = some λ key s. (ok tt, none);
    compare_and_set = some test_set;
  };
  access_token_signer = λ payload s. (ok (text "access"), s);
  rotate_refresh_tokens = true;
  refresh_token_ttl = 604_800;
  lock = record {
    set_px_nx = λ key value ttl s. (ok true, s);
    script_get = λ key s. (ok none, s);
    script_del = λ key s. (ok tt, s);
  };
  session_store = record {
    redis = none;
    namespace = text "sessions";
    platform = test_platform;
    now = λ s. (ok 1, s);
  };
  refresh_keys = record {
    sign = λ payload ttl s. (ok (text "t2"), s);
    verify = λ token s. (
      ok (record {
        user_id = string (text "ann");
        email = string (text "ann@example.com");
        session_id = string (text "s1");
      }),
      s,
    );
  };
  redis = no_commands;
  emit = λ event s. (ok tt, s);
  risk = none;
  key_prefix = text "app";
  random_uuid = λ s. (ok (text "uuid"), s);
  platform = test_platform;
}

running : Unit {0}
unfolding Text.eqb Text.is_control Text.contains_control_character Text.join Value.is_unsafe
    Value.is_unsafe_value Pure.traverse Async.◌>>=◌ Async.pure Async.throw Async.lift
    Async.try_catch Async.try_finally Async.branch Async.if_present Redis.is_alphanumeric
    Auth.token_fingerprint Auth.token_fingerprint_matches Auth.assert_identifier Auth.acquire
    Auth.delete_if_held Auth.release Sessions.is_base64url Sessions.matches_token_hash Store.revoke
    Store.session_key Store.session_field Refresh.validate_refresh_identifier
    Refresh.is_refresh_email Refresh.pair_digest Refresh.expected_fingerprint
    Refresh.refresh_token_matches Refresh.payload_of Refresh.as_invalid Refresh.refresh_principal
    Refresh.refresh_signal Refresh.actor_event Refresh.is_nonempty Refresh.scoped
    Refresh.refresh_key Refresh.refresh_family_index_key Refresh.lock_key Refresh.sign_refresh_token
    Refresh.verify_refresh_token Refresh.revoke_refresh_family Refresh.report_risk
    Refresh.report_concurrent_refresh Flow.rotate_token_if_enabled Flow.reject_replay
    Flow.sign_access Flow.or_presented Flow.issue_refreshed Flow.refresh_matched Flow.refresh_locked
    Flow.refresh_with_lock Flow.refuse_quarantined Flow.refresh_decoded Flow.refresh every any
    filter test_sha256 test_buffer test_set Issue.issued_email Issue.run_all Issue.issued_session_id
    Issue.store_issued Issue.issue Issue.generate_refresh_token Issue.run_batches Issue.push
    Issue.chunks_from Issue.chunks Issue.delete_families Issue.indexed_families Issue.delete_index
    Issue.revoke_all_sessions Text.includes Text.distinct Text.distinct_from Store.revoke_all
    Refresh.subject_event
running = tt

abbrev ann_key : Text
ann_key = refresh_key test_service (text "ann") (text "s1")

abbrev first_entry : OneEntry
first_entry = some (test_sha256 (text "1"))

abbrev rotated_entry : OneEntry
rotated_entry = some (test_sha256 (text "t2"))

abbrev refreshed : RefreshResult
refreshed = record { access_token = text "access"; refresh_token = text "t2" }

refresh_runs : refresh test_service (text "1") first_entry ≡ (ok refreshed, rotated_entry)
unfolding running
refresh_runs = refl

ann-verified : Yields (λ d. d ≡ ann) (verify_refresh_token test_service (text "1"))
unfolding running
ann-verified = record { holds = λ s d s' h. ground arith }

test_sha256-IsDigest : IsDigest test_platform
unfolding running
test_sha256-IsDigest = record {
  pattern = λ t. ground arith;
  bytes = test_sha256;
  bytes_lem = λ t. refl;
  bytes_inj = λ t u h. h;
}

abbrev stored_of : OneEntry → Text → Option Text
stored_of s key = s

test_set-sets :
    (key expected value : Text) (s s' : OneEntry) (ttl : ℕ)
    → test_set key expected value ttl s ≡ (ok true, s')
    → (s ≡ some expected) × (s' ≡ some value)
unfolding test_set
test_set-sets key expected value none s' ttl h = cc
test_set-sets key expected value (some held) s' ttl h =
    (ground (arith, h, eqb→eq held expected), ground (arith, h))

test_set-refuses :
    (key expected value : Text) (s s' : OneEntry) (ttl : ℕ)
    → test_set key expected value ttl s ≡ (ok false, s')
    → s' ≡ s
unfolding test_set
test_set-refuses key expected value none s' ttl h = ground (arith, h)
test_set-refuses key expected value (some held) s' ttl h = ground (arith, h)

keeps :
    {A : Type 0} (m : M OneEntry A)
    → ((s : OneEntry) → (m s).1 ≡ s)
    → Keeps (λ s t. (key : Text) → t ≡ s) m
keeps m h = record { holds = λ s key. h s }

test-IsTokenStore : IsTokenStore test_service stored_of
test-IsTokenStore = record {
  token_store = record {
    get = λ key s value s' h. (ground arith, λ k. ground arith);
    compare_and_set = λ cas present key expected value ttl s s' h.
        test_set-sets key expected value s s' ttl (
          let e : cas ≡ test_set = ground arith in
          subst (λ f. f key expected value ttl s ≡ (ok true, s')) e h);
    refused = λ cas present key expected value ttl s s' h.
        test_set-refuses key expected value s s' ttl (
          let e : cas ≡ test_set = ground arith in
          subst (λ f. f key expected value ttl s ≡ (ok false, s')) e h);
  };
  sign = λ payload ttl. keeps _ λ s. refl;
  verify = λ token. keeps _ λ s. refl;
  access = λ payload. keeps _ λ s. refl;
  emit = λ event. keeps _ λ s. refl;
  quarantined = λ risk present principal. absurd (none≢some present);
  uuid = keeps _ λ s. refl;
  lock_set = λ key value ttl. keeps _ λ s. refl;
  lock_get = λ key. keeps _ λ s. refl;
  lock_del = λ key. keeps _ λ s. refl;
}
  where
    none≢some : {A : Type 0} {a : A} → none ≡ some a → ⊥
    none≢some h = cc

mismatch : refresh_token_matches test_platform rotated_entry (text "1") ≢ ok true
unfolding running
mismatch h = cc

ann-replayed : Ensures (λ s. s ≡ rotated_entry) (refresh test_service (text "1")) (λ r s. ⊥)
ann-replayed =
    refresh-replayed test_service stored_of test-IsTokenStore ann (text "1") rotated_entry
      ann-verified mismatch

ann-rotated :
    Ensures
      (λ s. s ≡ first_entry)
      (refresh test_service (text "1"))
      (λ r s. s ≡ some (token_fingerprint test_platform r.refresh_token))
ann-rotated =
    refresh-rotated test_service stored_of test-IsTokenStore ann (text "1") first_entry ann-verified
      refl

different : token_fingerprint test_platform (text "t2") ≢ token_fingerprint test_platform (text "1")
unfolding running
different h = let e : false ≡ true = ap (λ t. eqb t (test_sha256 (text "1"))) h in cc

ann-once : refresh test_service (text "1") rotated_entry ≢ (ok refreshed, rotated_entry)
ann-once =
    refresh-once test_service stored_of test-IsTokenStore ann (text "1") first_entry
      test_sha256-IsDigest ann-verified refl first_entry rotated_entry refreshed refl refresh_runs
      different rotated_entry rotated_entry refreshed refl

revoke_all_runs :
    (revoke_all_sessions test_service (text "ann") (text "s1" ∷ []) first_entry).1 ≡ none
unfolding running
revoke_all_runs = refl

test-IsRevocable : IsRevocable test_service stored_of
test-IsRevocable = record {
  del = λ key s. (ok tt, none);
  del_lem = refl;
  gone = λ key. record { holds = λ s p u s' h. ground arith };
  del_stable = λ key k. record { holds = λ s p u s' h. ground arith };
  index_stable = λ key del present. absurd (absent present);
  sessions_stable = λ key redis del present. absurd (absent present);
  emit_stable = λ key event. record { holds = λ s p u s' h. ground (arith, p) };
}
  where
    absent : {A : Type 0} {a : A} → none ≡ some a → ⊥
    absent h = cc

listed : Text.Has (text "s1" ∷ []) (text "s1")
unfolding running
listed = refl

ann-gone :
    Ensures
      (λ s. Unit {0})
      (revoke_all_sessions test_service (text "ann") (text "s1" ∷ []))
      (λ u s. s ≡ none)
ann-gone =
    revoke_all_sessions-gone test_service stored_of test-IsRevocable (text "ann") (text "s1" ∷ [])
      (text "s1") (inl listed)
