-- ===== src/Auth/Refresh/Tests.antt =====
-- A refresh over a store of texts in which a lock is set once, and an instance of the theorem on it.
use authenik8_core_beta.Common.{
  ◌≡◌, refl, ◌⊎◌, inl, inr, Bool, true, false, not, Option, none, some, [], ◌∷◌, length, ◌==◌,
  filter, if◌then◌else◌,
}
use authenik8_core_beta.Common.Text as Text
use authenik8_core_beta.Common.Dict as Dict
use authenik8_core_beta.Common.Effects.Async as Async
use authenik8_core_beta.Common.Text.{Text, text, eqb}
use authenik8_core_beta.Common.Dict.{Dict, lookup, insert}
use authenik8_core_beta.Common.Value.{Value, string}
use authenik8_core_beta.Common.Effects.{Result, ok, err, plain}
use authenik8_core_beta.Common.Effects.Returns.{Returns}
use authenik8_core_beta.Auth as Auth
use authenik8_core_beta.Auth.Sessions as Sessions
use authenik8_core_beta.Auth.Refresh as Refresh
use authenik8_core_beta.Auth.Refresh.{
  RefreshPayload, RefreshResult, RefreshService, refresh_key, lock_key,
}
use authenik8_core_beta.Auth.Refresh.Flow as Flow
use authenik8_core_beta.Auth.Refresh.Flow.{refresh}
use authenik8_core_beta.Auth.Refresh.Liveness.{IsHealthy, refresh-Returns}

abbrev World : Type 0
World = Dict Text

abbrev letters : Text
letters = text "AAAAAAAAAAAAAAAAAAAAAAAAAAAAAAAAAAAAAAAAAA"

-- Digests that tell a token of one character from all others.
test_sha256 : Text → Text
test_sha256 t = (if length t == 1 then b'A' else b'B') ∷ letters

test_buffer : Value → Result Text
test_buffer (string t) = ok t
test_buffer _ = err (plain "no buffer")

-- `SET key value PX ttl NX`.
set_absent : Text → Text → World → Option Text → Bool × World
set_absent key value s none = (true, insert key value s)
set_absent key value s (some held) = (false, s)

set_equal : Text → Text → Text → World → Option Text → Bool × World
set_equal key expected value s none = (false, s)
set_equal key expected value s (some held) =
    if eqb held expected then (true, insert key value s) else (false, s)

abbrev ann : RefreshPayload
ann = record { user_id = text "ann"; email = text "ann@example.com"; session_id = text "s1" }

abbrev test_service : RefreshService World
test_service = record {
  token_store = record {
    get = λ key s. (ok (lookup key s), s);
    set = none;
    del = none;
    compare_and_set = some λ key expected value ttl s.
        let (b, s') = set_equal key expected value s (lookup key s) in (ok b, s');
  };
  access_token_signer = λ payload s. (ok (text "access"), s);
  rotate_refresh_tokens = true;
  refresh_token_ttl = 604_800;
  lock = record {
    set_px_nx =
        λ key value ttl s. let (b, s') = set_absent key value s (lookup key s) in (ok b, s');
    script_get = λ key s. (ok (lookup key s), s);
    script_del = λ key s. (ok tt, filter (λ e. not (eqb e.0 key)) s);
  };
  session_store = record {
    redis = none;
    namespace = text "sessions";
    platform = record {
      sha256 = test_sha256;
      buffer_from = test_buffer;
      json_parse = λ t. none;
      json_stringify = λ v. [];
    };
    now = λ s. (ok 1, s);
  };
  refresh_keys = record {
    sign = λ payload ttl s. (ok (text "t2"), s);
    verify = λ token s. (
      ok (record {
        user_id = string (text "ann");
        email = string (text "ann@example.com");
        session_id = string (text "s1");
      }),
      s,
    );
  };
  redis = record {
    hget = none;
    hgetall = none;
    hset = none;
    hdel = none;
    del = none;
    expire = none;
  };
  emit = λ event s. (ok tt, s);
  risk = none;
  key_prefix = text "app";
  random_uuid = λ s. (ok (text "uuid"), s);
  platform = record {
    sha256 = test_sha256;
    buffer_from = test_buffer;
    json_parse = λ t. none;
    json_stringify = λ v. [];
  };
}

running : Unit {0}
unfolding Text.eqb Text.is_control Text.contains_control_character Text.join Dict.lookup Dict.insert
    Async.◌>>=◌ Async.pure Async.throw Async.lift Async.try_catch Async.try_finally Async.branch
    Async.if_present Auth.token_fingerprint Auth.token_fingerprint_matches Auth.acquire
    Auth.delete_if_held Auth.release Sessions.is_base64url Sessions.matches_token_hash
    Refresh.validate_refresh_identifier Refresh.is_refresh_email Refresh.pair_digest
    Refresh.expected_fingerprint Refresh.refresh_token_matches Refresh.payload_of
    Refresh.is_nonempty Refresh.scoped Refresh.refresh_key Refresh.lock_key
    Refresh.sign_refresh_token Refresh.verify_refresh_token Flow.rotate_token_if_enabled
    Flow.sign_access Flow.or_presented Flow.issue_refreshed Flow.refresh_matched Flow.refresh_locked
    Flow.refresh_with_lock Flow.refuse_quarantined Flow.refresh_decoded Flow.refresh test_sha256
    test_buffer set_absent set_equal filter
running = tt

abbrev ann_key : Text
ann_key = refresh_key test_service (text "ann") (text "s1")

abbrev ann_lock : Text
ann_lock = lock_key test_service (text "ann") (text "s1")

abbrev Stored : Text → World → World → Type 0
Stored token rest s = s ≡ (ann_key, token) ∷ rest

abbrev Before : World → Type 0
Before s = Stored (test_sha256 (text "1")) [] s

abbrev Locked : World → Type 0
Locked s = (lock : Text) × Stored (test_sha256 (text "1")) ((ann_lock, lock) ∷ []) s

-- The lock may be there still.
abbrev After : World → Type 0
After s =
    (token : Text) × (((lock : Text) × Stored token ((ann_lock, lock) ∷ []) s) ⊎ Stored token [] s)

refresh_runs : refresh test_service (text "1") ((ann_key, test_sha256 (text "1")) ∷ []) ≡ (
  ok (record { access_token = text "access"; refresh_token = text "t2" }),
  (ann_key, test_sha256 (text "t2")) ∷ [],
)
unfolding running
refresh_runs = refl

-- A lock that is held is not set.
locked_run :
    (test_service.lock.set_px_nx ann_lock (text "2") 1 ((ann_lock, text "1") ∷ [])).0 ≡ ok false
unfolding running
locked_run = refl

del_After : (s : World) → After s → After (filter (λ e. not (eqb e.0 ann_lock)) s)
unfolding running
del_After s (token, inl (lock, p)) = rw p (token, inr refl)
del_After s (token, inr p) = rw p (token, inr refl)

ann-IsHealthy : IsHealthy test_service ann (text "1") Before Locked After
unfolding running
ann-IsHealthy = record {
  claims = record {
    user_id = string (text "ann");
    email = string (text "ann@example.com");
    session_id = string (text "s1");
  };
  claims_lem = refl;
  verify = record { holds = λ s p. (_, s, refl, (refl, p)) };
  released = λ risk present. cc;
  uuid = record { holds = λ s p. (_, s, refl, p) };
  lock_set = λ value. record { holds = λ s p. rw p (true, _, refl, (refl, (value, refl))) };
  held = test_sha256 (text "1");
  held_lem = refl;
  get = record { holds = λ s (lock, p). rw p (_, _, refl, (refl, (lock, refl))) };
  sign = λ ttl. record { holds = λ s p. (_, s, refl, p) };
  set = λ key expected value ttl s.
      let (b, s') = set_equal key expected value s (lookup key s) in (ok b, s');
  set_lem = refl;
  replace = λ value ttl. record {
    holds = λ s (lock, p). rw p (true, _, refl, (refl, (value, inl (lock, refl))));
  };
  access = record { holds = λ s p. (_, s, refl, p) };
  emit = λ event. record { holds = λ s p. (tt, s, refl, p) };
  lock_get = record { holds = λ s p. (_, s, refl, p) };
  lock_del = record { holds = λ s p. (tt, _, refl, del_After s p) };
}

one_unit : (length (text "1") == 0) ≡ false
one_unit = refl

ann-Returns : Returns Before (refresh test_service (text "1")) (λ r. After)
ann-Returns = refresh-Returns test_service ann (text "1") ann-IsHealthy refl one_unit
