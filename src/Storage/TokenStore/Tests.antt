-- ===== src/Storage/TokenStore/Tests.antt =====
-- An instance of the theorem on compare-and-set, over a store of one entry.
use authenik8_core_beta.Common.{◌≡◌, refl, Option, some, none, true, arith}
use authenik8_core_beta.Common.Text as Text
use authenik8_core_beta.Common.Text.{Text, text}
use authenik8_core_beta.Common.Effects.{ok}
use authenik8_core_beta.Common.Effects.Async as Async
use authenik8_core_beta.Common.Effects.Triples.{Ensures}
use authenik8_core_beta.Storage.TokenStore as TokenStore
use authenik8_core_beta.Storage.TokenStore.{TokenRedis, compare_and_set}
use authenik8_core_beta.Storage.TokenStore.Laws.{IsRedis, Replaced, compare_and_set-Replaced}

abbrev test_redis : TokenRedis (Option Text)
test_redis = record {
  get = λ key s. (ok s, s);
  set = λ key value s. (ok tt, some value);
  set_ex = λ key value ttl s. (ok tt, some value);
  del = λ key s. (ok tt, none);
  exists = λ key s. (ok 1, s);
  incr = λ key s. (ok 1, s);
  expire = λ key ttl s. (ok tt, s);
}

abbrev stored_of : Option Text → Text → Option Text
stored_of s key = s

test_redis-IsRedis : IsRedis test_redis stored_of
test_redis-IsRedis = record {
  get = λ key k held. record { holds = λ s p found s' h. (ground (arith, p), ground arith) };
  set = λ key value. record { holds = λ s p u s' h. ground arith };
  set_ex = λ key value ttl. record { holds = λ s p u s' h. ground arith };
}

replace_runs :
    compare_and_set test_redis (text "k") (text "old") (text "new") 60 (some (text "old"))
    ≡ (ok true, some (text "new"))
unfolding compare_and_set TokenStore.replace_if TokenStore.set Text.eqb Async.◌>>=◌ Async.pure
    Async.branch
replace_runs = refl

old-Replaced :
    Ensures
      (λ s. s ≡ some (text "old"))
      (compare_and_set test_redis (text "k") (text "old") (text "new") 60)
      (Replaced test_redis stored_of (text "k") (text "old") (text "new") (some (text "old")))
old-Replaced =
    compare_and_set-Replaced test_redis stored_of test_redis-IsRedis (text "k") (text "old")
      (text "new") 60 (some (text "old"))
