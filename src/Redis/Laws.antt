-- ===== src/Redis/Laws.antt =====
-- Key prefixes of src/redis/keyNamespace.ts.
use authenik8_core_beta.Common.{◌≤◌, ◌≡◌, ap, sym, ◌∙◌, true, false, [], ◌∷◌, arith, length}
use authenik8_core_beta.Common.Text.{Text, trim}
use authenik8_core_beta.Common.Trim.{trim_idem}
use authenik8_core_beta.Common.Effects.{ok}
use authenik8_core_beta.Redis.{
  max_prefix_length, matches_prefix_pattern, ends_with_colon, validate_redis_key_prefix,
}

-- A prefix that may stand in front of a key.
pub record IsPrefix (p : Text) : Type 0 where
  pub few : length p ≤ max_prefix_length
  pub matching : matches_prefix_pattern p ≡ true
  pub open_ended : ends_with_colon p ≡ false

pub validate_redis_key_prefix-IsPrefix :
    (configured p : Text) → validate_redis_key_prefix configured ≡ ok p → IsPrefix p
unfolding validate_redis_key_prefix
validate_redis_key_prefix-IsPrefix configured p h = ground arith

validate_IsPrefix :
    (p : Text)
    → trim p ≡ p
    → matches_prefix_pattern p ≡ true
    → IsPrefix p
    → validate_redis_key_prefix p ≡ ok p
unfolding validate_redis_key_prefix matches_prefix_pattern
validate_IsPrefix (c ∷ s) e m h = rw e (ground (arith, h.few))
validate_IsPrefix [] e m h = cc

validated_trim :
    (configured p : Text) → validate_redis_key_prefix configured ≡ ok p → p ≡ trim configured
unfolding validate_redis_key_prefix
validated_trim configured p h = ground arith

-- A validated prefix passes the validation again unchanged: services that validate the prefix that
-- they are handed agree on it.
validate_redis_key_prefix_idem :
    (configured p : Text)
    → validate_redis_key_prefix configured ≡ ok p
    → validate_redis_key_prefix p ≡ ok p
validate_redis_key_prefix_idem configured p h =
    let valid = validate_redis_key_prefix-IsPrefix configured p h in
    let e = validated_trim configured p h in
    validate_IsPrefix p (ap trim e ∙ trim_idem configured ∙ sym e) valid.matching valid
