-- ===== src/Audit/Dispatcher.antt =====
-- src/audit/auditDispatcher.ts: the metadata of an event is copied within bounds, and the event is
-- delivered to every sink. A value is a tree here, so that "[circular]" does not arise.
pub mod Bounds
pub mod Delivery
mod Tests
use authenik8_core_beta.Common.{
  ℕ, zero, suc, String, Bool, true, false, not, ◌||◌, Option, none, some, List, [], ◌∷◌,
  if◌then◌else◌, ltb, length, take,
}
use authenik8_core_beta.Common.Text.{Text, text, includes}
use authenik8_core_beta.Common.Value.{
  Value, undefined, null, other, boolean, number, bigint, function, symbol, date, string, array,
  object, Items, nil, cons, Fields, end, field, put_field, is_unsafe,
}
use authenik8_core_beta.Common.Effects.{Result, ok, err, unsafe_text}
use authenik8_core_beta.Common.Effects.Pure.{◌>>=◌}
use authenik8_core_beta.Audit.{AuditActor}

abbrev pub max_metadata_depth : ℕ
max_metadata_depth = 8

abbrev pub max_metadata_nodes : ℕ
max_metadata_nodes = 2048

abbrev pub max_object_keys : ℕ
max_object_keys = 64

abbrev pub max_array_items : ℕ
max_array_items = 128

abbrev pub max_metadata_string_length : ℕ
max_metadata_string_length = 2048

abbrev pub blocked_keys : List Text
blocked_keys = text "__proto__" ∷ text "constructor" ∷ text "prototype" ∷ []

abbrev pub limit_reached : Value
limit_reached = string (text "[metadata limit reached]")

abbrev pub depth_reached : Value
depth_reached = string (text "[depth limit reached]")

abbrev pub array_of : Items × ℕ → Value × ℕ
array_of (vs, budget) = (array vs, budget)

abbrev pub cons_of : Value → Items × ℕ → Items × ℕ
cons_of v (vs, budget) = (cons v vs, budget)

abbrev pub object_of : Fields × ℕ → Value × ℕ
object_of (fs, budget) = (object fs, budget)

-- `cloneAuditValue`, with the depths and the nodes that are left; the fields are those cloned so far.
unfoldable mutual
  unfolding includes put_field

  pub clone_audit_value : ℕ → ℕ → Value → Value × ℕ
  clone_audit_value levels zero v = (limit_reached, zero)
  clone_audit_value levels (suc budget) undefined = (string (text "[undefined]"), budget)
  clone_audit_value levels (suc budget) null = (null, budget)
  clone_audit_value levels (suc budget) other = (other, budget)
  clone_audit_value levels (suc budget) (bigint t) = (string t, budget)
  clone_audit_value levels (suc budget) function = (string (text "[function]"), budget)
  clone_audit_value levels (suc budget) symbol = (string (text "[symbol]"), budget)
  clone_audit_value zero (suc budget) (date t) = (depth_reached, budget)
  clone_audit_value (suc levels) (suc budget) (date none) = (string (text "[invalid date]"), budget)
  clone_audit_value (suc levels) (suc budget) (date (some t)) = (string t, budget)
  clone_audit_value levels (suc budget) (boolean b) = (boolean b, budget)
  clone_audit_value levels (suc budget) (number n) = (number n, budget)
  clone_audit_value levels (suc budget) (string t) =
      (string (take max_metadata_string_length t), budget)
  clone_audit_value zero (suc budget) (array vs) = (depth_reached, budget)
  clone_audit_value (suc levels) (suc budget) (array vs) =
      array_of (clone_items levels budget max_array_items vs)
  clone_audit_value zero (suc budget) (object fs) = (depth_reached, budget)
  clone_audit_value (suc levels) (suc budget) (object fs) =
      object_of (clone_fields levels budget max_object_keys end fs)

  pub clone_items : ℕ → ℕ → ℕ → Items → Items × ℕ
  clone_items levels budget zero vs = (nil, budget)
  clone_items levels budget (suc n) nil = (nil, budget)
  clone_items levels budget (suc n) (cons v vs) =
      let (w, left) = clone_audit_value levels budget v in cons_of w (clone_items levels left n vs)

  pub clone_fields : ℕ → ℕ → ℕ → Fields → Fields → Fields × ℕ
  clone_fields levels budget zero cloned fs = (cloned, budget)
  clone_fields levels budget (suc n) cloned end = (cloned, budget)
  clone_fields levels budget (suc n) cloned (field k v fs) = elim (includes blocked_keys k) [
    | true ↦ clone_fields levels budget n cloned fs
    | false ↦
        let (w, left) = clone_audit_value levels budget v in
        clone_fields levels left n (put_field (take 128 k) w cloned) fs
  ]

unfoldable pub detached_metadata : Fields → Value
unfolding clone_audit_value
detached_metadata metadata =
    (clone_audit_value max_metadata_depth max_metadata_nodes (object metadata)).0

unfoldable pub optional_safe_string : Option Text → String → ℕ → Result (Option Text)
unfolding is_unsafe
optional_safe_string none label maximum = ok none
optional_safe_string (some value) label maximum =
    if is_unsafe maximum value then err (unsafe_text label maximum) else ok (some value)

unfoldable pub detached_actor : AuditActor → String → Result AuditActor
unfolding optional_safe_string
detached_actor actor label = do
  id ← optional_safe_string actor.id label 256
  ok (record { type = actor.type; id = id })

unfoldable pub detached_subject : Option AuditActor → Result (Option AuditActor)
unfolding detached_actor
detached_subject none = ok none
detached_subject (some subject) =
    detached_actor subject "audit.subject.id" >>= λ detached. ok (some detached)
