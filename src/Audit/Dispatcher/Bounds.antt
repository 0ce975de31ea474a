-- ===== src/Audit/Dispatcher/Bounds.antt =====
-- How large the copy of an event's metadata can be: `cloneAuditValue` of
-- src/audit/auditDispatcher.ts.
use authenik8_core_beta.Common.{
  ℕ, zero, suc, ◌≡◌, ◌≤◌, ◌<◌, ◌+◌, refl, ◌∙◌, Bool, true, false, none, some, List, [], ◌∷◌, arith,
  All, length, take, length-take-le,
}
use authenik8_core_beta.Common.Text.{Text, text, eqb, includes}
use authenik8_core_beta.Common.Value.{
  Value, undefined, null, other, boolean, number, bigint, function, symbol, date, string, array,
  object, Items, nil, cons, Fields, end, field, put_field,
}
use authenik8_core_beta.Audit.Dispatcher.{
  max_metadata_depth, max_metadata_nodes, max_object_keys, max_array_items,
  max_metadata_string_length, blocked_keys, clone_audit_value, clone_items, clone_fields,
  detached_metadata,
}

-- The key is none of those that reach a prototype, and not too long.
pub record IsKey (k : Text) : Type 0 where
  pub allowed : includes (text "__proto__" ∷ text "constructor" ∷ text "prototype" ∷ []) k ≡ false
  pub bounded : length k ≤ 128

-- The texts of all bigints and dates in the value have at most `limit` units.
unfoldable mutual
  pub HasShort : ℕ → Value → Type 0
  HasShort limit (bigint t) = length t ≤ limit
  HasShort limit (date (some t)) = length t ≤ limit
  HasShort limit (array vs) = HaveShort limit vs
  HasShort limit (object fs) = FieldsHaveShort limit fs
  HasShort limit _ = Unit

  pub HaveShort : ℕ → Items → Type 0
  HaveShort limit nil = Unit
  HaveShort limit (cons v vs) = HasShort limit v × HaveShort limit vs

  pub FieldsHaveShort : ℕ → Fields → Type 0
  FieldsHaveShort limit end = Unit
  FieldsHaveShort limit (field k v fs) = HasShort limit v × FieldsHaveShort limit fs

-- At most `levels` arrays and objects within each other, and texts of at most `limit` units; `room`
-- more items or fields. A copy has no bigint, function, symbol or date.
unfoldable mutual
  pub IsBounded : ℕ → ℕ → Value → Type 0
  IsBounded limit levels null = Unit
  IsBounded limit levels other = Unit
  IsBounded limit levels (boolean b) = Unit
  IsBounded limit levels (number n) = Unit
  IsBounded limit levels (string t) = length t ≤ limit
  IsBounded limit zero (array vs) = ⊥
  IsBounded limit (suc levels) (array vs) = AreItems limit levels 128 vs
  IsBounded limit zero (object fs) = ⊥
  IsBounded limit (suc levels) (object fs) = AreFields limit levels 64 fs
  IsBounded limit levels _ = ⊥

  pub AreItems : ℕ → ℕ → ℕ → Items → Type 0
  AreItems limit levels room nil = Unit
  AreItems limit levels zero (cons v vs) = ⊥
  AreItems limit levels (suc room) (cons v vs) =
      IsBounded limit levels v × AreItems limit levels room vs

  pub AreFields : ℕ → ℕ → ℕ → Fields → Type 0
  AreFields limit levels room end = Unit
  AreFields limit levels zero (field k v fs) = ⊥
  AreFields limit levels (suc room) (field k v fs) =
      IsKey k × IsBounded limit levels v × AreFields limit levels room fs

AreFields-weaken :
    (limit levels room more : ℕ) (fs : Fields)
    → room ≤ more
    → AreFields limit levels room fs
    → AreFields limit levels more fs
unfolding IsBounded
AreFields-weaken limit levels room more end h fields = tt
AreFields-weaken limit levels zero more (field k v fs) h fields = absurd fields
AreFields-weaken limit levels (suc room) zero (field k v fs) h fields = absurd (omega arith)
AreFields-weaken limit levels (suc room) (suc more) (field k v fs) h (key, value, fields) =
    (key, value, AreFields-weaken limit levels room more fs (omega arith) fields)

put_field-AreFields :
    (limit levels room : ℕ) (k : Text) (v : Value) (fs : Fields)
    → IsKey k
    → IsBounded limit levels v
    → AreFields limit levels room fs
    → AreFields limit levels (suc room) (put_field k v fs)
unfolding put_field IsBounded
put_field-AreFields limit levels room k v end key value fields = (key, value, tt)
put_field-AreFields limit levels zero k v (field j w fs) key value fields = absurd fields
put_field-AreFields limit levels (suc room) k v (field j w fs) key value (key', value', fields) =
    ground (
      arith,
      AreFields-weaken limit levels room (suc room) fs (omega arith) fields,
      put_field-AreFields limit levels room k v fs key value fields,
    )

eqb-take : (n : ℕ) (s t : Text) → length s < n → eqb s (take n t) ≡ eqb s t
unfolding eqb
eqb-take zero s t h = absurd (omega arith)
eqb-take (suc n) [] [] h = refl
eqb-take (suc n) [] (d ∷ t) h = refl
eqb-take (suc n) (c ∷ s) [] h = refl
eqb-take (suc n) (c ∷ s) (d ∷ t) h = rw (eqb-take n s t (omega arith)) refl

-- The beginning of a text is among shorter texts only if the whole text is.
includes-take :
    (n : ℕ) (ss : List Text) (t : Text)
    → All (λ s. length s < n) ss
    → includes ss (take n t) ≡ includes ss t
unfolding includes
includes-take n [] t short = refl
includes-take n (s ∷ ss) t (short, shorter) =
    rw (eqb-take n s t short, includes-take n ss t shorter) refl

take-IsKey : (k : Text) → includes blocked_keys k ≡ false → IsKey (take 128 k)
take-IsKey k h = record {
  allowed = includes-take 128 blocked_keys k (omega arith, (omega arith, (omega arith, tt))) ∙ h;
  bounded = length-take-le 128 k;
}

either :
    (P : Fields × ℕ → Type 0) (b : Bool) (r s : Fields × ℕ)
    → (b ≡ true → P r)
    → (b ≡ false → P s)
    → P (elim b [ true ↦ r | false ↦ s ])
either P true r s h k = h refl
either P false r s h k = k refl

module _ (limit : ℕ) (large : 2048 ≤ limit) where
  mutual
    unfolding clone_audit_value IsBounded HasShort

    clone_audit_value-IsBounded_at :
        (levels budget : ℕ) (v : Value)
        → HasShort limit v
        → IsBounded limit levels (clone_audit_value levels budget v).0
    clone_audit_value-IsBounded_at levels zero v short = omega (arith, large)
    clone_audit_value-IsBounded_at levels (suc budget) undefined short = omega (arith, large)
    clone_audit_value-IsBounded_at levels (suc budget) null short = tt
    clone_audit_value-IsBounded_at levels (suc budget) other short = tt
    clone_audit_value-IsBounded_at levels (suc budget) (boolean b) short = tt
    clone_audit_value-IsBounded_at levels (suc budget) (number n) short = tt
    clone_audit_value-IsBounded_at levels (suc budget) (bigint t) short = short
    clone_audit_value-IsBounded_at levels (suc budget) function short = omega (arith, large)
    clone_audit_value-IsBounded_at levels (suc budget) symbol short = omega (arith, large)
    clone_audit_value-IsBounded_at zero (suc budget) (date t) short = omega (arith, large)
    clone_audit_value-IsBounded_at (suc levels) (suc budget) (date none) short =
        omega (arith, large)
    clone_audit_value-IsBounded_at (suc levels) (suc budget) (date (some t)) short = short
    clone_audit_value-IsBounded_at levels (suc budget) (string t) short =
        omega (arith, large, length-take-le max_metadata_string_length t)
    clone_audit_value-IsBounded_at zero (suc budget) (array vs) short = omega (arith, large)
    clone_audit_value-IsBounded_at (suc levels) (suc budget) (array vs) short =
        clone_items-AreItems levels budget max_array_items vs short
    clone_audit_value-IsBounded_at zero (suc budget) (object fs) short = omega (arith, large)
    clone_audit_value-IsBounded_at (suc levels) (suc budget) (object fs) short =
        clone_fields-AreFields levels budget max_object_keys zero max_object_keys end fs short
          (omega arith) tt

    clone_items-AreItems :
        (levels budget room : ℕ) (vs : Items)
        → HaveShort limit vs
        → AreItems limit levels room (clone_items levels budget room vs).0
    clone_items-AreItems levels budget zero vs short = tt
    clone_items-AreItems levels budget (suc room) nil short = tt
    clone_items-AreItems levels budget (suc room) (cons v vs) (short, shorter) = (
      clone_audit_value-IsBounded_at levels budget v short,
      clone_items-AreItems levels _ room vs shorter,
    )

    clone_fields-AreFields :
        (levels budget room used total : ℕ) (cloned fs : Fields)
        → FieldsHaveShort limit fs
        → room + used ≤ total
        → AreFields limit levels used cloned
        → AreFields limit levels total (clone_fields levels budget room cloned fs).0
    clone_fields-AreFields levels budget zero used total cloned fs short h fields =
        AreFields-weaken limit levels used total cloned (omega arith) fields
    clone_fields-AreFields levels budget (suc room) used total cloned end short h fields =
        AreFields-weaken limit levels used total cloned (omega arith) fields
    clone_fields-AreFields levels budget (suc room) used total cloned (field k v fs)
          (short, shorter) h fields =
        either (λ out. AreFields limit levels total out.0) (includes blocked_keys k) _ _
          (λ blocked.
            clone_fields-AreFields levels budget room used total cloned fs shorter (omega arith)
              fields)
          λ allowed.
            clone_fields-AreFields levels _ room (suc used) total _ fs shorter (omega arith) (
              put_field-AreFields limit levels used (take 128 k) _ cloned (take-IsKey k allowed)
                (clone_audit_value-IsBounded_at levels budget v short) fields)

-- The metadata that an event carries has at most 8 arrays and objects within each other, at most 128
-- items in an array and 64 fields in an object; its keys have at most 128 units and are none of those
-- that reach a prototype; and its texts have at most 2048 units, or as many as the longest text of a
-- bigint or date in the metadata that the caller passes.
pub detached_metadata-IsBounded :
    (limit : ℕ) (metadata : Fields)
    → 2048 ≤ limit
    → FieldsHaveShort limit metadata
    → IsBounded limit 8 (detached_metadata metadata)
unfolding detached_metadata HasShort
detached_metadata-IsBounded limit metadata large short =
    clone_audit_value-IsBounded_at limit large max_metadata_depth max_metadata_nodes
      (object metadata) short
