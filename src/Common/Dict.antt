-- ===== src/Common/Dict.antt =====
-- A `Map` with string keys in insertion order, and a Redis hash: an association list.
use mathlib.Core.Path.{◌≡◌, refl}
use mathlib.Core.Logic.{◌≢◌}
use mathlib.Core.Option.{Option, none, some}
use mathlib.Core.List.{List, [], ◌∷◌}
use native.Mathlib.Omega.{arith}
use authenik8_core_beta.Common.Tests.{if◌then◌else◌}
use authenik8_core_beta.Common.Text.{Text, eqb, eqb_iff}

abbrev pub Dict {ℓ} : Type ℓ → Type ℓ
Dict V = List (Text × V)

module _ {ℓ} {V : Type ℓ} where
  unfoldable pub lookup : Text → Dict V → Option V
  lookup k [] = none
  lookup k ((j, v) ∷ m) = if eqb j k then some v else lookup k m

  -- An existing key keeps its place.
  unfoldable pub insert : Text → V → Dict V → Dict V
  insert k v [] = (k, v) ∷ []
  insert k v ((j, w) ∷ m) = if eqb j k then (j, v) ∷ m else (j, w) ∷ insert k v m

  unfoldable pub delete : Text → Dict V → Dict V
  delete k [] = []
  delete k ((j, w) ∷ m) = if eqb j k then delete k m else (j, w) ∷ delete k m

  pub lookup-insert :
      (k j : Text) (v : V) (m : Dict V)
      → lookup j (insert k v m) ≡ (if eqb k j then some v else lookup j m)
  unfolding lookup insert
  lookup-insert k j v [] = refl
  lookup-insert k j v ((i, w) ∷ m) =
      ground (arith, eqb_iff k j, eqb_iff i k, eqb_iff i j, lookup-insert k j v m)

  pub lookup-delete :
      (k j : Text) (m : Dict V) → lookup j (delete k m) ≡ (if eqb k j then none else lookup j m)
  unfolding lookup delete
  lookup-delete k j [] = ground arith
  lookup-delete k j ((i, w) ∷ m) =
      ground (arith, eqb_iff k j, eqb_iff i k, eqb_iff i j, lookup-delete k j m)

-- No key stands twice.
abbrev pub HasDistinctKeys {ℓ} : {V : Type ℓ} → Dict V → Type ℓ
HasDistinctKeys {V} [] = Unit
HasDistinctKeys ((k, v) ∷ m) = (lookup k m ≡ none) × HasDistinctKeys m

pub insert-HasDistinctKeys {ℓ} :
    {V : Type ℓ} (k : Text) (v : V) (m : Dict V)
    → HasDistinctKeys m
    → HasDistinctKeys (insert k v m)
unfolding insert lookup
insert-HasDistinctKeys k v [] h = (refl, tt)
insert-HasDistinctKeys k v ((j, w) ∷ m) h =
    ground
      (arith, eqb_iff j k, eqb_iff k j, lookup-insert k j v m, insert-HasDistinctKeys k v m h.1)

-- A new key leaves the others alone.
pub lookup-insert_fresh {ℓ} :
    {V : Type ℓ} (k j : Text) (v u : V) (m : Dict V)
    → lookup k m ≡ none
    → lookup j m ≡ some u
    → lookup j (insert k v m) ≡ some u
lookup-insert_fresh k j v u m h l = ground (arith, lookup-insert k j v m, eqb_iff k j)

pub lookup-insert_ne {ℓ} :
    {V : Type ℓ} (k j : Text) (v : V) (m : Dict V) → j ≢ k → lookup j (insert k v m) ≡ lookup j m
lookup-insert_ne k j v m h = ground (arith, lookup-insert k j v m, eqb_iff k j)
