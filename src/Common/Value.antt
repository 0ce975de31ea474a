-- ===== src/Common/Value.antt =====
-- Values of type `unknown`: what an adapter, a store or a request hands to a validator.
use Prim.Native.Nat.{ℕ}
use mathlib.Core.Path.{◌≡◌, refl}
use mathlib.Core.Bool.{Bool, true, false, not, ◌||◌}
use mathlib.Core.Option.{Option}
use mathlib.Core.List.{List, [], ◌∷◌}
use authenik8_core_beta.Common.Tests.{ltb, ◌==◌, if◌then◌else◌}
use authenik8_core_beta.Common.Lists.{length}
use authenik8_core_beta.Common.Text.{Text, text, eqb, contains_control_character}

mutual
  -- `number` is a natural number and `other` a number that is none; `bigint` has the decimal text, and
  -- `date` the text of `toISOString`, or none where the date is invalid.
  pub data Value : Type 0 where
    undefined null other function symbol : Value
    bigint : Text → Value
    date : Option Text → Value
    boolean : Bool → Value
    number : ℕ → Value
    string : Text → Value
    array : Items → Value
    object : Fields → Value

  pub data Items : Type 0 where
    nil : Items
    cons : Value → Items → Items

  pub data Fields : Type 0 where
    end : Fields
    field : Text → Value → Fields → Fields

unfoldable pub items : Items → List Value
items nil = []
items (cons v vs) = v ∷ items vs

unfoldable pub from_items : List Value → Items
from_items [] = nil
from_items (v ∷ vs) = cons v (from_items vs)

pub items-from_items : (vs : List Value) → items (from_items vs) ≡ vs
unfolding items from_items
items-from_items [] = refl
items-from_items (v ∷ vs) = cc (items-from_items vs)

-- Object.keys.
unfoldable pub keys : Fields → List Text
keys end = []
keys (field k v fs) = k ∷ keys fs

unfoldable pub get_field : Text → Fields → Value
unfolding eqb
get_field k end = undefined
get_field k (field j v fs) = if eqb j k then v else get_field k fs

-- `{ ...fields, [k]: value }`.
unfoldable pub put_field : Text → Value → Fields → Fields
unfolding eqb
put_field k v end = field k v end
put_field k v (field j w fs) = if eqb j k then field j v fs else field j w (put_field k v fs)

-- `{ ...fields, ...others }`.
unfoldable pub spread : Fields → Fields → Fields
unfolding put_field
spread fs end = fs
spread fs (field k v gs) = spread (put_field k v fs) gs

-- `value[k]`; what is no object has none of the properties that the code asks for.
unfoldable pub property : Text → Value → Value
unfolding get_field
property k (object fs) = get_field k fs
property k _ = undefined

-- `!value` is `not (truthy value)`.
unfoldable pub truthy : Value → Bool
unfolding eqb
truthy undefined = false
truthy null = false
truthy (boolean b) = b
truthy (number n) = not (n == 0)
truthy (string t) = not (length t == 0)
truthy (bigint t) = not (eqb t (text "0"))
truthy _ = true

-- `typeof value === "object"` for a value that is not null.
unfoldable pub is_object : Value → Bool
is_object (object fs) = true
is_object (array vs) = true
is_object (date t) = true
is_object _ = false

-- `value === undefined`.
unfoldable pub is_undefined : Value → Bool
is_undefined undefined = true
is_undefined _ = false

-- The test that the validators share: no string, or empty, or too long, or with a control character.
unfoldable pub is_unsafe : ℕ → Text → Bool
is_unsafe maximum value =
    length value == 0 || ltb maximum (length value) || contains_control_character value

unfoldable pub is_unsafe_value : ℕ → Value → Bool
unfolding is_unsafe
is_unsafe_value maximum (string value) = is_unsafe maximum value
is_unsafe_value maximum _ = true
