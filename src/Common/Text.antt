-- ===== src/Common/Text.antt =====
-- JavaScript strings as lists of UTF-16 code units, with the string methods that the code uses, and
-- containsControlCharacter of src/utility/safeString.ts.
use Prim.Native.Nat.{ℕ, suc, ◌+◌, ◌≤◌}
use Prim.Native.Char.{code}
use Prim.Native.String.{String}
use mathlib.Core.Path.{◌≡◌, refl}
use mathlib.Core.Logic.{◌↔◌}
use mathlib.Core.Bool.{Bool, true, false, ◌&&◌, ◌||◌}
use mathlib.Core.Option.{Option, none, some}
use mathlib.Core.List.{List, [], ◌∷◌, ◌++◌}
use native.Mathlib.Omega.{arith}
use authenik8_core_beta.Common.Tests.{leb, ◌==◌, if◌then◌else◌}
use authenik8_core_beta.Common.Lists.{length, any, every}

abbrev pub Text : Type 0
Text = List ℕ

-- The code units of a literal in the Basic Multilingual Plane.
abbrev pub text : String → Text
text String.[] = []
text (String.◌∷◌ c s) = code c ∷ text s

-- `===` on strings.
unfoldable pub eqb : Text → Text → Bool
eqb [] [] = true
eqb (c ∷ s) (d ∷ t) = c == d && eqb s t
eqb _ _ = false

pub eqb→eq : (s t : Text) → eqb s t ≡ true → s ≡ t
unfolding eqb
eqb→eq [] [] h = refl
eqb→eq (c ∷ s) (d ∷ t) h = ground (arith, eqb→eq s t)
eqb→eq [] (d ∷ t) h = cc
eqb→eq (c ∷ s) [] h = cc

pub eqb_refl : (s : Text) → eqb s s ≡ true
unfolding eqb
eqb_refl [] = refl
eqb_refl (c ∷ s) = ground (arith, eqb_refl s)

pub eqb_iff : (s t : Text) → (eqb s t ≡ true) ↔ (s ≡ t)
eqb_iff s t = (eqb→eq s t, λ e. subst_self e)
  where
    subst_self : s ≡ t → eqb s t ≡ true
    subst_self e = rw (← e) (eqb_refl s)

unfoldable pub is_control : ℕ → Bool
is_control c = leb c 0x1f || c == 0x7f

unfoldable pub contains_control_character : Text → Bool
unfolding any is_control
contains_control_character value = any is_control value

-- The code units that `String.prototype.trim` removes.
unfoldable pub is_space : ℕ → Bool
is_space c =
    (leb 9 c && leb c 13)
    || c == 32
    || c == 0xa0
    || c == 0x1680
    || (leb 0x2000 c && leb c 0x200a)
    || c == 0x2028
    || c == 0x2029
    || c == 0x202f
    || c == 0x205f
    || c == 0x3000
    || c == 0xfeff

unfoldable pub trim_start : Text → Text
trim_start [] = []
trim_start (c ∷ s) = if is_space c then trim_start s else c ∷ s

unfoldable pub trim_end : Text → Text
trim_end [] = []
trim_end (c ∷ s) = elim (trim_end s) [ [] ↦ if is_space c then [] else c ∷ [] | d ∷ r ↦ c ∷ d ∷ r ]

unfoldable pub trim : Text → Text
unfolding trim_start trim_end is_space
trim s = trim_end (trim_start s)

-- String.prototype.indexOf of one code unit; `none` stands for -1.
unfoldable pub index_of : ℕ → Text → Option ℕ
index_of d [] = none
index_of d (c ∷ s) =
    if c == d then some 0 else elim (index_of d s) [ none ↦ none | some i ↦ some (suc i) ]

unfoldable pub last_index_of : ℕ → Text → Option ℕ
last_index_of d [] = none
last_index_of d (c ∷ s) = elim (last_index_of d s) [
  | none ↦ if c == d then some 0 else none
  | some i ↦ some (suc i)
]

-- Buffer.byteLength in UTF-8: a pair of surrogates takes four bytes, a lone one is replaced by three.
unfoldable pub is_high : ℕ → Bool
is_high c = leb 0xd800 c && leb c 0xdbff

unfoldable pub is_low : ℕ → Bool
is_low c = leb 0xdc00 c && leb c 0xdfff

unfoldable pub unit_bytes : ℕ → ℕ
unit_bytes c = if leb c 0x7f then 1 else if leb c 0x7ff then 2 else 3

-- The flag says that the unit before was a high surrogate, counted as three bytes.
unfoldable pub byte_length_from : Bool → Text → ℕ
unfolding is_high is_low unit_bytes
byte_length_from after_high [] = 0
byte_length_from after_high (c ∷ s) =
    (if after_high && is_low c then 1 else unit_bytes c) + byte_length_from (is_high c) s

unfoldable pub byte_length : Text → ℕ
unfolding byte_length_from
byte_length s = byte_length_from false s

-- Array.prototype.join.
unfoldable pub join : Text → List Text → Text
join separator [] = []
join separator (t ∷ []) = t
join separator (t ∷ u ∷ ts) = t ++ separator ++ join separator (u ∷ ts)

-- Array.prototype.includes, and Set.prototype.has for a set built from the array.
unfoldable pub includes : List Text → Text → Bool
includes [] t = false
includes (s ∷ ss) t = eqb s t || includes ss t

-- `[...new Set(values)]`: the first of equal values stays.
unfoldable pub distinct_from : List Text → List Text → List Text
distinct_from seen [] = []
distinct_from seen (t ∷ ts) =
    let again = distinct_from seen ts in
    let first = t ∷ distinct_from (t ∷ seen) ts in if includes seen t then again else first

unfoldable pub distinct : List Text → List Text
unfolding distinct_from includes
distinct ts = distinct_from [] ts

abbrev pub Has : List Text → Text → Type 0
Has ts t = includes ts t ≡ true

pub every-Has :
    (p : Text → Bool) (ts : List Text) (t : Text) → every p ts ≡ true → Has ts t → p t ≡ true
unfolding every includes
every-Has p [] t h m = cc
every-Has p (s ∷ ss) t h m = ground (arith, every-Has p ss t, eqb_iff s t)

includes-distinct_from :
    (seen ts : List Text) (t : Text)
    → (includes (distinct_from seen ts) t || includes seen t) ≡ (includes ts t || includes seen t)
unfolding includes distinct_from
includes-distinct_from seen [] t = refl
includes-distinct_from seen (s ∷ ss) t =
    ground
      (arith, includes-distinct_from seen ss t, includes-distinct_from (s ∷ seen) ss t, eqb_iff s t)

-- Removing duplicates keeps the set of values.
pub includes-distinct : (ts : List Text) (t : Text) → includes (distinct ts) t ≡ includes ts t
unfolding distinct includes
includes-distinct ts t = ground (arith, includes-distinct_from [] ts t)

length-distinct_from-le : (seen ts : List Text) → length (distinct_from seen ts) ≤ length ts
unfolding distinct_from
length-distinct_from-le seen [] = omega arith
length-distinct_from-le seen (t ∷ ts) =
    ground (arith, length-distinct_from-le seen ts, length-distinct_from-le (t ∷ seen) ts)

-- No two equal values, none among those seen.
abbrev pub IsDistinctFrom : List Text → List Text → Type 0
IsDistinctFrom seen [] = Unit
IsDistinctFrom seen (t ∷ ts) = (includes seen t ≡ false) × IsDistinctFrom (t ∷ seen) ts

abbrev pub IsDistinct : List Text → Type 0
IsDistinct ts = IsDistinctFrom [] ts

-- The size test `new Set(ts).size === ts.length` finds the lists with no duplicate.
distinct_from-length :
    (seen ts : List Text) → length (distinct_from seen ts) ≡ length ts → IsDistinctFrom seen ts
unfolding distinct_from
distinct_from-length seen [] h = tt
distinct_from-length seen (t ∷ ts) h =
    ground (arith, length-distinct_from-le seen ts, distinct_from-length (t ∷ seen) ts)

pub distinct-length : (ts : List Text) → length (distinct ts) ≡ length ts → IsDistinct ts
unfolding distinct
distinct-length ts h = distinct_from-length [] ts h

IsDistinctFrom-length :
    (seen ts : List Text) → IsDistinctFrom seen ts → length (distinct_from seen ts) ≡ length ts
unfolding distinct_from
IsDistinctFrom-length seen [] h = refl
IsDistinctFrom-length seen (t ∷ ts) h = ground (arith, IsDistinctFrom-length (t ∷ seen) ts h.1)

pub IsDistinct-length : (ts : List Text) → IsDistinct ts → length (distinct ts) ≡ length ts
unfolding distinct
IsDistinct-length ts h = IsDistinctFrom-length [] ts h

trim_runs : trim (text "  a b ") ≡ text "a b"
unfolding trim
trim_runs = refl

distinct_runs : distinct (text "a" ∷ text "b" ∷ text "a" ∷ []) ≡ text "a" ∷ text "b" ∷ []
unfolding distinct eqb
distinct_runs = refl

-- String.prototype.includes, for one character.
unfoldable pub includes_unit : ℕ → Text → Bool
includes_unit c [] = false
includes_unit c (d ∷ s) = d == c || includes_unit c s
