-- ===== src/Common/Trim.antt =====
-- Trimming and lower-casing a text, as the code does before it compares emails.
use authenik8_core_beta.Common.{
  ℕ, ◌+◌, ◌≡◌, refl, ap, ◌∙◌, false, ◌&&◌, [], ◌∷◌, map, arith, if◌then◌else◌, leb, Bool-cases, inl,
  inr,
}
use authenik8_core_beta.Common.Text.{Text, is_space, trim_start, trim_end, trim}

trim_end_idem : (s : Text) → trim_end (trim_end s) ≡ trim_end s
unfolding trim_end
trim_end_idem [] = refl
trim_end_idem (c ∷ s) = ground (arith, trim_end_idem s)

trim_start-trim_end_cons :
    (c : ℕ) (s : Text) → is_space c ≡ false → trim_start (trim_end (c ∷ s)) ≡ trim_end (c ∷ s)
unfolding trim_start trim_end
trim_start-trim_end_cons c s h = ground arith

trim_start-trim : (s : Text) → trim_start (trim_end (trim_start s)) ≡ trim_end (trim_start s)
unfolding trim_start trim_end
trim_start-trim [] = refl
trim_start-trim (c ∷ s) = elim (Bool-cases (is_space c)) [
  | inl blank ↦ rw blank (trim_start-trim s)
  | inr kept ↦ rw kept (trim_start-trim_end_cons c s kept)
]

-- Trimming twice is trimming once.
pub trim_idem : (s : Text) → trim (trim s) ≡ trim s
unfolding trim
trim_idem s = rw (trim_start-trim s) (trim_end_idem (trim_start s))

-- What the code relies on of `toLowerCase`: trimming and lower-casing a second time changes nothing.
abbrev pub IsNormalizing : (Text → Text) → Type 0
IsNormalizing lower_case =
    (t : Text) → lower_case (trim (lower_case (trim t))) ≡ lower_case (trim t)

-- `toLowerCase` on ASCII texts meets it.
unfoldable pub ascii_lower : ℕ → ℕ
ascii_lower c = if leb b'A' c && leb c b'Z' then c + 32 else c

unfoldable pub ascii_lower_case : Text → Text
unfolding ascii_lower
ascii_lower_case s = map ascii_lower s

is_space-ascii_lower : (c : ℕ) → is_space (ascii_lower c) ≡ is_space c
unfolding is_space ascii_lower
is_space-ascii_lower c = ground arith

ascii_lower_idem : (c : ℕ) → ascii_lower (ascii_lower c) ≡ ascii_lower c
unfolding ascii_lower
ascii_lower_idem c = ground arith

map-ascii_lower_idem : (s : Text) → map ascii_lower (map ascii_lower s) ≡ map ascii_lower s
map-ascii_lower_idem [] = refl
map-ascii_lower_idem (c ∷ s) = cc (ascii_lower_idem c, map-ascii_lower_idem s)

trim_start-map : (s : Text) → trim_start (map ascii_lower s) ≡ map ascii_lower (trim_start s)
unfolding trim_start
trim_start-map [] = refl
trim_start-map (c ∷ s) = ground (arith, is_space-ascii_lower c, trim_start-map s)

trim_end-map : (s : Text) → trim_end (map ascii_lower s) ≡ map ascii_lower (trim_end s)
unfolding trim_end
trim_end-map [] = refl
trim_end-map (c ∷ s) = rw (trim_end-map s) (ground (arith, is_space-ascii_lower c))

pub ascii_lower_case-IsNormalizing : IsNormalizing ascii_lower_case
unfolding ascii_lower_case trim
ascii_lower_case-IsNormalizing t =
    rw
      (
        trim_start-map (trim_end (trim_start t)),
        trim_end-map (trim_start (trim_end (trim_start t))),
      )
      (map-ascii_lower_idem _ ∙ ap (map ascii_lower) (trim_idem t))
