-- ===== src/Authorization/Claims.antt =====
-- What the claims of a user say, in the readings of src/authorization/authorizationService.ts:
-- `stringArray`, `grantedRoles`, `grantedPermissions`, `grantedScopes` and `tenantIds`.
use authenik8_core_beta.Common.{
  ℕ, String, or_cases, Bool-cases, ◌≡◌, ◌≢◌, ◌↔◌, refl, ap, sym, subst, ◌⊎◌, inl, inr, Bool, true,
  false, ◌||◌, List, [], ◌∷◌, ◌++◌, arith,
}
use authenik8_core_beta.Common.Text.{Text, text, eqb, eqb_iff, includes, Has, is_space}
use authenik8_core_beta.Common.Value.{
  Value, string, array, object, Items, nil, cons, items, Fields, property,
}
use authenik8_core_beta.Authorization.{
  strings_of, string_array, string_or_none, words_from, nonempty, words, scope_words, granted_roles,
  granted_permissions, granted_scopes, tenant_ids,
}

abbrev pub claim : String → Fields → Value
claim name claims = property (text name) (object claims)

-- The text is an item of the array.
abbrev pub IsItem : Text → Items → Type 0
IsItem t nil = ⊥
IsItem t (cons v vs) = (v ≡ string t) ⊎ IsItem t vs

abbrev pub Lists : Value → Text → Type 0
Lists v t = (vs : Items) × (v ≡ array vs) × IsItem t vs

-- The text begins with the word, which the end or white space follows.
abbrev pub StartsWith : Text → Text → Type 0
StartsWith [] [] = Unit
StartsWith (c ∷ s) [] = is_space c ≡ true
StartsWith [] (d ∷ w) = ⊥
StartsWith (c ∷ s) (d ∷ w) = (c ≡ d) × (is_space c ≡ false) × StartsWith s w

-- The word stands after some white space of the text.
abbrev pub IsLater : Text → Text → Type 0
IsLater [] w = ⊥
IsLater (c ∷ s) w = ((is_space c ≡ true) × StartsWith s w) ⊎ IsLater s w

-- The word is one of those that white space separates in the text.
abbrev pub IsWord : Text → Text → Type 0
IsWord t w = (w ≢ []) × (StartsWith t w ⊎ IsLater t w)

abbrev pub HasRole : Fields → Text → Type 0
HasRole claims r = (claim "role" claims ≡ string r) ⊎ Lists (claim "roles" claims) r

abbrev pub HasPermission : Fields → Text → Type 0
HasPermission claims p = Lists (claim "permissions" claims) p

abbrev pub HasScope : Fields → Text → Type 0
HasScope claims s =
    Lists (claim "scopes" claims) s ⊎ ((t : Text) × (claim "scope" claims ≡ string t) × IsWord t s)

abbrev pub BelongsTo : Fields → Text → Type 0
BelongsTo claims t = (claim "tenantId" claims ≡ string t) ⊎ Lists (claim "tenantIds" claims) t

either_iff :
    {P Q : Type 0} (b c : Bool) → ((b ≡ true) ↔ P) → ((c ≡ true) ↔ Q) → ((b || c) ≡ true) ↔ (P ⊎ Q)
either_iff b c f g = (
  λ h. elim (or_cases b c h) [ inl k ↦ inl (f.0 k) | inr k ↦ inr (g.0 k) ],
  elim [ inl p ↦ let k = f.1 p in ground (arith, k) | inr q ↦ let k = g.1 q in ground (arith, k) ],
)

Has-append : (ss ts : List Text) (t : Text) → Has (ss ++ ts) t ↔ (Has ss t ⊎ Has ts t)
unfolding includes
Has-append [] ts t = (inr, elim [ inl h ↦ absurd (cc h) | inr h ↦ h ])
Has-append (s ∷ ss) ts t =
    let (f, g) = Has-append ss ts t in
    (
      λ h. elim (or_cases (eqb s t) (includes (ss ++ ts) t) h) [
        | inl k ↦ inl (ground (arith, k))
        | inr k ↦ elim (f k) [ inl l ↦ inl (ground (arith, l)) | inr l ↦ inr l ]
      ],
      elim [
        | inl h ↦ elim (or_cases (eqb s t) (includes ss t) h) [
          | inl k ↦ ground (arith, k)
          | inr k ↦ let l = g (inl k) in ground (arith, l)
        ]
        | inr h ↦ let l = g (inr h) in ground (arith, l)
      ],
    )

text_iff : (s t : Text) → (eqb s t ≡ true) ↔ (string s ≡ string t)
text_iff s t = let (f, g) = eqb_iff s t in ((λ h. ap string (f h)), λ h. g (ground (arith, h)))

Has-strings_of : (vs : Items) (t : Text) → Has (strings_of (items vs)) t ↔ IsItem t vs
unfolding strings_of items includes
Has-strings_of nil t = ((λ h. cc), absurd)
Has-strings_of (cons (string s) vs) t = either_iff _ _ (text_iff s t) (Has-strings_of vs t)
Has-strings_of (cons _ vs) t =
    let (f, g) = Has-strings_of vs t in ((λ h. inr (f h)), elim [ inl h ↦ cc | inr h ↦ g h ])

Has-string_array : (v : Value) (t : Text) → Has (string_array v) t ↔ Lists v t
unfolding string_array includes
Has-string_array (array vs) t =
    let (f, g) = Has-strings_of vs t in
    (
      λ h. (vs, refl, f h),
      λ (us, e, k).
          let same : vs ≡ us = ground (arith, e) in g (subst (λ x. IsItem t x) (sym same) k),
    )
Has-string_array _ t = ((λ h. cc), λ (us, e, k). cc)

Has-string_or_none : (v : Value) (t : Text) → Has (string_or_none v) t ↔ (v ≡ string t)
unfolding string_or_none includes
Has-string_or_none (string s) t =
    let (f, g) = text_iff s t in
    ((λ h. f (ground (arith, h))), λ h. let k = g h in ground (arith, k))
Has-string_or_none _ t = ((λ h. cc), λ h. cc)

-- The first word that splitting gives, and the others.
abbrev IsSplit : Text → List Text → Type 0
IsSplit t [] = ⊥
IsSplit t (w ∷ ws) = ((u : Text) → (w ≡ u) ↔ StartsWith t u) × ((u : Text) → Has ws u ↔ IsLater t u)

blank-IsSplit :
    (c : ℕ) (s : Text) (rest : List Text)
    → is_space c ≡ true
    → IsSplit s rest
    → IsSplit (c ∷ s) ([] ∷ rest)
unfolding includes
blank-IsSplit c s [] blank split = absurd split
blank-IsSplit c s (w ∷ ws) blank (first, later) = (starts, λ u. either_iff _ _ (begins u) (later u))
  where
    starts : (u : Text) → ([] ≡ u) ↔ StartsWith (c ∷ s) u
    starts [] = ((λ h. blank), λ h. refl)
    starts (d ∷ u) = ((λ h. cc), λ (e, solid, h). cc)

    begins : (u : Text) → (eqb w u ≡ true) ↔ ((is_space c ≡ true) × StartsWith s u)
    begins u =
        ((λ h. (blank, (first u).0 ((eqb_iff w u).0 h))), λ (k, h). (eqb_iff w u).1 ((first u).1 h))

solid-IsSplit :
    (c : ℕ) (s w : Text) (ws : List Text)
    → is_space c ≡ false
    → IsSplit s (w ∷ ws)
    → IsSplit (c ∷ s) ((c ∷ w) ∷ ws)
solid-IsSplit c s w ws solid (first, later) = (
  starts,
  λ u. ((λ h. inr ((later u).0 h)), elim [ inl (blank, h) ↦ cc | inr h ↦ (later u).1 h ]),
)
  where
    starts : (u : Text) → (c ∷ w ≡ u) ↔ StartsWith (c ∷ s) u
    starts [] = ((λ h. cc), λ h. cc)
    starts (d ∷ u) = (
      λ h. (ground (arith, h), solid, (first u).0 (ground (arith, h))),
      λ (e, k, h). let same = (first u).1 h in cc (e, same),
    )

words_from-IsSplit : (t : Text) → IsSplit t (words_from t)
unfolding words_from includes
words_from-IsSplit [] = (starts, λ u. ((λ h. cc), absurd))
  where
    starts : (u : Text) → ([] ≡ u) ↔ StartsWith [] u
    starts [] = ((λ h. tt), λ h. refl)
    starts (d ∷ u) = ((λ h. cc), absurd)
words_from-IsSplit (c ∷ s) = elim (Bool-cases (is_space c)) [
  | inl blank ↦ rw blank (blank-IsSplit c s (words_from s) blank (words_from-IsSplit s))
  | inr solid ↦ rw solid (by_rest (words_from s) solid (words_from-IsSplit s))
]
  where
    by_rest :
        (rest : List Text)
        → is_space c ≡ false
        → IsSplit s rest
        → IsSplit (c ∷ s) (elim rest [ [] ↦ (c ∷ []) ∷ [] | w ∷ ws ↦ (c ∷ w) ∷ ws ])
    by_rest [] solid split = absurd split
    by_rest (w ∷ ws) solid split = solid-IsSplit c s w ws solid split

Has-nonempty : (ts : List Text) (w : Text) → Has (nonempty ts) w ↔ ((w ≢ []) × Has ts w)
unfolding nonempty includes eqb
Has-nonempty [] w = ((λ h. cc), λ (e, h). h)
Has-nonempty ([] ∷ ts) [] =
    ((λ h. absurd (((Has-nonempty ts []).0 h).0 refl)), λ (e, h). absurd (e refl))
Has-nonempty ([] ∷ ts) (d ∷ w) = Has-nonempty ts (d ∷ w)
Has-nonempty ((c ∷ t) ∷ ts) [] = Has-nonempty ts []
Has-nonempty ((c ∷ t) ∷ ts) (d ∷ w) =
    let (f, g) = Has-nonempty ts (d ∷ w) in
    let solid : d ∷ w ≢ [] = λ e. cc in
    (
      λ h. (
        solid,
        elim (or_cases (eqb (c ∷ t) (d ∷ w)) _ h) [
          | inl k ↦ ground (arith, k)
          | inr k ↦ let l = (f k).1 in ground (arith, l)
        ],
      ),
      λ (e, h). elim (or_cases (eqb (c ∷ t) (d ∷ w)) _ h) [
        | inl k ↦ ground (arith, k)
        | inr k ↦ let l = g (solid, k) in ground (arith, l)
      ],
    )

Has-words : (t w : Text) → Has (words t) w ↔ IsWord t w
unfolding words includes
Has-words t w = by_split (words_from t) (words_from-IsSplit t) (Has-nonempty (words_from t) w)
  where
    by_split :
        (ws : List Text)
        → IsSplit t ws
        → Has (nonempty ws) w ↔ ((w ≢ []) × Has ws w)
        → Has (nonempty ws) w ↔ IsWord t w
    by_split [] split k = absurd split
    by_split (v ∷ ws) (first, later) (f, g) = (
      λ h.
          let (solid, m) = f h in
          (
            solid,
            elim (or_cases (eqb v w) (includes ws w) m) [
              | inl k ↦ inl ((first w).0 ((eqb_iff v w).0 k))
              | inr k ↦ inr ((later w).0 k)
            ],
          ),
      λ (solid, m). g (
        solid,
        elim m [
          | inl k ↦ let l = (eqb_iff v w).1 ((first w).1 k) in ground (arith, l)
          | inr k ↦ let l = (later w).1 k in ground (arith, l)
        ],
      ),
    )

Has-scope_words :
    (v : Value) (s : Text) → Has (scope_words v) s ↔ ((t : Text) × (v ≡ string t) × IsWord t s)
unfolding scope_words includes
Has-scope_words (string t) s =
    let (f, g) = Has-words t s in
    (
      (λ h. (t, refl, f h)),
      λ (u, e, k). let same : t ≡ u = ground (arith, e) in g (subst (λ x. IsWord x s) (sym same) k),
    )
Has-scope_words _ s = ((λ h. cc), λ (u, e, k). cc)

either-append :
    {P Q : Type 0} (ss ts : List Text) (t : Text)
    → (Has ss t ↔ P)
    → (Has ts t ↔ Q)
    → Has (ss ++ ts) t ↔ (P ⊎ Q)
either-append ss ts t f g =
    let (to, from) = Has-append ss ts t in
    (
      λ h. elim (to h) [ inl k ↦ inl (f.0 k) | inr k ↦ inr (g.0 k) ],
      elim [ inl p ↦ from (inl (f.1 p)) | inr q ↦ from (inr (g.1 q)) ],
    )

pub granted_roles_iff :
    (claims : Fields) (r : Text) → Has (granted_roles claims) r ↔ HasRole claims r
unfolding granted_roles
granted_roles_iff claims r = either-append _ _ r (Has-string_or_none _ r) (Has-string_array _ r)

pub granted_permissions_iff :
    (claims : Fields) (p : Text) → Has (granted_permissions claims) p ↔ HasPermission claims p
unfolding granted_permissions
granted_permissions_iff claims p = Has-string_array _ p

pub granted_scopes_iff :
    (claims : Fields) (s : Text) → Has (granted_scopes claims) s ↔ HasScope claims s
unfolding granted_scopes
granted_scopes_iff claims s = either-append _ _ s (Has-string_array _ s) (Has-scope_words _ s)

pub tenant_ids_iff : (claims : Fields) (t : Text) → Has (tenant_ids claims) t ↔ BelongsTo claims t
unfolding tenant_ids
tenant_ids_iff claims t = either-append _ _ t (Has-string_or_none _ t) (Has-string_array _ t)
