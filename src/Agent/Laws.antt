-- ===== src/Agent/Laws.antt =====
-- Scopes after `normalizeScopes`.
use authenik8_core_beta.Common.{
  Bool-cases, suc, ◌≡◌, refl, ap, sym, subst, ◌∙◌, ◌≤◌, inl, inr, Bool, true, false, ◌&&◌, List, [],
  ◌∷◌, arith, every, length,
}
use authenik8_core_beta.Common.Text.{Text, includes, includes-distinct, distinct, Has, every-Has}
use authenik8_core_beta.Common.Effects.{ok}
use authenik8_core_beta.Agent.{
  text_leb, insert_sorted, sort, is_scope, normalize_scopes, scopes_are_allowed,
}

-- Each text is followed by one that is not before it.
abbrev pub IsSorted : List Text → Type 0
IsSorted [] = Unit
IsSorted (t ∷ []) = Unit
IsSorted (t ∷ s ∷ ss) = (text_leb t s ≡ true) × IsSorted (s ∷ ss)

text_leb_total : (s t : Text) → text_leb s t ≡ false → text_leb t s ≡ true
unfolding text_leb
text_leb_total [] t h = cc
text_leb_total (c ∷ s) [] h = refl
text_leb_total (c ∷ s) (d ∷ t) h = ground (arith, h, text_leb_total s t)

-- The first of the list, if there is one, is not before this text.
abbrev Precedes : Text → List Text → Type 0
Precedes t [] = Unit
Precedes t (s ∷ ss) = text_leb t s ≡ true

IsSorted-cons : (t : Text) (ss : List Text) → Precedes t ss → IsSorted ss → IsSorted (t ∷ ss)
IsSorted-cons t [] h k = tt
IsSorted-cons t (s ∷ ss) h k = (h, k)

IsSorted-rest : (t : Text) (ss : List Text) → IsSorted (t ∷ ss) → Precedes t ss × IsSorted ss
IsSorted-rest t [] h = (tt, tt)
IsSorted-rest t (s ∷ ss) h = h

insert_sorted-Precedes :
    (s t : Text) (ss : List Text)
    → text_leb s t ≡ true
    → Precedes s ss
    → Precedes s (insert_sorted t ss)
unfolding insert_sorted
insert_sorted-Precedes s t [] h k = h
insert_sorted-Precedes s t (r ∷ rs) h k = elim (Bool-cases (text_leb t r)) [
  | inl e ↦ rw e h
  | inr e ↦ rw e k
]

insert_sorted-IsSorted : (t : Text) (ss : List Text) → IsSorted ss → IsSorted (insert_sorted t ss)
unfolding insert_sorted
insert_sorted-IsSorted t [] h = tt
insert_sorted-IsSorted t (s ∷ ss) h =
    let (first, rest) = IsSorted-rest s ss h in
    elim (Bool-cases (text_leb t s)) [
      | inl e ↦ rw e (IsSorted-cons t (s ∷ ss) e h)
      | inr e ↦ rw e (
          IsSorted-cons s (insert_sorted t ss)
            (insert_sorted-Precedes s t ss (text_leb_total t s e) first)
            (insert_sorted-IsSorted t ss rest))
    ]

sort-IsSorted : (ts : List Text) → IsSorted (sort ts)
unfolding sort
sort-IsSorted [] = tt
sort-IsSorted (t ∷ ts) = insert_sorted-IsSorted t (sort ts) (sort-IsSorted ts)

includes-insert_sorted :
    (t : Text) (ss : List Text) (u : Text) → includes (insert_sorted t ss) u ≡ includes (t ∷ ss) u
unfolding insert_sorted includes
includes-insert_sorted t [] u = refl
includes-insert_sorted t (s ∷ ss) u = ground (arith, includes-insert_sorted t ss u)

includes-sort : (ts : List Text) (u : Text) → includes (sort ts) u ≡ includes ts u
unfolding sort includes
includes-sort [] u = refl
includes-sort (t ∷ ts) u = includes-insert_sorted t (sort ts) u ∙ ground (arith, includes-sort ts u)

length-insert_sorted : (t : Text) (ss : List Text) → length (insert_sorted t ss) ≡ suc (length ss)
unfolding insert_sorted
length-insert_sorted t [] = refl
length-insert_sorted t (s ∷ ss) = ground (arith, length-insert_sorted t ss)

length-sort : (ts : List Text) → length (sort ts) ≡ length ts
unfolding sort
length-sort [] = refl
length-sort (t ∷ ts) = ground (arith, length-insert_sorted t (sort ts), length-sort ts)

every-insert_sorted :
    (p : Text → Bool) (t : Text) (ss : List Text)
    → every p (insert_sorted t ss) ≡ (p t && every p ss)
unfolding insert_sorted every
every-insert_sorted p t [] = refl
every-insert_sorted p t (s ∷ ss) = ground (arith, every-insert_sorted p t ss)

every-sort : (p : Text → Bool) (ts : List Text) → every p (sort ts) ≡ every p ts
unfolding sort every
every-sort p [] = refl
every-sort p (t ∷ ts) = every-insert_sorted p t (sort ts) ∙ ground (arith, every-sort p ts)

-- What `normalizeScopes` returns for a list: the same scopes, each once, in order.
pub record IsNormalized (scopes normalized : List Text) : Type 0 where
  pub sorted : IsSorted normalized
  pub same : (t : Text) → includes normalized t ≡ includes scopes t
  pub once : length normalized ≡ length (distinct scopes)
  pub valid : every is_scope normalized ≡ true
  pub nonempty : 1 ≤ length normalized
  pub bounded : length normalized ≤ 64

-- A list of scopes that `normalizeScopes` returns has the scopes that it was given, in order and each
-- once; they are between 1 and 64, of the form and the length that scopes may have.
pub normalize_scopes-IsNormalized :
    (scopes normalized : List Text)
    → normalize_scopes scopes ≡ ok normalized
    → IsNormalized scopes normalized
unfolding normalize_scopes
normalize_scopes-IsNormalized scopes normalized h =
    let e : sort (distinct scopes) ≡ normalized = ground (arith, h) in
    record {
      sorted = subst IsSorted e (sort-IsSorted (distinct scopes));
      same = λ t.
          ap (λ ts. includes ts t) (sym e)
          ∙ (includes-sort (distinct scopes) t ∙ includes-distinct scopes t);
      once = ap length (sym e) ∙ length-sort (distinct scopes);
      valid =
          ap (every is_scope) (sym e) ∙ (every-sort is_scope (distinct scopes) ∙ ground (arith, h));
      nonempty = ground (arith, h, e, length-sort (distinct scopes));
      bounded = ground (arith, h, e, length-sort (distinct scopes));
    }

-- Any requested scope is one that is allowed.
pub scopes_are_allowed-Has :
    (requested allowed : List Text)
    → scopes_are_allowed requested allowed ≡ true
    → (t : Text) → Has requested t
    → Has allowed t
unfolding scopes_are_allowed
scopes_are_allowed-Has requested allowed h t m = every-Has (includes allowed) requested t h m
