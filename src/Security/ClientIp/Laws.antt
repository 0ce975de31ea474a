-- ===== src/Security/ClientIp/Laws.antt =====
-- What src/security/requestContext.ts promises of the address of a client behind proxies.
use authenik8_core_beta.Common.{
  Bool-cases, Option-cases, ℕ, ◌≡◌, refl, ap, ◌∙◌, Bool, true, false, not, ◌||◌, Option, none, some,
  List, [], ◌∷◌, ◌++◌, ◌⊎◌, inl, inr, length, ◌==◌, reverse, arith, if◌then◌else◌, ◌<◌,
}
use mathlib.Core.List.{reverse-append}
use authenik8_core_beta.Common.Text.{Text}
use authenik8_core_beta.Security.ClientIp.{
  IpLibrary, ParsedIp, single, add_to_first, split, map_all, parse_ip, is_trusted, walk,
  resolve_forwarded, resolve_peer,
}

length-add_to_first : (c : ℕ) (parts : List Text) → 0 < length (add_to_first c parts)
unfolding add_to_first
length-add_to_first c [] = omega arith
length-add_to_first c (part ∷ parts) = ground arith

length-split : (c : ℕ) (s : Text) → 0 < length (split c s)
unfolding split
length-split c [] = omega arith
length-split c (d ∷ s) = ground (arith, length-add_to_first d (split c s))

add_to_first-append :
    (c : ℕ) (parts others : List Text)
    → 0 < length parts
    → add_to_first c (parts ++ others) ≡ add_to_first c parts ++ others
unfolding add_to_first
add_to_first-append c [] others h = absurd (omega arith)
add_to_first-append c (part ∷ parts) others h = refl

split-append : (c : ℕ) (s t : Text) → split c (s ++ c ∷ t) ≡ split c s ++ split c t
unfolding split
split-append c [] t = ground arith
split-append c (d ∷ s) t = ground (
  arith,
  split-append c s t,
  length-split c s,
  add_to_first-append d (split c s) (split c t) (length-split c s),
)

map_all-append :
    {A B : Type 0} (f : A → Option B) (firsts bs : List A) (ys : List B)
    → map_all f bs ≡ some ys
    → (map_all f (firsts ++ bs) ≡ none)
      ⊎ ((xs : List B) × (map_all f (firsts ++ bs) ≡ some (xs ++ ys)))
unfolding map_all
map_all-append f [] bs ys h = inr ([], h)
map_all-append f (a ∷ rest) bs ys h = elim (Option-cases (f a)) [
  | inl e ↦ inl (ground (arith, e))
  | inr (b, e) ↦ elim (map_all-append f rest bs ys h) [
    | inl k ↦ inl (ground (arith, e, k))
    | inr (xs, k) ↦ inr (b ∷ xs, ground (arith, e, k))
  ]
]

module _ {Address : Type 0} (library : IpLibrary Address) (networks : List (ParsedIp Address)) where
  -- A walk that ends at an address that is not trusted ends there however the list goes on.
  walk-append :
      (candidate : ParsedIp Address) (hops others : List (ParsedIp Address))
      → is_trusted library networks (walk library networks candidate hops) ≡ false
      → walk library networks candidate (hops ++ others) ≡ walk library networks candidate hops
  unfolding walk
  walk-append candidate [] [] h = refl
  walk-append candidate [] (hop ∷ others) h = ground (arith, h)
  walk-append candidate (hop ∷ hops) others h = ground (arith, h, walk-append hop hops others)

  forwarded_lem :
      (peer ip : ParsedIp Address) (header : Text)
      → resolve_forwarded library networks peer header ≡ some ip
      → (hops : List (ParsedIp Address)) × (map_all (parse_ip library) (split b',' header)
          ≡ some hops)
        × (walk library networks peer (reverse hops) ≡ ip)
  unfolding resolve_forwarded
  forwarded_lem peer ip header h =
      elim (Option-cases (map_all (parse_ip library) (split b',' header))) [
        | inl e ↦ absurd (ground (arith, h, e))
        | inr (hops, e) ↦ (hops, e, ground (arith, h, e))
      ]

  forwarded-refused :
      (peer : ParsedIp Address) (header : Text)
      → map_all (parse_ip library) (split b',' header) ≡ none
      → resolve_forwarded library networks peer header ≡ none
  unfolding resolve_forwarded
  forwarded-refused peer header e = ground (arith, e)

  forwarded-walk :
      (peer : ParsedIp Address) (header : Text) (hops : List (ParsedIp Address))
      → map_all (parse_ip library) (split b',' header) ≡ some hops
      → (resolve_forwarded library networks peer header ≡ none)
        ⊎ (resolve_forwarded library networks peer header
            ≡ some (walk library networks peer (reverse hops)))
  unfolding resolve_forwarded
  forwarded-walk peer header hops e = rw e (by_limit _)
    where
      by_limit :
          {A : Type 0} {a : A} (b : Bool)
          → ((if b then none else some a) ≡ none) ⊎ ((if b then none else some a) ≡ some a)
      by_limit true = inl refl
      by_limit false = inr refl

  walk-forged :
      (peer : ParsedIp Address) (others hops : List (ParsedIp Address))
      → is_trusted library networks (walk library networks peer (reverse hops)) ≡ false
      → walk library networks peer (reverse (others ++ hops))
        ≡ walk library networks peer (reverse hops)
  walk-forged peer others hops h =
      rw (reverse-append others hops) (walk-append peer (reverse hops) (reverse others) h)

  forwarded-forged :
      (peer ip : ParsedIp Address) (forged header : Text)
      → resolve_forwarded library networks peer header ≡ some ip
      → is_trusted library networks ip ≡ false
      → (resolve_forwarded library networks peer (forged ++ b',' ∷ header) ≡ none)
        ⊎ (resolve_forwarded library networks peer (forged ++ b',' ∷ header) ≡ some ip)
  forwarded-forged peer ip forged header h u =
      let (hops, e, w) = forwarded_lem peer ip header h in
      let split_lem = split-append b',' forged header in
      elim (map_all-append (parse_ip library) (split b',' forged) (split b',' header) hops e) [
        | inl k ↦ inl (forwarded-refused peer (forged ++ b',' ∷ header) (rw split_lem k))
        | inr (others, k) ↦
            elim (forwarded-walk peer (forged ++ b',' ∷ header) (others ++ hops) (rw split_lem k)) [
              | inl l ↦ inl l
              | inr l ↦ inr (l ∙ ap some (walk-forged peer others hops (rw w u) ∙ w))
            ]
      ]

  -- Whoever sends a request can put hops before those that the proxies add, and no more. Where the
  -- resolver finds an address that is not trusted, a header with anything and a comma before it gives
  -- the same address or "unknown".
  pub resolve_peer-forged :
      (peer ip : ParsedIp Address) (forged header : Text)
      → resolve_peer library networks peer (single header) ≡ some ip
      → is_trusted library networks ip ≡ false
      → (resolve_peer library networks peer (single (forged ++ b',' ∷ header)) ≡ none)
        ⊎ (resolve_peer library networks peer (single (forged ++ b',' ∷ header)) ≡ some ip)
  unfolding resolve_peer
  resolve_peer-forged peer ip forged header h u =
      elim (Bool-cases (length networks == 0 || not (is_trusted library networks peer))) [
        | inl b ↦ inr (ground (arith, b, h))
        | inr b ↦ elim (forwarded-forged peer ip forged header (ground (arith, b, h)) u) [
          | inl k ↦ inl (ground (arith, b, k))
          | inr k ↦ inr (ground (arith, b, k))
        ]
      ]
