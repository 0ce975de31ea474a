-- ===== src/Common/Effects/Guards.antt =====
-- Rules for asynchronous code where what holds of the state before decides how the states before and
-- after are related, also when the call throws.
use mathlib.Core.Path.{◌≡◌, refl}
use mathlib.Core.Bool.{Bool, true, false}
use authenik8_core_beta.Common.Effects.{Result, ok, err}
use authenik8_core_beta.Common.Effects.Async.{M, and_then, ◌>>=◌, pure, branch}
use authenik8_core_beta.Common.Effects.Hoare.{Keeps, IsPreorder}
use authenik8_core_beta.Common.Effects.Triples.{Ensures, Ensures-bind, Ensures-pure}

pub record Guards {S A : Type 0} (R : S → S → Type 0) (P : S → Type 0) (m : M S A)
    (Q : A → S → Type 0) : Type 0 where
  pub moves : (s : S) → P s → R s (m s).1
  pub ensures : Ensures P m Q

and_then-moves :
    {S A B : Type 0} {R : S → S → Type 0} {Q : A → S → Type 0}
    → IsPreorder R
    → (s : S) (out : Result A × S) (f : A → M S B) → R s out.1
    → ((a : A) (t : S) → out ≡ (ok a, t) → Q a t)
    → ((a : A) (t : S) → Q a t → R t (f a t).1)
    → R s (and_then out f).1
and_then-moves order s (ok a, t) f first holds next =
    order.transitive s t _ first (next a t (holds a t refl))
and_then-moves order s (err e, t) f first holds next = first

pub Guards-bind :
    {S A B : Type 0} {R : S → S → Type 0} {P : S → Type 0} {Q : B → S → Type 0}
    → IsPreorder R
    → (T : A → S → Type 0) (m : M S A) (f : A → M S B) → Guards R P m T
    → ((a : A) → Guards R (T a) (f a) Q)
    → Guards R P (m >>= f) Q
unfolding ◌>>=◌
Guards-bind order T m f first next = record {
  moves = λ s p.
      and_then-moves order s (m s) f (first.moves s p) (λ a t e. first.ensures.holds s p a t e)
        λ a t q. (next a).moves t q;
  ensures = Ensures-bind T m f first.ensures λ a. (next a).ensures;
}

pub Guards-pure :
    {S A : Type 0} {R : S → S → Type 0} {P : S → Type 0} {Q : A → S → Type 0}
    → IsPreorder R
    → (a : A) → ((s : S) → P s → Q a s)
    → Guards R P (pure a) Q
unfolding pure
Guards-pure order a f = record { moves = λ s p. order.reflexive s; ensures = Ensures-pure a f }

pub Guards-branch :
    {S A : Type 0} {R : S → S → Type 0} {P : S → Type 0} {Q : A → S → Type 0} (b : Bool)
    (m n : M S A)
    → (b ≡ true → Guards R P m Q)
    → (b ≡ false → Guards R P n Q)
    → Guards R P (branch b m n) Q
unfolding branch
Guards-branch true m n h k = h refl
Guards-branch false m n h k = k refl

-- Where the call keeps the relation whatever holds before it.
pub Guards-Keeps :
    {S A : Type 0} {R : S → S → Type 0} {P : S → Type 0} {Q : A → S → Type 0} {m : M S A}
    → Guards R P m Q
    → ((s : S) → P s)
    → Keeps R m
Guards-Keeps guards p = record { holds = λ s. guards.moves s (p s) }

pub Guards-weaken :
    {S A : Type 0} {R : S → S → Type 0} {P P' : S → Type 0} {Q : A → S → Type 0} {m : M S A}
    → ((s : S) → P' s → P s)
    → Guards R P m Q
    → Guards R P' m Q
Guards-weaken f guards = record {
  moves = λ s p. guards.moves s (f s p);
  ensures = record { holds = λ s p a s' h. guards.ensures.holds s (f s p) a s' h };
}

pub Guards-any :
    {S A : Type 0} {R : S → S → Type 0} {P : S → Type 0} {Q : A → S → Type 0} {m : M S A}
    → Guards R P m Q
    → Guards R P m (λ a s. Unit {0})
Guards-any guards = record { moves = guards.moves; ensures = record { holds = λ s p a s' h. tt } }
