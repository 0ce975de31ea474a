-- ===== src/Common/Effects/Returns.antt =====
-- Rules for asynchronous code that does return: from what holds of the state before, the call gives
-- a result, and what holds of the result and of the state after it.
use mathlib.Core.Path.{◌≡◌, refl, subst, sym, ap}
use mathlib.Core.Bool.{Bool, true, false}
use mathlib.Core.Option.{Option, none, some}
use authenik8_core_beta.Common.Effects.{Error, Result, ok}
use authenik8_core_beta.Common.Effects.Async.{
  M, and_then, ◌>>=◌, pure, lift, branch, if_present, try_catch, caught, try_finally, finish, after,
}

abbrev pub Outcome : {S A : Type 0} → Result A × S → (A → S → Type 0) → Type 0
Outcome {S} {A} out Q = (a : A) × (s : S) × (out ≡ (ok a, s)) × Q a s

pub record Returns {S A : Type 0} (P : S → Type 0) (m : M S A) (Q : A → S → Type 0) : Type 0 where
  pub holds : (s : S) → P s → Outcome (m s) Q

pub Returns-bind :
    {S A B : Type 0} {P : S → Type 0} (Q : A → S → Type 0) {R : B → S → Type 0} (m : M S A)
    (f : A → M S B)
    → Returns P m Q
    → ((a : A) → Returns (Q a) (f a) R)
    → Returns P (m >>= f) R
unfolding ◌>>=◌
Returns-bind Q {R} m f first next = record {
  holds = λ s p.
      let (a, t, e, q) = first.holds s p in
      subst (λ out. Outcome (and_then out f) R) (sym e) ((next a).holds t q);
}

pub Returns-pure :
    {S A : Type 0} {P : S → Type 0} {Q : A → S → Type 0} (a : A)
    → ((s : S) → P s → Q a s)
    → Returns P (pure a) Q
unfolding pure
Returns-pure a f = record { holds = λ s p. (a, s, refl, f s p) }

pub Returns-lift :
    {S A : Type 0} {P : S → Type 0} {Q : A → S → Type 0} (r : Result A) (a : A)
    → r ≡ ok a
    → ((s : S) → P s → Q a s)
    → Returns P (lift r) Q
unfolding lift
Returns-lift r a e f = record { holds = λ s p. (a, s, ap (λ x. (x, s)) e, f s p) }

pub Returns-then-branch :
    {S A : Type 0} {P : S → Type 0} {Q : A → S → Type 0} (b : Bool) (m n : M S A)
    → b ≡ true
    → Returns P m Q
    → Returns P (branch b m n) Q
unfolding branch
Returns-then-branch true m n h returns = returns
Returns-then-branch false m n h returns = cc

pub Returns-else-branch :
    {S A : Type 0} {P : S → Type 0} {Q : A → S → Type 0} (b : Bool) (m n : M S A)
    → b ≡ false
    → Returns P n Q
    → Returns P (branch b m n) Q
unfolding branch
Returns-else-branch true m n h returns = cc
Returns-else-branch false m n h returns = returns

pub Returns-if_present :
    {S A B : Type 0} {P : S → Type 0} {Q : B → S → Type 0} (o : Option A) (f : A → M S B)
    (m : M S B)
    → ((a : A) → o ≡ some a → Returns P (f a) Q)
    → (o ≡ none → Returns P m Q)
    → Returns P (if_present o f m) Q
unfolding if_present
Returns-if_present none f m h k = k refl
Returns-if_present (some a) f m h k = h a refl

pub Returns-finally :
    {S A : Type 0} {P : S → Type 0} (Q : A → S → Type 0) {R : A → S → Type 0} (m : M S A)
    (last : M S (Unit {0}))
    → Returns P m Q
    → ((a : A) → Returns (Q a) last (λ u. R a))
    → Returns P (try_finally m last) R
unfolding try_finally
Returns-finally Q {R} m last first second = record {
  holds = λ s p.
      let (a, t, e, q) = first.holds s p in
      let (u, t', e', r) = (second a).holds t q in
      subst (λ out. Outcome (finish out last) R) (sym e)
        (subst (λ out. Outcome (after (ok a) out) R) (sym e') (a, t', refl, r));
}

pub Returns-catch :
    {S A : Type 0} {P : S → Type 0} {Q : A → S → Type 0} (m : M S A) (handle : Error → M S A)
    → Returns P m Q
    → Returns P (try_catch m handle) Q
unfolding try_catch
Returns-catch {Q} m handle first = record {
  holds = λ s p.
      let (a, t, e, q) = first.holds s p in
      subst (λ out. Outcome (caught out handle) Q) (sym e) (a, t, refl, q);
}

-- A fact that the condition before has, of whatever state.
pub Returns-fact :
    {S A T : Type 0} {P : S → Type 0} {Q : A → S → Type 0} (m : M S A)
    → ((s : S) → P s → T)
    → (T → Returns P m Q)
    → Returns P m Q
Returns-fact m fact rest = record { holds = λ s p. (rest (fact s p)).holds s p }

pub Returns-weaken :
    {S A : Type 0} {P : S → Type 0} {P' : S → Type 0} {Q : A → S → Type 0} (m : M S A)
    → ((s : S) → P' s → P s)
    → Returns P m Q
    → Returns P' m Q
Returns-weaken m f returns = record { holds = λ s p. returns.holds s (f s p) }
