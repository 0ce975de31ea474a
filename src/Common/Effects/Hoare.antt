-- ===== src/Common/Effects/Hoare.antt =====
-- Rules for asynchronous code: what its results satisfy, and how it relates the states before and
-- after, also when it throws.
use mathlib.Core.Path.{◌≡◌, refl, subst}
use mathlib.Core.Bool.{Bool, true, false}
use mathlib.Core.Option.{Option, none, some}
use native.Mathlib.Omega.{arith}
use authenik8_core_beta.Common.Effects.{Error, Result, ok, err}
use authenik8_core_beta.Common.Effects.Async.{
  M, and_then, ◌>>=◌, pure, throw, lift, branch, try_catch, caught, if_present,
}

-- Every result that the call returns satisfies `P`.
pub record Yields {S A : Type 0} (P : A → Type 0) (m : M S A) : Type 0 where
  pub holds : (s : S) (a : A) (s' : S) → m s ≡ (ok a, s') → P a

and_then-ok :
    {S A B : Type 0} (r : Result A × S) (f : A → M S B) {b : B} {s' : S}
    → and_then r f ≡ (ok b, s')
    → (a : A) × (s : S) × (r ≡ (ok a, s)) × (f a s ≡ (ok b, s'))
and_then-ok (ok a, s) f h = (a, s, refl, h)
and_then-ok (err e, s) f h = cc

pub Yields-bind :
    {S A B : Type 0} (Q : A → Type 0) {P : B → Type 0} (m : M S A) (f : A → M S B)
    → Yields Q m
    → ((a : A) → Q a → Yields P (f a))
    → Yields P (m >>= f)
unfolding ◌>>=◌
Yields-bind Q m f first next = record {
  holds = λ s b s' h.
      let (a, t, e, e') = and_then-ok (m s) f h in (next a (first.holds s a t e)).holds t b s' e';
}

-- Where nothing is asked of the first call.
pub Yields-then :
    {S A B : Type 0} {P : B → Type 0} (m : M S A) (f : A → M S B)
    → ((a : A) → Yields P (f a))
    → Yields P (m >>= f)
unfolding ◌>>=◌
Yields-then m f next = record {
  holds = λ s b s' h. let (a, t, e, e') = and_then-ok (m s) f h in (next a).holds t b s' e';
}

pub Yields-pure : {S A : Type 0} {P : A → Type 0} (a : A) → P a → Yields {S = S} P (pure a)
unfolding pure
Yields-pure {P} a p = record { holds = λ s b s' h. let e : a ≡ b = ground arith in subst P e p }

pub Yields-throw : {S A : Type 0} {P : A → Type 0} (e : Error) → Yields {S = S} P (throw e)
unfolding throw
Yields-throw e = record { holds = λ s b s' h. cc }

pub Yields-lift :
    {S A B : Type 0} {P : B → Type 0} (r : Result A) (f : A → M S B)
    → ((a : A) → r ≡ ok a → Yields P (f a))
    → Yields P (lift r >>= f)
unfolding ◌>>=◌ lift
Yields-lift (ok a) f next = record { holds = λ s b s' h. (next a refl).holds s b s' h }
Yields-lift (err e) f next = record { holds = λ s b s' h. cc }

pub Yields-branch :
    {S A : Type 0} {P : A → Type 0} (b : Bool) (m n : M S A)
    → (b ≡ true → Yields P m)
    → (b ≡ false → Yields P n)
    → Yields P (branch b m n)
unfolding branch
Yields-branch true m n h k = h refl
Yields-branch false m n h k = k refl

pub Yields-weaken :
    {S A : Type 0} {P Q : A → Type 0} {m : M S A} → ((a : A) → P a → Q a) → Yields P m → Yields Q m
Yields-weaken f y = record { holds = λ s a s' h. f a (y.holds s a s' h) }

-- The state after the call is related to the one before, whether the call returns or throws.
pub record Keeps {S A : Type 0} (R : S → S → Type 0) (m : M S A) : Type 0 where
  pub holds : (s : S) → R s (m s).1

pub record IsPreorder {S : Type 0} (R : S → S → Type 0) : Type 0 where
  pub reflexive : (s : S) → R s s
  pub transitive : (s t u : S) → R s t → R t u → R s u

module _ {S : Type 0} {R : S → S → Type 0} (order : IsPreorder R) where
  and_then-R :
      {A B : Type 0} (s : S) (r : Result A × S) (f : A → M S B)
      → R s r.1
      → ((a : A) → Keeps R (f a))
      → R s (and_then r f).1
  and_then-R s (ok a, t) f h next = order.transitive s t _ h ((next a).holds t)
  and_then-R s (err e, t) f h next = h

  pub Keeps-bind :
      {A B : Type 0} (m : M S A) (f : A → M S B)
      → Keeps R m
      → ((a : A) → Keeps R (f a))
      → Keeps R (m >>= f)
  unfolding ◌>>=◌
  Keeps-bind m f first next = record { holds = λ s. and_then-R s (m s) f (first.holds s) next }

  pub Keeps-lift-bind :
      {A B : Type 0} (r : Result A) (f : A → M S B)
      → ((a : A) → r ≡ ok a → Keeps R (f a))
      → Keeps R (lift r >>= f)
  unfolding ◌>>=◌ lift
  Keeps-lift-bind (ok a) f next = record { holds = λ s. (next a refl).holds s }
  Keeps-lift-bind (err e) f next = record { holds = λ s. order.reflexive s }

  pub Keeps-lift : {A : Type 0} (r : Result A) → Keeps R (lift r)
  unfolding lift
  Keeps-lift r = record { holds = λ s. order.reflexive s }

  pub Keeps-pure : {A : Type 0} (a : A) → Keeps R (pure a)
  unfolding pure
  Keeps-pure a = record { holds = λ s. order.reflexive s }

  pub Keeps-throw : {A : Type 0} (e : Error) → Keeps R (throw {A = A} e)
  unfolding throw
  Keeps-throw e = record { holds = λ s. order.reflexive s }

pub Keeps-branch :
    {S A : Type 0} {R : S → S → Type 0} (b : Bool) (m n : M S A)
    → (b ≡ true → Keeps R m)
    → (b ≡ false → Keeps R n)
    → Keeps R (branch b m n)
unfolding branch
Keeps-branch true m n h k = h refl
Keeps-branch false m n h k = k refl

caught-Yields :
    {S A : Type 0} {P : A → Type 0} (out : Result A × S) (handle : Error → M S A)
    → ((a : A) (s : S) → out ≡ (ok a, s) → P a)
    → ((e : Error) → Yields P (handle e))
    → (a : A) (s' : S) → caught out handle ≡ (ok a, s')
    → P a
caught-Yields {P} (ok b, s) handle h k a s' e = let same : b ≡ a = cc in subst P same (h b s refl)
caught-Yields (err error, s) handle h k a s' e = (k error).holds s a s' e

pub Yields-catch :
    {S A : Type 0} {P : A → Type 0} (m : M S A) (handle : Error → M S A)
    → Yields P m
    → ((e : Error) → Yields P (handle e))
    → Yields P (try_catch m handle)
unfolding try_catch
Yields-catch m handle first second = record {
  holds = λ s a s' h. caught-Yields (m s) handle (λ b t e. first.holds s b t e) second a s' h;
}

pub Yields-last :
    {S A : Type 0} {P : A → Type 0} (r : Result A)
    → ((a : A) → r ≡ ok a → P a)
    → Yields {S = S} P (lift r)
unfolding lift
Yields-last {P} r f = record { holds = λ s a s' h. f a (ground (arith, h)) }

pub Yields-any : {S A : Type 0} {P : A → Type 0} (m : M S A) → ((a : A) → P a) → Yields P m
Yields-any m f = record { holds = λ s a s' h. f a }

pub Yields-if_present :
    {S A B : Type 0} {P : B → Type 0} (o : Option A) (f : A → M S B) (m : M S B)
    → ((a : A) → o ≡ some a → Yields P (f a))
    → (o ≡ none → Yields P m)
    → Yields P (if_present o f m)
unfolding if_present
Yields-if_present none f m h k = k refl
Yields-if_present (some a) f m h k = h a refl

pub Keeps-if_present :
    {S A B : Type 0} {R : S → S → Type 0} (o : Option A) (f : A → M S B) (m : M S B)
    → ((a : A) → o ≡ some a → Keeps R (f a))
    → (o ≡ none → Keeps R m)
    → Keeps R (if_present o f m)
unfolding if_present
Keeps-if_present none f m h k = k refl
Keeps-if_present (some a) f m h k = h a refl
