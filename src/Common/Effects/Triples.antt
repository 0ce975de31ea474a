-- ===== src/Common/Effects/Triples.antt =====
-- Rules for asynchronous code that returns: what holds of the state before gives what holds of the
-- result and the state after.
use mathlib.Core.Path.{◌≡◌, refl, subst}
use mathlib.Core.Bool.{Bool, true, false}
use mathlib.Core.Option.{Option, none, some}
use native.Mathlib.Omega.{arith}
use authenik8_core_beta.Common.Effects.{Error, Result, ok, err}
use authenik8_core_beta.Common.Effects.Async.{
  M, and_then, ◌>>=◌, pure, throw, lift, branch, if_present, try_catch, caught, try_finally, finish,
  after,
}
use authenik8_core_beta.Common.Effects.Hoare.{Yields, Keeps}

pub record Ensures {S A : Type 0} (P : S → Type 0) (m : M S A) (Q : A → S → Type 0) : Type 0 where
  pub holds : (s : S) → P s → (a : A) (s' : S) → m s ≡ (ok a, s') → Q a s'

and_then-Ensures :
    {S A B : Type 0} (r : Result A × S) (f : A → M S B) {b : B} {s' : S}
    → and_then r f ≡ (ok b, s')
    → (a : A) × (s : S) × (r ≡ (ok a, s)) × (f a s ≡ (ok b, s'))
and_then-Ensures (ok a, s) f h = (a, s, refl, h)
and_then-Ensures (err e, s) f h = cc

pub Ensures-bind :
    {S A B : Type 0} {P : S → Type 0} (Q : A → S → Type 0) {R : B → S → Type 0} (m : M S A)
    (f : A → M S B)
    → Ensures P m Q
    → ((a : A) → Ensures (Q a) (f a) R)
    → Ensures P (m >>= f) R
unfolding ◌>>=◌
Ensures-bind Q m f first next = record {
  holds = λ s p b s' h.
      let (a, t, e, e') = and_then-Ensures (m s) f h in
      (next a).holds t (first.holds s p a t e) b s' e';
}

pub Ensures-lift :
    {S A B : Type 0} {P : S → Type 0} {R : B → S → Type 0} (r : Result A) (f : A → M S B)
    → ((a : A) → r ≡ ok a → Ensures P (f a) R)
    → Ensures P (lift r >>= f) R
unfolding ◌>>=◌ lift
Ensures-lift (ok a) f next = record { holds = λ s p b s' h. (next a refl).holds s p b s' h }
Ensures-lift (err e) f next = record { holds = λ s p b s' h. cc }

pub Ensures-pure :
    {S A : Type 0} {P : S → Type 0} {Q : A → S → Type 0} (a : A)
    → ((s : S) → P s → Q a s)
    → Ensures P (pure a) Q
unfolding pure
Ensures-pure {S} {A} {P} {Q} a f = record {
  holds = λ s p b s' h.
      let e : a ≡ b = ground arith in
      let e' : s ≡ s' = ground arith in subst (λ x. Q x s') e (subst (λ t. Q a t) e' (f s p));
}

pub Ensures-throw :
    {S A : Type 0} {P : S → Type 0} {Q : A → S → Type 0} (e : Error) → Ensures P (throw {A = A} e) Q
unfolding throw
Ensures-throw e = record { holds = λ s p b s' h. cc }

pub Ensures-branch :
    {S A : Type 0} {P : S → Type 0} {Q : A → S → Type 0} (b : Bool) (m n : M S A)
    → (b ≡ true → Ensures P m Q)
    → (b ≡ false → Ensures P n Q)
    → Ensures P (branch b m n) Q
unfolding branch
Ensures-branch true m n h k = h refl
Ensures-branch false m n h k = k refl

pub Ensures-if_present :
    {S A B : Type 0} {P : S → Type 0} {Q : B → S → Type 0} (o : Option A) (f : A → M S B)
    (m : M S B)
    → ((a : A) → o ≡ some a → Ensures P (f a) Q)
    → (o ≡ none → Ensures P m Q)
    → Ensures P (if_present o f m) Q
unfolding if_present
Ensures-if_present none f m h k = k refl
Ensures-if_present (some a) f m h k = h a refl

-- What the call keeps, and says nothing of its result.
pub Ensures-kept :
    {S A : Type 0} {P : S → Type 0} {R : S → S → Type 0} (m : M S A)
    → Keeps R m
    → ((s t : S) → R s t → P s → P t)
    → Ensures P m (λ a. P)
Ensures-kept {R} m kept stable = record {
  holds =
      λ s p a s' h. let r : R s s' = subst (λ out. R s out.1) h (kept.holds s) in stable s s' r p;
}

after-Ensures :
    {S A : Type 0} (Q : A → S → Type 0) (b : A) (out : Result (Unit {0}) × S)
    → Q b out.1
    → (a : A) (s' : S) → after (ok b) out ≡ (ok a, s')
    → Q a s'
after-Ensures Q b (ok u, t) q a s' e =
    let e1 : b ≡ a = cc in let e2 : t ≡ s' = cc in subst (λ x. Q x s') e1 (subst (λ x. Q b x) e2 q)
after-Ensures Q b (err error, t) q a s' e = cc

after-err :
    {S A : Type 0} (error : Error) (out : Result (Unit {0}) × S) (a : A) (s' : S)
    → after (err error) out ≡ (ok a, s')
    → ⊥
after-err error (ok u, t) a s' e = cc
after-err error (err other, t) a s' e = cc

finish-Ensures :
    {S A : Type 0} (Q : A → S → Type 0) (out : Result A × S) (last : M S (Unit {0}))
    → ((a : A) (s : S) → out ≡ (ok a, s) → Q a (last s).1)
    → (a : A) (s' : S) → finish out last ≡ (ok a, s')
    → Q a s'
finish-Ensures Q (ok b, s) last h a s' e = after-Ensures Q b (last s) (h b s refl) a s' e
finish-Ensures Q (err error, s) last h a s' e = absurd (after-err error (last s) a s' e)

pub Ensures-finally :
    {S A : Type 0} {P : S → Type 0} {Q : A → S → Type 0} (m : M S A) (last : M S (Unit {0}))
    → Ensures P m Q
    → ((a : A) (s : S) → Q a s → Q a (last s).1)
    → Ensures P (try_finally m last) Q
unfolding try_finally
Ensures-finally m last first stable = record {
  holds = λ s p. finish-Ensures _ (m s) last λ a t e. stable a t (first.holds s p a t e);
}

caught-Ensures :
    {S A : Type 0} {Q : A → S → Type 0} (out : Result A × S) (handle : Error → M S A)
    → ((a : A) (s : S) → out ≡ (ok a, s) → Q a s)
    → ((e : Error) → Ensures (λ s. Unit {0}) (handle e) Q)
    → (a : A) (s' : S) → caught out handle ≡ (ok a, s')
    → Q a s'
caught-Ensures (ok b, s) handle h k a s' e = h a s' e
caught-Ensures (err error, s) handle h k a s' e = (k error).holds s tt a s' e

pub Ensures-catch :
    {S A : Type 0} {P : S → Type 0} {Q : A → S → Type 0} (m : M S A) (handle : Error → M S A)
    → Ensures P m Q
    → ((e : Error) → Ensures (λ s. Unit {0}) (handle e) Q)
    → Ensures P (try_catch m handle) Q
unfolding try_catch
Ensures-catch m handle first second = record {
  holds = λ s p. caught-Ensures (m s) handle (λ a t e. first.holds s p a t e) second;
}

-- What is known of every result holds of this one too.
pub Ensures-Yields :
    {S A : Type 0} {P : S → Type 0} {Q : A → S → Type 0} {T : A → Type 0} (m : M S A)
    → Yields T m
    → Ensures P m Q
    → Ensures P m (λ a s. T a × Q a s)
Ensures-Yields m yields ensures = record {
  holds = λ s p a s' h. (yields.holds s a s' h, ensures.holds s p a s' h);
}

-- A fact that the condition before has, of whatever state.
pub Ensures-fact :
    {S A T : Type 0} {P : S → Type 0} {Q : A → S → Type 0} (m : M S A)
    → ((s : S) → P s → T)
    → (T → Ensures P m Q)
    → Ensures P m Q
Ensures-fact m fact rest = record { holds = λ s p a s' h. (rest (fact s p)).holds s p a s' h }

pub Ensures-any : {S A : Type 0} {P : S → Type 0} (m : M S A) → Ensures P m (λ a s. Unit {0})
Ensures-any m = record { holds = λ s p a s' h. tt }

-- Where nothing is asked of the first call.
pub Ensures-then :
    {S A B : Type 0} {P : S → Type 0} {R : B → S → Type 0} (m : M S A) (f : A → M S B)
    → ((a : A) → Ensures (λ s. Unit {0}) (f a) R)
    → Ensures P (m >>= f) R
Ensures-then m f next = Ensures-bind (λ a s. Unit {0}) m f (Ensures-any m) next

-- A condition on the state before, from one for each value that an observation of it has.
pub Ensures-at :
    {S A V : Type 0} {Q : A → S → Type 0} (observe : S → V) (m : M S A)
    → ((v : V) → Ensures (λ s. observe s ≡ v) m Q)
    → Ensures (λ s. Unit {0}) m Q
Ensures-at observe m f = record { holds = λ s p a s' h. (f (observe s)).holds s refl a s' h }

pub Ensures-result :
    {S A : Type 0} {P : S → Type 0} {Q R : A → S → Type 0} (m : M S A)
    → ((a : A) (s : S) → Q a s → R a s)
    → Ensures P m Q
    → Ensures P m R
Ensures-result m f ensures = record { holds = λ s p a s' h. f a s' (ensures.holds s p a s' h) }

pub Ensures-weaken :
    {S A : Type 0} {P P' : S → Type 0} {Q : A → S → Type 0} (m : M S A)
    → ((s : S) → P' s → P s)
    → Ensures P m Q
    → Ensures P' m Q
Ensures-weaken m f ensures = record { holds = λ s p a s' h. ensures.holds s (f s p) a s' h }

-- What is known of every result.
pub Ensures-of :
    {S A : Type 0} {P : S → Type 0} {T : A → Type 0} (m : M S A)
    → Yields T m
    → Ensures P m (λ a s. T a)
Ensures-of m yields = record { holds = λ s p a s' h. yields.holds s a s' h }
