-- ===== src/Common/Effects/Async.antt =====
-- Asynchronous code over a state of the world.
use mathlib.Core.Bool.{Bool}
use mathlib.Core.Option.{Option, none, some}
use authenik8_core_beta.Common.Tests.{if◌then◌else◌}
use authenik8_core_beta.Common.Effects.{Error, Result, ok, err}

abbrev pub M : Type 0 → Type 0 → Type 0
M S A = S → Result A × S

abbrev pub and_then : {S A B : Type 0} → Result A × S → (A → M S B) → Result B × S
and_then (ok a, s) f = f a s
and_then (err e, s) f = (err e, s)

-- These are shut, so that the rules of Hoare.antt find the calls of which a computation consists.
infixl 5 ◌>>=◌ ◌>>◌
unfoldable pub ◌>>=◌ : {S A B : Type 0} → M S A → (A → M S B) → M S B
◌>>=◌ m f s = and_then (m s) f

abbrev pub ◌>>◌ : {S B : Type 0} → M S (Unit {0}) → M S B → M S B
m >> k = m >>= λ _. k

unfoldable pub pure : {S A : Type 0} → A → M S A
pure a s = (ok a, s)

unfoldable pub throw : {S A : Type 0} → Error → M S A
throw e s = (err e, s)

unfoldable pub lift : {S A : Type 0} → Result A → M S A
lift r s = (r, s)

-- `try { m } catch (e) { handle(e) }`.
abbrev pub caught : {S A : Type 0} → Result A × S → (Error → M S A) → Result A × S
caught (ok a, s) handle = (ok a, s)
caught (err e, s) handle = handle e s

unfoldable pub try_catch : {S A : Type 0} → M S A → (Error → M S A) → M S A
try_catch m handle s = caught (m s) handle

-- `try { m } finally { last }`: an error of `last` replaces the outcome of `m`.
abbrev pub after : {S A : Type 0} → Result A → Result (Unit {0}) × S → Result A × S
after r (ok u, s) = (r, s)
after r (err e, s) = (err e, s)

abbrev pub finish : {S A : Type 0} → Result A × S → M S (Unit {0}) → Result A × S
finish (r, s) last = after r (last s)

unfoldable pub try_finally : {S A : Type 0} → M S A → M S (Unit {0}) → M S A
try_finally m last s = finish (m s) last

-- `if (test) { m } else { n }`, where the branches await.
unfoldable pub branch : {S A : Type 0} → Bool → M S A → M S A → M S A
branch b m n = if b then m else n

-- A method or a service that may be absent.
unfoldable pub if_present : {S A B : Type 0} → Option A → (A → M S B) → M S B → M S B
if_present none f otherwise = otherwise
if_present (some a) f otherwise = f a
