-- ===== src/Common/Effects.antt =====
-- Errors as values, and asynchronous code as a state monad with errors: an awaited call takes the
-- state of the world and gives a result or a thrown error, together with the new state.
pub mod Pure
pub mod Async
pub mod Hoare
pub mod Triples
pub mod Returns
pub mod Guards
use Prim.Native.Nat.{ℕ}
use Prim.Native.String.{String}

-- The classes of errors that the code throws, with their messages.
pub data Error : Type 0 where
  plain : String → Error
  missing_token : Error
  invalid_token : String → Error
  agent_identity : String → String → Error
  audit_delivery : Error
  -- `${name} must be between 1 and ${maximum}`.
  out_of_range : String → ℕ → Error
  -- `${label} must contain between 1 and ${maximum} safe characters`.
  unsafe_text : String → ℕ → Error
  -- An error of code that is not part of the program.
  foreign : String → Error

pub data Result {ℓ} (X : Type ℓ) : Type ℓ where
  err : Error → Result X
  ok : X → Result X
