-- ===== src/Execution/Outcome.antt =====
-- services/quote-engine/internal/quote/execution.go: a handler that reads and writes the store and may
-- return at any point, as a state monad with early answers.
use epeius.Prelude.{String, Bool, true, false, Option, none, some}
use epeius.Wire.{PreparationStatus, PrepareExecutionResponse, blank_response}
use epeius.Engine.{Code, invalid_argument}
use epeius.Store.{Store}

-- `panics` is a dereference of a nil `*big.Int`.
pub data Outcome (A : Type 0) : Type 0 where
  goes_on : A → Outcome A
  answers : PrepareExecutionResponse → Outcome A
  fails : Code → String → Outcome A
  panics : Outcome A

abbrev pub Exec : Type 0 → Type 0
Exec A = Store → Outcome A × Store

module _ {A : Type 0} where
  unfoldable pub pure : A → Exec A
  pure a s = (goes_on a, s)

  unfoldable pub respond : PrepareExecutionResponse → Exec A
  respond response s = (answers response, s)

  -- connect.NewError(code, message)
  unfoldable pub fail : Code → String → Exec A
  fail code message s = (fails code message, s)

  unfoldable pub panic : Exec A
  panic s = (panics, s)

  -- The handler's `invalid` and `result`.
  unfoldable pub invalid : Exec A
  unfolding fail
  invalid = fail invalid_argument "invalid preparation request"

  unfoldable pub result : PreparationStatus → String → Exec A
  unfolding respond
  result status message = respond (record blank_response { status = status; message = message })

  -- A nil number is dereferenced.
  unfoldable pub some_or_panic : Option A → Exec A
  unfolding pure panic
  some_or_panic none = panic
  some_or_panic (some a) = pure a

module _ {A B : Type 0} where
  abbrev pub continue : Outcome A → (A → Exec B) → Exec B
  continue (goes_on a) f s = f a s
  continue (answers response) f s = (answers response, s)
  continue (fails code message) f s = (fails code message, s)
  continue panics f s = (panics, s)

  infixl 5 ◌>>=◌ ◌>>◌
  unfoldable pub ◌>>=◌ : Exec A → (A → Exec B) → Exec B
  ◌>>=◌ m f s = let (r, s') = m s in continue r f s'

  abbrev pub ◌>>◌ : Exec A → Exec B → Exec B
  m >> n = m >>= λ _. n

-- `if !test { return … }`
unfoldable pub unless : Bool → Exec (Unit {0}) → Exec (Unit {0})
unfolding pure
unless true early = pure tt
unless false early = early

-- `if value == nil { return … }`
unfoldable pub some_or_else : {A : Type 0} → Option A → Exec A → Exec A
unfolding pure
some_or_else none early = early
some_or_else (some a) early = pure a
