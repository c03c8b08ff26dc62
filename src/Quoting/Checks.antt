-- ===== src/Quoting/Checks.antt =====
-- services/quote-engine/internal/quote/handler.go, `GetQuote`: the tests of the request, of the chain and of the snapshot.
use epeius.Prelude.{
  ℕ, ◌^◌, String, Bool, true, false, not, ◌&&◌, ◌||◌, Option, none, some, List, [], ◌∷◌, ltb, leb,
  ◌==◌, str_eq, length, codes,
}
use epeius.Prelude.Int.{ℤ, pos_part}
use epeius.Prelude.Decimal.{set_string, positive_integer}
use epeius.Prelude.Dict.{lookup}
use epeius.Evm.{Evm, valid_address}
use epeius.Wire.{QuoteRequest}
use epeius.Config.{Token}
use epeius.Store.{Op}
use epeius.Engine.{
  Chain, Client, Handler, Code, invalid_argument, failed_precondition, unavailable,
  deadline_exceeded, canceled, Snapshot,
}
use epeius.Search.{Move}

-- `connect.NewError(code, message)` or a value to go on with.
pub data Checked {ℓ} (A : Type ℓ) : Type ℓ where
  passes : A → Checked A
  fails : Code → String → Checked A

infixl 5 ◌>>=◌ ◌>>◌
unfoldable pub ◌>>=◌ {ℓ κ} : {A : Type ℓ} {B : Type κ} → Checked A → (A → Checked B) → Checked B
◌>>=◌ (passes a) f = f a
◌>>=◌ (fails code message) f = fails code message

abbrev pub ◌>>◌ {ℓ κ} : {A : Type ℓ} {B : Type κ} → Checked A → Checked B → Checked B
m >> n = m >>= λ _. n

-- `if !test { return connect.NewError(code, message) }`
unfoldable pub require : Bool → Code → String → Checked (Unit {0})
require true code message = passes tt
require false code message = fails code message

unfoldable pub required {ℓ} : {A : Type ℓ} → Option A → Code → String → Checked A
required (some a) code message = passes a
required none code message = fails code message

unfoldable pub find_requested_chain : Handler → QuoteRequest → Checked (Chain × Client)
unfolding ◌>>=◌
find_requested_chain h r = do
  require (ltb 0 (pos_part h.quote_concurrency)) failed_precondition
      "quote concurrency is not configured"
  chain ← required (lookup r.chain h.chains) invalid_argument "unknown chain"
  require (str_eq r.chain_id chain.chain_id) invalid_argument
      "chain ID does not match configured chain"
  client ← required chain.client unavailable "chain is unavailable"
  require (ltb 0 (length chain.config.deployments)) failed_precondition
      "no quoting deployments configured"
  passes (chain, client)

-- allowed[address]
unfoldable pub is_allowed : Evm → List Token → ℕ → Bool
is_allowed evm [] address = false
is_allowed evm (token ∷ tokens) address =
    let rest = is_allowed evm tokens address in evm.hex_to_address token.address == address || rest

unfoldable pub check_pair : Evm → Chain → QuoteRequest → Checked (Unit {0})
unfolding ◌>>=◌
check_pair evm chain r = do
  require (valid_address evm r.token_in && valid_address evm r.token_out) invalid_argument
      "addresses must be 20-byte hex strings"
  require
      (not (evm.hex_to_address r.token_in == evm.hex_to_address r.token_out)
        && is_allowed evm chain.config.tokens (evm.hex_to_address r.token_in)
        && is_allowed evm chain.config.tokens (evm.hex_to_address r.token_out))
      invalid_argument "pair must contain distinct configured tokens"

-- `amount.BitLen() <= 256` of a number that was read.
unfoldable pub is_uint256 : Option ℤ → Bool
is_uint256 none = false
is_uint256 (some n) = ltb (pos_part n) (2 ^ 256)

abbrev amount_message : String
amount_message = "amount must be a positive uint256 decimal integer"

unfoldable pub check_amount : QuoteRequest → Checked (Unit {0})
unfolding ◌>>=◌
check_amount r = do
  require (leb (length (codes r.amount_in_atomic)) 78 && positive_integer r.amount_in_atomic)
      invalid_argument amount_message
  require (is_uint256 (set_string r.amount_in_atomic)) invalid_argument amount_message
  require (not (r.search_budget_ms == 0)) invalid_argument "search budget must be positive"

-- ctx.Err(), where it is not nil.
pub data ContextError : Type 0 where
  deadline_passed was_canceled : ContextError

unfoldable pub context_code : ContextError → Code
context_code deadline_passed = deadline_exceeded
context_code was_canceled = canceled

unfoldable pub context_message : ContextError → String
context_message deadline_passed = "context deadline exceeded"
context_message was_canceled = "context canceled"

-- What one call of `GetQuote` meets from outside. `caller_…` is the caller's context after the
-- snapshot and after the search; `moves` is the schedule of the workers.
pub record QuoteWorld : Type 0 where
  pub snapshot : Option Snapshot
  pub caller_after_snapshot : Option ContextError
  pub budget_spent : Bool
  pub moves : List Move
  pub caller_after_search : Option ContextError
  pub quote_id : String
  pub started : ℕ
  pub others : List Op
  pub saved_at : ℕ

unfoldable pub caller_goes_on : Option ContextError → Checked (Unit {0})
caller_goes_on none = passes tt
caller_goes_on (some error) = fails (context_code error) (context_message error)

unfoldable pub snapshot_read : QuoteWorld → Option Snapshot → Checked Snapshot
unfolding ◌>>=◌
snapshot_read w (some snapshot) = passes snapshot
snapshot_read w none = do
  caller_goes_on w.caller_after_snapshot
  require (not w.budget_spent) deadline_exceeded "search budget expired before snapshot"
  fails unavailable "could not read quote block"
