-- ===== src/Engine.antt =====
-- services/quote-engine/internal/quote/handler.go and preparation.go: the state of the handler and
-- the interfaces of its parts, each a record of functions.
use epeius.Prelude.{ℕ, String, Bool, Option, List}
use epeius.Prelude.Int.{ℤ}
use epeius.Prelude.Dict.{Dict}
use epeius.Evm.{Reader}
use epeius.Wire.{
  QuoteRequest, BlockContext, RouteQuote, QuotedAllocation, PrepareExecutionRequest,
  PrepareExecutionResponse,
}
use epeius.Config
use epeius.Store.{StoredQuote, ExecutionPlan}

-- rpc.Snapshot
pub record Snapshot : Type 0 where
  pub key : String
  pub chain_id : String
  pub block_number : String
  pub block_hash : String
  pub timestamp : ℕ

-- What `candidate.Quote` returns: a route, nothing for a route that is missing, or an error.
pub data Quoted : Type 0 where
  quoted : RouteQuote → Quoted
  missing : Quoted
  quote_error : String → Quoted

pub record QuoteCandidate : Type 0 where
  pub id : String
  pub quote : Quoted

-- `Candidates` as the sequence that its callback yields while the search is not cancelled.
pub record ProtocolQuoter : Type 0 where
  pub candidates : QuoteRequest → BlockContext → List QuoteCandidate

-- A result with a message that is empty where it was admitted.
pub data Admission {ℓ} (A : Type ℓ) : Type ℓ where
  admitted : A → Admission A
  refused : String → Admission A

-- The output is nil where a strategy could not read it as a number and did not ask.
pub record ExecutionSelection : Type 0 where
  pub route : Option RouteQuote
  pub allocations : List QuotedAllocation
  pub output : Option ℤ

pub record PreparationStrategy : Type 0 where
  pub select :
      StoredQuote → PrepareExecutionRequest → Option RouteQuote → Admission ExecutionSelection
  pub build : PrepareExecutionResponse → Admission ExecutionPlan

-- A client that is an `executionReader` has `Canonical` too.
pub record Client : Type 0 where
  pub reader : Reader
  pub is_execution_reader : Bool

pub record Chain : Type 0 where
  pub chain_id : String
  pub client : Option Client
  pub snapshot : Snapshot
  pub error : String
  pub config : Config.Chain
  pub deployment_errors : Dict String
  pub quoters : Dict ProtocolQuoter
  pub allocation_requoters : Dict (RouteQuote → ℤ → BlockContext → Admission RouteQuote)
  pub deployment_verifiers : Dict (ℕ → Admission (Unit {0}))
  pub preparers : Dict PreparationStrategy
  pub allocation_preparer : Option PreparationStrategy

-- The store and the simulator may be nil; the store's state is passed along.
pub record Handler : Type 0 where
  pub chains : Dict Chain
  pub has_store : Bool
  pub has_simulator : Bool
  pub quote_concurrency : ℤ

-- The codes of Connect's errors that the handlers return.
pub data Code : Type 0 where
  invalid_argument failed_precondition unavailable deadline_exceeded canceled : Code
