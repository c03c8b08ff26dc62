-- ===== src/Execution.antt =====
-- services/quote-engine/internal/quote/execution.go: `Handler.PrepareExecution`. The children `Admit`,
-- `Checks` and `Finish` hold its parts in the order of the text, over the monad of `Outcome` and the
-- environment of `World`; the others hold its properties.
pub mod Outcome
pub mod Environment
pub mod Admit
pub mod Checks
pub mod Finish
pub mod Spec
pub mod Stages
pub mod Answers
pub mod Evidence
pub mod Terms
pub mod Ready
pub mod Consent
pub mod Slippage
pub mod Simulated
use epeius.Prelude.{Bool, true, false}
use epeius.Evm.{Evm, Contracts}
use epeius.Wire.{PrepareExecutionRequest, requote_required}
use epeius.Engine.{Handler, Snapshot, Chain, Client}
use Outcome.{Exec, invalid, result, unless, ◌>>=◌, ◌>>◌}
use Environment.{World}
use Admit.{Source, again, fresh, valid_request, load, find_chain, read_block, terms}
use Checks.{Context}
use Finish.{check_preparation}

-- The handler's variables for its checks.
abbrev pub context_of : PrepareExecutionRequest → Chain → Client → Snapshot → Source → Context
context_of r chain client snapshot (again p) = record {
  recheck = true;
  quote_id = r.quote_id;
  saved_expires = 0;
  chain_id = chain.chain_id;
  reader = client.reader;
  snapshot = snapshot;
}
context_of r chain client snapshot (fresh saved) = record {
  recheck = false;
  quote_id = r.quote_id;
  saved_expires = saved.expires;
  chain_id = chain.chain_id;
  reader = client.reader;
  snapshot = snapshot;
}

unfoldable pub prepare_execution :
    Evm → Contracts → Handler → World → PrepareExecutionRequest → Exec (Unit {0})
prepare_execution evm abi h w r = do
  unless (valid_request evm r) invalid
  unless h.has_store (result requote_required "quote unavailable; request a fresh quote")
  source ← load w r
  found ← find_chain h source
  let chain = found.0
  let client = found.1
  snapshot ← read_block w chain
  p ← terms evm w r chain snapshot source
  check_preparation evm abi w (context_of r chain client snapshot source) p
