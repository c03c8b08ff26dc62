-- ===== src/Execution/Admit.antt =====
-- services/quote-engine/internal/quote/execution.go: from the request to the terms of a preparation.
use epeius.Prelude.{
  ℕ, ◌+◌, ◌-◌, ◌%◌, ◌/◌, ◌^◌, String, Bool, true, false, not, ◌&&◌, ◌||◌, Option, none, some, List,
  [], ◌∷◌, ltb, leb, ◌==◌, is_empty, str_eq, length, if◌then◌else◌,
}
use epeius.Prelude.Int.{ℤ, scale, div_ℤ}
use epeius.Prelude.Decimal.{nat_text, int_text}
use epeius.Prelude.Dict.{lookup}
use epeius.Evm.{Evm, valid_address}
use epeius.Wire.{
  RouteQuote, PrepareExecutionRequest, PrepareExecutionResponse, requote_required, rejected,
  blank_response,
}
use epeius.Store.{Store, StoredQuote, Preparation, ExecutionPlan, retention, find}
use epeius.Engine.{
  Snapshot, Chain, Client, Handler, Admission, admitted, refused, ExecutionSelection,
  PreparationStrategy,
}
use epeius.Execution.Outcome.{Exec, pure, invalid, result, unless, some_or_panic, ◌>>=◌, ◌>>◌}
use epeius.Execution.Environment.{World, looked_up, quote_block, touch}

-- a == b on booleans.
abbrev pub same : Bool → Bool → Bool
same true b = b
same false b = not b

abbrev is_some {ℓ} : {A : Type ℓ} → Option A → Bool
is_some none = false
is_some (some a) = true

-- The first test of the handler: a preparation is asked for by its ID alone, or a quote by its ID
-- with a route or one or two allocations, a sender that is not zero, and a slippage below 100 %.
unfoldable pub valid_request : Evm → PrepareExecutionRequest → Bool
valid_request evm r =
    if not (is_empty r.preparation_id)
    then is_empty r.quote_id
      && is_empty r.route_id
      && is_empty r.sender
      && r.slippage_bps == 0
      && length r.allocations == 0
    else not (
        is_empty r.quote_id
        || same (is_empty r.route_id) (length r.allocations == 0)
        || ltb 2 (length r.allocations)
        || not (valid_address evm r.sender)
        || evm.hex_to_address r.sender == 0
        || leb 10000 r.slippage_bps)

-- A preparation to check again, or a quote to prepare.
pub data Source : Type 0 where
  again : Preparation → Source
  fresh : StoredQuote → Source

abbrev unavailable_message : String
unavailable_message = "quote or preparation expired or unavailable"

unfoldable pub choose :
    PrepareExecutionRequest → Option StoredQuote → Option Preparation → Exec Source
choose r q (some p) = (do
  unless (not (is_empty r.preparation_id && not (is_some q)))
      (result requote_required unavailable_message)
  pure (again p))
choose r none none = result requote_required unavailable_message
choose r (some q) none = do
  unless (is_empty r.preparation_id) (result requote_required unavailable_message)
  pure (fresh q)

unfoldable pub find_both :
    PrepareExecutionRequest → ℕ → Store → (Option StoredQuote × Option Preparation) × Store
find_both r now s = let (q, p, s') = find r.quote_id r.preparation_id now s in ((q, p), s')

unfoldable pub load : World → PrepareExecutionRequest → Exec Source
load w r = do found ← touch w looked_up (find_both r (w.clock looked_up)); choose r found.0 found.1

unfoldable pub chain_key : Source → String
chain_key (again p) = p.chain
chain_key (fresh q) = q.request.chain

-- The chain, and its client if that is an `executionReader`.
unfoldable pub execution_client : Handler → Chain → Option Client → Exec (Chain × Client)
execution_client h chain none = result rejected "execution checks unavailable"
execution_client h chain (some client) = do
  unless (client.is_execution_reader && h.has_simulator)
      (result rejected "execution checks unavailable")
  pure (chain, client)

unfoldable pub enabled_chain : Handler → Option Chain → Exec (Chain × Client)
enabled_chain h none = result rejected "execution is disabled"
enabled_chain h (some chain) = do
  unless chain.config.execution_enabled (result rejected "execution is disabled")
  execution_client h chain chain.client

unfoldable pub find_chain : Handler → Source → Exec (Chain × Client)
find_chain h source = enabled_chain h (lookup (chain_key source) h.chains)

unfoldable pub usable_block : Chain → Option Snapshot → Exec Snapshot
usable_block chain none = result rejected "could not read execution block"
usable_block chain (some snapshot) = do
  unless (not (snapshot.timestamp == 0 || not (str_eq snapshot.chain_id chain.chain_id)))
      (result rejected "could not read execution block")
  pure snapshot

unfoldable pub read_block : World → Chain → Exec Snapshot
read_block w chain = usable_block chain w.snapshot

-- The loop over the quote's routes.
unfoldable pub find_route : String → List RouteQuote → Option RouteQuote
find_route id [] = none
find_route id (route ∷ routes) =
    if str_eq route.route_id id then some route else find_route id routes

-- slippage_bps is a uint32, and the timestamp a uint64.
abbrev pub kept_bps : ℕ → ℕ
kept_bps slippage_bps = (10000 + 2 ^ 32 - slippage_bps) % 2 ^ 32

unfoldable pub minimum_output : ℤ → ℕ → ℤ
minimum_output output slippage_bps = div_ℤ (scale output (kept_bps slippage_bps)) 10000

unfoldable pub deadline_of : ℕ → ℕ
deadline_of timestamp = (timestamp + 120) % 2 ^ 64

module _ (evm : Evm) (w : World) (saved : StoredQuote) (r : PrepareExecutionRequest) where
  unfoldable pub terms_response : ExecutionSelection → ℤ → ℕ → PrepareExecutionResponse
  terms_response selection output timestamp = record blank_response {
    preparation_id = w.fresh_id;
    expires_at_unix = nat_text ((w.clock looked_up + retention) / 1_000_000_000);
    amount_out_minimum_atomic = int_text (minimum_output output r.slippage_bps);
    amount_in_atomic = saved.request.amount_in_atomic;
    token_in = saved.request.token_in;
    token_out = saved.request.token_out;
    recipient = evm.address_hex (evm.hex_to_address r.sender);
    deadline_unix = nat_text (deadline_of timestamp);
    route = selection.route;
    allocations = selection.allocations;
  }

  unfoldable pub built : PrepareExecutionResponse → Admission ExecutionPlan → Exec Preparation
  built response (refused message) = result rejected message
  built response (admitted plan) = pure (record {
    plan = plan;
    response = response;
    chain = saved.request.chain;
    expires = w.clock looked_up + retention;
    approval = false;
  })

  unfoldable pub selected :
      PreparationStrategy → ℕ → Admission ExecutionSelection → Exec Preparation
  selected strategy timestamp (refused message) = result rejected message
  selected strategy timestamp (admitted selection) = do
    output ← some_or_panic selection.output
    let response = terms_response selection output timestamp
    built response (strategy.build response)

  unfoldable pub build_preparation : PreparationStrategy → Option RouteQuote → ℕ → Exec Preparation
  build_preparation strategy route timestamp =
      selected strategy timestamp (strategy.select saved r route)

  unfoldable pub with_strategy :
      Option PreparationStrategy → Option RouteQuote → ℕ → Exec Preparation
  with_strategy none route timestamp = result rejected "deployment unavailable"
  with_strategy (some strategy) route timestamp = build_preparation strategy route timestamp

  unfoldable pub by_route : Chain → Option RouteQuote → ℕ → Exec Preparation
  by_route chain none timestamp = invalid
  by_route chain (some route) timestamp =
      with_strategy (lookup route.deployment_id chain.preparers) (some route) timestamp

  -- The terms of a quote: its block must still be canonical.
  unfoldable pub prepare_quote : Chain → Snapshot → Exec Preparation
  prepare_quote chain snapshot = do
    unless
        (w.canonical quote_block (record {
          key = "";
          chain_id = "";
          block_number = saved.final.block.number;
          block_hash = saved.final.block.hash;
          timestamp = 0;
        }))
        (result requote_required "The quote block could not be confirmed; request a fresh quote.")
    if is_empty r.route_id
        then with_strategy chain.allocation_preparer none snapshot.timestamp
        else by_route chain (find_route r.route_id saved.final.routes) snapshot.timestamp

-- The preparation that is checked, made now or found.
unfoldable pub terms :
    Evm → World → PrepareExecutionRequest → Chain → Snapshot → Source → Exec Preparation
terms evm w r chain snapshot (again p) = pure p
terms evm w r chain snapshot (fresh saved) = prepare_quote evm w saved r chain snapshot
