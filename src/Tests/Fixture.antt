-- ===== src/Tests/Fixture.antt =====
-- A chain, a quote, a strategy and a reader for the tests of the services/quote-engine model.
use epeius.Prelude.{ℕ, true, Option, none, some, [], ◌∷◌}
use epeius.Prelude.Int.{pos}
use epeius.Evm.{Evm, Contracts, Method, Reader, Bytes, got}
use epeius.Wire.{
  QuoteRequest, QuoteFinal, RouteQuote, BlockContext, PrepareExecutionRequest, UnsignedTransaction,
}
use epeius.Store.{ExecutionPlan, Store}
use epeius.Engine.{Handler, Chain, Snapshot, PreparationStrategy, admitted}
use epeius.Execution.Environment.{World, simulated}

abbrev number_of : Bytes → Option ℕ
number_of [] = none
number_of (n ∷ rest) = some n

abbrev pub number_method : Method ℕ
number_method = record { decode = number_of; encode = λ n. some (n ∷ []) }

abbrev pair_of : Bytes → Option (ℕ × ℕ)
pair_of [] = none
pair_of (n ∷ []) = none
pair_of (n ∷ (m ∷ rest)) = some (n, m)

abbrev pub pair_method : Method (ℕ × ℕ)
pair_method = record { decode = pair_of; encode = λ p. some (p.0 ∷ p.1 ∷ []) }

abbrev pub evm : Evm
evm = record {
  is_hex_address = λ s. true;
  hex_to_address = λ s. 7;
  address_hex = λ a. "0x07";
  hex_to_hash = λ s. 9;
  is_hex_hash = λ s. true;
}

abbrev pub abi : Contracts
abi = record {
  allowance_call = λ owner spender. owner ∷ spender ∷ [];
  allowance = number_method;
  approve_call = λ spender amount. [];
  permit2_allowance_call = λ a b c. [];
  permit2_allowance = pair_method;
  permit2_approve_call = λ a b c d. [];
  encode_hex = λ bytes. "0x";
}

-- Every call answers that the allowance is 500.
abbrev pub reader : Reader
reader = record { call = λ to call hash. got (500 ∷ []); code = none }

abbrev pub block : BlockContext
block = record { number = "100"; hash = "0x64" }

abbrev pub route : RouteQuote
route = record {
  route_id = "uni:500";
  provider = "uniswap-v3";
  legs = [];
  amount_out_atomic = "2000";
  network_cost_out_atomic = none;
  effective_out_atomic = none;
  block = block;
  latency_ms = 1;
  deployment_id = "uni";
}

abbrev pub quote_request : QuoteRequest
quote_request = record {
  token_in = "0x0a";
  token_out = "0x0b";
  amount_in_atomic = "500";
  search_budget_ms = 1000;
  chain = "base";
  chain_id = "8453";
}

abbrev pub final : QuoteFinal
final = record {
  quote_id = "q1";
  routes = route ∷ [];
  errors = [];
  best_route_id = some "uni:500";
  block = block;
  search_complete = true;
}

abbrev pub swap : UnsignedTransaction
swap = record {
  chain_id = "8453";
  to = "0x99";
  calldata = "0xabcd";
  value_atomic = "0";
  from = "0x07";
  gas_limit = "1500000";
}

abbrev pub plan : ExecutionPlan
plan = record {
  transaction = swap;
  spender = "0x99";
  permission = none;
  checks = record {
    input = record { token = "0x0a"; owner = "0x07" };
    output = record { token = "0x0b"; owner = "0x07" };
    preserve = [];
    clear_allowances = [];
  };
  verify = none;
}

abbrev pub strategy : PreparationStrategy
strategy = record {
  select = λ saved r found.
      admitted (record { route = found; allocations = []; output = some (pos 2000) });
  build = λ response. admitted plan;
}

abbrev pub snapshot : Snapshot
snapshot = record {
  key = "base";
  chain_id = "8453";
  block_number = "101";
  block_hash = "0x65";
  timestamp = 1700000000;
}

abbrev pub chain : Chain
chain = record {
  chain_id = "8453";
  client = some (record { reader = reader; is_execution_reader = true });
  snapshot = snapshot;
  error = "";
  config = record {
    chain_id = pos 8453;
    rpc_url_env = "BASE_RPC_URL";
    execution_enabled = true;
    tokens = [];
    deployments = [];
    executor = none;
  };
  deployment_errors = [];
  quoters = [];
  allocation_requoters = [];
  deployment_verifiers = [];
  preparers = ("uni", strategy) ∷ [];
  allocation_preparer = none;
}

abbrev pub handler : Handler
handler = record {
  chains = ("base", chain) ∷ [];
  has_store = true;
  has_simulator = true;
  quote_concurrency = pos 4;
}

-- The clock stands at two seconds, every block is canonical, and the swap pays 1990.
abbrev pub world : World
world = record {
  clock = λ site. 2_000_000_000;
  canonical = λ site s. true;
  others = λ site. [];
  snapshot = some snapshot;
  fresh_id = "p1";
  simulate = λ tx checks s amount minimum. simulated "1990";
}

abbrev pub request : PrepareExecutionRequest
request = record {
  quote_id = "q1";
  route_id = "uni:500";
  sender = "0x07";
  slippage_bps = 50;
  preparation_id = "";
  allocations = [];
}

-- A store with the quote saved one second ago.
abbrev pub saved_store : Store
saved_store = record {
  quotes =
      (
        "q1",
        record { request = quote_request; final = final; expires = 31_000_000_000; approvals = [] },
      )
      ∷ [];
  preparations = [];
}
