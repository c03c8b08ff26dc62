-- ===== src/Executor/Build.antt =====
-- executor.go, `fixedExecutorPreparation.Build` and `executorData`: the call of the executor for admitted
-- allocations.
use epeius.Prelude.{ℕ, String, false, Option, none, some, List, [], ◌∷◌, map, str_eq, if◌then◌else◌}
use epeius.Prelude.Int.{ℤ, pos}
use epeius.Prelude.Decimal.{set_string, parse_uint_value}
use epeius.Prelude.Dict.{Dict, lookup, insert}
use epeius.Prelude.Partial.{◌>>=◌}
use epeius.Config
use epeius.Config.{Deployment, Executor}
use epeius.Evm.{Evm, Bytes, Reader}
use epeius.Wire.{
  RouteLeg, QuotedAllocation, PrepareExecutionResponse, UnsignedTransaction, get_fee_pips,
}
use epeius.Store.{ExecutionPlan}
use epeius.Engine.{Admission, admitted, refused}
use epeius.Executor.{executor_venue}
use epeius.Executor.Probes.{executor_checks}
use epeius.Verify.{Getters, verify_executor}

pub record Hop : Type 0 where
  pub token_out : ℕ
  pub fee : ℕ

pub record Allocation : Type 0 where
  pub venue : ℕ
  pub amount_in : Option ℤ
  pub hops : List Hop

-- The packing of the executor's call, and `hexutil.Encode`.
pub record ExecutorCalls : Type 0 where
  pub execute : ℕ → ℕ → Option ℤ → Option ℤ → ℕ → List Allocation → Option Bytes
  pub encode_hex : Bytes → String

abbrev zero_deployment : Deployment
zero_deployment = record {
  kind = "";
  factory = "";
  quoter = "";
  router = "";
  fees = none;
  options = none;
  provider_config = Config.unset;
  configured_fields = [];
}

-- Deployments[id], the zero value where it is missing.
unfoldable pub or_zero : Option Deployment → Deployment
or_zero none = zero_deployment
or_zero (some d) = d

-- The loop that fills `routers`.
unfoldable pub routers_of : Dict Deployment → List QuotedAllocation → Dict String → Dict String
routers_of deployments [] routers = routers
routers_of deployments (a ∷ allocations) routers = routers_of deployments allocations (
    insert a.route.deployment_id (or_zero (lookup a.route.deployment_id deployments)).router
      routers)

-- `configSnapshot`
unfoldable pub config_snapshot : Config.Chain → Executor → Config.Chain
config_snapshot chain e = record {
  chain_id = pos 0;
  rpc_url_env = "";
  execution_enabled = false;
  tokens = [];
  executor = some e;
  deployments =
      insert e.pancake_deployment (or_zero (lookup e.pancake_deployment chain.deployments))
        (insert e.uniswap_deployment (or_zero (lookup e.uniswap_deployment chain.deployments)) []);
}

module _ (c : ExecutorCalls) (evm : Evm) (getters : Getters) (chain_id : String)
    (chain : Config.Chain) where
  abbrev pub hop_of : RouteLeg → Hop
  hop_of leg = record {
    token_out = evm.hex_to_address leg.token_out;
    fee = get_fee_pips leg.selector;
  }

  -- The loop over the allocations.
  unfoldable pub encoded_allocations : List QuotedAllocation → Option (List Allocation)
  encoded_allocations [] = some []
  encoded_allocations (a ∷ allocations) = do
    venue ← executor_venue chain a.route
    rest ← encoded_allocations allocations
    some (
        record {
          venue = venue;
          amount_in = set_string a.amount_in_atomic;
          hops = map hop_of a.route.legs;
        }
        ∷ rest)

  unfoldable pub executor_data : PrepareExecutionResponse → Option Bytes
  executor_data p = do
    allocations ← encoded_allocations p.allocations
    c.execute (evm.hex_to_address p.token_in) (evm.hex_to_address p.token_out)
        (set_string p.amount_in_atomic) (set_string p.amount_out_minimum_atomic)
        (parse_uint_value p.deadline_unix) allocations

  unfoldable pub call_of : PrepareExecutionResponse → Executor → Bytes → UnsignedTransaction
  call_of p e bytes = record {
    chain_id = chain_id;
    to = evm.address_hex (evm.hex_to_address e.address);
    calldata = c.encode_hex bytes;
    value_atomic = "0";
    from = p.recipient;
    gas_limit = "3000000";
  }

  unfoldable pub verifier : Executor → Reader → ℕ → String
  verifier e reader hash =
      if verify_executor evm getters reader hash (config_snapshot chain e)
      then ""
      else "executor verification failed"

  unfoldable pub plan_of :
      PrepareExecutionResponse
      → Executor
      → UnsignedTransaction
      → RouteLeg
      → List RouteLeg
      → ExecutionPlan
  plan_of p e tx leg legs = record {
    transaction = tx;
    spender = tx.to;
    permission = none;
    checks =
        executor_checks tx (routers_of (config_snapshot chain e).deployments p.allocations []) leg
          legs p.allocations;
    verify = some (verifier e);
  }

  unfoldable pub build_legs :
      PrepareExecutionResponse → Bytes → Executor → List RouteLeg → Option (Admission ExecutionPlan)
  build_legs p bytes e [] = none
  build_legs p bytes e (leg ∷ legs) = some (admitted (plan_of p e (call_of p e bytes) leg legs))

  unfoldable pub build_allocations :
      PrepareExecutionResponse
      → Bytes
      → Executor
      → List QuotedAllocation
      → Option (Admission ExecutionPlan)
  build_allocations p bytes e [] = none
  build_allocations p bytes e (a ∷ allocations) = build_legs p bytes e a.route.legs

  unfoldable pub build_executor :
      PrepareExecutionResponse → Bytes → Option Executor → Option (Admission ExecutionPlan)
  build_executor p bytes none = none
  build_executor p bytes (some e) = build_allocations p bytes e p.allocations

  unfoldable pub build_data :
      PrepareExecutionResponse → Option Bytes → Option (Admission ExecutionPlan)
  build_data p none = some (refused "executor plan could not be encoded")
  build_data p (some bytes) = build_executor p bytes chain.executor

  -- fixedExecutorPreparation.Build; `none` is a panic on a nil executor or on a missing first leg.
  unfoldable pub build : PrepareExecutionResponse → Option (Admission ExecutionPlan)
  build p =
      if str_eq p.amount_out_minimum_atomic "0"
      then some (refused "invalid aggregate output")
      else build_data p (executor_data p)
