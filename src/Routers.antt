-- ===== src/Routers.antt =====
-- services/quote-engine/internal/quote/routers.go and calldata.go: the strategy of a direct route, and the
-- calls of the three routers that it may encode.
pub mod Plans
use epeius.Prelude.{
  ℕ, zero, suc, String, Bool, true, false, not, ◌&&◌, ◌||◌, Option, none, some, List, [], ◌∷◌,
  str_eq, if◌then◌else◌,
}
use epeius.Prelude.Int.{ℤ, pos, eq_ℤ}
use epeius.Prelude.Decimal.{set_string, parse_uint_value}
use epeius.Prelude.Partial.{◌>>=◌}
use epeius.Evm.{Evm, Bytes, Reader}
use epeius.Wire.{
  RouteLeg, RouteQuote, PrepareExecutionRequest, PrepareExecutionResponse, UnsignedTransaction,
}
use epeius.Store.{StoredQuote, ExecutionPlan, BalanceProbe, SimulationChecks}
use epeius.Engine.{Admission, admitted, refused, ExecutionSelection, PreparationStrategy}
use epeius.Executor.Probes.{last_token}
use epeius.Path.{v3_path, slipstream_path}

-- The ABI packing of the routers' calls. A number that is nil is `none`.
pub record RouterCalls : Type 0 where
  pub exact_input_02 : Bytes → ℕ → Option ℤ → Option ℤ → Option Bytes
  pub multicall_02 : ℕ → List Bytes → Option Bytes
  pub pancake_exact_input : Bytes → ℕ → ℕ → Option ℤ → Option ℤ → Option Bytes
  pub slipstream_exact_input : Bytes → ℕ → ℕ → Option ℤ → Option ℤ → Option Bytes
  pub encode_hex : Bytes → String

-- The route, the sender, the amount, the minimum and the deadline; nothing where it is an error.
abbrev pub RouterEncoder : Type 0
RouterEncoder = RouteQuote → String → Option ℤ → Option ℤ → ℕ → Option Bytes

module _ (c : RouterCalls) (evm : Evm) where
  unfoldable pub slipstream_router_data : RouterEncoder
  slipstream_router_data route sender amount minimum deadline = do
    path ← slipstream_path evm route.legs
    c.slipstream_exact_input path (evm.hex_to_address sender) deadline amount minimum

  unfoldable pub pancake_v3_router_data : RouterEncoder
  pancake_v3_router_data route sender amount minimum deadline = do
    path ← v3_path evm route.legs
    c.pancake_exact_input path (evm.hex_to_address sender) deadline amount minimum

  unfoldable pub uniswap_router02_data : RouterEncoder
  uniswap_router02_data route sender amount minimum deadline = do
    path ← v3_path evm route.legs
    inner ← c.exact_input_02 path (evm.hex_to_address sender) amount minimum
    c.multicall_02 deadline (inner ∷ [])

-- `verify` answers the empty text where it accepts.
pub record V3RouterPreparation : Type 0 where
  pub id : String
  pub kind : String
  pub target : String
  pub chain_id : String
  pub encode : RouterEncoder
  pub verify : Option (Reader → ℕ → ℕ → String → String)
  pub verification_factory : String

unfoldable pub select : V3RouterPreparation → Option RouteQuote → Admission ExecutionSelection
select s none = refused "unsupported route"
select s (some route) =
    if str_eq route.deployment_id s.id && str_eq route.provider s.kind
    then admitted (record {
      route = some route;
      allocations = [];
      output = set_string route.amount_out_atomic;
    })
    else refused "unsupported route"

unfoldable pub first_output : RouteLeg → List RouteLeg → String → List BalanceProbe
first_output leg [] router = []
first_output leg (last ∷ []) router = record { token = leg.token_out; owner = router } ∷ []
first_output leg (next ∷ (other ∷ legs)) router = []

-- directChecks; a route without a leg is an index out of range.
unfoldable pub direct_checks : List RouteLeg → UnsignedTransaction → Option SimulationChecks
direct_checks [] tx = none
direct_checks (leg ∷ legs) tx = some (record {
  input = record { token = leg.token_in; owner = tx.from };
  output = record { token = last_token leg legs; owner = tx.from };
  preserve = first_output leg legs tx.to;
  clear_allowances = [];
})

module _ (c : RouterCalls) (evm : Evm) (s : V3RouterPreparation) where
  unfoldable pub call_of : PrepareExecutionResponse → Bytes → UnsignedTransaction
  call_of p bytes = record {
    chain_id = s.chain_id;
    to = evm.address_hex (evm.hex_to_address s.target);
    calldata = c.encode_hex bytes;
    value_atomic = "0";
    from = p.recipient;
    gas_limit = "1500000";
  }

  unfoldable pub verifier :
      PrepareExecutionResponse
      → Option (Reader → ℕ → ℕ → String → String)
      → Option (Reader → ℕ → String)
  verifier p none = none
  verifier p (some verify) =
      some
        (λ reader hash. verify reader hash (evm.hex_to_address s.verification_factory) p.recipient)

  unfoldable pub plan_of :
      PrepareExecutionResponse → UnsignedTransaction → SimulationChecks → ExecutionPlan
  plan_of p tx checks = record {
    transaction = tx;
    spender = tx.to;
    permission = none;
    checks = checks;
    verify = verifier p s.verify;
  }

  unfoldable pub build_encoded :
      PrepareExecutionResponse → RouteQuote → Option Bytes → Option (Admission ExecutionPlan)
  build_encoded p route none = some (refused "unsupported route")
  build_encoded p route (some bytes) = do
    checks ← direct_checks route.legs (call_of p bytes)
    some (admitted (plan_of p (call_of p bytes) checks))

  unfoldable pub build_route :
      PrepareExecutionResponse → ℤ → Option RouteQuote → Option (Admission ExecutionPlan)
  build_route p minimum none = none
  build_route p minimum (some route) = build_encoded p route (
      s.encode route p.recipient (set_string p.amount_in_atomic) (some minimum)
        (parse_uint_value p.deadline_unix))

  unfoldable pub build_minimum :
      PrepareExecutionResponse → Option ℤ → Option (Admission ExecutionPlan)
  build_minimum p none = none
  build_minimum p (some minimum) =
      if eq_ℤ minimum (pos 0)
      then some (refused "minimum output must be positive")
      else build_route p minimum p.route

  -- v3RouterPreparation.Build; `none` is a panic, on a nil minimum, a nil route or no leg.
  unfoldable pub build : PrepareExecutionResponse → Option (Admission ExecutionPlan)
  build p = build_minimum p (set_string p.amount_out_minimum_atomic)

-- What a handler gets of a call that does not panic.
abbrev pub of_build : Option (Admission ExecutionPlan) → Admission ExecutionPlan
of_build none = refused ""
of_build (some plan) = plan

abbrev pub strategy_of : RouterCalls → Evm → V3RouterPreparation → PreparationStrategy
strategy_of c evm s = record {
  select = λ saved r route. select s route;
  build = λ p. of_build (build c evm s p);
}
