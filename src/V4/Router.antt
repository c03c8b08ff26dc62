-- ===== src/V4/Router.antt =====
-- services/quote-engine/internal/quote/v4_router.go: the strategy that prepares a Uniswap V4 route, with a
-- permission of Permit2.
use epeius.Prelude.{
  ℕ, ◌+◌, ◌*◌, ◌^◌, String, Bool, true, false, ◌&&◌, Option, none, some, List, [], ◌∷◌, ◌++◌, ltb,
  ◌==◌, if◌then◌else◌, ◌%◌,
}
use epeius.Prelude.Int.{ℤ, pos, ltb_ℤ, pos_part, neg_part}
use epeius.Prelude.Decimal.{set_string, parse_uint_value}
use epeius.Prelude.Partial.{◌>>=◌}
use epeius.Config.{Pool}
use epeius.Evm.{Evm, Bytes}
use epeius.Engine.{Admission, admitted, refused, ExecutionSelection}
use epeius.Wire.{RouteLeg, RouteQuote, PrepareExecutionResponse, UnsignedTransaction}
use epeius.Store.{ExecutionPlan, PermissionPlan, SimulationChecks}
use epeius.Routers.{direct_checks}
use epeius.V4.{PoolKey, key_of}

-- The packing of the router's actions and of its call. The three actions are a swap with an exact
-- input in one pool, the settlement of the input and the taking of the output.
pub record V4RouterCalls : Type 0 where
  pub exact_input_single : PoolKey → Bool → ℤ → ℤ → Option Bytes
  pub settle : ℕ → ℤ → Option Bytes
  pub take_all : ℕ → ℤ → Option Bytes
  pub v4_swap : List Bytes → Option Bytes
  pub execute : Bytes → ℕ → Option Bytes
  pub encode_hex : Bytes → String

-- `admit` is the quoter's.
pub record V4RouterPreparation : Type 0 where
  pub id : String
  pub chain_id : String
  pub router : String
  pub permit2 : String
  pub admit : Option RouteQuote → Option Pool

abbrev pub permit2_permission_lifetime : ℕ
permit2_permission_lifetime = 30 * 60

unfoldable pub select_pool : Option RouteQuote → Option Pool → Admission ExecutionSelection
select_pool route none = refused "unsupported Uniswap V4 route"
select_pool none (some pool) = refused "unsupported Uniswap V4 route"
select_pool (some route) (some pool) =
    admitted
      (record { route = some route; allocations = []; output = set_string route.amount_out_atomic })

unfoldable pub select : V4RouterPreparation → Option RouteQuote → Admission ExecutionSelection
select s route = select_pool route (s.admit route)

-- `BitLen() > 128` is false: on the absolute value.
unfoldable pub fits_128 : ℤ → Bool
fits_128 z = ltb (pos_part z) (2 ^ 128) && ltb (neg_part z) (2 ^ 128)

unfoldable pub output_currency : Bool → PoolKey → ℕ
output_currency true key = key.currency1
output_currency false key = key.currency0

-- uniswapV4RouterData, where the error is only tested.
unfoldable pub uniswap_v4_router_data :
    V4RouterCalls → Evm → Pool → String → ℤ → ℤ → ℕ → Option Bytes
uniswap_v4_router_data c evm pool token_in amount minimum deadline = do
  let key = key_of evm pool
  let token = evm.hex_to_address token_in
  swap ← c.exact_input_single key (token == key.currency0) amount minimum
  settled ← c.settle token amount
  taken ← c.take_all (output_currency (token == key.currency0) key) minimum
  input ← c.v4_swap (swap ∷ (settled ∷ (taken ∷ [])))
  c.execute input deadline

module _ (c : V4RouterCalls) (evm : Evm) (s : V4RouterPreparation) where
  unfoldable pub call_of : PrepareExecutionResponse → Bytes → UnsignedTransaction
  call_of p bytes = record {
    chain_id = s.chain_id;
    to = evm.address_hex (evm.hex_to_address s.router);
    calldata = c.encode_hex bytes;
    value_atomic = "0";
    from = p.recipient;
    gas_limit = "1500000";
  }

  -- The deadline and the lifetime are added as uint64.
  unfoldable pub permission_of : PrepareExecutionResponse → ℤ → String → PermissionPlan
  permission_of p amount router = record {
    target = evm.address_hex (evm.hex_to_address s.permit2);
    token = p.token_in;
    spender = router;
    amount = amount;
    expiration = (parse_uint_value p.deadline_unix + permit2_permission_lifetime) % 2 ^ 64;
  }

  unfoldable pub plan_of :
      PrepareExecutionResponse → ℤ → UnsignedTransaction → SimulationChecks → ExecutionPlan
  plan_of p amount tx checks = record {
    transaction = tx;
    spender = evm.address_hex (evm.hex_to_address s.permit2);
    permission = some (permission_of p amount tx.to);
    checks = record checks {
      preserve =
          checks.preserve
          ++ (record { token = p.token_in; owner = tx.to }
              ∷ (record { token = p.token_out; owner = tx.to } ∷ []));
    };
    verify = none;
  }

  unfoldable pub build_encoded :
      PrepareExecutionResponse → RouteQuote → ℤ → Option Bytes → Option (Admission ExecutionPlan)
  build_encoded p route amount none = some (refused "unsupported Uniswap V4 route")
  build_encoded p route amount (some bytes) = do
    checks ← direct_checks route.legs (call_of p bytes)
    some (admitted (plan_of p amount (call_of p bytes) checks))

  unfoldable pub build_legs :
      PrepareExecutionResponse
      → RouteQuote
      → List RouteLeg
      → Pool
      → ℤ
      → ℤ
      → Option (Admission ExecutionPlan)
  build_legs p route [] pool amount minimum = none
  build_legs p route (leg ∷ legs) pool amount minimum = build_encoded p route amount (
      uniswap_v4_router_data c evm pool leg.token_in amount minimum
        (parse_uint_value p.deadline_unix))

  unfoldable pub build_amounts :
      PrepareExecutionResponse
      → RouteQuote
      → Pool
      → Option ℤ
      → Option ℤ
      → Option (Admission ExecutionPlan)
  build_amounts p route pool none minimum = none
  build_amounts p route pool (some amount) none =
      if fits_128 amount then none else some (refused "Uniswap V4 amounts must fit uint128")
  build_amounts p route pool (some amount) (some minimum) =
      if fits_128 amount && ltb_ℤ (pos 0) minimum && fits_128 minimum
      then build_legs p route route.legs pool amount minimum
      else some (refused "Uniswap V4 amounts must fit uint128")

  unfoldable pub build_admitted :
      PrepareExecutionResponse → Option RouteQuote → Option Pool → Option (Admission ExecutionPlan)
  build_admitted p route none = some (refused "unsupported Uniswap V4 route")
  build_admitted p none (some pool) = none
  build_admitted p (some route) (some pool) =
      build_amounts p route pool (set_string p.amount_in_atomic)
        (set_string p.amount_out_minimum_atomic)

  -- v4RouterPreparation.Build; `none` is a panic, on a nil number, a nil route or no leg.
  unfoldable pub build : PrepareExecutionResponse → Option (Admission ExecutionPlan)
  build p = build_admitted p p.route (s.admit p.route)
