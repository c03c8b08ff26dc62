-- ===== src/Balancer/Preparation.antt =====
-- balancer_v2.go: the strategy that prepares a route through a pool of the Vault.
use epeius.Prelude.{
  ℕ, String, Bool, true, false, not, ◌&&◌, Option, none, some, List, [], ◌∷◌, ◌==◌, str_eq,
  if◌then◌else◌,
}
use epeius.Prelude.Int.{ℤ, pos, eq_ℤ}
use epeius.Prelude.Decimal.{set_string, parse_uint_value}
use epeius.Evm.{Evm, Bytes, Read, Reader, valid_address}
use epeius.Wire.{Selector, RouteLeg, RouteQuote, PrepareExecutionResponse}
use epeius.Store.{ExecutionPlan}
use epeius.Engine.{Admission, admitted, refused, ExecutionSelection}
use epeius.Executor.{equal_fold}
use epeius.V3Quoter.{is_output}
use epeius.Balancer.{BalancerCalls, pool_address, is_listed, pool_tokens, verify_pool}

pub record BalancerPreparation : Type 0 where
  pub id : String
  pub chain_id : String
  pub vault : String
  pub pools : List String

unfoldable pub has_selector : Option Selector → Bool
has_selector none = false
has_selector (some selector) = true

module _ (evm : Evm) (s : BalancerPreparation) where
  -- The loop over the pools: the first with the leg's ID decides.
  unfoldable pub in_pools : RouteLeg → List String → Bool
  in_pools leg [] = false
  in_pools leg (pool ∷ pools) =
      let rest = in_pools leg pools in
      if str_eq leg.pool pool
      then not (evm.hex_to_address leg.token_in == pool_address (evm.hex_to_hash pool))
        && not (evm.hex_to_address leg.token_out == pool_address (evm.hex_to_hash pool))
      else rest

  unfoldable pub valid_leg : RouteLeg → Bool
  valid_leg leg =
      not (has_selector leg.selector)
      && valid_address evm leg.token_in
      && valid_address evm leg.token_out
      && not (equal_fold leg.token_in leg.token_out)
      && in_pools leg s.pools

  unfoldable pub only_leg : List RouteLeg → Option RouteLeg
  only_leg [] = none
  only_leg (leg ∷ []) = if valid_leg leg then some leg else none
  only_leg (leg ∷ (next ∷ legs)) = none

  -- validBalancerRoute: the leg of a route that is valid.
  unfoldable pub valid_route : Option RouteQuote → Option RouteLeg
  valid_route none = none
  valid_route (some route) =
      if str_eq route.provider "balancer-v2" && str_eq route.deployment_id s.id
      then only_leg route.legs
      else none

  unfoldable pub with_output : Option RouteQuote → Option ℤ → Admission ExecutionSelection
  with_output route none = refused "unsupported route"
  with_output route (some output) =
      if is_output output
      then admitted (record { route = route; allocations = []; output = some output })
      else refused "unsupported route"

  unfoldable pub output_text : Option RouteQuote → Option ℤ
  output_text none = none
  output_text (some route) = set_string route.amount_out_atomic

  unfoldable pub select_leg : Option RouteQuote → Option RouteLeg → Admission ExecutionSelection
  select_leg route none = refused "unsupported route"
  select_leg route (some leg) = with_output route (output_text route)

  unfoldable pub select : Option RouteQuote → Admission ExecutionSelection
  select route = select_leg route (valid_route route)

module _ (c : BalancerCalls) (evm : Evm) (s : BalancerPreparation) where
  unfoldable pub are_listed : RouteLeg → Option (List ℕ) → Bool
  are_listed leg none = false
  are_listed leg (some tokens) =
      is_listed (evm.hex_to_address leg.token_in) tokens
      && is_listed (evm.hex_to_address leg.token_out) tokens

  unfoldable pub accepts : RouteLeg → Reader → ℕ → Option (ℕ → ℕ → Read Bytes) → Bool
  accepts leg reader hash none = false
  accepts leg reader hash (some code) =
      verify_pool c reader code (evm.hex_to_address s.vault) (evm.hex_to_hash leg.pool) hash
      && are_listed leg
          (pool_tokens c reader (evm.hex_to_address s.vault) (evm.hex_to_hash leg.pool) hash)

  -- The plan's `verify`.
  unfoldable pub verify_leg : RouteLeg → Reader → ℕ → String
  verify_leg leg reader hash =
      if accepts leg reader hash reader.code then "" else "Balancer V2 pool verification failed"

  unfoldable pub plan_of : PrepareExecutionResponse → RouteLeg → Bytes → ExecutionPlan
  plan_of p leg bytes =
      let vault = evm.address_hex (evm.hex_to_address s.vault) in
      record {
        transaction = record {
          chain_id = s.chain_id;
          to = vault;
          calldata = c.encode_hex bytes;
          value_atomic = "0";
          from = p.recipient;
          gas_limit = "250000";
        };
        spender = vault;
        permission = none;
        checks = record {
          input = record { token = leg.token_in; owner = p.recipient };
          output = record { token = leg.token_out; owner = p.recipient };
          preserve = [];
          clear_allowances = [];
        };
        verify = some (verify_leg leg);
      }

  unfoldable pub encoded :
      PrepareExecutionResponse → RouteLeg → Option Bytes → Admission ExecutionPlan
  encoded p leg none = refused "unsupported route"
  encoded p leg (some bytes) = admitted (plan_of p leg bytes)

  unfoldable pub build_leg :
      PrepareExecutionResponse → ℤ → Option RouteLeg → Admission ExecutionPlan
  build_leg p minimum none = refused "unsupported route"
  build_leg p minimum (some leg) = encoded p leg (
      c.swap_call (evm.hex_to_hash leg.pool) (evm.hex_to_address leg.token_in)
        (evm.hex_to_address leg.token_out) (set_string p.amount_in_atomic)
        (evm.hex_to_address p.recipient) minimum (parse_uint_value p.deadline_unix))

  unfoldable pub build_minimum :
      PrepareExecutionResponse → Option ℤ → Option (Admission ExecutionPlan)
  build_minimum p none = none
  build_minimum p (some minimum) = some (
      if eq_ℤ minimum (pos 0)
      then refused "unsupported route"
      else build_leg p minimum (valid_route evm s p.route))

  -- balancerV2Preparation.Build; `none` is a panic on a nil minimum.
  unfoldable pub build : PrepareExecutionResponse → Option (Admission ExecutionPlan)
  build p = build_minimum p (set_string p.amount_out_minimum_atomic)
