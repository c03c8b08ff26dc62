-- ===== src/V4.antt =====
-- services/quote-engine/internal/quote/v4.go and internal/providers/uniswapv4/provider.go: the candidates, the
-- quotes and the verification of a Uniswap V4 deployment with its configured pools.
pub mod Router
pub mod Admitted
pub mod Permitted
use epeius.Prelude.{
  ℕ, ◌^◌, String, Bool, true, false, not, ◌&&◌, ◌||◌, Option, none, some, List, [], ◌∷◌, map, ltb,
  ◌==◌, str_eq, append, if◌then◌else◌,
}
use epeius.Prelude.Int.{ℤ, pos, ltb_ℤ, pos_part, eq_ℤ}
use epeius.Prelude.Decimal.{set_string, int_text, nat_text}
use epeius.Prelude.Sort.{sort_by, text_less}
use epeius.Config.{Pool, Deployment}
use epeius.Evm.{Evm, Bytes, Method, Read, got, failed, Reader, unpack}
use epeius.Engine.{
  Admission, admitted, refused, QuoteCandidate, Quoted, quoted, missing, quote_error,
}
use epeius.Executor.{equal_fold}
use epeius.Verify.{Getter, is_code, address_in, is_address}
use epeius.Wire.{QuoteRequest, BlockContext, Selector, RouteLeg, RouteQuote, UniswapV4PoolKey}
use epeius.V3Quoter.{Answered, answers, absent, fails, out_of_range, given, readable, ◌>>=◌}

pub record PoolKey : Type 0 where
  pub currency0 : ℕ
  pub currency1 : ℕ
  pub fee : ℕ
  pub tick_spacing : ℤ
  pub hooks : ℕ

-- `PoolID`, the calls of the state view and of the quoter with the first value of their results, the
-- getters of the pool manager, `Hash.Hex` and the hash of a code.
pub record V4Calls : Type 0 where
  pub pool_id : PoolKey → Option ℕ
  pub get_slot0_call : ℕ → Option Bytes
  pub slot0 : Method ℕ
  pub quote_call : PoolKey → Bool → ℤ → Option Bytes
  pub quote_result : Method ℕ
  pub quoter_manager : Getter
  pub state_view_manager : Getter
  pub router_manager : Getter
  pub hash_hex : ℕ → String
  pub keccak : Bytes → ℕ
  pub packing_error : String

pub record V4Options : Type 0 where
  pub pool_manager : String
  pub state_view : String
  pub permit2 : String
  pub permit2_code_hash : String
  pub router_code_hash : String
  pub pools : List Pool

pub record V4Quoter : Type 0 where
  pub reader : Reader
  pub id : String
  pub deployment : Deployment
  pub options : V4Options

-- v4PoolKey, with NewPoolKey.
unfoldable pub key_of : Evm → Pool → PoolKey
key_of evm pool = record {
  currency0 = evm.hex_to_address pool.currency0;
  currency1 = evm.hex_to_address pool.currency1;
  fee = pool.fee_pips;
  tick_spacing = pool.tick_spacing;
  hooks = evm.hex_to_address pool.hooks;
}

-- The ID with the error dropped.
unfoldable pub id_or_zero : Option ℕ → ℕ
id_or_zero none = 0
id_or_zero (some id) = id

unfoldable pub pool_hex : V4Calls → Evm → Pool → String
pool_hex c evm pool = c.hash_hex (id_or_zero (c.pool_id (key_of evm pool)))

unfoldable pub uint128 : Option ℤ → Option ℤ
uint128 none = none
uint128 (some amount) =
    if ltb_ℤ (pos 0) amount && ltb (pos_part amount) (2 ^ 128) then some amount else none

-- The key of the pool as a route's leg gives it.
unfoldable pub leg_key : Pool → UniswapV4PoolKey
leg_key pool = record {
  currency0 = pool.currency0;
  currency1 = pool.currency1;
  fee_pips = pool.fee_pips;
  tick_spacing = pool.tick_spacing;
  hooks = pool.hooks;
}

module _ (c : V4Calls) (evm : Evm) (q : V4Quoter) where
  -- Provider.PoolInitialized; a pool that is not initialised is absent.
  unfoldable pub pool_initialized : PoolKey → ℕ → Answered (Unit {0})
  pool_initialized key hash = do
    id ← given c.packing_error (c.pool_id key)
    call ← given c.packing_error (c.get_slot0_call id)
    raw ←
        readable "Uniswap V4 pool state unavailable"
          (q.reader.call (evm.hex_to_address q.options.state_view) call hash)
    price ← given "invalid Uniswap V4 pool state response" (unpack c.slot0 raw)
    if price == 0 then absent else answers tt

  -- Provider.Quote, where the amount may be nil.
  unfoldable pub provider_quote : PoolKey → Bool → Option ℤ → ℕ → Answered ℕ
  provider_quote key zero_for_one amount hash = do
    bounded ← given "Uniswap V4 input must fit uint128" (uint128 amount)
    call ← given c.packing_error (c.quote_call key zero_for_one bounded)
    raw ←
        readable "Uniswap V4 quote failed at the pinned block"
          (q.reader.call (evm.hex_to_address q.deployment.quoter) call hash)
    output ← given "invalid Uniswap V4 quoter response" (unpack c.quote_result raw)
    if output == 0 then fails "Uniswap V4 quote returned zero output" else answers output

  unfoldable pub leg_of : Pool → ℕ → ℕ → ℕ → RouteLeg
  leg_of pool id a b = record {
    pool = c.hash_hex id;
    token_in = evm.address_hex a;
    token_out = evm.address_hex b;
    selector = none;
    uniswap_v4_pool_key = some (leg_key pool);
  }

  unfoldable pub route_of : String → Pool → ℕ → ℕ → ℕ → ℕ → BlockContext → ℕ → RouteQuote
  route_of route_id pool id a b output block latency = record {
    route_id = route_id;
    provider = q.deployment.kind;
    legs = leg_of pool id a b ∷ [];
    amount_out_atomic = nat_text output;
    network_cost_out_atomic = none;
    effective_out_atomic = none;
    block = block;
    latency_ms = latency;
    deployment_id = q.id;
  }

  -- v4Quoter.quote, with the milliseconds that it took.
  unfoldable pub quote : String → Pool → ℕ → ℕ → Option ℤ → BlockContext → ℕ → Answered RouteQuote
  quote route_id pool a b amount block latency = do
    id ← given c.packing_error (c.pool_id (key_of evm pool))
    initialized ← pool_initialized (key_of evm pool) (evm.hex_to_hash block.hash)
    output ←
        provider_quote (key_of evm pool) (a == evm.hex_to_address pool.currency0) amount
          (evm.hex_to_hash block.hash)
    answers (route_of route_id pool id a b output block latency)

  unfoldable pub quoted_as : Answered RouteQuote → Quoted
  quoted_as (answers route) = quoted route
  quoted_as absent = missing
  quoted_as (fails message) = quote_error message
  quoted_as out_of_range = missing

  unfoldable pub trades : ℕ → ℕ → Pool → Bool
  trades a b pool =
      (a == evm.hex_to_address pool.currency0 || a == evm.hex_to_address pool.currency1)
      && (b == evm.hex_to_address pool.currency0 || b == evm.hex_to_address pool.currency1)

  -- The pools of the pair, with their IDs as text.
  unfoldable pub trading_pools : ℕ → ℕ → List Pool → List (String × Pool)
  trading_pools a b [] = []
  trading_pools a b (pool ∷ pools) =
      let rest = trading_pools a b pools in
      if trades a b pool
      then (append q.id (append ":" (pool_hex c evm pool)), pool) ∷ rest
      else rest

  abbrev id_less : String × Pool → String × Pool → Bool
  id_less a b = text_less a.0 b.0

  unfoldable pub candidate_of :
      QuoteRequest → BlockContext → (String → ℕ) → String × Pool → QuoteCandidate
  candidate_of r block latency entry = record {
    id = entry.0;
    quote = quoted_as (
        quote entry.0 entry.1 (evm.hex_to_address r.token_in) (evm.hex_to_address r.token_out)
          (set_string r.amount_in_atomic) block (latency entry.0));
  }

  -- Candidates, with the milliseconds that each quote takes.
  unfoldable pub candidates : QuoteRequest → BlockContext → (String → ℕ) → List QuoteCandidate
  candidates r block latency = map (candidate_of r block latency) (
      sort_by id_less (
        trading_pools (evm.hex_to_address r.token_in) (evm.hex_to_address r.token_out)
          q.options.pools))

  unfoldable pub same_key : UniswapV4PoolKey → Pool → Bool
  same_key key pool =
      equal_fold key.currency0 pool.currency0
      && equal_fold key.currency1 pool.currency1
      && key.fee_pips == pool.fee_pips
      && eq_ℤ key.tick_spacing pool.tick_spacing
      && equal_fold key.hooks pool.hooks

  unfoldable pub is_of_pool : RouteLeg → UniswapV4PoolKey → Pool → Bool
  is_of_pool leg key pool =
      equal_fold leg.pool (pool_hex c evm pool)
      && same_key key pool
      && ((equal_fold leg.token_in pool.currency0 && equal_fold leg.token_out pool.currency1)
          || (equal_fold leg.token_in pool.currency1 && equal_fold leg.token_out pool.currency0))

  -- The loop over the pools.
  unfoldable pub find_pool : RouteLeg → UniswapV4PoolKey → List Pool → Option Pool
  find_pool leg key [] = none
  find_pool leg key (pool ∷ pools) =
      let rest = find_pool leg key pools in if is_of_pool leg key pool then some pool else rest

  unfoldable pub admit_leg : RouteLeg → Option Selector → Option UniswapV4PoolKey → Option Pool
  admit_leg leg selector none = none
  admit_leg leg none (some key) = find_pool leg key q.options.pools
  admit_leg leg (some selector) (some key) = none

  unfoldable pub admit_legs : List RouteLeg → Option Pool
  admit_legs [] = none
  admit_legs (leg ∷ []) = admit_leg leg leg.selector leg.uniswap_v4_pool_key
  admit_legs (leg ∷ (next ∷ legs)) = none

  -- v4Quoter.admit
  unfoldable pub admit : Option RouteQuote → Option Pool
  admit none = none
  admit (some route) =
      if str_eq route.provider "uniswap-v4" && str_eq route.deployment_id q.id
      then admit_legs route.legs
      else none

  unfoldable pub requoted : Answered RouteQuote → Answered RouteQuote
  requoted (answers route) = answers route
  requoted absent = fails "Uniswap V4 pool is unavailable"
  requoted (fails message) = fails message
  requoted out_of_range = out_of_range

  unfoldable pub requote_legs :
      RouteQuote → List RouteLeg → Pool → Option ℤ → BlockContext → ℕ → Answered RouteQuote
  requote_legs route [] pool amount block latency = out_of_range
  requote_legs route (leg ∷ legs) pool amount block latency = requoted (
      quote route.route_id pool (evm.hex_to_address leg.token_in) (evm.hex_to_address leg.token_out)
        amount block latency)

  unfoldable pub requote_pool :
      RouteQuote → Option Pool → Option ℤ → BlockContext → ℕ → Answered RouteQuote
  requote_pool route none amount block latency = fails "Uniswap V4 route is not configured"
  requote_pool route (some pool) amount block latency =
      requote_legs route route.legs pool amount block latency

  -- v4Quoter.Requote
  unfoldable pub requote : RouteQuote → Option ℤ → BlockContext → ℕ → Answered RouteQuote
  requote route amount block latency = requote_pool route (admit (some route)) amount block latency

  unfoldable pub code_bytes : Read Bytes → Bytes
  code_bytes (got bytes) = bytes
  code_bytes (failed error) = []

  -- The getter for a target, by its text.
  unfoldable pub manager_getter : String → Getter
  manager_getter target =
      if str_eq target q.options.state_view
      then c.state_view_manager
      else if str_eq target q.deployment.router
      then c.router_manager
      else c.quoter_manager

  unfoldable pub names_manager : String → ℕ → Bool
  names_manager target hash =
      is_address
        (address_in (manager_getter target)
          (q.reader.call (evm.hex_to_address target) (manager_getter target).id hash))
        (evm.hex_to_address q.options.pool_manager)

  -- The hashes of the codes of the router and of Permit2, if the two are not one text.
  unfoldable pub is_reviewed : (ℕ → ℕ → Read Bytes) → ℕ → Bool
  is_reviewed code hash =
      c.keccak (code_bytes (code (evm.hex_to_address q.deployment.router) hash))
        == evm.hex_to_hash q.options.router_code_hash
      && c.keccak (
          if str_eq q.options.permit2 q.deployment.router
          then []
          else code_bytes (code (evm.hex_to_address q.options.permit2) hash))
        == evm.hex_to_hash q.options.permit2_code_hash

  unfoldable pub verify_deployment : (ℕ → ℕ → Read Bytes) → ℕ → Bool
  verify_deployment code hash =
      is_code (code (evm.hex_to_address q.options.pool_manager) hash)
      && is_code (code (evm.hex_to_address q.deployment.quoter) hash)
      && is_code (code (evm.hex_to_address q.options.state_view) hash)
      && is_code (code (evm.hex_to_address q.options.permit2) hash)
      && is_code (code (evm.hex_to_address q.deployment.router) hash)
      && names_manager q.deployment.quoter hash
      && names_manager q.options.state_view hash
      && names_manager q.deployment.router hash
      && is_reviewed code hash

  unfoldable pub verify_with : Option (ℕ → ℕ → Read Bytes) → ℕ → Admission (Unit {0})
  verify_with none hash = refused "deployment code unavailable"
  verify_with (some code) hash =
      if verify_deployment code hash
      then admitted tt
      else refused "Uniswap V4 deployment verification failed"

  -- v4Quoter.Verify
  unfoldable pub verify : ℕ → Admission (Unit {0})
  verify hash = verify_with q.reader.code hash
