-- ===== src/V3Quoter.antt =====
-- services/quote-engine/internal/providers/uniswapv3/provider.go and internal/quote/v3.go: a quote of one
-- pool, of a path of pools, and of a stored route with another input.
pub mod Requoted
pub mod Inversion
pub mod Offered
use epeius.Prelude.{
  ℕ, ◌^◌, String, Bool, true, false, not, ◌&&◌, ◌||◌, Option, none, some, List, [], ◌∷◌, map, ltb,
  ◌==◌, str_eq, if◌then◌else◌,
}
use epeius.Prelude.Int.{ℤ, pos, ltb_ℤ, pos_part}
use epeius.Prelude.Decimal.{int_text}
use epeius.Config.{Deployment}
use epeius.Evm.{Evm, Bytes, Method, Read, got, failed, ReadError, Reader, unpack}
use epeius.Wire.{RouteLeg, RouteQuote, BlockContext, fee_pips, get_fee_pips}

-- The calls of the factory and of the quoter, of Uniswap or (`true`) of Pancake.
pub record V3Contracts : Type 0 where
  pub get_pool_call : Bool → ℕ → ℕ → ℕ → Option Bytes
  pub get_pool : Bool → Method ℕ
  pub single_call : Bool → ℕ → ℕ → ℤ → ℕ → Option Bytes
  pub single : Bool → Method (ℕ × ℕ)
  pub packing_error : String

pub record Provider : Type 0 where
  pub client : Reader
  pub factory_address : ℕ
  pub quoter_address : ℕ
  pub pancake : Bool

-- A value, a pool that is missing, an error, or an index that is out of range.
pub data Answered (A : Type 0) : Type 0 where
  answers : A → Answered A
  absent : Answered A
  fails : String → Answered A
  out_of_range : Answered A

infixl 5 ◌>>=◌
unfoldable pub ◌>>=◌ : {A B : Type 0} → Answered A → (A → Answered B) → Answered B
◌>>=◌ (answers a) f = f a
◌>>=◌ absent f = absent
◌>>=◌ (fails message) f = fails message
◌>>=◌ out_of_range f = out_of_range

unfoldable pub given : {A : Type 0} → String → Option A → Answered A
given message none = fails message
given message (some a) = answers a

unfoldable pub readable : String → Read Bytes → Answered Bytes
readable message (got bytes) = answers bytes
readable message (failed error) = fails message

unfoldable pub present_pool : ℕ → Answered ℕ
present_pool pool = if pool == 0 then absent else answers pool

-- The limit that the quoter puts for a zero limit.
abbrev pub price_limit : ℕ → ℕ → ℕ
price_limit a b = if ltb a b then 4295128740 else 1461446703485210103287273052203988822378723970341

unfoldable pub usable_output : ℕ → ℕ → ℕ × ℕ → Answered ℕ
usable_output a b (output, price) =
    if not (ltb price (2 ^ 160))
    then fails "invalid quoter response"
    else if output == 0
    then fails "quote returned zero output"
    else if price == price_limit a b
    then fails "quote reached the price limit; full input consumption is not guaranteed"
    else answers output

module _ (c : V3Contracts) (p : Provider) (hash : ℕ) where
  unfoldable pub find_pool : ℕ → ℕ → ℕ → Answered ℕ
  find_pool a b fee = do
    call ← given c.packing_error (c.get_pool_call p.pancake a b fee)
    result ←
        readable "pool discovery failed at the pinned block"
          (p.client.call p.factory_address call hash)
    pool ← given "invalid factory response" (unpack (c.get_pool p.pancake) result)
    present_pool pool

  unfoldable pub quote_pool : ℕ → ℕ → ℤ → ℕ → Answered ℕ
  quote_pool a b amount fee = do
    call ← given c.packing_error (c.single_call p.pancake a b amount fee)
    result ← readable "quote failed at the pinned block" (p.client.call p.quoter_address call hash)
    values ← given "invalid quoter response" (unpack (c.single p.pancake) result)
    usable_output a b values

  -- Provider.Quote: the pool and the output.
  unfoldable pub quote : ℕ → ℕ → ℤ → ℕ → Answered (ℕ × ℕ)
  quote a b amount fee = do
    pool ← find_pool a b fee
    output ← quote_pool a b amount fee
    answers (pool, output)

  -- quotePath, from the token `a`.
  unfoldable pub quote_path : Evm → ℕ → List ℕ → List ℕ → ℤ → Answered (List RouteLeg × ℤ)
  quote_path evm a tokens [] amount = answers ([], amount)
  quote_path evm a [] (fee ∷ fees) amount = out_of_range
  quote_path evm a (b ∷ tokens) (fee ∷ fees) amount = do
    hop ← quote a b amount fee
    rest ← quote_path evm b tokens fees (pos hop.1)
    let leg : RouteLeg = record {
      pool = evm.address_hex hop.0;
      token_in = evm.address_hex a;
      token_out = evm.address_hex b;
      selector = some (fee_pips fee);
      uniswap_v4_pool_key = none;
    }
    answers (leg ∷ rest.0, rest.1)

-- `output.Sign() <= 0 || output.BitLen() > 256`
unfoldable pub is_output : ℤ → Bool
is_output output = ltb_ℤ (pos 0) output && ltb (pos_part output) (2 ^ 256)

-- The comparison of the pools, one by one.
unfoldable pub same_pools : Evm → List RouteLeg → List RouteLeg → Answered (Unit {0})
same_pools evm [] old = answers tt
same_pools evm (leg ∷ legs) [] = out_of_range
same_pools evm (leg ∷ legs) (before ∷ old) =
    let rest = same_pools evm legs old in
    if evm.hex_to_address leg.pool == evm.hex_to_address before.pool
    then rest
    else fails "executor path pool changed"

abbrev pub provider_of : Evm → Reader → Deployment → Provider
provider_of evm reader d = record {
  client = reader;
  factory_address = evm.hex_to_address d.factory;
  quoter_address = evm.hex_to_address d.quoter;
  pancake = str_eq d.kind "pancake-v3";
}

unfoldable pub quoted_again : Answered (List RouteLeg × ℤ) → Answered (List RouteLeg × ℤ)
quoted_again (answers result) =
    if is_output result.1 then answers result else fails "executor path could not be quoted"
quoted_again absent = fails "executor path could not be quoted"
quoted_again (fails message) = fails "executor path could not be quoted"
quoted_again out_of_range = out_of_range

module _ (c : V3Contracts) (evm : Evm) (reader : Reader) (d : Deployment) where
  unfoldable pub requote_legs : RouteQuote → RouteLeg → ℤ → BlockContext → ℕ → Answered RouteQuote
  requote_legs route first amount block latency = do
    result ← quoted_again (
        quote_path c (provider_of evm reader d) (evm.hex_to_hash block.hash) evm
          (evm.hex_to_address first.token_in)
          (map (λ (leg : RouteLeg). evm.hex_to_address leg.token_out) route.legs)
          (map (λ (leg : RouteLeg). get_fee_pips leg.selector) route.legs) amount)
    checked ← same_pools evm result.0 route.legs
    answers (record route {
      legs = result.0;
      amount_out_atomic = int_text result.1;
      block = block;
      latency_ms = latency;
      network_cost_out_atomic = none;
      effective_out_atomic = none;
    })

  unfoldable pub requote_from :
      RouteQuote → List RouteLeg → ℤ → BlockContext → ℕ → Answered RouteQuote
  requote_from route [] amount block latency = out_of_range
  requote_from route (first ∷ legs) amount block latency =
      requote_legs route first amount block latency

  -- v3Quoter.Requote, with the milliseconds that it took.
  unfoldable pub requote : RouteQuote → ℤ → BlockContext → ℕ → Answered RouteQuote
  requote route amount block latency = requote_from route route.legs amount block latency
