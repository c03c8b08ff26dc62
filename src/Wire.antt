-- ===== src/Wire.antt =====
-- proto/epeius/quote/v1/quote.proto: the messages as the Go handlers see them. A message is a
-- value, so `proto.CloneOf` is the identity; an optional field or a message that may be nil is an
-- `Option`. Addresses and hashes are the numbers that their big-endian bytes write.
pub mod First
use epeius.Prelude.{ℕ, String, Option, none, some, List, [], Bool}
use epeius.Prelude.Int.{ℤ}

pub record QuoteRequest : Type 0 where
  pub token_in : String
  pub token_out : String
  pub amount_in_atomic : String
  pub search_budget_ms : ℕ
  pub chain : String
  pub chain_id : String

pub record BlockContext : Type 0 where
  pub number : String
  pub hash : String

pub record UniswapV4PoolKey : Type 0 where
  pub currency0 : String
  pub currency1 : String
  pub fee_pips : ℕ
  pub tick_spacing : ℤ
  pub hooks : String

-- The `oneof selector` of a leg.
pub data Selector : Type 0 where
  fee_pips : ℕ → Selector
  tick_spacing : ℤ → Selector

pub record RouteLeg : Type 0 where
  pub pool : String
  pub token_in : String
  pub token_out : String
  pub selector : Option Selector
  pub uniswap_v4_pool_key : Option UniswapV4PoolKey

-- leg.GetFeePips()
unfoldable pub get_fee_pips : Option Selector → ℕ
get_fee_pips none = 0
get_fee_pips (some (Selector.fee_pips fee)) = fee
get_fee_pips (some (Selector.tick_spacing _)) = 0

pub record RouteQuote : Type 0 where
  pub route_id : String
  pub provider : String
  pub legs : List RouteLeg
  pub amount_out_atomic : String
  pub network_cost_out_atomic : Option String
  pub effective_out_atomic : Option String
  pub block : BlockContext
  pub latency_ms : ℕ
  pub deployment_id : String

pub record ProviderError : Type 0 where
  pub provider : String
  pub route_id : Option String
  pub message : String

pub record QuoteFinal : Type 0 where
  pub quote_id : String
  pub routes : List RouteQuote
  pub errors : List ProviderError
  pub best_route_id : Option String
  pub block : BlockContext
  pub search_complete : Bool

pub record RouteAllocation : Type 0 where
  pub route_id : String
  pub amount_in_atomic : String

pub record QuotedAllocation : Type 0 where
  pub amount_in_atomic : String
  pub route : RouteQuote

pub record PrepareExecutionRequest : Type 0 where
  pub quote_id : String
  pub route_id : String
  pub sender : String
  pub slippage_bps : ℕ
  pub preparation_id : String
  pub allocations : List RouteAllocation

pub data PreparationStatus : Type 0 where
  unspecified ready approval_required requote_required rejected : PreparationStatus

pub record UnsignedTransaction : Type 0 where
  pub chain_id : String
  pub to : String
  pub calldata : String
  pub value_atomic : String
  pub from : String
  pub gas_limit : String

pub record OnChainPermission : Type 0 where
  pub transaction : UnsignedTransaction
  pub target : String
  pub token : String
  pub spender : String
  pub amount_atomic : String
  pub expiration_unix : String

pub record PrepareExecutionResponse : Type 0 where
  pub status : PreparationStatus
  pub transaction : Option UnsignedTransaction
  pub message : String
  pub preparation_id : String
  pub expires_at_unix : String
  pub amount_out_minimum_atomic : String
  pub amount_in_atomic : String
  pub token_in : String
  pub token_out : String
  pub recipient : String
  pub deadline_unix : String
  pub simulation_block : Option BlockContext
  pub approval_transaction : Option UnsignedTransaction
  pub approval_spender : String
  pub simulated_amount_out_atomic : String
  pub route : Option RouteQuote
  pub allocations : List QuotedAllocation
  pub on_chain_permission : Option OnChainPermission

-- A response of which a handler sets a few fields.
abbrev pub blank_response : PrepareExecutionResponse
blank_response = record {
  status = PreparationStatus.unspecified;
  transaction = none;
  message = "";
  preparation_id = "";
  expires_at_unix = "";
  amount_out_minimum_atomic = "";
  amount_in_atomic = "";
  token_in = "";
  token_out = "";
  recipient = "";
  deadline_unix = "";
  simulation_block = none;
  approval_transaction = none;
  approval_spender = "";
  simulated_amount_out_atomic = "";
  route = none;
  allocations = [];
  on_chain_permission = none;
}
