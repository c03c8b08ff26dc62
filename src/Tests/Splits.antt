-- ===== src/Tests/Splits.antt =====
-- An input of 500 that the executor splits between its two venues, and the path of one of its routes.
use epeius.Prelude.{
  ℕ, ◌<◌, ◌^◌, String, ◌≡◌, refl, Bool, true, false, none, some, List, [], ◌∷◌, ◌++◌, arith, str_eq,
  if◌then◌else◌,
}
use epeius.Prelude.Int.{ℤ, pos, negsuc, ◌+ℤ◌}
use epeius.Prelude.Decimal.{set_string, positive_integer, int_text, nat_text}
use epeius.Prelude.Dict.{Dict, lookup}
use epeius.Config
use epeius.Config.{Deployment, Executor}
use epeius.Evm.{Evm, Bytes, valid_address}
use epeius.Wire.{
  RouteLeg, RouteQuote, RouteAllocation, QuotedAllocation, BlockContext, PrepareExecutionResponse,
  blank_response, fee_pips, tick_spacing,
}
use epeius.Store.{StoredQuote}
use epeius.Engine.{Chain, Admission, admitted, ExecutionSelection}
use epeius.Executor.{
  allocated, ◌>>=◌, require, required, venue_at, venue_in, executor_venue, route_with, has_v3_fee,
  follow_legs, equal_fold, fold_eq, lower, is_member, is_uint256, admit_route, admit_amount,
  admit_rest, admit_allocations, requoted, requote_all, quote_allocations,
}
use epeius.Executor.Plan.{IsPlan, admit_allocations-IsPlan}
use epeius.Executor.Selection.{add_outputs, is_wide, with_output, select_from, select_allocations}
use epeius.Executor.Sums.{StatesSum, add_inputs, select_allocations-sums}
use epeius.Executor.Build.{ExecutorCalls, build}
use epeius.Executor.Executed.{Executes, build-Executes}
use epeius.Path.{
  big_endian, address_bytes, word_bytes, fee_word, spacing_bits, spacing_word, join_leg, prepend,
  with_word, pack_legs, pack_path, v3_path, slipstream_path,
}
use epeius.Path.Decode.{
  decode, hops_of, last_leg, signed_word, v3_path-decode, slipstream_path-decode,
}
use epeius.Verify.{Getter, Getters}
use epeius.Tests.Fixture.{number_method, route, quote_request, final}

-- Two tokens, told apart by their last digit.
abbrev tokens : Evm
tokens = record {
  is_hex_address = λ s. true;
  hex_to_address = λ s. if str_eq s "0x0a" then 10 else 11;
  address_hex = λ a. "0x0a";
  hex_to_hash = λ s. 9;
  is_hex_hash = λ s. true;
}

abbrev fee_leg : RouteLeg
fee_leg = record {
  pool = "0x0c";
  token_in = "0x0a";
  token_out = "0x0b";
  selector = some (fee_pips 500);
  uniswap_v4_pool_key = none;
}

abbrev spaced_leg : RouteLeg
spaced_leg = record fee_leg { selector = some (tick_spacing (negsuc 0)) }

abbrev uni : RouteQuote
uni = record route { legs = fee_leg ∷ [] }

abbrev cake : RouteQuote
cake = record uni {
  route_id = "cake:500";
  provider = "pancake-v3";
  deployment_id = "cake";
  amount_out_atomic = "900";
}

abbrev deployment : String → Deployment
deployment kind = record {
  kind = kind;
  factory = "0x01";
  quoter = "0x02";
  router = "0x03";
  fees = none;
  options = none;
  provider_config = Config.unset;
  configured_fields = [];
}

abbrev keep : RouteQuote → ℤ → BlockContext → Admission RouteQuote
keep route amount _ = admitted route

abbrev split_executor : Executor
split_executor = record {
  address = "0x99";
  uniswap_deployment = "uni";
  pancake_deployment = "cake";
}

abbrev pub splitting_chain : Chain
splitting_chain = record {
  chain_id = "8453";
  client = none;
  snapshot = record {
    key = "base";
    chain_id = "8453";
    block_number = "100";
    block_hash = "0x64";
    timestamp = 1;
  };
  error = "";
  config = record {
    chain_id = pos 8453;
    rpc_url_env = "RPC";
    execution_enabled = true;
    tokens = [];
    deployments = ("uni", deployment "uniswap-v3") ∷ ("cake", deployment "pancake-v3") ∷ [];
    executor = some split_executor;
  };
  deployment_errors = [];
  quoters = [];
  allocation_requoters = ("uni", keep) ∷ ("cake", keep) ∷ [];
  deployment_verifiers = [];
  preparers = [];
  allocation_preparer = none;
}

abbrev split_quote : StoredQuote
split_quote = record {
  request = quote_request;
  final = record final { routes = uni ∷ cake ∷ [] };
  expires = 9;
  approvals = [];
}

abbrev requested : List RouteAllocation
requested =
    record { route_id = "uni:500"; amount_in_atomic = "300" }
    ∷ record { route_id = "cake:500"; amount_in_atomic = "200" }
    ∷ []

abbrev split_plan : List QuotedAllocation
split_plan =
    record { amount_in_atomic = "300"; route = uni }
    ∷ record { amount_in_atomic = "200"; route = cake }
    ∷ []

plan_admitted :
    admit_allocations tokens splitting_chain split_quote requested ≡ allocated split_plan
unfolding admit_allocations admit_rest admit_amount admit_route ◌>>=◌ require required venue_at
    venue_in executor_venue route_with has_v3_fee follow_legs equal_fold fold_eq lower is_member
    is_uint256 set_string positive_integer int_text nat_text lookup valid_address ◌+ℤ◌
plan_admitted = refl

admit_allocations-IsPlan_example :
    (total : ℤ) × (set_string split_quote.request.amount_in_atomic ≡ some total)
    × IsPlan tokens splitting_chain split_quote (pos 0) [] total requested split_plan
admit_allocations-IsPlan_example =
    admit_allocations-IsPlan tokens splitting_chain split_quote requested split_plan plan_admitted

abbrev split_selection : ExecutionSelection
split_selection = record { route = none; allocations = split_plan; output = some (pos 2900) }

plan_selected :
    select_allocations tokens splitting_chain split_quote requested
    ≡ some (admitted split_selection)
unfolding select_allocations select_from with_output add_outputs is_wide quote_allocations
    requote_all requoted admit_allocations admit_rest admit_amount admit_route ◌>>=◌ require
    required venue_at venue_in executor_venue route_with has_v3_fee follow_legs equal_fold fold_eq
    lower is_member is_uint256 set_string positive_integer int_text nat_text lookup valid_address
    ◌+ℤ◌
plan_selected = refl

select_allocations-sums_example :
    (add_inputs (pos 0) split_plan ≡ set_string split_quote.request.amount_in_atomic)
    × StatesSum split_plan split_selection.output
select_allocations-sums_example =
    select_allocations-sums tokens splitting_chain split_quote requested split_selection
      plan_selected

abbrev getter : Getter
getter = record { id = 1 ∷ []; method = number_method }

abbrev getters : Getters
getters = record {
  uniswap_quoter_factory = getter;
  uniswap_router_factory = getter;
  pancake_quoter_factory = getter;
  pancake_router_factory = getter;
  pool_deployer = getter;
  quoter_deployer = getter;
  router_deployer = getter;
  executor_uniswap_router = getter;
  executor_pancake_router = getter;
}

abbrev calls : ExecutorCalls
calls = record {
  execute = λ token_in token_out amount minimum deadline allocations. some (deadline ∷ []);
  encode_hex = λ bytes. "0x01";
}

abbrev split_terms : PrepareExecutionResponse
split_terms = record blank_response {
  token_in = "0x0a";
  token_out = "0x0b";
  amount_in_atomic = "500";
  amount_out_minimum_atomic = "2800";
  recipient = "0x07";
  deadline_unix = "1700000120";
  allocations = split_plan;
}

build-Executes_example :
    Executes calls tokens getters "8453" splitting_chain.config split_executor refl split_terms
      (build calls tokens getters "8453" splitting_chain.config split_terms)
build-Executes_example =
    build-Executes calls tokens getters "8453" splitting_chain.config split_executor refl
      split_terms (record { amount_in_atomic = "300"; route = uni })
      (record { amount_in_atomic = "200"; route = cake } ∷ []) fee_leg [] refl refl

abbrev routers : Dict String
routers = ("uni", "0x03") ∷ ("cake", "0x04") ∷ []

ten_or_eleven : (b : Bool) → (if b then 10 else 11) < 2 ^ 160
ten_or_eleven true = omega arith
ten_or_eleven false = omega arith

are_addresses : (text : String) → tokens.hex_to_address text < 2 ^ 160
are_addresses text = ten_or_eleven (str_eq text "0x0a")

abbrev zeros : Bytes
zeros = 0 ∷ 0 ∷ 0 ∷ 0 ∷ 0 ∷ 0 ∷ 0 ∷ 0 ∷ 0 ∷ 0 ∷ 0 ∷ 0 ∷ 0 ∷ 0 ∷ 0 ∷ 0 ∷ 0 ∷ 0 ∷ 0 ∷ []

abbrev fee_bytes : Bytes
fee_bytes = zeros ++ (10 ∷ 0 ∷ 1 ∷ 244 ∷ (zeros ++ (11 ∷ [])))

abbrev spaced_bytes : Bytes
spaced_bytes = zeros ++ (10 ∷ 255 ∷ 255 ∷ 255 ∷ (zeros ++ (11 ∷ [])))

packed : v3_path tokens (fee_leg ∷ []) ≡ some fee_bytes
unfolding v3_path pack_path pack_legs with_word prepend join_leg fee_word address_bytes big_endian
    word_bytes valid_address
packed = refl

packed_spaced : slipstream_path tokens (spaced_leg ∷ []) ≡ some spaced_bytes
unfolding slipstream_path pack_path pack_legs with_word prepend join_leg spacing_word spacing_bits
    address_bytes big_endian word_bytes valid_address
packed_spaced = refl

v3_path-decode_example :
    (decode 1 fee_bytes ≡ (
      hops_of tokens fee_word (fee_leg ∷ []),
      (tokens.hex_to_address (last_leg fee_leg []).token_out, []),
    ))
    × ((fee word : ℕ) → fee_word (some (fee_pips fee)) ≡ some word → word ≡ fee)
v3_path-decode_example = v3_path-decode tokens are_addresses fee_leg [] fee_bytes packed

slipstream_path-decode_example :
    (decode 1 spaced_bytes ≡ (
      hops_of tokens spacing_word (spaced_leg ∷ []),
      (tokens.hex_to_address (last_leg spaced_leg []).token_out, []),
    ))
    × ((spacing : ℤ) (word : ℕ)
        → spacing_word (some (tick_spacing spacing)) ≡ some word
        → signed_word word ≡ spacing)
slipstream_path-decode_example =
    slipstream_path-decode tokens are_addresses spaced_leg [] spaced_bytes packed_spaced
