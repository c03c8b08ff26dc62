-- ===== src/Tests/Hooks.antt =====
-- A Uniswap V4 pool of the tokens 10 and 11, its quote and the plan of its route.
use epeius.Prelude.{◌≡◌, refl, none, some, [], ◌∷◌, str_eq_refl, inl}
use epeius.Prelude.Int.{pos}
use epeius.Prelude.Decimal.{set_string}
use epeius.Config
use epeius.Config.{Pool, Deployment}
use epeius.Evm.{got, unpack, bytes_eq}
use epeius.Verify.{Getter}
use epeius.Wire.{RouteQuote, PrepareExecutionResponse, blank_response}
use epeius.V3Quoter.{answers, given, readable, ◌>>=◌}
use epeius.V4.{V4Calls, V4Quoter, quote, route_of, admit, uint128, pool_initialized, provider_quote}
use epeius.V4.Admitted.{IsAdmitted, AreAlike, quote-IsAdmitted}
use epeius.V4.Router.{V4RouterCalls, V4RouterPreparation, build}
use epeius.V4.Permitted.{Permits, build-Permits}
use epeius.Tests.Fixture.{block, number_method}
use epeius.Tests.Ticks.{decimals}

abbrev pool : Pool
pool = record {
  currency0 = decimals.address_hex 10;
  currency1 = decimals.address_hex 11;
  fee_pips = 500;
  tick_spacing = pos 10;
  hooks = decimals.address_hex 0;
}

abbrev getter : Getter
getter = record { id = 1 ∷ []; method = number_method }

abbrev pub calls : V4Calls
calls = record {
  pool_id = λ key. some 77;
  get_slot0_call = λ id. some (1 ∷ []);
  slot0 = number_method;
  quote_call = λ key zero_for_one amount. some (2 ∷ []);
  quote_result = number_method;
  quoter_manager = getter;
  state_view_manager = getter;
  router_manager = getter;
  hash_hex = λ id. "0x4d";
  keccak = λ bytes. 0;
  packing_error = "";
}

abbrev deployment : Deployment
deployment = record {
  kind = "uniswap-v4";
  factory = "";
  quoter = "0x50";
  router = "0x99";
  fees = none;
  options = none;
  provider_config = Config.unset;
  configured_fields = [];
}

-- Every read answers 1990.
abbrev quoter : V4Quoter
quoter = record {
  reader = record { call = λ to call hash. got (1990 ∷ []); code = none };
  id = "v4";
  deployment = deployment;
  options = record {
    pool_manager = "0x60";
    state_view = "0x61";
    permit2 = "0x62";
    permit2_code_hash = "";
    router_code_hash = "";
    pools = pool ∷ [];
  };
}

abbrev quoted_route : RouteQuote
quoted_route = route_of calls decimals quoter "v4:0x4d" pool 77 10 11 1990 block 1

quoted_pool :
    quote calls decimals quoter "v4:0x4d" pool 10 11 (some (pos 500)) block 1 ≡ answers quoted_route
unfolding quote pool_initialized provider_quote uint128 given readable unpack bytes_eq ◌>>=◌
quoted_pool = refl

quote-IsAdmitted_example :
    (found : Pool) × (admit calls decimals quoter (some quoted_route) ≡ some found)
    × IsAdmitted calls decimals quoter quoted_route found
    × AreAlike pool found
quote-IsAdmitted_example =
    quote-IsAdmitted calls decimals quoter "v4:0x4d" pool 10 11 (some (pos 500)) block 1
      quoted_route (str_eq_refl "uniswap-v4") (inl refl) (inl (refl, refl)) quoted_pool

abbrev packs : V4RouterCalls
packs = record {
  exact_input_single = λ key zero_for_one amount minimum. some (6 ∷ []);
  settle = λ token amount. some (11 ∷ []);
  take_all = λ token minimum. some (15 ∷ []);
  v4_swap = λ actions. some (6 ∷ 11 ∷ 15 ∷ []);
  execute = λ input deadline. some (16 ∷ input);
  encode_hex = λ bytes. "0x10";
}

abbrev preparation : V4RouterPreparation
preparation = record {
  id = "v4";
  chain_id = "8453";
  router = "0x99";
  permit2 = "0x62";
  admit = admit calls decimals quoter;
}

abbrev terms : PrepareExecutionResponse
terms = record blank_response {
  token_in = decimals.address_hex 10;
  token_out = decimals.address_hex 11;
  amount_in_atomic = "500";
  amount_out_minimum_atomic = "1980";
  recipient = "0x07";
  deadline_unix = "1700000120";
  route = some quoted_route;
}

input_read : set_string "500" ≡ some (pos 500)
unfolding set_string
input_read = refl

minimum_read : set_string "1980" ≡ some (pos 1980)
unfolding set_string
minimum_read = refl

build-Permits_example :
    Permits calls packs decimals quoter preparation terms (build packs decimals preparation terms)
build-Permits_example =
    build-Permits calls packs decimals quoter preparation refl terms quoted_route (pos 500)
      (pos 1980) refl input_read minimum_read
