-- ===== src/Tests/Plans.antt =====
-- The plan of a route with two hops through the Uniswap router.
use epeius.Prelude.{◌<◌, ◌^◌, ◌≡◌, refl, none, some, [], ◌∷◌, arith, String}
use epeius.Prelude.Int.{pos}
use epeius.Prelude.Decimal.{set_string}
use epeius.Wire.{RouteQuote, PrepareExecutionResponse, blank_response, fee_pips}
use epeius.Routers.{RouterCalls, V3RouterPreparation, build, uniswap_router02_data}
use epeius.Routers.Plans.{Built, build-Built, router02}
use epeius.Tests.Fixture.{evm, route}

abbrev pub calls : RouterCalls
calls = record {
  exact_input_02 = λ path recipient amount minimum. some path;
  multicall_02 = λ deadline inner. some (deadline ∷ []);
  pancake_exact_input = λ path recipient deadline amount minimum. some path;
  slipstream_exact_input = λ path recipient deadline amount minimum. some path;
  encode_hex = λ bytes. "0x01";
}

abbrev pub two_hops : RouteQuote
two_hops = record route {
  legs =
      record {
        pool = "0x01";
        token_in = "0x0a";
        token_out = "0x0c";
        selector = some (fee_pips 500);
        uniswap_v4_pool_key = none;
      }
      ∷ record {
        pool = "0x02";
        token_in = "0x0c";
        token_out = "0x0b";
        selector = some (fee_pips 3000);
        uniswap_v4_pool_key = none;
      }
      ∷ [];
}

abbrev preparation : V3RouterPreparation
preparation = record {
  id = "uni";
  kind = "uniswap-v3";
  target = "0x99";
  chain_id = "8453";
  encode = uniswap_router02_data calls evm;
  verify = none;
  verification_factory = "";
}

abbrev pub terms : PrepareExecutionResponse
terms = record blank_response {
  amount_in_atomic = "500";
  amount_out_minimum_atomic = "1990";
  recipient = "0x07";
  deadline_unix = "1700000120";
  route = some two_hops;
}

small : (text : String) → evm.hex_to_address text < 2 ^ 160
small text = omega arith

minimum_read : set_string "1990" ≡ some (pos 1990)
unfolding set_string
minimum_read = refl

build-Built_example : Built calls evm router02 preparation terms (build calls evm preparation terms)
build-Built_example =
    build-Built calls evm small router02 preparation refl terms two_hops (pos 1990) refl
      minimum_read
