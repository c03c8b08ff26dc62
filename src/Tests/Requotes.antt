-- ===== src/Tests/Requotes.antt =====
-- A route of one leg that is quoted again with an input of 200.
use epeius.Prelude.{◌≡◌, refl, true, none, some, [], ◌∷◌, ◌==◌, str_eq, if◌then◌else◌}
use epeius.Prelude.Int.{pos}
use epeius.Prelude.Decimal.{int_text, nat_text}
use epeius.Config
use epeius.Config.{Deployment}
use epeius.Evm.{Evm, Reader, got, unpack, bytes_eq}
use epeius.Wire.{RouteLeg, RouteQuote, fee_pips, get_fee_pips}
use epeius.V3Quoter.{
  V3Contracts, answers, ◌>>=◌, given, readable, present_pool, usable_output, find_pool, quote_pool,
  quote, quote_path, is_output, same_pools, quoted_again, requote_legs, requote_from, requote,
}
use epeius.V3Quoter.Requoted.{IsRequoted, requote-IsRequoted}
use epeius.Tests.Fixture.{route, block, number_method, pair_method}

abbrev two : Evm
two = record {
  is_hex_address = λ s. true;
  hex_to_address = λ s. if str_eq s "0x0a" then 10 else 11;
  address_hex = λ a. if a == 10 then "0x0a" else "0x0b";
  hex_to_hash = λ s. 9;
  is_hex_hash = λ s. true;
}

abbrev contracts : V3Contracts
contracts = record {
  get_pool_call = λ pancake a b fee. some [];
  get_pool = λ pancake. number_method;
  single_call = λ pancake a b amount fee. some [];
  single = λ pancake. pair_method;
  packing_error = "abi: cannot pack";
}

-- The factory at 10 knows the pool 11, whose quoter at 11 pays 900.
abbrev pools : Reader
pools = record {
  call = λ to call hash. if to == 10 then got (11 ∷ []) else got (900 ∷ 7 ∷ []);
  code = none;
}

abbrev deployment : Deployment
deployment = record {
  kind = "uniswap-v3";
  factory = "0x0a";
  quoter = "0x0b";
  router = "0x0c";
  fees = none;
  options = none;
  provider_config = Config.unset;
  configured_fields = [];
}

abbrev stored_leg : RouteLeg
stored_leg = record {
  pool = "0x0b";
  token_in = "0x0a";
  token_out = "0x0b";
  selector = some (fee_pips 500);
  uniswap_v4_pool_key = none;
}

abbrev stored : RouteQuote
stored = record route { legs = stored_leg ∷ [] }

abbrev again : RouteQuote
again = record stored { amount_out_atomic = "900"; latency_ms = 3 }

requoted_run : requote contracts two pools deployment stored (pos 200) block 3 ≡ answers again
unfolding requote requote_from requote_legs quoted_again same_pools is_output quote_path quote
    quote_pool find_pool usable_output present_pool readable given ◌>>=◌ unpack bytes_eq
    get_fee_pips int_text nat_text
requoted_run = refl

requote-IsRequoted_example : IsRequoted two stored block again
requote-IsRequoted_example =
    requote-IsRequoted contracts two pools deployment stored again (pos 200) block 3 requoted_run
