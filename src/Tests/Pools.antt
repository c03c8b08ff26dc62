-- ===== src/Tests/Pools.antt =====
-- A Balancer pool with the tokens 10 and 11, at the address 5.
use epeius.Prelude.{
  ℕ, ◌*◌, ◌^◌, ◌+◌, ◌≡◌, refl, true, none, some, List, [], ◌∷◌, String, ◌==◌, str_eq, if◌then◌else◌,
  is_empty,
}
use epeius.Prelude.Int.{ℤ, pos, negsuc, ◌-ℤ◌}
use epeius.Prelude.Decimal.{set_string}
use epeius.Evm.{Evm, Bytes, Method, Read, Reader, got, unpack, bytes_eq}
use epeius.Wire.{RouteLeg, PrepareExecutionResponse, blank_response}
use epeius.Verify.{is_code}
use epeius.V3Quoter.{answers, given, readable, is_output, ◌>>=◌}
use epeius.Balancer.{
  BalancerCalls, pool_address, is_listed, are_distinct, values_of, usable_tokens, pool_tokens,
  registered_pool, is_value, is_there, verify_registered, verify_pool, is_eligible, output_of,
  quote_pool,
}
use epeius.Balancer.Quoter.{BalancerQuoter, verify}
use epeius.Balancer.Preparation.{BalancerPreparation, build, accepts, are_listed, verify_leg}
use epeius.Balancer.Verified.{Settles, verify-Settles}
use epeius.Balancer.Traded.{Built, build-IsVaultSwap, IsTradable, verify_leg-IsTradable}
use epeius.Balancer.Outputs.{IsQuote, quote_pool-IsQuote}
use epeius.Tests.Fixture.{evm, number_method, pair_method, route}

-- The pool's ID is 5 * 2^96 + 1.
abbrev id_text : String
id_text = "0x05"

abbrev pool_id : ℕ
pool_id = 5 * 2 ^ 96 + 1

abbrev addresses : Evm
addresses = record evm {
  hex_to_address = λ s. if str_eq s "0x0a" then 10 else if str_eq s "0x0b" then 11 else 7;
  hex_to_hash = λ s. if str_eq s "0x05" then pool_id else 9;
}

abbrev lists : Method (List ℕ × List ℕ)
lists = record {
  decode = λ bytes. some (10 ∷ 11 ∷ [], 1 ∷ 1 ∷ []);
  encode = λ values. some (10 ∷ []);
}

abbrev deltas_method : Method (List ℤ)
deltas_method = record {
  decode = λ bytes. some (pos 500 ∷ negsuc 1989 ∷ []);
  encode = λ values. some (4 ∷ []);
}

abbrev calls : BalancerCalls
calls = record {
  get_pool_tokens_call = λ id. 1 ∷ [];
  get_pool_tokens = lists;
  get_pool_call = λ id. 2 ∷ [];
  get_pool = pair_method;
  get_pool_id_call = 3 ∷ [];
  get_pool_id = number_method;
  query_batch_swap_call = λ id a b amount. some (4 ∷ []);
  query_batch_swap = deltas_method;
  swap_call = λ id a b amount recipient minimum deadline. some (6 ∷ []);
  encode_hex = λ bytes. "0x06";
}

abbrev answer : Bytes → Bytes
answer [] = []
answer (n ∷ rest) =
    if n == 1
    then 10 ∷ []
    else if n == 2
    then 5 ∷ 2 ∷ []
    else if n == 3
    then pool_id ∷ []
    else 4 ∷ []

abbrev code : ℕ → ℕ → Read Bytes
code to hash = got (1 ∷ [])

abbrev vault_reader : Reader
vault_reader = record { call = λ to call hash. got (answer call); code = some code }

abbrev quoter : BalancerQuoter
quoter = record { reader = vault_reader; id = "bal"; vault = "0xba"; pools = "0x05" ∷ "0x06" ∷ [] }

abbrev strategy : BalancerPreparation
strategy = record { id = "bal"; chain_id = "8453"; vault = "0xba"; pools = "0x05" ∷ "0x06" ∷ [] }

abbrev leg : RouteLeg
leg = record {
  pool = "0x05";
  token_in = "0x0a";
  token_out = "0x0b";
  selector = none;
  uniswap_v4_pool_key = none;
}

abbrev terms : PrepareExecutionResponse
terms = record blank_response {
  amount_in_atomic = "500";
  amount_out_minimum_atomic = "1980";
  recipient = "0x07";
  deadline_unix = "1700000120";
  route = some (record route { provider = "balancer-v2"; deployment_id = "bal"; legs = leg ∷ [] });
}

quoted : quote_pool calls vault_reader 7 pool_id 10 11 (pos 500) 9 ≡ answers (pos 1990)
unfolding quote_pool ◌>>=◌ given readable pool_tokens values_of unpack bytes_eq usable_tokens
    are_distinct is_listed is_eligible pool_address output_of is_output ◌-ℤ◌
quoted = refl

quote_pool-IsQuote_example : IsQuote calls vault_reader 7 pool_id 10 11 (pos 500) 9 (pos 1990)
quote_pool-IsQuote_example =
    quote_pool-IsQuote calls vault_reader 7 pool_id 10 11 (pos 500) 9 (pos 1990) quoted

minimum_read : set_string "1980" ≡ some (pos 1980)
unfolding set_string
minimum_read = refl

build-IsVaultSwap_example :
    Built calls addresses strategy terms (build calls addresses strategy terms)
build-IsVaultSwap_example = build-IsVaultSwap calls addresses strategy terms (pos 1980) minimum_read

accepted : is_empty (verify_leg calls addresses strategy leg vault_reader 9) ≡ true
unfolding verify_leg accepts are_listed verify_pool verify_registered registered_pool is_value
    is_there is_code pool_tokens values_of unpack bytes_eq usable_tokens are_distinct is_listed
    pool_address
accepted = refl

verify_leg-IsTradable_example : IsTradable calls addresses strategy leg vault_reader 9
verify_leg-IsTradable_example =
    verify_leg-IsTradable calls addresses strategy leg vault_reader 9 accepted

vault_code : is_code (code (addresses.hex_to_address "0xba") 9) ≡ true
unfolding is_code
vault_code = refl

verify-Settles_example :
    Settles calls addresses quoter code 9
      (("0x05", true) ∷ [])
      "0x05"
      (verify calls addresses quoter 9 (("0x05", true) ∷ []))
verify-Settles_example =
    verify-Settles calls addresses quoter code 9 refl vault_code (("0x05", true) ∷ []) "0x05"
