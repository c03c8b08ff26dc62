-- ===== src/Tests/Simulations.antt =====
-- The Tenderly simulator on a swap of 500 for 1990.
use epeius.Prelude.{ℕ, ◌≡◌, refl, true, Option, none, some, List, [], ◌∷◌, String}
use epeius.Prelude.Int.{pos, negsuc, ◌-ℤ◌}
use epeius.Prelude.Decimal.{nat_text, int_text, parse_uint, positive_integer}
use epeius.Evm.{Bytes, valid_address, unpack, bytes_eq}
use epeius.Options.{starts_and_all, all_of}
use epeius.Executor.{equal_fold}
use epeius.Wire.{PrepareExecutionResponse, ready, blank_response}
use epeius.Execution.Environment.{simulated}
use epeius.Execution.Checks.{decoded}
use epeius.Simulators.{Probing, valid_probe, valid_probes, valid_allowances}
use epeius.Simulators.Tenderly.{
  Tenderly, SimulationCall, SimulationIdentity, SimulationResult, Reply, response, simulate,
  is_slug, is_configured, balances, base, balance, swap as swap_t, allowance, bundle, is_zero_value,
  identity_ok, decodes_to, header_ok, trace_ok, result_ok, decoded as decoded_t, value_of,
  value_if_ok, values_of, value_at, all_preserved, all_cleared, conclude, judge_rest, judge_deltas,
  judge, judged, read_reply, usable_gas, with_numbers, acceptable,
}
use epeius.Tests.Fixture.{evm, route, number_method, swap, plan, snapshot}

abbrev pub bytes_of : Option ℕ → Option Bytes
bytes_of none = none
bytes_of (some n) = some (n ∷ [])

-- Numbers are written in decimals.
abbrev pub probing : Probing
probing = record {
  balance_of_call = λ owner. owner ∷ [];
  balance_of = number_method;
  allowance_call = λ owner spender. owner ∷ spender ∷ [];
  allowance = number_method;
  encode_hex = λ bytes. "0x";
  decode_hex = λ text. bytes_of (parse_uint text);
  decode_uint64 = parse_uint;
  encode_uint64 = nat_text;
}

abbrev tenderly : Tenderly
tenderly = record { key = "key"; account = "epeius"; project = "quotes" }

abbrev identity : SimulationCall → SimulationIdentity
identity call = record {
  network_id = call.network_id;
  block_number = call.block_number;
  from = call.from;
  to = call.to;
  input = call.input;
  value = "0x0";
  status = true;
}

abbrev reply_to : SimulationCall → String → SimulationResult
reply_to call output = record {
  simulation = identity call;
  transaction_index = negsuc 0;
  block_header = record { number = "101"; hash = "0x65"; timestamp = "1700000000" };
  transaction = identity call;
  call_trace = record {
    from = call.from;
    to = call.to;
    input = call.input;
    output = output;
    error = "";
  };
}

abbrev replies : List SimulationCall → List String → List SimulationResult
replies [] outputs = []
replies (call ∷ calls) [] = []
replies (call ∷ calls) (output ∷ outputs) = reply_to call output ∷ replies calls outputs

-- The input balance falls from 700 to 200 and the output balance rises from 10 to 2000.
abbrev post : List SimulationCall → Reply
post calls = response 200 (replies calls ("700" ∷ "10" ∷ "" ∷ "200" ∷ "2000" ∷ []))

simulate_swap :
    simulate probing evm tenderly post swap plan.checks snapshot (pos 500) (pos 1990)
    ≡ some (simulated "1990")
unfolding simulate is_slug is_configured balances base balance swap_t allowance bundle is_zero_value
    identity_ok decodes_to header_ok trace_ok result_ok decoded_t value_of value_if_ok values_of
    value_at all_preserved all_cleared conclude judge_rest judge_deltas judge judged read_reply
    usable_gas with_numbers acceptable valid_probe valid_probes valid_allowances valid_address
    positive_integer parse_uint starts_and_all all_of equal_fold unpack bytes_eq ◌-ℤ◌ int_text
simulate_swap = refl

abbrev simulated_response : PrepareExecutionResponse
simulated_response = record blank_response {
  status = ready;
  transaction = some swap;
  preparation_id = "p1";
  expires_at_unix = "32";
  amount_out_minimum_atomic = "1990";
  amount_in_atomic = "500";
  token_in = "0x0a";
  token_out = "0x0b";
  recipient = "0x07";
  deadline_unix = "1700000120";
  simulation_block = some (record { number = "101"; hash = "0x65" });
  simulated_amount_out_atomic = "1990";
  route = some route;
}
