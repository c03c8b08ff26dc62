-- ===== src/Tests/Forks.antt =====
-- The Anvil simulator on a swap of 500 for 1990, in which a nested call pays the output.
use epeius.Prelude.{ℕ, ◌≡◌, ◌==◌, refl, some, List, [], ◌∷◌, ◌++◌, if◌then◌else◌, str_eq}
use epeius.Prelude.Int.{pos, ◌-ℤ◌, ◌+ℤ◌}
use epeius.Prelude.Decimal.{int_text, parse_uint}
use epeius.Evm.{Evm, valid_address}
use epeius.Executor.{equal_fold}
use epeius.Execution.Environment.{simulated}
use epeius.Simulators.{valid_probe}
use epeius.Simulators.Anvil.{
  AnvilSimulator, AnvilTrace, Log, trace, no_more, and_then, transfer_topic, collect, bytes_value,
  transfer_of, add_transfer, add_logs, delta, is_spent, is_unchanged, all_unchanged, judge_output,
  judge, is_of_call, collected_or_failed, read_trace, no_allowances, is_traceable, gas_of,
  trace_with, simulate,
}
use epeius.Tests.Fixture.{evm, swap, plan, snapshot}
use epeius.Tests.Simulations.{probing}

-- The input token is 10 and the output token 11; the owner is 7.
abbrev tokens : Evm
tokens = record evm {
  hex_to_address = λ s. if str_eq s "0x0a" then 10 else if str_eq s "0x0b" then 11 else 7;
  address_hex = λ a. if a == 99 then "0x99" else "0x07";
}

abbrev fork : AnvilSimulator
fork = record { chain_id = "8453" }

abbrev zeros : List ℕ
zeros =
    0 ∷ 0 ∷ 0 ∷ 0 ∷ 0 ∷ 0 ∷ 0 ∷ 0 ∷ 0 ∷ 0 ∷ 0 ∷ 0 ∷ 0 ∷ 0 ∷ 0 ∷ 0 ∷ 0 ∷ 0 ∷ 0 ∷ 0 ∷ 0 ∷ 0 ∷ 0 ∷ 0
    ∷ 0 ∷ 0 ∷ 0 ∷ 0 ∷ 0 ∷ 0 ∷ []

abbrev transfer : ℕ → ℕ → ℕ → ℕ → ℕ → Log
transfer token from to high low = record {
  address = token;
  topics = transfer_topic ∷ from ∷ to ∷ [];
  bytes = zeros ++ (high ∷ low ∷ []);
}

-- 500 is 1 * 256 + 244, and 1990 is 7 * 256 + 198.
abbrev whole : AnvilTrace
whole =
    trace 7 99 [] "" (transfer 10 7 99 1 244 ∷ [])
      (and_then (trace 99 11 [] "" (transfer 11 99 7 7 198 ∷ []) no_more) no_more)

simulate_fork :
    simulate probing tokens fork
      (λ call. some whole)
      (record swap { calldata = "1" })
      plan.checks
      snapshot
      (pos 500)
      (pos 1990)
    ≡ simulated "1990"
unfolding simulate trace_with gas_of is_traceable no_allowances read_trace collected_or_failed
    is_of_call judge judge_output all_unchanged is_unchanged is_spent delta add_logs add_transfer
    transfer_of bytes_value collect valid_probe valid_address equal_fold parse_uint int_text ◌-ℤ◌
    ◌+ℤ◌
simulate_fork = refl
