-- ===== src/Simulators/Anvil/Evidence.antt =====
-- anvil.go, `Simulate`: what a simulated output is evidence of, and what each error tells.
use epeius.Prelude.{ℕ, ◌≡◌, ◌≢◌, true, Option, none, some, List, [], ◌∷◌}
use epeius.Prelude.Int.{ℤ, pos, ◌-ℤ◌, ◌≤ℤ◌}
use epeius.Prelude.Decimal.{int_text, parse_uint}
use epeius.Evm.{Evm, Bytes}
use epeius.Wire.{UnsignedTransaction}
use epeius.Store.{BalanceProbe, SimulationChecks}
use epeius.Engine.{Snapshot}
use epeius.Execution.Environment.{
  not_configured, service_unavailable, timed_out, evidence, input_amount, minimum_output,
  protected_balance, uncleared_allowance, other_error, Simulation, simulated, simulation_failed,
}
use epeius.Simulators.{Probing, valid_probe}
use epeius.Simulators.Anvil.{AnvilSimulator, AnvilTrace, TraceCall, is_of_call, is_traceable}
use epeius.Simulators.Anvil.Transfers.{events, Succeeds, received, sent}

module _ (c : Probing) (evm : Evm) (s : AnvilSimulator) (ask : TraceCall → Option AnvilTrace)
    (tx : UnsignedTransaction) (checks : SimulationChecks) (snapshot : Snapshot) where
  -- The call that is traced.
  pub record Asked : Type 0 where
    pub traceable : is_traceable evm s tx checks snapshot ≡ true
    pub is_hash : evm.is_hex_hash snapshot.block_hash ≡ true
    pub gas : ℕ
    pub input : Bytes
    pub of_gas : parse_uint tx.gas_limit ≡ some gas
    pub has_gas : gas ≢ 0
    pub of_input : c.decode_hex tx.calldata ≡ some input

  abbrev pub answer : Asked → Option AnvilTrace
  answer a = ask (record {
    from = tx.from;
    to = tx.to;
    calldata = tx.calldata;
    value = "0x0";
    gas = c.encode_uint64 a.gas;
    block = evm.hex_to_hash snapshot.block_hash;
  })

  -- The fork traced the call, and no call in it failed.
  pub record Traced : Type 0 where
    pub asked : Asked
    pub whole : AnvilTrace
    pub answered : answer asked ≡ some whole
    pub of_call : is_of_call c evm tx asked.input whole ≡ true
    pub succeeds : Succeeds whole

  -- What the owner of a probe gains of its token by the transfers of the trace.
  abbrev pub gain : AnvilTrace → BalanceProbe → ℤ
  gain t probe =
      pos (received (evm.hex_to_address probe.token) (evm.hex_to_address probe.owner) (events t))
      -ℤ pos (sent (evm.hex_to_address probe.token) (evm.hex_to_address probe.owner) (events t))

  abbrev pub IsUnchanged : AnvilTrace → List BalanceProbe → Type 0
  IsUnchanged t [] = Unit
  IsUnchanged t (probe ∷ probes) =
      (valid_probe evm probe ≡ true) × (gain t probe ≡ pos 0) × IsUnchanged t probes

  module _ (amount minimum : ℤ) where
    abbrev pub Spends : Traced → Type 0
    Spends r = (valid_probe evm checks.input ≡ true) × (pos 0 -ℤ gain r.whole checks.input ≡ amount)

    abbrev pub Gains : Traced → Type 0
    Gains r = (valid_probe evm checks.output ≡ true) × (minimum ≤ℤ gain r.whole checks.output)

    -- What `Simulate` tells by each of its results.
    abbrev pub Shows : Simulation → Type 0
    Shows (simulated text) =
        (r : Traced) × Spends r
        × Gains r
        × IsUnchanged r.whole checks.preserve
        × (text ≡ int_text (gain r.whole checks.output))
    Shows (simulation_failed service_unavailable) = (a : Asked) × (answer a ≡ none)
    Shows (simulation_failed evidence) = Traced → ⊥
    Shows (simulation_failed input_amount) = (r : Traced) × (Spends r → ⊥)
    Shows (simulation_failed minimum_output) = (r : Traced) × Spends r × (Gains r → ⊥)
    Shows (simulation_failed protected_balance) =
        (r : Traced) × Spends r × Gains r × (IsUnchanged r.whole checks.preserve → ⊥)
    Shows (simulation_failed not_configured) = ⊥
    Shows (simulation_failed timed_out) = ⊥
    Shows (simulation_failed uncleared_allowance) = ⊥
    Shows (simulation_failed other_error) = ⊥
