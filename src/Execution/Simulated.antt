-- ===== src/Execution/Simulated.antt =====
-- execution.go with tenderly.go: what the Tenderly simulator measured behind an answer that is ready.
use epeius.Prelude.{Option, none, some, List, ◌≡◌}
use epeius.Prelude.Int.{ℤ}
use epeius.Prelude.Decimal.{set_string, int_text}
use epeius.Evm.{Evm, Contracts}
use epeius.Wire.{PrepareExecutionRequest, PrepareExecutionResponse}
use epeius.Store.{Store}
use epeius.Engine.{Handler}
use epeius.Execution.Ready.{Evidence}
use epeius.Execution.Environment.{World, Simulation, simulation_failed, other_error}
use epeius.Simulators.{Probing}
use epeius.Simulators.Tenderly.{Tenderly, SimulationCall, Reply, simulate}
use epeius.Simulators.Tenderly.Evidence.{Measured, Swaps, AllZero, output}

-- The result of a call that does not panic.
abbrev result_of : Option Simulation → Simulation
result_of none = simulation_failed other_error
result_of (some result) = result

module _ (c : Probing) (evm : Evm) (t : Tenderly) (post : List SimulationCall → Reply) where
  abbrev pub with_tenderly : World → World
  with_tenderly w = record w {
    simulate = λ tx checks snapshot amount minimum.
        result_of (simulate c evm t post tx checks snapshot amount minimum);
  }

  module _ (abi : Contracts) (h : Handler) (w : World) (r : PrepareExecutionRequest)
      (s : Store) where
    -- What a ready answer of a handler that uses Tenderly rests on, with the evidence of the answer.
    pub record Backed (response : PrepareExecutionResponse) : Type 0 where
      pub e : Evidence evm abi h (with_tenderly w) r s (λ _ _. Unit) response
      pub amount : ℤ
      pub minimum : ℤ
      pub transaction : response.transaction ≡ some e.p.transaction
      pub amount_read : set_string e.p.response.amount_in_atomic ≡ some amount
      pub minimum_read : set_string e.p.response.amount_out_minimum_atomic ≡ some minimum
      pub measured : Measured c evm t post e.p.transaction e.p.checks e.snapshot
      pub swaps : Swaps c evm t post e.p.transaction e.p.checks e.snapshot amount minimum measured
      pub preserves : measured.after ≡ measured.before
      pub clears : AllZero measured.left
      pub states :
          response.simulated_amount_out_atomic
          ≡ int_text (output c evm t post e.p.transaction e.p.checks e.snapshot measured)
