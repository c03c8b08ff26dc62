-- ===== src/Execution/Environment.antt =====
-- services/quote-engine/internal/quote/execution.go: what one call of `PrepareExecution` meets from
-- outside: the clock, the chain, the simulator, and the other requests on the shared store.
use epeius.Prelude.{ℕ, String, Bool, Option, List}
use epeius.Prelude.Int.{ℤ}
use epeius.Wire.{UnsignedTransaction}
use epeius.Engine.{Snapshot}
use epeius.Store.{Store, Op, SimulationChecks, run}
use epeius.Execution.Outcome.{Exec, goes_on}

-- The places of the handler that read the clock, ask whether a block is canonical or use the store,
-- in the order of the text.
pub data Site : Type 0 where
  looked_up quote_block terms_expiry : Site
  allowance_mark allowance_expiry approval_block approval_expiry approval_saved : Site
  permission_mark permission_expiry permission_block permission_end permission_saved : Site
  simulation_block simulation_expiry ready_saved : Site

-- The sentinel errors of tenderly.go, and any other.
pub data SimulationError : Type 0 where
  not_configured service_unavailable timed_out evidence : SimulationError
  input_amount minimum_output protected_balance uncleared_allowance : SimulationError
  other_error : SimulationError

pub data Simulation : Type 0 where
  simulated : String → Simulation
  simulation_failed : SimulationError → Simulation

-- `others` are the calls of the store that other requests make between this handler's previous use of
-- it and the one at the site.
pub record World : Type 0 where
  pub clock : Site → ℕ
  pub canonical : Site → Snapshot → Bool
  pub others : Site → List Op
  pub snapshot : Option Snapshot
  pub fresh_id : String
  pub simulate : UnsignedTransaction → SimulationChecks → Snapshot → ℤ → ℤ → Simulation

-- One use of the store.
unfoldable pub touch : {A : Type 0} → World → Site → (Store → A × Store) → Exec A
touch w site use_store s = let (a, s') = use_store (run (w.others site) s) in (goes_on a, s')

-- simulationMessage
unfoldable pub simulation_message : SimulationError → String
simulation_message not_configured =
    "Simulation is not configured. Check the engine's Tenderly settings."
simulation_message service_unavailable =
    "Simulation service is unavailable; execution was not prepared."
simulation_message timed_out = "Simulation timed out; execution was not prepared."
simulation_message evidence =
    "Simulation evidence is incomplete or does not match the requested call and block."
simulation_message input_amount = "Simulation did not consume the exact input amount."
simulation_message minimum_output = "Simulation output is below the minimum."
simulation_message protected_balance = "Simulation changed a balance that must be preserved."
simulation_message uncleared_allowance =
    "Simulation left an executor-to-router allowance uncleared."
simulation_message other_error = "swap simulation could not prove safe execution"
