-- ===== src/Simulators/Tenderly/Evidence.antt =====
-- tenderly.go, `Simulate`: what a simulated output is evidence of, and what each error tells.
use epeius.Prelude.{
  ℕ, ◌<◌, ◌≡◌, ◌≢◌, ◌⊎◌, Bool, true, false, Option, none, some, List, [], ◌∷◌, length,
}
use epeius.Prelude.Int.{ℤ, pos, ◌-ℤ◌, ◌≤ℤ◌}
use epeius.Prelude.Decimal.{int_text, parse_uint}
use epeius.Evm.{Evm}
use epeius.Wire.{UnsignedTransaction}
use epeius.Store.{SimulationChecks}
use epeius.Engine.{Snapshot}
use epeius.Execution.Environment.{
  not_configured, service_unavailable, timed_out, evidence, input_amount, minimum_output,
  protected_balance, uncleared_allowance, other_error, Simulation, simulated, simulation_failed,
}
use epeius.Simulators.{Probing}
use epeius.Simulators.Tenderly.{
  Tenderly, SimulationCall, SimulationResult, Reply, no_response, unreadable, response, balances,
  base, bundle, acceptable, is_configured,
}
use epeius.Simulators.Tenderly.Answers.{Answers}
use epeius.Simulators.Tenderly.Refuted.{IsRefuted}

abbrev pub AllZero : List ℕ → Type 0
AllZero [] = Unit
AllZero (x ∷ xs) = (x ≡ 0) × AllZero xs

module _ (c : Probing) (evm : Evm) (t : Tenderly) (post : List SimulationCall → Reply)
    (tx : UnsignedTransaction) (checks : SimulationChecks) (snapshot : Snapshot) where
  -- A bundle was sent, with the block and the gas of the request.
  pub record Sent : Type 0 where
    pub number : ℕ
    pub gas : ℕ
    pub of_block : parse_uint snapshot.block_number ≡ some number
    pub of_gas : parse_uint tx.gas_limit ≡ some gas
    pub has_gas : 0 < gas

  abbrev pub answer : Sent → Reply
  answer sent = post (bundle c evm tx checks (base tx sent.number sent.gas))

  -- The service answered every call of the bundle, with these numbers.
  pub record Measured : Type 0 where
    pub sent : Sent
    pub items : List SimulationResult
    pub answered : answer sent ≡ response 200 items
    pub input_before : ℕ
    pub output_before : ℕ
    pub input_after : ℕ
    pub output_after : ℕ
    pub before : List ℕ
    pub after : List ℕ
    pub left : List ℕ
    pub answers :
        Answers c evm tx checks snapshot sent.number
          (base tx sent.number sent.gas)
          items
          (input_before ∷ output_before ∷ before)
          (input_after ∷ output_after ∷ after)
          left

  -- There are not as many results as calls, or one of them does not confirm its call.
  abbrev pub Unconfirmed : Sent → List SimulationResult → Type 0
  Unconfirmed sent items =
      (length items ≢ length (bundle c evm tx checks (base tx sent.number sent.gas)))
      ⊎ IsRefuted c snapshot sent.number (length (balances checks)) 0
          (bundle c evm tx checks (base tx sent.number sent.gas)) items

  abbrev pub consumed : Measured → ℤ
  consumed m = pos m.input_before -ℤ pos m.input_after

  abbrev pub output : Measured → ℤ
  output m = pos m.output_after -ℤ pos m.output_before

  module _ (amount minimum : ℤ) where
    abbrev pub Swaps : Measured → Type 0
    Swaps m = (consumed m ≡ amount) × (minimum ≤ℤ output m)

    -- What `Simulate` tells by each of its results.
    abbrev pub Tells : Simulation → Type 0
    Tells (simulated text) =
        (m : Measured) × Swaps m
        × (m.after ≡ m.before)
        × AllZero m.left
        × (text ≡ int_text (output m))
    Tells (simulation_failed not_configured) = is_configured t ≡ false
    Tells (simulation_failed service_unavailable) =
        (sent : Sent) × ((answer sent ≡ no_response false)
          ⊎ ((status : ℕ) × (status ≢ 200)
              × (((b : Bool) × (answer sent ≡ unreadable status b))
                  ⊎ ((items : List SimulationResult) × (answer sent ≡ response status items)))))
    Tells (simulation_failed timed_out) =
        (sent : Sent) × ((answer sent ≡ no_response true) ⊎ (answer sent ≡ unreadable 200 true))
    Tells (simulation_failed evidence) =
        (sent : Sent) × ((answer sent ≡ unreadable 200 false)
          ⊎ ((items : List SimulationResult) × (answer sent ≡ response 200 items)
              × Unconfirmed sent items))
    Tells (simulation_failed input_amount) = (m : Measured) × (consumed m ≢ amount)
    Tells (simulation_failed minimum_output) =
        (m : Measured) × (consumed m ≡ amount) × (minimum ≤ℤ output m → ⊥)
    Tells (simulation_failed protected_balance) = (m : Measured) × Swaps m × (m.after ≢ m.before)
    Tells (simulation_failed uncleared_allowance) =
        (m : Measured) × Swaps m × (m.after ≡ m.before) × (AllZero m.left → ⊥)
    Tells (simulation_failed other_error) = (acceptable evm tx checks snapshot ≡ false) ⊎ (Sent → ⊥)

    -- A panic tells nothing.
    abbrev pub TellsResult : Option Simulation → Type 0
    TellsResult none = ⊥
    TellsResult (some result) = Tells result
