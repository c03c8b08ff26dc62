-- ===== src/Simulators/Tenderly.antt =====
-- services/quote-engine/internal/quote/tenderly.go, `Simulate`: a bundle of calls that reads the balances,
-- swaps, and reads the balances and the allowances again, and the judgement of what comes back.
pub mod Judged
pub mod Replies
pub mod Segments
pub mod Answers
pub mod Refuted
pub mod Evidence
use epeius.Prelude.{
  ℕ, zero, suc, ◌+◌, ◌-◌, ◌*◌, String, Bool, true, false, not, ◌&&◌, ◌||◌, Option, none, some, List,
  [], ◌∷◌, ◌++◌, map, ltb, ◌==◌, str_eq, is_empty, codes, length, get_elem?, if◌then◌else◌,
}
use epeius.Prelude.Int.{ℤ, pos, negsuc, ◌-ℤ◌, ltb_ℤ, eq_ℤ}
use epeius.Prelude.Decimal.{positive_integer, parse_uint, int_text}
use epeius.Prelude.Partial.{◌>>=◌}
use epeius.Evm.{Evm, Bytes, Method, unpack}
use epeius.Wire.{UnsignedTransaction}
use epeius.Store.{BalanceProbe, AllowanceProbe, SimulationChecks}
use epeius.Engine.{Snapshot}
use epeius.Options.{starts_and_all}
use epeius.Executor.{equal_fold}
use epeius.Execution.Environment.{
  SimulationError, not_configured, service_unavailable, timed_out, evidence, input_amount,
  minimum_output, protected_balance, uncleared_allowance, other_error, Simulation, simulated,
  simulation_failed,
}
use epeius.Simulators.{Probing, valid_probes, valid_allowances}

pub record Tenderly : Type 0 where
  pub key : String
  pub account : String
  pub project : String

pub record SimulationCall : Type 0 where
  pub network_id : String
  pub block_number : ℕ
  pub transaction_index : ℤ
  pub from : String
  pub to : String
  pub input : String
  pub value : String
  pub gas : ℕ
  pub simulation_type : String
  pub save : Bool
  pub save_if_fails : Bool

pub record SimulationIdentity : Type 0 where
  pub network_id : String
  pub block_number : ℕ
  pub from : String
  pub to : String
  pub input : String
  pub value : String
  pub status : Bool

pub record BlockHeader : Type 0 where
  pub number : String
  pub hash : String
  pub timestamp : String

pub record CallTrace : Type 0 where
  pub from : String
  pub to : String
  pub input : String
  pub output : String
  pub error : String

-- `simulation` and `transaction` are the identities that the two objects embed.
pub record SimulationResult : Type 0 where
  pub simulation : SimulationIdentity
  pub transaction_index : ℤ
  pub block_header : BlockHeader
  pub transaction : SimulationIdentity
  pub call_trace : CallTrace

-- What the service makes of a bundle: an error that may be a timeout, before the response or while
-- its body is read, or a response with its status and its results.
pub data Reply : Type 0 where
  no_response : Bool → Reply
  unreadable : ℕ → Bool → Reply
  response : ℕ → List SimulationResult → Reply

unfoldable is_slug_letter : ℕ → Bool
is_slug_letter c =
    ltb 96 c && ltb c 123 || ltb 64 c && ltb c 91 || ltb 47 c && ltb c 58 || c == 95 || c == 45

-- slug.MatchString(value)
unfoldable pub is_slug : String → Bool
unfolding is_slug_letter
is_slug value = starts_and_all is_slug_letter is_slug_letter (codes value)

unfoldable pub is_configured : Tenderly → Bool
is_configured t = not (is_empty t.key) && is_slug t.account && is_slug t.project

unfoldable pub balances : SimulationChecks → List BalanceProbe
balances checks = checks.input ∷ checks.output ∷ checks.preserve

unfoldable pub base : UnsignedTransaction → ℕ → ℕ → SimulationCall
base tx number gas = record {
  network_id = tx.chain_id;
  block_number = number;
  transaction_index = negsuc 0;
  from = tx.from;
  to = "";
  input = "";
  value = "0";
  gas = gas;
  simulation_type = "full";
  save = false;
  save_if_fails = false;
}

unfoldable pub balance : Probing → Evm → SimulationCall → BalanceProbe → SimulationCall
balance c evm call probe = record call {
  to = probe.token;
  input = c.encode_hex (c.balance_of_call (evm.hex_to_address probe.owner));
}

unfoldable pub swap : UnsignedTransaction → SimulationCall → SimulationCall
swap tx call = record call { to = tx.to; input = tx.calldata }

unfoldable pub allowance : Probing → Evm → SimulationCall → AllowanceProbe → SimulationCall
allowance c evm call probe = record call {
  to = probe.token;
  input =
      c.encode_hex
        (c.allowance_call (evm.hex_to_address probe.owner) (evm.hex_to_address probe.spender));
}

unfoldable pub bundle :
    Probing → Evm → UnsignedTransaction → SimulationChecks → SimulationCall → List SimulationCall
bundle c evm tx checks call =
    let probes = map (balance c evm call) (balances checks) in
    probes ++ (swap tx call ∷ (probes ++ map (allowance c evm call) checks.clear_allowances))

unfoldable pub is_zero_value : String → Bool
is_zero_value value = str_eq value "0" || str_eq value "0x" || str_eq value "0x0"

unfoldable pub identity_ok : SimulationCall → SimulationIdentity → Bool
identity_ok expected actual =
    actual.status
    && str_eq actual.network_id expected.network_id
    && actual.block_number == expected.block_number
    && equal_fold actual.from expected.from
    && equal_fold actual.to expected.to
    && equal_fold actual.input expected.input
    && is_zero_value actual.value

-- `e != nil || n != number`, negated.
unfoldable pub decodes_to : Option ℕ → ℕ → Bool
decodes_to none number = false
decodes_to (some n) number = n == number

unfoldable pub header_ok : Probing → Snapshot → ℕ → BlockHeader → Bool
header_ok c snapshot number header =
    decodes_to (c.decode_uint64 header.number) number
    && decodes_to (c.decode_uint64 header.timestamp) snapshot.timestamp
    && equal_fold header.hash snapshot.block_hash

unfoldable pub trace_ok : SimulationCall → CallTrace → Bool
trace_ok expected trace =
    is_empty trace.error
    && equal_fold trace.from expected.from
    && equal_fold trace.to expected.to
    && equal_fold trace.input expected.input

unfoldable pub result_ok : Probing → Snapshot → ℕ → SimulationCall → SimulationResult → Bool
result_ok c snapshot number expected item =
    eq_ℤ item.transaction_index (negsuc 0)
    && identity_ok expected item.simulation
    && identity_ok expected item.transaction
    && header_ok c snapshot number item.block_header
    && trace_ok expected item.call_trace

unfoldable pub decoded : Method ℕ → Option Bytes → Option ℕ
decoded method none = none
decoded method (some raw) = unpack method raw

-- `values[i]`, which stays nil for the swap. `none` is the evidence error.
unfoldable pub value_of : Probing → ℕ → ℕ → SimulationResult → Option (Option ℕ)
value_of c probes i item = if i == probes then some none else do
  value ←
      decoded (if ltb (2 * probes) i then c.allowance else c.balance_of)
        (c.decode_hex item.call_trace.output)
  some (some value)

unfoldable pub value_if_ok :
    Probing → Snapshot → ℕ → ℕ → ℕ → SimulationCall → SimulationResult → Option (Option ℕ)
value_if_ok c snapshot number probes i expected item =
    if result_ok c snapshot number expected item then value_of c probes i item else none

-- The loop over the results, from the index `i` on.
unfoldable pub values_of :
    Probing
    → Snapshot
    → ℕ
    → ℕ
    → ℕ
    → List SimulationCall
    → List SimulationResult
    → Option (List (Option ℕ))
values_of c snapshot number probes i [] items = some []
values_of c snapshot number probes i (expected ∷ calls) [] = some []
values_of c snapshot number probes i (expected ∷ calls) (item ∷ items) = do
  value ← value_if_ok c snapshot number probes i expected item
  rest ← values_of c snapshot number probes (suc i) calls items
  some (value ∷ rest)

-- A use of `values[i]`; `none` is a panic, out of range or on a nil number.
unfoldable pub value_at : List (Option ℕ) → ℕ → Option ℕ
value_at values i = do value ← get_elem? values i; value

-- `for i := …; i < len(probes); i++`, with the rounds that are left.
unfoldable pub all_preserved : List (Option ℕ) → ℕ → ℕ → ℕ → Option Bool
all_preserved values after i zero = some true
all_preserved values after i (suc rounds) = do
  now ← value_at values (after + i)
  before ← value_at values i
  if now == before then all_preserved values after (suc i) rounds else some false

unfoldable pub all_cleared : List (Option ℕ) → ℕ → ℕ → Option Bool
all_cleared values i zero = some true
all_cleared values i (suc rounds) = do
  left ← value_at values i
  if left == 0 then all_cleared values (suc i) rounds else some false

unfoldable pub conclude : ℤ → Bool → Bool → Simulation
conclude output false cleared = simulation_failed protected_balance
conclude output true false = simulation_failed uncleared_allowance
conclude output true true = simulated (int_text output)

-- The loops over the balances to preserve and over the allowances, of which the second is reached only
-- after the first.
unfoldable pub judge_rest : List (Option ℕ) → ℕ → ℤ → Bool → Option Simulation
judge_rest values probes output false = some (conclude output false false)
judge_rest values probes output true = do
  let start = probes + 1 + probes
  cleared ← all_cleared values start (length values - start)
  some (conclude output true cleared)

unfoldable pub judge_deltas : List (Option ℕ) → ℕ → ℤ → ℤ → ℤ → ℤ → Option Simulation
judge_deltas values probes amount minimum consumed output =
    if not (eq_ℤ consumed amount)
    then some (simulation_failed input_amount)
    else if ltb_ℤ output minimum
    then some (simulation_failed minimum_output)
    else (all_preserved values (probes + 1) 2 (probes - 2) >>= judge_rest values probes output)

unfoldable pub judge : List (Option ℕ) → ℕ → ℤ → ℤ → Option Simulation
judge values probes amount minimum = do
  input_before ← value_at values 0
  input_after ← value_at values (probes + 1)
  output_after ← value_at values (probes + 2)
  output_before ← value_at values 1
  judge_deltas values probes amount minimum (pos input_before -ℤ pos input_after)
      (pos output_after -ℤ pos output_before)

unfoldable pub judged : Option (List (Option ℕ)) → ℕ → ℤ → ℤ → Option Simulation
judged none probes amount minimum = some (simulation_failed evidence)
judged (some values) probes amount minimum = judge values probes amount minimum

unfoldable pub read_reply :
    Probing → Snapshot → ℕ → ℕ → List SimulationCall → ℤ → ℤ → Reply → Option Simulation
read_reply c snapshot number probes calls amount minimum (no_response is_timeout) =
    some (simulation_failed (if is_timeout then timed_out else service_unavailable))
read_reply c snapshot number probes calls amount minimum (unreadable status is_timeout) = some (
    simulation_failed (
      if not (status == 200)
      then service_unavailable
      else if is_timeout
      then timed_out
      else evidence))
read_reply c snapshot number probes calls amount minimum (response status items) =
    if not (status == 200)
    then some (simulation_failed service_unavailable)
    else if not (length items == length calls)
    then some (simulation_failed evidence)
    else judged (values_of c snapshot number probes 0 calls items) probes amount minimum

unfoldable pub usable_gas : Option ℕ → Option ℕ
usable_gas none = none
usable_gas (some gas) = if gas == 0 then none else some gas

unfoldable pub with_numbers :
    Probing
    → Evm
    → (List SimulationCall → Reply)
    → UnsignedTransaction
    → SimulationChecks
    → Snapshot
    → ℤ
    → ℤ
    → Option ℕ
    → Option ℕ
    → Option Simulation
with_numbers c evm post tx checks snapshot amount minimum none gas =
    some (simulation_failed other_error)
with_numbers c evm post tx checks snapshot amount minimum (some number) none =
    some (simulation_failed other_error)
with_numbers c evm post tx checks snapshot amount minimum (some number) (some gas) =
    let calls = bundle c evm tx checks (base tx number gas) in
    read_reply c snapshot number (length (balances checks)) calls amount minimum (post calls)

unfoldable pub acceptable : Evm → UnsignedTransaction → SimulationChecks → Snapshot → Bool
acceptable evm tx checks snapshot =
    valid_probes evm (balances checks)
    && valid_allowances evm checks.clear_allowances
    && positive_integer tx.chain_id
    && str_eq tx.chain_id snapshot.chain_id
    && str_eq tx.value_atomic "0"

-- Tenderly.Simulate, where `post` is the HTTP request with the bundle; `none` is a panic.
unfoldable pub simulate :
    Probing
    → Evm
    → Tenderly
    → (List SimulationCall → Reply)
    → UnsignedTransaction
    → SimulationChecks
    → Snapshot
    → ℤ
    → ℤ
    → Option Simulation
simulate c evm t post tx checks snapshot amount minimum =
    if not (is_configured t)
    then some (simulation_failed not_configured)
    else if not (acceptable evm tx checks snapshot)
    then some (simulation_failed other_error)
    else with_numbers c evm post tx checks snapshot amount minimum
        (parse_uint snapshot.block_number) (usable_gas (parse_uint tx.gas_limit))
