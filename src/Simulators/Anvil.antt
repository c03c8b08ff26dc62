-- ===== src/Simulators/Anvil.antt =====
-- services/quote-engine/internal/quote/anvil.go: the simulator of a local fork, which traces the call and
-- adds up the transfers that the trace logged.
pub mod Transfers
pub mod Evidence
use text.Mathlib.Text.{starts_with}
use epeius.Prelude.{
  ℕ, ◌+◌, ◌*◌, ◌^◌, ◌%◌, String, Bool, true, false, not, ◌&&◌, ◌||◌, Option, none, some, List, [],
  ◌∷◌, ◌++◌, map, ltb, ◌==◌, str_eq, is_empty, codes, length, if◌then◌else◌,
}
use epeius.Prelude.Int.{ℤ, pos, negsuc, ◌-ℤ◌, ◌+ℤ◌, ltb_ℤ, eq_ℤ}
use epeius.Prelude.Decimal.{parse_uint, int_text, nat_text}
use epeius.Evm.{Evm, Bytes, valid_address}
use epeius.Wire.{UnsignedTransaction}
use epeius.Store.{BalanceProbe, AllowanceProbe, SimulationChecks}
use epeius.Engine.{Snapshot, Admission, admitted, refused}
use epeius.Executor.{equal_fold, lower}
use epeius.Execution.Environment.{
  service_unavailable, evidence, input_amount, minimum_output, protected_balance, Simulation,
  simulated, simulation_failed,
}
use epeius.Simulators.{Probing, valid_probe}

pub record AnvilSimulator : Type 0 where
  pub chain_id : String

pub record Log : Type 0 where
  pub address : ℕ
  pub topics : List ℕ
  pub bytes : Bytes

-- anvilTrace: from, to, input, error, logs and calls.
mutual
  pub data AnvilTrace : Type 0 where
    trace : ℕ → ℕ → Bytes → String → List Log → AnvilTraces → AnvilTrace

  pub data AnvilTraces : Type 0 where
    no_more : AnvilTraces
    and_then : AnvilTrace → AnvilTraces → AnvilTraces

-- The transaction of `debug_traceCall`, and the hash of the block, which has to be canonical.
pub record TraceCall : Type 0 where
  pub from : String
  pub to : String
  pub calldata : String
  pub value : String
  pub gas : String
  pub block : ℕ

-- What `url.Parse` and `net.ParseIP` say of an endpoint: whether the host is a loopback address, if
-- it is an address.
pub record Endpoint : Type 0 where
  pub scheme : String
  pub has_user : Bool
  pub raw_query : String
  pub fragment : String
  pub hostname : String
  pub is_loopback : Option Bool

unfoldable pub is_true : Option Bool → Bool
is_true none = false
is_true (some b) = b

unfoldable pub is_plain_loopback : Endpoint → Bool
is_plain_loopback e =
    str_eq e.scheme "http"
    && not e.has_user
    && is_empty e.raw_query
    && is_empty e.fragment
    && (str_eq e.hostname "localhost" || is_true e.is_loopback)

unfoldable pub has_prefix : List ℕ → List ℕ → Bool
has_prefix s [] = true
has_prefix [] (p ∷ prefix) = false
has_prefix (c ∷ s) (p ∷ prefix) = let rest = has_prefix s prefix in c == p && rest

unfoldable pub is_anvil : Option String → Bool
is_anvil none = false
is_anvil (some version) = has_prefix (map lower (codes version)) (codes "anvil/")

unfoldable pub is_chain : Option ℕ → String → Bool
is_chain none chain_id = false
is_chain (some actual) chain_id = str_eq (nat_text actual) chain_id

unfoldable pub is_endpoint : Option Endpoint → Bool
is_endpoint none = false
is_endpoint (some e) = is_plain_loopback e

-- NewAnvilSimulator, with the parsed endpoint, whether it could be dialled, and the answers of
-- `web3_clientVersion` and `eth_chainId`.
unfoldable pub new_anvil_simulator :
    Option Endpoint → Bool → Option String → Option ℕ → String → Admission AnvilSimulator
new_anvil_simulator endpoint dialled version actual chain_id =
    if not (is_endpoint endpoint)
    then refused "Anvil simulation requires a plain loopback HTTP RPC URL"
    else if not dialled
    then refused "could not connect to Anvil simulation RPC"
    else if not (is_anvil version)
    then refused "local simulation RPC is not Anvil"
    else if not (is_chain actual chain_id)
    then refused "Anvil simulation chain ID does not match configured chain"
    else admitted (record { chain_id = chain_id })

-- `collect`, with the logs so far.
unfoldable mutual
  pub collect : AnvilTrace → List Log → Bool × List Log
  collect (trace from to input error logs calls) collected =
      let inside = collect_all calls (collected ++ logs) in
      if is_empty error then inside else (false, collected)

  pub collect_all : AnvilTraces → List Log → Bool × List Log
  collect_all no_more collected = (true, collected)
  collect_all (and_then call calls) collected =
      let (done, more) = collect call collected in
      let rest = collect_all calls more in if done then rest else (false, more)

-- SetBytes
unfoldable pub bytes_value : Bytes → ℕ → ℕ
bytes_value [] acc = acc
bytes_value (b ∷ bytes) acc = bytes_value bytes (acc * 256 + b)

abbrev pub transfer_topic : ℕ
transfer_topic = 0xddf252ad1be2c89b69c2b068fc378daa952ba7f163c4a11628f55a4df523b3ef

-- The sender, the receiver and the value of a log that is a transfer of the token.
unfoldable pub transfer_of : ℕ → ℕ → Bytes → List ℕ → Option (ℕ × ℕ × ℕ)
transfer_of token address bytes (topic ∷ (from ∷ (to ∷ []))) =
    if address == token && topic == transfer_topic && length bytes == 32
    then some (from % 2 ^ 160, to % 2 ^ 160, bytes_value bytes 0)
    else none
transfer_of token address bytes [] = none
transfer_of token address bytes (topic ∷ []) = none
transfer_of token address bytes (topic ∷ (from ∷ [])) = none
transfer_of token address bytes (topic ∷ (from ∷ (to ∷ (other ∷ topics)))) = none

unfoldable pub add_transfer : ℕ → Option (ℕ × ℕ × ℕ) → ℤ → ℤ
add_transfer owner none result = result
add_transfer owner (some (from, to, value)) result =
    let sent = if from == owner then result -ℤ pos value else result in
    if to == owner then sent +ℤ pos value else sent

unfoldable pub add_logs : ℕ → ℕ → List Log → ℤ → ℤ
add_logs token owner [] result = result
add_logs token owner (log ∷ logs) result =
    add_logs token owner logs
      (add_transfer owner (transfer_of token log.address log.bytes log.topics) result)

-- `delta`
unfoldable pub delta : Evm → List Log → BalanceProbe → Option ℤ
delta evm logs probe =
    if valid_probe evm probe
    then some
        (add_logs (evm.hex_to_address probe.token) (evm.hex_to_address probe.owner) logs (pos 0))
    else none

unfoldable pub is_spent : ℤ → Option ℤ → Bool
is_spent amount none = false
is_spent amount (some change) = eq_ℤ (pos 0 -ℤ change) amount

unfoldable pub is_unchanged : Option ℤ → Bool
is_unchanged none = false
is_unchanged (some change) = eq_ℤ change (pos 0)

unfoldable pub all_unchanged : Evm → List Log → List BalanceProbe → Bool
all_unchanged evm logs [] = true
all_unchanged evm logs (probe ∷ probes) =
    let rest = all_unchanged evm logs probes in
    if is_unchanged (delta evm logs probe) then rest else false

unfoldable pub judge_output : Evm → List Log → List BalanceProbe → ℤ → Option ℤ → Simulation
judge_output evm logs preserve minimum none = simulation_failed minimum_output
judge_output evm logs preserve minimum (some output) =
    if ltb_ℤ output minimum
    then simulation_failed minimum_output
    else if all_unchanged evm logs preserve
    then simulated (int_text output)
    else simulation_failed protected_balance

unfoldable pub judge : Evm → List Log → SimulationChecks → ℤ → ℤ → Simulation
judge evm logs checks amount minimum =
    if is_spent amount (delta evm logs checks.input)
    then judge_output evm logs checks.preserve minimum (delta evm logs checks.output)
    else simulation_failed input_amount

unfoldable pub is_of_call : Probing → Evm → UnsignedTransaction → Bytes → AnvilTrace → Bool
is_of_call c evm tx expected (trace from to input error logs calls) =
    equal_fold (evm.address_hex from) tx.from
    && equal_fold (evm.address_hex to) tx.to
    && equal_fold (c.encode_hex input) (c.encode_hex expected)

unfoldable pub collected_or_failed : Evm → SimulationChecks → ℤ → ℤ → Bool × List Log → Simulation
collected_or_failed evm checks amount minimum (done, logs) =
    if done then judge evm logs checks amount minimum else simulation_failed evidence

unfoldable pub read_trace :
    Probing
    → Evm
    → UnsignedTransaction
    → SimulationChecks
    → ℤ
    → ℤ
    → Bytes
    → Option AnvilTrace
    → Simulation
read_trace c evm tx checks amount minimum expected none = simulation_failed service_unavailable
read_trace c evm tx checks amount minimum expected (some t) =
    if is_of_call c evm tx expected t
    then collected_or_failed evm checks amount minimum (collect t [])
    else simulation_failed evidence

unfoldable pub no_allowances : List AllowanceProbe → Bool
no_allowances [] = true
no_allowances (probe ∷ probes) = false

unfoldable pub is_traceable :
    Evm → AnvilSimulator → UnsignedTransaction → SimulationChecks → Snapshot → Bool
is_traceable evm s tx checks snapshot =
    str_eq tx.chain_id s.chain_id
    && str_eq tx.chain_id snapshot.chain_id
    && str_eq tx.value_atomic "0"
    && valid_address evm tx.from
    && valid_address evm tx.to
    && no_allowances checks.clear_allowances

-- The gas of the call, where it can be read, is above zero, and the block has a hash.
unfoldable pub gas_of : Evm → Snapshot → Option ℕ → Option ℕ
gas_of evm snapshot none = none
gas_of evm snapshot (some gas) =
    if not (gas == 0) && evm.is_hex_hash snapshot.block_hash then some gas else none

unfoldable pub trace_with :
    Probing
    → Evm
    → (TraceCall → Option AnvilTrace)
    → UnsignedTransaction
    → SimulationChecks
    → Snapshot
    → ℤ
    → ℤ
    → Option ℕ
    → Option Bytes
    → Simulation
trace_with c evm ask tx checks snapshot amount minimum none input = simulation_failed evidence
trace_with c evm ask tx checks snapshot amount minimum (some gas) none = simulation_failed evidence
trace_with c evm ask tx checks snapshot amount minimum (some gas) (some input) =
    read_trace c evm tx checks amount minimum input (
      ask (record {
        from = tx.from;
        to = tx.to;
        calldata = tx.calldata;
        value = "0x0";
        gas = c.encode_uint64 gas;
        block = evm.hex_to_hash snapshot.block_hash;
      }))

-- AnvilSimulator.Simulate, where `ask` is the RPC; `none` is an error of it.
unfoldable pub simulate :
    Probing
    → Evm
    → AnvilSimulator
    → (TraceCall → Option AnvilTrace)
    → UnsignedTransaction
    → SimulationChecks
    → Snapshot
    → ℤ
    → ℤ
    → Simulation
simulate c evm s ask tx checks snapshot amount minimum =
    if is_traceable evm s tx checks snapshot
    then trace_with c evm ask tx checks snapshot amount minimum
        (gas_of evm snapshot (parse_uint tx.gas_limit)) (c.decode_hex tx.calldata)
    else simulation_failed evidence
