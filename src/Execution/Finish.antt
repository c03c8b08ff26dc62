-- ===== src/Execution/Finish.antt =====
-- services/quote-engine/internal/quote/execution.go: the Permit2 permission, the simulation and the
-- answer, and the checks of a preparation in their order.
use epeius.Prelude.{
  ℕ, ◌%◌, ◌^◌, String, Bool, true, false, not, ◌&&◌, ◌||◌, Option, none, some, ltb,
}
use epeius.Prelude.Int.{ℤ, pos, ltb_ℤ}
use epeius.Prelude.Decimal.{set_string, parse_uint_value}
use epeius.Evm.{Evm, Contracts}
use epeius.Wire.{PrepareExecutionResponse, requote_required, rejected, ready}
use epeius.Store.{Preparation, PermissionPlan}
use epeius.Execution.Outcome.{Exec, pure, result, unless, some_or_panic, ◌>>=◌, ◌>>◌}
use epeius.Execution.Environment.{
  World, simulation_block, simulation_expiry, ready_saved, Simulation, simulated, simulation_failed,
  simulation_message,
}
use epeius.Execution.Checks.{
  Context, block_hash, unexpired, confirmed, verified, in_time, decoded, read_allowance,
  noted_allowance, noted_permission, at_block, save_and_respond, check_allowance, ask_permission,
  expired_message, approval_changed,
}

abbrev is_some {ℓ} : {A : Type ℓ} → Option A → Bool
is_some none = false
is_some (some a) = true

module _ (evm : Evm) (abi : Contracts) (w : World) (ctx : Context) where
  -- permissionAmount.Cmp(permission.amount) < 0 || expiration < deadline
  abbrev pub lacks_permission : PermissionPlan → ℕ → ℕ × ℕ → Bool
  lacks_permission permission deadline granted =
      ltb_ℤ (pos granted.0) permission.amount || ltb (granted.1 % 2 ^ 64) deadline

  unfoldable pub read_permission : PermissionPlan → PrepareExecutionResponse → Exec (ℕ × ℕ)
  read_permission permission response =
      decoded evm abi w ctx abi.permit2_allowance "permission check failed" (
        ctx.reader.call (evm.hex_to_address permission.target)
          (abi.permit2_allowance_call (evm.hex_to_address response.recipient)
            (evm.hex_to_address permission.token) (evm.hex_to_address permission.spender))
          (block_hash evm abi w ctx))

  -- The branch of a missing permission; it always answers. `p` has the new `approval`.
  unfoldable pub refuse_permission :
      Preparation → PermissionPlan → PrepareExecutionResponse → Exec (Unit {0})
  refuse_permission p permission response = do
    unless (not (not ctx.recheck && p.approval)) (result requote_required approval_changed)
    unless
        (not (
          ctx.recheck
          && is_some p.response.approval_transaction
          && not (is_some p.response.on_chain_permission)))
        (result requote_required approval_changed)
    unless (not (ctx.recheck && not p.approval))
        (result requote_required "Permission state changed; request a fresh quote.")
    ask_permission evm abi w ctx p permission response

  -- Answers, or goes on with whether an approval is recorded.
  unfoldable pub check_permission :
      Preparation → Option PermissionPlan → PrepareExecutionResponse → ℕ → Exec Bool
  check_permission p none response deadline = pure p.approval
  check_permission p (some permission) response deadline = do
    granted ← read_permission permission response
    let required = lacks_permission permission deadline granted
    approval ← noted_permission evm abi w ctx p permission response required
    unless (not required) (refuse_permission (record p { approval = approval }) permission response)
    pure approval

  unfoldable pub simulated_output : Simulation → Exec String
  simulated_output (simulated output) = pure output
  simulated_output (simulation_failed e) = result rejected (simulation_message e)

  -- The simulation and the answer that is ready.
  unfoldable pub finish : Preparation → PrepareExecutionResponse → ℤ → Exec (Unit {0})
  finish p response amount = do
    minimum ← some_or_panic (set_string response.amount_out_minimum_atomic)
    output ← simulated_output (w.simulate p.transaction p.checks ctx.snapshot amount minimum)
    confirmed evm abi w ctx simulation_block
        "The simulation block could not be confirmed; request a fresh quote."
    unexpired evm abi w ctx simulation_expiry p.expires expired_message
    save_and_respond evm abi w ctx ready_saved p (
        at_block evm abi w ctx (record response {
          status = ready;
          transaction = some p.transaction;
          simulated_amount_out_atomic = output;
        }))

  -- Everything after the terms.
  unfoldable pub check_preparation : Preparation → Exec (Unit {0})
  check_preparation p = do
    let response = p.response
    verified evm abi w ctx p
    let deadline = parse_uint_value response.deadline_unix
    in_time evm abi w ctx p deadline
    allowance ← read_allowance evm abi w ctx p response
    amount ← some_or_panic (set_string response.amount_in_atomic)
    approval ← noted_allowance evm abi w ctx p response (ltb_ℤ (pos allowance) amount)
    let noted = record p { approval = approval }
    check_allowance evm abi w ctx noted response allowance amount
    approval' ← check_permission noted p.permission response deadline
    unless (not approval') (result requote_required approval_changed)
    finish (record p { approval = approval' }) response amount
