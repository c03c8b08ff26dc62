-- ===== src/Execution/Checks.antt =====
-- services/quote-engine/internal/quote/execution.go: the checks of a preparation at one block, from its
-- verification to the answer.
use Prim.Native.String.{◌++◌}
use epeius.Prelude.{
  ℕ, String, Bool, true, not, ◌&&◌, ◌||◌, Option, none, some, ltb, is_empty, if◌then◌else◌,
}
use epeius.Prelude.Int.{ℤ, pos, ltb_ℤ}
use epeius.Prelude.Decimal.{nat_text, int_text}
use epeius.Evm.{Evm, Contracts, Reader, Read, Bytes, Method, got, failed, unpack}
use epeius.Wire.{
  PrepareExecutionResponse, UnsignedTransaction, approval_required, requote_required, rejected,
}
use epeius.Store.{Preparation, PermissionPlan, mark_approval, save_preparation}
use epeius.Engine.{Snapshot}
use epeius.Execution.Outcome.{Exec, pure, respond, result, unless, some_or_else, ◌>>=◌, ◌>>◌}
use epeius.Execution.Environment.{
  World, Site, terms_expiry, allowance_mark, allowance_expiry, approval_block, approval_expiry,
  approval_saved, permission_mark, permission_expiry, permission_block, permission_end,
  permission_saved, touch,
}

-- The variables of the handler that its checks read: `recheck`, the request's quote ID, `saved.expires`
-- (zero on a recheck), the chain's ID and client, and the block.
pub record Context : Type 0 where
  pub recheck : Bool
  pub quote_id : String
  pub saved_expires : ℕ
  pub chain_id : String
  pub reader : Reader
  pub snapshot : Snapshot

abbrev pub expired_message : String
expired_message = "Quote or preparation expired; request a fresh quote."

abbrev pub approval_changed : String
approval_changed = "Approval state changed; request a fresh quote."

abbrev pub mark_failed : String
mark_failed = "quote expired or unavailable during preparation; request a fresh quote"

module _ (evm : Evm) (abi : Contracts) (w : World) (ctx : Context) where
  abbrev pub block_hash : ℕ
  block_hash = evm.hex_to_hash ctx.snapshot.block_hash

  -- `if !time.Now().Before(p.expires)`
  unfoldable pub unexpired : Site → ℕ → String → Exec (Unit {0})
  unexpired site expires message =
      unless (ltb (w.clock site) expires) (result requote_required message)

  -- reader.Canonical(ctx, snapshot)
  unfoldable pub confirmed : Site → String → Exec (Unit {0})
  confirmed site message = unless (w.canonical site ctx.snapshot) (result requote_required message)

  unfoldable pub verdict : Option (Reader → ℕ → String) → String
  verdict none = ""
  verdict (some verify) = verify ctx.reader block_hash

  unfoldable pub verified : Preparation → Exec (Unit {0})
  verified p = unless (is_empty (verdict p.verify)) (result rejected (verdict p.verify))

  unfoldable pub in_time : Preparation → ℕ → Exec (Unit {0})
  in_time p deadline =
      unless (ltb (w.clock terms_expiry) p.expires && ltb ctx.snapshot.timestamp deadline)
        (result requote_required expired_message)

  -- An `eth_call` at the block and its strict decoding; `message` tells of a failure of either.
  unfoldable pub decoded : {A : Type 0} → Method A → String → Read Bytes → Exec A
  decoded method message (failed e) = result rejected message
  decoded method message (got bytes) = some_or_else (unpack method bytes) (result rejected message)

  unfoldable pub read_allowance : Preparation → PrepareExecutionResponse → Exec ℕ
  read_allowance p response = decoded abi.allowance "allowance check failed" (
      ctx.reader.call (evm.hex_to_address response.token_in)
        (abi.allowance_call (evm.hex_to_address response.recipient) (evm.hex_to_address p.spender))
        block_hash)

  -- What `markApproval` answers, with the test of the quote's own time behind it.
  unfoldable pub mark_answer : Site → Option Bool → Exec Bool
  mark_answer site none = result requote_required mark_failed
  mark_answer site (some previous) = do
    unless (ltb (w.clock site) ctx.saved_expires) (result requote_required mark_failed)
    pure previous

  unfoldable pub note : Site → Site → String → Bool → Exec Bool
  note mark_site expiry_site key required = do
    previous ← touch w mark_site (mark_approval ctx.quote_id key required (w.clock mark_site))
    mark_answer expiry_site previous

  -- On a recheck the store is not asked, and `p.approval` stays.
  unfoldable pub noted_allowance : Preparation → PrepareExecutionResponse → Bool → Exec Bool
  noted_allowance p response required =
      if ctx.recheck
      then pure p.approval
      else note allowance_mark allowance_expiry (response.recipient ++ p.spender) required

  unfoldable pub noted_permission :
      Preparation → PermissionPlan → PrepareExecutionResponse → Bool → Exec Bool
  noted_permission p permission response required = if ctx.recheck then pure p.approval else do
    previous ←
        note permission_mark permission_expiry
          (response.recipient ++ (permission.target ++ permission.spender)) required
    pure (p.approval || previous)

  abbrev pub call_transaction : PrepareExecutionResponse → String → Bytes → UnsignedTransaction
  call_transaction response to call = record {
    chain_id = ctx.chain_id;
    to = to;
    calldata = abi.encode_hex call;
    value_atomic = "0";
    from = response.recipient;
    gas_limit = "100000";
  }

  abbrev pub at_block : PrepareExecutionResponse → PrepareExecutionResponse
  at_block response = record response {
    simulation_block =
        some (record { number = ctx.snapshot.block_number; hash = ctx.snapshot.block_hash });
  }

  -- `h.Store.savePreparation(p)`, and the answer.
  unfoldable pub save_and_respond :
      Site → Preparation → PrepareExecutionResponse → {A : Type 0} → Exec A
  save_and_respond site p response = do
    touch w site (λ s. (tt, save_preparation p (w.clock site) s))
    respond response

  -- The answer that asks for an ERC20 approval; `p.approval` is then set.
  unfoldable pub ask_approval : {A : Type 0} → Preparation → PrepareExecutionResponse → ℤ → Exec A
  ask_approval p response amount = do
    confirmed approval_block
        "The approval check block could not be confirmed; request a fresh quote."
    unexpired approval_expiry p.expires expired_message
    let asking = at_block (record response {
      status = approval_required;
      message = "Approve the required amount, then request a fresh quote.";
      approval_spender = p.spender;
      approval_transaction = some (
          call_transaction response response.token_in
            (abi.approve_call (evm.hex_to_address p.spender) amount));
    })
    save_and_respond approval_saved (record p { approval = true; response = asking }) asking

  -- The branch of an allowance below the amount; it always answers.
  unfoldable pub check_allowance : Preparation → PrepareExecutionResponse → ℕ → ℤ → Exec (Unit {0})
  check_allowance p response allowance amount = unless (not (ltb_ℤ (pos allowance) amount)) do
    unless (not (ctx.recheck && not p.approval)) (result requote_required approval_changed)
    ask_approval p response amount

  unfoldable pub ask_permission :
      {A : Type 0} → Preparation → PermissionPlan → PrepareExecutionResponse → Exec A
  ask_permission p permission response = do
    confirmed permission_block
        "The permission check block could not be confirmed; request a fresh quote."
    unexpired permission_end p.expires expired_message
    let call =
        abi.permit2_approve_call (evm.hex_to_address permission.token)
          (evm.hex_to_address permission.spender) permission.amount permission.expiration
    let asking = at_block (record response {
      status = approval_required;
      message = "Grant the required Permit2 permission, then request a fresh quote.";
      on_chain_permission = some (record {
        transaction = call_transaction response permission.target call;
        target = permission.target;
        token = permission.token;
        spender = permission.spender;
        amount_atomic = int_text permission.amount;
        expiration_unix = nat_text permission.expiration;
      });
    })
    save_and_respond permission_saved (record p { approval = true; response = asking }) asking
