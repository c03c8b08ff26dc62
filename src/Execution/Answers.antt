-- ===== src/Execution/Answers.antt =====
-- execution.go: what the checks of a preparation establish before the answer that is ready.
use Prim.Native.String.{◌++◌}
use epeius.Prelude.{
  ltb, ◌%◌, ◌^◌, ℕ, String, Bool, true, false, not, ◌||◌, Option, none, some, ◌≡◌, refl,
}
use epeius.Prelude.Int.{ℤ, pos, ltb_ℤ}
use epeius.Evm.{Evm, Contracts}
use epeius.Wire.{PrepareExecutionResponse}
use epeius.Store.{Store, Preparation, PermissionPlan}
use epeius.Execution.Outcome.{pure}
use epeius.Execution.Environment.{World}
use epeius.Execution.Checks.{
  Context, block_hash, noted_allowance, noted_permission, ask_approval, check_allowance,
  ask_permission,
}
use epeius.Execution.Finish.{lacks_permission, read_permission, refuse_permission, check_permission}
use epeius.Execution.Spec.{
  Spec, Spec-pure, Spec-result, Spec-unless, Spec-bind, Spec-if, Spec-weaken,
}
use epeius.Execution.Stages.{
  Invariant, Decodes, requote-ne-ready, asks-ne-ready, unexpired-Spec, confirmed-Spec, decoded-Spec,
  note-Spec, save_and_respond-Spec,
}

pub false_of_not : (b : Bool) → not b ≡ true → b ≡ false
false_of_not true h = cc
false_of_not false h = refl

-- What an approval that is not recorded means: the store did not know of it, or, on a recheck, the
-- preparation did not.
abbrev pub Recorded : Context → (String → Bool → Type 0) → String → Bool → Bool → Type 0
Recorded ctx Noted key old b = (ctx.recheck ≡ false → Noted key b) × (ctx.recheck ≡ true → b ≡ old)

module _ (evm : Evm) (abi : Contracts) (w : World) (ctx : Context) (I : Store → Type 0)
    (Noted : String → Bool → Type 0) (inv : Invariant w ctx.quote_id I Noted)
    (R : PrepareExecutionResponse → Type 0) where
  ask_approval-Spec :
      {A : Type 0} {F : A → Type 0} (p : Preparation) (response : PrepareExecutionResponse)
      (amount : ℤ)
      → Spec I R {A = A} (ask_approval evm abi w ctx p response amount) F
  unfolding ask_approval
  ask_approval-Spec p response amount =
      Spec-bind I R _ _ (confirmed-Spec evm abi w ctx I Noted inv R _ _) λ _ _.
        Spec-bind I R _ _ (unexpired-Spec evm abi w ctx I Noted inv R _ _ _) λ _ _.
          save_and_respond-Spec evm abi w ctx I Noted inv R _ _ _ (λ e. absurd (asks-ne-ready e))

  pub check_allowance-Spec :
      (p : Preparation) (response : PrepareExecutionResponse) (allowance : ℕ) (amount : ℤ)
      → Spec I R
          (check_allowance evm abi w ctx p response allowance amount)
          (λ _. ltb_ℤ (pos allowance) amount ≡ false)
  unfolding check_allowance
  check_allowance-Spec p response allowance amount =
      Spec-weaken I R (λ _. false_of_not _)
        (Spec-unless I R (not (ltb_ℤ (pos allowance) amount)) _ (
          Spec-bind I R _ _ (Spec-unless I R _ _ (Spec-result I R _ _ requote-ne-ready))
            λ _ _. ask_approval-Spec p response amount))

  pub noted_allowance-Spec :
      (p : Preparation) (response : PrepareExecutionResponse) (required : Bool)
      → Spec I R
          (noted_allowance evm abi w ctx p response required)
          (Recorded ctx Noted (response.recipient ++ p.spender) p.approval)
  unfolding noted_allowance
  noted_allowance-Spec p response required =
      Spec-if I R ctx.recheck (pure p.approval) _
        (λ e. Spec-pure I R p.approval ((λ f. cc), λ _. refl))
        (λ e.
          Spec-weaken I R (λ b n. ((λ _. n), λ f. cc))
            (note-Spec evm abi w ctx I Noted inv R _ _ (response.recipient ++ p.spender) required))

-- A Permit2 permission that was read at the block and covers the amount and the deadline, and what is
-- recorded of it.
pub record Held (evm : Evm) (abi : Contracts) (w : World) (ctx : Context)
    (Noted : String → Bool → Type 0) (p : Preparation) (response : PrepareExecutionResponse)
    (deadline : ℕ) (permission : PermissionPlan) (approval : Bool) : Type 0 where
  pub granted : ℕ × ℕ
  pub read :
      Decodes abi.permit2_allowance
        (ctx.reader.call
          (evm.hex_to_address permission.target)
          (abi.permit2_allowance_call
            (evm.hex_to_address response.recipient)
            (evm.hex_to_address permission.token)
            (evm.hex_to_address permission.spender))
          (evm.hex_to_hash ctx.snapshot.block_hash))
        granted
  pub covers :
      (ltb_ℤ (pos granted.0) permission.amount || ltb (granted.1 % 2 ^ 64) deadline) ≡ false
  pub recorded :
      ctx.recheck ≡ false
      → (previous : Bool) × Noted
          (response.recipient ++ (permission.target ++ permission.spender))
          previous
        × (approval ≡ (p.approval || previous))
  pub kept : ctx.recheck ≡ true → approval ≡ p.approval

module _ (evm : Evm) (abi : Contracts) (w : World) (ctx : Context) (Noted : String → Bool → Type 0)
    (p : Preparation) (response : PrepareExecutionResponse) (deadline : ℕ) where
  -- Where no permission is planned, the approval stays what it was.
  abbrev pub HeldIfPlanned : Option PermissionPlan → Bool → Type 0
  HeldIfPlanned none b = b ≡ p.approval
  HeldIfPlanned (some permission) b = Held evm abi w ctx Noted p response deadline permission b

module _ (evm : Evm) (abi : Contracts) (w : World) (ctx : Context) (I : Store → Type 0)
    (Noted : String → Bool → Type 0) (inv : Invariant w ctx.quote_id I Noted)
    (R : PrepareExecutionResponse → Type 0) where
  ask_permission-Spec :
      {A : Type 0} {F : A → Type 0} (p : Preparation) (permission : PermissionPlan)
      (response : PrepareExecutionResponse)
      → Spec I R {A = A} (ask_permission evm abi w ctx p permission response) F
  unfolding ask_permission
  ask_permission-Spec p permission response =
      Spec-bind I R _ _ (confirmed-Spec evm abi w ctx I Noted inv R _ _) λ _ _.
        Spec-bind I R _ _ (unexpired-Spec evm abi w ctx I Noted inv R _ _ _) λ _ _.
          save_and_respond-Spec evm abi w ctx I Noted inv R _ _ _ (λ e. absurd (asks-ne-ready e))

  refuse_permission-Spec :
      {F : Unit → Type 0} (p : Preparation) (permission : PermissionPlan)
      (response : PrepareExecutionResponse)
      → Spec I R (refuse_permission evm abi w ctx p permission response) F
  unfolding refuse_permission
  refuse_permission-Spec p permission response =
      Spec-bind I R _ _ (Spec-unless I R _ _ (Spec-result I R _ _ requote-ne-ready)) λ _ _.
        Spec-bind I R _ _ (Spec-unless I R _ _ (Spec-result I R _ _ requote-ne-ready)) λ _ _.
          Spec-bind I R _ _ (Spec-unless I R _ _ (Spec-result I R _ _ requote-ne-ready))
            λ _ _. ask_permission-Spec p permission response

  abbrev key_of : PrepareExecutionResponse → PermissionPlan → String
  key_of response permission = response.recipient ++ (permission.target ++ permission.spender)

  abbrev NotedPermission : Preparation → String → Bool → Type 0
  NotedPermission p key b =
      (ctx.recheck ≡ false
        → (previous : Bool) × Noted key previous × (b ≡ (p.approval || previous)))
      × (ctx.recheck ≡ true → b ≡ p.approval)

  noted_permission-Spec :
      (p : Preparation) (permission : PermissionPlan) (response : PrepareExecutionResponse)
      (required : Bool)
      → Spec I R
          (noted_permission evm abi w ctx p permission response required)
          (NotedPermission p (key_of response permission))
  unfolding noted_permission
  noted_permission-Spec p permission response required =
      Spec-if I R ctx.recheck (pure p.approval) _
        (λ e. Spec-pure I R p.approval ((λ f. absurd_of e f), λ _. refl))
        (λ e.
          Spec-bind I R _ _
            (note-Spec evm abi w ctx I Noted inv R _ _ (key_of response permission) required)
            (λ previous n.
              Spec-pure I R (p.approval || previous) ((λ _. (previous, n, refl)), λ f. cc)))
    where
      absurd_of : {T : Type 0} → ctx.recheck ≡ true → ctx.recheck ≡ false → T
      absurd_of e f = cc

  read_permission-Spec :
      (permission : PermissionPlan) (response : PrepareExecutionResponse)
      → Spec I R (read_permission evm abi w ctx permission response) (
          Decodes abi.permit2_allowance (
            ctx.reader.call
              (evm.hex_to_address permission.target)
              (abi.permit2_allowance_call
                (evm.hex_to_address response.recipient)
                (evm.hex_to_address permission.token)
                (evm.hex_to_address permission.spender))
              (block_hash evm abi w ctx)))
  unfolding read_permission
  read_permission-Spec permission response = decoded-Spec evm abi w ctx I Noted inv R _ _ _

  pub check_permission-Spec :
      (p : Preparation) (planned : Option PermissionPlan) (response : PrepareExecutionResponse)
      (deadline : ℕ)
      → Spec I R
          (check_permission evm abi w ctx p planned response deadline)
          (HeldIfPlanned evm abi w ctx Noted p response deadline planned)
  unfolding check_permission
  check_permission-Spec p none response deadline = Spec-pure I R p.approval refl
  check_permission-Spec p (some permission) response deadline =
      Spec-bind I R _ _ (read_permission-Spec permission response) λ granted read.
        Spec-bind I R _ _ (noted_permission-Spec p permission response _) λ approval noted.
          Spec-bind I R _ _
            (Spec-unless I R (not (lacks_permission evm abi w ctx permission deadline granted)) _
              (refuse_permission-Spec _ permission response))
            λ _ covers. Spec-pure I R approval (record {
              granted = granted;
              read = read;
              covers = false_of_not _ covers;
              recorded = noted.0;
              kept = noted.1;
            })
