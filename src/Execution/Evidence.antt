-- ===== src/Execution/Evidence.antt =====
-- execution.go: what stands behind an answer that is ready, as far as the checks of one preparation go.
use Prim.Native.String.{◌++◌}
use mathlib.Core.Path.{subst₂}
use epeius.Prelude.{
  ℕ, String, Bool, true, false, not, ◌&&◌, ◌||◌, Option, none, some, ◌≡◌, refl, ltb, is_empty, inl,
  inr, Bool-cases, sym, ◌∙◌,
}
use epeius.Prelude.Int.{ℤ, pos, ltb_ℤ}
use epeius.Prelude.Decimal.{set_string, parse_uint_value}
use epeius.Evm.{Evm, Contracts, Reader}
use epeius.Wire.{PrepareExecutionResponse}
use epeius.Store.{Store, Preparation, PermissionPlan}
use epeius.Execution.Environment.{
  World, Simulation, simulated, simulation_failed, simulation_block, simulation_expiry,
}
use epeius.Execution.Checks.{Context, verdict, read_allowance}
use epeius.Execution.Finish.{simulated_output, finish, check_preparation}
use epeius.Execution.Spec.{Spec, Spec-pure, Spec-result, Spec-some_or_panic, Spec-unless, Spec-bind}
use epeius.Execution.Stages.{
  Invariant, Decodes, requote-ne-ready, rejected-ne-ready, unexpired-Spec, confirmed-Spec,
  verified-Spec, in_time-Spec, decoded-Spec, save_and_respond-Spec,
}
use epeius.Execution.Answers.{
  Recorded, HeldIfPlanned, false_of_not, noted_allowance-Spec, check_allowance-Spec,
  check_permission-Spec,
}

module _ (evm : Evm) (abi : Contracts) (w : World) (ctx : Context) (Noted : String → Bool → Type 0)
    (p : Preparation) where
  abbrev pub deadline : ℕ
  deadline = parse_uint_value p.response.deadline_unix

  -- The simulation proved the transaction at the block, which is still canonical, in time.
  pub record Proved (amount : ℤ) (response : PrepareExecutionResponse) : Type 0 where
    pub minimum : ℤ
    pub minimum_read : set_string p.response.amount_out_minimum_atomic ≡ some minimum
    pub simulates :
        w.simulate p.transaction p.checks ctx.snapshot amount minimum
        ≡ simulated response.simulated_amount_out_atomic
    pub canonical : w.canonical simulation_block ctx.snapshot ≡ true
    pub unexpired : ltb (w.clock simulation_expiry) p.expires ≡ true
    pub transaction : response.transaction ≡ some p.transaction

  -- The plan's own verification, where it has one, finds no fault at the block.
  abbrev pub Accepts : Option (Reader → ℕ → String) → Type 0
  Accepts none = Unit
  Accepts (some verify) =
      is_empty (verify ctx.reader (evm.hex_to_hash ctx.snapshot.block_hash)) ≡ true

  pub verdict-Accepts :
      (o : Option (Reader → ℕ → String)) → is_empty (verdict evm abi w ctx o) ≡ true → Accepts o
  unfolding verdict
  verdict-Accepts none h = tt
  verdict-Accepts (some verify) h = h

  pub record Checked (response : PrepareExecutionResponse) : Type 0 where
    pub allowance : ℕ
    pub amount : ℤ
    pub accepted : Accepts p.verify
    pub timely : ltb ctx.snapshot.timestamp deadline ≡ true
    pub allowance_read :
        Decodes abi.allowance
          (ctx.reader.call
            (evm.hex_to_address p.response.token_in)
            (abi.allowance_call
              (evm.hex_to_address p.response.recipient)
              (evm.hex_to_address p.spender))
            (evm.hex_to_hash ctx.snapshot.block_hash))
          allowance
    pub amount_read : set_string p.response.amount_in_atomic ≡ some amount
    pub covers : ltb_ℤ (pos allowance) amount ≡ false
    pub unapproved : Recorded ctx Noted (p.response.recipient ++ p.spender) p.approval false
    pub permission :
        HeldIfPlanned evm abi w ctx Noted
          (record p { approval = false })
          p.response
          deadline
          p.permission
          false
    pub proof : Proved amount response

module _ (evm : Evm) (abi : Contracts) (w : World) (ctx : Context) (I : Store → Type 0)
    (Noted : String → Bool → Type 0) (inv : Invariant w ctx.quote_id I Noted)
    (R : PrepareExecutionResponse → Type 0) (p : Preparation) where
  simulated_output-Spec :
      (s : Simulation)
      → Spec I R (simulated_output evm abi w ctx s) (λ output. s ≡ simulated output)
  unfolding simulated_output
  simulated_output-Spec (simulated output) = Spec-pure I R output refl
  simulated_output-Spec (simulation_failed e) = Spec-result I R _ _ rejected-ne-ready

  finish-Spec :
      (b : Bool) (amount : ℤ)
      → ((response : PrepareExecutionResponse)
          → Proved evm abi w ctx Noted p amount response
          → R response)
      → Spec I R (finish evm abi w ctx (record p { approval = b }) p.response amount) (λ _. ⊥)
  unfolding finish
  finish-Spec b amount conclude =
      Spec-bind I R _ _
        (Spec-some_or_panic I R {F = λ m. set_string p.response.amount_out_minimum_atomic ≡ some m}
          _ (λ a e. e))
        λ minimum minimum_read. Spec-bind I R _ _ (simulated_output-Spec _) λ output simulates.
          Spec-bind I R _ _ (confirmed-Spec evm abi w ctx I Noted inv R _ _) λ _ canonical.
            Spec-bind I R _ _ (unexpired-Spec evm abi w ctx I Noted inv R _ _ _) λ _ unexpired.
              save_and_respond-Spec evm abi w ctx I Noted inv R _ _ _ λ _. conclude _ (record {
                minimum = minimum;
                minimum_read = minimum_read;
                simulates = simulates;
                canonical = canonical;
                unexpired = unexpired;
                transaction = refl;
              })

  or_false : (a b : Bool) → (a || b) ≡ false → a ≡ false
  or_false true b h = cc
  or_false false b h = refl

  -- An approval that the permission's check leaves unset was unset before it.
  unset_before :
      (b b' : Bool) (response : PrepareExecutionResponse) (d : ℕ) (planned : Option PermissionPlan)
      → HeldIfPlanned evm abi w ctx Noted (record p { approval = b }) response d planned b'
      → b' ≡ false
      → b ≡ false
  unset_before b b' response d none h e = cc
  unset_before b b' response d (some permission) h e = elim (Bool-cases ctx.recheck) [
    | inl again ↦ cc (h.kept again)
    | inr fresh ↦ let (previous, n, same) = h.recorded fresh in or_false b previous (sym same ∙ e)
  ]

  -- The checks go on to no other place: they answer, and an answer that is ready stands on all of
  -- them.
  pub check_preparation-Spec :
      ((response : PrepareExecutionResponse) → Checked evm abi w ctx Noted p response → R response)
      → Spec I R (check_preparation evm abi w ctx p) (λ _. ⊥)
  unfolding check_preparation read_allowance
  check_preparation-Spec conclude =
      Spec-bind I R _ _ (verified-Spec evm abi w ctx I Noted inv R p) λ _ accepted.
        Spec-bind I R _ _ (in_time-Spec evm abi w ctx I Noted inv R p _) λ _ in_time.
          Spec-bind I R _ _ (decoded-Spec evm abi w ctx I Noted inv R _ _ _)
            λ allowance allowance_read.
              Spec-bind I R _ _
                (Spec-some_or_panic I R {F = λ m. set_string p.response.amount_in_atomic ≡ some m} _
                  (λ a e. e))
                λ amount amount_read.
                  Spec-bind I R _ _
                    (noted_allowance-Spec evm abi w ctx I Noted inv R p p.response _)
                    λ b noted.
                      Spec-bind I R _ _
                        (check_allowance-Spec evm abi w ctx I Noted inv R _ p.response allowance
                          amount)
                        λ _ covers.
                          Spec-bind I R _ _
                            (check_permission-Spec evm abi w ctx I Noted inv R
                              (record p { approval = b }) p.permission p.response _)
                            λ b' held.
                              Spec-bind I R _ _
                                (Spec-unless I R (not b') _ (Spec-result I R _ _ requote-ne-ready))
                                λ _ unset. finish-Spec b' amount λ response proof.
                                  conclude response (record {
                                    allowance = allowance;
                                    amount = amount;
                                    accepted =
                                        verdict-Accepts evm abi w ctx Noted p p.verify accepted;
                                    timely = timely_of _ _ in_time;
                                    allowance_read = allowance_read;
                                    amount_read = amount_read;
                                    covers = covers;
                                    unapproved =
                                        rw
                                          (unset_before b b' _ _ p.permission held
                                            (false_of_not b' unset))
                                          at noted;
                                    permission =
                                        subst₂
                                          (λ x y.
                                            HeldIfPlanned evm abi w ctx Noted
                                              (record p { approval = x }) p.response
                                              (deadline evm abi w ctx Noted p) p.permission y)
                                          (unset_before b b' _ _ p.permission held
                                            (false_of_not b' unset))
                                          (false_of_not b' unset) held;
                                    proof = proof;
                                  })
    where
      timely_of : (a b : Bool) → (a && b) ≡ true → b ≡ true
      timely_of true b h = h
      timely_of false b h = cc
