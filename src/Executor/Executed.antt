-- ===== src/Executor/Executed.antt =====
-- executor.go, `Build`: what a built plan of the executor calls, clears and verifies.
use mathlib.Core.Path.{subst}
use epeius.Prelude.{
  ℕ, String, ◌≡◌, ◌⊎◌, refl, sym, ap, Bool, Option, none, some, List, [], ◌∷◌, map, str_eq,
  str_eq_iff, Bool-cases, inl, inr, if◌then◌else◌,
}
use epeius.Prelude.Decimal.{set_string, parse_uint_value}
use epeius.Prelude.Partial.{some_injective, >>=-eq-some}
use epeius.Config
use epeius.Config.{Deployment, Executor}
use epeius.Evm.{Evm, Bytes, Reader}
use epeius.Wire.{get_fee_pips, RouteLeg, QuotedAllocation, PrepareExecutionResponse}
use epeius.Store.{ExecutionPlan}
use epeius.Engine.{Admission, admitted, refused}
use epeius.Executor.Probes.{executor_checks}
use epeius.Verify.{Getters, verify_executor}
use epeius.Executor.Build.{
  Allocation, ExecutorCalls, hop_of, encoded_allocations, executor_data, config_snapshot, call_of,
  verifier, plan_of, build_legs, build_allocations, build_executor, build_data, build,
}
use epeius.Executor.Captured.{
  allowances_of, AllLinked, routers_of-AllKnown, clear_allowances-eq, IsVenue-Linked,
  verify_executor-snapshot,
}
use epeius.Executor.Venues.{IsVenue, executor_venue-IsVenue, IsVenue-executor_venue}

module _ (c : ExecutorCalls) (evm : Evm) (getters : Getters) (chain_id : String)
    (chain : Config.Chain) (e : Executor) (of_executor : chain.executor ≡ some e) where
  -- Each allocation is encoded with its venue, its amount and the hops of its route.
  abbrev pub Encodes : List QuotedAllocation → List Allocation → Type 0
  Encodes [] [] = Unit
  Encodes [] (item ∷ items) = ⊥
  Encodes (a ∷ allocations) [] = ⊥
  Encodes (a ∷ allocations) (item ∷ items) =
      IsVenue e chain.deployments a.route item.venue
      × (item.amount_in ≡ set_string a.amount_in_atomic)
      × (item.hops
          ≡ map
              (λ (leg : RouteLeg). record {
                token_out = evm.hex_to_address leg.token_out;
                fee = get_fee_pips leg.selector;
              })
              a.route.legs)
      × Encodes allocations items

  encoded_allocations-Encodes :
      (allocations : List QuotedAllocation) (items : List Allocation)
      → encoded_allocations c evm getters chain_id chain allocations ≡ some items
      → Encodes allocations items
  unfolding encoded_allocations
  encoded_allocations-Encodes [] items h = subst (λ xs. Encodes [] xs) (some_injective h) tt
  encoded_allocations-Encodes (a ∷ allocations) items h =
      let (venue, of_venue, r1) = >>=-eq-some _ _ h in
      let (rest, of_rest, r2) = >>=-eq-some _ _ r1 in
      let here : Encodes (a ∷ allocations) (
          record {
            venue = venue;
            amount_in = set_string a.amount_in_atomic;
            hops = map (hop_of c evm getters chain_id chain) a.route.legs;
          }
          ∷ rest) =
        (
          executor_venue-IsVenue e chain a.route venue of_executor of_venue,
          refl,
          refl,
          encoded_allocations-Encodes allocations rest of_rest,
        ) in
      subst (λ xs. Encodes (a ∷ allocations) xs) (some_injective r2) here

  Encodes-encoded_allocations :
      (allocations : List QuotedAllocation) (items : List Allocation)
      → Encodes allocations items
      → encoded_allocations c evm getters chain_id chain allocations ≡ some items
  unfolding encoded_allocations
  Encodes-encoded_allocations [] [] h = refl
  Encodes-encoded_allocations [] (item ∷ items) h = elim h [ ]
  Encodes-encoded_allocations (a ∷ allocations) [] h = elim h [ ]
  Encodes-encoded_allocations (a ∷ allocations) (item ∷ items) (v, amount, hops, rest) =
      rw
        (
          IsVenue-executor_venue e chain a.route item.venue of_executor v,
          Encodes-encoded_allocations allocations items rest,
          sym amount,
          sym hops,
        )
        refl

  -- The executor's call cannot be packed for what the allocations are encoded as, if they are.
  abbrev pub Unencodable : PrepareExecutionResponse → Type 0
  Unencodable p =
      (items : List Allocation)
      → Encodes p.allocations items
      → c.execute (evm.hex_to_address p.token_in) (evm.hex_to_address p.token_out)
          (set_string p.amount_in_atomic) (set_string p.amount_out_minimum_atomic)
          (parse_uint_value p.deadline_unix) items
        ≡ none

  executor_data-Unencodable :
      (p : PrepareExecutionResponse)
      → executor_data c evm getters chain_id chain p ≡ none
      → Unencodable p
  unfolding executor_data
  executor_data-Unencodable p h items encodes =
      rw (Encodes-encoded_allocations p.allocations items encodes) at h

  Encodes-AllLinked :
      (allocations : List QuotedAllocation) (items : List Allocation)
      → Encodes allocations items
      → AllLinked e chain allocations
  Encodes-AllLinked [] items h = tt
  Encodes-AllLinked (a ∷ allocations) [] h = elim h [ ]
  Encodes-AllLinked (a ∷ allocations) (item ∷ items) (v, amount, hops, rest) =
      (IsVenue-Linked e chain a.route item.venue v, Encodes-AllLinked allocations items rest)

  -- A plan of one call of the executor by the recipient, which it verifies as the whole configuration.
  pub record IsExecution (p : PrepareExecutionResponse) (plan : ExecutionPlan) : Type 0 where
    pub items : List Allocation
    pub encodes : Encodes p.allocations items
    pub bytes : Bytes
    pub packed :
        c.execute
          (evm.hex_to_address p.token_in)
          (evm.hex_to_address p.token_out)
          (set_string p.amount_in_atomic)
          (set_string p.amount_out_minimum_atomic)
          (parse_uint_value p.deadline_unix)
          items
        ≡ some bytes
    pub calldata : plan.transaction.calldata ≡ c.encode_hex bytes
    pub to_executor : plan.transaction.to ≡ evm.address_hex (evm.hex_to_address e.address)
    pub from_recipient : plan.transaction.from ≡ p.recipient
    pub no_value : plan.transaction.value_atomic ≡ "0"
    pub on_chain : plan.transaction.chain_id ≡ chain_id
    pub spends : plan.spender ≡ plan.transaction.to
    pub no_permission : plan.permission ≡ none
    pub clears :
        plan.checks.clear_allowances
        ≡ allowances_of chain.deployments plan.transaction.to p.allocations
    pub verify : Reader → ℕ → String
    pub of_verify : plan.verify ≡ some verify
    pub verifies :
        (reader : Reader) (hash : ℕ)
        → verify reader hash ≡ (
            if verify_executor evm getters reader hash chain
            then ""
            else "executor verification failed")

  -- What `Build` answers: a refusal without a minimum or without calldata, or a plan as above.
  abbrev pub Executes : PrepareExecutionResponse → Option (Admission ExecutionPlan) → Type 0
  Executes p none = ⊥
  Executes p (some (refused message)) = (p.amount_out_minimum_atomic ≡ "0") ⊎ Unencodable p
  Executes p (some (admitted plan)) = IsExecution p plan

  module _ (p : PrepareExecutionResponse) (a : QuotedAllocation)
      (allocations : List QuotedAllocation) (leg : RouteLeg) (legs : List RouteLeg)
      (split : p.allocations ≡ a ∷ allocations) (first : a.route.legs ≡ leg ∷ legs) where
    plan_of-IsExecution :
        (bytes : Bytes)
        → executor_data c evm getters chain_id chain p ≡ some bytes
        → IsExecution p (
            plan_of c evm getters chain_id chain p e
              (call_of c evm getters chain_id chain p e bytes)
              leg
              legs)
    unfolding plan_of call_of executor_data executor_checks verifier
    plan_of-IsExecution bytes h =
        let (items, of_items, packed) =
          >>=-eq-some (encoded_allocations c evm getters chain_id chain p.allocations) _ h in
        let encodes = encoded_allocations-Encodes p.allocations items of_items in
        record {
          items = items;
          encodes = encodes;
          bytes = bytes;
          packed = packed;
          calldata = refl;
          to_executor = refl;
          from_recipient = refl;
          no_value = refl;
          on_chain = refl;
          spends = refl;
          no_permission = refl;
          clears =
              clear_allowances-eq e chain _ _ p.allocations
                (routers_of-AllKnown (config_snapshot chain e).deployments p.allocations [])
                (Encodes-AllLinked p.allocations items encodes);
          verify = verifier c evm getters chain_id chain e;
          of_verify = refl;
          verifies = λ reader hash.
              ap (λ (b : Bool). if b then "" else "executor verification failed")
                (verify_executor-snapshot e chain evm getters reader hash of_executor);
        }

    build_data-Executes :
        (o : Option Bytes)
        → executor_data c evm getters chain_id chain p ≡ o
        → Executes p (build_data c evm getters chain_id chain p o)
    unfolding build_data build_executor build_allocations build_legs
    build_data-Executes none h = inr (executor_data-Unencodable p h)
    build_data-Executes (some bytes) h =
        subst
          (λ (o : Option Executor).
            Executes p (build_executor c evm getters chain_id chain p bytes o))
          (sym of_executor)
          (subst (λ xs. Executes p (build_allocations c evm getters chain_id chain p bytes e xs))
            (sym split)
            (subst (λ ls. Executes p (build_legs c evm getters chain_id chain p bytes e ls))
              (sym first) (plan_of-IsExecution bytes h)))

-- `Build` of the executor's strategy, for allocations of which the first has a leg, on a chain with an
-- executor: it does not panic, and it refuses only a minimum of "0" or a call that cannot be packed. A
-- plan that it returns is one call of the executor by the recipient, without value or permission, with
-- each allocation's venue (of a configured deployment of that kind), amount and hops. A simulation has
-- to find the executor's allowance to the configured router of each allocation cleared in each input
-- token, and the plan's verification, which works on captured values, answers what the verification of
-- the chain's whole configuration does.
pub build-Executes :
    (c : ExecutorCalls) (evm : Evm) (getters : Getters) (chain_id : String) (chain : Config.Chain)
    (e : Executor) (of_executor : chain.executor ≡ some e) (p : PrepareExecutionResponse)
    (a : QuotedAllocation) (allocations : List QuotedAllocation) (leg : RouteLeg)
    (legs : List RouteLeg)
    → p.allocations ≡ a ∷ allocations
    → a.route.legs ≡ leg ∷ legs
    → Executes c evm getters chain_id chain e of_executor p (build c evm getters chain_id chain p)
unfolding build
build-Executes c evm getters chain_id chain e of_executor p a allocations leg legs split first =
    elim (Bool-cases (str_eq p.amount_out_minimum_atomic "0")) [
      | inl nothing ↦ rw nothing (inl ((str_eq_iff p.amount_out_minimum_atomic "0").0 nothing))
      | inr something ↦ rw something (
          build_data-Executes c evm getters chain_id chain e of_executor p a allocations leg legs
            split first _ refl)
    ]
