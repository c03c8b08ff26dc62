-- ===== src/Executor/Selection.antt =====
-- executor.go, `fixedExecutorPreparation.Select`: the quoted allocations and their output.
use epeius.Prelude.{
  ◌^◌, String, Bool, true, false, Option, none, some, List, [], ◌∷◌, ltb, if◌then◌else◌,
}
use epeius.Prelude.Int.{ℤ, pos, ◌+ℤ◌, pos_part, neg_part}
use epeius.Prelude.Decimal.{set_string}
use epeius.Evm.{Evm}
use epeius.Wire.{RouteAllocation, QuotedAllocation}
use epeius.Store.{StoredQuote}
use epeius.Engine.{Chain, Admission, admitted, refused, ExecutionSelection}
use epeius.Executor.{
  AllocationError, executor_route, allocation_total, allocation_amount, requote_failed, Allocated,
  allocated, not_allocated, quote_allocations,
}

unfoldable pub allocation_message : AllocationError → String
allocation_message executor_route = "Selected route is not supported by the configured executor."
allocation_message allocation_total = "Allocation inputs must sum to the quoted input amount."
allocation_message allocation_amount = "executor allocations could not be quoted"
allocation_message requote_failed = "executor allocations could not be quoted"

-- The sum of the outputs; an output that is no number is a nil that `Add` dereferences.
unfoldable pub add_outputs : ℤ → List QuotedAllocation → Option ℤ
add_outputs output [] = some output
add_outputs output (a ∷ rest) = elim (set_string a.route.amount_out_atomic) [
  | none ↦ none
  | some amount ↦ add_outputs (output +ℤ amount) rest
]

-- `BitLen() > 256`
unfoldable pub is_wide : ℤ → Bool
is_wide n =
    if ltb (pos_part n) (2 ^ 256)
    then (if ltb (neg_part n) (2 ^ 256) then false else true)
    else true

unfoldable pub with_output :
    List QuotedAllocation → Option ℤ → Option (Admission ExecutionSelection)
with_output allocations none = none
with_output allocations (some output) = some (
    if is_wide output
    then refused "invalid aggregate output"
    else admitted (record { route = none; allocations = allocations; output = some output }))

unfoldable pub select_from :
    Allocated (List QuotedAllocation) → Option (Admission ExecutionSelection)
select_from (not_allocated error) = some (refused (allocation_message error))
select_from (allocated allocations) = with_output allocations (add_outputs (pos 0) allocations)

-- Nothing where it panics.
unfoldable pub select_allocations :
    Evm → Chain → StoredQuote → List RouteAllocation → Option (Admission ExecutionSelection)
select_allocations evm chain saved requested =
    select_from (quote_allocations evm chain saved requested)
