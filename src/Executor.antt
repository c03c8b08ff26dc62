-- ===== src/Executor.antt =====
-- services/quote-engine/internal/quote/executor.go: the split of an input between two venues, and what
-- a simulation of it has to keep.
pub mod Venues
pub mod Legs
pub mod Plan
pub mod Sums
pub mod Selection
pub mod Probes
pub mod Folded
pub mod Build
pub mod Captured
pub mod Executed
pub mod Preserved
use epeius.Prelude.{
  ℕ, zero, suc, ◌+◌, ◌-◌, ◌*◌, ◌≤◌, ◌^◌, String, Bool, true, false, not, ◌&&◌, ◌||◌, Option, none,
  some, List, [], ◌∷◌, ◌++◌, map, ltb, leb, ◌==◌, is_empty, str_eq, length, codes, if◌then◌else◌,
}
use epeius.Prelude.Int.{ℤ, pos, ◌+ℤ◌, pos_part}
use epeius.Prelude.Decimal.{set_string, int_text, positive_integer}
use epeius.Prelude.Dict.{Dict, lookup}
use epeius.Evm.{Evm, valid_address}
use epeius.Wire.{
  Selector, RouteLeg, RouteQuote, RouteAllocation, QuotedAllocation, UnsignedTransaction,
  BlockContext, fee_pips, tick_spacing,
}
use epeius.Config
use epeius.Config.{Executor}
use epeius.Store.{StoredQuote, BalanceProbe, AllowanceProbe, SimulationChecks}
use epeius.Engine.{Chain, Admission, admitted, refused, ExecutionSelection}

-- strings.EqualFold where one of the texts is ASCII without `k` and `s`, as an address is.
unfoldable pub lower : ℕ → ℕ
lower c = if leb 65 c && leb c 90 then c + 32 else c

unfoldable pub fold_eq : List ℕ → List ℕ → Bool
fold_eq [] [] = true
fold_eq [] (b ∷ bs) = false
fold_eq (a ∷ more) [] = false
fold_eq (a ∷ more) (b ∷ bs) = let rest = fold_eq more bs in lower a == lower b && rest

unfoldable pub equal_fold : String → String → Bool
unfolding fold_eq lower
equal_fold a b = fold_eq (codes a) (codes b)

-- errExecutorRoute, errAllocationTotal and the other errors.
pub data AllocationError : Type 0 where
  executor_route allocation_total allocation_amount requote_failed : AllocationError

pub data Allocated {ℓ} (A : Type ℓ) : Type ℓ where
  allocated : A → Allocated A
  not_allocated : AllocationError → Allocated A

infixl 5 ◌>>=◌ ◌>>◌
unfoldable pub ◌>>=◌ {ℓ κ} :
    {A : Type ℓ} {B : Type κ} → Allocated A → (A → Allocated B) → Allocated B
◌>>=◌ (allocated a) f = f a
◌>>=◌ (not_allocated error) f = not_allocated error

abbrev pub ◌>>◌ {ℓ κ} : {A : Type ℓ} {B : Type κ} → Allocated A → Allocated B → Allocated B
m >> n = m >>= λ _. n

unfoldable pub require : Bool → AllocationError → Allocated (Unit {0})
require true error = allocated tt
require false error = not_allocated error

unfoldable pub required {ℓ} : {A : Type ℓ} → Option A → AllocationError → Allocated A
required (some a) error = allocated a
required none error = not_allocated error

-- executorVenue
unfoldable pub venue_at : Executor → RouteQuote → Config.Deployment → Option ℕ
venue_at e route d =
    if str_eq d.kind route.provider
    then if str_eq route.deployment_id e.uniswap_deployment && str_eq d.kind "uniswap-v3"
      then some 0
      else if str_eq route.deployment_id e.pancake_deployment && str_eq d.kind "pancake-v3"
      then some 1
      else none
    else none

unfoldable pub venue_in : Option Executor → RouteQuote → Option Config.Deployment → Option ℕ
venue_in none route d = none
venue_in (some e) route none = none
venue_in (some e) route (some d) = venue_at e route d

unfoldable pub executor_venue : Config.Chain → RouteQuote → Option ℕ
executor_venue chain route =
    venue_in chain.executor route (lookup route.deployment_id chain.deployments)

-- The first route of the quote with this ID.
unfoldable pub route_with : String → List RouteQuote → Option RouteQuote
route_with id [] = none
route_with id (route ∷ routes) =
    let rest = route_with id routes in if str_eq route.route_id id then some route else rest

unfoldable pub has_v3_fee : Option Selector → Bool
has_v3_fee none = false
has_v3_fee (some (fee_pips fee)) = ltb fee 1000000
has_v3_fee (some (tick_spacing spacing)) = false

-- The token that the legs lead to, each from where the one before it ended.
unfoldable pub follow_legs : Evm → String → List RouteLeg → Option String
follow_legs evm input [] = some input
follow_legs evm input (leg ∷ legs) =
    let rest = follow_legs evm leg.token_out legs in
    if has_v3_fee leg.selector
      && valid_address evm leg.token_in
      && valid_address evm leg.token_out
      && equal_fold input leg.token_in
    then rest
    else none

unfoldable pub is_member : ℕ → List ℕ → Bool
is_member v [] = false
is_member v (x ∷ xs) = let rest = is_member v xs in v == x || rest

abbrev message_of : Option String → String
message_of none = ""
message_of (some message) = message

abbrev is_set {ℓ} : {A : Type ℓ} → Option A → Bool
is_set none = false
is_set (some a) = true

unfoldable pub is_uint256 : ℤ → Bool
is_uint256 n = ltb (pos_part n) (2 ^ 256)

-- The checks of one allocation, of which the venues in `seen` are taken.
unfoldable pub admit_route :
    Evm → Chain → StoredQuote → List ℕ → String → Allocated (RouteQuote × ℕ)
unfolding is_member
admit_route evm chain saved seen route_id = do
  route ← required (route_with route_id saved.final.routes) executor_route
  require
      (is_set (lookup route.deployment_id chain.allocation_requoters)
        && is_empty (message_of (lookup route.deployment_id chain.deployment_errors))
        && leb 1 (length route.legs)
        && leb (length route.legs) 2)
      executor_route
  venue ← required (executor_venue chain.config route) executor_route
  require (not (is_member venue seen)) executor_route
  last ← required (follow_legs evm saved.request.token_in route.legs) executor_route
  require (equal_fold last saved.request.token_out) executor_route
  allocated (route, venue)

unfoldable pub admit_amount : String → Allocated ℤ
admit_amount text = do
  require (leb (length (codes text)) 78 && positive_integer text) allocation_amount
  amount ← required (set_string text) allocation_amount
  require (is_uint256 amount) allocation_amount
  allocated amount

-- The loop, with the total so far and the venues seen; the total at its end, and the result.
unfoldable pub admit_rest :
    Evm
    → Chain
    → StoredQuote
    → ℤ
    → List ℕ
    → List RouteAllocation
    → Allocated (ℤ × List QuotedAllocation)
admit_rest evm chain saved total seen [] = allocated (total, [])
admit_rest evm chain saved total seen (a ∷ requested) = do
  amount ← admit_amount a.amount_in_atomic
  (route, venue) ← admit_route evm chain saved seen a.route_id
  (final, result) ← admit_rest evm chain saved (total +ℤ amount) (venue ∷ seen) requested
  allocated (final, record { amount_in_atomic = int_text amount; route = route } ∷ result)

-- admitAllocations
unfoldable pub admit_allocations :
    Evm → Chain → StoredQuote → List RouteAllocation → Allocated (List QuotedAllocation)
admit_allocations evm chain saved requested = do
  require (is_set chain.config.executor && leb 1 (length requested) && leb (length requested) 2)
      executor_route
  (total, result) ← admit_rest evm chain saved (pos 0) [] requested
  require (str_eq (int_text total) saved.request.amount_in_atomic) allocation_total
  allocated result

-- quoteAllocations, once the plan is admitted.
unfoldable pub requoted : Admission RouteQuote → Allocated RouteQuote
requoted (admitted route) = allocated route
requoted (refused message) = not_allocated requote_failed

unfoldable pub requote_all :
    Chain → BlockContext → List QuotedAllocation → Allocated (List QuotedAllocation)
requote_all chain block [] = allocated []
requote_all chain block (a ∷ rest) = do
  requote ← required (lookup a.route.deployment_id chain.allocation_requoters) executor_route
  amount ← required (set_string a.amount_in_atomic) requote_failed
  route ← requoted (requote a.route amount block)
  others ← requote_all chain block rest
  allocated (record a { route = route } ∷ others)

unfoldable pub quote_allocations :
    Evm → Chain → StoredQuote → List RouteAllocation → Allocated (List QuotedAllocation)
quote_allocations evm chain saved requested = do
  result ← admit_allocations evm chain saved requested
  requote_all chain saved.final.block result
