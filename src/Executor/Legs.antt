-- ===== src/Executor/Legs.antt =====
-- executor.go, `admitAllocations`: the route that an ID names, and where its legs lead.
use mathlib.Core.Path.{subst}
use epeius.Prelude.{
  ◌∙◌, inl, inr, str_eq, Bool-cases, if◌then◌else◌, split_and, ℕ, ◌<◌, String, ◌≡◌, refl, sym, Bool,
  true, false, Option, none, some, List, [], ◌∷◌, ltb→lt, str_eq_iff,
}
use epeius.Evm.{Evm, valid_address}
use epeius.Wire.{Selector, fee_pips, tick_spacing, RouteLeg, RouteQuote}
use epeius.Wire.First.{IsFirst}
use epeius.Prelude.Partial.{none-neq-some, some_injective, true-neq-false}
use epeius.Executor.{route_with, has_v3_fee, follow_legs, equal_fold}

pub route_with-IsFirst :
    (id : String) (routes : List RouteQuote) (route : RouteQuote)
    → route_with id routes ≡ some route
    → IsFirst id routes route
unfolding route_with
route_with-IsFirst id [] route h = absurd (none-neq-some h)
route_with-IsFirst id (other ∷ routes) route h = elim (Bool-cases (str_eq other.route_id id)) [
  | inl t ↦ inl (
    (str_eq_iff other.route_id id).0 t,
    some_injective (subst (λ b. (if b then some other else route_with id routes) ≡ some route) t h),
  )
  | inr f ↦ inr (
    λ same. true-neq-false (sym ((str_eq_iff other.route_id id).1 same) ∙ f),
    route_with-IsFirst id routes route
        (subst (λ b. (if b then some other else route_with id routes) ≡ some route) f h),
  )
]

-- A leg of a V3 pool, with a fee below 1000000 and with addresses, that starts at this token.
pub record StartsAt (evm : Evm) (token : String) (leg : RouteLeg) : Type 0 where
  pub fee : ℕ
  pub of_selector : leg.selector ≡ some (fee_pips fee)
  pub fee_below : fee < 1000000
  pub input : valid_address evm leg.token_in ≡ true
  pub output : valid_address evm leg.token_out ≡ true
  pub starts : equal_fold token leg.token_in ≡ true

-- Each leg starts where the one before it ended, and the last one ends at the second token.
abbrev pub Leads : Evm → String → String → List RouteLeg → Type 0
Leads evm from to [] = equal_fold from to ≡ true
Leads evm from to (leg ∷ legs) = StartsAt evm from leg × Leads evm leg.token_out to legs

has_v3_fee-some :
    (selector : Option Selector)
    → has_v3_fee selector ≡ true
    → (fee : ℕ) × (selector ≡ some (fee_pips fee)) × (fee < 1000000)
unfolding has_v3_fee
has_v3_fee-some none h = absurd (true-neq-false (sym h))
has_v3_fee-some (some (fee_pips fee)) h = (fee, refl, ltb→lt _ _ h)
has_v3_fee-some (some (tick_spacing spacing)) h = absurd (true-neq-false (sym h))

if-some :
    (b : Bool) (o : Option String) (last : String)
    → (if b then o else none) ≡ some last
    → (b ≡ true) × (o ≡ some last)
if-some true o last h = (refl, h)
if-some false o last h = absurd (none-neq-some h)

pub follow_legs-Leads :
    (evm : Evm) (from to last : String) (legs : List RouteLeg)
    → follow_legs evm from legs ≡ some last
    → equal_fold last to ≡ true
    → Leads evm from to legs
unfolding follow_legs
follow_legs-Leads evm from to last [] h ends =
    subst (λ x. equal_fold x to ≡ true) (sym (some_injective h)) ends
follow_legs-Leads evm from to last (leg ∷ legs) h ends =
    let (fits, rest) = if-some _ _ last h in
    let (valid, starts) = split_and _ _ fits in
    let (known, output) = split_and _ _ valid in
    let (priced, input) = split_and _ _ known in
    let (fee, of_selector, fee_below) = has_v3_fee-some leg.selector priced in
    (
      record {
        fee = fee;
        of_selector = of_selector;
        fee_below = fee_below;
        input = input;
        output = output;
        starts = starts;
      },
      follow_legs-Leads evm leg.token_out to last legs rest ends,
    )
