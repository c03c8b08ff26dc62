-- ===== src/Quoting/Best.antt =====
-- services/quote-engine/internal/quote/handler.go, `GetQuote`: the loop that keeps the best route.
use epeius.Prelude.{String, Bool, true, false, Option, none, some, List, [], ◌∷◌}
use epeius.Prelude.Int.{ℤ, ltb_ℤ}
use epeius.Prelude.Decimal.{set_string}
use epeius.Wire.{RouteQuote}

-- `bestOutput` and `final.BestRouteId`; a nil output of a later comparison panics.
pub record BestOutput : Type 0 where
  pub output : Option ℤ
  pub route_id : Option String

-- `bestOutput == nil || output.Cmp(bestOutput) > 0`
unfoldable pub beats : Option ℤ → Option ℤ → Option Bool
beats output none = some true
beats none (some best) = none
beats (some output) (some best) = some (ltb_ℤ best output)

unfoldable pub replace_if : RouteQuote → Option ℤ → Option Bool → BestOutput → Option BestOutput
replace_if route output none best = none
replace_if route output (some false) best = some best
replace_if route output (some true) best =
    some (record { output = output; route_id = some route.route_id })

unfoldable pub compare_route : RouteQuote → BestOutput → Option BestOutput
compare_route route best =
    replace_if route (set_string route.amount_out_atomic)
      (beats (set_string route.amount_out_atomic) best.output) best

unfoldable pub best_of_rest :
    (BestOutput → Option BestOutput) → Option BestOutput → Option BestOutput
best_of_rest rest none = none
best_of_rest rest (some better) = rest better

unfoldable pub best_of : List RouteQuote → BestOutput → Option BestOutput
best_of [] best = some best
best_of (route ∷ routes) best = best_of_rest (best_of routes) (compare_route route best)
