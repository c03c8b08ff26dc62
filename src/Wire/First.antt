-- ===== src/Wire/First.antt =====
-- proto/epeius/quote/v1/quote.proto: the route that an ID names among the routes of a quote.
use epeius.Prelude.{String, List, [], ◌∷◌, ◌≡◌, ◌≢◌, ◌⊎◌}
use epeius.Wire.{RouteQuote}

-- The first route with this ID.
abbrev pub IsFirst : String → List RouteQuote → RouteQuote → Type 0
IsFirst id [] route = ⊥
IsFirst id (other ∷ routes) route =
    (other.route_id ≡ id) × (other ≡ route) ⊎ (other.route_id ≢ id) × IsFirst id routes route
