-- ===== src/Executor/Venues.antt =====
-- executor.go, `executorVenue`: which of the executor's two deployments a route is of.
use mathlib.Core.Path.{subst}
use epeius.Prelude.{
  ◌&&◌, ℕ, String, ◌≡◌, ◌⊎◌, refl, sym, ap, Bool, true, false, Option, none, some, str_eq,
  str_eq_iff, split_and, inl, inr, if◌then◌else◌,
}
use epeius.Prelude.Dict.{Dict, lookup}
use epeius.Prelude.Partial.{none-neq-some, some_injective, true-neq-false}
use epeius.Config
use epeius.Config.{Deployment, Executor}
use epeius.Wire.{RouteQuote}
use epeius.Executor.{venue_at, venue_in, executor_venue}

-- The route is one of the executor's two deployments, of the kind that it calls by this number.
pub record IsVenue (e : Executor) (deployments : Dict Deployment) (route : RouteQuote) (venue : ℕ)
    : Type 0 where
  pub deployment : Deployment
  pub configured : lookup route.deployment_id deployments ≡ some deployment
  pub of_kind : deployment.kind ≡ route.provider
  pub numbered :
      (route.deployment_id ≡ e.uniswap_deployment) × (deployment.kind ≡ "uniswap-v3") × (venue ≡ 0)
      ⊎ (route.deployment_id ≡ e.pancake_deployment)
        × (deployment.kind ≡ "pancake-v3")
        × (venue ≡ 1)

-- The three tests of `venue_at`.
picked :
    (k u p : Bool) (venue : ℕ)
    → (if k then (if u then some 0 else if p then some 1 else none) else none) ≡ some venue
    → (k ≡ true) × ((u ≡ true) × (venue ≡ 0) ⊎ (p ≡ true) × (venue ≡ 1))
picked false u p venue h = absurd (none-neq-some h)
picked true true p venue h = (refl, inl (refl, sym (some_injective h)))
picked true false true venue h = (refl, inr (refl, sym (some_injective h)))
picked true false false venue h = absurd (none-neq-some h)

picked_first :
    (k u1 u2 p1 p2 : Bool) (venue : ℕ)
    → k ≡ true
    → u1 ≡ true
    → u2 ≡ true
    → venue ≡ 0
    → (if k then (if u1 && u2 then some 0 else if p1 && p2 then some 1 else none) else none)
      ≡ some venue
picked_first true true true p1 p2 venue h1 h2 h3 n = ap some (sym n)
picked_first true true false p1 p2 venue h1 h2 h3 n = absurd (true-neq-false (sym h3))
picked_first true false u2 p1 p2 venue h1 h2 h3 n = absurd (true-neq-false (sym h2))
picked_first false u1 u2 p1 p2 venue h1 h2 h3 n = absurd (true-neq-false (sym h1))

picked_second :
    (k u1 u2 p1 p2 : Bool) (venue : ℕ)
    → k ≡ true
    → u2 ≡ false
    → p1 ≡ true
    → p2 ≡ true
    → venue ≡ 1
    → (if k then (if u1 && u2 then some 0 else if p1 && p2 then some 1 else none) else none)
      ≡ some venue
picked_second true true false true true venue h1 h2 h3 h4 n = ap some (sym n)
picked_second true false u2 true true venue h1 h2 h3 h4 n = ap some (sym n)
picked_second true true true p1 p2 venue h1 h2 h3 h4 n = absurd (true-neq-false h2)
picked_second k u1 u2 false p2 venue h1 h2 h3 h4 n = absurd (true-neq-false (sym h3))
picked_second k u1 u2 p1 false venue h1 h2 h3 h4 n = absurd (true-neq-false (sym h4))
picked_second false u1 u2 p1 p2 venue h1 h2 h3 h4 n = absurd (true-neq-false (sym h1))

module _ (e : Executor) (chain : Config.Chain) where
  pub executor_venue-IsVenue :
      (route : RouteQuote) (venue : ℕ)
      → chain.executor ≡ some e
      → executor_venue chain route ≡ some venue
      → IsVenue e chain.deployments route venue
  unfolding executor_venue venue_in venue_at
  executor_venue-IsVenue route venue of_executor h =
      of_venue (lookup route.deployment_id chain.deployments) refl (
        subst (λ o. venue_in o route (lookup route.deployment_id chain.deployments) ≡ some venue)
          of_executor h)
    where
      of_venue :
          (o : Option Deployment)
          → lookup route.deployment_id chain.deployments ≡ o
          → venue_in (some e) route o ≡ some venue
          → IsVenue e chain.deployments route venue
      of_venue none found h = absurd (none-neq-some h)
      of_venue (some d) found h =
          let (kind, which) = picked _ _ _ venue h in
          record {
            deployment = d;
            configured = found;
            of_kind = (str_eq_iff d.kind route.provider).0 kind;
            numbered = elim which [
              | inl u ↦
                  let (id, uniswap) = split_and _ _ u.0 in
                  inl ((str_eq_iff _ _).0 id, (str_eq_iff _ _).0 uniswap, u.1)
              | inr p ↦
                  let (id, pancake) = split_and _ _ p.0 in
                  inr ((str_eq_iff _ _).0 id, (str_eq_iff _ _).0 pancake, p.1)
            ];
          }

  pub IsVenue-executor_venue :
      (route : RouteQuote) (venue : ℕ)
      → chain.executor ≡ some e
      → IsVenue e chain.deployments route venue
      → executor_venue chain route ≡ some venue
  unfolding executor_venue venue_in venue_at
  IsVenue-executor_venue route venue of_executor v =
      rw (of_executor, v.configured)
        (elim v.numbered [
          | inl (id, kind, number) ↦
              picked_first _ _ _ (str_eq route.deployment_id e.pancake_deployment)
                (str_eq v.deployment.kind "pancake-v3") venue ((str_eq_iff _ _).1 v.of_kind)
                ((str_eq_iff _ _).1 id) ((str_eq_iff _ _).1 kind) number
          | inr (id, kind, number) ↦
              picked_second _ _ _ _ _ venue ((str_eq_iff _ _).1 v.of_kind)
                (subst (λ (k : String). str_eq k "uniswap-v3" ≡ false) (sym kind) refl)
                ((str_eq_iff _ _).1 id) ((str_eq_iff _ _).1 kind) number
        ])

-- The route is on this venue of the chain's configured executor.
pub record HasVenue (chain : Config.Chain) (route : RouteQuote) (venue : ℕ) : Type 0 where
  pub executor : Executor
  pub configured : chain.executor ≡ some executor
  pub is_venue : IsVenue executor chain.deployments route venue

pub executor_venue-HasVenue :
    (chain : Config.Chain) (route : RouteQuote) (venue : ℕ)
    → executor_venue chain route ≡ some venue
    → HasVenue chain route venue
unfolding executor_venue venue_in
executor_venue-HasVenue chain route venue h = of chain.executor refl
  where
    of : (o : Option Executor) → chain.executor ≡ o → HasVenue chain route venue
    of none e = absurd (
        none-neq-some (
          subst
            (λ (x : Option Executor).
              venue_in x route (lookup route.deployment_id chain.deployments) ≡ some venue)
            e h))
    of (some executor) e = record {
      executor = executor;
      configured = e;
      is_venue = executor_venue-IsVenue executor chain route venue e h;
    }
