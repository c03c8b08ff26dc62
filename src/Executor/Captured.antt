-- ===== src/Executor/Captured.antt =====
-- executor.go, `Build`: the routers and the configuration that a plan captures are those of the chain.
use mathlib.Core.Path.{subst}
use epeius.Prelude.{
  ℕ, String, ◌≡◌, ◌⊎◌, refl, sym, ap, ◌∙◌, false, Option, none, some, List, [], ◌∷◌, ◌++◌, map,
  str_eq, str_eq_iff, str_eq_refl, Bool-cases, inl, inr,
}
use epeius.Prelude.Dict.{Dict, lookup, insert, lookup-insert}
use epeius.Executor.Venues.{IsVenue}
use epeius.Prelude.Partial.{true-neq-false}
use epeius.Config
use epeius.Config.{Deployment, Executor}
use epeius.Evm.{Evm, Bytes, Read, Reader}
use epeius.Wire.{RouteLeg, RouteQuote, QuotedAllocation, UnsignedTransaction}
use epeius.Store.{AllowanceProbe}
use epeius.Executor.Probes.{leg_allowances, clear_allowances, or_empty, router_of}
use epeius.Verify.{
  Getter, Getters, router_text, executor_router, verify_executor_with, verify_executor,
}
use epeius.Executor.Build.{or_zero, config_snapshot, routers_of}

-- The router that the deployments name for this ID, or nothing.
abbrev pub configured_router : Dict Deployment → String → String
configured_router deployments id = (or_zero (lookup id deployments)).router

abbrev pub allowance_of : String → String → String → AllowanceProbe
allowance_of token owner spender = record { token = token; owner = owner; spender = spender }

-- The executor's allowance to the configured router is cleared in every input token.
abbrev pub allowances_of : Dict Deployment → String → List QuotedAllocation → List AllowanceProbe
allowances_of deployments owner [] = []
allowances_of deployments owner (a ∷ allocations) =
    map
      (λ (leg : RouteLeg).
        allowance_of leg.token_in owner (configured_router deployments a.route.deployment_id))
      a.route.legs
    ++ allowances_of deployments owner allocations

leg_allowances-eq :
    (owner spender : String) (legs : List RouteLeg)
    → leg_allowances owner spender legs
      ≡ map (λ (leg : RouteLeg). allowance_of leg.token_in owner spender) legs
unfolding leg_allowances
leg_allowances-eq owner spender [] = refl
leg_allowances-eq owner spender (leg ∷ legs) =
    ap (λ rest. allowance_of leg.token_in owner spender ∷ rest)
      (leg_allowances-eq owner spender legs)

module _ (deployments : Dict Deployment) where
  -- The map holds the configured router of this ID.
  abbrev pub Known : Dict String → String → Type 0
  Known routers id = lookup id routers ≡ some (configured_router deployments id)

  insert-Known :
      (k id : String) (routers : Dict String)
      → Known routers id
      → Known (insert k (configured_router deployments k) routers) id
  insert-Known k id routers h =
      lookup-insert k id (configured_router deployments k) routers
      ∙ elim (Bool-cases (str_eq k id)) [
        | inl same ↦
            rw same (ap (λ i. some (configured_router deployments i)) ((str_eq_iff k id).0 same))
        | inr other ↦ rw other h
      ]

  insert-Known_self :
      (k : String) (routers : Dict String)
      → Known (insert k (configured_router deployments k) routers) k
  insert-Known_self k routers =
      lookup-insert k k (configured_router deployments k) routers ∙ rw (str_eq_refl k) refl

  routers_of-Known :
      (id : String) (allocations : List QuotedAllocation) (routers : Dict String)
      → Known routers id
      → Known (routers_of deployments allocations routers) id
  unfolding routers_of
  routers_of-Known id [] routers h = h
  routers_of-Known id (a ∷ allocations) routers h =
      routers_of-Known id allocations _ (insert-Known a.route.deployment_id id routers h)

  abbrev pub AllKnown : Dict String → List QuotedAllocation → Type 0
  AllKnown routers [] = Unit
  AllKnown routers (a ∷ allocations) =
      Known routers a.route.deployment_id × AllKnown routers allocations

  pub routers_of-AllKnown :
      (allocations : List QuotedAllocation) (routers : Dict String)
      → AllKnown (routers_of deployments allocations routers) allocations
  unfolding routers_of
  routers_of-AllKnown [] routers = tt
  routers_of-AllKnown (a ∷ allocations) routers = (
    routers_of-Known a.route.deployment_id allocations _
        (insert-Known_self a.route.deployment_id routers),
    routers_of-AllKnown allocations _,
  )

module _ (e : Executor) (chain : Config.Chain) where
  abbrev pub Linked : String → Type 0
  Linked id = (id ≡ e.uniswap_deployment) ⊎ (id ≡ e.pancake_deployment)

  abbrev pub AllLinked : List QuotedAllocation → Type 0
  AllLinked [] = Unit
  AllLinked (a ∷ allocations) = Linked a.route.deployment_id × AllLinked allocations

  config_snapshot-lookup :
      (id : String)
      → Linked id
      → lookup id (config_snapshot chain e).deployments
        ≡ some (or_zero (lookup id chain.deployments))
  unfolding config_snapshot
  config_snapshot-lookup id linked =
      lookup-insert e.pancake_deployment id _ _
      ∙ elim (Bool-cases (str_eq e.pancake_deployment id)) [
        | inl same ↦ rw same (
            ap (λ i. some (or_zero (lookup i chain.deployments)))
              ((str_eq_iff e.pancake_deployment id).0 same))
        | inr other ↦ rw other (elim linked [
          | inl uniswap ↦
              subst
                (λ (i : String).
                  lookup i (
                    insert e.uniswap_deployment
                      (or_zero (lookup e.uniswap_deployment chain.deployments)) [])
                  ≡ some (or_zero (lookup i chain.deployments)))
                (sym uniswap)
                (lookup-insert e.uniswap_deployment e.uniswap_deployment _ []
                  ∙ rw (str_eq_refl e.uniswap_deployment) refl)
          | inr pancake ↦ absurd (
              true-neq-false (
                sym (str_eq_refl e.pancake_deployment)
                ∙ subst (λ (i : String). str_eq e.pancake_deployment i ≡ false) pancake other))
        ])
      ]

  pub clear_allowances-eq :
      (tx : UnsignedTransaction) (routers : Dict String) (allocations : List QuotedAllocation)
      → AllKnown (config_snapshot chain e).deployments routers allocations
      → AllLinked allocations
      → clear_allowances tx routers allocations ≡ allowances_of chain.deployments tx.to allocations
  unfolding clear_allowances or_empty or_zero
  clear_allowances-eq tx routers [] known linked = refl
  clear_allowances-eq tx routers (a ∷ allocations) (found, known) (link, linked) =
      let snapshot = config_snapshot-lookup a.route.deployment_id link in
      let router : router_of routers a.route.deployment_id
          ≡ configured_router chain.deployments a.route.deployment_id =
        ap or_empty found ∙ ap (λ o. (or_zero o).router) snapshot in
      ap (λ r. leg_allowances tx.to r a.route.legs ++ clear_allowances tx routers allocations)
        router
      ∙ ap (λ probes. probes ++ clear_allowances tx routers allocations)
          (leg_allowances-eq tx.to (configured_router chain.deployments a.route.deployment_id)
            a.route.legs)
      ∙ ap
          (λ rest.
            map
              (λ (leg : RouteLeg).
                allowance_of leg.token_in tx.to
                  (configured_router chain.deployments a.route.deployment_id))
              a.route.legs
            ++ rest)
          (clear_allowances-eq tx routers allocations known linked)

  pub IsVenue-Linked :
      (route : RouteQuote) (venue : ℕ)
      → IsVenue e chain.deployments route venue
      → Linked route.deployment_id
  IsVenue-Linked route venue v = elim v.numbered [
    | inl uniswap ↦ inl uniswap.0
    | inr pancake ↦ inr pancake.0
  ]

  executor_router-snapshot :
      (evm : Evm) (getters : Getters) (reader : Reader) (hash : ℕ) (g : Getter) (id : String)
      → Linked id
      → executor_router evm getters reader hash e g
          (lookup id (config_snapshot chain e).deployments)
        ≡ executor_router evm getters reader hash e g (lookup id chain.deployments)
  unfolding executor_router or_zero router_text
  executor_router-snapshot evm getters reader hash g id linked =
      ap (executor_router evm getters reader hash e g) (config_snapshot-lookup id linked)
      ∙ zero_or (lookup id chain.deployments)
    where
      zero_or :
          (o : Option Deployment)
          → executor_router evm getters reader hash e g (some (or_zero o))
            ≡ executor_router evm getters reader hash e g o
      zero_or none = refl
      zero_or (some d) = refl

  -- The captured values verify as the whole configuration does.
  pub verify_executor-snapshot :
      (evm : Evm) (getters : Getters) (reader : Reader) (hash : ℕ)
      → chain.executor ≡ some e
      → verify_executor evm getters reader hash (config_snapshot chain e)
        ≡ verify_executor evm getters reader hash chain
  unfolding verify_executor verify_executor_with config_snapshot
  verify_executor-snapshot evm getters reader hash of_executor =
      with_code reader.code
      ∙ ap (λ o. verify_executor_with evm getters reader hash chain.deployments o reader.code)
          (sym of_executor)
    where
      with_code :
          (code : Option (ℕ → ℕ → Read Bytes))
          → verify_executor_with evm getters reader hash
              (config_snapshot chain e).deployments
              (some e)
              code
            ≡ verify_executor_with evm getters reader hash chain.deployments (some e) code
      with_code none = refl
      with_code (some code) =
          rw
            (
              executor_router-snapshot evm getters reader hash getters.executor_uniswap_router
                  e.uniswap_deployment (inl refl),
              executor_router-snapshot evm getters reader hash getters.executor_pancake_router
                  e.pancake_deployment (inr refl),
            )
            refl
