-- ===== src/Execution/Terms.antt =====
-- execution.go: where the terms of a preparation come from.
use epeius.Prelude.{
  ◌+◌, String, Bool, true, false, not, ◌&&◌, ◌||◌, Option, none, some, List, [], ◌∷◌, ◌≡◌, inl, inr,
  refl, sym, ◌∙◌, is_empty, str_eq, str_eq_iff, ◌==◌, Bool-cases, if◌then◌else◌,
}
use epeius.Prelude.Int.{ℤ}
use epeius.Prelude.Dict.{lookup}
use epeius.Evm.{Evm}
use epeius.Wire.{RouteQuote, PrepareExecutionRequest, PrepareExecutionResponse}
use epeius.Wire.First.{IsFirst}
use mathlib.Core.Path.{subst}
use epeius.Prelude.Partial.{none-neq-some, some_injective, true-neq-false}
use epeius.Store.{Store, StoredQuote, Preparation, ExecutionPlan, retention, find, run}
use epeius.Engine.{
  Snapshot, Chain, Client, Handler, Admission, admitted, refused, ExecutionSelection,
  PreparationStrategy,
}
use epeius.Execution.Outcome.{◌>>=◌}
use epeius.Execution.Environment.{World, looked_up, quote_block, touch}
use epeius.Execution.Admit.{
  Source, again, fresh, choose, load, find_both, chain_key, execution_client, enabled_chain,
  find_chain, usable_block, read_block, terms_response, built, selected, build_preparation,
  with_strategy, by_route, prepare_quote, terms, find_route,
}
use epeius.Execution.Spec.{
  Spec, Spec-pure, Spec-result, Spec-invalid, Spec-some_or_panic, Spec-unless, Spec-bind, Spec-if,
  Spec-weaken, Holds,
}
use epeius.Execution.Stages.{Invariant, requote-ne-ready, rejected-ne-ready}

-- The strategy for allocations where no route is named, or that of the named route's deployment.
abbrev pub Chosen :
    StoredQuote → PrepareExecutionRequest → Chain → Option RouteQuote → PreparationStrategy → Type 0
Chosen saved r chain none strategy =
    (is_empty r.route_id ≡ true) × (chain.allocation_preparer ≡ some strategy)
Chosen saved r chain (some route) strategy =
    (is_empty r.route_id ≡ false)
    × IsFirst r.route_id saved.final.routes route
    × (lookup route.deployment_id chain.preparers ≡ some strategy)

-- The chain's strategy admitted the quote, and built the plan for the response that states its terms.
pub record Built (evm : Evm) (w : World) (saved : StoredQuote) (r : PrepareExecutionRequest)
    (on : Chain) (snapshot : Snapshot) (p : Preparation) : Type 0 where
  pub strategy : PreparationStrategy
  pub route : Option RouteQuote
  pub chosen : Chosen saved r on route strategy
  pub selection : ExecutionSelection
  pub output : ℤ
  pub selects : strategy.select saved r route ≡ admitted selection
  pub output_read : selection.output ≡ some output
  pub response : p.response ≡ terms_response evm w saved r selection output snapshot.timestamp
  pub builds : strategy.build p.response ≡ admitted p.plan
  pub chain : p.chain ≡ saved.request.chain
  pub expires : p.expires ≡ w.clock looked_up + retention
  pub unapproved : p.approval ≡ false

abbrev pub quote_snapshot : StoredQuote → Snapshot
quote_snapshot saved = record {
  key = "";
  chain_id = "";
  block_number = saved.final.block.number;
  block_hash = saved.final.block.hash;
  timestamp = 0;
}

abbrev pub Origin :
    Evm → World → PrepareExecutionRequest → Chain → Snapshot → Source → Preparation → Type 0
Origin evm w r chain snapshot (again stored) p = p ≡ stored
Origin evm w r chain snapshot (fresh saved) p =
    (w.canonical quote_block (quote_snapshot saved) ≡ true) × Built evm w saved r chain snapshot p

-- What the handler takes of a quote and a preparation that it found.
abbrev pub Takes :
    PrepareExecutionRequest → Option StoredQuote → Option Preparation → Source → Type 0
Takes r q p (again stored) = p ≡ some stored
Takes r q p (fresh saved) = (q ≡ some saved) × (p ≡ none) × (is_empty r.preparation_id ≡ true)

-- The source is what the store holds under the request's IDs when it is looked up.
abbrev pub Loaded : World → PrepareExecutionRequest → Store → Source → Type 0
Loaded w r s source =
    Takes r (find r.quote_id r.preparation_id (w.clock looked_up) (run (w.others looked_up) s)).0
      (find r.quote_id r.preparation_id (w.clock looked_up) (run (w.others looked_up) s)).1 source

find_route-IsFirst :
    (id : String) (routes : List RouteQuote) (route : RouteQuote)
    → find_route id routes ≡ some route
    → IsFirst id routes route
unfolding find_route
find_route-IsFirst id [] route h = absurd (none-neq-some h)
find_route-IsFirst id (other ∷ routes) route h = elim (Bool-cases (str_eq other.route_id id)) [
  | inl t ↦ inl (
    (str_eq_iff other.route_id id).0 t,
    some_injective (subst (λ b. (if b then some other else find_route id routes) ≡ some route) t h),
  )
  | inr f ↦ inr (
    λ same. true-neq-false (sym ((str_eq_iff other.route_id id).1 same) ∙ f),
    find_route-IsFirst id routes route
        (subst (λ b. (if b then some other else find_route id routes) ≡ some route) f h),
  )
]

-- The chain is enabled and has a client that can check a block; the block is of this chain.
pub record Enabled (h : Handler) (key : String) (chain : Chain) (client : Client) : Type 0 where
  pub configured : lookup key h.chains ≡ some chain
  pub enabled : chain.config.execution_enabled ≡ true
  pub connected : chain.client ≡ some client
  pub checks : (client.is_execution_reader && h.has_simulator) ≡ true

module _ (evm : Evm) (h : Handler) (w : World) (r : PrepareExecutionRequest) (I : Store → Type 0)
    (Noted : String → Bool → Type 0) (inv : Invariant w r.quote_id I Noted)
    (R : PrepareExecutionResponse → Type 0) where
  choose-Spec :
      (q : Option StoredQuote) (p : Option Preparation) → Spec I R (choose r q p) (Takes r q p)
  unfolding choose
  choose-Spec q (some p) =
      Spec-bind I R _ _ (Spec-unless I R _ _ (Spec-result I R _ _ requote-ne-ready))
        λ _ _. Spec-pure I R (again p) refl
  choose-Spec none none = Spec-result I R _ _ requote-ne-ready
  choose-Spec (some q) none =
      Spec-bind I R _ _ (Spec-unless I R _ _ (Spec-result I R _ _ requote-ne-ready))
        λ _ e. Spec-pure I R (fresh q) (refl, refl, e)

  pub load-Loaded : (s : Store) → I s → Holds I R (Loaded w r s) (load w r s)
  unfolding load find_both touch ◌>>=◌
  load-Loaded s i =
      (choose-Spec
          (find r.quote_id r.preparation_id (w.clock looked_up) (run (w.others looked_up) s)).0
          (find r.quote_id r.preparation_id (w.clock looked_up) (run (w.others looked_up) s)).1).at
        _
        (inv.after_find r.quote_id r.preparation_id (w.clock looked_up) _
          (inv.after_others looked_up s i))

  execution_client-Spec :
      (key : String) (chain : Chain) (found : Option Client)
      → lookup key h.chains ≡ some chain
      → chain.config.execution_enabled ≡ true
      → chain.client ≡ found
      → Spec I R (execution_client h chain found) (λ both. Enabled h key both.0 both.1)
  unfolding execution_client
  execution_client-Spec key chain none configured enabled connected =
      Spec-result I R _ _ rejected-ne-ready
  execution_client-Spec key chain (some client) configured enabled connected =
      Spec-bind I R _ _ (Spec-unless I R _ _ (Spec-result I R _ _ rejected-ne-ready)) λ _ checks.
        Spec-pure I R (chain, client)
          (record {
            configured = configured;
            enabled = enabled;
            connected = connected;
            checks = checks;
          })

  enabled_chain-Spec :
      (key : String) (found : Option Chain)
      → lookup key h.chains ≡ found
      → Spec I R (enabled_chain h found) (λ both. Enabled h key both.0 both.1)
  unfolding enabled_chain
  enabled_chain-Spec key none e = Spec-result I R _ _ rejected-ne-ready
  enabled_chain-Spec key (some chain) e =
      Spec-bind I R _ _ (Spec-unless I R _ _ (Spec-result I R _ _ rejected-ne-ready))
        λ _ enabled. execution_client-Spec key chain chain.client e enabled refl

  pub find_chain-Spec :
      (source : Source)
      → Spec I R (find_chain h source) (λ both. Enabled h (chain_key source) both.0 both.1)
  unfolding find_chain
  find_chain-Spec source = enabled_chain-Spec (chain_key source) _ refl

  abbrev pub Usable : Chain → Snapshot → Type 0
  Usable chain snapshot =
      (w.snapshot ≡ some snapshot)
      × (not (snapshot.timestamp == 0 || not (str_eq snapshot.chain_id chain.chain_id)) ≡ true)

  usable_block-Spec :
      (chain : Chain) (found : Option Snapshot)
      → w.snapshot ≡ found
      → Spec I R (usable_block chain found) (Usable chain)
  unfolding usable_block
  usable_block-Spec chain none e = Spec-result I R _ _ rejected-ne-ready
  usable_block-Spec chain (some snapshot) e =
      Spec-bind I R _ _ (Spec-unless I R _ _ (Spec-result I R _ _ rejected-ne-ready))
        λ _ ok. Spec-pure I R snapshot (e, ok)

  pub read_block-Spec : (chain : Chain) → Spec I R (read_block w chain) (Usable chain)
  unfolding read_block
  read_block-Spec chain = usable_block-Spec chain w.snapshot refl

  module _ (saved : StoredQuote) (chain : Chain) (snapshot : Snapshot) where
    built-Spec :
        (strategy : PreparationStrategy) (route : Option RouteQuote)
        (selection : ExecutionSelection) (output : ℤ) (plan : Admission ExecutionPlan)
        → Chosen saved r chain route strategy
        → strategy.select saved r route ≡ admitted selection
        → selection.output ≡ some output
        → strategy.build (terms_response evm w saved r selection output snapshot.timestamp) ≡ plan
        → Spec I R
            (built evm w saved r
              (terms_response evm w saved r selection output snapshot.timestamp)
              plan)
            (Built evm w saved r chain snapshot)
    unfolding built
    built-Spec strategy route selection output (refused message) chosen selects read builds =
        Spec-result I R _ _ rejected-ne-ready
    built-Spec strategy route selection output (admitted plan) chosen selects read builds =
        Spec-pure I R _ (record {
          strategy = strategy;
          route = route;
          chosen = chosen;
          selection = selection;
          output = output;
          selects = selects;
          output_read = read;
          response = refl;
          builds = builds;
          chain = refl;
          expires = refl;
          unapproved = refl;
        })

    selected-Spec :
        (strategy : PreparationStrategy) (route : Option RouteQuote)
        (selection : Admission ExecutionSelection)
        → Chosen saved r chain route strategy
        → strategy.select saved r route ≡ selection
        → Spec I R
            (selected evm w saved r strategy snapshot.timestamp selection)
            (Built evm w saved r chain snapshot)
    unfolding selected
    selected-Spec strategy route (refused message) chosen e = Spec-result I R _ _ rejected-ne-ready
    selected-Spec strategy route (admitted selection) chosen e =
        Spec-bind I R _ _ (Spec-some_or_panic I R {F = λ o. selection.output ≡ some o} _ (λ a e. e))
          λ output read. built-Spec strategy route selection output _ chosen e read refl

    with_strategy-Spec :
        (strategy : Option PreparationStrategy) (route : Option RouteQuote)
        → ((s : PreparationStrategy) → strategy ≡ some s → Chosen saved r chain route s)
        → Spec I R
            (with_strategy evm w saved r strategy route snapshot.timestamp)
            (Built evm w saved r chain snapshot)
    unfolding with_strategy build_preparation
    with_strategy-Spec none route chosen = Spec-result I R _ _ rejected-ne-ready
    with_strategy-Spec (some strategy) route chosen =
        selected-Spec strategy route _ (chosen strategy refl) refl

    by_route-Spec :
        (route : Option RouteQuote)
        → is_empty r.route_id ≡ false
        → find_route r.route_id saved.final.routes ≡ route
        → Spec I R
            (by_route evm w saved r chain route snapshot.timestamp)
            (Built evm w saved r chain snapshot)
    unfolding by_route
    by_route-Spec none named found = Spec-invalid I R
    by_route-Spec (some route) named found =
        with_strategy-Spec _ (some route)
          (λ s e. (named, find_route-IsFirst r.route_id saved.final.routes route found, e))

    prepare_quote-Spec :
        Spec I R
          (prepare_quote evm w saved r chain snapshot)
          (Origin evm w r chain snapshot (fresh saved))
    unfolding prepare_quote
    prepare_quote-Spec =
        Spec-bind I R _ _ (Spec-unless I R _ _ (Spec-result I R _ _ requote-ne-ready))
          λ _ canonical.
            Spec-weaken I R (λ p b. (canonical, b))
              (Spec-if I R (is_empty r.route_id)
                (with_strategy evm w saved r chain.allocation_preparer none snapshot.timestamp) _
                (λ e. with_strategy-Spec chain.allocation_preparer none (λ s f. (e, f)))
                (λ e. by_route-Spec _ e refl))

  pub terms-Spec :
      (chain : Chain) (snapshot : Snapshot) (source : Source)
      → Spec I R (terms evm w r chain snapshot source) (Origin evm w r chain snapshot source)
  unfolding terms
  terms-Spec chain snapshot (again p) = Spec-pure I R p refl
  terms-Spec chain snapshot (fresh saved) = prepare_quote-Spec saved chain snapshot
