-- ===== src/Executor/Probes.antt =====
-- executor.go, `executorChecks`: the balances and the allowances that a simulation has to keep.
use epeius.Prelude.{
  String, Bool, true, false, ◌&&◌, Option, none, some, List, [], ◌∷◌, ◌++◌, if◌then◌else◌,
}
use epeius.Prelude.Dict.{Dict, lookup}
use epeius.Wire.{RouteLeg, QuotedAllocation, UnsignedTransaction}
use epeius.Store.{BalanceProbe, AllowanceProbe, SimulationChecks}
use epeius.Executor.{equal_fold}

unfoldable pub same_probe : BalanceProbe → BalanceProbe → Bool
same_probe existing p = equal_fold existing.token p.token && equal_fold existing.owner p.owner

unfoldable pub has_probe : List BalanceProbe → BalanceProbe → Bool
has_probe [] p = false
has_probe (existing ∷ probes) p =
    let rest = has_probe probes p in if same_probe existing p then true else rest

-- `add`, where `first` is `probes[:2]` and the list is `probes[2:]`.
unfoldable pub add_probe : List BalanceProbe → List BalanceProbe → BalanceProbe → List BalanceProbe
add_probe first probes p = if has_probe (first ++ probes) p then probes else probes ++ (p ∷ [])

unfoldable pub add_owners :
    List BalanceProbe → String → List String → List BalanceProbe → List BalanceProbe
add_owners first token [] probes = probes
add_owners first token (owner ∷ owners) probes =
    add_owners first token owners (add_probe first probes (record { token = token; owner = owner }))

unfoldable pub add_legs :
    List BalanceProbe → List String → List RouteLeg → List BalanceProbe → List BalanceProbe
add_legs first owners [] probes = probes
add_legs first owners (leg ∷ legs) probes =
    add_legs first owners legs
      (add_owners first leg.token_out owners (add_owners first leg.token_in owners probes))

unfoldable pub or_empty : Option String → String
or_empty none = ""
or_empty (some text) = text

-- routers[id]
abbrev pub router_of : Dict String → String → String
router_of routers id = or_empty (lookup id routers)

unfoldable pub add_allocations :
    List BalanceProbe
    → UnsignedTransaction
    → Dict String
    → List QuotedAllocation
    → List BalanceProbe
    → List BalanceProbe
add_allocations first tx routers [] probes = probes
add_allocations first tx routers (a ∷ allocations) probes =
    add_allocations first tx routers allocations (
      add_legs first (tx.from ∷ tx.to ∷ router_of routers a.route.deployment_id ∷ []) a.route.legs
        probes)

unfoldable pub leg_allowances : String → String → List RouteLeg → List AllowanceProbe
leg_allowances owner spender [] = []
leg_allowances owner spender (leg ∷ legs) =
    record { token = leg.token_in; owner = owner; spender = spender }
    ∷ leg_allowances owner spender legs

unfoldable pub clear_allowances :
    UnsignedTransaction → Dict String → List QuotedAllocation → List AllowanceProbe
clear_allowances tx routers [] = []
clear_allowances tx routers (a ∷ allocations) =
    leg_allowances tx.to (router_of routers a.route.deployment_id) a.route.legs
    ++ clear_allowances tx routers allocations

unfoldable pub last_token : RouteLeg → List RouteLeg → String
last_token leg [] = leg.token_out
last_token leg (next ∷ legs) = last_token next legs

-- executorChecks, for a first route that has a leg.
unfoldable pub executor_checks :
    UnsignedTransaction
    → Dict String
    → RouteLeg
    → List RouteLeg
    → List QuotedAllocation
    → SimulationChecks
executor_checks tx routers leg legs allocations =
    let input : BalanceProbe = record { token = leg.token_in; owner = tx.from } in
    let output : BalanceProbe = record { token = last_token leg legs; owner = tx.from } in
    record {
      input = input;
      output = output;
      preserve = add_allocations (input ∷ output ∷ []) tx routers allocations [];
      clear_allowances = clear_allowances tx routers allocations;
    }
