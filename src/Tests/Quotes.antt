-- ===== src/Tests/Quotes.antt =====
-- `GetQuote` on a chain with one deployment of two candidates.
use epeius.Prelude.{
  ◌⊎◌, ◌≡◌, ◌≤◌, refl, arith, str_eq, if◌then◌else◌, true, false, none, some, List, [], ◌∷◌, length,
}
use epeius.Prelude.Int.{pos}
use epeius.Prelude.Dict.{lookup}
use epeius.Prelude.Sort.{sort_by, insert_sorted, text_less}
use epeius.Prelude.Decimal.{set_string, positive_integer}
use epeius.Config
use epeius.Config.{Token, Deployment}
use epeius.Evm.{Evm, valid_address}
use epeius.Wire.{QuoteFinal, RouteQuote}
use epeius.Store.{new_store}
use epeius.Engine.{Handler, Chain, Snapshot, ProtocolQuoter, quoted, quote_error}
use epeius.Search.{
  CandidateSource, Move, starts, replies, resumes, Pool, fresh_pool, first_of, next, answer,
  answered, pick, started, replied, resumed, start_worker, resume_worker, move, run_pool, done_of,
  is_done,
}
use epeius.Search.Tasks.{order_results, all_results}
use epeius.Search.Schedule.{search-eq, searched}
use epeius.Search.Progress.{work, CanRun, steps, IsFinished, GoesOn, search_completes}
use epeius.Search.Bounds.{run_pool_bound}
use epeius.Quoting.Checks.{
  passes, ◌>>=◌, QuoteWorld, require, required, find_requested_chain, check_pair, check_amount,
  is_uint256, is_allowed, snapshot_read, caller_goes_on,
}
use epeius.Quoting.Sources.{quote_sources, sources_of, add_source, empty_or}
use epeius.Quoting.Best.{BestOutput, best_of, best_of_rest, compare_route, replace_if, beats}
use epeius.Quoting.BestRoute.{NamesBest, best_of-NamesBest}
use epeius.Quoting.Schedules.{get_quote-eq}
use epeius.Quoting.Admitted.{IsAdmitted, get_quote_admits}
use epeius.Quoting.{
  quotes, get_quote, check_quote_request, quote_block, conclude, search, answer_checked,
  search_quotes, after_search, unless_caller_left, collect, answer_with, quote_final, save_final,
  routes_of, errors_of, present,
}
use epeius.Tests.Fixture.{route, quote_request, block, reader}

abbrev better : RouteQuote
better = record route { route_id = "uni:3000"; amount_out_atomic = "2500" }

abbrev sources : List CandidateSource
sources =
    record {
      kind = "uniswap-v3";
      waiting =
          record { id = "uni:500"; quote = quoted route }
          ∷ record { id = "uni:3000"; quote = quoted better }
          ∷ record { id = "uni:10000"; quote = quote_error "no pool" }
          ∷ [];
    }
    ∷ []

-- Two workers; the second quote comes back first, and the third before the first.
abbrev crossing : List Move
crossing = starts ∷ starts ∷ replies 0 ∷ resumes ∷ replies 0 ∷ resumes ∷ replies 0 ∷ resumes ∷ []

crossing_done : is_done (searched 2 sources crossing) ≡ true
unfolding run_pool move start_worker resume_worker started resumed replied pick next first_of
    fresh_pool is_done done_of
crossing_done = refl

crossing_live : (searched 2 sources crossing).cancelled ≡ false
unfolding run_pool move start_worker resume_worker started resumed replied pick next first_of
    fresh_pool
crossing_live = refl

search-eq_example : order_results (searched 2 sources crossing).results ≡ all_results sources
search-eq_example = search-eq 1 sources crossing crossing_done crossing_live

crossing-CanRun : CanRun (fresh_pool sources 2) crossing
unfolding run_pool move start_worker resume_worker started resumed replied pick next first_of
    fresh_pool
crossing-CanRun = (
  (1, refl),
  (
    (0, refl),
    (omega arith, ((0, refl), (omega arith, ((0, refl), (omega arith, ((0, refl), tt)))))),
  ),
)

search_completes_example :
    (steps crossing ≤ work (fresh_pool sources 2))
    × (IsFinished (run_pool crossing (fresh_pool sources 2))
        ⊎ GoesOn (run_pool crossing (fresh_pool sources 2)))
search_completes_example = search_completes (fresh_pool sources 2) crossing crossing-CanRun

run_pool_bound_example : length (run_pool crossing (fresh_pool sources 2)).quoting ≤ 2
run_pool_bound_example = run_pool_bound sources 2 crossing

route_number : set_string route.amount_out_atomic ≡ some (pos 2000)
unfolding set_string
route_number = refl

better_number : set_string better.amount_out_atomic ≡ some (pos 2500)
unfolding set_string
better_number = refl

best_of-NamesBest_example :
    (b : BestOutput) × (best_of (route ∷ better ∷ []) (record { output = none; route_id = none })
      ≡ some b)
    × NamesBest (route ∷ better ∷ []) b
best_of-NamesBest_example =
    best_of-NamesBest (route ∷ better ∷ [])
      ((pos 2000, route_number), ((pos 2500, better_number), tt))

-- Two tokens, told apart by their last digit.
abbrev two_tokens : Evm
two_tokens = record {
  is_hex_address = λ s. true;
  hex_to_address = λ s. if str_eq s "0x0a" then 10 else 11;
  address_hex = λ a. "0x0a";
  hex_to_hash = λ s. 9;
  is_hex_hash = λ s. true;
}

abbrev quoter : ProtocolQuoter
quoter = record {
  candidates = λ r b.
      record { id = "uni:500"; quote = quoted route }
      ∷ record { id = "uni:3000"; quote = quoted better }
      ∷ record { id = "uni:10000"; quote = quote_error "no pool" }
      ∷ [];
}

abbrev deployment : Deployment
deployment = record {
  kind = "uniswap-v3";
  factory = "0x01";
  quoter = "0x02";
  router = "0x03";
  fees = none;
  options = none;
  provider_config = Config.unset;
  configured_fields = [];
}

abbrev snapshot : Snapshot
snapshot = record {
  key = "base";
  chain_id = "8453";
  block_number = "100";
  block_hash = "0x64";
  timestamp = 1;
}

abbrev pub quoting_chain : Chain
quoting_chain = record {
  chain_id = "8453";
  client = some (record { reader = reader; is_execution_reader = false });
  snapshot = snapshot;
  error = "";
  config = record {
    chain_id = pos 8453;
    rpc_url_env = "RPC";
    execution_enabled = false;
    tokens =
        record { address = "0x0a"; symbol = "A"; decimals = 18 }
        ∷ record { address = "0x0b"; symbol = "B"; decimals = 6 }
        ∷ [];
    deployments = ("uni", deployment) ∷ ("off", deployment) ∷ [];
    executor = none;
  };
  deployment_errors = ("off", "no code") ∷ [];
  quoters = ("uni", quoter) ∷ [];
  allocation_requoters = [];
  deployment_verifiers = [];
  preparers = [];
  allocation_preparer = none;
}

abbrev quoting_handler : Handler
quoting_handler = record {
  chains = ("base", quoting_chain) ∷ [];
  has_store = false;
  has_simulator = false;
  quote_concurrency = pos 2;
}

abbrev quote_world : QuoteWorld
quote_world = record {
  snapshot = some snapshot;
  caller_after_snapshot = none;
  budget_spent = false;
  moves = crossing;
  caller_after_search = none;
  quote_id = "q1";
  started = 0;
  others = [];
  saved_at = 0;
}

abbrev quoted_final : QuoteFinal
quoted_final = record {
  quote_id = "q1";
  routes = route ∷ better ∷ [];
  errors =
      record { provider = "uniswap-v3"; route_id = none; message = "off: no code" }
      ∷ record { provider = "uniswap-v3"; route_id = some "uni:10000"; message = "no pool" }
      ∷ [];
  best_route_id = some "uni:3000";
  block = block;
  search_complete = true;
}

checked :
    check_quote_request two_tokens quoting_handler quote_world quote_request
    ≡ passes (quoting_chain, snapshot)
unfolding check_quote_request find_requested_chain check_pair check_amount snapshot_read require
    required ◌>>=◌ is_uint256 is_allowed set_string positive_integer lookup valid_address
checked = refl

abbrev quoting_pool : Pool
quoting_pool =
    search quoting_handler quote_world
      (quote_sources quoting_chain quote_request (quote_block snapshot)).sources

quoting_done : is_done quoting_pool ≡ true
unfolding search quote_sources sources_of add_source empty_or quote_block sort_by insert_sorted
    text_less lookup run_pool move start_worker resume_worker started resumed replied pick next
    first_of fresh_pool is_done done_of
quoting_done = refl

quoting_live : quoting_pool.cancelled ≡ false
unfolding search quote_sources sources_of add_source empty_or quote_block sort_by insert_sorted
    text_less lookup run_pool move start_worker resume_worker started resumed replied pick next
    first_of fresh_pool
quoting_live = refl

get_quote-eq_example :
    get_quote two_tokens quoting_handler quote_world quote_request new_store
    ≡ conclude quoting_handler quote_world quote_request
        (quote_block snapshot)
        (quote_sources quoting_chain quote_request (quote_block snapshot)).errors
        false
        (all_results (quote_sources quoting_chain quote_request (quote_block snapshot)).sources)
        new_store
get_quote-eq_example =
    get_quote-eq two_tokens quoting_handler quote_world quote_request new_store quoting_chain
      snapshot 1 refl checked quoting_done quoting_live refl

get_quote_run :
    get_quote two_tokens quoting_handler quote_world quote_request new_store
    ≡ quotes quoted_final new_store
unfolding get_quote answer_checked search_quotes after_search unless_caller_left collect conclude
    answer_with quote_final save_final routes_of errors_of present check_quote_request
    find_requested_chain check_pair check_amount snapshot_read require required ◌>>=◌ is_uint256
    is_allowed set_string positive_integer lookup valid_address caller_goes_on search quote_sources
    sources_of add_source empty_or quote_block sort_by insert_sorted text_less run_pool move
    start_worker resume_worker started resumed replied pick next first_of fresh_pool is_done done_of
    answered answer best_of best_of_rest compare_route replace_if beats
get_quote_run = refl

get_quote_admits_example :
    (admitted : Chain × Snapshot) × IsAdmitted two_tokens quoting_handler quote_request admitted.0
    × (quote_world.snapshot ≡ some admitted.1)
get_quote_admits_example =
    get_quote_admits two_tokens quoting_handler quote_world quote_request new_store new_store
      quoted_final get_quote_run
