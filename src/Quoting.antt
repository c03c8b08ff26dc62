-- ===== src/Quoting.antt =====
-- services/quote-engine/internal/quote/handler.go: `GetQuote`.
pub mod Checks
pub mod Sources
pub mod Best
pub mod BestRoute
pub mod Schedules
pub mod Admitted
use epeius.Prelude.{
  ℕ, zero, suc, ◌+◌, ◌-◌, ◌≤◌, ◌^◌, String, Bool, true, false, not, ◌&&◌, ◌||◌, Option, none, some,
  List, [], ◌∷◌, ◌++◌, map, ltb, leb, ◌==◌, is_empty, str_eq, append, length, codes, if◌then◌else◌,
}
use epeius.Prelude.Int.{ℤ, pos, ltb_ℤ, pos_part}
use epeius.Prelude.Decimal.{set_string, positive_integer}
use epeius.Prelude.Dict.{Dict, lookup}
use epeius.Prelude.Sort.{sort_by, text_less}
use epeius.Prelude.Ordered.{by_key}
use epeius.Evm.{Evm, valid_address}
use epeius.Wire.{QuoteRequest, BlockContext, RouteQuote, ProviderError, QuoteFinal}
use epeius.Config
use epeius.Config.{Token}
use epeius.Store.{Store, Op, run, save_quote}
use epeius.Engine.{
  Chain, Client, Handler, Code, invalid_argument, failed_precondition, unavailable,
  deadline_exceeded, canceled, Snapshot, ProtocolQuoter,
}
use epeius.Search.{CandidateSource, Result, Pool, Move, fresh_pool, run_pool, is_done}
use epeius.Quoting.Checks.{
  Checked, passes, fails, ◌>>=◌, ◌>>◌, find_requested_chain, check_pair, check_amount,
  snapshot_read, caller_goes_on, QuoteWorld,
}
use epeius.Quoting.Sources.{QuoteSources, quote_sources}
use epeius.Quoting.Best.{BestOutput, best_of}

-- The routes and the errors of the results, in order.
unfoldable pub present {ℓ} : {A : Type ℓ} → Option A → List A → List A
present none rest = rest
present (some a) rest = a ∷ rest

unfoldable pub routes_of : List Result → List RouteQuote
unfolding present
routes_of [] = []
routes_of (item ∷ items) = present item.route (routes_of items)

unfoldable pub errors_of : List Result → List ProviderError
unfolding present
errors_of [] = []
errors_of (item ∷ items) = present item.err (errors_of items)

-- What `GetQuote` returns: a final quote with the store as it is then, an error, a dereference of a
-- nil number, or nothing as long as a worker has not returned.
pub data QuoteAnswer : Type 0 where
  quotes : QuoteFinal → Store → QuoteAnswer
  refuses : Code → String → QuoteAnswer
  panics : QuoteAnswer
  waits : QuoteAnswer

unfoldable pub quote_final :
    QuoteWorld → BlockContext → List ProviderError → Bool → List Result → BestOutput → QuoteFinal
quote_final w block source_errors cancelled ordered best = record {
  quote_id = w.quote_id;
  routes = routes_of ordered;
  errors = source_errors ++ errors_of ordered;
  best_route_id = best.route_id;
  block = block;
  search_complete = not cancelled;
}

unfoldable pub save_final : Handler → QuoteWorld → QuoteRequest → QuoteFinal → Store → Store
save_final h w r final s =
    if h.has_store then save_quote r final w.started w.saved_at (run w.others s) else s

unfoldable pub answer_with :
    Handler
    → QuoteWorld
    → QuoteRequest
    → BlockContext
    → List ProviderError
    → Bool
    → List Result
    → Store
    → Option BestOutput
    → QuoteAnswer
answer_with h w r block source_errors cancelled ordered s none = panics
answer_with h w r block source_errors cancelled ordered s (some best) =
    let final = quote_final w block source_errors cancelled ordered best in
    quotes final (save_final h w r final s)

-- From the ordered results to the answer.
unfoldable pub conclude :
    Handler
    → QuoteWorld
    → QuoteRequest
    → BlockContext
    → List ProviderError
    → Bool
    → List Result
    → Store
    → QuoteAnswer
conclude h w r block source_errors cancelled ordered s =
    answer_with h w r block source_errors cancelled ordered s
      (best_of (routes_of ordered) (record { output = none; route_id = none }))

unfoldable pub collect :
    Handler
    → QuoteWorld
    → QuoteRequest
    → BlockContext
    → List ProviderError
    → Pool
    → Store
    → QuoteAnswer
collect h w r block source_errors pool s =
    conclude h w r block source_errors pool.cancelled
      (sort_by (by_key (λ (item : Result). item.index)) pool.results) s

unfoldable pub search : Handler → QuoteWorld → List CandidateSource → Pool
search h w sources = run_pool w.moves (fresh_pool sources (pos_part h.quote_concurrency))

unfoldable pub unless_caller_left : Checked (Unit {0}) → QuoteAnswer → QuoteAnswer
unless_caller_left (fails code message) answer = refuses code message
unless_caller_left (passes u) answer = answer

unfoldable pub after_search :
    Handler → QuoteWorld → QuoteRequest → BlockContext → QuoteSources → Pool → Store → QuoteAnswer
after_search h w r block found pool s =
    let answer =
      unless_caller_left (caller_goes_on w.caller_after_search)
        (collect h w r block found.errors pool s) in
    if is_done pool then answer else waits

unfoldable pub check_quote_request :
    Evm → Handler → QuoteWorld → QuoteRequest → Checked (Chain × Snapshot)
unfolding ◌>>=◌
check_quote_request evm h w r = do
  (chain, client) ← find_requested_chain h r
  check_pair evm chain r
  check_amount r
  snapshot ← snapshot_read w w.snapshot
  passes (chain, snapshot)

unfoldable pub quote_block : Snapshot → BlockContext
quote_block snapshot = record { number = snapshot.block_number; hash = snapshot.block_hash }

unfoldable pub search_quotes :
    Handler → QuoteWorld → QuoteRequest → Store → Chain × Snapshot → QuoteAnswer
search_quotes h w r s (chain, snapshot) =
    let found = quote_sources chain r (quote_block snapshot) in
    after_search h w r (quote_block snapshot) found (search h w found.sources) s

unfoldable pub answer_checked :
    Handler → QuoteWorld → QuoteRequest → Store → Checked (Chain × Snapshot) → QuoteAnswer
answer_checked h w r s (fails code message) = refuses code message
answer_checked h w r s (passes admitted) = search_quotes h w r s admitted

unfoldable pub get_quote : Evm → Handler → QuoteWorld → QuoteRequest → Store → QuoteAnswer
get_quote evm h w r s = answer_checked h w r s (check_quote_request evm h w r)
