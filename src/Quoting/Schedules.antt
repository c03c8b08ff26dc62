-- ===== src/Quoting/Schedules.antt =====
-- handler.go, `GetQuote`: the answer does not depend on how the workers interleave.
use epeius.Prelude.{ℕ, suc, ◌≡◌, sym, ap, ◌∙◌, true, false, none, List, if◌then◌else◌}
use mathlib.Core.Path.{subst}
use epeius.Prelude.Int.{pos, pos_part}
use epeius.Wire.{QuoteRequest, BlockContext, ProviderError}
use epeius.Evm.{Evm}
use epeius.Store.{Store}
use epeius.Engine.{Handler, Chain, Snapshot}
use epeius.Search.{CandidateSource, Pool, Result, fresh_pool, run_pool, is_done}
use epeius.Search.Tasks.{all_results, order_results}
use epeius.Search.Schedule.{search-eq}
use epeius.Quoting.Checks.{passes, QuoteWorld, caller_goes_on}
use epeius.Quoting.Sources.{QuoteSources, quote_sources}
use epeius.Quoting.{
  waits, conclude, collect, unless_caller_left, after_search, search, search_quotes, answer_checked,
  get_quote, check_quote_request, quote_block,
}

collect-conclude :
    (h : Handler) (w : QuoteWorld) (r : QuoteRequest) (block : BlockContext)
    (errors : List ProviderError) (pool : Pool) (s : Store) (ordered : List Result)
    → order_results pool.results ≡ ordered
    → pool.cancelled ≡ false
    → collect h w r block errors pool s ≡ conclude h w r block errors false ordered s
unfolding collect order_results
collect-conclude h w r block errors pool s ordered e c =
    ap (λ b. conclude h w r block errors b (order_results pool.results) s) c
    ∙ ap (λ rs. conclude h w r block errors false rs s) e

search-all :
    (h : Handler) (w : QuoteWorld) (sources : List CandidateSource) (n : ℕ)
    → h.quote_concurrency ≡ pos (suc n)
    → is_done (search h w sources) ≡ true
    → (search h w sources).cancelled ≡ false
    → order_results (search h w sources).results ≡ all_results sources
unfolding search
search-all h w sources n e =
    subst
      (λ c.
        is_done (run_pool w.moves (fresh_pool sources c)) ≡ true
        → (run_pool w.moves (fresh_pool sources c)).cancelled ≡ false
        → order_results (run_pool w.moves (fresh_pool sources c)).results ≡ all_results sources)
      (sym (ap pos_part e)) (search-eq n sources w.moves)

after_search-collect :
    (h : Handler) (w : QuoteWorld) (r : QuoteRequest) (block : BlockContext) (found : QuoteSources)
    (pool : Pool) (s : Store)
    → is_done pool ≡ true
    → w.caller_after_search ≡ none
    → after_search h w r block found pool s ≡ collect h w r block found.errors pool s
unfolding after_search unless_caller_left caller_goes_on
after_search-collect h w r block found pool s done caller =
    let answer = collect h w r block found.errors pool s in
    ap (λ b. if b then unless_caller_left (caller_goes_on w.caller_after_search) answer else waits)
      done
    ∙ ap (λ o. unless_caller_left (caller_goes_on o) answer) caller

-- A request that passes the checks, and whose search is neither cancelled before its end nor left by
-- the caller, gets the answer that the candidates alone determine: once all the workers have
-- returned, the routes and the errors are those of all the candidates of all the deployments, in the
-- order of the deployments' IDs, for every number of workers and every interleaving of them.
pub get_quote-eq :
    (evm : Evm) (h : Handler) (w : QuoteWorld) (r : QuoteRequest) (s : Store) (chain : Chain)
    (snapshot : Snapshot) (n : ℕ)
    → h.quote_concurrency ≡ pos (suc n)
    → check_quote_request evm h w r ≡ passes (chain, snapshot)
    → is_done (search h w (quote_sources chain r (quote_block snapshot)).sources) ≡ true
    → (search h w (quote_sources chain r (quote_block snapshot)).sources).cancelled ≡ false
    → w.caller_after_search ≡ none
    → get_quote evm h w r s
      ≡ conclude h w r
          (quote_block snapshot)
          (quote_sources chain r (quote_block snapshot)).errors
          false
          (all_results (quote_sources chain r (quote_block snapshot)).sources)
          s
unfolding get_quote answer_checked search_quotes
get_quote-eq evm h w r s chain snapshot n q checked done live caller =
    let found = quote_sources chain r (quote_block snapshot) in
    let pool = search h w found.sources in
    ap (answer_checked h w r s) checked
    ∙ (after_search-collect h w r (quote_block snapshot) found pool s done caller
        ∙ collect-conclude h w r (quote_block snapshot) found.errors pool s
            (all_results found.sources) (search-all h w found.sources n q done live) live)
