-- ===== src/Tests/Executions.antt =====
-- `PrepareExecution` on a quote with one route: the allowance is 500, which is the amount.
use epeius.Prelude.{ℕ, ◌*◌, ◌≤◌, ◌<◌, ◌+◌, ◌-◌, ◌≡◌, refl, true, some, [], arith}
use epeius.Prelude.Int.{pos, scale, div_ℤ}
use epeius.Prelude.Decimal.{nat_text, int_text, set_string, parse_uint_value}
use epeius.Prelude.Dict.{lookup, erase, insert, retain}
use epeius.Evm.{valid_address, unpack, bytes_eq}
use epeius.Wire.{PrepareExecutionResponse, ready, blank_response}
use epeius.Store.{
  Store, StoredQuote, prune, oldest, make_room, save_preparation, find, detach, mark, record_mark,
  mark_approval, run,
}
use epeius.Store.WellFormed.{IsWellFormed}
use epeius.Execution.{prepare_execution}
use epeius.Execution.Outcome.{
  answers, pure, respond, fail, invalid, result, panic, some_or_panic, some_or_else, unless, ◌>>=◌,
}
use epeius.Execution.Environment.{touch}
use epeius.Execution.Admit.{
  fresh, valid_request, choose, find_both, load, chain_key, execution_client, enabled_chain,
  find_chain, usable_block, read_block, find_route, minimum_output, deadline_of, terms_response,
  built, selected, build_preparation, with_strategy, by_route, prepare_quote, terms,
}
use epeius.Execution.Checks.{
  unexpired, confirmed, verdict, verified, in_time, decoded, read_allowance, mark_answer, note,
  noted_allowance, save_and_respond, check_allowance,
}
use epeius.Execution.Finish.{check_permission, simulated_output, finish, check_preparation}
use epeius.Execution.Ready.{Evidence}
use epeius.Execution.Consent.{
  FindsNone, NeedsOther, prepare_execution-Evidence, prepare_execution_consent,
}
use epeius.Execution.Slippage.{Terms, minimum_output_bounds, prepare_execution_terms}
use epeius.Tests.Fixture.{evm, abi, handler, world, request, saved_store, swap, route}

abbrev ready_response : PrepareExecutionResponse
ready_response = record blank_response {
  status = ready;
  transaction = some swap;
  preparation_id = "p1";
  expires_at_unix = "32";
  amount_out_minimum_atomic = "1990";
  amount_in_atomic = "500";
  token_in = "0x0a";
  token_out = "0x0b";
  recipient = "0x07";
  deadline_unix = "1700000120";
  simulation_block = some (record { number = "101"; hash = "0x65" });
  simulated_amount_out_atomic = "1990";
  route = some route;
}

-- The store in which an approval of another spender was recorded.
abbrev marked_store : Store
marked_store = run [] (mark_approval "q1" "0x07other" true 1_000_000_000 saved_store).1

answered : (prepare_execution evm abi handler world request saved_store).0 ≡ answers ready_response
unfolding prepare_execution valid_request valid_address load find_both choose touch run find prune
    detach lookup erase insert retain chain_key find_chain enabled_chain execution_client read_block
    usable_block terms prepare_quote by_route find_route with_strategy build_preparation selected
    built terms_response minimum_output deadline_of scale div_ℤ nat_text int_text set_string
    parse_uint_value check_preparation verified verdict in_time read_allowance decoded unpack
    bytes_eq noted_allowance note mark_approval record_mark mark mark_answer check_allowance
    check_permission finish simulated_output confirmed unexpired save_and_respond save_preparation
    make_room oldest pure respond result fail invalid panic some_or_panic some_or_else unless ◌>>=◌
answered = refl

answered_marked :
    (prepare_execution evm abi handler world request marked_store).0 ≡ answers ready_response
unfolding prepare_execution valid_request valid_address load find_both choose touch run find prune
    detach lookup erase insert retain chain_key find_chain enabled_chain execution_client read_block
    usable_block terms prepare_quote by_route find_route with_strategy build_preparation selected
    built terms_response minimum_output deadline_of scale div_ℤ nat_text int_text set_string
    parse_uint_value check_preparation verified verdict in_time read_allowance decoded unpack
    bytes_eq noted_allowance note mark_approval record_mark mark mark_answer check_allowance
    check_permission finish simulated_output confirmed unexpired save_and_respond save_preparation
    make_room oldest pure respond result fail invalid panic some_or_panic some_or_else unless ◌>>=◌
answered_marked = refl

saved_store-IsWellFormed : IsWellFormed saved_store
unfolding lookup
saved_store-IsWellFormed = record {
  distinct_quotes = (refl, tt);
  distinct_preparations = tt;
  bounded_quotes = omega arith;
  bounded_preparations = omega arith;
}

prepare_execution-Evidence_example :
    Evidence evm abi handler world request saved_store (λ _ _. Unit) ready_response
prepare_execution-Evidence_example =
    prepare_execution-Evidence evm abi handler world request saved_store ready_response answered
      refl

finds_none : FindsNone world request saved_store
unfolding find prune retain run lookup
finds_none = refl

FindsNone-marked : FindsNone world request marked_store
unfolding find prune retain run lookup mark_approval record_mark mark insert erase
FindsNone-marked = refl

prepare_execution_terms_example :
    (e : Evidence evm abi handler world request saved_store (λ _ _. Unit) ready_response)
    × (saved : StoredQuote) × (same : e.source ≡ fresh saved) × Terms evm abi handler world request
        saved_store _ ready_response e saved same
prepare_execution_terms_example =
    prepare_execution_terms evm abi handler world request saved_store ready_response finds_none
      answered refl

prepare_execution_consent_example :
    NeedsOther evm abi handler world request "0x07other" marked_store ready_response
prepare_execution_consent_example =
    prepare_execution_consent evm abi handler world request "0x07other" [] 1_000_000_000 saved_store
      ready_response saved_store-IsWellFormed tt (λ site. tt) FindsNone-marked answered_marked refl

minimum_output_bounds_example :
    (m : ℕ) × (minimum_output (pos 2000) 50 ≡ pos m)
    × (m * 10000 ≤ 2000 * (10000 - 50))
    × (2000 * (10000 - 50) < (m + 1) * 10000)
    × (m ≤ 2000)
minimum_output_bounds_example = minimum_output_bounds 2000 50 (omega arith)
