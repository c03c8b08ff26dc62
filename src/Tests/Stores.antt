-- ===== src/Tests/Stores.antt =====
-- The store with one quote.
use epeius.Prelude.{◌+◌, ◌≡◌, ◌≢◌, refl, true, false, none, some, List, [], ◌∷◌, ltb, if◌then◌else◌}
use epeius.Prelude.Dict.{lookup, erase, insert, retain, keep_if}
use epeius.Store.{
  Op, saves_quote, finds, marks_approval, new_store, run, step, save_quote, find, detach, prune,
  mark_approval, record_mark, mark, make_room, oldest, retention,
}
use epeius.Store.WellFormed.{IsWellFormed, new_store-IsWellFormed, run-IsWellFormed}
use epeius.Store.Approvals.{mark_approval_sticky}
use epeius.Store.Expiry.{
  without_approvals, find-eq, find-save_quote, stored_quote, is_live_quote, is_live_preparation,
}
use epeius.Tests.Fixture.{quote_request, final}

abbrev calls : List Op
calls =
    saves_quote quote_request final 1_000_000_000 1_100_000_000
    ∷ marks_approval "q1" "0x07:0x99" true 2_000_000_000
    ∷ finds "q1" "" 3_000_000_000
    ∷ []

run-IsWellFormed_example : IsWellFormed (run calls new_store)
run-IsWellFormed_example = run-IsWellFormed calls new_store new_store-IsWellFormed

mark_approval_sticky_example :
    (mark_approval "q1" "0x07:0x99" false 9_000_000_000 (
      run
        (finds "q1" "" 8_000_000_000 ∷ [])
        (mark_approval "q1" "0x07:0x99" true 7_000_000_000 (run calls new_store)).1)).0
    ≢ some false
mark_approval_sticky_example =
    mark_approval_sticky "q1" "0x07:0x99" false 7_000_000_000 9_000_000_000
      (finds "q1" "" 8_000_000_000 ∷ []) (run calls new_store) tt run-IsWellFormed_example

find-eq_example :
    ((find "q1" "p1" 5_000_000_000 (run calls new_store)).0
      ≡ without_approvals
          (keep_if (is_live_quote 5_000_000_000) (lookup "q1" (run calls new_store).quotes)))
    × ((find "q1" "p1" 5_000_000_000 (run calls new_store)).1
        ≡ keep_if
            (is_live_preparation 5_000_000_000)
            (lookup "p1" (run calls new_store).preparations))
find-eq_example = find-eq "q1" "p1" 5_000_000_000 (run calls new_store) run-IsWellFormed_example

find-save_quote_example :
    (find "q1" "" 30_000_000_000
      (save_quote quote_request final 1_000_000_000 1_100_000_000 new_store)).0
    ≡ (if ltb 30_000_000_000 (1_000_000_000 + retention)
        then some (stored_quote quote_request final 1_000_000_000)
        else none)
find-save_quote_example =
    find-save_quote quote_request final 1_000_000_000 1_100_000_000 new_store new_store-IsWellFormed
      "" 30_000_000_000

found_marked :
    (mark_approval "q1" "0x07:0x99" false 4_000_000_000 (run calls new_store)).0 ≡ some true
unfolding run step save_quote make_room oldest prune retain insert erase lookup mark_approval
    record_mark mark find
found_marked = refl

gone_later : (find "q1" "" 31_000_000_000 (run calls new_store)).0 ≡ none
unfolding run step save_quote make_room oldest prune retain insert erase lookup mark_approval
    record_mark mark find detach
gone_later = refl
