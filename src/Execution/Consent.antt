-- ===== src/Execution/Consent.antt =====
-- execution.go: what an answer that is ready rests on, and what a recorded approval means for it.
use Prim.Native.String.{◌++◌}
use epeius.Prelude.{ℕ, ◌≡◌, ◌≢◌, refl, String, Bool, true, false, none, List, [], ◌∷◌, sym, ◌∙◌}
use epeius.Prelude.Partial.{none-neq-some}
use epeius.Prelude.Dict.{lookup}
use epeius.Evm.{Evm, Contracts}
use epeius.Wire.{PrepareExecutionRequest, PrepareExecutionResponse, ready}
use epeius.Engine.{Handler}
use epeius.Store.{
  Store, Op, saves_preparation, finds, marks_approval, StoredQuote, run, mark_approval, step, find,
}
use epeius.Store.WellFormed.{IsWellFormed, step-IsWellFormed, run-IsWellFormed}
use epeius.Store.Approvals.{
  Needed, Spares, step-Needed, run-Needed, marked-IsWellFormed, marked-Needed,
  mark_approval-ne-false,
}
use epeius.Execution.Outcome.{Outcome, answers}
use epeius.Execution.Environment.{World, Site, looked_up}
use epeius.Execution.Admit.{Source, again, fresh}
use epeius.Execution.Terms.{Loaded}
use epeius.Execution.Spec.{Exit}
use epeius.Execution.Stages.{Invariant}
use epeius.Execution.Ready.{Evidence, prepare_execution-Holds}
use epeius.Execution.{prepare_execution, context_of}
use mathlib.Core.Path.{subst, ap}

-- The other requests save no quote under this ID while the handler runs.
abbrev pub Undisturbed : World → String → Type 0
Undisturbed w id = (site : Site) → Spares id (w.others site)

-- Nothing is asked of the store.
any_Invariant : (w : World) (id : String) → Invariant w id (λ _. Unit) (λ _ _. Unit)
any_Invariant w id = record {
  after_others = λ site s i. tt;
  after_find = λ q p now s i. tt;
  after_mark = λ q key required now s i. tt;
  after_save = λ p now s i. tt;
  noted = λ key required previous now s i e. tt;
}

module _ (id key : String) where
  -- The store holds the quote marked, or no longer.
  pub record Marked (s : Store) : Type 0 where
    pub well_formed : IsWellFormed s
    pub needed : Needed key (lookup id s.quotes)

  -- The key of a mark that answers false is another one.
  abbrev pub Differs : String → Bool → Type 0
  Differs other previous = previous ≡ false → other ≢ key

  step-Marked : (o : Op) (s : Store) → Spares id (o ∷ []) → Marked s → Marked (step o s)
  step-Marked o s spared m = record {
    well_formed = step-IsWellFormed o s m.well_formed;
    needed = step-Needed id key o s spared m.well_formed m.needed;
  }

  Marked-Invariant : (w : World) → Undisturbed w id → Invariant w id Marked Differs
  unfolding step
  Marked-Invariant w undisturbed = record {
    after_others = λ site s m. record {
      well_formed = run-IsWellFormed (w.others site) s m.well_formed;
      needed = run-Needed id key (w.others site) s (undisturbed site) m.well_formed m.needed;
    };
    after_find = λ q p now s m. step-Marked (finds q p now) s tt m;
    after_mark =
        λ q other required now s m. step-Marked (marks_approval q other required now) s tt m;
    after_save = λ p now s m. step-Marked (saves_preparation p now) s tt m;
    noted = λ other required previous now s m e f same.
        mark_approval-ne-false id key required now s m.well_formed m.needed (rw (same, f) at e);
  }

-- What the logic says of an answer that is ready.
ready_exit :
    (R : PrepareExecutionResponse → Type 0) (o : Outcome Unit) (response : PrepareExecutionResponse)
    → Exit (λ _. ⊥) R o
    → o ≡ answers response
    → response.status ≡ ready
    → R response
ready_exit R o response exit e = subst (Exit (λ _. ⊥) R) e exit

-- No stored preparation is found under the request's ID.
abbrev pub FindsNone : World → PrepareExecutionRequest → Store → Type 0
FindsNone w r s =
    (find r.quote_id r.preparation_id (w.clock looked_up) (run (w.others looked_up) s)).1 ≡ none

pub from_quote :
    (w : World) (r : PrepareExecutionRequest) (s : Store)
    → FindsNone w r s
    → (source : Source) → Loaded w r s source
    → (saved : StoredQuote) × (source ≡ fresh saved)
from_quote w r s finds_none (again p) loaded = absurd (none-neq-some (sym finds_none ∙ loaded))
from_quote w r s finds_none (fresh saved) loaded = (saved, refl)

module _ (evm : Evm) (abi : Contracts) (h : Handler) (w : World) (r : PrepareExecutionRequest) where
  -- An answer that is ready, whatever the store was, rests on all the checks. The request was valid; the
  -- terms are those of the live preparation that the store held under the request's ID when it was
  -- looked up, for which no approval had been asked, or of the quote that it held, whose block was then
  -- canonical and which the chain's own strategy, for allocations or of the named route's deployment,
  -- admitted and built. The chain is enabled and the block is of the chain; the plan's own verification
  -- accepted, the deadline and the expiry lie ahead, the allowance and any permission that were read
  -- cover the amount, and the simulation of the very transaction that is returned passed, with the
  -- plan's checks and minimum, at a block that was still canonical after it.
  pub prepare_execution-Evidence :
      (s : Store) (response : PrepareExecutionResponse)
      → (prepare_execution evm abi h w r s).0 ≡ answers response
      → response.status ≡ ready
      → Evidence evm abi h w r s (λ _ _. Unit) response
  prepare_execution-Evidence s response e =
      ready_exit _ _ response
        (prepare_execution-Holds evm abi h w r _ _ (any_Invariant w r.quote_id) s tt).1 e

  -- The approval that a preparation made from this quote needs is not the recorded one.
  pub record NeedsOther (key : String) (s : Store) (response : PrepareExecutionResponse)
      : Type 0 where
    pub evidence : Evidence evm abi h w r s (Differs r.quote_id key) response
    pub saved : StoredQuote
    pub from_quote : evidence.source ≡ fresh saved
    pub other : evidence.p.response.recipient ++ evidence.p.spender ≢ key

  -- Let an approval that a quote needs be recorded in a well-formed store. Whatever calls other requests
  -- make then, before a later preparation and during it, as long as they save no quote under the same
  -- ID: if that preparation finds no stored one under the request's ID and its answer is ready, then it
  -- was made from the quote that was found, and the approval that its recipient and its plan's spender
  -- need is not the recorded one, whatever the allowance is by then.
  pub prepare_execution_consent :
      (key : String) (ops : List Op) (now : ℕ) (s : Store) (response : PrepareExecutionResponse)
      → IsWellFormed s
      → Spares r.quote_id ops
      → Undisturbed w r.quote_id
      → FindsNone w r (run ops (mark_approval r.quote_id key true now s).1)
      → (prepare_execution evm abi h w r (run ops (mark_approval r.quote_id key true now s).1)).0
        ≡ answers response
      → response.status ≡ ready
      → NeedsOther key (run ops (mark_approval r.quote_id key true now s).1) response
  prepare_execution_consent key ops now s response i spared undisturbed finds_none answered
        is_ready =
      needs_other e (from_quote w r _ finds_none e.source e.loaded)
    where
      e :
          Evidence evm abi h w r
            (run ops (mark_approval r.quote_id key true now s).1)
            (Differs r.quote_id key)
            response
      e =
          ready_exit _ _ response
            (prepare_execution-Holds evm abi h w r _ _
              (Marked-Invariant r.quote_id key w undisturbed)
              (run ops (mark_approval r.quote_id key true now s).1)
              (record {
                well_formed = marked-IsWellFormed r.quote_id key now ops s i;
                needed = marked-Needed r.quote_id key now ops s spared i;
              })).1
            answered is_ready

      needs_other :
          (e : Evidence evm abi h w r
            (run ops (mark_approval r.quote_id key true now s).1)
            (Differs r.quote_id key)
            response)
          → (saved : StoredQuote) × (e.source ≡ fresh saved)
          → NeedsOther key (run ops (mark_approval r.quote_id key true now s).1) response
      needs_other e (saved, same) = record {
        evidence = e;
        saved = saved;
        from_quote = same;
        other =
            e.checked.unapproved.0
              (ap (λ x. (context_of r e.chain e.client e.snapshot x).recheck) same) refl;
      }
