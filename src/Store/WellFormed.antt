-- ===== src/Store/WellFormed.antt =====
-- store.go: what every operation keeps of the two maps.
use epeius.Prelude.{
  ℕ, ◌≤◌, String, ◌≡◌, refl, Bool, Option, none, some, List, [], ◌∷◌, arith, ltb, length,
}
use epeius.Prelude.Dict.{
  Dict, Distinct, lookup, insert, length-insert-le, length-retain-le, retain-Distinct,
  insert-Distinct, length-insert_old,
}
use epeius.Store.Eviction.{make_room-Distinct, length-make_room}
use epeius.Wire.{QuoteRequest, QuoteFinal}
use epeius.Store.{
  new_store, Store, StoredQuote, Preparation, Op, saves_quote, saves_preparation, finds,
  marks_approval, store_limit, prune, make_room, save_quote, save_preparation, find, mark,
  record_mark, mark_approval, step, run,
}

pub record IsWellFormed (s : Store) : Type 0 where
  pub distinct_quotes : Distinct s.quotes
  pub distinct_preparations : Distinct s.preparations
  pub bounded_quotes : length s.quotes ≤ store_limit
  pub bounded_preparations : length s.preparations ≤ store_limit

pub new_store-IsWellFormed : IsWellFormed new_store
new_store-IsWellFormed = omega arith

pub prune-IsWellFormed : (now : ℕ) (s : Store) → IsWellFormed s → IsWellFormed (prune now s)
unfolding prune
prune-IsWellFormed now s w = record {
  distinct_quotes = retain-Distinct _ s.quotes w.distinct_quotes;
  distinct_preparations = retain-Distinct _ s.preparations w.distinct_preparations;
  bounded_quotes =
      omega (arith, length-retain-le (λ q. ltb now q.expires) s.quotes, w.bounded_quotes);
  bounded_preparations =
      omega
        (arith, length-retain-le (λ p. ltb now p.expires) s.preparations, w.bounded_preparations);
}

module _ {ℓ} {V : Type ℓ} (expires : V → ℕ) (k : String) (v : V) (m : Dict V) where
  -- Saving into a map within the limit leaves it within the limit.
  pub length-insert-make_room :
      Distinct m → length m ≤ store_limit → length (insert k v (make_room expires m)) ≤ store_limit
  length-insert-make_room d h =
      omega (arith, length-make_room expires m d h, length-insert-le k v (make_room expires m))

  pub insert-make_room-Distinct : Distinct m → Distinct (insert k v (make_room expires m))
  insert-make_room-Distinct d = insert-Distinct k v _ (make_room-Distinct expires m d)

module _ (now : ℕ) (s : Store) (w : IsWellFormed s) where
  pruned : IsWellFormed (prune now s)
  pruned = prune-IsWellFormed now s w

  pub save_quote-IsWellFormed :
      (r : QuoteRequest) (f : QuoteFinal) (started : ℕ)
      → IsWellFormed (save_quote r f started now s)
  unfolding save_quote
  save_quote-IsWellFormed r f started = record {
    distinct_quotes = insert-make_room-Distinct _ f.quote_id _ _ pruned.distinct_quotes;
    distinct_preparations = pruned.distinct_preparations;
    bounded_quotes =
        length-insert-make_room _ f.quote_id _ _ pruned.distinct_quotes pruned.bounded_quotes;
    bounded_preparations = pruned.bounded_preparations;
  }

  pub save_preparation-IsWellFormed : (p : Preparation) → IsWellFormed (save_preparation p now s)
  unfolding save_preparation
  save_preparation-IsWellFormed p = record {
    distinct_quotes = pruned.distinct_quotes;
    distinct_preparations =
        insert-make_room-Distinct _ p.response.preparation_id p _ pruned.distinct_preparations;
    bounded_quotes = pruned.bounded_quotes;
    bounded_preparations =
        length-insert-make_room _ p.response.preparation_id p _ pruned.distinct_preparations
          pruned.bounded_preparations;
  }

record_mark-IsWellFormed :
    (quote_id key : String) (required : Bool) (found : Option StoredQuote) (s : Store)
    → lookup quote_id s.quotes ≡ found
    → IsWellFormed s
    → IsWellFormed (record_mark quote_id key required found s).1
unfolding record_mark
record_mark-IsWellFormed quote_id key required none s e w = w
record_mark-IsWellFormed quote_id key required (some q) s e w = record {
  distinct_quotes = insert-Distinct quote_id _ s.quotes w.distinct_quotes;
  distinct_preparations = w.distinct_preparations;
  bounded_quotes = omega (
    arith,
    length-insert_old quote_id (mark key required q) s.quotes (λ gone. cc (gone, e)),
    w.bounded_quotes,
  );
  bounded_preparations = w.bounded_preparations;
}

pub step-IsWellFormed : (o : Op) (s : Store) → IsWellFormed s → IsWellFormed (step o s)
unfolding step find mark_approval
step-IsWellFormed (saves_quote r f started now) s w = save_quote-IsWellFormed now s w r f started
step-IsWellFormed (saves_preparation p now) s w = save_preparation-IsWellFormed now s w p
step-IsWellFormed (finds quote_id preparation_id now) s w = prune-IsWellFormed now s w
step-IsWellFormed (marks_approval quote_id key required now) s w =
    record_mark-IsWellFormed quote_id key required _ _ refl (prune-IsWellFormed now s w)

-- From a store whose maps hold a key once and at most `store_limit` entries each, every sequence of
-- calls with any clock readings leads to such a store.
pub run-IsWellFormed : (ops : List Op) (s : Store) → IsWellFormed s → IsWellFormed (run ops s)
unfolding run
run-IsWellFormed [] s w = w
run-IsWellFormed (o ∷ ops) s w = run-IsWellFormed ops (step o s) (step-IsWellFormed o s w)
