-- ===== src/Store/Approvals.antt =====
-- store.go: an approval that a quote needed stays recorded as long as the store holds the quote.
use epeius.Prelude.{
  ℕ, String, ◌≡◌, refl, inl, inr, ◌≢◌, Bool, true, false, Option, none, some, List, [], ◌∷◌, arith,
  ltb, if◌then◌else◌, str_eq, str_eq_iff, str_eq_refl, Bool-cases,
}
use epeius.Prelude.Dict.{Dict, lookup, insert, keep_if, lookup-retain, lookup-insert}
use epeius.Store.Eviction.{lookup-make_room}
use epeius.Store.WellFormed.{IsWellFormed, step-IsWellFormed, run-IsWellFormed}
use epeius.Store.{
  Store, StoredQuote, Op, saves_quote, saves_preparation, finds, marks_approval, prune, make_room,
  save_quote, save_preparation, find, mark, record_mark, mark_approval, step, run,
}

-- The stored quote, if there is one, needed the approval `key` before.
abbrev pub Needed : String → Option StoredQuote → Type 0
Needed key none = Unit
Needed key (some q) = lookup key q.approvals ≡ some true

-- No call of the list saves a quote under this ID: `rand.Text` gives every quote a fresh one.
abbrev pub Spares : String → List Op → Type 0
Spares id [] = Unit
Spares id (saves_quote r f started now ∷ ops) = (str_eq f.quote_id id ≡ false) × Spares id ops
Spares id (saves_preparation p now ∷ ops) = Spares id ops
Spares id (finds quote_id preparation_id now ∷ ops) = Spares id ops
Spares id (marks_approval quote_id key required now ∷ ops) = Spares id ops

pub lookup-prune :
    (id : String) (now : ℕ) (s : Store)
    → IsWellFormed s
    → lookup id (prune now s).quotes ≡ keep_if (λ q. ltb now q.expires) (lookup id s.quotes)
unfolding prune
lookup-prune id now s w = lookup-retain _ id s.quotes w.distinct_quotes

Needed-keep_if :
    (key : String) (now : ℕ) (o : Option StoredQuote)
    → Needed key o
    → Needed key (keep_if (λ q. ltb now q.expires) o)
Needed-keep_if key now none n = tt
Needed-keep_if key now (some q) n = elim (Bool-cases (ltb now q.expires)) [
  | inl live ↦ rw live n
  | inr gone ↦ rw gone tt
]

Needed-if :
    (key : String) (b : Bool) (o : Option StoredQuote)
    → Needed key o
    → Needed key (if b then none else o)
Needed-if key true o n = tt
Needed-if key false o n = n

module _ (id key : String) where
  prune-Needed :
      (now : ℕ) (s : Store)
      → IsWellFormed s
      → Needed key (lookup id s.quotes)
      → Needed key (lookup id (prune now s).quotes)
  prune-Needed now s w n = rw (lookup-prune id now s w) (Needed-keep_if key now _ n)

  save_quote-Needed :
      (m : Dict StoredQuote) (k : String) (q : StoredQuote)
      → str_eq k id ≡ false
      → Needed key (lookup id m)
      → Needed key (lookup id (insert k q (make_room (λ q. q.expires) m)))
  save_quote-Needed m k q fresh n =
      rw
        (
          lookup-insert k id q (make_room (λ q. q.expires) m),
          fresh,
          lookup-make_room (λ q. q.expires) id m,
        )
        (Needed-if key _ _ n)

  mark-Needed :
      (other : String) (required : Bool) (q : StoredQuote)
      → Needed key (some q)
      → Needed key (some (mark other required q))
  unfolding mark
  mark-Needed other required q n = ground (arith, lookup-insert other key true q.approvals)

  record_mark-Needed :
      (quote_id other : String) (required : Bool) (found : Option StoredQuote) (s : Store)
      → lookup quote_id s.quotes ≡ found
      → Needed key (lookup id s.quotes)
      → Needed key (lookup id (record_mark quote_id other required found s).1.quotes)
  unfolding record_mark
  record_mark-Needed quote_id other required none s e n = n
  record_mark-Needed quote_id other required (some q) s e n =
      rw (lookup-insert quote_id id (mark other required q) s.quotes)
        (elim (Bool-cases (str_eq quote_id id)) [
          | inl same ↦
              let found : lookup id s.quotes ≡ some q = rw ((str_eq_iff quote_id id).0 same) at e in
              rw same (mark-Needed other required q (rw found at n))
          | inr differ ↦ rw differ n
        ])

  pub step-Needed :
      (o : Op) (s : Store)
      → Spares id (o ∷ [])
      → IsWellFormed s
      → Needed key (lookup id s.quotes)
      → Needed key (lookup id (step o s).quotes)
  unfolding step save_quote save_preparation find mark_approval
  step-Needed (saves_quote r f started now) s fresh w n =
      save_quote-Needed (prune now s).quotes f.quote_id _ fresh.0 (prune-Needed now s w n)
  step-Needed (saves_preparation p now) s fresh w n = prune-Needed now s w n
  step-Needed (finds quote_id preparation_id now) s fresh w n = prune-Needed now s w n
  step-Needed (marks_approval quote_id other required now) s fresh w n =
      record_mark-Needed quote_id other required _ (prune now s) refl (prune-Needed now s w n)

  Spares-head : (o : Op) (ops : List Op) → Spares id (o ∷ ops) → Spares id (o ∷ []) × Spares id ops
  Spares-head (saves_quote r f started now) ops h = ((h.0, tt), h.1)
  Spares-head (saves_preparation p now) ops h = (tt, h)
  Spares-head (finds quote_id preparation_id now) ops h = (tt, h)
  Spares-head (marks_approval quote_id other required now) ops h = (tt, h)

  pub run-Needed :
      (ops : List Op) (s : Store)
      → Spares id ops
      → IsWellFormed s
      → Needed key (lookup id s.quotes)
      → Needed key (lookup id (run ops s).quotes)
  unfolding run
  run-Needed [] s fresh w n = n
  run-Needed (o ∷ ops) s fresh w n =
      let (here, there) = Spares-head o ops fresh in
      run-Needed ops (step o s) there (step-IsWellFormed o s w) (step-Needed o s here w n)

  record_mark_sets :
      (found : Option StoredQuote) (s : Store)
      → lookup id s.quotes ≡ found
      → Needed key (lookup id (record_mark id key true found s).1.quotes)
  unfolding record_mark
  record_mark_sets none s e = rw e tt
  record_mark_sets (some q) s e =
      rw (lookup-insert id id (mark key true q) s.quotes, str_eq_refl id) mark_sets
    where
      mark_sets : Needed key (some (mark key true q))
      mark_sets = rw (lookup-insert key key true q.approvals, str_eq_refl key)

  record_mark-ne-false :
      (required : Bool) (found : Option StoredQuote) (s : Store)
      → Needed key found
      → (record_mark id key required found s).0 ≢ some false
  unfolding record_mark
  record_mark-ne-false required none s n h = cc
  record_mark-ne-false required (some q) s n h = ground (arith, n)

  -- The mark, and any calls after it that save no quote under the same ID.
  pub marked-IsWellFormed :
      (now : ℕ) (ops : List Op) (s : Store)
      → IsWellFormed s
      → IsWellFormed (run ops (mark_approval id key true now s).1)
  unfolding step
  marked-IsWellFormed now ops s w =
      run-IsWellFormed ops _ (step-IsWellFormed (marks_approval id key true now) s w)

  pub marked-Needed :
      (now : ℕ) (ops : List Op) (s : Store)
      → Spares id ops
      → IsWellFormed s
      → Needed key (lookup id (run ops (mark_approval id key true now s).1).quotes)
  unfolding mark_approval run record_mark
  marked-Needed now ops s fresh w =
      run-Needed ops _ fresh (marked-IsWellFormed now [] s w)
        (record_mark_sets (lookup id (prune now s).quotes) (prune now s) refl)

  pub mark_approval-ne-false :
      (required : Bool) (now : ℕ) (s : Store)
      → IsWellFormed s
      → Needed key (lookup id s.quotes)
      → (mark_approval id key required now s).0 ≢ some false
  unfolding mark_approval
  mark_approval-ne-false required now s w n =
      record_mark-ne-false required _ _ (prune-Needed now s w n)

  -- Once `markApproval` has recorded that a quote needs an approval, no later `markApproval` of the
  -- same quote and key answers that it did not: it answers that it did, or that the quote is gone,
  -- whatever calls other requests make in between that save no quote under the same ID.
  pub mark_approval_sticky :
      (required : Bool) (now later : ℕ) (ops : List Op) (s : Store)
      → Spares id ops
      → IsWellFormed s
      → (mark_approval id key required later (run ops (mark_approval id key true now s).1)).0
        ≢ some false
  mark_approval_sticky required now later ops s fresh w =
      mark_approval-ne-false required later _ (marked-IsWellFormed now ops s w)
        (marked-Needed now ops s fresh w)
