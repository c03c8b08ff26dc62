-- ===== src/Store/Expiry.antt =====
-- store.go: what a lookup finds after the operations, by the clock.
use epeius.Prelude.{
  ℕ, ◌+◌, ◌≤◌, ◌<◌, String, ◌≡◌, refl, ◌∙◌, Bool, false, Option, none, some, [], arith, ltb, length,
  inl, inr, if◌then◌else◌, str_eq, str_eq_refl, Bool-cases,
}
use epeius.Prelude.Dict.{lookup, keep_if, lookup-retain, lookup-insert}
use epeius.Wire.{QuoteRequest, QuoteFinal}
use epeius.Store.Eviction.{
  lookup-make_room, oldest-entry, oldest-NoneBefore, NonemptyKeys, NoneBefore, expiry_of,
}
use epeius.Store.WellFormed.{IsWellFormed, prune-IsWellFormed, save_quote-IsWellFormed}
use epeius.Store.Approvals.{lookup-prune}
use epeius.Store.{
  Store, StoredQuote, Preparation, retention, store_limit, prune, oldest, make_room, save_quote,
  find, detach,
}

abbrev pub is_live_quote : ℕ → StoredQuote → Bool
is_live_quote now q = ltb now q.expires

abbrev pub is_live_preparation : ℕ → Preparation → Bool
is_live_preparation now p = ltb now p.expires

pub lookup-prune_preparation :
    (id : String) (now : ℕ) (s : Store)
    → IsWellFormed s
    → lookup id (prune now s).preparations
      ≡ keep_if (is_live_preparation now) (lookup id s.preparations)
unfolding prune
lookup-prune_preparation id now s w = lookup-retain _ id s.preparations w.distinct_preparations

-- Without a mark of an approval.
abbrev pub without_approvals : Option StoredQuote → Option StoredQuote
without_approvals none = none
without_approvals (some q) =
    some (record { request = q.request; final = q.final; expires = q.expires; approvals = [] })

detach-eq : (o : Option StoredQuote) → detach o ≡ without_approvals o
unfolding detach
detach-eq none = refl
detach-eq (some q) = refl

-- In a well-formed store `lookup` finds exactly the quote and the preparation that the maps hold and whose time has not
-- come, the quote without its approvals.
pub find-eq :
    (quote_id preparation_id : String) (now : ℕ) (s : Store)
    → IsWellFormed s
    → ((find quote_id preparation_id now s).0
        ≡ without_approvals (keep_if (is_live_quote now) (lookup quote_id s.quotes)))
      × ((find quote_id preparation_id now s).1
          ≡ keep_if (is_live_preparation now) (lookup preparation_id s.preparations))
unfolding find
find-eq quote_id preparation_id now s w =
    (ap_detach, lookup-prune_preparation preparation_id now s w)
  where
    ap_detach :
        detach (lookup quote_id (prune now s).quotes)
        ≡ without_approvals (keep_if (is_live_quote now) (lookup quote_id s.quotes))
    ap_detach = detach-eq _ ∙ rw (lookup-prune quote_id now s w) refl

expiry_of-keep_if :
    (now : ℕ) (o : Option StoredQuote) (e : ℕ)
    → expiry_of (λ (q : StoredQuote). q.expires) (keep_if (is_live_quote now) o) ≡ some e
    → expiry_of (λ (q : StoredQuote). q.expires) o ≡ some e
expiry_of-keep_if now none e h = h
expiry_of-keep_if now (some q) e h = ground arith

abbrev pub stored_quote : QuoteRequest → QuoteFinal → ℕ → StoredQuote
stored_quote r f started = record {
  request = r;
  final = f;
  expires = started + retention;
  approvals = [];
}

module _ (r : QuoteRequest) (f : QuoteFinal) (started now : ℕ) (s : Store)
    (w : IsWellFormed s) where
  lookup-save_quote_self :
      lookup f.quote_id (save_quote r f started now s).quotes ≡ some (stored_quote r f started)
  unfolding save_quote
  lookup-save_quote_self = rw (
    lookup-insert f.quote_id f.quote_id (stored_quote r f started)
        (make_room (λ q. q.expires) (prune now s).quotes),
    str_eq_refl f.quote_id,
  )

  -- A quote that was just saved into a well-formed store is found with its request and its final answer until thirty seconds
  -- after its search started, and not from then on.
  pub find-save_quote :
      (preparation_id : String) (later : ℕ)
      → (find f.quote_id preparation_id later (save_quote r f started now s)).0
        ≡ (if ltb later (started + retention) then some (stored_quote r f started) else none)
  unfolding detach
  find-save_quote preparation_id later =
      rw
        (
          (find-eq f.quote_id preparation_id later _
              (save_quote-IsWellFormed now s w r f started)).0,
          lookup-save_quote_self,
        )
        detached
    where
      detached :
          detach (keep_if (is_live_quote later) (some (stored_quote r f started)))
          ≡ (if ltb later (started + retention) then some (stored_quote r f started) else none)
      detached = elim (Bool-cases (ltb later (started + retention))) [
        | inl live ↦ rw live
        | inr gone ↦ rw gone
      ]

  -- With room left, saving a quote keeps every other quote whose time has not come.
  pub lookup-save_quote_room :
      (id : String)
      → length (prune now s).quotes < store_limit
      → str_eq f.quote_id id ≡ false
      → lookup id (save_quote r f started now s).quotes
        ≡ keep_if (is_live_quote now) (lookup id s.quotes)
  unfolding save_quote
  lookup-save_quote_room id room differ = ground (
    arith,
    lookup-insert f.quote_id id (stored_quote r f started)
        (make_room (λ q. q.expires) (prune now s).quotes),
    lookup-make_room (λ (q : StoredQuote). q.expires) id (prune now s).quotes,
    lookup-prune id now s w,
  )

  -- In a well-formed store that is full after pruning and whose IDs are not empty, saving a quote drops
  -- one entry, one that no entry expires before, and keeps every other quote of another ID whose time
  -- has not come.
  pub save_quote_evicts :
      store_limit ≤ length (prune now s).quotes
      → NonemptyKeys (λ (q : StoredQuote). q.expires) (prune now s).quotes
      → (victim : String) × (expiry : ℕ) × (expiry_of
            (λ (q : StoredQuote). q.expires)
            (lookup victim s.quotes)
          ≡ some expiry)
        × NoneBefore (λ q. q.expires) expiry (prune now s).quotes
        × ((id : String)
            → str_eq f.quote_id id ≡ false
            → lookup id (save_quote r f started now s).quotes ≡ (
                if str_eq victim id
                then none
                else keep_if (is_live_quote now) (lookup id s.quotes)))
  unfolding save_quote
  save_quote_evicts full named =
      (chosen.0, chosen.1, pruned_expiry, oldest-NoneBefore _ (prune now s).quotes named, kept)
    where
      chosen : String × ℕ
      chosen = oldest (λ (q : StoredQuote). q.expires) (prune now s).quotes "" 0

      pruned_expiry :
          expiry_of (λ (q : StoredQuote). q.expires) (lookup chosen.0 s.quotes) ≡ some chosen.1
      pruned_expiry = expiry_of-keep_if now _ chosen.1 (
          rw (← lookup-prune chosen.0 now s w) (
            oldest-entry _ (prune now s).quotes (prune-IsWellFormed now s w).distinct_quotes
              (ground arith)))

      kept :
          (id : String)
          → str_eq f.quote_id id ≡ false
          → lookup id (save_quote r f started now s).quotes ≡ (
              if str_eq chosen.0 id then none else keep_if (is_live_quote now) (lookup id s.quotes))
      kept id differ = ground (
        arith,
        lookup-insert f.quote_id id (stored_quote r f started)
            (make_room (λ q. q.expires) (prune now s).quotes),
        lookup-make_room (λ (q : StoredQuote). q.expires) id (prune now s).quotes,
        lookup-prune id now s w,
      )
