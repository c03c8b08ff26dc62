-- ===== src/Store.antt =====
-- services/quote-engine/internal/quote/store.go, and the plan of preparation.go that it keeps. Each
-- operation holds the mutex from start to end, so it is one step from a store to a store. A moment
-- is a number of nanoseconds; the readings of `time.Now()` are arguments.
pub mod WellFormed
pub mod Expiry
pub mod Approvals
pub mod Eviction
use epeius.Prelude.{
  ℕ, ◌+◌, ◌*◌, String, Bool, true, false, ◌||◌, Option, none, some, List, [], ◌∷◌, ltb, leb, str_eq,
  is_empty, length, if◌then◌else◌,
}
use epeius.Prelude.Dict.{Dict, lookup, erase, insert, retain}
use epeius.Prelude.Int.{ℤ}
use epeius.Wire.{QuoteRequest, QuoteFinal, UnsignedTransaction, PrepareExecutionResponse}
use epeius.Evm.{Reader}

-- 30 * time.Second
abbrev pub retention : ℕ
retention = 30_000_000_000

abbrev pub store_limit : ℕ
store_limit = 1024

pub record PermissionPlan : Type 0 where
  pub target : String
  pub token : String
  pub spender : String
  pub amount : ℤ
  pub expiration : ℕ

pub record BalanceProbe : Type 0 where
  pub token : String
  pub owner : String

pub record AllowanceProbe : Type 0 where
  pub token : String
  pub owner : String
  pub spender : String

pub record SimulationChecks : Type 0 where
  pub input : BalanceProbe
  pub output : BalanceProbe
  pub preserve : List BalanceProbe
  pub clear_allowances : List AllowanceProbe

-- `verify` answers the empty text where it accepts.
pub record ExecutionPlan : Type 0 where
  pub transaction : UnsignedTransaction
  pub spender : String
  pub permission : Option PermissionPlan
  pub checks : SimulationChecks
  pub verify : Option (Reader → ℕ → String)

pub record StoredQuote : Type 0 where
  pub request : QuoteRequest
  pub final : QuoteFinal
  pub expires : ℕ
  pub approvals : Dict Bool

pub record Preparation : Type 0 where
  pub plan : ExecutionPlan
  pub open plan use *
  pub response : PrepareExecutionResponse
  pub chain : String
  pub expires : ℕ
  pub approval : Bool

pub record Store : Type 0 where
  pub quotes : Dict StoredQuote
  pub preparations : Dict Preparation

abbrev pub new_store : Store
new_store = record { quotes = []; preparations = [] }

unfoldable pub prune : ℕ → Store → Store
prune now s = record {
  quotes = retain (λ q. ltb now q.expires) s.quotes;
  preparations = retain (λ p. ltb now p.expires) s.preparations;
}

-- The loop over the entries that looks for the one to evict, with its two variables.
unfoldable pub oldest {ℓ} : {V : Type ℓ} → (V → ℕ) → Dict V → String → ℕ → String × ℕ
oldest expires [] id expiry = (id, expiry)
oldest expires ((k, v) ∷ m) id expiry =
    let sooner = is_empty id || ltb (expires v) expiry in
    oldest expires m (if sooner then k else id) (if sooner then expires v else expiry)

-- `if len(m) >= storeLimit { … delete(m, oldest) }`
unfoldable pub make_room {ℓ} : {V : Type ℓ} → (V → ℕ) → Dict V → Dict V
make_room expires m = if leb store_limit (length m) then erase (oldest expires m "" 0).0 m else m

unfoldable pub save_quote : QuoteRequest → QuoteFinal → ℕ → ℕ → Store → Store
save_quote r f started now s =
    let pruned = prune now s in
    let stored : StoredQuote = record {
      request = r;
      final = f;
      expires = started + retention;
      approvals = [];
    } in
    record pruned { quotes = insert f.quote_id stored (make_room (λ q. q.expires) pruned.quotes) }

unfoldable pub save_preparation : Preparation → ℕ → Store → Store
save_preparation p now s =
    let pruned = prune now s in
    record pruned {
      preparations =
          insert p.response.preparation_id p (make_room (λ v. v.expires) pruned.preparations);
    }

-- The approvals never leave the store.
unfoldable pub detach : Option StoredQuote → Option StoredQuote
detach none = none
detach (some q) = some (record q { approvals = [] })

unfoldable pub find : String → String → ℕ → Store → Option StoredQuote × Option Preparation × Store
find quote_id preparation_id now s =
    let pruned = prune now s in
    (detach (lookup quote_id pruned.quotes), lookup preparation_id pruned.preparations, pruned)

-- q.approvals[key]
abbrev pub is_approved : String → StoredQuote → Bool
is_approved key q = elim (lookup key q.approvals) [ none ↦ false | some b ↦ b ]

unfoldable pub mark : String → Bool → StoredQuote → StoredQuote
mark key required q = if required then record q { approvals = insert key true q.approvals } else q

-- The quote's approvals are a map that the stored copies share, so the mark is a write to the store.
unfoldable pub record_mark :
    String → String → Bool → Option StoredQuote → Store → Option Bool × Store
unfolding mark
record_mark quote_id key required none s = (none, s)
record_mark quote_id key required (some q) s =
    (some (is_approved key q), record s { quotes = insert quote_id (mark key required q) s.quotes })

-- `none` where the quote is not found, else whether it needed the approval before.
unfoldable pub mark_approval : String → String → Bool → ℕ → Store → Option Bool × Store
mark_approval quote_id key required now s =
    let pruned = prune now s in
    record_mark quote_id key required (lookup quote_id pruned.quotes) pruned

-- One call of the store by any request.
pub data Op : Type 0 where
  saves_quote : QuoteRequest → QuoteFinal → ℕ → ℕ → Op
  saves_preparation : Preparation → ℕ → Op
  finds : String → String → ℕ → Op
  marks_approval : String → String → Bool → ℕ → Op

unfoldable pub step : Op → Store → Store
step (saves_quote r f started now) s = save_quote r f started now s
step (saves_preparation p now) s = save_preparation p now s
step (finds quote_id preparation_id now) s = (find quote_id preparation_id now s).2
step (marks_approval quote_id key required now) s = (mark_approval quote_id key required now s).1

unfoldable pub run : List Op → Store → Store
run [] s = s
run (o ∷ ops) s = run ops (step o s)
