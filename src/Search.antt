-- ===== src/Search.antt =====
-- services/quote-engine/internal/quote/handler.go, `searchCandidates` and the workers of `GetQuote`: one
-- queue of candidates, from which at most `QuoteConcurrency` goroutines take. A schedule of the
-- goroutines is a list of moves. Since `results` has no buffer, some schedules of the model are ones
-- that Go does not have; it has all of Go's.
pub mod Tasks
pub mod Progress
pub mod Bounds
pub mod Schedule
use epeius.Prelude.{
  ℕ, zero, suc, ◌+◌, String, Bool, true, false, Option, none, some, List, [], ◌∷◌, ◌++◌, map, ltb,
  if◌then◌else◌,
}
use epeius.Wire.{RouteQuote, ProviderError}
use epeius.Engine.{QuoteCandidate, Quoted, quoted, missing, quote_error}

-- What the source's callback has not yielded yet is `waiting`.
pub record CandidateSource : Type 0 where
  pub kind : String
  pub waiting : List QuoteCandidate

pub record SearchCandidates : Type 0 where
  pub sources : List CandidateSource
  pub index : ℕ

pub record Task : Type 0 where
  pub index : ℕ
  pub kind : String
  pub candidate : QuoteCandidate

pub record Result : Type 0 where
  pub index : ℕ
  pub route : Option RouteQuote
  pub err : Option ProviderError

-- The loop of `next` over the sources, from the one at the head.
unfoldable pub first_of : ℕ → List CandidateSource → Option Task × SearchCandidates
first_of index [] = (none, record { sources = []; index = index })
first_of index (source ∷ rest) = elim source.waiting [
  | [] ↦ first_of index rest
  | c ∷ waiting ↦ (
    some (record { index = index; kind = source.kind; candidate = c }),
    record { sources = record { kind = source.kind; waiting = waiting } ∷ rest; index = suc index },
  )
]

-- searchCandidates.next
unfoldable pub next : Bool → SearchCandidates → Option Task × SearchCandidates
next cancelled s = if cancelled then (none, s) else first_of s.index s.sources

-- What a worker sends for the answer of its candidate.
unfoldable pub answer : ℕ → String → String → Quoted → Result
answer index kind id (quoted route) = record { index = index; route = some route; err = none }
answer index kind id missing = record { index = index; route = none; err = none }
answer index kind id (quote_error message) = record {
  index = index;
  route = none;
  err = some (record { provider = kind; route_id = some id; message = message });
}

unfoldable pub answered : Task → Result
unfolding answer
answered t = answer t.index t.kind t.candidate.id t.candidate.quote

unfoldable pub expired : Task → Result
expired t = record {
  index = t.index;
  route = none;
  err = some (record {
    provider = t.kind;
    route_id = some t.candidate.id;
    message = "search budget expired";
  });
}

-- `to_start` of the loop's rounds are left; `resting` workers have sent a result and not asked for
-- the next candidate yet.
pub record Pool : Type 0 where
  pub candidates : SearchCandidates
  pub to_start : ℕ
  pub quoting : List Task
  pub resting : ℕ
  pub results : List Result
  pub cancelled : Bool

unfoldable pub fresh_pool : List CandidateSource → ℕ → Pool
fresh_pool sources concurrency = record {
  candidates = record { sources = sources; index = 0 };
  to_start = concurrency;
  quoting = [];
  resting = 0;
  results = [];
  cancelled = false;
}

-- `replies k` is the answer that the k-th of the running quotes gets.
pub data Move : Type 0 where
  starts : Move
  replies : ℕ → Move
  resumes : Move
  cancels : Move

unfoldable pub pick {ℓ} : {A : Type ℓ} → ℕ → List A → Option (A × List A)
pick k [] = none
pick zero (x ∷ xs) = some (x, xs)
pick (suc k) (x ∷ xs) = elim (pick k xs) [ none ↦ none | some p ↦ some (p.0, x ∷ p.1) ]

unfoldable pub started : ℕ → Option Task × SearchCandidates → Pool → Pool
started n (none, cs) p = record p { candidates = cs; to_start = 0 }
started n (some t, cs) p = record p { candidates = cs; to_start = n; quoting = t ∷ p.quoting }

unfoldable pub replied : Option (Task × List Task) → Pool → Pool
replied none p = p
replied (some (t, rest)) p = record p {
  quoting = rest;
  resting = if p.cancelled then p.resting else suc p.resting;
  results = p.results ++ ((if p.cancelled then expired t else answered t) ∷ []);
}

unfoldable pub resumed : ℕ → Option Task × SearchCandidates → Pool → Pool
resumed n (none, cs) p = record p { candidates = cs; resting = n }
resumed n (some t, cs) p = record p { candidates = cs; resting = n; quoting = t ∷ p.quoting }

unfoldable pub start_worker : ℕ → Pool → Pool
start_worker zero p = p
start_worker (suc n) p = started n (next p.cancelled p.candidates) p

unfoldable pub resume_worker : ℕ → Pool → Pool
resume_worker zero p = p
resume_worker (suc n) p = resumed n (next p.cancelled p.candidates) p

unfoldable pub move : Move → Pool → Pool
move starts p = start_worker p.to_start p
move (replies k) p = replied (pick k p.quoting) p
move resumes p = resume_worker p.resting p
move cancels p = record p { cancelled = true }

unfoldable pub run_pool : List Move → Pool → Pool
run_pool [] p = p
run_pool (m ∷ moves) p = run_pool moves (move m p)

unfoldable pub done_of : ℕ → ℕ → List Task → Bool
done_of zero zero [] = true
done_of zero zero (t ∷ ts) = false
done_of zero (suc n) ts = false
done_of (suc n) m ts = false

-- Every worker has returned, so that `results` is closed.
unfoldable pub is_done : Pool → Bool
unfolding done_of
is_done p = done_of p.to_start p.resting p.quoting
