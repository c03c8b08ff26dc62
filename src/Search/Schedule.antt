-- ===== src/Search/Schedule.antt =====
-- handler.go, the search of `GetQuote`: what the sorted results are, whatever the schedule.
use epeius.Prelude.{
  ℕ, zero, suc, ◌+◌, String, ◌≡◌, refl, sym, ◌∙◌, true, false, Option, none, some, List, [], ◌∷◌,
  ◌++◌, map, arith, length, inl, inr, Bool-cases,
}
use mathlib.Core.Path.{subst}
use mathlib.Core.Bool.{true≢false}
use mathlib.Core.List.{Permᴰ}
use mathlib.Core.List.Permᴰ
use mathlib.Core.List.{append-nil}
use epeius.Prelude.Ordered.{Ascending, Ascending-Pairwise, sort_by-Ascending, sort_by-Permᴰ}
use epeius.Engine.{QuoteCandidate, Quoted, quoted, missing, quote_error}
use epeius.Search.{
  CandidateSource, SearchCandidates, Task, Result, answered, answer, Pool, Move, starts, replies,
  resumes, cancels, fresh_pool, pick, next, started, replied, resumed, start_worker, resume_worker,
  move, run_pool, done_of, is_done,
}
use epeius.Search.Tasks.{
  Hands, IsSteady, Picks, all_results, next-Hands, order_results, pick-Picks, positive,
  result_index, tasks, tasks_in, to_front, to_results,
}

module _ (all : List Result) where
  abbrev Accounts : Pool → List Task → Type 0
  Accounts p ts = Permᴰ (map answered p.quoting ++ (p.results ++ map answered ts)) all

  -- A worker that takes the next task, as a pool of which `a` rounds and `b` workers are left.
  abbrev With : ℕ → ℕ → Option Task × SearchCandidates → Pool → Pool
  With a b (none, cs) p = record p { candidates = cs; to_start = a; resting = b }
  With a b (some t, cs) p = record p {
    candidates = cs;
    to_start = a;
    resting = b;
    quoting = t ∷ p.quoting;
  }

  With-IsSteady :
      (a b : ℕ) (o : Option Task × SearchCandidates) (p : Pool)
      → Hands (tasks p.candidates.sources p.candidates.index) o
      → Accounts p (tasks p.candidates.sources p.candidates.index)
      → IsSteady all (With a b o p)
  With-IsSteady a b (none, cs) p (e, f) d = inr (rw f (subst (λ ts. Accounts p ts) e d), λ z. f)
  With-IsSteady a b (some t, cs) p e d = inr (
    Permᴰ.trans
        (to_front (answered t) (map answered p.quoting) p.results
          (map answered (tasks cs.sources cs.index)))
        (subst (λ ts. Accounts p ts) e d),
    λ z. elim (positive a b (length p.quoting) z) [ ],
  )

  replied-IsSteady :
      (o : Option (Task × List Task)) (p : Pool)
      → Picks answered p.quoting o
      → p.cancelled ≡ false
      → IsSteady all p
      → IsSteady all (replied o p)
  unfolding replied
  replied-IsSteady none p h c s = s
  replied-IsSteady (some (t, rest)) p h c (inl e) = inl e
  replied-IsSteady (some (t, rest)) p h c (inr (d, z)) = rw c (
      inr (
        Permᴰ.trans
            (to_results (answered t) (map answered p.quoting) (map answered rest) p.results
              (map answered (tasks p.candidates.sources p.candidates.index)) h)
            d,
        λ e. omega (arith, e),
      ))

  started-IsSteady :
      (n : ℕ) (o : Option Task × SearchCandidates) (p : Pool)
      → Hands (tasks p.candidates.sources p.candidates.index) o
      → Accounts p (tasks p.candidates.sources p.candidates.index)
      → IsSteady all (started n o p)
  unfolding started
  started-IsSteady n (none, cs) p h d = With-IsSteady 0 p.resting (none, cs) p h d
  started-IsSteady n (some t, cs) p h d = With-IsSteady n p.resting (some t, cs) p h d

  resumed-IsSteady :
      (n : ℕ) (o : Option Task × SearchCandidates) (p : Pool)
      → Hands (tasks p.candidates.sources p.candidates.index) o
      → Accounts p (tasks p.candidates.sources p.candidates.index)
      → IsSteady all (resumed n o p)
  unfolding resumed
  resumed-IsSteady n (none, cs) p h d = With-IsSteady p.to_start n (none, cs) p h d
  resumed-IsSteady n (some t, cs) p h d = With-IsSteady p.to_start n (some t, cs) p h d

  start_worker-IsSteady :
      (n : ℕ) (p : Pool)
      → p.cancelled ≡ false
      → Accounts p (tasks p.candidates.sources p.candidates.index)
      → IsSteady all p
      → IsSteady all (start_worker n p)
  unfolding start_worker
  start_worker-IsSteady zero p c d s = s
  start_worker-IsSteady (suc n) p c d s =
      started-IsSteady n (next p.cancelled p.candidates) p (next-Hands p.cancelled p.candidates c) d

  resume_worker-IsSteady :
      (n : ℕ) (p : Pool)
      → p.cancelled ≡ false
      → Accounts p (tasks p.candidates.sources p.candidates.index)
      → IsSteady all p
      → IsSteady all (resume_worker n p)
  unfolding resume_worker
  resume_worker-IsSteady zero p c d s = s
  resume_worker-IsSteady (suc n) p c d s =
      resumed-IsSteady n (next p.cancelled p.candidates) p (next-Hands p.cancelled p.candidates c) d

started-cancelled :
    (n : ℕ) (o : Option Task × SearchCandidates) (p : Pool)
    → (started n o p).cancelled ≡ p.cancelled
unfolding started
started-cancelled n (none, cs) p = refl
started-cancelled n (some t, cs) p = refl

resumed-cancelled :
    (n : ℕ) (o : Option Task × SearchCandidates) (p : Pool)
    → (resumed n o p).cancelled ≡ p.cancelled
unfolding resumed
resumed-cancelled n (none, cs) p = refl
resumed-cancelled n (some t, cs) p = refl

start_worker-cancelled : (n : ℕ) (p : Pool) → (start_worker n p).cancelled ≡ p.cancelled
unfolding start_worker
start_worker-cancelled zero p = refl
start_worker-cancelled (suc n) p = started-cancelled n _ p

resume_worker-cancelled : (n : ℕ) (p : Pool) → (resume_worker n p).cancelled ≡ p.cancelled
unfolding resume_worker
resume_worker-cancelled zero p = refl
resume_worker-cancelled (suc n) p = resumed-cancelled n _ p

replied-cancelled :
    (o : Option (Task × List Task)) (p : Pool) → (replied o p).cancelled ≡ p.cancelled
unfolding replied
replied-cancelled none p = refl
replied-cancelled (some (t, rest)) p = refl

-- The search stays cancelled.
pub move-cancelled : (m : Move) (p : Pool) → p.cancelled ≡ true → (move m p).cancelled ≡ true
unfolding move
move-cancelled starts p c = start_worker-cancelled p.to_start p ∙ c
move-cancelled (replies k) p c = replied-cancelled (pick k p.quoting) p ∙ c
move-cancelled resumes p c = resume_worker-cancelled p.resting p ∙ c
move-cancelled cancels p c = refl

module _ (all : List Result) where
  live_move-IsSteady :
      (m : Move) (p : Pool)
      → p.cancelled ≡ false
      → Accounts all p (tasks p.candidates.sources p.candidates.index)
      → IsSteady all p
      → IsSteady all (move m p)
  unfolding move
  live_move-IsSteady starts p c d s = start_worker-IsSteady all p.to_start p c d s
  live_move-IsSteady (replies k) p c d s =
      replied-IsSteady all (pick k p.quoting) p (pick-Picks answered k p.quoting) c s
  live_move-IsSteady resumes p c d s = resume_worker-IsSteady all p.resting p c d s
  live_move-IsSteady cancels p c d s = inl refl

  move-IsSteady : (m : Move) (p : Pool) → IsSteady all p → IsSteady all (move m p)
  move-IsSteady m p (inl e) = inl (move-cancelled m p e)
  move-IsSteady m p (inr (d, z)) = elim (Bool-cases p.cancelled) [
    | inl e ↦ inl (move-cancelled m p e)
    | inr f ↦ live_move-IsSteady m p f d (inr (d, z))
  ]

  run_pool-IsSteady :
      (moves : List Move) (p : Pool) → IsSteady all p → IsSteady all (run_pool moves p)
  unfolding run_pool
  run_pool-IsSteady [] p s = s
  run_pool-IsSteady (m ∷ moves) p s = run_pool-IsSteady moves (move m p) (move-IsSteady m p s)

done-count :
    (a b : ℕ) (ts : List Task) → done_of a b ts ≡ true → (a + b + length ts ≡ 0) × (ts ≡ [])
unfolding done_of
done-count zero zero [] h = (refl, refl)
done-count zero zero (t ∷ ts) h = ground arith
done-count zero (suc b) ts h = ground arith
done-count (suc a) b ts h = ground arith

answer-index : (index : ℕ) (kind id : String) (q : Quoted) → (answer index kind id q).index ≡ index
unfolding answer
answer-index index kind id (quoted route) = refl
answer-index index kind id missing = refl
answer-index index kind id (quote_error message) = refl

answered-index : (t : Task) → (answered t).index ≡ t.index
unfolding answered
answered-index t = answer-index t.index t.kind t.candidate.id t.candidate.quote

tasks_in-Ascending :
    (index : ℕ) (kind : String) (waiting : List QuoteCandidate) (rest : ℕ → List Task)
    → ((n : ℕ) → Ascending result_index n (map answered (rest n)))
    → Ascending result_index index (map answered (tasks_in index kind waiting rest))
unfolding tasks_in
tasks_in-Ascending index kind [] rest h = h index
tasks_in-Ascending index kind (c ∷ waiting) rest h = (
  omega (arith, answered-index (record { index = index; kind = kind; candidate = c })),
  rw (answered-index (record { index = index; kind = kind; candidate = c }))
      (tasks_in-Ascending (suc index) kind waiting rest h),
)

tasks-Ascending :
    (sources : List CandidateSource) (index : ℕ)
    → Ascending result_index index (map answered (tasks sources index))
unfolding tasks
tasks-Ascending [] index = tt
tasks-Ascending (source ∷ rest) index =
    tasks_in-Ascending index source.kind source.waiting (tasks rest) (tasks-Ascending rest)

abbrev pub searched : ℕ → List CandidateSource → List Move → Pool
searched concurrency sources moves = run_pool moves (fresh_pool sources concurrency)

fresh_pool-IsSteady :
    (n : ℕ) (sources : List CandidateSource)
    → IsSteady (all_results sources) (fresh_pool sources (suc n))
unfolding fresh_pool all_results
fresh_pool-IsSteady n sources =
    inr (Permᴰ.refl (all_results sources), λ z. elim (positive 0 0 n (omega (arith, z))) [ ])

done-Permᴰ :
    (all : List Result) (p : Pool)
    → IsSteady all p
    → is_done p ≡ true
    → p.cancelled ≡ false
    → Permᴰ p.results all
unfolding is_done
done-Permᴰ all p (inl e) d c = elim (true≢false (sym e ∙ c)) [ ]
done-Permᴰ all p (inr (perm, z)) d c =
    let (count, none_left) = done-count p.to_start p.resting p.quoting d in
    let waiting = map answered (tasks p.candidates.sources p.candidates.index) in
    subst (λ rs. Permᴰ rs all) (append-nil p.results)
      (subst (λ ts. Permᴰ (p.results ++ map answered ts) all) (z count)
        (subst (λ ts. Permᴰ (map answered ts ++ (p.results ++ waiting)) all) none_left perm))

-- Once every worker has returned, and the search was not cancelled before that, the results in the
-- order of their indices are the answers of all the candidates of all the sources, in the order of
-- the sources and each once: how many workers there were, at least one, and how they interleaved
-- does not show.
pub search-eq :
    (n : ℕ) (sources : List CandidateSource) (moves : List Move)
    → is_done (searched (suc n) sources moves) ≡ true
    → (searched (suc n) sources moves).cancelled ≡ false
    → order_results (searched (suc n) sources moves).results ≡ all_results sources
unfolding order_results all_results
search-eq n sources moves d c =
    sym (
      sort_by-Permᴰ result_index
        (Permᴰ.symm (
          done-Permᴰ (all_results sources) (searched (suc n) sources moves)
            (run_pool-IsSteady (all_results sources) moves (fresh_pool sources (suc n))
              (fresh_pool-IsSteady n sources))
            d c))
        (Ascending-Pairwise result_index 0 (all_results sources) (tasks-Ascending sources 0)))
    ∙ sort_by-Ascending result_index 0 (all_results sources) (tasks-Ascending sources 0)
