-- ===== src/Search/Bounds.antt =====
-- handler.go, the search of `GetQuote`: how many quotes run at once.
use epeius.Prelude.{
  ℕ, zero, suc, ◌+◌, ◌≤◌, ◌≡◌, refl, Option, none, some, List, [], ◌∷◌, arith, length, inl, inr,
  Bool-cases,
}
use epeius.Search.{
  CandidateSource, SearchCandidates, Task, Pool, Move, starts, replies, resumes, cancels,
  fresh_pool, pick, started, replied, resumed, start_worker, resume_worker, move, run_pool,
}

-- The workers, those that may still start among them.
abbrev workers : Pool → ℕ
workers p = p.to_start + p.resting + length p.quoting

module _ {ℓ} {A : Type ℓ} where
  abbrev Drops : List A → Option (A × List A) → Type 0
  Drops xs none = Unit
  Drops xs (some (x, rest)) = suc (length rest) ≡ length xs

  Drops-suc :
      (x : A) (xs : List A) (o : Option (A × List A))
      → Drops xs o
      → Drops (x ∷ xs) (elim o [ none ↦ none | some p ↦ some (p.0, x ∷ p.1) ])
  Drops-suc x xs none h = tt
  Drops-suc x xs (some (y, rest)) h = omega (arith, h)

  pick-Drops : (k : ℕ) (xs : List A) → Drops xs (pick k xs)
  unfolding pick
  pick-Drops k [] = tt
  pick-Drops zero (x ∷ xs) = refl
  pick-Drops (suc k) (x ∷ xs) = Drops-suc x xs (pick k xs) (pick-Drops k xs)

started-workers :
    (n : ℕ) (o : Option Task × SearchCandidates) (p : Pool)
    → p.to_start ≡ suc n
    → workers (started n o p) ≤ workers p
unfolding started
started-workers n (none, cs) p e = omega (arith, e)
started-workers n (some t, cs) p e = omega (arith, e)

resumed-workers :
    (n : ℕ) (o : Option Task × SearchCandidates) (p : Pool)
    → p.resting ≡ suc n
    → workers (resumed n o p) ≤ workers p
unfolding resumed
resumed-workers n (none, cs) p e = omega (arith, e)
resumed-workers n (some t, cs) p e = omega (arith, e)

replied-workers :
    (o : Option (Task × List Task)) (p : Pool)
    → Drops p.quoting o
    → workers (replied o p) ≤ workers p
unfolding replied
replied-workers none p h = omega arith
replied-workers (some (t, rest)) p h = elim (Bool-cases p.cancelled) [
  | inl c ↦ rw c (omega (arith, h))
  | inr c ↦ rw c (omega (arith, h))
]

start_worker-workers : (n : ℕ) (p : Pool) → p.to_start ≡ n → workers (start_worker n p) ≤ workers p
unfolding start_worker
start_worker-workers zero p e = omega arith
start_worker-workers (suc n) p e = started-workers n _ p e

resume_worker-workers : (n : ℕ) (p : Pool) → p.resting ≡ n → workers (resume_worker n p) ≤ workers p
unfolding resume_worker
resume_worker-workers zero p e = omega arith
resume_worker-workers (suc n) p e = resumed-workers n _ p e

move-workers : (m : Move) (p : Pool) → workers (move m p) ≤ workers p
unfolding move
move-workers starts p = start_worker-workers p.to_start p refl
move-workers (replies k) p = replied-workers (pick k p.quoting) p (pick-Drops k p.quoting)
move-workers resumes p = resume_worker-workers p.resting p refl
move-workers cancels p = omega arith

run_pool-workers : (moves : List Move) (p : Pool) → workers (run_pool moves p) ≤ workers p
unfolding run_pool
run_pool-workers [] p = omega arith
run_pool-workers (m ∷ moves) p = omega (arith, move-workers m p, run_pool-workers moves (move m p))

-- At no point of any schedule do more quotes run at once than `QuoteConcurrency`.
pub run_pool_bound :
    (sources : List CandidateSource) (concurrency : ℕ) (moves : List Move)
    → length (run_pool moves (fresh_pool sources concurrency)).quoting ≤ concurrency
unfolding fresh_pool
run_pool_bound sources concurrency moves =
    omega (arith, run_pool-workers moves (fresh_pool sources concurrency))
