-- ===== src/Search/Progress.antt =====
-- handler.go, the search of `GetQuote`: it ends.
use epeius.Prelude.{
  ℕ, zero, suc, String, ◌+◌, ◌*◌, ◌≤◌, ◌<◌, ◌≡◌, refl, sym, ap, Bool, true, false, Option, none,
  some, List, [], ◌∷◌, arith, length, inl, inr, ◌⊎◌, Bool-cases,
}
use mathlib.Core.Path.{subst}
use epeius.Engine.{QuoteCandidate}
use epeius.Search.{
  CandidateSource, SearchCandidates, Task, Pool, Move, starts, replies, resumes, cancels, pick,
  first_of, next, started, replied, resumed, start_worker, resume_worker, move, run_pool,
}

zero_add : (n : ℕ) → n ≡ 0 + n
zero_add n = omega arith

unfoldable pub waiting_count : List CandidateSource → ℕ
waiting_count [] = 0
waiting_count (source ∷ rest) = length source.waiting + waiting_count rest

-- How much is left to do: a round that can start is one step, a worker between two candidates too, a
-- quote that runs is two, and a candidate that waits is three.
unfoldable pub work : Pool → ℕ
unfolding waiting_count
work p = p.to_start + p.resting + 2 * length p.quoting + 3 * waiting_count p.candidates.sources

abbrev Takes : ℕ → Option Task × SearchCandidates → Type 0
Takes n (none, cs) = waiting_count cs.sources ≤ n
Takes n (some t, cs) = suc (waiting_count cs.sources) ≤ n

Takes-waiting :
    (kind : String) (waiting : List QuoteCandidate) (rest : List CandidateSource) (index : ℕ)
    → Takes (waiting_count rest) (first_of index rest)
    → Takes
        (length waiting + waiting_count rest)
        (first_of index (record { kind = kind; waiting = waiting } ∷ rest))
unfolding first_of waiting_count
Takes-waiting kind [] rest index h =
    subst (λ n. Takes n (first_of index rest)) (zero_add (waiting_count rest)) h
Takes-waiting kind (c ∷ waiting) rest index h = omega arith

first_of-Takes :
    (index : ℕ) (sources : List CandidateSource)
    → Takes (waiting_count sources) (first_of index sources)
unfolding first_of waiting_count
first_of-Takes index [] = omega arith
first_of-Takes index (source ∷ rest) =
    Takes-waiting source.kind source.waiting rest index (first_of-Takes index rest)

next-Takes :
    (cancelled : Bool) (s : SearchCandidates) → Takes (waiting_count s.sources) (next cancelled s)
unfolding next
next-Takes true s = omega arith
next-Takes false s = first_of-Takes s.index s.sources

started-work :
    (n : ℕ) (o : Option Task × SearchCandidates) (p : Pool)
    → Takes (waiting_count p.candidates.sources) o
    → p.to_start ≡ suc n
    → work (started n o p) < work p
unfolding started work
started-work n (none, cs) p h e = omega (arith, h, e)
started-work n (some t, cs) p h e = omega (arith, h, e)

resumed-work :
    (n : ℕ) (o : Option Task × SearchCandidates) (p : Pool)
    → Takes (waiting_count p.candidates.sources) o
    → p.resting ≡ suc n
    → work (resumed n o p) < work p
unfolding resumed work
resumed-work n (none, cs) p h e = omega (arith, h, e)
resumed-work n (some t, cs) p h e = omega (arith, h, e)

replied-work :
    (t : Task) (rest : List Task) (p : Pool)
    → length p.quoting ≡ suc (length rest)
    → work (replied (some (t, rest)) p) < work p
unfolding replied work
replied-work t rest p e = elim (Bool-cases p.cancelled) [
  | inl c ↦ rw c (omega (arith, e))
  | inr c ↦ rw c (omega (arith, e))
]

-- An element that is there is picked, and one fewer is left.
pick-length {ℓ} :
    {A : Type ℓ} (k : ℕ) (xs : List A)
    → k < length xs
    → (x : A) × (rest : List A) × (pick k xs ≡ some (x, rest)) × (length xs ≡ suc (length rest))
unfolding pick
pick-length k [] h = absurd (omega (arith, h))
pick-length zero (x ∷ xs) h = (x, xs, refl, refl)
pick-length (suc k) (x ∷ xs) h =
    let (y, rest, e, l) = pick-length k xs (omega (arith, h)) in (y, x ∷ rest, rw e refl, ap suc l)

-- The move can happen: a round is left to start, a worker is between two candidates, or a quote with this
-- place among the running ones runs. The caller can leave at any time.
abbrev pub CanMove : Pool → Move → Type 0
CanMove p starts = (n : ℕ) × (p.to_start ≡ suc n)
CanMove p resumes = (n : ℕ) × (p.resting ≡ suc n)
CanMove p (replies k) = k < length p.quoting
CanMove p cancels = Unit

abbrev pub CanRun : Pool → List Move → Type 0
CanRun p [] = Unit
CanRun p (m ∷ moves) = CanMove p m × CanRun (move m p) moves

-- How many of the moves are not the caller's.
abbrev pub steps : List Move → ℕ
steps [] = 0
steps (starts ∷ moves) = suc (steps moves)
steps (resumes ∷ moves) = suc (steps moves)
steps (replies k ∷ moves) = suc (steps moves)
steps (cancels ∷ moves) = steps moves

-- Every worker has returned.
abbrev pub IsFinished : Pool → Type 0
IsFinished p = (p.to_start ≡ 0) × (p.resting ≡ 0) × (p.quoting ≡ [])

-- A move of a round, of a worker or of a quote can happen.
abbrev pub GoesOn : Pool → Type 0
GoesOn p = (m : Move) × CanMove p m × (steps (m ∷ []) ≡ 1)

move-work : (m : Move) (p : Pool) → CanMove p m → steps (m ∷ []) + work (move m p) ≤ work p
unfolding move start_worker resume_worker
move-work starts p (n, e) = lowered (
    subst (λ k. work (start_worker k p) < work p) (sym e)
      (unfold start_worker in started-work n _ p (next-Takes p.cancelled p.candidates) e))
  where
    lowered : {a b : ℕ} → a < b → 1 + a ≤ b
    lowered h = omega (arith, h)
move-work resumes p (n, e) = lowered (
    subst (λ k. work (resume_worker k p) < work p) (sym e)
      (unfold resume_worker in resumed-work n _ p (next-Takes p.cancelled p.candidates) e))
  where
    lowered : {a b : ℕ} → a < b → 1 + a ≤ b
    lowered h = omega (arith, h)
move-work (replies k) p h =
    let (t, rest, picked, l) = pick-length k p.quoting h in
    lowered (
      subst (λ (o : Option (Task × List Task)). work (replied o p) < work p) (sym picked)
        (replied-work t rest p l))
  where
    lowered : {a b : ℕ} → a < b → 1 + a ≤ b
    lowered h = omega (arith, h)
move-work cancels p h = unfold work in omega arith

steps-cons : (m : Move) (moves : List Move) → steps (m ∷ moves) ≡ steps (m ∷ []) + steps moves
steps-cons starts moves = omega arith
steps-cons resumes moves = omega arith
steps-cons (replies k) moves = omega arith
steps-cons cancels moves = omega arith

steps-le : (moves : List Move) (p : Pool) → CanRun p moves → steps moves ≤ work p
steps-le [] p h = omega arith
steps-le (m ∷ moves) p (can, h) =
    omega (arith, steps-cons m moves, move-work m p can, steps-le moves (move m p) h)

IsFinished-or-GoesOn :
    (a b : ℕ) (ts : List Task) (p : Pool)
    → p.to_start ≡ a
    → p.resting ≡ b
    → p.quoting ≡ ts
    → IsFinished p ⊎ GoesOn p
IsFinished-or-GoesOn (suc a) b ts p e f g = inr (starts, (a, e), refl)
IsFinished-or-GoesOn zero (suc b) ts p e f g = inr (resumes, (b, f), refl)
IsFinished-or-GoesOn zero zero (t ∷ ts) p e f g =
    inr (replies 0, subst (λ xs. 0 < length xs) (sym g) (omega arith), refl)
IsFinished-or-GoesOn zero zero [] p e f g = inl (e, f, g)

-- A search ends in whatever order its rounds, its workers and its quotes go on, and whenever the caller
-- leaves: a run, from any state, of moves that can happen has at most as many moves besides the
-- caller's as there is work at its start, and after it either all the workers have returned or a
-- further move of a round, of a worker or of a quote can happen.
pub search_completes :
    (p : Pool) (moves : List Move)
    → CanRun p moves
    → (steps moves ≤ work p) × (IsFinished (run_pool moves p) ⊎ GoesOn (run_pool moves p))
search_completes p moves h =
    let q = run_pool moves p in
    (steps-le moves p h, IsFinished-or-GoesOn q.to_start q.resting q.quoting q refl refl refl)
