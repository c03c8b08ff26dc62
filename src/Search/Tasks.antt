-- ===== src/Search/Tasks.antt =====
-- handler.go, the search of `GetQuote`: the tasks in order, and how a worker takes the next one.
use epeius.Prelude.{
  ℕ, zero, suc, ◌+◌, String, ◌≡◌, refl, sym, Bool, true, false, Option, none, some, List, [], ◌∷◌,
  ◌++◌, map, arith, length, ◌⊎◌, ◌≢◌,
}
use mathlib.Core.List.{Permᴰ}
use mathlib.Core.List.Permᴰ
use mathlib.Core.List.{append_assoc}
use epeius.Prelude.Sort.{sort_by}
use epeius.Prelude.Ordered.{by_key}
use epeius.Engine.{QuoteCandidate}
use epeius.Search.{
  CandidateSource, SearchCandidates, Task, Result, answered, Pool, pick, first_of, next,
}

-- The tasks of the sources in order, numbered from `index`: what `next` hands out.
unfoldable pub tasks_in : ℕ → String → List QuoteCandidate → (ℕ → List Task) → List Task
tasks_in index kind [] rest = rest index
tasks_in index kind (c ∷ waiting) rest =
    record { index = index; kind = kind; candidate = c } ∷ tasks_in (suc index) kind waiting rest

unfoldable pub tasks : List CandidateSource → ℕ → List Task
unfolding tasks_in
tasks [] index = []
tasks (source ∷ rest) index = tasks_in index source.kind source.waiting (tasks rest)

-- The results of a search that is not cancelled.
unfoldable pub all_results : List CandidateSource → List Result
all_results sources = map answered (tasks sources 0)

abbrev pub result_index : Result → ℕ
result_index r = r.index

unfoldable pub order_results : List Result → List Result
order_results = sort_by (by_key result_index)

-- What has been answered, what is being quoted and what waits.
abbrev pub accounted : Pool → List Result
accounted p =
    map answered p.quoting
    ++ (p.results ++ map answered (tasks p.candidates.sources p.candidates.index))

abbrev pub IsSteady : List Result → Pool → Type 0
IsSteady all p =
    (p.cancelled ≡ true)
    ⊎ (Permᴰ (accounted p) all
        × (p.to_start + p.resting + length p.quoting ≡ 0
            → tasks p.candidates.sources p.candidates.index ≡ []))

-- `next` hands out the first of the tasks and leaves the others.
abbrev pub Hands : List Task → Option Task × SearchCandidates → Type 0
Hands ts (none, cs) = (ts ≡ []) × (tasks cs.sources cs.index ≡ [])
Hands ts (some t, cs) = ts ≡ (t ∷ tasks cs.sources cs.index)

pub Hands-waiting :
    (kind : String) (waiting : List QuoteCandidate) (rest : List CandidateSource) (index : ℕ)
    → Hands (tasks rest index) (first_of index rest)
    → Hands
        (tasks (record { kind = kind; waiting = waiting } ∷ rest) index)
        (first_of index (record { kind = kind; waiting = waiting } ∷ rest))
unfolding tasks tasks_in first_of
Hands-waiting kind [] rest index h = h
Hands-waiting kind (c ∷ waiting) rest index h = refl

pub first_of-Hands :
    (index : ℕ) (sources : List CandidateSource)
    → Hands (tasks sources index) (first_of index sources)
unfolding tasks tasks_in first_of
first_of-Hands index [] = (refl, refl)
first_of-Hands index (source ∷ rest) =
    Hands-waiting source.kind source.waiting rest index (first_of-Hands index rest)

pub next-Hands :
    (cancelled : Bool) (s : SearchCandidates)
    → cancelled ≡ false
    → Hands (tasks s.sources s.index) (next cancelled s)
unfolding next
next-Hands cancelled s c = rw c (first_of-Hands s.index s.sources)

pub positive : (a b n : ℕ) → a + b + suc n ≢ 0
positive a b n = omega arith

module _ {ℓ κ} {A : Type ℓ} {B : Type κ} (f : A → B) where
  abbrev pub Picks : List A → Option (A × List A) → Type κ
  Picks xs none = Unit
  Picks xs (some (x, rest)) = Permᴰ (f x ∷ map f rest) (map f xs)

  pub Picks-suc :
      (x : A) (xs : List A) (o : Option (A × List A))
      → Picks xs o
      → Picks (x ∷ xs) (elim o [ none ↦ none | some p ↦ some (p.0, x ∷ p.1) ])
  Picks-suc x xs none h = tt
  Picks-suc x xs (some (y, rest)) h = Permᴰ.trans (Permᴰ.swap refl refl) (Permᴰ.cons refl h)

  pub pick-Picks : (k : ℕ) (xs : List A) → Picks xs (pick k xs)
  unfolding pick
  pick-Picks k [] = tt
  pick-Picks zero (x ∷ xs) = Permᴰ.refl (f x ∷ map f xs)
  pick-Picks (suc k) (x ∷ xs) = Picks-suc x xs (pick k xs) (pick-Picks k xs)

module _ {ℓ} {A : Type ℓ} where
  pub to_front :
      (x : A) (front bs cs : List A) → Permᴰ (x ∷ (front ++ (bs ++ cs))) (front ++ (bs ++ (x ∷ cs)))
  to_front x front bs cs =
      rw (sym (append_assoc front bs cs), sym (append_assoc front bs (x ∷ cs)))
        (Permᴰ.symm (Permᴰ.middle x (front ++ bs) cs))

  pub to_results :
      (x : A) (front rest bs cs : List A)
      → Permᴰ (x ∷ rest) front
      → Permᴰ (rest ++ ((bs ++ (x ∷ [])) ++ cs)) (front ++ (bs ++ cs))
  to_results x front rest bs cs d =
      rw (append_assoc bs (x ∷ []) cs)
        (Permᴰ.trans (Permᴰ.symm (to_front x rest bs cs)) (Permᴰ.append_right (bs ++ cs) d))
