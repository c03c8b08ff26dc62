-- ===== src/Candidates/Paths.antt =====
-- v3.go, the candidates: the paths of a deployment in order, and what of them an iterator has left.
use epeius.Prelude.{
  ℕ, zero, suc, ◌<◌, ◌≡◌, refl, ap, true, false, some, List, [], ◌∷◌, ◌++◌, map, arith, ltb,
  get_elem?, length,
}
use epeius.Evm.{Evm}
use epeius.Candidates.{
  Candidate, CandidateDeployment, CandidateIterator, Next, yields, finishes, out_of_range,
  direct_candidate, split_candidate, from,
}

-- What stands at an index: an element with the rest after it, or the end.
pub data At {ℓ} {A : Type ℓ} (xs : List A) (k : ℕ) : Type ℓ where
  here :
      {x : A} (rest : List A)
      → ltb k (length xs) ≡ true
      → get_elem? xs k ≡ some x
      → from k xs ≡ x ∷ rest
      → from (suc k) xs ≡ rest
      → At xs k
  past : ltb k (length xs) ≡ false → from k xs ≡ [] → At xs k

pub At-suc {ℓ} : {A : Type ℓ} (x : A) (xs : List A) (k : ℕ) → At xs k → At (x ∷ xs) (suc k)
unfolding from
At-suc x xs k (At.here rest l g f s) = At.here rest (ground arith) g f s
At-suc x xs k (At.past l f) = At.past (ground arith) f

pub at {ℓ} : {A : Type ℓ} (xs : List A) (k : ℕ) → At xs k
unfolding from
at [] zero = At.past refl refl
at [] (suc k) = At.past (ground arith) refl
at (x ∷ xs) zero = At.here xs (ground arith) refl refl refl
at (x ∷ xs) (suc k) = At-suc x xs k (at xs k)

module _ (evm : Evm) (a b : ℕ) (d : CandidateDeployment) where
  abbrev pub seconds : ℕ → ℕ → List ℕ → List Candidate
  seconds f m fees = map (λ s. split_candidate evm a b d f m s) fees

  -- The paths through `m` with a first fee of the list.
  abbrev pub firsts : ℕ → List ℕ → List Candidate
  firsts m [] = []
  firsts m (f ∷ fs) = seconds f m d.fees ++ firsts m fs

  abbrev pub middles : List ℕ → List Candidate
  middles [] = []
  middles (m ∷ ms) = firsts m d.fees ++ middles ms

  abbrev pub directs : List ℕ → List Candidate
  directs fees = map (direct_candidate a b d) fees

  -- The paths of the deployment: the direct ones by fee, then those through each intermediate token
  -- by the first fee and the second.
  abbrev pub paths : List ℕ → List Candidate
  paths intermediates = directs d.fees ++ middles intermediates

  abbrev pub rest_first : ℕ → List ℕ → List ℕ → List Candidate
  rest_first m [] ss = []
  rest_first m (f ∷ fs) ss = seconds f m ss ++ firsts m fs

  abbrev pub rest_middle : List ℕ → List ℕ → List ℕ → List Candidate
  rest_middle [] fs ss = []
  rest_middle (m ∷ ms) fs ss = rest_first m fs ss ++ middles ms

  pub rest_first-all : (m : ℕ) (fs : List ℕ) → rest_first m fs d.fees ≡ firsts m fs
  rest_first-all m [] = refl
  rest_first-all m (f ∷ fs) = refl

  pub rest_middle-all : (ms : List ℕ) → rest_middle ms d.fees d.fees ≡ middles ms
  rest_middle-all [] = refl
  rest_middle-all (m ∷ ms) = ap (λ xs. xs ++ middles ms) (rest_first-all m d.fees)

abbrev pub all_paths : Evm → ℕ → ℕ → List ℕ → List CandidateDeployment → List Candidate
all_paths evm a b intermediates [] = []
all_paths evm a b intermediates (d ∷ ds) =
    paths evm a b d intermediates ++ all_paths evm a b intermediates ds

abbrev pub rest_of : Evm → CandidateIterator → List CandidateDeployment → List Candidate
rest_of evm i [] = []
rest_of evm i (d ∷ ds) =
    (directs evm i.token_in i.token_out d (from i.direct d.fees)
      ++ rest_middle evm i.token_in i.token_out d (from i.middle i.intermediates)
          (from i.first d.fees) (from i.second d.fees))
    ++ all_paths evm i.token_in i.token_out i.intermediates ds

-- The candidates that the iterator has still to yield.
abbrev pub remaining : Evm → CandidateIterator → List Candidate
remaining evm i = rest_of evm i (from i.deployment i.deployments)

abbrev pub IsInside : CandidateIterator → List CandidateDeployment → Type 0
IsInside i [] = Unit
IsInside i (d ∷ ds) = (i.first < length d.fees) × (i.second < length d.fees)

abbrev pub HaveFees : List CandidateDeployment → Type 0
HaveFees [] = Unit
HaveFees (d ∷ ds) = (0 < length d.fees) × HaveFees ds

-- Every deployment has a fee, and the indices of the fees are in range.
abbrev pub IsSteady : CandidateIterator → Type 0
IsSteady i =
    HaveFees (from i.deployment i.deployments) × IsInside i (from i.deployment i.deployments)

-- What `next` returns where `cs` are still to come.
abbrev pub Agrees : Evm → ℕ → List Candidate → Next → Type 0
Agrees evm index cs (yields n c i) =
    (n ≡ index) × (i.index ≡ suc index) × (cs ≡ c ∷ remaining evm i) × IsSteady i
Agrees evm index cs (finishes i) = cs ≡ []
Agrees evm index cs out_of_range = ⊥
