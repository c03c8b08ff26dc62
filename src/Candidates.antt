-- ===== src/Candidates.antt =====
-- services/quote-engine/internal/quote/v3.go: the candidates of a V3 deployment, one at a time.
pub mod Paths
pub mod Steps
pub mod Configured
pub mod Enumerates
use epeius.Prelude.{
  ℕ, zero, suc, String, Bool, true, false, ◌||◌, Option, none, some, List, [], ◌∷◌, map, ltb, ◌==◌,
  get_elem?, length, append, if◌then◌else◌,
}
use epeius.Prelude.Decimal.{nat_text}
use epeius.Prelude.Sort.{sort_by, text_less}
use epeius.Evm.{Evm}
use epeius.Config
use epeius.Config.{Token, Deployment}

pub record Candidate : Type 0 where
  pub id : String
  pub deployment : String
  pub tokens : List ℕ
  pub fees : List ℕ

pub record CandidateDeployment : Type 0 where
  pub id : String
  pub fees : List ℕ

pub record CandidateIterator : Type 0 where
  pub deployments : List CandidateDeployment
  pub intermediates : List ℕ
  pub token_in : ℕ
  pub token_out : ℕ
  pub deployment : ℕ
  pub direct : ℕ
  pub middle : ℕ
  pub first : ℕ
  pub second : ℕ
  pub index : ℕ

-- The intermediate tokens: the configured ones that are neither end of the pair.
unfoldable pub other_tokens : Evm → ℕ → ℕ → List Token → List ℕ
other_tokens evm a b [] = []
other_tokens evm a b (token ∷ tokens) =
    let rest = other_tokens evm a b tokens in
    let t = evm.hex_to_address token.address in if t == a || t == b then rest else t ∷ rest

abbrev hex_less : Evm → ℕ → ℕ → Bool
hex_less evm a b = text_less (evm.address_hex a) (evm.address_hex b)

abbrev fees_of : Option (List ℕ) → List ℕ
fees_of none = []
fees_of (some fees) = fees

abbrev id_less : String × Deployment → String × Deployment → Bool
id_less a b = text_less a.0 b.0

unfoldable pub candidate_deployment : String × Deployment → CandidateDeployment
candidate_deployment entry = record { id = entry.0; fees = sort_by ltb (fees_of entry.1.fees) }

unfoldable pub new_candidates : Evm → Config.Chain → ℕ → ℕ → CandidateIterator
new_candidates evm chain a b = record {
  deployments = map candidate_deployment (sort_by id_less chain.deployments);
  intermediates = sort_by (hex_less evm) (other_tokens evm a b chain.tokens);
  token_in = a;
  token_out = b;
  deployment = 0;
  direct = 0;
  middle = 0;
  first = 0;
  second = 0;
  index = 0;
}

-- An index that is out of range panics.
pub data Next : Type 0 where
  yields : ℕ → Candidate → CandidateIterator → Next
  finishes : CandidateIterator → Next
  out_of_range : Next

unfoldable pub take : CandidateIterator → Candidate → Next
take i candidate = yields i.index candidate (record i { index = suc i.index })

unfoldable pub direct_candidate : ℕ → ℕ → CandidateDeployment → ℕ → Candidate
direct_candidate a b d fee = record {
  id = append d.id (append ":" (nat_text fee));
  deployment = d.id;
  tokens = a ∷ b ∷ [];
  fees = fee ∷ [];
}

unfoldable pub split_candidate : Evm → ℕ → ℕ → CandidateDeployment → ℕ → ℕ → ℕ → Candidate
split_candidate evm a b d first middle second = record {
  id = append d.id (
      append ":" (
        append (nat_text first)
          (append ":" (append (evm.address_hex middle) (append ":" (nat_text second))))));
  deployment = d.id;
  tokens = a ∷ middle ∷ b ∷ [];
  fees = first ∷ second ∷ [];
}

-- The steps of `second`, of `first` at its end, and of `middle` at the end of both.
unfoldable pub split_by : Bool → Bool → CandidateIterator → CandidateIterator
split_by false last_first i = record i { second = suc i.second }
split_by true false i = record i { second = 0; first = suc i.first }
split_by true true i = record i { second = 0; first = 0; middle = suc i.middle }

unfoldable pub step_split : ℕ → CandidateIterator → CandidateIterator
step_split count i = split_by (suc i.second == count) (suc i.first == count) i

unfoldable pub take_direct : CandidateIterator → CandidateDeployment → Option ℕ → Next
take_direct i d none = out_of_range
take_direct i d (some fee) =
    take (record i { direct = suc i.direct }) (direct_candidate i.token_in i.token_out d fee)

unfoldable pub take_split :
    Evm → CandidateIterator → CandidateDeployment → Option ℕ → Option ℕ → Option ℕ → Next
take_split evm i d none second middle = out_of_range
take_split evm i d (some first) none middle = out_of_range
take_split evm i d (some first) (some second) none = out_of_range
take_split evm i d (some first) (some second) (some middle) =
    take (step_split (length d.fees) i)
      (split_candidate evm i.token_in i.token_out d first middle second)

abbrev pub next_deployment : CandidateIterator → CandidateIterator
next_deployment i = record i {
  deployment = suc i.deployment;
  direct = 0;
  middle = 0;
  first = 0;
  second = 0;
}

-- The loop over the deployments from the current one on.
unfoldable pub next_of : Evm → CandidateIterator → List CandidateDeployment → Next
next_of evm i [] = finishes i
next_of evm i (d ∷ rest) =
    let later = next_of evm (next_deployment i) rest in
    if ltb i.direct (length d.fees)
    then take_direct i d (get_elem? d.fees i.direct)
    else if ltb i.middle (length i.intermediates)
    then take_split evm i d (get_elem? d.fees i.first) (get_elem? d.fees i.second)
        (get_elem? i.intermediates i.middle)
    else later

-- xs[n:]
unfoldable pub from {ℓ} : {A : Type ℓ} → ℕ → List A → List A
from zero xs = xs
from (suc n) [] = []
from (suc n) (x ∷ xs) = from n xs

-- candidateIterator.next
unfoldable pub next : Evm → Bool → CandidateIterator → Next
next evm cancelled i =
    if cancelled then finishes i else next_of evm i (from i.deployment i.deployments)
