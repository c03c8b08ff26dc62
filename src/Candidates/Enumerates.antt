-- ===== src/Candidates/Enumerates.antt =====
-- v3.go, `candidateIterator.next`: it yields every path once, and no other.
use epeius.Prelude.{
  ℕ, zero, suc, ◌<◌, ◌≡◌, refl, sym, ap, ◌∙◌, false, Option, none, some, List, [], ◌∷◌, arith,
  length,
}
use epeius.Config
use epeius.Evm.{Evm}
use epeius.Candidates.{
  Candidate, CandidateIterator, Next, yields, finishes, out_of_range, from, next,
}
use epeius.Candidates.Paths.{Agrees, IsSteady, remaining}
use epeius.Candidates.Steps.{next_of-Agrees}

abbrev prefix_with : Candidate → Option (List Candidate) → Option (List Candidate)
prefix_with c none = none
prefix_with c (some cs) = some (c ∷ cs)

-- The calls of `next` until it finishes, for at most `fuel` calls.
abbrev collect_from : (CandidateIterator → Option (List Candidate)) → Next → Option (List Candidate)
collect_from more (yields n c i) = prefix_with c (more i)
collect_from more (finishes i) = some []
collect_from more out_of_range = none

unfoldable pub collect : Evm → ℕ → CandidateIterator → Option (List Candidate)
collect evm zero i = none
collect evm (suc fuel) i = collect_from (collect evm fuel) (next evm false i)

next-Agrees :
    (evm : Evm) (i : CandidateIterator)
    → IsSteady i
    → Agrees evm i.index (remaining evm i) (next evm false i)
unfolding next
next-Agrees evm i s = next_of-Agrees evm i (from i.deployment i.deployments) refl s.0 s.1

shorter : (n fuel m : ℕ) → n < suc fuel → n ≡ suc m → m < fuel
shorter n fuel m h e = omega (arith, h, e)

no_less : {n : ℕ} → n < 0 → ⊥
no_less h = omega (arith, h)

collect-next :
    (evm : Evm) (fuel index : ℕ) (cs : List Candidate) (n : Next)
    → Agrees evm index cs n
    → length cs < suc fuel
    → ((j : CandidateIterator)
        → IsSteady j
        → length (remaining evm j) < fuel
        → collect evm fuel j ≡ some (remaining evm j))
    → collect_from (collect evm fuel) n ≡ some cs
collect-next evm fuel index cs (yields n c j) (e, e', splits, steady) l more =
    ap (prefix_with c)
      (more j steady (shorter (length cs) fuel (length (remaining evm j)) l (ap length splits)))
    ∙ ap some (sym splits)
collect-next evm fuel index cs (finishes j) a l more = ap some (sym a)
collect-next evm fuel index cs out_of_range a l more = elim a [ ]

-- Where every deployment has a fee, the iterator yields exactly the paths that remain, in their order
-- and each once, and then finishes; no index that it uses is out of range.
pub collect-remaining :
    (evm : Evm) (fuel : ℕ) (i : CandidateIterator)
    → IsSteady i
    → length (remaining evm i) < fuel
    → collect evm fuel i ≡ some (remaining evm i)
unfolding collect
collect-remaining evm zero i s l = elim (no_less l) [ ]
collect-remaining evm (suc fuel) i s l =
    collect-next evm fuel i.index (remaining evm i) (next evm false i) (next-Agrees evm i s) l
      (λ j steady shorter_rest. collect-remaining evm fuel j steady shorter_rest)
