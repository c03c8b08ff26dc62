-- ===== src/Candidates/Steps.antt =====
-- v3.go, `candidateIterator.next`: each call yields the first of the paths that are left.
use epeius.Prelude.{
  ℕ, zero, suc, ◌<◌, ◌≡◌, refl, sym, ap, ◌∙◌, Bool, true, false, some, List, [], ◌∷◌, ◌++◌, arith,
  ltb, lt→ltb, ◌==◌, ==_iff, get_elem?, length, if◌then◌else◌,
}
use mathlib.Core.Path.{subst}
use mathlib.Core.Bool.{true≢false}
use epeius.Evm.{Evm}
use epeius.Candidates.{
  Candidate, CandidateDeployment, CandidateIterator, Next, take, direct_candidate, split_candidate,
  split_by, step_split, take_direct, take_split, next_deployment, next_of, from,
}
use epeius.Candidates.Paths.{
  Agrees, At, HaveFees, IsInside, all_paths, at, directs, middles, rest_first-all, rest_middle,
  rest_middle-all, rest_of,
}

pub from-length {ℓ} : {A : Type ℓ} (xs : List A) → from (length xs) xs ≡ []
unfolding from
from-length [] = refl
from-length (x ∷ xs) = from-length xs

pub tail_or {ℓ} : {A : Type ℓ} → List A → List A
tail_or [] = []
tail_or (x ∷ xs) = xs

pub from-suc {ℓ} : {A : Type ℓ} (xs : List A) (k : ℕ) → from (suc k) xs ≡ tail_or (from k xs)
unfolding from tail_or
from-suc [] zero = refl
from-suc [] (suc k) = refl
from-suc (x ∷ xs) zero = refl
from-suc (x ∷ xs) (suc k) = from-suc xs k

pub no_rest :
    (fees : List ℕ) (k : ℕ) (rest : List ℕ)
    → from (suc k) fees ≡ rest
    → (suc k == length fees) ≡ true
    → rest ≡ []
no_rest fees k rest e h =
    sym e ∙ (ap (λ n. from n fees) ((==_iff (suc k) (length fees)).0 h) ∙ from-length fees)

pub not_last : (k n : ℕ) → k < n → (suc k == n) ≡ false → suc k < n
not_last k n h e = ground arith

module _ (evm : Evm) (i : CandidateIterator) (d : CandidateDeployment) where
  abbrev pub middle_of : CandidateIterator → List Candidate
  middle_of j =
      rest_middle evm i.token_in i.token_out d (from j.middle i.intermediates) (from j.first d.fees)
        (from j.second d.fees)

  abbrev pub Inside : CandidateIterator → Type 0
  Inside j = (j.first < length d.fees) × (j.second < length d.fees)

  pub split_by-steps :
      (m f s : ℕ) (ms fs ss : List ℕ) (p q : Bool)
      → (suc i.second == length d.fees) ≡ p
      → (suc i.first == length d.fees) ≡ q
      → Inside i
      → from i.middle i.intermediates ≡ m ∷ ms
      → from (suc i.middle) i.intermediates ≡ ms
      → from i.first d.fees ≡ f ∷ fs
      → from (suc i.first) d.fees ≡ fs
      → from i.second d.fees ≡ s ∷ ss
      → from (suc i.second) d.fees ≡ ss
      → (middle_of i
          ≡ split_candidate evm i.token_in i.token_out d f m s ∷ middle_of (split_by p q i))
        × Inside (split_by p q i)
  unfolding split_by from
  split_by-steps m f s ms fs ss false q e1 e2 (lf, ls) em em' ef ef' es es' =
      (rw (em, ef, es, es') refl, (lf, not_last i.second _ ls e1))
  split_by-steps m f s ms fs ss true false e1 e2 (lf, ls) em em' ef ef' es es' = (
    rw (em, ef, es, ef', no_rest d.fees i.second ss es' e1)
        (ap
          (λ xs.
            split_candidate evm i.token_in i.token_out d f m s
            ∷ (xs ++ middles evm i.token_in i.token_out d ms))
          (sym (rest_first-all evm i.token_in i.token_out d m fs))),
    (not_last i.first _ lf e2, omega (arith, ls)),
  )
  split_by-steps m f s ms fs ss true true e1 e2 (lf, ls) em em' ef ef' es es' = (
    rw (em, ef, es, em', no_rest d.fees i.second ss es' e1, no_rest d.fees i.first fs ef' e2)
        (ap (λ xs. split_candidate evm i.token_in i.token_out d f m s ∷ xs)
          (sym (rest_middle-all evm i.token_in i.token_out d ms))),
    (omega (arith, ls), omega (arith, ls)),
  )

pub past-empty {ℓ} :
    {A : Type ℓ} (xs : List A) (k : ℕ) → k < length xs → At xs k → ltb k (length xs) ≡ true
past-empty xs k h p = lt→ltb _ _ h

pub start-all :
    (evm : Evm) (i : CandidateIterator) (ds : List CandidateDeployment)
    → rest_of evm (next_deployment i) ds ≡ all_paths evm i.token_in i.token_out i.intermediates ds
unfolding from
start-all evm i [] = refl
start-all evm i (d ∷ ds) =
    ap
      (λ xs.
        (directs evm i.token_in i.token_out d d.fees ++ xs)
        ++ all_paths evm i.token_in i.token_out i.intermediates ds)
      (rest_middle-all evm i.token_in i.token_out d i.intermediates)

pub start-IsInside :
    (i : CandidateIterator) (ds : List CandidateDeployment)
    → HaveFees ds
    → IsInside (next_deployment i) ds
start-IsInside i [] h = tt
start-IsInside i (d ∷ ds) (l, h) = (l, l)

-- The choice of `next` in one deployment.
abbrev pub choice : Evm → CandidateIterator → CandidateDeployment → Bool → Bool → Next → Next
choice evm i d p q later =
    if p
    then take_direct i d (get_elem? d.fees i.direct)
    else if q
    then take_split evm i d (get_elem? d.fees i.first) (get_elem? d.fees i.second)
        (get_elem? i.intermediates i.middle)
    else later

module _ (evm : Evm) (i : CandidateIterator) (d : CandidateDeployment)
    (ds : List CandidateDeployment) (e : from i.deployment i.deployments ≡ d ∷ ds)
    (fees : HaveFees (d ∷ ds)) where
  abbrev pub after_directs : CandidateIterator → List Candidate → List Candidate
  after_directs j cs =
      (cs ++ middle_of evm i d j) ++ all_paths evm i.token_in i.token_out i.intermediates ds

  pub direct-Agrees :
      (inside : IsInside i (d ∷ ds)) (x : ℕ) (rest : List ℕ)
      → get_elem? d.fees i.direct ≡ some x
      → from i.direct d.fees ≡ x ∷ rest
      → from (suc i.direct) d.fees ≡ rest
      → Agrees evm i.index (rest_of evm i (d ∷ ds)) (take_direct i d (get_elem? d.fees i.direct))
  unfolding take_direct take
  direct-Agrees inside x rest g f s =
      let j : CandidateIterator = record i { direct = suc i.direct; index = suc i.index } in
      subst (λ o. Agrees evm i.index (rest_of evm i (d ∷ ds)) (take_direct i d o)) (sym g)
        (
          refl,
          refl,
          ap (λ xs. after_directs i (directs evm i.token_in i.token_out d xs)) f
              ∙ (ap
                    (λ xs.
                      direct_candidate i.token_in i.token_out d x
                      ∷ after_directs i (directs evm i.token_in i.token_out d xs))
                    (sym s)
                  ∙ ap (λ xs. direct_candidate i.token_in i.token_out d x ∷ rest_of evm j xs)
                      (sym e)),
          (subst HaveFees (sym e) fees, subst (IsInside j) (sym e) inside),
        )

  pub split_into :
      (mid fst snd : ℕ) (c : Candidate)
      → from i.direct d.fees ≡ []
      → middle_of evm i d i
        ≡ c ∷ middle_of evm i d (record i { middle = mid; first = fst; second = snd })
      → Inside evm i d (record i { middle = mid; first = fst; second = snd })
      → Agrees evm i.index
          (rest_of evm i (d ∷ ds))
          (take (record i { middle = mid; first = fst; second = snd }) c)
  unfolding take
  split_into mid fst snd c f steps inside =
      let j : CandidateIterator = record i {
        middle = mid;
        first = fst;
        second = snd;
        index = suc i.index;
      } in
      (
        refl,
        refl,
        ap (λ xs. after_directs i (directs evm i.token_in i.token_out d xs)) f
            ∙ (ap (λ xs. xs ++ all_paths evm i.token_in i.token_out i.intermediates ds) steps
                ∙ (ap (λ xs. c ∷ after_directs j (directs evm i.token_in i.token_out d xs)) (sym f)
                    ∙ ap (λ xs. c ∷ rest_of evm j xs) (sym e))),
        (subst HaveFees (sym e) fees, subst (IsInside j) (sym e) inside),
      )

  pub split_by-Agrees :
      (c : Candidate) (p q : Bool)
      → from i.direct d.fees ≡ []
      → (middle_of evm i d i ≡ c ∷ middle_of evm i d (split_by p q i))
        × Inside evm i d (split_by p q i)
      → Agrees evm i.index (rest_of evm i (d ∷ ds)) (take (split_by p q i) c)
  unfolding split_by
  split_by-Agrees c false q f (steps, inside) =
      split_into i.middle i.first (suc i.second) c f steps inside
  split_by-Agrees c true false f (steps, inside) =
      split_into i.middle (suc i.first) 0 c f steps inside
  split_by-Agrees c true true f (steps, inside) = split_into (suc i.middle) 0 0 c f steps inside

  pub split-Agrees :
      Inside evm i d i
      → from i.direct d.fees ≡ []
      → ltb i.middle (length i.intermediates) ≡ true
      → At i.intermediates i.middle
      → At d.fees i.first
      → At d.fees i.second
      → Agrees evm i.index (rest_of evm i (d ∷ ds)) (
          take_split evm i d
            (get_elem? d.fees i.first)
            (get_elem? d.fees i.second)
            (get_elem? i.intermediates i.middle))
  unfolding take_split step_split
  split-Agrees inside f lm (At.past l g) first second = elim (true≢false (sym lm ∙ l)) [ ]
  split-Agrees inside f lm (At.here {x = m} ms l g em em') (At.past k h) second =
      elim (true≢false (sym (lt→ltb _ _ inside.0) ∙ k)) [ ]
  split-Agrees inside f lm (At.here {x = m} ms l g em em') (At.here {x = x} fs k h ef ef')
        (At.past n o) =
      elim (true≢false (sym (lt→ltb _ _ inside.1) ∙ n)) [ ]
  split-Agrees inside f lm (At.here {x = m} ms l g em em') (At.here {x = x} fs k h ef ef')
        (At.here {x = y} ss n o es es') =
      let agrees =
        split_by-Agrees (split_candidate evm i.token_in i.token_out d x m y)
          (suc i.second == length d.fees) (suc i.first == length d.fees) f
          (split_by-steps evm i d m x y ms fs ss _ _ refl refl inside em em' ef ef' es es') in
      subst
        (λ a.
          Agrees evm i.index (rest_of evm i (d ∷ ds))
            (take_split evm i d a (get_elem? d.fees i.second) (get_elem? i.intermediates i.middle)))
        (sym h)
        (subst
          (λ b.
            Agrees evm i.index (rest_of evm i (d ∷ ds))
              (take_split evm i d (some x) b (get_elem? i.intermediates i.middle)))
          (sym o)
          (subst
            (λ c.
              Agrees evm i.index (rest_of evm i (d ∷ ds)) (take_split evm i d (some x) (some y) c))
            (sym g) agrees))

  -- The deployment has nothing left.
  pub done-rest :
      from i.direct d.fees ≡ []
      → from i.middle i.intermediates ≡ []
      → rest_of evm (next_deployment i) ds ≡ rest_of evm i (d ∷ ds)
  done-rest f g =
      start-all evm i ds
      ∙ sym (
          ap (λ xs. after_directs i (directs evm i.token_in i.token_out d xs)) f
          ∙ ap
              (λ ms.
                rest_middle evm i.token_in i.token_out d ms (from i.first d.fees)
                  (from i.second d.fees)
                ++ all_paths evm i.token_in i.token_out i.intermediates ds)
              g)

  pub choice-Agrees :
      (later : Next)
      → Inside evm i d i
      → Agrees evm i.index (rest_of evm (next_deployment i) ds) later
      → At d.fees i.direct
      → At i.intermediates i.middle
      → (p q : Bool) → ltb i.direct (length d.fees) ≡ p
      → ltb i.middle (length i.intermediates) ≡ q
      → Agrees evm i.index (rest_of evm i (d ∷ ds)) (choice evm i d p q later)
  choice-Agrees later inside h (At.here {x = x} rest l g f s) middle true q ep eq =
      direct-Agrees inside x rest g f s
  choice-Agrees later inside h (At.past l f) middle true q ep eq =
      elim (true≢false (sym ep ∙ l)) [ ]
  choice-Agrees later inside h (At.here rest l g f s) middle false q ep eq =
      elim (true≢false (sym l ∙ ep)) [ ]
  choice-Agrees later inside h (At.past l f) middle false true ep eq =
      split-Agrees inside f eq middle (at d.fees i.first) (at d.fees i.second)
  choice-Agrees later inside h (At.past l f) (At.here ms k g em em') false false ep eq =
      elim (true≢false (sym k ∙ eq)) [ ]
  choice-Agrees later inside h (At.past l f) (At.past k g) false false ep eq =
      subst (λ cs. Agrees evm i.index cs later) (done-rest f g) h

pub next_of-Agrees :
    (evm : Evm) (i : CandidateIterator) (ds : List CandidateDeployment)
    → from i.deployment i.deployments ≡ ds
    → HaveFees ds
    → IsInside i ds
    → Agrees evm i.index (rest_of evm i ds) (next_of evm i ds)
unfolding next_of tail_or
next_of-Agrees evm i [] e h inside = refl
next_of-Agrees evm i (d ∷ ds) e h inside =
    choice-Agrees evm i d ds e h (next_of evm (next_deployment i) ds) inside
      (next_of-Agrees evm (next_deployment i) ds
        (from-suc i.deployments i.deployment ∙ ap tail_or e) h.1 (start-IsInside i ds h.1))
      (at d.fees i.direct) (at i.intermediates i.middle) _ _ refl refl
