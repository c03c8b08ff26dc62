-- ===== src/Simulators/Tenderly/Judged.antt =====
-- tenderly.go, the end of `Simulate`: the judgement by indices into `values`, and the same by the lists of
-- balances before the swap, of balances after it, and of allowances.
use mathlib.Core.Path.{subst}
use mathlib.Core.List.{append_assoc, append-nil}
use epeius.Prelude.{
  ℕ, suc, ◌+◌, ◌-◌, ◌≡◌, refl, ap, ◌∙◌, Bool, true, false, not, Option, none, some, List, [], ◌∷◌,
  ◌++◌, map, ◌==◌, length, length-append, length-map, if◌then◌else◌, Bool-cases, inl, inr, arith,
}
use epeius.Prelude.Int.{ℤ, pos, ◌-ℤ◌, ltb_ℤ, eq_ℤ}
use epeius.Prelude.Partial.{◌>>=◌}
use epeius.Execution.Environment.{Simulation, simulation_failed, input_amount, minimum_output}
use epeius.Simulators.Tenderly.{
  value_at, all_preserved, all_cleared, conclude, judge_rest, judge_deltas, judge,
}

unfoldable pub same_numbers : List ℕ → List ℕ → Bool
same_numbers [] [] = true
same_numbers [] (y ∷ ys) = false
same_numbers (x ∷ xs) [] = false
same_numbers (x ∷ xs) (y ∷ ys) = let rest = same_numbers xs ys in if x == y then rest else false

unfoldable pub all_zero : List ℕ → Bool
all_zero [] = true
all_zero (x ∷ xs) = let rest = all_zero xs in if x == 0 then rest else false

-- The judgement of the two first balances, the balances to preserve and the allowances.
unfoldable pub verdict : ℕ → ℕ → ℕ → ℕ → List ℕ → List ℕ → List ℕ → ℤ → ℤ → Simulation
verdict input_before output_before input_after output_after before after left amount minimum =
    if not (eq_ℤ (pos input_before -ℤ pos input_after) amount)
    then simulation_failed input_amount
    else if ltb_ℤ (pos output_after -ℤ pos output_before) minimum
    then simulation_failed minimum_output
    else conclude (pos output_after -ℤ pos output_before) (same_numbers after before)
        (all_zero left)

-- The numbers stand in `values` from an index on.
abbrev At : List (Option ℕ) → ℕ → List ℕ → Type 0
At values i [] = Unit
At values i (x ∷ xs) = (value_at values i ≡ some x) × At values (suc i) xs

value_at-append : (l r : List (Option ℕ)) (x : ℕ) → value_at (l ++ (some x ∷ r)) (length l) ≡ some x
unfolding value_at
value_at-append [] r x = refl
value_at-append (y ∷ l) r x = value_at-append l r x

At-append :
    (l : List (Option ℕ)) (xs : List ℕ) (r : List (Option ℕ))
    → At (l ++ (map some xs ++ r)) (length l) xs
At-append l [] r = tt
At-append l (x ∷ xs) r = (
  value_at-append l (map some xs ++ r) x,
  subst (λ (values : List (Option ℕ)). At values (suc (length l)) xs)
      (append_assoc l (some x ∷ []) (map some xs ++ r))
      (subst (λ i. At ((l ++ (some x ∷ [])) ++ (map some xs ++ r)) i xs) length_one
        (At-append (l ++ (some x ∷ [])) xs r)),
)
  where
    length_one : length (l ++ (some x ∷ [])) ≡ suc (length l)
    length_one = length-append l (some x ∷ []) ∙ omega arith

all_preserved-eq :
    (values : List (Option ℕ)) (after i : ℕ) (now before : List ℕ)
    → At values (after + i) now
    → At values i before
    → length now ≡ length before
    → all_preserved values after i (length before) ≡ some (same_numbers now before)
unfolding all_preserved same_numbers
all_preserved-eq values after i [] [] n b l = refl
all_preserved-eq values after i [] (y ∷ ys) n b l = absurd (omega arith)
all_preserved-eq values after i (x ∷ xs) [] n b l = absurd (omega arith)
all_preserved-eq values after i (x ∷ xs) (y ∷ ys) (hx, n) (hy, b) l =
    let rest =
      all_preserved-eq values after (suc i) xs ys (subst (λ k. At values k xs) (omega arith) n) b
        (omega arith) in
    rw (hx, hy) (elim (Bool-cases (x == y)) [ inl t ↦ rw t rest | inr f ↦ rw f ])

all_cleared-eq :
    (values : List (Option ℕ)) (i : ℕ) (left : List ℕ)
    → At values i left
    → all_cleared values i (length left) ≡ some (all_zero left)
unfolding all_cleared all_zero
all_cleared-eq values i [] h = refl
all_cleared-eq values i (x ∷ xs) (hx, h) =
    let rest = all_cleared-eq values (suc i) xs h in
    rw hx (elim (Bool-cases (x == 0)) [ inl t ↦ rw t rest | inr f ↦ rw f ])

-- What `values` holds for these lists.
abbrev pub laid_out : List ℕ → List ℕ → List ℕ → List (Option ℕ)
laid_out before after left = map some before ++ (none ∷ (map some after ++ map some left))

At-of :
    (values l r : List (Option ℕ)) (xs : List ℕ) (i : ℕ)
    → l ++ (map some xs ++ r) ≡ values
    → length l ≡ i
    → At values i xs
At-of values l r xs i e n =
    subst (λ (vs : List (Option ℕ)). At vs i xs) e
      (subst (λ j. At (l ++ (map some xs ++ r)) j xs) n (At-append l xs r))

module _ (before after left : List ℕ) (as_many : length after ≡ length before) where
  At-before : At (laid_out before after left) 0 before
  At-before = At-of _ [] (none ∷ (map some after ++ map some left)) before 0 refl refl

  At-after : At (laid_out before after left) (length before + 1) after
  At-after =
      At-of _ (map some before ++ (none ∷ [])) (map some left) after (length before + 1)
        (append_assoc (map some before) (none ∷ []) (map some after ++ map some left))
        (length-append (map some before) (none ∷ [])
          ∙ omega (arith, length-map {0, 0} before (λ (x : ℕ). some x)))

  At-left : At (laid_out before after left) (length before + 1 + length before) left
  At-left =
      At-of _ (map some before ++ (none ∷ map some after)) [] left
        (length before + 1 + length before)
        (ap (λ end. (map some before ++ (none ∷ map some after)) ++ end)
            (append-nil (map some left))
          ∙ append_assoc (map some before) (none ∷ map some after) (map some left))
        (length-append (map some before) (none ∷ map some after)
          ∙ omega (
            arith,
            as_many,
            length-map {0, 0} before (λ (x : ℕ). some x),
            length-map {0, 0} after (λ (x : ℕ). some x),
          ))

  length-laid_out :
      length (laid_out before after left) ≡ length before + 1 + length before + length left
  length-laid_out =
      length-append (map some before) (none ∷ (map some after ++ map some left))
      ∙ omega (
        arith,
        as_many,
        length-map {0, 0} before (λ (x : ℕ). some x),
        length-append {0} (map some after) (map some left),
        length-map {0, 0} after (λ (x : ℕ). some x),
        length-map {0, 0} left (λ (x : ℕ). some x),
      )

judge_rest-eq :
    (values : List (Option ℕ)) (probes : ℕ) (output : ℤ) (left : List ℕ) (preserved : Bool)
    → At values (probes + 1 + probes) left
    → length values ≡ probes + 1 + probes + length left
    → judge_rest values probes output preserved ≡ some (conclude output preserved (all_zero left))
unfolding judge_rest conclude
judge_rest-eq values probes output left false h l = refl
judge_rest-eq values probes output left true h l =
    ap
      (λ n. all_cleared values (probes + 1 + probes) n >>= λ cleared.
        some (conclude output true cleared))
      rounds
    ∙ rw (all_cleared-eq values (probes + 1 + probes) left h)
  where
    rounds : length values - (probes + 1 + probes) ≡ length left
    rounds = omega (arith, l)

module _ (values : List (Option ℕ)) (now before left : List ℕ)
    (as_many : length now ≡ length before) where
  judge_deltas-eq :
      (amount minimum consumed output : ℤ)
      → At values (length before + 2 + 1 + 2) now
      → At values 2 before
      → At values (length before + 2 + 1 + (length before + 2)) left
      → length values ≡ length before + 2 + 1 + (length before + 2) + length left
      → judge_deltas values (length before + 2) amount minimum consumed output
        ≡ some (
            if not (eq_ℤ consumed amount)
            then simulation_failed input_amount
            else if ltb_ℤ output minimum
            then simulation_failed minimum_output
            else conclude output (same_numbers now before) (all_zero left))
  unfolding judge_deltas
  judge_deltas-eq amount minimum consumed output n b z l =
      by_tests (not (eq_ℤ consumed amount)) (ltb_ℤ output minimum)
    where
      rounds : length before + 2 - 2 ≡ length before
      rounds = omega arith

      loops :
          (all_preserved values (length before + 2 + 1) 2 (length before + 2 - 2)
            >>= judge_rest values (length before + 2) output)
          ≡ some (conclude output (same_numbers now before) (all_zero left))
      loops =
          ap
            (λ k.
              all_preserved values (length before + 2 + 1) 2 k
              >>= judge_rest values (length before + 2) output)
            rounds
          ∙ ap (λ k. k >>= judge_rest values (length before + 2) output)
              (all_preserved-eq values (length before + 2 + 1) 2 now before n b as_many)
          ∙ judge_rest-eq values (length before + 2) output left (same_numbers now before) z l

      by_tests :
          (p q : Bool)
          → (if p
              then some (simulation_failed input_amount)
              else if q
              then some (simulation_failed minimum_output)
              else (all_preserved values (length before + 2 + 1) 2 (length before + 2 - 2)
                  >>= judge_rest values (length before + 2) output))
            ≡ some (
                if p
                then simulation_failed input_amount
                else if q
                then simulation_failed minimum_output
                else conclude output (same_numbers now before) (all_zero left))
      by_tests true q = refl
      by_tests false true = refl
      by_tests false false = loops

-- The loops by index judge as the lists do, and no index is out of range and no number nil.
pub judge-eq :
    (i0 o0 i1 o1 : ℕ) (before after left : List ℕ) (amount minimum : ℤ)
    → length after ≡ length before
    → judge (laid_out (i0 ∷ o0 ∷ before) (i1 ∷ o1 ∷ after) left) (length before + 2) amount minimum
      ≡ some (verdict i0 o0 i1 o1 before after left amount minimum)
unfolding judge verdict
judge-eq i0 o0 i1 o1 before after left amount minimum l =
    let values = laid_out (i0 ∷ o0 ∷ before) (i1 ∷ o1 ∷ after) left in
    let (in0, rest0) = At-before (i0 ∷ o0 ∷ before) (i1 ∷ o1 ∷ after) left (omega arith) in
    let (out0, kept0) = rest0 in
    let (in1, rest1) = At-after (i0 ∷ o0 ∷ before) (i1 ∷ o1 ∷ after) left (omega arith) in
    let (out1, kept1) = rest1 in
    let first : value_at values (length before + 2 + 1) ≡ some i1 =
      subst (λ k. value_at values k ≡ some i1) (omega arith) in1 in
    let second : value_at values (length before + 2 + 2) ≡ some o1 =
      subst (λ k. value_at values k ≡ some o1) (omega arith) out1 in
    rw (in0, first, second, out0)
      (judge_deltas-eq values after before left l amount minimum _ _
        (subst (λ k. At values k after) (omega arith) kept1) kept0
        (subst (λ k. At values k left) (omega arith)
          (At-left (i0 ∷ o0 ∷ before) (i1 ∷ o1 ∷ after) left (omega arith)))
        (length-laid_out (i0 ∷ o0 ∷ before) (i1 ∷ o1 ∷ after) left (omega arith) ∙ omega arith))
