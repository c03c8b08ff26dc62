-- ===== src/Simulators/Tenderly/Answers.antt =====
-- tenderly.go, `Simulate`: the results of a bundle in the order of its calls.
use mathlib.Core.Path.{subst}
use epeius.Prelude.{
  ℕ, suc, ◌+◌, ◌≡◌, refl, ap, ◌∙◌, Option, none, some, List, [], ◌∷◌, ◌++◌, map, length, arith,
}
use epeius.Evm.{Evm, Method}
use epeius.Wire.{UnsignedTransaction}
use epeius.Store.{SimulationChecks}
use epeius.Engine.{Snapshot}
use epeius.Simulators.{Probing}
use epeius.Simulators.Tenderly.{
  SimulationCall, SimulationResult, balances, balance, swap, allowance, bundle, values_of,
}
use epeius.Simulators.Tenderly.Replies.{IsReplyTo, Replies}
use epeius.Simulators.Tenderly.Segments.{Segment, values_of-Segment, values_of_swap, values_of_last}
use epeius.Simulators.Tenderly.Judged.{laid_out}

pub Replies-length :
    (c : Probing) (snapshot : Snapshot) (number : ℕ) (m : Method ℕ) (calls : List SimulationCall)
    (items : List SimulationResult) (vs : List ℕ)
    → Replies c snapshot number m calls items vs
    → length vs ≡ length calls
Replies-length c s n m [] [] [] r = refl
Replies-length c s n m [] [] (v ∷ vs) r = elim r [ ]
Replies-length c s n m [] (item ∷ items) vs r = elim r [ ]
Replies-length c s n m (call ∷ calls) [] vs r = elim r [ ]
Replies-length c s n m (call ∷ calls) (item ∷ items) [] r = elim r [ ]
Replies-length c s n m (call ∷ calls) (item ∷ items) (v ∷ vs) (a, b, r) =
    ap suc (Replies-length c s n m calls items vs r)

-- The results of a bundle: the balances before the swap, the swap, the balances after it and the
-- allowances, each read as a number.
pub record Answers (c : Probing) (evm : Evm) (tx : UnsignedTransaction) (checks : SimulationChecks)
    (snapshot : Snapshot) (number : ℕ) (call : SimulationCall) (items : List SimulationResult)
    (before after left : List ℕ) : Type 0 where
  pub first : List SimulationResult
  pub swapped : SimulationResult
  pub second : List SimulationResult
  pub third : List SimulationResult
  pub in_order : items ≡ first ++ (swapped ∷ (second ++ third))
  pub reads_before :
      Replies c snapshot number c.balance_of
        (map (balance c evm call) (balances checks))
        first
        before
  pub swaps : IsReplyTo c snapshot number (swap tx call) swapped
  pub reads_after :
      Replies c snapshot number c.balance_of
        (map (balance c evm call) (balances checks))
        second
        after
  pub reads_left :
      Replies c snapshot number c.allowance
        (map (allowance c evm call) checks.clear_allowances)
        third
        left

module _ (c : Probing) (evm : Evm) (tx : UnsignedTransaction) (checks : SimulationChecks)
    (snapshot : Snapshot) (number : ℕ) (call : SimulationCall) where
  abbrev pub probes : List SimulationCall
  probes = map (balance c evm call) (balances checks)

  abbrev clears : List SimulationCall
  clears = map (allowance c evm call) checks.clear_allowances

  -- What the bundle's results are and how `values` holds what they read.
  abbrev pub AnswersIn : List SimulationResult → List (Option ℕ) → Type 0
  AnswersIn items values =
      (before : List ℕ) × (after : List ℕ) × (left : List ℕ) × (values ≡ laid_out before after left)
      × Answers c evm tx checks snapshot number call items before after left

  abbrev AfterSwap : List SimulationResult → List (Option ℕ) → Type 0
  AfterSwap items values =
      (second : List SimulationResult) × (third : List SimulationResult) × (after : List ℕ)
      × (left : List ℕ) × (items ≡ second ++ third)
      × (values ≡ map some after ++ map some left)
      × Replies c snapshot number c.balance_of probes second after
      × Replies c snapshot number c.allowance clears third left

  read_after :
      (items : List SimulationResult) (values : List (Option ℕ))
      → Segment c snapshot number
          (length probes)
          c.balance_of
          probes
          clears
          (suc (length probes) + length probes)
          items
          values
      → AfterSwap items values
  read_after items values (second, third, after, rest, e, v, replies, l, h) =
      let (left, v', cleared) =
        values_of_last c snapshot number (length probes) c.allowance clears
          (suc (length probes) + length probes) third rest
          (λ j above below. (ground arith, ground arith)) l h in
      (second, third, after, left, e, v ∙ ap (λ vs. map some after ++ vs) v', replies, cleared)

  read_swap :
      (items : List SimulationResult) (values : List (Option ℕ))
      → length items ≡ suc (length (probes ++ clears))
      → values_of c snapshot number
          (length probes)
          (length probes)
          (swap tx call ∷ (probes ++ clears))
          items
        ≡ some values
      → (swapped : SimulationResult) × (there : List SimulationResult) × (rest : List (Option ℕ))
        × (items ≡ swapped ∷ there)
        × (values ≡ none ∷ rest)
        × IsReplyTo c snapshot number (swap tx call) swapped
        × AfterSwap there rest
  read_swap items values l h = go (
      values_of_swap c snapshot number (length probes) (swap tx call) (probes ++ clears) items
        values l h)
    where
      go :
          ((item : SimulationResult) × (there : List SimulationResult) × (rest : List (Option ℕ))
            × (items ≡ item ∷ there)
            × (values ≡ none ∷ rest)
            × IsReplyTo c snapshot number (swap tx call) item
            × (values_of c snapshot number
                  (length probes)
                  (suc (length probes))
                  (probes ++ clears)
                  there
                ≡ some rest))
          → (swapped : SimulationResult) × (there : List SimulationResult) × (rest : List
              (Option ℕ))
            × (items ≡ swapped ∷ there)
            × (values ≡ none ∷ rest)
            × IsReplyTo c snapshot number (swap tx call) swapped
            × AfterSwap there rest
      go (swapped, there, rest, e, v, reply, h) = (
        swapped,
        there,
        rest,
        e,
        v,
        reply,
        read_after there rest (
            values_of-Segment c snapshot number (length probes) c.balance_of probes clears
              (suc (length probes)) there rest (λ j above below. (ground arith, ground arith))
              (omega (arith, l, ap length e)) h),
      )

  read_before :
      (items : List SimulationResult) (values : List (Option ℕ))
      → Segment c snapshot number
          (length probes)
          c.balance_of
          probes
          (swap tx call ∷ (probes ++ clears))
          (0 + length probes)
          items
          values
      → AnswersIn items values
  read_before items values (first, rest1, before, values1, e1, v1, r1, l1, h1) = go (
      read_swap rest1 values1 l1 (
        subst
          (λ k.
            values_of c snapshot number (length probes) k (swap tx call ∷ (probes ++ clears)) rest1
            ≡ some values1)
          (omega arith) h1))
    where
      go :
          ((swapped : SimulationResult) × (there : List SimulationResult) × (rest : List (Option ℕ))
            × (rest1 ≡ swapped ∷ there)
            × (values1 ≡ none ∷ rest)
            × IsReplyTo c snapshot number (swap tx call) swapped
            × AfterSwap there rest)
          → AnswersIn items values
      go (swapped, there, rest, e2, v2, reply, (second, third, after, left, e3, v3, r3, r4)) = (
        before,
        after,
        left,
        v1 ∙ ap (λ vs. map some before ++ vs) (v2 ∙ ap (λ vs. none ∷ vs) v3),
        record {
          first = first;
          swapped = swapped;
          second = second;
          third = third;
          in_order = e1 ∙ ap (λ is. first ++ is) (e2 ∙ ap (λ is. swapped ∷ is) e3);
          reads_before = r1;
          swaps = reply;
          reads_after = r3;
          reads_left = r4;
        },
      )

  pub values_of-Answers :
      (items : List SimulationResult) (values : List (Option ℕ))
      → length items ≡ length (bundle c evm tx checks call)
      → values_of c snapshot number (length probes) 0 (bundle c evm tx checks call) items
        ≡ some values
      → AnswersIn items values
  unfolding bundle
  values_of-Answers items values l h = read_before items values (
      values_of-Segment c snapshot number (length probes) c.balance_of probes
        (swap tx call ∷ (probes ++ clears)) 0 items values
        (λ j above below. (ground arith, ground arith)) l h)
