-- ===== src/Simulators/Tenderly/Segments.antt =====
-- tenderly.go, the loop of `Simulate` over the results, one part of the bundle after another.
use mathlib.Core.Path.{subst}
use epeius.Prelude.{
  ℕ, suc, ◌+◌, ◌*◌, ◌<◌, ◌≤◌, ◌≡◌, refl, ap, false, Option, some, List, [], ◌∷◌, ◌++◌, map, ltb,
  ◌==◌, length, if◌then◌else◌, arith,
}
use epeius.Prelude.Partial.{◌>>=◌, >>=-eq-some}
use epeius.Evm.{Method}
use epeius.Engine.{Snapshot}
use epeius.Simulators.{Probing}
use epeius.Simulators.Tenderly.{SimulationCall, SimulationResult, value_if_ok, values_of}
use epeius.Simulators.Tenderly.Replies.{
  IsReplyTo, Replies, value_if_ok-eq, value_of-Reads, value_of_swap as swap_value,
}

module _ (c : Probing) (snapshot : Snapshot) (number probes : ℕ) where
  -- The first calls have their replies, and the loop goes on behind them.
  abbrev pub Segment :
      Method ℕ
      → List SimulationCall
      → List SimulationCall
      → ℕ
      → List SimulationResult
      → List (Option ℕ)
      → Type 0
  Segment method calls more next items values =
      (here : List SimulationResult) × (there : List SimulationResult) × (numbers : List ℕ)
      × (rest : List (Option ℕ)) × (items ≡ here ++ there)
      × (values ≡ map some numbers ++ rest)
      × Replies c snapshot number method calls here numbers
      × (length there ≡ length more)
      × (values_of c snapshot number probes next more there ≡ some rest)

  -- From `i` on the calls are not the swap, and are read by the method.
  abbrev pub ReadBy : Method ℕ → ℕ → ℕ → Type 0
  ReadBy method i n =
      (j : ℕ)
      → i ≤ j
      → j < i + n
      → ((j == probes) ≡ false)
        × ((if ltb (2 * probes) j then c.allowance else c.balance_of) ≡ method)

  values_of-cons :
      (call : SimulationCall) (calls : List SimulationCall) (i : ℕ) (item : SimulationResult)
      (items : List SimulationResult) (values : List (Option ℕ))
      → values_of c snapshot number probes i (call ∷ calls) (item ∷ items) ≡ some values
      → (v : Option ℕ) × (rest : List (Option ℕ)) × (value_if_ok c snapshot number probes i call
            item
          ≡ some v)
        × (values_of c snapshot number probes (suc i) calls items ≡ some rest)
        × (values ≡ v ∷ rest)
  unfolding values_of
  values_of-cons call calls i item items values h =
      let (v, read, h') =
        >>=-eq-some (value_if_ok c snapshot number probes i call item)
          (λ v. values_of c snapshot number probes (suc i) calls items >>= λ rest. some (v ∷ rest))
          h in
      let (rest, reads, e) =
        >>=-eq-some (values_of c snapshot number probes (suc i) calls items)
          (λ (rest : List (Option ℕ)). some (v ∷ rest)) h' in
      (v, rest, read, reads, cc)

  pub values_of-Segment :
      (method : Method ℕ) (calls more : List SimulationCall) (i : ℕ) (items : List SimulationResult)
      (values : List (Option ℕ))
      → ReadBy method i (length calls)
      → length items ≡ length (calls ++ more)
      → values_of c snapshot number probes i (calls ++ more) items ≡ some values
      → Segment method calls more (i + length calls) items values
  values_of-Segment method [] more i items values place l h = (
    [],
    items,
    [],
    values,
    refl,
    refl,
    tt,
    l,
    subst (λ k. values_of c snapshot number probes k more items ≡ some values) (omega arith) h,
  )
  values_of-Segment method (call ∷ calls) more i [] values place l h = absurd (omega arith)
  values_of-Segment method (call ∷ calls) more i (item ∷ items) values place l h =
      let (v, rest, read, reads, e) = values_of-cons call (calls ++ more) i item items values h in
      let (reply, of) = value_if_ok-eq c snapshot number probes i call item v read in
      let (other, chosen) = place i (omega arith) (omega arith) in
      let (n, is_n, reads_n) =
        value_of-Reads c snapshot number method probes i item v other chosen of in
      let (here, there, numbers, tail, ei, ev, replies, l', more_values) =
        values_of-Segment method calls more (suc i) items rest
          (λ j above below. place j (omega arith) (omega arith)) (omega arith) reads in
      (
        item ∷ here,
        there,
        n ∷ numbers,
        tail,
        ap (λ is. item ∷ is) ei,
        cc,
        (reply, reads_n, replies),
        l',
        subst (λ k. values_of c snapshot number probes k more there ≡ some tail) (omega arith)
            more_values,
      )

  -- The last part of the bundle.
  pub values_of_last :
      (method : Method ℕ) (calls : List SimulationCall) (i : ℕ) (items : List SimulationResult)
      (values : List (Option ℕ))
      → ReadBy method i (length calls)
      → length items ≡ length calls
      → values_of c snapshot number probes i calls items ≡ some values
      → (numbers : List ℕ) × (values ≡ map some numbers)
        × Replies c snapshot number method calls items numbers
  values_of_last method [] i [] values place l h = ([], unfold values_of in cc h, tt)
  values_of_last method [] i (item ∷ items) values place l h = absurd (omega arith)
  values_of_last method (call ∷ calls) i [] values place l h = absurd (omega arith)
  values_of_last method (call ∷ calls) i (item ∷ items) values place l h =
      let (v, rest, read, reads, e) = values_of-cons call calls i item items values h in
      let (reply, of) = value_if_ok-eq c snapshot number probes i call item v read in
      let (other, chosen) = place i (omega arith) (omega arith) in
      let (n, is_n, reads_n) =
        value_of-Reads c snapshot number method probes i item v other chosen of in
      let (numbers, er, replies) =
        values_of_last method calls (suc i) items rest
          (λ j above below. place j (omega arith) (omega arith)) (omega arith) reads in
      (n ∷ numbers, cc, (reply, reads_n, replies))

  -- The swap's own result.
  pub values_of_swap :
      (call : SimulationCall) (more : List SimulationCall) (items : List SimulationResult)
      (values : List (Option ℕ))
      → length items ≡ suc (length more)
      → values_of c snapshot number probes probes (call ∷ more) items ≡ some values
      → (item : SimulationResult) × (there : List SimulationResult) × (rest : List (Option ℕ))
        × (items ≡ item ∷ there)
        × (values ≡ Option.none ∷ rest)
        × IsReplyTo c snapshot number call item
        × (values_of c snapshot number probes (suc probes) more there ≡ some rest)
  values_of_swap call more [] values l h = absurd (omega arith)
  values_of_swap call more (item ∷ items) values l h =
      let (v, rest, read, reads, e) = values_of-cons call more probes item items values h in
      let (reply, of) = value_if_ok-eq c snapshot number probes probes call item v read in
      let is_none = swap_value c snapshot number probes item v of in
      (item, items, rest, refl, cc, reply, reads)
