-- ===== src/Simulators/Tenderly/Refuted.antt =====
-- tenderly.go, the loop of `Simulate` over the results: why it ends with the evidence error.
use mathlib.Core.Path.{subst}
use epeius.Prelude.{
  ℕ, suc, ◌*◌, ◌≡◌, ◌⊎◌, refl, sym, ◌∙◌, Option, none, some, List, [], ◌∷◌, ltb, ◌==◌, ==_iff,
  Bool-cases, inl, inr, if◌then◌else◌,
}
use epeius.Prelude.Partial.{none-neq-some, true-neq-false, ◌>>=◌}
use epeius.Evm.{Bytes, Method}
use epeius.Engine.{Snapshot}
use epeius.Simulators.{Probing}
use epeius.Simulators.Tenderly.{
  SimulationCall, SimulationResult, result_ok, decoded, value_of, value_if_ok, values_of,
}
use epeius.Simulators.Tenderly.Replies.{IsReplyTo, Reads, not_ok-no_reply}

module _ (c : Probing) (snapshot : Snapshot) (number probes : ℕ) where
  -- The method of the result at this place: after the second balances come the allowances.
  abbrev pub method_at : ℕ → Method ℕ
  method_at i = if ltb (2 * probes) i then c.allowance else c.balance_of

  -- The result at this place replies to its call and, but for the swap's, reads as a number.
  abbrev pub Confirms : ℕ → SimulationCall → SimulationResult → Type 0
  Confirms i call item =
      IsReplyTo c snapshot number call item
      × ((i ≡ probes) ⊎ ((n : ℕ) × Reads c (method_at i) item n))

  -- One of the results, counted from this place on, does not confirm its call.
  abbrev pub IsRefuted : ℕ → List SimulationCall → List SimulationResult → Type 0
  IsRefuted i [] items = ⊥
  IsRefuted i (call ∷ calls) [] = ⊥
  IsRefuted i (call ∷ calls) (item ∷ items) =
      (Confirms i call item → ⊥) ⊎ IsRefuted (suc i) calls items

  none-bind {ℓ} :
      {A B : Type ℓ} (o : Option A) (f : A → B) → (o >>= (λ a. some (f a))) ≡ none → o ≡ none
  none-bind none f h = refl
  none-bind (some a) f h = absurd (none-neq-some (sym h))

  decoded-unread :
      (method : Method ℕ) (item : SimulationResult) (n : ℕ)
      → decoded method (c.decode_hex item.call_trace.output) ≡ none
      → Reads c method item n
      → ⊥
  unfolding decoded
  decoded-unread method item n h (raw, e, reads) =
      none-neq-some (sym (subst (λ (o : Option Bytes). decoded method o ≡ none) e h) ∙ reads)

  value_of-unread :
      (i : ℕ) (item : SimulationResult) (n : ℕ)
      → value_of c probes i item ≡ none
      → (i ≡ probes) ⊎ Reads c (method_at i) item n
      → ⊥
  unfolding value_of
  value_of-unread i item n h r = elim (Bool-cases (i == probes)) [
    | inl t ↦ none-neq-some (sym (rw t at h))
    | inr f ↦ elim r [
      | inl e ↦ true-neq-false (sym ((==_iff i probes).1 e) ∙ f)
      | inr reads ↦ decoded-unread (method_at i) item n (none-bind _ some (rw f at h)) reads
    ]
  ]

  value_if_ok-unconfirmed :
      (i : ℕ) (call : SimulationCall) (item : SimulationResult)
      → value_if_ok c snapshot number probes i call item ≡ none
      → Confirms i call item
      → ⊥
  unfolding value_if_ok
  value_if_ok-unconfirmed i call item h (reply, reads) =
      elim (Bool-cases (result_ok c snapshot number call item)) [
        | inl t ↦ elim reads [
          | inl e ↦ value_of-unread i item 0 (rw t at h) (inl e)
          | inr r ↦ value_of-unread i item r.0 (rw t at h) (inr r.1)
        ]
        | inr f ↦ not_ok-no_reply c snapshot number call item f reply
      ]

  pub values_of-IsRefuted :
      (i : ℕ) (calls : List SimulationCall) (items : List SimulationResult)
      → values_of c snapshot number probes i calls items ≡ none
      → IsRefuted i calls items
  unfolding values_of
  values_of-IsRefuted i [] items h = none-neq-some (sym h)
  values_of-IsRefuted i (call ∷ calls) [] h = none-neq-some (sym h)
  values_of-IsRefuted i (call ∷ calls) (item ∷ items) h =
      by_value (values_of-IsRefuted (suc i) calls items)
        (value_if_ok c snapshot number probes i call item) refl
    where
      by_value :
          (values_of c snapshot number probes (suc i) calls items ≡ none
            → IsRefuted (suc i) calls items)
          → (o : Option (Option ℕ)) → value_if_ok c snapshot number probes i call item ≡ o
          → IsRefuted i (call ∷ calls) (item ∷ items)
      by_value later none e = inl (value_if_ok-unconfirmed i call item e)
      by_value later (some v) e = inr (
          later (
            none-bind (values_of c snapshot number probes (suc i) calls items) (λ rest. v ∷ rest)
              (rw e at h)))
