-- ===== src/Executor/Sums.antt =====
-- executor.go, `Select`: the inputs and the outputs of what it selects.
use mathlib.Core.Path.{subst}
use epeius.Prelude.{
  ℕ, ◌<◌, ◌^◌, ◌≡◌, arith, refl, sym, ap, ◌∙◌, false, Option, none, some, List, [], ◌∷◌, Bool-cases,
  inl, inr,
}
use epeius.Prelude.Int.{ℤ, pos, ◌+ℤ◌, pos_part, neg_part, int_laws}
use epeius.Prelude.Partial.{none-neq-some}
use epeius.Prelude.Decimal.{set_string}
use epeius.Evm.{Evm}
use epeius.Wire.{BlockContext, RouteAllocation, QuotedAllocation}
use epeius.Store.{StoredQuote}
use epeius.Engine.{Chain, Admission, admitted, refused, ExecutionSelection}
use epeius.Executor.{Allocated, allocated, not_allocated, requote_all, quote_allocations}
use epeius.Executor.Plan.{IsPlan, Gives, bind-Gives, required-Gives, admit_allocations-Gives}
use epeius.Executor.Selection.{add_outputs, is_wide, with_output, select_from, select_allocations}

-- The inputs that the allocations state, added up.
abbrev pub add_stated : (ℤ → Option ℤ) → Option ℤ → Option ℤ
add_stated rest none = none
add_stated rest (some amount) = rest amount

unfoldable pub add_inputs : ℤ → List QuotedAllocation → Option ℤ
add_inputs total [] = some total
add_inputs total (a ∷ rest) =
    add_stated (λ amount. add_inputs (total +ℤ amount) rest) (set_string a.amount_in_atomic)

module _ (evm : Evm) (chain : Chain) (saved : StoredQuote) where
  IsPlan-sum :
      {total final : ℤ} {seen : List ℕ} {requested : List RouteAllocation}
      {result : List QuotedAllocation}
      → IsPlan evm chain saved total seen final requested result
      → add_inputs total result ≡ some final
  unfolding add_inputs
  IsPlan-sum IsPlan.done = refl
  IsPlan-sum (IsPlan.adds {total = total} {result = result} asked stated bound free route plan) =
      ap (add_stated (λ n. add_inputs (total +ℤ n) result)) stated ∙ IsPlan-sum plan

some_injective : (a b : ℤ) → some a ≡ some b → a ≡ b
some_injective a b e = cc

anything {ℓ} : {A : Type ℓ} (m : Allocated A) → Gives (λ (a : A). Unit {0}) m
anything (allocated a) = Gives.gives tt
anything (not_allocated error) = Gives.no_value

weaken {ℓ κ μ} :
    {A : Type ℓ} {P : A → Type κ} {Q : A → Type μ} (m : Allocated A)
    → Gives P m
    → ((a : A) → P a → Q a)
    → Gives Q m
weaken m (Gives.gives {a = a} p) h = Gives.gives (h a p)
weaken m Gives.no_value h = Gives.no_value

same_inputs :
    (chain : Chain) (block : BlockContext) (result : List QuotedAllocation)
    → Gives
        (λ (quoted : List QuotedAllocation).
          (total : ℤ) → add_inputs total quoted ≡ add_inputs total result)
        (requote_all chain block result)
unfolding requote_all add_inputs
same_inputs chain block [] = Gives.gives (λ total. refl)
same_inputs chain block (a ∷ rest) = bind-Gives _ _ (required-Gives _ _) (λ requote known.
    bind-Gives _ _ (required-Gives _ _) (λ amount reads. bind-Gives _ _ (anything _) (λ route u.
      bind-Gives _ _ (same_inputs chain block rest) (λ others same. Gives.gives (λ total.
        ap (add_stated (λ n. add_inputs (total +ℤ n) others)) reads
        ∙ (same (total +ℤ amount)
            ∙ sym (ap (add_stated (λ n. add_inputs (total +ℤ n) rest)) reads)))))))

quote_allocations-Gives :
    (evm : Evm) (chain : Chain) (saved : StoredQuote) (requested : List RouteAllocation)
    → Gives
        (λ (quoted : List QuotedAllocation).
          add_inputs (pos 0) quoted ≡ set_string saved.request.amount_in_atomic)
        (quote_allocations evm chain saved requested)
unfolding quote_allocations
quote_allocations-Gives evm chain saved requested =
    bind-Gives _ _ (admit_allocations-Gives evm chain saved requested) (λ result plan.
      weaken _ (same_inputs chain saved.final.block result)
        (λ quoted same. same (pos 0) ∙ (IsPlan-sum evm chain saved plan.2 ∙ sym plan.1)))

-- The outputs that the routes of the allocations state, one by one.
abbrev pub States : List QuotedAllocation → List ℤ → Type 0
States [] [] = Unit
States [] (n ∷ ns) = ⊥
States (a ∷ allocations) [] = ⊥
States (a ∷ allocations) (n ∷ ns) =
    (set_string a.route.amount_out_atomic ≡ some n) × States allocations ns

unfoldable pub sum : List ℤ → ℤ
sum [] = pos 0
sum (n ∷ ns) = n +ℤ sum ns

-- The output is the sum of the outputs that the routes state, each of them a number, and fits 256 bits.
pub record StatesSum (allocations : List QuotedAllocation) (output : Option ℤ) : Type 0 where
  pub outputs : List ℤ
  pub states : States allocations outputs
  pub sums : output ≡ some (sum outputs)
  pub positive_bound : pos_part (sum outputs) < 2 ^ 256
  pub negative_bound : neg_part (sum outputs) < 2 ^ 256

+ℤ_zero : (a : ℤ) → a ≡ a +ℤ pos 0
+ℤ_zero a = grind int_laws

+ℤ_assoc : (a b c : ℤ) → (a +ℤ b) +ℤ c ≡ a +ℤ (b +ℤ c)
+ℤ_assoc a b c = grind int_laws

add_outputs-sum :
    (allocations : List QuotedAllocation) (start total : ℤ)
    → add_outputs start allocations ≡ some total
    → (outputs : List ℤ) × States allocations outputs × (total ≡ start +ℤ sum outputs)
unfolding add_outputs sum
add_outputs-sum [] start total h = ([], tt, sym (some_injective start total h) ∙ +ℤ_zero start)
add_outputs-sum (a ∷ allocations) start total h =
    by_output (set_string a.route.amount_out_atomic) refl h
      (λ n. add_outputs-sum allocations (start +ℤ n) total)
  where
    by_output :
        (o : Option ℤ)
        → set_string a.route.amount_out_atomic ≡ o
        → (elim o [ none ↦ none | some amount ↦ add_outputs (start +ℤ amount) allocations ])
          ≡ some total
        → ((n : ℤ)
            → add_outputs (start +ℤ n) allocations ≡ some total
            → (outputs : List ℤ) × States allocations outputs
              × (total ≡ (start +ℤ n) +ℤ sum outputs))
        → (outputs : List ℤ) × States (a ∷ allocations) outputs × (total ≡ start +ℤ sum outputs)
    by_output none e k rest = absurd (none-neq-some k)
    by_output (some n) e k rest =
        let (outputs, states, sums) = rest n k in
        (n ∷ outputs, (e, states), sums ∙ +ℤ_assoc start n (sum outputs))

is_wide-bounds : (n : ℤ) → is_wide n ≡ false → (pos_part n < 2 ^ 256) × (neg_part n < 2 ^ 256)
unfolding is_wide
is_wide-bounds n h = ground arith

+ℤ_start : (a : ℤ) → pos 0 +ℤ a ≡ a
+ℤ_start a = grind int_laws

-- What the strategy selects: a selection that states its own output, or nothing of the kind.
abbrev IsSum : StoredQuote → Option (Admission ExecutionSelection) → Type 0
IsSum saved none = Unit
IsSum saved (some (refused message)) = Unit
IsSum saved (some (admitted selection)) =
    (add_inputs (pos 0) selection.allocations ≡ set_string saved.request.amount_in_atomic)
    × StatesSum selection.allocations selection.output

with_output-IsSum :
    (saved : StoredQuote) (allocations : List QuotedAllocation) (o : Option ℤ)
    → add_inputs (pos 0) allocations ≡ set_string saved.request.amount_in_atomic
    → add_outputs (pos 0) allocations ≡ o
    → IsSum saved (with_output allocations o)
unfolding with_output
with_output-IsSum saved allocations none i e = tt
with_output-IsSum saved allocations (some output) i e = elim (Bool-cases (is_wide output)) [
  | inl t ↦ rw t tt
  | inr f ↦
      let (outputs, states, sums) = add_outputs-sum allocations (pos 0) output e in
      let total : output ≡ sum outputs = sums ∙ +ℤ_start (sum outputs) in
      let bounds = is_wide-bounds output f in
      rw f (
        i,
        record {
          outputs = outputs;
          states = states;
          sums = ap some total;
          positive_bound = subst (λ n. pos_part n < 2 ^ 256) total bounds.0;
          negative_bound = subst (λ n. neg_part n < 2 ^ 256) total bounds.1;
        },
      )
]

select_from-IsSum :
    (saved : StoredQuote) (m : Allocated (List QuotedAllocation))
    → Gives
        (λ (quoted : List QuotedAllocation).
          add_inputs (pos 0) quoted ≡ set_string saved.request.amount_in_atomic)
        m
    → IsSum saved (select_from m)
unfolding select_from
select_from-IsSum saved m (Gives.gives {a = quoted} i) = with_output-IsSum saved quoted _ i refl
select_from-IsSum saved m Gives.no_value = tt

-- Whatever the quoters answer, the allocations that `Select` returns state inputs that sum to the input
-- of the quote; the outputs of their routes are numbers, and the selection's output is their sum, which
-- fits 256 bits.
pub select_allocations-sums :
    (evm : Evm) (chain : Chain) (saved : StoredQuote) (requested : List RouteAllocation)
    (selection : ExecutionSelection)
    → select_allocations evm chain saved requested ≡ some (admitted selection)
    → (add_inputs (pos 0) selection.allocations ≡ set_string saved.request.amount_in_atomic)
      × StatesSum selection.allocations selection.output
unfolding select_allocations
select_allocations-sums evm chain saved requested selection e = subst (IsSum saved) e (
    select_from-IsSum saved (quote_allocations evm chain saved requested)
      (quote_allocations-Gives evm chain saved requested))
