-- ===== src/Execution/Spec.antt =====
-- A logic for the handler of execution.go: an invariant of the store that holds at every exit, a fact
-- about the value with which a part goes on, and a condition on an answer that is ready.
use epeius.Prelude.{String, Bool, true, false, Option, none, some, ◌≡◌, refl, ◌≢◌}
use epeius.Wire.{PreparationStatus, PrepareExecutionResponse, ready}
use epeius.Store.{Store}
use epeius.Execution.Outcome.{
  Outcome, goes_on, answers, fails, panics, Exec, pure, respond, invalid, result, some_or_panic,
  some_or_else, unless, continue, ◌>>=◌,
}

abbrev pub Exit :
    {A : Type 0} → (A → Type 0) → (PrepareExecutionResponse → Type 0) → Outcome A → Type 0
Exit F R (goes_on a) = F a
Exit F R (answers response) = response.status ≡ ready → R response
Exit F R (fails code message) = Unit
Exit F R panics = Unit

module _ (I : Store → Type 0) (R : PrepareExecutionResponse → Type 0) where
  pub record Spec {A : Type 0} (m : Exec A) (F : A → Type 0) : Type 0 where
    pub at : (s : Store) → I s → I (m s).1 × Exit F R (m s).0

  module _ {A : Type 0} {F : A → Type 0} where
    pub Spec-pure : (a : A) → F a → Spec (pure a) F
    unfolding pure
    Spec-pure a h = record { at = λ s i. (i, h) }

    pub Spec-respond :
        (response : PrepareExecutionResponse)
        → (response.status ≡ ready → R response)
        → Spec (respond response) F
    unfolding respond
    Spec-respond response h = record { at = λ s i. (i, h) }

    pub Spec-result :
        (status : PreparationStatus) (message : String)
        → status ≢ ready
        → Spec (result status message) F
    unfolding result
    Spec-result status message h = Spec-respond _ (λ e. absurd (h e))

    pub Spec-invalid : Spec (invalid {A = A}) F
    unfolding invalid
    Spec-invalid = record { at = λ s i. (i, tt) }

    pub Spec-some_or_panic :
        (o : Option A) → ((a : A) → o ≡ some a → F a) → Spec (some_or_panic o) F
    unfolding some_or_panic
    Spec-some_or_panic none h = record { at = λ s i. (i, tt) }
    Spec-some_or_panic (some a) h = Spec-pure a (h a refl)

  module _ {A : Type 0} where
    pub Spec-some_or_else :
        (o : Option A) (early : Exec A)
        → Spec early (λ a. o ≡ some a)
        → Spec (some_or_else o early) (λ a. o ≡ some a)
    unfolding some_or_else
    Spec-some_or_else none early h = h
    Spec-some_or_else (some a) early h = Spec-pure a refl

  pub Spec-unless :
      (b : Bool) (early : Exec (Unit {0}))
      → Spec early (λ _. b ≡ true)
      → Spec (unless b early) (λ _. b ≡ true)
  unfolding unless
  Spec-unless true early h = Spec-pure tt refl
  Spec-unless false early h = h

  module _ {A : Type 0} {F : A → Type 0} where
    pub Spec-if :
        (b : Bool) (m n : Exec A)
        → (b ≡ true → Spec m F)
        → (b ≡ false → Spec n F)
        → Spec (epeius.Prelude.if◌then◌else◌ b m n) F
    Spec-if true m n hm hn = hm refl
    Spec-if false m n hm hn = hn refl

  module _ {A B : Type 0} where
    Spec-continue :
        {F : A → Type 0} {G : B → Type 0} (r : Outcome A) (s : Store) (f : A → Exec B)
        → I s
        → Exit F R r
        → ((a : A) → F a → Spec (f a) G)
        → I (continue r f s).1 × Exit G R (continue r f s).0
    Spec-continue (goes_on a) s f i h k = (k a h).at s i
    Spec-continue (answers response) s f i h k = (i, h)
    Spec-continue (fails code message) s f i h k = (i, tt)
    Spec-continue panics s f i h k = (i, tt)

    pub Spec-bind :
        {F : A → Type 0} {G : B → Type 0} (m : Exec A) (f : A → Exec B)
        → Spec m F
        → ((a : A) → F a → Spec (f a) G)
        → Spec (m >>= f) G
    unfolding ◌>>=◌
    Spec-bind {F} m f h k = record {
      at = λ s i. let done = h.at s i in Spec-continue {F = F} (m s).0 (m s).1 f done.0 done.1 k;
    }

  -- At one state.
  abbrev pub Holds : {A : Type 0} → (A → Type 0) → Outcome A × Store → Type 0
  Holds F o = I o.1 × Exit F R o.0

  module _ {A B : Type 0} {F : A → Type 0} {G : B → Type 0} where
    pub Holds-bind :
        (m : Exec A) (f : A → Exec B) (s : Store)
        → Holds F (m s)
        → ((a : A) → F a → Spec (f a) G)
        → Holds G ((m >>= f) s)
    unfolding ◌>>=◌
    Holds-bind m f s h k = Spec-continue {F = F} (m s).0 (m s).1 f h.0 h.1 k

  -- A guard leaves the state to what follows.
  pub Holds-unless :
      {B : Type 0} (G : B → Type 0) (b : Bool) (early : Exec (Unit {0})) (rest : Unit {0} → Exec B)
      (s : Store)
      → I s
      → Spec early (λ _. ⊥)
      → (b ≡ true → Holds G (rest tt s))
      → Holds G ((unless b early >>= rest) s)
  unfolding unless ◌>>=◌ pure
  Holds-unless G true early rest s i h k = k refl
  Holds-unless G false early rest s i h k =
      Holds-bind {F = λ _. ⊥} early rest s (h.at s i) (λ a f. absurd f)

  module _ {A : Type 0} {F G : A → Type 0} where
    Exit-weaken : ((a : A) → F a → G a) → (r : Outcome A) → Exit F R r → Exit G R r
    Exit-weaken h (goes_on a) e = h a e
    Exit-weaken h (answers response) e = e
    Exit-weaken h (fails code message) e = tt
    Exit-weaken h panics e = tt

    pub Spec-weaken : {m : Exec A} → ((a : A) → F a → G a) → Spec m F → Spec m G
    Spec-weaken {m} h spec = record {
      at = λ s i. let done = spec.at s i in (done.0, Exit-weaken h (m s).0 done.1);
    }
