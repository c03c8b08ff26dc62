-- ===== src/Executor/Plan.antt =====
-- executor.go, `admitAllocations`: what an admitted plan satisfies.
use epeius.Executor.Legs.{Leads, route_with-IsFirst, follow_legs-Leads}
use epeius.Executor.Venues.{HasVenue, executor_venue-HasVenue}
use mathlib.Core.Path.{subst}
use epeius.Prelude.{
  split_and, ℕ, ◌≤◌, ◌<◌, ◌^◌, String, ◌≡◌, refl, sym, Bool, true, false, not, Option, none, some,
  List, [], ◌∷◌, arith, ltb→lt, leb→le, length, str_eq_iff,
}
use epeius.Prelude.Int.{ℤ, pos, ◌+ℤ◌, pos_part}
use epeius.Prelude.Decimal.{set_string, set_string-int_text}
use epeius.Evm.{Evm}
use epeius.Wire.{RouteQuote, RouteAllocation, QuotedAllocation}
use epeius.Store.{StoredQuote}
use epeius.Wire.First.{IsFirst}
use epeius.Engine.{Chain}
use epeius.Executor.{
  AllocationError, Allocated, allocated, not_allocated, ◌>>=◌, ◌>>◌, require, required, is_set,
  is_member, executor_venue, route_with, has_v3_fee, venue_in, follow_legs, equal_fold, admit_route,
  admit_amount, admit_rest, admit_allocations,
}

-- What the value of an admission satisfies.
pub data Gives {ℓ κ} {A : Type ℓ} (P : A → Type κ) : Allocated A → Type (ℓ ⊔ κ) where
  gives : {a : A} → P a → Gives P (allocated a)
  no_value : {error : AllocationError} → Gives P (not_allocated error)

module _ {ℓ κ μ ν} {A : Type ℓ} {B : Type κ} {P : A → Type μ} {Q : B → Type ν} where
  pub bind-Gives :
      (m : Allocated A) (f : A → Allocated B)
      → Gives P m
      → ((a : A) → P a → Gives Q (f a))
      → Gives Q (m >>= f)
  unfolding ◌>>=◌
  bind-Gives m f (Gives.gives {a = a} p) h = h a p
  bind-Gives m f Gives.no_value h = Gives.no_value

require-Gives :
    (b : Bool) (error : AllocationError) → Gives (λ (u : Unit {0}). b ≡ true) (require b error)
unfolding require
require-Gives true error = Gives.gives refl
require-Gives false error = Gives.no_value

pub required-Gives {ℓ} :
    {A : Type ℓ} (o : Option A) (error : AllocationError)
    → Gives (λ a. o ≡ some a) (required o error)
unfolding required
required-Gives (some a) error = Gives.gives refl
required-Gives none error = Gives.no_value

abbrev AtValue {ℓ κ} : {A : Type ℓ} → (A → Type κ) → Allocated A → Type κ
AtValue P (allocated a) = P a
AtValue P (not_allocated error) = Unit

abbrev IsValue {ℓ} : {A : Type ℓ} → Allocated A → Type 0
IsValue (allocated a) = Unit
IsValue (not_allocated error) = ⊥

pub Gives-at {ℓ κ} :
    {A : Type ℓ} {P : A → Type κ} (m : Allocated A) (a : A) → Gives P m → m ≡ allocated a → P a
Gives-at {P = P} m a (Gives.gives {a = b} p) e = subst (AtValue P) e p
Gives-at m a Gives.no_value e = elim (subst IsValue (sym e) tt) [ ]

module _ (evm : Evm) (chain : Chain) (saved : StoredQuote) where
  -- A route of the quote for one of the two venues, whose legs lead from the input to the output.
  pub record IsRoute (route_id : String) (route : RouteQuote) (venue : ℕ) : Type 0 where
    pub is_first : IsFirst route_id saved.final.routes route
    pub has_venue : HasVenue chain.config route venue
    pub leads : Leads evm saved.request.token_in saved.request.token_out route.legs
    pub has_legs : 1 ≤ length route.legs
    pub has_two_legs : length route.legs ≤ 2

  -- The allocations that answer the requested ones, from a total and with venues that are taken.
  pub data IsPlan : ℤ → List ℕ → ℤ → List RouteAllocation → List QuotedAllocation → Type 0 where
    done : {total : ℤ} {seen : List ℕ} → IsPlan total seen total [] []
    adds :
        {total final amount : ℤ} {seen : List ℕ} {venue : ℕ} {a : RouteAllocation}
        {q : QuotedAllocation} {requested : List RouteAllocation} {result : List QuotedAllocation}
        → set_string a.amount_in_atomic ≡ some amount
        → set_string q.amount_in_atomic ≡ some amount
        → pos_part amount < 2 ^ 256
        → is_member venue seen ≡ false
        → IsRoute a.route_id q.route venue
        → IsPlan (total +ℤ amount) (venue ∷ seen) final requested result
        → IsPlan total seen final (a ∷ requested) (q ∷ result)

  not-true : (b : Bool) → not b ≡ true → b ≡ false
  not-true b h = ground arith

  admit_route-Gives :
      (seen : List ℕ) (id : String)
      → Gives
          (λ (p : RouteQuote × ℕ). IsRoute id p.0 p.1 × (is_member p.1 seen ≡ false))
          (admit_route evm chain saved seen id)
  unfolding admit_route
  admit_route-Gives seen id = bind-Gives _ _ (required-Gives _ _) (λ route found.
      bind-Gives _ _ (require-Gives _ _) (λ u usable.
        bind-Gives _ _ (required-Gives _ _) (λ venue at.
          bind-Gives _ _ (require-Gives _ _) (λ v free.
            bind-Gives _ _ (required-Gives _ _) (λ last leads.
              bind-Gives _ _ (require-Gives _ _) (λ x ends.
                let (known, two) = split_and _ _ usable in
                let (fine, one) = split_and _ _ known in
                Gives.gives (
                  record {
                    is_first = route_with-IsFirst id saved.final.routes route found;
                    has_venue = executor_venue-HasVenue chain.config route venue at;
                    leads =
                        follow_legs-Leads evm saved.request.token_in saved.request.token_out last
                          route.legs leads ends;
                    has_legs = leb→le _ _ one;
                    has_two_legs = leb→le _ _ two;
                  },
                  not-true _ free,
                )))))))

  admit_amount-Gives :
      (text : String)
      → Gives
          (λ (amount : ℤ). (set_string text ≡ some amount) × (pos_part amount < 2 ^ 256))
          (admit_amount text)
  unfolding admit_amount
  admit_amount-Gives text = bind-Gives _ _ (require-Gives _ _) (λ u digits.
      bind-Gives _ _ (required-Gives _ _) (λ amount reads.
        bind-Gives _ _ (require-Gives _ _)
          (λ v word. Gives.gives (reads, unfold epeius.Executor.is_uint256 in ltb→lt _ _ word))))

  admit_rest-Gives :
      (total : ℤ) (seen : List ℕ) (requested : List RouteAllocation)
      → Gives
          (λ (p : ℤ × List QuotedAllocation). IsPlan total seen p.0 requested p.1)
          (admit_rest evm chain saved total seen requested)
  unfolding admit_rest
  admit_rest-Gives total seen [] = Gives.gives IsPlan.done
  admit_rest-Gives total seen (a ∷ requested) =
      bind-Gives _ _ (admit_amount-Gives a.amount_in_atomic) (λ amount reads.
        bind-Gives _ _ (admit_route-Gives seen a.route_id) (λ chosen route.
          bind-Gives _ _ (admit_rest-Gives (total +ℤ amount) (chosen.1 ∷ seen) requested)
            (λ rest plan.
              Gives.gives
                (IsPlan.adds reads.0 (set_string-int_text amount) reads.1 route.1 route.0 plan))))

  pub admit_allocations-Gives :
      (requested : List RouteAllocation)
      → Gives
          (λ (result : List QuotedAllocation).
            (total : ℤ) × (set_string saved.request.amount_in_atomic ≡ some total)
            × IsPlan (pos 0) [] total requested result)
          (admit_allocations evm chain saved requested)
  unfolding admit_allocations
  admit_allocations-Gives requested = bind-Gives _ _ (require-Gives _ _) (λ u counted.
      bind-Gives _ _ (admit_rest-Gives (pos 0) [] requested) (λ rest plan.
        bind-Gives _ _ (require-Gives _ _) (λ v sums. Gives.gives (
          rest.0,
          subst (λ text. set_string text ≡ some rest.0) ((str_eq_iff _ _).0 sums)
              (set_string-int_text rest.0),
          plan,
        ))))

-- An admitted plan answers the requested allocations in order. The inputs that it states are the
-- requested ones, each below 2^256, and they sum to the input of the quote. Each allocation has the
-- first route of the quote with the requested ID, on one of the two venues of the configured executor,
-- with one or two legs. They lead from the input token of the quote to its output token, each from
-- where the one before it ended, and each has addresses and a V3 fee below 1000000. No two allocations
-- use one venue.
pub admit_allocations-IsPlan :
    (evm : Evm) (chain : Chain) (saved : StoredQuote) (requested : List RouteAllocation)
    (result : List QuotedAllocation)
    → admit_allocations evm chain saved requested ≡ allocated result
    → (total : ℤ) × (set_string saved.request.amount_in_atomic ≡ some total)
      × IsPlan evm chain saved (pos 0) [] total requested result
admit_allocations-IsPlan evm chain saved requested result e =
    Gives-at (admit_allocations evm chain saved requested) result
      (admit_allocations-Gives evm chain saved requested) e
