-- ===== src/V3Quoter/Requoted.antt =====
-- v3.go, `Requote`: what a route that was quoted again keeps.
use epeius.Prelude.{
  ℕ, ◌<◌, ◌^◌, ◌≡◌, refl, ap, ◌∙◌, Bool, true, false, some, List, [], ◌∷◌, map, arith, ◌==◌, ==_iff,
  inl, inr, Bool-cases, if◌then◌else◌, length, length-map, suc,
}
use mathlib.Core.Path.{subst}
use epeius.Prelude.Int.{ℤ, pos, negsuc}
use epeius.Prelude.Decimal.{set_string, set_string-int_text}
use epeius.Config.{Deployment}
use epeius.Evm.{Evm, Reader}
use epeius.Wire.{RouteLeg, RouteQuote, BlockContext, get_fee_pips}
use epeius.V3Quoter.{
  V3Contracts, Answered, answers, absent, fails, out_of_range, ◌>>=◌, quote_path, quote, Provider,
  is_output, same_pools, quoted_again, requote_legs, requote_from, requote,
}

abbrev AtValue : {A : Type 0} → (A → Type 0) → Answered A → Type 0
AtValue P (answers a) = P a
AtValue P absent = Unit
AtValue P (fails message) = Unit
AtValue P out_of_range = Unit

bind-AtValue :
    {A B : Type 0} (P : A → Type 0) (Q : B → Type 0) (m : Answered A) (f : A → Answered B)
    → AtValue P m
    → ((a : A) → P a → AtValue Q (f a))
    → AtValue Q (m >>= f)
unfolding ◌>>=◌
bind-AtValue P Q (answers a) f p h = h a p
bind-AtValue P Q absent f p h = tt
bind-AtValue P Q (fails message) f p h = tt
bind-AtValue P Q out_of_range f p h = tt

-- Leg by leg, the pool is the one that the route had.
abbrev pub KeepsPools : Evm → List RouteLeg → List RouteLeg → Type 0
KeepsPools evm [] old = Unit
KeepsPools evm (leg ∷ legs) [] = ⊥
KeepsPools evm (leg ∷ legs) (before ∷ old) =
    (evm.hex_to_address leg.pool ≡ evm.hex_to_address before.pool) × KeepsPools evm legs old

same_pools-AtValue :
    (evm : Evm) (legs old : List RouteLeg)
    → AtValue (λ (u : Unit {0}). KeepsPools evm legs old) (same_pools evm legs old)
unfolding same_pools
same_pools-AtValue evm [] old = tt
same_pools-AtValue evm (leg ∷ legs) [] = tt
same_pools-AtValue evm (leg ∷ legs) (before ∷ old) =
    by_test (evm.hex_to_address leg.pool == evm.hex_to_address before.pool) refl
      (same_pools evm legs old) (same_pools-AtValue evm legs old)
  where
    by_test :
        (b : Bool)
        → (evm.hex_to_address leg.pool == evm.hex_to_address before.pool) ≡ b
        → (rest : Answered (Unit {0})) → AtValue (λ (u : Unit {0}). KeepsPools evm legs old) rest
        → AtValue
            (λ (u : Unit {0}). KeepsPools evm (leg ∷ legs) (before ∷ old))
            (if b then rest else fails "executor path pool changed")
    by_test true e (answers u) k = ((==_iff _ _).0 e, k)
    by_test true e absent k = tt
    by_test true e (fails message) k = tt
    by_test true e out_of_range k = tt
    by_test false e rest k = tt

anything : {A : Type 0} (m : Answered A) → AtValue (λ (a : A). Unit {0}) m
anything (answers a) = tt
anything absent = tt
anything (fails message) = tt
anything out_of_range = tt

module _ (c : V3Contracts) (p : Provider) (hash : ℕ) (evm : Evm) where
  quote_path-length :
      (a : ℕ) (tokens fees : List ℕ) (amount : ℤ)
      → AtValue
          (λ (r : List RouteLeg × ℤ). length r.0 ≡ length fees)
          (quote_path c p hash evm a tokens fees amount)
  unfolding quote_path
  quote_path-length a tokens [] amount = refl
  quote_path-length a [] (fee ∷ fees) amount = tt
  quote_path-length a (b ∷ tokens) (fee ∷ fees) amount =
      bind-AtValue _ _ (quote c p hash a b amount fee) _ (anything _) (λ hop u.
        bind-AtValue (λ (r : List RouteLeg × ℤ). length r.0 ≡ length fees) _
          (quote_path c p hash evm b tokens fees (pos hop.1)) _
          (quote_path-length b tokens fees (pos hop.1)) (λ rest l. ap suc l))

abbrev IsQuotedAgain : ℕ → List RouteLeg × ℤ → Type 0
IsQuotedAgain n r = (length r.0 ≡ n) × (is_output r.1 ≡ true)

quoted_again-AtValue :
    (n : ℕ) (m : Answered (List RouteLeg × ℤ))
    → AtValue (λ (r : List RouteLeg × ℤ). length r.0 ≡ n) m
    → AtValue (IsQuotedAgain n) (quoted_again m)
unfolding quoted_again
quoted_again-AtValue n (answers r) h = elim (Bool-cases (is_output r.1)) [
  | inl t ↦ rw t (h, t)
  | inr f ↦ rw f tt
]
quoted_again-AtValue n absent h = tt
quoted_again-AtValue n (fails message) h = tt
quoted_again-AtValue n out_of_range h = tt

pub is_output-bounds :
    (z : ℤ) → is_output z ≡ true → (n : ℕ) × (z ≡ pos n) × (0 < n) × (n < 2 ^ 256)
unfolding is_output
is_output-bounds (pos n) h = (n, refl, ground arith, ground arith)
is_output-bounds (negsuc n) h = ground arith

-- What a route that was quoted again has of the one before.
pub record IsRequoted (evm : Evm) (route : RouteQuote) (block : BlockContext) (result : RouteQuote)
    : Type 0 where
  pub as_many : length result.legs ≡ length route.legs
  pub keeps_pools : KeepsPools evm result.legs route.legs
  pub output : ℕ
  pub states : set_string result.amount_out_atomic ≡ some (pos output)
  pub is_positive : 0 < output
  pub is_word : output < 2 ^ 256
  pub same_id : result.route_id ≡ route.route_id
  pub same_deployment : result.deployment_id ≡ route.deployment_id
  pub at_block : result.block ≡ block

module _ (c : V3Contracts) (evm : Evm) (reader : Reader) (d : Deployment) where
  requote_legs-AtValue :
      (route : RouteQuote) (first : RouteLeg) (amount : ℤ) (block : BlockContext) (latency : ℕ)
      → AtValue
          (IsRequoted evm route block)
          (requote_legs c evm reader d route first amount block latency)
  unfolding requote_legs
  requote_legs-AtValue route first amount block latency =
      bind-AtValue
        (IsQuotedAgain (length (map (λ (leg : RouteLeg). get_fee_pips leg.selector) route.legs))) _
        (quoted_again _) _ (quoted_again-AtValue _ _ (quote_path-length c _ _ evm _ _ _ amount))
        (λ result quoted.
          bind-AtValue _ _ (same_pools evm result.0 route.legs) _
            (same_pools-AtValue evm result.0 route.legs)
            (λ u pools.
              let (n, is_pos, positive, word) = is_output-bounds result.1 quoted.1 in
              record {
                as_many =
                    quoted.0
                    ∙ length-map route.legs (λ (leg : RouteLeg). get_fee_pips leg.selector);
                keeps_pools = pools;
                output = n;
                states = set_string-int_text result.1 ∙ ap some is_pos;
                is_positive = positive;
                is_word = word;
                same_id = refl;
                same_deployment = refl;
                at_block = refl;
              }))

  requote-AtValue :
      (route : RouteQuote) (amount : ℤ) (block : BlockContext) (latency : ℕ) (legs : List RouteLeg)
      → AtValue
          (IsRequoted evm route block)
          (requote_from c evm reader d route legs amount block latency)
  unfolding requote_from
  requote-AtValue route amount block latency [] = tt
  requote-AtValue route amount block latency (first ∷ legs) =
      requote_legs-AtValue route first amount block latency

-- A route that `Requote` returns is the stored one with another input: it has as many legs, in the
-- same pools, the same ID and deployment, the block that was asked for, and it states an output above
-- zero and below 2^256; whatever the contracts answer.
pub requote-IsRequoted :
    (c : V3Contracts) (evm : Evm) (reader : Reader) (d : Deployment) (route result : RouteQuote)
    (amount : ℤ) (block : BlockContext) (latency : ℕ)
    → requote c evm reader d route amount block latency ≡ answers result
    → IsRequoted evm route block result
unfolding requote
requote-IsRequoted c evm reader d route result amount block latency e =
    subst (AtValue (IsRequoted evm route block)) e
      (requote-AtValue c evm reader d route amount block latency route.legs)
