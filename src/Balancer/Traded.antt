-- ===== src/Balancer/Traded.antt =====
-- balancer_v2.go: what a plan through the Vault swaps, and what its verification accepts.
use mathlib.Core.Path.{subst}
use epeius.Prelude.{
  ℕ, String, ◌≡◌, ◌≢◌, refl, ap, ◌∙◌, Bool, true, false, not, ◌&&◌, Option, none, some, List, [],
  ◌∷◌, ◌==◌, str_eq, str_eq_iff, is_empty, Bool-cases, split_and, inl, inr, arith,
}
use epeius.Prelude.Int.{ℤ, pos, eq_ℤ}
use epeius.Prelude.Decimal.{set_string, parse_uint_value}
use epeius.Evm.{Evm, Bytes, Read, Reader, valid_address}
use epeius.Wire.{RouteLeg, RouteQuote, PrepareExecutionResponse}
use epeius.Store.{ExecutionPlan}
use epeius.Engine.{Admission, admitted, refused}
use epeius.Executor.{equal_fold}
use epeius.Options.{id_seen}
use epeius.Balancer.{BalancerCalls, pool_address, is_listed}
use epeius.Balancer.Preparation.{
  BalancerPreparation, in_pools, valid_leg, only_leg, valid_route, accepts, are_listed, verify_leg,
  plan_of, encoded, build_leg, build_minimum, build,
}
use epeius.Balancer.Verified.{IsPool, verify_pool-IsPool}

module _ (evm : Evm) (s : BalancerPreparation) where
  -- A route of one leg through a configured pool, between two tokens that are not the pool's own.
  pub record IsPoolRoute (route : RouteQuote) (leg : RouteLeg) : Type 0 where
    pub only : route.legs ≡ leg ∷ []
    pub of_deployment : route.deployment_id ≡ s.id
    pub of_provider : route.provider ≡ "balancer-v2"
    pub configured : id_seen leg.pool s.pools ≡ true
    pub input_valid : valid_address evm leg.token_in ≡ true
    pub output_valid : valid_address evm leg.token_out ≡ true
    pub apart : equal_fold leg.token_in leg.token_out ≡ false
    pub input_is_token : evm.hex_to_address leg.token_in ≢ pool_address (evm.hex_to_hash leg.pool)
    pub output_is_token : evm.hex_to_address leg.token_out ≢ pool_address (evm.hex_to_hash leg.pool)

  in_pools-eq :
      (leg : RouteLeg) (pools : List String)
      → in_pools evm s leg pools ≡ true
      → (id_seen leg.pool pools ≡ true)
        × (evm.hex_to_address leg.token_in ≢ pool_address (evm.hex_to_hash leg.pool))
        × (evm.hex_to_address leg.token_out ≢ pool_address (evm.hex_to_hash leg.pool))
  unfolding in_pools id_seen
  in_pools-eq leg [] h = cc
  in_pools-eq leg (pool ∷ pools) h = elim (Bool-cases (str_eq leg.pool pool)) [
    | inl t ↦
        let (input, output) = split_and _ _ (rw t at h) in
        let e = (str_eq_iff leg.pool pool).0 t in
        rw t (
          refl,
          λ i. unequal _ _ (i ∙ ap (λ x. pool_address (evm.hex_to_hash x)) e) input,
          λ o. unequal _ _ (o ∙ ap (λ x. pool_address (evm.hex_to_hash x)) e) output,
        )
    | inr f ↦ rw f (in_pools-eq leg pools (rw f at h))
  ]
    where
      unequal : (a b : ℕ) → a ≡ b → not (a == b) ≡ true → ⊥
      unequal a b e h = ground arith

  denied : (b : Bool) → not b ≡ true → b ≡ false
  denied b h = ground arith

  only_leg-eq :
      (legs : List RouteLeg) (leg : RouteLeg)
      → only_leg evm s legs ≡ some leg
      → (legs ≡ leg ∷ []) × (valid_leg evm s leg ≡ true)
  unfolding only_leg
  only_leg-eq [] leg h = cc
  only_leg-eq (one ∷ []) leg h = elim (Bool-cases (valid_leg evm s one)) [
    | inl t ↦
        let e = is_one (rw t at h) in
        (ap (λ x. x ∷ []) e, subst (λ x. valid_leg evm s x ≡ true) e t)
    | inr f ↦ absurd (none_some (rw f at h))
  ]
    where
      is_one : some one ≡ some leg → one ≡ leg
      is_one e = cc

      none_some : ◌≡◌ {A = Option RouteLeg} none (some leg) → ⊥
      none_some e = cc
  only_leg-eq (one ∷ (next ∷ legs)) leg h = cc

  valid_route-IsPoolRoute :
      (o : Option RouteQuote) (leg : RouteLeg)
      → valid_route evm s o ≡ some leg
      → (route : RouteQuote) × (o ≡ some route) × IsPoolRoute route leg
  unfolding valid_route valid_leg
  valid_route-IsPoolRoute none leg h = cc
  valid_route-IsPoolRoute (some route) leg h =
      elim (Bool-cases (str_eq route.provider "balancer-v2" && str_eq route.deployment_id s.id)) [
        | inl t ↦
            let (provider, deployment) = split_and _ _ t in
            let (only, valid) = only_leg-eq route.legs leg (rw t at h) in
            let (four, pools) = split_and _ _ valid in
            let (three, apart) = split_and _ _ four in
            let (two, output) = split_and _ _ three in
            let (selector, input) = split_and _ _ two in
            let (configured, input_token, output_token) = in_pools-eq leg s.pools pools in
            (
              route,
              refl,
              record {
                only = only;
                of_deployment = (str_eq_iff _ _).0 deployment;
                of_provider = (str_eq_iff _ _).0 provider;
                configured = configured;
                input_valid = input;
                output_valid = output;
                apart = denied _ apart;
                input_is_token = input_token;
                output_is_token = output_token;
              },
            )
        | inr f ↦ absurd (none_some (rw f at h))
      ]
    where
      none_some : ◌≡◌ {A = Option RouteLeg} none (some leg) → ⊥
      none_some e = cc

module _ (c : BalancerCalls) (evm : Evm) (s : BalancerPreparation)
    (p : PrepareExecutionResponse) where
  -- One swap of the Vault, from the recipient and back to it.
  pub record IsVaultSwap (plan : ExecutionPlan) : Type 0 where
    pub route : RouteQuote
    pub of_route : p.route ≡ some route
    pub leg : RouteLeg
    pub is_route : IsPoolRoute evm s route leg
    pub minimum : ℤ
    pub minimum_read : set_string p.amount_out_minimum_atomic ≡ some minimum
    pub has_minimum : minimum ≢ pos 0
    pub bytes : Bytes
    pub packed :
        c.swap_call
          (evm.hex_to_hash leg.pool)
          (evm.hex_to_address leg.token_in)
          (evm.hex_to_address leg.token_out)
          (set_string p.amount_in_atomic)
          (evm.hex_to_address p.recipient)
          minimum
          (parse_uint_value p.deadline_unix)
        ≡ some bytes
    pub calldata : plan.transaction.calldata ≡ c.encode_hex bytes
    pub to_vault : plan.transaction.to ≡ evm.address_hex (evm.hex_to_address s.vault)
    pub from_recipient : plan.transaction.from ≡ p.recipient
    pub no_value : plan.transaction.value_atomic ≡ "0"
    pub on_chain : plan.transaction.chain_id ≡ s.chain_id
    pub spends : plan.spender ≡ plan.transaction.to
    pub no_permission : plan.permission ≡ none
    pub input : plan.checks.input ≡ record { token = leg.token_in; owner = p.recipient }
    pub output : plan.checks.output ≡ record { token = leg.token_out; owner = p.recipient }
    pub verifies : plan.verify ≡ some (verify_leg c evm s leg)

  abbrev pub Built : Option (Admission ExecutionPlan) → Type 0
  Built none = ⊥
  Built (some (refused message)) = Unit
  Built (some (admitted plan)) = IsVaultSwap plan

  encoded-Built :
      (route : RouteQuote) (leg : RouteLeg) (minimum : ℤ) (o : Option Bytes)
      → p.route ≡ some route
      → IsPoolRoute evm s route leg
      → set_string p.amount_out_minimum_atomic ≡ some minimum
      → minimum ≢ pos 0
      → c.swap_call
          (evm.hex_to_hash leg.pool)
          (evm.hex_to_address leg.token_in)
          (evm.hex_to_address leg.token_out)
          (set_string p.amount_in_atomic)
          (evm.hex_to_address p.recipient)
          minimum
          (parse_uint_value p.deadline_unix)
        ≡ o
      → Built (some (encoded c evm s p leg o))
  unfolding encoded plan_of
  encoded-Built route leg minimum none hr is_route hm positive h = tt
  encoded-Built route leg minimum (some bytes) hr is_route hm positive h = record {
    route = route;
    of_route = hr;
    leg = leg;
    is_route = is_route;
    minimum = minimum;
    minimum_read = hm;
    has_minimum = positive;
    bytes = bytes;
    packed = h;
    calldata = refl;
    to_vault = refl;
    from_recipient = refl;
    no_value = refl;
    on_chain = refl;
    spends = refl;
    no_permission = refl;
    input = refl;
    output = refl;
    verifies = refl;
  }

  build_leg-Built :
      (minimum : ℤ) (o : Option RouteLeg)
      → valid_route evm s p.route ≡ o
      → set_string p.amount_out_minimum_atomic ≡ some minimum
      → minimum ≢ pos 0
      → Built (some (build_leg c evm s p minimum o))
  unfolding build_leg
  build_leg-Built minimum none h hm positive = tt
  build_leg-Built minimum (some leg) h hm positive =
      let (route, of_route, is_route) = valid_route-IsPoolRoute evm s p.route leg h in
      encoded-Built route leg minimum _ of_route is_route hm positive refl

-- `Build` of a Balancer route, on terms with a minimum that reads as a number, does not panic, and a plan
-- that it returns is one swap of the Vault through a configured pool, between two tokens that differ and
-- are not the pool's own, from the recipient and to it, of the amount for at least the minimum, which
-- is not zero, by the deadline, without value or permission; the Vault is the spender.
pub build-IsVaultSwap :
    (c : BalancerCalls) (evm : Evm) (s : BalancerPreparation) (p : PrepareExecutionResponse)
    (minimum : ℤ)
    → set_string p.amount_out_minimum_atomic ≡ some minimum
    → Built c evm s p (build c evm s p)
unfolding build build_minimum
build-IsVaultSwap c evm s p minimum hm = rw hm (elim (Bool-cases (eq_ℤ minimum (pos 0))) [
  | inl z ↦ rw z tt
  | inr positive ↦
      rw positive (build_leg-Built c evm s p minimum _ refl hm (λ e. different e positive))
])
  where
    different : minimum ≡ pos 0 → eq_ℤ minimum (pos 0) ≡ false → ⊥
    different e f = ground arith

-- The pool of a leg at a block, with its tokens, among which are both of the leg.
pub record IsTradable (c : BalancerCalls) (evm : Evm) (s : BalancerPreparation) (leg : RouteLeg)
    (reader : Reader) (hash : ℕ) : Type 0 where
  pub code : ℕ → ℕ → Read Bytes
  pub has_code : reader.code ≡ some code
  pub pool : IsPool c reader (evm.hex_to_address s.vault) (evm.hex_to_hash leg.pool) hash code
  pub input_listed : is_listed (evm.hex_to_address leg.token_in) pool.tokens ≡ true
  pub output_listed : is_listed (evm.hex_to_address leg.token_out) pool.tokens ≡ true

are_listed-eq :
    (c : BalancerCalls) (evm : Evm) (s : BalancerPreparation) (leg : RouteLeg) (o : Option (List ℕ))
    (tokens : List ℕ)
    → o ≡ some tokens
    → are_listed c evm s leg o ≡ true
    → (is_listed (evm.hex_to_address leg.token_in) tokens ≡ true)
      × (is_listed (evm.hex_to_address leg.token_out) tokens ≡ true)
unfolding are_listed
are_listed-eq c evm s leg o tokens e h =
    split_and _ _ (subst (λ (x : Option (List ℕ)). are_listed c evm s leg x ≡ true) e h)

accepts-IsTradable :
    (c : BalancerCalls) (evm : Evm) (s : BalancerPreparation) (leg : RouteLeg) (reader : Reader)
    (hash : ℕ) (o : Option (ℕ → ℕ → Read Bytes))
    → reader.code ≡ o
    → accepts c evm s leg reader hash o ≡ true
    → IsTradable c evm s leg reader hash
unfolding accepts
accepts-IsTradable c evm s leg reader hash none e h = cc
accepts-IsTradable c evm s leg reader hash (some code) e h =
    let (verified, listed) = split_and _ _ h in
    let pool = verify_pool-IsPool c reader _ _ hash code verified in
    let (input, output) = are_listed-eq c evm s leg _ pool.tokens pool.tokens_read listed in
    record { code = code; has_code = e; pool = pool; input_listed = input; output_listed = output }

-- The verification of a plan accepts a block only where the Vault has the pool under the address that its
-- ID begins with, that address has code and answers the ID, and the pool's tokens, none of them zero
-- or twice there, include both tokens of the leg.
pub verify_leg-IsTradable :
    (c : BalancerCalls) (evm : Evm) (s : BalancerPreparation) (leg : RouteLeg) (reader : Reader)
    (hash : ℕ)
    → is_empty (verify_leg c evm s leg reader hash) ≡ true
    → IsTradable c evm s leg reader hash
unfolding verify_leg
verify_leg-IsTradable c evm s leg reader hash h =
    elim (Bool-cases (accepts c evm s leg reader hash reader.code)) [
      | inl t ↦ accepts-IsTradable c evm s leg reader hash reader.code refl t
      | inr f ↦ absurd (false_true (rw f at h))
    ]
  where
    false_true : is_empty "Balancer V2 pool verification failed" ≡ true → ⊥
    false_true e = cc
