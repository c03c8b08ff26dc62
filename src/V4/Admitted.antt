-- ===== src/V4/Admitted.antt =====
-- v4.go: every route that the quoter quotes for a configured pool is one that it admits.
use mathlib.Core.Path.{subst}
use epeius.Prelude.{
  ℕ, String, ◌≡◌, ◌⊎◌, refl, sym, Bool, true, false, ◌&&◌, ◌||◌, Option, none, some, List, [], ◌∷◌,
  ◌==◌, ==_iff, str_eq, str_eq_refl, str_eq_iff, Bool-cases, split_and, inl, inr, arith,
  if◌then◌else◌,
}
use epeius.Prelude.Int.{ℤ, eq_ℤ, eq_ℤ-eq}
use epeius.Prelude.Partial.{none-neq-some}
use epeius.Config.{Pool}
use epeius.Evm.{Evm}
use epeius.Executor.{equal_fold}
use epeius.Wire.{BlockContext, Selector, RouteLeg, RouteQuote, UniswapV4PoolKey}
use epeius.Executor.Folded.{equal_fold_self}
use epeius.V3Quoter.{answers, given}
use epeius.V3Quoter.Inversion.{answers_injective, >>=-eq-answers, given-eq-answers}
use epeius.V4.{
  V4Calls, V4Quoter, key_of, id_or_zero, pool_hex, pool_initialized, provider_quote, leg_of,
  leg_key, route_of, quote, same_key, is_of_pool, find_pool, admit_leg, admit_legs, admit,
}

-- The pool is one of the list.
abbrev pub Configured : Pool → List Pool → Type 0
Configured pool [] = ⊥
Configured pool (other ∷ pools) = (other ≡ pool) ⊎ Configured pool pools

-- The currencies of the pool are the ends of the pair, in one order or the other, as they are printed.
abbrev pub IsPair : Evm → Pool → ℕ → ℕ → Type 0
IsPair evm pool a b =
    ((pool.currency0 ≡ evm.address_hex a) × (pool.currency1 ≡ evm.address_hex b))
    ⊎ ((pool.currency1 ≡ evm.address_hex a) × (pool.currency0 ≡ evm.address_hex b))

eq_ℤ_self : (z : ℤ) → eq_ℤ z z ≡ true
eq_ℤ_self z = ground arith

both_true : (a b : Bool) → a ≡ true → b ≡ true → a && b ≡ true
both_true a b h k = ground arith

either_true : (a b : Bool) → (a ≡ true) ⊎ (b ≡ true) → (a || b) ≡ true
either_true true b h = refl
either_true false b (inl h) = cc
either_true false b (inr h) = h

folds : {s t : String} → s ≡ t → equal_fold t s ≡ true
folds {s} e = subst (λ x. equal_fold x s ≡ true) e (equal_fold_self s)

-- The key names the pool: the same fee and tick spacing, and the same currencies and hooks but for case.
pub record IsKeyOf (key : UniswapV4PoolKey) (pool : Pool) : Type 0 where
  pub currency0 : equal_fold key.currency0 pool.currency0 ≡ true
  pub currency1 : equal_fold key.currency1 pool.currency1 ≡ true
  pub fee : key.fee_pips ≡ pool.fee_pips
  pub spacing : key.tick_spacing ≡ pool.tick_spacing
  pub hooks : equal_fold key.hooks pool.hooks ≡ true

-- The second pool has the fee and the tick spacing of the first, and its currencies and hooks but for
-- case.
pub record AreAlike (pool found : Pool) : Type 0 where
  pub currency0 : equal_fold pool.currency0 found.currency0 ≡ true
  pub currency1 : equal_fold pool.currency1 found.currency1 ≡ true
  pub fee : pool.fee_pips ≡ found.fee_pips
  pub spacing : pool.tick_spacing ≡ found.tick_spacing
  pub hooks : equal_fold pool.hooks found.hooks ≡ true

module _ (c : V4Calls) (evm : Evm) (q : V4Quoter) where
  same_key-IsKeyOf :
      (key : UniswapV4PoolKey) (pool : Pool) → same_key c evm q key pool ≡ true → IsKeyOf key pool
  unfolding same_key
  same_key-IsKeyOf key pool h =
      let (h4, hooks) = split_and _ _ h in
      let (h3, spacing) = split_and _ _ h4 in
      let (h2, fee) = split_and _ _ h3 in
      let (c0, c1) = split_and _ _ h2 in
      record {
        currency0 = c0;
        currency1 = c1;
        fee = (==_iff _ _).0 fee;
        spacing = eq_ℤ-eq _ _ spacing;
        hooks = hooks;
      }

  IsKeyOf-AreAlike : (pool found : Pool) → IsKeyOf (leg_key pool) found → AreAlike pool found
  unfolding leg_key
  IsKeyOf-AreAlike pool found k = record {
    currency0 = k.currency0;
    currency1 = k.currency1;
    fee = k.fee;
    spacing = k.spacing;
    hooks = k.hooks;
  }

  -- What an admitted pool has of the route's leg.
  pub record IsAdmitted (route : RouteQuote) (pool : Pool) : Type 0 where
    pub leg : RouteLeg
    pub only : route.legs ≡ leg ∷ []
    pub key : UniswapV4PoolKey
    pub keyed : leg.uniswap_v4_pool_key ≡ some key
    pub no_selector : leg.selector ≡ none
    pub configured : Configured pool q.options.pools
    pub of_deployment : route.deployment_id ≡ q.id
    pub of_pool : equal_fold leg.pool (pool_hex c evm pool) ≡ true
    pub has_key : IsKeyOf key pool
    pub ends :
        ((equal_fold leg.token_in pool.currency0 && equal_fold leg.token_out pool.currency1)
          || (equal_fold leg.token_in pool.currency1 && equal_fold leg.token_out pool.currency0))
        ≡ true

  find_pool_first :
      (leg : RouteLeg) (key : UniswapV4PoolKey) (pool : Pool) (pools : List Pool)
      → Configured pool pools
      → is_of_pool c evm q leg key pool ≡ true
      → (found : Pool) × (find_pool c evm q leg key pools ≡ some found)
  unfolding find_pool
  find_pool_first leg key pool [] m h = elim m [ ]
  find_pool_first leg key pool (other ∷ pools) (inl e) h =
      rw (subst (λ x. is_of_pool c evm q leg key x ≡ true) (sym e) h) (other, refl)
  find_pool_first leg key pool (other ∷ pools) (inr m) h =
      elim (Bool-cases (is_of_pool c evm q leg key other)) [
        | inl t ↦ rw t (other, refl)
        | inr f ↦ rw f (find_pool_first leg key pool pools m h)
      ]

  find_pool-is_of_pool :
      (leg : RouteLeg) (key : UniswapV4PoolKey) (pools : List Pool) (pool : Pool)
      → find_pool c evm q leg key pools ≡ some pool
      → Configured pool pools × (is_of_pool c evm q leg key pool ≡ true)
  unfolding find_pool
  find_pool-is_of_pool leg key [] pool h = absurd (none-neq-some h)
  find_pool-is_of_pool leg key (other ∷ pools) pool h =
      elim (Bool-cases (is_of_pool c evm q leg key other)) [
        | inl t ↦
            let same = some_injective (
              subst (λ b. (if b then some other else find_pool c evm q leg key pools) ≡ some pool) t
                h) in
            (inl same, subst (λ x. is_of_pool c evm q leg key x ≡ true) same t)
        | inr f ↦
            let (listed, of) = find_pool-is_of_pool leg key pools pool (
              subst (λ b. (if b then some other else find_pool c evm q leg key pools) ≡ some pool) f
                h) in
            (inr listed, of)
      ]
    where
      some_injective : some other ≡ some pool → other ≡ pool
      some_injective e = cc

  admit_leg-IsAdmitted :
      (route : RouteQuote) (leg : RouteLeg) (selector : Option Selector)
      (key : Option UniswapV4PoolKey) (pool : Pool)
      → route.legs ≡ leg ∷ []
      → leg.selector ≡ selector
      → leg.uniswap_v4_pool_key ≡ key
      → route.deployment_id ≡ q.id
      → admit_leg c evm q leg selector key ≡ some pool
      → IsAdmitted route pool
  unfolding admit_leg is_of_pool
  admit_leg-IsAdmitted route leg selector none pool hl hs hk hd h = absurd (none-neq-some h)
  admit_leg-IsAdmitted route leg (some selector) (some key) pool hl hs hk hd h =
      absurd (none-neq-some h)
  admit_leg-IsAdmitted route leg none (some key) pool hl hs hk hd h =
      let (listed, of) = find_pool-is_of_pool leg key q.options.pools pool h in
      let (in_pool, ends) = split_and _ _ of in
      let (hex, same) = split_and _ _ in_pool in
      record {
        leg = leg;
        only = hl;
        key = key;
        keyed = hk;
        no_selector = hs;
        configured = listed;
        of_deployment = hd;
        of_pool = hex;
        has_key = same_key-IsKeyOf key pool same;
        ends = ends;
      }

  admit_legs-IsAdmitted :
      (route : RouteQuote) (legs : List RouteLeg) (pool : Pool)
      → route.legs ≡ legs
      → route.deployment_id ≡ q.id
      → admit_legs c evm q legs ≡ some pool
      → IsAdmitted route pool
  unfolding admit_legs
  admit_legs-IsAdmitted route [] pool hl hd h = absurd (none-neq-some h)
  admit_legs-IsAdmitted route (leg ∷ []) pool hl hd h =
      admit_leg-IsAdmitted route leg leg.selector leg.uniswap_v4_pool_key pool hl refl refl hd h
  admit_legs-IsAdmitted route (leg ∷ (next ∷ legs)) pool hl hd h = absurd (none-neq-some h)

  pub admit-IsAdmitted :
      (route : RouteQuote) (pool : Pool)
      → admit c evm q (some route) ≡ some pool
      → IsAdmitted route pool
  unfolding admit
  admit-IsAdmitted route pool h =
      elim (Bool-cases (str_eq route.provider "uniswap-v4" && str_eq route.deployment_id q.id)) [
        | inl t ↦
            admit_legs-IsAdmitted route route.legs pool refl
              ((str_eq_iff route.deployment_id q.id).0 (split_and _ _ t).1)
              (subst (λ b. (if b then admit_legs c evm q route.legs else none) ≡ some pool) t h)
        | inr f ↦ absurd (
            none-neq-some
              (subst (λ b. (if b then admit_legs c evm q route.legs else none) ≡ some pool) f h))
      ]

  -- The leg that a quote of the pool has.
  leg_of-is_of_pool :
      (pool : Pool) (id a b : ℕ)
      → c.pool_id (key_of evm pool) ≡ some id
      → IsPair evm pool a b
      → is_of_pool c evm q (leg_of c evm q pool id a b) (leg_key pool) pool ≡ true
  unfolding leg_of leg_key is_of_pool same_key pool_hex id_or_zero
  leg_of-is_of_pool pool id a b of_id pair =
      both_true _ _
        (both_true _ _
          (subst (λ (o : Option ℕ). equal_fold (c.hash_hex id) (c.hash_hex (id_or_zero o)) ≡ true)
            (sym of_id) (equal_fold_self (c.hash_hex id)))
          (both_true _ _
            (both_true _ _
              (both_true _ _
                (both_true _ _ (equal_fold_self pool.currency0) (equal_fold_self pool.currency1))
                ((==_iff pool.fee_pips pool.fee_pips).1 refl))
              (eq_ℤ_self pool.tick_spacing))
            (equal_fold_self pool.hooks)))
        (either_true _ _ (ends_of pair))
    where
      ends_of :
          IsPair evm pool a b
          → ((equal_fold (evm.address_hex a) pool.currency0
                && equal_fold (evm.address_hex b) pool.currency1)
              ≡ true)
            ⊎ ((equal_fold (evm.address_hex a) pool.currency1
                  && equal_fold (evm.address_hex b) pool.currency0)
                ≡ true)
      ends_of (inl (e0, e1)) = inl (both_true _ _ (folds e0) (folds e1))
      ends_of (inr (e1, e0)) = inr (both_true _ _ (folds e1) (folds e0))

  -- The route that a quote of the pool is.
  admit_route_of :
      (route_id : String) (pool : Pool) (id a b output : ℕ) (block : BlockContext) (latency : ℕ)
      → str_eq q.deployment.kind "uniswap-v4" ≡ true
      → Configured pool q.options.pools
      → IsPair evm pool a b
      → c.pool_id (key_of evm pool) ≡ some id
      → (found : Pool) × (admit c evm q
            (some (route_of c evm q route_id pool id a b output block latency))
          ≡ some found)
        × AreAlike pool found
  unfolding admit admit_legs admit_leg leg_of route_of is_of_pool
  admit_route_of route_id pool id a b output block latency kind configured pair of_id =
      let (found, first) =
        find_pool_first (leg_of c evm q pool id a b) (leg_key pool) pool q.options.pools configured
          (leg_of-is_of_pool pool id a b of_id pair) in
      let (listed, of) =
        find_pool-is_of_pool (leg_of c evm q pool id a b) (leg_key pool) q.options.pools found
          first in
      (
        found,
        rw kind (rw (str_eq_refl q.id) first),
        IsKeyOf-AreAlike pool found
            (same_key-IsKeyOf (leg_key pool) found (split_and _ _ (split_and _ _ of).0).1),
      )

  -- A route that the quoter, of the kind "uniswap-v4", quotes for a configured pool, between the pool's
  -- currencies as they are printed, is one that it admits: for a pool that is configured, has the ID,
  -- the key and the currencies of the route's leg, and has the quoted pool's fee and tick spacing, and
  -- its currencies and hooks but for case.
  pub quote-IsAdmitted :
      (route_id : String) (pool : Pool) (a b : ℕ) (amount : Option ℤ) (block : BlockContext)
      (latency : ℕ) (route : RouteQuote)
      → str_eq q.deployment.kind "uniswap-v4" ≡ true
      → Configured pool q.options.pools
      → IsPair evm pool a b
      → quote c evm q route_id pool a b amount block latency ≡ answers route
      → (found : Pool) × (admit c evm q (some route) ≡ some found)
        × IsAdmitted route found
        × AreAlike pool found
  unfolding quote
  quote-IsAdmitted route_id pool a b amount block latency route kind configured pair h =
      let (id, h1, r1) = >>=-eq-answers (given c.packing_error (c.pool_id (key_of evm pool))) _ h in
      let (u, h2, r2) =
        >>=-eq-answers (pool_initialized c evm q (key_of evm pool) (evm.hex_to_hash block.hash)) _
          r1 in
      let (output, h3, r3) =
        >>=-eq-answers
          (provider_quote c evm q (key_of evm pool) (a == evm.hex_to_address pool.currency0) amount
            (evm.hex_to_hash block.hash))
          _ r2 in
      let (found, admitted, alike) =
        subst
          (λ (x : RouteQuote).
            (found : Pool) × (admit c evm q (some x) ≡ some found) × AreAlike pool found)
          (answers_injective r3)
          (admit_route_of route_id pool id a b output block latency kind configured pair
            (given-eq-answers _ _ h1)) in
      (found, admitted, admit-IsAdmitted route found admitted, alike)
