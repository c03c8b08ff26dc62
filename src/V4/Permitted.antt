-- ===== src/V4/Permitted.antt =====
-- v4_router.go: what a built plan of a Uniswap V4 route calls, permits and checks.
use mathlib.Core.Path.{subst}
use epeius.Prelude.{
  ℕ, ◌+◌, ◌^◌, ◌%◌, String, ◌≡◌, refl, sym, ap, true, ◌&&◌, Option, none, some, [], ◌∷◌, ◌==◌,
  ==_iff, ◌⊎◌, ◌≢◌, ◌∙◌, ◌<◌, ltb→lt, Bool-cases, split_and, inl, inr,
}
use epeius.Prelude.Int.{ℤ, pos, ltb_ℤ, pos_part, neg_part}
use epeius.Prelude.Decimal.{set_string, parse_uint_value}
use epeius.Prelude.Partial.{>>=-eq-some, true-neq-false}
use epeius.Config.{Pool}
use epeius.Evm.{Evm, Bytes}
use epeius.Wire.{RouteLeg, RouteQuote, PrepareExecutionResponse}
use epeius.Store.{ExecutionPlan}
use epeius.Engine.{Admission, admitted, refused}
use epeius.Executor.Probes.{last_token}
use epeius.Routers.{direct_checks, first_output}
use epeius.V4.{PoolKey, V4Calls, V4Quoter, key_of, admit}
use epeius.V4.Admitted.{IsAdmitted, admit-IsAdmitted}
use epeius.V4.Router.{
  V4RouterCalls, V4RouterPreparation, fits_128, output_currency, uniswap_v4_router_data, call_of,
  permission_of, plan_of, build_encoded, build_legs, build_amounts, build_admitted, build,
}

fits_128-lt : (z : ℤ) → fits_128 z ≡ true → (pos_part z < 2 ^ 128) × (neg_part z < 2 ^ 128)
unfolding fits_128
fits_128-lt z h = let (above, below) = split_and _ _ h in (ltb→lt _ _ above, ltb→lt _ _ below)

module _ (cc : V4Calls) (c : V4RouterCalls) (evm : Evm) (q : V4Quoter)
    (s : V4RouterPreparation) where
  abbrev pub pool_key : Pool → PoolKey
  pool_key pool = record {
    currency0 = evm.hex_to_address pool.currency0;
    currency1 = evm.hex_to_address pool.currency1;
    fee = pool.fee_pips;
    tick_spacing = pool.tick_spacing;
    hooks = evm.hex_to_address pool.hooks;
  }

  -- The currency that the pool has besides the token: its second one for its first, else its first.
  abbrev pub IsOther : Pool → ℕ → ℕ → Type 0
  IsOther pool token out =
      (token ≡ evm.hex_to_address pool.currency0) × (out ≡ evm.hex_to_address pool.currency1)
      ⊎ (token ≢ evm.hex_to_address pool.currency0) × (out ≡ evm.hex_to_address pool.currency0)

  output_currency-IsOther :
      (pool : Pool) (token : ℕ)
      → IsOther pool token
          (output_currency (token == (key_of evm pool).currency0) (key_of evm pool))
  unfolding output_currency key_of
  output_currency-IsOther pool token =
      elim (Bool-cases (token == evm.hex_to_address pool.currency0)) [
        | inl t ↦ rw t (inl ((==_iff _ _).0 t, refl))
        | inr f ↦ rw f (inr (λ same. true-neq-false (sym ((==_iff _ _).1 same) ∙ f), refl))
      ]

  -- The bytes are one call of the router, of a swap in the pool with the amount as the exact input, of
  -- the settlement of that amount and of the taking of the pool's other currency.
  pub record SwapsIn (pool : Pool) (token : ℕ) (amount minimum : ℤ) (deadline : ℕ) (bytes : Bytes)
      : Type 0 where
    pub swap : Bytes
    pub settled : Bytes
    pub taken : Bytes
    pub input : Bytes
    pub swapped :
        c.exact_input_single
          (pool_key pool)
          (token == evm.hex_to_address pool.currency0)
          amount
          minimum
        ≡ some swap
    pub settles : c.settle token amount ≡ some settled
    pub out : ℕ
    pub other : IsOther pool token out
    pub takes : c.take_all out minimum ≡ some taken
    pub actions : c.v4_swap (swap ∷ (settled ∷ (taken ∷ []))) ≡ some input
    pub executes : c.execute input deadline ≡ some bytes

  uniswap_v4_router_data-SwapsIn :
      (pool : Pool) (token_in : String) (amount minimum : ℤ) (deadline : ℕ) (bytes : Bytes)
      → uniswap_v4_router_data c evm pool token_in amount minimum deadline ≡ some bytes
      → SwapsIn pool (evm.hex_to_address token_in) amount minimum deadline bytes
  unfolding uniswap_v4_router_data key_of
  uniswap_v4_router_data-SwapsIn pool token_in amount minimum deadline bytes h =
      let (swap, h1, r1) = >>=-eq-some _ _ h in
      let (settled, h2, r2) = >>=-eq-some _ _ r1 in
      let (taken, h3, r3) = >>=-eq-some _ _ r2 in
      let (input, h4, r4) = >>=-eq-some _ _ r3 in
      record {
        swap = swap;
        settled = settled;
        taken = taken;
        input = input;
        swapped = h1;
        settles = h2;
        out =
            output_currency (evm.hex_to_address token_in == (key_of evm pool).currency0)
              (key_of evm pool);
        other = output_currency-IsOther pool (evm.hex_to_address token_in);
        takes = h3;
        actions = h4;
        executes = r4;
      }

  -- A plan that moves exactly the input, through Permit2 and the router, for an admitted route.
  pub record IsPermitted (p : PrepareExecutionResponse) (plan : ExecutionPlan) : Type 0 where
    pub route : RouteQuote
    pub of_route : p.route ≡ some route
    pub pool : Pool
    pub of_pool : IsAdmitted cc evm q route pool
    pub leg : RouteLeg
    pub of_legs : route.legs ≡ leg ∷ []
    pub amount : ℤ
    pub amount_read : set_string p.amount_in_atomic ≡ some amount
    pub amount_fits : (pos_part amount < 2 ^ 128) × (neg_part amount < 2 ^ 128)
    pub minimum : ℤ
    pub minimum_read : set_string p.amount_out_minimum_atomic ≡ some minimum
    pub is_positive : ltb_ℤ (pos 0) minimum ≡ true
    pub minimum_fits : pos_part minimum < 2 ^ 128
    pub bytes : Bytes
    pub swaps_in :
        SwapsIn pool
          (evm.hex_to_address leg.token_in)
          amount
          minimum
          (parse_uint_value p.deadline_unix)
          bytes
    pub calldata : plan.transaction.calldata ≡ c.encode_hex bytes
    pub to_router : plan.transaction.to ≡ evm.address_hex (evm.hex_to_address s.router)
    pub from_recipient : plan.transaction.from ≡ p.recipient
    pub no_value : plan.transaction.value_atomic ≡ "0"
    pub spends : plan.spender ≡ evm.address_hex (evm.hex_to_address s.permit2)
    pub permits :
        plan.permission
        ≡ some (record {
          target = plan.spender;
          token = p.token_in;
          spender = plan.transaction.to;
          amount = amount;
          expiration = (parse_uint_value p.deadline_unix + 1800) % 2 ^ 64;
        })
    pub input : plan.checks.input ≡ record { token = leg.token_in; owner = p.recipient }
    pub output : plan.checks.output ≡ record { token = leg.token_out; owner = p.recipient }
    pub preserves :
        plan.checks.preserve
        ≡ record { token = p.token_in; owner = plan.transaction.to }
          ∷ (record { token = p.token_out; owner = plan.transaction.to } ∷ [])

  -- What `Build` answers: a refusal, or a plan as above. It does not panic.
  abbrev pub Permits : PrepareExecutionResponse → Option (Admission ExecutionPlan) → Type 0
  Permits p none = ⊥
  Permits p (some (refused message)) = Unit
  Permits p (some (admitted plan)) = IsPermitted p plan

  module _ (p : PrepareExecutionResponse) (route : RouteQuote) (of_route : p.route ≡ some route)
      (pool : Pool) (of_pool : IsAdmitted cc evm q route pool) (amount minimum : ℤ)
      (amount_read : set_string p.amount_in_atomic ≡ some amount)
      (minimum_read : set_string p.amount_out_minimum_atomic ≡ some minimum) where
    build_encoded-Permits :
        (leg : RouteLeg) (o : Option Bytes)
        → route.legs ≡ leg ∷ []
        → fits_128 amount ≡ true
        → ltb_ℤ (pos 0) minimum ≡ true
        → fits_128 minimum ≡ true
        → uniswap_v4_router_data c evm pool leg.token_in amount minimum
            (parse_uint_value p.deadline_unix)
          ≡ o
        → Permits p (build_encoded c evm s p route amount o)
    unfolding build_encoded direct_checks call_of plan_of permission_of last_token first_output
    build_encoded-Permits leg none hl small positive fits h = tt
    build_encoded-Permits leg (some bytes) hl small positive fits h = rw hl (record {
      route = route;
      of_route = of_route;
      pool = pool;
      of_pool = of_pool;
      leg = leg;
      of_legs = hl;
      amount = amount;
      amount_read = amount_read;
      amount_fits = fits_128-lt amount small;
      minimum = minimum;
      minimum_read = minimum_read;
      is_positive = positive;
      minimum_fits = (fits_128-lt minimum fits).0;
      bytes = bytes;
      swaps_in =
          uniswap_v4_router_data-SwapsIn pool leg.token_in amount minimum
            (parse_uint_value p.deadline_unix) bytes h;
      calldata = refl;
      to_router = refl;
      from_recipient = refl;
      no_value = refl;
      spends = refl;
      permits = refl;
      input = refl;
      output = refl;
      preserves = refl;
    })

    build_legs-Permits :
        fits_128 amount ≡ true
        → ltb_ℤ (pos 0) minimum ≡ true
        → fits_128 minimum ≡ true
        → Permits p (build_legs c evm s p route route.legs pool amount minimum)
    unfolding build_legs
    build_legs-Permits small positive fits =
        subst (λ legs. Permits p (build_legs c evm s p route legs pool amount minimum))
          (sym of_pool.only)
          (build_encoded-Permits of_pool.leg _ of_pool.only small positive fits refl)

    build_amounts-Permits : Permits p (
        build_amounts c evm s p route pool
          (set_string p.amount_in_atomic)
          (set_string p.amount_out_minimum_atomic))
    unfolding build_amounts
    build_amounts-Permits =
        rw (amount_read, minimum_read)
          (elim (Bool-cases (fits_128 amount && ltb_ℤ (pos 0) minimum && fits_128 minimum)) [
            | inl t ↦
                let (both, fits) = split_and _ _ t in
                let (small, positive) = split_and _ _ both in
                rw t (build_legs-Permits small positive fits)
            | inr f ↦ rw f tt
          ])

-- `Build` of a Uniswap V4 route, with the quoter's own admission, on terms with a route and with amounts
-- that read as numbers: it does not panic, and a plan that it returns is for an admitted route of a
-- configured pool. It is one call of the router by the recipient, without value, that swaps exactly the
-- input in that pool for at least the minimum, which is positive; both fit 128 bits. Permit2 is its
-- spender, and the permission is of the input token and amount, to the called router, until thirty
-- minutes (as a uint64) after the deadline. It checks what the recipient has of the leg's tokens, and
-- that the router keeps neither.
pub build-Permits :
    (cc : V4Calls) (c : V4RouterCalls) (evm : Evm) (q : V4Quoter) (s : V4RouterPreparation)
    → s.admit ≡ admit cc evm q
    → (p : PrepareExecutionResponse) (route : RouteQuote) (amount minimum : ℤ)
    → p.route ≡ some route
    → set_string p.amount_in_atomic ≡ some amount
    → set_string p.amount_out_minimum_atomic ≡ some minimum
    → Permits cc c evm q s p (build c evm s p)
unfolding build build_admitted
build-Permits cc c evm q s admits p route amount minimum of_route amount_read minimum_read =
    subst
      (λ (o : Option RouteQuote). Permits cc c evm q s p (build_admitted c evm s p o (s.admit o)))
      (sym of_route) (judged (s.admit (some route)) (ap (λ f. f (some route)) (sym admits)))
  where
    judged :
        (o : Option Pool)
        → admit cc evm q (some route) ≡ o
        → Permits cc c evm q s p (build_admitted c evm s p (some route) o)
    judged none h = tt
    judged (some pool) h =
        build_amounts-Permits cc c evm q s p route of_route pool
          (admit-IsAdmitted cc evm q route pool h) amount minimum amount_read minimum_read
