-- ===== src/Options/Reviewed.antt =====
-- uniswapv4/config.go, `ParseOptions`: the deployments that it lets through.
use mathlib.Core.Path.{subst}
use epeius.Prelude.{
  ℕ, String, ◌≡◌, ◌≢◌, ◌⊎◌, refl, sym, ap, ◌∙◌, false, inl, inr, not, ◌&&◌, none, some, List, [],
  ◌∷◌, ◌==◌, ==_iff, split_and, Bool-cases, if◌then◌else◌,
}
use epeius.Prelude.Partial.{some_injective, >>=-then}
use epeius.Config.{Values, Fields, Pool}
use epeius.Evm.{Evm}
use epeius.V4.{V4Options}
use epeius.Options.{field_count, array_of, field_of, text_of}
use epeius.Options.UniswapV4.{
  Reviewed, reviewed_router_permit2, reviewed_for, guard, read_pool, with_pools, read_pools,
  nonempty_pools, address_option, hash_option, parse_uniswap_v4,
}
use epeius.Options.Pools.{guarded, denied, ArePools, read_pools-ArePools}

-- The two hashes and the address are those of one reviewed deployment.
abbrev pub IsReviewed : List Reviewed → ℕ → ℕ → ℕ → Type 0
IsReviewed [] router address code_hash = ⊥
IsReviewed (known ∷ rest) router address code_hash =
    (router ≡ known.router) × (address ≡ known.address) × (code_hash ≡ known.code_hash)
    ⊎ IsReviewed rest router address code_hash

reviewed_for-IsReviewed :
    (list : List Reviewed) (router address code_hash : ℕ) (known : Reviewed)
    → reviewed_for router list ≡ some known
    → address ≡ known.address
    → code_hash ≡ known.code_hash
    → IsReviewed list router address code_hash
unfolding reviewed_for
reviewed_for-IsReviewed [] router address code_hash known h ha hc = absurd (nothing h)
  where
    nothing : none ≡ some known → ⊥
    nothing e = cc
reviewed_for-IsReviewed (first ∷ rest) router address code_hash known h ha hc =
    elim (Bool-cases (first.router == router)) [
      | inl t ↦
          let here =
            some_injective (
              subst (λ b. (if b then some first else reviewed_for router rest) ≡ some known) t h) in
          inl (
            sym ((==_iff first.router router).0 t),
            ha ∙ ap (λ (k : Reviewed). k.address) (sym here),
            hc ∙ ap (λ (k : Reviewed). k.code_hash) (sym here),
          )
      | inr f ↦ inr (
          reviewed_for-IsReviewed rest router address code_hash known
            (subst (λ b. (if b then some first else reviewed_for router rest) ≡ some known) f h) ha
            hc)
    ]

module _ (evm : Evm) (hash_hex : ℕ → String) where
  -- An address that is not zero, as it is printed.
  abbrev pub IsPrinted : String → Type 0
  IsPrinted text = (a : ℕ) × (a == 0 ≡ false) × (text ≡ evm.address_hex a)

  pub record AreReviewed (raw : Fields) (options : V4Options) : Type 0 where
    pub router : ℕ
    pub code_hash : ℕ
    pub reviewed :
        IsReviewed
          (reviewed_router_permit2 evm)
          router
          (evm.hex_to_address options.permit2)
          code_hash
    pub of_router : options.router_code_hash ≡ hash_hex router
    pub of_code : options.permit2_code_hash ≡ hash_hex code_hash
    pub pool_manager : IsPrinted options.pool_manager
    pub state_view : IsPrinted options.state_view
    pub permit2 : IsPrinted options.permit2
    pub values : Values
    pub values_read : array_of (field_of "pools" raw) ≡ some values
    pub are_pools : ArePools evm hash_hex [] values options.pools
    pub some_pools : options.pools ≢ []

  address_option-nonzero :
      (raw : Fields) (name : String) (a : ℕ)
      → address_option evm hash_hex raw name ≡ some a
      → a == 0 ≡ false
  unfolding address_option
  address_option-nonzero raw name a h = >>=-then (text_of (field_of name raw)) h (λ value e1 h1.
      >>=-then (guard (evm.is_hex_address value && not (evm.hex_to_address value == 0))) h1
        (λ valid e2 h2.
          subst (λ n. n == 0 ≡ false) (some_injective h2)
            (denied _ (split_and _ _ (guarded _ e2)).1)))

  nonempty_pools-ArePools :
      (values : Values) (pools : List Pool)
      → nonempty_pools evm hash_hex values ≡ some pools
      → ArePools evm hash_hex [] values pools × (pools ≢ [])
  unfolding nonempty_pools read_pools
  nonempty_pools-ArePools Values.nil pools h = absurd (nothing h)
    where
      nothing : none ≡ some pools → ⊥
      nothing e = cc
  nonempty_pools-ArePools (Values.cons value values) pools h = (
    read_pools-ArePools evm hash_hex [] (Values.cons value values) pools h,
    λ empty. >>=-then (read_pool evm hash_hex [] value) h (λ pool e1 h1.
        >>=-then (read_pools evm hash_hex (pool ∷ []) values) h1
          (λ rest e2 h2. filled pool rest (some_injective h2 ∙ empty))),
  )
    where
      filled : (pool : Pool) (rest : List Pool) → pool ∷ rest ≡ [] → ⊥
      filled pool rest e = cc

  with_pools-AreReviewed :
      (raw : Fields) (pool_manager state_view permit2 router code_hash : ℕ) (options : V4Options)
      → pool_manager == 0 ≡ false
      → state_view == 0 ≡ false
      → permit2 == 0 ≡ false
      → IsReviewed
          (reviewed_router_permit2 evm)
          router
          (evm.hex_to_address (evm.address_hex permit2))
          code_hash
      → with_pools evm hash_hex raw pool_manager state_view permit2 router code_hash ≡ some options
      → AreReviewed raw options
  unfolding with_pools
  with_pools-AreReviewed raw pool_manager state_view permit2 router code_hash options m v p reviewed
        h =
      >>=-then (array_of (field_of "pools" raw)) h (λ values e1 h1.
        >>=-then (nonempty_pools evm hash_hex values) h1 (λ pools e2 h2.
          subst (AreReviewed raw) (some_injective h2) (record {
            router = router;
            code_hash = code_hash;
            reviewed = reviewed;
            of_router = refl;
            of_code = refl;
            pool_manager = (pool_manager, m, refl);
            state_view = (state_view, v, refl);
            permit2 = (permit2, p, refl);
            values = values;
            values_read = e1;
            are_pools = (nonempty_pools-ArePools values pools e2).0;
            some_pools = (nonempty_pools-ArePools values pools e2).1;
          })))

  -- `ParseOptions` of a Uniswap V4 deployment lets through only the code hashes of a reviewed router, with
  -- the address and the code hash of the Permit2 that belongs to it. The pool manager, the state view
  -- and Permit2 are nonzero addresses. The pools are the tables of the raw array, in order: at least one,
  -- and none twice. Each has two different nonzero currencies in order and no hooks, and the fee, at
  -- most 1000000, and the tick spacing, from 1 to 32767, that its table states.
  pub parse_uniswap_v4-AreReviewed :
      (raw : Fields) (options : V4Options)
      → parse_uniswap_v4 evm hash_hex raw ≡ some options
      → AreReviewed raw options
  unfolding parse_uniswap_v4
  parse_uniswap_v4-AreReviewed raw options h =
      >>=-then (guard (field_count raw == 6)) h (λ six e0 h0.
        >>=-then (address_option evm hash_hex raw "pool_manager") h0 (λ m e1 h1.
          >>=-then (address_option evm hash_hex raw "state_view") h1 (λ v e2 h2.
            >>=-then (address_option evm hash_hex raw "permit2") h2 (λ p e3 h3.
              >>=-then (hash_option evm hash_hex raw "router_code_hash") h3 (λ router e4 h4.
                >>=-then (hash_option evm hash_hex raw "permit2_code_hash") h4 (λ code_hash e5 h5.
                  >>=-then (reviewed_for router (reviewed_router_permit2 evm)) h5 (λ known e6 h6.
                    >>=-then
                      (guard (
                        evm.hex_to_address (evm.address_hex p) == known.address
                        && code_hash == known.code_hash))
                      h6
                      (λ named e7 h7.
                        with_pools-AreReviewed raw m v p router code_hash options
                          (address_option-nonzero raw "pool_manager" m e1)
                          (address_option-nonzero raw "state_view" v e2)
                          (address_option-nonzero raw "permit2" p e3)
                          (reviewed_for-IsReviewed (reviewed_router_permit2 evm) router
                            (evm.hex_to_address (evm.address_hex p)) code_hash known e6
                            ((==_iff _ _).0 (split_and _ _ (guarded _ e7)).0)
                            ((==_iff _ _).0 (split_and _ _ (guarded _ e7)).1))
                          h7))))))))
