-- ===== src/Composition/Kinds.antt =====
-- composition.go, the registered functions: what a deployment of each kind has, and when it has nothing.
use epeius.Prelude.{ℕ, ◌≢◌, List, String, ◌≡◌, ◌⊎◌, Option, none, some}
use epeius.Prelude.Int.{ℤ}
use epeius.Evm.{Reader}
use epeius.Config.{Pool, Deployment, ProviderConfig}
use epeius.Routers.{
  RouterEncoder, uniswap_router02_data, pancake_v3_router_data, slipstream_router_data,
}
use epeius.Slipstream.{verify_signer_discount}
use epeius.V4.{V4Options, V4Quoter, admit}
use epeius.Composition.{
  V3Quoter, Quoter, v3_quoter, slipstream_quoter, balancer_quoter, v4_quoter, Strategy,
  router_strategy, balancer_strategy, v4_strategy, Composing,
}

module _ (g : Composing) where
  abbrev pub v3_quoter_of : String → Deployment → V3Quoter
  v3_quoter_of id d = record { reader = g.reader; id = id; deployment = d; tokens = g.chain.tokens }

  abbrev pub v4_quoter_of : String → Deployment → V4Options → V4Quoter
  v4_quoter_of id d options = record {
    reader = g.reader;
    id = id;
    deployment = d;
    options = options;
  }

  abbrev pub router_of :
      String
      → Deployment
      → RouterEncoder
      → Option (Reader → ℕ → ℕ → String → String)
      → String
      → Strategy
  router_of id d encode verify factory = router_strategy (record {
    id = id;
    kind = d.kind;
    target = d.router;
    chain_id = g.chain_id;
    encode = encode;
    verify = verify;
    verification_factory = factory;
  })

  -- The quoter and the strategy that a deployment of a registered kind has.
  pub data Provides (id : String) (d : Deployment) : Quoter → Strategy → Type 0 where
    of_uniswap :
        d.kind ≡ "uniswap-v3"
        → Provides id d
            (v3_quoter (v3_quoter_of id d))
            (router_of id d (uniswap_router02_data g.router_calls g.evm) none "")
    of_pancake :
        d.kind ≡ "pancake-v3"
        → Provides id d
            (v3_quoter (v3_quoter_of id d))
            (router_of id d (pancake_v3_router_data g.router_calls g.evm) none "")
    of_slipstream :
        {spacings : List ℤ}
        → d.kind ≡ "aerodrome-slipstream"
        → d.provider_config ≡ ProviderConfig.slipstream spacings
        → Provides id d
            (slipstream_quoter (record {
              reader = g.reader;
              id = id;
              deployment = d;
              tokens = g.chain.tokens;
              spacings = spacings;
            }))
            (router_of id d
              (slipstream_router_data g.router_calls g.evm)
              (some (λ reader hash factory signer.
                verify_signer_discount g.slipstream_calls reader hash factory
                  (g.evm.hex_to_address signer)))
              d.factory)
    of_balancer :
        {vault : String} {pools : List String}
        → d.kind ≡ "balancer-v2"
        → d.provider_config ≡ ProviderConfig.balancer vault pools
        → Provides id d
            (balancer_quoter (record { reader = g.reader; id = id; vault = vault; pools = pools }))
            (balancer_strategy
              (record { id = id; chain_id = g.chain_id; vault = vault; pools = pools }))
    of_v4 :
        {m v p q r : String} {pools : List Pool}
        → d.kind ≡ "uniswap-v4"
        → d.provider_config ≡ ProviderConfig.uniswap_v4 m v p q r pools
        → Provides id d
            (v4_quoter (
              v4_quoter_of id d (record {
                pool_manager = m;
                state_view = v;
                permit2 = p;
                permit2_code_hash = q;
                router_code_hash = r;
                pools = pools;
              })))
            (v4_strategy (record {
              id = id;
              chain_id = g.chain_id;
              router = d.router;
              permit2 = p;
              admit = admit g.v4_calls g.evm (
                  v4_quoter_of id d (record {
                    pool_manager = m;
                    state_view = v;
                    permit2 = p;
                    permit2_code_hash = q;
                    router_code_hash = r;
                    pools = pools;
                  }));
            }))

  abbrev pub NotSlipstream : ProviderConfig → Type 0
  NotSlipstream options = (spacings : List ℤ) → options ≢ ProviderConfig.slipstream spacings

  abbrev pub NotBalancer : ProviderConfig → Type 0
  NotBalancer options =
      (vault : String) (pools : List String) → options ≢ ProviderConfig.balancer vault pools

  abbrev pub NotV4 : ProviderConfig → Type 0
  NotV4 options =
      (m v p q r : String) (pools : List Pool) → options ≢ ProviderConfig.uniswap_v4 m v p q r pools

  -- The kind is not registered, or the options are not those of the kind.
  abbrev pub IsUnknown : Deployment → Type 0
  IsUnknown d =
      (d.kind ≢ "uniswap-v3")
        × (d.kind ≢ "pancake-v3")
        × (d.kind ≢ "aerodrome-slipstream")
        × (d.kind ≢ "balancer-v2")
        × (d.kind ≢ "uniswap-v4")
      ⊎ ((d.kind ≡ "aerodrome-slipstream") × NotSlipstream d.provider_config
          ⊎ ((d.kind ≡ "balancer-v2") × NotBalancer d.provider_config
              ⊎ (d.kind ≡ "uniswap-v4") × NotV4 d.provider_config))

  abbrev pub IsMissing : Option Deployment → Type 0
  IsMissing none = Unit
  IsMissing (some d) = IsUnknown d
