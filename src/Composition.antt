-- ===== src/Composition.antt =====
-- services/quote-engine/internal/quote/composition.go: the registry of the protocols and the maps of a chain.
pub mod Collected
pub mod Kinds
pub mod Served
use epeius.Prelude.{ℕ, String, Option, none, some, List, [], ◌∷◌, str_eq, if◌then◌else◌}
use epeius.Prelude.Int.{ℤ}
use epeius.Prelude.Dict.{Dict, insert}
use epeius.Config
use epeius.Config.{Deployment, ProviderConfig, Token}
use epeius.Evm.{Evm, Reader}
use epeius.Routers.{
  RouterCalls, RouterEncoder, V3RouterPreparation, uniswap_router02_data, pancake_v3_router_data,
  slipstream_router_data,
}
use epeius.Balancer.Quoter.{BalancerQuoter}
use epeius.Balancer.Preparation.{BalancerPreparation}
use epeius.Slipstream.{SlipstreamCalls, verify_signer_discount}
use epeius.V4.{V4Calls, V4Options, V4Quoter, admit}
use epeius.V4.Router.{V4RouterPreparation}

pub record V3Quoter : Type 0 where
  pub reader : Reader
  pub id : String
  pub deployment : Deployment
  pub tokens : List Token

pub record SlipstreamQuoter : Type 0 where
  pub reader : Reader
  pub id : String
  pub deployment : Deployment
  pub tokens : List Token
  pub spacings : List ℤ

-- The values that a `ProtocolQuoter` and a `PreparationStrategy` of the registry have.
pub data Quoter : Type 0 where
  v3_quoter : V3Quoter → Quoter
  slipstream_quoter : SlipstreamQuoter → Quoter
  balancer_quoter : BalancerQuoter → Quoter
  v4_quoter : V4Quoter → Quoter

pub data Strategy : Type 0 where
  router_strategy : V3RouterPreparation → Strategy
  balancer_strategy : BalancerPreparation → Strategy
  v4_strategy : V4RouterPreparation → Strategy

-- providerComponents
pub record Components : Type 0 where
  pub quoter : Option Quoter
  pub requoter : Option V3Quoter
  pub verifier : Option Quoter
  pub preparer : Option Strategy

-- The maps that `ConfigureChain` fills.
pub record Registries : Type 0 where
  pub quoters : Dict Quoter
  pub requoters : Dict V3Quoter
  pub verifiers : Dict Quoter
  pub preparers : Dict Strategy

-- Of an interface value that may be nil.
unfoldable pub put {ℓ} : {V : Type ℓ} → String → Option V → Dict V → Dict V
put id none m = m
put id (some v) m = insert id v m

abbrev no_components : Components
no_components = record { quoter = none; requoter = none; verifier = none; preparer = none }

-- What the registered functions take: the chain with its client, and the packing of the calls.
pub record Composing : Type 0 where
  pub evm : Evm
  pub reader : Reader
  pub chain_id : String
  pub chain : Config.Chain
  pub router_calls : RouterCalls
  pub slipstream_calls : SlipstreamCalls
  pub v4_calls : V4Calls

module _ (g : Composing) where
  unfoldable pub fee_provider : RouterEncoder → String → Deployment → Components
  fee_provider encode id d =
      let provider : V3Quoter = record {
        reader = g.reader;
        id = id;
        deployment = d;
        tokens = g.chain.tokens;
      } in
      record {
        quoter = some (v3_quoter provider);
        requoter = some provider;
        verifier = some (v3_quoter provider);
        preparer = some (
            router_strategy (record {
              id = id;
              kind = d.kind;
              target = d.router;
              chain_id = g.chain_id;
              encode = encode;
              verify = none;
              verification_factory = "";
            }));
      }

  -- verifySlipstreamSignerDiscount, which reads the signer as an address.
  unfoldable pub signer_check : Reader → ℕ → ℕ → String → String
  signer_check reader hash factory signer =
      verify_signer_discount g.slipstream_calls reader hash factory (g.evm.hex_to_address signer)

  unfoldable pub slipstream_provider : String → Deployment → ProviderConfig → Components
  slipstream_provider id d (ProviderConfig.slipstream spacings) =
      let provider : SlipstreamQuoter = record {
        reader = g.reader;
        id = id;
        deployment = d;
        tokens = g.chain.tokens;
        spacings = spacings;
      } in
      record {
        quoter = some (slipstream_quoter provider);
        requoter = none;
        verifier = some (slipstream_quoter provider);
        preparer = some (
            router_strategy (record {
              id = id;
              kind = d.kind;
              target = d.router;
              chain_id = g.chain_id;
              encode = slipstream_router_data g.router_calls g.evm;
              verify = some signer_check;
              verification_factory = d.factory;
            }));
      }
  slipstream_provider id d ProviderConfig.unset = no_components
  slipstream_provider id d (ProviderConfig.balancer vault pools) = no_components
  slipstream_provider id d (ProviderConfig.uniswap_v4 a b c e f pools) = no_components

  unfoldable pub balancer_provider : String → ProviderConfig → Components
  balancer_provider id (ProviderConfig.balancer vault pools) =
      let provider : BalancerQuoter = record {
        reader = g.reader;
        id = id;
        vault = vault;
        pools = pools;
      } in
      record {
        quoter = some (balancer_quoter provider);
        requoter = none;
        verifier = some (balancer_quoter provider);
        preparer = some (
            balancer_strategy
              (record { id = id; chain_id = g.chain_id; vault = vault; pools = pools }));
      }
  balancer_provider id ProviderConfig.unset = no_components
  balancer_provider id (ProviderConfig.slipstream spacings) = no_components
  balancer_provider id (ProviderConfig.uniswap_v4 a b c e f pools) = no_components

  unfoldable pub v4_components : String → Deployment → V4Options → Components
  v4_components id d options =
      let provider : V4Quoter = record {
        reader = g.reader;
        id = id;
        deployment = d;
        options = options;
      } in
      record {
        quoter = some (v4_quoter provider);
        requoter = none;
        verifier = some (v4_quoter provider);
        preparer = some (
            v4_strategy (record {
              id = id;
              chain_id = g.chain_id;
              router = d.router;
              permit2 = options.permit2;
              admit = admit g.v4_calls g.evm provider;
            }));
      }

  unfoldable pub v4_provider : String → Deployment → ProviderConfig → Components
  v4_provider id d
        (ProviderConfig.uniswap_v4 pool_manager state_view permit2 permit2_code_hash
          router_code_hash pools) =
      v4_components id d (record {
        pool_manager = pool_manager;
        state_view = state_view;
        permit2 = permit2;
        permit2_code_hash = permit2_code_hash;
        router_code_hash = router_code_hash;
        pools = pools;
      })
  v4_provider id d ProviderConfig.unset = no_components
  v4_provider id d (ProviderConfig.slipstream spacings) = no_components
  v4_provider id d (ProviderConfig.balancer vault pools) = no_components

  -- providerRegistrations[kind], applied; nothing for a kind that is not registered.
  unfoldable pub register : String → Deployment → Option Components
  register id d =
      if str_eq d.kind "uniswap-v3"
      then some (fee_provider (uniswap_router02_data g.router_calls g.evm) id d)
      else if str_eq d.kind "pancake-v3"
      then some (fee_provider (pancake_v3_router_data g.router_calls g.evm) id d)
      else if str_eq d.kind "aerodrome-slipstream"
      then some (slipstream_provider id d d.provider_config)
      else if str_eq d.kind "balancer-v2"
      then some (balancer_provider id d.provider_config)
      else if str_eq d.kind "uniswap-v4"
      then some (v4_provider id d d.provider_config)
      else none

  unfoldable pub add_components : String → Option Components → Registries → Registries
  add_components id none r = r
  add_components id (some components) r = record {
    quoters = put id components.quoter r.quoters;
    requoters = put id components.requoter r.requoters;
    verifiers = put id components.verifier r.verifiers;
    preparers = put id components.preparer r.preparers;
  }

  -- The loop over the deployments.
  unfoldable pub configure_all : Dict Deployment → Registries → Registries
  configure_all [] r = r
  configure_all ((id, d) ∷ rest) r = configure_all rest (add_components id (register id d) r)

  -- ConfigureChain: the four maps.
  unfoldable pub configure_chain : Registries
  configure_chain =
      configure_all g.chain.deployments
        (record { quoters = []; requoters = []; verifiers = []; preparers = [] })
