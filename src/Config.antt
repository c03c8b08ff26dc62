-- ===== src/Config.antt =====
-- services/quote-engine/internal/config/config.go: the configuration that the engine runs on. A TOML
-- table with open contents (`map[string]any`) is a tree of values.
use epeius.Prelude.{ℕ, String, Bool, Option, List}
use epeius.Prelude.Int.{ℤ}
use epeius.Prelude.Dict.{Dict}

-- What go-toml decodes into `any`, as far as the providers tell it apart.
mutual
  pub data Value : Type 0 where
    text : String → Value
    integer : ℤ → Value
    array : Values → Value
    table : Fields → Value
    other : Value

  pub data Values : Type 0 where
    nil : Values
    cons : Value → Values → Values

  pub data Fields : Type 0 where
    end : Fields
    field : String → Value → Fields → Fields

pub record Token : Type 0 where
  pub address : String
  pub symbol : String
  pub decimals : ℕ

pub record Pool : Type 0 where
  pub currency0 : String
  pub currency1 : String
  pub fee_pips : ℕ
  pub tick_spacing : ℤ
  pub hooks : String

-- The options of the three providers that have some (`ProviderConfig any`).
pub data ProviderConfig : Type 0 where
  unset : ProviderConfig
  slipstream : List ℤ → ProviderConfig
  balancer : (vault : String) → (pools : List String) → ProviderConfig
  uniswap_v4 :
      (pool_manager state_view permit2 permit2_code_hash router_code_hash : String)
      → List Pool
      → ProviderConfig

pub record Deployment : Type 0 where
  pub kind : String
  pub factory : String
  pub quoter : String
  pub router : String
  pub fees : Option (List ℕ)
  pub options : Option Fields
  pub provider_config : ProviderConfig
  pub configured_fields : List String

pub record Executor : Type 0 where
  pub address : String
  pub uniswap_deployment : String
  pub pancake_deployment : String

pub record Chain : Type 0 where
  pub chain_id : ℤ
  pub rpc_url_env : String
  pub execution_enabled : Bool
  pub tokens : List Token
  pub deployments : Dict Deployment
  pub executor : Option Executor
