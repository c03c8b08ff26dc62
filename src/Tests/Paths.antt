-- ===== src/Tests/Paths.antt =====
-- The candidates of one deployment with two fees and one token between the pair.
use epeius.Prelude.{true, false, some, none, [], ◌∷◌}
use epeius.Prelude.Int.{pos}
use epeius.Config
use epeius.Config.{Deployment}
use epeius.Evm.{Evm}

abbrev numbers : Evm
numbers = record {
  is_hex_address = λ s. true;
  hex_to_address = λ s. 12;
  address_hex = λ a. "0x0c";
  hex_to_hash = λ s. 9;
  is_hex_hash = λ s. true;
}

abbrev deployment : Deployment
deployment = record {
  kind = "uniswap-v3";
  factory = "0x01";
  quoter = "0x02";
  router = "0x03";
  fees = some (3000 ∷ 500 ∷ []);
  options = none;
  provider_config = Config.unset;
  configured_fields = [];
}

abbrev chain : Config.Chain
chain = record {
  chain_id = pos 8453;
  rpc_url_env = "RPC";
  execution_enabled = false;
  tokens = record { address = "0x0c"; symbol = "C"; decimals = 18 } ∷ [];
  deployments = ("uni", deployment) ∷ [];
  executor = none;
}
