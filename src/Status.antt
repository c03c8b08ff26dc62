-- ===== src/Status.antt =====
-- services/quote-engine/internal/quote/handler.go: `GetStatus` and `Status`.
use epeius.Prelude.{
  String, Bool, true, false, ◌&&◌, Option, none, some, List, [], map, ltb, leb, length,
  if◌then◌else◌,
}
use epeius.Prelude.Sort.{sort_by, text_less}
use epeius.Wire.{BlockContext}
use epeius.Config.{Token}
use epeius.Engine.{Chain, Handler}
use epeius.Quoting.{quote_block}

-- quotev1.ChainStatus
pub record ChainStatus : Type 0 where
  pub key : String
  pub chain_id : String
  pub connected : Bool
  pub error : String
  pub quoting_supported : Bool
  pub execution_enabled : Bool
  pub tokens : List Token
  pub block : Option BlockContext

abbrev is_set {ℓ} : {A : Type ℓ} → Option A → Bool
is_set none = false
is_set (some a) = true

unfoldable pub is_supported : Chain → Bool
is_supported chain =
    leb 2 (length chain.config.tokens)
    && ltb (length chain.deployment_errors) (length chain.config.deployments)

-- Status
unfoldable pub status : String → Chain → ChainStatus
status key chain = record {
  key = key;
  chain_id = chain.chain_id;
  connected = is_set chain.client;
  error = chain.error;
  quoting_supported = is_supported chain;
  execution_enabled = is_supported chain && chain.config.execution_enabled;
  tokens = if is_supported chain then chain.config.tokens else [];
  block = if is_set chain.client then some (quote_block chain.snapshot) else none;
}

abbrev by_chain_key : String × Chain → String × Chain → Bool
by_chain_key a b = text_less a.0 b.0

-- GetStatus
unfoldable pub get_status : Handler → List ChainStatus
get_status h =
    map (λ (entry : String × Chain). status entry.0 entry.1) (sort_by by_chain_key h.chains)
