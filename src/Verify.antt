-- ===== src/Verify.antt =====
-- services/quote-engine/internal/quote/deployments.go, v3_deployments.go and executor.go: which
-- deployments may be used, by the code and the links that the chain holds at one block.
pub mod Searched
use epeius.Prelude.{
  ℕ, String, Bool, true, false, not, ◌&&◌, Option, none, some, List, [], ◌∷◌, ◌==◌, str_eq,
  is_empty, if◌then◌else◌,
}
use epeius.Prelude.Dict.{Dict, lookup}
use epeius.Config
use epeius.Config.{Token, Deployment, Executor}
use epeius.Evm.{Evm, Bytes, Method, Read, got, failed, ReadError, Reader, unpack}
use epeius.Engine.{Chain, Client, Admission, admitted, refused}

-- A getter without arguments that answers an address: `method.ID` and the method of its result.
pub record Getter : Type 0 where
  pub id : Bytes
  pub method : Method ℕ

-- The getters of `contractabi` that the checks call.
pub record Getters : Type 0 where
  pub uniswap_quoter_factory : Getter
  pub uniswap_router_factory : Getter
  pub pancake_quoter_factory : Getter
  pub pancake_router_factory : Getter
  pub pool_deployer : Getter
  pub quoter_deployer : Getter
  pub router_deployer : Getter
  pub executor_uniswap_router : Getter
  pub executor_pancake_router : Getter

-- `err == nil && len(code) > 0`
unfoldable pub is_code : Read Bytes → Bool
is_code (got []) = false
is_code (got (b ∷ bytes)) = true
is_code (failed error) = false

unfoldable pub address_in : Getter → Read Bytes → Option ℕ
address_in g (failed error) = none
address_in g (got bytes) = unpack g.method bytes

unfoldable pub nonzero : Option ℕ → Option ℕ
nonzero none = none
nonzero (some address) = if address == 0 then none else some address

-- The getter of `verifyFeeDeploymentLinks`, which takes no zero address.
unfoldable pub get_link : Reader → ℕ → Getter → ℕ → Option ℕ
get_link reader target g hash = nonzero (address_in g (reader.call target g.id hash))

unfoldable pub is_address : Option ℕ → ℕ → Bool
is_address none address = false
is_address (some a) address = a == address

module _ (evm : Evm) (getters : Getters) (reader : Reader) (hash : ℕ) where
  unfoldable pub links_to : String → Getter → ℕ → Bool
  links_to target g address =
      is_address (get_link reader (evm.hex_to_address target) g hash) address

  unfoldable pub deployer_links : (ℕ → ℕ → Read Bytes) → Deployment → Option ℕ → Bool
  deployer_links code d none = false
  deployer_links code d (some deployer) =
      is_code (code deployer hash)
      && links_to d.quoter getters.quoter_deployer deployer
      && links_to d.router getters.router_deployer deployer

  unfoldable pub factory_links : Deployment → Getter → Getter → Bool
  factory_links d quoter_factory router_factory =
      links_to d.quoter quoter_factory (evm.hex_to_address d.factory)
      && links_to d.router router_factory (evm.hex_to_address d.factory)

  -- verifyFeeDeploymentLinks, with the reader's `Code`.
  unfoldable pub verify_fee_deployment_links : (ℕ → ℕ → Read Bytes) → Deployment → Bool
  verify_fee_deployment_links code d =
      is_code (code (evm.hex_to_address d.factory) hash)
      && is_code (code (evm.hex_to_address d.quoter) hash)
      && is_code (code (evm.hex_to_address d.router) hash)
      && (if str_eq d.kind "pancake-v3"
          then factory_links d getters.pancake_quoter_factory getters.pancake_router_factory
            && deployer_links code d
                (get_link reader (evm.hex_to_address d.factory) getters.pool_deployer hash)
          else factory_links d getters.uniswap_quoter_factory getters.uniswap_router_factory)

  -- v3Quoter.Verify
  unfoldable pub verify_with : Deployment → Option (ℕ → ℕ → Read Bytes) → Admission (Unit {0})
  verify_with d none = refused "deployment code unavailable"
  verify_with d (some code) =
      if verify_fee_deployment_links code d
      then admitted tt
      else refused "deployment code or factory linkage verification failed"

  unfoldable pub verify : Deployment → Admission (Unit {0})
  verify d = verify_with d reader.code

  -- verifyExecutor
  unfoldable pub router_text : Option Deployment → String
  router_text none = ""
  router_text (some d) = d.router

  unfoldable pub executor_router : Executor → Getter → Option Deployment → Bool
  executor_router e g d =
      is_address (address_in g (reader.call (evm.hex_to_address e.address) g.id hash))
        (evm.hex_to_address (router_text d))

  unfoldable pub verify_executor_with :
      Dict Deployment → Option Executor → Option (ℕ → ℕ → Read Bytes) → Bool
  verify_executor_with deployments none code = false
  verify_executor_with deployments (some e) none = false
  verify_executor_with deployments (some e) (some code) =
      is_code (code (evm.hex_to_address e.address) hash)
      && executor_router e getters.executor_uniswap_router (lookup e.uniswap_deployment deployments)
      && executor_router e getters.executor_pancake_router (lookup e.pancake_deployment deployments)

  unfoldable pub verify_executor : Config.Chain → Bool
  verify_executor chain = verify_executor_with chain.deployments chain.executor reader.code

-- The loop over the tokens of `VerifyDeployments`.
unfoldable pub tokens_have_code : Evm → ℕ → Option (ℕ → ℕ → Read Bytes) → List Token → Bool
tokens_have_code evm hash code [] = true
tokens_have_code evm hash none (token ∷ tokens) = false
tokens_have_code evm hash (some code) (token ∷ tokens) =
    let rest = tokens_have_code evm hash (some code) tokens in
    is_code (code (evm.hex_to_address token.address) hash) && rest

abbrev client_code : Option Client → Option (ℕ → ℕ → Read Bytes)
client_code none = none
client_code (some client) = client.reader.code

abbrev is_reader : Option (ℕ → ℕ → Read Bytes) → Bool
is_reader none = false
is_reader (some code) = true

-- What goes wrong with a deployment, if something does.
unfoldable pub verifier_error : Option (ℕ → Admission (Unit {0})) → ℕ → Option String
verifier_error none hash = some "deployment verification unavailable"
verifier_error (some verifier) hash = elim (verifier hash) [
  | admitted u ↦ none
  | refused message ↦ some message
]

unfoldable pub deployment_error : Evm → Chain → String → Option String
deployment_error evm chain id =
    let hash = evm.hex_to_hash chain.snapshot.block_hash in
    let code = client_code chain.client in
    if is_reader code && tokens_have_code evm hash code chain.config.tokens
    then verifier_error (lookup id chain.deployment_verifiers) hash
    else some "configured token code unavailable"

unfoldable pub with_error : String → Option String → Dict String → Dict String
with_error id none errors = errors
with_error id (some message) errors = (id, message) ∷ errors

unfoldable pub deployment_errors : Evm → Chain → Dict Deployment → Dict String
deployment_errors evm chain [] = []
deployment_errors evm chain ((id, d) ∷ rest) =
    with_error id (deployment_error evm chain id) (deployment_errors evm chain rest)

abbrev pub startup_error : String → Dict String → String
startup_error error [] = error
startup_error error (entry ∷ errors) =
    "one or more configured deployments failed startup verification"

-- VerifyDeployments; its goroutines write different entries.
unfoldable pub verify_deployments : Evm → Chain → Chain
verify_deployments evm chain =
    let errors = deployment_errors evm chain chain.config.deployments in
    record chain { deployment_errors = errors; error = startup_error chain.error errors }
