-- ===== src/Simulators.antt =====
-- services/quote-engine/internal/quote/tenderly.go and anvil.go: the two simulators that a handler may
-- use, and what both use of the contracts and of `hexutil`.
pub mod Tenderly
pub mod Anvil
use epeius.Prelude.{ℕ, String, Bool, true, ◌&&◌, Option, List, [], ◌∷◌}
use epeius.Evm.{Evm, Bytes, Method, valid_address}
use epeius.Store.{BalanceProbe, AllowanceProbe}

-- The calls of `erc20ABI` with the results that are unpacked, and `hexutil`.
pub record Probing : Type 0 where
  pub balance_of_call : ℕ → Bytes
  pub balance_of : Method ℕ
  pub allowance_call : ℕ → ℕ → Bytes
  pub allowance : Method ℕ
  pub encode_hex : Bytes → String
  pub decode_hex : String → Option Bytes
  pub decode_uint64 : String → Option ℕ
  pub encode_uint64 : ℕ → String

unfoldable pub valid_probe : Evm → BalanceProbe → Bool
valid_probe evm probe = valid_address evm probe.token && valid_address evm probe.owner

unfoldable pub valid_probes : Evm → List BalanceProbe → Bool
valid_probes evm [] = true
valid_probes evm (probe ∷ probes) =
    let rest = valid_probes evm probes in valid_probe evm probe && rest

unfoldable pub valid_allowances : Evm → List AllowanceProbe → Bool
valid_allowances evm [] = true
valid_allowances evm (probe ∷ probes) =
    let rest = valid_allowances evm probes in
    valid_address evm probe.token
    && valid_address evm probe.owner
    && valid_address evm probe.spender
    && rest
