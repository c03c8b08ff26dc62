-- ===== src/Evm.antt =====
-- What the engine uses of go-ethereum and of the RPC behind it, as parameters, and the interfaces
-- `Reader` and `codeReader` of services/quote-engine/internal/quote (handler.go, deployments.go).
mod Unpack
pub use Unpack.{Bytes, Method}
unfoldable pub use Unpack.{unpack, bytes_eq}
use epeius.Prelude.{ℕ, String, Bool, ◌&&◌, Option}
use epeius.Prelude.Int.{ℤ}
use text.Mathlib.Text.{starts_with}

-- `common`: an address is a number below 2^160 and a hash one below 2^256.
pub record Evm : Type 0 where
  pub is_hex_address : String → Bool
  pub hex_to_address : String → ℕ
  pub address_hex : ℕ → String
  pub hex_to_hash : String → ℕ
  pub is_hex_hash : String → Bool

-- An error of a read. The engine tells only `rpc.ErrEmptyExecutionRevert` from the others.
pub data ReadError : Type 0 where
  empty_execution_revert : ReadError
  unavailable : String → ReadError

pub data Read {ℓ} (A : Type ℓ) : Type ℓ where
  got : A → Read A
  failed : ReadError → Read A

-- A reader answers `Call(to, data, hash)`; one that is a `codeReader` answers `Code(to, hash)` too.
pub record Reader : Type 0 where
  pub call : ℕ → Bytes → ℕ → Read Bytes
  pub code : Option (ℕ → ℕ → Read Bytes)

unfoldable pub valid_address : Evm → String → Bool
valid_address evm value = starts_with value "0x" && evm.is_hex_address value

-- The contract calls that the engine packs and whose results it unpacks (`contractabi`, generated
-- from the pinned artifacts), and `hexutil`.
pub record Contracts : Type 0 where
  pub allowance_call : ℕ → ℕ → Bytes
  pub allowance : Method ℕ
  pub approve_call : ℕ → ℤ → Bytes
  pub permit2_allowance_call : ℕ → ℕ → ℕ → Bytes
  pub permit2_allowance : Method (ℕ × ℕ)
  pub permit2_approve_call : ℕ → ℕ → ℤ → ℕ → Bytes
  pub encode_hex : Bytes → String
