-- ===== src/Slipstream.antt =====
-- services/quote-engine/internal/quote/slipstream_execution.go, slipstream.go and
-- internal/providers/slipstream/provider.go: the fee module of a deployment, the discounts that it may give,
-- and the quote of a path of pools.
pub mod Undiscounted
pub mod Chained
use epeius.Prelude.{
  ℕ, ◌^◌, String, Bool, true, false, not, ◌&&◌, Option, none, some, List, [], ◌∷◌, ltb, ◌==◌,
  if◌then◌else◌,
}
use epeius.Prelude.Int.{ℤ, pos, ltb_ℤ, pos_part}
use epeius.Config.{Deployment}
use epeius.Evm.{
  Evm, Bytes, Method, Read, got, failed, ReadError, empty_execution_revert, unavailable, Reader,
  unpack,
}
use epeius.Engine.{Admission, admitted, refused}
use epeius.Verify.{Getter, is_code, address_in, get_link, is_address}
use epeius.Wire.{RouteLeg, tick_spacing}
use epeius.V3Quoter.{
  Answered, answers, absent, fails, out_of_range, given, readable, present_pool, usable_output,
  ◌>>=◌,
}

-- The getters and calls of the Slipstream contracts. `discounted` answers a number.
pub record SlipstreamCalls : Type 0 where
  pub quoter_factory : Getter
  pub router_factory : Getter
  pub swap_fee_module : Getter
  pub module_factory : Getter
  pub discounted_call : ℕ → Option Bytes
  pub discounted : Method ℕ
  pub get_pool_call : ℕ → ℕ → ℤ → Option Bytes
  pub get_pool : Method ℕ
  pub quote_call : ℕ → ℕ → ℤ → ℤ → Option Bytes
  pub quote_result : Method (ℕ × ℕ)
  pub packing_error : String

-- The discount of an account: nothing where the module has no such getter.
pub data Discount : Type 0 where
  no_answer : Discount
  not_kept : Discount
  discount : ℕ → Discount

unfoldable pub decoded_discount : Option ℕ → Discount
decoded_discount none = no_answer
decoded_discount (some n) = discount n

module _ (c : SlipstreamCalls) (reader : Reader) (hash : ℕ) where
  -- slipstreamFeeModule
  unfoldable pub fee_module : ℕ → Option ℕ
  fee_module factory = get_link reader factory c.swap_fee_module hash

  unfoldable pub linked_module : (ℕ → ℕ → Read Bytes) → ℕ → Option ℕ → Option ℕ
  linked_module code factory none = none
  linked_module code factory (some module_address) =
      if is_code (code module_address hash)
        && is_address
            (address_in c.module_factory (reader.call module_address c.module_factory.id hash))
            factory
      then some module_address
      else none

  unfoldable pub verified_with : ℕ → Option (ℕ → ℕ → Read Bytes) → Option ℕ
  verified_with factory none = none
  verified_with factory (some code) = linked_module code factory (fee_module factory)

  -- verifiedSlipstreamFeeModule, where the error is only tested.
  unfoldable pub verified_fee_module : ℕ → Option ℕ
  verified_fee_module factory = verified_with factory reader.code

  unfoldable pub read_discount : Read Bytes → Discount
  read_discount (got bytes) = decoded_discount (unpack c.discounted bytes)
  read_discount (failed empty_execution_revert) = not_kept
  read_discount (failed (unavailable message)) = no_answer

  unfoldable pub discount_call : ℕ → Option Bytes → Discount
  discount_call module_address none = no_answer
  discount_call module_address (some call) = read_discount (reader.call module_address call hash)

  -- slipstreamDiscount
  unfoldable pub slipstream_discount : ℕ → ℕ → Discount
  slipstream_discount module_address account =
      discount_call module_address (c.discounted_call account)

  unfoldable pub origin_verdict : Discount → String
  origin_verdict no_answer = "Slipstream quote-origin fee check failed"
  origin_verdict not_kept = ""
  origin_verdict (discount n) = if n == 0 then "" else "Slipstream quote origin has a fee discount"

  unfoldable pub origin_of : Option ℕ → String
  origin_of none = "Slipstream quote-origin fee check failed"
  origin_of (some module_address) = origin_verdict (slipstream_discount module_address 0)

  -- verifySlipstreamQuoteOrigin: the text of its error, or the empty text.
  unfoldable pub verify_quote_origin : ℕ → String
  verify_quote_origin factory = origin_of (fee_module factory)

  unfoldable pub signer_verdict : Discount → String
  signer_verdict no_answer = "Slipstream fee discount check failed"
  signer_verdict not_kept = ""
  signer_verdict (discount n) =
      if n == 0 then "" else "Signer has a Slipstream tx.origin fee discount"

  unfoldable pub signer_of : ℕ → Option ℕ → String
  signer_of signer none = "Slipstream fee discount check failed"
  signer_of signer (some module_address) =
      signer_verdict (slipstream_discount module_address signer)

  -- verifySlipstreamSignerDiscount, with the signer's address.
  unfoldable pub verify_signer_discount : ℕ → ℕ → String
  verify_signer_discount factory signer = signer_of signer (verified_fee_module factory)

  unfoldable pub is_module : Option ℕ → Bool
  is_module none = false
  is_module (some module_address) = true

  -- verifySlipstreamDeployment: whether it returns no error.
  unfoldable pub verify_slipstream_deployment : Evm → (ℕ → ℕ → Read Bytes) → Deployment → Bool
  verify_slipstream_deployment evm code d =
      is_code (code (evm.hex_to_address d.factory) hash)
      && is_code (code (evm.hex_to_address d.quoter) hash)
      && is_code (code (evm.hex_to_address d.router) hash)
      && is_address
          (address_in c.quoter_factory
            (reader.call (evm.hex_to_address d.quoter) c.quoter_factory.id hash))
          (evm.hex_to_address d.factory)
      && is_address
          (address_in c.router_factory
            (reader.call (evm.hex_to_address d.router) c.router_factory.id hash))
          (evm.hex_to_address d.factory)
      && is_module (verified_with (evm.hex_to_address d.factory) (some code))

  unfoldable pub verify_with : Evm → Deployment → Option (ℕ → ℕ → Read Bytes) → Admission (Unit {0})
  verify_with evm d none = refused "deployment code unavailable"
  verify_with evm d (some code) =
      if verify_slipstream_deployment evm code d
      then admitted tt
      else refused "deployment code or factory linkage verification failed"

  -- slipstreamQuoter.Verify
  unfoldable pub verify : Evm → Deployment → Admission (Unit {0})
  verify evm d = verify_with evm d reader.code

  -- The amount is positive and has at most 255 bits.
  unfoldable pub is_signed_amount : ℤ → Bool
  is_signed_amount amount = ltb_ℤ (pos 0) amount && ltb (pos_part amount) (2 ^ 255)

  -- Provider.Quote: the pool and the output.
  unfoldable pub quote : Evm → Deployment → ℕ → ℕ → ℤ → ℤ → Answered (ℕ × ℕ)
  quote evm d a b amount spacing = do
    bounded ←
        if is_signed_amount amount
        then answers tt
        else fails "quote input exceeds Slipstream signed amount limit"
    find ← given c.packing_error (c.get_pool_call a b spacing)
    found ←
        readable "pool discovery failed at the pinned block"
          (reader.call (evm.hex_to_address d.factory) find hash)
    address ← given "invalid factory response" (unpack c.get_pool found)
    pool ← present_pool address
    call ← given c.packing_error (c.quote_call a b amount spacing)
    raw ←
        readable "quote failed at the pinned block"
          (reader.call (evm.hex_to_address d.quoter) call hash)
    values ← given "invalid quoter response" (unpack c.quote_result raw)
    output ← usable_output a b values
    answers (pool, output)

  -- slipstreamQuoter.quote, from the token `a`.
  unfoldable pub quote_path :
      Evm → Deployment → ℕ → List ℕ → List ℤ → ℤ → Answered (List RouteLeg × ℤ)
  quote_path evm d a tokens [] amount = answers ([], amount)
  quote_path evm d a [] (spacing ∷ spacings) amount = out_of_range
  quote_path evm d a (b ∷ tokens) (spacing ∷ spacings) amount = do
    hop ← quote evm d a b amount spacing
    rest ← quote_path evm d b tokens spacings (pos hop.1)
    let leg : RouteLeg = record {
      pool = evm.address_hex hop.0;
      token_in = evm.address_hex a;
      token_out = evm.address_hex b;
      selector = some (tick_spacing spacing);
      uniswap_v4_pool_key = none;
    }
    answers (leg ∷ rest.0, rest.1)
