-- ===== src/Tests/Ticks.antt =====
-- A Slipstream path through the token 12, and a signer without a discount.
use text.Mathlib.TextLemmas.{cons-append, nil-append}
use text.Mathlib.TextPositions.{starts_with-append}
use epeius.Prelude.{
  append, ℕ, ◌%◌, ◌^◌, ◌≡◌, refl, ap, ◌∙◌, true, Option, none, some, List, [], ◌∷◌, String, codes,
  arith, ◌==◌, length, if◌then◌else◌, is_empty,
}
use epeius.Prelude.Int.{ℤ, pos, negsuc}
use epeius.Prelude.Decimal.{nat_text, unsigned, unsigned-nat_text}
use epeius.Config
use epeius.Config.{Deployment}
use epeius.Evm.{
  Evm, Bytes, Read, Reader, got, failed, empty_execution_revert, unpack, bytes_eq, valid_address,
}
use epeius.Wire.{RouteLeg, tick_spacing}
use epeius.Path.{slipstream_path, spacing_bits}
use epeius.Path.Decode.{decode}
use epeius.Verify.{Getter, is_code, address_in, nonzero, get_link, is_address}
use epeius.V3Quoter.{answers, given, readable, present_pool, usable_output, ◌>>=◌}
use epeius.Slipstream.{
  SlipstreamCalls, decoded_discount, fee_module, linked_module, verified_with, verified_fee_module,
  read_discount, discount_call, slipstream_discount, signer_verdict, signer_of,
  verify_signer_discount, is_signed_amount, quote, quote_path,
}
use epeius.Slipstream.Undiscounted.{IsUndiscounted, verify_signer_discount-IsUndiscounted}
use epeius.Slipstream.Chained.{
  Prints, Way, split, tokens_of, spacings_of, Fits, hops, Quoted, quote_path-packs,
}
use epeius.Tests.Fixture.{evm, number_method, pair_method}

abbrev or_zero : Option ℕ → ℕ
or_zero none = 0
or_zero (some n) = n

abbrev after_two : List ℕ → ℕ
after_two [] = 0
after_two (c ∷ []) = 0
after_two (c ∷ (d ∷ cs)) = or_zero (unsigned cs)

-- Addresses are printed in decimals, after 0x.
abbrev pub decimals : Evm
decimals = record evm {
  address_hex = λ a. append "0x" (nat_text a);
  hex_to_address = λ s. after_two (codes s) % 2 ^ 160;
}

printed : (a : ℕ) → decimals.address_hex a ≡ String.◌∷◌ "0" (String.◌∷◌ "x" (nat_text a))
printed a =
    cons-append "0" "x" (nat_text a)
    ∙ ap (String.◌∷◌ "0")
        (cons-append "x" "" (nat_text a) ∙ ap (String.◌∷◌ "x") (nil-append (nat_text a)))

prints : Prints decimals
unfolding valid_address
prints = record {
  valid = λ a. rw (starts_with-append "0x" (nat_text a));
  reads_back = λ a small.
      ap (λ s. after_two (codes s) % 2 ^ 160) (printed a)
      ∙ ap (λ o. or_zero o % 2 ^ 160) (unsigned-nat_text a)
      ∙ omega arith;
  is_address = λ text. omega arith;
}

abbrev getter : Getter
getter = record { id = 1 ∷ []; method = number_method }

abbrev pub calls : SlipstreamCalls
calls = record {
  quoter_factory = getter;
  router_factory = getter;
  swap_fee_module = record { id = 2 ∷ []; method = number_method };
  module_factory = getter;
  discounted_call = λ account. some (3 ∷ []);
  discounted = number_method;
  get_pool_call = λ a b spacing. some (4 ∷ []);
  get_pool = number_method;
  quote_call = λ a b amount spacing. some (5 ∷ []);
  quote_result = pair_method;
  packing_error = "";
}

-- The factory is 20, its fee module 30, every pool 40 and every output 1990.
abbrev answer : Bytes → Read Bytes
answer [] = got []
answer (n ∷ rest) =
    if n == 1
    then got (20 ∷ [])
    else if n == 2
    then got (30 ∷ [])
    else if n == 3
    then failed empty_execution_revert
    else if n == 4
    then got (40 ∷ [])
    else got (1990 ∷ 7 ∷ [])

abbrev code : ℕ → ℕ → Read Bytes
code to hash = got (1 ∷ [])

abbrev pools : Reader
pools = record { call = λ to call hash. answer call; code = some code }

accepted : is_empty (verify_signer_discount calls pools 9 20 7) ≡ true
unfolding verify_signer_discount verified_fee_module verified_with fee_module get_link nonzero
    address_in linked_module is_code is_address signer_of slipstream_discount discount_call
    read_discount decoded_discount signer_verdict unpack bytes_eq
accepted = refl

verify_signer_discount-IsUndiscounted_example : IsUndiscounted calls pools 9 20 7
verify_signer_discount-IsUndiscounted_example =
    verify_signer_discount-IsUndiscounted calls pools 9 20 7 accepted

abbrev deployment : Deployment
deployment = record {
  kind = "aerodrome-slipstream";
  factory = "0x20";
  quoter = "0x21";
  router = "0x22";
  fees = none;
  options = none;
  provider_config = Config.slipstream (pos 1 ∷ pos 200 ∷ []);
  configured_fields = [];
}

abbrev way : Way
way = split (pos 1) 12 (negsuc 0)

abbrev leg : ℕ → ℕ → ℤ → RouteLeg
leg a b spacing = record {
  pool = "0x40";
  token_in = decimals.address_hex a;
  token_out = decimals.address_hex b;
  selector = some (tick_spacing spacing);
  uniswap_v4_pool_key = none;
}

abbrev legs : List RouteLeg
legs = leg 10 12 (pos 1) ∷ leg 12 11 (negsuc 0) ∷ []

quoted :
    quote_path calls pools 9 decimals deployment 10 (tokens_of way 11) (spacings_of way) (pos 500)
    ≡ answers (legs, pos 1990)
unfolding quote_path quote ◌>>=◌ given readable present_pool usable_output is_signed_amount unpack
    bytes_eq nat_text
quoted = refl

fits : Fits way 1 16777215
unfolding spacing_bits
fits = (refl, refl, omega arith)

quote_path-packs_example :
    Quoted decimals prints calls pools 9 deployment way 10 11 (pos 500) (pos 1990)
    × ((path : Bytes) × (slipstream_path decimals legs ≡ some path)
        × (decode (length (spacings_of way)) path ≡ (hops way 10 1 16777215, (11, []))))
quote_path-packs_example =
    quote_path-packs decimals prints calls pools 9 deployment way 10 11 1 16777215 (pos 500) legs
      (pos 1990) fits (omega arith) (omega arith) quoted
