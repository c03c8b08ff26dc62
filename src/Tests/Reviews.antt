-- ===== src/Tests/Reviews.antt =====
-- The options of a Uniswap V4 deployment with one pool, of the first reviewed router.
use epeius.Prelude.{◌≡◌, refl, true, some, [], ◌∷◌, str_eq, if◌then◌else◌}
use epeius.Prelude.Int.{pos}
use epeius.Config
use epeius.Config.{Fields, Pool}
use epeius.Evm.{Evm}
use epeius.V4.{V4Options}
use epeius.Options.{field_count, field_of, array_of, integer_of, text_of}
use epeius.Options.UniswapV4.{
  reviewed_for, guard, table_of, uint32_of, int32_of, same_pool, pool_seen, is_pool, pool_of,
  checked_pool, read_fields, read_pool, read_pools, nonempty_pools, address_option, hash_option,
  with_pools, parse_uniswap_v4,
}
use epeius.Options.Reviewed.{AreReviewed, parse_uniswap_v4-AreReviewed}

-- The tokens are 10 and 11, no hooks are 0, and every other address is 7.
abbrev addresses : Evm
addresses = record {
  is_hex_address = λ s. true;
  hex_to_address = λ s.
      if str_eq s "0x0a"
      then 10
      else if str_eq s "0x0b"
      then 11
      else if str_eq s "0x00"
      then 0
      else 7;
  address_hex = λ a. "0x07";
  hex_to_hash = λ s. 9;
  is_hex_hash = λ s. true;
}

abbrev raw_pool : Fields
raw_pool = Config.field "currency0" (Config.text "0x0a") (
    Config.field "currency1" (Config.text "0x0b") (
      Config.field "fee_pips" (Config.integer (pos 500)) (
        Config.field "tick_spacing" (Config.integer (pos 10))
          (Config.field "hooks" (Config.text "0x00") Config.end))))

abbrev raw : Fields
raw = Config.field "pool_manager" (Config.text "0x60") (
    Config.field "state_view" (Config.text "0x61") (
      Config.field "permit2" (Config.text "0x62") (
        Config.field "router_code_hash" (Config.text "0x63") (
          Config.field "permit2_code_hash" (Config.text "0x64") (
            Config.field "pools" (Config.array (Config.cons (Config.table raw_pool) Config.nil))
              Config.end)))))

abbrev options : V4Options
options = record {
  pool_manager = "0x07";
  state_view = "0x07";
  permit2 = "0x07";
  permit2_code_hash = "0x09";
  router_code_hash = "0x09";
  pools =
      record {
        currency0 = "0x07";
        currency1 = "0x07";
        fee_pips = 500;
        tick_spacing = pos 10;
        hooks = "0x07";
      }
      ∷ [];
}

raw_parsed : parse_uniswap_v4 addresses (λ h. "0x09") raw ≡ some options
unfolding parse_uniswap_v4 with_pools hash_option address_option nonempty_pools read_pools read_pool
    read_fields checked_pool pool_of is_pool pool_seen same_pool int32_of uint32_of table_of guard
    reviewed_for field_count field_of array_of integer_of text_of
raw_parsed = refl

parse_uniswap_v4-AreReviewed_example : AreReviewed addresses (λ h. "0x09") raw options
parse_uniswap_v4-AreReviewed_example =
    parse_uniswap_v4-AreReviewed addresses (λ h. "0x09") raw options raw_parsed
