-- ===== src/Options/UniswapV4.antt =====
-- services/quote-engine/internal/providers/uniswapv4/config.go: the options of a Uniswap V4 deployment.
use epeius.Prelude.{
  ℕ, ◌-◌, ◌^◌, ◌%◌, String, Bool, false, not, ◌&&◌, ◌||◌, Option, none, some, List, [], ◌∷◌, ltb,
  leb, ◌==◌, str_eq, if◌then◌else◌,
}
use epeius.Prelude.Int.{ℤ, pos, negsuc, eq_ℤ, ltb_ℤ, ◌-ℤ◌}
use epeius.Prelude.Partial.{◌>>=◌}
use epeius.Config.{Value, Values, Fields, Pool}
use epeius.Evm.{Evm}
use epeius.V4.{V4Options}
use epeius.Options.{field_count, field_of, array_of, integer_of, text_of}

-- A router's code hash, and the address and the code hash of its Permit2.
pub record Reviewed : Type 0 where
  pub router : ℕ
  pub address : ℕ
  pub code_hash : ℕ

-- reviewedRouterPermit2
abbrev pub reviewed_router_permit2 : Evm → List Reviewed
reviewed_router_permit2 evm =
    record {
      router = evm.hex_to_hash "0x27713951fb0660a1422b710122022d90723d883dc7b72949be79cb2957d234e0";
      address = evm.hex_to_address "0x000000000022D473030F116dDEE9F6B43aC78BA3";
      code_hash =
          evm.hex_to_hash "0xa67739abc3ede9dbdc0491636c67d6a14ac07fab9030c3f509b1eb7b11dff8ed";
    }
    ∷ record {
      router = evm.hex_to_hash "0x952c879f642706a4d399eb917827b5a2a5519328446dba72aef3579909bf15ef";
      address = evm.hex_to_address "0x000000000022D473030F116dDEE9F6B43aC78BA3";
      code_hash =
          evm.hex_to_hash "0xdcde65555316946c298e4c60c6213eb5c3aeab4354d1f3fac5427236bcbb9ebe";
    }
    ∷ []

unfoldable pub reviewed_for : ℕ → List Reviewed → Option Reviewed
reviewed_for router [] = none
reviewed_for router (known ∷ rest) =
    let later = reviewed_for router rest in if known.router == router then some known else later

unfoldable pub guard : Bool → Option (Unit {0})
guard b = if b then some tt else none

unfoldable pub table_of : Value → Option Fields
table_of (Value.table fields) = some fields
table_of (Value.text s) = none
table_of (Value.integer n) = none
table_of (Value.array values) = none
table_of Value.other = none

-- The conversions from int64.
unfoldable pub uint32_of : ℤ → ℕ
uint32_of (pos n) = n % 2 ^ 32
uint32_of (negsuc n) = 2 ^ 32 - 1 - n % 2 ^ 32

unfoldable pub int32_of : ℤ → ℤ
int32_of z =
    if ltb (uint32_of z) (2 ^ 31) then pos (uint32_of z) else pos (uint32_of z) -ℤ pos (2 ^ 32)

unfoldable pub same_pool : Pool → Pool → Bool
same_pool p q =
    str_eq p.currency0 q.currency0
    && str_eq p.currency1 q.currency1
    && p.fee_pips == q.fee_pips
    && eq_ℤ p.tick_spacing q.tick_spacing
    && str_eq p.hooks q.hooks

-- seen[pool]
unfoldable pub pool_seen : Pool → List Pool → Bool
pool_seen pool [] = false
pool_seen pool (p ∷ seen) = let rest = pool_seen pool seen in same_pool pool p || rest

-- The range checks of a pool; the comparison of two addresses is that of their numbers.
unfoldable pub is_pool : ℕ → ℕ → ℤ → ℤ → ℕ → Bool
is_pool a b fee spacing hooks = not (
    a == 0
    || b == 0
    || leb b a
    || ltb_ℤ fee (pos 0)
    || ltb_ℤ (pos 1000000) fee
    || eq_ℤ fee (pos 8388608)
    || not (ltb_ℤ (pos 0) spacing)
    || ltb_ℤ (pos 32767) spacing
    || not (hooks == 0))

-- `hash_hex` is `Hash.Hex`.
module _ (evm : Evm) (hash_hex : ℕ → String) where
  unfoldable pub pool_of : ℕ → ℕ → ℤ → ℤ → ℕ → Pool
  pool_of a b fee spacing hooks = record {
    currency0 = evm.address_hex a;
    currency1 = evm.address_hex b;
    fee_pips = uint32_of fee;
    tick_spacing = int32_of spacing;
    hooks = evm.address_hex hooks;
  }

  unfoldable pub checked_pool : List Pool → ℕ → ℕ → ℤ → ℤ → ℕ → Option Pool
  checked_pool seen a b fee spacing hooks =
      if is_pool a b fee spacing hooks && not (pool_seen (pool_of a b fee spacing hooks) seen)
      then some (pool_of a b fee spacing hooks)
      else none

  unfoldable pub read_fields : List Pool → Fields → Option Pool
  read_fields seen fields = do
    five ← guard (field_count fields == 5)
    currency0 ← text_of (field_of "currency0" fields)
    currency1 ← text_of (field_of "currency1" fields)
    hooks ← text_of (field_of "hooks" fields)
    fee ← field_of "fee_pips" fields >>= integer_of
    spacing ← field_of "tick_spacing" fields >>= integer_of
    hex ←
        guard
          (evm.is_hex_address currency0 && evm.is_hex_address currency1 && evm.is_hex_address hooks)
    checked_pool seen (evm.hex_to_address currency0) (evm.hex_to_address currency1) fee spacing
        (evm.hex_to_address hooks)

  unfoldable pub read_pool : List Pool → Value → Option Pool
  read_pool seen value = table_of value >>= read_fields seen

  -- The loop over the pools, with those that were seen.
  unfoldable pub read_pools : List Pool → Values → Option (List Pool)
  read_pools seen Values.nil = some []
  read_pools seen (Values.cons value values) = do
    pool ← read_pool seen value
    pools ← read_pools (pool ∷ seen) values
    some (pool ∷ pools)

  unfoldable pub nonempty_pools : Values → Option (List Pool)
  nonempty_pools Values.nil = none
  nonempty_pools (Values.cons value values) = read_pools [] (Values.cons value values)

  unfoldable pub address_option : Fields → String → Option ℕ
  address_option raw name = do
    value ← text_of (field_of name raw)
    valid ← guard (evm.is_hex_address value && not (evm.hex_to_address value == 0))
    some (evm.hex_to_address value)

  unfoldable pub hash_option : Fields → String → Option ℕ
  hash_option raw name = do
    value ← text_of (field_of name raw)
    valid ← guard (evm.is_hex_hash value)
    some (evm.hex_to_hash value)

  unfoldable pub with_pools : Fields → ℕ → ℕ → ℕ → ℕ → ℕ → Option V4Options
  with_pools raw pool_manager state_view permit2 router_code_hash permit2_code_hash = do
    values ← array_of (field_of "pools" raw)
    pools ← nonempty_pools values
    some (record {
      pool_manager = evm.address_hex pool_manager;
      state_view = evm.address_hex state_view;
      permit2 = evm.address_hex permit2;
      permit2_code_hash = hash_hex permit2_code_hash;
      router_code_hash = hash_hex router_code_hash;
      pools = pools;
    })

  -- uniswapv4.ParseOptions: nothing where it is an error.
  unfoldable pub parse_uniswap_v4 : Fields → Option V4Options
  parse_uniswap_v4 raw = do
    six ← guard (field_count raw == 6)
    pool_manager ← address_option raw "pool_manager"
    state_view ← address_option raw "state_view"
    permit2 ← address_option raw "permit2"
    router_code_hash ← hash_option raw "router_code_hash"
    permit2_code_hash ← hash_option raw "permit2_code_hash"
    reviewed ← reviewed_for router_code_hash (reviewed_router_permit2 evm)
    named ← guard (
        evm.hex_to_address (evm.address_hex permit2) == reviewed.address
        && permit2_code_hash == reviewed.code_hash)
    with_pools raw pool_manager state_view permit2 router_code_hash permit2_code_hash
