-- ===== src/Path.antt =====
-- services/quote-engine/internal/quote/calldata.go: the packed paths of the V3 and Slipstream routers.
pub mod Decode
use Prim.Native.Nat.{ℕ, zero, suc, ◌+◌, ◌-◌, ◌*◌, ◌/◌, ◌%◌, ◌^◌, ◌≤◌, ◌<◌}
use epeius.Prelude.{
  String, Bool, true, false, ◌&&◌, Option, none, some, List, [], ◌∷◌, ◌++◌, ltb, leb, length,
  if◌then◌else◌,
}
use epeius.Prelude.Int.{ℤ, pos, negsuc}
use epeius.Evm.{Evm, Bytes, valid_address}
use epeius.Wire.{Selector, RouteLeg, fee_pips, tick_spacing}
use epeius.Executor.{equal_fold}

-- The k bytes of a number, the highest first.
unfoldable pub big_endian : ℕ → ℕ → Bytes
big_endian zero n = []
big_endian (suc k) n = big_endian k (n / 256) ++ (n % 256 ∷ [])

-- common.HexToAddress(text).Bytes()
unfoldable pub address_bytes : Evm → String → Bytes
unfolding big_endian
address_bytes evm text = big_endian 20 (evm.hex_to_address text)

-- byte(value>>16), byte(value>>8), byte(value)
unfoldable pub word_bytes : ℕ → Bytes
word_bytes value = value / 2 ^ 16 % 256 ∷ value / 2 ^ 8 % 256 ∷ value % 256 ∷ []

-- The fee of a V3 leg, if it has one below a million.
unfoldable pub fee_word : Option Selector → Option ℕ
fee_word none = none
fee_word (some (fee_pips fee)) = if ltb fee 1000000 then some fee else none
fee_word (some (tick_spacing spacing)) = none

-- slipstream.MinTickSpacing and MaxTickSpacing, and the low 24 bits of an int32.
unfoldable pub spacing_bits : ℤ → Option ℕ
spacing_bits (pos n) = if ltb n 8388608 then some (n % 2 ^ 24) else none
spacing_bits (negsuc n) = if ltb n 8388608 then some ((2 ^ 32 - suc n) % 2 ^ 24) else none

unfoldable pub spacing_word : Option Selector → Option ℕ
unfolding spacing_bits
spacing_word none = none
spacing_word (some (fee_pips fee)) = none
spacing_word (some (tick_spacing spacing)) = spacing_bits spacing

-- A leg that can follow one that ends in `previous`, with the word that selects its pool.
unfoldable pub join_leg : Evm → Option String → RouteLeg → Option ℕ → Option ℕ
join_leg evm previous leg none = none
join_leg evm none leg (some word) =
    if valid_address evm leg.token_in && valid_address evm leg.token_out then some word else none
join_leg evm (some token) leg (some word) =
    if valid_address evm leg.token_in
      && valid_address evm leg.token_out
      && equal_fold token leg.token_in
    then some word
    else none

-- The loop over the legs, with what it appends, and the last token.
unfoldable pub prepend : Bytes → Option Bytes → Option Bytes
prepend bytes none = none
prepend bytes (some rest) = some (bytes ++ rest)

unfoldable pub with_word : Evm → RouteLeg → Option Bytes → Option ℕ → Option Bytes
with_word evm leg rest none = none
with_word evm leg rest (some word) =
    prepend (address_bytes evm leg.token_in ++ word_bytes word) rest

unfoldable pub pack_legs :
    Evm → (Option Selector → Option ℕ) → Option String → RouteLeg → List RouteLeg → Option Bytes
pack_legs evm word_of previous leg [] =
    with_word evm leg (some (address_bytes evm leg.token_out))
      (join_leg evm previous leg (word_of leg.selector))
pack_legs evm word_of previous leg (next ∷ legs) =
    with_word evm leg (pack_legs evm word_of (some leg.token_out) next legs)
      (join_leg evm previous leg (word_of leg.selector))

unfoldable pub pack_path : Evm → (Option Selector → Option ℕ) → List RouteLeg → Option Bytes
pack_path evm word_of [] = none
pack_path evm word_of (leg ∷ []) = pack_legs evm word_of none leg []
pack_path evm word_of (leg ∷ next ∷ []) = pack_legs evm word_of none leg (next ∷ [])
pack_path evm word_of (leg ∷ next ∷ other ∷ legs) = none

unfoldable pub v3_path : Evm → List RouteLeg → Option Bytes
v3_path evm legs = pack_path evm fee_word legs

unfoldable pub slipstream_path : Evm → List RouteLeg → Option Bytes
slipstream_path evm legs = pack_path evm spacing_word legs
