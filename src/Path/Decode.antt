-- ===== src/Path/Decode.antt =====
-- calldata.go, `v3Path` and `slipstreamPath`: a reader of the path, as the router's contract is, finds
-- the tokens and the words of the legs again.
use Prim.Native.Nat.{ℕ, zero, suc, ◌+◌, ◌-◌, ◌*◌, ◌/◌, ◌%◌, ◌^◌, ◌<◌}
use mathlib.Core.Path.{subst}
use mathlib.Core.List.{append_assoc, append-nil}
use epeius.Prelude.{
  String, ◌≡◌, refl, sym, ap, ◌∙◌, Bool, true, false, ◌&&◌, Option, none, some, List, [], ◌∷◌, ◌++◌,
  map, length, arith, ltb, if◌then◌else◌,
}
use native.Mathlib.Numerals.{unary_clauses}
use epeius.Prelude.Int.{ℤ, pos, negsuc}
use epeius.Evm.{Evm, Bytes, valid_address}
use epeius.Wire.{Selector, RouteLeg, fee_pips, tick_spacing}
use epeius.Executor.{equal_fold}
use epeius.Path.{
  big_endian, address_bytes, word_bytes, fee_word, spacing_bits, spacing_word, join_leg, prepend,
  with_word, pack_legs, pack_path, v3_path, slipstream_path,
}

-- A big-endian number of k bytes, after the bytes that are read already, and the bytes that follow.
unfoldable pub read : ℕ → Bytes → ℕ → ℕ × Bytes
read zero bytes n = (n, bytes)
read (suc k) [] n = (n, [])
read (suc k) (b ∷ bytes) n = read k bytes (n * 256 + b)

-- Hops of an address and three bytes each, then an address: the hops, the address and the bytes left.
abbrev Decoded : Type 0
Decoded = List (ℕ × ℕ) × (ℕ × Bytes)

abbrev after_word : (Bytes → Decoded) → ℕ → ℕ × Bytes → Decoded
after_word others address w = ((address, w.0) ∷ (others w.1).0, (others w.1).1)

abbrev after_address : (Bytes → Decoded) → ℕ × Bytes → Decoded
after_address others a = after_word others a.0 (read 3 a.1 0)

unfoldable pub decode : ℕ → Bytes → List (ℕ × ℕ) × (ℕ × Bytes)
decode zero bytes = ([], read 20 bytes 0)
decode (suc hops) bytes = after_address (decode hops) (read 20 bytes 0)

abbrev one_more : ℕ × Bytes → ℕ × Bytes
one_more p = read 1 p.1 p.0

read-suc : (k : ℕ) (bytes : Bytes) (n : ℕ) → read (suc k) bytes n ≡ one_more (read k bytes n)
unfolding read
read-suc zero bytes n = refl
read-suc (suc k) [] n = refl
read-suc (suc k) (b ∷ bytes) n = read-suc k bytes (n * 256 + b)

power_step : (p n : ℕ) → n < p * 256 → n / 256 < p
power_step p n h = omega (arith, h)

divided : (n : ℕ) → n / 256 * 256 + n % 256 ≡ n
divided n = omega arith

power-suc : (k n : ℕ) → n < 256 ^ suc k → n / 256 < 256 ^ k
power-suc k n h = power_step (256 ^ k) n (simp unary_clauses at h)

read-big_endian :
    (k n : ℕ) (rest : Bytes) → n < 256 ^ k → read k (big_endian k n ++ rest) 0 ≡ (n, rest)
unfolding big_endian read
read-big_endian zero n rest h = ap (λ m. (m, rest)) (omega (arith, (simp unary_clauses at h)))
read-big_endian (suc k) n rest h =
    ap (λ bs. read (suc k) bs 0) (append_assoc (big_endian k (n / 256)) (n % 256 ∷ []) rest)
    ∙ (read-suc k (big_endian k (n / 256) ++ (n % 256 ∷ rest)) 0
        ∙ (ap one_more (read-big_endian k (n / 256) (n % 256 ∷ rest) (power-suc k n h))
            ∙ ap (λ m. (m, rest)) (divided n)))

word_sum :
    (w : ℕ)
    → w < 2 ^ 24
    → ((0 * 256 + w / 2 ^ 16 % 256) * 256 + w / 2 ^ 8 % 256) * 256 + w % 256 ≡ w
word_sum w h = omega (arith, h)

read-word_bytes : (w : ℕ) (rest : Bytes) → w < 2 ^ 24 → read 3 (word_bytes w ++ rest) 0 ≡ (w, rest)
unfolding word_bytes read
read-word_bytes w rest h = ap (λ m. (m, rest)) (word_sum w h)

abbrev word_or_zero : Option ℕ → ℕ
word_or_zero none = 0
word_or_zero (some word) = word

-- The hops of the legs, and where the last of them ends.
abbrev pub hops_of : Evm → (Option Selector → Option ℕ) → List RouteLeg → List (ℕ × ℕ)
hops_of evm word_of legs =
    map (λ (leg : RouteLeg). (evm.hex_to_address leg.token_in, word_or_zero (word_of leg.selector)))
      legs

abbrev pub last_leg : RouteLeg → List RouteLeg → RouteLeg
last_leg leg [] = leg
last_leg leg (next ∷ legs) = last_leg next legs

abbrev Filled {ℓ} : {A : Type ℓ} → Option A → Type 0
Filled none = ⊥
Filled (some a) = Unit

no_none {ℓ} : {A : Type ℓ} {a : A} → none ≡ some a → ⊥
no_none h = subst Filled (sym h) tt

some_injective {ℓ} : {A : Type ℓ} (a b : A) → some a ≡ some b → a ≡ b
some_injective a b h = cc

if_some : (b : Bool) (w word : ℕ) → (if b then some w else none) ≡ some word → some w ≡ some word
if_some true w word h = h
if_some false w word h = ground arith

join_leg-word :
    (evm : Evm) (previous : Option String) (leg : RouteLeg) (o : Option ℕ) (word : ℕ)
    → join_leg evm previous leg o ≡ some word
    → o ≡ some word
unfolding join_leg
join_leg-word evm previous leg none word h = h
join_leg-word evm none leg (some w) word h =
    if_some (valid_address evm leg.token_in && valid_address evm leg.token_out) w word h
join_leg-word evm (some token) leg (some w) word h =
    if_some
      (valid_address evm leg.token_in
        && valid_address evm leg.token_out
        && equal_fold token leg.token_in)
      w word h

with_word-some :
    (evm : Evm) (leg : RouteLeg) (rest : Option Bytes) (o : Option ℕ) (path : Bytes)
    → with_word evm leg rest o ≡ some path
    → (word : ℕ) × (o ≡ some word)
      × (tail : Bytes) × (rest ≡ some tail)
      × (path ≡ address_bytes evm leg.token_in ++ (word_bytes word ++ tail))
unfolding with_word prepend
with_word-some evm leg rest none path h = elim (no_none h) [ ]
with_word-some evm leg none (some word) path h = elim (no_none h) [ ]
with_word-some evm leg (some tail) (some word) path h = (
  word,
  refl,
  tail,
  refl,
  sym (some_injective _ _ h) ∙ append_assoc (address_bytes evm leg.token_in) (word_bytes word) tail,
)

module _ (evm : Evm) (word_of : Option Selector → Option ℕ)
    (is_word : (s : Option Selector) (word : ℕ) → word_of s ≡ some word → word < 2 ^ 24)
    (is_address : (text : String) → evm.hex_to_address text < 2 ^ 160) where
  address-read :
      (text : String) (rest : Bytes)
      → read 20 (address_bytes evm text ++ rest) 0 ≡ (evm.hex_to_address text, rest)
  unfolding address_bytes
  address-read text rest = read-big_endian 20 (evm.hex_to_address text) rest (is_address text)

  read-hop :
      (leg : RouteLeg) (word hops : ℕ) (tail : Bytes)
      → word_of leg.selector ≡ some word
      → decode (suc hops) (address_bytes evm leg.token_in ++ (word_bytes word ++ tail)) ≡ (
        (evm.hex_to_address leg.token_in, word_or_zero (word_of leg.selector))
            ∷ (decode hops tail).0,
        (decode hops tail).1,
      )
  unfolding decode
  read-hop leg word hops tail h =
      let address = evm.hex_to_address leg.token_in in
      ap (after_address (decode hops)) (address-read leg.token_in (word_bytes word ++ tail))
      ∙ (ap (after_word (decode hops) address)
            (read-word_bytes word tail (is_word leg.selector word h))
          ∙ ap (λ o. ((address, word_or_zero o) ∷ (decode hops tail).0, (decode hops tail).1))
              (sym h))

  last-read :
      (leg : RouteLeg)
      → decode 0 (address_bytes evm leg.token_out) ≡ ([], (evm.hex_to_address leg.token_out, []))
  unfolding decode
  last-read leg =
      ap (λ bs. ([], read 20 bs 0)) (sym (append-nil (address_bytes evm leg.token_out)))
      ∙ ap (λ p. ([], p)) (address-read leg.token_out [])

  pack_legs-decode :
      (previous : Option String) (leg : RouteLeg) (legs : List RouteLeg) (path : Bytes)
      → pack_legs evm word_of previous leg legs ≡ some path
      → decode (suc (length legs)) path
        ≡ (hops_of evm word_of (leg ∷ legs), (evm.hex_to_address (last_leg leg legs).token_out, []))
  unfolding pack_legs
  pack_legs-decode previous leg [] path h =
      let (word, joined, tail, last, splits) = with_word-some evm leg _ _ path h in
      let hop : ℕ × ℕ = (evm.hex_to_address leg.token_in, word_or_zero (word_of leg.selector)) in
      ap (decode 1) splits
      ∙ (read-hop leg word 0 tail (join_leg-word evm previous leg _ word joined)
          ∙ ap (λ (d : Decoded). (hop ∷ d.0, d.1))
              (ap (decode 0) (sym (some_injective _ _ last)) ∙ last-read leg))
  pack_legs-decode previous leg (next ∷ legs) path h =
      let (word, joined, tail, packed, splits) = with_word-some evm leg _ _ path h in
      let hop : ℕ × ℕ = (evm.hex_to_address leg.token_in, word_or_zero (word_of leg.selector)) in
      ap (decode (suc (suc (length legs)))) splits
      ∙ (read-hop leg word (suc (length legs)) tail (join_leg-word evm previous leg _ word joined)
          ∙ ap (λ (d : Decoded). (hop ∷ d.0, d.1))
              (pack_legs-decode (some leg.token_out) next legs tail packed))

fee_word-bound : (s : Option Selector) (word : ℕ) → fee_word s ≡ some word → word < 2 ^ 24
unfolding fee_word
fee_word-bound none word h = elim (no_none h) [ ]
fee_word-bound (some (fee_pips fee)) word h = small_if fee word h
  where
    small_if :
        (fee word : ℕ) → (if ltb fee 1000000 then some fee else none) ≡ some word → word < 2 ^ 24
    small_if fee word h = ground arith
fee_word-bound (some (tick_spacing spacing)) word h = elim (no_none h) [ ]

-- The int24 whose two's complement a word is.
abbrev pub signed_word : ℕ → ℤ
signed_word word = if ltb word 8388608 then pos word else negsuc (16777215 - word)

spacing_bits-signed :
    (spacing : ℤ) (word : ℕ)
    → spacing_bits spacing ≡ some word
    → (word < 2 ^ 24) × (signed_word word ≡ spacing)
unfolding spacing_bits
spacing_bits-signed (pos n) word h = (ground arith)
spacing_bits-signed (negsuc n) word h = (ground arith)

spacing_word-bound : (s : Option Selector) (word : ℕ) → spacing_word s ≡ some word → word < 2 ^ 24
unfolding spacing_word
spacing_word-bound none word h = elim (no_none h) [ ]
spacing_word-bound (some (fee_pips fee)) word h = elim (no_none h) [ ]
spacing_word-bound (some (tick_spacing spacing)) word h = (spacing_bits-signed spacing word h).0

module _ (evm : Evm) (is_address : (text : String) → evm.hex_to_address text < 2 ^ 160) where
  pack_path-decode :
      (word_of : Option Selector → Option ℕ)
      → ((s : Option Selector) (word : ℕ) → word_of s ≡ some word → word < 2 ^ 24)
      → (leg : RouteLeg) (legs : List RouteLeg) (path : Bytes)
      → pack_path evm word_of (leg ∷ legs) ≡ some path
      → decode (suc (length legs)) path
        ≡ (hops_of evm word_of (leg ∷ legs), (evm.hex_to_address (last_leg leg legs).token_out, []))
  unfolding pack_path
  pack_path-decode word_of bound leg [] path h =
      pack_legs-decode evm word_of bound is_address none leg [] path h
  pack_path-decode word_of bound leg (next ∷ []) path h =
      pack_legs-decode evm word_of bound is_address none leg (next ∷ []) path h
  pack_path-decode word_of bound leg (next ∷ other ∷ legs) path h = elim (no_none h) [ ]

fee_word-fee : (fee word : ℕ) → fee_word (some (fee_pips fee)) ≡ some word → word ≡ fee
unfolding fee_word
fee_word-fee fee word h = ground arith

-- A V3 path that was packed reads back, with no byte left, as the input tokens of the legs with the
-- words of their fees and the output token of the last leg, where addresses are below 2^160; and the
-- word of every fee that has one is the fee.
pub v3_path-decode :
    (evm : Evm)
    → ((text : String) → evm.hex_to_address text < 2 ^ 160)
    → (leg : RouteLeg) (legs : List RouteLeg) (path : Bytes) → v3_path evm (leg ∷ legs) ≡ some path
    → (decode (suc (length legs)) path ≡ (
      hops_of evm fee_word (leg ∷ legs),
      (evm.hex_to_address (last_leg leg legs).token_out, []),
    ))
      × ((fee word : ℕ) → fee_word (some (fee_pips fee)) ≡ some word → word ≡ fee)
unfolding v3_path
v3_path-decode evm is_address leg legs path h =
    (pack_path-decode evm is_address fee_word fee_word-bound leg legs path h, fee_word-fee)

-- A Slipstream path that was packed reads back, with no byte left, as the input tokens of the legs with
-- the words of their tick spacings and the output token of the last leg, where addresses are below
-- 2^160; and the word of every tick spacing that has one is its two's complement in 24 bits.
pub slipstream_path-decode :
    (evm : Evm)
    → ((text : String) → evm.hex_to_address text < 2 ^ 160)
    → (leg : RouteLeg) (legs : List RouteLeg) (path : Bytes)
    → slipstream_path evm (leg ∷ legs) ≡ some path
    → (decode (suc (length legs)) path ≡ (
      hops_of evm spacing_word (leg ∷ legs),
      (evm.hex_to_address (last_leg leg legs).token_out, []),
    ))
      × ((spacing : ℤ) (word : ℕ)
          → spacing_word (some (tick_spacing spacing)) ≡ some word
          → signed_word word ≡ spacing)
unfolding slipstream_path spacing_word
slipstream_path-decode evm is_address leg legs path h = (
  pack_path-decode evm is_address spacing_word spacing_word-bound leg legs path h,
  λ spacing word e. (spacing_bits-signed spacing word e).1,
)
