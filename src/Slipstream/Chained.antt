-- ===== src/Slipstream/Chained.antt =====
-- slipstream.go with calldata.go: the legs of a quote pack into the router's path.
use epeius.Prelude.{
  ℕ, ◌<◌, ◌^◌, String, ◌≡◌, refl, sym, ap, ◌∙◌, true, none, some, List, [], ◌∷◌, length,
}
use epeius.Prelude.Int.{ℤ, pos}
use epeius.Config.{Deployment}
use epeius.Evm.{Evm, Bytes, Reader, valid_address}
use epeius.Executor.Folded.{equal_fold_self}
use epeius.Wire.{RouteLeg, tick_spacing}
use epeius.Path.{
  slipstream_path, pack_path, pack_legs, spacing_word, spacing_bits, join_leg, with_word, prepend,
}
use epeius.Path.Decode.{decode, slipstream_path-decode}
use epeius.V3Quoter.{answers}
use epeius.V3Quoter.Inversion.{answers_injective, >>=-eq-answers}
use epeius.Slipstream.{SlipstreamCalls, quote, quote_path}

-- Addresses that the engine prints are valid, and read back.
pub record Prints (evm : Evm) : Type 0 where
  pub valid : (a : ℕ) → valid_address evm (evm.address_hex a) ≡ true
  pub reads_back : (a : ℕ) → a < 2 ^ 160 → evm.hex_to_address (evm.address_hex a) ≡ a
  pub is_address : (text : String) → evm.hex_to_address text < 2 ^ 160

module _ (c : SlipstreamCalls) (reader : Reader) (hash : ℕ) (evm : Evm) (d : Deployment) where
  -- The legs through these pools.
  abbrev leg_of : ℕ → ℕ → ℕ → ℤ → RouteLeg
  leg_of pool a b spacing = record {
    pool = evm.address_hex pool;
    token_in = evm.address_hex a;
    token_out = evm.address_hex b;
    selector = some (tick_spacing spacing);
    uniswap_v4_pool_key = none;
  }

  quote_path-cons :
      (a b : ℕ) (tokens : List ℕ) (s : ℤ) (spacings : List ℤ) (amount : ℤ) (legs : List RouteLeg)
      (output : ℤ)
      → quote_path c reader hash evm d a (b ∷ tokens) (s ∷ spacings) amount ≡ answers (legs, output)
      → (pool : ℕ) × (n : ℕ) × (rest : List RouteLeg) × (quote c reader hash evm d a b amount s
          ≡ answers (pool, n))
        × (quote_path c reader hash evm d b tokens spacings (pos n) ≡ answers (rest, output))
        × (legs ≡ leg_of pool a b s ∷ rest)
  unfolding quote_path
  quote_path-cons a b tokens s spacings amount legs output h =
      let (hop, quoted, h1) = >>=-eq-answers (quote c reader hash evm d a b amount s) _ h in
      let (rest, later, h2) =
        >>=-eq-answers (quote_path c reader hash evm d b tokens spacings (pos hop.1)) _ h1 in
      let e = answers_injective h2 in
      (
        hop.0,
        hop.1,
        rest.0,
        quoted,
        later ∙ ap (λ (o : ℤ). answers (rest.0, o)) (ap (λ (r : List RouteLeg × ℤ). r.1) e),
        sym (ap (λ (r : List RouteLeg × ℤ). r.0) e),
      )

  quote_path-nil :
      (a : ℕ) (tokens : List ℕ) (amount : ℤ) (legs : List RouteLeg) (output : ℤ)
      → quote_path c reader hash evm d a tokens [] amount ≡ answers (legs, output)
      → (legs ≡ []) × (output ≡ amount)
  unfolding quote_path
  quote_path-nil a tokens amount legs output h =
      let e = answers_injective h in
      (sym (ap (λ (r : List RouteLeg × ℤ). r.0) e), sym (ap (λ (r : List RouteLeg × ℤ). r.1) e))

-- A path of one hop, or of two through a token.
pub data Way : Type 0 where
  direct : ℤ → Way
  split : ℤ → ℕ → ℤ → Way

abbrev pub tokens_of : Way → ℕ → List ℕ
tokens_of (direct s) out = out ∷ []
tokens_of (split s via t) out = via ∷ (out ∷ [])

abbrev pub spacings_of : Way → List ℤ
spacings_of (direct s) = s ∷ []
spacings_of (split s via t) = s ∷ (t ∷ [])

-- The spacings fit the path's words, and the token between is an address.
abbrev pub Fits : Way → ℕ → ℕ → Type 0
Fits (direct s) word next = (spacing_bits s ≡ some word) × (next ≡ 0)
Fits (split s via t) word next =
    (spacing_bits s ≡ some word) × (spacing_bits t ≡ some next) × (via < 2 ^ 160)

abbrev pub hops : Way → ℕ → ℕ → ℕ → List (ℕ × ℕ)
hops (direct s) a word next = (a, word) ∷ []
hops (split s via t) a word next = (a, word) ∷ ((via, next) ∷ [])

module _ (evm : Evm) (prints : Prints evm) where
  -- The legs of the way through these pools.
  abbrev legs_of : Way → ℕ → ℕ → ℕ → ℕ → List RouteLeg
  legs_of (direct s) a out pool other =
      record {
        pool = evm.address_hex pool;
        token_in = evm.address_hex a;
        token_out = evm.address_hex out;
        selector = some (tick_spacing s);
        uniswap_v4_pool_key = none;
      }
      ∷ []
  legs_of (split s via t) a out pool other =
      record {
        pool = evm.address_hex pool;
        token_in = evm.address_hex a;
        token_out = evm.address_hex via;
        selector = some (tick_spacing s);
        uniswap_v4_pool_key = none;
      }
      ∷ (record {
        pool = evm.address_hex other;
        token_in = evm.address_hex via;
        token_out = evm.address_hex out;
        selector = some (tick_spacing t);
        uniswap_v4_pool_key = none;
      }
          ∷ [])

  legs_of-packs :
      (way : Way) (a out pool other word next : ℕ)
      → Fits way word next
      → (path : Bytes) × (slipstream_path evm (legs_of way a out pool other) ≡ some path)
  unfolding slipstream_path pack_path pack_legs spacing_word join_leg with_word prepend
  legs_of-packs (direct s) a out pool other word next (fits, zero_next) =
      rw (fits, prints.valid a, prints.valid out) (_, refl)
  legs_of-packs (split s via t) a out pool other word next (fits, more, small) =
      rw
        (
          fits,
          more,
          prints.valid a,
          prints.valid out,
          prints.valid via,
          equal_fold_self (evm.address_hex via),
        )
        (_, refl)

  legs_of-decodes :
      (way : Way) (a out pool other word next : ℕ) (path : Bytes)
      → Fits way word next
      → a < 2 ^ 160
      → out < 2 ^ 160
      → slipstream_path evm (legs_of way a out pool other) ≡ some path
      → decode (length (spacings_of way)) path ≡ (hops way a word next, (out, []))
  unfolding spacing_word
  legs_of-decodes (direct s) a out pool other word next path (fits, zero_next) small_a small_out h =
      (slipstream_path-decode evm prints.is_address _ _ path h).0
      ∙ rw (fits, prints.reads_back a small_a, prints.reads_back out small_out)
  legs_of-decodes (split s via t) a out pool other word next path (fits, more, small) small_a
        small_out h =
      (slipstream_path-decode evm prints.is_address _ _ path h).0
      ∙ rw (
        fits,
        more,
        prints.reads_back a small_a,
        prints.reads_back out small_out,
        prints.reads_back via small,
      )

  -- A quote's legs, with the outputs of the hops: each hop is quoted on the output of the one before.
  abbrev pub Quoted : SlipstreamCalls → Reader → ℕ → Deployment → Way → ℕ → ℕ → ℤ → ℤ → Type 0
  Quoted c reader hash d (direct s) a out amount output =
      (pool : ℕ) × (n : ℕ) × (quote c reader hash evm d a out amount s ≡ answers (pool, n))
      × (output ≡ pos n)
  Quoted c reader hash d (split s via t) a out amount output =
      (pool : ℕ) × (n : ℕ) × (quote c reader hash evm d a via amount s ≡ answers (pool, n))
      × (other : ℕ) × (m : ℕ) × (quote c reader hash evm d via out (pos n) t ≡ answers (other, m))
      × (output ≡ pos m)

  quote_path-legs_of :
      (c : SlipstreamCalls) (reader : Reader) (hash : ℕ) (d : Deployment) (way : Way) (a out : ℕ)
      (amount : ℤ) (legs : List RouteLeg) (output : ℤ)
      → quote_path c reader hash evm d a (tokens_of way out) (spacings_of way) amount
        ≡ answers (legs, output)
      → (pool : ℕ) × (other : ℕ) × (legs ≡ legs_of way a out pool other)
        × Quoted c reader hash d way a out amount output
  quote_path-legs_of c reader hash d (direct s) a out amount legs output h =
      let (pool, n, rest, quoted, later, e) =
        quote_path-cons c reader hash evm d a out [] s [] amount legs output h in
      let (no_rest, is_output) =
        quote_path-nil c reader hash evm d out [] (pos n) rest output later in
      (
        pool,
        0,
        e ∙ ap (λ (r : List RouteLeg). leg_of c reader hash evm d pool a out s ∷ r) no_rest,
        (pool, n, quoted, is_output),
      )
  quote_path-legs_of c reader hash d (split s via t) a out amount legs output h =
      let (pool, n, rest, quoted, later, e) =
        quote_path-cons c reader hash evm d a via (out ∷ []) s (t ∷ []) amount legs output h in
      let (other, m, last, quoted', later', e') =
        quote_path-cons c reader hash evm d via out [] t [] (pos n) rest output later in
      let (no_rest, is_output) =
        quote_path-nil c reader hash evm d out [] (pos m) last output later' in
      (
        pool,
        other,
        e
            ∙ ap (λ (r : List RouteLeg). leg_of c reader hash evm d pool a via s ∷ r)
                (e'
                  ∙ ap (λ (r : List RouteLeg). leg_of c reader hash evm d other via out t ∷ r)
                      no_rest),
        (pool, n, quoted, other, m, quoted', is_output),
      )

-- A quote along a path of one or two hops, as the candidates have them, asks for the second hop with the
-- output of the first, and its legs pack into a path for the router, which reads back as the
-- tokens of the path with the words of their tick spacings, and the output token last. Addresses below
-- 2^160 are taken to be printed as valid text that reads back, and the spacings to be within 24 bits.
pub quote_path-packs :
    (evm : Evm) (prints : Prints evm) (c : SlipstreamCalls) (reader : Reader) (hash : ℕ)
    (d : Deployment) (way : Way) (a out word next : ℕ) (amount : ℤ) (legs : List RouteLeg)
    (output : ℤ)
    → Fits way word next
    → a < 2 ^ 160
    → out < 2 ^ 160
    → quote_path c reader hash evm d a (tokens_of way out) (spacings_of way) amount
      ≡ answers (legs, output)
    → Quoted evm prints c reader hash d way a out amount output
      × ((path : Bytes) × (slipstream_path evm legs ≡ some path)
          × (decode (length (spacings_of way)) path ≡ (hops way a word next, (out, []))))
quote_path-packs evm prints c reader hash d way a out word next amount legs output fits small_a
      small_out h =
    let (pool, other, e, quoted) =
      quote_path-legs_of evm prints c reader hash d way a out amount legs output h in
    let (path, packs) = legs_of-packs evm prints way a out pool other word next fits in
    (
      quoted,
      (
        path,
        ap (slipstream_path evm) e ∙ packs,
        legs_of-decodes evm prints way a out pool other word next path fits small_a small_out packs,
      ),
    )
