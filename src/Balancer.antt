-- ===== src/Balancer.antt =====
-- services/quote-engine/internal/quote/balancer_v2.go: what is read of a pool, and the quote of one.
pub mod Quoter
pub mod Preparation
pub mod Verified
pub mod Traded
pub mod Outputs
use epeius.Prelude.{
  ℕ, ◌/◌, ◌^◌, String, Bool, true, false, not, ◌&&◌, ◌||◌, Option, none, some, List, [], ◌∷◌, ltb,
  leb, ◌==◌, length, if◌then◌else◌,
}
use epeius.Prelude.Int.{ℤ, pos, ◌-ℤ◌, eq_ℤ, ltb_ℤ, pos_part}
use epeius.Evm.{Evm, Bytes, Method, Read, got, failed, Reader, unpack}
use epeius.Verify.{is_code}
use epeius.V3Quoter.{Answered, answers, absent, fails, given, readable, is_output, ◌>>=◌}

-- The calls of the Vault and of a pool, packed, and the methods of their results. A pool ID is a
-- number below 2^256.
pub record BalancerCalls : Type 0 where
  pub get_pool_tokens_call : ℕ → Bytes
  pub get_pool_tokens : Method (List ℕ × List ℕ)
  pub get_pool_call : ℕ → Bytes
  pub get_pool : Method (ℕ × ℕ)
  pub get_pool_id_call : Bytes
  pub get_pool_id : Method ℕ
  pub query_batch_swap_call : ℕ → ℕ → ℕ → ℤ → Option Bytes
  pub query_batch_swap : Method (List ℤ)
  pub swap_call : ℕ → ℕ → ℕ → Option ℤ → ℕ → ℤ → ℕ → Option Bytes
  pub encode_hex : Bytes → String

-- balancerPoolAddress: the first 20 bytes of the ID.
unfoldable pub pool_address : ℕ → ℕ
pool_address pool_id = pool_id / 2 ^ 96

unfoldable pub is_listed : ℕ → List ℕ → Bool
is_listed token [] = false
is_listed token (other ∷ tokens) =
    let rest = is_listed token tokens in if other == token then true else rest

-- The loop over the tokens, with the ones that were seen.
unfoldable pub are_distinct : List ℕ → List ℕ → Bool
are_distinct seen [] = true
are_distinct seen (token ∷ tokens) =
    let rest = are_distinct (token ∷ seen) tokens in
    if token == 0 || is_listed token seen then false else rest

-- The values of a call that is answered and decodes.
unfoldable pub values_of : {A : Type 0} → Method A → Read Bytes → Option A
values_of method (got bytes) = unpack method bytes
values_of method (failed error) = none

unfoldable pub usable_tokens : Option (List ℕ × List ℕ) → Option (List ℕ)
usable_tokens none = none
usable_tokens (some (tokens, balances)) =
    if not (length tokens == 0) && length tokens == length balances && are_distinct [] tokens
    then some tokens
    else none

-- balancerPoolTokens, where the error is only tested.
unfoldable pub pool_tokens : BalancerCalls → Reader → ℕ → ℕ → ℕ → Option (List ℕ)
pool_tokens c reader vault pool_id hash =
    usable_tokens
      (values_of c.get_pool_tokens (reader.call vault (c.get_pool_tokens_call pool_id) hash))

unfoldable pub registered_pool : ℕ → Option (ℕ × ℕ) → Option ℕ
registered_pool pool_id none = none
registered_pool pool_id (some (pool, specialization)) =
    if leb specialization 2 && not (pool == 0) && pool == pool_address pool_id
    then some pool
    else none

unfoldable pub is_value : Option ℕ → ℕ → Bool
is_value none expected = false
is_value (some value) expected = value == expected

unfoldable pub is_there : {A : Type 0} → Option A → Bool
is_there none = false
is_there (some a) = true

unfoldable pub verify_registered :
    BalancerCalls → Reader → (ℕ → ℕ → Read Bytes) → ℕ → ℕ → ℕ → Option ℕ → Bool
verify_registered c reader code vault pool_id hash none = false
verify_registered c reader code vault pool_id hash (some pool) =
    is_code (code pool hash)
    && is_value (values_of c.get_pool_id (reader.call pool c.get_pool_id_call hash)) pool_id
    && is_there (pool_tokens c reader vault pool_id hash)

-- verifyBalancerPool: whether it returns no error.
unfoldable pub verify_pool : BalancerCalls → Reader → (ℕ → ℕ → Read Bytes) → ℕ → ℕ → ℕ → Bool
verify_pool c reader code vault pool_id hash = verify_registered c reader code vault pool_id hash (
    registered_pool pool_id
      (values_of c.get_pool (reader.call vault (c.get_pool_call pool_id) hash)))

unfoldable pub is_eligible : ℕ → ℕ → ℕ → List ℕ → Bool
is_eligible pool_id token_in token_out tokens =
    is_listed token_in tokens
    && is_listed token_out tokens
    && not (token_in == pool_address pool_id)
    && not (token_out == pool_address pool_id)

-- The two deltas: the amount in, and the output as a negative number.
unfoldable pub output_of : ℤ → List ℤ → Answered ℤ
output_of amount (given_in ∷ (taken ∷ [])) =
    if eq_ℤ given_in amount && ltb_ℤ (pos 0) given_in && ltb_ℤ taken (pos 0)
    then (if is_output (pos 0 -ℤ taken)
        then answers (pos 0 -ℤ taken)
        else fails "Balancer V2 quote output is invalid")
    else fails "Balancer V2 quote deltas are invalid"
output_of amount [] = fails "Balancer V2 quote deltas are invalid"
output_of amount (delta ∷ []) = fails "Balancer V2 quote deltas are invalid"
output_of amount (given_in ∷ (taken ∷ (other ∷ deltas))) =
    fails "Balancer V2 quote deltas are invalid"

-- quoteBalancerPool; a pool that is not eligible is absent.
unfoldable pub quote_pool : BalancerCalls → Reader → ℕ → ℕ → ℕ → ℕ → ℤ → ℕ → Answered ℤ
quote_pool c reader vault pool_id token_in token_out amount hash = do
  tokens ← given "Balancer V2 pool tokens unavailable" (pool_tokens c reader vault pool_id hash)
  eligible ← if is_eligible pool_id token_in token_out tokens then answers tt else absent
  call ←
      given "Balancer V2 quote encoding failed"
        (c.query_batch_swap_call pool_id token_in token_out amount)
  raw ← readable "Balancer V2 quote call failed" (reader.call vault call hash)
  deltas ← given "Balancer V2 quote result is invalid" (unpack c.query_batch_swap raw)
  output_of amount deltas
