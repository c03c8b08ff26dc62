-- ===== src/Options.antt =====
-- services/quote-engine/internal/providers/slipstream/config.go and balancer/config.go, and the checks of a
-- chain in internal/config/config.go: the values that a configuration may hold.
pub mod Spacings
pub mod UniswapV4
pub mod Pools
pub mod Reviewed
use epeius.Prelude.{
  ℕ, zero, suc, ◌+◌, String, Bool, true, false, not, ◌&&◌, ◌||◌, Option, none, some, List, [], ◌∷◌,
  ltb, leb, ◌==◌, str_eq, is_empty, codes, length, if◌then◌else◌,
}
use epeius.Prelude.Int.{ℤ, pos, negsuc, eq_ℤ, ltb_ℤ}
use epeius.Prelude.Dict.{Dict}
use epeius.Config
use epeius.Config.{Value, Values, Fields, Token, Deployment}
use epeius.Evm.{Evm}

-- len(raw) and raw[name]; a table holds a name once.
unfoldable pub field_count : Fields → ℕ
field_count Fields.end = 0
field_count (Fields.field name value rest) = suc (field_count rest)

unfoldable pub field_of : String → Fields → Option Value
field_of name Fields.end = none
field_of name (Fields.field n value rest) =
    let later = field_of name rest in if str_eq n name then some value else later

-- Type assertions.
unfoldable pub array_of : Option Value → Option Values
array_of none = none
array_of (some (Value.array values)) = some values
array_of (some (Value.text s)) = none
array_of (some (Value.integer n)) = none
array_of (some (Value.table fields)) = none
array_of (some Value.other) = none

unfoldable pub integer_of : Value → Option ℤ
integer_of (Value.integer n) = some n
integer_of (Value.text s) = none
integer_of (Value.array values) = none
integer_of (Value.table fields) = none
integer_of Value.other = none

unfoldable pub text_of : Option Value → Option String
text_of none = none
text_of (some (Value.text s)) = some s
text_of (some (Value.integer n)) = none
text_of (some (Value.array values)) = none
text_of (some (Value.table fields)) = none
text_of (some Value.other) = none

unfoldable pub in_seen : ℤ → List ℤ → Bool
in_seen n [] = false
in_seen n (m ∷ seen) = let rest = in_seen n seen in if eq_ℤ n m then true else rest

-- Between MinTickSpacing and MaxTickSpacing.
unfoldable pub is_int24 : ℤ → Bool
is_int24 (pos n) = ltb n 8388608
is_int24 (negsuc n) = ltb n 8388608

unfoldable pub add_spacing : Option ℤ → List ℤ → (ℤ → Option (List ℤ)) → Option (List ℤ)
add_spacing none seen rest = none
add_spacing (some n) seen rest = if is_int24 n && not (in_seen n seen) then rest n else none

unfoldable pub cons_spacing : ℤ → Option (List ℤ) → Option (List ℤ)
cons_spacing n none = none
cons_spacing n (some spacings) = some (n ∷ spacings)

-- The loop, with the spacings that were seen.
unfoldable pub read_spacings : List ℤ → Values → Option (List ℤ)
read_spacings seen Values.nil = some []
read_spacings seen (Values.cons value values) =
    add_spacing (integer_of value) seen (λ n. cons_spacing n (read_spacings (n ∷ seen) values))

unfoldable pub nonempty_spacings : Option Values → Option (List ℤ)
nonempty_spacings none = none
nonempty_spacings (some Values.nil) = none
nonempty_spacings (some (Values.cons value values)) = read_spacings [] (Values.cons value values)

-- slipstream.ParseOptions: nothing where it is an error.
unfoldable pub parse_slipstream : Fields → Option (List ℤ)
parse_slipstream raw =
    if field_count raw == 1
    then nonempty_spacings (array_of (field_of "tick_spacings" raw))
    else none

-- `^0x[0-9a-f]{64}$`
unfoldable pub all_hex : List ℕ → Bool
all_hex [] = true
all_hex (c ∷ cs) = let rest = all_hex cs in (leb 48 c && leb c 57 || leb 97 c && leb c 102) && rest

unfoldable pub after_0x : List ℕ → Bool
after_0x [] = false
after_0x (a ∷ []) = false
after_0x (a ∷ b ∷ cs) = a == 48 && b == 120 && length cs == 64 && all_hex cs

unfoldable pub is_pool_id : String → Bool
is_pool_id id = after_0x (codes id)

unfoldable pub id_seen : String → List String → Bool
id_seen id [] = false
id_seen id (x ∷ seen) = let rest = id_seen id seen in if str_eq id x then true else rest

unfoldable pub cons_pool : String → Option (List String) → Option (List String)
cons_pool id none = none
cons_pool id (some ids) = some (id ∷ ids)

unfoldable pub add_pool :
    Option String → List String → (String → Option (List String)) → Option (List String)
add_pool none seen rest = none
add_pool (some id) seen rest = if is_pool_id id && not (id_seen id seen) then rest id else none

unfoldable pub read_pools : List String → Values → Option (List String)
read_pools seen Values.nil = some []
read_pools seen (Values.cons value values) =
    add_pool (text_of (some value)) seen (λ id. cons_pool id (read_pools (id ∷ seen) values))

unfoldable pub with_vault : String → Option (List String) → Option (String × List String)
with_vault vault none = none
with_vault vault (some pools) = some (vault, pools)

unfoldable pub balancer_options :
    Evm → Option String → Option Values → Option (String × List String)
balancer_options evm none values = none
balancer_options evm (some vault) none = none
balancer_options evm (some vault) (some Values.nil) = none
balancer_options evm (some vault) (some (Values.cons value values)) =
    if evm.is_hex_address vault && not (evm.hex_to_address vault == 0)
    then with_vault (evm.address_hex (evm.hex_to_address vault))
        (read_pools [] (Values.cons value values))
    else none

-- balancer.ParseOptions: the vault and the pools.
unfoldable pub parse_balancer : Evm → Fields → Option (String × List String)
parse_balancer evm raw =
    if field_count raw == 2
    then balancer_options evm (text_of (field_of "vault" raw)) (array_of (field_of "pools" raw))
    else none

-- `^[a-z][a-z0-9-]*$` and `^[A-Za-z_][A-Za-z0-9_]*$`
abbrev is_lower : ℕ → Bool
is_lower c = leb 97 c && leb c 122

abbrev is_number : ℕ → Bool
is_number c = leb 48 c && leb c 57

unfoldable pub all_of : (ℕ → Bool) → List ℕ → Bool
all_of test [] = true
all_of test (c ∷ cs) = let rest = all_of test cs in test c && rest

unfoldable pub starts_and_all : (ℕ → Bool) → (ℕ → Bool) → List ℕ → Bool
starts_and_all start test [] = false
starts_and_all start test (c ∷ cs) = start c && all_of test cs

unfoldable pub is_chain_key : String → Bool
is_chain_key key = starts_and_all is_lower (λ c. is_lower c || is_number c || c == 45) (codes key)

abbrev is_env_letter : ℕ → Bool
is_env_letter c = leb 65 c && leb c 90 || is_lower c || c == 95

unfoldable pub is_env_name : String → Bool
is_env_name name = starts_and_all is_env_letter (λ c. is_env_letter c || is_number c) (codes name)

unfoldable pub address_seen : ℕ → List ℕ → Bool
address_seen a [] = false
address_seen a (b ∷ seen) = let rest = address_seen a seen in if a == b then true else rest

unfoldable pub valid_tokens : Evm → List ℕ → List Token → Bool
valid_tokens evm seen [] = true
valid_tokens evm seen (token ∷ tokens) =
    let a = evm.hex_to_address token.address in
    let rest = valid_tokens evm (a ∷ seen) tokens in
    evm.is_hex_address token.address
    && not (a == 0)
    && not (address_seen a seen)
    && not (is_empty token.symbol)
    && leb token.decimals 255
    && rest

unfoldable pub valid_ids : Dict Deployment → Bool
valid_ids [] = true
valid_ids ((id, d) ∷ rest) = let more = valid_ids rest in is_chain_key id && more

-- One round of the loop over the chains of `validate`.
unfoldable pub valid_chain : Evm → String → Config.Chain → Bool
valid_chain evm key chain =
    is_chain_key key
    && ltb_ℤ (pos 0) chain.chain_id
    && ltb_ℤ chain.chain_id (pos 9007199254740992)
    && not
        (chain.execution_enabled && (ltb (length chain.tokens) 2 || length chain.deployments == 0))
    && valid_tokens evm [] chain.tokens
    && valid_ids chain.deployments
    && is_env_name chain.rpc_url_env
