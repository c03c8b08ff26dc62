-- ===== src/Quoting/Admitted.antt =====
-- handler.go, `GetQuote`: what a request satisfies that is answered with a quote.
use epeius.Prelude.{
  ℕ, ◌<◌, ◌≤◌, String, ◌≡◌, ◌≢◌, refl, sym, Bool, true, false, not, ◌&&◌, Option, none, some, arith,
  ltb→lt, leb→le, ◌==◌, str_eq, length, codes,
}
use mathlib.Core.Path.{subst}
use epeius.Prelude.Int.{pos_part}
use epeius.Prelude.Dict.{lookup}
use epeius.Prelude.Decimal.{set_string, positive_integer}
use epeius.Evm.{Evm, valid_address}
use epeius.Wire.{QuoteRequest, QuoteFinal}
use epeius.Store.{Store}
use epeius.Engine.{Handler, Chain, Client, Code, Snapshot}
use epeius.Quoting.Checks.{
  Checked, passes, fails, ◌>>=◌, require, required, find_requested_chain, check_pair, check_amount,
  is_uint256, is_allowed, snapshot_read, caller_goes_on, QuoteWorld,
}
use epeius.Quoting.{
  QuoteAnswer, quotes, refuses, panics, waits, get_quote, answer_checked, check_quote_request,
}

-- What the value that a check lets pass satisfies.
pub data Passes {ℓ κ} {A : Type ℓ} (P : A → Type κ) : Checked A → Type (ℓ ⊔ κ) where
  lets : {a : A} → P a → Passes P (passes a)
  stops : {code : Code} {message : String} → Passes P (fails code message)

module _ {ℓ κ μ ν} {A : Type ℓ} {B : Type κ} {P : A → Type μ} {Q : B → Type ν} where
  bind-Passes :
      (m : Checked A) (f : A → Checked B)
      → Passes P m
      → ((a : A) → P a → Passes Q (f a))
      → Passes Q (m >>= f)
  unfolding ◌>>=◌
  bind-Passes m f (Passes.lets {a = a} p) h = h a p
  bind-Passes m f Passes.stops h = Passes.stops

abbrev AtValue {ℓ κ} : {A : Type ℓ} → (A → Type κ) → Checked A → Type κ
AtValue P (passes a) = P a
AtValue P (fails code message) = Unit

abbrev IsPass {ℓ} : {A : Type ℓ} → Checked A → Type 0
IsPass (passes a) = Unit
IsPass (fails code message) = ⊥

weaken {ℓ κ μ} :
    {A : Type ℓ} {P : A → Type κ} {Q : A → Type μ} (m : Checked A)
    → Passes P m
    → ((a : A) → P a → Q a)
    → Passes Q m
weaken m (Passes.lets {a = a} p) h = Passes.lets (h a p)
weaken m Passes.stops h = Passes.stops

Passes-at {ℓ κ} :
    {A : Type ℓ} {P : A → Type κ} (m : Checked A) (a : A) → Passes P m → m ≡ passes a → P a
Passes-at {P = P} m a (Passes.lets {a = b} p) e = subst (AtValue P) e p
Passes-at m a Passes.stops e = elim (subst IsPass (sym e) tt) [ ]

require-Passes :
    (b : Bool) (code : Code) (message : String)
    → Passes (λ (u : Unit {0}). b ≡ true) (require b code message)
unfolding require
require-Passes true code message = Passes.lets refl
require-Passes false code message = Passes.stops

required-Passes {ℓ} :
    {A : Type ℓ} (o : Option A) (code : Code) (message : String)
    → Passes (λ a. o ≡ some a) (required o code message)
unfolding required
required-Passes (some a) code message = Passes.lets refl
required-Passes none code message = Passes.stops

anything {ℓ} : {A : Type ℓ} (m : Checked A) → Passes (λ (a : A). Unit {0}) m
anything (passes a) = Passes.lets tt
anything (fails code message) = Passes.stops

-- The request names a configured chain that can be reached and has deployments.
pub record IsForChain (h : Handler) (r : QuoteRequest) (found : Chain × Client) : Type 0 where
  pub has_workers : 0 < pos_part h.quote_concurrency
  pub is_configured : lookup r.chain h.chains ≡ some found.0
  pub has_id : str_eq r.chain_id found.0.chain_id ≡ true
  pub is_reachable : found.0.client ≡ some found.1
  pub has_deployments : 0 < length found.0.config.deployments

pub record IsPair (evm : Evm) (chain : Chain) (r : QuoteRequest) : Type 0 where
  pub has_addresses : valid_address evm r.token_in && valid_address evm r.token_out ≡ true
  pub is_distinct : evm.hex_to_address r.token_in ≢ evm.hex_to_address r.token_out
  pub allows_in : is_allowed evm chain.config.tokens (evm.hex_to_address r.token_in) ≡ true
  pub allows_out : is_allowed evm chain.config.tokens (evm.hex_to_address r.token_out) ≡ true

pub record IsAmount (r : QuoteRequest) : Type 0 where
  pub is_short : length (codes r.amount_in_atomic) ≤ 78
  pub is_positive : positive_integer r.amount_in_atomic ≡ true
  pub is_word : is_uint256 (set_string r.amount_in_atomic) ≡ true
  pub has_budget : r.search_budget_ms ≢ 0

find_requested_chain-Passes :
    (h : Handler) (r : QuoteRequest) → Passes (IsForChain h r) (find_requested_chain h r)
unfolding find_requested_chain
find_requested_chain-Passes h r = bind-Passes _ _ (require-Passes _ _ _) (λ u workers.
    bind-Passes _ _ (required-Passes _ _ _) (λ chain found.
      bind-Passes _ _ (require-Passes _ _ _) (λ v id.
        bind-Passes _ _ (required-Passes _ _ _) (λ client reachable.
          bind-Passes _ _ (require-Passes _ _ _) (λ x deployments. Passes.lets (record {
            has_workers = ltb→lt _ _ workers;
            is_configured = found;
            has_id = id;
            is_reachable = reachable;
            has_deployments = ltb→lt _ _ deployments;
          }))))))

split_and : (a b : Bool) → a && b ≡ true → (a ≡ true) × (b ≡ true)
split_and a b h = ground arith

apart_of : (a b : ℕ) → not (a == b) ≡ true → a ≢ b
apart_of a b h e = ground arith

check_pair-Passes :
    (evm : Evm) (chain : Chain) (r : QuoteRequest)
    → Passes (λ (u : Unit {0}). IsPair evm chain r) (check_pair evm chain r)
unfolding check_pair
check_pair-Passes evm chain r = bind-Passes _ _ (require-Passes _ _ _) (λ u addresses.
    weaken _ (require-Passes _ _ _) (λ v tokens.
      let (both, allows_out) = split_and _ _ tokens in
      let (distinct, allows_in) = split_and _ _ both in
      record {
        has_addresses = addresses;
        is_distinct = apart_of _ _ distinct;
        allows_in = allows_in;
        allows_out = allows_out;
      }))

check_amount-Passes : (r : QuoteRequest) → Passes (λ (u : Unit {0}). IsAmount r) (check_amount r)
unfolding check_amount
check_amount-Passes r = bind-Passes _ _ (require-Passes _ _ _) (λ u digits.
    bind-Passes _ _ (require-Passes _ _ _) (λ v word. weaken _ (require-Passes _ _ _) (λ x budget.
      let (short, positive) = split_and _ _ digits in
      record {
        is_short = leb→le _ _ short;
        is_positive = positive;
        is_word = word;
        has_budget = apart_of _ _ budget;
      })))

-- What `GetQuote` requires of a request and of the handler's configuration.
pub record IsAdmitted (evm : Evm) (h : Handler) (r : QuoteRequest) (chain : Chain) : Type 0 where
  pub client : Client
  pub for_chain : IsForChain h r (chain, client)
  pub pair : IsPair evm chain r
  pub amount : IsAmount r

snapshot_read-Passes :
    (w : QuoteWorld) (o : Option Snapshot)
    → Passes (λ snapshot. o ≡ some snapshot) (snapshot_read w o)
unfolding snapshot_read
snapshot_read-Passes w (some snapshot) = Passes.lets refl
snapshot_read-Passes w none =
    bind-Passes _ _ (anything (caller_goes_on w.caller_after_snapshot))
      (λ u c. bind-Passes _ _ (anything (require (not w.budget_spent) _ _)) (λ v d. Passes.stops))

check_quote_request-Passes :
    (evm : Evm) (h : Handler) (w : QuoteWorld) (r : QuoteRequest)
    → Passes
        (λ (admitted : Chain × Snapshot).
          IsAdmitted evm h r admitted.0 × (w.snapshot ≡ some admitted.1))
        (check_quote_request evm h w r)
unfolding check_quote_request
check_quote_request-Passes evm h w r =
    bind-Passes _ _ (find_requested_chain-Passes h r) (λ found chain.
      bind-Passes _ _ (check_pair-Passes evm found.0 r) (λ u pair.
        bind-Passes _ _ (check_amount-Passes r) (λ v amount.
          bind-Passes _ _ (snapshot_read-Passes w w.snapshot) (λ snapshot read.
            Passes.lets (
              record { client = found.1; for_chain = chain; pair = pair; amount = amount },
              read,
            )))))

abbrev IsQuotes : QuoteAnswer → Type 0
IsQuotes (quotes final s) = Unit
IsQuotes (refuses code message) = ⊥
IsQuotes panics = ⊥
IsQuotes waits = ⊥

answered-passes :
    (h : Handler) (w : QuoteWorld) (r : QuoteRequest) (s : Store) (m : Checked (Chain × Snapshot))
    → IsQuotes (answer_checked h w r s m)
    → (admitted : Chain × Snapshot) × (m ≡ passes admitted)
unfolding answer_checked
answered-passes h w r s (passes admitted) q = (admitted, refl)
answered-passes h w r s (fails code message) q = elim q [ ]

-- `GetQuote` answers with a quote only if the request names a configured chain by its key and its ID
-- that has a client and a deployment, its tokens are valid addresses of two different configured
-- tokens, its amount is a positive decimal of at most 78 digits below 2^256, its search budget is not
-- zero, at least one worker is configured, and the chain's client answered with a snapshot.
pub get_quote_admits :
    (evm : Evm) (h : Handler) (w : QuoteWorld) (r : QuoteRequest) (s after : Store)
    (final : QuoteFinal)
    → get_quote evm h w r s ≡ quotes final after
    → (admitted : Chain × Snapshot) × IsAdmitted evm h r admitted.0 × (w.snapshot ≡ some admitted.1)
unfolding get_quote
get_quote_admits evm h w r s after final e =
    let (admitted, checked) =
      answered-passes h w r s (check_quote_request evm h w r) (subst IsQuotes (sym e) tt) in
    let (allowed, read) =
      Passes-at (check_quote_request evm h w r) admitted (check_quote_request-Passes evm h w r)
        checked in
    (admitted, allowed, read)
