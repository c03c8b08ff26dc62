-- ===== src/Execution/Ready.antt =====
-- execution.go: what stands behind an answer of `PrepareExecution` that is ready.
use mathlib.Core.Path.{subst}
use epeius.Prelude.{
  ℕ, ◌≤◌, ◌<◌, ◌≡◌, ◌≢◌, ◌⊎◌, inl, inr, refl, sym, ap, ◌∙◌, String, Bool, true, false, some, not,
  ◌&&◌, ◌||◌, ◌==◌, ltb, leb, length, is_empty, str_eq, Bool-cases, arith,
}
use epeius.Evm.{Evm, Contracts, valid_address}
use epeius.Wire.{PrepareExecutionRequest, PrepareExecutionResponse}
use epeius.Engine.{Handler, Chain, Client, Snapshot}
use epeius.Store.{Store, Preparation}
use epeius.Execution.Environment.{World}
use epeius.Execution.Admit.{Source, again, fresh, same, valid_request, chain_key}
use epeius.Execution.Spec.{Holds, Holds-bind, Holds-unless, Spec-bind, Spec-invalid, Spec-result}
use epeius.Execution.Stages.{Invariant, requote-ne-ready}
use epeius.Execution.Evidence.{Checked, check_preparation-Spec}
use epeius.Execution.Terms.{
  Enabled, Origin, Loaded, load-Loaded, find_chain-Spec, read_block-Spec, terms-Spec,
}
use epeius.Execution.{prepare_execution, context_of}

-- A second request names a preparation and nothing else. A first one names a quote, and either a route or
-- one or two allocations, a sender that is not zero, and a slippage below 100 %.
abbrev pub IsValid : Evm → PrepareExecutionRequest → Type 0
IsValid evm r =
    (is_empty r.preparation_id ≡ false)
      × (is_empty r.quote_id ≡ true)
      × (is_empty r.route_id ≡ true)
      × (is_empty r.sender ≡ true)
      × (r.slippage_bps ≡ 0)
      × (length r.allocations ≡ 0)
    ⊎ (is_empty r.preparation_id ≡ true)
      × (is_empty r.quote_id ≡ false)
      × ((is_empty r.route_id ≡ false) × (length r.allocations ≡ 0)
          ⊎ (is_empty r.route_id ≡ true) × (1 ≤ length r.allocations))
      × (length r.allocations ≤ 2)
      × (valid_address evm r.sender ≡ true)
      × (evm.hex_to_address r.sender ≢ 0)
      × (r.slippage_bps < 10000)

-- Five tests at once, and six.
all_of :
    (a b c : Bool) (m n : ℕ)
    → a && b && c && m == 0 && n == 0 ≡ true
    → (a ≡ true) × (b ≡ true) × (c ≡ true) × (m ≡ 0) × (n ≡ 0)
all_of a b c m n h = ground arith

none_of :
    (a b c d : Bool) (m n : ℕ)
    → not (a || b || ltb 2 m || not c || d || leb 10000 n) ≡ true
    → (a ≡ false) × (b ≡ false) × (m ≤ 2) × (c ≡ true) × (d ≡ false) × (n < 10000)
none_of a b c d m n h = ground arith

one_given :
    (b : Bool) (n : ℕ) → same b (n == 0) ≡ false → (b ≡ false) × (n ≡ 0) ⊎ (b ≡ true) × (1 ≤ n)
one_given true n h = inr (refl, ground arith)
one_given false n h = inl (refl, ground arith)

nonzero : (n : ℕ) → (n == 0) ≡ false → n ≢ 0
nonzero n f e = ground arith

valid_request-IsValid :
    (evm : Evm) (r : PrepareExecutionRequest) → valid_request evm r ≡ true → IsValid evm r
unfolding valid_request
valid_request-IsValid evm r h = elim (Bool-cases (is_empty r.preparation_id)) [
  | inr again_named ↦
      let (quote, route, sender, slippage, allocations) =
        all_of _ _ _ r.slippage_bps (length r.allocations) (rw again_named at h) in
      inl (again_named, quote, route, sender, slippage, allocations)
  | inl first ↦
      let (quote, given, two, valid, zero, slippage) =
        none_of (is_empty r.quote_id) _ (valid_address evm r.sender) _ (length r.allocations)
          r.slippage_bps (rw first at h) in
      inr (
        first,
        quote,
        one_given _ (length r.allocations) given,
        two,
        valid,
        nonzero _ zero,
        slippage,
      )
]

abbrev pub chain_of : Source → String
chain_of (again stored) = stored.chain
chain_of (fresh saved) = saved.request.chain

abbrev pub is_again : Source → Bool
is_again (again stored) = true
is_again (fresh saved) = false

-- No approval was asked for a preparation that is found.
abbrev pub Unasked : Source → Type 0
Unasked (again stored) = stored.approval ≡ false
Unasked (fresh saved) = Unit

chain_key-chain_of : (source : Source) → chain_key source ≡ chain_of source
unfolding chain_key
chain_key-chain_of (again stored) = refl
chain_key-chain_of (fresh saved) = refl

module _ (r : PrepareExecutionRequest) (chain : Chain) (client : Client) (snapshot : Snapshot) where
  context_of-snapshot :
      (source : Source) → (context_of r chain client snapshot source).snapshot ≡ snapshot
  context_of-snapshot (again stored) = refl
  context_of-snapshot (fresh saved) = refl

  context_of-reader :
      (source : Source) → (context_of r chain client snapshot source).reader ≡ client.reader
  context_of-reader (again stored) = refl
  context_of-reader (fresh saved) = refl

  context_of-recheck :
      (source : Source) → (context_of r chain client snapshot source).recheck ≡ is_again source
  context_of-recheck (again stored) = refl
  context_of-recheck (fresh saved) = refl

  checked-Unasked :
      (evm : Evm) (w : World) (source : Source) (p : Preparation)
      → Origin evm w r chain snapshot source p
      → ((context_of r chain client snapshot source).recheck ≡ true → false ≡ p.approval)
      → Unasked source
  checked-Unasked evm w (again stored) p origin unapproved =
      ap (λ (x : Preparation). x.approval) (sym origin) ∙ sym (unapproved refl)
  checked-Unasked evm w (fresh saved) p origin unapproved = tt

-- All that was found before the answer: the request, the chain, the block, the terms and the checks.
pub record Evidence (evm : Evm) (abi : Contracts) (h : Handler) (w : World)
    (r : PrepareExecutionRequest) (s : Store) (Noted : String → Bool → Type 0)
    (response : PrepareExecutionResponse) : Type 0 where
  pub source : Source
  pub chain : Chain
  pub client : Client
  pub snapshot : Snapshot
  pub p : Preparation
  pub loaded : Loaded w r s source
  pub valid : IsValid evm r
  pub enabled : Enabled h (chain_of source) chain client
  pub block : w.snapshot ≡ some snapshot
  pub same_chain :
      not (snapshot.timestamp == 0 || not (str_eq snapshot.chain_id chain.chain_id)) ≡ true
  pub origin : Origin evm w r chain snapshot source p
  pub snapshot_used : (context_of r chain client snapshot source).snapshot ≡ snapshot
  pub reader_used : (context_of r chain client snapshot source).reader ≡ client.reader
  pub rechecks : (context_of r chain client snapshot source).recheck ≡ is_again source
  pub unasked : Unasked source
  pub checked : Checked evm abi w (context_of r chain client snapshot source) Noted p response

module _ (evm : Evm) (abi : Contracts) (h : Handler) (w : World) (r : PrepareExecutionRequest)
    (I : Store → Type 0) (Noted : String → Bool → Type 0)
    (inv : Invariant w r.quote_id I Noted) where
  context-Invariant :
      (chain : Chain) (client : Client) (snapshot : Snapshot) (source : Source)
      → Invariant w (context_of r chain client snapshot source).quote_id I Noted
  context-Invariant chain client snapshot (again p) = inv
  context-Invariant chain client snapshot (fresh saved) = inv

  pub prepare_execution-Holds :
      (s : Store)
      → I s
      → Holds I (Evidence evm abi h w r s Noted) (λ _. ⊥) (prepare_execution evm abi h w r s)
  unfolding prepare_execution
  prepare_execution-Holds s i =
      let R = Evidence evm abi h w r s Noted in
      Holds-unless I R _ _ _ _ s i (Spec-invalid I R) λ valid.
        Holds-unless I R _ _ _ _ s i (Spec-result I R _ _ requote-ne-ready) λ _.
          Holds-bind I R {F = Loaded w r s} _ _ s (load-Loaded evm h w r I Noted inv R s i)
            λ source loaded.
              Spec-bind I R _ _ (find_chain-Spec evm h w r I Noted inv R source) λ found enabled.
                Spec-bind I R _ _ (read_block-Spec evm h w r I Noted inv R found.0)
                  λ snapshot usable.
                    Spec-bind I R _ _ (terms-Spec evm h w r I Noted inv R found.0 snapshot source)
                      λ p origin.
                        check_preparation-Spec evm abi w
                          (context_of r found.0 found.1 snapshot source) I Noted
                          (context-Invariant found.0 found.1 snapshot source) R p
                          λ response checked. record {
                            source = source;
                            loaded = loaded;
                            chain = found.0;
                            client = found.1;
                            snapshot = snapshot;
                            p = p;
                            valid = valid_request-IsValid evm r valid;
                            enabled =
                                subst (λ (key : String). Enabled h key found.0 found.1)
                                  (chain_key-chain_of source) enabled;
                            block = usable.0;
                            same_chain = usable.1;
                            origin = origin;
                            snapshot_used = context_of-snapshot r found.0 found.1 snapshot source;
                            reader_used = context_of-reader r found.0 found.1 snapshot source;
                            rechecks = context_of-recheck r found.0 found.1 snapshot source;
                            unasked =
                                checked-Unasked r found.0 found.1 snapshot evm w source p origin
                                  checked.unapproved.1;
                            checked = checked;
                          }
