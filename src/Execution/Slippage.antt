-- ===== src/Execution/Slippage.antt =====
-- execution.go, `buildPreparation`: the minimum output and the deadline that a preparation freezes.
use epeius.Prelude.{
  ℕ, ◌+◌, ◌-◌, ◌*◌, ◌/◌, ◌≤◌, ◌<◌, ◌%◌, ◌^◌, ◌≡◌, refl, sym, true, is_empty, inl, inr, ◌∙◌, ap,
  String, Bool, arith,
}
use epeius.Prelude.Int.{pos, scale, div_ℤ}
use epeius.Prelude.Decimal.{
  set_string, parse_uint_value, set_string-int_text, parse_uint_value-nat_text, int_text, nat_text,
}
use mathlib.Core.Path.{subst}
use native.Mathlib.Nat.{mul-le-mul_left}
use epeius.Evm.{Evm, Contracts}
use epeius.Wire.{PrepareExecutionRequest, PrepareExecutionResponse, ready}
use epeius.Engine.{Handler}
use epeius.Store.{Store, StoredQuote}
use epeius.Execution.Outcome.{answers}
use epeius.Execution.Environment.{World}
use epeius.Execution.Admit.{fresh, minimum_output, kept_bps, deadline_of, terms_response}
use epeius.Execution.Terms.{Built, Origin, Loaded}
use epeius.Execution.Ready.{Evidence, IsValid}
use epeius.Prelude.Partial.{true-neq-false}
use epeius.Execution.Consent.{FindsNone, from_quote, prepare_execution-Evidence}
use epeius.Execution.{prepare_execution}

floor_bounds :
    (x y : ℕ)
    → x ≤ y * 10000
    → (x / 10000 * 10000 ≤ x) × (x < (x / 10000 + 1) * 10000) × (x / 10000 ≤ y)
floor_bounds x y h = (omega arith, omega arith, omega arith)

-- For a slippage below ten thousand, the minimum is the greatest number whose ten thousandfold does not pass the output times what the
-- slippage leaves of ten thousand; so it never passes the output.
pub minimum_output_bounds :
    (output slippage_bps : ℕ)
    → slippage_bps < 10000
    → (m : ℕ) × (minimum_output (pos output) slippage_bps ≡ pos m)
      × (m * 10000 ≤ output * (10000 - slippage_bps))
      × (output * (10000 - slippage_bps) < (m + 1) * 10000)
      × (m ≤ output)
unfolding minimum_output scale div_ℤ
minimum_output_bounds output slippage_bps h = (
  output * kept_bps slippage_bps / 10000,
  refl,
  rw kept bounds.0,
  rw kept bounds.1,
  rw kept bounds.2,
)
  where
    kept : kept_bps slippage_bps ≡ 10000 - slippage_bps
    kept = omega arith

    share : output * (10000 - slippage_bps) ≤ output * 10000
    share = mul-le-mul_left output (omega arith)

    bounds :
        (output * (10000 - slippage_bps) / 10000 * 10000 ≤ output * (10000 - slippage_bps))
        × (output * (10000 - slippage_bps) < (output * (10000 - slippage_bps) / 10000 + 1) * 10000)
        × (output * (10000 - slippage_bps) / 10000 ≤ output)
    bounds = floor_bounds (output * (10000 - slippage_bps)) output share

kept_bps-eq :
    (slippage_bps : ℕ) → slippage_bps < 10000 → kept_bps slippage_bps ≡ 10000 - slippage_bps
kept_bps-eq slippage_bps h = omega arith

module _ (evm : Evm) (abi : Contracts) (h : Handler) (w : World) (r : PrepareExecutionRequest)
    (s : Store) (Noted : String → Bool → Type 0) (response : PrepareExecutionResponse)
    (e : Evidence evm abi h w r s Noted response) (saved : StoredQuote)
    (same : e.source ≡ fresh saved) where
  built_here : Built evm w saved r e.chain e.snapshot e.p
  built_here =
      let origin : Origin evm w r e.chain e.snapshot (fresh saved) e.p =
        subst (λ source. Origin evm w r e.chain e.snapshot source e.p) same e.origin in
      origin.1

  slippage_below : r.slippage_bps < 10000
  slippage_below =
      let loaded : Loaded w r s (fresh saved) =
        subst (λ source. Loaded w r s source) same e.loaded in
      of_first loaded.2 e.valid
    where
      of_first : is_empty r.preparation_id ≡ true → IsValid evm r → r.slippage_bps < 10000
      of_first first (inl (named, q, t, s, z, n)) = absurd (true-neq-false (sym first ∙ named))
      of_first first (inr (p, q, g, l, a, z, below)) = below

  minimum_text :
      e.p.response.amount_out_minimum_atomic
      ≡ int_text (minimum_output built_here.output r.slippage_bps)
  unfolding terms_response
  minimum_text =
      ap (λ (x : PrepareExecutionResponse). x.amount_out_minimum_atomic) built_here.response

  minimum_here : e.checked.proof.minimum ≡ minimum_output built_here.output r.slippage_bps
  minimum_here = cc (
    e.checked.proof.minimum_read,
    ap set_string minimum_text,
    set_string-int_text (minimum_output built_here.output r.slippage_bps),
  )

  deadline_text : e.p.response.deadline_unix ≡ nat_text (deadline_of e.snapshot.timestamp)
  unfolding terms_response
  deadline_text = ap (λ (x : PrepareExecutionResponse). x.deadline_unix) built_here.response

  deadline_here : parse_uint_value e.p.response.deadline_unix ≡ deadline_of e.snapshot.timestamp
  unfolding deadline_of
  deadline_here = ap parse_uint_value deadline_text ∙ parse_uint_value-nat_text _ (omega arith)

  -- What a preparation made from a quote comes to, where its answer is ready: the plan is the one of the
  -- chain's strategy for the quote's pair and amount, the request's sender and what it selected, the
  -- simulation was held to the minimum that the slippage leaves of the selected output, and the deadline is 120 seconds after the block.
  pub record Terms : Type 0 where
    pub terms : Built evm w saved r e.chain e.snapshot e.p
    pub minimum :
        e.checked.proof.minimum ≡ div_ℤ (scale terms.output (10000 - r.slippage_bps)) 10000
    pub amount : e.p.response.amount_in_atomic ≡ saved.request.amount_in_atomic
    pub token_in : e.p.response.token_in ≡ saved.request.token_in
    pub token_out : e.p.response.token_out ≡ saved.request.token_out
    pub recipient : e.p.response.recipient ≡ evm.address_hex (evm.hex_to_address r.sender)
    pub route : e.p.response.route ≡ terms.selection.route
    pub allocations : e.p.response.allocations ≡ terms.selection.allocations
    pub deadline :
        parse_uint_value e.p.response.deadline_unix ≡ (e.snapshot.timestamp + 120) % 2 ^ 64

  terms_here : Terms
  unfolding deadline_of terms_response minimum_output
  terms_here =
      let of = built_here.response in
      record {
        terms = built_here;
        minimum =
            minimum_here
            ∙ ap (λ kept. div_ℤ (scale built_here.output kept) 10000)
                (kept_bps-eq r.slippage_bps slippage_below);
        amount = ap (λ (x : PrepareExecutionResponse). x.amount_in_atomic) of;
        token_in = ap (λ (x : PrepareExecutionResponse). x.token_in) of;
        token_out = ap (λ (x : PrepareExecutionResponse). x.token_out) of;
        recipient = ap (λ (x : PrepareExecutionResponse). x.recipient) of;
        route = ap (λ (x : PrepareExecutionResponse). x.route) of;
        allocations = ap (λ (x : PrepareExecutionResponse). x.allocations) of;
        deadline = deadline_here;
      }

-- A ready answer to a request for which no stored preparation is found: it was prepared from the quote
-- that was found; the plan is the one that the chain's strategy, for allocations or of the named
-- route's deployment, built for the terms: the quote's pair and amount, the request's sender as the
-- recipient, and the route and the allocations that the strategy selected. The simulation of that plan
-- was held to the output of the selection less the slippage, of ten thousandths and rounded down, and
-- the transaction's deadline is 120 seconds (as a uint64) after the block that was simulated.
pub prepare_execution_terms :
    (evm : Evm) (abi : Contracts) (h : Handler) (w : World) (r : PrepareExecutionRequest)
    (s : Store) (response : PrepareExecutionResponse)
    → FindsNone w r s
    → (prepare_execution evm abi h w r s).0 ≡ answers response
    → response.status ≡ ready
    → (e : Evidence evm abi h w r s (λ _ _. Unit) response) × (saved : StoredQuote)
      × (same : e.source ≡ fresh saved) × Terms evm abi h w r s _ response e saved same
prepare_execution_terms evm abi h w r s response finds_none answered is_ready =
    let e = prepare_execution-Evidence evm abi h w r s response answered is_ready in
    let (saved, same) = from_quote w r s finds_none e.source e.loaded in
    (e, saved, same, terms_here evm abi h w r s _ response e saved same)
