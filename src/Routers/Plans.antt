-- ===== src/Routers/Plans.antt =====
-- routers.go and calldata.go: what a built plan of a direct route calls, checks and asks for.
use mathlib.Core.Path.{subst}
use epeius.Prelude.{
  ℕ, suc, ◌<◌, ◌^◌, String, ◌≡◌, ◌≢◌, refl, sym, ap, ◌∙◌, false, Option, none, some, List, [], ◌∷◌,
  length, Bool-cases, inl, inr, arith,
}
use epeius.Prelude.Int.{ℤ, pos, eq_ℤ}
use epeius.Prelude.Decimal.{set_string, parse_uint_value}
use epeius.Prelude.Partial.{>>=-eq-some}
use epeius.Evm.{Evm, Bytes}
use epeius.Wire.{Selector, fee_pips, tick_spacing, RouteLeg, RouteQuote, PrepareExecutionResponse}
use epeius.Store.{ExecutionPlan, BalanceProbe}
use epeius.Engine.{Admission, admitted, refused}
use epeius.Executor.Probes.{last_token}
use epeius.Path.{v3_path, slipstream_path, fee_word, spacing_word, pack_path}
use epeius.Path.Decode.{
  decode, hops_of, last_leg, v3_path-decode, slipstream_path-decode, signed_word,
}
use epeius.Routers.{
  RouterCalls, RouterEncoder, V3RouterPreparation, uniswap_router02_data, pancake_v3_router_data,
  slipstream_router_data, direct_checks, first_output, call_of, plan_of, build_encoded, build_route,
  build_minimum, build,
}

-- The routers that the registry knows.
pub data Version : Type 0 where
  router02 pancake slipstream : Version

abbrev pub word_of : Version → Option Selector → Option ℕ
word_of router02 = fee_word
word_of pancake = fee_word
word_of slipstream = spacing_word

module _ (c : RouterCalls) (evm : Evm) where
  abbrev pub encoder_of : Version → RouterEncoder
  encoder_of router02 = uniswap_router02_data c evm
  encoder_of pancake = pancake_v3_router_data c evm
  encoder_of slipstream = slipstream_router_data c evm

  -- The bytes are the router's call for this path, recipient, deadline, amount and minimum.
  abbrev pub Calls : Version → Bytes → ℕ → ℕ → Option ℤ → ℤ → Bytes → Type 0
  Calls router02 path recipient deadline amount minimum bytes =
      (inner : Bytes) × (c.exact_input_02 path recipient amount (some minimum) ≡ some inner)
      × (c.multicall_02 deadline (inner ∷ []) ≡ some bytes)
  Calls pancake path recipient deadline amount minimum bytes =
      c.pancake_exact_input path recipient deadline amount (some minimum) ≡ some bytes
  Calls slipstream path recipient deadline amount minimum bytes =
      c.slipstream_exact_input path recipient deadline amount (some minimum) ≡ some bytes

  -- The path's bytes read as the legs: each hop's token with its fee or its tick spacing, and the last
  -- output token, with no byte left.
  abbrev pub ReadsAs : Version → Bytes → RouteLeg → List RouteLeg → Type 0
  ReadsAs v path leg legs = decode (suc (length legs)) path ≡ (
    hops_of evm (word_of v) (leg ∷ legs),
    (evm.hex_to_address (last_leg leg legs).token_out, []),
  )

  no_path :
      (v : Version) (route : RouteQuote) (sender : String) (amount minimum : Option ℤ)
      (deadline : ℕ)
      → route.legs ≡ []
      → encoder_of v route sender amount minimum deadline ≡ none
  unfolding uniswap_router02_data pancake_v3_router_data slipstream_router_data v3_path
      slipstream_path pack_path
  no_path router02 route sender amount minimum deadline e = rw e
  no_path pancake route sender amount minimum deadline e = rw e
  no_path slipstream route sender amount minimum deadline e = rw e

  -- A word of the path is the leg's fee, or the tick spacing in 24 bits of two's complement.
  abbrev pub Words : Version → Type 0
  Words router02 = (fee word : ℕ) → fee_word (some (fee_pips fee)) ≡ some word → word ≡ fee
  Words pancake = (fee word : ℕ) → fee_word (some (fee_pips fee)) ≡ some word → word ≡ fee
  Words slipstream =
      (spacing : ℤ) (word : ℕ)
      → spacing_word (some (tick_spacing spacing)) ≡ some word
      → signed_word word ≡ spacing

  -- The call that a version's encoder packs, for a route that has legs.
  pub record Packed (v : Version) (leg : RouteLeg) (legs : List RouteLeg) (sender : String)
      (amount : Option ℤ) (minimum : ℤ) (deadline : ℕ) (bytes : Bytes) : Type 0 where
    pub path : Bytes
    pub reads_as : ReadsAs v path leg legs
    pub words : Words v
    pub calls : Calls v path (evm.hex_to_address sender) deadline amount minimum bytes

  encoder_of-Packed :
      ((text : String) → evm.hex_to_address text < 2 ^ 160)
      → (v : Version) (route : RouteQuote) (leg : RouteLeg) (legs : List RouteLeg) (sender : String)
        (amount : Option ℤ) (minimum : ℤ) (deadline : ℕ) (bytes : Bytes)
      → route.legs ≡ leg ∷ legs
      → encoder_of v route sender amount (some minimum) deadline ≡ some bytes
      → Packed v leg legs sender amount minimum deadline bytes
  unfolding uniswap_router02_data pancake_v3_router_data slipstream_router_data
  encoder_of-Packed is_address router02 route leg legs sender amount minimum deadline bytes e h =
      let (path, of_path, rest) = >>=-eq-some (v3_path evm route.legs) _ h in
      let (inner, of_inner, outer) =
        >>=-eq-some (c.exact_input_02 path (evm.hex_to_address sender) amount (some minimum)) _
          rest in
      record {
        path = path;
        reads_as =
            (v3_path-decode evm is_address leg legs path (ap (v3_path evm) (sym e) ∙ of_path)).0;
        words =
            (v3_path-decode evm is_address leg legs path (ap (v3_path evm) (sym e) ∙ of_path)).1;
        calls = (inner, of_inner, outer);
      }
  encoder_of-Packed is_address pancake route leg legs sender amount minimum deadline bytes e h =
      let (path, of_path, rest) = >>=-eq-some (v3_path evm route.legs) _ h in
      record {
        path = path;
        reads_as =
            (v3_path-decode evm is_address leg legs path (ap (v3_path evm) (sym e) ∙ of_path)).0;
        words =
            (v3_path-decode evm is_address leg legs path (ap (v3_path evm) (sym e) ∙ of_path)).1;
        calls = rest;
      }
  encoder_of-Packed is_address slipstream route leg legs sender amount minimum deadline bytes e h =
      let (path, of_path, rest) = >>=-eq-some (slipstream_path evm route.legs) _ h in
      record {
        path = path;
        reads_as =
            (slipstream_path-decode evm is_address leg legs path
              (ap (slipstream_path evm) (sym e) ∙ of_path)).0;
        words =
            (slipstream_path-decode evm is_address leg legs path
              (ap (slipstream_path evm) (sym e) ∙ of_path)).1;
        calls = rest;
      }

  -- What the owner has of the token between two legs.
  abbrev pub between : String → RouteLeg → List RouteLeg → List BalanceProbe
  between owner leg [] = []
  between owner leg (next ∷ []) = record { token = leg.token_out; owner = owner } ∷ []
  between owner leg (next ∷ (third ∷ legs)) = []

  abbrev probe_of : String → String → BalanceProbe
  probe_of token owner = record { token = token; owner = owner }

  first_output-between :
      (owner : String) (leg : RouteLeg) (legs : List RouteLeg)
      → first_output leg legs owner ≡ between owner leg legs
  unfolding first_output
  first_output-between owner leg [] = refl
  first_output-between owner leg (next ∷ []) = refl
  first_output-between owner leg (next ∷ (third ∷ legs)) = refl

  last_token-last_leg :
      (leg : RouteLeg) (legs : List RouteLeg) → last_token leg legs ≡ (last_leg leg legs).token_out
  unfolding last_token
  last_token-last_leg leg [] = refl
  last_token-last_leg leg (next ∷ legs) = last_token-last_leg next legs

  -- A plan that moves exactly the route's input from the recipient through the router.
  pub record IsDirectPlan (v : Version) (s : V3RouterPreparation) (p : PrepareExecutionResponse)
      (plan : ExecutionPlan) : Type 0 where
    pub route : RouteQuote
    pub of_route : p.route ≡ some route
    pub leg : RouteLeg
    pub legs : List RouteLeg
    pub of_legs : route.legs ≡ leg ∷ legs
    pub minimum : ℤ
    pub minimum_read : set_string p.amount_out_minimum_atomic ≡ some minimum
    pub has_minimum : minimum ≢ pos 0
    pub bytes : Bytes
    pub packed :
        Packed v leg legs p.recipient
          (set_string p.amount_in_atomic)
          minimum
          (parse_uint_value p.deadline_unix)
          bytes
    pub calldata : plan.transaction.calldata ≡ c.encode_hex bytes
    pub to_router : plan.transaction.to ≡ evm.address_hex (evm.hex_to_address s.target)
    pub from_recipient : plan.transaction.from ≡ p.recipient
    pub no_value : plan.transaction.value_atomic ≡ "0"
    pub on_chain : plan.transaction.chain_id ≡ s.chain_id
    pub spends : plan.spender ≡ plan.transaction.to
    pub no_permission : plan.permission ≡ none
    pub input : plan.checks.input ≡ record { token = leg.token_in; owner = p.recipient }
    pub output :
        plan.checks.output ≡ record { token = (last_leg leg legs).token_out; owner = p.recipient }
    pub preserves : plan.checks.preserve ≡ between plan.transaction.to leg legs
    pub clears_nothing : plan.checks.clear_allowances ≡ []

  -- What `Build` answers: a refusal, or a plan as above. It does not panic.
  abbrev pub Built :
      Version
      → V3RouterPreparation
      → PrepareExecutionResponse
      → Option (Admission ExecutionPlan)
      → Type 0
  Built v s p none = ⊥
  Built v s p (some (refused message)) = Unit
  Built v s p (some (admitted plan)) = IsDirectPlan v s p plan

  module _ (is_address : (text : String) → evm.hex_to_address text < 2 ^ 160) (v : Version)
      (s : V3RouterPreparation) (encodes : s.encode ≡ encoder_of v)
      (p : PrepareExecutionResponse) where
    build_encoded-Built :
        (route : RouteQuote) (legs : List RouteLeg) (minimum : ℤ) (o : Option Bytes)
        → p.route ≡ some route
        → route.legs ≡ legs
        → set_string p.amount_out_minimum_atomic ≡ some minimum
        → minimum ≢ pos 0
        → encoder_of v route p.recipient
            (set_string p.amount_in_atomic)
            (some minimum)
            (parse_uint_value p.deadline_unix)
          ≡ o
        → Built v s p (build_encoded c evm s p route o)
    unfolding build_encoded direct_checks call_of plan_of
    build_encoded-Built route legs minimum none hr hl hm positive h = tt
    build_encoded-Built route [] minimum (some bytes) hr hl hm positive h =
        absurd (none_some (sym (no_path v route p.recipient _ _ _ hl) ∙ h))
      where
        none_some : none ≡ some bytes → ⊥
        none_some e = cc
    build_encoded-Built route (leg ∷ legs) minimum (some bytes) hr hl hm positive h =
        rw hl (record {
          route = route;
          of_route = hr;
          leg = leg;
          legs = legs;
          of_legs = hl;
          minimum = minimum;
          minimum_read = hm;
          has_minimum = positive;
          bytes = bytes;
          packed = encoder_of-Packed is_address v route leg legs p.recipient _ minimum _ bytes hl h;
          calldata = refl;
          to_router = refl;
          from_recipient = refl;
          no_value = refl;
          on_chain = refl;
          spends = refl;
          no_permission = refl;
          input = refl;
          output =
              ap (λ (token : String). probe_of token p.recipient) (last_token-last_leg leg legs);
          preserves = first_output-between _ leg legs;
          clears_nothing = refl;
        })

    build_route-Built :
        (route : RouteQuote) (minimum : ℤ)
        → p.route ≡ some route
        → set_string p.amount_out_minimum_atomic ≡ some minimum
        → minimum ≢ pos 0
        → Built v s p (build_route c evm s p minimum p.route)
    unfolding build_route
    build_route-Built route minimum hr hm positive =
        subst (λ (o : Option RouteQuote). Built v s p (build_route c evm s p minimum o)) (sym hr)
          (subst (λ (o : Option Bytes). Built v s p (build_encoded c evm s p route o))
            (ap
              (λ (encode : RouterEncoder).
                encode route p.recipient (set_string p.amount_in_atomic) (some minimum)
                  (parse_uint_value p.deadline_unix))
              (sym encodes))
            (build_encoded-Built route route.legs minimum _ hr refl hm positive refl))

-- `Build` of a direct route, for each of the registered routers, on terms with a route and a minimum that
-- reads as a number: it does not panic, and a plan that it returns is one call of the deployment's
-- router by the recipient, without value or permission, that packs the amount, the minimum (which is not
-- zero), the deadline, the recipient and a path that reads back as the route's tokens with their fees
-- or tick spacings. Its checks are on the recipient's input and output tokens and, for two legs, on
-- what the router keeps of the token between. Addresses are taken to be below 2^160.
pub build-Built :
    (c : RouterCalls) (evm : Evm)
    → ((text : String) → evm.hex_to_address text < 2 ^ 160)
    → (v : Version) (s : V3RouterPreparation) → s.encode ≡ encoder_of c evm v
    → (p : PrepareExecutionResponse) (route : RouteQuote) (minimum : ℤ) → p.route ≡ some route
    → set_string p.amount_out_minimum_atomic ≡ some minimum
    → Built c evm v s p (build c evm s p)
unfolding build build_minimum
build-Built c evm is_address v s encodes p route minimum hr hm =
    rw hm (elim (Bool-cases (eq_ℤ minimum (pos 0))) [
      | inl zero_minimum ↦ rw zero_minimum tt
      | inr positive ↦ rw positive (
          build_route-Built c evm is_address v s encodes p route minimum hr hm
            (λ e. different e positive))
    ])
  where
    different : minimum ≡ pos 0 → eq_ℤ minimum (pos 0) ≡ false → ⊥
    different e f = ground arith
