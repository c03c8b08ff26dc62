-- ===== src/Balancer/Outputs.antt =====
-- balancer_v2.go, `quoteBalancerPool`: what a quoted output stands on.
use mathlib.Core.Path.{subst}
use epeius.Prelude.{
  ℕ, ◌<◌, ◌^◌, ◌≡◌, ◌≢◌, sym, ap, ◌∙◌, true, not, ◌&&◌, some, List, [], ◌∷◌, ◌==◌, Bool-cases,
  split_and, inl, inr, arith, if◌then◌else◌,
}
use epeius.Prelude.Int.{ℤ, pos, negsuc, ◌-ℤ◌, ltb_ℤ, eq_ℤ, eq_ℤ-eq}
use epeius.Evm.{Bytes, Reader, got, unpack}
use epeius.V3Quoter.{answers, absent, fails, given, readable, is_output}
use epeius.V3Quoter.Inversion.{
  answers_injective, >>=-eq-answers, given-eq-answers, readable-eq-answers,
}
use epeius.V3Quoter.Requoted.{is_output-bounds}
use epeius.Balancer.{
  BalancerCalls, pool_address, is_listed, is_eligible, pool_tokens, output_of, quote_pool,
}

negated : (a : ℤ) (n : ℕ) → pos 0 -ℤ a ≡ pos n → a ≡ pos 0 -ℤ pos n
unfolding ◌-ℤ◌
negated (pos m) n h = ground arith
negated (negsuc m) n h = ground arith

module _ (c : BalancerCalls) (reader : Reader) (vault pool_id token_in token_out : ℕ) (amount : ℤ)
    (hash : ℕ) where
  -- The pool holds both tokens, neither of which is its own, and the Vault's answer at the block takes
  -- exactly the amount and gives the output.
  pub record IsQuote (output : ℤ) : Type 0 where
    pub tokens : List ℕ
    pub tokens_read : pool_tokens c reader vault pool_id hash ≡ some tokens
    pub input_listed : is_listed token_in tokens ≡ true
    pub output_listed : is_listed token_out tokens ≡ true
    pub input_is_token : token_in ≢ pool_address pool_id
    pub output_is_token : token_out ≢ pool_address pool_id
    pub call : Bytes
    pub packed : c.query_batch_swap_call pool_id token_in token_out amount ≡ some call
    pub raw : Bytes
    pub answered : reader.call vault call hash ≡ got raw
    pub given_out : ℕ
    pub deltas : unpack c.query_batch_swap raw ≡ some (amount ∷ ((pos 0 -ℤ pos given_out) ∷ []))
    pub is_output : output ≡ pos given_out
    pub is_positive : 0 < given_out
    pub is_word : given_out < 2 ^ 256
    pub takes : ltb_ℤ (pos 0) amount ≡ true

  output_of-eq :
      (deltas : List ℤ) (output : ℤ)
      → output_of amount deltas ≡ answers output
      → (n : ℕ) × (deltas ≡ amount ∷ ((pos 0 -ℤ pos n) ∷ []))
        × (output ≡ pos n)
        × (0 < n)
        × (n < 2 ^ 256)
        × (ltb_ℤ (pos 0) amount ≡ true)
  unfolding output_of
  output_of-eq [] output h = cc
  output_of-eq (delta ∷ []) output h = cc
  output_of-eq (given_in ∷ (taken ∷ (other ∷ deltas))) output h = cc
  output_of-eq (given_in ∷ (taken ∷ [])) output h =
      elim (Bool-cases (eq_ℤ given_in amount && ltb_ℤ (pos 0) given_in && ltb_ℤ taken (pos 0))) [
        | inr f ↦ absurd (no_answer (rw f at h))
        | inl t ↦ elim (Bool-cases (is_output (pos 0 -ℤ taken))) [
          | inr g ↦ absurd (no_output (rw (t, g) at h))
          | inl word ↦
              let (n, is_n, positive, bounded) = is_output-bounds _ word in
              let (two, negative) = split_and _ _ t in
              let (same, takes) = split_and _ _ two in
              let exact = eq_ℤ-eq _ _ same in
              (
                n,
                both exact (negated taken n is_n),
                sym (answers_injective (rw (t, word) at h)) ∙ is_n,
                positive,
                bounded,
                subst (λ z. ltb_ℤ (pos 0) z ≡ true) exact takes,
              )
        ]
      ]
    where
      both : {a b d e : ℤ} → a ≡ b → d ≡ e → ◌≡◌ {A = List ℤ} (a ∷ d ∷ []) (b ∷ e ∷ [])
      both p q = cc

      no_answer : fails "Balancer V2 quote deltas are invalid" ≡ answers output → ⊥
      no_answer e = cc

      no_output : fails "Balancer V2 quote output is invalid" ≡ answers output → ⊥
      no_output e = cc

  eligible-eq :
      (tokens : List ℕ)
      → is_eligible pool_id token_in token_out tokens ≡ true
      → (is_listed token_in tokens ≡ true)
        × (is_listed token_out tokens ≡ true)
        × (token_in ≢ pool_address pool_id)
        × (token_out ≢ pool_address pool_id)
  unfolding is_eligible
  eligible-eq tokens h =
      let (three, other_out) = split_and _ _ h in
      let (two, other_in) = split_and _ _ three in
      let (input, output) = split_and _ _ two in
      (input, output, λ e. unequal _ _ e other_in, λ e. unequal _ _ e other_out)
    where
      unequal : (a b : ℕ) → a ≡ b → not (a == b) ≡ true → ⊥
      unequal a b e h = ground arith

  -- An output that is quoted is above zero and below 2^256, and is the negated second delta of the Vault's
  -- answer at the block, whose first delta is exactly the positive amount; the pool lists both tokens,
  -- and neither is the pool's own.
  pub quote_pool-IsQuote :
      (output : ℤ)
      → quote_pool c reader vault pool_id token_in token_out amount hash ≡ answers output
      → IsQuote output
  unfolding quote_pool
  quote_pool-IsQuote output h =
      let (tokens, h1, r1) =
        >>=-eq-answers
          (given "Balancer V2 pool tokens unavailable" (pool_tokens c reader vault pool_id hash)) _
          h in
      let (u, h2, r2) =
        >>=-eq-answers
          (if is_eligible pool_id token_in token_out tokens then answers tt else absent) _ r1 in
      let (call, h3, r3) =
        >>=-eq-answers
          (given "Balancer V2 quote encoding failed"
            (c.query_batch_swap_call pool_id token_in token_out amount))
          _ r2 in
      let (raw, h4, r4) =
        >>=-eq-answers (readable "Balancer V2 quote call failed" (reader.call vault call hash)) _
          r3 in
      let (deltas, h5, r5) =
        >>=-eq-answers (given "Balancer V2 quote result is invalid" (unpack c.query_batch_swap raw))
          _ r4 in
      let (n, shape, is_n, positive, word, takes) = output_of-eq deltas output r5 in
      let (input, listed, input_token, output_token) = eligible-eq tokens (by_answer tokens u h2) in
      record {
        tokens = tokens;
        tokens_read = given-eq-answers _ _ h1;
        input_listed = input;
        output_listed = listed;
        input_is_token = input_token;
        output_is_token = output_token;
        call = call;
        packed = given-eq-answers _ _ h3;
        raw = raw;
        answered = readable-eq-answers _ _ h4;
        given_out = n;
        deltas = given-eq-answers _ _ h5 ∙ ap some shape;
        is_output = is_n;
        is_positive = positive;
        is_word = word;
        takes = takes;
      }
    where
      no_answer : (u : Unit {0}) → absent ≡ answers u → ⊥
      no_answer u e = cc

      by_answer :
          (tokens : List ℕ) (u : Unit {0})
          → (if is_eligible pool_id token_in token_out tokens then answers tt else absent)
            ≡ answers u
          → is_eligible pool_id token_in token_out tokens ≡ true
      by_answer tokens u e = elim (Bool-cases (is_eligible pool_id token_in token_out tokens)) [
        | inl t ↦ t
        | inr f ↦ absurd (no_answer u (rw f at e))
      ]
