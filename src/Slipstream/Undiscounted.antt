-- ===== src/Slipstream/Undiscounted.antt =====
-- slipstream_execution.go: what the check of a signer's discount accepts.
use mathlib.Core.Path.{subst}
use epeius.Prelude.{
  ℕ, ◌≡◌, ◌≢◌, ◌⊎◌, refl, ap, ◌∙◌, true, ◌&&◌, Option, none, some, ◌==◌, ==_iff, is_empty,
  Bool-cases, split_and, inl, inr, arith,
}
use epeius.Evm.{Bytes, Read, Reader, got, failed, empty_execution_revert, unavailable, unpack}
use epeius.Verify.{is_code, address_in, nonzero, get_link, is_address}
use epeius.Slipstream.{
  SlipstreamCalls, Discount, no_answer, not_kept, discount, fee_module, linked_module,
  verified_with, verified_fee_module, slipstream_discount, discount_call, read_discount,
  decoded_discount, signer_verdict, signer_of, verify_signer_discount,
}

module _ (c : SlipstreamCalls) (reader : Reader) (hash factory signer : ℕ) where
  -- The factory's fee module is a contract that names the factory, and gives the signer no discount: it
  -- reverts with no data, or answers zero.
  pub record IsUndiscounted : Type 0 where
    pub code : ℕ → ℕ → Read Bytes
    pub has_code : reader.code ≡ some code
    pub module_address : ℕ
    pub of_factory :
        address_in c.swap_fee_module (reader.call factory c.swap_fee_module.id hash)
        ≡ some module_address
    pub is_nonzero : module_address ≢ 0
    pub is_contract : is_code (code module_address hash) ≡ true
    pub names_factory :
        address_in c.module_factory (reader.call module_address c.module_factory.id hash)
        ≡ some factory
    pub call : Bytes
    pub asks_signer : c.discounted_call signer ≡ some call
    pub undiscounted :
        (reader.call module_address call hash ≡ failed empty_execution_revert)
        ⊎ ((raw : Bytes) × (reader.call module_address call hash ≡ got raw)
            × (unpack c.discounted raw ≡ some 0))

  nonzero-eq : (o : Option ℕ) (a : ℕ) → nonzero o ≡ some a → (o ≡ some a) × (a ≢ 0)
  unfolding nonzero
  nonzero-eq none a h = cc
  nonzero-eq (some b) a h = ground arith

  is_address-eq : (o : Option ℕ) (a : ℕ) → is_address o a ≡ true → o ≡ some a
  unfolding is_address
  is_address-eq none a h = cc
  is_address-eq (some b) a h = ap some ((==_iff b a).0 h)

  signer_verdict-eq :
      (d : Discount)
      → is_empty (signer_verdict c reader hash d) ≡ true
      → (d ≡ not_kept) ⊎ (d ≡ discount 0)
  unfolding signer_verdict
  signer_verdict-eq no_answer h = cc
  signer_verdict-eq not_kept h = inl refl
  signer_verdict-eq (discount n) h = elim (Bool-cases (n == 0)) [
    | inl z ↦ inr (ap discount ((==_iff n 0).0 z))
    | inr f ↦ absurd (false_true (rw f at h))
  ]
    where
      false_true : is_empty "Signer has a Slipstream tx.origin fee discount" ≡ true → ⊥
      false_true e = cc

  -- What stands behind a discount that is accepted.
  slipstream_discount-asks :
      (m : ℕ)
      → (slipstream_discount c reader hash m signer ≡ not_kept)
        ⊎ (slipstream_discount c reader hash m signer ≡ discount 0)
      → (call : Bytes) × (c.discounted_call signer ≡ some call)
        × ((reader.call m call hash ≡ failed empty_execution_revert)
            ⊎ ((raw : Bytes) × (reader.call m call hash ≡ got raw)
                × (unpack c.discounted raw ≡ some 0)))
  unfolding slipstream_discount discount_call read_discount decoded_discount
  slipstream_discount-asks m h = of_call (c.discounted_call signer) refl h
    where
      of_decoded :
          (call raw : Bytes) (o : Option ℕ)
          → reader.call m call hash ≡ got raw
          → unpack c.discounted raw ≡ o
          → (decoded_discount o ≡ not_kept) ⊎ (decoded_discount o ≡ discount 0)
          → (reader.call m call hash ≡ failed empty_execution_revert)
            ⊎ ((raw : Bytes) × (reader.call m call hash ≡ got raw)
                × (unpack c.discounted raw ≡ some 0))
      of_decoded call raw none r u (inl k) = cc
      of_decoded call raw none r u (inr k) = cc
      of_decoded call raw (some n) r u (inl k) = cc
      of_decoded call raw (some n) r u (inr k) = inr (raw, r, u ∙ ap some (is_zero k))
        where
          is_zero : discount n ≡ discount 0 → n ≡ 0
          is_zero e = cc

      of_read :
          (call : Bytes) (r : Read Bytes)
          → reader.call m call hash ≡ r
          → (read_discount c reader hash r ≡ not_kept)
            ⊎ (read_discount c reader hash r ≡ discount 0)
          → (reader.call m call hash ≡ failed empty_execution_revert)
            ⊎ ((raw : Bytes) × (reader.call m call hash ≡ got raw)
                × (unpack c.discounted raw ≡ some 0))
      of_read call (got raw) e k = of_decoded call raw (unpack c.discounted raw) e refl k
      of_read call (failed empty_execution_revert) e k = inl e
      of_read call (failed (unavailable message)) e (inl k) = cc
      of_read call (failed (unavailable message)) e (inr k) = cc

      of_call :
          (o : Option Bytes)
          → c.discounted_call signer ≡ o
          → (discount_call c reader hash m o ≡ not_kept)
            ⊎ (discount_call c reader hash m o ≡ discount 0)
          → (call : Bytes) × (c.discounted_call signer ≡ some call)
            × ((reader.call m call hash ≡ failed empty_execution_revert)
                ⊎ ((raw : Bytes) × (reader.call m call hash ≡ got raw)
                    × (unpack c.discounted raw ≡ some 0)))
      of_call none e (inl k) = cc
      of_call none e (inr k) = cc
      of_call (some call) e k = (call, e, of_read call (reader.call m call hash) refl k)

  linked_module-eq :
      (code : ℕ → ℕ → Read Bytes) (o : Option ℕ) (m : ℕ)
      → linked_module c reader hash code factory o ≡ some m
      → (o ≡ some m)
        × (is_code (code m hash) ≡ true)
        × (address_in c.module_factory (reader.call m c.module_factory.id hash) ≡ some factory)
  unfolding linked_module
  linked_module-eq code none m h = cc
  linked_module-eq code (some found) m h =
      elim (Bool-cases (
        is_code (code found hash)
        && is_address (address_in c.module_factory (reader.call found c.module_factory.id hash))
            factory)) [
              | inl t ↦
                  let (contract, names) = split_and _ _ t in
                  let e = is_found (rw t at h) in
                  (
                    ap some e,
                    subst (λ n. is_code (code n hash) ≡ true) e contract,
                    subst
                        (λ n.
                          address_in c.module_factory (reader.call n c.module_factory.id hash)
                          ≡ some factory)
                        e (is_address-eq _ factory names),
                  )
              | inr f ↦ absurd (none_some (rw f at h))
            ]
    where
      is_found : some found ≡ some m → found ≡ m
      is_found e = cc

      none_some : ◌≡◌ {A = Option ℕ} none (some m) → ⊥
      none_some e = cc

  signer_of-IsUndiscounted :
      (o : Option (ℕ → ℕ → Read Bytes)) (v : Option ℕ)
      → reader.code ≡ o
      → verified_with c reader hash factory o ≡ v
      → is_empty (signer_of c reader hash signer v) ≡ true
      → IsUndiscounted
  unfolding verified_with signer_of fee_module get_link
  signer_of-IsUndiscounted none none e f h = cc
  signer_of-IsUndiscounted none (some m) e f h = cc
  signer_of-IsUndiscounted (some code) none e f h = cc
  signer_of-IsUndiscounted (some code) (some m) e f h =
      let (found, contract, names) = linked_module-eq code _ m f in
      let (of_factory, is_nonzero) = nonzero-eq _ m found in
      let (call, asks, answer) = slipstream_discount-asks m (signer_verdict-eq _ h) in
      record {
        code = code;
        has_code = e;
        module_address = m;
        of_factory = of_factory;
        is_nonzero = is_nonzero;
        is_contract = contract;
        names_factory = names;
        call = call;
        asks_signer = asks;
        undiscounted = answer;
      }

  -- The check accepts a signer only where the factory's fee module is not zero, has code and names the
  -- factory, all at the block, and the module's call for that signer either reverts with no data or
  -- answers a discount that decodes to zero.
  pub verify_signer_discount-IsUndiscounted :
      is_empty (verify_signer_discount c reader hash factory signer) ≡ true → IsUndiscounted
  unfolding verify_signer_discount verified_fee_module
  verify_signer_discount-IsUndiscounted h = signer_of-IsUndiscounted reader.code _ refl refl h
