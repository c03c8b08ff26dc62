-- ===== src/Simulators/Tenderly/Replies.antt =====
-- tenderly.go, the loop of `Simulate` over the results: what each result has to say of its call.
use mathlib.Core.Path.{subst}
use epeius.Prelude.{
  arith, Bool, ◌&&◌, sym, ◌∙◌, ℕ, ◌*◌, ◌≡◌, refl, ap, true, false, Option, none, some, List, [],
  ◌∷◌, ltb, ◌==◌, ==_iff, str_eq_iff, split_and, if◌then◌else◌, Bool-cases, inl, inr,
}
use epeius.Prelude.Int.{ℤ, negsuc, eq_ℤ, eq_ℤ-eq}
use epeius.Prelude.Partial.{>>=-eq-some, true-neq-false}
use epeius.Evm.{Bytes, Method, unpack}
use epeius.Engine.{Snapshot}
use epeius.Executor.{equal_fold}
use epeius.Simulators.{Probing}
use epeius.Simulators.Tenderly.{
  SimulationCall, SimulationIdentity, SimulationResult, is_zero_value, identity_ok, decodes_to,
  header_ok, trace_ok, result_ok, decoded, value_of, value_if_ok,
}

-- The identity is that of the call, with success and without value.
pub record IsIdentityOf (call : SimulationCall) (actual : SimulationIdentity) : Type 0 where
  pub status : actual.status ≡ true
  pub network : actual.network_id ≡ call.network_id
  pub block : actual.block_number ≡ call.block_number
  pub sender : equal_fold actual.from call.from ≡ true
  pub target : equal_fold actual.to call.to ≡ true
  pub input : equal_fold actual.input call.input ≡ true
  pub no_value : is_zero_value actual.value ≡ true

-- A result tells of this call, at the end of this block, and of its success.
pub record IsReplyTo (c : Probing) (snapshot : Snapshot) (number : ℕ) (call : SimulationCall)
    (item : SimulationResult) : Type 0 where
  pub simulated : IsIdentityOf call item.simulation
  pub executed : IsIdentityOf call item.transaction
  pub no_error : item.call_trace.error ≡ ""
  pub sender : equal_fold item.call_trace.from call.from ≡ true
  pub target : equal_fold item.call_trace.to call.to ≡ true
  pub input : equal_fold item.call_trace.input call.input ≡ true
  pub at_end : item.transaction_index ≡ negsuc 0
  pub at_number : c.decode_uint64 item.block_header.number ≡ some number
  pub at_time : c.decode_uint64 item.block_header.timestamp ≡ some snapshot.timestamp
  pub at_hash : equal_fold item.block_header.hash snapshot.block_hash ≡ true

-- The output of the call is the encoding of a number, and of no other.
abbrev pub Reads : Probing → Method ℕ → SimulationResult → ℕ → Type 0
Reads c method item value =
    (raw : Bytes) × (c.decode_hex item.call_trace.output ≡ some raw)
    × (unpack method raw ≡ some value)

-- Call by call, a result that replies to it and the number that it reads.
abbrev pub Replies :
    Probing
    → Snapshot
    → ℕ
    → Method ℕ
    → List SimulationCall
    → List SimulationResult
    → List ℕ
    → Type 0
Replies c snapshot number method [] [] [] = Unit
Replies c snapshot number method [] [] (v ∷ vs) = ⊥
Replies c snapshot number method [] (item ∷ items) vs = ⊥
Replies c snapshot number method (call ∷ calls) [] vs = ⊥
Replies c snapshot number method (call ∷ calls) (item ∷ items) [] = ⊥
Replies c snapshot number method (call ∷ calls) (item ∷ items) (v ∷ vs) =
    IsReplyTo c snapshot number call item
    × Reads c method item v
    × Replies c snapshot number method calls items vs

decodes_to-eq : (o : Option ℕ) (n : ℕ) → decodes_to o n ≡ true → o ≡ some n
unfolding decodes_to
decodes_to-eq none n h = cc
decodes_to-eq (some m) n h = ap some ((==_iff m n).0 h)

decodes_to-some : (o : Option ℕ) (n : ℕ) → o ≡ some n → decodes_to o n ≡ true
unfolding decodes_to
decodes_to-some o n e = rw e ((==_iff n n).1 refl)

both : {a b : Bool} → a ≡ true → b ≡ true → a && b ≡ true
both {a} {b} h k = ground arith

eq_ℤ_of : {a b : ℤ} → a ≡ b → eq_ℤ a b ≡ true
eq_ℤ_of {a} {b} e = ground arith

identity_ok-IsIdentityOf :
    (call : SimulationCall) (actual : SimulationIdentity)
    → identity_ok call actual ≡ true
    → IsIdentityOf call actual
unfolding identity_ok
identity_ok-IsIdentityOf call actual h =
    let (h6, value) = split_and _ _ h in
    let (h5, input) = split_and _ _ h6 in
    let (h4, target) = split_and _ _ h5 in
    let (h3, sender) = split_and _ _ h4 in
    let (h2, block) = split_and _ _ h3 in
    let (status, network) = split_and _ _ h2 in
    record {
      status = status;
      network = (str_eq_iff _ _).0 network;
      block = (==_iff _ _).0 block;
      sender = sender;
      target = target;
      input = input;
      no_value = value;
    }

IsIdentityOf-identity_ok :
    (call : SimulationCall) (actual : SimulationIdentity)
    → IsIdentityOf call actual
    → identity_ok call actual ≡ true
unfolding identity_ok
IsIdentityOf-identity_ok call actual i =
    both
      (both
        (both
          (both (both (both i.status ((str_eq_iff _ _).1 i.network)) ((==_iff _ _).1 i.block))
            i.sender)
          i.target)
        i.input)
      i.no_value

module _ (c : Probing) (snapshot : Snapshot) (number : ℕ) where
  result_ok-IsReplyTo :
      (call : SimulationCall) (item : SimulationResult)
      → result_ok c snapshot number call item ≡ true
      → IsReplyTo c snapshot number call item
  unfolding result_ok identity_ok header_ok trace_ok
  result_ok-IsReplyTo call item h =
      let (four, trace) = split_and _ _ h in
      let (three, header) = split_and _ _ four in
      let (two, transaction) = split_and _ _ three in
      let (index, simulation) = split_and _ _ two in
      let (t3, input) = split_and _ _ trace in
      let (t2, target) = split_and _ _ t3 in
      let (fine, sender) = split_and _ _ t2 in
      let (h2, hash) = split_and _ _ header in
      let (at, time) = split_and _ _ h2 in
      record {
        simulated = identity_ok-IsIdentityOf call item.simulation simulation;
        executed = identity_ok-IsIdentityOf call item.transaction transaction;
        no_error = (str_eq_iff _ _).0 fine;
        sender = sender;
        target = target;
        input = input;
        at_end = eq_ℤ-eq _ _ index;
        at_number = decodes_to-eq _ _ at;
        at_time = decodes_to-eq _ _ time;
        at_hash = hash;
      }

  IsReplyTo-result_ok :
      (call : SimulationCall) (item : SimulationResult)
      → IsReplyTo c snapshot number call item
      → result_ok c snapshot number call item ≡ true
  unfolding result_ok header_ok trace_ok
  IsReplyTo-result_ok call item r =
      both
        (both
          (both
            (both (eq_ℤ_of r.at_end) (IsIdentityOf-identity_ok call item.simulation r.simulated))
            (IsIdentityOf-identity_ok call item.transaction r.executed))
          (both (both (decodes_to-some _ _ r.at_number) (decodes_to-some _ _ r.at_time)) r.at_hash))
        (both (both (both ((str_eq_iff _ _).1 r.no_error) r.sender) r.target) r.input)

  pub not_ok-no_reply :
      (call : SimulationCall) (item : SimulationResult)
      → result_ok c snapshot number call item ≡ false
      → IsReplyTo c snapshot number call item
      → ⊥
  not_ok-no_reply call item f r = true-neq-false (sym (IsReplyTo-result_ok call item r) ∙ f)

  pub value_if_ok-eq :
      (probes i : ℕ) (call : SimulationCall) (item : SimulationResult) (v : Option ℕ)
      → value_if_ok c snapshot number probes i call item ≡ some v
      → IsReplyTo c snapshot number call item × (value_of c probes i item ≡ some v)
  unfolding value_if_ok
  value_if_ok-eq probes i call item v h =
      elim (Bool-cases (result_ok c snapshot number call item)) [
        | inl t ↦ (result_ok-IsReplyTo call item t, rw t at h)
        | inr f ↦ absurd (none_some (rw f at h))
      ]
    where
      none_some : ◌≡◌ {A = Option (Option ℕ)} none (some v) → ⊥
      none_some e = cc

  decoded-eq :
      (method : Method ℕ) (item : SimulationResult) (raw : Option Bytes) (v : ℕ)
      → c.decode_hex item.call_trace.output ≡ raw
      → decoded method raw ≡ some v
      → Reads c method item v
  unfolding decoded
  decoded-eq method item none v e h = cc
  decoded-eq method item (some raw) v e h = (raw, e, h)

  -- A result that is not the swap's reads a number, by the method of its place.
  pub value_of-Reads :
      (method : Method ℕ) (probes i : ℕ) (item : SimulationResult) (v : Option ℕ)
      → (i == probes) ≡ false
      → (if ltb (2 * probes) i then c.allowance else c.balance_of) ≡ method
      → value_of c probes i item ≡ some v
      → (n : ℕ) × (v ≡ some n) × Reads c method item n
  unfolding value_of
  value_of-Reads method probes i item v other chosen h =
      let (n, read, e) = >>=-eq-some _ _ (rw other at h) in
      (
        n,
        cc,
        decoded-eq method item _ n refl (
            subst (λ (m : Method ℕ). decoded m (c.decode_hex item.call_trace.output) ≡ some n)
              chosen read),
      )

  pub value_of_swap :
      (probes : ℕ) (item : SimulationResult) (v : Option ℕ)
      → value_of c probes probes item ≡ some v
      → v ≡ none
  unfolding value_of
  value_of_swap probes item v h = cc (rw ((==_iff probes probes).1 refl) at h)
