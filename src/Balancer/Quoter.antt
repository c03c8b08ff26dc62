-- ===== src/Balancer/Quoter.antt =====
-- balancer_v2.go: `Candidates` and `Verify` of the quoter, with the errors of pools that the second leaves
-- for the first.
use epeius.Prelude.{
  ℕ, zero, suc, String, Bool, true, false, Option, none, some, List, [], ◌∷◌, map, append,
  if◌then◌else◌,
}
use epeius.Prelude.Dict.{Dict, lookup, insert, erase}
use epeius.Prelude.Int.{ℤ}
use epeius.Prelude.Decimal.{int_text}
use epeius.Prelude.Sort.{sort_by, text_less}
use epeius.Evm.{Evm, Read, Bytes, Reader}
use epeius.Wire.{QuoteRequest, BlockContext}
use epeius.Engine.{
  QuoteCandidate, Quoted, quoted, missing, quote_error, Admission, admitted, refused,
}
use epeius.Verify.{is_code}
use epeius.V3Quoter.{Answered, answers, absent, fails, out_of_range}
use epeius.Balancer.{BalancerCalls, verify_pool, quote_pool}

pub record BalancerQuoter : Type 0 where
  pub reader : Reader
  pub id : String
  pub vault : String
  pub pools : List String

-- q.poolErrors[pool]
unfoldable pub has_error : Option Bool → Bool
has_error none = false
has_error (some b) = b

module _ (c : BalancerCalls) (evm : Evm) (q : BalancerQuoter) where
  unfoldable pub route_of : QuoteRequest → BlockContext → String → ℕ → Answered ℤ → Quoted
  route_of r block pool latency (answers output) = quoted (record {
    route_id = append q.id (append ":" pool);
    provider = "balancer-v2";
    legs =
        record {
          pool = pool;
          token_in = evm.address_hex (evm.hex_to_address r.token_in);
          token_out = evm.address_hex (evm.hex_to_address r.token_out);
          selector = none;
          uniswap_v4_pool_key = none;
        }
        ∷ [];
    amount_out_atomic = int_text output;
    network_cost_out_atomic = none;
    effective_out_atomic = none;
    block = block;
    latency_ms = latency;
    deployment_id = q.id;
  })
  route_of r block pool latency absent = missing
  route_of r block pool latency (fails message) = quote_error message
  route_of r block pool latency out_of_range = missing

  -- The candidate's `Quote`, which is asked for after the amount was read.
  unfoldable pub quote_candidate : QuoteRequest → BlockContext → ℤ → Dict Bool → ℕ → String → Quoted
  quote_candidate r block amount pool_errors latency pool =
      if has_error (lookup pool pool_errors)
      then quote_error "Balancer V2 pool verification failed"
      else route_of r block pool latency (
          quote_pool c q.reader (evm.hex_to_address q.vault) (evm.hex_to_hash pool)
            (evm.hex_to_address r.token_in) (evm.hex_to_address r.token_out) amount
            (evm.hex_to_hash block.hash))

  unfoldable pub candidate_of :
      QuoteRequest → BlockContext → ℤ → Dict Bool → (String → ℕ) → String → QuoteCandidate
  candidate_of r block amount pool_errors latency pool = record {
    id = append q.id (append ":" pool);
    quote = quote_candidate r block amount pool_errors (latency pool) pool;
  }

  -- Candidates, with the milliseconds that each quote takes.
  unfoldable pub candidates :
      QuoteRequest → BlockContext → ℤ → Dict Bool → (String → ℕ) → List QuoteCandidate
  candidates r block amount pool_errors latency =
      map (candidate_of r block amount pool_errors latency) (sort_by text_less q.pools)

  -- The loop of `Verify`, with the number of valid pools and the map of errors.
  unfoldable pub verify_pools :
      (ℕ → ℕ → Read Bytes) → ℕ → List String → ℕ → Dict Bool → ℕ × Dict Bool
  verify_pools code hash [] valid pool_errors = (valid, pool_errors)
  verify_pools code hash (pool ∷ pools) valid pool_errors =
      let fine =
        verify_pool c q.reader code (evm.hex_to_address q.vault) (evm.hex_to_hash pool) hash in
      verify_pools code hash pools (if fine then suc valid else valid)
        (if fine then erase pool pool_errors else insert pool true pool_errors)

  unfoldable pub some_valid : ℕ × Dict Bool → Admission (Unit {0}) × Dict Bool
  some_valid (zero, pool_errors) = (refused "Balancer V2 pool verification failed", pool_errors)
  some_valid (suc valid, pool_errors) = (admitted tt, pool_errors)

  unfoldable pub verify_with :
      Option (ℕ → ℕ → Read Bytes) → ℕ → Dict Bool → Admission (Unit {0}) × Dict Bool
  verify_with none hash pool_errors = (refused "deployment code unavailable", pool_errors)
  verify_with (some code) hash pool_errors =
      if is_code (code (evm.hex_to_address q.vault) hash)
      then some_valid (verify_pools code hash q.pools 0 pool_errors)
      else (refused "Balancer V2 Vault verification failed", pool_errors)

  -- Verify: its answer and the map of errors after it.
  unfoldable pub verify : ℕ → Dict Bool → Admission (Unit {0}) × Dict Bool
  verify hash pool_errors = verify_with q.reader.code hash pool_errors
