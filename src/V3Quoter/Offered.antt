-- ===== src/V3Quoter/Offered.antt =====
-- services/quote-engine/internal/quote/v3.go, `v3Quoter.Candidates`: the iterator's paths as candidates, each with
-- its quote.
use epeius.Prelude.{ℕ, String, Bool, Option, none, some, List, [], ◌∷◌}
use epeius.Prelude.Int.{ℤ}
use epeius.Prelude.Decimal.{set_string, int_text}
use epeius.Config.{Deployment, Token}
use epeius.Evm.{Evm, Reader}
use epeius.Engine.{QuoteCandidate, Quoted, quoted, missing, quote_error}
use epeius.Wire.{QuoteRequest, BlockContext, RouteLeg, RouteQuote}
use epeius.Candidates.{Candidate, CandidateIterator, Next, yields, finishes, new_candidates, next}
use epeius.V3Quoter
use epeius.V3Quoter.{V3Contracts, Answered, answers, absent, fails, quote_path, provider_of}

-- What one call of the closure gives; an index or a number that is missing panics.
pub data Offer : Type 0 where
  offers : QuoteCandidate → CandidateIterator → Offer
  ends : CandidateIterator → Offer
  panics : Offer

module _ (c : V3Contracts) (evm : Evm) (reader : Reader) (id : String) (d : Deployment) where
  unfoldable pub route_of : Candidate → BlockContext → ℕ → List RouteLeg × ℤ → RouteQuote
  route_of candidate block latency result = record {
    route_id = candidate.id;
    provider = d.kind;
    legs = result.0;
    amount_out_atomic = int_text result.1;
    network_cost_out_atomic = none;
    effective_out_atomic = none;
    block = block;
    latency_ms = latency;
    deployment_id = id;
  }

  unfoldable pub quote_tokens :
      BlockContext → List ℕ → List ℕ → Option ℤ → Answered (List RouteLeg × ℤ)
  quote_tokens block [] fees amount = V3Quoter.out_of_range
  quote_tokens block (a ∷ tokens) fees none = V3Quoter.out_of_range
  quote_tokens block (a ∷ tokens) fees (some amount) =
      quote_path c (provider_of evm reader d) (evm.hex_to_hash block.hash) evm a tokens fees amount

  unfoldable pub quoted_as : Candidate → BlockContext → ℕ → Answered (List RouteLeg × ℤ) → Quoted
  quoted_as candidate block latency (answers result) =
      quoted (route_of candidate block latency result)
  quoted_as candidate block latency absent = missing
  quoted_as candidate block latency (fails message) = quote_error message
  quoted_as candidate block latency V3Quoter.out_of_range = missing

  unfoldable pub candidate_of :
      QuoteRequest → BlockContext → (String → ℕ) → Candidate → QuoteCandidate
  candidate_of r block latency candidate = record {
    id = candidate.id;
    quote =
        quoted_as candidate block (latency candidate.id)
          (quote_tokens block candidate.tokens candidate.fees (set_string r.amount_in_atomic));
  }

  -- The closure's iterator.
  unfoldable pub iterator : List Token → QuoteRequest → CandidateIterator
  iterator tokens r =
      new_candidates evm
        (record {
          chain_id = ℤ.pos 0;
          rpc_url_env = "";
          execution_enabled = Bool.false;
          tokens = tokens;
          deployments = (id, d) ∷ [];
          executor = none;
        })
        (evm.hex_to_address r.token_in) (evm.hex_to_address r.token_out)

  unfoldable pub offered : QuoteRequest → BlockContext → (String → ℕ) → Next → Offer
  offered r block latency (yields index candidate i) =
      offers (candidate_of r block latency candidate) i
  offered r block latency (finishes i) = ends i
  offered r block latency Next.out_of_range = panics

  -- One call of the closure, with the milliseconds that each quote takes.
  unfoldable pub offer :
      QuoteRequest → BlockContext → (String → ℕ) → Bool → CandidateIterator → Offer
  offer r block latency cancelled i = offered r block latency (next evm cancelled i)
