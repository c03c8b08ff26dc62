-- ===== src/Quoting/Sources.antt =====
-- services/quote-engine/internal/quote/handler.go, `GetQuote`: the deployments that are searched, and the errors of the others.
use epeius.Prelude.{
  String, Bool, Option, none, some, List, [], ◌∷◌, is_empty, append, if◌then◌else◌,
}
use epeius.Prelude.Dict.{Dict, lookup}
use epeius.Prelude.Sort.{sort_by, text_less}
use epeius.Wire.{QuoteRequest, BlockContext, ProviderError}
use epeius.Config
use epeius.Config.{Token}
use epeius.Engine.{Chain, ProtocolQuoter}
use epeius.Search.{CandidateSource}

-- The configured deployments by ID, each with its quoter's candidates or with what is wrong.
pub record QuoteSources : Type 0 where
  pub sources : List CandidateSource
  pub errors : List ProviderError

unfoldable pub empty_or : Option String → String
empty_or none = ""
empty_or (some message) = message

unfoldable pub add_source :
    QuoteRequest
    → BlockContext
    → String
    → String
    → String
    → Option ProtocolQuoter
    → QuoteSources
    → QuoteSources
add_source r block id kind message none s = record s {
  errors =
      record {
        provider = kind;
        route_id = none;
        message = append id (
            append ": "
              (if is_empty message then "quoting implementation unavailable" else message));
      }
      ∷ s.errors;
}
add_source r block id kind message (some quoter) s =
    if is_empty message
    then record s {
      sources = record { kind = kind; waiting = quoter.candidates r block } ∷ s.sources;
    }
    else record s {
      errors =
          record { provider = kind; route_id = none; message = append id (append ": " message) }
          ∷ s.errors;
    }

unfoldable pub sources_of :
    Chain → QuoteRequest → BlockContext → Dict Config.Deployment → QuoteSources
unfolding add_source empty_or
sources_of chain r block [] = record { sources = []; errors = [] }
sources_of chain r block ((id, deployment) ∷ rest) =
    add_source r block id deployment.kind (empty_or (lookup id chain.deployment_errors))
      (lookup id chain.quoters) (sources_of chain r block rest)

abbrev pub by_id : String × Config.Deployment → String × Config.Deployment → Bool
by_id a b = text_less a.0 b.0

unfoldable pub quote_sources : Chain → QuoteRequest → BlockContext → QuoteSources
unfolding sources_of
quote_sources chain r block = sources_of chain r block (sort_by by_id chain.config.deployments)
