-- ===== src/Tests/Startup.antt =====
-- The start of a chain with a verified deployment and one that nothing can verify.
use mathlib.Core.Path.{subst, ◌∙◌}
use epeius.Prelude.{
  String, ◌≡◌, refl, sym, Bool, true, false, Option, none, some, [], ◌∷◌, inl, inr, Bool-cases,
  str_eq, is_empty,
}
use epeius.Prelude.Dict.{lookup}
use epeius.Prelude.Sort.{sort_by}
use epeius.Evm.{Reader, got}
use epeius.Engine.{Chain, admitted}
use epeius.Quoting.Sources.{quote_sources, sources_of, by_id}
use epeius.Verify.{deployment_error, verify_deployments, tokens_have_code, is_code, verifier_error}
use epeius.Verify.Searched.{verified_only, quote_sources-verified}
use epeius.Tests.Fixture.{evm, block, quote_request}
use epeius.Tests.Quotes.{quoting_chain}

abbrev code_reader : Reader
code_reader = record { call = λ to call hash. got (1 ∷ []); code = some (λ at hash. got (1 ∷ [])) }

abbrev starting : Chain
starting = record quoting_chain {
  client = some (record { reader = code_reader; is_execution_reader = true });
  deployment_verifiers = ("uni", λ hash. admitted tt) ∷ [];
}

abbrev quiet : Option String → Bool
quiet none = false
quiet (some text) = is_empty text

first_error : Bool → Option String
first_error true = none
first_error false = some "deployment verification unavailable"

spoken_error :
    (b : Bool) (message : String) → first_error b ≡ some message → is_empty message ≡ false
unfolding first_error
spoken_error true message e = elim (no_error message e) [ ]
  where
    no_error : (message : String) → none ≡ some message → ⊥
    no_error message e = cc
spoken_error false message e = same message e
  where
    same :
        (message : String)
        → some "deployment verification unavailable" ≡ some message
        → is_empty message ≡ false
    same message e = subst (λ o. quiet o ≡ false) e refl

error_of : (id : String) → deployment_error evm starting id ≡ first_error (str_eq "uni" id)
unfolding deployment_error first_error lookup tokens_have_code is_code verifier_error
error_of id = elim (Bool-cases (str_eq "uni" id)) [ inl t ↦ rw t refl | inr f ↦ rw f refl ]

quote_sources-verified_example :
    (quote_sources (verify_deployments evm starting) quote_request block).sources
    ≡ (sources_of
        (record starting { deployment_errors = [] })
        quote_request
        block
        (verified_only evm starting (sort_by by_id starting.config.deployments))).sources
quote_sources-verified_example =
    quote_sources-verified evm starting quote_request block
      (λ id message e. spoken_error (str_eq "uni" id) message (sym (error_of id) ∙ e))
