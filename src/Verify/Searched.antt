-- ===== src/Verify/Searched.antt =====
-- deployments.go and handler.go: a deployment that failed its verification is not searched.
use epeius.Prelude.{
  String, ◌≡◌, refl, ap, ◌∙◌, Bool, true, false, Option, none, some, [], ◌∷◌, inl, inr, Bool-cases,
  str_eq, str_eq_iff, str_eq_refl, is_empty, if◌then◌else◌,
}
use epeius.Prelude.Dict.{Dict, lookup}
use epeius.Prelude.Sort.{sort_by, insert_sorted}
use epeius.Config.{Deployment}
use epeius.Evm.{Evm}
use epeius.Wire.{QuoteRequest, BlockContext}
use epeius.Engine.{Chain, ProtocolQuoter}
use epeius.Quoting.Sources.{QuoteSources, sources_of, add_source, quote_sources, empty_or, by_id}
use epeius.Verify.{
  deployment_error, with_error, deployment_errors, verify_deployments, startup_error,
}

abbrev pub has_key : String → Dict Deployment → Bool
has_key id [] = false
has_key id ((k, d) ∷ rest) = if str_eq k id then true else has_key id rest

-- The deployments that passed, in order.
abbrev pub keep_verified : Option String → String × Deployment → Dict Deployment → Dict Deployment
keep_verified none entry rest = entry ∷ rest
keep_verified (some message) entry rest = rest

abbrev pub verified_only : Evm → Chain → Dict Deployment → Dict Deployment
verified_only evm chain [] = []
verified_only evm chain (entry ∷ rest) =
    keep_verified (deployment_error evm chain entry.0) entry (verified_only evm chain rest)

abbrev pub AllIn : Dict Deployment → Dict Deployment → Type 0
AllIn all [] = Unit
AllIn all (entry ∷ rest) = (has_key entry.0 all ≡ true) × AllIn all rest

lookup-step :
    (id k : String) (o e : Option String) (errors : Dict String) (rest : Bool)
    → lookup id errors ≡ (if rest then e else none)
    → (str_eq k id ≡ true → o ≡ e)
    → lookup id (with_error k o errors) ≡ (if (if str_eq k id then true else rest) then e else none)
unfolding lookup with_error
lookup-step id k o e errors rest h same = elim (Bool-cases (str_eq k id)) [
  | inl t ↦ rw t (lookup_same t o (same t))
  | inr f ↦ rw f (lookup_other f o)
]
  where
    none_either : (b : Bool) → none ≡ e → (if b then e else none) ≡ e
    none_either true n = refl
    none_either false n = n

    lookup_same :
        (str_eq k id ≡ true) → (o : Option String) → o ≡ e → lookup id (with_error k o errors) ≡ e
    lookup_same t none n = h ∙ none_either rest n
    lookup_same t (some message) n = rw t n

    lookup_other :
        (str_eq k id ≡ false)
        → (o : Option String) → lookup id (with_error k o errors) ≡ (if rest then e else none)
    lookup_other f none = h
    lookup_other f (some message) = rw f h

add_source-quiet :
    (r : QuoteRequest) (b : BlockContext) (id kind message : String) (q : Option ProtocolQuoter)
    (s : QuoteSources)
    → is_empty message ≡ false
    → (add_source r b id kind message q s).sources ≡ s.sources
unfolding add_source
add_source-quiet r b id kind message none s h = refl
add_source-quiet r b id kind message (some quoter) s h = rw h refl

add_source-same :
    (r : QuoteRequest) (b : BlockContext) (id kind : String) (q : Option ProtocolQuoter)
    (s s' : QuoteSources)
    → s.sources ≡ s'.sources
    → (add_source r b id kind "" q s).sources ≡ (add_source r b id kind "" q s').sources
unfolding add_source
add_source-same r b id kind none s s' h = h
add_source-same r b id kind (some quoter) s s' h =
    ap (λ rest. record { kind = kind; waiting = quoter.candidates r b } ∷ rest) h

insert-AllIn :
    (all : Dict Deployment) (entry : String × Deployment) (xs : Dict Deployment)
    → has_key entry.0 all ≡ true
    → AllIn all xs
    → AllIn all (insert_sorted by_id entry xs)
unfolding insert_sorted
insert-AllIn all entry [] h a = (h, tt)
insert-AllIn all entry (x ∷ xs) h (k, a) = elim (Bool-cases (by_id x entry)) [
  | inl t ↦ rw t (k, insert-AllIn all entry xs h a)
  | inr f ↦ rw f (h, (k, a))
]

sort-AllIn : (all xs : Dict Deployment) → AllIn all xs → AllIn all (sort_by by_id xs)
unfolding sort_by
sort-AllIn all [] a = tt
sort-AllIn all (x ∷ xs) (h, a) = insert-AllIn all x (sort_by by_id xs) h (sort-AllIn all xs a)

has_key-cons :
    (id : String) (entry : String × Deployment) (all : Dict Deployment)
    → has_key id all ≡ true
    → has_key id (entry ∷ all) ≡ true
has_key-cons id entry all h = rw h (both (str_eq entry.0 id))
  where
    both : (b : Bool) → (if b then true else true) ≡ true
    both true = refl
    both false = refl

AllIn-cons :
    (entry : String × Deployment) (all xs : Dict Deployment) → AllIn all xs → AllIn (entry ∷ all) xs
AllIn-cons entry all [] a = tt
AllIn-cons entry all (x ∷ xs) (h, a) = (has_key-cons x.0 entry all h, AllIn-cons entry all xs a)

AllIn-self : (xs : Dict Deployment) → AllIn xs xs
AllIn-self [] = tt
AllIn-self (x ∷ xs) = (rw (str_eq_refl x.0) refl, AllIn-cons x xs xs (AllIn-self xs))

module _ (evm : Evm) (chain : Chain) where
  lookup-deployment_errors :
      (id : String) (ds : Dict Deployment)
      → lookup id (deployment_errors evm chain ds)
        ≡ (if has_key id ds then deployment_error evm chain id else none)
  unfolding deployment_errors lookup
  lookup-deployment_errors id [] = refl
  lookup-deployment_errors id ((k, d) ∷ rest) =
      lookup-step id k (deployment_error evm chain k) (deployment_error evm chain id) _
        (has_key id rest) (lookup-deployment_errors id rest)
        (λ t. ap (deployment_error evm chain) ((str_eq_iff k id).0 t))

  lookup-error :
      (id : String) (all : Dict Deployment)
      → has_key id all ≡ true
      → lookup id (deployment_errors evm chain all) ≡ deployment_error evm chain id
  lookup-error id all h =
      lookup-deployment_errors id all
      ∙ ap (λ b. if b then deployment_error evm chain id else none) h

  abbrev unchecked : Chain
  unchecked = record chain { deployment_errors = [] }

  add_source-verified :
      (r : QuoteRequest) (b : BlockContext) (id : String) (d : Deployment) (o : Option String)
      (vs : Dict Deployment) (s : QuoteSources)
      → ((message : String) → o ≡ some message → is_empty message ≡ false)
      → s.sources ≡ (sources_of unchecked r b vs).sources
      → (add_source r b id d.kind (empty_or o) (lookup id chain.quoters) s).sources
        ≡ (sources_of unchecked r b (keep_verified o (id, d) vs)).sources
  unfolding sources_of empty_or lookup
  add_source-verified r b id d none vs s spoken h =
      add_source-same r b id d.kind (lookup id chain.quoters) s _ h
  add_source-verified r b id d (some message) vs s spoken h =
      add_source-quiet r b id d.kind message (lookup id chain.quoters) s (spoken message refl) ∙ h

  sources_of-verified :
      (r : QuoteRequest) (b : BlockContext) (all xs : Dict Deployment) (error : String)
      → ((id message : String)
          → deployment_error evm chain id ≡ some message
          → is_empty message ≡ false)
      → AllIn all xs
      → (sources_of
          (record chain { deployment_errors = deployment_errors evm chain all; error = error })
          r
          b
          xs).sources
        ≡ (sources_of unchecked r b (verified_only evm chain xs)).sources
  unfolding sources_of
  sources_of-verified r b all [] error spoken a = refl
  sources_of-verified r b all ((id, d) ∷ xs) error spoken (h, a) =
      ap
        (λ o.
          (add_source r b id d.kind (empty_or o) (lookup id chain.quoters) (
            sources_of
              (record chain { deployment_errors = deployment_errors evm chain all; error = error })
              r b xs)).sources)
        (lookup-error id all h)
      ∙ add_source-verified r b id d (deployment_error evm chain id) (verified_only evm chain xs) _
          (spoken id) (sources_of-verified r b all xs error spoken a)

-- After `VerifyDeployments`, `GetQuote` searches exactly the deployments whose verification passed, in
-- the order of their IDs, as if the others were not configured; where no verifier refuses a deployment
-- with an empty message.
pub quote_sources-verified :
    (evm : Evm) (chain : Chain) (r : QuoteRequest) (b : BlockContext)
    → ((id message : String)
        → deployment_error evm chain id ≡ some message
        → is_empty message ≡ false)
    → (quote_sources (verify_deployments evm chain) r b).sources
      ≡ (sources_of
          (record chain { deployment_errors = [] })
          r
          b
          (verified_only evm chain (sort_by by_id chain.config.deployments))).sources
unfolding quote_sources verify_deployments
quote_sources-verified evm chain r b spoken =
    sources_of-verified evm chain r b chain.config.deployments
      (sort_by by_id chain.config.deployments)
      (startup_error chain.error (deployment_errors evm chain chain.config.deployments)) spoken
      (sort-AllIn chain.config.deployments chain.config.deployments
        (AllIn-self chain.config.deployments))
