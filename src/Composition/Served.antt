-- ===== src/Composition/Served.antt =====
-- composition.go, `ConfigureChain`: what the maps of a configured chain hold for each id.
use epeius.Composition.Kinds.{v3_quoter_of, router_of, Provides, IsUnknown, IsMissing}
use mathlib.Core.Path.{subst}
use epeius.Prelude.{
  ◌≢◌, sym, str_eq_iff, Bool-cases, String, ◌≡◌, ◌⊎◌, refl, ap, ◌∙◌, Option, none, some, [], str_eq,
  inl, inr, if◌then◌else◌,
}
use epeius.Prelude.Dict.{Dict, lookup, Distinct}
use epeius.Prelude.Partial.{◌>>=◌, true-neq-false}
use epeius.Config.{Deployment, ProviderConfig}
use epeius.Routers.{RouterEncoder}
use epeius.Composition.{
  V3Quoter, Quoter, v3_quoter, slipstream_quoter, balancer_quoter, v4_quoter, Strategy,
  router_strategy, balancer_strategy, v4_strategy, Components, Registries, Composing, fee_provider,
  slipstream_provider, signer_check, balancer_provider, v4_components, v4_provider, register,
  configure_chain,
}
use epeius.Composition.Collected.{
  or_else, or_else-none, part_of, collect, collect-lookup, collected,
}

abbrev pub id_of : Quoter → String
id_of (v3_quoter q) = q.id
id_of (slipstream_quoter q) = q.id
id_of (balancer_quoter q) = q.id
id_of (v4_quoter q) = q.id

abbrev pub strategy_id : Strategy → String
strategy_id (router_strategy s) = s.id
strategy_id (balancer_strategy s) = s.id
strategy_id (v4_strategy s) = s.id

-- Only a quoter of a V3 deployment quotes a stored route again.
abbrev pub requoter_of : Quoter → Option V3Quoter
requoter_of (v3_quoter q) = some q
requoter_of (slipstream_quoter q) = none
requoter_of (balancer_quoter q) = none
requoter_of (v4_quoter q) = none

module _ (g : Composing) where
  -- A part of the engine that is there for this id, the same for quotes and for verification.
  pub record IsServed (id : String) (r : Registries) : Type 0 where
    pub deployment : Deployment
    pub configured : lookup id g.chain.deployments ≡ some deployment
    pub quoter : Quoter
    pub quotes : lookup id r.quoters ≡ some quoter
    pub of_id : id_of quoter ≡ id
    pub verifies : lookup id r.verifiers ≡ some quoter
    pub requotes : lookup id r.requoters ≡ requoter_of quoter
    pub strategy : Strategy
    pub prepares : lookup id r.preparers ≡ some strategy
    pub prepares_id : strategy_id strategy ≡ id
    pub provides : Provides g id deployment quoter strategy

  pub record IsUnserved (id : String) (r : Registries) : Type 0 where
    pub is_missing : IsMissing g (lookup id g.chain.deployments)
    pub no_quoter : lookup id r.quoters ≡ none
    pub no_verifier : lookup id r.verifiers ≡ none
    pub no_requoter : lookup id r.requoters ≡ none
    pub no_strategy : lookup id r.preparers ≡ none

  -- The components of one deployment: all that an id needs, or nothing.
  pub record IsWhole (id : String) (d : Deployment) (c : Components) : Type 0 where
    pub quoter : Quoter
    pub quotes : c.quoter ≡ some quoter
    pub of_id : id_of quoter ≡ id
    pub verifies : c.verifier ≡ some quoter
    pub requotes : c.requoter ≡ requoter_of quoter
    pub strategy : Strategy
    pub prepares : c.preparer ≡ some strategy
    pub prepares_id : strategy_id strategy ≡ id
    pub provides : Provides g id d quoter strategy

  pub record IsEmpty (d : Deployment) (c : Components) : Type 0 where
    pub unknown : IsUnknown g d
    pub no_quoter : c.quoter ≡ none
    pub no_verifier : c.verifier ≡ none
    pub no_requoter : c.requoter ≡ none
    pub no_strategy : c.preparer ≡ none

  abbrev Either : String → Deployment → Components → Type 0
  Either id d c = IsWhole id d c ⊎ IsEmpty d c

  nothing :
      (id : String) (d : Deployment) (c : Components)
      → IsUnknown g d
      → c.quoter ≡ none
      → c.verifier ≡ none
      → c.requoter ≡ none
      → c.preparer ≡ none
      → Either id d c
  nothing id d c u q v t p =
      inr (record { unknown = u; no_quoter = q; no_verifier = v; no_requoter = t; no_strategy = p })

  whole :
      (id : String) (d : Deployment) (c : Components) (q : Quoter) (s : Strategy)
      → Provides g id d q s
      → c.quoter ≡ some q
      → id_of q ≡ id
      → c.verifier ≡ some q
      → c.requoter ≡ requoter_of q
      → c.preparer ≡ some s
      → strategy_id s ≡ id
      → Either id d c
  whole id d c q s provides quotes of_id verifies requotes prepares prepares_id = inl (record {
    quoter = q;
    quotes = quotes;
    of_id = of_id;
    verifies = verifies;
    requotes = requotes;
    strategy = s;
    prepares = prepares;
    prepares_id = prepares_id;
    provides = provides;
  })

  fee_provider-Either :
      (encode : RouterEncoder) (id : String) (d : Deployment)
      → Provides g id d (v3_quoter (v3_quoter_of g id d)) (router_of g id d encode none "")
      → Either id d (fee_provider g encode id d)
  unfolding fee_provider
  fee_provider-Either encode id d provides = whole id d _ _ _ provides refl refl refl refl refl refl

  slipstream_provider-Either :
      (id : String) (d : Deployment) (options : ProviderConfig)
      → d.kind ≡ "aerodrome-slipstream"
      → d.provider_config ≡ options
      → Either id d (slipstream_provider g id d options)
  unfolding slipstream_provider signer_check
  slipstream_provider-Either id d (ProviderConfig.slipstream spacings) k e =
      whole id d _ _ _ (Provides.of_slipstream k e) refl refl refl refl refl refl
  slipstream_provider-Either id d ProviderConfig.unset k e =
      nothing id d _ (inr (inl (k, λ s f. cc))) refl refl refl refl
  slipstream_provider-Either id d (ProviderConfig.balancer vault pools) k e =
      nothing id d _ (inr (inl (k, λ s f. cc))) refl refl refl refl
  slipstream_provider-Either id d (ProviderConfig.uniswap_v4 m v p q r pools) k e =
      nothing id d _ (inr (inl (k, λ s f. cc))) refl refl refl refl

  balancer_provider-Either :
      (id : String) (d : Deployment) (options : ProviderConfig)
      → d.kind ≡ "balancer-v2"
      → d.provider_config ≡ options
      → Either id d (balancer_provider g id options)
  unfolding balancer_provider
  balancer_provider-Either id d (ProviderConfig.balancer vault pools) k e =
      whole id d _ _ _ (Provides.of_balancer k e) refl refl refl refl refl refl
  balancer_provider-Either id d ProviderConfig.unset k e =
      nothing id d _ (inr (inr (inl (k, λ v p f. cc)))) refl refl refl refl
  balancer_provider-Either id d (ProviderConfig.slipstream spacings) k e =
      nothing id d _ (inr (inr (inl (k, λ v p f. cc)))) refl refl refl refl
  balancer_provider-Either id d (ProviderConfig.uniswap_v4 m v p q r pools) k e =
      nothing id d _ (inr (inr (inl (k, λ a b f. cc)))) refl refl refl refl

  v4_provider-Either :
      (id : String) (d : Deployment) (options : ProviderConfig)
      → d.kind ≡ "uniswap-v4"
      → d.provider_config ≡ options
      → Either id d (v4_provider g id d options)
  unfolding v4_provider v4_components
  v4_provider-Either id d (ProviderConfig.uniswap_v4 m v p q r pools) k e =
      whole id d _ _ _ (Provides.of_v4 k e) refl refl refl refl refl refl
  v4_provider-Either id d ProviderConfig.unset k e =
      nothing id d _ (inr (inr (inr (k, λ m v p q r pools f. cc)))) refl refl refl refl
  v4_provider-Either id d (ProviderConfig.slipstream spacings) k e =
      nothing id d _ (inr (inr (inr (k, λ m v p q r pools f. cc)))) refl refl refl refl
  v4_provider-Either id d (ProviderConfig.balancer vault held) k e =
      nothing id d _ (inr (inr (inr (k, λ m v p q r pools f. cc)))) refl refl refl refl

  abbrev Made : String → Deployment → Option Components → Type 0
  Made id d none = IsUnknown g d
  Made id d (some c) = Either id d c

  -- One test of the kind.
  by_kind :
      (id : String) (d : Deployment) (kind : String) (x y : Option Components)
      → (d.kind ≡ kind → Made id d x)
      → (d.kind ≢ kind → Made id d y)
      → Made id d (if str_eq d.kind kind then x else y)
  by_kind id d kind x y hx hy = elim (Bool-cases (str_eq d.kind kind)) [
    | inl t ↦ rw t (hx ((str_eq_iff d.kind kind).0 t))
    | inr f ↦ rw f (hy (λ e. true-neq-false (sym ((str_eq_iff d.kind kind).1 e) ∙ f)))
  ]

  register-Made : (id : String) (d : Deployment) → Made id d (register g id d)
  unfolding register
  register-Made id d =
      by_kind id d "uniswap-v3" _ _ (λ k. fee_provider-Either _ id d (Provides.of_uniswap k))
        (λ n1.
          by_kind id d "pancake-v3" _ _ (λ k. fee_provider-Either _ id d (Provides.of_pancake k))
            (λ n2.
              by_kind id d "aerodrome-slipstream" _ _
                (λ k. slipstream_provider-Either id d d.provider_config k refl)
                (λ n3.
                  by_kind id d "balancer-v2" _ _
                    (λ k. balancer_provider-Either id d d.provider_config k refl)
                    (λ n4.
                      by_kind id d "uniswap-v4" _ _
                        (λ k. v4_provider-Either id d d.provider_config k refl)
                        (λ n5. inl (n1, n2, n3, n4, n5))))))

  module _ (distinct : Distinct g.chain.deployments) (id : String) where
    map_of :
        {V : Type 0} (part : Components → Option V) (held : Dict V) (o : Option Deployment)
        → held ≡ collect g part g.chain.deployments []
        → lookup id g.chain.deployments ≡ o
        → lookup id held ≡ or_else (part_of g part id o) none
    unfolding lookup
    map_of part held o e found =
        ap (lookup id) e
        ∙ collect-lookup g part id g.chain.deployments [] distinct
        ∙ ap (λ (d : Option Deployment). or_else (part_of g part id d) none) found

    abbrev start : Registries
    start = record { quoters = []; requoters = []; verifiers = []; preparers = [] }

    held :
        {V : Type 0} (part : Components → Option V) (map : Dict V) (d : Deployment)
        (o : Option Components) (v : Option V)
        → map ≡ collect g part g.chain.deployments []
        → lookup id g.chain.deployments ≡ some d
        → register g id d ≡ o
        → (o >>= part) ≡ v
        → lookup id map ≡ v
    held part map d o v e found made of_part =
        map_of part map (some d) e found
        ∙ ap (λ (c : Option Components). or_else (c >>= part) none) made
        ∙ ap (λ x. or_else x none) of_part
        ∙ or_else-none v

    abbrev Answer : Type 0
    Answer = IsServed id (configure_chain g) ⊎ IsUnserved id (configure_chain g)

    of_components :
        (d : Deployment) (o : Option Components)
        → lookup id g.chain.deployments ≡ some d
        → register g id d ≡ o
        → Made id d o
        → Answer
    unfolding configure_chain
    of_components d none found e made =
        let (q, t, v, p) = collected g g.chain.deployments start in
        inr (record {
          is_missing = subst (IsMissing g) (sym found) made;
          no_quoter = held _ _ d none none q found e refl;
          no_verifier = held _ _ d none none v found e refl;
          no_requoter = held _ _ d none none t found e refl;
          no_strategy = held _ _ d none none p found e refl;
        })
    of_components d (some c) found e (inr made) =
        let (q, t, v, p) = collected g g.chain.deployments start in
        inr (record {
          is_missing = subst (IsMissing g) (sym found) made.unknown;
          no_quoter = held _ _ d (some c) none q found e made.no_quoter;
          no_verifier = held _ _ d (some c) none v found e made.no_verifier;
          no_requoter = held _ _ d (some c) none t found e made.no_requoter;
          no_strategy = held _ _ d (some c) none p found e made.no_strategy;
        })
    of_components d (some c) found e (inl made) =
        let (q, t, v, p) = collected g g.chain.deployments start in
        inl (record {
          deployment = d;
          configured = found;
          quoter = made.quoter;
          quotes = held _ _ d (some c) _ q found e made.quotes;
          of_id = made.of_id;
          verifies = held _ _ d (some c) _ v found e made.verifies;
          requotes = held _ _ d (some c) _ t found e made.requotes;
          strategy = made.strategy;
          prepares = held _ _ d (some c) _ p found e made.prepares;
          prepares_id = made.prepares_id;
          provides = made.provides;
        })

    of_deployment : (o : Option Deployment) → lookup id g.chain.deployments ≡ o → Answer
    unfolding configure_chain
    of_deployment none missing =
        let (q, t, v, p) = collected g g.chain.deployments start in
        inr (record {
          is_missing = subst (IsMissing g) (sym missing) tt;
          no_quoter = map_of _ _ none q missing;
          no_verifier = map_of _ _ none v missing;
          no_requoter = map_of _ _ none t missing;
          no_strategy = map_of _ _ none p missing;
        })
    of_deployment (some d) found = of_components d (register g id d) found refl (register-Made id d)

abbrev pub Serves : Composing → String → Registries → Type 0
Serves g id r = IsServed g id r ⊎ IsUnserved g id r

-- After `ConfigureChain`, for every id: either a deployment with that id is configured, with a registered
-- kind and with the options of its kind, and the chain has the quoter and the strategy of that kind with
-- its values (the router's encoder of the kind, and for Slipstream the check of the signer's discount),
-- the quoter also as the verifier of deployments, and as the requoter of stored routes just if it is
-- that of a V3 deployment; or no deployment has the id, or one of an unregistered kind or with options
-- of another kind, and the chain has none of the four. The configuration is taken to hold an id once,
-- as a map does.
pub configure_chain-Serves :
    (g : Composing) → Distinct g.chain.deployments → (id : String) → Serves g id (configure_chain g)
configure_chain-Serves g distinct id =
    of_deployment g distinct id (lookup id g.chain.deployments) refl
