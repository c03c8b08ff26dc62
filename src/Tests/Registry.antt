-- ===== src/Tests/Registry.antt =====
-- The maps of a chain with a Uniswap and a Pancake deployment.
use epeius.Prelude.{refl}
use epeius.Prelude.Dict.{Distinct, lookup}
use epeius.Composition.{Composing, configure_chain}
use epeius.Composition.Served.{Serves, configure_chain-Serves}
use epeius.Tests.Fixture.{evm, reader}
use epeius.Tests.Plans.{calls as router_calls}
use epeius.Tests.Ticks.{calls as slipstream_calls}
use epeius.Tests.Hooks.{calls as v4_calls}
use epeius.Tests.Splits.{splitting_chain}

abbrev composing : Composing
composing = record {
  evm = evm;
  reader = reader;
  chain_id = "8453";
  chain = splitting_chain.config;
  router_calls = router_calls;
  slipstream_calls = slipstream_calls;
  v4_calls = v4_calls;
}

ids_differ : Distinct splitting_chain.config.deployments
unfolding lookup
ids_differ = (refl, (refl, tt))

configure_chain-Serves_example : Serves composing "cake" (configure_chain composing)
configure_chain-Serves_example = configure_chain-Serves composing ids_differ "cake"
