-- ===== src/Lib.antt =====
-- A model of the quote engine of Epeius (services/quote-engine), which quotes swaps over the DEX
-- deployments of a chain and prepares the transaction of a selected route for signing.
--
-- The parts, and how they work together:
-- - Wire (proto/epeius/quote/v1/quote.proto), Config
--   (services/quote-engine/internal/config/config.go), Engine
--   (services/quote-engine/internal/quote/handler.go and preparation.go: the handler's state and
--   the interfaces of its parts), Evm (services/quote-engine/internal/evm/abi.go, the readers, and
--   go-ethereum as parameters). A record stands for a struct, an `Option` for a pointer that may
--   be nil, an association list for a map.
-- - Candidates (services/quote-engine/internal/quote/v3.go): the iterator over the one- and
--   two-hop paths of a V3 deployment, with the indices of the source.
-- - Search and Quoting (services/quote-engine/internal/quote/handler.go): `GetQuote`. It checks
--   the request, collects the candidates of every deployment, lets a bounded number of workers
--   quote them, orders the results by index and names the best route. Search holds the workers: a
--   state, and moves of single workers, of which a schedule is any list; Quoting holds the checks
--   (Checks), the sources (Sources), the choice of the best route (Best) and the answer. Status is
--   `GetStatus`.
-- - Store (services/quote-engine/internal/quote/store.go): the quotes and the preparations that
--   the handlers share. Each operation holds the mutex, so concurrent requests are a list of
--   operations. Times are nanoseconds that the caller passes.
-- - Execution (services/quote-engine/internal/quote/execution.go): `PrepareExecution`, a state
--   monad over the store with early answers (Outcome), in the order of the source: admission and
--   terms (Admit), checks of the verification, the clock and the allowance (Checks), permission,
--   simulation and the final answer (Finish). World (Environment) is what one call meets: the
--   clock at each place that reads it, which blocks are canonical, the simulator, and the calls
--   that other requests make on the store between two uses of it. Spec is the Hoare logic that the
--   proofs share.
-- - Executor (services/quote-engine/internal/quote/executor.go): the admission of a split of the
--   input between the two venues, its requoting (Selection), what a simulation of it has to keep
--   (Probes) and the plan that is built (Build).
-- - Verify (services/quote-engine/internal/quote/deployments.go, v3_deployments.go, verifyExecutor
--   of executor.go): which deployments the chain's code and links confirm at startup.
-- - V3Quoter (services/quote-engine/internal/providers/uniswapv3/provider.go,
--   services/quote-engine/internal/quote/v3.go): the quote of a pool, of a path and of a stored
--   route with another input, and the candidates with their quotes (Offered).
-- - Simulators (services/quote-engine/internal/quote/tenderly.go, anvil.go): the request that a
--   simulator sends and the judgement of the reply, over a function from the request to the reply.
--   Execution/Simulated joins them with Execution.
-- - Routers (services/quote-engine/internal/quote/routers.go, calldata.go): the strategy of the
--   direct routers with its encoders.
-- - Balancer (services/quote-engine/internal/quote/balancer_v2.go): the pools of a Vault, the
--   quoter (Quoter) with the errors of its pools, and the strategy with its own verification
--   (Preparation).
-- - Slipstream (services/quote-engine/internal/quote/slipstream.go, slipstream_execution.go,
--   services/quote-engine/internal/providers/slipstream/provider.go): the links of a deployment
--   with its fee module, the discounts of the quote origin and of the signer, the quotes of a pool
--   and of a path.
-- - V4 (services/quote-engine/internal/quote/v4.go,
--   services/quote-engine/internal/providers/uniswapv4/provider.go): the quoter of configured
--   pools; Router (services/quote-engine/internal/quote/v4_router.go): its strategy, which asks
--   for a permission of Permit2.
-- - Composition (services/quote-engine/internal/quote/composition.go): the registry of the
--   protocols and the maps of quoters, verifiers, requoters and strategies that a chain gets.
-- - Options (services/quote-engine/internal/providers/slipstream/config.go, balancer/config.go,
--   uniswapv4/config.go, and the checks of a chain in
--   services/quote-engine/internal/config/config.go): the values that a configuration may hold.
-- - Path (services/quote-engine/internal/quote/calldata.go): the packed paths of the routers.
-- - Prelude: the strings, numbers, maps and sorting of Go. Numbers of `math/big` are unbounded
--   integers; uint32 and uint64 wrap around where the source computes on them.
--
-- Names follow the source in snake_case.
--
-- Parameters: go-ethereum's parsing and printing of addresses and hashes and the ABI packing of
-- the contract calls (Evm, Contracts, and a record of calls for each protocol), the readers of a
-- chain, the replies of the simulators' servers, and, for the handler of PrepareExecution, the
-- strategies that build a plan. A hypothesis on them stands with the theorem that needs it. There
-- is no fuel in the models of the handlers: their loops run over finite lists, and the search ends
-- by a measure that every move of a worker lowers.
--
-- Not modelled: the RPC client and the encodings of the simulators' requests (network), the
-- candidates of Slipstream, the loading of the configuration, the start-up of the engine, the
-- terminal application and the contracts.
pub mod Prelude
pub mod Wire
pub mod Evm
pub mod Config
pub mod Candidates
pub mod Search
pub mod Quoting
pub mod Status
pub mod Store
pub mod Engine
pub mod Execution
pub mod Executor
pub mod Path
pub mod Balancer
pub mod Composition
pub mod Options
pub mod Routers
pub mod Simulators
pub mod Slipstream
pub mod V3Quoter
pub mod V4
pub mod Verify
pub mod Tests
