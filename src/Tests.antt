-- ===== src/Tests.antt =====
-- Runs of the model on small inputs, and the theorems at them.
mod Fixture
mod Stores
mod Crowds
mod Executions
mod Paths
mod Quotes
mod Requotes
mod Settings
mod Startup
mod Splits
mod Simulations
mod Ticks
mod Hooks
mod Reviews
mod Registry
mod Pools
mod Plans
mod Forks
