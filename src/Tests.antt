-- ===== src/Tests.antt =====
-- Tests of the models on small inputs, and the theorems at concrete inputs.
mod Fixtures
mod Queues
mod States
mod Wires
mod Retries
mod Reconciling
mod Commands
mod Events
mod Actors
mod Libraries
mod Histories
mod Pipelines
mod Workers
