-- ===== src/Tests.antt =====
-- Runs of the model on concrete inputs, and an instance of each theorem that has hypotheses.
mod Program
mod Runs
mod Witnesses
mod Caches
mod Stores
mod Nodes
mod Shared
mod Waiting
