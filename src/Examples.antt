-- ===== src/Examples.antt =====
-- Runs of the models on concrete inputs, and the theorems at such inputs.
mod Grants
mod Nodes
mod Work
mod Log
mod Spending
mod Choices
mod Memory
mod Retry
mod Economics
mod Splitting
mod Restarts
