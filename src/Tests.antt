-- ===== src/Tests.antt =====
-- Runs of the modelled components at concrete inputs.
mod Buffers
mod Machine
mod Renaming
mod Operations
mod Pipelined
mod Predictors
mod Ordering
mod Fetching
