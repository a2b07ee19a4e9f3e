-- ===== src/Control/Examples.antt =====
-- Runs of the executor, and its theorems at inputs that meet their hypotheses.
mod Heat
mod Failsafe
mod Commands
mod Boosts
mod Reconcile
