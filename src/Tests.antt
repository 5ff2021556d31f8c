-- ===== src/Tests.antt =====
-- Runs of the model at concrete inputs, and the theorems at inputs that meet their hypotheses.
mod Arena
mod Buffers
mod Devices
mod Entries
mod Items
mod Lists
mod Loops
mod Names
mod Pipes
mod Waiters
