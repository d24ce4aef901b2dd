-- ===== src/Examples.antt =====
-- The theorems at concrete inputs, and tests.
mod Base
mod Memory
mod Cas
mod Faa
mod Mcs
mod Qspinlock
mod LockManager
mod TwoTier
mod Process
mod Region
mod LocalLock
mod NodeRegistry
mod DistributedLock
mod Running
mod Closing
