-- ===== src/Examples.antt =====
-- Concrete queues, requests and messages: the theorems at inputs that meet their hypotheses, and
-- tests of the definitions by evaluation.
mod Data
mod Queue
mod Resources
mod Advice
mod Workers
mod Runs
mod Repairs
mod Leases
mod Elves
mod Messages
mod Dexes
mod Care
