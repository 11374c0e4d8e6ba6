-- ===== src/Leases.antt =====
-- workbench/leases.py: leases, the tasks that stand for the use of a local tool by someone outside.
-- The service knows such a user as a tree of processes.
pub mod Processes
pub mod Descent
pub mod Requests
