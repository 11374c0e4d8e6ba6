-- ===== src/Scheduler.antt =====
-- workbench/service.py and workbench/store.py: the shared queue and the decisions over it.
pub mod Model
pub mod Store
pub mod Finish
pub mod Grows
pub mod Frame
pub mod Available
pub mod Exclusion
pub mod Grant
pub mod Choice
pub mod Select
pub mod Ends
pub mod Answer
pub mod Rows
pub mod Each
pub mod Worker
pub mod Insertion
pub mod Control
pub mod Admission
pub mod Submit
pub mod Tick
pub mod Recovery
pub mod Keeps
pub mod Carries
pub mod Reached
