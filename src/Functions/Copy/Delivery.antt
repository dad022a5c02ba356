-- ===== src/Functions/Copy/Delivery.antt =====
-- Following one file through `Copy` (src/Functions.cpp): what the shared state and the threads hold.
pub mod Defs
pub mod Sorting
pub mod Transfers
pub mod Working
pub mod Hands
pub mod Run
pub mod Outcome
