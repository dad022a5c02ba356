-- ===== src/Functions.antt =====
-- The class `Functions` of include/Functions.h and src/Functions.cpp: one copy job.
pub mod State
pub mod Listing
pub mod Sort
pub mod Work
pub mod Copy
pub mod Symlinks
pub mod Directories
pub mod Waiting
