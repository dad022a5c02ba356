-- ===== src/Tests.antt =====
-- Tests on small inputs.
mod Samples
mod Copying
mod Locking
mod Containers
mod Program
mod Times
mod Sorting
mod Framing
mod Listing
mod ThreadSafe
mod Fairness
mod Relinking
mod Sizes
mod Searching
mod Directories
