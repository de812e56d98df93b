-- ===== src/PhysicalMemory/Faults.antt =====
-- What `freePages` and `allocatePages` do outside the cases where the list is kept.
pub mod Head
pub mod Leak
pub mod Merge
pub mod Overlap
pub mod Race
