-- ===== src/Slab.antt =====
-- include/s2e/Slab.h and src/s2e/Slab.cpp: the slab allocator behind `operator new`.
pub mod Bitmap
pub mod RegionMap
pub mod PageAllocator
pub mod BlockHdr
pub mod BlockAllocator
pub mod SlabAllocator
pub mod OperatorNew
mod Tests
