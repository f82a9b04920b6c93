-- ===== src/ObjStore.antt =====
-- The object store of assignment4: the block device, the block cache and what is built on them.
pub mod Disk
pub mod Cache
pub mod Scan
pub mod Bitmap
pub mod Store
pub mod Alloc
pub mod Lookup
pub mod Create
pub mod Rename
pub mod Destroy
pub mod Mount
pub mod Data
