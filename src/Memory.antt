-- ===== src/Memory.antt =====
-- kernel/memory.c: the bitmap of page frames, the window for mapping frames, and the boot map.
pub mod Bitmap
pub mod Frames
pub mod Window
pub mod Share
pub mod Copy
mod Examples
