-- ===== src/Writer.antt =====
-- The chunk writer of src/emit/uemit_serialize.c. `Sink` is the buffer that may be NULL with the offset.
pub mod Sink
pub mod Emit
pub mod Stores
pub mod Format
pub mod Agrees
pub mod Fits
pub mod Serialize
