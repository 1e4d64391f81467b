-- ===== src/Chunk.antt =====
-- The loader's verifier of src/chunk: the two passes, the dispatcher's moves, and what acceptance means.
pub mod Op
pub mod Word
pub mod Shape
pub mod Proto
pub mod Walk
pub mod Bitmap
pub mod Bounds
pub mod Flow
pub mod Dispatch
pub mod Safety
mod Runs
