-- ===== src/Chunk/Safety.antt =====
-- What src/chunk/uchunk_verify.c means for the dispatcher, and where its passes end.
pub mod Landing
pub mod Steps
pub mod Frame
pub mod Tree
pub mod Defined
pub mod NoFault
pub mod Fuel
