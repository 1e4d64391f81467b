-- ===== src/Loader.antt =====
-- The deserializer of src/chunk/uchunk_io.c. `Image` holds what a chunk says, `Input` the bytes that are
-- left with the calls that every section uses, `Sections` the sections of a proto, `Tree` the recursion
-- over nested protos and uchunk_deserialize.
pub mod Image
pub mod Valid
pub mod Input
pub mod Sections
pub mod Tree
pub mod Reads
pub mod Round
pub mod RoundTree
pub mod RoundTrip
pub mod Yields
pub mod Sound
pub mod SoundTree
mod Runs
