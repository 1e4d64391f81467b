-- ===== src/Lib.antt =====
-- A verification library of parts of urbi-embedded, an embeddable virtual machine of the urbiscript
-- language in C: a compiler (src/lex, src/parse, src/emit) makes chunks of bytecode, src/chunk stores,
-- loads and verifies them, and src/rt runs them on strands.
--
-- What is modelled, and where:
-- * Varint (src/util/uvarint.c): the LEB128 codec that the chunk format is written in. Its functions
--   keep their names. The loops of the encoder recur on the well-founded order of the numbers, that of
--   the decoder on the bytes.
-- * Chunk (src/chunk/uchunk_verify.c, src/chunk/uopcode_shape.c, the instruction layout of
--   src/chunk/uchunk.h, the opcodes of src/chunk/uopcodes.def): the two passes of the load-time
--   verifier as uchunk_deserialize runs them on a decoded tree of protos. Chunk/Op, Word, Shape and
--   Proto hold the data, Chunk/Walk pass 1, Chunk/Bounds pass 2 and Chunk/Bitmap the bitmap of prelude
--   words. A result is `ok`, an error code, or `fault`, a read through a NULL
--   child. The reads of words, shapes and the bitmap at an index take a default past the end, and no
--   result says that they stay inside. The caller's allocator is a parameter that says which
--   requests it serves. The texts of diagnostics are left out.
-- * Loader (the decoder of src/chunk/uchunk_io.c): uchunk_deserialize, its section decoders under their
--   names, and the verifier at the end. Loader/Image holds what a chunk is (UProto and its source name),
--   Loader/Valid the limits of the format, Loader/Input the decode context, which is the offset and the
--   bytes from it on, as the state of a reader that answers a value, an error code or `fault`, which is here a
--   read past the end, Loader/Sections and Tree the decoders. Loader/Reads, Round, RoundTree and RoundTrip follow the reading
--   of written bytes, Loader/Yields, Sound and SoundTree what any buffer can lead to. The caller's
--   allocator says by the size which requests it serves, and the size of a UProto is a parameter. The
--   depth that the decoder counts up to UCHUNK_MAX_PROTO_DEPTH is counted down from 64. Serial numbers,
--   back pointers and the release of a chunk are left out.
-- * Writer (src/emit/uemit_serialize.c): uchunk_serialize and the stores that it is made of, on a buffer or
--   on NULL. Writer/Sink and Emit hold the functions, Writer/Format the bytes of a chunk as a function of
--   it alone, Writer/Stores and Agrees relate the two, and Writer/Fits says that a chunk within the
--   limits has no number that is too wide.
-- * Chunk/Flow and Chunk/Dispatch: how the dispatcher of src/rt/uexec_ops.c (uexec_run_inner) moves
--   through the words of one proto, and which registers and tables each word addresses with no test of
--   its own. It stands for the code that relies on the verifier. A handler pc that a scope or an unwind
--   stores is taken as a place to go on at from the word that stores it, a test as one that may go
--   either way, and a word that raises or returns as one that need not go on in this frame. What the
--   words compute is not modelled.
--   Chunk/Safety joins the two.
-- * Containers (src/rt/ulist.c): the List and Dict cells. Containers/Vector relates a list to the
--   sequence of its elements in use, Containers/Table and Removal a dictionary to the answers of its
--   lookups. The values, the equality of keys (`uv_equal`) and the allocator's answers are parameters.
-- * Arena (src/util/uarena.c): the bump allocator of the compiler. Arena holds the chain of chunks and
--   the operations, Arena/Fits the arithmetic, Arena/Chain the choice of a chunk and Arena/Bump what
--   callers can rely on. The backing allocator is a parameter, and `size_t` has 64 bits. The
--   theorems are about requests below 2 ^ 60 bytes: near 2 ^ 64 the code's sum of used and requested
--   bytes wraps, as a run in Arena/Runs shows.
-- * Timers (src/rt/usched.c): the timer heap of the scheduler. Timers/Order says what heap order is
--   while one record sifts up or down, Timers/Sift and Sink follow the two sifts, Timers/Count what the
--   array holds, Timers/Queue adding and removing, Timers/Drop the bulk drops and Timers/Sleeper the scan
--   for a strand's record. A timer's strand, closure, tag and realm are
--   numbers, and a heap is taken to have fewer than 2 ^ 31 records, so that no child's index wraps.
-- * Scheduler (src/rt/usched.c): the run queue and the wait lists, which are threaded through one `link`
--   of each strand, and usched_enqueue, usched_dequeue, usched_unqueue, usched_park, usched_unlink_wait and
--   usched_wake on them. A strand and the head of a wait list are numbers, 0 is NULL, and the store is a
--   function of them, so that a write to one strand is seen through every list. Scheduler/Threads, Erase,
--   Threaded and Joined are about sequences threaded through a store of links, Scheduler/State says what a
--   well-formed state is, Frame what an operation leaves as it was, Queue, Settle, Enqueue, Unqueue, Park,
--   Unlink and Wake follow the operations, Enter the ends of uexec_run (src/rt/uexec_ops.c), which make a
--   strand the dispatching one and RUNNING, Reach the states that all of them lead to, and Turn the order
--   in which the queue is served. A walk along a list takes a bound on
--   its rounds; the length of the list is enough. The assertion of a debug build is left out.
--   Spawning, death and the release of a gate are no steps of Reach.
--   Scheduler/Gates holds the scopes and the gates of src/rt/utag.c (utag_covers, utag_gate) on the same
--   state, with the strands of each realm as a list; Blocked and Block follow the setting of a gate.
-- * Ring (urbi_inject_event of src/rt/uapi.c, usched_drain_isr of src/rt/usched.c): the ring between an
--   interrupt handler and the scheduler, each call of the one and each round of the other being one step.
--   Ring/Record says what an injection writes, and Ring/Fifo relates the ring to the sequence of the records in it.
--
-- Numbers: a machine-width integer is a natural number with its wrap-around written out where the code
-- can reach it; instruction counts and indices are below the cap that the loader has checked, so that
-- no sum of them wraps a size_t. The loops of the verifier recur on a bound on the rounds that are
-- left; `instr_count` rounds are enough since each moves on by one word at least. The padding
-- before the words takes 3 rounds at most, the reserved bytes of a header 8, and the doubling of a
-- decoder's array 64, which take a capacity past every size_t. The doubling in `ulist_new` has 30 rounds, which take 4 past every 32-bit hint that a capacity can reach.
--
-- Not modelled: the compiler up to the writer of chunks, the release of chunks, the objects, the garbage
-- collector, the rest of the scheduler (spawning, death, the emission of events, steps), the host, REPL and ROS bindings, and the script library.
pub mod Shared
pub mod Varint
pub mod Writer
pub mod Chunk
pub mod Containers
pub mod Arena
pub mod Loader
pub mod Timers
pub mod Ring
pub mod Scheduler
