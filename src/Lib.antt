-- ===== src/Lib.antt =====
-- pipepp core: a header-only C++ library that moves messages from a bus source through stages to a
-- sink, in fixed buffers. The parts and the files that model them, with the paths of the code:
--   * include/pipepp/core/error_code.hpp - ErrorCode
--   * include/pipepp/core/expected.hpp - Expected: `expected` and `result` as values or errors;
--     ExpectedObject: the union, with the lifetimes of its members; ExpectedObject/OfVoid: the
--     specialisation for void
--   * include/pipepp/core/config.hpp - Config (the constants of a build)
--   * include/pipepp/core/fixed_string.hpp - FixedString: the buffer with its terminator;
--     FixedString/CStr: as a C string, and `fixed_string_literal`
--   * include/pipepp/core/message.hpp - Message: `message_view`, and `basic_message` with its buffers
--   * include/pipepp/core/uri.hpp - Uri: `uri_view` and the two parsers; Uri/Basic: `basic_uri`
--   * include/pipepp/core/concepts.hpp, message_callback.hpp - Source: `BusSource`, `subscription`
--   * include/pipepp/core/stages.hpp - Stages: what `process_fn`, `sink_fn` and `config_fn` hold;
--     Pipeline/Closures: the wrappers as objects with storage, in the arrays of a pipeline
--   * include/pipepp/core/small_function.hpp - SmallFunction: storage and lifetimes of closures
--   * include/pipepp/core/spinlock.hpp - Spinlock, as one thread uses it; Spinlock/Threads: several
--     threads as a step relation, and Pipeline/Emit/Threads: `emit` called by them
--   * include/pipepp/core/pipeline.hpp - Pipeline: `basic_pipeline` and the calls that build it;
--     Pipeline/Emit: `emit` and `process_message`; Pipeline/Run: `run`, `event_loop`, `poll_once`
--   * include/pipepp/core/pipeline_ops.hpp - PipelineOps: the pipe syntax
--   * include/pipepp/core/pipeline_factory.hpp - Allocator: construction in the caller's memory,
--     and Allocator/Lifetime: its end
--   * include/pipepp/core/connect_to.hpp - ConnectTo: sinks that emit into another pipeline, which is
--     part of the world; Network: pipelines at addresses that emit into one another, and
--     Network/Threads: the locks that threads hold and wait for there, as a step relation
--   * include/pipepp/core/adapt.hpp - Adapt: the source over a range
--   * include/pipepp/core/as_range.hpp - SinkBuffer: the bounded buffer of messages
--   * include/pipepp/core/any_source.hpp - AnySource: the table of functions, lifetimes
--   * include/pipepp/core/source_registry.hpp - Registry: from schemes to factories;
--     Registry/Types: factories made from a type, and `source_factory`; Registry/Threads: registration
--     and lookups by several threads, as a step relation
-- Prelude holds the shared names and lists, Text the searches of `std::string_view`, Exec what a call
-- comes to, and Examples runs the theorems and the definitions at concrete inputs.
--
-- How the parts interact: a pipeline owns a source, a URI, three arrays and a sink. Builder calls fill
-- the arrays or leave a pending error. `run` connects the source with the URI, applies the
-- configuration functions, subscribes, and polls the source until it is disconnected or the pipeline is
-- stopped; the source hands each message to `emit`, which copies it into a buffer and calls the stages
-- and the sink under the lock.
--
-- How the code is read:
--   * Characters and bytes are numbers, a `std::string_view` is the list of its characters; a view in
--     Uri also keeps which object it looks into and at which offset.
--   * `Config` is a value, so the theorems hold for any sizes.
--   * Closures are functions of a world `W`, which stands for all that they share or own, into `Exec`:
--     a result, or a fault (a call of an empty closure, a lock taken twice by its holder, an index out
--     of range). A closure may stop the pipeline; its further calls of the pipeline are not modelled.
--   * A source is a state with the operations of `BusSource`; `poll` gives the messages that it hands
--     to the callback, in order, and what a source does to itself between them is in the state after.
--   * The loop of `run` takes a schedule, which says at each test of the condition whether another
--     thread has called `stop()`. A schedule that stops is long enough for any run; one that ends
--     before the loop does gives the fault `unfinished`. Pipeline/Run/Early has the calls of `stop()`
--     that come before the loop.
--   * In Network a sink that `connect_to` made is told by what it captured, so that pipelines may emit
--     into one another; all other closures are functions as above. In Network/Threads only the locks
--     are followed, and what becomes of a message is left open.
--   * `emit` in a network takes the number of calls that may be nested; one more than there are pipelines
--     is enough, as each call holds a lock that the others do not.
--
-- Not modelled: the size and the alignment of a pipeline, which are the compiler's, and the umbrella
-- header. Memory orders are not modelled: the atomics are read as sequentially consistent.
mod Prelude
pub mod ErrorCode
pub mod Expected
pub mod ExpectedObject
pub mod FixedString
pub mod Config
pub mod Message
pub mod Text
pub mod Uri
pub mod Exec
pub mod Source
pub mod Spinlock
pub mod Stages
pub mod Pipeline
pub mod Adapt
pub mod Registry
pub mod ConnectTo
pub mod Network
pub mod PipelineOps
pub mod SinkBuffer
pub mod Allocator
pub mod SmallFunction
pub mod AnySource
mod Examples
