-- ===== src/Lib.antt =====
-- snode is an asynchronous server framework in C++: streams over buffers that are read and written
-- without blocking, and an HTTP service on top of them.
--
-- The parts and how they meet. A stream writes to and reads from a buffer:
-- `Streams.ProducerConsumer` (src/producer_consumer_buf.h) queues blocks of bytes and the read
-- requests that wait for them, over the single block of `Streams.Block`; `Streams.Container`
-- (src/container_buffer.h) is one array with one head. `Streams.Streambuf` (src/async_streams.h) is
-- the public face of such a buffer, with its tests of the I/O mode, and `Streams.Heads` the input
-- and output streams that share it; `Streams.Istream` reads from it up to a delimiter, a line or
-- the end. `Streams.Source` (src/sourcebuf.h) reads from a source that is a parameter.
-- `Http.RequestHead` (src/http_service.cpp) reads a request's head and `Http.ChunkReader` its body
-- in chunks; `Http.Dispatch` chooses a handler, `Http.ResponseHead` writes the head of the response
-- with the sizes that `Http.HeaderSize` (src/http_headers.h) reads, and `Http.ResponseWriter` its
-- body. `Http.Body` (src/http_service.cpp) reads a request's body from a socket into such a buffer,
-- after `Http.Searcher` found the end of the headers in what came in. `Http.Headers`
-- (src/http_headers.h) keeps the header map in the order of `Http.Compare` (src/utils.h);
-- `Http.Helpers` (src/http_helpers.cpp) takes header values apart. `Http.Message` (src/http_msg.h
-- and src/http_msg.cpp) holds the request, its response and the handlers that wait, `Http.Handlers`
-- the table of handlers for paths, and `Http.Phrases` the table of status codes of
-- src/http_constants.dat. `Http.Chunked` frames the chunks of a response. `Services.Config`
-- (src/config_reader.cpp) reads the configuration, by which `Services.Core` (src/snode_core.cpp)
-- starts the services whose classes are in `Services.Registry` (src/reg_factory.h) and hands them
-- what is accepted. `Services.Listeners` (src/net_service_helpers.h) picks the thread for a new
-- connection, `Services.ThreadPool` (src/threadpool.h, src/synchronised_queue.h) runs the tasks of
-- each thread until `stop`, and `Services.Allocator` (src/handler_allocator.h) has the memory of a
-- connection's handlers. `Uri` (src/uri_utils.cpp) takes the path of a request apart. `Media`
-- (src/media/media_player.cpp) makes the players of streams. `Prelude` has the numbers, lists and
-- texts that these share.
--
-- How the code is rendered. A class is a record with the source's fields, and a member function is
-- a function of the same name from the record to its result and the record after the call. What a
-- function hands to `async_task::connect`, or calls as a handler, is a value in a returned list, in
-- the order of the calls. An exception or a failed `assert` is `none`, or a flag where state
-- changes before it; the asserts inside the reads and writes of a producer-consumer buffer are
-- Booleans beside the functions (`Streams.ProducerConsumer.Asserts`). Behaviour that C++ leaves
-- undefined is `none` too, or `undefined`, and said where it occurs. `Run`, `History` and `Reading`
-- are histories: sequences of calls, or of handlers with the events of the environment between
-- them. One thread owns an object, as in the source, so calls do not overlap.
--
-- Numbers. `size_t` has 64 bits and wraps (`add_size`, `sub_size`); the laws that need it ask that
-- sizes can be counted, that is, stay below 2^64. `char` is a byte, ordered as signed where it is
-- compared. Hexadecimal numbers have fuel for 16 digits and decimal ones for 20, which is enough
-- below 2^64. The loops that read take fuel for one round more than there are bytes, characters
-- wanted or headers; the theorems about them show that this is enough.
--
-- Slicing. The HTTP code calls the stream buffer of a message on a copy of its base class (`auto`
-- in place of `auto&`), creates the streams of a request of a local buffer, and queues handlers by
-- their base class. The first is an environment here, whose answers are events of the histories;
-- the second is where `Http.Dispatch` begins, behind the creation; the third is an effect of its
-- own in `Http.Message`.
--
-- Not modelled: sockets, the event loop, timers, what a player is to do beyond reading, the calls
-- of src/async_streams.h that cannot be compiled with these buffers (among them copying a number of
-- characters from one to another), the extraction of a message's content, which reads a sliced copy
-- of a stream buffer, and what only forwards to boost or to the C library.
pub mod Http
pub mod Media
pub mod Prelude
pub mod Services
pub mod Streams
pub mod Uri
