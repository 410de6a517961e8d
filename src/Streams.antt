-- ===== src/Streams.antt =====
-- The stream buffers of snode::streams.
pub mod Block
pub mod ProducerConsumer
pub mod Streambuf
pub mod Heads
pub mod Istream
pub mod Source
pub mod Container
