-- ===== src/Http.antt =====
-- The HTTP part of the library, snode::http.
pub mod Body
pub mod Compare
pub mod Searcher
pub mod Chunked
pub mod ChunkReader
pub mod Dispatch
pub mod Handlers
pub mod Headers
pub mod HeaderSize
pub mod RequestHead
pub mod ResponseHead
pub mod ResponseWriter
pub mod Helpers
pub mod Phrases
pub mod Message
