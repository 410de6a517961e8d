-- ===== src/Http/Body.antt =====
-- How `http_connection` of src/http_service.cpp reads a request's body of known length: from the end of
-- `handle_headers` over `handle_body` and `handle_body_buff_write` until `complete`. The socket is the
-- environment: an `async_read` ends with more bytes or with an error. So are the calls of `putn`: they
-- are made on `writebuf`, a copy of the base class of the stream's buffer, where what they do is
-- undefined; here their handler is called with the count that they were given, or with 0.
pub mod Laws
mod Tests
use snode.Prelude.{
  ℕ, ◌+◌, ◌-◌, ◌≤◌, Bool, true, false, List, [], ◌∷◌, ◌++◌, Option, none, some, Bytes, length, take,
  drop, min, add_size, sub_size, ltb, leb, ◌==◌, if◌then◌else◌,
}

abbrev pub chunk_size : ℕ
chunk_size = 4096

-- The fields that the handlers use. `accepted` is what the calls of `putn` were given that were
-- answered with their count, and `completed` the argument of `complete` once it is called.
pub record Connection : Type 0 where
  pub request_buf_ : Bytes
  pub read_ : ℕ
  pub read_size_ : ℕ
  pub accepted : Bytes
  pub completed : Option ℕ

-- What the connection waits for: an `async_read` of at least so many bytes, a `putn` of these bytes,
-- or nothing more for this body.
pub data Pending : Type 0 where
  async_read : ℕ → Pending
  putn : Bytes → Pending
  idle : Pending

unfoldable pub async_read_until_buffersize : ℕ → Connection → Pending
async_read_until_buffersize size c =
    if leb size (length c.request_buf_)
    then async_read 0
    else async_read (size - length c.request_buf_)

unfoldable pub complete : ℕ → Connection → Connection
complete body_size c = record c { completed = some body_size }

-- The end of `handle_headers`, where `read_size_` is the content length.
unfoldable pub start_body : Connection → Connection × Pending
unfolding async_read_until_buffersize complete
start_body c =
    if c.read_size_ == 0
    then (complete 0 c, idle)
    else let c' = record c { read_ = 0 } in
      (c', async_read_until_buffersize (min chunk_size c'.read_size_) c')

unfoldable pub handle_body : Bool → Connection → Connection × Pending
unfolding complete
handle_body ec c =
    if ec
    then (complete 0 c, idle)
    else if ltb c.read_ c.read_size_
    then (
      c,
      putn (take (min (length c.request_buf_) (sub_size c.read_size_ c.read_)) c.request_buf_),
    )
    else (complete c.read_ c, idle)

unfoldable pub handle_body_buff_write : ℕ → Connection → Connection × Pending
unfolding async_read_until_buffersize complete
handle_body_buff_write count c =
    if count == 0
    then (complete 0 c, idle)
    else let c' = record c {
      read_ = add_size c.read_ count;
      request_buf_ = drop count c.request_buf_;
    } in
      (c', async_read_until_buffersize (min chunk_size (sub_size c'.read_size_ c'.read_)) c')

-- A handler runs when what the connection waits for is done; `received` are all the bytes that came
-- from the socket.
pub data Reading (start : Connection) : Bytes → Connection × Pending → Type 0 where
  begun : Reading start [] (start_body start)
  arrived :
      {received : Bytes} {c : Connection} {least : ℕ}
      → Reading start received (c, async_read least)
      → (bytes : Bytes) → least ≤ length bytes
      → Reading start
          (received ++ bytes)
          (handle_body false (record c { request_buf_ = c.request_buf_ ++ bytes }))
  failed :
      {received : Bytes} {c : Connection} {least : ℕ}
      → Reading start received (c, async_read least)
      → Reading start received (handle_body true c)
  taken :
      {received : Bytes} {c : Connection} {bytes : Bytes}
      → Reading start received (c, putn bytes)
      → Reading start received
          (handle_body_buff_write (length bytes) (record c { accepted = c.accepted ++ bytes }))
  refused :
      {received : Bytes} {c : Connection} {bytes : Bytes}
      → Reading start received (c, putn bytes)
      → Reading start received (handle_body_buff_write 0 c)
