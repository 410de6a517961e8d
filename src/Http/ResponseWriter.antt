-- ===== src/Http/ResponseWriter.antt =====
-- How `http_connection` of src/http_service.cpp writes a response behind its headers: from
-- `handle_headers_written` over the handlers for a body of known length or in chunks until the next
-- request, or until the connection is closed. The stream of the body and the socket are the
-- environment: a `getn`, which is called on a copy of the base class of the stream's buffer and there
-- undefined, is answered with at most as many bytes as asked for, and an `async_write`
-- writes the whole buffer or fails. `eof` is what `is_eof` of the stream says at that time.
pub mod Laws
mod Tests
use snode.Prelude.{
  ℕ, ◌+◌, ◌-◌, ◌≤◌, ◌<◌, ◌≡◌, Bool, true, false, ◌||◌, [], ◌∷◌, ◌++◌, Option, none, some, Bytes,
  length, min, add_size, sub_size, ltb, ◌==◌, if◌then◌else◌,
}
use snode.Http.Chunked.{chunk_size, send_chunk}

-- The fields that the handlers use; `sent` is what the socket has taken.
pub record Connection : Type 0 where
  pub chunked_ : Bool
  pub close_ : Bool
  pub write_ : ℕ
  pub write_size_ : ℕ
  pub sent : Bytes

-- What the connection waits for: a `getn` of so many bytes, an `async_write` of these, or nothing:
-- it reads the next request or is closed, the response complete, or the sending is cancelled.
pub data Pending : Type 0 where
  getn : ℕ → Pending
  async_write : Bytes → Pending
  next_request closed cancelled : Pending

-- `response_send_complete` with the error, and the end of the connection.
abbrev pub cancel_sending_response_with_error : Connection → Connection × Pending
cancel_sending_response_with_error c = (record c { close_ = true }, cancelled)

unfoldable pub handle_response_written : Bool → Connection → Connection × Pending
handle_response_written ec c =
    if ec
    then cancel_sending_response_with_error c
    else if c.close_
    then (c, closed)
    else (c, next_request)

unfoldable pub handle_write_large_response : Bool → Bool → Connection → Connection × Pending
unfolding handle_response_written
handle_write_large_response eof ec c =
    if ec || c.write_ == c.write_size_
    then handle_response_written ec c
    else if eof
    then cancel_sending_response_with_error c
    else (c, getn (min chunk_size (sub_size c.write_size_ c.write_)))

unfoldable pub handle_large_response_buff_read : Bytes → Connection → Connection × Pending
handle_large_response_buff_read out c =
    if length out == 0
    then cancel_sending_response_with_error c
    else (record c { write_ = add_size c.write_ (length out) }, async_write out)

unfoldable pub handle_write_chunked_response : Bool → Bool → Connection → Connection × Pending
unfolding handle_response_written
handle_write_chunked_response eof ec c =
    if ec
    then handle_response_written true c
    else if eof
    then cancel_sending_response_with_error c
    else (c, getn chunk_size)

-- `membuf` is the area that the buffer has prepared. Where no chunk is made the source cancels.
unfoldable pub handle_chunked_response_buff_read : Bytes → Bytes → Connection → Connection × Pending
handle_chunked_response_buff_read membuf out c = elim (send_chunk membuf out) [
  | none ↦ cancel_sending_response_with_error c
  | some chunk ↦ (c, async_write chunk)
]

unfoldable pub handle_headers_written : Bool → Bool → Connection → Connection × Pending
unfolding handle_write_large_response handle_write_chunked_response
handle_headers_written eof ec c =
    if ec
    then cancel_sending_response_with_error c
    else if c.chunked_
    then handle_write_chunked_response eof false c
    else handle_write_large_response eof false c

-- The handlers that the completion of a `getn` and of an `async_write` call.
abbrev pub body_read : Bytes → Bytes → Connection → Connection × Pending
body_read membuf out c =
    if c.chunked_
    then handle_chunked_response_buff_read membuf out c
    else handle_large_response_buff_read out c

abbrev pub body_written : Bool → Bool → Connection → Connection × Pending
body_written eof ec c =
    if c.chunked_
    then handle_write_chunked_response eof ec c
    else handle_write_large_response eof ec c

-- A handler runs when what the connection waits for is done; `taken` are all the bytes that answered a
-- `getn`. One of a single byte is answered as `producer_consumer_buffer` does: it hands over the
-- character in place of the count, and stores nothing, so that so many bytes of the area are sent as
-- they are.
pub data Writing (start : Connection) : Bytes → Connection × Pending → Type 0 where
  begun : (eof ec : Bool) → Writing start [] (handle_headers_written eof ec start)
  answered :
      {taken : Bytes} {c : Connection} {n : ℕ}
      → Writing start taken (c, getn n)
      → (membuf out : Bytes) → (n == 1) ≡ false
      → length out ≤ n
      → Writing start (taken ++ out) (body_read membuf out c)
  answered_one :
      {taken : Bytes} {c : Connection} {n : ℕ}
      → Writing start taken (c, getn n)
      → (membuf area : Bytes) → (n == 1) ≡ true
      → length area < 256
      → Writing start (taken ++ length area ∷ []) (body_read membuf area c)
  written :
      {taken : Bytes} {c : Connection} {bytes : Bytes}
      → Writing start taken (c, async_write bytes)
      → (eof : Bool)
      → Writing start taken (body_written eof false (record c { sent = c.sent ++ bytes }))
  failed :
      {taken : Bytes} {c : Connection} {bytes : Bytes}
      → Writing start taken (c, async_write bytes)
      → (eof : Bool) → Writing start taken (body_written eof true c)

-- No `getn` of a single byte was answered.
abbrev pub InBlocks :
    {start : Connection} {taken : Bytes} {s : Connection × Pending} → Writing start taken s → Type 0
InBlocks (begun eof ec) = Unit
InBlocks (answered r membuf out more l) = InBlocks r
InBlocks (answered_one r membuf area one l) = ⊥
InBlocks (written r eof) = InBlocks r
InBlocks (failed r eof) = InBlocks r
