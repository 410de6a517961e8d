-- ===== src/Http/ChunkReader/Tests.antt =====
-- The reading of a body of two bytes in one chunk, and of a chunk with a negative size.
use snode.Prelude.{◌≡◌, refl, [], ◌∷◌, Bytes, none, some, arith, false}
use snode.Prelude.Int.{negsuc, ◌+ℤ◌}
use snode.Http.Body
use snode.Http.Body.{Connection}
use snode.Http.ChunkReader.{
  idle, overrun, Reading, begun, line_arrived, chunk_arrived, taken, extract_hex,
  handle_chunked_header, handle_chunked_body, handle_chunked_body_buff_write,
}

abbrev start : Connection
start = record {
  request_buf_ = 50 ∷ 13 ∷ 10 ∷ [];
  read_ = 0;
  read_size_ = 0;
  accepted = [];
  completed = none;
}

abbrev finish : Connection
finish = record {
  request_buf_ = [];
  read_ = 2;
  read_size_ = 0;
  accepted = 7 ∷ 8 ∷ [];
  completed = some 2;
}

abbrev arriving : Bytes
arriving = 7 ∷ 8 ∷ 13 ∷ 10 ∷ 48 ∷ 13 ∷ 10 ∷ []

whole : Reading start arriving (finish, idle)
unfolding handle_chunked_header handle_chunked_body handle_chunked_body_buff_write extract_hex
    Body.async_read_until_buffersize ◌+ℤ◌
whole =
    line_arrived
      (taken (chunk_arrived (line_arrived begun [] refl) (7 ∷ 8 ∷ 13 ∷ 10 ∷ []) (omega arith)))
      (48 ∷ 13 ∷ 10 ∷ []) refl

-- A chunk of size −1 makes the connection write more than the buffer has.
abbrev negative : Connection
negative = record start { request_buf_ = 45 ∷ 49 ∷ 13 ∷ 10 ∷ 7 ∷ [] }

extract-negative : extract_hex negative.request_buf_ ≡ (negsuc 0, 13 ∷ 10 ∷ 7 ∷ [])
unfolding extract_hex
extract-negative = refl

negative-overrun :
    handle_chunked_body false (negsuc 0) (record negative { request_buf_ = 7 ∷ [] })
    ≡ (record negative { request_buf_ = 7 ∷ [] }, overrun)
unfolding handle_chunked_body
negative-overrun = refl
