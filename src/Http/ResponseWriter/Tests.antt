-- ===== src/Http/ResponseWriter/Tests.antt =====
-- Runs of the writing of a response, and its properties at a response of three bytes.
use snode.Prelude.{◌≡◌, refl, true, false, [], ◌∷◌, Bytes, replicate, arith}
use snode.Http.Chunked.{send_chunk}
use snode.Http.ResponseWriter.{
  Connection, next_request, cancelled, handle_response_written, handle_write_large_response,
  handle_large_response_buff_read, handle_write_chunked_response, handle_chunked_response_buff_read,
  handle_headers_written, Writing, begun, answered, written, InBlocks,
}
use snode.Http.ResponseWriter.Laws.{Unfinished, Sized, Writing-Sized, Writing-chunked}

abbrev head : Bytes
head = 72 ∷ 13 ∷ 10 ∷ []

abbrev start : Connection
start = record { chunked_ = false; close_ = false; write_ = 0; write_size_ = 3; sent = head }

abbrev finish : Connection
finish = record start { write_ = 3; sent = 72 ∷ 13 ∷ 10 ∷ 7 ∷ 8 ∷ 9 ∷ [] }

-- The stream gives the three bytes at once.
unfoldable whole : Writing start (7 ∷ 8 ∷ 9 ∷ []) (finish, next_request)
unfolding handle_headers_written handle_write_large_response handle_response_written
    handle_large_response_buff_read
whole = written (answered (begun false false) [] (7 ∷ 8 ∷ 9 ∷ []) refl (omega arith)) true

whole-InBlocks : InBlocks whole
unfolding whole
whole-InBlocks = tt

Writing-Sized_example : Sized head 3 (7 ∷ 8 ∷ 9 ∷ []) (finish, next_request)
Writing-Sized_example = Writing-Sized head 3 (omega arith) refl refl refl refl whole whole-InBlocks

-- A stream that ends early: the response is cancelled behind its first byte.
early :
    handle_write_large_response true false (record start { write_ = 1 })
    ≡ (record start { write_ = 1; close_ = true }, cancelled)
unfolding handle_write_large_response
early = refl

abbrev in_chunks : Connection
in_chunks = record start { chunked_ = true; write_size_ = 0 }

-- The body ended: no chunk of size 0, the response is cancelled.
ended : Writing in_chunks [] (record in_chunks { close_ = true }, cancelled)
unfolding handle_headers_written handle_write_chunked_response handle_chunked_response_buff_read
    send_chunk
ended = answered (begun false false) (replicate 4108 0) [] refl (omega arith)

Writing-chunked_example : Unfinished (record in_chunks { close_ = true }, cancelled)
Writing-chunked_example = Writing-chunked refl ended

abbrev one_byte : Connection
one_byte = record start { write_size_ = 1 }
