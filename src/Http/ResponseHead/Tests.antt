-- ===== src/Http/ResponseHead/Tests.antt =====
-- Responses with a body of known length, of unknown length, and without body.
use snode.Prelude.{◌≡◌, refl, true, false, [], ◌∷◌, ◌++◌, some, Bytes, codes, arith}
use snode.Http.Compare.{icmp}
use snode.Http.Headers.{find}
use snode.Http.Message.{Response, new_response, set_body}
use snode.Http.RequestHead.{bytes_equal, header_loop, complete}
use snode.Http.RequestHead.Fields.{IsField}
use snode.Http.ResponseWriter.{
  Connection, next_request, Writing, begun, answered, written, InBlocks, handle_headers_written,
  handle_write_large_response, handle_large_response_buff_read, handle_response_written,
}
use snode.Http.ResponseWriter.Laws.{Sized}
use snode.Http.ResponseHead.{status_line, framed, has_body, async_process_response}
use snode.Http.ResponseHead.Framing.{Frames, async_process_response-Announces}
use snode.Http.ResponseHead.Fields.{async_process_response-read}
use snode.Http.ResponseHead.Body.{with_body, head_sent, set_body-Writing}

abbrev idle : Connection
idle = record { chunked_ = false; close_ = false; write_ = 7; write_size_ = 7; sent = [] }

abbrev tag : Bytes × Bytes
tag = (codes "ETag", codes "a")

-- A body without a length.
abbrev streamed : Response
streamed =
    let r = new_response 200 in
    record r { message = record r.message { instream_ = some 1; headers_ = tag ∷ [] } }

tag-IsField : IsField tag
tag-IsField = record {
  named = omega arith;
  no_colon = ground arith;
  name_in_line = omega arith;
  value_in_line = omega arith;
  name_starts = refl;
  name_ends = refl;
  value_starts = refl;
  value_ends = refl;
}

streamed_text :
    (async_process_response bytes_equal streamed idle).2
    ≡ codes "HTTP/1.1 200 \r\nETag: a\r\nTransfer-Encoding: chunked\r\n\r\n"
unfolding async_process_response icmp
streamed_text = refl

async_process_response-Announces_example :
    Frames
      (has_body streamed)
      streamed
      (async_process_response bytes_equal streamed idle).0
      (async_process_response bytes_equal streamed idle).1
async_process_response-Announces_example =
    async_process_response-Announces bytes_equal streamed idle (tt, tt)

async_process_response-read_example :
    (lines : Bytes) × ((async_process_response bytes_equal streamed idle).2
      ≡ status_line streamed ++ lines)
    × (header_loop bytes_equal 3 lines []
        ≡ complete (async_process_response bytes_equal streamed idle).0.message.headers_ [])
unfolding framed icmp
async_process_response-read_example =
    async_process_response-read bytes_equal streamed idle 3 refl (tt, tt) (tag-IsField, tt)
      (omega arith)

-- Without a body the length 0 is appended to one that the responder set.
abbrev answer_to_head : Response
answer_to_head =
    let r = new_response 200 in
    record r {
      message = record r.message { headers_ = (codes "Content-Length", codes "120") ∷ [] };
    }

answer_to_head_text :
    (async_process_response bytes_equal answer_to_head idle).2
    ≡ codes "HTTP/1.1 200 \r\nContent-Length: 120, 0\r\n\r\n"
unfolding async_process_response icmp
answer_to_head_text = refl

abbrev two_bytes : Response
two_bytes = with_body bytes_equal 1 2 (codes "text/plain") (new_response 200)

abbrev finish : Connection
finish =
    let c = head_sent bytes_equal two_bytes idle in
    record c { write_ = 2; sent = c.sent ++ 104 ∷ 105 ∷ [] }

unfoldable whole :
    Writing (head_sent bytes_equal two_bytes idle) (104 ∷ 105 ∷ []) (finish, next_request)
unfolding handle_headers_written handle_write_large_response handle_response_written
    handle_large_response_buff_read async_process_response icmp set_body
whole = written (answered (begun false false) [] (104 ∷ 105 ∷ []) refl (omega arith)) true

whole-InBlocks : InBlocks whole
unfolding whole
whole-InBlocks = tt

set_body-Writing_example :
    Sized (head_sent bytes_equal two_bytes idle).sent 2 (104 ∷ 105 ∷ []) (finish, next_request)
unfolding find
set_body-Writing_example =
    set_body-Writing bytes_equal 1 2 (codes "text/plain") (new_response 200) idle (omega arith) refl
      whole whole-InBlocks
