-- ===== src/Http/ResponseHead.antt =====
-- `async_process_response` of `http_connection` in src/http_service.cpp: the status line and the headers
-- of a response, and how its body is framed. `iequals` is `boost::iequals`.
pub mod Body
pub mod Fields
pub mod Framing
mod Tests
use snode.Prelude.{
  ℕ, Bool, true, false, not, ◌&&◌, ◌||◌, [], ◌∷◌, ◌++◌, Option, none, some, Bytes, codes, same,
  if◌then◌else◌,
}
use snode.Http.Headers.{HeadersMap, put, add, match_text}
use snode.Http.HeaderSize.{match_size}
use snode.Http.Message.{Message, Response, print_size}
use snode.Http.ResponseWriter.{Connection}

abbrev pub crlf : Bytes
crlf = 13 ∷ 10 ∷ []

unfoldable pub status_line : Response → Bytes
unfolding print_size
status_line r = codes "HTTP/1.1 " ++ (print_size r.status_code_ ++ 32 ∷ (r.reason_phrase_ ++ crlf))

-- The loop over the headers, and the empty line.
unfoldable pub headers_text : HeadersMap → Bytes
headers_text [] = crlf
headers_text ((name, value) ∷ m) = name ++ codes ": " ++ value ++ crlf ++ headers_text m

abbrev pub has_body : Response → Bool
has_body r = elim r.message.instream_ [ none ↦ false | some stream ↦ true ]

unfoldable pub says_chunked : HeadersMap → Bool
unfolding match_text
says_chunked m =
    let (coding, found) = match_text (codes "Transfer-Encoding") [] m in
    found && same coding (codes "chunked")

-- There is a body, and no header tells its length.
unfoldable pub needs_chunks : Response → Bool
unfolding match_size
needs_chunks r = not (match_size (codes "Content-Length") 0 r.message.headers_).1 && has_body r

-- The headers that are sent.
unfoldable pub framed : Response → HeadersMap
unfolding needs_chunks put add
framed r =
    let m =
      if needs_chunks r
      then put (codes "Transfer-Encoding") (codes "chunked") r.message.headers_
      else r.message.headers_ in
    if has_body r then m else add (codes "Content-Length") (codes "0") m

module _ (iequals : Bytes → Bytes → Bool) where
  -- Whether a header asks to close the connection.
  unfoldable pub asks_to_close : HeadersMap → Bool
  asks_to_close [] = false
  asks_to_close ((name, value) ∷ m) =
      iequals name (codes "connection") && iequals value (codes "close") || asks_to_close m

  -- The response with the headers that are sent, the connection, and what is to be written.
  unfoldable pub async_process_response : Response → Connection → Response × Connection × Bytes
  unfolding framed says_chunked needs_chunks match_size asks_to_close status_line headers_text
  async_process_response r c = (
    record r { message = record r.message { headers_ = framed r } },
    record c {
      chunked_ = needs_chunks r || says_chunked r.message.headers_;
      close_ = c.close_ || asks_to_close (framed r);
      write_ = 0;
      write_size_ = (match_size (codes "Content-Length") 0 r.message.headers_).0;
    },
    status_line r ++ headers_text (framed r),
  )
