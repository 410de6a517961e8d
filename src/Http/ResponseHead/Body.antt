-- ===== src/Http/ResponseHead/Body.antt =====
-- A response with a body of known length, from `set_body` to the last byte on the wire.
use snode.Prelude.{
  ℕ, ◌≡◌, ◌<◌, refl, ap, ◌∙◌, Bool, true, false, not, ◌&&◌, ◌++◌, none, some, Bytes, codes,
  size_mod, arith,
}
use snode.Http.Headers.{HeadersMap, find, match_text}
use snode.Http.HeaderSize.{match_size, match_value}
use snode.Http.HeaderSize.Decimal.{match-print_size}
use snode.Http.Message.{Response, print_size, set_body}
use snode.Http.ResponseWriter.{Connection, Pending, Writing, InBlocks}
use snode.Http.ResponseWriter.Laws.{Sized, Writing-Sized}
use snode.Http.ResponseHead.{has_body, says_chunked, needs_chunks, async_process_response}
use snode.Http.ResponseHead.Framing.{set_body-length, set_body-coding}

not_chunked : (m : HeadersMap) → find (codes "Transfer-Encoding") m ≡ none → says_chunked m ≡ false
unfolding says_chunked match_text
not_chunked m e = ground (arith, e)

-- A length in the headers is that of the body.
length_matched :
    (m : HeadersMap) (size : ℕ)
    → size < size_mod
    → find (codes "Content-Length") m ≡ some (print_size size)
    → match_size (codes "Content-Length") 0 m ≡ (size, true)
unfolding match_size
length_matched m size l e = ap (match_value 0) e ∙ match-print_size 0 size l

no_chunks :
    (r : Response) (size : ℕ)
    → match_size (codes "Content-Length") 0 r.message.headers_ ≡ (size, true)
    → needs_chunks r ≡ false
unfolding needs_chunks
no_chunks r size e = ap (λ (p : ℕ × Bool). not p.1 && has_body r) e

module _ (iequals : Bytes → Bytes → Bool) where
  processed_size :
      (r : Response) (c : Connection) (size : ℕ)
      → size < size_mod
      → find (codes "Content-Length") r.message.headers_ ≡ some (print_size size)
      → find (codes "Transfer-Encoding") r.message.headers_ ≡ none
      → ((async_process_response iequals r c).1.chunked_ ≡ false)
        × ((async_process_response iequals r c).1.write_ ≡ 0)
        × ((async_process_response iequals r c).1.write_size_ ≡ size)
  unfolding async_process_response
  processed_size r c size l e t =
      let matched = length_matched r.message.headers_ size l e in
      (
        ground (arith, no_chunks r size matched, not_chunked r.message.headers_ t),
        refl,
        ap (λ (p : ℕ × Bool). p.0) matched,
      )

  -- The response with its body, what is written for its head, and the connection behind that.
  abbrev pub with_body : ℕ → ℕ → Bytes → Response → Response
  with_body stream size type r = record r { message = (set_body stream size type r.message).0 }

  abbrev pub head_sent : Response → Connection → Connection
  head_sent r c =
      let (r', c', text) = async_process_response iequals r c in record c' { sent = c.sent ++ text }

  -- Where set_body gives a response without a Transfer-Encoding header a stream and a length that
  -- can be counted, and its head is written, then at any point of a writing of its body in which
  -- no getn of a single byte was answered what is sent and what is being written are the head and
  -- the bytes that answered the getns, never more than that length; the next request is read, or
  -- the connection closed, only when all of that length is sent. Where the sending is cancelled,
  -- what was sent is a front of these.
  pub set_body-Writing :
      (stream size : ℕ) (type : Bytes) (r : Response) (c : Connection) {taken : Bytes}
      {s : Connection × Pending}
      → size < size_mod
      → find (codes "Transfer-Encoding") r.message.headers_ ≡ none
      → (w : Writing (head_sent (with_body stream size type r) c) taken s) → InBlocks w
      → Sized (head_sent (with_body stream size type r) c).sent size taken s
  set_body-Writing stream size type r c l t w q =
      let r' = with_body stream size type r in
      let e =
        processed_size r' c size l (set_body-length stream size type r.message)
          (set_body-coding stream size type r.message ∙ t) in
      Writing-Sized (head_sent r' c).sent size l e.0 e.1 e.2 refl w q
