-- ===== src/Http/ChunkReader.antt =====
-- How `http_connection` of src/http_service.cpp reads a request's body in chunks: from the end of
-- `handle_headers` over `handle_chunked_header`, `handle_chunked_body` and
-- `handle_chunked_body_buff_write` until `complete`. The socket and the calls of `putn`, again on
-- a copied stream buffer, are the environment, as for a body of known length; the connection is the one of Http/Body.antt.
pub mod Hexadecimal
pub mod Wire
pub mod Steps
pub mod Laws
mod Tests
use snode.Prelude.{
  ℕ, ◌+◌, ◌-◌, ◌*◌, ◌≤◌, ◌≡◌, Bool, true, false, ◌&&◌, ◌||◌, List, [], ◌∷◌, ◌++◌, Bytes, length,
  take, drop, min, add_size, size_mod, ltb, leb, ◌==◌, if◌then◌else◌,
}
use snode.Prelude.Int.{ℤ, pos, negsuc, ◌+ℤ◌}
use snode.Http.Body
use snode.Http.Body.{Connection, async_read_until_buffersize, complete}

-- `is >> std::hex >> len` for an `int`: white space, a sign, "0x" and digits. What does not fit is
-- cut to the range of an `int`, and without digits the result is 0.
abbrev pub is_space : ℕ → Bool
is_space c = c == 32 || (leb 9 c && leb c 13)

unfoldable pub skip_spaces : Bytes → Bytes
skip_spaces [] = []
skip_spaces (c ∷ s) = let rest = skip_spaces s in if is_space c then rest else c ∷ s

unfoldable pub take_sign : Bytes → Bool × Bytes
take_sign [] = (false, [])
take_sign (c ∷ s) =
    if c == b'-' then (true, s) else if c == b'+' then (false, s) else (false, c ∷ s)

unfoldable pub skip_prefix : Bytes → Bytes
skip_prefix [] = []
skip_prefix (c ∷ []) = c ∷ []
skip_prefix (c ∷ d ∷ s) = if c == b'0' && (d == b'x' || d == b'X') then s else c ∷ d ∷ s

abbrev pub is_hex : ℕ → Bool
is_hex c = (leb b'0' c && leb c b'9') || (leb b'A' c && leb c b'F') || (leb b'a' c && leb c b'f')

abbrev pub hex_value : ℕ → ℕ
hex_value c = if leb c b'9' then c - 48 else if leb c b'F' then c - 55 else c - 87

unfoldable pub digits : ℕ → Bytes → ℕ × Bytes
digits acc [] = (acc, [])
digits acc (c ∷ s) =
    let rest = digits (acc * 16 + hex_value c) s in if is_hex c then rest else (acc, c ∷ s)

abbrev pub int_max : ℕ
int_max = 2147483647

unfoldable pub as_int : Bool → ℕ → ℤ
as_int false n = pos (min n int_max)
as_int true n = if n == 0 then pos 0 else negsuc (min n (int_max + 1) - 1)

unfoldable pub extract_hex : Bytes → ℤ × Bytes
unfolding skip_spaces take_sign skip_prefix digits as_int
extract_hex buf =
    let (negative, s) = take_sign (skip_spaces buf) in
    let (n, rest) = digits 0 (skip_prefix s) in (as_int negative n, rest)

-- An `int` as a `size_t`.
abbrev pub as_size : ℤ → ℕ
as_size (pos n) = n
as_size (negsuc n) = size_mod - 1 - n

-- What the connection waits for: CRLF in its buffer, the data of a chunk of that length, a `putn` of
-- these bytes, or nothing more for this body. `overrun` is a `putn` of more bytes than the buffer
-- has.
pub data Pending : Type 0 where
  read_until_crlf : Pending
  read_chunk : Body.Pending → ℤ → Pending
  putn : Bytes → Pending
  idle overrun : Pending

-- The end of `handle_headers` for a chunked body.
abbrev pub start_chunks : Connection → Connection × Pending
start_chunks c = (c, read_until_crlf)

-- `len + 2` overflows for the largest `int`, which the language leaves undefined.
abbrev pub sized : ℤ → Connection → Connection × Pending
sized len c =
    if as_size len == 0
    then (complete c.read_ c, idle)
    else (c, read_chunk (async_read_until_buffersize (as_size (len +ℤ pos 2)) c) len)

abbrev pub headed_by : Connection → ℤ × Bytes → Connection × Pending
headed_by c (len, rest) =
    sized len (record c { request_buf_ = drop 2 rest; read_ = add_size c.read_ (as_size len) })

unfoldable pub handle_chunked_header : Bool → Connection → Connection × Pending
unfolding complete
handle_chunked_header ec c =
    if ec then (complete 0 c, idle) else headed_by c (extract_hex c.request_buf_)

unfoldable pub handle_chunked_body : Bool → ℤ → Connection → Connection × Pending
unfolding complete
handle_chunked_body ec to_write c =
    if ec
    then (complete 0 c, idle)
    else if leb (as_size to_write) (length c.request_buf_)
    then (c, putn (take (as_size to_write) c.request_buf_))
    else (c, overrun)

unfoldable pub handle_chunked_body_buff_write : ℕ → Connection → Connection × Pending
unfolding complete
handle_chunked_body_buff_write count c =
    if count == 0
    then (complete 0 c, idle)
    else (record c { request_buf_ = drop (2 + count) c.request_buf_ }, read_until_crlf)

-- Whether CRLF is in the buffer.
abbrev pub has_crlf : Bytes → Bool
has_crlf [] = false
has_crlf (c ∷ []) = false
has_crlf (c ∷ d ∷ s) = (c == 13 && d == 10) || has_crlf (d ∷ s)

-- A handler runs when what the connection waits for is done. The reads of the socket succeed, with
-- the bytes in `received`, and each `putn` is answered with its count.
pub data Reading (start : Connection) : Bytes → Connection × Pending → Type 0 where
  begun : Reading start [] (start_chunks start)
  line_arrived :
      {received : Bytes} {c : Connection}
      → Reading start received (c, read_until_crlf)
      → (bytes : Bytes) → has_crlf (c.request_buf_ ++ bytes) ≡ true
      → Reading start
          (received ++ bytes)
          (handle_chunked_header false (record c { request_buf_ = c.request_buf_ ++ bytes }))
  chunk_arrived :
      {received : Bytes} {c : Connection} {least : ℕ} {len : ℤ}
      → Reading start received (c, read_chunk (Body.async_read least) len)
      → (bytes : Bytes) → least ≤ length bytes
      → Reading start
          (received ++ bytes)
          (handle_chunked_body false len (record c { request_buf_ = c.request_buf_ ++ bytes }))
  taken :
      {received : Bytes} {c : Connection} {bytes : Bytes}
      → Reading start received (c, putn bytes)
      → Reading start received (
          handle_chunked_body_buff_write
            (length bytes)
            (record c { accepted = c.accepted ++ bytes }))
