-- ===== src/Http/Chunked.antt =====
-- `chunked_encoding::add_chunked_delimiters` of src/http_helpers.cpp, and its use by the handlers of
-- src/http_service.cpp that send a chunk of a response.
pub mod Hex
pub mod Laws
mod Tests
use snode.Prelude.{
  ℕ, zero, suc, ◌+◌, ◌-◌, ◌/◌, ◌%◌, [], ◌∷◌, ◌++◌, Bytes, Option, none, some, length, take, drop,
  replicate, copy_at, add_size, ltb, ◌==◌, if◌then◌else◌,
}
use mathlib.Core.Option

abbrev pub additional_encoding_space : ℕ
additional_encoding_space = 12

abbrev pub data_offset : ℕ
data_offset = 10

abbrev pub chunk_size : ℕ
chunk_size = 4096

abbrev pub crlf : Bytes
crlf = 13 ∷ 10 ∷ []

abbrev pub hex_digit : ℕ → ℕ
hex_digit d = if ltb d 10 then d + 48 else d + 55

-- `%X` of a number of at most `fuel` digits.
unfoldable pub hex_on : ℕ → ℕ → Bytes
hex_on zero n = []
hex_on (suc fuel) n =
    let rest = hex_on fuel (n / 16) in
    if ltb n 16 then hex_digit n ∷ [] else rest ++ hex_digit (n % 16) ∷ []

-- `%zX`; a `size_t` has at most 16 digits.
unfoldable pub hex : ℕ → Bytes
unfolding hex_on
hex n = hex_on 16 n

-- `snprintf(buffer, 9, "%8zX", n)`: padded to eight characters, and cut to eight.
unfoldable pub hex8 : ℕ → Bytes
unfolding hex
hex8 n = take 8 (replicate (8 - length (hex n)) 32 ++ hex n)

-- `while (data[offset] == ' ') ++offset`
unfoldable pub spaces : Bytes → ℕ
spaces [] = 0
spaces (c ∷ s) = let n = spaces s in if c == 32 then n + 1 else 0

-- The offset and the array as it is left, or `none` where the source throws.
unfoldable pub add_chunked_delimiters : Bytes → ℕ → ℕ → Option (ℕ × Bytes)
unfolding hex8 spaces
add_chunked_delimiters area buffer_size bytes_read =
    if ltb buffer_size (add_size bytes_read additional_encoding_space)
    then none
    else if bytes_read == 0
    then some (7, copy_at (copy_at (copy_at area 7 (48 ∷ [])) 8 crlf) 10 crlf)
    else let area' = copy_at area 0 (hex8 bytes_read) in
      some (spaces area', copy_at (copy_at area' 8 crlf) (add_size 10 bytes_read) crlf)

-- What `handle_chunked_response_buff_read` sends from the area that it commits.
unfoldable pub chunk_of : Bytes → ℕ → Option Bytes
unfolding add_chunked_delimiters
chunk_of membuf count =
    Option.map (λ r. drop r.0 (take (count + additional_encoding_space) r.1))
      (add_chunked_delimiters membuf (chunk_size + additional_encoding_space) count)

-- `handle_write_chunked_response` reads the next part of the body, `out`, into the prepared area, and
-- `handle_chunked_response_buff_read` makes a chunk of it. `none` where the response is cancelled or
-- the source throws.
unfoldable pub send_chunk : Bytes → Bytes → Option Bytes
unfolding chunk_of
send_chunk membuf out =
    if length out == 0
    then none
    else chunk_of (copy_at membuf additional_encoding_space out) (length out)
