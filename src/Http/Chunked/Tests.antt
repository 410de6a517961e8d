-- ===== src/Http/Chunked/Tests.antt =====
-- Runs of the chunk delimiters, and their properties at small areas.
use snode.Prelude.{
  ℕ, ◌≡◌, refl, [], ◌∷◌, ◌++◌, Bytes, some, length, take, drop, replicate, arith, length-replicate,
}
use snode.Http.Chunked.{hex, add_chunked_delimiters, send_chunk}
use snode.Http.Chunked.Hex.{value}
use snode.Http.Chunked.Laws.{chunk, add_chunked_delimiters-chunk, send_chunk_lem}

abbrev body : Bytes
body = 97 ∷ 98 ∷ 99 ∷ []

-- Ten bytes for the size, three of data and two for the end of line.
abbrev small_area : Bytes
small_area = replicate 10 0 ++ body ++ replicate 2 0

chunk_abc : chunk (97 ∷ 98 ∷ 99 ∷ []) ≡ 51 ∷ 13 ∷ 10 ∷ 97 ∷ 98 ∷ 99 ∷ 13 ∷ 10 ∷ []
unfolding hex
chunk_abc = refl

hex_large : hex 4096 ≡ 49 ∷ 48 ∷ 48 ∷ 48 ∷ []
unfolding hex
hex_large = refl

last_chunk :
    add_chunked_delimiters (replicate 12 0) 12 0
    ≡ some (7, replicate 7 0 ++ 48 ∷ 13 ∷ 10 ∷ 13 ∷ 10 ∷ [])
unfolding add_chunked_delimiters
last_chunk = refl

abbrev prepared : Bytes
prepared = replicate 4108 0

add_chunked_delimiters-chunk_example :
    (k : ℕ) × (area' : Bytes) × (add_chunked_delimiters small_area 15 3 ≡ some (k, area'))
    × (drop k (take 15 area') ≡ chunk (97 ∷ 98 ∷ 99 ∷ []))
    × (length body ≡ 3)
    × (value 0 (hex 3) ≡ 3)
add_chunked_delimiters-chunk_example =
    add_chunked_delimiters-chunk small_area 3 (omega arith) (omega arith) (omega arith)
      (omega arith)

stale_bytes :
    send_chunk prepared (97 ∷ 98 ∷ 99 ∷ []) ≡ some (chunk (take 2 (drop 10 prepared) ++ 97 ∷ []))
stale_bytes =
    send_chunk_lem prepared (97 ∷ 98 ∷ 99 ∷ []) (length-replicate {A = ℕ} 4108 0) (omega arith)
      (omega arith)
