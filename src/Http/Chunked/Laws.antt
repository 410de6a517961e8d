-- ===== src/Http/Chunked/Laws.antt =====
-- What a chunk looks like on the wire, and what the handlers make of the body.
use snode.Prelude.{
  ℕ, ◌+◌, ◌-◌, ◌≤◌, ◌<◌, ◌≡◌, refl, sym, ap, ap₂, ◌∙◌, false, ◌++◌, Bytes, none, some, length, take,
  drop, replicate, copy_at, add_size, size_mod, ltb, ◌==◌, if◌then◌else◌, arith, append_assoc,
  take-copy_at, drop-copy_at, length-copy_at, take-append-drop, drop-take, drop-drop, take-take_le,
  drop-append_left, take-append, drop-append, take_all, length-replicate, length-take, length-drop,
}
use mathlib.Core.Option
use snode.Http.Chunked.{hex, hex8, spaces, add_chunked_delimiters, crlf, chunk_of, send_chunk}
use snode.Http.Chunked.Hex.{value, value-hex, hex8_lem, length-hex8, spaces-hex8}

-- A chunk as RFC 7230 has it: the size in hexadecimal digits, the data, and an end of line behind each.
abbrev pub chunk : Bytes → Bytes
chunk payload = hex (length payload) ++ crlf ++ payload ++ crlf

module _ (area : Bytes) (n : ℕ) (small : n < 4294967296) (fits : n + 12 ≤ length area) where
  sized : Bytes
  sized = copy_at area 0 (hex8 n)

  ended : Bytes
  ended = copy_at sized 8 crlf

  framed : Bytes
  framed = copy_at ended (10 + n) crlf

  take-sized : take 8 sized ≡ hex8 n
  unfolding sized
  take-sized = take-copy_at area 0 8 (hex8 n) (omega (arith, length-hex8 n small)) (omega arith)

  offset-sized : spaces sized ≡ 8 - length (hex n)
  offset-sized =
      ap spaces (sym (take-append-drop 8 sized) ∙ ap (λ s. s ++ drop 8 sized) take-sized)
      ∙ spaces-hex8 n (drop 8 sized) small

  take-ended : take 10 ended ≡ hex8 n ++ crlf
  unfolding ended sized
  take-ended =
      take-copy_at sized 8 10 crlf refl (omega (arith, length-copy_at area 0 (hex8 n)))
      ∙ ap (λ s. s ++ crlf) take-sized

  drop-ended : drop 10 ended ≡ drop 10 area
  unfolding ended sized
  drop-ended =
      drop-copy_at sized 8 10 crlf refl
      ∙ sym (drop-drop 2 8 10 sized refl)
      ∙ ap (drop 2) (drop-copy_at area 0 8 (hex8 n) (omega (arith, length-hex8 n small)))
      ∙ drop-drop 2 8 10 area refl

  take-framed : take (n + 12) framed ≡ hex8 n ++ crlf ++ take n (drop 10 area) ++ crlf
  unfolding framed
  take-framed =
      take-copy_at ended (10 + n) (n + 12) crlf (omega arith) (omega (arith, long))
      ∙ ap (λ s. s ++ crlf)
          (sym (take-append-drop 10 (take (10 + n) ended))
            ∙ ap (λ s. s ++ drop 10 (take (10 + n) ended))
                (take-take_le 10 (10 + n) ended (omega arith) ∙ take-ended)
            ∙ ap (◌++◌ (hex8 n ++ crlf))
                (drop-take 10 (10 + n) n ended (omega arith) ∙ ap (take n) drop-ended))
    where
      long : length ended ≡ length area
      long =
          unfold ended sized in
          length-copy_at (copy_at area 0 (hex8 n)) 8 crlf ∙ length-copy_at area 0 (hex8 n)

  payload : Bytes
  payload = take n (drop 10 area)

  length-payload : length payload ≡ n
  unfolding payload
  length-payload = omega (arith, length-take n (drop 10 area), length-drop 10 area)

  sent-framed : drop (8 - length (hex n)) (take (n + 12) framed) ≡ chunk payload
  unfolding payload
  sent-framed =
      let k = 8 - length (hex n) in
      let tail = crlf ++ take n (drop 10 area) ++ crlf in
      let grouped : replicate k 32 ++ hex n ++ crlf ++ take n (drop 10 area) ++ crlf
          ≡ replicate k 32 ++ (hex n ++ tail) =
        simp append_assoc in
      let regrouped : hex n ++ tail ≡ hex n ++ crlf ++ payload ++ crlf = simp append_assoc in
      let split : take (n + 12) framed ≡ replicate k 32 ++ (hex n ++ tail) =
        take-framed
        ∙ ap (λ s. s ++ crlf ++ take n (drop 10 area) ++ crlf) (hex8_lem n small)
        ∙ grouped in
      ap (drop k) split
      ∙ drop-append_left k (replicate k 32) (hex n ++ tail) (sym (length-replicate {A = ℕ} k 32))
      ∙ regrouped
      ∙ ap (λ i. hex i ++ crlf ++ payload ++ crlf) (sym length-payload)

  delimiters_lem :
      0 < n
      → length area < size_mod
      → add_chunked_delimiters area (length area) n ≡ some (8 - length (hex n), framed)
  unfolding add_chunked_delimiters framed ended sized
  delimiters_lem more counted =
      let room : ltb (length area) (add_size n 12) ≡ false = ground arith in
      let some_bytes : (n == 0) ≡ false = ground arith in
      let at : add_size 10 n ≡ 10 + n = omega arith in
      rw (room, some_bytes) (ap₂ (λ k i. some (k, copy_at ended i crlf)) offset-sized at)

-- Of 1 to 2^32 - 1 bytes put at offset 10 of an area with room for the additions whose length can
-- be counted, what is sent from the returned offset on is one chunk: the size in hexadecimal
-- digits that stand for it, the bytes, and an end of line behind each.
pub add_chunked_delimiters-chunk :
    (area : Bytes) (n : ℕ)
    → 0 < n
    → n < 4294967296
    → n + 12 ≤ length area
    → length area < size_mod
    → (k : ℕ) × (area' : Bytes) × (add_chunked_delimiters area (length area) n ≡ some (k, area'))
      × (drop k (take (n + 12) area') ≡ chunk (take n (drop 10 area)))
      × (length (take n (drop 10 area)) ≡ n)
      × (value 0 (hex n) ≡ n)
unfolding payload
add_chunked_delimiters-chunk area n more small fits counted = (
  8 - length (hex n),
  framed area n small fits,
  delimiters_lem area n small fits more counted,
  sent-framed area n small fits,
  length-payload area n small fits,
  value-hex n (omega arith),
)

pub chunk_of_lem :
    (area : Bytes) (n : ℕ)
    → 0 < n
    → n ≤ 4096
    → length area ≡ 4108
    → chunk_of area n ≡ some (chunk (take n (drop 10 area)))
unfolding chunk_of
chunk_of_lem area n more small size =
    let c = add_chunked_delimiters-chunk area n more (omega arith) (omega arith) (omega arith) in
    ap (λ i. Option.map (λ r. drop r.0 (take (n + 12) r.1)) (add_chunked_delimiters area i n))
      (sym size)
    ∙ ap (Option.map λ r. drop r.0 (take (n + 12) r.1)) c.2
    ∙ ap some c.3

-- Of a body part of 2 to 4096 bytes the connection sends a chunk with two stale bytes of the
-- prepared area in front and the last two bytes of the part cut off.
pub send_chunk_lem :
    (membuf out : Bytes)
    → length membuf ≡ 4108
    → 2 ≤ length out
    → length out ≤ 4096
    → send_chunk membuf out ≡ some (chunk (take 2 (drop 10 membuf) ++ take (length out - 2) out))
unfolding send_chunk
send_chunk_lem membuf out size two most =
    let some_bytes : (length out == 0) ≡ false = ground arith in
    let n = length out in
    let area = copy_at membuf 12 out in
    let front : take (12 + n) area ≡ take 12 membuf ++ out =
      take-copy_at membuf 12 (12 + n) out refl (omega arith) in
    let start = take 12 membuf in
    let long : length start ≡ 12 = omega (arith, length-take 12 membuf) in
    let cut : 10 + n - length start ≡ n - 2 = omega arith in
    let none_left : 10 - length start ≡ 0 = omega arith in
    let same : take n (drop 10 area) ≡ take 2 (drop 10 membuf) ++ take (n - 2) out =
      sym (drop-take 10 (10 + n) n area refl)
      ∙ ap (drop 10) (
          sym (take-take_le (10 + n) (12 + n) area (omega arith))
          ∙ ap (take (10 + n)) front
          ∙ take-append (10 + n) start out
          ∙ ap₂ (λ p i. p ++ take i out) (take_all (10 + n) start (omega arith)) cut)
      ∙ drop-append 10 start (take (n - 2) out)
      ∙ ap₂ (λ p i. p ++ drop i (take (n - 2) out)) (drop-take 10 12 2 membuf refl) none_left in
    ap (λ b. if b then none else chunk_of area n) some_bytes
    ∙ chunk_of_lem area n (omega arith) most (length-copy_at membuf 12 out ∙ size)
    ∙ ap (λ p. some (chunk p)) same
