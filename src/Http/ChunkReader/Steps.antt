-- ===== src/Http/ChunkReader/Steps.antt =====
-- What the handlers of a chunked body do at their places in the wire.
use mathlib.Core.Path.{subst}
use snode.Prelude.{
  ℕ, ◌+◌, ◌-◌, ◌≤◌, ◌<◌, ◌≡◌, refl, sym, ap, ap₂, ◌∙◌, true, false, List, [], ◌∷◌, ◌++◌, some,
  Bytes, length, take, drop, add_size, size_mod, leb, ◌==◌, Bool-cases, inl, inr, arith, All,
  append_assoc, append-nil, length-append,
}
use snode.Prelude.Int.{ℤ, pos, ◌+ℤ◌}
use snode.Http.Body
use snode.Http.Body.{Connection, async_read_until_buffersize, complete}
use snode.Http.Chunked.{hex, crlf}
use snode.Http.ChunkReader.{
  read_until_crlf, read_chunk, putn, idle, handle_chunked_header, handle_chunked_body,
  handle_chunked_body_buff_write, extract_hex, has_crlf, int_max, as_size, sized, headed_by,
}
use snode.Http.ChunkReader.Hexadecimal.{extract_hex-hex, line_whole, hex-IsDigit}
use snode.Http.ChunkReader.Wire.{
  encode, joined, IsPart, encode_chunk, Stands, Progress, take_front, drop_front,
}

-- What the handlers do where the buffer holds what they expect.
wait_lem :
    (size : ℕ) (c : Connection)
    → (least : ℕ) × (async_read_until_buffersize size c ≡ Body.async_read least)
      × (size ≤ least + length c.request_buf_)
unfolding async_read_until_buffersize
wait_lem size c = elim (Bool-cases (leb size (length c.request_buf_))) [
  | inl enough ↦ (0, rw enough, ground arith)
  | inr more ↦ (size - length c.request_buf_, rw more, omega arith)
]

as_size-add : (n : ℕ) → as_size (pos n +ℤ pos 2) ≡ n + 2
unfolding ◌+ℤ◌
as_size-add n = ground arith

sized_more :
    (n : ℕ) (c : Connection)
    → 0 < n
    → sized (pos n) c ≡ (c, read_chunk (async_read_until_buffersize (n + 2) c) (pos n))
sized_more n c p =
    let some : (n == 0) ≡ false = ground arith in
    rw some (ap (λ k. (c, read_chunk (async_read_until_buffersize k c) (pos n))) (as_size-add n))

sized_none : (n : ℕ) (c : Connection) → n ≡ 0 → sized (pos n) c ≡ (complete c.read_ c, idle)
sized_none n c z = ground arith

module _ (c : Connection) (n : ℕ) (rest : Bytes)
    (e : c.request_buf_ ≡ hex n ++ 13 ∷ 10 ∷ rest) where
  abbrev headed : Connection
  headed = record c { request_buf_ = rest; read_ = add_size c.read_ n }

  size_read : n ≤ int_max → extract_hex c.request_buf_ ≡ (pos n, 13 ∷ 10 ∷ rest)
  size_read h = ap extract_hex e ∙ extract_hex-hex n (10 ∷ rest) h

  header_more :
      n ≤ int_max
      → 0 < n
      → handle_chunked_header false c
        ≡ (headed, read_chunk (async_read_until_buffersize (n + 2) headed) (pos n))
  unfolding handle_chunked_header
  header_more h p = ap (headed_by c) (size_read h) ∙ sized_more n headed p

  header_last : n ≡ 0 → handle_chunked_header false c ≡ (complete headed.read_ headed, idle)
  unfolding handle_chunked_header
  header_last z = ap (headed_by c) (size_read (omega arith)) ∙ sized_none n headed z

completed_lem :
    (n : ℕ) (c : Connection)
    → ((complete n c).completed ≡ some n) × ((complete n c).accepted ≡ c.accepted)
unfolding complete
completed_lem n c = (refl, refl)

module _ (body future tail : Bytes) (small : length body < size_mod) where
  -- The size of the next chunk.
  header_last_step :
      (c : Connection) (done : Bytes)
      → done ≡ body
      → c.accepted ≡ done
      → c.read_ ≡ length done
      → c.request_buf_ ++ future ≡ encode [] tail
      → has_crlf c.request_buf_ ≡ true
      → Progress body future tail (handle_chunked_header false c)
  header_last_step c done whole out n e h =
      let line = line_whole (hex 0) c.request_buf_ future tail (hex-IsDigit 0) e h in
      let c' = headed c 0 line.0 line.1 in
      let count : c'.read_ ≡ length done = omega (arith, n, small, ap length whole) in
      let end = completed_lem c'.read_ c' in
      subst (Progress body future tail) (sym (header_last c 0 line.0 line.1 refl)) (record {
        done = done;
        left = [];
        parts = tt;
        whole = append-nil done ∙ whole;
        stands = (refl, end.1 ∙ out, end.0 ∙ ap some count);
      })

  header_more_step :
      (c : Connection) (done q : Bytes) (left : List Bytes)
      → All IsPart (q ∷ left)
      → done ++ joined (q ∷ left) ≡ body
      → c.accepted ≡ done
      → c.read_ ≡ length done
      → c.request_buf_ ++ future ≡ encode (q ∷ left) tail
      → has_crlf c.request_buf_ ≡ true
      → Progress body future tail (handle_chunked_header false c)
  header_more_step c done q left parts whole out n e h =
      let line =
        line_whole (hex (length q)) c.request_buf_ future (q ++ 13 ∷ 10 ∷ encode left tail)
          (hex-IsDigit (length q)) (e ∙ encode_chunk q left tail) h in
      let c' = headed c (length q) line.0 line.1 in
      let wait = wait_lem (length q + 2) c' in
      let size : length done + (length q + length (joined left)) ≡ length body = omega (
        arith,
        ap length whole,
        length-append done (q ++ joined left),
        length-append q (joined left),
      ) in
      subst (Progress body future tail)
        (sym (
          header_more c (length q) line.0 line.1 (omega (arith, parts.0)) (parts.0.0)
          ∙ ap (λ w. (c', read_chunk w (pos (length q)))) wait.1))
        (record {
          done = done;
          left = q ∷ left;
          parts = parts;
          whole = whole;
          stands = (out, omega (arith, n, small, size), line.2, refl, wait.2);
        })

  pub header_step :
      (c : Connection) (bytes : Bytes)
      → Progress body (bytes ++ future) tail (c, read_until_crlf)
      → has_crlf (c.request_buf_ ++ bytes) ≡ true
      → Progress body future tail
          (handle_chunked_header false (record c { request_buf_ = c.request_buf_ ++ bytes }))
  header_step c bytes p h = split p.left p.parts p.whole p.stands
    where
      split :
          (left : List Bytes)
          → All IsPart left
          → p.done ++ joined left ≡ body
          → Stands (bytes ++ future) tail left p.done (c, read_until_crlf)
          → Progress body future tail
              (handle_chunked_header false (record c { request_buf_ = c.request_buf_ ++ bytes }))
      split [] parts whole st =
          header_last_step (record c { request_buf_ = c.request_buf_ ++ bytes }) p.done
            (sym (append-nil p.done) ∙ whole) st.0 st.1
            (append_assoc c.request_buf_ bytes future ∙ st.2) h
      split (q ∷ left) parts whole st =
          header_more_step (record c { request_buf_ = c.request_buf_ ++ bytes }) p.done q left parts
            whole st.0 st.1 (append_assoc c.request_buf_ bytes future ∙ st.2) h

  -- The data of a chunk has arrived.
  chunk_ready :
      (c : Connection) (n : ℕ)
      → n ≤ length c.request_buf_
      → handle_chunked_body false (pos n) c ≡ (c, putn (take n c.request_buf_))
  unfolding handle_chunked_body
  chunk_ready c n h = ground arith

  pub chunk_step :
      (c : Connection) (least : ℕ) (len : ℤ) (bytes : Bytes)
      → Progress body (bytes ++ future) tail (c, read_chunk (Body.async_read least) len)
      → least ≤ length bytes
      → Progress body future tail
          (handle_chunked_body false len (record c { request_buf_ = c.request_buf_ ++ bytes }))
  chunk_step c least len bytes p h = split p.left p.parts p.whole p.stands
    where
      split :
          (left : List Bytes)
          → All IsPart left
          → p.done ++ joined left ≡ body
          → Stands (bytes ++ future) tail left p.done (c, read_chunk (Body.async_read least) len)
          → Progress body future tail
              (handle_chunked_body false len (record c { request_buf_ = c.request_buf_ ++ bytes }))
      split [] parts whole st = elim st [ ]
      split (q ∷ left) parts whole (out, n, e, l, wait) =
          let buf = c.request_buf_ ++ bytes in
          let enough : length q + 2 ≤ length buf =
            omega (arith, length-append c.request_buf_ bytes) in
          let e' = append_assoc c.request_buf_ bytes future ∙ e in
          subst
            (λ v.
              Progress body future tail
                (handle_chunked_body false v (record c { request_buf_ = buf })))
            (sym l)
            (subst (Progress body future tail)
              (sym (chunk_ready (record c { request_buf_ = buf }) (length q) (omega arith)))
              (record {
                done = p.done;
                left = q ∷ left;
                parts = parts;
                whole = whole;
                stands = (
                  out,
                  n,
                  e',
                  take_front (length q) buf future q (13 ∷ 10 ∷ encode left tail) e' refl
                      (omega arith),
                  enough,
                );
              }))

  written :
      (c : Connection) (n : ℕ)
      → 0 < n
      → handle_chunked_body_buff_write n c
        ≡ (record c { request_buf_ = drop (2 + n) c.request_buf_ }, read_until_crlf)
  unfolding handle_chunked_body_buff_write
  written c n h = ground arith

  pub write_step :
      (c : Connection) (bytes : Bytes)
      → Progress body future tail (c, putn bytes)
      → Progress body future tail (
          handle_chunked_body_buff_write
            (length bytes)
            (record c { accepted = c.accepted ++ bytes }))
  write_step c bytes p = split p.left p.parts p.whole p.stands
    where
      split :
          (left : List Bytes)
          → All IsPart left
          → p.done ++ joined left ≡ body
          → Stands future tail left p.done (c, putn bytes)
          → Progress body future tail (
              handle_chunked_body_buff_write
                (length bytes)
                (record c { accepted = c.accepted ++ bytes }))
      split [] parts whole st = elim st [ ]
      split (q ∷ left) parts whole (out, n, e, b, enough) =
          let size : length bytes ≡ length q = ap length b in
          let framed : c.request_buf_ ++ future ≡ (q ++ crlf) ++ encode left tail =
            e ∙ sym (append_assoc q crlf (encode left tail)) in
          subst (Progress body future tail)
            (sym (
              written (record c { accepted = c.accepted ++ bytes }) (length bytes)
                (omega (arith, parts.0.0))))
            (record {
              done = p.done ++ q;
              left = left;
              parts = parts.1;
              whole = append_assoc p.done q (joined left) ∙ whole;
              stands = (
                ap₂ ◌++◌ out b,
                n ∙ sym (length-append p.done q),
                drop_front (2 + length bytes) c.request_buf_ future (q ++ crlf) (encode left tail)
                    framed (omega (arith, length-append q crlf)) (omega arith),
              );
            })
