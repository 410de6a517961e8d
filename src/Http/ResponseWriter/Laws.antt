-- ===== src/Http/ResponseWriter/Laws.antt =====
-- What a response with a body puts on the wire.
use snode.Prelude.{
  ℕ, ◌-◌, ◌≤◌, ◌<◌, ◌≡◌, refl, sym, ap, ◌∙◌, Bool, true, false, [], ◌++◌, Option, none, some, Bytes,
  length, min, add_size, sub_size, size_mod, ◌==◌, if◌then◌else◌, arith, append_assoc, append-nil,
  length-append,
}
use snode.Http.Chunked.{send_chunk, chunk_size}
use snode.Http.ResponseWriter.{
  Connection, Pending, getn, async_write, next_request, closed, cancelled, handle_response_written,
  handle_write_large_response, handle_large_response_buff_read, handle_write_chunked_response,
  handle_chunked_response_buff_read, handle_headers_written, Writing, begun, answered, answered_one,
  written, failed, InBlocks,
}

-- The connection waits for more of a body in chunks, or the sending is cancelled.
abbrev pub Unfinished : Connection × Pending → Type 0
Unfinished (c, getn n) = c.chunked_ ≡ true
Unfinished (c, async_write bytes) = c.chunked_ ≡ true
Unfinished (c, next_request) = ⊥
Unfinished (c, closed) = ⊥
Unfinished (c, cancelled) = Unit

Unfinished-if :
    (b : Bool) (s t : Connection × Pending)
    → (b ≡ true → Unfinished s)
    → (b ≡ false → Unfinished t)
    → Unfinished (if b then s else t)
Unfinished-if true s t p q = p refl
Unfinished-if false s t p q = q refl

true_false : {X : Type 0} {b : Bool} → b ≡ true → b ≡ false → X
true_false e f = absurd (ground (arith, e, f))

chunked_next :
    (eof ec : Bool) (c : Connection)
    → c.chunked_ ≡ true
    → Unfinished (handle_write_chunked_response eof ec c)
unfolding handle_write_chunked_response
chunked_next true true c h = tt
chunked_next false true c h = tt
chunked_next true false c h = tt
chunked_next false false c h = h

chunked_read :
    (membuf out : Bytes) (c : Connection)
    → c.chunked_ ≡ true
    → Unfinished (handle_chunked_response_buff_read membuf out c)
unfolding handle_chunked_response_buff_read
chunked_read membuf out c h = by_chunk (send_chunk membuf out)
  where
    by_chunk :
        (o : Option Bytes)
        → Unfinished (elim o [
          | none ↦ (record c { close_ = true }, cancelled)
          | some chunk ↦ (c, async_write chunk)
        ])
    by_chunk none = tt
    by_chunk (some chunk) = h

-- The writing of a response in chunks never comes to the next request or to the closing of a
-- complete response: at each point it waits for a getn or a write, or the sending is cancelled.
pub Writing-chunked :
    {start : Connection} {taken : Bytes} {s : Connection × Pending}
    → start.chunked_ ≡ true
    → Writing start taken s
    → Unfinished s
unfolding handle_headers_written
Writing-chunked {start} h (begun eof true) = tt
Writing-chunked {start} h (begun eof false) =
    Unfinished-if start.chunked_ _ _ (λ e. chunked_next eof false start e) (λ e. true_false h e)
Writing-chunked h (answered {taken} {c} {n} r membuf out more l) =
    Unfinished-if c.chunked_ _ _ (λ e. chunked_read membuf out c e)
      (λ e. true_false (Writing-chunked h r) e)
Writing-chunked h (answered_one {taken} {c} {n} r membuf area one l) =
    Unfinished-if c.chunked_ _ _ (λ e. chunked_read membuf area c e)
      (λ e. true_false (Writing-chunked h r) e)
Writing-chunked h (written {taken} {c} {bytes} r eof) =
    Unfinished-if c.chunked_ _ _
      (λ e. chunked_next eof false (record c { sent = c.sent ++ bytes }) e)
      (λ e. true_false (Writing-chunked h r) e)
Writing-chunked h (failed {taken} {c} {bytes} r eof) =
    Unfinished-if c.chunked_ _ _ (λ e. chunked_next eof true c e)
      (λ e. true_false (Writing-chunked h r) e)

-- A response whose body has `total` bytes, behind headers `head`.
abbrev pub Owes : Bytes → ℕ → Bytes → Connection → Type 0
Owes head total taken c =
    (c.chunked_ ≡ false) × (c.write_size_ ≡ total) × (length taken ≡ c.write_) × (c.write_ ≤ total)

abbrev pub Sized : Bytes → ℕ → Bytes → Connection × Pending → Type 0
Sized head total taken (c, getn n) =
    Owes head total taken c × (c.sent ≡ head ++ taken) × (n ≤ total - length taken)
Sized head total taken (c, async_write bytes) =
    Owes head total taken c × (c.sent ++ bytes ≡ head ++ taken)
Sized head total taken (c, next_request) = (c.sent ≡ head ++ taken) × (length taken ≡ total)
Sized head total taken (c, closed) = (c.sent ≡ head ++ taken) × (length taken ≡ total)
Sized head total taken (c, cancelled) = (rest : Bytes) × (c.sent ++ rest ≡ head ++ taken)

module _ (head : Bytes) (total : ℕ) (small : total < size_mod) where
  Sized-if :
      (taken : Bytes) (b : Bool) (s t : Connection × Pending)
      → (b ≡ true → Sized head total taken s)
      → (b ≡ false → Sized head total taken t)
      → Sized head total taken (if b then s else t)
  Sized-if taken true s t p q = p refl
  Sized-if taken false s t p q = q refl

  Sized-next :
      (taken : Bytes) (eof : Bool) (c : Connection)
      → Owes head total taken c
      → c.sent ≡ head ++ taken
      → Sized head total taken (handle_write_large_response eof false c)
  unfolding handle_write_large_response handle_response_written
  Sized-next taken eof c o s =
      Sized-if taken (c.write_ == c.write_size_) _ _
        (λ e.
          let all : length taken ≡ total = ground (arith, o, e) in
          Sized-if taken c.close_ _ _ (λ _. (s, all)) (λ _. (s, all)))
        λ e.
          Sized-if taken eof _ _ (λ _. ([], append-nil c.sent ∙ s))
            (λ _. (o, s, ask (ground (arith, o, e))))
    where
      ask :
          c.write_ < total → min chunk_size (sub_size c.write_size_ c.write_) ≤ total - length taken
      ask less = omega (arith, less, small, o.1, o.2, o.3)

  Sized-read :
      (taken out : Bytes) (c : Connection)
      → Owes head total taken c
      → c.sent ≡ head ++ taken
      → length out ≤ total - length taken
      → Sized head total (taken ++ out) (handle_large_response_buff_read out c)
  unfolding handle_large_response_buff_read
  Sized-read taken out c o s l =
      Sized-if (taken ++ out) (length out == 0) _ _ (λ _. (out, joined))
        λ _. (
          (o.0, o.1, counted, omega (arith, counted, length-append taken out, l, o.2, o.3)),
          joined,
        )
    where
      joined : c.sent ++ out ≡ head ++ (taken ++ out)
      joined = ap (λ t. t ++ out) s ∙ append_assoc head taken out

      counted : length (taken ++ out) ≡ add_size c.write_ (length out)
      counted = omega (arith, length-append taken out, l, small, o.2, o.3)

  -- Where a connection that has sent the headers, and nothing of the body yet, writes a response
  -- that is not in chunks and whose length can be counted, then at any point of a writing in which
  -- no getn of a single byte was answered what is sent and what is being written are the headers
  -- and the bytes that answered the getns, never more than the length; the next request is read,
  -- or the connection closed, only when all of that length is sent. Where the sending is
  -- cancelled, what was sent is a front of these.
  pub Writing-Sized :
      {start : Connection} {taken : Bytes} {s : Connection × Pending}
      → start.chunked_ ≡ false
      → start.write_ ≡ 0
      → start.write_size_ ≡ total
      → start.sent ≡ head
      → (w : Writing start taken s) → InBlocks w
      → Sized head total taken s
  unfolding handle_headers_written handle_write_large_response handle_response_written
  Writing-Sized {start} h w z d (begun eof true) k = ([], ap (λ t. t ++ []) d)
  Writing-Sized {start} h w z d (begun eof false) k =
      Sized-if [] start.chunked_ _ _ (λ e. true_false e h)
        λ e. Sized-next [] eof start (h, z, sym w, omega (arith, w)) (d ∙ sym (append-nil head))
  Writing-Sized h w z d (answered {taken} {c} {n} r membuf out more l) q =
      let k = Writing-Sized h w z d r q in
      Sized-if (taken ++ out) c.chunked_ _ _ (λ e. true_false e k.0.0)
        λ e. Sized-read taken out c k.0 k.1 (omega (arith, l, k.2))
  Writing-Sized h w z d (answered_one r membuf area one l) q = absurd q
  Writing-Sized h w z d (written {taken} {c} {bytes} r eof) q =
      let k = Writing-Sized h w z d r q in
      Sized-if taken c.chunked_ _ _ (λ e. true_false e k.0.0)
        λ e. Sized-next taken eof (record c { sent = c.sent ++ bytes }) k.0 k.1
  Writing-Sized h w z d (failed {taken} {c} {bytes} r eof) q =
      let k = Writing-Sized h w z d r q in
      Sized-if taken c.chunked_ _ _ (λ e. true_false e k.0.0) λ e. (bytes, k.1)
