-- ===== src/Http/ChunkReader/Wire.antt =====
-- A body as chunks on the wire, and where the connection is in it.
use snode.Prelude.{
  ℕ, ◌+◌, ◌-◌, ◌≤◌, ◌<◌, ◌≡◌, sym, ap, ◌∙◌, List, [], ◌∷◌, ◌++◌, some, Bytes, length, take, drop,
  arith, All, append_assoc, take-append_left, drop-append_left, drop-append, take_all,
}
use snode.Prelude.Int.{pos}
use snode.Http.Body
use snode.Http.Body.{Connection, async_read_until_buffersize, complete}
use snode.Http.Chunked.{hex}
use snode.Http.Chunked.Laws.{chunk}
use snode.Http.ChunkReader.{Pending, read_until_crlf, read_chunk, putn, idle, overrun, int_max}

-- A body in parts on the wire: its chunks, the one of size 0, and what comes behind.
abbrev pub encode : List Bytes → Bytes → Bytes
encode [] tail = hex 0 ++ 13 ∷ 10 ∷ tail
encode (p ∷ ps) tail = chunk p ++ encode ps tail

abbrev pub joined : List Bytes → Bytes
joined [] = []
joined (p ∷ ps) = p ++ joined ps

-- A part that can be sent as a chunk and whose size, with its CRLF, is an `int`.
abbrev pub IsPart : Bytes → Type 0
IsPart p = (0 < length p) × (length p + 2 ≤ int_max)

pub encode_chunk :
    (p : Bytes) (ps : List Bytes) (tail : Bytes)
    → encode (p ∷ ps) tail ≡ hex (length p) ++ 13 ∷ 10 ∷ (p ++ 13 ∷ 10 ∷ encode ps tail)
encode_chunk p ps tail = simp append_assoc

-- Where the connection is in the wire: `done` is delivered, `left` are the parts to come, and `future`
-- the bytes that have not arrived.
abbrev pub Stands : Bytes → Bytes → List Bytes → Bytes → Connection × Pending → Type 0
Stands future tail left done (c, read_until_crlf) =
    (c.accepted ≡ done) × (c.read_ ≡ length done) × (c.request_buf_ ++ future ≡ encode left tail)
Stands future tail [] done (c, read_chunk wait len) = ⊥
Stands future tail (p ∷ left) done (c, read_chunk Body.idle len) = ⊥
Stands future tail (p ∷ left) done (c, read_chunk (Body.putn bytes) len) = ⊥
Stands future tail (p ∷ left) done (c, read_chunk (Body.async_read least) len) =
    (c.accepted ≡ done)
    × (c.read_ ≡ length done + length p)
    × (c.request_buf_ ++ future ≡ p ++ 13 ∷ 10 ∷ encode left tail)
    × (len ≡ pos (length p))
    × (length p + 2 ≤ least + length c.request_buf_)
Stands future tail [] done (c, putn bytes) = ⊥
Stands future tail (p ∷ left) done (c, putn bytes) =
    (c.accepted ≡ done)
    × (c.read_ ≡ length done + length p)
    × (c.request_buf_ ++ future ≡ p ++ 13 ∷ 10 ∷ encode left tail)
    × (bytes ≡ p)
    × (length p + 2 ≤ length c.request_buf_)
Stands future tail left done (c, idle) =
    (left ≡ []) × (c.accepted ≡ done) × (c.completed ≡ some (length done))
Stands future tail left done (c, overrun) = ⊥

pub record Progress (body future tail : Bytes) (s : Connection × Pending) : Type 0 where
  pub done : Bytes
  pub left : List Bytes
  pub parts : All IsPart left
  pub whole : done ++ joined left ≡ body
  pub stands : Stands future tail left done s

-- What the buffer holds, where the wire is longer.
pub take_front :
    (n : ℕ) (buf future u rest : Bytes)
    → buf ++ future ≡ u ++ rest
    → n ≡ length u
    → n ≤ length buf
    → take n buf ≡ u
take_front n buf future u rest e h l =
    sym (take-append_left n buf future l)
    ∙ ap (take n) e
    ∙ take-append_left n u rest (omega arith)
    ∙ take_all n u (omega arith)

pub drop_front :
    (n : ℕ) (buf future u rest : Bytes)
    → buf ++ future ≡ u ++ rest
    → n ≡ length u
    → n ≤ length buf
    → drop n buf ++ future ≡ rest
drop_front n buf future u rest e h l =
    let z : n - length buf ≡ 0 = omega arith in
    ap (λ i. drop n buf ++ drop i future) (sym z)
    ∙ sym (drop-append n buf future)
    ∙ ap (drop n) e
    ∙ drop-append_left n u rest h
