-- ===== src/Http/ChunkReader/Laws.antt =====
-- What the connection delivers of a body that comes as the chunks which the sender's side makes.
use snode.Prelude.{◌≡◌, ◌++◌, some, Bytes, length}
use snode.Http.Body
use snode.Http.Body.{Connection}
use snode.Http.ChunkReader.{Pending, read_until_crlf, read_chunk, putn, idle, overrun}

-- What is delivered so far is the front of the body, and once the connection is done all of it, with
-- its length for `complete`. The connection never reads past its buffer.
abbrev pub Delivers : Bytes → Connection × Pending → Type 0
Delivers body (c, read_until_crlf) = (rest : Bytes) × (c.accepted ++ rest ≡ body)
Delivers body (c, read_chunk wait len) = (rest : Bytes) × (c.accepted ++ rest ≡ body)
Delivers body (c, putn bytes) = (rest : Bytes) × (c.accepted ++ rest ≡ body)
Delivers body (c, idle) = (c.accepted ≡ body) × (c.completed ≡ some (length body))
Delivers body (c, overrun) = ⊥
