-- ===== src/Streams/ProducerConsumer/History.antt =====
-- Histories of calls on one `producer_consumer_buffer`, as the thread that owns it makes them: each
-- call is a step, and the task of a `putc` or `putn` is a step when the thread runs it.
use snode.Prelude.{
  ℕ, ◌+◌, ◌≤◌, ◌<◌, ◌≡◌, Bool, true, if◌then◌else◌, List, [], ◌∷◌, ◌++◌, Option, none, some, Bytes,
  length, take, size_mod,
}
use mathlib.Core.Option
use snode.Streams.Block.{Block, unread}
use snode.Streams.ProducerConsumer.{
  Buffer, Completion, IntType, ch, eof, requires_async, SyncRead, copied, would_block,
}
use snode.Streams.ProducerConsumer.Api
use snode.Streams.ProducerConsumer.Asserts
use snode.Streams.ProducerConsumer.Requests.{all_taken}
use snode.Streams.ProducerConsumer.Writing.{accepted}

pub data Op : Type 0 where
  put_n : ℕ → Bytes → Op
  put_c : ℕ → ℕ → Op
  get_n : ℕ → ℕ → ℕ → Op
  bump_c unget_c : ℕ → Op
  sget_n s_copy : ℕ → Op
  sbump_c sget_c flush close_in close_out : Op
  allocate : ℕ → Op
  fill : Bytes → Op
  commit_n release_n : ℕ → Op

-- What a step leaves, the handlers that it calls or schedules, and the bytes that it returns to its
-- caller and takes off the buffer.
pub record Outcome : Type 0 where
  pub after : Buffer
  pub completions : List Completion
  pub returned : Bytes

abbrev pub gained : Outcome → Bytes
gained r = r.returned ++ all_taken r.completions

abbrev pub quiet : Buffer → Outcome
quiet b = record { after = b; completions = []; returned = [] }

abbrev pub served : Buffer × List Completion → Outcome
served (b, cs) = record { after = b; completions = cs; returned = [] }

abbrev pub sync_read : SyncRead × Buffer → Outcome
sync_read (copied out, b) = record { after = b; completions = []; returned = out }
sync_read (would_block, b) = quiet b

abbrev pub sync_ch : IntType × Buffer → Outcome
sync_ch (ch c, b) = record { after = b; completions = []; returned = c ∷ [] }
sync_ch (eof, b) = quiet b
sync_ch (requires_async, b) = quiet b

-- What a call leaves where the asserts inside `read` and `write` hold. `none` stands for the other
-- asserts, of `alloc`, `commit` and `release`.
unfoldable pub result : Op → Buffer → Option Outcome
result (put_n op src) b = some (served (Api.putn_task op src b))
result (put_c op c) b = some (served (Api.putc_task op c b))
result (get_n op ptr count) b = some (served (Api.getn op ptr count b))
result (bump_c op) b = some (served (Api.bumpc op b))
result (unget_c op) b = some (served (Api.ungetc op b))
result (sget_n count) b = some (sync_read (Api.sgetn count b))
result (s_copy count) b = some (quiet (Api.scopy count b).1)
result sbump_c b = some (sync_ch (Api.sbumpc b))
result sget_c b = some (quiet (Api.sgetc b).1)
result flush b = some (served (Api.sync b))
result close_in b = some (quiet (Api.close_read b))
result close_out b = some (served (Api.close_write b))
result (allocate count) b = Option.map (λ r. quiet r.1) (Api.alloc count b)
result (fill src) b = some (quiet (Api.store src b))
result (commit_n count) b = Option.map served (Api.commit count b)
result (release_n count) b = elim b.blocks_ [
  | [] ↦ none
  | k ∷ ks ↦
      Option.map (λ b'. record { after = b'; completions = []; returned = take count (unread k) })
        (Api.release count b)
]

-- Whether the asserts inside `read` and `write` hold in a call.
unfoldable pub asserts : Op → Buffer → Bool
asserts (put_n op src) b = Asserts.write_asserts src b
asserts (put_c op c) b = Asserts.write_asserts (c ∷ []) b
asserts (get_n op ptr count) b = Asserts.getn_asserts op ptr count b
asserts (bump_c op) b = Asserts.bumpc_asserts op b
asserts (unget_c op) b = true
asserts (sget_n count) b = Asserts.sgetn_asserts count b
asserts (s_copy count) b = Asserts.sgetn_asserts count b
asserts sbump_c b = Asserts.sgetn_asserts 1 b
asserts sget_c b = Asserts.sgetn_asserts 1 b
asserts flush b = Asserts.sync_asserts b
asserts close_in b = true
asserts close_out b = Asserts.close_asserts b
asserts (allocate count) b = true
asserts (fill src) b = true
asserts (commit_n count) b = Asserts.commit_asserts count b
asserts (release_n count) b = true

-- `none` where any `assert` of the source fails.
unfoldable pub step : Op → Buffer → Option Outcome
unfolding asserts result
step o b = if asserts o b then result o b else none

-- What the source asserts or documents of a call, and that the bytes held can be counted.
abbrev pub Allowed : Op → Buffer → Type 0
Allowed (put_n op src) b = b.total_ + length src < size_mod
Allowed (put_c op c) b = b.total_ + 1 < size_mod
Allowed (get_n op ptr count) b = 0 < count
Allowed (allocate count) b = (b.allocblock_ ≡ none) × (count < size_mod)
Allowed (commit_n count) b =
    (k : Block) × (b.allocblock_ ≡ some k) × (count ≤ k.size_) × (b.total_ + count < size_mod)
Allowed (release_n count) b =
    (k : Block) × (ks : List Block) × (b.blocks_ ≡ k ∷ ks) × (count ≤ length (unread k))
Allowed _ b = Unit

-- The bytes that a step puts into the buffer.
abbrev pub added : Op → Buffer → Bytes
added (put_n op src) b = accepted b src
added (put_c op c) b = accepted b (c ∷ [])
added (commit_n count) b = elim b.allocblock_ [ none ↦ [] | some k ↦ take count k.data_ ]
added _ b = []

-- From a buffer to another by allowed steps, with all bytes put in and all bytes handed out.
pub data Run (start : Buffer) : Bytes → Bytes → Buffer → Type 0 where
  here : Run start [] [] start
  next :
      {put got : Bytes} {b : Buffer}
      → Run start put got b
      → (o : Op) (r : Outcome) → Allowed o b
      → step o b ≡ some r
      → Run start (put ++ added o b) (got ++ gained r) r.after
