-- ===== src/Streams/ProducerConsumer/Api.antt =====
-- The public operations of `producer_consumer_buffer`. The write tasks are the functions that `putc`
-- and `putn` hand to `async_task::connect`; they run when the worker thread takes them.
use snode.Prelude.{
  ℕ, Bool, true, false, not, ◌&&◌, ◌||◌, List, [], ◌∷◌, ◌++◌, Option, none, some, Bytes, length,
  copy_at, max, add_size, ltb, leb, ◌==◌, if◌then◌else◌,
}
use snode.Streams.Block
use snode.Streams.Block.{Block, unread}
use snode.Streams.ProducerConsumer.{
  advance_once, IntType, ch, eof, requires_async, SyncRead, copied, would_block, Completion,
  write_done, ch_done, put_done, Buffer, can_satisfy, update_read_head, read, read_byte,
  fulfill_outstanding, enqueue_request, update_write_head, in_avail,
}

-- `blocks_.empty() || blocks_.back()->wr_chars_left() < count`
unfoldable pub needs_block : List Block → ℕ → Bool
needs_block [] count = true
needs_block (k ∷ []) count = ltb (Block.wr_chars_left k) count
needs_block (k ∷ l ∷ ks) count = needs_block (l ∷ ks) count

-- `blocks_.back()->write(ptr, count)`
unfoldable pub write_back : List Block → Bytes → ℕ × List Block
write_back [] src = (0, [])
write_back (k ∷ []) src = let (n, k') = Block.write k src in (n, k' ∷ [])
write_back (k ∷ l ∷ ks) src = let (n, ks') = write_back (l ∷ ks) src in (n, k ∷ ks')

unfoldable pub make_room : Buffer → ℕ → List Block
unfolding needs_block
make_room b count =
    if needs_block b.blocks_ count
    then b.blocks_ ++ Block.new_block (max count b.alloc_size_) ∷ []
    else b.blocks_

-- `write` with the source as a list, whose length is `count`.
unfoldable pub write : Buffer → Bytes → ℕ × Buffer × List Completion
unfolding make_room write_back update_write_head
write b src =
    if not b.stream_can_write_ || length src == 0
    then (0, b, [])
    else if not b.stream_can_read_
    then (length src, b, [])
    else let (written, ks) = write_back (make_room b (length src)) src in
      let (b', cs) = update_write_head (record b { blocks_ = ks }) written in (written, b', cs)

-- The task of `putn` and `putn_nocopy`.
unfoldable pub putn_task : ℕ → Bytes → Buffer → Buffer × List Completion
unfolding write
putn_task op src b = let (res, b', cs) = write b src in (b', cs ++ write_done op res ∷ [])

-- The task of `putc`.
unfoldable pub putc_task : ℕ → ℕ → Buffer → Buffer × List Completion
unfolding write
putc_task op c b =
    let (res, b', cs) = write b (c ∷ []) in
    (b', cs ++ put_done op (if res == 0 then eof else ch c) ∷ [])

unfoldable pub getn : ℕ → ℕ → ℕ → Buffer → Buffer × List Completion
unfolding enqueue_request
getn op ptr count b =
    enqueue_request
      (record {
        count_ = count;
        advance_act_ = advance_once;
        bufptr_ = some ptr;
        completion_op_ = op;
      })
      b

-- `can_seek`, and `getpos` for `in` and `out` of its mode; `none` is `traits::eof()`.
unfoldable pub can_seek : Buffer → Bool
can_seek b = false

unfoldable pub getpos : Bool → Bool → Buffer → Option ℕ
getpos is_in is_out b =
    if (is_in && not b.stream_can_read_) || (is_out && not b.stream_can_write_)
    then none
    else if is_in && not is_out
    then some b.total_read_
    else if is_out && not is_in
    then some b.total_written_
    else none

unfoldable pub bumpc : ℕ → Buffer → Buffer × List Completion
unfolding enqueue_request
bumpc op b =
    enqueue_request
      (record { count_ = 1; advance_act_ = advance_once; bufptr_ = none; completion_op_ = op }) b

unfoldable pub ungetc : ℕ → Buffer → Buffer × List Completion
ungetc op b = (b, ch_done op eof ∷ [])

abbrev copied_of : Bytes × Buffer → SyncRead × Buffer
copied_of (out, b) = (copied out, b)

unfoldable pub sgetn : ℕ → Buffer → SyncRead × Buffer
unfolding can_satisfy read
sgetn count b = if can_satisfy b count then copied_of (read b count true) else (would_block, b)

unfoldable pub scopy : ℕ → Buffer → SyncRead × Buffer
unfolding can_satisfy read
scopy count b = if can_satisfy b count then copied_of (read b count false) else (would_block, b)

unfoldable pub sbumpc : Buffer → IntType × Buffer
unfolding can_satisfy read_byte
sbumpc b = if can_satisfy b 1 then read_byte b true else (requires_async, b)

unfoldable pub sgetc : Buffer → IntType × Buffer
unfolding can_satisfy read_byte
sgetc b = if can_satisfy b 1 then read_byte b false else (requires_async, b)

unfoldable pub sync : Buffer → Buffer × List Completion
unfolding fulfill_outstanding
sync b = fulfill_outstanding (record b { synced_ = in_avail b })

unfoldable pub close_read : Buffer → Buffer
close_read b = record b { stream_can_read_ = false }

unfoldable pub close_write : Buffer → Buffer × List Completion
unfolding fulfill_outstanding
close_write b = fulfill_outstanding (record b { stream_can_write_ = false })

-- The Boolean tells whether the returned pointer is not null.
unfoldable pub alloc : ℕ → Buffer → Option (Bool × Buffer)
alloc count b = if not b.stream_can_write_ then some (false, b) else elim b.allocblock_ [
  | none ↦ some (true, record b { allocblock_ = some (Block.new_block count) })
  | some _ ↦ none
]

-- The caller stores through the pointer that `alloc` returned.
unfoldable pub store : Bytes → Buffer → Buffer
store src b = elim b.allocblock_ [
  | none ↦ b
  | some k ↦ record b { allocblock_ = some (record k { data_ = copy_at k.data_ k.pos_ src }) }
]

unfoldable pub commit : ℕ → Buffer → Option (Buffer × List Completion)
unfolding update_write_head
commit count b = elim b.allocblock_ [
  | none ↦ none
  | some k ↦ some (
      update_write_head
        (record b {
          blocks_ = b.blocks_ ++ Block.advance_write_head k count ∷ [];
          allocblock_ = none;
        })
        count)
]

-- `ptr` as the bytes that it points to, or `none` for null, and `count`.
pub record Acquired : Type 0 where
  pub result : Bool
  pub ptr : Option Bytes
  pub count : ℕ

unfoldable pub acquire : Buffer → Acquired
acquire b =
    if not b.stream_can_read_
    then record { result = false; ptr = none; count = 0 }
    else elim b.blocks_ [
      | [] ↦ record { result = not b.stream_can_write_; ptr = none; count = 0 }
      | k ∷ ks ↦ record { result = true; ptr = some (unread k); count = Block.rd_chars_left k }
    ]

-- `release` with a pointer that is not null.
unfoldable pub release : ℕ → Buffer → Option Buffer
unfolding update_read_head
release count b = elim b.blocks_ [
  | [] ↦ none
  | k ∷ ks ↦
      if leb count (Block.rd_chars_left k)
      then some (
          update_read_head (record b { blocks_ = record k { read_ = add_size k.read_ count } ∷ ks })
            count)
      else none
]
