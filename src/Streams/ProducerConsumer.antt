-- ===== src/Streams/ProducerConsumer.antt =====
-- `producer_consumer_buffer<uint8_t>` of src/producer_consumer_buf.h: a queue of memory blocks with a
-- queue of read requests. A function that changes the buffer returns the new one. A handler that the
-- source hands to `async_task::connect` or calls is a `Completion` in the returned list, in order;
-- the bytes copied through a request's pointer go with it. `none` stands for a failed `assert`.
-- Operations are named by an identifier, pointers by a number. `getc` and `nextc` are left out: they
-- pass the literal 1 for a pointer, which does not compile where it is instantiated.
pub mod Api
pub mod Asserts
pub mod Inv
pub mod Reading
pub mod Writing
pub mod Control
pub mod Requests
pub mod History
pub mod Steps
pub mod Front
pub mod Conservation
pub mod Ordering
mod Tests
use snode.Prelude.{
  ℕ, ◌+◌, ◌-◌, ◌%◌, ◌<◌, ◌≡◌, Bool, true, false, not, ◌&&◌, ◌||◌, List, [], ◌∷◌, ◌++◌, Option, none,
  some, Bytes, length, copy_at, min, max, add_size, sub_size, ltb, leb, ◌==◌, if◌then◌else◌,
}
use snode.Streams.Block
use snode.Streams.Block.{Block}

pub data AdvanceAction : Type 0 where
  advance_once advance_before no_advance : AdvanceAction

pub record EvRequest : Type 0 where
  pub count_ : ℕ
  pub advance_act_ : AdvanceAction
  pub bufptr_ : Option ℕ
  pub completion_op_ : ℕ

-- `traits::int_type`: a character, `eof()` or `requires_async()`.
pub data IntType : Type 0 where
  ch : ℕ → IntType
  eof requires_async : IntType

-- What a synchronous read returns: the bytes copied, or `requires_async()`.
pub data SyncRead : Type 0 where
  copied : Bytes → SyncRead
  would_block : SyncRead

-- `complete_size` of a read with the bytes put at its pointer, `complete_size` of a write, and
-- `complete_ch` of a `putc` and of a read.
pub data Completion : Type 0 where
  read_done : ℕ → ℕ → Bytes → Completion
  write_done : ℕ → ℕ → Completion
  put_done ch_done : ℕ → IntType → Completion

pub record Buffer : Type 0 where
  pub stream_can_read_ : Bool
  pub stream_can_write_ : Bool
  pub alloc_size_ : ℕ
  pub allocblock_ : Option Block
  pub total_ : ℕ
  pub total_read_ : ℕ
  pub total_written_ : ℕ
  pub synced_ : ℕ
  pub blocks_ : List Block
  pub requests_ : List EvRequest

unfoldable pub new_buffer : ℕ → Buffer
new_buffer alloc_size = record {
  stream_can_read_ = true;
  stream_can_write_ = true;
  alloc_size_ = alloc_size;
  allocblock_ = none;
  total_ = 0;
  total_read_ = 0;
  total_written_ = 0;
  synced_ = 0;
  blocks_ = [];
  requests_ = [];
}

abbrev pub in_avail : Buffer → ℕ
in_avail b = b.total_

unfoldable pub can_satisfy : Buffer → ℕ → Bool
can_satisfy b count = ltb 0 b.synced_ || leb count (in_avail b) || not b.stream_can_write_

-- Empty blocks at the front are dropped.
unfoldable pub purge : List Block → List Block
purge [] = []
purge (k ∷ ks) = if ltb 0 (Block.rd_chars_left k) then k ∷ ks else purge ks

unfoldable pub update_read_head : Buffer → ℕ → Buffer
unfolding purge
update_read_head b count = record b {
  total_ = sub_size b.total_ count;
  total_read_ = add_size b.total_read_ count;
  synced_ =
      if ltb 0 b.synced_
      then (if ltb count b.synced_ then sub_size b.synced_ count else 0)
      else b.synced_;
  blocks_ = purge b.blocks_;
}

-- The loop of `read`, with `totalr` bytes read so far.
unfoldable pub read_blocks : List Block → ℕ → ℕ → Bool → Bytes × List Block
read_blocks [] count totalr advance = ([], [])
read_blocks (k ∷ ks) count totalr advance =
    let (out, k') = Block.read k (count - totalr) advance in
    let totalr' = totalr + length out in
    let (rest, ks') = read_blocks ks count totalr' advance in
    if totalr' == count then (out, k' ∷ ks) else (out ++ rest, k' ∷ ks')

unfoldable pub read : Buffer → ℕ → Bool → Bytes × Buffer
unfolding read_blocks update_read_head
read b count advance =
    let (out, ks) = read_blocks b.blocks_ count 0 advance in
    let b' = record b { blocks_ = ks } in
    (out, if advance then update_read_head b' (length out) else b')

-- `read_size == 1 ? value : eof`
unfoldable pub first_ch : Bytes → IntType
first_ch [] = eof
first_ch (c ∷ cs) = ch c

unfoldable pub read_byte : Buffer → Bool → IntType × Buffer
unfolding read first_ch
read_byte b advance = let (out, b') = read b 1 advance in (first_ch out, b')

abbrev pub is_no_advance : AdvanceAction → Bool
is_no_advance no_advance = true
is_no_advance _ = false

abbrev pub is_advance_before : AdvanceAction → Bool
is_advance_before advance_before = true
is_advance_before _ = false

abbrev complete_size : EvRequest → ℕ → Buffer → Completion × Buffer
complete_size r ptr b =
    let (out, b') = read b r.count_ (not (is_no_advance r.advance_act_)) in
    (read_done r.completion_op_ ptr out, b')

abbrev complete_ch : EvRequest → Buffer → Completion × Buffer
complete_ch r b =
    let b' = if is_advance_before r.advance_act_ then (read_byte b true).1 else b in
    let advance = not (is_no_advance r.advance_act_ || is_advance_before r.advance_act_) in
    let (value, b'') = read_byte b' advance in (ch_done r.completion_op_ value, b'')

-- `ev_request::complete`
unfoldable pub complete : EvRequest → Buffer → Completion × Buffer
unfolding read_byte
complete r b = elim r.bufptr_ [
  | none ↦ complete_ch r b
  | some ptr ↦ if ltb 1 r.count_ then complete_size r ptr b else complete_ch r b
]

-- The loop of `fulfill_outstanding` over the queue.
unfoldable pub fulfill : List EvRequest → Buffer → Buffer × List Completion
unfolding can_satisfy
fulfill [] b = (record b { requests_ = [] }, [])
fulfill (r ∷ rs) b =
    let (c, b') = complete r b in
    let (b'', cs) = fulfill rs b' in
    if can_satisfy b r.count_ then (b'', c ∷ cs) else (record b { requests_ = r ∷ rs }, [])

unfoldable pub fulfill_outstanding : Buffer → Buffer × List Completion
unfolding fulfill
fulfill_outstanding b = fulfill b.requests_ b

unfoldable pub enqueue_request : EvRequest → Buffer → Buffer × List Completion
unfolding can_satisfy complete
enqueue_request r b =
    let (c, b') = complete r b in
    if can_satisfy b r.count_
    then (b', c ∷ [])
    else (record b { requests_ = b.requests_ ++ r ∷ [] }, [])

unfoldable pub update_write_head : Buffer → ℕ → Buffer × List Completion
unfolding fulfill_outstanding
update_write_head b count = fulfill_outstanding (record b {
  total_ = add_size b.total_ count;
  total_written_ = add_size b.total_written_ count;
})
