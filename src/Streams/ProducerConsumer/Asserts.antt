-- ===== src/Streams/ProducerConsumer/Asserts.antt =====
-- The `assert`s of src/producer_consumer_buf.h that stand inside `read`, `write` and what calls them:
-- for each function, whether all those that it passes hold. The functions themselves are in the module
-- above, as they go on where the asserts hold.
pub mod Laws
use snode.Prelude.{
  ℕ, ◌+◌, ◌-◌, Bool, true, false, not, ◌&&◌, ◌||◌, List, [], ◌∷◌, ◌++◌, Option, none, some, Bytes,
  length, add_size, ltb, leb, ◌==◌, if◌then◌else◌,
}
use snode.Streams.Block
use snode.Streams.Block.{Block}
use snode.Streams.ProducerConsumer.{
  Buffer, EvRequest, advance_once, can_satisfy, complete, read_byte, is_advance_before, in_avail,
}
use snode.Streams.ProducerConsumer.Api.{write_back, make_room}

-- `assert(count >= totalr)` in each round of the loop of `read`.
unfoldable pub totals_hold : List Block → ℕ → ℕ → Bool
totals_hold [] count totalr = true
totals_hold (k ∷ ks) count totalr =
    let totalr' = totalr + length (Block.read k (count - totalr) true).0 in
    let rest = totals_hold ks count totalr' in
    leb totalr' count && (if totalr' == count then true else rest)

-- `read`, with `assert(can_satisfy(count))` in front.
unfoldable pub read_asserts : Buffer → ℕ → Bool
unfolding can_satisfy totals_hold
read_asserts b count = can_satisfy b count && totals_hold b.blocks_ count 0

abbrev pub ch_asserts : EvRequest → Buffer → Bool
ch_asserts r b =
    if is_advance_before r.advance_act_
    then read_asserts b 1 && read_asserts (read_byte b true).1 1
    else read_asserts b 1

-- `ev_request::complete`
unfoldable pub complete_asserts : EvRequest → Buffer → Bool
unfolding read_asserts read_byte
complete_asserts r b = elim r.bufptr_ [
  | none ↦ ch_asserts r b
  | some ptr ↦ if ltb 1 r.count_ then read_asserts b r.count_ else ch_asserts r b
]

unfoldable pub fulfill_asserts : List EvRequest → Buffer → Bool
unfolding complete_asserts complete can_satisfy
fulfill_asserts [] b = true
fulfill_asserts (r ∷ rs) b =
    let rest = fulfill_asserts rs (complete r b).1 in
    if can_satisfy b r.count_ then complete_asserts r b && rest else true

unfoldable pub enqueue_asserts : EvRequest → Buffer → Bool
unfolding complete_asserts can_satisfy
enqueue_asserts r b = if can_satisfy b r.count_ then complete_asserts r b else true

unfoldable pub update_asserts : Buffer → ℕ → Bool
unfolding fulfill_asserts
update_asserts b count = fulfill_asserts b.requests_ (record b {
  total_ = add_size b.total_ count;
  total_written_ = add_size b.total_written_ count;
})

-- `write`, with `assert(written == count)`.
unfoldable pub write_asserts : Bytes → Buffer → Bool
unfolding write_back make_room update_asserts
write_asserts src b =
    if not b.stream_can_write_ || length src == 0 || not b.stream_can_read_
    then true
    else let (written, ks) = write_back (make_room b (length src)) src in
      (written == length src) && update_asserts (record b { blocks_ = ks }) written

-- `getn` and `bumpc`.
unfoldable pub getn_asserts : ℕ → ℕ → ℕ → Buffer → Bool
unfolding enqueue_asserts
getn_asserts op ptr count b =
    enqueue_asserts
      (record {
        count_ = count;
        advance_act_ = advance_once;
        bufptr_ = some ptr;
        completion_op_ = op;
      })
      b

unfoldable pub bumpc_asserts : ℕ → Buffer → Bool
unfolding enqueue_asserts
bumpc_asserts op b =
    enqueue_asserts
      (record { count_ = 1; advance_act_ = advance_once; bufptr_ = none; completion_op_ = op }) b

-- `sgetn` and `scopy`; with a count of 1 `sbumpc` and `sgetc`.
unfoldable pub sgetn_asserts : ℕ → Buffer → Bool
unfolding read_asserts can_satisfy
sgetn_asserts count b = if can_satisfy b count then read_asserts b count else true

unfoldable pub sync_asserts : Buffer → Bool
unfolding fulfill_asserts
sync_asserts b = fulfill_asserts b.requests_ (record b { synced_ = in_avail b })

unfoldable pub close_asserts : Buffer → Bool
unfolding fulfill_asserts
close_asserts b = fulfill_asserts b.requests_ (record b { stream_can_write_ = false })

-- What `commit` serves once it has its block.
unfoldable pub commit_asserts : ℕ → Buffer → Bool
unfolding update_asserts
commit_asserts count b = elim b.allocblock_ [
  | none ↦ true
  | some k ↦
      update_asserts
        (record b {
          blocks_ = b.blocks_ ++ Block.advance_write_head k count ∷ [];
          allocblock_ = none;
        })
        count
]
