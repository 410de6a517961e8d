-- ===== src/Streams/Streambuf/Allocblock.antt =====
-- The implementation of a stream buffer keeps its allocated block in every call but `alloc`, `store`
-- and `commit`, and `commit` takes it.
use snode.Prelude.{
  length, some_inj, ℕ, ◌≡◌, refl, sym, ap, ◌∙◌, Bool, List, [], ◌∷◌, ◌++◌, Option, none, some,
  Bytes, arith,
}
use snode.Streams.Block
use snode.Streams.Block.{Block}
use snode.Streams.ProducerConsumer.{
  Buffer, Completion, EvRequest, read, read_byte, complete, fulfill, enqueue_request,
  update_write_head,
}
use snode.Streams.ProducerConsumer.Api

module _ (b : Buffer) where
  pub read-allocblock :
      (count : ℕ) (advance : Bool) → (read b count advance).1.allocblock_ ≡ b.allocblock_
  unfolding read
  read-allocblock count advance = ground arith

  pub read_byte-allocblock : (advance : Bool) → (read_byte b advance).1.allocblock_ ≡ b.allocblock_
  unfolding read_byte
  read_byte-allocblock advance = read-allocblock 1 advance

pub complete-allocblock :
    (r : EvRequest) (b : Buffer) → (complete r b).1.allocblock_ ≡ b.allocblock_
unfolding complete
complete-allocblock r b = grind (arith, read-allocblock, read_byte-allocblock)

pub fulfill-allocblock :
    (rs : List EvRequest) (b : Buffer) → (fulfill rs b).0.allocblock_ ≡ b.allocblock_
unfolding fulfill
fulfill-allocblock [] b = refl
fulfill-allocblock (r ∷ rs) b =
    ground (arith, complete-allocblock r b, fulfill-allocblock rs (complete r b).1)

pub update-allocblock :
    (b : Buffer) (count : ℕ) → (update_write_head b count).0.allocblock_ ≡ b.allocblock_
unfolding update_write_head
update-allocblock b count = fulfill-allocblock b.requests_ _

pub write-allocblock : (b : Buffer) (src : Bytes) → (Api.write b src).1.allocblock_ ≡ b.allocblock_
unfolding Api.write
write-allocblock b src = ground (
  arith,
  update-allocblock (record b { blocks_ = (Api.write_back (Api.make_room b (length src)) src).1 })
      (Api.write_back (Api.make_room b (length src)) src).0,
)

pub enqueue-allocblock :
    (r : EvRequest) (b : Buffer) → (enqueue_request r b).0.allocblock_ ≡ b.allocblock_
unfolding enqueue_request
enqueue-allocblock r b = ground (arith, complete-allocblock r b)

pub commit-allocblock :
    (count : ℕ) (b : Buffer) (o : Option Block) (b' : Buffer) (cs : List Completion)
    → Api.commit count (record b { allocblock_ = o }) ≡ some (b', cs)
    → b'.allocblock_ ≡ none
unfolding Api.commit
commit-allocblock count b none b' cs h = cc
commit-allocblock count b (some k) b' cs h =
    sym (ap (λ (r : Buffer × List Completion). r.0.allocblock_) (some_inj h))
    ∙ update-allocblock
        (record b {
          blocks_ = b.blocks_ ++ Block.advance_write_head k count ∷ [];
          allocblock_ = none;
        })
        count
