-- ===== src/Streams/ProducerConsumer/Tests.antt =====
-- Runs of the producer-consumer buffer on small inputs, and its properties at them.
use snode.Prelude.{◌<◌, ◌≡◌, refl, true, [], ◌∷◌, ◌++◌, none, some, arith}
use snode.Streams.Block.{Block}
use snode.Streams.Block
use snode.Streams.ProducerConsumer.{
  Buffer, complete, new_buffer, read, read_done, ch_done, EvRequest, can_satisfy, advance_once,
  first_ch,
}
use snode.Streams.ProducerConsumer.Api.{write, getn, putn_task, close_write}
use snode.Streams.ProducerConsumer.Inv.{IsValid, contents}
use snode.Streams.ProducerConsumer.Front.{read_front}
use snode.Streams.ProducerConsumer.Asserts.{read_asserts, write_asserts}
use snode.Streams.ProducerConsumer.Requests.{IsSettled, Conserves, all_taken}
use snode.Streams.ProducerConsumer.Writing.{Wrote, write_appends}
use snode.Streams.ProducerConsumer.Control.{close_write_drains}
use snode.Streams.ProducerConsumer.Conservation.{Succeeds, step-Kept, Run-conserves}
use snode.Streams.ProducerConsumer.Ordering.{getn_one, getn_overtakes}
use snode.Streams.ProducerConsumer.History

-- Two blocks with three unread bytes, and a reader that waits for five.
abbrev first_block : Block
first_block = record { read_ = 1; pos_ = 3; size_ = 4; data_ = 7 ∷ 8 ∷ 9 ∷ 0 ∷ [] }

abbrev second_block : Block
second_block = record { read_ = 0; pos_ = 1; size_ = 4; data_ = 5 ∷ 0 ∷ 0 ∷ 0 ∷ [] }

abbrev waiting : EvRequest
waiting = record { count_ = 5; advance_act_ = advance_once; bufptr_ = some 100; completion_op_ = 1 }

abbrev held : Buffer
held = record {
  stream_can_read_ = true;
  stream_can_write_ = true;
  alloc_size_ = 4;
  allocblock_ = none;
  total_ = 3;
  total_read_ = 1;
  total_written_ = 4;
  synced_ = 0;
  blocks_ = first_block ∷ second_block ∷ [];
  requests_ = waiting ∷ [];
}

held-IsValid : IsValid held
held-IsValid = record {
  blocks = (omega arith, (omega arith, tt));
  total = refl;
  small = omega arith;
  synced = omega arith;
  alloc_small = omega arith;
  counted = refl;
  fresh = tt;
  once = ((refl, omega arith), tt);
}

held-IsSettled : IsSettled held
unfolding can_satisfy
held-IsSettled = refl

-- The write fills the second block and serves the waiting reader over both.
write-held : (write held (1 ∷ 2 ∷ [])).2 ≡ read_done 1 100 (8 ∷ 9 ∷ 5 ∷ 1 ∷ 2 ∷ []) ∷ []
unfolding write Block.write Block.read complete
write-held = refl

held_satisfies : can_satisfy held 2 ≡ true
unfolding can_satisfy
held_satisfies = refl

read_front_example :
    let (out, b') = read held 2 true in
    (read_asserts held 2 ≡ true) × (out ≡ 8 ∷ 9 ∷ []) × (contents b'.blocks_ ≡ 5 ∷ []) × IsValid b'
read_front_example = read_front 2 true held-IsValid held_satisfies

write_appends_example : Wrote held (1 ∷ 2 ∷ []) (write held (1 ∷ 2 ∷ []))
write_appends_example = write_appends (1 ∷ 2 ∷ []) held-IsValid held-IsSettled (omega arith)

close_write_drains_example :
    let (b', cs) = close_write held in
    IsValid b'
    × (b'.requests_ ≡ [])
    × (cs ≡ read_done 1 100 (8 ∷ 9 ∷ 5 ∷ []) ∷ [])
    × Conserves held [] (all_taken cs) b'
close_write_drains_example = close_write_drains held-IsValid

step-Kept_example : Succeeds (History.get_n 2 200 2) held
step-Kept_example = step-Kept held-IsValid held-IsSettled (History.get_n 2 200 2) (omega arith)

got_one : (getn 2 200 1 held).1 ≡ ch_done 2 (first_ch (8 ∷ [])) ∷ []
unfolding can_satisfy
got_one = getn_one 2 200 held-IsValid refl

overtaken :
    let (b', cs) = getn 2 200 2 held in
    (cs ≡ read_done 2 200 (8 ∷ 9 ∷ []) ∷ []) × (b'.requests_ ≡ waiting ∷ []) × (3 < 5)
overtaken =
    getn_overtakes 2 200 2 waiting [] held-IsValid held-IsSettled refl (omega arith) (omega arith)

abbrev after_putn : History.Outcome
after_putn = History.served (putn_task 1 (6 ∷ 7 ∷ []) (new_buffer 4))

one_put : History.Run (new_buffer 4) (6 ∷ 7 ∷ []) (History.gained after_putn) after_putn.after
unfolding new_buffer History.step History.asserts History.result write_asserts Block.write
    Block.new_block
one_put = History.next History.here (History.put_n 1 (6 ∷ 7 ∷ [])) after_putn (omega arith) refl

Run-conserves_example :
    let b = after_putn.after in
    IsValid b × IsSettled b × (6 ∷ 7 ∷ [] ≡ History.gained after_putn ++ contents b.blocks_)
Run-conserves_example = Run-conserves 4 (omega arith) one_put
