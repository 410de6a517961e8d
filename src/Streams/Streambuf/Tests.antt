-- ===== src/Streams/Streambuf/Tests.antt =====
-- Calls on a stream buffer on small inputs, and the properties at them.
use snode.Prelude.{◌≡◌, ◌≢◌, refl, true, false, [], ◌∷◌, none, some, arith}
use snode.Streams.Block.{Block}
use snode.Streams.Block
use snode.Streams.ProducerConsumer.{ch, eof}
use snode.Streams.ProducerConsumer.Inv.{IsValid}
use snode.Streams.Streambuf
use snode.Streams.Streambuf.{Streambuf, ok, throws, asserts, can_write, is_eof, sbumpc, sgetc}
use snode.Streams.Streambuf.Laws.{sync_reads, is_end, unread_of}
use snode.Streams.Streambuf.Calls.{Reached, created, called, alloc, call}
use snode.Streams.Streambuf.Protocol.{alloc-commit_protocol, is_some}

abbrev block : Block
block = record { read_ = 1; pos_ = 3; size_ = 4; data_ = 7 ∷ 8 ∷ 9 ∷ 0 ∷ [] }

abbrev held : Streambuf
held = record {
  impl_ = record {
    stream_can_read_ = true;
    stream_can_write_ = false;
    alloc_size_ = 4;
    allocblock_ = none;
    total_ = 2;
    total_read_ = 1;
    total_written_ = 3;
    synced_ = 0;
    blocks_ = block ∷ [];
    requests_ = [];
  };
  stream_read_eof_ = false;
  alloced_ = false;
}

held-IsValid : IsValid held.impl_
held-IsValid = record {
  blocks = (omega arith, tt);
  total = refl;
  small = omega arith;
  synced = omega arith;
  alloc_small = omega arith;
  counted = refl;
  fresh = tt;
  once = tt;
}

-- A write of nothing asks for nothing, and so its handler is never called.
putn-nothing : Streambuf.putn 1 [] (Streambuf.create_shared_instance 16) ≡ []
unfolding Streambuf.putn
putn-nothing = refl

-- A second allocation before the commit is refused.
alloc_twice :
    Streambuf.alloc 3 (record (Streambuf.create_shared_instance 16) {
      impl_ = record (Streambuf.create_shared_instance 16).impl_ {
        allocblock_ = some (Block.new_block 3);
      };
      alloced_ = true;
    })
    ≡ throws
unfolding Streambuf.alloc Streambuf.create_shared_instance
alloc_twice = refl

sync_reads_example :
    let (value, s') = sbumpc held in
    let (peeked, s'') = sgetc held in
    (value ≡ ch 8)
    × (unread_of s' ≡ 9 ∷ [])
    × IsValid s'.impl_
    × (is_eof s' ≡ is_end value)
    × (peeked ≡ value)
    × (s''.impl_ ≡ held.impl_)
    × (is_eof s'' ≡ is_end value)
sync_reads_example = sync_reads held held-IsValid refl

-- The end of the buffer, closed for writing.
abbrev emptied : Streambuf
emptied = record held { impl_ = record held.impl_ { total_ = 0; total_read_ = 3; blocks_ = [] } }

sbumpc-emptied : ((sbumpc emptied).0 ≡ eof) × (is_eof (sbumpc emptied).1 ≡ true)
unfolding sbumpc is_eof
sbumpc-emptied = (refl, refl)

allocated-Reached : (s : Streambuf) × Reached s × (s.alloced_ ≡ true)
unfolding call Streambuf.create_shared_instance Streambuf.alloc
allocated-Reached =
    let s = Streambuf.create_shared_instance 16 in
    (
      record s {
        impl_ = record s.impl_ { allocblock_ = some (Block.new_block 3) };
        alloced_ = true;
      },
      called (created 16 refl) (alloc 3) refl,
      refl,
    )

alloc-commit_protocol_example :
    let s = allocated-Reached.0 in
    (s.alloced_ ≡ is_some s.impl_.allocblock_)
    × (Streambuf.alloc 5 s ≢ asserts)
    × (Streambuf.commit 5 s ≢ asserts)
alloc-commit_protocol_example = alloc-commit_protocol 5 allocated-Reached.1
