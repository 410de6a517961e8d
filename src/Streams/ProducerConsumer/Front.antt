-- ===== src/Streams/ProducerConsumer/Front.antt =====
-- What `read` copies, where it may be called.
use mathlib.Core.Path.{subst}
use snode.Prelude.{sym, if◌then◌else◌, ℕ, ◌≡◌, ap, Bool, true, false, take, drop, arith}
use snode.Streams.ProducerConsumer.{Buffer, read, can_satisfy}
use snode.Streams.ProducerConsumer.Asserts.{read_asserts}
use snode.Streams.ProducerConsumer.Asserts.Laws.{read_asserts_lem}
use snode.Streams.ProducerConsumer.Inv.{IsValid, contents}
use snode.Streams.ProducerConsumer.Reading.{read_bytes, read_rest, read_peek, read-IsValid}

-- On a well-formed buffer where can_satisfy holds for a count, the asserts of read hold for it,
-- and read copies the oldest count unread bytes over all blocks, or all there are, and keeps the
-- invariant; with advance the bytes behind them are left, without it the unread bytes are as
-- before.
pub read_front :
    {b : Buffer} (count : ℕ) (advance : Bool)
    → IsValid b
    → can_satisfy b count ≡ true
    → let (out, b') = read b count advance in
      (read_asserts b count ≡ true)
      × (out ≡ take count (contents b.blocks_))
      × (contents b'.blocks_
          ≡ (if advance then drop count (contents b.blocks_) else contents b.blocks_))
      × IsValid b'
read_front {b} count true v h = (
  read_asserts_lem b count count (omega arith) h,
  read_bytes v count true,
  read_rest v count,
  read-IsValid v count,
)
read_front {b} count false v h = (
  read_asserts_lem b count count (omega arith) h,
  read_bytes v count false,
  ap (λ (k : Buffer). contents k.blocks_) (read_peek v count),
  subst IsValid (sym (read_peek v count)) v,
)
