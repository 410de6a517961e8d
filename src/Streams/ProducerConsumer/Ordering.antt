-- ===== src/Streams/ProducerConsumer/Ordering.antt =====
-- Two places where `getn` of src/producer_consumer_buf.h departs from what its callers rely on.
use snode.Prelude.{ℕ, ◌≤◌, ◌<◌, ◌≡◌, ap, ◌∙◌, true, false, List, [], ◌∷◌, take, arith, ltb}
use mathlib.Core.Path.{subst}
use snode.Streams.ProducerConsumer.{Buffer, EvRequest, read_done, ch_done, can_satisfy, first_ch}
use snode.Streams.ProducerConsumer.Api.{getn}
use snode.Streams.ProducerConsumer.Inv.{IsValid, contents}
use snode.Streams.ProducerConsumer.Reading.{read_bytes, read-lowers}
use snode.Streams.ProducerConsumer.Requests.{IsSettled, Waits}

-- A getn of one character that can be served completes with the character by complete_ch, not with
-- the count, and puts nothing at its pointer.
pub getn_one :
    {b : Buffer} (op ptr : ℕ)
    → IsValid b
    → can_satisfy b 1 ≡ true
    → (getn op ptr 1 b).1 ≡ ch_done op (first_ch (take 1 (contents b.blocks_))) ∷ []
unfolding getn
getn_one {b} op ptr v h = rw h (ap (λ out. ch_done op (first_ch out) ∷ []) (read_bytes v 1 true))

-- In a well-formed settled buffer with a request waiting, a later getn of more than one byte that
-- can be served takes the bytes that the earlier request waits for, and the earlier one goes on
-- waiting.
pub getn_overtakes :
    {b : Buffer} (op ptr count : ℕ) (r : EvRequest) (rs : List EvRequest)
    → IsValid b
    → IsSettled b
    → b.requests_ ≡ r ∷ rs
    → 1 < count
    → count ≤ b.total_
    → let (b', cs) = getn op ptr count b in
      (cs ≡ read_done op ptr (take count (contents b.blocks_)) ∷ [])
      × (b'.requests_ ≡ r ∷ rs)
      × (b.total_ < r.count_)
unfolding getn
getn_overtakes {b} op ptr count r rs v s e more fits =
    let first : can_satisfy b r.count_ ≡ false = subst (Waits b) e s in
    let now : can_satisfy b count ≡ true = unfold can_satisfy in ground arith in
    let many : ltb 1 count ≡ true = ground arith in
    (
      rw (now, many) (ap (λ out. read_done op ptr out ∷ []) (read_bytes v count true)),
      rw (now, many) ((read-lowers v count).2 ∙ e),
      unfold can_satisfy in ground (arith, first),
    )
