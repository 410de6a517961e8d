-- ===== src/Streams/ProducerConsumer/Asserts/Laws.antt =====
-- The asserts hold wherever the requests ask for one character or more, as the stream buffer sees to.
use snode.Prelude.{
  ℕ, ◌+◌, ◌-◌, ◌<◌, ◌≤◌, ◌≡◌, refl, true, List, [], ◌∷◌, Bytes, length, length-take, drop, All,
  arith, Bool, Bool-cases, Option-cases, inl, inr, size_mod, min,
}
use snode.Streams.Block
use snode.Streams.Block.{Block}
use snode.Streams.ProducerConsumer.{Buffer, EvRequest, can_satisfy, complete}
use snode.Streams.ProducerConsumer.Api.{write_back, make_room}
use snode.Streams.ProducerConsumer.Inv.{IsValid, IsOnce}
use snode.Streams.ProducerConsumer.Writing.{write_back_lem, make_room_lem}
use snode.Streams.ProducerConsumer.Asserts.{
  totals_hold, read_asserts, complete_asserts, fulfill_asserts, enqueue_asserts, update_asserts,
  write_asserts, sgetn_asserts, commit_asserts,
}

block_bound :
    (k : Block) (count : ℕ) (advance : Bool) → length (Block.read k count advance).0 ≤ count
unfolding Block.read
block_bound k count advance =
    omega (arith, length-take (min count (Block.rd_chars_left k)) (drop k.read_ k.data_))

totals_hold_lem :
    (ks : List Block) (count totalr : ℕ) → totalr ≤ count → totals_hold ks count totalr ≡ true
unfolding totals_hold
totals_hold_lem [] count totalr h = refl
totals_hold_lem (k ∷ ks) count totalr h =
    let n = length (Block.read k (count - totalr) true).0 in
    let small : totalr + n ≤ count = omega (arith, block_bound k (count - totalr) true) in
    ground (arith, small, totals_hold_lem ks count (totalr + n) small)

-- `read` may be called where `can_satisfy` says so, with the same count or a smaller one.
pub read_asserts_lem :
    (b : Buffer) (count wanted : ℕ)
    → wanted ≤ count
    → can_satisfy b count ≡ true
    → read_asserts b wanted ≡ true
unfolding read_asserts can_satisfy
read_asserts_lem b count wanted l h =
    ground (arith, totals_hold_lem b.blocks_ wanted 0 (omega arith))

complete_asserts_lem :
    (r : EvRequest) (b : Buffer)
    → IsOnce r
    → can_satisfy b r.count_ ≡ true
    → complete_asserts r b ≡ true
unfolding complete_asserts
complete_asserts_lem r b o h = ground (
  arith,
  o,
  read_asserts_lem b r.count_ 1 (omega (arith, o.1)) h,
  read_asserts_lem b r.count_ r.count_ (omega arith) h,
)

pub fulfill_asserts_lem :
    (rs : List EvRequest) (b : Buffer) → All IsOnce rs → fulfill_asserts rs b ≡ true
unfolding fulfill_asserts
fulfill_asserts_lem [] b o = refl
fulfill_asserts_lem (r ∷ rs) b o = elim (Bool-cases (can_satisfy b r.count_)) [
  | inl now ↦
      rw now (rw (complete_asserts_lem r b o.0 now) (fulfill_asserts_lem rs (complete r b).1 o.1))
  | inr later ↦ rw later
]

pub enqueue_asserts_lem : (r : EvRequest) (b : Buffer) → IsOnce r → enqueue_asserts r b ≡ true
unfolding enqueue_asserts
enqueue_asserts_lem r b o = elim (Bool-cases (can_satisfy b r.count_)) [
  | inl now ↦ rw now (complete_asserts_lem r b o now)
  | inr later ↦ rw later
]

pub update_asserts_lem :
    (b : Buffer) (count : ℕ) → All IsOnce b.requests_ → update_asserts b count ≡ true
unfolding update_asserts
update_asserts_lem b count o = fulfill_asserts_lem b.requests_ _ o

pub write_asserts_lem :
    {b : Buffer} (src : Bytes) → IsValid b → length src < size_mod → write_asserts src b ≡ true
unfolding write_asserts
write_asserts_lem {b} src v h =
    let room = make_room_lem (length src) v h in
    let wrote = write_back_lem (make_room b (length src)) src room.1 room.0 in
    let (n, ks) = write_back (make_room b (length src)) src in
    ground (arith, wrote.0, update_asserts_lem (record b { blocks_ = ks }) n v.once)

pub sgetn_asserts_lem : (b : Buffer) (count : ℕ) → sgetn_asserts count b ≡ true
unfolding sgetn_asserts
sgetn_asserts_lem b count = elim (Bool-cases (can_satisfy b count)) [
  | inl now ↦ let e = read_asserts_lem b count count (omega arith) now in ground (arith, now, e)
  | inr later ↦ ground (arith, later)
]

pub commit_asserts_lem :
    (b : Buffer) (count : ℕ) → All IsOnce b.requests_ → commit_asserts count b ≡ true
unfolding commit_asserts
commit_asserts_lem b count o = elim (Option-cases b.allocblock_) [
  | inl e ↦ rw e
  | inr (k, e) ↦ rw e (update_asserts_lem _ count o)
]
