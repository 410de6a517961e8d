-- ===== src/Streams/ProducerConsumer/Steps.antt =====
-- What one call keeps of a `producer_consumer_buffer`, and that the synchronous reads keep it.
use snode.Prelude.{
  ℕ, ◌≡◌, sym, ap, ◌∙◌, Bool, true, List, [], ◌∷◌, ◌++◌, Bytes, length, arith, Bool-cases, inl, inr,
  min, append-nil,
}
use snode.Streams.ProducerConsumer.{Buffer, Completion, can_satisfy, read, first_ch}
use snode.Streams.ProducerConsumer.Api
use snode.Streams.ProducerConsumer.Inv.{IsValid, contents}
use snode.Streams.ProducerConsumer.Reading.{read-IsValid, read_peek, length-read, read-lowers}
use snode.Streams.ProducerConsumer.Requests.{
  all_taken, all_taken-append, IsSettled, Conserves, read_conserves, Waits-lowers,
}
use snode.Streams.ProducerConsumer.History

read-can_write :
    (b : Buffer) (count : ℕ) (advance : Bool)
    → (read b count advance).1.stream_can_write_ ≡ b.stream_can_write_
unfolding read
read-can_write b count advance = ground arith

-- What a step keeps: the invariant, that the first request that waits cannot be served, and every byte.
pub record Kept (b : Buffer) (added : Bytes) (r : History.Outcome) : Type 0 where
  pub valid : IsValid r.after
  pub settled : IsSettled r.after
  pub conserves : Conserves b added (History.gained r) r.after

pub Kept-quiet :
    {b : Buffer}
    → IsValid b
    → IsSettled b
    → Kept b [] (record { after = b; completions = []; returned = [] })
Kept-quiet {b} v s = record { valid = v; settled = s; conserves = append-nil (contents b.blocks_) }

pub Kept-served :
    {b b' : Buffer} {cs : List Completion} {added : Bytes}
    → IsValid b'
    → IsSettled b'
    → Conserves b added (all_taken cs) b'
    → Kept b added (record { after = b'; completions = cs; returned = [] })
Kept-served v s c = record { valid = v; settled = s; conserves = c }

pub Kept-task :
    {b b' : Buffer} (cs : List Completion) {added : Bytes} (c : Completion)
    → IsValid b'
    → IsSettled b'
    → all_taken (c ∷ []) ≡ []
    → Conserves b added (all_taken cs) b'
    → Kept b added (record { after = b'; completions = cs ++ c ∷ []; returned = [] })
Kept-task {b} {b'} cs c v s n e = record {
  valid = v;
  settled = s;
  conserves =
      e
      ∙ ap (λ u. u ++ contents b'.blocks_)
          (sym (append-nil (all_taken cs))
            ∙ ap (◌++◌ (all_taken cs)) (sym n)
            ∙ sym (all_taken-append cs (c ∷ [])));
}

module _ {b : Buffer} (v : IsValid b) (s : IsSettled b) where
  -- A read that advances takes its bytes off the front.
  Kept-read :
      (count : ℕ)
      → Kept b [] (record {
        after = (read b count true).1;
        completions = [];
        returned = (read b count true).0;
      })
  Kept-read count = record {
    valid = read-IsValid v count;
    settled =
        let low = read-lowers v count in
        Waits-lowers b (read b count true).1 b.requests_ low.0 low.1 (read-can_write b count true)
          low.2 s;
    conserves =
        append-nil (contents b.blocks_)
        ∙ read_conserves v count
        ∙ ap (λ u. u ++ contents (read b count true).1.blocks_)
            (sym (append-nil (read b count true).0));
  }

  pub Kept-sgetn : (count : ℕ) → Kept b [] (History.sync_read (Api.sgetn count b))
  unfolding Api.sgetn
  Kept-sgetn count = elim (Bool-cases (can_satisfy b count)) [
    | inl now ↦ rw now (Kept-read count)
    | inr later ↦ rw later (Kept-quiet v s)
  ]

  pub Kept-sbumpc : Kept b [] (History.sync_ch (Api.sbumpc b))
  unfolding Api.sbumpc
  Kept-sbumpc = elim (Bool-cases (can_satisfy b 1)) [
    | inl now ↦ rw now (one (read b 1 true).0 (length-read v 1 true) (Kept-read 1))
    | inr later ↦ rw later (Kept-quiet v s)
  ]
    where
      one :
          (out : Bytes)
          → length out ≡ min 1 (length (contents b.blocks_))
          → Kept b [] (record { after = (read b 1 true).1; completions = []; returned = out })
          → Kept b [] (History.sync_ch (first_ch out, (read b 1 true).1))
      one [] n k = k
      one (c ∷ []) n k = k
      one (c ∷ d ∷ cs) n k = absurd (omega arith)

  -- Copying without advancing changes nothing.
  pub peek_same : (count : ℕ) → (Api.scopy count b).1 ≡ b
  unfolding Api.scopy
  peek_same count = ground (arith, read_peek v count)

  pub sgetc_same : (Api.sgetc b).1 ≡ b
  unfolding Api.sgetc
  sgetc_same = ground (arith, read_peek v 1)
