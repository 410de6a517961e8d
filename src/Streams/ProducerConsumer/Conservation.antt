-- ===== src/Streams/ProducerConsumer/Conservation.antt =====
-- Over any history of calls, the bytes that came out of a `producer_consumer_buffer` and the bytes
-- that are in it are the bytes that were put in, in order.
use snode.Prelude.{
  ℕ, ◌+◌, ◌≤◌, ◌<◌, ◌≡◌, refl, sym, ap, ◌∙◌, Bool, true, false, List, [], ◌∷◌, ◌++◌, Option, none,
  some, Bytes, length, take, arith, Bool-cases, inl, inr, some_inj, Option-cases, copy_at,
  append_assoc, append-nil, size_mod, length-copy_at, if◌then◌else◌,
}
use mathlib.Core.Path.{subst}
use mathlib.Core.Option
use snode.Streams.Block
use snode.Streams.Block.{Block, unread}
use snode.Streams.Block.Laws
use snode.Streams.ProducerConsumer.{
  Buffer, EvRequest, advance_once, enqueue_request, write_done, put_done, new_buffer, in_avail,
}
use snode.Streams.ProducerConsumer.Api
use snode.Streams.ProducerConsumer.Inv.{IsValid, IsOnce, contents, new_buffer-IsValid, IsFresh}
use snode.Streams.ProducerConsumer.Requests.{IsSettled, Waits, enqueue_request-Served, Waits-lowers}
use snode.Streams.ProducerConsumer.Writing.{write_appends}
use snode.Streams.ProducerConsumer.Control.{
  commit_lem, sync_lem, close_write_drains, release_lem, flags-IsValid, allocblock-IsValid,
}
use snode.Streams.ProducerConsumer.Asserts
use snode.Streams.ProducerConsumer.Asserts.Laws.{
  write_asserts_lem, enqueue_asserts_lem, fulfill_asserts_lem, sgetn_asserts_lem,
  commit_asserts_lem,
}
use snode.Streams.ProducerConsumer.History
use snode.Streams.ProducerConsumer.Steps.{
  Kept, Kept-quiet, Kept-served, Kept-task, Kept-sgetn, Kept-sbumpc, peek_same, sgetc_same,
}

-- That a call succeeds and keeps what a step keeps.
abbrev pub Succeeds : History.Op → Buffer → Type 0
Succeeds o b = (r : History.Outcome) × (History.step o b ≡ some r) × Kept b (History.added o b) r

-- The same of the call behind its asserts.
abbrev Results : History.Op → Buffer → Type 0
Results o b = (r : History.Outcome) × (History.result o b ≡ some r) × Kept b (History.added o b) r

module _ {b : Buffer} (v : IsValid b) (s : IsSettled b) where
  -- A change of a flag or of the allocated block.
  Kept-same :
      {readable : Bool} {o : Option Block}
      → let b' = record b { stream_can_read_ = readable; allocblock_ = o } in
        IsValid b' → Kept b [] (record { after = b'; completions = []; returned = [] })
  Kept-same {readable} {o} v' = record {
    valid = v';
    settled =
        Waits-lowers b (record b { stream_can_read_ = readable; allocblock_ = o }) b.requests_
          (omega arith) (omega arith) refl refl s;
    conserves = append-nil (contents b.blocks_);
  }

  Kept-request :
      (r : EvRequest)
      → IsOnce r
      → let (b', cs) = enqueue_request r b in
        Kept b [] (record { after = b'; completions = cs; returned = [] })
  Kept-request r o =
      let w = enqueue_request-Served r o v s in
      Kept-served w.valid w.settled (append-nil (contents b.blocks_) ∙ w.conserves)

  alloc_open :
      (count : ℕ)
      → b.stream_can_write_ ≡ true
      → b.allocblock_ ≡ none
      → Api.alloc count b ≡ some (true, record b { allocblock_ = some (Block.new_block count) })
  unfolding Api.alloc
  alloc_open count w e = ground arith

  alloc_closed : (count : ℕ) → b.stream_can_write_ ≡ false → Api.alloc count b ≡ some (false, b)
  unfolding Api.alloc
  alloc_closed count w = ground arith

  Succeeds-putn :
      (op : ℕ) (src : Bytes) → b.total_ + length src < size_mod → Results (History.put_n op src) b
  unfolding History.result Api.putn_task
  Succeeds-putn op src h =
      let w = write_appends src v s h in
      (_, refl, Kept-task (Api.write b src).2 (write_done op (Api.write b src).0) w.1 w.2 refl w.3)

  Succeeds-putc : (op c : ℕ) → b.total_ + 1 < size_mod → Results (History.put_c op c) b
  unfolding History.result Api.putc_task
  Succeeds-putc op c h =
      let w = write_appends (c ∷ []) v s h in
      (_, refl, Kept-task (Api.write b (c ∷ [])).2 (put_done op _) w.1 w.2 refl w.3)

  Succeeds-alloc :
      (count : ℕ) → b.allocblock_ ≡ none → count < size_mod → Results (History.allocate count) b
  unfolding History.result Api.alloc
  Succeeds-alloc count e h = elim (Bool-cases b.stream_can_write_) [
    | inl w ↦ (
      _,
      ap (Option.map (λ r. History.quiet r.1)) (alloc_open count w e),
      Kept-same (
          allocblock-IsValid v (some (Block.new_block count))
            (unfold Block.new_block in (Laws.new_block-IsValid count h, refl, refl))),
    )
    | inr w ↦ (_, ap (Option.map (λ r. History.quiet r.1)) (alloc_closed count w), Kept-quiet v s)
  ]

  store-none : (src : Bytes) → b.allocblock_ ≡ none → Api.store src b ≡ b
  unfolding Api.store
  store-none src e = ground arith

  store-some :
      (src : Bytes) (k : Block)
      → b.allocblock_ ≡ some k
      → Api.store src b
        ≡ record b { allocblock_ = some (record k { data_ = copy_at k.data_ k.pos_ src }) }
  unfolding Api.store
  store-some src k e = ground arith

  Kept-getn : (op ptr count : ℕ) → 0 < count → Kept b [] (History.served (Api.getn op ptr count b))
  unfolding Api.getn
  Kept-getn op ptr count h =
      Kept-request
        (record {
          count_ = count;
          advance_act_ = advance_once;
          bufptr_ = some ptr;
          completion_op_ = op;
        })
        (refl, h)

  Kept-bumpc : (op : ℕ) → Kept b [] (History.served (Api.bumpc op b))
  unfolding Api.bumpc
  Kept-bumpc op =
      Kept-request
        (record { count_ = 1; advance_act_ = advance_once; bufptr_ = none; completion_op_ = op })
        (refl, omega arith)

  Succeeds-store : (src : Bytes) → Results (History.fill src) b
  unfolding History.result Api.store
  Succeeds-store src = elim (Option-cases b.allocblock_) [
    | inl e ↦ (_, refl, rw (store-none src e) (Kept-quiet v s))
    | inr (k, e) ↦
        let f : IsFresh (some k) = subst IsFresh e v.fresh in
        let k' : Block = record k { data_ = copy_at k.data_ k.pos_ src } in
        let vk : Block.IsValid k' = record {
          heads = f.0.heads;
          inside = f.0.inside;
          array = length-copy_at k.data_ k.pos_ src ∙ f.0.array;
          small = f.0.small;
        } in
        (
          _,
          refl,
          rw (store-some src k e) (Kept-same (allocblock-IsValid v (some k') (vk, f.1, f.2))),
        )
  ]

  Succeeds-commit :
      (count : ℕ) (k : Block)
      → b.allocblock_ ≡ some k
      → count ≤ k.size_
      → b.total_ + count < size_mod
      → Results (History.commit_n count) b
  unfolding History.result
  Succeeds-commit count k e h g =
      let w = commit_lem v count k e h g in
      (_, ap (Option.map History.served) w.2, rw e (Kept-served w.3 w.4 w.5))

  Succeeds-release :
      (count : ℕ) (k : Block) (ks : List Block)
      → b.blocks_ ≡ k ∷ ks
      → count ≤ length (unread k)
      → Results (History.release_n count) b
  unfolding History.result
  Succeeds-release count k ks e h =
      let w = release_lem v count k ks s e h in
      let r : History.Outcome = record {
        after = w.0;
        completions = [];
        returned = take count (unread k);
      } in
      (
        r,
        rw (e, History.result) (ap (Option.map λ b'. record r { after = b' }) w.1),
        record {
          valid = w.2;
          settled = w.3;
          conserves =
              w.4 ∙ ap (λ u. u ++ contents w.0.blocks_) (sym (append-nil (take count (unread k))));
        },
      )

  -- Every allowed call, by its kind.
  result-Kept : (o : History.Op) → History.Allowed o b → Results o b
  unfolding History.result
  result-Kept (History.put_n op src) h = Succeeds-putn op src h
  result-Kept (History.put_c op c) h = Succeeds-putc op c h
  result-Kept (History.get_n op ptr count) h = (_, refl, Kept-getn op ptr count h)
  result-Kept (History.bump_c op) h = (_, refl, Kept-bumpc op)
  result-Kept (History.unget_c op) h =
      (_, refl, unfold Api.ungetc in Kept-served v s (append-nil (contents b.blocks_)))
  result-Kept (History.sget_n count) h = (_, refl, Kept-sgetn v s count)
  result-Kept (History.s_copy count) h = (_, refl, rw (peek_same v s count) (Kept-quiet v s))
  result-Kept History.sbump_c h = (_, refl, Kept-sbumpc v s)
  result-Kept History.sget_c h = (_, refl, rw (sgetc_same v s) (Kept-quiet v s))
  result-Kept History.flush h = let w = sync_lem v in (_, refl, Kept-served w.0 w.1 w.2)
  result-Kept History.close_in h =
      (_, refl, unfold Api.close_read in Kept-same (flags-IsValid v false b.stream_can_write_))
  result-Kept History.close_out h =
      let w = close_write_drains v in
      (_, refl, Kept-served w.0 (subst (Waits (Api.close_write b).0) (sym w.1) tt) w.3)
  result-Kept (History.allocate count) h = Succeeds-alloc count h.0 h.1
  result-Kept (History.fill src) h = Succeeds-store src
  result-Kept (History.commit_n count) h = Succeeds-commit count h.0 h.1 h.2 h.3
  result-Kept (History.release_n count) h = Succeeds-release count h.0 h.1 h.2 h.3

  -- The asserts inside `read` and `write` hold in every allowed call.
  asserts_hold : (o : History.Op) → History.Allowed o b → History.asserts o b ≡ true
  unfolding History.asserts Asserts.getn_asserts Asserts.bumpc_asserts Asserts.sync_asserts
      Asserts.close_asserts
  asserts_hold (History.put_n op src) h = write_asserts_lem src v (omega arith)
  asserts_hold (History.put_c op c) h = write_asserts_lem (c ∷ []) v (omega arith)
  asserts_hold (History.get_n op ptr count) h =
      enqueue_asserts_lem
        (record {
          count_ = count;
          advance_act_ = advance_once;
          bufptr_ = some ptr;
          completion_op_ = op;
        })
        b (refl, h)
  asserts_hold (History.bump_c op) h =
      enqueue_asserts_lem
        (record { count_ = 1; advance_act_ = advance_once; bufptr_ = none; completion_op_ = op }) b
        (refl, omega arith)
  asserts_hold (History.unget_c op) h = refl
  asserts_hold (History.sget_n count) h = sgetn_asserts_lem b count
  asserts_hold (History.s_copy count) h = sgetn_asserts_lem b count
  asserts_hold History.sbump_c h = sgetn_asserts_lem b 1
  asserts_hold History.sget_c h = sgetn_asserts_lem b 1
  asserts_hold History.flush h =
      fulfill_asserts_lem b.requests_ (record b { synced_ = in_avail b }) v.once
  asserts_hold History.close_in h = refl
  asserts_hold History.close_out h =
      fulfill_asserts_lem b.requests_ (record b { stream_can_write_ = false }) v.once
  asserts_hold (History.allocate count) h = refl
  asserts_hold (History.fill src) h = refl
  asserts_hold (History.commit_n count) h = commit_asserts_lem b count v.once
  asserts_hold (History.release_n count) h = refl

  -- On a well-formed buffer whose first request cannot be served yet, every allowed call returns,
  -- as all the asserts that it passes hold, keeps the buffer well formed, leaves no request at the
  -- front of the queue that could be served, and neither loses, repeats nor reorders a byte.
  pub step-Kept : (o : History.Op) → History.Allowed o b → Succeeds o b
  unfolding History.step
  step-Kept o h =
      let (r, e, k) = result-Kept o h in
      (r, ap (λ t. if t then History.result o b else none) (asserts_hold o h) ∙ e, k)

-- Over any history of calls on a new producer-consumer buffer whose block size can be counted,
-- each call allowed as the source documents and each getn for one character or more, the bytes put
-- in are the bytes handed out followed by the bytes still held, in order; the buffer stays well
-- formed, and the first request that waits, if one does, cannot be served yet.
pub Run-conserves :
    (alloc_size : ℕ) {put got : Bytes} {b : Buffer}
    → alloc_size < size_mod
    → History.Run (new_buffer alloc_size) put got b
    → IsValid b × IsSettled b × (put ≡ got ++ contents b.blocks_)
Run-conserves alloc_size small History.here =
    (new_buffer-IsValid alloc_size small, unfold new_buffer in tt, unfold new_buffer in refl)
Run-conserves alloc_size small (History.next {put} {got} {b} run o r allowed e) =
    let before = Run-conserves alloc_size small run in
    let w = step-Kept before.0 before.1 o allowed in
    let same : w.0 ≡ r = some_inj (sym w.1 ∙ e) in
    let k : Kept b (History.added o b) r = subst (Kept b (History.added o b)) same w.2 in
    (
      k.valid,
      k.settled,
      ap (λ p. p ++ History.added o b) before.2
          ∙ append_assoc got (contents b.blocks_) (History.added o b)
          ∙ ap (◌++◌ got) k.conserves
          ∙ sym (append_assoc got (History.gained r) (contents r.after.blocks_)),
    )
