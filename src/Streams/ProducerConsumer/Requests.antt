-- ===== src/Streams/ProducerConsumer/Requests.antt =====
-- The queue of read requests of `producer_consumer_buffer`: completing requests takes bytes from the
-- front of the buffer, in order, and stops at the first request that has to wait.
use snode.Prelude.{
  ℕ, ◌≤◌, ◌≡◌, refl, sym, ap, ap₂, ◌∙◌, true, false, List, [], ◌∷◌, ◌++◌, Bytes, length, All, arith,
  Bool-cases, inl, inr, append_assoc, All-append, take-append-drop, append-nil, none, some, take,
  drop, ltb, if◌then◌else◌,
}
use snode.Streams.ProducerConsumer.{
  Buffer, EvRequest, read, first_ch, can_satisfy, complete, fulfill, Completion, read_done,
  write_done, put_done, ch_done, ch, eof, requires_async, fulfill_outstanding, enqueue_request,
}
use snode.Streams.ProducerConsumer.Inv.{IsValid, IsOnce, contents}
use snode.Streams.ProducerConsumer.Reading.{
  read_bytes, length-read, read_rest, read-lowers, read-IsValid,
}

-- The bytes that a completion hands to a reader.
abbrev pub taken : Completion → Bytes
taken (read_done op ptr out) = out
taken (write_done op n) = []
taken (put_done op c) = []
taken (ch_done op (ch c)) = c ∷ []
taken (ch_done op eof) = []
taken (ch_done op requires_async) = []

abbrev pub all_taken : List Completion → Bytes
all_taken [] = []
all_taken (c ∷ cs) = taken c ++ all_taken cs

pub all_taken-append :
    (cs ds : List Completion) → all_taken (cs ++ ds) ≡ all_taken cs ++ all_taken ds
all_taken-append [] ds = refl
all_taken-append (c ∷ cs) ds =
    ap (◌++◌ (taken c)) (all_taken-append cs ds)
    ∙ sym (append_assoc (taken c) (all_taken cs) (all_taken ds))

-- The first of the requests has to wait.
abbrev pub Waits : Buffer → List EvRequest → Type 0
Waits b [] = Unit
Waits b (r ∷ rs) = can_satisfy b r.count_ ≡ false

-- No request waits at the front that could be satisfied.
abbrev pub IsSettled : Buffer → Type 0
IsSettled b = Waits b b.requests_

-- `out` is what the readers got while `added` was written.
abbrev pub Conserves : Buffer → Bytes → Bytes → Buffer → Type 0
Conserves b added out b' = contents b.blocks_ ++ added ≡ out ++ contents b'.blocks_

pub read_conserves :
    {b : Buffer}
    → IsValid b
    → (count : ℕ)
    → let (out, b') = read b count true in contents b.blocks_ ≡ out ++ contents b'.blocks_
read_conserves {b} v count =
    sym (take-append-drop count (contents b.blocks_))
    ∙ sym (ap₂ ◌++◌ (read_bytes v count true) (read_rest v count))

taken-first_ch : (op : ℕ) (out : Bytes) → length out ≤ 1 → taken (ch_done op (first_ch out)) ≡ out
unfolding first_ch
taken-first_ch op [] h = refl
taken-first_ch op (c ∷ []) h = refl
taken-first_ch op (c ∷ d ∷ cs) h = absurd (omega arith)

module _ {b : Buffer} (v : IsValid b) (r : EvRequest) (e : IsOnce r) where
  -- A request with one advance takes its bytes from the front, and leaves the rest.
  pub complete_conserves :
      let (c, b') = complete r b in contents b.blocks_ ≡ taken c ++ contents b'.blocks_
  unfolding complete
  complete_conserves = ground (
    arith,
    taken-first_ch r.completion_op_ (read b 1 true).0,
    length-read v 1 true,
    read_conserves v 1,
    read_conserves v r.count_,
  )

  pub complete-IsValid : IsValid (complete r b).1
  unfolding complete
  complete-IsValid = ground (arith, read-IsValid v 1, read-IsValid v r.count_)

pub complete-flags :
    (r : EvRequest) (b : Buffer)
    → let b' = (complete r b).1 in
      (b'.stream_can_write_ ≡ b.stream_can_write_)
      × (b'.stream_can_read_ ≡ b.stream_can_read_)
      × (b'.alloc_size_ ≡ b.alloc_size_)
      × (b'.allocblock_ ≡ b.allocblock_)
unfolding complete read
complete-flags r b = ground arith

-- What serving requests does to the buffer `b`.
pub record Served (b : Buffer) (b' : Buffer) (cs : List Completion) : Type 0 where
  pub valid : IsValid b'
  pub conserves : contents b.blocks_ ≡ all_taken cs ++ contents b'.blocks_
  pub settled : IsSettled b'
  pub can_write : b'.stream_can_write_ ≡ b.stream_can_write_
  pub can_read : b'.stream_can_read_ ≡ b.stream_can_read_

pub requests-IsValid :
    (rs : List EvRequest) {b : Buffer}
    → All IsOnce rs
    → IsValid b
    → IsValid (record b { requests_ = rs })
requests-IsValid rs o v = record {
  blocks = v.blocks;
  total = v.total;
  small = v.small;
  synced = v.synced;
  alloc_small = v.alloc_small;
  counted = v.counted;
  fresh = v.fresh;
  once = o;
}

pub fulfill-Served :
    (rs : List EvRequest) {b : Buffer}
    → All IsOnce rs
    → IsValid b
    → let (b', cs) = fulfill rs b in Served b b' cs
unfolding fulfill
fulfill-Served [] {b} o v = record {
  valid = requests-IsValid [] tt v;
  conserves = refl;
  settled = tt;
  can_write = refl;
  can_read = refl;
}
fulfill-Served (r ∷ rs) {b} o v = elim (Bool-cases (can_satisfy b r.count_)) [
  | inl now ↦
      let f = complete-flags r b in
      let s : Served (complete r b).1 (fulfill rs (complete r b).1).0
          (fulfill rs (complete r b).1).1 =
        fulfill-Served rs o.1 (complete-IsValid v r o.0) in
      rw now (record {
        valid = s.valid;
        conserves =
            complete_conserves v r o.0
            ∙ ap (◌++◌ (taken (complete r b).0)) s.conserves
            ∙ sym (
                append_assoc (taken (complete r b).0) (all_taken (fulfill rs (complete r b).1).1)
                  (contents (fulfill rs (complete r b).1).0.blocks_));
        settled = s.settled;
        can_write = s.can_write ∙ f.0;
        can_read = s.can_read ∙ f.1;
      })
  | inr later ↦ rw later (record {
    valid = requests-IsValid (r ∷ rs) o v;
    conserves = refl;
    settled = later;
    can_write = refl;
    can_read = refl;
  })
]

pub fulfill_outstanding-Served :
    {b : Buffer} → IsValid b → let (b', cs) = fulfill_outstanding b in Served b b' cs
unfolding fulfill_outstanding
fulfill_outstanding-Served {b} v = fulfill-Served b.requests_ v.once v

-- Once the write side is closed every waiting request is completed.
pub fulfill_drains :
    (rs : List EvRequest) (b : Buffer)
    → b.stream_can_write_ ≡ false
    → let (b', cs) = fulfill rs b in (b'.requests_ ≡ []) × (length cs ≡ length rs)
unfolding fulfill
fulfill_drains [] b h = (refl, refl)
fulfill_drains (r ∷ rs) b h = ground (arith, complete-flags r b, fulfill_drains rs (complete r b).1)

-- What a request asks for, and its answer when that is all there is: the oldest bytes of `u`.
abbrev pub wants : EvRequest → ℕ
wants r = elim r.bufptr_ [ none ↦ 1 | some ptr ↦ if ltb 1 r.count_ then r.count_ else 1 ]

abbrev pub answer : EvRequest → Bytes → Completion
answer r u = elim r.bufptr_ [
  | none ↦ ch_done r.completion_op_ (first_ch (take 1 u))
  | some ptr ↦
      if ltb 1 r.count_
      then read_done r.completion_op_ ptr (take r.count_ u)
      else ch_done r.completion_op_ (first_ch (take 1 u))
]

-- The requests answered in turn, each with what the ones before it leave.
abbrev pub answers : List EvRequest → Bytes → List Completion
answers [] u = []
answers (r ∷ rs) u = answer r u ∷ answers rs (drop (wants r) u)

complete-answer :
    {b : Buffer} (r : EvRequest)
    → IsOnce r
    → IsValid b
    → let (c, b') = complete r b in
      (c ≡ answer r (contents b.blocks_))
      × (contents b'.blocks_ ≡ drop (wants r) (contents b.blocks_))
unfolding complete
complete-answer {b} r o v = ground (
  arith,
  o,
  ap first_ch (read_bytes v 1 true),
  read_bytes v r.count_ true,
  read_rest v 1,
  read_rest v r.count_,
)

pub fulfill-answers :
    (rs : List EvRequest) {b : Buffer}
    → All IsOnce rs
    → IsValid b
    → b.stream_can_write_ ≡ false
    → (fulfill rs b).1 ≡ answers rs (contents b.blocks_)
unfolding fulfill can_satisfy
fulfill-answers [] o v h = refl
fulfill-answers (r ∷ rs) {b} o v h =
    let one = complete-answer r o.0 v in
    let f = complete-flags r b in
    let rest = fulfill-answers rs o.1 (complete-IsValid v r o.0) (f.0 ∙ h) in
    let same = rest ∙ ap (answers rs) one.1 in ground (arith, h, one.0, same)

complete-lowers :
    {b : Buffer}
    → IsValid b
    → (r : EvRequest) → IsOnce r
    → let b' = (complete r b).1 in
      (b'.total_ ≤ b.total_) × (b'.synced_ ≤ b.synced_) × (b'.requests_ ≡ b.requests_)
unfolding complete
complete-lowers v r o = ground (arith, read-lowers v 1, read-lowers v r.count_)

pub Waits-lowers :
    (b b' : Buffer) (rs : List EvRequest)
    → b'.total_ ≤ b.total_
    → b'.synced_ ≤ b.synced_
    → b'.stream_can_write_ ≡ b.stream_can_write_
    → b'.requests_ ≡ rs
    → Waits b rs
    → Waits b' b'.requests_
unfolding can_satisfy
Waits-lowers b b' rs t y c e w = rw e (go rs w)
  where
    go : (qs : List EvRequest) → Waits b qs → Waits b' qs
    go [] w = tt
    go (q ∷ qs) w = ground arith

Waits-append :
    (b : Buffer) (r : EvRequest) (rs : List EvRequest)
    → can_satisfy b r.count_ ≡ false
    → Waits b rs
    → Waits (record b { requests_ = rs ++ r ∷ [] }) (rs ++ r ∷ [])
unfolding can_satisfy
Waits-append b r [] h w = h
Waits-append b r (q ∷ qs) h w = w

-- A new request keeps the invariant, hands over bytes from the front or waits at the end.
pub enqueue_request-Served :
    {b : Buffer} (r : EvRequest)
    → IsOnce r
    → IsValid b
    → IsSettled b
    → let (b', cs) = enqueue_request r b in Served b b' cs
unfolding enqueue_request
enqueue_request-Served {b} r o v s = elim (Bool-cases (can_satisfy b r.count_)) [
  | inl now ↦
      let f = complete-flags r b in
      let low = complete-lowers v r o in
      rw now (record {
        valid = complete-IsValid v r o;
        conserves =
            complete_conserves v r o
            ∙ ap (λ u. u ++ contents (complete r b).1.blocks_) (sym (append-nil _));
        settled = Waits-lowers b (complete r b).1 b.requests_ low.0 low.1 f.0 low.2 s;
        can_write = f.0;
        can_read = f.1;
      })
  | inr later ↦ rw later (record {
    valid =
        requests-IsValid (b.requests_ ++ r ∷ [])
          (All-append IsOnce b.requests_ (r ∷ []) v.once (o, tt)) v;
    conserves = refl;
    settled = Waits-append b r b.requests_ later s;
    can_write = refl;
    can_read = refl;
  })
]
