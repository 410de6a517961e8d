-- ===== src/Streams/Istream/ToEnd.antt =====
-- `async_istream::end_read_impl` of src/async_streams.h: reading to the end of a stream, with its
-- callbacks answered by the source and by a target that takes every write whole.
use mathlib.Core.Path.{subst}
use snode.Prelude.{
  ℕ, zero, suc, ◌+◌, ◌≡◌, ◌<◌, refl, sym, ap, ◌∙◌, true, false, List, [], ◌∷◌, ◌++◌, Bytes, length,
  take, drop, length-take, length-drop, take-append-drop, add_size, size_mod, min, ◌==◌,
  if◌then◌else◌, arith,
}
use snode.Streams.ProducerConsumer.{
  Buffer, Completion, read_done, can_satisfy, complete, read, enqueue_request,
}
use snode.Streams.ProducerConsumer.Api
use snode.Streams.ProducerConsumer.Reading.{read_bytes, read_rest, read-IsValid}
use snode.Streams.Streambuf
use snode.Streams.Streambuf.{Streambuf}
use snode.Streams.Streambuf.Reads.{Holds}
use snode.Streams.Istream.{Event, target_putn, target_sync, source_getn, handler_call, buf_size}

-- `total` of the helper; `ptr` is the array `outbuf`.
pub record EndReader : Type 0 where
  pub op : ℕ
  pub ptr : ℕ
  pub sourcebuf_ : Streambuf
  pub total : ℕ

-- The `getn` into `outbuf`, with what the source completes at once.
unfoldable pub get_more : EndReader → List Completion × EndReader
unfolding Streambuf.getn
get_more r =
    let (s, cs) = Streambuf.getn r.op r.ptr buf_size r.sourcebuf_ in
    (cs, record r { sourcebuf_ = s })

-- `read_to_end`
abbrev pub read_to_end : EndReader → List Completion × EndReader
read_to_end r = get_more r

-- `on_read` for the characters that `getn` put into `outbuf`.
unfoldable pub on_read : Bytes → EndReader → List Event
on_read [] r = handler_call r.total ∷ []
on_read (c ∷ out) r = target_putn (c ∷ out) ∷ []

-- `on_write`, with the completions of its `getn`.
unfoldable pub on_write : ℕ → EndReader → List Event × List Completion × EndReader
unfolding get_more
on_write count r =
    if count == 0
    then (handler_call r.total ∷ [], [], r)
    else let (cs, r') = get_more (record r { total = add_size r.total count }) in
      (target_sync ∷ source_getn cs ∷ [], cs, r')

-- The callbacks that follow from the completions of a `getn`, as long as it completes at once.
unfoldable pub respond : ℕ → List Completion → EndReader → List Event
unfolding on_read on_write
respond zero cs r = []
respond (suc fuel) (read_done op ptr [] ∷ []) r = on_read [] r
respond (suc fuel) (read_done op ptr (c ∷ out) ∷ []) r =
    let (es, cs, r') = on_write (length (c ∷ out)) r in
    on_read (c ∷ out) r ++ (es ++ respond fuel cs r')
respond (suc fuel) cs r = []

-- What the target is given, and what the user's handler is called with.
abbrev pub given : List Event → Bytes
given [] = []
given (target_putn out ∷ es) = out ++ given es
given (e ∷ es) = given es

abbrev pub calls : List Event → List ℕ
calls [] = []
calls (handler_call n ∷ es) = n ∷ calls es
calls (e ∷ es) = calls es

abbrev fetched : EndReader → Buffer × List Completion → List Completion × EndReader
fetched r (b, cs) = (cs, record r { sourcebuf_ = record r.sourcebuf_ { impl_ = b } })

getn_closed :
    (op ptr : ℕ) (b : Buffer)
    → b.stream_can_write_ ≡ false
    → Api.getn op ptr buf_size b
      ≡ ((read b buf_size true).1, read_done op ptr (read b buf_size true).0 ∷ [])
unfolding Api.getn enqueue_request can_satisfy complete
getn_closed op ptr b h = ground arith

-- A source that is closed for writing answers with what it has.
get_more_closed :
    (r : EndReader)
    → Streambuf.can_read r.sourcebuf_ ≡ true
    → Streambuf.can_write r.sourcebuf_ ≡ false
    → let b = r.sourcebuf_.impl_ in
      get_more r ≡ (
        read_done r.op r.ptr (read b buf_size true).0 ∷ [],
        record r { sourcebuf_ = record r.sourcebuf_ { impl_ = (read b buf_size true).1 } },
      )
unfolding get_more Streambuf.getn
get_more_closed r h w =
    let b = r.sourcebuf_.impl_ in
    let served : get_more r ≡ fetched r (Api.getn r.op r.ptr buf_size b) = ground arith in
    served ∙ ap (fetched r) (getn_closed r.op r.ptr b w)

-- Behind a read of the source.
abbrev behind : EndReader → EndReader
behind r = record r {
  sourcebuf_ = record r.sourcebuf_ { impl_ = (read r.sourcebuf_.impl_ buf_size true).1 };
}

abbrev counting : ℕ → EndReader → EndReader
counting count r = record r { total = add_size r.total count }

respond_more :
    (fuel op ptr c : ℕ) (out : Bytes) (r : EndReader)
    → let (cs, r') = get_more (counting (length (c ∷ out)) r) in
      respond (suc fuel) (read_done op ptr (c ∷ out) ∷ []) r
      ≡ target_putn (c ∷ out) ∷ target_sync ∷ source_getn cs ∷ respond fuel cs r'
unfolding respond on_read on_write
respond_more fuel op ptr c out r = ground arith

-- What the target and the handler are given, from a `getn` on.
abbrev Ends : ℕ → ℕ → Bytes → List Completion × EndReader → Type 0
Ends fuel total u p =
    let es = respond fuel p.0 p.1 in (given es ≡ u) × (calls es ≡ (total + length u) ∷ [])

abbrev Completes : ℕ → EndReader → Bytes → Type 0
Completes fuel r u = Ends fuel r.total u (get_more r)

finishes :
    (fuel : ℕ) (r : EndReader) (out u : Bytes)
    → out ≡ take buf_size u
    → r.total + length u < size_mod
    → (c : ℕ) (cs : Bytes) → u ≡ c ∷ cs
    → Completes fuel (counting (length out) (behind r)) (drop buf_size u)
    → let es = respond (suc fuel) (read_done r.op r.ptr out ∷ []) (behind r) in
      (given es ≡ u) × (calls es ≡ (r.total + length u) ∷ [])
finishes fuel r [] u e small c cs n ih =
    absurd (omega (arith, ap length e, length-take buf_size u, ap length n))
finishes fuel r (d ∷ out) u e small c cs n ih =
    let es = respond_more fuel r.op r.ptr d out (behind r) in
    let split : (d ∷ out) ++ drop buf_size u ≡ u =
      ap (λ v. v ++ drop buf_size u) e ∙ take-append-drop buf_size u in
    let many : add_size r.total (length (d ∷ out)) + length (drop buf_size u) ≡ r.total + length u =
      omega (arith, small, ap length e, length-take buf_size u, length-drop buf_size u) in
    (
      ap given es ∙ ap (◌++◌ (d ∷ out)) ih.0 ∙ split,
      ap calls es ∙ ih.1 ∙ ap (λ (n : ℕ). n ∷ []) many,
    )

behind-Holds :
    (r : EndReader) (u : Bytes)
    → Holds r.sourcebuf_ u
    → Holds (behind r).sourcebuf_ (drop buf_size u)
      × (Streambuf.can_write (behind r).sourcebuf_ ≡ Streambuf.can_write r.sourcebuf_)
      × ((read r.sourcebuf_.impl_ buf_size true).0 ≡ take buf_size u)
behind-Holds r u h = (
  record {
    valid = read-IsValid h.valid buf_size;
    readable = unfold read in h.readable;
    unread = read_rest h.valid buf_size ∙ ap (drop buf_size) h.unread;
  },
  unfold read in refl,
  read_bytes h.valid buf_size true ∙ ap (take buf_size) h.unread,
)

respond_none :
    (fuel op ptr : ℕ) (r : EndReader)
    → respond (suc fuel) (read_done op ptr [] ∷ []) r ≡ handler_call r.total ∷ []
unfolding respond on_read
respond_none fuel op ptr r = refl

respond-Completes :
    (fuel : ℕ) (r : EndReader) (u : Bytes)
    → Holds r.sourcebuf_ u
    → Streambuf.can_write r.sourcebuf_ ≡ false
    → length u < fuel
    → r.total + length u < size_mod
    → Completes fuel r u
respond-Completes zero r u h w f small = absurd (omega arith)
respond-Completes (suc fuel) r [] h w f small =
    let (left, writable, out) = behind-Holds r [] h in
    let es =
      ap (λ o. respond (suc fuel) (read_done r.op r.ptr o ∷ []) (behind r)) out
      ∙ respond_none fuel r.op r.ptr (behind r) in
    subst (Ends (suc fuel) r.total []) (sym (get_more_closed r h.readable w))
      (ap given es, ap calls es ∙ ap (λ (n : ℕ). n ∷ []) (omega arith))
respond-Completes (suc fuel) r (c ∷ cs) h w f small =
    let (left, writable, out) = behind-Holds r (c ∷ cs) h in
    let size : length (read r.sourcebuf_.impl_ buf_size true).0 ≡ min buf_size (length (c ∷ cs)) =
      ap length out ∙ length-take buf_size (c ∷ cs) in
    subst (Ends (suc fuel) r.total (c ∷ cs)) (sym (get_more_closed r h.readable w)) (
      finishes fuel r (read r.sourcebuf_.impl_ buf_size true).0 (c ∷ cs) out small c cs refl (
        respond-Completes fuel
          (counting (length (read r.sourcebuf_.impl_ buf_size true).0) (behind r))
          (drop buf_size (c ∷ cs)) left (writable ∙ w)
          (omega (arith, length-drop buf_size (c ∷ cs)))
          (omega (arith, size, length-drop buf_size (c ∷ cs)))))

-- Over a well-formed source that is open for reading and closed for writing, and with a target
-- that takes each write whole, a new read_to_end gives the target all unread bytes and calls the
-- handler once, with their number, in at most one round more than there are bytes.
pub read_to_end_completes :
    (r : EndReader) (u : Bytes)
    → Holds r.sourcebuf_ u
    → Streambuf.can_write r.sourcebuf_ ≡ false
    → r.total ≡ 0
    → let (cs, r') = read_to_end r in
      let es = respond (suc (length u)) cs r' in (given es ≡ u) × (calls es ≡ length u ∷ [])
read_to_end_completes r u h w e =
    let small : r.total + length u < size_mod =
      omega (arith, h.valid.small, h.valid.total, ap length h.unread) in
    let done = respond-Completes (suc (length u)) r u h w (omega arith) small in
    (done.0, done.1 ∙ ap (λ (n : ℕ). n ∷ []) (omega arith))
