-- ===== src/Streams/Streambuf/Reads.antt =====
-- A stream buffer that is open for reading as the list of its unread bytes, for the code that reads it.
use mathlib.Core.Path.{subst}
use snode.Prelude.{sym, ℕ, ◌≡◌, refl, ap, ◌∙◌, true, ◌∷◌, Bytes, length, drop, arith}
use snode.Streams.ProducerConsumer.{Buffer, ch, read, read_byte}
use snode.Streams.ProducerConsumer.Api
use snode.Streams.ProducerConsumer.Inv.{IsValid, contents}
use snode.Streams.Streambuf.{Streambuf, can_read, can_write, in_avail, sbumpc, sgetc}
use snode.Streams.Streambuf.Laws.{unread_of, oldest, sync_reads, sbumpc_open, check_lem}

-- A buffer that is open for reading and holds the given unread bytes.
pub record Holds (s : Streambuf) (u : Bytes) : Type 0 where
  pub valid : IsValid s.impl_
  pub readable : can_read s ≡ true
  pub unread : unread_of s ≡ u

in_avail_lem : (s : Streambuf) → IsValid s.impl_ → in_avail s ≡ length (unread_of s)
unfolding in_avail
in_avail_lem s v = v.total

pub in_avail-Holds : {s : Streambuf} {u : Bytes} → Holds s u → in_avail s ≡ length u
in_avail-Holds {s} h = in_avail_lem s h.valid ∙ ap length h.unread

-- What a `sbumpc` leaves alone.
pub record Rest (s s' : Streambuf) : Type 0 where
  pub readable : can_read s' ≡ can_read s
  pub writable : can_write s' ≡ can_write s
  pub requests : s'.impl_.requests_ ≡ s.impl_.requests_

read_rest_of :
    {b : Buffer}
    → IsValid b
    → let b' = (read b 1 true).1 in
      (b'.stream_can_read_ ≡ b.stream_can_read_)
      × (b'.stream_can_write_ ≡ b.stream_can_write_)
      × (b'.requests_ ≡ b.requests_)
unfolding read
read_rest_of v = (refl, refl, refl)

bump_rest :
    {b : Buffer}
    → IsValid b
    → let b' = (Api.sbumpc b).1 in
      (b'.stream_can_read_ ≡ b.stream_can_read_)
      × (b'.stream_can_write_ ≡ b.stream_can_write_)
      × (b'.requests_ ≡ b.requests_)
unfolding Api.sbumpc read_byte
bump_rest {b} v = ground (arith, read_rest_of v)

-- Taking the oldest byte.
pub sbumpc-Holds :
    {s : Streambuf} {c : ℕ} {cs : Bytes}
    → Holds s (c ∷ cs)
    → ((sbumpc s).0 ≡ ch c) × Holds (sbumpc s).1 cs × Rest s (sbumpc s).1
sbumpc-Holds {s} h =
    let e = sync_reads s h.valid h.readable in
    let same : (sbumpc s).1.impl_ ≡ (Api.sbumpc s.impl_).1 =
      rw (sbumpc_open s h.readable)
        (check_lem (Api.sbumpc s.impl_).0 (record s { impl_ = (Api.sbumpc s.impl_).1 })).1 in
    let rest = bump_rest h.valid in
    let r : Rest s (sbumpc s).1 = record {
      readable = ap (λ (b : Buffer). b.stream_can_read_) same ∙ rest.0;
      writable = ap (λ (b : Buffer). b.stream_can_write_) same ∙ rest.1;
      requests = ap (λ (b : Buffer). b.requests_) same ∙ rest.2;
    } in
    (
      e.0 ∙ ap (λ u. oldest u (can_write s)) h.unread,
      record {
        valid = e.2;
        readable = r.readable ∙ h.readable;
        unread = e.1 ∙ ap (drop 1) h.unread;
      },
      r,
    )

-- Looking at the oldest byte.
pub sgetc-Holds :
    {s : Streambuf} {u : Bytes}
    → Holds s u
    → ((sgetc s).0 ≡ oldest u (can_write s)) × Holds (sgetc s).1 u × Rest s (sgetc s).1
sgetc-Holds {s} h =
    let e = sync_reads s h.valid h.readable in
    let same : (sgetc s).1.impl_ ≡ s.impl_ = e.5 in
    let r : Rest s (sgetc s).1 = record {
      readable = ap (λ (b : Buffer). b.stream_can_read_) same;
      writable = ap (λ (b : Buffer). b.stream_can_write_) same;
      requests = ap (λ (b : Buffer). b.requests_) same;
    } in
    (
      e.4 ∙ e.0 ∙ ap (λ v. oldest v (can_write s)) h.unread,
      record {
        valid = subst IsValid (sym same) h.valid;
        readable = r.readable ∙ h.readable;
        unread = ap (λ (b : Buffer). contents b.blocks_) same ∙ h.unread;
      },
      r,
    )
