-- ===== src/Streams/Streambuf/Samples.antt =====
-- Small stream buffers for the tests.
use snode.Prelude.{
  ◌-◌, ◌<◌, ◌≡◌, ◌∙◌, refl, ap, Bool, true, false, [], ◌∷◌, none, arith, Bytes, length, take,
  take_all, append-nil, size_mod,
}
use snode.Streams.Streambuf.{Streambuf}
use snode.Streams.Streambuf.Laws.{unread_of}
use snode.Streams.Streambuf.Reads.{Holds}

-- A stream buffer that holds the given bytes in one block.
abbrev pub holding : Bool → Bytes → Streambuf
holding writable u = record {
  impl_ = record {
    stream_can_read_ = true;
    stream_can_write_ = writable;
    alloc_size_ = 4;
    allocblock_ = none;
    total_ = length u;
    total_read_ = 0;
    total_written_ = length u;
    synced_ = 0;
    blocks_ = record { read_ = 0; pos_ = length u; size_ = length u; data_ = u } ∷ [];
    requests_ = [];
  };
  stream_read_eof_ = false;
  alloced_ = false;
}

pub holding-Holds :
    (writable : Bool) (u : Bytes) → length u < size_mod → Holds (holding writable u) u
holding-Holds writable u h =
    let e : unread_of (holding writable u) ≡ u =
      append-nil (take (length u - 0) u) ∙ take_all (length u - 0) u (omega arith) in
    record {
      valid = record {
        blocks =
            (record { heads = omega arith; inside = omega arith; array = refl; small = h }, tt);
        total = omega (arith, ap length e);
        small = h;
        synced = omega arith;
        alloc_small = omega arith;
        counted = omega arith;
        fresh = tt;
        once = tt;
      };
      readable = refl;
      unread = e;
    }
