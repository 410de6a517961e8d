-- ===== src/Streams/Source/Tests.antt =====
-- The source buffer over a source of bytes in memory, and its properties at small inputs.
use snode.Prelude.{
  ℕ, ◌+◌, ◌≡◌, refl, sym, ap, ◌∙◌, true, [], ◌∷◌, ◌++◌, Option, none, some, Bytes, length, take,
  drop, drop-drop, take-append-drop, length-take, nil_of_length, arith, length-replicate,
}
use snode.Prelude.Int.{pos, ◌+ℤ◌}
use snode.Streams.ProducerConsumer.{IntType}
use snode.Streams.Source
use snode.Streams.Source.{
  Source, IsSequential, Sourcebuf, new_sourcebuf, in_avail, read, seekpos, seekoff_cur, sgetc,
}
use snode.Streams.Source.Rounds.{Delivered}
use snode.Streams.Source.Reading.{IsDry, read_delivers}
use snode.Streams.Source.Positions.{seekpos_ignored}

-- All bytes and the position.
abbrev from : Bytes × ℕ → Option ℕ → ℕ
from (u, p) none = p
from (u, p) (some q) = q

abbrev memory : Source (Bytes × ℕ)
memory = record {
  read = λ s count offset. (take count (drop (from s offset) s.0), (s.0, from s offset + count));
  size = λ s. length s.0;
  close = λ s. s;
}

abbrev unread : Bytes × ℕ → Bytes
unread (u, p) = drop p u

memory-IsSequential : IsSequential memory unread
memory-IsSequential = record {
  in_order = λ s count.
      sym (take-append-drop count (drop s.1 s.0))
      ∙ ap (◌++◌ (take count (drop s.1 s.0))) (drop-drop count s.1 (s.1 + count) s.0 refl);
  at_most = λ s count. omega (arith, length-take count (drop s.1 s.0));
  at_end =
      λ s count p e. nil_of_length (drop s.1 s.0) (omega (arith, length-take count (drop s.1 s.0)));
}

abbrev buffer : Sourcebuf (Bytes × ℕ)
buffer = new_sourcebuf (7 ∷ 8 ∷ 9 ∷ [], 0)

buffer-IsDry : IsDry memory unread memory-IsSequential buffer
unfolding new_sourcebuf in_avail
buffer-IsDry = record { array = omega (arith, length-replicate {A = ℕ} 512 0); dry = refl }

read_delivers_example :
    (d : Delivered memory unread memory-IsSequential 2 0 buffer (read memory 3 2 true buffer))
    × IsDry memory unread memory-IsSequential d.after
read_delivers_example =
    read_delivers memory unread memory-IsSequential 2 buffer buffer-IsDry (omega arith)
      (omega arith)

ignored :
    let (result, b) = seekpos memory (pos 2) buffer in
    (d : Delivered memory unread memory-IsSequential 1 0 b (read memory 2 1 true b)) × (result
      ≡ some 2)
    × (d.out ≡ 7 ∷ [])
ignored =
    seekpos_ignored memory unread memory-IsSequential (7 ∷ 8 ∷ 9 ∷ [], 0) 2 1 (omega arith)
      (omega arith) (omega arith) (omega arith)

-- The position that the buffer tells after a read of two characters is 1.
abbrev told : Option (Bytes × Sourcebuf (Bytes × ℕ)) → Option ℕ
told none = none
told (some (out, b)) = (seekoff_cur memory (pos 0) b).0

told-read : told (read memory 3 2 true buffer) ≡ some 1
unfolding seekoff_cur read new_sourcebuf ◌+ℤ◌
told-read = refl

-- Looking at a character takes it off the source.
abbrev left : Option (IntType × Sourcebuf (Bytes × ℕ)) → Bytes
left none = []
left (some (value, b)) = unread b.source_

left-sgetc : left (sgetc memory 2 buffer) ≡ 8 ∷ 9 ∷ []
unfolding Source.read_byte new_sourcebuf
left-sgetc = refl
