-- ===== src/Streams/Source/Positions.antt =====
-- Positions of the source buffer: what `seekpos` does before the first read, and the position after it.
use mathlib.Core.Path.{subst}
use snode.Prelude.{
  ℕ, suc, ◌≡◌, ◌≤◌, ◌<◌, refl, sym, true, Option, some, Bytes, take, length-replicate, size_mod,
  arith,
}
use snode.Prelude.Int.{pos}
use snode.Streams.Source.{Source, IsSequential, Sourcebuf, new_sourcebuf, in_avail, read, seekpos}
use snode.Streams.Source.Rounds.{Delivered}
use snode.Streams.Source.Reading.{IsDry, read_delivers}

module _ {S : Type 0} (source : Source S) (rest : S → Bytes) (law : IsSequential source rest)
    (s : S) where
  -- A new buffer at a read position.
  abbrev at : ℕ → Sourcebuf S
  at p = record (new_sourcebuf s) { info_ = record (new_sourcebuf s).info_ { rdpos_ = p } }

  at-IsDry : (p : ℕ) → IsDry source rest law (at p)
  unfolding in_avail new_sourcebuf
  at-IsDry p = record { array = omega (arith, length-replicate {A = ℕ} 512 0); dry = refl }

  seekpos_new :
      (p : ℕ)
      → 0 < p
      → p ≤ Source.size source s
      → seekpos source (pos p) (new_sourcebuf s) ≡ (some p, at p)
  unfolding seekpos new_sourcebuf
  seekpos_new p h l = ground arith

  -- On a new source buffer over a source that returns its characters in order, seekpos to a
  -- position above 0 and within the size returns the position asked for, but the next read copies
  -- the characters from the front of the source.
  pub seekpos_ignored :
      (p count : ℕ)
      → 0 < p
      → p ≤ Source.size source s
      → 0 < count
      → count < size_mod
      → let (result, b) = seekpos source (pos p) (new_sourcebuf s) in
        (d : Delivered source rest law count 0 b (read source (suc count) count true b)) × (result
          ≡ some p)
        × (d.out ≡ take count (rest s))
  unfolding new_sourcebuf
  seekpos_ignored p count h l n small =
      let r = read_delivers source rest law count (at p) (at-IsDry p) n small in
      subst
        (λ (q : Option ℕ × Sourcebuf S).
          (d : Delivered source rest law count 0 q.1 (read source (suc count) count true q.1))
          × (q.0 ≡ some p)
          × (d.out ≡ take count (rest s)))
        (sym (seekpos_new p h l)) (r.0, refl, r.0.bytes)
