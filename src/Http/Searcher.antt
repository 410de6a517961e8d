-- ===== src/Http/Searcher.antt =====
-- `crlf_nonascii_searcher_t` of src/http_service.cpp, the match condition that ends the first read of
-- a request: an empty line, or a byte that is no text. Iterators are positions from `begin`, and the
-- input is bytes; `char` is signed, so '\x80' to '\xFF' are the bytes from 128 on.
pub mod Laws
pub mod Spec
mod Tests
use snode.Prelude.{ℕ, ◌+◌, Bool, true, false, [], ◌∷◌, Bytes, leb, ◌==◌, if◌then◌else◌}

pub data State : Type 0 where
  none cr crlf crlfcr : State

-- What one pass of the loop does before it moves on: return with `true`, or set `excluded` and
-- `state`.
pub data Verdict : Type 0 where
  stop : Verdict
  go : ℕ → State → Verdict

abbrev pub on_cr : State → ℕ → ℕ → Verdict
on_cr State.crlf excluded cur = go excluded State.crlfcr
on_cr _ excluded cur = go cur State.cr

abbrev pub on_lf : State → ℕ → Verdict
on_lf State.cr excluded = go excluded State.crlf
on_lf State.crlfcr excluded = stop
on_lf _ excluded = go excluded State.none

unfoldable pub judge : ℕ → State → ℕ → ℕ → Verdict
judge c state excluded cur =
    if c == 13
    then on_cr state excluded cur
    else if c == 10
    then on_lf state excluded
    else if leb c 31
    then stop
    else if leb 128 c
    then stop
    else go excluded State.none

-- The end of the pass: `++cur`, and `excluded` follows it outside a match.
abbrev pub exclude : State → ℕ → ℕ → ℕ
exclude State.none excluded next = next
exclude _ excluded next = excluded

unfoldable pub loop : Bytes → ℕ → ℕ → State → ℕ × Bool
unfolding judge
loop [] excluded cur state = (excluded, false)
loop (c ∷ s) excluded cur state = elim (judge c state excluded cur) [
  | stop ↦ (cur + 1, true)
  | go excluded' state' ↦ loop s (exclude state' excluded' (cur + 1)) (cur + 1) state'
]

unfoldable pub search : Bytes → ℕ × Bool
unfolding loop
search s = loop s 0 0 State.none
