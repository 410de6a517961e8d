-- ===== src/Streams/Streambuf/Calls.antt =====
-- Histories of calls of the public interface of a stream buffer. `putc` and `putn` leave the buffer
-- as it is; the work that they hand to the worker thread is a call when the thread executes it.
use snode.Prelude.{ℕ, ◌≡◌, Bool, Bytes}
use snode.Streams.Container.{OpenMode}
use snode.Streams.Streambuf
use snode.Streams.Streambuf.{Streambuf, Outcome, ok, throws, asserts, Work}

-- The calls of the public interface, and a piece of work that the worker thread executes.
pub data Call : Type 0 where
  close : OpenMode → Call
  execute : Work → Call
  bumpc ungetc : ℕ → Call
  getn : ℕ → ℕ → ℕ → Call
  sbumpc sgetc sync acquire : Call
  sgetn scopy alloc commit release : ℕ → Call
  store : Bytes → Call

abbrev pub state : {A : Type 0} → Outcome (Streambuf × A) → Outcome Streambuf
state (ok (s, a)) = ok s
state throws = throws
state asserts = asserts

abbrev pub allocated : Outcome (Bool × Streambuf) → Outcome Streambuf
allocated (ok (ptr, s)) = ok s
allocated throws = throws
allocated asserts = asserts

-- The buffer that a call leaves.
unfoldable pub call : Call → Streambuf → Outcome Streambuf
call (close mode) s = ok (Streambuf.close mode s).0
call (execute w) s = ok (Streambuf.execute w s).0
call (bumpc op) s = ok (Streambuf.bumpc op s).0
call (ungetc op) s = state (Streambuf.ungetc op s)
call (getn op ptr count) s = ok (Streambuf.getn op ptr count s).0
call sbumpc s = ok (Streambuf.sbumpc s).1
call sgetc s = ok (Streambuf.sgetc s).1
call sync s = state (Streambuf.sync s)
call acquire s = ok s
call (sgetn count) s = ok (Streambuf.sgetn count s).1
call (scopy count) s = ok (Streambuf.scopy count s).1
call (alloc count) s = allocated (Streambuf.alloc count s)
call (commit count) s = state (Streambuf.commit count s)
call (release count) s = Streambuf.release count s
call (store src) s = ok (Streambuf.store src s)

-- What calls that neither throw nor fail an `assert` make of a new buffer.
pub data Reached : Streambuf → Type 0 where
  created :
      {s : Streambuf} (alloc_size : ℕ) → s ≡ Streambuf.create_shared_instance alloc_size → Reached s
  called : {s s' : Streambuf} → Reached s → (c : Call) → call c s ≡ ok s' → Reached s'
