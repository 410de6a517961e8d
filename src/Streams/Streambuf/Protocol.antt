-- ===== src/Streams/Streambuf/Protocol.antt =====
-- The protocol of `alloc` and `commit`: the flag `alloced_` of the stream buffer and the allocated
-- block of its implementation, over every history of calls.
use snode.Prelude.{
  not, if◌then◌else◌, ℕ, ◌≡◌, ◌≢◌, refl, sym, ap, ◌∙◌, Bool, true, false, List, [], ◌∷◌, Option,
  none, some, Bytes, arith,
}
use mathlib.Core.Path.{subst}
use snode.Streams.ProducerConsumer.{
  IntType, ch, eof, requires_async, Buffer, Completion, fulfill_outstanding, update_read_head,
}
use snode.Streams.ProducerConsumer.Api
use snode.Streams.Container.{OpenMode}
use snode.Streams.Streambuf
use snode.Streams.Streambuf.Allocblock.{
  read-allocblock, read_byte-allocblock, fulfill-allocblock, write-allocblock, enqueue-allocblock,
  commit-allocblock,
}
use snode.Streams.Streambuf.Calls.{
  Call, close, execute, bumpc, ungetc, getn, sbumpc, sgetc, sync, acquire, sgetn, scopy, alloc,
  commit, release, store, state, allocated, call, Reached, created, called,
}
use snode.Streams.Streambuf.{Streambuf, Outcome, ok, throws, asserts, Work, handler, put_n, put_c}

abbrev pub is_some : {A : Type 0} → Option A → Bool
is_some none = false
is_some (some a) = true

-- A call that leaves the flag and the allocated block as they are.
abbrev Stays : Streambuf → Streambuf → Type 0
Stays s s' = (s'.alloced_ ≡ s.alloced_) × (s'.impl_.allocblock_ ≡ s.impl_.allocblock_)

execute-Stays : (w : Work) (s : Streambuf) → Stays s (Streambuf.execute w s).0
unfolding Streambuf.execute Api.putn_task Api.putc_task
execute-Stays (handler c) s = (refl, refl)
execute-Stays (put_n op src) s = (refl, write-allocblock s.impl_ src)
execute-Stays (put_c op c) s = (refl, write-allocblock s.impl_ (c ∷ []))

close-Stays : (mode : OpenMode) (s : Streambuf) → Stays s (Streambuf.close mode s).0
unfolding Streambuf.close Api.close_read Api.close_write fulfill_outstanding
close-Stays mode s = ground (
  arith,
  fulfill-allocblock s.impl_.requests_ (record s.impl_ { stream_can_write_ = false }),
  fulfill-allocblock s.impl_.requests_
      (record s.impl_ { stream_can_read_ = false; stream_can_write_ = false }),
)

bumpc-Stays : (op : ℕ) (s : Streambuf) → Stays s (Streambuf.bumpc op s).0
unfolding Streambuf.bumpc Api.bumpc
bumpc-Stays op s = grind (arith, enqueue-allocblock)

getn-Stays : (op ptr count : ℕ) (s : Streambuf) → Stays s (Streambuf.getn op ptr count s).0
unfolding Streambuf.getn Api.getn
getn-Stays op ptr count s = grind (arith, enqueue-allocblock)

check-Stays : (r : IntType × Streambuf) → Stays r.1 (Streambuf.check_sync_read_eof r).1
unfolding Streambuf.check_sync_read_eof
check-Stays (ch c, s) = (refl, refl)
check-Stays (eof, s) = (refl, refl)
check-Stays (requires_async, s) = (refl, refl)

sbumpc-Stays : (s : Streambuf) → Stays s (Streambuf.sbumpc s).1
unfolding Streambuf.sbumpc Api.sbumpc
sbumpc-Stays s = ground (
  arith,
  read_byte-allocblock s.impl_ true,
  check-Stays (Streambuf.inside s (Api.sbumpc s.impl_)),
)

sgetc-Stays : (s : Streambuf) → Stays s (Streambuf.sgetc s).1
unfolding Streambuf.sgetc Api.sgetc
sgetc-Stays s = ground (
  arith,
  read_byte-allocblock s.impl_ false,
  check-Stays (Streambuf.inside s (Api.sgetc s.impl_)),
)

sgetn-Stays : (count : ℕ) (s : Streambuf) → Stays s (Streambuf.sgetn count s).1
unfolding Streambuf.sgetn Api.sgetn
sgetn-Stays count s = ground (arith, read-allocblock s.impl_ count true)

scopy-Stays : (count : ℕ) (s : Streambuf) → Stays s (Streambuf.scopy count s).1
unfolding Streambuf.scopy Api.scopy
scopy-Stays count s = ground (arith, read-allocblock s.impl_ count false)

-- The flag tells whether there is an allocated block.
abbrev IsMatched : Streambuf → Type 0
IsMatched s = s.alloced_ ≡ is_some s.impl_.allocblock_

Stays-IsMatched : (s s' : Streambuf) → Stays s s' → IsMatched s → IsMatched s'
Stays-IsMatched s s' k m = k.0 ∙ m ∙ ap is_some (sym k.1)

ok_inj : {A : Type 0} {a b : A} → Outcome.ok a ≡ ok b → a ≡ b
ok_inj h = cc

Stays-ok : (s t s' : Streambuf) → Stays s t → IsMatched s → Outcome.ok t ≡ ok s' → IsMatched s'
Stays-ok s t s' k m h = subst IsMatched (ok_inj h) (Stays-IsMatched s t k m)

store-IsMatched : (src : Bytes) (s : Streambuf) → IsMatched s → IsMatched (Streambuf.store src s)
unfolding Api.store
store-IsMatched src s m = ground arith

alloc-IsMatched :
    (count : ℕ) (s s' : Streambuf)
    → IsMatched s
    → allocated (Streambuf.alloc count s) ≡ ok s'
    → IsMatched s'
unfolding Streambuf.alloc Api.alloc
alloc-IsMatched count s s' m h = ground arith

commit-IsMatched :
    (count : ℕ) (s s' : Streambuf)
    → IsMatched s
    → state (Streambuf.commit count s) ≡ ok s'
    → IsMatched s'
unfolding Streambuf.commit
commit-IsMatched count s s' m h =
    split (Api.commit count s.impl_) (commit-allocblock count s.impl_ s.impl_.allocblock_) h
  where
    split :
        (o : Option (Buffer × List Completion))
        → ((b' : Buffer) (cs : List Completion) → o ≡ some (b', cs) → b'.allocblock_ ≡ none)
        → state (
            if not (Streambuf.can_write s)
            then ok (s, [])
            else if not s.alloced_
            then throws
            else Streambuf.committed s o)
          ≡ ok s'
        → IsMatched s'
    split none keep h = ground arith
    split (some (b', cs)) keep h = ground (arith, keep b' cs refl)

release-IsMatched :
    (count : ℕ) (s s' : Streambuf) → IsMatched s → Streambuf.release count s ≡ ok s' → IsMatched s'
unfolding Streambuf.release Api.release update_read_head
release-IsMatched count s s' m h = ground arith

ungetc-IsMatched :
    (op : ℕ) (s s' : Streambuf) → IsMatched s → state (Streambuf.ungetc op s) ≡ ok s' → IsMatched s'
unfolding Streambuf.ungetc Api.ungetc
ungetc-IsMatched op s s' m h = ground arith

sync-IsMatched : (s s' : Streambuf) → IsMatched s → state (Streambuf.sync s) ≡ ok s' → IsMatched s'
unfolding Streambuf.sync Api.sync fulfill_outstanding
sync-IsMatched s s' m h =
    ground
      (arith, fulfill-allocblock s.impl_.requests_ (record s.impl_ { synced_ = s.impl_.total_ }))

-- A call keeps the flag and the block together.
call-IsMatched : (c : Call) (s s' : Streambuf) → IsMatched s → call c s ≡ ok s' → IsMatched s'
unfolding call
call-IsMatched (close mode) s s' m h =
    Stays-ok s (Streambuf.close mode s).0 s' (close-Stays mode s) m h
call-IsMatched (execute w) s s' m h =
    Stays-ok s (Streambuf.execute w s).0 s' (execute-Stays w s) m h
call-IsMatched (bumpc op) s s' m h = Stays-ok s (Streambuf.bumpc op s).0 s' (bumpc-Stays op s) m h
call-IsMatched (ungetc op) s s' m h = ungetc-IsMatched op s s' m h
call-IsMatched (getn op ptr count) s s' m h =
    Stays-ok s (Streambuf.getn op ptr count s).0 s' (getn-Stays op ptr count s) m h
call-IsMatched sbumpc s s' m h = Stays-ok s (Streambuf.sbumpc s).1 s' (sbumpc-Stays s) m h
call-IsMatched sgetc s s' m h = Stays-ok s (Streambuf.sgetc s).1 s' (sgetc-Stays s) m h
call-IsMatched sync s s' m h = sync-IsMatched s s' m h
call-IsMatched acquire s s' m h = subst IsMatched (ok_inj h) m
call-IsMatched (sgetn count) s s' m h =
    Stays-ok s (Streambuf.sgetn count s).1 s' (sgetn-Stays count s) m h
call-IsMatched (scopy count) s s' m h =
    Stays-ok s (Streambuf.scopy count s).1 s' (scopy-Stays count s) m h
call-IsMatched (alloc count) s s' m h = alloc-IsMatched count s s' m h
call-IsMatched (commit count) s s' m h = commit-IsMatched count s s' m h
call-IsMatched (release count) s s' m h = release-IsMatched count s s' m h
call-IsMatched (store src) s s' m h = subst IsMatched (ok_inj h) (store-IsMatched src s m)

Reached-IsMatched : {s : Streambuf} → Reached s → IsMatched s
Reached-IsMatched (created alloc_size e) =
    subst IsMatched (sym e) (unfold Streambuf.create_shared_instance in refl)
Reached-IsMatched (called r c e) = call-IsMatched c _ _ (Reached-IsMatched r) e

alloc-commit_guarded :
    (s : Streambuf) (count : ℕ)
    → IsMatched s
    → (Streambuf.alloc count s ≢ asserts) × (Streambuf.commit count s ≢ asserts)
unfolding Streambuf.alloc Streambuf.commit Api.alloc Api.commit
alloc-commit_guarded s count m = (ground arith, ground arith)

-- Over any history of calls that neither throw nor fail an assertion on a new stream buffer,
-- alloced_ tells whether the implementation has an allocated block, and then alloc and commit do
-- not fail its assertions.
pub alloc-commit_protocol :
    {s : Streambuf} (count : ℕ)
    → Reached s
    → (s.alloced_ ≡ is_some s.impl_.allocblock_)
      × (Streambuf.alloc count s ≢ asserts)
      × (Streambuf.commit count s ≢ asserts)
alloc-commit_protocol {s} count r =
    let m = Reached-IsMatched r in let g = alloc-commit_guarded s count m in (m, g.0, g.1)
