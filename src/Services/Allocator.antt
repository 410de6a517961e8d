-- ===== src/Services/Allocator.antt =====
-- `handler_allocator` of src/handler_allocator.h: one block of memory for the handlers of a connection,
-- and the heap where the block is in use or too small. What `operator new` returns is given as the
-- number of a heap block.
pub mod Sharing
mod Tests
use snode.Prelude.{ℕ, Bool, true, false, not, ◌&&◌, List, [], ◌∷◌, ◌++◌, ltb, if◌then◌else◌}

abbrev pub alloc_size : ℕ
alloc_size = 1024

pub data Pointer : Type 0 where
  storage : Pointer
  heap : ℕ → Pointer

pub record Allocator : Type 0 where
  pub in_use_ : Bool

unfoldable pub allocate : ℕ → ℕ → Allocator → Pointer × Allocator
allocate size fresh a =
    if not a.in_use_ && ltb size alloc_size
    then (storage, record a { in_use_ = true })
    else (heap fresh, a)

unfoldable pub deallocate : Pointer → Allocator → Allocator
deallocate storage a = record a { in_use_ = false }
deallocate (heap n) a = a

-- Calls of both, where only a pointer that is out is given back; the list holds the pointers that are
-- out.
pub data History : List Pointer → Allocator → Type 0 where
  begun : History [] (record { in_use_ = false })
  allocated :
      {out : List Pointer} {a : Allocator}
      → History out a
      → (size fresh : ℕ) → History ((allocate size fresh a).0 ∷ out) (allocate size fresh a).1
  deallocated :
      {a : Allocator} (xs ys : List Pointer) (p : Pointer)
      → History (xs ++ p ∷ ys) a
      → History (xs ++ ys) (deallocate p a)
