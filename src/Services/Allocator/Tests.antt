-- ===== src/Services/Allocator/Tests.antt =====
-- Two handlers at a time.
use snode.Prelude.{◌≡◌, refl, true, false, [], ◌∷◌}
use snode.Services.Allocator.{storage, heap, allocate, History, begun, allocated}
use snode.Services.Allocator.Sharing.{blocks, as_count, History-blocks}

-- A request of the whole size goes to the heap, since the test is `<`.
allocate_whole : (allocate 1024 7 (record { in_use_ = false })).0 ≡ heap 7
unfolding allocate
allocate_whole = refl

two_handlers : History (heap 7 ∷ storage ∷ []) (record { in_use_ = true })
unfolding allocate
two_handlers = allocated (allocated begun 100 6) 100 7

History-blocks_example : blocks (heap 7 ∷ storage ∷ []) ≡ as_count true
History-blocks_example = History-blocks two_handlers
