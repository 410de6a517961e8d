-- ===== src/Services/Allocator/Sharing.antt =====
-- The block of an allocator is never shared.
use snode.Prelude.{ℕ, ◌+◌, ◌≡◌, refl, Bool, true, false, List, [], ◌∷◌, ◌++◌, arith}
use snode.Services.Allocator.{
  Pointer, storage, heap, Allocator, allocate, deallocate, History, begun, allocated, deallocated,
}

-- How often a list has the pointer to the block.
abbrev pub blocks : List Pointer → ℕ
blocks [] = 0
blocks (storage ∷ ps) = 1 + blocks ps
blocks (heap n ∷ ps) = blocks ps

abbrev pub as_count : Bool → ℕ
as_count true = 1
as_count false = 0

blocks-append : (xs ys : List Pointer) → blocks (xs ++ ys) ≡ blocks xs + blocks ys
blocks-append [] ys = omega arith
blocks-append (storage ∷ xs) ys = omega (arith, blocks-append xs ys)
blocks-append (heap n ∷ xs) ys = blocks-append xs ys

blocks-allocate :
    (size fresh : ℕ) (a : Allocator) (out : List Pointer)
    → blocks out ≡ as_count a.in_use_
    → let (p, a') = allocate size fresh a in blocks (p ∷ out) ≡ as_count a'.in_use_
unfolding allocate
blocks-allocate size fresh a out h = ground (arith, h)

blocks-deallocate :
    (p : Pointer) (xs ys : List Pointer) (a : Allocator)
    → blocks (xs ++ p ∷ ys) ≡ as_count a.in_use_
    → blocks (xs ++ ys) ≡ as_count (deallocate p a).in_use_
unfolding deallocate
blocks-deallocate storage xs ys a h =
    ground (arith, h, blocks-append xs ys, blocks-append xs (storage ∷ ys))
blocks-deallocate (heap n) xs ys a h =
    omega (arith, h, blocks-append xs ys, blocks-append xs (heap n ∷ ys))

-- Over any history of calls in which only pointers that are out are given back, the block of the
-- allocator is out once where it is marked as in use, and else not at all.
pub History-blocks :
    {out : List Pointer} {a : Allocator} → History out a → blocks out ≡ as_count a.in_use_
History-blocks begun = refl
History-blocks (allocated {out} {a} run size fresh) =
    blocks-allocate size fresh a out (History-blocks run)
History-blocks (deallocated {a} xs ys p run) = blocks-deallocate p xs ys a (History-blocks run)
