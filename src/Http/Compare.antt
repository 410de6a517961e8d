-- ===== src/Http/Compare.antt =====
-- `utility::cmp` of src/utils.h, the case-insensitive comparison that orders the header map. `char`
-- is signed, as it is for the compilers that the Makefile names, so bytes from 128 on come first.
use snode.Prelude.{
  ℕ, ◌+◌, ◌-◌, ◌%◌, ◌≡◌, refl, ◌&&◌, [], ◌∷◌, Bytes, arith, ltb, leb, if◌then◌else◌,
}
use Prim.Native.Nat.{Ordering}

unfoldable pub tolower : ℕ → ℕ
tolower c = if leb b'A' c && leb c b'Z' then c - b'A' + b'a' else c

-- The place of a `char` in the signed order.
abbrev pub signed_rank : ℕ → ℕ
signed_rank c = (c + 128) % 256

-- -1, 0 and 1 as `lt`, `eq` and `gt`.
unfoldable pub icmp : Bytes → Bytes → Ordering
unfolding tolower
icmp [] [] = Ordering.eq
icmp [] (r ∷ right) = Ordering.lt
icmp (l ∷ left) [] = Ordering.gt
icmp (l ∷ left) (r ∷ right) =
    let rest = icmp left right in
    if ltb (signed_rank (tolower r)) (signed_rank (tolower l))
    then Ordering.gt
    else if ltb (signed_rank (tolower l)) (signed_rank (tolower r))
    then Ordering.lt
    else rest

abbrev pub flip : Ordering → Ordering
flip Ordering.lt = Ordering.gt
flip Ordering.eq = Ordering.eq
flip Ordering.gt = Ordering.lt

pub icmp_refl : (s : Bytes) → icmp s s ≡ Ordering.eq
unfolding icmp
icmp_refl [] = refl
icmp_refl (c ∷ s) = ground (arith, icmp_refl s)

pub icmp-flip : (s t : Bytes) → icmp t s ≡ flip (icmp s t)
unfolding icmp
icmp-flip [] [] = refl
icmp-flip [] (r ∷ t) = refl
icmp-flip (l ∷ s) [] = refl
icmp-flip (l ∷ s) (r ∷ t) = ground (arith, icmp-flip s t)

pub icmp_trans :
    (s t u : Bytes) → icmp s t ≡ Ordering.lt → icmp t u ≡ Ordering.lt → icmp s u ≡ Ordering.lt
unfolding icmp
icmp_trans [] [] u h k = cc
icmp_trans [] (b ∷ t) [] h k = cc
icmp_trans [] (b ∷ t) (c ∷ u) h k = refl
icmp_trans (a ∷ s) [] u h k = cc
icmp_trans (a ∷ s) (b ∷ t) [] h k = cc
icmp_trans (a ∷ s) (b ∷ t) (c ∷ u) h k = ground (arith, icmp_trans s t u)

-- Texts that compare equal compare alike with every other.
pub icmp_eq : (s t u : Bytes) → icmp s t ≡ Ordering.eq → icmp s u ≡ icmp t u
unfolding icmp
icmp_eq [] [] u h = refl
icmp_eq [] (b ∷ t) u h = cc
icmp_eq (a ∷ s) [] u h = cc
icmp_eq (a ∷ s) (b ∷ t) [] h = refl
icmp_eq (a ∷ s) (b ∷ t) (c ∷ u) h = ground (arith, icmp_eq s t u)
