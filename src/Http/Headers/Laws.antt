-- ===== src/Http/Headers/Laws.antt =====
-- The headers as a map from names up to case.
use snode.Prelude.{◌≡◌, refl, ap, ◌∙◌, [], ◌∷◌, ◌++◌, Option, none, some, Bytes, codes, arith, All}
use Prim.Native.Nat.{Ordering}
use snode.Http.Compare.{icmp, icmp-flip, icmp_trans, icmp_eq}
use snode.Http.Headers.{HeadersMap, find, put, remove, add}

-- The value for `q` after one for `name` is set: both names are one up to case, or nothing changes.
abbrev pub chosen : Ordering → Option Bytes → Option Bytes → Option Bytes
chosen Ordering.eq new old = new
chosen _ new old = old

pub find-put :
    (q name value : Bytes) (m : HeadersMap)
    → find q (put name value m) ≡ chosen (icmp q name) (some value) (find q m)
unfolding find put
find-put q name value [] = ground arith
find-put q name value ((k, v) ∷ m) = ground (
  arith,
  find-put q name value m,
  icmp-flip name k,
  icmp-flip q k,
  icmp-flip q name,
  icmp_trans q name k,
  icmp_trans q k name,
  icmp_eq name k q,
  icmp_eq q k name,
)

-- Every name of `m` comes behind `k`.
abbrev pub Behind : Bytes → HeadersMap → Type 0
Behind k m = All (λ e. icmp k e.0 ≡ Ordering.lt) m

-- The names go up, so that no two are one up to case.
abbrev pub IsSorted : HeadersMap → Type 0
IsSorted [] = Unit
IsSorted ((k, v) ∷ m) = Behind k m × IsSorted m

Behind-put :
    (k name value : Bytes) (m : HeadersMap)
    → icmp k name ≡ Ordering.lt
    → Behind k m
    → Behind k (put name value m)
unfolding put
Behind-put k name value [] h b = (h, tt)
Behind-put k name value ((k', v) ∷ m) h b = ground (arith, Behind-put k name value m h b.1)

Behind-trans : (j k : Bytes) (m : HeadersMap) → icmp j k ≡ Ordering.lt → Behind k m → Behind j m
Behind-trans j k [] h b = tt
Behind-trans j k ((k', v) ∷ m) h b = (icmp_trans j k k' h b.0, Behind-trans j k m h b.1)

Behind-eq : (j k : Bytes) (m : HeadersMap) → icmp j k ≡ Ordering.eq → Behind k m → Behind j m
Behind-eq j k [] h b = tt
Behind-eq j k ((k', v) ∷ m) h b = (icmp_eq j k k' h ∙ b.0, Behind-eq j k m h b.1)

pub put-IsSorted : (name value : Bytes) (m : HeadersMap) → IsSorted m → IsSorted (put name value m)
unfolding put
put-IsSorted name value [] s = (tt, tt)
put-IsSorted name value ((k, v) ∷ m) s = ground (
  arith,
  s,
  put-IsSorted name value m s.1,
  Behind-trans name k m,
  Behind-put k name value m,
  icmp-flip k name,
)

find-Behind : (q : Bytes) (m : HeadersMap) → Behind q m → find q m ≡ none
unfolding find
find-Behind q [] b = refl
find-Behind q ((k, v) ∷ m) b = ground (arith, b)

pub find-remove :
    (q name : Bytes) (m : HeadersMap)
    → IsSorted m
    → find q (remove name m) ≡ chosen (icmp q name) none (find q m)
unfolding find remove
find-remove q name [] s = ground arith
find-remove q name ((k, v) ∷ m) s = ground (
  arith,
  s,
  find-remove q name m s.1,
  find-Behind q m,
  Behind-trans q k m,
  Behind-eq q k m,
  icmp-flip name k,
  icmp-flip q k,
  icmp-flip q name,
  icmp_trans q name k,
  icmp_trans q k name,
  icmp_eq name k q,
  icmp_eq q k name,
  icmp_eq q name k,
)

abbrev pub combined : Option Bytes → Bytes → Bytes
combined none value = value
combined (some v) value = v ++ codes ", " ++ value

pub add-put :
    (name value : Bytes) (m : HeadersMap)
    → add name value m ≡ put name (combined (find name m) value) m
unfolding add
add-put name value m = by_case (find name m)
  where
    by_case :
        (o : Option Bytes)
        → elim o [ none ↦ put name value m | some v ↦ put name (v ++ codes ", " ++ value) m ]
          ≡ put name (combined o value) m
    by_case none = refl
    by_case (some v) = refl

-- In a header map in order, add puts the value, or the old and the new value combined, for its
-- name and every spelling of it, leaves the other names, and keeps the order; remove after it
-- leaves none of the spellings.
pub find-add :
    (q name value : Bytes) (m : HeadersMap)
    → IsSorted m
    → IsSorted (add name value m)
      × (find q (add name value m)
          ≡ chosen (icmp q name) (some (combined (find name m) value)) (find q m))
      × (find q (remove name (add name value m)) ≡ chosen (icmp q name) none (find q m))
find-add q name value m s =
    let e = add-put name value m in
    let c = combined (find name m) value in
    let s' : IsSorted (put name c m) = put-IsSorted name c m s in
    rw e (
      s',
      find-put q name c m,
      find-remove q name (put name c m) s'
          ∙ ap (chosen (icmp q name) none) (find-put q name c m)
          ∙ twice (some c) (find q m) (icmp q name),
    )
  where
    twice :
        (new old : Option Bytes) (o : Ordering)
        → chosen o none (chosen o new old) ≡ chosen o none old
    twice new old Ordering.lt = refl
    twice new old Ordering.eq = refl
    twice new old Ordering.gt = refl
