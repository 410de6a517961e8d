-- ===== src/Http/Handlers/Paths.antt =====
-- One handler's paths put into the maps of a thread.
use snode.Prelude.{
  ℕ, ◌≡◌, refl, ap, ◌∙◌, Bool, true, false, ◌&&◌, ◌||◌, ◌⊎◌, List, [], ◌∷◌, Option, none, some,
  Bytes, same, ◌==◌, ==_iff, if◌then◌else◌, Bool-cases, inl, inr,
}
use snode.Prelude.Maps.{
  lookup, assign, insert_new, lookup-assign, lookup-insert_new, or_else, text_eq, nat_eq,
}
use snode.Http.Handlers.{Handler, HandlersMap, add_paths, new_paths, with_paths}

abbrev pub contains : Bytes → List Bytes → Bool
contains q [] = false
contains q (p ∷ ps) = same p q || contains q ps

-- The class of the object for a path, with what was there before.
abbrev kept : Bool → Handler → Option Handler → Option Handler
kept false h o = o
kept true h none = some h
kept true h (some g) = some g

lookup-add_paths :
    (q : Bytes) (h : Handler) (paths : List Bytes) (m : HandlersMap)
    → lookup q (add_paths h paths m) ≡ kept (contains q paths) h (lookup q m)
unfolding add_paths
lookup-add_paths q h [] m = refl
lookup-add_paths q h (p ∷ paths) m =
    lookup-add_paths q h paths (insert_new p h m)
    ∙ ap (kept (contains q paths) h) (lookup-insert_new q p h m)
    ∙ by_case (same p q) (contains q paths) (lookup q m)
  where
    by_case :
        (b c : Bool) (o : Option Handler)
        → kept c h (if b then some (or_else o h) else o) ≡ kept (b || c) h o
    by_case true true none = refl
    by_case true true (some g) = refl
    by_case true false none = refl
    by_case true false (some g) = refl
    by_case false true o = refl
    by_case false false o = refl

lookup-new_paths :
    (q : Bytes) (h : Handler) (paths : List Bytes) (m : HandlersMap)
    → lookup q (new_paths h paths m) ≡ (if contains q paths then some h else lookup q m)
unfolding new_paths
lookup-new_paths q h [] m = refl
lookup-new_paths q h (p ∷ paths) m =
    lookup-new_paths q h paths (assign p h m)
    ∙ ap (λ o. if contains q paths then some h else o) (lookup-assign q p h m)
    ∙ by_case (same p q) (contains q paths) (lookup q m)
  where
    by_case :
        (b c : Bool) (o : Option Handler)
        → (if c then some h else if b then some h else o) ≡ (if b || c then some h else o)
    by_case true true o = refl
    by_case true false o = refl
    by_case false c o = refl

abbrev map_at : Option HandlersMap → HandlersMap
map_at none = []
map_at (some m) = m

lookup-with_paths :
    (q : Bytes) (h : Handler) (paths : List Bytes) (o : Option HandlersMap)
    → lookup q (with_paths h paths o) ≡ kept (contains q paths) h (lookup q (map_at o))
unfolding lookup
lookup-with_paths q h paths none = lookup-new_paths q h paths [] ∙ by_case (contains q paths)
  where
    by_case : (b : Bool) → (if b then some h else none) ≡ kept b h none
    by_case true = refl
    by_case false = refl
lookup-with_paths q h paths (some m) = lookup-add_paths q h paths m

abbrev class_of : Option Handler → Option Bytes
class_of none = none
class_of (some h) = some h.0

-- The class of the object for a path on a thread.
abbrev pub class_at : ℕ → Bytes → List (ℕ × HandlersMap) → Option Bytes
class_at t q hs = class_of (lookup q (map_at (lookup t hs)))

abbrev pub kept_class : Bool → Bytes → Option Bytes → Option Bytes
kept_class false name o = o
kept_class true name none = some name
kept_class true name (some n) = some n

class_of-kept :
    (b : Bool) (h : Handler) (o : Option Handler)
    → class_of (kept b h o) ≡ kept_class b h.0 (class_of o)
class_of-kept false h o = refl
class_of-kept true h none = refl
class_of-kept true h (some g) = refl

pub class_at-assign :
    (t thread : ℕ) (q : Bytes) (h : Handler) (paths : List Bytes) (hs : List (ℕ × HandlersMap))
    → class_at t q (assign thread (with_paths h paths (lookup thread hs)) hs)
      ≡ kept_class (thread == t && contains q paths) h.0 (class_at t q hs)
class_at-assign t thread q h paths hs =
    ap (λ o. class_of (lookup q (map_at o)))
      (lookup-assign t thread (with_paths h paths (lookup thread hs)) hs)
    ∙ by_case (Bool-cases (thread == t))
  where
    by_case :
        ((thread == t) ≡ true) ⊎ ((thread == t) ≡ false)
        → class_of (
            lookup q (
              map_at (
                if thread == t then some (with_paths h paths (lookup thread hs)) else lookup t hs)))
          ≡ kept_class (thread == t && contains q paths) h.0 (class_at t q hs)
    by_case (inl e) = rw e (
        ap class_of (lookup-with_paths q h paths (lookup thread hs))
        ∙ class_of-kept (contains q paths) h (lookup q (map_at (lookup thread hs)))
        ∙ ap (λ u. kept_class (contains q paths) h.0 (class_at u q hs)) ((==_iff thread t).0 e))
    by_case (inr e) = rw e (refl)
