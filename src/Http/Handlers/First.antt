-- ===== src/Http/Handlers/First.antt =====
-- The first class that has a path handles it, on every thread.
use snode.Prelude.{
  ℕ, ◌+◌, ◌≡◌, refl, ap, ◌∙◌, Bool, true, false, ◌&&◌, ◌||◌, List, [], ◌∷◌, Option, none, some,
  Bytes, ◌==◌, if◌then◌else◌,
}
use snode.Prelude.Maps.{lookup, assign, text_eq, nat_eq}
use snode.Http.Handlers.{with_paths, Service, over_threads, with_class, over_classes, new_service}
use snode.Http.Handlers.Paths.{contains, class_at, kept_class, class_at-assign}

kept_twice :
    (b c : Bool) (name : Bytes) (o : Option Bytes)
    → kept_class b name (kept_class c name o) ≡ kept_class (c || b) name o
kept_twice true true name none = refl
kept_twice true true name (some n) = refl
kept_twice true false name o = refl
kept_twice false true name none = refl
kept_twice false true name (some n) = refl
kept_twice false false name o = refl

abbrev pub has : ℕ → List ℕ → Bool
has t [] = false
has t (u ∷ us) = u == t || has t us

distribute : (a b c : Bool) → (a && c || b && c) ≡ ((a || b) && c)
distribute true true true = refl
distribute true true false = refl
distribute true false true = refl
distribute true false false = refl
distribute false b c = refl

class_at-over_threads :
    (t : ℕ) (q name : Bytes) (n : ℕ) (paths : List Bytes) (threads : List ℕ) (first : Bool)
    (s : Service)
    → class_at t q
        (over_threads name paths threads (if first then some (name, n) else none) s).handlers_
      ≡ kept_class (has t threads && contains q paths) name (class_at t q s.handlers_)
unfolding over_threads
class_at-over_threads t q name n paths [] first s = refl
class_at-over_threads t q name n paths (thread ∷ threads) true s =
    let s' = record s {
      handlers_ =
          assign thread (with_paths (name, n) paths (lookup thread s.handlers_)) s.handlers_;
    } in
    class_at-over_threads t q name n paths threads false s'
    ∙ ap (kept_class (has t threads && contains q paths) name)
        (class_at-assign t thread q (name, n) paths s.handlers_)
    ∙ kept_twice (has t threads && contains q paths) (thread == t && contains q paths) name
        (class_at t q s.handlers_)
    ∙ ap (λ b. kept_class b name (class_at t q s.handlers_))
        (distribute (thread == t) (has t threads) (contains q paths))
class_at-over_threads t q name n paths (thread ∷ threads) false s =
    let s' : Service = record {
      handlers_ =
          assign thread (with_paths (name, s.created) paths (lookup thread s.handlers_))
            s.handlers_;
      created = s.created + 1;
    } in
    class_at-over_threads t q name n paths threads false s'
    ∙ ap (kept_class (has t threads && contains q paths) name)
        (class_at-assign t thread q (name, s.created) paths s.handlers_)
    ∙ kept_twice (has t threads && contains q paths) (thread == t && contains q paths) name
        (class_at t q s.handlers_)
    ∙ ap (λ b. kept_class b name (class_at t q s.handlers_))
        (distribute (thread == t) (has t threads) (contains q paths))

module _ (url_path : Bytes → List Bytes) where
  class_at-with_class :
      (t : ℕ) (q name : Bytes) (paths : List Bytes) (threads : List ℕ) (s : Service)
      → class_at t q (with_class url_path name paths threads s).handlers_
        ≡ kept_class (has t threads && contains q paths) name (class_at t q s.handlers_)
  class_at-with_class t q name [] threads s = by_test (has t threads)
    where
      by_test :
          (b : Bool)
          → class_at t q s.handlers_ ≡ kept_class (b && false) name (class_at t q s.handlers_)
      by_test true = refl
      by_test false = refl
  class_at-with_class t q name (p ∷ paths) threads s =
      class_at-over_threads t q name s.created (p ∷ paths) threads true
        (record s { created = s.created + 1 })

  -- The first class in a list that has the path, for a thread of the pool.
  unfoldable pub first_class : Bool → Bytes → List Bytes → Option Bytes
  first_class on_thread q [] = none
  first_class on_thread q (name ∷ names) =
      if on_thread && contains q (url_path name) then some name else first_class on_thread q names

  abbrev or_first : Option Bytes → Option Bytes → Option Bytes
  or_first none o = o
  or_first (some n) o = some n

  class_at-over_classes :
      (t : ℕ) (q : Bytes) (names : List Bytes) (threads : List ℕ) (s : Service)
      → class_at t q (over_classes url_path names threads s).handlers_
        ≡ or_first (class_at t q s.handlers_) (first_class (has t threads) q names)
  unfolding over_classes first_class
  class_at-over_classes t q [] threads s = by_case (class_at t q s.handlers_)
    where
      by_case : (o : Option Bytes) → o ≡ or_first o none
      by_case none = refl
      by_case (some n) = refl
  class_at-over_classes t q (name ∷ names) threads s =
      class_at-over_classes t q names threads (with_class url_path name (url_path name) threads s)
      ∙ ap (λ o. or_first o (first_class (has t threads) q names))
          (class_at-with_class t q name (url_path name) threads s)
      ∙ by_case (has t threads && contains q (url_path name)) (class_at t q s.handlers_)
    where
      by_case :
          (b : Bool) (o : Option Bytes)
          → or_first (kept_class b name o) (first_class (has t threads) q names)
            ≡ or_first o (if b then some name else first_class (has t threads) q names)
      by_case true none = refl
      by_case true (some n) = refl
      by_case false o = refl

  -- On each thread of the pool a path has a handler of the first class, in the order of the names,
  -- that has the path among its own, and no handler where there is none; other threads have no
  -- handlers.
  pub new_service-first :
      (t : ℕ) (q : Bytes) (names : List Bytes) (threads : List ℕ)
      → class_at t q (new_service url_path names threads).handlers_
        ≡ first_class (has t threads) q names
  unfolding lookup
  new_service-first t q names threads =
      class_at-over_classes t q names threads (record { handlers_ = []; created = 0 })
