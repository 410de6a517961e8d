-- ===== src/Services/Listeners/Turns.antt =====
-- The round robin of `get_next_listener`.
use snode.Prelude.{
  ℕ, zero, suc, ◌+◌, ◌<◌, ◌≡◌, refl, sym, ap, ap₂, ◌∙◌, List, [], ◌∷◌, Option, none, some, length,
  get_elem?, take, drop, arith, take_all, map,
}
use snode.Services.Listeners.{
  Factory, new_factory, listener_at, next_index, get_next_listener, calls,
}

-- The element at an index inside a list is the head of what is dropped to.
get_elem?-drop :
    {A : Type 0} (xs : List A) (i : ℕ)
    → i < length xs
    → (x : A) × (get_elem? xs i ≡ some x) × (drop i xs ≡ x ∷ drop (i + 1) xs)
get_elem?-drop [] i h = absurd (omega arith)
get_elem?-drop (x ∷ xs) zero h = (x, refl, refl)
get_elem?-drop (x ∷ xs) (suc i) h =
    let (y, e, d) = get_elem?-drop xs i (omega arith) in
    let n : suc i + 1 ≡ suc (i + 1) = omega arith in
    (y, e, d ∙ ap (λ k. y ∷ drop k (x ∷ xs)) (sym n))

length-map : (xs : List ℕ) → length {A = Option ℕ} (map some xs) ≡ length xs
length-map [] = refl
length-map (x ∷ xs) = ap suc (length-map xs)

module _ (listeners : List (Option ℕ)) where
  abbrev at : Option ℕ → Factory
  at last = record { last_used_ = last; listeners_ = listeners }

  listener_at_lem :
      (i : ℕ) (l : Option ℕ)
      → get_elem? listeners i ≡ some l
      → listener_at i (at (some i)) ≡ (l, at (some i))
  unfolding listener_at
  listener_at_lem i l got = rw got

  get_next_lem :
      (last : Option ℕ) (i : ℕ)
      → next_index (at last) ≡ i
      → i < length listeners
      → (l : Option ℕ) × (get_next_listener (at last) ≡ (l, at (some i)))
        × (drop i listeners ≡ l ∷ drop (i + 1) listeners)
  unfolding get_next_listener
  get_next_lem last i e h =
      let (l, got, split) = get_elem?-drop listeners i h in
      (l, ap (λ j. listener_at j (at (some j))) e ∙ listener_at_lem i l got, split)

  next_index_lem : (i : ℕ) → i + 1 < length listeners → next_index (at (some i)) ≡ i + 1
  unfolding next_index
  next_index_lem i h = ground arith

  next_index_last : (i : ℕ) → i + 1 ≡ length listeners → next_index (at (some i)) ≡ 0
  unfolding next_index
  next_index_last i h = ground arith

  calls_from :
      (n i : ℕ) (last : Option ℕ)
      → next_index (at last) ≡ i
      → i + n < length listeners
      → calls (suc n) (at last) ≡ (take (suc n) (drop i listeners), at (some (i + n)))
  calls_from zero i last e h =
      let (l, got, split) = get_next_lem last i e (omega arith) in
      let z : i ≡ i + 0 = omega arith in
      ap (λ (r : Option ℕ × Factory). (r.0 ∷ [], r.1)) got
      ∙ ap₂ (λ d j. (take 1 d, at (some j))) (sym split) z
  calls_from (suc n) i last e h =
      let (l, got, split) = get_next_lem last i e (omega arith) in
      let s : i + 1 + n ≡ i + suc n = omega arith in
      ap (λ (r : Option ℕ × Factory). (r.0 ∷ (calls (suc n) r.1).0, (calls (suc n) r.1).1)) got
      ∙ ap (λ (r : List (Option ℕ) × Factory). (l ∷ r.0, r.1))
          (calls_from n (i + 1) (some i) (next_index_lem i (omega arith)) (omega arith))
      ∙ ap₂ (λ d j. (take (suc (suc n)) d, at (some j))) (sym split) s

  turn :
      (m : ℕ) (last : Option ℕ)
      → length listeners ≡ suc m
      → next_index (at last) ≡ 0
      → calls (suc m) (at last) ≡ (listeners, at (some m))
  turn m last size e =
      let z : 0 + m ≡ m = omega arith in
      calls_from m 0 last e (omega arith)
      ∙ ap₂ (λ ls j. (ls, at (some j))) (take_all (suc m) listeners (omega arith)) z

-- A factory over one or more threads hands out their listeners in turn: as many calls as there are
-- threads return the listener of each thread once, in order, and so do as many calls after them.
pub get_next_listener-turns :
    (threads : List ℕ) (m : ℕ)
    → length threads ≡ suc m
    → let (first, f) = calls (suc m) (new_factory threads) in
      let (second, f') = calls (suc m) f in
      (first ≡ map some threads) × (second ≡ map some threads) × (f' ≡ f)
unfolding new_factory
get_next_listener-turns threads m size =
    let ls = map some threads in
    let long : length ls ≡ suc m = length-map threads ∙ size in
    let first = turn ls m none long (unfold next_index in refl) in
    let again = turn ls m (some m) long (next_index_last ls m (omega (arith, long))) in
    let second = ap (λ (r : List (Option ℕ) × Factory). calls (suc m) r.1) first ∙ again in
    (ap (λ r. r.0) first, ap (λ r. r.0) second, ap (λ r. r.1) second ∙ ap (λ r. r.1) (sym first))
