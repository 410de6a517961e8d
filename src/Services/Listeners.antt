-- ===== src/Services/Listeners.antt =====
-- `net_service_listener_factory` of src/net_service_helpers.h: one listener for each worker thread, and
-- the turn of the next. A listener is the id of its thread, or `none` for a null pointer. The map has
-- the keys 0, 1, ... and is a list; `last_used_` is `none` for -1.
pub mod Turns
mod Tests
use snode.Prelude.{
  ℕ, zero, suc, ◌+◌, List, [], ◌∷◌, ◌++◌, Option, none, some, length, get_elem?, map, ltb, ◌==◌,
  if◌then◌else◌,
}

pub record Factory : Type 0 where
  pub last_used_ : Option ℕ
  pub listeners_ : List (Option ℕ)

unfoldable pub new_factory : List ℕ → Factory
new_factory threads = record { last_used_ = none; listeners_ = map some threads }

-- `listeners_[idx]`, which puts a null pointer at a key that is not there.
unfoldable pub listener_at : ℕ → Factory → Option ℕ × Factory
listener_at idx f = elim (get_elem? f.listeners_ idx) [
  | none ↦ (none, record f { listeners_ = f.listeners_ ++ none ∷ [] })
  | some l ↦ (l, f)
]

unfoldable pub next_index : Factory → ℕ
next_index f = elim f.last_used_ [
  | none ↦ 0
  | some i ↦ if ltb (i + 1) (length f.listeners_) then i + 1 else 0
]

unfoldable pub get_next_listener : Factory → Option ℕ × Factory
unfolding listener_at next_index
get_next_listener f = let idx = next_index f in listener_at idx (record f { last_used_ = some idx })

-- The loop of `get_listener` from `idx` on.
unfoldable pub find_thread : ℕ → List ℕ → ℕ → Option ℕ
find_thread id [] idx = none
find_thread id (t ∷ threads) idx =
    let rest = find_thread id threads (idx + 1) in if t == id then some idx else rest

-- `none` where the source throws.
unfoldable pub get_listener : List ℕ → ℕ → Factory → Option (Option ℕ × Factory)
unfolding listener_at find_thread
get_listener threads id f = elim (find_thread id threads 0) [
  | none ↦ none
  | some idx ↦ some (listener_at idx (record f { last_used_ = some idx }))
]

-- What so many calls of `get_next_listener` return.
abbrev pub calls : ℕ → Factory → List (Option ℕ) × Factory
calls zero f = ([], f)
calls (suc n) f = let (l, f') = get_next_listener f in let (ls, f'') = calls n f' in (l ∷ ls, f'')
