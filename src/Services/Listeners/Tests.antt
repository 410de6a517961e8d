-- ===== src/Services/Listeners/Tests.antt =====
-- Three threads in turn.
use snode.Prelude.{ℕ, ◌≡◌, refl, List, [], ◌∷◌, none, some, map}
use snode.Services.Listeners.{new_factory, calls, get_listener}
use snode.Services.Listeners.Turns.{get_next_listener-turns}

abbrev threads : List ℕ
threads = 10 ∷ 11 ∷ 12 ∷ []

-- A listener asked for by its thread's id sets the turn.
get_listener_twelve :
    get_listener threads 12 (new_factory threads)
    ≡ some (some 12, record (new_factory threads) { last_used_ = some 2 })
unfolding get_listener new_factory
get_listener_twelve = refl

get_listener_missing : get_listener threads 9 (new_factory threads) ≡ none
unfolding get_listener
get_listener_missing = refl

get_next_listener-turns_example :
    let (first, f) = calls 3 (new_factory threads) in
    let (second, f') = calls 3 f in
    (first ≡ map some threads) × (second ≡ map some threads) × (f' ≡ f)
get_next_listener-turns_example = get_next_listener-turns threads 2 refl
