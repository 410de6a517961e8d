-- ===== src/Services/ThreadPool/Stop.antt =====
-- `threadpool::stop` runs what is queued and ends every thread.
use snode.Prelude.{
  ℕ, suc, ◌+◌, ◌≡◌, refl, ap, ◌∙◌, true, false, List, [], ◌∷◌, ◌++◌, none, some, All, ◌==◌, arith,
  length, map,
}
use snode.Services.ThreadPool.{
  Task, work, cancel, Pool, schedule, stop_thread, run_task, joined, behind, after_task,
  ends_program, looping, ended, set, join, stop, stop_each, turns, cleared, has_queues,
}

-- What a thread runs until it ends, with the work in its queue.
abbrev pub log : ℕ → List ℕ → List (ℕ × Task)
log id [] = (id, cancel) ∷ []
log id (w ∷ ws) = (id, work w) ∷ log id ws

-- The queue with the task that ends the thread.
abbrev ending : List ℕ → List Task
ending [] = cancel ∷ []
ending (w ∷ ws) = work w ∷ ending ws

-- A thread in its loop with that work in its queue.
abbrev pub IsReady : Pool → ℕ → List ℕ → Type 0
IsReady p id ws = (p.phase id ≡ looping) × (p.queues_index_ id ≡ some (map work ws))

-- Nothing of another thread changes.
abbrev Apart : ℕ → Pool → Pool → Type 0
Apart id p p' =
    (k : ℕ)
    → (id == k) ≡ false
    → (p'.phase k ≡ p.phase k) × (p'.queues_index_ k ≡ p.queues_index_ k)

has_ended : (fuel id : ℕ) (p : Pool) → p.phase id ≡ ended → join (suc fuel) id p ≡ joined [] p
unfolding join
has_ended fuel id p h = rw h

turn :
    (fuel id : ℕ) (p : Pool) (t : Task) (p' : Pool)
    → p.phase id ≡ looping
    → run_task id p ≡ some (t, p')
    → join (suc fuel) id p ≡ behind ((id, t) ∷ []) (join fuel id p')
unfolding join run_task
turn fuel id p t p' h e = ground arith

next :
    (id : ℕ) (p : Pool) (t : Task) (q : List Task)
    → ends_program t ≡ false
    → p.phase id ≡ looping
    → p.queues_index_ id ≡ some (t ∷ q)
    → (p' : Pool) × (run_task id p ≡ some (t, p'))
      × (p'.phase id ≡ after_task t)
      × (p'.queues_index_ id ≡ some q)
      × Apart id p p'
unfolding run_task
next id p t q s h e = (
  record { queues_index_ = set id (some q) p.queues_index_; phase = set id (after_task t) p.phase },
  ground (arith, s, h, e),
  ground arith,
  ground arith,
  λ k other. (rw other, rw other),
)

-- The turns of one thread.
join_works :
    (ws : List ℕ) (id : ℕ) (p : Pool)
    → p.phase id ≡ looping
    → p.queues_index_ id ≡ some (ending ws)
    → (p' : Pool) × (join (suc (length (ending ws))) id p ≡ joined (log id ws) p')
      × (p'.phase id ≡ ended)
      × Apart id p p'
join_works [] id p h e =
    let (p1, r, l, q, a) = next id p cancel [] refl h e in
    (p1, turn 1 id p cancel p1 h r ∙ ap (behind ((id, cancel) ∷ [])) (has_ended 0 id p1 l), l, a)
join_works (w ∷ ws) id p h e =
    let (p1, r, l, q, a) = next id p (work w) (ending ws) refl h e in
    let (p2, j, l', a') = join_works ws id p1 l q in
    (
      p2,
      turn (suc (length (ending ws))) id p (work w) p1 h r ∙ ap (behind ((id, work w) ∷ [])) j,
      l',
      λ k other. ((a' k other).0 ∙ (a k other).0, (a' k other).1 ∙ (a k other).1),
    )

map-ending : (ws : List ℕ) → map work ws ++ cancel ∷ [] ≡ ending ws
map-ending [] = refl
map-ending (w ∷ ws) = ap (◌∷◌ (work w)) (map-ending ws)

stop_thread_works :
    (ws : List ℕ) (id : ℕ) (p : Pool)
    → IsReady p id ws
    → (p' : Pool) × (stop_thread id p ≡ some p')
      × (p'.phase id ≡ looping)
      × (p'.queues_index_ id ≡ some (ending ws))
      × Apart id p p'
unfolding stop_thread schedule
stop_thread_works ws id p r = (
  record p { queues_index_ = set id (some (map work ws ++ cancel ∷ [])) p.queues_index_ },
  ground (arith, r.1),
  r.0,
  ground (arith, map-ending ws),
  λ k other. (refl, rw other),
)

-- One turn of the loop of `stop`.
stop_each_step :
    (ts : List (ℕ × Task)) (threads : List ℕ) (id : ℕ) (p p1 p2 : Pool)
    → stop_thread id p ≡ some p1
    → join (turns (p1.queues_index_ id)) id p1 ≡ joined ts p2
    → stop_each (id ∷ threads) p ≡ behind ts (stop_each threads p2)
unfolding stop_each
stop_each_step ts threads id p p1 p2 s j = rw (s, stop_each) (rw j)

-- No thread is twice in the pool.
abbrev pub IsDistinct : List ℕ → Type 0
IsDistinct [] = Unit
IsDistinct (id ∷ threads) = All (λ k. (id == k) ≡ false) threads × IsDistinct threads

abbrev pub logs : (ℕ → List ℕ) → List ℕ → List (ℕ × Task)
logs q [] = []
logs q (id ∷ threads) = log id (q id) ++ logs q threads

still-IsReady :
    (q : ℕ → List ℕ) (id : ℕ) (p p' : Pool) (threads : List ℕ)
    → Apart id p p'
    → All (λ k. (id == k) ≡ false) threads
    → All (λ k. IsReady p k (q k)) threads
    → All (λ k. IsReady p' k (q k)) threads
still-IsReady q id p p' [] a d r = tt
still-IsReady q id p p' (k ∷ threads) a d r =
    (((a k d.0).0 ∙ r.0.0, (a k d.0).1 ∙ r.0.1), still-IsReady q id p p' threads a d.1 r.1)

==_flip : (k l : ℕ) → (k == l) ≡ false → (l == k) ≡ false
==_flip k l h = ground arith

plus_one : (n : ℕ) → n + 1 ≡ suc n
plus_one n = omega arith

stop_each_works :
    (q : ℕ → List ℕ) (threads : List ℕ) (p : Pool)
    → IsDistinct threads
    → All (λ id. IsReady p id (q id)) threads
    → (p' : Pool) × (stop_each threads p ≡ joined (logs q threads) p')
      × All (λ id. p'.phase id ≡ ended) threads
      × ((k : ℕ) → All (λ id. (k == id) ≡ false) threads → p'.phase k ≡ p.phase k)
stop_each_works q [] p d r = (p, unfold stop_each in refl, tt, λ k other. refl)
stop_each_works q (id ∷ threads) p d r =
    let (p1, s, l, e, a) = stop_thread_works (q id) id p r.0 in
    let (p2, j, l2, a2) = join_works (q id) id p1 l e in
    let ready =
      still-IsReady q id p1 p2 threads a2 d.0 (still-IsReady q id p p1 threads a d.0 r.1) in
    let (p3, w, l3, f) = stop_each_works q threads p2 d.1 ready in
    (
      p3,
      stop_each_step (log id (q id)) threads id p p1 p2 s
            (ap (λ o. join (turns o) id p1) e ∙ ap (λ n. join n id p1) (plus_one _) ∙ j)
          ∙ ap (behind (log id (q id))) w,
      (f id d.0 ∙ l2, l3),
      λ k other. f k other.1 ∙ (a2 k (==_flip k id other.0)).0 ∙ (a k (==_flip k id other.0)).0,
    )

has_queues_first :
    (id : ℕ) (threads : List ℕ) (p : Pool) (tasks : List Task)
    → p.queues_index_ id ≡ some tasks
    → has_queues (id ∷ threads) p ≡ true
has_queues_first id threads p tasks e = ground (arith, e)

stop_running :
    (threads : List ℕ) (p : Pool)
    → has_queues threads p ≡ true
    → stop threads p ≡ cleared threads (stop_each threads p)
unfolding stop
stop_running threads p h = ground (arith, h)

-- On a pool of one or more different threads, each in its loop with tasks that return in its
-- queue, stop returns: every thread has run the tasks in its queue, in order, and behind them the
-- one that ends it, every thread has ended, and no thread and no queue is left in the pool.
pub stop-ends :
    (q : ℕ → List ℕ) (id : ℕ) (threads : List ℕ) (p : Pool)
    → IsDistinct (id ∷ threads)
    → All (λ k. IsReady p k (q k)) (id ∷ threads)
    → (p' : Pool) × (stop (id ∷ threads) p ≡ (joined (logs q (id ∷ threads)) p', []))
      × All (λ k. p'.phase k ≡ ended) (id ∷ threads)
      × (p'.queues_index_ ≡ (λ k. none))
stop-ends q id threads p d r =
    let (p', w, l, f) = stop_each_works q (id ∷ threads) p d r in
    (
      record p' { queues_index_ = λ k. none },
      stop_running (id ∷ threads) p (has_queues_first id threads p (map work (q id)) r.0.1)
          ∙ ap (cleared (id ∷ threads)) w,
      l,
      refl,
    )
