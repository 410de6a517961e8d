-- ===== src/Services/ThreadPool.antt =====
-- `threadpool` of src/threadpool.h with the `synchronised_queue` of src/synchronised_queue.h: a queue
-- of tasks for each thread, and the loop in which a thread takes and runs them. Threads and tasks are
-- numbers. A history is any interleaving of the threads' steps with calls of `schedule`; a thread with
-- an empty queue has no step, as `dequeue` waits.
pub mod Order
pub mod Stop
mod Tests
use snode.Prelude.{
  ℕ, Bool, true, false, List, [], ◌∷◌, ◌++◌, Option, none, some, ◌≡◌, ◌==◌, if◌then◌else◌, suc,
  zero, not, length, ◌+◌,
}

-- A task that returns, one that throws, one that does not return, or the one with which
-- `stop_thread` ends the thread's loop by an exception.
pub data Task : Type 0 where
  work raises endless : ℕ → Task
  cancel : Task

-- A thread that has not come to its loop, is in it, is in a task that does not return, or has ended.
pub data Phase : Type 0 where
  absent looping busy ended : Phase

-- `queues_index_` as a function, and where each thread is.
pub record Pool : Type 0 where
  pub queues_index_ : ℕ → Option (List Task)
  pub phase : ℕ → Phase

abbrev pub new_pool : Pool
new_pool = record { queues_index_ = λ id. none; phase = λ id. absent }

abbrev pub set {ℓ} : {A : Type ℓ} → ℕ → A → (ℕ → A) → ℕ → A
set id a f k = if id == k then a else f k

-- The begin of `start_thread`. `insert` leaves a queue that is there.
unfoldable pub start_thread : ℕ → Pool → Pool
start_thread id p = record {
  queues_index_ = elim (p.queues_index_ id) [
    | none ↦ set id (some []) p.queues_index_
    | some q ↦ p.queues_index_
  ];
  phase = set id looping p.phase;
}

-- `none` where the source throws.
unfoldable pub schedule : Task → ℕ → Pool → Option Pool
schedule task id p = elim (p.queues_index_ id) [
  | none ↦ none
  | some q ↦ some (record p { queues_index_ = set id (some (q ++ task ∷ [])) p.queues_index_ })
]

unfoldable pub stop_thread : ℕ → Pool → Option Pool
unfolding schedule
stop_thread id p = schedule cancel id p

-- Where a task leaves its thread.
abbrev pub after_task : Task → Phase
after_task (work n) = looping
after_task (raises n) = absent
after_task (endless n) = busy
after_task cancel = ended

abbrev pub is_looping : Phase → Bool
is_looping looping = true
is_looping _ = false

abbrev pub is_ended : Phase → Bool
is_ended ended = true
is_ended _ = false

-- `catch (...)` throws again, out of the thread's function, which ends the program.
abbrev pub ends_program : Task → Bool
ends_program (raises n) = true
ends_program _ = false

-- One turn of the loop: the task that is taken and run. `none` where the thread waits, is not in its
-- loop, or ends the program, which leaves no state.
unfoldable pub run_task : ℕ → Pool → Option (Task × Pool)
run_task id p =
    if is_looping (p.phase id)
    then elim (p.queues_index_ id) [
      | none ↦ none
      | some [] ↦ none
      | some (task ∷ q) ↦
          if ends_program task
          then none
          else some (
            task,
            record {
              queues_index_ = set id (some q) p.queues_index_;
              phase = set id (after_task task) p.phase;
            },
          )
    ]
    else none

-- The tasks scheduled and the tasks taken, each with its thread, in the order in which it happened.
pub data History : List (ℕ × Task) → List (ℕ × Task) → Pool → Type 0 where
  begun : History [] [] new_pool
  started :
      {sent done : List (ℕ × Task)} {p : Pool}
      → History sent done p
      → (id : ℕ) → History sent done (start_thread id p)
  scheduled :
      {sent done : List (ℕ × Task)} {p p' : Pool}
      → History sent done p
      → (task : Task) (id : ℕ) → schedule task id p ≡ some p'
      → History (sent ++ (id, task) ∷ []) done p'
  ran :
      {sent done : List (ℕ × Task)} {p p' : Pool} {task : Task}
      → History sent done p
      → (id : ℕ) → run_task id p ≡ some (task, p')
      → History sent (done ++ (id, task) ∷ []) p'

-- How a wait for threads ends: with the tasks that were run, by an exception, or not at all, where a
-- thread waits for a task, stays in one, or ends the program.
pub data Waited : Type 0 where
  joined : List (ℕ × Task) → Pool → Waited
  fails hangs : Waited

abbrev pub behind : List (ℕ × Task) → Waited → Waited
behind ts (joined us p) = joined (ts ++ us) p
behind ts fails = fails
behind ts hangs = hangs

-- `thread::join`: the thread takes its turns until its loop has ended. One turn takes one task, so
-- that the length of its queue bounds them.
unfoldable pub join : ℕ → ℕ → Pool → Waited
unfolding run_task
join zero id p = hangs
join (suc fuel) id p = if is_ended (p.phase id) then joined [] p else elim (run_task id p) [
  | none ↦ hangs
  | some (task, p') ↦ behind ((id, task) ∷ []) (join fuel id p')
]

abbrev pub turns : Option (List Task) → ℕ
turns none = 1
turns (some q) = length q + 1

-- The loop of `stop`. Each thread is ended and waited for; the turns that it took while others were
-- waited for are among those of its own `join`, as the threads have no queue in common.
unfoldable pub stop_each : List ℕ → Pool → Waited
unfolding stop_thread join
stop_each [] p = joined [] p
stop_each (id ∷ threads) p = elim (stop_thread id p) [
  | none ↦ fails
  | some p' ↦ elim (join (turns (p'.queues_index_ id)) id p') [
    | fails ↦ fails
    | hangs ↦ hangs
    | joined ts p'' ↦ behind ts (stop_each threads p'')
  ]
]

abbrev pub has_queues : List ℕ → Pool → Bool
has_queues [] p = false
has_queues (id ∷ threads) p =
    let rest = has_queues threads p in elim (p.queues_index_ id) [ none ↦ rest | some q ↦ true ]

abbrev pub cleared : List ℕ → Waited → Waited × List ℕ
cleared threads (joined ts p) = (joined ts (record p { queues_index_ = λ id. none }), [])
cleared threads fails = (fails, threads)
cleared threads hangs = (hangs, threads)

-- `stop`, with `threads_` before and after. Only threads of the pool have a queue.
unfoldable pub stop : List ℕ → Pool → Waited × List ℕ
unfolding stop_each
stop threads_ p =
    if not (has_queues threads_ p)
    then (joined [] p, threads_)
    else cleared threads_ (stop_each threads_ p)
