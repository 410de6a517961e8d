-- ===== src/Services/ThreadPool/Tests.antt =====
-- Two threads with tasks in between each other.
use snode.Prelude.{ℕ, List, All, ◌==◌, if◌then◌else◌, ◌≡◌, refl, [], ◌∷◌, ◌++◌, none, some}
use snode.Services.ThreadPool.{
  work, cancel, Pool, new_pool, start_thread, schedule, stop_thread, run_task, History, begun,
  started, scheduled, ran, set, stop, joined, fails, hangs, looping, ended, raises,
}
use snode.Services.ThreadPool.Order.{of, queued, History-in_order}
use snode.Services.ThreadPool.Stop.{IsReady, logs, stop-ends}

-- Before the thread has come as far as its queue, `schedule` throws.
schedule_early : schedule (work 5) 1 new_pool ≡ none
unfolding schedule
schedule_early = refl

abbrev first : Pool
first = start_thread 2 (start_thread 1 new_pool)

abbrev second : Pool
second = record first { queues_index_ = set 1 (some (work 5 ∷ [])) first.queues_index_ }

abbrev third : Pool
third = record second { queues_index_ = set 2 (some (work 6 ∷ [])) second.queues_index_ }

abbrev fourth : Pool
fourth = record third { queues_index_ = set 1 (some (work 5 ∷ work 7 ∷ [])) third.queues_index_ }

stop_second :
    stop_thread 2 second
    ≡ some (record second { queues_index_ = set 2 (some (cancel ∷ [])) second.queues_index_ })
unfolding stop_thread start_thread
stop_second = refl

abbrev fifth : Pool
fifth = record {
  queues_index_ = set 1 (some (work 7 ∷ [])) fourth.queues_index_;
  phase = set 1 looping fourth.phase;
}

three_tasks : History ((1, work 5) ∷ (2, work 6) ∷ (1, work 7) ∷ []) ((1, work 5) ∷ []) fifth
unfolding start_thread schedule run_task
three_tasks =
    ran
      (scheduled
        (scheduled (scheduled (started (started begun 1) 2) (work 5) 1 refl) (work 6) 2 refl)
        (work 7) 1 refl)
      1 refl

History-in_order_example :
    of 1 ((1, work 5) ∷ (2, work 6) ∷ (1, work 7) ∷ [])
    ≡ of 1 ((1, work 5) ∷ []) ++ queued (fifth.queues_index_ 1)
History-in_order_example = History-in_order three_tasks 1

-- The work in the queues of `fourth`.
abbrev waiting : ℕ → List ℕ
waiting id = if id == 1 then 5 ∷ 7 ∷ [] else if id == 2 then 6 ∷ [] else []

fourth-IsReady : All (λ id. IsReady fourth id (waiting id)) (1 ∷ 2 ∷ [])
unfolding start_thread
fourth-IsReady = ((refl, refl), ((refl, refl), tt))

-- A thread that has not come as far as its queue.
stop_early : stop (1 ∷ 3 ∷ []) fourth ≡ (fails, 1 ∷ 3 ∷ [])
unfolding stop start_thread
stop_early = refl

-- No thread has: nothing is ended.
stop_nothing : stop (1 ∷ 2 ∷ []) new_pool ≡ (joined [] new_pool, 1 ∷ 2 ∷ [])
unfolding stop
stop_nothing = refl

stop-ends_example :
    (p' : Pool) × (stop (1 ∷ 2 ∷ []) fourth ≡ (joined (logs waiting (1 ∷ 2 ∷ [])) p', []))
    × All (λ k. p'.phase k ≡ ended) (1 ∷ 2 ∷ [])
    × (p'.queues_index_ ≡ (λ k. none))
stop-ends_example = stop-ends waiting 1 (2 ∷ []) fourth ((refl, tt), (tt, tt)) fourth-IsReady

-- A task that throws ends the program, and one that does not return keeps `stop` waiting.
not_over :
    (stop
      (1 ∷ [])
      (record first { queues_index_ = set 1 (some (raises 5 ∷ [])) first.queues_index_ })).0
    ≡ hangs
unfolding stop start_thread
not_over = refl
