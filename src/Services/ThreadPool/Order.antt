-- ===== src/Services/ThreadPool/Order.antt =====
-- Every thread takes its tasks in the order in which they were scheduled to it.
use snode.Prelude.{
  ℕ, ◌≡◌, refl, sym, ap, ◌∙◌, true, List, [], ◌∷◌, ◌++◌, Option, none, some, ◌==◌, if◌then◌else◌,
  Bool-cases, inl, inr, append_assoc, append-nil, arith, ==_iff,
}
use snode.Services.ThreadPool.{
  Task, Pool, start_thread, schedule, run_task, History, begun, started, scheduled, ran,
}

-- The tasks of one thread.
abbrev pub of : ℕ → List (ℕ × Task) → List Task
of id [] = []
of id ((k, t) ∷ l) = let rest = of id l in if k == id then t ∷ rest else rest

of-append : (id : ℕ) (l m : List (ℕ × Task)) → of id (l ++ m) ≡ of id l ++ of id m
of-append id [] m = refl
of-append id ((k, t) ∷ l) m = elim (Bool-cases (k == id)) [
  | inl same ↦ rw same (ap (◌∷◌ t) (of-append id l m))
  | inr other ↦ rw other (of-append id l m)
]

abbrev pub queued : Option (List Task) → List Task
queued none = []
queued (some q) = q

abbrev Kept : List (ℕ × Task) → List (ℕ × Task) → Pool → ℕ → Type 0
Kept sent done p id = of id sent ≡ of id done ++ queued (p.queues_index_ id)

module _ (p : Pool) (id k : ℕ) where
  same_queue : (id == k) ≡ true → p.queues_index_ id ≡ p.queues_index_ k
  same_queue h = ap p.queues_index_ ((==_iff id k).0 h)

  start-queued : queued ((start_thread id p).queues_index_ k) ≡ queued (p.queues_index_ k)
  unfolding start_thread
  start-queued = elim (Bool-cases (id == k)) [
    | inl same ↦ let e = same_queue same in ground (arith, e)
    | inr other ↦ ground arith
  ]

  schedule-queued :
      {p' : Pool} (task : Task)
      → schedule task id p ≡ some p'
      → queued (p'.queues_index_ k) ≡ queued (p.queues_index_ k) ++ of k ((id, task) ∷ [])
  unfolding schedule
  schedule-queued {p'} task e = elim (Bool-cases (id == k)) [
    | inl same ↦ let q = same_queue same in ground (arith, q, e)
    | inr other ↦ let n = append-nil (queued (p.queues_index_ k)) in ground (arith, e, n)
  ]

  run_task-queued :
      {p' : Pool} {task : Task}
      → run_task id p ≡ some (task, p')
      → queued (p.queues_index_ k) ≡ of k ((id, task) ∷ []) ++ queued (p'.queues_index_ k)
  unfolding run_task
  run_task-queued {p'} {task} e = elim (Bool-cases (id == k)) [
    | inl same ↦ let q = same_queue same in ground (arith, q, e)
    | inr other ↦ ground (arith, e)
  ]

-- Over any interleaving of calls of schedule that do not throw with the steps of the threads, the
-- tasks that were scheduled to a thread are those that it took, in order, and behind them those in
-- its queue.
pub History-in_order :
    {sent done : List (ℕ × Task)} {p : Pool}
    → History sent done p
    → (k : ℕ) → of k sent ≡ of k done ++ queued (p.queues_index_ k)
History-in_order begun k = refl
History-in_order (started {done} {p} run id) k =
    History-in_order run k ∙ ap (◌++◌ (of k done)) (sym (start-queued p id k))
History-in_order (scheduled {sent} {done} {p} run task id e) k =
    of-append k sent ((id, task) ∷ [])
    ∙ ap (λ l. l ++ of k ((id, task) ∷ [])) (History-in_order run k)
    ∙ append_assoc (of k done) (queued (p.queues_index_ k)) (of k ((id, task) ∷ []))
    ∙ ap (◌++◌ (of k done)) (sym (schedule-queued p id k task e))
History-in_order (ran {done} {p} {p'} {task} run id e) k =
    History-in_order run k
    ∙ ap (◌++◌ (of k done)) (run_task-queued p id k e)
    ∙ sym (append_assoc (of k done) (of k ((id, task) ∷ [])) (queued (p'.queues_index_ k)))
    ∙ ap (λ l. l ++ queued (p'.queues_index_ k)) (sym (of-append k done ((id, task) ∷ [])))
