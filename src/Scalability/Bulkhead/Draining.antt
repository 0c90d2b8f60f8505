-- ===== src/Scalability/Bulkhead/Draining.antt =====
-- The worker comes to every task in the queue.
use mathlib.Core.List.{append-nil, append_assoc}
use ai_risk_engine.Prelude.{ℕ, zero, suc, ◌≡◌, ◌≢◌, refl, sym, ap, ◌∙◌, List, [], ◌∷◌, ◌++◌, arith}
use ai_risk_engine.Scalability.Bulkhead.{
  Worker, absent, waiting, holding, running, BulkheadExecutor, work,
}
use ai_risk_engine.Scalability.Bulkhead.Isolation.{IsSound}

module _ {T : Type 0} where
  -- So many sections of the worker.
  unfoldable pub work_for : ℕ → BulkheadExecutor T → BulkheadExecutor T
  work_for zero b = b
  work_for (suc n) b = work_for n (work b)

  -- Three sections for each task in the queue.
  abbrev pub sections : List T → ℕ
  sections [] = 0
  sections (task ∷ tasks) = suc (suc (suc (sections tasks)))

  -- The sections up to an empty queue, and the task that the worker is at.
  abbrev pub remaining : Worker T → List T → ℕ
  remaining (holding task) tasks = suc (suc (sections tasks))
  remaining (running task) tasks = suc (sections tasks)
  remaining _ tasks = sections tasks

  abbrev pub current : Worker T → List T
  current (holding task) = task ∷ []
  current (running task) = task ∷ []
  current _ = []

  -- The worker at the queue, with all permits free.
  abbrev pub idle : BulkheadExecutor T → ℕ → List T → List T → BulkheadExecutor T
  idle b permits queue settled = record b {
    permits = permits;
    active = 0;
    queue = queue;
    worker = waiting;
    settled = settled;
  }

  idle_drains :
      (b : BulkheadExecutor T) (left : ℕ) (queue settled : List T)
      → work_for (sections queue) (idle b (suc left) queue settled)
        ≡ idle b (suc left) [] (settled ++ queue)
  unfolding work_for work
  idle_drains b left [] settled = ap (idle b (suc left) []) (sym (append-nil settled))
  idle_drains b left (task ∷ tasks) settled =
      idle_drains b left tasks (settled ++ task ∷ [])
      ∙ ap (idle b (suc left) []) (append_assoc settled (task ∷ []) tasks)

  -- The executor with these permits, count and worker.
  abbrev at_worker : BulkheadExecutor T → ℕ → ℕ → Worker T → BulkheadExecutor T
  at_worker b permits active worker = record b {
    permits = permits;
    active = active;
    worker = worker;
  }

  at_worker_eq :
      (b : BulkheadExecutor T) (permits active : ℕ) (worker : Worker T)
      → b.permits ≡ permits
      → b.active ≡ active
      → b.worker ≡ worker
      → b ≡ at_worker b permits active worker
  at_worker_eq b permits active worker h k e = λ i. at_worker b (h i) (k i) (e i)

  -- What the worker leaves when it is done with its task and the queue.
  abbrev pub drained : BulkheadExecutor T → Worker T → ℕ → BulkheadExecutor T
  drained b worker m = idle b m [] (b.settled ++ (current worker ++ b.queue))

  module _ (b : BulkheadExecutor T) (left q : ℕ) (h : IsSound (suc left) q b) where
    from_waiting : b.worker ≡ waiting → work_for (sections b.queue) b ≡ drained b waiting (suc left)
    from_waiting e =
        ap (work_for (sections b.queue)) (
          at_worker_eq b (suc left) 0 waiting (omega (arith, h.permits, rw e at h.active))
            (rw e at h.active) e)
        ∙ idle_drains b left b.queue b.settled

    from_holding :
        (task : T)
        → b.worker ≡ holding task
        → work_for (suc (suc (sections b.queue))) b ≡ drained b (holding task) (suc left)
    unfolding work_for work
    from_holding task e =
        ap (work_for (suc (suc (sections b.queue)))) (
          at_worker_eq b (suc left) 0 (holding task) (omega (arith, h.permits, rw e at h.active))
            (rw e at h.active) e)
        ∙ idle_drains b left b.queue (b.settled ++ task ∷ [])
        ∙ ap (idle b (suc left) []) (append_assoc b.settled (task ∷ []) b.queue)

    from_running :
        (task : T)
        → b.worker ≡ running task
        → work_for (suc (sections b.queue)) b ≡ drained b (running task) (suc left)
    unfolding work_for work
    from_running task e =
        ap (work_for (suc (sections b.queue))) (
          at_worker_eq b left 1 (running task) (omega (arith, h.permits, rw e at h.active))
            (rw e at h.active) e)
        ∙ idle_drains b left b.queue (b.settled ++ task ∷ [])
        ∙ ap (idle b (suc left) []) (append_assoc b.settled (task ∷ []) b.queue)

    -- In an executor with at least one permit and a worker, every task that was accepted is settled:
    -- after as many sections of the worker as the queue asks for, if no task is cancelled, the queue is
    -- empty, no task runs, all permits are free, and the futures of the task that the worker was at and
    -- of those in the queue are set, in the order in which they were submitted.
    pub work_for-drains :
        b.worker ≢ absent → work_for (remaining b.worker b.queue) b ≡ drained b b.worker (suc left)
    work_for-drains there = by_worker b.worker refl
      where
        by_worker :
            (worker : Worker T)
            → b.worker ≡ worker
            → work_for (remaining b.worker b.queue) b ≡ drained b b.worker (suc left)
        by_worker worker e =
            ap (λ x. work_for (remaining x b.queue) b) e
            ∙ at_case worker e
            ∙ sym (ap (λ x. drained b x (suc left)) e)
          where
            at_case :
                (worker : Worker T)
                → b.worker ≡ worker
                → work_for (remaining worker b.queue) b ≡ drained b worker (suc left)
            at_case absent e = absurd (there e)
            at_case (waiting) e = from_waiting e
            at_case (holding task) e = from_holding task e
            at_case (running task) e = from_running task e
