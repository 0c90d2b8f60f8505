-- ===== src/Scalability/Bulkhead/Isolation.antt =====
-- How many tasks run and wait at once, in any interleaving of submits and of the worker.
use ai_risk_engine.Prelude.{
  ℕ, zero, suc, ◌+◌, ◌≤◌, ◌≡◌, refl, ◌∙◌, ◌⊎◌, inl, inr, false, Bool-cases, List, [], ◌∷◌, ◌++◌,
  length, length-append, arith,
}
use ai_risk_engine.Scalability.Bulkhead.{
  Worker, absent, waiting, holding, running, BulkheadExecutor, new, is_full, ensure_worker, submit,
  work, work_at, cancel, cancel_at, or_waiting, take, enter, leave,
}

module _ {T : Type 0} where
  -- A section of some coroutine.
  pub data Step (x y : BulkheadExecutor T) : Type 0 where
    submits : (task : T) → y ≡ (submit task x).1 → Step x y
    works : y ≡ work x → Step x y
    cancels : y ≡ cancel x → Step x y

  pub data Reach (x : BulkheadExecutor T) : BulkheadExecutor T → Type 0 where
    here : Reach x x
    next : {y z : BulkheadExecutor T} → Reach x y → Step y z → Reach x z

  abbrev running_count : Worker T → ℕ
  running_count (running task) = 1
  running_count _ = 0

  -- The queue is no longer than its size, if it has one.
  abbrev pub IsBounded : ℕ → List T → Type 0
  IsBounded max_queued queue = (length queue ≤ max_queued) ⊎ (max_queued ≡ 0)

  pub record IsSound (max_concurrent max_queued : ℕ) (b : BulkheadExecutor T) : Type 0 where
    pub limits : (b.max_concurrent ≡ max_concurrent) × (b.max_queued ≡ max_queued)
    pub permits : b.permits + b.active ≡ max_concurrent
    pub active : b.active ≡ running_count b.worker
    pub queue : IsBounded max_queued b.queue

  running_count-le : (worker : Worker T) → running_count worker ≤ 1
  running_count-le worker = ground arith

  running-or_waiting :
      (worker : Worker T) → running_count worker ≡ running_count (or_waiting worker)
  running-or_waiting worker = ground arith

  shorter : {q : ℕ} (task : T) (rest : List T) → IsBounded q (task ∷ rest) → IsBounded q rest
  shorter task rest h = ground (arith, h)

  queue-free :
      {q : ℕ} (task : T) (b : BulkheadExecutor T)
      → b.max_queued ≡ q
      → is_full b ≡ false
      → IsBounded q b.queue
      → IsBounded q (b.queue ++ task ∷ [])
  queue-free task b is_q free h = ground (arith, length-append b.queue (task ∷ []))

  module _ (m q : ℕ) where
    submit-IsSound :
        (task : T) (b : BulkheadExecutor T) → IsSound m q b → IsSound m q (submit task b).1
    unfolding submit ensure_worker
    submit-IsSound task b h = elim (Bool-cases (is_full b)) [
      | inl full ↦ rw full (record {
        limits = h.limits;
        permits = h.permits;
        active = h.active ∙ running-or_waiting b.worker;
        queue = h.queue;
      })
      | inr free ↦ rw free (record {
        limits = h.limits;
        permits = h.permits;
        active = h.active ∙ running-or_waiting b.worker;
        queue = queue-free task b h.limits.1 free h.queue;
      })
    ]

    take-IsSound :
        (queue : List T) (b : BulkheadExecutor T)
        → b.queue ≡ queue
        → b.worker ≡ waiting
        → IsSound m q b
        → IsSound m q (take queue b)
    take-IsSound [] b is_queue is_waiting h = h
    take-IsSound (task ∷ rest) b is_queue is_waiting h = record {
      limits = h.limits;
      permits = h.permits;
      active = rw is_waiting at h.active;
      queue = shorter task rest (rw is_queue at h.queue);
    }

    enter-IsSound :
        (permits : ℕ) (task : T) (b : BulkheadExecutor T)
        → b.permits ≡ permits
        → b.worker ≡ holding task
        → IsSound m q b
        → IsSound m q (enter permits task b)
    enter-IsSound zero task b is_permits is_holding h = h
    enter-IsSound (suc left) task b is_permits is_holding h = record {
      limits = h.limits;
      permits = omega (arith, is_permits, h.permits);
      active = omega (arith, rw is_holding at h.active);
      queue = h.queue;
    }

    leave-IsSound :
        (worker : Worker T) (settled : List T) (task : T) (b : BulkheadExecutor T)
        → b.worker ≡ running task
        → running_count worker ≡ 0
        → IsSound m q b
        → IsSound m q (record (leave b) { worker = worker; settled = settled })
    leave-IsSound worker settled task b is_running none_runs h =
        let one = rw is_running at h.active in
        record {
          limits = h.limits;
          permits = omega (arith, one, h.permits);
          active = omega (arith, one, none_runs);
          queue = h.queue;
        }

    work_at-IsSound :
        (worker : Worker T) (b : BulkheadExecutor T)
        → b.worker ≡ worker
        → IsSound m q b
        → IsSound m q (work_at worker b)
    work_at-IsSound absent b e h = h
    work_at-IsSound (waiting) b e h = take-IsSound b.queue b refl e h
    work_at-IsSound (holding task) b e h = enter-IsSound b.permits task b refl e h
    work_at-IsSound (running task) b e h = leave-IsSound waiting _ task b e refl h

    pub work-IsSound : (b : BulkheadExecutor T) → IsSound m q b → IsSound m q (work b)
    unfolding work
    work-IsSound b h = work_at-IsSound b.worker b refl h

    cancel_at-IsSound :
        (worker : Worker T) (b : BulkheadExecutor T)
        → b.worker ≡ worker
        → IsSound m q b
        → IsSound m q (cancel_at worker b)
    cancel_at-IsSound absent b e h = h
    cancel_at-IsSound (waiting) b e h = h
    cancel_at-IsSound (holding task) b e h = h
    cancel_at-IsSound (running task) b e h = leave-IsSound absent b.settled task b e refl h

    cancel-IsSound : (b : BulkheadExecutor T) → IsSound m q b → IsSound m q (cancel b)
    unfolding cancel
    cancel-IsSound b h = cancel_at-IsSound b.worker b refl h

    Step-IsSound : {x y : BulkheadExecutor T} → Step x y → IsSound m q x → IsSound m q y
    Step-IsSound {x} (submits task e) h = rw e (submit-IsSound task x h)
    Step-IsSound {x} (works e) h = rw e (work-IsSound x h)
    Step-IsSound {x} (cancels e) h = rw e (cancel-IsSound x h)

    new-IsSound : IsSound m q (new m q)
    new-IsSound = record {
      limits = (refl, refl);
      permits = omega arith;
      active = refl;
      queue = inl (omega arith);
    }

    pub Reach-IsSound : {b : BulkheadExecutor T} → Reach (new m q) b → IsSound m q b
    Reach-IsSound here = new-IsSound
    Reach-IsSound (next r step) = Step-IsSound step (Reach-IsSound r)

    -- At every moment of an executor made for `m` concurrent and `q` queued tasks, for any submits,
    -- cancellations and sections of the worker in any order: at most one task runs, however large `m`
    -- is, and none if `m` is 0; the free permits and the running tasks make up `m`; and the queue
    -- holds at most `q` tasks, unless `q` is 0, which asyncio takes for no limit.
    pub one_at_a_time :
        {b : BulkheadExecutor T}
        → Reach (new m q) b
        → (b.active ≤ 1) × (b.active ≤ m) × (b.permits + b.active ≡ m) × IsBounded q b.queue
    one_at_a_time r =
        let h = Reach-IsSound r in
        (omega (arith, h.active, running_count-le _), omega (arith, h.permits), h.permits, h.queue)
