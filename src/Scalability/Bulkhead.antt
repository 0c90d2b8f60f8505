-- ===== src/Scalability/Bulkhead.antt =====
-- app/scalability/bulkhead.py. The worker task and the callers interleave at `await`, so each section
-- between two of them is a function: a `submit`, and `work`, the next section of the worker, which
-- takes a task from the queue, or enters it under the semaphore, or finishes it and sets its future.
-- `settled` is the tasks whose future is set, the latest last. The lock around `_active` is only ever
-- taken by the worker.
pub mod Isolation
pub mod Draining
use ai_risk_engine.Errors.{runtime_error}
use ai_risk_engine.Exec.{Result, ok, err}
use ai_risk_engine.Prelude.{
  ℕ, zero, suc, ◌+◌, ◌-◌, Bool, true, false, ◌&&◌, List, [], ◌∷◌, ◌++◌, if◌then◌else◌, ltb, leb,
  length,
}

-- The worker: not there, at `queue.get()`, at the semaphore, or awaiting the task.
pub data Worker (T : Type 0) : Type 0 where
  absent : Worker T
  waiting : Worker T
  holding : T → Worker T
  running : T → Worker T

pub record BulkheadExecutor (T : Type 0) : Type 0 where
  pub max_concurrent : ℕ
  pub max_queued : ℕ
  pub permits : ℕ
  pub active : ℕ
  pub queue : List T
  pub worker : Worker T
  pub settled : List T

-- `BulkheadExecutor.__init__`
abbrev pub new : {T : Type 0} → ℕ → ℕ → BulkheadExecutor T
new max_concurrent max_queued = record {
  max_concurrent = max_concurrent;
  max_queued = max_queued;
  permits = max_concurrent;
  active = 0;
  queue = [];
  worker = absent;
  settled = [];
}

module _ {T : Type 0} where
  abbrev pub or_waiting : Worker T → Worker T
  or_waiting absent = waiting
  or_waiting (waiting) = waiting
  or_waiting (holding t) = holding t
  or_waiting (running t) = running t

  -- `_ensure_worker`
  unfoldable pub ensure_worker : BulkheadExecutor T → BulkheadExecutor T
  ensure_worker b = record b { worker = or_waiting b.worker }

  -- `asyncio.Queue.full()`: a queue with no positive size is never full.
  abbrev pub is_full : BulkheadExecutor T → Bool
  is_full b = ltb 0 b.max_queued && leb b.max_queued (length b.queue)

  -- `submit`, up to the `await` of the future
  unfoldable pub submit : T → BulkheadExecutor T → Result (Unit {0}) × BulkheadExecutor T
  unfolding ensure_worker
  submit task b =
      if is_full b
      then (
        err (record { cls = runtime_error; message = "Bulkhead: max concurrent and queue full" }),
        ensure_worker b,
      )
      else (ok tt, record (ensure_worker b) { queue = b.queue ++ task ∷ [] })

  -- `queue.get()`: with nothing in the queue the worker stays where it is.
  abbrev pub take : List T → BulkheadExecutor T → BulkheadExecutor T
  take [] b = b
  take (task ∷ rest) b = record b { queue = rest; worker = holding task }

  -- `async with self._semaphore`, and the count: without a permit the worker stays where it is.
  abbrev pub enter : ℕ → T → BulkheadExecutor T → BulkheadExecutor T
  enter zero task b = b
  enter (suc left) task b = record b {
    permits = left;
    active = b.active + 1;
    worker = running task;
  }

  -- The way out of the task: the count, the semaphore.
  abbrev pub leave : BulkheadExecutor T → BulkheadExecutor T
  leave b = record b { permits = suc b.permits; active = b.active - 1 }

  abbrev pub work_at : Worker T → BulkheadExecutor T → BulkheadExecutor T
  work_at absent b = b
  work_at (waiting) b = take b.queue b
  work_at (holding task) b = enter b.permits task b
  work_at (running task) b = record (leave b) { worker = waiting; settled = b.settled ++ task ∷ [] }

  -- The next section of `_run_worker`; a task that runs returns, or raises an `Exception`.
  unfoldable pub work : BulkheadExecutor T → BulkheadExecutor T
  work b = work_at b.worker b

  abbrev pub cancel_at : Worker T → BulkheadExecutor T → BulkheadExecutor T
  cancel_at (running task) b = record (leave b) { worker = absent }
  cancel_at _ b = b

  -- A task that runs is cancelled: no handler takes a CancelledError, so the worker ends.
  unfoldable pub cancel : BulkheadExecutor T → BulkheadExecutor T
  cancel b = cancel_at b.worker b
