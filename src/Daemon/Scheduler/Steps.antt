-- ===== src/Daemon/Scheduler/Steps.antt =====
-- The scheduler under its callers, timers and promises, as a step relation; every step keeps the
-- invariant.
use surfwright.Base.{◌<◌, String, ◌≡◌, refl, ◌⊎◌, some, arith, lookup, subst, sym, ap, ◌∙◌, total}
use surfwright.Daemon.Scheduler.{
  ScheduledTask, Scheduler, Limits, queue_of, enqueue, expire, settle, create,
}
use surfwright.Daemon.Scheduler.Invariant.{Inv}
use surfwright.Daemon.Scheduler.Operations.{
  find_task, enqueue-Inv, expire-Inv, schedule-Inv, retire-Inv, admit-limits, expire-limits,
  schedule-limits, compact_lane-limits, ensure_frame, deactivate_frame,
}

-- A caller enqueues, the timer of a created task fires, or a running task's promise settles.
pub data Step (s : Scheduler) : Scheduler → Type 0 where
  arrive : (key : String) → Step s (enqueue key s).0
  fire :
      (t : ScheduledTask)
      → (find_task t.id (queue_of (lookup t.lane_key s.lanes)) ≡ some t)
        ⊎ (find_task t.id s.started ≡ some t)
      → Step s (expire t s).0
  finish : (t : ScheduledTask) → find_task t.id s.in_flight ≡ some t → Step s (settle t s)

pub data Reach (limits : Limits) : Scheduler → Type 0 where
  start : Reach limits (create limits)
  next : {s t : Scheduler} → Reach limits s → Step s t → Reach limits t

-- Whatever arrives, fires or settles next, the invariant is kept: the count is that of the active
-- lanes and within the cap, a lane runs one task at most, no queue is longer than its cap and holds
-- another lane's task, no key stands twice, and a lane that has nothing to do is not kept.
pub Step-Inv : {s t : Scheduler} → 0 < s.lane_queue_depth → Inv s → Step s t → Inv t
unfolding settle
Step-Inv {s} pos core (arrive key) = enqueue-Inv key s pos core
Step-Inv {s} pos core (fire t timer) = expire-Inv t s core
Step-Inv {s} pos core (finish t running) = schedule-Inv _ (retire-Inv t s core running)

-- No step changes the configuration.
pub Step-limits : {s t : Scheduler} → Step s t → t.limits ≡ s.limits
unfolding enqueue settle
Step-limits {s} (arrive key) = admit-limits key _ _ ∙ ap (λ d. d.limits) (ensure_frame key s)
Step-limits {s} (fire t timer) = expire-limits t s
Step-limits {s} (finish t running) =
    schedule-limits _
    ∙ compact_lane-limits t.lane_key _
    ∙ ap (λ d. d.limits) (deactivate_frame t.lane_key s)

create-Inv : (limits : Limits) → Inv (create limits)
unfolding create lookup total
create-Inv limits = record {
  counted = refl;
  capped = omega arith;
  distinct = tt;
  lanes_ok = λ k v e. cc;
  busy = λ k v e. cc;
  serial = λ k. refl;
}

limits-create : (limits : Limits) → (create limits).limits ≡ limits
unfolding create
limits-create limits = refl

-- After any history of calls, timeouts and settling tasks, with a queue cap above 0: the caps are
-- those that the scheduler was created with, the number of active lanes is that counted and at most
-- the cap, a lane is active exactly where one task of it runs, and none has two, every queue is
-- within its cap and has tasks of its own lane only, and no idle lane is kept.
pub Reach-Inv :
    (limits : Limits) (s : Scheduler)
    → 0 < limits.lane_queue_depth
    → Reach limits s
    → (s.limits ≡ limits) × Inv s
Reach-Inv limits s pos start = (limits-create limits, create-Inv limits)
Reach-Inv limits s pos (next {s = r} earlier step) =
    let (same, core) = Reach-Inv limits r pos earlier in
    (
      Step-limits step ∙ same,
      Step-Inv (subst (λ l. 0 < l.lane_queue_depth) (sym same) pos) core step,
    )
