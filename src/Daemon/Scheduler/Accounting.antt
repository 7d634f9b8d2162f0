-- ===== src/Daemon/Scheduler/Accounting.antt =====
-- Where tasks are: every accepted task is in one place, and lanes are first in, first out.
use surfwright.Base.{
  ℕ, ◌+◌, ◌<◌, String, true, false, ◌≡◌, ◌⊎◌, inl, inr, some, List, [], ◌∷◌, arith, ltb, lookup,
  if◌then◌else◌, Bool-cases, Option-cases, total, bit, Distinct, insert-Distinct,
}
use surfwright.Daemon.Scheduler.{
  ScheduledTask, Scheduler, Limits, enqueue, has_task, splice_task, expire, abandon, retire,
  deactivate, settle, create, queue_of,
}
use surfwright.Daemon.Scheduler.Invariant.{Inv}
use surfwright.Daemon.Scheduler.Operations.{find_task}
use surfwright.Daemon.Scheduler.Ledger.{
  occurrences, queued, Accounts, schedule-Accounts, admit-Accounts, ensure_lane-Accounts,
  compact_lane-Accounts, compact_lane-Ledger, deactivate-Accounts, splice_task-Accounts,
}
use surfwright.Daemon.Scheduler.Steps.{Step, arrive, fire, finish, Reach, start, next, Reach-Inv}

has_task-find_task :
    (t : ScheduledTask) (ts : List ScheduledTask)
    → find_task t.id ts ≡ some t
    → has_task t.id ts ≡ true
unfolding has_task find_task
has_task-find_task t [] e = cc
has_task-find_task t (u ∷ ts) e = ground (arith, has_task-find_task t ts)

pub splice_task-Distinct :
    (t : ScheduledTask) (s : Scheduler) → Distinct s.lanes → Distinct (splice_task t s).lanes
unfolding splice_task
splice_task-Distinct t s d = elim (Option-cases (lookup t.lane_key s.lanes)) [
  | inl gone ↦ rw (gone, splice_task) d
  | inr (w, here) ↦ rw (here, splice_task) (insert-Distinct t.lane_key _ s.lanes d)
]

pub deactivate-Distinct :
    (k : String) (s : Scheduler) → Distinct s.lanes → Distinct (deactivate k s).lanes
unfolding deactivate
deactivate-Distinct k s d = elim (Option-cases (lookup k s.lanes)) [
  | inl gone ↦ rw (gone, deactivate) d
  | inr (w, here) ↦ rw (here, deactivate) (insert-Distinct k _ s.lanes d)
]

pub abandon-Accounts :
    (t : ScheduledTask) (s : Scheduler)
    → (find_task t.id (queue_of (lookup t.lane_key s.lanes)) ≡ some t)
      ⊎ (find_task t.id s.started ≡ some t)
    → has_task t.id s.started ≡ false
    → Distinct s.lanes
    → Accounts s
    → Accounts (abandon t s)
abandon-Accounts t s (inl found) waiting d ledger =
    compact_lane-Ledger t.lane_key _ (t ∷ s.timed_out) (splice_task-Distinct t s d)
      (splice_task-Accounts t s found ledger)
abandon-Accounts t s (inr old) waiting d ledger =
    absurd (let no : ⊥ = ground (arith, has_task-find_task t s.started old) in no)

pub retire-Accounts :
    (t : ScheduledTask) (s : Scheduler) → Distinct s.lanes → Accounts s → Accounts (retire t s)
retire-Accounts t s d ledger =
    compact_lane-Accounts t.lane_key _ (deactivate-Distinct t.lane_key s d)
      (deactivate-Accounts t.lane_key s ledger)

expire-Accounts :
    (t : ScheduledTask) (s : Scheduler)
    → (find_task t.id (queue_of (lookup t.lane_key s.lanes)) ≡ some t)
      ⊎ (find_task t.id s.started ≡ some t)
    → Distinct s.lanes
    → Accounts s
    → Accounts (expire t s).0
unfolding expire
expire-Accounts t s timer d ledger = elim (Bool-cases (has_task t.id s.started)) [
  | inl started ↦ rw (started, if◌then◌else◌) ledger
  | inr waiting ↦
      rw (waiting, if◌then◌else◌)
        (schedule-Accounts _ (abandon-Accounts t s timer waiting d ledger))
]

Step-Accounts : {s t : Scheduler} → Inv s → Accounts s → Step s t → Accounts t
unfolding enqueue settle
Step-Accounts {s} core ledger (arrive key) =
    admit-Accounts key _ _ (ensure_lane-Accounts key s ledger)
Step-Accounts {s} core ledger (fire t timer) = expire-Accounts t s timer core.distinct ledger
Step-Accounts {s} core ledger (finish t running) =
    schedule-Accounts _ (retire-Accounts t s core.distinct ledger)

create-Accounts : (limits : Limits) → Accounts (create limits)
unfolding create total lookup
create-Accounts limits = record { accounted = λ i. ground arith; ordered = λ k v e. cc }

pub Reach-Accounts :
    (limits : Limits) (s : Scheduler) → 0 < limits.lane_queue_depth → Reach limits s → Accounts s
Reach-Accounts limits s pos start = create-Accounts limits
Reach-Accounts limits s pos (next {s = r} earlier step) =
    Step-Accounts (Reach-Inv limits r pos earlier).1 (Reach-Accounts limits r pos earlier) step

-- After any history, a task that was accepted is queued, started or timed out, in one of these
-- places and once; an identity that was not given out is in none.
pub task_accounted :
    (limits : Limits) (s : Scheduler)
    → 0 < limits.lane_queue_depth
    → Reach limits s
    → (i : ℕ)
    → total (queued i) s.lanes + occurrences i s.started + occurrences i s.timed_out
      ≡ bit (ltb i s.next_id)
task_accounted limits s pos r = (Reach-Accounts limits s pos r).accounted
