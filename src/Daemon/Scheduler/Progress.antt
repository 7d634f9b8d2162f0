-- ===== src/Daemon/Scheduler/Progress.antt =====
-- The scheduler is work-conserving: between two steps no lane waits that could run, but for a lane
-- with the empty key.
use surfwright.Base.{
  ℕ, String, false, ◌≡◌, refl, inl, inr, arith, leb, lookup, if◌then◌else◌, Bool-cases,
  Option-cases, ap, ◌∙◌, AllBound-insert, lookup-insert, eq_iff,
}
use surfwright.Daemon.Scheduler.{
  ScheduledTask, Scheduler, Limits, is_runnable, empty_lane, ensure_lane, compact_lane, schedule,
  push_task, enqueue, admit, has_task, expire, settle, create,
}
use surfwright.Daemon.Scheduler.Invariant.{compact_frame}
use surfwright.Daemon.Scheduler.Operations.{splice_frame, deactivate_frame}
use surfwright.Daemon.Scheduler.Steps.{Step, arrive, fire, finish, Reach, start, next}
use surfwright.Daemon.Scheduler.Rounds.{Quiet, schedule-Quiet, scheduling-schedule}

abbrev pub Calm : Scheduler → Type 0
Calm s = (s.scheduling ≡ false) × Quiet s

schedule-Calm : (s : Scheduler) → s.scheduling ≡ false → Calm (schedule s)
schedule-Calm s free = (scheduling-schedule s free, schedule-Quiet s free)

compact_lane-scheduling :
    (k : String) (s : Scheduler) → (compact_lane k s).scheduling ≡ s.scheduling
compact_lane-scheduling k s = ap (λ r. r.scheduling) (compact_frame k s)

push_task-scheduling : (k : String) (s : Scheduler) → (push_task k s).scheduling ≡ s.scheduling
unfolding push_task
push_task-scheduling k s = ground arith

ensure_lane-Calm : (k : String) (s : Scheduler) → Calm s → Calm (ensure_lane k s)
unfolding ensure_lane
ensure_lane-Calm k s calm = elim (Option-cases (lookup k s.lanes)) [
  | inr (lane, here) ↦ rw (here, ensure_lane) calm
  | inl gone ↦
      rw (gone, ensure_lane)
        (
          calm.0,
          elim calm.1 [
            | inl full ↦ inl full
            | inr (inl none_left) ↦ inr (
                inl (
                  AllBound-insert (λ j lane. is_runnable lane ≡ false) k empty_lane s.lanes refl
                    none_left))
            | inr (inr waits) ↦
                inr (inr (ground (arith, lookup-insert k "" empty_lane s.lanes, eq_iff k "")))
          ],
        )
]

admit-Calm : (k : String) (n : ℕ) (s : Scheduler) → Calm s → Calm (admit k n s).0
unfolding admit
admit-Calm k n s calm = elim (Bool-cases (leb s.lane_queue_depth n)) [
  | inl full ↦ rw (full, if◌then◌else◌) calm
  | inr room ↦ rw (room, if◌then◌else◌) (schedule-Calm _ (push_task-scheduling k s ∙ calm.0))
]

expire-Calm : (t : ScheduledTask) (s : Scheduler) → Calm s → Calm (expire t s).0
unfolding expire
expire-Calm t s calm = elim (Bool-cases (has_task t.id s.started)) [
  | inl started ↦ rw (started, if◌then◌else◌) calm
  | inr waiting ↦
      rw (waiting, if◌then◌else◌)
        (schedule-Calm _ (
          compact_lane-scheduling t.lane_key _
          ∙ ap (λ d. d.scheduling) (splice_frame t s)
          ∙ calm.0))
]

Step-Calm : {s t : Scheduler} → Calm s → Step s t → Calm t
unfolding enqueue settle
Step-Calm {s} calm (arrive key) = admit-Calm key _ _ (ensure_lane-Calm key s calm)
Step-Calm {s} calm (fire t timer) = expire-Calm t s calm
Step-Calm {s} calm (finish t running) = schedule-Calm _ (
    compact_lane-scheduling t.lane_key _
    ∙ ap (λ d. d.scheduling) (deactivate_frame t.lane_key s)
    ∙ calm.0)

create-Calm : (limits : Limits) → Calm (create limits)
unfolding create lookup
create-Calm limits = (refl, inr (inl (λ k lane e. cc)))

-- After any history, either as many lanes run as the cap allows, or no inactive lane has a task
-- waiting, or the lane with the empty key is inactive and has one waiting; and `schedule` is not left
-- marked as running.
pub Reach-Calm : (limits : Limits) (s : Scheduler) → Reach limits s → Calm s
Reach-Calm limits s start = create-Calm limits
Reach-Calm limits s (next {s = r} earlier step) = Step-Calm (Reach-Calm limits r earlier) step
