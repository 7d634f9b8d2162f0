-- ===== src/Daemon/Scheduler/Tests.antt =====
-- Tests of the lane scheduler, and its theorems at concrete inputs.
use surfwright.Base.{
  ℕ, ◌+◌, ◌%◌, true, false, ◌≡◌, refl, none, List, [], ◌∷◌, arith, lookup, insert, erase, length,
  total, All, AllBound, bit, ltb,
}
use surfwright.Daemon.Scheduler.{
  ScheduledTask, Scheduler, Limits, create, enqueue, settle, schedule, schedule_loop, round,
  ensure_lane, push_task, compact_lane, start_task, shift_queue, run_lane, next_runnable_lane_key,
  scan, runnable_at, deactivate, remove_task, admit, sweep, leave,
}
use surfwright.Daemon.Scheduler.Rotation.{Found, next_runnable_lane_key-Found}
use surfwright.Daemon.Scheduler.Rounds.{schedule_loop_done}
use surfwright.Daemon.Scheduler.Invariant.{Inv}
use surfwright.Daemon.Scheduler.Steps.{Reach, start, next, arrive, Reach-Inv}
use surfwright.Daemon.Scheduler.Progress.{Calm, Reach-Calm}
use surfwright.Daemon.Scheduler.Ledger.{occurrences, queued}
use surfwright.Daemon.Scheduler.Accounting.{task_accounted}
use surfwright.Daemon.Scheduler.Fifo.{InOrder, Behind, lanes_fifo}
use surfwright.Daemon.Scheduler.Admission.{enqueue_saturation}

-- One lane at a time, with room for one task in its queue.
abbrev narrow : Limits
narrow = record { global_active_lanes = 1; lane_queue_depth = 1; queue_wait_ms = 2000 }

abbrev first : Scheduler
first = (enqueue "a" (create narrow)).0

abbrev second : Scheduler
second = (enqueue "b" first).0

after_second : Reach narrow second
after_second = next (next start (arrive "a")) (arrive "b")

abbrev map_ids : List ScheduledTask → List ℕ
map_ids [] = []
map_ids (t ∷ ts) = t.id ∷ map_ids ts

-- The first task runs at once, the second waits, and runs when the first settles.
settles : map_ids (settle (record { id = 0; lane_key = "a" }) second).started ≡ 1 ∷ 0 ∷ []
unfolding create enqueue ensure_lane admit push_task schedule sweep schedule_loop leave round
    next_runnable_lane_key scan runnable_at run_lane shift_queue start_task settle deactivate
    compact_lane remove_task lookup insert erase
settles = refl

-- A task in the lane of the empty key waits, though no lane runs.
empty_key_waits : (enqueue "" (create narrow)).0.started ≡ []
unfolding create enqueue ensure_lane admit push_task schedule sweep schedule_loop leave round
    next_runnable_lane_key scan runnable_at lookup insert
empty_key_waits = refl

Reach-Inv_example : (second.limits ≡ narrow) × Inv second
Reach-Inv_example = Reach-Inv narrow second (omega arith) after_second

Reach-Calm_example : Calm second
Reach-Calm_example = Reach-Calm narrow second after_second

task_accounted_example :
    total (queued 1) second.lanes + occurrences 1 second.started + occurrences 1 second.timed_out
    ≡ bit (ltb 1 second.next_id)
task_accounted_example = task_accounted narrow second (omega arith) after_second 1

lanes_fifo_example :
    InOrder second.started
    × AllBound (λ k lane. All (λ t. Behind k t second.started) lane.queue) second.lanes
lanes_fifo_example = lanes_fifo narrow second (omega arith) after_second

abbrev two_lanes : Scheduler
two_lanes = record (create narrow) {
  lanes =
      ("a", record { active = true; queue = [] })
      ∷ ("b", record { active = false; queue = record { id = 1; lane_key = "b" } ∷ [] })
      ∷ [];
}

next_runnable_lane_key-Found_example :
    Found two_lanes.lanes
      (two_lanes.cursor % length two_lanes.lanes)
      (length two_lanes.lanes)
      0
      "b"
      2
unfolding create next_runnable_lane_key scan runnable_at lookup
next_runnable_lane_key-Found_example = next_runnable_lane_key-Found two_lanes "b" 2 refl

schedule_loop_done_example : round (schedule_loop 2 (create narrow)) ≡ none
unfolding create
schedule_loop_done_example = schedule_loop_done 2 (create narrow) (omega arith)

enqueue_saturation_example :
    ((enqueue "a" (create narrow)).1 ≡ none)
    × ((enqueue "a" (create narrow)).0.next_id ≡ (create narrow).next_id + 1)
unfolding create lookup
enqueue_saturation_example = (enqueue_saturation "a" (create narrow) (omega arith)).1 (omega arith)
