-- ===== src/Daemon/Scheduler.antt =====
-- src/core/daemon/domain/lane-scheduler.ts. One function per closure of `createDaemonLaneScheduler`,
-- from state to state. Lane objects are reached by their key. A promise chain that has not settled
-- is a task in `in_flight`; timers are the callers' to fire. `none` stands for null.
pub mod Rotation
pub mod Rounds
pub mod Invariant
pub mod Operations
pub mod Steps
pub mod Ledger
pub mod Admission
pub mod Accounting
pub mod Fifo
mod Tests
pub mod Progress
use surfwright.Base.{
  ℕ, zero, suc, ◌+◌, ◌-◌, ◌%◌, String, Bool, true, false, not, ◌&&◌, Option, none, some, List, [],
  ◌∷◌, ◌++◌, ltb, leb, ◌==◌, if◌then◌else◌, length, get_elem?, lookup, insert, erase, keys, str_eq,
}

pub data QueueErrorCode : Type 0 where
  queue_timeout queue_saturated : QueueErrorCode

pub record DaemonQueueError : Type 0 where
  pub code : QueueErrorCode
  pub lane_key : String
  pub queue_depth : ℕ
  pub lane_queue_depth : ℕ
  pub queue_wait_ms : Option ℕ
  pub retry_after_ms : ℕ

-- `id` is the identity of the task object: tasks are numbered as they are created.
pub record ScheduledTask : Type 0 where
  pub id : ℕ
  pub lane_key : String

pub record LaneState : Type 0 where
  pub active : Bool
  pub queue : List ScheduledTask

pub data Metric : Type 0 where
  queue_depth : ℕ → String → Metric
  rejects_saturated rejects_timeout : String → Metric

pub record Limits : Type 0 where
  pub global_active_lanes : ℕ
  pub lane_queue_depth : ℕ
  pub queue_wait_ms : ℕ

abbrev pub default_limits : Limits
default_limits = record { global_active_lanes = 8; lane_queue_depth = 8; queue_wait_ms = 2000 }

-- `started` holds the tasks whose flag of that name is set, newest first.
pub record Scheduler : Type 0 where
  pub limits : Limits
  pub open limits use *
  pub lanes : List (String × LaneState)
  pub active_lane_count : ℕ
  pub cursor : ℕ
  pub scheduling : Bool
  pub started : List ScheduledTask
  pub in_flight : List ScheduledTask
  pub timed_out : List ScheduledTask
  pub metrics : List Metric
  pub next_id : ℕ

pub create : Limits → Scheduler
create limits = record {
  limits = limits;
  lanes = [];
  active_lane_count = 0;
  cursor = 0;
  scheduling = false;
  started = [];
  in_flight = [];
  timed_out = [];
  metrics = [];
  next_id = 0;
}

abbrev pub empty_lane : LaneState
empty_lane = record { active = false; queue = [] }

pub ensure_lane : String → Scheduler → Scheduler
ensure_lane key s = elim (lookup key s.lanes) [
  | some lane ↦ s
  | none ↦ record s { lanes = insert key empty_lane s.lanes }
]

abbrev pub is_empty {ℓ} : {A : Type ℓ} → List A → Bool
is_empty [] = true
is_empty (x ∷ xs) = false

abbrev pub is_idle : LaneState → Bool
is_idle lane = not lane.active && is_empty lane.queue

pub compact_lane : String → Scheduler → Scheduler
compact_lane key s = elim (lookup key s.lanes) [
  | none ↦ s
  | some lane ↦
      if is_idle lane
      then record s {
        lanes = erase key s.lanes;
        cursor = if leb (length (erase key s.lanes)) s.cursor then 0 else s.cursor;
      }
      else s
]

abbrev pub is_runnable : LaneState → Bool
is_runnable lane = not lane.active && not (is_empty lane.queue)

abbrev pub runnable_key : Option LaneState → Bool
runnable_key none = false
runnable_key (some lane) = is_runnable lane

-- The body of the loop of `nextRunnableLaneKey` at one index.
pub runnable_at : List (String × LaneState) → ℕ → Option String
runnable_at lanes index = elim (get_elem? (keys lanes) index) [
  | none ↦ none
  | some key ↦ if runnable_key (lookup key lanes) then some key else none
]

-- The loop over `offset`, with the number of rounds that are left first.
pub scan : List (String × LaneState) → ℕ → ℕ → ℕ → Option (String × ℕ)
scan lanes start zero offset = none
scan lanes start (suc left) offset =
    let index = (start + offset) % length lanes in
    let rest = scan lanes start left (offset + 1) in
    elim (runnable_at lanes index) [ some key ↦ some (key, index + 1) | none ↦ rest ]

-- The key with the new cursor.
pub next_runnable_lane_key : Scheduler → Option (String × ℕ)
next_runnable_lane_key s =
    if is_empty s.lanes then none else scan s.lanes (s.cursor % length s.lanes) (length s.lanes) 0

-- From `task.started = true` to the promise chain.
pub start_task : String → LaneState → ScheduledTask → List ScheduledTask → Scheduler → Scheduler
start_task key lane task rest s = record s {
  lanes = insert key (record lane { active = true; queue = rest }) s.lanes;
  active_lane_count = s.active_lane_count + 1;
  started = task ∷ s.started;
  in_flight = task ∷ s.in_flight;
}

pub shift_queue : String → LaneState → List ScheduledTask → Scheduler → Scheduler
shift_queue key lane [] s = compact_lane key s
shift_queue key lane (task ∷ rest) s = start_task key lane task rest s

pub run_lane : String → Option LaneState → Scheduler → Scheduler
run_lane key none s = s
run_lane key (some lane) s = if lane.active then s else shift_queue key lane lane.queue s

-- One round of the loop of `schedule`; `none` leaves the loop.
pub round : Scheduler → Option Scheduler
round s =
    if ltb s.active_lane_count s.global_active_lanes
    then elim (next_runnable_lane_key s) [
      | none ↦ none
      | some (key, cursor) ↦
          if str_eq key ""
          then none
          else some (run_lane key (lookup key s.lanes) (record s { cursor = cursor }))
    ]
    else none

-- What the round that leaves the loop has done to the cursor: its search has moved it where it found
-- the empty key, which is false as a condition.
pub leave : Scheduler → Scheduler
leave s =
    if ltb s.active_lane_count s.global_active_lanes
    then elim (next_runnable_lane_key s) [
      | none ↦ s
      | some (key, cursor) ↦ record s { cursor = cursor }
    ]
    else s

-- Ends before the round that leaves the loop.
pub schedule_loop : ℕ → Scheduler → Scheduler
schedule_loop zero s = s
schedule_loop (suc fuel) s = elim (round s) [ none ↦ s | some s' ↦ schedule_loop fuel s' ]

-- Each round takes one of the free places, so there are fewer rounds than the fuel.
pub sweep : Scheduler → Scheduler
sweep s =
    record (leave (
      schedule_loop (s.global_active_lanes - s.active_lane_count + 1)
        (record s { scheduling = true }))) { scheduling = false }

pub schedule : Scheduler → Scheduler
schedule s = if s.scheduling then s else sweep s

abbrev pub queue_of : Option LaneState → List ScheduledTask
queue_of none = []
queue_of (some lane) = lane.queue

-- `lane.queue.push(task); schedule();`
pub push_task : String → Scheduler → Scheduler
push_task key s = elim (lookup key s.lanes) [
  | none ↦ s
  | some lane ↦ record s {
    lanes =
        insert key
          (record lane { queue = lane.queue ++ record { id = s.next_id; lane_key = key } ∷ [] })
          s.lanes;
    next_id = s.next_id + 1;
  }
]

abbrev pub emit_metric : Metric → Scheduler → Scheduler
emit_metric m s = record s { metrics = m ∷ s.metrics }

-- From the test of the cap to the end; `depth` is the length of the lane's queue.
pub admit : String → ℕ → Scheduler → Scheduler × Option DaemonQueueError
admit key depth s =
    if leb s.lane_queue_depth depth
    then (
      emit_metric (rejects_saturated key) s,
      some (record {
        code = queue_saturated;
        lane_key = key;
        queue_depth = depth;
        lane_queue_depth = s.lane_queue_depth;
        queue_wait_ms = none;
        retry_after_ms = s.queue_wait_ms;
      }),
    )
    else (schedule (push_task key s), none)

abbrev pub depth_of : String → Scheduler → ℕ
depth_of key s = length (queue_of (lookup key s.lanes))

-- The rejection, if the call is rejected at once; otherwise the caller waits.
pub enqueue : String → Scheduler → Scheduler × Option DaemonQueueError
enqueue key s =
    let made = ensure_lane key s in
    admit key (depth_of key made) (emit_metric (queue_depth (depth_of key made) key) made)

-- `indexOf` and `splice`.
pub remove_task : ℕ → List ScheduledTask → List ScheduledTask
remove_task id [] = []
remove_task id (t ∷ ts) = if t.id == id then ts else t ∷ remove_task id ts

pub has_task : ℕ → List ScheduledTask → Bool
has_task id [] = false
has_task id (t ∷ ts) = if t.id == id then true else has_task id ts

pub splice_task : ScheduledTask → Scheduler → Scheduler
splice_task task s = elim (lookup task.lane_key s.lanes) [
  | none ↦ s
  | some lane ↦ record s {
    lanes = insert task.lane_key (record lane { queue = remove_task task.id lane.queue }) s.lanes;
  }
]

-- The timer's callback for a task that has not started, up to its call of `schedule`.
abbrev pub abandon : ScheduledTask → Scheduler → Scheduler
abandon task s =
    record (compact_lane task.lane_key
      (emit_metric (rejects_timeout task.lane_key) (splice_task task s))) {
        timed_out = task ∷ s.timed_out;
      }

-- The callback of the task's timer.
pub expire : ScheduledTask → Scheduler → Scheduler × Option DaemonQueueError
expire task s = if has_task task.id s.started then (s, none) else (
  schedule (abandon task s),
  some (record {
    code = queue_timeout;
    lane_key = task.lane_key;
    queue_depth = depth_of task.lane_key (splice_task task s);
    lane_queue_depth = s.lane_queue_depth;
    queue_wait_ms = some s.queue_wait_ms;
    retry_after_ms = s.queue_wait_ms;
  }),
)

pub deactivate : String → Scheduler → Scheduler
deactivate key s = elim (lookup key s.lanes) [
  | none ↦ s
  | some lane ↦ record s { lanes = insert key (record lane { active = false }) s.lanes }
]

-- The `finally` of a task's promise chain, up to its call of `schedule`.
abbrev pub retire : ScheduledTask → Scheduler → Scheduler
retire task s = compact_lane task.lane_key (record (deactivate task.lane_key s) {
  active_lane_count = s.active_lane_count - 1;
  in_flight = remove_task task.id s.in_flight;
})

pub settle : ScheduledTask → Scheduler → Scheduler
settle task s = schedule (retire task s)
