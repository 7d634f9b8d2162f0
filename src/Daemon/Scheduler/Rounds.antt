-- ===== src/Daemon/Scheduler/Rounds.antt =====
-- The loop of `schedule`: what one round does, the rule for an invariant, and why the fuel suffices.
use surfwright.Base.{
  ℕ, zero, suc, ◌-◌, ◌≤◌, ◌<◌, String, Bool, true, false, ◌≡◌, refl, ◌⊎◌, inl, inr, none, some,
  List, [], ◌∷◌, arith, ltb, if◌then◌else◌, ltb→le, lookup, Bool-cases, Option-cases, subst, sym,
  ap, eq_iff,
}
use surfwright.Daemon.Scheduler.{
  LaneState, ScheduledTask, Scheduler, is_runnable, next_runnable_lane_key, start_task, shift_queue,
  run_lane, round, leave, schedule_loop, runnable_key, sweep, schedule,
}
use surfwright.Daemon.Scheduler.Rotation.{none-runnable, some-runnable}

-- A round starts the oldest task of an inactive lane while there is room.
pub record Dispatch (s s' : Scheduler) : Type 0 where
  pub key : String
  pub cursor : ℕ
  pub lane : LaneState
  pub task : ScheduledTask
  pub rest : List ScheduledTask
  pub room : s.active_lane_count < s.global_active_lanes
  pub next : next_runnable_lane_key s ≡ some (key, cursor)
  pub here : lookup key s.lanes ≡ some lane
  pub inactive : lane.active ≡ false
  pub queued : lane.queue ≡ task ∷ rest
  pub result : s' ≡ start_task key lane task rest (record s { cursor = cursor })

split_runnable :
    (active : Bool) (queue : List ScheduledTask) (lane : LaneState)
    → lane.active ≡ active
    → lane.queue ≡ queue
    → is_runnable lane ≡ true
    → (lane.active ≡ false)
      × ((task : ScheduledTask) × (rest : List ScheduledTask) × (lane.queue ≡ task ∷ rest))
split_runnable true queue lane a q h = absurd (let no : ⊥ = ground arith in no)
split_runnable false [] lane a q h = absurd (let no : ⊥ = ground arith in no)
split_runnable false (t ∷ ts) lane a q h = (a, (t, ts, q))

pub round-some : (s s' : Scheduler) → round s ≡ some s' → Dispatch s s'
unfolding round run_lane shift_queue
round-some s s' e = elim (Option-cases (next_runnable_lane_key s)) [
  | inl stuck ↦ absurd (let no : ⊥ = ground arith in no)
  | inr ((key, cursor), next) ↦
      let (lane, here, ready) = some-runnable s key cursor next in
      let (inactive, (task, rest, queued)) =
        split_runnable lane.active lane.queue lane refl refl ready in
      record {
        key = key;
        cursor = cursor;
        lane = lane;
        task = task;
        rest = rest;
        room = ground arith;
        next = next;
        here = here;
        inactive = inactive;
        queued = queued;
        result = ground arith;
      }
]

-- Nothing more can be started, or the lane of the empty key could be.
abbrev pub Quiet : Scheduler → Type 0
Quiet s =
    (s.global_active_lanes ≤ s.active_lane_count)
    ⊎ ((k : String) (lane : LaneState) → lookup k s.lanes ≡ some lane → is_runnable lane ≡ false)
    ⊎ (runnable_key (lookup "" s.lanes) ≡ true)

pub round-Quiet : (s : Scheduler) → round s ≡ none → Quiet s
unfolding round
round-Quiet s e = elim (Bool-cases (ltb s.active_lane_count s.global_active_lanes)) [
  | inr full ↦ inl (ltb→le _ _ full)
  | inl room ↦ elim (Option-cases (next_runnable_lane_key s)) [
    | inl stuck ↦ inr (inl (none-runnable s stuck))
    | inr ((key, cursor), next) ↦
        let (lane, here, ready) = some-runnable s key cursor next in
        let empty : key ≡ "" = ground (arith, eq_iff key "") in
        inr (inr (subst (λ k. runnable_key (lookup k s.lanes) ≡ true) empty (rw here ready)))
  ]
]

-- The end of the loop touches the cursor alone.
leave_frame : (s : Scheduler) → leave s ≡ record s { cursor = (leave s).cursor }
unfolding leave
leave_frame s = ground arith

pub schedule_loop_inv {ℓ} :
    (P : Scheduler → Type ℓ)
    → ((s s' : Scheduler) → Dispatch s s' → P s → P s')
    → (fuel : ℕ) (s : Scheduler) → P s
    → P (schedule_loop fuel s)
unfolding schedule_loop
schedule_loop_inv P keep zero s h = h
schedule_loop_inv P keep (suc fuel) s h = elim (Option-cases (round s)) [
  | inl e ↦ rw (e, schedule_loop) h
  | inr (s', e) ↦
      rw (e, schedule_loop) (schedule_loop_inv P keep fuel s' (keep s s' (round-some s s' e) h))
]

Dispatch-fewer :
    {s s' : Scheduler} {fuel : ℕ}
    → Dispatch s s'
    → s.global_active_lanes - s.active_lane_count < suc fuel
    → s'.global_active_lanes - s'.active_lane_count < fuel
unfolding start_task
Dispatch-fewer {s} {s'} {fuel} d h =
    subst (λ t. t.global_active_lanes - t.active_lane_count < fuel) (sym d.result)
      (let room = d.room in omega arith)

-- With more fuel than there are free places the loop of `schedule` ends by its own test, since each
-- round takes one of them.
pub schedule_loop_done :
    (fuel : ℕ) (s : Scheduler)
    → s.global_active_lanes - s.active_lane_count < fuel
    → round (schedule_loop fuel s) ≡ none
unfolding schedule_loop
schedule_loop_done zero s h = absurd (omega arith)
schedule_loop_done (suc fuel) s h = elim (Option-cases (round s)) [
  | inl e ↦ rw (e, schedule_loop) e
  | inr (s', e) ↦
      rw (e, schedule_loop) (schedule_loop_done fuel s' (Dispatch-fewer (round-some s s' e) h))
]

-- `schedule` keeps what each round keeps, if it says nothing of the flag and the cursor.
pub schedule_inv {ℓ} :
    (P : Scheduler → Type ℓ)
    → ((s : Scheduler) (b : Bool) (c : ℕ) → P s → P (record s { scheduling = b; cursor = c }))
    → ((s s' : Scheduler) → Dispatch s s' → P s → P s')
    → (s : Scheduler) → P s
    → P (schedule s)
unfolding schedule sweep
schedule_inv P flag keep s h = elim (Bool-cases s.scheduling) [
  | inl nested ↦ subst P (sym (ap (λ b. if b then s else sweep s) nested)) h
  | inr free ↦ subst P (sym (ap (λ b. if b then s else sweep s) free)) (
      subst (λ t. P (record t { scheduling = false })) (sym (leave_frame _))
        (flag _ false _ (schedule_loop_inv P keep _ _ (flag s true s.cursor h))))
]

pub schedule-eq-sweep : (s : Scheduler) → s.scheduling ≡ false → schedule s ≡ sweep s
unfolding schedule
schedule-eq-sweep s free = ap (λ b. if b then s else sweep s) free

-- Unless it is nested, `schedule` leaves no runnable lane while there is room, or one of the empty
-- key.
pub schedule-Quiet : (s : Scheduler) → s.scheduling ≡ false → Quiet (schedule s)
unfolding sweep
schedule-Quiet s free =
    subst Quiet (sym (schedule-eq-sweep s free))
      (subst Quiet (sym (leave_frame _)) (round-Quiet _ (schedule_loop_done _ _ (omega arith))))

pub scheduling-schedule : (s : Scheduler) → s.scheduling ≡ false → (schedule s).scheduling ≡ false
unfolding sweep
scheduling-schedule s free = ap (λ t. t.scheduling) (schedule-eq-sweep s free)
