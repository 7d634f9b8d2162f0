-- ===== src/Daemon/Scheduler/Operations.antt =====
-- Each operation of the scheduler against the invariant.
use surfwright.Base.{
  ℕ, ◌+◌, ◌-◌, ◌≤◌, ◌<◌, String, Bool, true, false, ◌≡◌, refl, inl, inr, Option, none, some, List,
  [], ◌∷◌, ◌++◌, arith, leb, ◌==◌, if◌then◌else◌, leb→lt, leb→le, lookup, Bool-cases, Option-cases,
  subst, sym, ap, ◌∙◌, length, length-append, All, All-append, bit, str_eq, eq_iff,
  lookup-insert_self, total-erase,
}
use surfwright.Daemon.Scheduler.{
  LaneState, ScheduledTask, Scheduler, is_idle, is_empty, empty_lane, ensure_lane, admit,
  compact_lane, start_task, schedule, push_task, queue_of, enqueue, remove_task, has_task,
  splice_task, expire, abandon, retire, deactivate,
}
use surfwright.Daemon.Scheduler.Invariant.{
  Core, Inv, LaneOk, in_lane, lane_active, Core-write, Core-create, Core-exempt, Core-compact,
  Core-settled, compact_frame,
}
use surfwright.Daemon.Scheduler.Rounds.{Dispatch, schedule_inv}

-- The task object with an identity, in a list.
unfoldable pub find_task : ℕ → List ScheduledTask → Option ScheduledTask
find_task id [] = none
find_task id (t ∷ ts) = if t.id == id then some t else find_task id ts

LaneOk-head :
    {depth : ℕ} {k : String} (lane : LaneState) (t : ScheduledTask) (ts : List ScheduledTask)
    → LaneOk depth k lane
    → lane.queue ≡ t ∷ ts
    → (t.lane_key ≡ k) × LaneOk depth k (record lane { active = true; queue = ts })
LaneOk-head {k} lane t ts ok e =
    let (head, tail) = subst (All (λ u. u.lane_key ≡ k)) e ok.keyed in
    (
      head,
      record { bounded = (let n = ap length e in let b = ok.bounded in omega arith); keyed = tail },
    )

pub Dispatch-Inv : (s s' : Scheduler) → Dispatch s s' → Inv s → Inv s'
unfolding start_task
Dispatch-Inv s s' d core =
    let (mine, ok) =
      LaneOk-head d.lane d.task d.rest (core.lanes_ok d.key d.lane d.here) d.queued in
    subst Inv (sym d.result) (
      Core-write core d.key (record d.lane { active = true; queue = d.rest }) d.lane
        (s.active_lane_count + 1) (d.task ∷ s.in_flight) d.here ok (inr refl)
        (let off = d.inactive in ground arith) (let room = d.room in omega arith)
        (λ j. let off = d.inactive in rw mine (ground arith)))

pub schedule-Inv : (s : Scheduler) → Inv s → Inv (schedule s)
schedule-Inv = schedule_inv Inv (λ s b c h. h) Dispatch-Inv

-- After `ensureLane` the lane is there, and only it may be idle.
pub ensure_lane-Core :
    (k : String) (s : Scheduler)
    → Inv s
    → (lane : LaneState) × (lookup k (ensure_lane k s).lanes ≡ some lane)
      × Core (some k) s.limits (ensure_lane k s).lanes s.active_lane_count s.in_flight
unfolding ensure_lane
ensure_lane-Core k s core = elim (Option-cases (lookup k s.lanes)) [
  | inl gone ↦
      rw (gone, ensure_lane)
        (empty_lane, lookup-insert_self k empty_lane s.lanes, Core-create k core gone)
  | inr (lane, here) ↦ rw (here, ensure_lane) (lane, here, Core-exempt k core)
]

pub ensure_frame :
    (k : String) (s : Scheduler) → ensure_lane k s ≡ record s { lanes = (ensure_lane k s).lanes }
unfolding ensure_lane
ensure_frame k s = ground arith

is_empty-append : (ts : List ScheduledTask) (t : ScheduledTask) → is_empty (ts ++ t ∷ []) ≡ false
is_empty-append [] t = refl
is_empty-append (u ∷ ts) t = refl

pub push_task-Inv :
    (k : String) (s : Scheduler) (lane : LaneState)
    → lookup k s.lanes ≡ some lane
    → length lane.queue < s.lane_queue_depth
    → Core (some k) s.limits s.lanes s.active_lane_count s.in_flight
    → Inv (push_task k s)
unfolding push_task
push_task-Inv k s lane here room core =
    let t : ScheduledTask = record { id = s.next_id; lane_key = k } in
    let pushed : LaneState = record lane { queue = lane.queue ++ t ∷ [] } in
    let ok = core.lanes_ok k lane here in
    rw (here, push_task)
      (Core-settled k
        (λ w e. ground (arith, lookup-insert_self k pushed s.lanes, is_empty-append lane.queue t))
        (Core-write core k pushed lane s.active_lane_count s.in_flight here
          (record {
            bounded = (let n = length-append lane.queue (t ∷ []) in omega arith);
            keyed = All-append (λ u. u.lane_key ≡ k) lane.queue (t ∷ []) ok.keyed (refl, tt);
          })
          (inl refl) refl core.capped (λ j. refl)))

length-remove_task : (id : ℕ) (ts : List ScheduledTask) → length (remove_task id ts) ≤ length ts
unfolding remove_task
length-remove_task id [] = omega arith
length-remove_task id (t ∷ ts) = ground (arith, length-remove_task id ts)

pub All-remove_task :
    (P : ScheduledTask → Type 0) (id : ℕ) (ts : List ScheduledTask)
    → All P ts
    → All P (remove_task id ts)
unfolding remove_task
All-remove_task P id [] h = tt
All-remove_task P id (t ∷ ts) (p, h) = ground (arith, All-remove_task P id ts h)

in_lane-remove_task :
    (k : String) (t : ScheduledTask) (ts : List ScheduledTask)
    → find_task t.id ts ≡ some t
    → in_lane k (remove_task t.id ts) + bit (str_eq t.lane_key k) ≡ in_lane k ts
unfolding remove_task find_task
in_lane-remove_task k t [] e = cc
in_lane-remove_task k t (u ∷ ts) e = ground (arith, in_lane-remove_task k t ts)

pub splice_task-Core :
    (t : ScheduledTask) (s : Scheduler)
    → Inv s
    → Core (some t.lane_key) s.limits (splice_task t s).lanes s.active_lane_count s.in_flight
unfolding splice_task
splice_task-Core t s core = elim (Option-cases (lookup t.lane_key s.lanes)) [
  | inl gone ↦ rw (gone, splice_task) (Core-exempt t.lane_key core)
  | inr (lane, here) ↦
      let ok = core.lanes_ok t.lane_key lane here in
      rw (here, splice_task)
        (Core-write (Core-exempt t.lane_key core) t.lane_key
          (record lane { queue = remove_task t.id lane.queue }) lane s.active_lane_count s.in_flight
          here
          (record {
            bounded = (let n = length-remove_task t.id lane.queue in omega arith);
            keyed = All-remove_task (λ u. u.lane_key ≡ t.lane_key) t.id lane.queue ok.keyed;
          })
          (inl refl) refl core.capped (λ j. refl))
]

-- A running task's lane is there, and active.
running-lane :
    (t : ScheduledTask) (s : Scheduler)
    → Inv s
    → find_task t.id s.in_flight ≡ some t
    → (lane : LaneState) × (lookup t.lane_key s.lanes ≡ some lane) × (lane.active ≡ true)
running-lane t s core e = elim (Option-cases (lookup t.lane_key s.lanes)) [
  | inl gone ↦ absurd (
      let no : ⊥ = ground (
        arith,
        core.serial t.lane_key,
        in_lane-remove_task t.lane_key t s.in_flight e,
        eq_iff t.lane_key t.lane_key,
      ) in
      no)
  | inr (lane, here) ↦ (
    lane,
    here,
    ground (
      arith,
      core.serial t.lane_key,
      in_lane-remove_task t.lane_key t s.in_flight e,
      eq_iff t.lane_key t.lane_key,
    ),
  )
]

pub deactivate-Core :
    (t : ScheduledTask) (s : Scheduler)
    → Inv s
    → find_task t.id s.in_flight ≡ some t
    → Core
        (some t.lane_key)
        s.limits
        (deactivate t.lane_key s).lanes
        (s.active_lane_count - 1)
        (remove_task t.id s.in_flight)
unfolding deactivate
deactivate-Core t s core e =
    let (lane, here, on) = running-lane t s core e in
    let ok = core.lanes_ok t.lane_key lane here in
    rw (here, deactivate)
      (Core-write (Core-exempt t.lane_key core) t.lane_key (record lane { active = false }) lane
        (s.active_lane_count - 1) (remove_task t.id s.in_flight) here
        (record { bounded = ok.bounded; keyed = ok.keyed }) (inl refl)
        (ground (arith, total-erase lane_active t.lane_key lane s.lanes here, core.counted))
        (let c = core.capped in omega arith)
        (λ j. ground (arith, in_lane-remove_task j t s.in_flight e)))

pub deactivate_frame :
    (k : String) (s : Scheduler) → deactivate k s ≡ record s { lanes = (deactivate k s).lanes }
unfolding deactivate
deactivate_frame k s = ground arith

pub splice_frame :
    (t : ScheduledTask) (s : Scheduler)
    → splice_task t s ≡ record s { lanes = (splice_task t s).lanes }
unfolding splice_task
splice_frame t s = ground arith

pub compact_lane-Inv :
    (k : String) (s : Scheduler)
    → Core (some k) s.limits s.lanes s.active_lane_count s.in_flight
    → Inv (compact_lane k s)
compact_lane-Inv k s core = subst Inv (sym (compact_frame k s)) (Core-compact s k core)

pub retire-Inv :
    (t : ScheduledTask) (s : Scheduler)
    → Inv s
    → find_task t.id s.in_flight ≡ some t
    → Inv (retire t s)
retire-Inv t s core e = compact_lane-Inv t.lane_key _ (
    subst
      (λ d.
        Core (some t.lane_key) d.limits d.lanes (s.active_lane_count - 1)
          (remove_task t.id s.in_flight))
      (sym (deactivate_frame t.lane_key s)) (deactivate-Core t s core e))

pub abandon-Inv : (t : ScheduledTask) (s : Scheduler) → Inv s → Inv (abandon t s)
abandon-Inv t s core = compact_lane-Inv t.lane_key _ (
    subst (λ d. Core (some t.lane_key) d.limits d.lanes d.active_lane_count d.in_flight)
      (sym (splice_frame t s)) (splice_task-Core t s core))

pub expire-Inv : (t : ScheduledTask) (s : Scheduler) → Inv s → Inv (expire t s).0
unfolding expire
expire-Inv t s core = elim (Bool-cases (has_task t.id s.started)) [
  | inl started ↦ rw (started, if◌then◌else◌) core
  | inr waiting ↦ rw (waiting, if◌then◌else◌) (schedule-Inv _ (abandon-Inv t s core))
]

filled-busy : (lane : LaneState) {n : ℕ} → 0 < n → n ≤ length lane.queue → is_idle lane ≡ false
filled-busy lane {n} pos full = by_queue lane.active lane.queue full
  where
    by_queue :
        (a : Bool) (q : List ScheduledTask)
        → n ≤ length q
        → is_idle (record { active = a; queue = q }) ≡ false
    by_queue a [] h = absurd (omega arith)
    by_queue true (t ∷ ts) h = refl
    by_queue false (t ∷ ts) h = refl

pub admit-Inv :
    (k : String) (s : Scheduler) (lane : LaneState)
    → 0 < s.lane_queue_depth
    → lookup k s.lanes ≡ some lane
    → Core (some k) s.limits s.lanes s.active_lane_count s.in_flight
    → Inv (admit k (length lane.queue) s).0
unfolding admit
admit-Inv k s lane pos here core = elim (Bool-cases (leb s.lane_queue_depth (length lane.queue))) [
  | inl full ↦
      rw (full, if◌then◌else◌)
        (Core-settled k
          (λ w e.
            let same : lane ≡ w = ground arith in
            subst (λ l. is_idle l ≡ false) same (filled-busy lane pos (leb→le _ _ full)))
          core)
  | inr room ↦
      rw (room, if◌then◌else◌) (schedule-Inv _ (push_task-Inv k s lane here (leb→lt _ _ room) core))
]

pub enqueue-Inv :
    (k : String) (s : Scheduler) → 0 < s.lane_queue_depth → Inv s → Inv (enqueue k s).0
unfolding enqueue
enqueue-Inv k s pos core =
    let (lane, here, made) = ensure_lane-Core k s core in
    rw (here, queue_of)
      (admit-Inv k _ lane (subst (λ d. 0 < d.lane_queue_depth) (sym (ensure_frame k s)) pos) here (
        subst (λ d. Core (some k) d.limits d.lanes d.active_lane_count d.in_flight)
          (sym (ensure_frame k s)) made))

pub schedule-limits : (s : Scheduler) → (schedule s).limits ≡ s.limits
unfolding start_task
schedule-limits s =
    schedule_inv (λ t. t.limits ≡ s.limits) (λ t b c h. h)
      (λ t t' d h. ap (λ r. r.limits) d.result ∙ h) s refl

pub compact_lane-limits : (k : String) (s : Scheduler) → (compact_lane k s).limits ≡ s.limits
compact_lane-limits k s = ap (λ r. r.limits) (compact_frame k s)

pub push_task-limits : (k : String) (s : Scheduler) → (push_task k s).limits ≡ s.limits
unfolding push_task
push_task-limits k s = ground arith

pub admit-limits : (k : String) (n : ℕ) (s : Scheduler) → (admit k n s).0.limits ≡ s.limits
unfolding admit
admit-limits k n s = ground (arith, schedule-limits (push_task k s), push_task-limits k s)

pub expire-limits : (t : ScheduledTask) (s : Scheduler) → (expire t s).0.limits ≡ s.limits
unfolding expire
expire-limits t s = elim (Bool-cases (has_task t.id s.started)) [
  | inl started ↦ rw (started, if◌then◌else◌) refl
  | inr waiting ↦
      rw (waiting, if◌then◌else◌)
        (schedule-limits _
          ∙ compact_lane-limits t.lane_key _
          ∙ ap (λ d. d.limits) (splice_frame t s))
]
