-- ===== src/Daemon/Scheduler/Fifo.antt =====
-- Lanes are first in, first out.
use surfwright.Base.{
  ℕ, ◌<◌, String, true, ◌≡◌, ◌⊎◌, inl, inr, some, List, [], ◌∷◌, ◌++◌, arith, leb, lookup, insert,
  if◌then◌else◌, Bool-cases, Option-cases, sym, subst, length, leb→lt, All, All-append,
  lookup-insert, str_eq, eq_iff, AllBound, AllBound-insert, AllBound-erase, Distinct,
}
use surfwright.Daemon.Scheduler.{
  LaneState, ScheduledTask, Scheduler, Limits, empty_lane, ensure_lane, compact_lane, start_task,
  schedule, push_task, enqueue, admit, has_task, splice_task, expire, deactivate, settle, create,
  queue_of,
}
use surfwright.Daemon.Scheduler.Invariant.{Inv, Core, compact_frame, lanes-compact}
use surfwright.Daemon.Scheduler.Operations.{
  ensure_frame, find_task, All-remove_task, Dispatch-Inv, push_task-Inv, ensure_lane-Core,
  abandon-Inv, retire-Inv,
}
use surfwright.Daemon.Scheduler.Ledger.{
  Ascending, Accounts, Dispatch-Accounts, push_task-Accounts, ensure_lane-Accounts,
}
use surfwright.Daemon.Scheduler.Accounting.{
  splice_task-Distinct, deactivate-Distinct, abandon-Accounts, retire-Accounts, Reach-Accounts,
}
use surfwright.Daemon.Scheduler.Steps.{Step, arrive, fire, finish, Reach, start, next, Reach-Inv}
use surfwright.Daemon.Scheduler.Rounds.{Dispatch, schedule_inv}

-- A started task of the lane was created before `t`.
abbrev pub Behind : String → ScheduledTask → List ScheduledTask → Type 0
Behind k t started = All (λ u. u.lane_key ≡ k → u.id < t.id) started

-- Newest first, the tasks of one lane fall in age.
abbrev pub InOrder : List ScheduledTask → Type 0
InOrder [] = Unit {0}
InOrder (t ∷ ts) = Behind t.lane_key t ts × InOrder ts

pub record Fifo (lanes : List (String × LaneState)) (started : List ScheduledTask) (n : ℕ)
    : Type 0 where
  pub in_order : InOrder started
  pub below : All (λ u. u.id < n) started
  pub behind : AllBound (λ k lane. All (λ t. Behind k t started) lane.queue) lanes

abbrev pub FirstIn : Scheduler → Type 0
FirstIn s = Fifo s.lanes s.started s.next_id

All-map :
    {P Q : ScheduledTask → Type 0} (ts : List ScheduledTask)
    → ((t : ScheduledTask) → P t → Q t)
    → All P ts
    → All Q ts
All-map [] f h = tt
All-map (t ∷ ts) f (p, h) = (f t p, All-map ts f h)

Fifo-write :
    {lanes : List (String × LaneState)} {started : List ScheduledTask} {n : ℕ} (k : String)
    (v : LaneState)
    → Fifo lanes started n
    → All (λ t. Behind k t started) v.queue
    → Fifo (insert k v lanes) started n
Fifo-write {lanes} {started} k v fifo h = record {
  in_order = fifo.in_order;
  below = fifo.below;
  behind =
      AllBound-insert (λ j lane. All (λ t. Behind j t started) lane.queue) k v lanes h fifo.behind;
}

-- What a round needs to know of its state.
abbrev Known : Scheduler → Type 0
Known s = Inv s × Accounts s × FirstIn s

All-zip :
    {P Q R : ScheduledTask → Type 0} (ts : List ScheduledTask)
    → ((t : ScheduledTask) → P t → Q t → R t)
    → All P ts
    → All Q ts
    → All R ts
All-zip [] f h k = tt
All-zip (t ∷ ts) f (p, h) (q, k) = (f t p q, All-zip ts f h k)

Dispatch-FirstIn : (s s' : Scheduler) → Dispatch s s' → Known s → FirstIn s'
unfolding start_task
Dispatch-FirstIn s s' d (core, ledger, fifo) =
    let mine =
      (subst (All (λ u. u.lane_key ≡ d.key)) d.queued
        (core.lanes_ok d.key d.lane d.here).keyed).0 in
    let waiting =
      subst (All (λ t. Behind d.key t s.started)) d.queued (fifo.behind d.key d.lane d.here) in
    let ages = subst (Ascending s.next_id) d.queued (ledger.ordered d.key d.lane d.here) in
    subst FirstIn (sym d.result) (record {
      in_order = (subst (λ k. Behind k d.task s.started) (sym mine) waiting.0, fifo.in_order);
      below = (ages.0, fifo.below);
      behind = λ j lane e. elim (Bool-cases (str_eq d.key j)) [
        | inl same ↦
            let left : LaneState = record d.lane { active = true; queue = d.rest } in
            let found : left ≡ lane = ground (arith, lookup-insert d.key j left s.lanes) in
            subst (λ l. All (λ u. Behind j u (d.task ∷ s.started)) l.queue) found
              (subst (λ k. All (λ u. Behind k u (d.task ∷ s.started)) d.rest)
                ((eq_iff d.key j).0 same)
                (All-zip d.rest (λ u older rest. (λ _. older, rest)) ages.1 waiting.1))
        | inr other ↦
            let left : LaneState = record d.lane { active = true; queue = d.rest } in
            let old : lookup j s.lanes ≡ some lane =
              ground (arith, lookup-insert d.key j left s.lanes) in
            All-map lane.queue
              (λ u rest.
                (λ theirs. absurd (let no : ⊥ = ground (arith, eq_iff d.key j) in no), rest))
              (fifo.behind j lane old)
      ];
    })

schedule-Known : (s : Scheduler) → Known s → Known (schedule s)
schedule-Known =
    schedule_inv Known (λ s b c h. h)
      (λ s s' d h.
        (Dispatch-Inv s s' d h.0, Dispatch-Accounts s s' d h.1, Dispatch-FirstIn s s' d h))

compact_lane-FirstIn :
    (k : String) (s : Scheduler) → Distinct s.lanes → FirstIn s → FirstIn (compact_lane k s)
compact_lane-FirstIn k s distinct fifo =
    subst FirstIn (sym (compact_frame k s)) (elim (lanes-compact k s) [
      | inl (same, fine) ↦ subst (λ m. Fifo m s.started s.next_id) (sym same) fifo
      | inr (w, here, idle, gone) ↦
          subst (λ m. Fifo m s.started s.next_id) (sym gone)
            (record {
              in_order = fifo.in_order;
              below = fifo.below;
              behind =
                  AllBound-erase (λ j lane. All (λ t. Behind j t s.started) lane.queue) k s.lanes
                    distinct fifo.behind;
            })
    ])

ensure_lane-FirstIn : (k : String) (s : Scheduler) → FirstIn s → FirstIn (ensure_lane k s)
unfolding ensure_lane
ensure_lane-FirstIn k s fifo = elim (Option-cases (lookup k s.lanes)) [
  | inr (lane, here) ↦ rw (here, ensure_lane) fifo
  | inl gone ↦ rw (gone, ensure_lane) (Fifo-write k empty_lane fifo tt)
]

deactivate-FirstIn : (k : String) (s : Scheduler) → FirstIn s → FirstIn (deactivate k s)
unfolding deactivate
deactivate-FirstIn k s fifo = elim (Option-cases (lookup k s.lanes)) [
  | inl gone ↦ rw (gone, deactivate) fifo
  | inr (w, here) ↦ rw (here, deactivate) (Fifo-write k _ fifo (fifo.behind k w here))
]

splice_task-FirstIn : (t : ScheduledTask) (s : Scheduler) → FirstIn s → FirstIn (splice_task t s)
unfolding splice_task
splice_task-FirstIn t s fifo = elim (Option-cases (lookup t.lane_key s.lanes)) [
  | inl gone ↦ rw (gone, splice_task) fifo
  | inr (w, here) ↦
      rw (here, splice_task)
        (Fifo-write t.lane_key _ fifo (
          All-remove_task (λ u. Behind t.lane_key u s.started) t.id w.queue
            (fifo.behind t.lane_key w here)))
]

push_task-FirstIn : (k : String) (s : Scheduler) → FirstIn s → FirstIn (push_task k s)
unfolding push_task
push_task-FirstIn k s fifo = elim (Option-cases (lookup k s.lanes)) [
  | inl gone ↦ rw (gone, push_task) fifo
  | inr (w, here) ↦
      let t : ScheduledTask = record { id = s.next_id; lane_key = k } in
      let newest : Behind k t s.started = All-map s.started (λ u lt _. lt) fifo.below in
      let written =
        Fifo-write k (record w { queue = w.queue ++ t ∷ [] }) fifo
          (All-append (λ u. Behind k u s.started) w.queue (t ∷ []) (fifo.behind k w here)
            (newest, tt)) in
      rw (here, push_task)
        (record {
          in_order = written.in_order;
          below = All-map s.started (λ u lt. omega arith) fifo.below;
          behind = written.behind;
        })
]

admit-FirstIn :
    (k : String) (s : Scheduler) (lane : LaneState)
    → lookup k s.lanes ≡ some lane
    → Core (some k) s.limits s.lanes s.active_lane_count s.in_flight
    → Accounts s
    → FirstIn s
    → FirstIn (admit k (length lane.queue) s).0
unfolding admit
admit-FirstIn k s lane here core ledger fifo =
    elim (Bool-cases (leb s.lane_queue_depth (length lane.queue))) [
      | inl full ↦ rw (full, if◌then◌else◌) fifo
      | inr room ↦
          rw (room, if◌then◌else◌)
            (schedule-Known _ (
              push_task-Inv k s lane here (leb→lt _ _ room) core,
              push_task-Accounts k s ledger,
              push_task-FirstIn k s fifo,
            )).2
    ]

enqueue-FirstIn : (k : String) (s : Scheduler) → Known s → FirstIn (enqueue k s).0
unfolding enqueue
enqueue-FirstIn k s (core, ledger, fifo) =
    let (lane, here, made) = ensure_lane-Core k s core in
    rw (here, queue_of)
      (admit-FirstIn k _ lane here
        (subst (λ d. Core (some k) d.limits d.lanes d.active_lane_count d.in_flight)
          (sym (ensure_frame k s)) made)
        (ensure_lane-Accounts k s ledger) (ensure_lane-FirstIn k s fifo))

expire-FirstIn :
    (t : ScheduledTask) (s : Scheduler)
    → (find_task t.id (queue_of (lookup t.lane_key s.lanes)) ≡ some t)
      ⊎ (find_task t.id s.started ≡ some t)
    → Known s
    → FirstIn (expire t s).0
unfolding expire
expire-FirstIn t s timer (core, ledger, fifo) = elim (Bool-cases (has_task t.id s.started)) [
  | inl started ↦ rw (started, if◌then◌else◌) fifo
  | inr waiting ↦
      rw (waiting, if◌then◌else◌)
        (schedule-Known _ (
          abandon-Inv t s core,
          abandon-Accounts t s timer waiting core.distinct ledger,
          compact_lane-FirstIn t.lane_key _ (splice_task-Distinct t s core.distinct)
              (splice_task-FirstIn t s fifo),
        )).2
]

Step-FirstIn : {s t : Scheduler} → Known s → Step s t → FirstIn t
unfolding settle
Step-FirstIn {s} known (arrive key) = enqueue-FirstIn key s known
Step-FirstIn {s} known (fire t timer) = expire-FirstIn t s timer known
Step-FirstIn {s} (core, ledger, fifo) (finish t running) =
    (schedule-Known _ (
      retire-Inv t s core running,
      retire-Accounts t s core.distinct ledger,
      compact_lane-FirstIn t.lane_key _ (deactivate-Distinct t.lane_key s core.distinct)
          (deactivate-FirstIn t.lane_key s fifo),
    )).2

create-FirstIn : (limits : Limits) → FirstIn (create limits)
unfolding create lookup
create-FirstIn limits = record { in_order = tt; below = tt; behind = λ k lane e. cc }

Reach-FirstIn :
    (limits : Limits) (s : Scheduler) → 0 < limits.lane_queue_depth → Reach limits s → FirstIn s
Reach-FirstIn limits s pos start = create-FirstIn limits
Reach-FirstIn limits s pos (next {s = r} earlier step) =
    Step-FirstIn
      (
        (Reach-Inv limits r pos earlier).1,
        Reach-Accounts limits r pos earlier,
        Reach-FirstIn limits r pos earlier,
      )
      step

-- After any history, the tasks of one lane were started in the order in which they were created,
-- and every task that still waits in a lane was created after all that the lane has started.
pub lanes_fifo :
    (limits : Limits) (s : Scheduler)
    → 0 < limits.lane_queue_depth
    → Reach limits s
    → InOrder s.started × AllBound (λ k lane. All (λ t. Behind k t s.started) lane.queue) s.lanes
lanes_fifo limits s pos r = let fifo = Reach-FirstIn limits s pos r in (fifo.in_order, fifo.behind)
