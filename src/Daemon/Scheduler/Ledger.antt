-- ===== src/Daemon/Scheduler/Ledger.antt =====
-- The ledger of the scheduler's tasks, and that the operations keep it.
use surfwright.Base.{
  ℕ, ◌+◌, ◌≤◌, ◌<◌, String, Bool, true, false, ◌≡◌, refl, inl, inr, some, List, [], ◌∷◌, ◌++◌,
  arith, ltb, ◌==◌, leb, lookup, insert, if◌then◌else◌, Bool-cases, Option-cases, sym, ap, subst,
  All, AllBound, AllBound-insert, AllBound-erase, total, total-insert_new, total-insert_old,
  total-erase, bit, Distinct,
}
use surfwright.Daemon.Scheduler.{
  LaneState, ScheduledTask, Scheduler, is_idle, empty_lane, ensure_lane, compact_lane, start_task,
  schedule, push_task, admit, remove_task, splice_task, deactivate, queue_of,
}
use surfwright.Daemon.Scheduler.Invariant.{compact_frame, lanes-compact}
use surfwright.Daemon.Scheduler.Operations.{find_task, All-remove_task}
use surfwright.Daemon.Scheduler.Rounds.{Dispatch, schedule_inv}

-- How often a task's identity occurs.
abbrev pub occurrences : ℕ → List ScheduledTask → ℕ
occurrences i [] = 0
occurrences i (t ∷ ts) = bit (t.id == i) + occurrences i ts

abbrev pub queued : ℕ → LaneState → ℕ
queued i lane = occurrences i lane.queue

-- Identities rise along the queue, and are below the next one.
abbrev pub Ascending : ℕ → List ScheduledTask → Type 0
Ascending hi [] = Unit {0}
Ascending hi (t ∷ ts) = (t.id < hi) × All (λ u. t.id < u.id) ts × Ascending hi ts

pub record Ledger (lanes : List (String × LaneState)) (started timed_out : List ScheduledTask)
    (next_id : ℕ) : Type 0 where
  pub accounted :
      (i : ℕ)
      → total (queued i) lanes + occurrences i started + occurrences i timed_out
        ≡ bit (ltb i next_id)
  pub ordered : AllBound (λ k lane. Ascending next_id lane.queue) lanes

abbrev pub Accounts : Scheduler → Type 0
Accounts s = Ledger s.lanes s.started s.timed_out s.next_id

module _ {lanes : List (String × LaneState)} {started timed_out : List ScheduledTask} {n : ℕ}
    (ledger : Ledger lanes started timed_out n) where
  -- A write to a present lane that keeps the order and moves tasks as it says.
  Ledger-write :
      (k : String) (v w : LaneState) (started' timed_out' : List ScheduledTask)
      → lookup k lanes ≡ some w
      → Ascending n v.queue
      → ((i : ℕ)
          → queued i v + occurrences i started' + occurrences i timed_out'
            ≡ queued i w + occurrences i started + occurrences i timed_out)
      → Ledger (insert k v lanes) started' timed_out' n
  Ledger-write k v w started' timed_out' here ok moved = record {
    accounted = λ i.
        omega (arith, total-insert_old (queued i) k v w lanes here, moved i, ledger.accounted i);
    ordered = AllBound-insert (λ j lane. Ascending n lane.queue) k v lanes ok ledger.ordered;
  }

pub Dispatch-Accounts : (s s' : Scheduler) → Dispatch s s' → Accounts s → Accounts s'
unfolding start_task
Dispatch-Accounts s s' d ledger =
    let order = subst (Ascending s.next_id) d.queued (ledger.ordered d.key d.lane d.here) in
    subst Accounts (sym d.result) (
      Ledger-write ledger d.key (record d.lane { active = true; queue = d.rest }) d.lane
        (d.task ∷ s.started) s.timed_out d.here order.2
        (λ i. omega (arith, ap (occurrences i) d.queued)))

pub schedule-Accounts : (s : Scheduler) → Accounts s → Accounts (schedule s)
schedule-Accounts = schedule_inv Accounts (λ s b c h. h) Dispatch-Accounts

idle-queued : (i : ℕ) (w : LaneState) → is_idle w ≡ true → queued i w ≡ 0
idle-queued i w h = by_queue w.active w.queue h
  where
    by_queue :
        (a : Bool) (q : List ScheduledTask)
        → is_idle (record { active = a; queue = q }) ≡ true
        → occurrences i q ≡ 0
    by_queue a [] h = refl
    by_queue true (t ∷ ts) h = cc
    by_queue false (t ∷ ts) h = cc

-- Compaction, for any list of the tasks that have timed out.
pub compact_lane-Ledger :
    (k : String) (s : Scheduler) (out : List ScheduledTask)
    → Distinct s.lanes
    → Ledger s.lanes s.started out s.next_id
    → Ledger (compact_lane k s).lanes (compact_lane k s).started out (compact_lane k s).next_id
compact_lane-Ledger k s out distinct ledger =
    subst (λ r. Ledger r.lanes r.started out r.next_id) (sym (compact_frame k s))
      (elim (lanes-compact k s) [
        | inl (same, fine) ↦ subst (λ m. Ledger m s.started out s.next_id) (sym same) ledger
        | inr (w, here, idle, gone) ↦
            subst (λ m. Ledger m s.started out s.next_id) (sym gone)
              (record {
                accounted = λ i. omega (
                  arith,
                  total-erase (queued i) k w s.lanes here,
                  idle-queued i w idle,
                  ledger.accounted i,
                );
                ordered =
                    AllBound-erase (λ j lane. Ascending s.next_id lane.queue) k s.lanes distinct
                      ledger.ordered;
              })
      ])

pub compact_lane-Accounts :
    (k : String) (s : Scheduler) → Distinct s.lanes → Accounts s → Accounts (compact_lane k s)
compact_lane-Accounts k s distinct ledger =
    subst
      (λ out.
        Ledger (compact_lane k s).lanes (compact_lane k s).started out (compact_lane k s).next_id)
      (sym (ap (λ r. r.timed_out) (compact_frame k s)))
      (compact_lane-Ledger k s s.timed_out distinct ledger)

Ascending-mono : {m n : ℕ} (ts : List ScheduledTask) → m ≤ n → Ascending m ts → Ascending n ts
Ascending-mono [] h a = tt
Ascending-mono (t ∷ ts) h (lt, above, a) = (omega arith, above, Ascending-mono ts h a)

Ascending-push :
    (n : ℕ) (k : String) (ts : List ScheduledTask)
    → Ascending n ts
    → Ascending (n + 1) (ts ++ record { id = n; lane_key = k } ∷ [])
Ascending-push n k [] a = (omega arith, tt, tt)
Ascending-push n k (t ∷ ts) (lt, above, a) =
    (omega arith, All-snoc ts above, Ascending-push n k ts a)
  where
    All-snoc :
        (us : List ScheduledTask)
        → All (λ u. t.id < u.id) us
        → All (λ u. t.id < u.id) (us ++ record { id = n; lane_key = k } ∷ [])
    All-snoc [] h = (lt, tt)
    All-snoc (u ∷ us) (p, h) = (p, All-snoc us h)

occurrences-append :
    (i : ℕ) (ts us : List ScheduledTask)
    → occurrences i (ts ++ us) ≡ occurrences i ts + occurrences i us
occurrences-append i [] us = omega arith
occurrences-append i (t ∷ ts) us = omega (arith, occurrences-append i ts us)

pub push_task-Accounts : (k : String) (s : Scheduler) → Accounts s → Accounts (push_task k s)
unfolding push_task
push_task-Accounts k s ledger = elim (Option-cases (lookup k s.lanes)) [
  | inl gone ↦ rw (gone, push_task) ledger
  | inr (w, here) ↦
      let t : ScheduledTask = record { id = s.next_id; lane_key = k } in
      let v : LaneState = record w { queue = w.queue ++ t ∷ [] } in
      rw (here, push_task)
        (record {
          accounted = λ i. ground (
            arith,
            total-insert_old (queued i) k v w s.lanes here,
            occurrences-append i w.queue (t ∷ []),
            ledger.accounted i,
          );
          ordered =
              AllBound-insert (λ j lane. Ascending (s.next_id + 1) lane.queue) k v s.lanes
                (Ascending-push s.next_id k w.queue (ledger.ordered k w here))
                (λ j lane e. Ascending-mono lane.queue (omega arith) (ledger.ordered j lane e));
        })
]

pub ensure_lane-Accounts : (k : String) (s : Scheduler) → Accounts s → Accounts (ensure_lane k s)
unfolding ensure_lane
ensure_lane-Accounts k s ledger = elim (Option-cases (lookup k s.lanes)) [
  | inr (lane, here) ↦ rw (here, ensure_lane) ledger
  | inl gone ↦
      rw (gone, ensure_lane)
        (record {
          accounted = λ i.
              omega
                (arith, total-insert_new (queued i) k empty_lane s.lanes gone, ledger.accounted i);
          ordered =
              AllBound-insert (λ j lane. Ascending s.next_id lane.queue) k empty_lane s.lanes tt
                ledger.ordered;
        })
]

pub deactivate-Accounts : (k : String) (s : Scheduler) → Accounts s → Accounts (deactivate k s)
unfolding deactivate
deactivate-Accounts k s ledger = elim (Option-cases (lookup k s.lanes)) [
  | inl gone ↦ rw (gone, deactivate) ledger
  | inr (w, here) ↦
      rw (here, deactivate)
        (Ledger-write ledger k (record w { active = false }) w s.started s.timed_out here
          (ledger.ordered k w here) (λ i. refl))
]

remove_task-Ascending :
    (n id : ℕ) (ts : List ScheduledTask) → Ascending n ts → Ascending n (remove_task id ts)
unfolding remove_task
remove_task-Ascending n id [] a = tt
remove_task-Ascending n id (t ∷ ts) (lt, above, a) =
    ground (arith, remove_task-Ascending n id ts a, All-remove_task (λ u. t.id < u.id) id ts above)

occurrences-remove_task :
    (i : ℕ) (t : ScheduledTask) (ts : List ScheduledTask)
    → find_task t.id ts ≡ some t
    → occurrences i (remove_task t.id ts) + bit (t.id == i) ≡ occurrences i ts
unfolding remove_task find_task
occurrences-remove_task i t [] e = cc
occurrences-remove_task i t (u ∷ ts) e = ground (arith, occurrences-remove_task i t ts)

pub splice_task-Accounts :
    (t : ScheduledTask) (s : Scheduler)
    → find_task t.id (queue_of (lookup t.lane_key s.lanes)) ≡ some t
    → Accounts s
    → Accounts (record (splice_task t s) { timed_out = t ∷ s.timed_out })
unfolding splice_task find_task
splice_task-Accounts t s found ledger = elim (Option-cases (lookup t.lane_key s.lanes)) [
  | inl gone ↦ absurd (let no : ⊥ = ground arith in no)
  | inr (w, here) ↦
      let at_w : find_task t.id w.queue ≡ some t = rw (here, queue_of) at found in
      rw (here, splice_task)
        (Ledger-write ledger t.lane_key (record w { queue = remove_task t.id w.queue }) w s.started
          (t ∷ s.timed_out) here
          (remove_task-Ascending s.next_id t.id w.queue (ledger.ordered t.lane_key w here))
          (λ i. omega (arith, occurrences-remove_task i t w.queue at_w)))
]

pub admit-Accounts : (k : String) (n : ℕ) (s : Scheduler) → Accounts s → Accounts (admit k n s).0
unfolding admit
admit-Accounts k n s ledger = elim (Bool-cases (leb s.lane_queue_depth n)) [
  | inl full ↦ rw (full, if◌then◌else◌) ledger
  | inr room ↦ rw (room, if◌then◌else◌) (schedule-Accounts _ (push_task-Accounts k s ledger))
]
