-- ===== src/Daemon/Scheduler/Invariant.antt =====
-- The invariant of the lane scheduler, and that every step keeps it.
use surfwright.Base.{
  ℕ, ◌+◌, ◌≤◌, String, true, false, ◌≡◌, ◌⊎◌, inl, inr, Option, none, some, List, [], ◌∷◌, arith,
  if◌then◌else◌, lookup, insert, erase, Bool-cases, Option-cases, subst, sym, ap, length, All,
  AllBound, AllBound-insert, AllBound-erase, Distinct, insert-Distinct, erase-Distinct, total,
  total-insert_new, total-insert_old, total-erase, lookup-insert, lookup-erase_ne,
  lookup-erase_self, bit, str_eq, eq_iff,
}
use surfwright.Daemon.Scheduler.{
  LaneState, ScheduledTask, Scheduler, Limits, is_idle, empty_lane, compact_lane,
}

-- How many of the tasks belong to a lane.
abbrev pub in_lane : String → List ScheduledTask → ℕ
in_lane k [] = 0
in_lane k (t ∷ ts) = bit (str_eq t.lane_key k) + in_lane k ts

abbrev pub active_bit : Option LaneState → ℕ
active_bit none = 0
active_bit (some lane) = bit lane.active

abbrev pub lane_active : LaneState → ℕ
lane_active lane = bit lane.active

pub record LaneOk (depth : ℕ) (k : String) (lane : LaneState) : Type 0 where
  pub bounded : length lane.queue ≤ depth
  pub keyed : All (λ t. t.lane_key ≡ k) lane.queue

-- `exempt` names the lane that may be left idle until `compactLane` runs.
pub record Core (exempt : Option String) (limits : Limits) (lanes : List (String × LaneState))
    (active : ℕ) (in_flight : List ScheduledTask) : Type 0 where
  pub counted : total lane_active lanes ≡ active
  pub capped : active ≤ limits.global_active_lanes
  pub distinct : Distinct lanes
  pub lanes_ok : AllBound (LaneOk limits.lane_queue_depth) lanes
  pub busy : AllBound (λ k lane. (some k ≡ exempt) ⊎ (is_idle lane ≡ false)) lanes
  pub serial : (k : String) → in_lane k in_flight ≡ active_bit (lookup k lanes)

abbrev pub Inv : Scheduler → Type 0
Inv s = Core none s.limits s.lanes s.active_lane_count s.in_flight

module _ {exempt : Option String} {limits : Limits} {lanes : List (String × LaneState)} {n : ℕ}
    {fl : List ScheduledTask} (core : Core exempt limits lanes n fl) where
  -- A write to a present lane.
  pub Core-write :
      (k : String) (v w : LaneState) (n' : ℕ) (fl' : List ScheduledTask)
      → lookup k lanes ≡ some w
      → LaneOk limits.lane_queue_depth k v
      → (some k ≡ exempt) ⊎ (is_idle v ≡ false)
      → n' + bit w.active ≡ n + bit v.active
      → n' ≤ limits.global_active_lanes
      → ((j : String)
          → in_lane j fl' + (if str_eq k j then bit w.active else 0)
            ≡ in_lane j fl + (if str_eq k j then bit v.active else 0))
      → Core exempt limits (insert k v lanes) n' fl'
  Core-write k v w n' fl' here ok busy count cap moved = record {
    counted = omega (arith, total-insert_old lane_active k v w lanes here, core.counted);
    capped = cap;
    distinct = insert-Distinct k v lanes core.distinct;
    lanes_ok = AllBound-insert (LaneOk limits.lane_queue_depth) k v lanes ok core.lanes_ok;
    busy =
        AllBound-insert (λ k lane. (some k ≡ exempt) ⊎ (is_idle lane ≡ false)) k v lanes busy
          core.busy;
    serial = λ j.
        ground
          (arith, lookup-insert k j v lanes, moved j, core.serial j, core.serial k, eq_iff k j);
  }

module _ {limits : Limits} {lanes : List (String × LaneState)} {n : ℕ}
    {fl : List ScheduledTask} where
  -- A key that has no lane is bound to an idle lane, which is then exempt.
  pub Core-create :
      (k : String)
      → Core none limits lanes n fl
      → lookup k lanes ≡ none
      → Core (some k) limits (insert k empty_lane lanes) n fl
  Core-create k core gone = record {
    counted = omega (arith, total-insert_new lane_active k empty_lane lanes gone, core.counted);
    capped = core.capped;
    distinct = insert-Distinct k empty_lane lanes core.distinct;
    lanes_ok =
        AllBound-insert (LaneOk limits.lane_queue_depth) k empty_lane lanes
          (record { bounded = omega arith; keyed = tt }) core.lanes_ok;
    busy = λ j lane e. elim (Bool-cases (str_eq k j)) [
      | inl same ↦ inl (ap some (sym ((eq_iff k j).0 same)))
      | inr other ↦ inr (ground (arith, lookup-insert k j empty_lane lanes, core.busy j lane))
    ];
    serial = λ j.
        ground
          (arith, lookup-insert k j empty_lane lanes, core.serial j, core.serial k, eq_iff k j);
  }

  pub Core-exempt : (k : String) → Core none limits lanes n fl → Core (some k) limits lanes n fl
  Core-exempt k core = record {
    counted = core.counted;
    capped = core.capped;
    distinct = core.distinct;
    lanes_ok = core.lanes_ok;
    busy = λ j lane e. inr (ground (arith, core.busy j lane e));
    serial = core.serial;
  }

  -- The exempt lane is not idle after all.
  pub Core-settled :
      (k : String)
      → ((lane : LaneState) → lookup k lanes ≡ some lane → is_idle lane ≡ false)
      → Core (some k) limits lanes n fl
      → Core none limits lanes n fl
  Core-settled k fine core = record {
    counted = core.counted;
    capped = core.capped;
    distinct = core.distinct;
    lanes_ok = core.lanes_ok;
    busy = λ j lane e. inr (elim (core.busy j lane e) [
      | inl same ↦
          let eq : j ≡ k = ground arith in fine lane (subst (λ i. lookup i lanes ≡ some lane) eq e)
      | inr old ↦ old
    ]);
    serial = core.serial;
  }

  Core-erase :
      (k : String) (w : LaneState)
      → lookup k lanes ≡ some w
      → is_idle w ≡ true
      → Core (some k) limits lanes n fl
      → Core none limits (erase k lanes) n fl
  Core-erase k w here idle core = record {
    counted = ground (arith, total-erase lane_active k w lanes here, core.counted);
    capped = core.capped;
    distinct = erase-Distinct k lanes core.distinct;
    lanes_ok = AllBound-erase (LaneOk limits.lane_queue_depth) k lanes core.distinct core.lanes_ok;
    busy = λ j lane e. elim (Bool-cases (str_eq k j)) [
      | inl same ↦
          absurd
            (let no : ⊥ = ground (arith, eq_iff k j, lookup-erase_self k lanes core.distinct) in no)
      | inr other ↦ ground (arith, eq_iff k j, lookup-erase_ne k j lanes other, core.busy j lane)
    ];
    serial = λ j. elim (Bool-cases (str_eq k j)) [
      | inl same ↦
          ground (arith, eq_iff k j, lookup-erase_self k lanes core.distinct, core.serial k)
      | inr other ↦ ground (arith, lookup-erase_ne k j lanes other, core.serial j)
    ];
  }

-- `compactLane` touches the lanes and the cursor alone.
pub compact_frame :
    (k : String) (s : Scheduler)
    → compact_lane k s
      ≡ record s { lanes = (compact_lane k s).lanes; cursor = (compact_lane k s).cursor }
unfolding compact_lane
compact_frame k s = ground arith

pub lanes-compact :
    (k : String) (s : Scheduler)
    → (((compact_lane k s).lanes ≡ s.lanes)
        × ((lane : LaneState) → lookup k s.lanes ≡ some lane → is_idle lane ≡ false))
      ⊎ ((w : LaneState) × (lookup k s.lanes ≡ some w)
          × (is_idle w ≡ true)
          × ((compact_lane k s).lanes ≡ erase k s.lanes))
unfolding compact_lane
lanes-compact k s = elim (Option-cases (lookup k s.lanes)) [
  | inl gone ↦ inl (ground arith, λ lane e. ground arith)
  | inr (w, here) ↦ elim (Bool-cases (is_idle w)) [
    | inl idle ↦ inr (w, here, idle, ground arith)
    | inr busy ↦ inl (ground arith, λ lane e. ground arith)
  ]
]

-- It removes the exempt lane if that is idle, and so restores the invariant.
pub Core-compact :
    (s : Scheduler) (k : String) {n : ℕ} {fl : List ScheduledTask}
    → Core (some k) s.limits s.lanes n fl
    → Core none s.limits (compact_lane k s).lanes n fl
Core-compact s k {n} {fl} core = elim (lanes-compact k s) [
  | inl (same, fine) ↦ subst (λ m. Core none s.limits m n fl) (sym same) (Core-settled k fine core)
  | inr (w, here, idle, gone) ↦
      subst (λ m. Core none s.limits m n fl) (sym gone) (Core-erase k w here idle core)
]
