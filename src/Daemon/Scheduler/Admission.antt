-- ===== src/Daemon/Scheduler/Admission.antt =====
-- Which calls of `enqueue` are rejected, and with what.
use surfwright.Base.{
  ℕ, ◌+◌, ◌≤◌, ◌<◌, String, true, false, ◌≡◌, refl, inl, inr, none, some, arith, leb, lookup,
  if◌then◌else◌, Option-cases, sym, ap, ◌∙◌, subst, length, lookup-insert_self,
}
use surfwright.Daemon.Scheduler.{
  LaneState, Scheduler, DaemonQueueError, queue_saturated, queue_depth, rejects_saturated,
  emit_metric, ensure_lane, empty_lane, start_task, schedule, push_task, enqueue, admit, depth_of,
  queue_of,
}
use surfwright.Daemon.Scheduler.Operations.{ensure_frame}
use surfwright.Daemon.Scheduler.Rounds.{schedule_inv}

ensure_lane-depth : (k : String) (s : Scheduler) → depth_of k (ensure_lane k s) ≡ depth_of k s
unfolding ensure_lane
ensure_lane-depth k s = elim (Option-cases (lookup k s.lanes)) [
  | inr (lane, here) ↦ rw (here, ensure_lane) (rw (here, queue_of))
  | inl gone ↦ rw (gone, ensure_lane) (rw (lookup-insert_self k empty_lane s.lanes, queue_of) refl)
]

-- A lane that holds tasks is there already.
ensure_lane_present : (k : String) (s : Scheduler) → 0 < depth_of k s → ensure_lane k s ≡ s
unfolding ensure_lane
ensure_lane_present k s h = elim (Option-cases (lookup k s.lanes)) [
  | inr (lane, here) ↦ rw (here, ensure_lane) refl
  | inl gone ↦ absurd (let e = ap (λ o. length (queue_of o)) gone in omega arith)
]

schedule-next_id : (s : Scheduler) → (schedule s).next_id ≡ s.next_id
unfolding start_task
schedule-next_id s =
    schedule_inv (λ t. t.next_id ≡ s.next_id) (λ t b c h. h)
      (λ t t' d h. ap (λ r. r.next_id) d.result ∙ h) s refl

push_task-next_id :
    (k : String) (s : Scheduler) (lane : LaneState)
    → lookup k s.lanes ≡ some lane
    → (push_task k s).next_id ≡ s.next_id + 1
unfolding push_task
push_task-next_id k s lane here = rw (here, push_task) refl

ensure_lane-lookup :
    (k : String) (s : Scheduler)
    → (lane : LaneState) × (lookup k (ensure_lane k s).lanes ≡ some lane)
unfolding ensure_lane
ensure_lane-lookup k s = elim (Option-cases (lookup k s.lanes)) [
  | inr (lane, here) ↦ rw (here, ensure_lane) (lane, here)
  | inl gone ↦ rw (gone, ensure_lane) (empty_lane, lookup-insert_self k empty_lane s.lanes)
]

abbrev pub saturated : String → Scheduler → DaemonQueueError
saturated key s = record {
  code = queue_saturated;
  lane_key = key;
  queue_depth = depth_of key s;
  lane_queue_depth = s.lane_queue_depth;
  queue_wait_ms = none;
  retry_after_ms = s.queue_wait_ms;
}

admit_full :
    (k : String) (n : ℕ) (s : Scheduler)
    → s.lane_queue_depth ≤ n
    → admit k n s ≡ (
      emit_metric (rejects_saturated k) s,
      some (record {
        code = queue_saturated;
        lane_key = k;
        queue_depth = n;
        lane_queue_depth = s.lane_queue_depth;
        queue_wait_ms = none;
        retry_after_ms = s.queue_wait_ms;
      }),
    )
unfolding admit
admit_full k n s h =
    let full : leb s.lane_queue_depth n ≡ true = ground arith in rw (full, if◌then◌else◌) refl

admit_room :
    (k : String) (n : ℕ) (s : Scheduler)
    → n < s.lane_queue_depth
    → admit k n s ≡ (schedule (push_task k s), none)
unfolding admit
admit_room k n s h =
    let room : leb s.lane_queue_depth n ≡ false = ground arith in rw (room, if◌then◌else◌) refl

-- Where the cap is positive, `enqueue` rejects exactly the calls that find the lane's queue at its
-- cap. A rejection reports that depth and the cap, and leaves the lanes, the tasks and the
-- identities as they were; an accepted call gives out one identity.
pub enqueue_saturation :
    (key : String) (s : Scheduler)
    → 0 < s.lane_queue_depth
    → (s.lane_queue_depth ≤ depth_of key s
        → ((enqueue key s).1 ≡ some (saturated key s))
          × ((enqueue key s).0.lanes ≡ s.lanes)
          × ((enqueue key s).0.started ≡ s.started)
          × ((enqueue key s).0.next_id ≡ s.next_id))
      × (depth_of key s < s.lane_queue_depth
          → ((enqueue key s).1 ≡ none) × ((enqueue key s).0.next_id ≡ s.next_id + 1))
unfolding enqueue
enqueue_saturation key s pos = (full, room)
  where
    full :
        s.lane_queue_depth ≤ depth_of key s
        → ((enqueue key s).1 ≡ some (saturated key s))
          × ((enqueue key s).0.lanes ≡ s.lanes)
          × ((enqueue key s).0.started ≡ s.started)
          × ((enqueue key s).0.next_id ≡ s.next_id)
    full h =
        let same = ensure_lane_present key s (omega arith) in
        subst
          (λ x.
            let r = admit key (depth_of key x) (emit_metric (queue_depth (depth_of key x) key) x) in
            (r.1 ≡ some (saturated key s))
            × (r.0.lanes ≡ s.lanes)
            × (r.0.started ≡ s.started)
            × (r.0.next_id ≡ s.next_id))
          (sym same)
          (let e =
              admit_full key (depth_of key s) (emit_metric (queue_depth (depth_of key s) key) s)
                h in
            (
              ap (λ r. r.1) e,
              ap (λ r. r.0.lanes) e,
              ap (λ r. r.0.started) e,
              ap (λ r. r.0.next_id) e,
            ))

    room :
        depth_of key s < s.lane_queue_depth
        → ((enqueue key s).1 ≡ none) × ((enqueue key s).0.next_id ≡ s.next_id + 1)
    room h =
        let (lane, here) = ensure_lane-lookup key s in
        let caps = ap (λ x. x.lane_queue_depth) (ensure_frame key s) in
        let e =
          admit_room key _
            (emit_metric (queue_depth (depth_of key (ensure_lane key s)) key) (ensure_lane key s))
            (let d = ensure_lane-depth key s in omega arith) in
        (
          ap (λ r. r.1) e,
          ap (λ r. r.0.next_id) e
              ∙ schedule-next_id _
              ∙ push_task-next_id key _ lane here
              ∙ ap (λ x. x.next_id + 1) (ensure_frame key s),
        )
