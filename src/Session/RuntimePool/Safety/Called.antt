-- ===== src/Session/RuntimePool/Safety/Called.antt =====
-- src/core/session/infra/runtime-pool.ts: the operations keep the invariant, so every history has it.
use surfwright.Base.{
  ℕ, suc, ◌-◌, ◌<◌, String, Bool, true, false, ◌≡◌, refl, sym, subst, ap, ◌∙◌, Option, none, some,
  List, [], ◌∷◌, ◌++◌, ltb, leb, length, take, lookup, Bool-cases, Option-cases, inl, inr,
  All-append, AllValues-lookup,
}
use surfwright.Session.RuntimePool.{
  PoolState, absent, warming, ready, degraded, draining, closed, RuntimeEntry, Lease, Pool,
  PoolLimits, put, Continuation, nothing, threshold, create, drain_rest,
  close_draining_entry_if_idle, goes_on, is_ready, session_authority, pool_key,
}
use surfwright.Session.RuntimePool.Connections.{choose_idle_lru_eviction_candidate, rewarm}
use surfwright.Session.RuntimePool.Calls.{
  acquire_new, acquire_entry, acquire, matches, release, degrade, handle_timeout, drain,
  threshold_close, check_threshold, after_cancel, drain_cold, cold_entries,
  drain_cold_entries_on_memory_pressure, continue_with, close_done,
}
use surfwright.Session.RuntimePool.Events.{
  Event, acquires, releases, times_out, memory_pressure, connects, resumes, closes, continues,
  cancels, pick, happens, history,
}
use surfwright.Session.RuntimePool.Safety.{Sound, Inv, put-Inv}
use surfwright.Session.RuntimePool.Safety.Moves.{
  Keeps, moved-cases, transition-Inv, moved-Inv, finalize-Inv, close_if_idle-Inv, goes_on-Inv,
}
use surfwright.Session.RuntimePool.Safety.Borrowed.{
  ready_open, serve-Inv, entry_lease-Inv, create_entry-Inv, returned-Inv, pick-All,
}
use surfwright.Session.RuntimePool.Safety.Connected.{connection_done-Inv}

rewarm-Inv : (id : ℕ) (p : Pool) → id < p.next_entry → Inv p → Inv (rewarm id p)
rewarm-Inv id p known inv =
    let warming_entry = record (p.heap id) { state = warming } in
    let q = put id warming_entry p in
    let r = put id (record (q.heap id) { is_warming = true }) q in
    elim (moved-cases id warming
      (λ q'. record (put id (record (q'.heap id) { is_warming = true }) q') {
        waiters = q'.waiters ++ (record { entry = id; rewarms = true } ∷ []);
        connecting = q'.connecting ++ (id ∷ []);
      })
      p) [
        | inl e ↦ subst Inv (sym e) inv
        | inr (allowed, e) ↦
            (let q_inv = transition-Inv id warming p refl allowed inv in
              let r_inv : Inv r =
                put-Inv id (record (q.heap id) { is_warming = true }) q q_inv refl (q_inv.sound id)
                  (λ h. (q_inv.blank id h).0) in
              subst Inv (sym e) record {
                counted = r_inv.counted;
                sound = r_inv.sound;
                blank = r_inv.blank;
                leases_open = r_inv.leases_open;
                past = r_inv.past;
                listed = r_inv.listed;
                awaited =
                    All-append (λ j. j < p.next_entry) p.connecting (id ∷ []) inv.awaited
                      (known, tt);
              })
      ]

module _ (limits : PoolLimits) where
  acquire_new-Inv :
      (key session_id cdp_origin : String) (now : ℕ)
      → Keeps (acquire_new limits key session_id cdp_origin now)
  unfolding acquire_new
  acquire_new-Inv key session_id cdp_origin now p inv =
      let created = create_entry-Inv key session_id cdp_origin now in
      elim (Bool-cases (ltb (length p.entries) limits.max_entries)) [
        | inl q ↦ rw q (created p inv)
        | inr q ↦ elim (Option-cases (choose_idle_lru_eviction_candidate p)) [
          | inl e ↦ rw (q, e) inv
          | inr (id, e) ↦
              (let after = create key session_id cdp_origin in
                rw (q, e)
                  (moved-Inv id draining (close_draining_entry_if_idle id after) p refl
                    (close_if_idle-Inv id after) inv))
        ]
      ]

  acquire_entry-Inv :
      (key session_id cdp_origin : String) (now id : ℕ) (state : PoolState) (browser : Option ℕ)
      (p : Pool)
      → (p.heap id).state ≡ state
      → (p.heap id).browser ≡ browser
      → id < p.next_entry
      → Inv p
      → Inv (acquire_entry limits key session_id cdp_origin now id state browser p)
  unfolding acquire_entry
  acquire_entry-Inv key session_id cdp_origin now id ready (some b) p s e known inv =
      entry_lease-Inv id b false now p inv e (inl (ready_open p id b inv s e))
  acquire_entry-Inv key session_id cdp_origin now id ready none p s e known inv =
      acquire_new-Inv key session_id cdp_origin now p inv
  acquire_entry-Inv key session_id cdp_origin now id warming browser p s e known inv =
      elim (Bool-cases (p.heap id).is_warming) [
        | inl q ↦ rw q inv
        | inr q ↦ rw q (acquire_new-Inv key session_id cdp_origin now p inv)
      ]
  acquire_entry-Inv key session_id cdp_origin now id degraded browser p s e known inv =
      rewarm-Inv id p known inv
  acquire_entry-Inv key session_id cdp_origin now id draining browser p s e known inv = inv
  acquire_entry-Inv key session_id cdp_origin now id closed browser p s e known inv =
      finalize-Inv id (acquire_new limits key session_id cdp_origin now) p
        (acquire_new-Inv key session_id cdp_origin now) inv
  acquire_entry-Inv key session_id cdp_origin now id absent browser p s e known inv =
      acquire_new-Inv key session_id cdp_origin now p inv

  acquire-Inv :
      (requested : Option String) (cdp_origin : String) (now : ℕ)
      → Keeps (acquire limits requested cdp_origin now)
  unfolding acquire
  acquire-Inv requested cdp_origin now p inv =
      let session_id = session_authority requested cdp_origin in
      let key = pool_key session_id in
      elim (Option-cases (lookup key p.entries)) [
        | inl e ↦ rw (acquire, e) (acquire_new-Inv key session_id cdp_origin now p inv)
        | inr (id, e) ↦
            (let known = AllValues-lookup (λ j. j < p.next_entry) key id p.entries inv.listed e in
              let found =
                acquire_entry-Inv key session_id cdp_origin now id (p.heap id).state
                  (p.heap id).browser p refl refl known inv in
              elim (Bool-cases (matches limits (p.heap id) session_id cdp_origin)) [
                | inl q ↦ rw (acquire, e, q) found
                | inr q ↦ rw (acquire, e, q) inv
              ])
      ]

  release-Inv :
      (lease : Lease) (rest : List Lease) (now place : ℕ) (p : Pool)
      → Inv p
      → pick place p.leases ≡ some (lease, rest)
      → Inv (release limits lease now (record p { leases = rest }))
  unfolding release
  release-Inv lease rest now place p inv e =
      let id = lease.entry in
      let entry = record (p.heap id) {
        borrow_count = (p.heap id).borrow_count - 1;
        last_used_at = now;
      } in
      close_if_idle-Inv id nothing (put id entry (record p { leases = rest }))
        (returned-Inv lease rest now place p inv e)

  degrade-Sound :
      (next id : ℕ) (closed_browsers : List (ℕ × ℕ)) (entry : RuntimeEntry)
      → Sound next closed_browsers id entry
      → Sound next closed_browsers id (degrade limits entry)
        × ((degrade limits entry).browser ≡ entry.browser)
        × ((degrade limits entry).borrow_count ≡ entry.borrow_count)
  degrade-Sound next id closed_browsers entry sound = elim (Bool-cases (is_ready entry.state)) [
    | inl q ↦
        (let kept : Sound next closed_browsers id (record entry { state = degraded }) = λ b e. (
          (sound b e).0,
          λ c.
              let drains : is_ready draining ≡ true =
                subst (λ s. is_ready s ≡ true) ((sound b e).1 c) q in
              absurd (cc),
        ) in
          rw q (kept, refl, refl))
    | inr q ↦ rw q (sound, refl, refl)
  ]

  handle_timeout-Inv : (key : String) → Keeps (handle_timeout limits key)
  unfolding handle_timeout
  handle_timeout-Inv key p inv = elim (Option-cases (lookup key p.entries)) [
    | inl e ↦ rw (handle_timeout, e) inv
    | inr (id, e) ↦
        (let entry = degrade limits (p.heap id) in
          let (sound, browsers, borrows) =
            degrade-Sound p.next_browser id p.closed_browsers (p.heap id) (inv.sound id) in
          rw (handle_timeout, e)
            (put-Inv id (record entry { timeout_strikes = suc entry.timeout_strikes }) p inv borrows
              sound (λ h. browsers ∙ (inv.blank id h).0)))
  ]

  threshold_close-Inv : (id : ℕ) (state : PoolState) → Keeps (threshold_close limits id state)
  unfolding threshold_close
  threshold_close-Inv id ready p inv =
      moved-Inv id draining (close_draining_entry_if_idle id nothing) p refl
        (close_if_idle-Inv id nothing) inv
  threshold_close-Inv id degraded p inv = finalize-Inv id (λ q. q) p (λ q k. k) inv
  threshold_close-Inv id absent p inv = close_if_idle-Inv id nothing p inv
  threshold_close-Inv id warming p inv = close_if_idle-Inv id nothing p inv
  threshold_close-Inv id draining p inv = close_if_idle-Inv id nothing p inv
  threshold_close-Inv id closed p inv = close_if_idle-Inv id nothing p inv

  check_threshold-Inv : (id : ℕ) → Keeps (check_threshold limits id)
  unfolding check_threshold
  check_threshold-Inv id p inv =
      elim (Bool-cases (leb limits.timeout_hard_close_threshold (p.heap id).timeout_strikes)) [
        | inl q ↦ rw q (threshold_close-Inv id (p.heap id).state p inv)
        | inr q ↦ rw q inv
      ]

  after_cancel-Inv : (id : ℕ) (cancelled : Bool) → Keeps (after_cancel limits id cancelled)
  unfolding after_cancel
  after_cancel-Inv id true p inv = check_threshold-Inv id p inv
  after_cancel-Inv id false p inv =
      let entry = p.heap id in
      let drains : Sound p.next_browser p.closed_browsers id
          (record entry { state = drain limits entry.state }) =
        λ b e. ((inv.sound id b e).0, λ c. ap (drain limits) ((inv.sound id b e).1 c)) in
      close_if_idle-Inv id (threshold id)
        (put id (record entry { state = drain limits entry.state }) p)
        (put-Inv id (record entry { state = drain limits entry.state }) p inv refl drains
          (λ h. (inv.blank id h).0))

  drain_cold-Inv : (ids : List ℕ) → Keeps (drain_cold limits ids)
  unfolding drain_cold
  drain_cold-Inv [] p inv = inv
  drain_cold-Inv (id ∷ ids) p inv =
      moved-Inv id draining (close_draining_entry_if_idle id (drain_rest ids)) p refl
        (close_if_idle-Inv id (drain_rest ids)) inv

  memory_pressure-Inv : (count : ℕ) → Keeps (drain_cold_entries_on_memory_pressure limits count)
  unfolding drain_cold_entries_on_memory_pressure
  memory_pressure-Inv count p inv =
      drain_cold-Inv (take count (cold_entries limits p.heap p.entries)) p inv

  continue_with-Inv : (after : Continuation) (now : ℕ) → Keeps (continue_with limits after now)
  unfolding continue_with
  continue_with-Inv nothing now p inv = inv
  continue_with-Inv (threshold id) now p inv = check_threshold-Inv id p inv
  continue_with-Inv (create key session_id cdp_origin) now p inv =
      create_entry-Inv key session_id cdp_origin now p inv
  continue_with-Inv (drain_rest ids) now p inv = drain_cold-Inv ids p inv

  close_done-Inv :
      (id : ℕ) (after : Continuation) (ok : Bool) → Keeps (close_done limits id after ok)
  unfolding close_done
  close_done-Inv id after true p inv = finalize-Inv id (goes_on after) p (goes_on-Inv after) inv
  close_done-Inv id after false p inv = inv

  pub happens-Inv : (now : ℕ) (event : Event) → Keeps (happens limits now event)
  unfolding happens
  happens-Inv now (acquires session_id cdp_origin) p inv =
      acquire-Inv session_id cdp_origin now p inv
  happens-Inv now (releases place) p inv = elim (Option-cases (pick place p.leases)) [
    | inl e ↦ rw (happens, e) inv
    | inr ((lease, rest), e) ↦ rw (happens, e) (release-Inv lease rest now place p inv e)
  ]
  happens-Inv now (times_out key) p inv = handle_timeout-Inv key p inv
  happens-Inv now (memory_pressure count) p inv = memory_pressure-Inv count p inv
  happens-Inv now (connects place ok) p inv = elim (Option-cases (pick place p.connecting)) [
    | inl e ↦ rw (happens, e) inv
    | inr ((id, rest), e) ↦
        (let (known, others) =
            pick-All (λ j. j < p.next_entry) place p.connecting id rest e inv.awaited in
          let q : Pool = record p { connecting = rest } in
          let q_inv : Inv q = record {
            counted = inv.counted;
            sound = inv.sound;
            blank = inv.blank;
            leases_open = inv.leases_open;
            past = inv.past;
            listed = inv.listed;
            awaited = others;
          } in
          rw (happens, e) (connection_done-Inv id ok q known q_inv))
  ]
  happens-Inv now (resumes place) p inv = elim (Option-cases (pick place p.resuming)) [
    | inl e ↦ rw (happens, e) inv
    | inr (((waiter, ok), rest), e) ↦
        rw (happens, e)
          (serve-Inv now ok waiter (p.heap waiter.entry).browser (record p { resuming = rest }) refl
            inv)
  ]
  happens-Inv now (closes place ok) p inv = elim (Option-cases (pick place p.closing)) [
    | inl e ↦ rw (happens, e) inv
    | inr (((id, after), rest), e) ↦
        rw (happens, e) (close_done-Inv id after ok (record p { closing = rest }) inv)
  ]
  happens-Inv now (continues place) p inv = elim (Option-cases (pick place p.continuing)) [
    | inl e ↦ rw (happens, e) inv
    | inr ((after, rest), e) ↦
        rw (happens, e) (continue_with-Inv after now (record p { continuing = rest }) inv)
  ]
  happens-Inv now (cancels place cancelled) p inv = elim (Option-cases (pick place p.cancelling)) [
    | inl e ↦ rw (happens, e) inv
    | inr ((id, rest), e) ↦
        rw (happens, e) (after_cancel-Inv id cancelled (record p { cancelling = rest }) inv)
  ]

  pub history-Inv : (events : List (ℕ × Event)) → Inv (history limits events)
  unfolding history
  history-Inv [] = record {
    counted = λ j. refl;
    sound = λ j b e. cc;
    blank = λ j h. (refl, refl);
    leases_open = tt;
    past = λ j b h. cc;
    listed = tt;
    awaited = tt;
  }
  history-Inv ((now, event) ∷ earlier) =
      happens-Inv now event (history limits earlier) (history-Inv earlier)
