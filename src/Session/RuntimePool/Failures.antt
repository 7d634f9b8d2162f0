-- ===== src/Session/RuntimePool/Failures.antt =====
-- src/core/session/infra/runtime-pool.ts: reconnections that fail, and closes at the strike threshold.
use surfwright.Base.{
  List, some, length, ℕ, ◌≤◌, true, false, ◌≡◌, refl, ap, ◌∙◌, none, [], ◌∷◌, ◌++◌, arith,
  if◌then◌else◌, leb, ◌==◌, Bool-cases, inl, inr, lookup, erase, lookup-erase_self, keep, not, ◌||◌,
  Distinct,
}
use surfwright.Session.RuntimePool.{
  absent, warming, degraded, RuntimeEntry, Waiter, Pool, PoolLimits, put, invalid_transition,
  warm_failed, log, closed, clear_entry, finalize_closed_entry, moved, same_state,
  allowed_transition,
}
use surfwright.Session.RuntimePool.Connections.{
  connection_done, warm_fails, serve, waits_for, settled, failed_state, forgets,
}
use surfwright.Session.RuntimePool.Calls.{after_cancel, check_threshold, threshold_close}
use surfwright.Session.RuntimePool.Events.{happens, resumes, pick}
use surfwright.Session.RuntimePool.Safety.Moves.{moved-allowed}
use surfwright.Session.RuntimePool.Safety.Connected.{put_here}

finalize-absent :
    (id : ℕ) (rest : Pool → Pool) (p : Pool)
    → (p.heap id).state ≡ absent
    → finalize_closed_entry id rest p ≡ log invalid_transition p
unfolding finalize_closed_entry
finalize-absent id rest p h = rw (moved, h) refl

-- Without an entry, the last transitions of a life.
abbrev finalized : ℕ → Pool → Pool
finalized id p =
    let q = put id (record (p.heap id) { state = closed }) p in
    record (put id (clear_entry (q.heap id)) q) { entries = erase (q.heap id).key q.entries }

finalize-degraded :
    (id : ℕ) (p : Pool)
    → (p.heap id).state ≡ degraded
    → finalize_closed_entry id (λ q. q) p ≡ finalized id p
unfolding finalize_closed_entry
finalize-degraded id p h =
    moved-allowed id closed
      (λ q. record (put id (clear_entry (q.heap id)) q) {
        entries = erase (q.heap id).key q.entries;
      })
      p (ap (λ s. same_state s closed || allowed_transition s closed) h)

settled_self :
    (id : ℕ)
    → (let w : Waiter = record { entry = id; rewarms = true } in
        settled id false (w ∷ []) ≡ (w, false) ∷ [])
settled_self id = elim (Bool-cases (id == id)) [
  | inl q ↦ rw q refl
  | inr q ↦ absurd (let no : ⊥ = ground arith in no)
]

pick-last {ℓ} :
    {A : Type ℓ} (xs : List A) (x : A) → pick (length xs) (xs ++ (x ∷ [])) ≡ some (x, xs)
pick-last [] x = refl
pick-last (y ∷ xs) x = rw (pick-last xs x) refl

-- An acquire that waits for the reconnection of an entry, alone, and goes on directly behind the failure
-- of the connection, gets an invalid transition, and not the pool's error.
pub connection_done-rewarm_fails :
    (limits : PoolLimits) (id now : ℕ) (p : Pool)
    → (p.heap id).state ≡ warming
    → p.waiters ≡ record { entry = id; rewarms = true } ∷ []
    → (happens limits now (resumes (length p.resuming)) (connection_done id false p)).outcomes
      ≡ invalid_transition ∷ p.outcomes
unfolding connection_done warm_fails happens serve
connection_done-rewarm_fails limits id now p is_warming alone =
    let entry = p.heap id in
    let failed = record entry { state = failed_state entry.state; is_warming = false } in
    let state : (if id == id then failed else p.heap id).state ≡ absent =
      ap (λ (e : RuntimeEntry). e.state) (put_here id failed entry) ∙ ap failed_state is_warming in
    let q : Pool = record (put id failed p) {
      entries = if forgets entry.state then erase entry.key p.entries else p.entries;
      waiters = keep (λ w. not (waits_for id w)) p.waiters;
      resuming = p.resuming;
    } in
    let waiter : Waiter = record { entry = id; rewarms = true } in
    let behind : settled id false p.waiters ≡ (waiter, false) ∷ [] = rw alone (settled_self id) in
    rw (happens, behind, pick-last p.resuming (waiter, false))
      (ap (λ (r : Pool). r.outcomes) (finalize-absent id (log warm_failed) q state))

-- A degraded entry with as many strikes as the threshold, whose command was cancelled: it loses its
-- browser and its place in the Map, and nothing is closed.
pub after_cancel-drops_browser :
    (limits : PoolLimits) (id : ℕ) (p : Pool)
    → (p.heap id).state ≡ degraded
    → limits.timeout_hard_close_threshold ≤ (p.heap id).timeout_strikes
    → Distinct p.entries
    → (let q = after_cancel limits id true p in
        (lookup (p.heap id).key q.entries ≡ none)
        × ((q.heap id).browser ≡ none)
        × (q.closed_browsers ≡ p.closed_browsers)
        × (q.closing ≡ p.closing))
unfolding after_cancel check_threshold threshold_close
after_cancel-drops_browser limits id p is_degraded strikes distinct =
    let reached : leb limits.timeout_hard_close_threshold (p.heap id).timeout_strikes ≡ true =
      ground arith in
    let mid = record (p.heap id) { state = closed } in
    let keys = ap (λ (e : RuntimeEntry). e.key) (put_here id mid (p.heap id)) in
    rw (reached, is_degraded, finalize-degraded id p is_degraded)
      (
        rw keys (lookup-erase_self (p.heap id).key p.entries distinct),
        ap (λ (e : RuntimeEntry). e.browser)
            (put_here id (clear_entry (if id == id then mid else p.heap id))
              (if id == id then mid else p.heap id)),
        refl,
        refl,
      )
