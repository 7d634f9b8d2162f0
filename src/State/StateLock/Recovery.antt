-- ===== src/State/StateLock/Recovery.antt =====
-- src/core/state/infra/state-lock.ts: the lock of a process that has ended.
use surfwright.Base.{
  ℕ, ◌+◌, Bool, true, false, ◌≡◌, refl, sym, ◌∙◌, Option, none, some, if◌then◌else◌, ltb, leb,
  Bool-cases, inl, inr,
}
use surfwright.State.StateLock.Exclusion.{no_owner}
use surfwright.State.StateLock.{
  LockFile, timed_out, waiting, turn, parse_lock_owner_pid, last_turn, clear_stale_lock, judge_lock,
  clear_verdict, read_lock_timestamp_ms,
}

clear_verdict-dead :
    (stale_ms now owner : ℕ) (created : Option ℕ)
    → clear_verdict stale_ms now (some owner) false created ≡ true
unfolding clear_verdict
clear_verdict-dead stale_ms now owner none = refl
clear_verdict-dead stale_ms now owner (some t) = elim (Bool-cases (ltb now (t + stale_ms))) [
  | inl q ↦ rw q refl
  | inr q ↦ rw q refl
]

-- The lock of a process that has ended is stale, whatever its time.
pub judge_lock-dead :
    (stale_ms : ℕ) (is_alive : ℕ → Bool) (owner now : ℕ) (file : Option LockFile)
    → parse_lock_owner_pid file ≡ some owner
    → is_alive owner ≡ false
    → judge_lock stale_ms is_alive now file ≡ true
unfolding judge_lock
judge_lock-dead stale_ms is_alive owner now file e dead =
    rw e (rw dead (clear_verdict-dead stale_ms now owner (read_lock_timestamp_ms file)))

last_turn-free :
    (stale_ms : ℕ) (is_alive : ℕ → Bool) (pid now : ℕ)
    → last_turn stale_ms is_alive pid now none ≡ (none, timed_out)
unfolding last_turn clear_stale_lock judge_lock parse_lock_owner_pid
last_turn-free stale_ms is_alive pid now = refl

-- A turn at the lock of a process that has ended: the lock is removed, but the call does not get it.
-- Before its deadline it waits; from then on it fails, although the lock is free.
pub turn-dead_owner :
    (stale_ms : ℕ) (is_alive : ℕ → Bool) (pid owner now deadline : ℕ) (file : Option LockFile)
    → parse_lock_owner_pid file ≡ some owner
    → is_alive owner ≡ false
    → turn stale_ms is_alive pid now deadline file
      ≡ (none, if leb deadline now then timed_out else waiting deadline)
unfolding turn clear_stale_lock
turn-dead_owner stale_ms is_alive pid owner now deadline none e dead =
    absurd (let no : none ≡ some owner = sym no_owner ∙ e in cc)
turn-dead_owner stale_ms is_alive pid owner now deadline (some file) e dead =
    let stale = judge_lock-dead stale_ms is_alive owner now (some file) e dead in
    elim (Bool-cases (leb deadline now)) [
      | inl q ↦ rw (q, stale) (last_turn-free stale_ms is_alive pid now)
      | inr q ↦ rw (q, stale) refl
    ]
