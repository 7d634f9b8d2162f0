-- ===== src/State/StateLock/Exclusion.antt =====
-- src/core/state/infra/state-lock.ts: at most one call holds the lock, as long as no process ends
-- while one of its calls holds it.
use surfwright.Base.{
  ℕ, Bool, true, false, ◌≡◌, refl, sym, ◌∙◌, Option, none, some, if◌then◌else◌, leb, Bool-cases,
  inl, inr,
}
use surfwright.State.StateLock.{
  LockFile, Phase, holding, timed_out, waiting, turn, parse_lock_owner_pid, last_turn,
  clear_stale_lock, judge_lock, clear_verdict, try_to_hold, owner_is_dead,
}

abbrev pub is_holding : Phase → Bool
is_holding holding = true
is_holding _ = false

pub no_owner : parse_lock_owner_pid none ≡ none
unfolding parse_lock_owner_pid
no_owner = refl

module _ (stale_ms : ℕ) (is_alive : ℕ → Bool) where
  clear_stale_lock-live :
      (owner now : ℕ) (file : Option LockFile)
      → parse_lock_owner_pid file ≡ some owner
      → is_alive owner ≡ true
      → clear_stale_lock stale_ms is_alive now file ≡ file
  unfolding clear_stale_lock judge_lock clear_verdict
  clear_stale_lock-live owner now file e alive = rw e (rw alive refl)

  last_turn-live :
      (pid owner now : ℕ) (file : Option LockFile)
      → parse_lock_owner_pid file ≡ some owner
      → is_alive owner ≡ true
      → last_turn stale_ms is_alive pid now file ≡ (file, timed_out)
  unfolding last_turn
  last_turn-live pid owner now file e alive = rw e (rw alive refl)

  -- A turn before an owner that lives leaves its lock, however old, and waits until the deadline.
  pub turn-live_owner :
      (pid owner now deadline : ℕ) (file : Option LockFile)
      → parse_lock_owner_pid file ≡ some owner
      → is_alive owner ≡ true
      → turn stale_ms is_alive pid now deadline file
        ≡ (file, if leb deadline now then timed_out else waiting deadline)
  unfolding turn
  turn-live_owner pid owner now deadline none e alive =
      absurd (let no : none ≡ some owner = sym no_owner ∙ e in cc)
  turn-live_owner pid owner now deadline (some file) e alive =
      let kept = clear_stale_lock-live owner now (some file) e alive in
      let last = last_turn-live pid owner now (some file) e alive in
      elim (Bool-cases (leb deadline now)) [
        | inl q ↦ rw q (rw kept last)
        | inr q ↦ rw q (rw kept refl)
      ]

  try_to_hold-holds :
      (pid now : ℕ) (file : Option LockFile) (otherwise : Option LockFile × Phase)
      → (is_holding otherwise.1 ≡ true → parse_lock_owner_pid otherwise.0 ≡ some pid)
      → (let after = try_to_hold stale_ms is_alive pid now file otherwise in
          is_holding after.1 ≡ true → parse_lock_owner_pid after.0 ≡ some pid)
  unfolding parse_lock_owner_pid
  try_to_hold-holds pid now none otherwise k h = refl
  try_to_hold-holds pid now (some file) otherwise k h = k h

  last_turn-holds :
      (pid now : ℕ) (file : Option LockFile)
      → (let after = last_turn stale_ms is_alive pid now file in
          is_holding after.1 ≡ true → parse_lock_owner_pid after.0 ≡ some pid)
  unfolding last_turn
  last_turn-holds pid now file =
      elim (Bool-cases (owner_is_dead stale_ms is_alive (parse_lock_owner_pid file))) [
        | inl q ↦
            (let cleared = clear_stale_lock stale_ms is_alive now file in
              rw q (try_to_hold-holds pid now cleared (cleared, timed_out) (λ h. cc)))
        | inr q ↦ rw q (λ h. cc)
      ]

  -- Who comes to hold the lock has put its number into the file.
  pub turn-holds :
      (pid now deadline : ℕ) (file : Option LockFile)
      → (let after = turn stale_ms is_alive pid now deadline file in
          is_holding after.1 ≡ true → parse_lock_owner_pid after.0 ≡ some pid)
  unfolding turn
  turn-holds pid now deadline file =
      let cleared = clear_stale_lock stale_ms is_alive now file in
      let refused =
        if leb deadline now
        then last_turn stale_ms is_alive pid now cleared
        else (cleared, waiting deadline) in
      try_to_hold-holds pid now file refused (elim (Bool-cases (leb deadline now)) [
        | inl q ↦ rw q (last_turn-holds pid now cleared)
        | inr q ↦ rw q (λ h. cc)
      ])
