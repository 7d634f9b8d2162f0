-- ===== src/State/StateLock.antt =====
-- src/core/state/infra/state-lock.ts, withStateFileLock. Between two waits the code is synchronous, so
-- one turn of its loop is one function: it tries to create the lock file, clears a stale one and looks
-- at the deadline. Several calls, of one process or more, take their turns in any order. A file is
-- what its content parses to, with its time; errors of the file system but EEXIST and ENOENT are left
-- out. A turn reads the clock once.
pub mod Calls
pub mod Exclusion
pub mod Histories
pub mod Recovery
pub mod Race
mod Tests
use surfwright.Base.{
  ℕ, ◌+◌, Bool, true, false, not, ◌&&◌, Option, none, some, if◌then◌else◌, ltb, leb,
}

-- The file's content: the owner, and when it was written; without that, when the file was changed.
pub record LockFile : Type 0 where
  pub owner : Option ℕ
  pub created : Option ℕ
  pub modified : Option ℕ

pub record LockLimits : Type 0 where
  pub timeout_ms : ℕ
  pub stale_ms : ℕ

-- Where a call of withStateFileLock is; a call that waits has its deadline.
pub data Phase : Type 0 where
  outside holding timed_out returned gone : Phase
  waiting : ℕ → Phase

unfoldable pub read_lock_timestamp_ms : Option LockFile → Option ℕ
read_lock_timestamp_ms none = none
read_lock_timestamp_ms (some file) = elim file.created [ none ↦ file.modified | some t ↦ some t ]

unfoldable pub parse_lock_owner_pid : Option LockFile → Option ℕ
parse_lock_owner_pid none = none
parse_lock_owner_pid (some file) = file.owner

abbrev pub is_owned : Option ℕ → Bool
is_owned none = false
is_owned (some pid) = true

-- `isPidAlive` of an owner, if there is one.
abbrev pub owner_alive : (ℕ → Bool) → Option ℕ → Bool
owner_alive is_pid_alive none = false
owner_alive is_pid_alive (some pid) = is_pid_alive pid

-- Whether clearStaleLock comes to an unlink, by what it has read.
unfoldable pub clear_verdict : ℕ → ℕ → Option ℕ → Bool → Option ℕ → Bool
clear_verdict stale_ms now owner alive created =
    if is_owned owner && alive then false else elim created [
      | none ↦ is_owned owner
      | some t ↦ if ltb now (t + stale_ms) then is_owned owner else true
    ]

module _ (stale_ms : ℕ) (is_pid_alive : ℕ → Bool) where
  unfoldable pub judge_lock : ℕ → Option LockFile → Bool
  judge_lock now file =
      let owner = parse_lock_owner_pid file in
      clear_verdict stale_ms now owner (owner_alive is_pid_alive owner)
        (read_lock_timestamp_ms file)

  -- `clearStaleLock`, the file behind it.
  unfoldable pub clear_stale_lock : ℕ → Option LockFile → Option LockFile
  clear_stale_lock now file = if judge_lock now file then none else file

  -- `tryCreateLock`, with the new file; `none` is EEXIST.
  abbrev pub try_create_lock : ℕ → ℕ → Option LockFile → Option LockFile
  try_create_lock pid now none =
      some record { owner = some pid; created = some now; modified = some now }
  try_create_lock pid now (some file) = none

  -- One try, with the phase of the call where the file is there.
  abbrev pub try_to_hold :
      ℕ → ℕ → Option LockFile → Option LockFile × Phase → Option LockFile × Phase
  try_to_hold pid now file otherwise = elim (try_create_lock pid now file) [
    | none ↦ otherwise
    | some created ↦ (some created, holding)
  ]

  abbrev pub owner_is_dead : Option ℕ → Bool
  owner_is_dead owner = is_owned owner && not (owner_alive is_pid_alive owner)

  -- Past the deadline.
  unfoldable pub last_turn : ℕ → ℕ → Option LockFile → Option LockFile × Phase
  last_turn pid now file =
      let cleared = clear_stale_lock now file in
      if owner_is_dead (parse_lock_owner_pid file)
      then try_to_hold pid now cleared (cleared, timed_out)
      else (file, timed_out)

  -- A turn of the loop: the file behind it, and where the call is then.
  unfoldable pub turn : ℕ → ℕ → ℕ → Option LockFile → Option LockFile × Phase
  turn pid now deadline file =
      let cleared = clear_stale_lock now file in
      let refused =
        if leb deadline now then last_turn pid now cleared else (cleared, waiting deadline) in
      try_to_hold pid now file refused
