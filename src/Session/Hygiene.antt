-- ===== src/Session/Hygiene.antt =====
-- src/core/session/domain/hygiene.ts and app/hygiene.ts, with the limits and types of core/types.ts.
-- Times are texts, read and written by a calendar that is a parameter; `now` is the time of a call.
-- The variables of the environment are parameters too.
pub mod AgentId
pub mod Lease
mod Tests
use surfwright.Base.{
  ℕ, ◌+◌, ◌*◌, ◌≤◌, min, max, String, Bool, true, false, not, ◌&&◌, ◌||◌, ◌≡◌, Option, none, some,
  List, [], ◌∷◌, map, reverse, if◌then◌else◌, ltb, leb, ◌==◌, length, take, all, Text, lit, text_eq,
  trim,
}
use surfwright.Base.Json.{Json, num, str, Number, finite, negative, not_finite, nonempty}

abbrev pub default_session_lease_ttl_ms : ℕ
default_session_lease_ttl_ms = 72 * 60 * 60 * 1000

abbrev pub min_session_lease_ttl_ms : ℕ
min_session_lease_ttl_ms = 60 * 1000

abbrev pub max_session_lease_ttl_ms : ℕ
max_session_lease_ttl_ms = 30 * 24 * 60 * 60 * 1000

abbrev pub default_ephemeral_session_lease_ttl_ms : ℕ
default_ephemeral_session_lease_ttl_ms = 4 * 60 * 60 * 1000

pub data SessionKind : Type 0 where
  managed attached : SessionKind

pub data SessionPolicy : Type 0 where
  ephemeral persistent : SessionPolicy

pub data BrowserMode : Type 0 where
  headless headed unknown : BrowserMode

pub record AppliedExtension : Type 0 where
  pub id : Text
  pub name : Text
  pub version : Text
  pub path : Text
  pub manifest_version : Option Number
  pub enabled : Bool
  pub build_fingerprint : Text
  pub runtime_installed : Bool
  pub runtime_id : Option Text

pub record SessionState : Type 0 where
  pub session_id : String
  pub kind : SessionKind
  pub policy : SessionPolicy
  pub browser_mode : BrowserMode
  pub cdp_origin : Text
  pub debug_port : Option ℕ
  pub user_data_dir : Option Text
  pub profile : Option Text
  pub browser_executable_path : Option Text
  pub browser_pid : Option ℕ
  pub owner_id : Option Text
  pub lease_expires_at : Option Text
  pub lease_ttl_ms : Option ℕ
  pub managed_unreachable_since : Option Text
  pub managed_unreachable_count : ℕ
  pub extension_set_fingerprint : Option Text
  pub applied_extensions : List AppliedExtension
  pub created_at : Text
  pub last_seen_at : Text

-- The last time that a Date has; `toISOString` throws beyond it.
abbrev pub last_date_ms : ℕ
last_date_ms = 100 * 1000 * 1000 * 24 * 60 * 60 * 1000

-- `Date.parse`, `none` where it is not a number, and `toISOString`, of times from 1970 on.
pub record Calendar : Type 0 where
  pub parse : Text → Option ℕ
  pub to_iso : ℕ → Text
  pub parse-empty : parse [] ≡ none
  pub parse-to_iso : (t : ℕ) → t ≤ last_date_ms → parse (to_iso t) ≡ some t

abbrev pub is_alnum : ℕ → Bool
is_alnum c = (leb b'A' c && leb c b'Z') || (leb b'a' c && leb c b'z') || (leb b'0' c && leb c b'9')

-- The characters of `AGENT_ID_PATTERN`.
abbrev pub is_agent_char : ℕ → Bool
is_agent_char c = is_alnum c || (c == 46) || (c == 95) || (c == 45)

abbrev is_boundary : ℕ → Bool
is_boundary c = (c == 46) || (c == 45)

drop_boundary : Text → Text
drop_boundary [] = []
drop_boundary (c ∷ t) = if is_boundary c then drop_boundary t else c ∷ t

pub trim_boundary_dots_and_dashes : Text → Text
trim_boundary_dots_and_dashes t = reverse (drop_boundary (reverse (drop_boundary t)))

abbrev dash_for : ℕ → ℕ
dash_for c = if is_agent_char c then c else 45

-- `replaceAll(/-+/g, "-")`: a dash behind a dash goes.
collapse : Bool → Text → Text
collapse after [] = []
collapse after (c ∷ t) =
    if c == 45
    then (if after then collapse true t else c ∷ collapse true t)
    else c ∷ collapse false t

abbrev pub is_agent_id : Text → Bool
is_agent_id [] = false
is_agent_id (c ∷ t) = all is_agent_char (c ∷ t)

cleaned : Text → Text
cleaned value = trim_boundary_dots_and_dashes (trim (collapse false (map dash_for value)))

abbrev shortened : Text → Option Text
shortened [] = none
shortened (c ∷ t) = some (take 64 (c ∷ t))

agent_id_of : Text → Option Text
agent_id_of [] = none
agent_id_of (c ∷ t) = if is_agent_id (c ∷ t) then some (c ∷ t) else shortened (cleaned (c ∷ t))

unfoldable pub normalize_agent_id : Text → Option Text
unfolding agent_id_of cleaned trim_boundary_dots_and_dashes drop_boundary collapse
normalize_agent_id input = agent_id_of (trim input)

clamped_ttl : ℕ → Option ℕ
clamped_ttl parsed =
    if leb parsed 0
    then none
    else some (max min_session_lease_ttl_ms (min parsed max_session_lease_ttl_ms))

-- The argument is a number; other values give `none` at the callers.
unfoldable pub normalize_session_lease_ttl_ms : Number → Option ℕ
unfolding clamped_ttl
normalize_session_lease_ttl_ms (finite floor exact) = clamped_ttl floor
normalize_session_lease_ttl_ms negative = none
normalize_session_lease_ttl_ms not_finite = none

unfoldable pub normalize_session_policy : Option Text → Option SessionPolicy
normalize_session_policy none = none
normalize_session_policy (some t) =
    if text_eq t (lit "ephemeral")
    then some ephemeral
    else if text_eq t (lit "persistent")
    then some persistent
    else none

abbrev pub default_session_policy_for_kind : SessionKind → SessionPolicy
default_session_policy_for_kind attached = ephemeral
default_session_policy_for_kind managed = persistent

abbrev pub default_session_lease_ttl : SessionPolicy → ℕ
default_session_lease_ttl ephemeral = default_ephemeral_session_lease_ttl_ms
default_session_lease_ttl persistent = default_session_lease_ttl_ms

-- `sessionDefaultLeaseTtlMs`, by the time to live that the environment asks for.
unfoldable pub session_default_lease_ttl_ms : ℕ → SessionPolicy → ℕ
session_default_lease_ttl_ms env_ttl policy =
    if env_ttl == default_session_lease_ttl_ms then default_session_lease_ttl policy else env_ttl

abbrev pub get_or {ℓ} : {A : Type ℓ} → Option A → A → A
get_or none d = d
get_or (some a) d = a

abbrev ttl_number : Option ℕ → Option ℕ
ttl_number none = none
ttl_number (some n) = normalize_session_lease_ttl_ms (finite n true)

abbrev owner_of : Option Text → Option Text
owner_of none = none
owner_of (some t) = normalize_agent_id t

abbrev or_owner : Option Text → Option Text → Option Text
or_owner none d = d
or_owner (some t) d = some t

module _ (calendar : Calendar) (now : ℕ) where
  open calendar use {parse, to_iso}

  unfoldable pub lease_expiry_iso : Text → ℕ → Text
  lease_expiry_iso anchor ttl = to_iso (get_or (parse anchor) now + ttl)

  -- A time that is given and not empty, or the time of the call.
  abbrev pub observed_time : Option Text → Text
  observed_time at = get_or (nonempty at) (to_iso now)

  -- `withSessionHeartbeat` of domain/hygiene.ts. A stored policy is already one of the two.
  unfoldable pub with_session_heartbeat_pure :
      SessionState → Option Text → Option Text → ℕ → SessionState
  with_session_heartbeat_pure session observed default_owner default_ttl =
      let at = observed_time observed in
      let ttl = get_or (ttl_number session.lease_ttl_ms) default_ttl in
      record session {
        owner_id = or_owner (owner_of session.owner_id) default_owner;
        lease_ttl_ms = some ttl;
        lease_expires_at = some (lease_expiry_iso at ttl);
        managed_unreachable_since = none;
        managed_unreachable_count = 0;
        last_seen_at = at;
      }

  abbrev expiry_passed : ℕ → Option ℕ → Bool
  expiry_passed now_ms none = false
  expiry_passed now_ms (some t) = leb t now_ms

  abbrev lease_time : Option Text → Option ℕ
  lease_time none = none
  lease_time (some t) = parse t

  unfoldable pub has_session_lease_expired : SessionState → ℕ → Bool
  has_session_lease_expired session now_ms =
      expiry_passed now_ms (lease_time (nonempty session.lease_expires_at))

  -- `withSessionHeartbeat` of app/hygiene.ts, by what the environment names as owner and as ttl.
  unfoldable pub with_session_heartbeat :
      Option Text → ℕ → SessionState → Option Text → SessionState
  with_session_heartbeat env_owner env_ttl session observed =
      with_session_heartbeat_pure session observed env_owner
        (session_default_lease_ttl_ms env_ttl session.policy)
