-- ===== src/Session/Normalize.antt =====
-- src/core/session/app/state-normalizer.ts: a session as it is read from the state file, and the
-- integers of core/shared/domain/numeric.ts. One call reads the clock once.
pub mod Shape
mod Tests
use surfwright.Base.{
  ℕ, String, Bool, true, false, ◌≡◌, Option, none, some, List, [], ◌∷◌, if◌then◌else◌, leb, Text,
  lit, text_eq, trim, ◌>>=◌,
}
use surfwright.Base.Json.{
  Json, null, bool, num, str, arr, obj, Number, finite, negative, not_finite, items, property,
  as_text, nonempty, filled_text,
}
use surfwright.Session.Hygiene.{
  SessionKind, managed, attached, SessionPolicy, BrowserMode, headless, headed, unknown,
  AppliedExtension, SessionState, Calendar, normalize_agent_id, normalize_session_policy,
  normalize_session_lease_ttl_ms, default_session_policy_for_kind, session_default_lease_ttl_ms,
  get_or, lease_expiry_iso,
}

abbrev positive : ℕ → Option ℕ
positive n = if leb n 0 then none else some n

unfoldable pub as_positive_integer : Option Json → Option ℕ
as_positive_integer (some (num (finite floor exact))) = positive floor
as_positive_integer _ = none

unfoldable pub as_non_negative_integer : Option Json → Option ℕ
as_non_negative_integer (some (num (finite floor exact))) = some floor
as_non_negative_integer _ = none

abbrev as_bool : Option Json → Option Bool
as_bool (some (bool b)) = some b
as_bool _ = none

abbrev finite_number : Option Json → Option Number
finite_number (some (num (finite floor exact))) = some (finite floor exact)
finite_number (some (num negative)) = some negative
finite_number _ = none

abbrev pub is_literal : String → Option Json → Bool
is_literal s (some (str t)) = text_eq t (lit s)
is_literal s _ = false

-- One entry of the list; `none` is the early `continue`.
unfoldable pub normalize_applied_extension : Json → Option AppliedExtension
normalize_applied_extension value = do
  id ← filled_text (property (lit "id") value)
  name ← filled_text (property (lit "name") value)
  version ← filled_text (property (lit "version") value)
  path ← filled_text (property (lit "path") value)
  enabled ← as_bool (property (lit "enabled") value)
  build_fingerprint ← filled_text (property (lit "buildFingerprint") value)
  some record {
    id = id;
    name = name;
    version = version;
    path = path;
    manifest_version = finite_number (property (lit "manifestVersion") value);
    enabled = enabled;
    build_fingerprint = build_fingerprint;
    runtime_installed = is_literal "runtime-installed" (property (lit "state") value);
    runtime_id = filled_text (property (lit "runtimeId") value);
  }

abbrev push_some {ℓ} : {A : Type ℓ} → Option A → List A → List A
push_some none rest = rest
push_some (some a) rest = a ∷ rest

normalize_entries : List Json → List AppliedExtension
normalize_entries [] = []
normalize_entries (v ∷ vs) = push_some (normalize_applied_extension v) (normalize_entries vs)

unfoldable pub normalize_applied_extensions : Option Json → List AppliedExtension
unfolding normalize_entries
normalize_applied_extensions (some (arr vs)) = normalize_entries (items vs)
normalize_applied_extensions _ = []

abbrev normalize_kind : Option Json → SessionKind
normalize_kind v = if is_literal "attached" v then attached else managed

abbrev normalize_browser_mode : SessionKind → Option Json → BrowserMode
normalize_browser_mode attached v = unknown
normalize_browser_mode managed v = if is_literal "headed" v then headed else headless

-- What only a managed session has.
abbrev if_managed {ℓ} : {A : Type ℓ} → SessionKind → A → A → A
if_managed managed value other = value
if_managed attached value other = other

abbrev trimmed_text : Option Json → Option Text
trimmed_text (some (str t)) = nonempty (some (trim t))
trimmed_text _ = none

abbrev or_else {ℓ} : {A : Type ℓ} → Option A → Option A → Option A
or_else none other = other
or_else (some a) other = some a

abbrev normalize_ttl : Option Json → Option ℕ
normalize_ttl (some (num n)) = normalize_session_lease_ttl_ms n
normalize_ttl _ = none

-- A text as its id, anything else as the agent of the environment.
abbrev normalize_owner : Option Text → Option Json → Option Text
normalize_owner agent (some (str t)) = normalize_agent_id t
normalize_owner agent _ = agent

-- The functions that the caller passes, and what the environment says.
pub record Defaults : Type 0 where
  pub default_user_data_dir : String → Text
  pub infer_debug_port : Text → Option ℕ
  pub agent_id : Option Text
  pub env_ttl : ℕ

module _ (calendar : Calendar) (now : ℕ) (defaults : Defaults) where
  open calendar use {to_iso}

  -- The fields of a session whose endpoint and kind are known.
  unfoldable pub session_of : String → Json → Text → SessionKind → SessionState
  session_of session_id value cdp_origin kind =
      let field = λ (name : String). property (lit name) value in
      let policy =
        get_or (normalize_session_policy (as_text (field "policy")))
          (default_session_policy_for_kind kind) in
      let ttl =
        get_or (normalize_ttl (field "leaseTtlMs"))
          (session_default_lease_ttl_ms defaults.env_ttl policy) in
      let user_data_dir =
        get_or (filled_text (field "userDataDir")) (defaults.default_user_data_dir session_id) in
      record {
        session_id = session_id;
        kind = kind;
        policy = policy;
        browser_mode = normalize_browser_mode kind (field "browserMode");
        cdp_origin = cdp_origin;
        debug_port =
            or_else (as_positive_integer (field "debugPort"))
              (defaults.infer_debug_port cdp_origin);
        user_data_dir = if_managed kind (some user_data_dir) none;
        profile = if_managed kind (trimmed_text (field "profile")) none;
        browser_executable_path =
            if_managed kind (trimmed_text (field "browserExecutablePath")) none;
        browser_pid = as_positive_integer (field "browserPid");
        owner_id = normalize_owner defaults.agent_id (field "ownerId");
        lease_expires_at = some (
            get_or (filled_text (field "leaseExpiresAt"))
              (lease_expiry_iso calendar now (to_iso now) ttl));
        lease_ttl_ms = some ttl;
        managed_unreachable_since = filled_text (field "managedUnreachableSince");
        managed_unreachable_count =
            get_or (as_non_negative_integer (field "managedUnreachableCount")) 0;
        extension_set_fingerprint =
            if_managed kind (filled_text (field "extensionSetFingerprint")) none;
        applied_extensions =
            if_managed kind (normalize_applied_extensions (field "appliedExtensions")) [];
        created_at = get_or (filled_text (field "createdAt")) (to_iso now);
        last_seen_at = get_or (filled_text (field "lastSeenAt")) (to_iso now);
      }

  unfoldable pub normalize_session_state : String → Json → Option SessionState
  normalize_session_state session_id raw = do
    cdp_origin ← filled_text (property (lit "cdpOrigin") raw)
    some (session_of session_id raw cdp_origin (normalize_kind (property (lit "kind") raw)))
