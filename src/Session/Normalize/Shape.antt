-- ===== src/Session/Normalize/Shape.antt =====
-- src/core/session/app/state-normalizer.ts: what every session that it accepts looks like.
use surfwright.Base.{
  ℕ, String, ◌≡◌, refl, Option, none, >>=-some, some, [], Text, inl, inr, subst, Bool-cases, ◌⊎◌,
  lit,
}
use surfwright.Base.Json.{Json, null, bool, str, arr, obj, property, as_text, filled_text, num}
use surfwright.Session.Hygiene.{
  SessionKind, managed, attached, SessionState, Calendar, get_or, unknown, headless, headed,
  normalize_session_policy, default_session_policy_for_kind, session_default_lease_ttl_ms,
}
use surfwright.Session.Hygiene.Lease.{
  Bounded, normalize_session_lease_ttl_ms-Bounded, session_default_lease_ttl_ms-Bounded,
}
use surfwright.Session.Normalize.{
  is_literal, normalize_session_state, session_of, normalize_kind, normalize_ttl, Defaults,
  normalize_browser_mode,
}

-- The fields that the kind decides.
abbrev pub OfKind : SessionKind → SessionState → Type 0
OfKind attached s =
    (s.browser_mode ≡ unknown)
    × (s.user_data_dir ≡ none)
    × (s.profile ≡ none)
    × (s.browser_executable_path ≡ none)
    × (s.extension_set_fingerprint ≡ none)
    × (s.applied_extensions ≡ [])
OfKind managed s =
    ((s.browser_mode ≡ headless) ⊎ (s.browser_mode ≡ headed))
    × (dir : Text) × (s.user_data_dir ≡ some dir)

normalize_browser_mode-managed :
    (v : Option Json)
    → (normalize_browser_mode managed v ≡ headless) ⊎ (normalize_browser_mode managed v ≡ headed)
normalize_browser_mode-managed v = elim (Bool-cases (is_literal "headed" v)) [
  | inl e ↦ rw e (inr refl)
  | inr e ↦ rw e (inl refl)
]

normalize_ttl-Bounded : (v : Option Json) (d : ℕ) → Bounded d → Bounded (get_or (normalize_ttl v) d)
normalize_ttl-Bounded (some (num n)) d h = normalize_session_lease_ttl_ms-Bounded n d h
normalize_ttl-Bounded none d h = h
normalize_ttl-Bounded (some null) d h = h
normalize_ttl-Bounded (some (bool b)) d h = h
normalize_ttl-Bounded (some (str t)) d h = h
normalize_ttl-Bounded (some (arr vs)) d h = h
normalize_ttl-Bounded (some (obj fs)) d h = h

module _ (calendar : Calendar) (now : ℕ) (defaults : Defaults) where
  session_of-OfKind :
      (id : String) (raw : Json) (origin : Text) (kind : SessionKind)
      → OfKind kind (session_of calendar now defaults id raw origin kind)
  unfolding session_of
  session_of-OfKind id raw origin attached = (refl, refl, refl, refl, refl, refl)
  session_of-OfKind id raw origin managed =
      let mode = normalize_browser_mode-managed (property (lit "browserMode") raw) in
      (
        mode,
        get_or (filled_text (property (lit "userDataDir") raw)) (defaults.default_user_data_dir id),
        refl,
      )

  abbrev Shape : String → Text → SessionState → Type 0
  Shape id origin s =
      (s.session_id ≡ id)
      × (s.cdp_origin ≡ origin)
      × OfKind s.kind s
      × (ttl : ℕ) × (s.lease_ttl_ms ≡ some ttl)
      × Bounded ttl

  session_of-Shape :
      (id : String) (raw : Json) (origin : Text) (kind : SessionKind)
      → Bounded defaults.env_ttl
      → Shape id origin (session_of calendar now defaults id raw origin kind)
  unfolding session_of
  session_of-Shape id raw origin kind h =
      let given = normalize_session_policy (as_text (property (lit "policy") raw)) in
      let policy = get_or given (default_session_policy_for_kind kind) in
      let default_ttl = session_default_lease_ttl_ms defaults.env_ttl policy in
      let bounded = session_default_lease_ttl_ms-Bounded defaults.env_ttl policy h in
      let ttl_bounded =
        normalize_ttl-Bounded (property (lit "leaseTtlMs") raw) default_ttl bounded in
      (refl, refl, session_of-OfKind id raw origin kind, _, refl, ttl_bounded)

  -- For every JSON value that the normalizer accepts as the session of an id: the session has that
  -- id and the value's endpoint, which is not empty; an attached session has browser mode unknown
  -- and no profile directory, profile, browser or extensions, a managed one is headless or headed
  -- and has a directory; and its time to live is within the limits, where that of the environment
  -- is.
  pub normalize_session_state-shape :
      (id : String) (raw : Json) (s : SessionState)
      → Bounded defaults.env_ttl
      → normalize_session_state calendar now defaults id raw ≡ some s
      → (s.session_id ≡ id)
        × (filled_text (property (lit "cdpOrigin") raw) ≡ some s.cdp_origin)
        × OfKind s.kind s
        × ((ttl : ℕ) × (s.lease_ttl_ms ≡ some ttl) × Bounded ttl)
  unfolding normalize_session_state
  normalize_session_state-shape id raw s h e =
      let kind = normalize_kind (property (lit "kind") raw) in
      let origin_field = filled_text (property (lit "cdpOrigin") raw) in
      let made = λ (origin : Text). some (session_of calendar now defaults id raw origin kind) in
      let (origin, found, built) = >>=-some origin_field made s e in
      let same : session_of calendar now defaults id raw origin kind ≡ s = cc in
      let (same_id, same_origin, of_kind, ttl, is_ttl, bounded) =
        subst (Shape id origin) same (session_of-Shape id raw origin kind h) in
      let endpoint : origin_field ≡ some s.cdp_origin = rw (same_origin) found in
      (same_id, endpoint, of_kind, (ttl, is_ttl, bounded))
