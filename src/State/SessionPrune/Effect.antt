-- ===== src/State/SessionPrune/Effect.antt =====
-- src/core/state/infra/maintenance-session-prune.ts: what becomes of each session.
use surfwright.Base.{
  String, Bool, false, ◌≡◌, refl, Option, none, some, List, [], ◌∷◌, arith, any, lookup, insert,
  erase, lookup-insert, lookup-erase_ne, lookup-erase_self, Distinct, insert-Distinct,
  erase-Distinct, if◌then◌else◌, str_eq, eq_iff, Bool-cases, Option-cases, inl, inr, sym, ◌∙◌, ap,
}
use surfwright.Session.Hygiene.{
  SessionState, managed, attached, SessionKind, has_session_lease_expired, with_session_heartbeat,
}
use surfwright.State.SessionPrune.{
  Probe, PruneOptions, Applied, World, pid_is_alive, changed, should_drop, suspected, repair_pid,
  unreachable, by_probe, visit, prune_loop, Sessions, session_prune_internal, snapshot_ids,
  probes_of, active_of, empty_tally,
}

module _ {ℓ} {V : Type ℓ} where
  -- The second map is the first with the key's binding set, or removed by `none`.
  abbrev Sets : List (String × V) → String → Option V → List (String × V) → Type ℓ
  Sets m id new m' =
      Distinct m' × ((j : String) → lookup j m' ≡ (if str_eq id j then new else lookup j m))

  Sets-erase : (m : List (String × V)) (id : String) → Distinct m → Sets m id none (erase id m)
  Sets-erase m id d = (
    erase-Distinct id m d,
    λ j. elim (Bool-cases (str_eq id j)) [
      | inl e ↦
          (let same : id ≡ j = (eq_iff id j).0 e in rw (e, sym same) (lookup-erase_self id m d))
      | inr e ↦ rw e (lookup-erase_ne id j m e)
    ],
  )

  Sets-insert :
      (m : List (String × V)) (id : String) (v : V)
      → Distinct m
      → Sets m id (some v) (insert id v m)
  Sets-insert m id v d = (insert-Distinct id v m d, λ j. lookup-insert id j v m)

  Sets-same :
      (m : List (String × V)) (id : String) (o : Option V)
      → Distinct m
      → lookup id m ≡ o
      → Sets m id o m
  Sets-same m id o d e = (
    d,
    λ j. elim (Bool-cases (str_eq id j)) [
      | inl q ↦ (let same : id ≡ j = (eq_iff id j).0 q in rw (q, sym same) e)
      | inr q ↦ rw q refl
    ],
  )

  Sets-trans :
      (m m' m'' : List (String × V)) (id : String) (v w : Option V)
      → Sets m id v m'
      → Sets m' id w m''
      → Sets m id w m''
  Sets-trans m m' m'' id v w (d, h) (d', k) = (
    d',
    λ j. elim (Bool-cases (str_eq id j)) [
      | inl q ↦ (k j ∙ (rw q refl))
      | inr q ↦ ground (arith, h j, k j)
    ],
  )

module _ (world : World) (options : PruneOptions) where
  open world use {calendar, now, env_owner, env_ttl}

  forget_pid : SessionState → SessionState
  forget_pid session =
      if pid_is_alive world session.browser_pid
      then session
      else record session { browser_pid = none }

  -- What a probe that is still of the session decides; `none` for a session that is removed.
  unreachable_verdict : SessionState → SessionKind → Option SessionState
  unreachable_verdict session attached =
      if options.drop_attached_unreachable then none else some session
  unreachable_verdict session managed =
      if should_drop world options session
      then none
      else some (suspected world (forget_pid session))

  probed_verdict : Option Probe → SessionState → Option SessionState
  probed_verdict none session = some session
  probed_verdict (some probe) session =
      if probe.reachable
      then some (with_session_heartbeat calendar now env_owner env_ttl session none)
      else unreachable_verdict session session.kind

  -- What the second loop makes of one session, from its own state and its own probe.
  unfoldable pub verdict : Option Probe → Option SessionState → Option SessionState
  unfolding forget_pid unreachable_verdict probed_verdict
  verdict probe none = none
  verdict probe (some session) =
      if changed world probe session
      then some session
      else if has_session_lease_expired calendar now session now
      then none
      else probed_verdict probe session

  -- `a'` is `a` with the binding of `id` set.
  abbrev SetsIn : Applied → String → Option SessionState → Applied → Type 0
  SetsIn a id new a' = Sets a.sessions id new a'.sessions

  without_pid :
      (session : SessionState)
      → session.browser_pid ≡ none
      → session ≡ record session { browser_pid = none }
  without_pid session e = ap (λ pid. record session { browser_pid = pid }) e

  repair_pid-Sets :
      (a : Applied) (id : String) (session : SessionState)
      → Distinct a.sessions
      → lookup id a.sessions ≡ some session
      → SetsIn a id (some (forget_pid session)) (repair_pid world a id session)
  unfolding forget_pid
  repair_pid-Sets a id session d e =
      let m = a.sessions in
      let forgotten : SessionState = record session { browser_pid = none } in
      elim (Bool-cases (pid_is_alive world session.browser_pid)) [
        | inl alive ↦ rw alive (Sets-same m id (some session) d e)
        | inr dead ↦ elim (Option-cases session.browser_pid) [
          | inl no_pid ↦
              (let same : session ≡ forgotten = without_pid session no_pid in
                rw (dead, no_pid) (Sets-same m id (some forgotten) d (e ∙ ap some same)))
          | inr (pid, has) ↦ rw (dead, has) (Sets-insert m id forgotten d)
        ]
      ]

  unreachable-Sets :
      (a : Applied) (id : String) (session : SessionState) (kind : SessionKind)
      → Distinct a.sessions
      → lookup id a.sessions ≡ some session
      → SetsIn a id (unreachable_verdict session kind) (unreachable world options a id session kind)
  unfolding unreachable_verdict unreachable
  unreachable-Sets a id session attached d e = elim (Bool-cases options.drop_attached_unreachable) [
    | inl q ↦ rw q (Sets-erase a.sessions id d)
    | inr q ↦ rw q (Sets-same a.sessions id (some session) d e)
  ]
  unreachable-Sets a id session managed d e =
      let repaired = repair_pid-Sets a id session d e in
      let m = (repair_pid world a id session).sessions in
      let found : lookup id m ≡ some (forget_pid session) =
        ground (arith, repaired.1 id, eq_iff id id) in
      elim (Bool-cases (should_drop world options session)) [
        | inl q ↦
            (let erased = Sets-erase m id repaired.0 in
              rw q (
                Sets-trans a.sessions m (erase id m) id (some (forget_pid session)) none repaired
                  erased))
        | inr q ↦
            (let new = suspected world (forget_pid session) in
              let set = Sets-insert m id new repaired.0 in
              rw (q, found)
                (Sets-trans a.sessions m (insert id new m) id (some (forget_pid session)) (some new)
                  repaired set))
      ]

  by_probe-Sets :
      (probe : Option Probe) (a : Applied) (id : String) (session : SessionState)
      → Distinct a.sessions
      → lookup id a.sessions ≡ some session
      → SetsIn a id (probed_verdict probe session) (by_probe world options probe a id session)
  unfolding probed_verdict by_probe
  by_probe-Sets none a id session d e = Sets-same a.sessions id (some session) d e
  by_probe-Sets (some probe) a id session d e = elim (Bool-cases probe.reachable) [
    | inl q ↦
        (let beaten = with_session_heartbeat calendar now env_owner env_ttl session none in
          rw q (Sets-insert a.sessions id beaten d))
    | inr q ↦ rw q (unreachable-Sets a id session session.kind d e)
  ]

  visit-Sets :
      (probe : Option Probe) (a : Applied) (id : String) (o : Option SessionState)
      → Distinct a.sessions
      → lookup id a.sessions ≡ o
      → SetsIn a id (verdict probe o) (visit world options probe a id o)
  unfolding verdict visit
  visit-Sets probe a id none d e = Sets-same a.sessions id none d e
  visit-Sets probe a id (some session) d e = elim (Bool-cases (changed world probe session)) [
    | inl q ↦ rw q (Sets-same a.sessions id (some session) d e)
    | inr q ↦ elim (Bool-cases (has_session_lease_expired calendar now session now)) [
      | inl p ↦ rw (q, p) (Sets-erase a.sessions id d)
      | inr p ↦ rw (q, p) (by_probe-Sets probe a id session d e)
    ]
  ]

  -- Whether the snapshot has a session of an id, and that it has no two.
  abbrev pub listed : String → List String → Bool
  listed id ids = any (λ j. str_eq j id) ids

  abbrev pub NoRepeat : List String → Type 0
  NoRepeat [] = Unit
  NoRepeat (id ∷ ids) = (listed id ids ≡ false) × NoRepeat ids

  prune_loop-verdict :
      (probes : List (String × Probe)) (ids : List String) (a : Applied) (j : String)
      → NoRepeat ids
      → Distinct a.sessions
      → lookup j (prune_loop world options probes ids a).sessions ≡ (
          if listed j ids
          then verdict (lookup j probes) (lookup j a.sessions)
          else lookup j a.sessions)
  unfolding prune_loop
  prune_loop-verdict probes [] a j h d = refl
  prune_loop-verdict probes (id ∷ ids) a j (fresh, h) d =
      let next = visit world options (lookup id probes) a id (lookup id a.sessions) in
      let (d', set) = visit-Sets (lookup id probes) a id (lookup id a.sessions) d refl in
      let here = set j in
      let rest = prune_loop-verdict probes ids next j h d' in
      elim (Bool-cases (str_eq id j)) [
        | inl q ↦
            (let same : id ≡ j = (eq_iff id j).0 q in
              let gone : listed j ids ≡ false = rw (sym same) fresh in
              let settled : lookup j (prune_loop world options probes ids next).sessions
                  ≡ lookup j next.sessions =
                rest ∙ rw gone refl in
              let set_now : lookup j next.sessions
                  ≡ verdict (lookup id probes) (lookup id a.sessions) =
                here ∙ rw q refl in
              let decide = λ (k : String). verdict (lookup k probes) (lookup k a.sessions) in
              rw q (settled ∙ set_now ∙ ap decide same))
        | inr q ↦
            (let unchanged : lookup j next.sessions ≡ lookup j a.sessions = here ∙ rw q refl in
              let decide = λ (o : Option SessionState).
                (if listed j ids then verdict (lookup j probes) o else o) in
              rw q (rest ∙ ap decide unchanged))
      ]

  -- Where the ids of the snapshot do not repeat and the state has each key once, the two loops
  -- together treat every session on its own, whatever the order and whatever happened to the state
  -- between them: a session that the snapshot does not have is left as it is; any other becomes what
  -- `verdict` says of it and of its own probe. That is: unchanged where it changed since its probe,
  -- removed where its lease is over, unchanged where it was not probed, renewed where it was reached,
  -- and otherwise removed or marked, by its kind, by the options and by the probes that failed
  -- before. The id of the active session is kept where that session is, and cleared otherwise.
  pub session_prune_internal-verdict :
      (snapshot state : Sessions) (j : String)
      → NoRepeat (snapshot_ids world snapshot)
      → Distinct state.sessions
      → (let after = (session_prune_internal world options snapshot state).0 in
          let probes = probes_of world options snapshot in
          (lookup j after.sessions ≡ (
            if listed j (snapshot_ids world snapshot)
            then verdict (lookup j probes) (lookup j state.sessions)
            else lookup j state.sessions))
          × (after.active_session_id ≡ active_of world state.active_session_id after.sessions))
  unfolding session_prune_internal
  session_prune_internal-verdict snapshot state j h d =
      let start : Applied = record {
        sessions = state.sessions;
        tally = empty_tally;
        to_stop = [];
      } in
      let probes = probes_of world options snapshot in
      (prune_loop-verdict probes (snapshot_ids world snapshot) start j h d, refl)
