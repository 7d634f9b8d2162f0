-- ===== src/State/SessionPrune/Counts.antt =====
-- src/core/state/infra/maintenance-session-prune.ts: the numbers of the summary.
use surfwright.Base.{
  ℕ, ◌+◌, String, Bool, true, false, ◌≡◌, refl, Option, none, some, List, [], ◌∷◌, arith, length,
  lookup, if◌then◌else◌, ◌∙◌, Bool-cases, inl, inr, length-erase, length-insert_old,
  lookup-insert_self,
}
use surfwright.Session.Hygiene.{
  SessionState, managed, attached, SessionKind, has_session_lease_expired, with_session_heartbeat,
  get_or,
}
use surfwright.State.SessionPrune.{
  Probe, PruneOptions, Applied, World, changed, should_drop, suspected, repairs, repair_pid,
  unreachable, by_probe, visit, prune_loop, keep_alive, remove_expired, drop_managed, removed_of,
  Sessions, session_prune_internal, snapshot_ids, probes_of, empty_tally,
}

module _ (world : World) (options : PruneOptions) where
  open world use {calendar, now, env_owner, env_ttl}

  -- The sessions and those counted as removed, together; and the removed managed ones, by cause.
  abbrev size : Applied → ℕ
  size a = length a.sessions + removed_of a.tally

  abbrev Causes : Applied → Type 0
  Causes a = a.tally.managed_unreachable ≡ a.tally.managed_by_grace + a.tally.managed_by_flag

  abbrev Counted : Applied → Applied → Type 0
  Counted a a' = (size a' ≡ size a) × Causes a'

  repair_pid-Counted :
      (a : Applied) (id : String) (session : SessionState)
      → lookup id a.sessions ≡ some session
      → Causes a
      → Counted a (repair_pid world a id session)
        × ((s : SessionState) × (lookup id (repair_pid world a id session).sessions ≡ some s))
  repair_pid-Counted a id session e c = elim (Bool-cases (repairs world session)) [
    | inl q ↦
        (let forgotten : SessionState = record session { browser_pid = none } in
          rw q (
            (omega (arith, length-insert_old id session forgotten a.sessions e), c),
            (forgotten, lookup-insert_self id forgotten a.sessions),
          ))
    | inr q ↦ rw q ((refl, c), (session, e))
  ]

  drop_managed-Counted :
      (a : Applied) (id : String) (session s : SessionState)
      → lookup id a.sessions ≡ some s
      → Causes a
      → Counted a (drop_managed world options a id session)
  drop_managed-Counted a id session s e c =
      (omega (arith, length-erase id s a.sessions e), ground (arith, c))

  unreachable-Counted :
      (a : Applied) (id : String) (session : SessionState) (kind : SessionKind)
      → lookup id a.sessions ≡ some session
      → Causes a
      → Counted a (unreachable world options a id session kind)
  unfolding unreachable
  unreachable-Counted a id session attached e c =
      elim (Bool-cases options.drop_attached_unreachable) [
        | inl q ↦ rw q (omega (arith, length-erase id session a.sessions e), c)
        | inr q ↦ rw q (refl, c)
      ]
  unreachable-Counted a id session managed e c =
      let a' = repair_pid world a id session in
      let ((same, c'), (s, found)) = repair_pid-Counted a id session e c in
      elim (Bool-cases (should_drop world options session)) [
        | inl q ↦
            (let (dropped, c'') = drop_managed-Counted a' id session s found c' in
              rw q (dropped ∙ same, c''))
        | inr q ↦
            (let new = suspected world (get_or (lookup id a'.sessions) session) in
              let marked = length-insert_old id s new a'.sessions found in
              rw q (omega (arith, marked, same), c'))
      ]

  either-Counted :
      (a x y : Applied) (b : Bool) → Counted a x → Counted a y → Counted a (if b then x else y)
  either-Counted a x y true h k = h
  either-Counted a x y false h k = k

  by_probe-Counted :
      (probe : Option Probe) (a : Applied) (id : String) (session : SessionState)
      → lookup id a.sessions ≡ some session
      → Causes a
      → Counted a (by_probe world options probe a id session)
  unfolding by_probe
  by_probe-Counted none a id session e c = (refl, c)
  by_probe-Counted (some probe) a id session e c =
      let beaten = with_session_heartbeat calendar now env_owner env_ttl session none in
      let kept = length-insert_old id session beaten a.sessions e in
      either-Counted a (keep_alive world a id session)
        (unreachable world options a id session session.kind) probe.reachable
        (omega (arith, kept), c) (unreachable-Counted a id session session.kind e c)

  visit-Counted :
      (probe : Option Probe) (a : Applied) (id : String) (o : Option SessionState)
      → lookup id a.sessions ≡ o
      → Causes a
      → Counted a (visit world options probe a id o)
  unfolding visit
  visit-Counted probe a id none e c = (refl, c)
  visit-Counted probe a id (some session) e c =
      let probed = by_probe world options probe a id session in
      let expired = remove_expired world a id session in
      let late = has_session_lease_expired calendar now session now in
      let removed : Counted a expired = (omega (arith, length-erase id session a.sessions e), c) in
      either-Counted a a (if late then expired else probed) (changed world probe session) (refl, c)
        (either-Counted a expired probed late removed (by_probe-Counted probe a id session e c))

  prune_loop-Counted :
      (probes : List (String × Probe)) (ids : List String) (a : Applied)
      → Causes a
      → Counted a (prune_loop world options probes ids a)
  unfolding prune_loop
  prune_loop-Counted probes [] a c = (refl, c)
  prune_loop-Counted probes (id ∷ ids) a c =
      let (first, c') = visit-Counted (lookup id probes) a id (lookup id a.sessions) refl c in
      let next = visit world options (lookup id probes) a id (lookup id a.sessions) in
      let (rest, c'') = prune_loop-Counted probes ids next c' in (rest ∙ first, c'')

  -- For every snapshot and every state, also one that changed in between: in the summary, the kept
  -- and the removed sessions together are those of the state that was changed, the kept ones are
  -- those of the new state, and the managed ones removed as unreachable are those removed by the
  -- second failed probe and those removed by the option.
  pub session_prune_internal-summary :
      (snapshot state : Sessions)
      → (let (after, summary, signals) = session_prune_internal world options snapshot state in
          (summary.kept + summary.removed ≡ length state.sessions)
          × (summary.kept ≡ length after.sessions)
          × (summary.tally.managed_unreachable
              ≡ summary.tally.managed_by_grace + summary.tally.managed_by_flag))
  unfolding session_prune_internal
  session_prune_internal-summary snapshot state =
      let start : Applied = record {
        sessions = state.sessions;
        tally = empty_tally;
        to_stop = [];
      } in
      let probes = probes_of world options snapshot in
      let (same, causes) = prune_loop-Counted probes (snapshot_ids world snapshot) start refl in
      (omega (arith, same), refl, causes)
