-- ===== src/State/IdleParking/Parking.antt =====
-- src/core/state/infra/session-idle-parking.ts: what the change of the state does to a session.
use surfwright.Base.{
  String, true, false, not, ◌||◌, ◌≡◌, ◌⊎◌, refl, sym, subst, ap, ◌∙◌, Option, none, some, List, [],
  ◌∷◌, arith, map, lookup, insert, lookup-insert, str_eq, eq_iff, Bool-cases, Option-cases, inl,
  inr,
}
use surfwright.Session.Hygiene.{SessionState}
use surfwright.State.IdleParking.{
  Machine, Config, Parked, is_managed, alive_by, park, park_all, park_idle, scan_of, set_of,
}

abbrev pub without_process : SessionState → SessionState
without_process session = record session { browser_pid = none }

module _ (machine : Machine) where
  -- A session before and behind: the same, or it was managed with a process that has ended, and has lost
  -- the number of that.
  abbrev pub Kept : Option SessionState → Option SessionState → Type 0
  Kept before after =
      (after ≡ before)
      ⊎ ((session : SessionState) × (before ≡ some session)
          × (is_managed session.kind ≡ true)
          × (alive_by machine.exists_at_end session.browser_pid ≡ false)
          × (after ≡ some (without_process session)))

  Kept-trans : (a b c : Option SessionState) → Kept a b → Kept b c → Kept a c
  Kept-trans a b c (inl e) (inl f) = inl (f ∙ e)
  Kept-trans a b c (inl e) (inr (s, was, m, dead, now)) = inr (s, sym e ∙ was, m, dead, now)
  Kept-trans a b c (inr (s, was, m, dead, now)) (inl f) = inr (s, was, m, dead, f ∙ now)
  Kept-trans a b c (inr (s, was, m, dead, now)) (inr (t, then_was, _, _, after)) =
      let same_session : without_process s ≡ t =
        (let both : some (without_process s) ≡ some t = sym now ∙ then_was in cc) in
      inr (
        s,
        was,
        m,
        dead,
        after ∙ ap (λ (x : SessionState). some (without_process x)) (sym same_session),
      )

  insert-Kept :
      (id other : String) (session : SessionState) (m : List (String × SessionState))
      → lookup id m ≡ some session
      → is_managed session.kind ≡ true
      → alive_by machine.exists_at_end session.browser_pid ≡ false
      → Kept (lookup other m) (lookup other (insert id (without_process session) m))
  insert-Kept id other session m e managed dead =
      let written = lookup-insert id other (without_process session) m in
      elim (Bool-cases (str_eq id other)) [
        | inl q ↦
            (let same : id ≡ other = (eq_iff id other).0 q in
              inr (
                session,
                subst (λ j. lookup j m ≡ some session) same e,
                managed,
                dead,
                written ∙ rw q refl,
              ))
        | inr q ↦ inl (written ∙ rw q refl)
      ]

  park-Kept :
      (id other : String) (found : Option SessionState) (p : Parked)
      → lookup id p.sessions ≡ found
      → Kept (lookup other p.sessions) (lookup other (park machine id found p).sessions)
  unfolding park
  park-Kept id other none p e = inl refl
  park-Kept id other (some session) p e =
      elim (Bool-cases
        (not (is_managed session.kind) || alive_by machine.exists_at_end session.browser_pid)) [
          | inl q ↦ rw q (inl refl)
          | inr q ↦ elim (Option-cases session.browser_pid) [
            | inl f ↦ rw (park, q, f) (inl refl)
            | inr (pid, f) ↦
                (let kept =
                    insert-Kept id other session p.sessions e (ground arith) (ground arith) in
                  rw (park, q, f) kept)
          ]
        ]

  park_all-Kept :
      (ids : List String) (other : String) (p : Parked)
      → Kept (lookup other p.sessions) (lookup other (park_all machine ids p).sessions)
  unfolding park_all
  park_all-Kept [] other p = inl refl
  park_all-Kept (id ∷ ids) other p =
      let next = park machine id (lookup id p.sessions) p in
      Kept-trans (lookup other p.sessions) (lookup other next.sessions)
        (lookup other (park_all machine ids next).sessions)
        (park-Kept id other (lookup id p.sessions) p refl) (park_all-Kept ids other next)

-- Behind the call, each id has the session that it had when the state was changed; only a managed one
-- whose process has ended by then may have lost its process number, and nothing else of it changes.
pub park_idle-Kept :
    (machine : Machine) (config : Config) (snapshot current : List (String × SessionState))
    (id : String)
    → Kept machine
        (lookup id current)
        (lookup id (park_idle machine config snapshot current).parked.sessions)
unfolding park_idle
park_idle-Kept machine config snapshot current id =
    let ids =
      map (λ (s : SessionState). s.session_id) (scan_of machine config snapshot).candidates in
    park_all-Kept machine (set_of ids []) id record { sessions = current; count = 0 }
