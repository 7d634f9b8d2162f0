-- ===== src/State/IdleParking/Counts.antt =====
-- src/core/state/infra/session-idle-parking.ts: the numbers of a report.
use surfwright.Base.{
  ℕ, suc, ◌+◌, ◌≤◌, String, Bool, true, false, not, ◌||◌, ◌≡◌, refl, subst, ap, Option, none, some,
  List, [], ◌∷◌, ◌++◌, arith, any, map, if◌then◌else◌, ltb, length, lookup, str_eq, length-append,
  Bool-cases, Option-cases, inl, inr,
}
use surfwright.Session.Hygiene.{SessionState}
use surfwright.Base.Json.{Number, finite, negative, not_finite}
use surfwright.State.DiskOptions.{Parsed, ok, query_invalid, ◌>>=◌}
use surfwright.State.IdleParking.{
  Machine, Config, Scan, Shutdowns, Parked, ParkResult, is_managed, is_eligible, alive_by, set_of,
  parse_optional_positive_int_in_range, parse_idle_managed_process_config, scan_session, scan_all,
  shut_down, park, park_all, park_idle, session_park_idle_managed_processes,
  stop_managed_session_process_strict, sort_by_id,
}
use surfwright.State.IdleParking.Order.{length-sort_by_id}

parse-Within :
    (value : Option Number) (name : String) (low high fallback n : ℕ)
    → fallback ≤ high
    → parse_optional_positive_int_in_range value name low high fallback ≡ ok n
    → n ≤ high
unfolding parse_optional_positive_int_in_range
parse-Within none name low high fallback n h e =
    (let same : fallback ≡ n = cc in omega (arith, same, h))
parse-Within (some (finite k exact)) name low high fallback n h e =
    elim (Bool-cases (not exact || ltb k low || ltb high k)) [
      | inl q ↦ absurd (let clash : query_invalid name low high ≡ ok n = rw q at e in cc)
      | inr q ↦
          (let found : ok k ≡ ok n = rw q at e in
            let same : k ≡ n = cc in let within : ltb high k ≡ false = ground arith in ground arith)
    ]
parse-Within (some negative) name low high fallback n h e = cc
parse-Within (some not_finite) name low high fallback n h e = cc

one_more :
    (stopped : Bool) (succeeded failed requested : ℕ)
    → succeeded + failed ≡ requested
    → (if stopped then suc succeeded else succeeded) + (if stopped then failed else suc failed)
      ≡ suc requested
one_more true succeeded failed requested h = omega (arith, h)
one_more false succeeded failed requested h = omega (arith, h)

module _ (machine : Machine) (config : Config) where
  -- The numbers of a scan of n sessions.
  abbrev Scanned : ℕ → Scan → Type 0
  Scanned n s =
      (length s.candidates ≤ config.sweep_cap)
      × (length s.candidates ≤ s.idle_eligible)
      × (s.idle_eligible ≤ s.scanned_managed)
      × (s.scanned_managed ≤ n)

  scan_session-Scanned :
      (session : SessionState) (n : ℕ) (s : Scan)
      → Scanned n s
      → Scanned (suc n) (scan_session machine config session s)
  unfolding scan_session
  scan_session-Scanned session n s (cap, eligible, managed, all) =
      elim (Bool-cases (is_managed session.kind)) [
        | inr q ↦ rw q (cap, eligible, managed, omega (arith, all))
        | inl q ↦ elim (Bool-cases (is_eligible machine config session)) [
          | inr r ↦ rw (q, r) (cap, eligible, omega (arith, managed), omega (arith, all))
          | inl r ↦ elim (Bool-cases (ltb (length s.candidates) config.sweep_cap)) [
            | inr full ↦
                rw (q, r, full)
                  (cap, omega (arith, eligible), omega (arith, managed), omega (arith, all))
            | inl free ↦
                (let longer = length-append s.candidates (session ∷ []) in
                  let room : suc (length s.candidates) ≤ config.sweep_cap = ground arith in
                  rw (q, r, free)
                    (
                      omega (arith, longer, room),
                      omega (arith, longer, eligible),
                      omega (arith, managed),
                      omega (arith, all),
                    ))
          ]
        ]
      ]

  pub scan_all-Scanned :
      (sessions : List SessionState) (n : ℕ) (s : Scan)
      → Scanned n s
      → Scanned (n + length sessions) (scan_all machine config sessions s)
  unfolding scan_all
  scan_all-Scanned [] n s (cap, eligible, managed, all) =
      (cap, eligible, managed, omega (arith, all))
  scan_all-Scanned (session ∷ sessions) n s h =
      let (cap, eligible, managed, all) =
        scan_all-Scanned sessions (suc n) (scan_session machine config session s)
          (scan_session-Scanned session n s h) in
      (cap, eligible, managed, omega (arith, all))

  -- Every candidate is asked to stop, and stops or not.
  pub shut_down-counts :
      (sessions : List SessionState) (s : Shutdowns)
      → s.succeeded + s.failed ≡ s.requested
      → (let after = shut_down machine sessions s in
          (after.succeeded + after.failed ≡ after.requested)
          × (after.requested ≡ s.requested + length sessions))
  unfolding shut_down
  shut_down-counts [] s h = (h, omega arith)
  shut_down-counts (session ∷ sessions) s h =
      let stopped =
        (stop_managed_session_process_strict machine.windows session.browser_pid
          (machine.polls session)).0 in
      let sent =
        (stop_managed_session_process_strict machine.windows session.browser_pid
          (machine.polls session)).1 in
      let next : Shutdowns = record {
        requested = suc s.requested;
        succeeded = if stopped then suc s.succeeded else s.succeeded;
        failed = if stopped then s.failed else suc s.failed;
        signals = s.signals ++ sent;
      } in
      let ih =
        shut_down-counts sessions next (one_more stopped s.succeeded s.failed s.requested h) in
      (ih.0, omega (arith, ih.1))

  park-count :
      (id : String) (found : Option SessionState) (p : Parked)
      → (park machine id found p).count ≤ suc p.count
  unfolding park
  park-count id none p = omega arith
  park-count id (some session) p =
      elim (Bool-cases
        (not (is_managed session.kind) || alive_by machine.exists_at_end session.browser_pid)) [
          | inl q ↦ rw q (omega arith)
          | inr q ↦ elim (Option-cases session.browser_pid) [
            | inl e ↦ rw (park, q, e) (omega arith)
            | inr (pid, e) ↦ rw (park, q, e) (omega arith)
          ]
        ]

  park_all-count :
      (ids : List String) (p : Parked) → (park_all machine ids p).count ≤ p.count + length ids
  unfolding park_all
  park_all-count [] p = omega arith
  park_all-count (id ∷ ids) p =
      let next = park machine id (lookup id p.sessions) p in
      omega (arith, park_all-count ids next, park-count id (lookup id p.sessions) p)

length-set_of : (ids set : List String) → length (set_of ids set) ≤ length set + length ids
length-set_of [] set = omega arith
length-set_of (id ∷ ids) set = elim (Bool-cases (any (str_eq id) set)) [
  | inl q ↦ rw q (omega (arith, length-set_of ids set))
  | inr q ↦ rw q (omega (arith, length-set_of ids (set ++ (id ∷ [])), length-append set (id ∷ [])))
]

length-ids :
    (sessions : List SessionState)
    → length (map (λ (s : SessionState). s.session_id) sessions) ≡ length sessions
length-ids [] = refl
length-ids (session ∷ sessions) = omega (arith, length-ids sessions)

park_idle-counts :
    (machine : Machine) (config : Config) (snapshot current : List (String × SessionState))
    → (let r = park_idle machine config snapshot current in
        (r.shutdowns.succeeded + r.shutdowns.failed ≡ r.shutdowns.requested)
        × (r.shutdowns.requested ≤ config.sweep_cap)
        × (r.shutdowns.requested ≤ r.scan.idle_eligible)
        × (r.scan.idle_eligible ≤ r.scan.scanned_managed)
        × (r.scan.scanned_managed ≤ length snapshot)
        × (r.parked.count ≤ r.shutdowns.requested))
unfolding park_idle
park_idle-counts machine config snapshot current =
    let sessions = sort_by_id machine snapshot in
    let none_yet : Scan = record { scanned_managed = 0; idle_eligible = 0; candidates = [] } in
    let scan = scan_all machine config sessions none_yet in
    let (cap, eligible, managed, all) =
      scan_all-Scanned machine config sessions 0 none_yet
        (omega arith, omega arith, omega arith, omega arith) in
    let (stopped, asked) =
      shut_down-counts machine config scan.candidates
        record { requested = 0; succeeded = 0; failed = 0; signals = [] } (omega arith) in
    let ids = map (λ (s : SessionState). s.session_id) scan.candidates in
    let parked =
      park_all-count machine config (set_of ids []) record { sessions = current; count = 0 } in
    (
      stopped,
      omega (arith, asked, cap),
      omega (arith, asked, eligible),
      managed,
      omega (arith, all, length-sort_by_id machine snapshot),
      omega (arith, asked, parked, length-set_of ids [], length-ids scan.candidates),
    )

abbrev config_of : ℕ → ℕ → Parsed Config
config_of ttl_ms cap_given = ok record { idle_ttl_ms = ttl_ms; sweep_cap = cap_given }

abbrev sweep_cap_of : Parsed Config → ℕ
sweep_cap_of (ok config) = config.sweep_cap
sweep_cap_of (query_invalid name low high) = 0

then-ok {ℓ κ} :
    {A : Type ℓ} {B : Type κ} (m : Parsed A) (f : A → Parsed B) (b : B)
    → (m >>= f) ≡ ok b
    → (a : A) × (m ≡ ok a) × (f a ≡ ok b)
then-ok (ok a) f b e = (a, refl, e)
then-ok (query_invalid name low high) f b e = cc

parse_idle_managed_process_config-cap :
    (ttl limit : Option Number) (config : Config)
    → parse_idle_managed_process_config ttl limit ≡ ok config
    → config.sweep_cap ≤ 200
unfolding parse_idle_managed_process_config
parse_idle_managed_process_config-cap ttl limit config e =
    let asked = parse_optional_positive_int_in_range limit "sweep-cap" 1 200 6 in
    let built = λ (ttl_ms cap_given : ℕ). config_of ttl_ms cap_given in
    let (t, _, behind) =
      then-ok (parse_optional_positive_int_in_range ttl "idle-ttl-ms" 60000 2592000000 1800000)
        (λ (ttl_ms : ℕ). asked >>= built ttl_ms) config e in
    let (n, found, made) = then-ok asked (built t) config behind in
    let same : n ≡ config.sweep_cap = ap sweep_cap_of made in
    subst (λ k. k ≤ 200) same (parse-Within limit "sweep-cap" 1 200 6 n (omega arith) found)

abbrev pub Counted : Machine → List (String × SessionState) → ParkResult → Type 0
Counted machine snapshot r =
    (r.shutdowns.succeeded + r.shutdowns.failed ≡ r.shutdowns.requested)
    × (r.shutdowns.requested ≤ r.config.sweep_cap)
    × (r.config.sweep_cap ≤ 200)
    × (r.shutdowns.requested ≤ r.scan.idle_eligible)
    × (r.scan.idle_eligible ≤ r.scan.scanned_managed)
    × (r.scan.scanned_managed ≤ length snapshot)
    × (r.parked.count ≤ r.shutdowns.requested)

-- The report of a call whose options are accepted: every candidate is asked to stop and either stops or
-- not, no more are asked than the cap allows, which is at most 200, nor than are idle, no more are idle
-- than managed and no more managed than there are sessions, and no more are parked than were asked.
pub session_park_idle_managed_processes-counts :
    (machine : Machine) (ttl limit : Option Number)
    (snapshot current : List (String × SessionState)) (r : ParkResult)
    → session_park_idle_managed_processes machine ttl limit snapshot current ≡ ok r
    → Counted machine snapshot r
unfolding session_park_idle_managed_processes park_idle
session_park_idle_managed_processes-counts machine ttl limit snapshot current r e =
    let (config, parsed, made) = then-ok _ _ r e in
    let whole = park_idle machine config snapshot current in
    let same : whole ≡ r = cc in
    let (stopped, few, eligible, managed, all, parked) =
      park_idle-counts machine config snapshot current in
    subst (Counted machine snapshot) same (
      stopped,
      few,
      parse_idle_managed_process_config-cap ttl limit config parsed,
      eligible,
      managed,
      all,
      parked,
    )
