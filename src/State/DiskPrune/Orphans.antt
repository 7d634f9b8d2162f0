-- ===== src/State/DiskPrune/Orphans.antt =====
-- src/core/state/infra/disk-prune.ts: which profile directories are removed.
use surfwright.Base.{
  ℕ, String, Bool, true, false, ◌||◌, ◌≡◌, ◌⊎◌, ◌↔◌, refl, subst, ap, Option, List, [], ◌∷◌, arith,
  if◌then◌else◌, Text, str_eq, eq_iff, Bool-cases, inl, inr, Member, Member-cases, here, there,
  lookup,
}
use surfwright.Session.Hygiene.{SessionState}
use surfwright.State.DiskEntries.{DiskEntry, Tree}
use surfwright.State.DiskPrune.{
  has_path, add_path, entries_at, spared, add_orphans, prune_orphan_profiles,
  managed_session_uses_path, young,
}
use surfwright.State.DiskPrune.Retention.{has_path-add_path}

or-false : (a b : Bool) → (a || b) ≡ false → (a ≡ false) × (b ≡ false)
or-false a b h = ground arith

module _ (locale_less : String → String → Bool) (now : ℕ) (path_join : String → String → String)
    (path_resolve : Text → Text) (tree_at : String → Tree) where
  -- An entry that has the path and that nothing spares.
  abbrev Cause : List (String × SessionState) → Option ℕ → List DiskEntry → String → Type 0
  Cause sessions hours entries p =
      (entry : DiskEntry) × Member entry entries
      × (entry.path ≡ p)
      × (spared locale_less now path_join path_resolve tree_at sessions hours entry ≡ false)

  add_orphans-Cause :
      (sessions : List (String × SessionState)) (hours : Option ℕ) (es : List DiskEntry)
      (ps : List String) (p : String)
      → has_path p (add_orphans locale_less now path_join path_resolve tree_at sessions hours es ps)
        ≡ true
      → (has_path p ps ≡ true) ⊎ Cause sessions hours es p
  unfolding add_orphans
  add_orphans-Cause sessions hours [] ps p h = inl h
  add_orphans-Cause sessions hours (e ∷ es) ps p h =
      let is_spared = spared locale_less now path_join path_resolve tree_at sessions hours e in
      let next = if is_spared then ps else add_path e.path ps in
      elim (add_orphans-Cause sessions hours es next p h) [
        | inr (x, m, same, kept) ↦ inr (x, there m, same, kept)
        | inl k ↦ elim (Bool-cases is_spared) [
          | inl q ↦
              inl
                (subst (λ (b : Bool). has_path p (if b then ps else add_path e.path ps) ≡ true) q k)
          | inr q ↦
              (let added : has_path p (add_path e.path ps) ≡ true =
                  subst (λ (b : Bool). has_path p (if b then ps else add_path e.path ps) ≡ true) q
                    k in
                elim (Bool-cases (str_eq e.path p)) [
                  | inl r ↦ inr (e, here, (eq_iff e.path p).0 r, q)
                  | inr r ↦ inl (ground (arith, added, has_path-add_path p e.path ps))
                ])
        ]
      ]

  add_orphans-keeps :
      (sessions : List (String × SessionState)) (hours : Option ℕ) (es : List DiskEntry)
      (ps : List String) (p : String)
      → has_path p ps ≡ true
      → has_path p (add_orphans locale_less now path_join path_resolve tree_at sessions hours es ps)
        ≡ true
  unfolding add_orphans
  add_orphans-keeps sessions hours [] ps p h = h
  add_orphans-keeps sessions hours (e ∷ es) ps p h =
      let added : has_path p (add_path e.path ps) ≡ true =
        ground (arith, has_path-add_path p e.path ps) in
      elim (Bool-cases (spared locale_less now path_join path_resolve tree_at sessions hours e)) [
        | inl q ↦ rw q (add_orphans-keeps sessions hours es ps p h)
        | inr q ↦ rw q (add_orphans-keeps sessions hours es (add_path e.path ps) p added)
      ]

  add_orphans-adds :
      (sessions : List (String × SessionState)) (hours : Option ℕ) (entry : DiskEntry)
      (es : List DiskEntry) (ps : List String)
      → Member entry es
      → spared locale_less now path_join path_resolve tree_at sessions hours entry ≡ false
      → has_path entry.path
          (add_orphans locale_less now path_join path_resolve tree_at sessions hours es ps)
        ≡ true
  unfolding add_orphans
  add_orphans-adds sessions hours entry [] ps m h = elim m [ ]
  add_orphans-adds sessions hours entry (e ∷ es) ps m h = elim (Member-cases m) [
    | inl same ↦
        (let spares = spared locale_less now path_join path_resolve tree_at sessions hours in
          let left : spares e ≡ false = subst (λ x. spares x ≡ false) same h in
          let added : has_path entry.path (add_path e.path ps) ≡ true = ground (
            arith,
            has_path-add_path entry.path e.path ps,
            eq_iff e.path entry.path,
            ap DiskEntry.path same,
          ) in
          rw left (add_orphans-keeps sessions hours es (add_path e.path ps) entry.path added))
    | inr k ↦ add_orphans-adds sessions hours entry es _ k h
  ]

  -- An entry of the directory with the path, which the session stored under the entry's name, if there
  -- is one, does not use as its profile, and which is not younger than the limit.
  abbrev pub Orphan : String → List (String × SessionState) → Option ℕ → String → Type 0
  Orphan profiles_dir sessions hours p =
      (entry : DiskEntry) × Member entry
        (entries_at locale_less now path_join path_resolve tree_at profiles_dir)
      × (entry.path ≡ p)
      × (managed_session_uses_path locale_less now path_join path_resolve tree_at
            (lookup entry.name sessions) entry.path
          ≡ false)
      × (young locale_less now path_join path_resolve tree_at hours entry ≡ false)

  -- The pruning of a profile directory removes a path exactly when it is no dry run and the path is
  -- that of an entry there that is not younger than the limit, where there is one, and that is not the
  -- profile of the managed session stored under the entry's own name. No other session is looked at:
  -- an entry that a session with another id uses is removed like any other.
  pub prune_orphan_profiles-removed :
      (profiles_dir : String) (sessions : List (String × SessionState)) (max_age_hours : Option ℕ)
      (dry_run : Bool) (p : String)
      → (has_path p
            (prune_orphan_profiles locale_less now path_join path_resolve tree_at profiles_dir
              sessions max_age_hours dry_run).1
          ≡ true)
        ↔ ((dry_run ≡ false) × Orphan profiles_dir sessions max_age_hours p)
  unfolding prune_orphan_profiles
  prune_orphan_profiles-removed profiles_dir sessions hours true p =
      (λ h. cc, λ (wet, orphan). absurd (let clash : true ≡ false = wet in cc))
  prune_orphan_profiles-removed profiles_dir sessions hours false p =
      let entries = entries_at locale_less now path_join path_resolve tree_at profiles_dir in
      let paths =
        add_orphans locale_less now path_join path_resolve tree_at sessions hours entries [] in
      (
        λ h. elim (add_orphans-Cause sessions hours entries [] p h) [
          | inl none_yet ↦ absurd (let clash : false ≡ true = none_yet in cc)
          | inr (x, m, same, kept) ↦
              (let uses =
                  managed_session_uses_path locale_less now path_join path_resolve tree_at
                    (lookup x.name sessions) x.path in
                let (unused, old) =
                  or-false uses (young locale_less now path_join path_resolve tree_at hours x)
                    kept in
                (refl, (x, m, same, unused, old)))
        ],
        λ (wet, (x, m, same, unused, old)).
            subst (λ q. has_path q paths ≡ true) same
              (add_orphans-adds sessions hours x entries [] m (rw (unused, old) refl)),
      )
