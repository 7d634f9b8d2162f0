-- ===== src/State/DiskPrune/Retention.antt =====
-- src/core/state/infra/disk-prune.ts: what is kept by age and by size.
use surfwright.Base.{
  ℕ, ◌+◌, ◌≤◌, String, Bool, true, false, ◌||◌, ◌≡◌, refl, Option, none, some, List, [], ◌∷◌, ◌++◌,
  if◌then◌else◌, ltb, str_eq, eq_iff, Bool-cases, arith, subst, sym, ap, inl, inr, Member, here,
  there, Member-cases,
}
use surfwright.State.DiskEntries.{DiskEntry, sort, place}
use surfwright.State.DiskPrune.{
  has_path, add_path, bytes_of, kept_entries, newer, too_old, add_aged, add_oversize, by_age,
  by_size, pick_entries_to_remove,
}

has_path-append :
    (p : String) (ps qs : List String) → has_path p (ps ++ qs) ≡ (has_path p ps || has_path p qs)
has_path-append p [] qs = refl
has_path-append p (q ∷ ps) qs = ground (arith, has_path-append p ps qs)

pub has_path-add_path :
    (p q : String) (ps : List String) → has_path p (add_path q ps) ≡ (str_eq q p || has_path p ps)
has_path-add_path p q ps = ground (arith, has_path-append p ps (q ∷ []), eq_iff q p)

add_path_new :
    (p : String) (ps : List String) → has_path p ps ≡ false → add_path p ps ≡ ps ++ (p ∷ [])
add_path_new p ps h = rw h refl

module _ {ℓ} {A : Type ℓ} where
  swap_first : {x a b : A} {bs : List A} → Member x (a ∷ b ∷ bs) → Member x (b ∷ a ∷ bs)
  swap_first here = there here
  swap_first (there here) = here
  swap_first (there (there m)) = there (there m)

  below :
      {x a : A} {bs cs : List A}
      → (Member x bs → Member x cs)
      → Member x (a ∷ bs)
      → Member x (a ∷ cs)
  below f here = here
  below f (there m) = there (f m)

  Member-place :
      (before : A → A → Bool) (x e : A) (es : List A)
      → Member x (e ∷ es)
      → Member x (place before e es)
  unfolding place
  Member-place before x e [] m = m
  Member-place before x e (f ∷ es) m = elim (Bool-cases (before f e)) [
    | inl q ↦ rw q (below (Member-place before x e es) (swap_first m))
    | inr q ↦ rw q m
  ]

  Member-sort :
      (before : A → A → Bool) (x : A) (es : List A) → Member x es → Member x (sort before es)
  unfolding sort
  Member-sort before x [] m = m
  Member-sort before x (e ∷ es) m =
      Member-place before x e (sort before es) (below (Member-sort before x es) m)

-- What the kept entries take does not depend on the order.
bytes_of-kept-place :
    (before : DiskEntry → DiskEntry → Bool) (ps : List String) (e : DiskEntry) (es : List DiskEntry)
    → bytes_of (kept_entries ps (place before e es)) ≡ bytes_of (kept_entries ps (e ∷ es))
unfolding place
bytes_of-kept-place before ps e [] = refl
bytes_of-kept-place before ps e (f ∷ es) = ground (arith, bytes_of-kept-place before ps e es)

bytes_of-kept-sort :
    (before : DiskEntry → DiskEntry → Bool) (ps : List String) (es : List DiskEntry)
    → bytes_of (kept_entries ps (sort before es)) ≡ bytes_of (kept_entries ps es)
unfolding sort
bytes_of-kept-sort before ps [] = refl
bytes_of-kept-sort before ps (e ∷ es) =
    ground
      (arith, bytes_of-kept-sort before ps es, bytes_of-kept-place before ps e (sort before es))

module _ (locale_less : String → String → Bool) (now : ℕ) where
  -- Paths are only added.
  add_oversize-has_path :
      (max running : ℕ) (es : List DiskEntry) (ps : List String) (p : String)
      → has_path p ps ≡ true
      → has_path p (add_oversize locale_less now max running es ps) ≡ true
  unfolding add_oversize
  add_oversize-has_path max running [] ps p h = h
  add_oversize-has_path max running (e ∷ es) ps p h =
      let added : has_path p (add_path e.path ps) ≡ true =
        ground (arith, has_path-add_path p e.path ps) in
      elim (Bool-cases (has_path e.path ps)) [
        | inl q ↦ rw (q, add_oversize) (add_oversize-has_path max running es ps p h)
        | inr q ↦ elim (Bool-cases (ltb max (running + e.bytes))) [
          | inl r ↦
              rw (q, add_oversize, r)
                (add_oversize-has_path max running es (add_path e.path ps) p added)
          | inr r ↦
              rw (q, add_oversize, r) (add_oversize-has_path max (running + e.bytes) es ps p h)
        ]
      ]

  kept_cons_le :
      (ps : List String) (e : DiskEntry) (es : List DiskEntry)
      → bytes_of (kept_entries ps (e ∷ es)) ≤ e.bytes + bytes_of (kept_entries ps es)
  kept_cons_le ps e es = ground arith

  kept_cons_gone :
      (ps : List String) (e : DiskEntry) (es : List DiskEntry)
      → has_path e.path ps ≡ true
      → bytes_of (kept_entries ps (e ∷ es)) ≡ bytes_of (kept_entries ps es)
  kept_cons_gone ps e es h = rw h refl

  -- The bound of a result that is known to be `out`.
  abbrev Fits : ℕ → ℕ → List DiskEntry → List String → Type 0
  Fits max running es out = running + bytes_of (kept_entries out es) ≤ max

  add_oversize-bound :
      (max running : ℕ) (es : List DiskEntry) (ps : List String)
      → running ≤ max
      → Fits max running es (add_oversize locale_less now max running es ps)
  unfolding add_oversize
  add_oversize-bound max running [] ps h = omega arith
  add_oversize-bound max running (e ∷ es) ps h =
      let run =
        λ (running' : ℕ) (ps' : List String). add_oversize locale_less now max running' es ps' in
      let result = add_oversize locale_less now max running (e ∷ es) ps in
      let finish : (out : List String)
          → result ≡ out
          → Fits max running (e ∷ es) out
          → Fits max running (e ∷ es) result =
        λ out step fits. subst (Fits max running (e ∷ es)) (sym step) fits in
      elim (Bool-cases (has_path e.path ps)) [
        | inl q ↦
            (let gone =
                kept_cons_gone (run running ps) e es
                  (add_oversize-has_path max running es ps e.path q) in
              let rest = add_oversize-bound max running es ps h in
              finish (run running ps) (rw (q, add_oversize) refl) (omega (arith, rest, gone)))
        | inr q ↦ elim (Bool-cases (ltb max (running + e.bytes))) [
          | inl r ↦
              (let qs = ps ++ (e.path ∷ []) in
                let added : has_path e.path qs ≡ true =
                  ground (arith, has_path-append e.path ps (e.path ∷ []), eq_iff e.path e.path) in
                let gone =
                  kept_cons_gone (run running qs) e es
                    (add_oversize-has_path max running es qs e.path added) in
                let rest = add_oversize-bound max running es qs h in
                finish (run running qs)
                  (rw (add_oversize, q, r) (ap (run running) (add_path_new e.path ps q)))
                  (omega (arith, rest, gone)))
          | inr r ↦
              (let within : running + e.bytes ≤ max = ground arith in
                let out = run (running + e.bytes) ps in
                let rest = add_oversize-bound max (running + e.bytes) es ps within in
                finish out (rw (add_oversize, q, r) refl)
                  (omega (arith, rest, kept_cons_le out e es)))
        ]
      ]

  -- With a size limit, whatever the age limit and the sizes, the entries that are kept take at most
  -- the limit together.
  pub pick_entries_to_remove-bound :
      (entries : List DiskEntry) (max_age_hours : Option ℕ) (max_total_bytes : ℕ)
      → bytes_of (
          kept_entries
            (pick_entries_to_remove locale_less now entries max_age_hours (some max_total_bytes))
            entries)
        ≤ max_total_bytes
  unfolding pick_entries_to_remove
  pick_entries_to_remove-bound entries max_age_hours max_total_bytes =
      let sorted = sort (newer locale_less now) entries in
      let aged = by_age locale_less now max_age_hours sorted in
      let out = add_oversize locale_less now max_total_bytes 0 sorted aged in
      let bound = add_oversize-bound max_total_bytes 0 sorted aged (omega arith) in
      omega (arith, bound, bytes_of-kept-sort (newer locale_less now) out entries)

  add_aged-has_path :
      (hours : ℕ) (es : List DiskEntry) (ps : List String) (p : String)
      → has_path p ps ≡ true
      → has_path p (add_aged locale_less now hours es ps) ≡ true
  unfolding add_aged
  add_aged-has_path hours [] ps p h = h
  add_aged-has_path hours (e ∷ es) ps p h =
      let added : has_path p (add_path e.path ps) ≡ true =
        ground (arith, has_path-add_path p e.path ps) in
      elim (Bool-cases (too_old locale_less now hours e)) [
        | inl q ↦ rw q (add_aged-has_path hours es (add_path e.path ps) p added)
        | inr q ↦ rw q (add_aged-has_path hours es ps p h)
      ]

  add_aged-too_old :
      (hours : ℕ) (e : DiskEntry) (es : List DiskEntry) (ps : List String)
      → Member e es
      → too_old locale_less now hours e ≡ true
      → has_path e.path (add_aged locale_less now hours es ps) ≡ true
  unfolding add_aged
  add_aged-too_old hours e [] ps m h = elim m [ ]
  add_aged-too_old hours e (f ∷ es) ps m h = elim (Member-cases m) [
    | inl same ↦
        (let old : too_old locale_less now hours f ≡ true =
            subst (λ x. too_old locale_less now hours x ≡ true) same h in
          let added : has_path e.path (add_path f.path ps) ≡ true = ground (
            arith,
            has_path-add_path e.path f.path ps,
            eq_iff f.path e.path,
            ap DiskEntry.path same,
          ) in
          rw old (add_aged-has_path hours es (add_path f.path ps) e.path added))
    | inr k ↦
        add_aged-too_old hours e es
          (if too_old locale_less now hours f then add_path f.path ps else ps) k h
  ]

  by_size-has_path :
      (max : Option ℕ) (es : List DiskEntry) (ps : List String) (p : String)
      → has_path p ps ≡ true
      → has_path p (by_size locale_less now max es ps) ≡ true
  by_size-has_path none es ps p h = h
  by_size-has_path (some max) es ps p h = add_oversize-has_path max 0 es ps p h

  -- With an age limit, every entry that is older than it is removed, whatever the size limit.
  pub pick_entries_to_remove-too_old :
      (entries : List DiskEntry) (entry : DiskEntry) (max_age_hours : ℕ)
      (max_total_bytes : Option ℕ)
      → Member entry entries
      → too_old locale_less now max_age_hours entry ≡ true
      → has_path entry.path
          (pick_entries_to_remove locale_less now entries (some max_age_hours) max_total_bytes)
        ≡ true
  unfolding pick_entries_to_remove
  pick_entries_to_remove-too_old entries entry max_age_hours max_total_bytes m h =
      let sorted = sort (newer locale_less now) entries in
      let aged = add_aged locale_less now max_age_hours sorted [] in
      let has =
        add_aged-too_old max_age_hours entry sorted []
          (Member-sort (newer locale_less now) entry entries m) h in
      by_size-has_path max_total_bytes sorted aged entry.path has
