-- ===== src/Cli/CommandPath/Longest.antt =====
-- The command path is the longest one of the manifest that the arguments begin with.
use surfwright.Base.{
  ◌≤◌, true, false, not, ◌≡◌, refl, inl, inr, some, List, [], ◌∷◌, arith, if◌then◌else◌, leb,
  leb→le, leb→lt, Bool-cases, length, keep, Text, Member, here, there, subst, sym, ap, All,
}
use surfwright.Cli.CommandPath.{
  is_nil, is_path_prefix, insert_path, longest_first, manifest_paths, find_path, candidates,
  path_or_head, resolve_argv_command_path,
}

-- No path is longer than one before it.
abbrev Falling : List (List Text) → Type 0
Falling [] = Unit {0}
Falling (p ∷ ps) = All (λ q. length q ≤ length p) ps × Falling ps

insert_path-All :
    (P : List Text → Type 0) (p : List Text) (ps : List (List Text))
    → P p
    → All P ps
    → All P (insert_path p ps)
unfolding insert_path
insert_path-All P p [] h a = (h, tt)
insert_path-All P p (q ∷ qs) h (k, a) = ground (arith, insert_path-All P p qs h a)

All-weaken :
    (p q : List Text) (qs : List (List Text))
    → length q ≤ length p
    → All (λ r. length r ≤ length q) qs
    → All (λ r. length r ≤ length p) qs
All-weaken p q [] h a = tt
All-weaken p q (r ∷ rs) h (k, a) = (omega arith, All-weaken p q rs h a)

insert_path-Falling :
    (p : List Text) (ps : List (List Text)) → Falling ps → Falling (insert_path p ps)
unfolding insert_path
insert_path-Falling p [] f = (tt, tt)
insert_path-Falling p (q ∷ qs) (a, f) = elim (Bool-cases (leb (length q) (length p))) [
  | inl shorter ↦
      let le = leb→le (length q) (length p) shorter in
      rw (shorter, if◌then◌else◌) ((le, All-weaken p q qs le a), (a, f))
  | inr longer ↦
      let lt = leb→lt (length q) (length p) longer in
      rw (longer, if◌then◌else◌)
        (
          insert_path-All (λ r. length r ≤ length q) p qs (omega arith) a,
          insert_path-Falling p qs f,
        )
]

longest_first-Falling : (ps : List (List Text)) → Falling (longest_first ps)
unfolding longest_first
longest_first-Falling [] = tt
longest_first-Falling (p ∷ ps) = insert_path-Falling p (longest_first ps) (longest_first-Falling ps)

insert_path-Member_self : (p : List Text) (ps : List (List Text)) → Member p (insert_path p ps)
unfolding insert_path
insert_path-Member_self p [] = here
insert_path-Member_self p (q ∷ qs) = elim (Bool-cases (leb (length q) (length p))) [
  | inl e ↦ rw (e, if◌then◌else◌) here
  | inr e ↦ rw (e, if◌then◌else◌) (there (insert_path-Member_self p qs))
]

insert_path-Member :
    {m : List Text} (p : List Text) (ps : List (List Text))
    → Member m ps
    → Member m (insert_path p ps)
unfolding insert_path
insert_path-Member p [] h = elim h [ ]
insert_path-Member p (q ∷ qs) here = elim (Bool-cases (leb (length q) (length p))) [
  | inl e ↦ rw (e, if◌then◌else◌) (there here)
  | inr e ↦ rw (e, if◌then◌else◌) here
]
insert_path-Member p (q ∷ qs) (there h) = elim (Bool-cases (leb (length q) (length p))) [
  | inl e ↦ rw (e, if◌then◌else◌) (there (there h))
  | inr e ↦ rw (e, if◌then◌else◌) (there (insert_path-Member p qs h))
]

longest_first-Member :
    {m : List Text} (ps : List (List Text)) → Member m ps → Member m (longest_first ps)
unfolding longest_first
longest_first-Member [] h = elim h [ ]
longest_first-Member (p ∷ ps) here = insert_path-Member_self p (longest_first ps)
longest_first-Member (p ∷ ps) (there h) =
    insert_path-Member p (longest_first ps) (longest_first-Member ps h)

keep-Member :
    {m : List Text} (ps : List (List Text))
    → is_nil m ≡ false
    → Member m ps
    → Member m (keep (λ p. not (is_nil p)) ps)
keep-Member [] full h = elim h [ ]
keep-Member (p ∷ ps) full here = rw (full, not, if◌then◌else◌) here
keep-Member (p ∷ ps) full (there h) = elim (Bool-cases (not (is_nil p))) [
  | inl e ↦ rw (e, if◌then◌else◌) (there (keep-Member ps full h))
  | inr e ↦ rw (e, if◌then◌else◌) (keep-Member ps full h)
]

-- The result stands in the list, fits the candidate, and is as long as any path that fits.
record Best (candidate : List Text) (paths : List (List Text)) (m p : List Text) : Type 0 where
  found : find_path candidate paths ≡ some p
  listed : Member p paths
  fits : is_path_prefix candidate p ≡ true
  longest : length m ≤ length p

All-Member :
    (P : List Text → Type 0) {m : List Text} (ps : List (List Text)) → All P ps → Member m ps → P m
All-Member P [] a h = elim h [ ]
All-Member P (p ∷ ps) (k, a) here = k
All-Member P (p ∷ ps) (k, a) (there h) = All-Member P ps a h

first_longest :
    {m : List Text} (p : List Text) (ps : List (List Text))
    → All (λ q. length q ≤ length p) ps
    → Member m (p ∷ ps)
    → length m ≤ length p
first_longest p ps a here = omega arith
first_longest p ps a (there h) = All-Member (λ q. length q ≤ length p) ps a h

find_path-Best :
    {m : List Text} (candidate : List Text) (paths : List (List Text))
    → Falling paths
    → Member m paths
    → is_path_prefix candidate m ≡ true
    → (p : List Text) × Best candidate paths m p
unfolding find_path
find_path-Best candidate [] f h fit = elim h [ ]
find_path-Best candidate (p ∷ ps) (a, f) here fit = (
  p,
  record { found = rw (fit, if◌then◌else◌) refl; listed = here; fits = fit; longest = omega arith },
)
find_path-Best candidate (p ∷ ps) (a, f) (there h) fit =
    elim (Bool-cases (is_path_prefix candidate p)) [
      | inl e ↦ (
        p,
        record {
          found = rw (e, if◌then◌else◌) refl;
          listed = here;
          fits = e;
          longest = first_longest p ps a (there h);
        },
      )
      | inr e ↦
          let (q, best) = find_path-Best candidate ps f h fit in
          (
            q,
            record {
              found = rw (e, if◌then◌else◌) best.found;
              listed = there best.listed;
              fits = best.fits;
              longest = best.longest;
            },
          )
    ]

manifest_paths-Falling : (usages : List (List Text)) → Falling (manifest_paths usages)
unfolding manifest_paths
manifest_paths-Falling usages = longest_first-Falling (keep (λ p. not (is_nil p)) usages)

manifest_paths-Member :
    {m : List Text} (usages : List (List Text))
    → is_nil m ≡ false
    → Member m usages
    → Member m (manifest_paths usages)
unfolding manifest_paths
manifest_paths-Member usages full h =
    longest_first-Member (keep (λ p. not (is_nil p)) usages) (keep-Member usages full h)

-- If the arguments' command tokens begin with a path of the manifest, the command path is a path of
-- the manifest with which they begin, and none that they begin with is longer.
pub resolve_argv_command_path_longest :
    (usages : List (List Text)) (argv m : List Text)
    → is_nil m ≡ false
    → Member m usages
    → is_path_prefix (candidates usages argv) m ≡ true
    → Member (resolve_argv_command_path usages argv) (manifest_paths usages)
      × (is_path_prefix (candidates usages argv) (resolve_argv_command_path usages argv) ≡ true)
      × (length m ≤ length (resolve_argv_command_path usages argv))
unfolding resolve_argv_command_path path_or_head
resolve_argv_command_path_longest usages argv m full h fit =
    let paths = manifest_paths usages in
    let (p, best) =
      find_path-Best (candidates usages argv) paths (manifest_paths-Falling usages)
        (manifest_paths-Member usages full h) fit in
    subst
      (λ q.
        Member q paths × (is_path_prefix (candidates usages argv) q ≡ true) × (length m ≤ length q))
      (sym (ap (path_or_head paths (candidates usages argv)) best.found))
      (best.listed, best.fits, best.longest)
