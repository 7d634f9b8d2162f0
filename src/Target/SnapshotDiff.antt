-- ===== src/Target/SnapshotDiff.antt =====
-- src/core/target/infra/utils/target-snapshot-diff.ts, from two snapshots on: reading and parsing the
-- two files is left out, and a value of a list that is not of its type is `none`. A Map of counts keeps
-- the element beside the count, as that of the links does; a heading or a button is its own key.
pub mod Counts
pub mod Changes
mod Tests
use surfwright.Base.{
  ℕ, zero, suc, ◌+◌, ◌-◌, Bool, true, false, not, ◌&&◌, ◌||◌, Option, none, some, List, [], ◌∷◌,
  ◌++◌, if◌then◌else◌, ltb, leb, ◌==◌, length, take, replicate, Text, text_eq, is_space, trim,
  to_lower, is_blank,
}

abbrev pub diff_list_cap : ℕ
diff_list_cap = 60

-- `replaceAll(/\s+/g, " ")`; the flag says that a space was written last.
unfoldable pub collapse_spaces : Bool → Text → Text
collapse_spaces spaced [] = []
collapse_spaces spaced (c ∷ t) =
    let behind_space = collapse_spaces true t in
    let behind_other = collapse_spaces false t in
    if is_space c then if spaced then behind_space else 32 ∷ behind_space else c ∷ behind_other

abbrev pub clean_text : Option Text → Text
clean_text none = []
clean_text (some t) = trim (collapse_spaces false t)

unfoldable pub normalize_list : List (Option Text) → List Text
normalize_list [] = []
normalize_list (value ∷ values) =
    let rest = normalize_list values in
    if is_blank (clean_text value) then rest else clean_text value ∷ rest

-- A link of a report, with what is not a text as `none`.
pub record RawLink : Type 0 where
  pub raw_text : Option Text
  pub raw_href : Option Text

pub record Link : Type 0 where
  pub text : Text
  pub href : Text

abbrev pub clean_href : Option Text → Text
clean_href none = []
clean_href (some t) = trim t

unfoldable pub normalize_links : List (Option RawLink) → List Link
normalize_links [] = []
normalize_links (none ∷ values) = normalize_links values
normalize_links (some value ∷ values) =
    let rest = normalize_links values in
    if is_blank (clean_text value.raw_text) && is_blank (clean_href value.raw_href)
    then rest
    else record { text = clean_text value.raw_text; href = clean_href value.raw_href } ∷ rest

-- A line break between the two.
abbrev pub link_key : Link → Text
link_key link = link.text ++ (10 ∷ link.href)

pub record Difference {ℓ} (A : Type ℓ) : Type ℓ where
  pub added : List A
  pub removed : List A

module _ {ℓ} {A : Type ℓ} where
  -- `sort` by a strict order: it is stable, so an element stays before those alike.
  unfoldable pub insert_sorted : (A → A → Bool) → A → List A → List A
  insert_sorted before x [] = x ∷ []
  insert_sorted before x (y ∷ ys) =
      let behind = insert_sorted before x ys in if before y x then y ∷ behind else x ∷ y ∷ ys

  unfoldable pub sort_by : (A → A → Bool) → List A → List A
  sort_by before [] = []
  sort_by before (x ∷ xs) = insert_sorted before x (sort_by before xs)

  -- `capList`, and its `truncated`.
  abbrev pub cap_list : ℕ → List A → List A × Bool
  cap_list cap values = if leb (length values) cap then (values, false) else (take cap values, true)

module _ {ℓ} {A : Type ℓ} (key : A → Text) where
  -- One more of an element; the Map keeps the first of those with one key.
  unfoldable pub bump : A → List (Text × (A × ℕ)) → List (Text × (A × ℕ))
  bump x [] = (key x, (x, 1)) ∷ []
  bump x ((j, (y, n)) ∷ m) =
      let rest = bump x m in if text_eq j (key x) then (j, (y, suc n)) ∷ m else (j, (y, n)) ∷ rest

  unfoldable pub tally : List (Text × (A × ℕ)) → List A → List (Text × (A × ℕ))
  tally m [] = m
  tally m (x ∷ xs) = tally (bump x m) xs

  unfoldable pub count_of : Text → List (Text × (A × ℕ)) → ℕ
  count_of k [] = 0
  count_of k ((j, (y, n)) ∷ m) = if text_eq j k then n else count_of k m

  -- As many of each element as it is counted more often here than there.
  unfoldable pub extras : List (Text × (A × ℕ)) → List (Text × (A × ℕ)) → List A
  extras other [] = []
  extras other ((j, (y, n)) ∷ m) = replicate (n - count_of j other) y ++ extras other m

  unfoldable pub diff_by : (A → A → Bool) → List A → List A → Difference A
  diff_by before a b =
      let a_map = tally [] a in
      let b_map = tally [] b in
      record {
        added = sort_by before (extras a_map b_map);
        removed = sort_by before (extras b_map a_map);
      }

-- The order of `sort()`, by code units.
unfoldable pub text_before : Text → Text → Bool
text_before s [] = false
text_before [] (d ∷ t) = true
text_before (c ∷ s) (d ∷ t) = ltb c d || ((c == d) && text_before s t)

unfoldable pub diff_multiset : List Text → List Text → Difference Text
diff_multiset = diff_by (λ t. t) text_before

-- By `localeCompare` of the keys in lower case.
unfoldable pub diff_links : (Text → Text → Bool) → List Link → List Link → Difference Link
diff_links locale_before =
    diff_by link_key (λ x y. locale_before (to_lower (link_key x)) (to_lower (link_key y)))

pub record Snapshot : Type 0 where
  pub url : Text
  pub title : Text
  pub text_preview : Option Text
  pub headings : List (Option Text)
  pub buttons : List (Option Text)
  pub links : List (Option RawLink)

pub record ListDelta {ℓ} (A : Type ℓ) : Type ℓ where
  pub added : List A
  pub removed : List A
  pub truncated : Bool

-- `changed` of a list.
abbrev pub is_changed {ℓ} : {A : Type ℓ} → Difference A → Bool
is_changed d = ltb 0 (length d.added) || ltb 0 (length d.removed)

abbrev pub capped {ℓ} : {A : Type ℓ} → Difference A → ListDelta A
capped d =
    let added = cap_list diff_list_cap d.added in
    let removed = cap_list diff_list_cap d.removed in
    record { added = added.0; removed = removed.0; truncated = added.1 || removed.1 }

pub record SnapshotDiff : Type 0 where
  pub url_changed : Bool
  pub title_changed : Bool
  pub text_preview_changed : Bool
  pub headings_changed : Bool
  pub buttons_changed : Bool
  pub links_changed : Bool
  pub headings_delta : ListDelta Text
  pub buttons_delta : ListDelta Text
  pub links_delta : ListDelta Link

unfoldable pub target_snapshot_diff : (Text → Text → Bool) → Snapshot → Snapshot → SnapshotDiff
target_snapshot_diff locale_before a b =
    let headings = diff_multiset (normalize_list a.headings) (normalize_list b.headings) in
    let buttons = diff_multiset (normalize_list a.buttons) (normalize_list b.buttons) in
    let links = diff_links locale_before (normalize_links a.links) (normalize_links b.links) in
    record {
      url_changed = not (text_eq a.url b.url);
      title_changed = not (text_eq a.title b.title);
      text_preview_changed = not (text_eq (clean_text a.text_preview) (clean_text b.text_preview));
      headings_changed = is_changed headings;
      buttons_changed = is_changed buttons;
      links_changed = is_changed links;
      headings_delta = capped headings;
      buttons_delta = capped buttons;
      links_delta = capped links;
    }
