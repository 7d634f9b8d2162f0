-- ===== src/Target/SnapshotDiff/Tests.antt =====
-- src/core/target/infra/utils/target-snapshot-diff.ts: tests, and its theorems at concrete inputs.
use surfwright.Base.{
  ◌-◌, false, ◌≡◌, ◌↔◌, refl, none, some, List, [], ◌∷◌, Text, text_eq, lit, trim, trim_start,
}
use surfwright.Target.SnapshotDiff.{
  Snapshot, collapse_spaces, normalize_list, normalize_links, link_key, insert_sorted, sort_by,
  bump, tally, count_of, extras, diff_by, text_before, diff_multiset, target_snapshot_diff,
}
use surfwright.Target.SnapshotDiff.Counts.{occurrences, diff_by-occurrences}
use surfwright.Target.SnapshotDiff.Changes.{SameElements, target_snapshot_diff-unchanged}

abbrev before : List Text
before = lit "Home" ∷ lit "News" ∷ lit "News" ∷ []

abbrev after : List Text
after = lit "News" ∷ lit "Help" ∷ lit "About" ∷ []

sorts_what_is_new : (diff_multiset before after).added ≡ lit "About" ∷ lit "Help" ∷ []
unfolding diff_multiset diff_by tally bump extras count_of sort_by insert_sorted text_before text_eq
sorts_what_is_new = refl

counts_what_is_gone : (diff_multiset before after).removed ≡ lit "Home" ∷ lit "News" ∷ []
unfolding diff_multiset diff_by tally bump extras count_of sort_by insert_sorted text_before text_eq
counts_what_is_gone = refl

diff_by-occurrences_example :
    (let d = diff_by (λ t. t) text_before before after in
      (occurrences (λ t. t) (lit "News") d.removed
        ≡ occurrences (λ t. t) (lit "News") before - occurrences (λ t. t) (lit "News") after)
      × (occurrences (λ t. t) (lit "News") d.added
          ≡ occurrences (λ t. t) (lit "News") after - occurrences (λ t. t) (lit "News") before))
diff_by-occurrences_example = diff_by-occurrences (λ t. t) text_before before after (lit "News")

abbrev old_page : Snapshot
old_page = record {
  url = lit "http://a/";
  title = lit "A";
  text_preview = some (lit "hello  there");
  headings = some (lit " Home ") ∷ none ∷ some (lit "News") ∷ [];
  buttons = [];
  links = some record { raw_text = some (lit "x"); raw_href = some (lit "/x") } ∷ none ∷ [];
}

abbrev new_page : Snapshot
new_page = record old_page { headings = some (lit "News") ∷ some (lit "Home") ∷ []; links = [] }

cleans_headings : normalize_list old_page.headings ≡ lit "Home" ∷ lit "News" ∷ []
unfolding normalize_list collapse_spaces trim trim_start
cleans_headings = refl

target_snapshot_diff-unchanged_example :
    (let report = target_snapshot_diff text_before old_page new_page in
      ((report.headings_changed ≡ false)
        ↔ SameElements
            (λ t. t)
            (normalize_list old_page.headings)
            (normalize_list new_page.headings))
      × ((report.buttons_changed ≡ false)
          ↔ SameElements
              (λ t. t)
              (normalize_list old_page.buttons)
              (normalize_list new_page.buttons))
      × ((report.links_changed ≡ false)
          ↔ SameElements link_key
              (normalize_links old_page.links)
              (normalize_links new_page.links)))
target_snapshot_diff-unchanged_example =
    target_snapshot_diff-unchanged text_before old_page new_page
