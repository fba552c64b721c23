-- ===== src/Native/Backfill/Manifest/Trips.antt =====
-- A work item survives the boundary, its name is its file's, and a plan is what is not done.
use realtime_finance_bot.Base.{
  ◌≡◌, ◌≢◌, refl, sym, ◌∙◌, Bool, true, not, ◌&&◌, All-append, List, [], ◌∷◌, ◌++◌, append_assoc,
  append-nil, arith, if◌then◌else◌, ◌==◌, Str, str, str_eq, str_eq_iff, str_eq_refl, map, keep, All,
  get, str_Eq, ok, Bool-cases, inl, inr,
}
use realtime_finance_bot.Native.Backfill.Tiers.{
  Tier, deep, hot, Granularity, monthly, daily, tier_value, granularity_value, ArchiveFile,
  file_key, folder, filename, name_infix, dataset, interval_segment,
}
use realtime_finance_bot.Native.Backfill.Manifest.{
  WorkItem, item_filename, last_segment, to_json, item_of, tier_of, granularity_of, from_json,
  work_item, contains, plan,
}

tier_of-tier_value : (t : Tier) → tier_of (tier_value t) ≡ ok t
unfolding tier_of tier_value str_eq
tier_of-tier_value deep = refl
tier_of-tier_value hot = refl

granularity_of-granularity_value : (g : Granularity) → granularity_of (granularity_value g) ≡ ok g
unfolding granularity_of granularity_value str_eq
granularity_of-granularity_value monthly = refl
granularity_of-granularity_value daily = refl

-- What the list of work holds for an item, the loader reads back as that item.
pub from_json-to_json : (item : WorkItem) → from_json (to_json item) ≡ ok item
unfolding from_json to_json item_of get str_eq
from_json-to_json item =
    rw (tier_of-tier_value item.tier, granularity_of-granularity_value item.granularity) refl

abbrev pub NoSlash : Str → Type 0
NoSlash s = All (λ c. c ≢ b'/') s

last_segment-NoSlash : (seg s : Str) → NoSlash s → last_segment seg s ≡ seg ++ s
unfolding last_segment
last_segment-NoSlash seg [] h = sym (append-nil seg)
last_segment-NoSlash seg (c ∷ s) (h, hs) = elim (Bool-cases (c == b'/')) [
  | inl slash ↦ absurd (h (ground (arith, slash)))
  | inr other ↦ rw other (last_segment-NoSlash (seg ++ (c ∷ [])) s hs ∙ append_assoc seg (c ∷ []) s)
]

-- A text after which the last segment starts again.
abbrev Resets : Str → Type 0
Resets p = (seg s : Str) → last_segment seg (p ++ s) ≡ last_segment [] s

Resets-append : (x y : Str) → Resets y → Resets (x ++ y)
unfolding last_segment
Resets-append [] y h seg s = h seg s
Resets-append (c ∷ x) y h seg s = Resets-append x y h _ s

tier-Resets : (t : Tier) → Resets (b'/' ∷ interval_segment t)
unfolding interval_segment last_segment
tier-Resets deep seg s = refl
tier-Resets hot seg s = refl

folder-Resets : (f : ArchiveFile) → Resets (folder f)
unfolding folder
folder-Resets f = Resets-append (str "data/spot/") _ (
    Resets-append (granularity_value f.granularity) _ (
      Resets-append (b'/' ∷ []) _ (
        Resets-append (dataset f.tier) _
          (Resets-append (b'/' ∷ []) _ (Resets-append f.venue_symbol _ (tier-Resets f.tier))))))

name_infix-NoSlash : (t : Tier) → NoSlash (name_infix t)
unfolding name_infix
name_infix-NoSlash deep = (omega arith, (omega arith, tt))
name_infix-NoSlash hot = (
  omega arith,
  (
    omega arith,
    (
      omega arith,
      (omega arith, (omega arith, (omega arith, (omega arith, (omega arith, (omega arith, tt)))))),
    ),
  ),
)

filename-NoSlash :
    (f : ArchiveFile) → NoSlash f.venue_symbol → NoSlash f.period → NoSlash (filename f)
unfolding filename
filename-NoSlash f hv hp = All-append _ f.venue_symbol _ hv (
  omega arith,
  All-append _ (name_infix f.tier) _ (name_infix-NoSlash f.tier) (
    omega arith,
    All-append _ f.period (str ".zip") hp
        (omega arith, (omega arith, (omega arith, (omega arith, tt)))),
  ),
)

-- The name that the checksum file must give for a planned item is the file's name, where symbol and
-- period have no slash.
pub item_filename-work_item :
    (f : ArchiveFile)
    → NoSlash f.venue_symbol
    → NoSlash f.period
    → item_filename (work_item f) ≡ filename f
unfolding item_filename work_item file_key
item_filename-work_item f hv hp =
    folder-Resets f [] (filename f)
    ∙ last_segment-NoSlash [] (filename f) (filename-NoSlash f hv hp)

-- The keys of a plan are those of the files that are not done yet, in the files' order.
pub plan-keys :
    (files : List ArchiveFile) (already_done : List Str)
    → map (λ (i : WorkItem). i.archive_key) (plan files already_done)
      ≡ keep (λ k. not (contains k already_done)) (map file_key files)
unfolding plan work_item
plan-keys [] already_done = refl
plan-keys (f ∷ fs) already_done = ground (arith, plan-keys fs already_done)

contains-append :
    (k : Str) (xs ys : List Str)
    → contains k (xs ++ ys) ≡ (if contains k xs then true else contains k ys)
unfolding contains
contains-append k [] ys = refl
contains-append k (x ∷ xs) ys = ground (arith, contains-append k xs ys)

contains-keep :
    (k : Str) (p : Str → Bool) (xs : List Str) → contains k (keep p xs) ≡ (contains k xs && p k)
unfolding contains
contains-keep k p [] = refl
contains-keep k p (x ∷ xs) = ground (arith, contains-keep k p xs, str_eq_iff x k)

plan-nothing_left :
    (files : List ArchiveFile) (keys : List Str)
    → ((f : ArchiveFile)
        → contains (file_key f) (map file_key files) ≡ true
        → contains (file_key f) keys ≡ true)
    → plan files keys ≡ []
unfolding plan contains
plan-nothing_left [] keys h = refl
plan-nothing_left (f ∷ fs) keys h = ground (
  arith,
  h f,
  str_eq_refl (file_key f),
  plan-nothing_left fs keys (λ g m. h g (ground (arith, m))),
)

-- When all items of a plan have become done, the next plan for the same files is empty.
pub plan-plan :
    (files : List ArchiveFile) (already_done : List Str)
    → plan files (map (λ (i : WorkItem). i.archive_key) (plan files already_done) ++ already_done)
      ≡ []
plan-plan files already_done = rw (plan-keys files already_done) (
    plan-nothing_left files _ (λ f m. ground (
      arith,
      m,
      contains-append (file_key f) (keep (λ k. not (contains k already_done)) (map file_key files))
          already_done,
      contains-keep (file_key f) (λ k. not (contains k already_done)) (map file_key files),
    )))
