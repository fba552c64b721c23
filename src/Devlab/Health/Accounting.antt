-- ===== src/Devlab/Health/Accounting.antt =====
-- What `sequence_gaps` of devlab/health.py checks and what it finds missing add up.
use realtime_finance_bot.Base.{
  ℕ, ◌+◌, ◌≡◌, refl, ap, ◌∙◌, inl, inr, false, some, List, [], ◌∷◌, arith, Bool-cases, leb→le, Str,
  get, put, pair_Eq, pos_part, neg_part, ℤ, pos, ◌+ℤ◌, ◌-ℤ◌, ◌<ℤ◌, leb_ℤ, eq_of_parts, int_laws,
  get-put, beq_refl,
}
use realtime_finance_bot.Ingest.Models.{Trade}
use realtime_finance_bot.Ingest.Gaps.{Gap, missing_count, new_tracker, observe, observe_after}
use realtime_finance_bot.Ingest.Gaps.Coverage.{raise, get-observe}
use realtime_finance_bot.Devlab.Health.{
  missing_all, missing, is_connection_scoped, Replay, add_found, replay_number, replay, replay_all,
  sequence_gaps,
}

missing_all-add_found :
    (found : List Gap) (g : Gap)
    → missing_all (add_found (some g) found) ≡ missing_all found +ℤ missing_count g
unfolding missing_all
missing_all-add_found [] g = omega int_laws
missing_all-add_found (h ∷ found) g = rw (missing_all-add_found found g) (omega int_laws)

parts_of_eq : (a b : ℤ) → a ≡ b → pos_part a + neg_part b ≡ pos_part b + neg_part a
parts_of_eq a b e = rw e refl

chain :
    (a b c w n last : ℤ) (k k' : ℕ)
    → a +ℤ b +ℤ n ≡ pos k' +ℤ c +ℤ last
    → k' ≡ k + 1
    → (d : ℤ) → c +ℤ w +ℤ pos 1 ≡ d +ℤ n
    → a +ℤ b +ℤ w ≡ pos k +ℤ d +ℤ last
chain a b c w n last k k' x y d z = omega (int_laws, parts_of_eq _ _ x, parts_of_eq _ _ z)

module _ (venue symbol : Str) where
  -- Records of the key, with ascending numbers from above `w` up to `last`.
  abbrev pub IsAscending : ℤ → List Trade → ℤ → Type 0
  IsAscending w [] last = last ≡ w
  IsAscending w (t ∷ ts) last =
      (t.venue ≡ venue)
      × (t.venue_symbol ≡ symbol)
      × ((n : ℤ) × (t.sequence ≡ some n) × (w <ℤ n) × IsAscending n ts last)

  -- What an observation above the watermark adds.
  missing_all-observe :
      (w n : ℤ) (r : Replay)
      → get (venue, symbol) r.tracker ≡ some w
      → w <ℤ n
      → missing_all (add_found (observe venue symbol (some n) r.tracker).0 r.found) +ℤ w +ℤ pos 1
        ≡ missing_all r.found +ℤ n
  unfolding observe observe_after missing_count
  missing_all-observe w n r e h = rw e (elim (Bool-cases (leb_ℤ n (w +ℤ pos 1))) [
    | inl b ↦ rw b (let le = leb→le _ _ b in omega int_laws)
    | inr b ↦ rw (b, missing_all-add_found r.found) (omega int_laws)
  ])

  raise_ascending : (w n : ℤ) → w <ℤ n → raise (some w) n ≡ n
  raise_ascending w n h = ground arith

  replay-lem :
      (w n : ℤ) (t : Trade) (r : Replay)
      → is_connection_scoped venue ≡ false
      → t.venue ≡ venue
      → t.venue_symbol ≡ symbol
      → t.sequence ≡ some n
      → get (venue, symbol) r.tracker ≡ some w
      → w <ℤ n
      → (get (venue, symbol) (replay t r).tracker ≡ some n)
        × ((replay t r).checked ≡ r.checked + 1)
        × (missing_all (replay t r).found +ℤ w +ℤ pos 1 ≡ missing_all r.found +ℤ n)
  unfolding replay replay_number
  replay-lem w n t r scoped v s q e h =
      rw (v, scoped, q, s)
        (
          get-observe venue symbol n r.tracker e ∙ ap (λ m. some m) (raise_ascending w n h),
          refl,
          missing_all-observe w n r e h,
        )

  replay_all-lem :
      (w last : ℤ) (ts : List Trade) (r : Replay)
      → is_connection_scoped venue ≡ false
      → get (venue, symbol) r.tracker ≡ some w
      → IsAscending w ts last
      → pos (replay_all ts r).checked +ℤ missing_all (replay_all ts r).found +ℤ w
        ≡ pos r.checked +ℤ missing_all r.found +ℤ last
  unfolding replay_all
  replay_all-lem w last [] r scoped e h = rw h refl
  replay_all-lem w last (t ∷ ts) r scoped e (v, s, (n, q, h, more)) =
      let (e', counted, found) = replay-lem w n t r scoped v s q e h in
      chain _ _ _ w n last _ _ (replay_all-lem n last ts (replay t r) scoped e' more) counted _
        found

  abbrev first_replay : ℤ → Replay
  first_replay first = record {
    tracker = put (venue, symbol) first [];
    found = [];
    checked = 1;
    skipped = [];
  }

  replay-first :
      (first : ℤ) (t : Trade)
      → is_connection_scoped venue ≡ false
      → t.venue ≡ venue
      → t.venue_symbol ≡ symbol
      → t.sequence ≡ some first
      → replay t (record { tracker = new_tracker; found = []; checked = 0; skipped = [] })
        ≡ first_replay first
  unfolding replay replay_number observe observe_after new_tracker get
  replay-first first t scoped v s q = rw (v, scoped, q, s) refl

  after_first :
      (first last : ℤ) (ts : List Trade) (r : Replay)
      → r ≡ first_replay first
      → is_connection_scoped venue ≡ false
      → IsAscending first ts last
      → pos (replay_all ts r).checked +ℤ missing_all (replay_all ts r).found
        ≡ last -ℤ first +ℤ pos 1
  unfolding missing_all
  after_first first last ts r e scoped h = rw e (
      eq_of_parts _ _ (
        let total =
          replay_all-lem first last ts (first_replay first) scoped
            (rw (get-put, beq_refl {K = Str × Str} (venue, symbol)) refl) h in
        omega (int_laws, parts_of_eq _ _ total)))

  -- For records of one key whose numbers ascend, from a venue whose numbers are of its symbols, the
  -- numbers that were checked and those reported missing add up to the whole range, from the first
  -- to the last.
  pub sequence_gaps-missing :
      (first last : ℤ) (t : Trade) (ts : List Trade)
      → is_connection_scoped venue ≡ false
      → t.venue ≡ venue
      → t.venue_symbol ≡ symbol
      → t.sequence ≡ some first
      → IsAscending first ts last
      → let report = sequence_gaps (t ∷ ts) in
        pos report.checked +ℤ missing report ≡ last -ℤ first +ℤ pos 1
  unfolding sequence_gaps missing replay_all
  sequence_gaps-missing first last t ts scoped v s q h =
      after_first first last ts _ (replay-first first t scoped v s q) scoped h
