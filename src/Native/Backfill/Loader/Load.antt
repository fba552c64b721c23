-- ===== src/Native/Backfill/Loader/Load.antt =====
-- What is staged has been verified, and what `load` reports is what it did.
use realtime_finance_bot.Base.{
  ◌≡◌, refl, ap, ◌∙◌, ◌⊎◌, inl, inr, Option, none, some, List, [], ◌∷◌, arith, Str, Result, ok,
  raise, >>=-eq-ok, ok-injective,
}
use realtime_finance_bot.Native.Backfill.Fault.{
  Fault, archive_not_found, other_error, not_utf8, require,
}
use realtime_finance_bot.Native.Backfill.Checksum.{parse_checksum, verify}
use realtime_finance_bot.Native.Backfill.Checksum.Verify.{verified}
use realtime_finance_bot.Native.Backfill.Manifest.{
  failed, skipped_no_data, WorkItem, item_url, item_checksum_url, item_filename, Outcome,
  outcome_done, outcome_failed, outcome_skipped,
}
use realtime_finance_bot.Native.Backfill.Loader.{
  Bytes, Loader, lift_checksum, Staged, sole_member_lines, stage, prepare, after_put, put_staged,
  load_unguarded, handled, load,
}

module _ (loader : Loader) where
  -- The archive and its checksum were fetched, they agree, and the body is the archive's rows.
  pub record IsVerified (item : WorkItem) (staged : Staged) : Type 0 where
    pub blob : Bytes
    pub checksum_bytes : Bytes
    pub checksum_text : Str
    pub lines : List Str
    pub fetched_checksum : loader.fetch (item_checksum_url item) ≡ ok checksum_bytes
    pub decoded : loader.decode checksum_bytes ≡ some checksum_text
    pub fetched : loader.fetch (item_url item) ≡ ok blob
    pub digest_correct : staged.digest ≡ loader.digest_of blob
    pub listed :
        parse_checksum checksum_text
        ≡ ok (record { sha256 = staged.digest; filename = item_filename item })
    pub unzipped : sole_member_lines loader blob ≡ ok lines
    pub rows : stage loader item lines ≡ ok (staged.body, staged.row_count)

lift_checksum-eq-ok : (r : Result _ Str) (d : Str) → lift_checksum r ≡ ok d → r ≡ ok d
lift_checksum-eq-ok r d e = ground (arith, e)

require-eq-ok : (o : Option Str) (f : Fault) (t : Str) → require o f ≡ ok t → o ≡ some t
require-eq-ok o f t e = ground (arith, e)

prepare-IsVerified :
    (loader : Loader) (item : WorkItem) (staged : Staged)
    → prepare loader item ≡ ok staged
    → IsVerified loader item staged
unfolding prepare
prepare-IsVerified loader item staged e =
    let (checksum_bytes, got_checksum, e1) =
      >>=-eq-ok (loader.fetch (item_checksum_url item)) _ e in
    let (text, decoded, e2) = >>=-eq-ok (require (loader.decode checksum_bytes) not_utf8) _ e1 in
    let (blob, got, e3) = >>=-eq-ok (loader.fetch (item_url item)) _ e2 in
    let (digest, accepted, e4) =
      >>=-eq-ok (lift_checksum (verify loader.digest_of blob text (item_filename item))) _ e3 in
    let (lines, opened, e5) = >>=-eq-ok (sole_member_lines loader blob) _ e4 in
    let (pair, made, e6) = >>=-eq-ok (stage loader item lines) _ e5 in
    let (same, listed) =
      verified loader.digest_of blob text (item_filename item) digest
        (lift_checksum-eq-ok _ digest accepted) in
    let result = ok-injective e6 in
    rw (← result) (record {
      blob = blob;
      checksum_bytes = checksum_bytes;
      checksum_text = text;
      lines = lines;
      fetched_checksum = got_checksum;
      decoded = require-eq-ok (loader.decode checksum_bytes) not_utf8 text decoded;
      fetched = got;
      digest_correct = same;
      listed = listed;
      unzipped = opened;
      rows = made;
    })

-- Whether a load reports that nothing was staged.
abbrev pub IsUnstaged : Loader → WorkItem → Type 0
IsUnstaged loader item =
    (o : Outcome) × (load loader item ≡ (ok o, []))
    × (o.archive_key ≡ item.archive_key)
    × ((o.status ≡ failed) ⊎ (o.status ≡ skipped_no_data))

-- Whether a load staged a verified body, once, and reports its digest and rows.
abbrev pub IsDone : Loader → WorkItem → Type 0
IsDone loader item =
    (staged : Staged) × IsVerified loader item staged
    × (load loader item ≡ (
      ok (outcome_done item.archive_key staged.digest staged.row_count),
      (item.staging_key, staged.body) ∷ [],
    ))

-- Whether a fault that is not one of bad data leaves a load.
abbrev pub IsEscaped : Loader → WorkItem → Type 0
IsEscaped loader item = (t : Str) × ((load loader item).0 ≡ raise (other_error t))

handled-fault :
    (loader : Loader) (item : WorkItem) (fault : Fault)
    → ((o : Outcome) × (handled loader item (raise fault) ≡ ok o)
        × (o.archive_key ≡ item.archive_key)
        × ((o.status ≡ failed) ⊎ (o.status ≡ skipped_no_data)))
      ⊎ ((t : Str) × (handled loader item (raise fault) ≡ raise (other_error t)))
unfolding handled outcome_failed outcome_skipped
handled-fault loader item (archive_not_found t) = inl (_, refl, refl, inr refl)
handled-fault loader item (other_error t) = inr (t, refl)
handled-fault loader item fault = inl (_, refl, refl, inl refl)

-- `load` when `_load` has got as far as `prepared`.
abbrev finish : Loader → WorkItem → Result Fault Staged → Result Fault Outcome × List (Str × Bytes)
finish loader item prepared =
    let (result, puts) = put_staged loader item prepared in (handled loader item result, puts)

load-prepared :
    (loader : Loader) (item : WorkItem) (prepared : Result Fault Staged)
    → prepare loader item ≡ prepared
    → load loader item ≡ finish loader item prepared
unfolding load load_unguarded
load-prepared loader item prepared e = ap (finish loader item) e

finish-put :
    (loader : Loader) (item : WorkItem) (staged : Staged) (r : Option Fault)
    → loader.put_object item.staging_key staged.body ≡ r
    → finish loader item (ok staged)
      ≡ (handled loader item (after_put loader item staged r), (item.staging_key, staged.body) ∷ [])
unfolding put_staged
finish-put loader item staged r e = rw e refl

load_of_staged :
    (loader : Loader) (item : WorkItem) (staged : Staged) (r : Option Fault)
    → prepare loader item ≡ ok staged
    → loader.put_object item.staging_key staged.body ≡ r
    → ((f : Fault) → r ≡ some f → (t : Str) × (f ≡ other_error t))
    → IsDone loader item ⊎ IsEscaped loader item
unfolding after_put handled
load_of_staged loader item staged none e put_result only_other = inl (
  staged,
  prepare-IsVerified loader item staged e,
  load-prepared loader item _ e ∙ finish-put loader item staged none put_result,
)
load_of_staged loader item staged (some f) e put_result only_other =
    let (t, other) = only_other f refl in
    let called =
      load-prepared loader item _ e ∙ finish-put loader item staged (some f) put_result in
    inr (t, ap (λ r. r.0) called ∙ ap (λ g. handled loader item (raise g)) other)

load_of_prepared :
    (loader : Loader) (item : WorkItem) (prepared : Result Fault Staged)
    → prepare loader item ≡ prepared
    → ((key : Str) (body : Bytes) (f : Fault)
        → loader.put_object key body ≡ some f
        → (t : Str) × (f ≡ other_error t))
    → IsDone loader item ⊎ (IsUnstaged loader item ⊎ IsEscaped loader item)
unfolding put_staged
load_of_prepared loader item (raise fault) e only_other =
    let called = load-prepared loader item _ e in
    elim (handled-fault loader item fault) [
      | inl (o, result, key, status) ↦ inr (inl (o, called ∙ ap (λ r. (r, [])) result, key, status))
      | inr (t, result) ↦ inr (inr (t, ap (λ r. r.0) called ∙ result))
    ]
load_of_prepared loader item (ok staged) e only_other =
    elim (load_of_staged loader item staged _ e refl (only_other item.staging_key staged.body)) [
      | inl d ↦ inl d
      | inr escaped ↦ inr (inr escaped)
    ]

-- Where `put` raises no data error, a load ends in one of three ways. It is DONE: then the archive
-- was fetched with a checksum file that names it and has its digest, its rows were parsed, they were
-- put exactly once, under the item's staging key, and the outcome has that digest and the number of
-- rows. Or it is FAILED or SKIPPED_NO_DATA, and nothing was put. Or a fault that is not one of bad
-- data is raised.
pub load-cases :
    (loader : Loader) (item : WorkItem)
    → ((key : Str) (body : Bytes) (f : Fault)
        → loader.put_object key body ≡ some f
        → (t : Str) × (f ≡ other_error t))
    → IsDone loader item ⊎ (IsUnstaged loader item ⊎ IsEscaped loader item)
load-cases loader item only_other = load_of_prepared loader item _ refl only_other
