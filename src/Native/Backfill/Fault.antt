-- ===== src/Native/Backfill/Fault.antt =====
-- The exceptions of awsnative/backfill, each with the values that its message shows. The wording of
-- the messages is not modelled.
use realtime_finance_bot.Base.{ℕ, Bool, Option, none, some, Result, ok, raise, Str, ℤ}

pub data ChecksumFault : Type 0 where
  wrong_format : Str → ChecksumFault
  wrong_length : ℕ → ChecksumFault
  not_hexadecimal : Str → ChecksumFault
  other_file : Str → Str → ChecksumFault
  mismatch : Str → Str → Str → ChecksumFault

pub data Fault : Type 0 where
  -- `ChecksumError` and `TimestampUnitError`, which are `ValueError`s too
  checksum_error : ChecksumFault → Fault
  not_an_instant : ℤ → Fault
  -- by the flag, whether the earlier values are milliseconds
  unit_disagrees : ℤ → Bool → Fault
  -- `ValueError`
  not_an_integer : Str → Fault
  field_count : ℕ → Str → Fault
  not_a_boolean : Str → Fault
  not_utf8 : Fault
  member_count : ℕ → Fault
  -- `zipfile.BadZipFile`
  bad_zip_file : Fault
  -- `ArchiveNotFound`
  archive_not_found : Str → Fault
  -- anything else, such as a network failure
  other_error : Str → Fault

-- A fault where there is no value.
abbrev pub require {ℓ} : {A : Type ℓ} → Option A → Fault → Result Fault A
require none fault = raise fault
require (some a) fault = ok a
