-- ===== src/Eeprom.antt =====
-- emb/memory/eeprom/eeprom.hpp and eeprom.cpp, with emb/memory/memory_def.hpp: pages that are kept
-- twice, each with a checksum behind its data. The driver and the checksum are parameters; a
-- checksum is the four bytes that it is stored as, and the timeouts, which are only passed on, belong
-- to the driver. The assertions on the arguments are those of a build that ignores them.
pub mod Copies
pub mod RoundTrip
mod Tests
use emblib.Base.{
  ℕ, suc, ◌+◌, ◌-◌, ◌/◌, ◌%◌, ◌^◌, Bool, true, false, List, [], ◌∷◌, length, ltb, not, ◌&&◌, ◌==◌,
  if◌then◌else◌,
}
use emblib.Nvm.{Bytes, bytes_eq}

pub data Status : Type 0 where
  good read_failed write_failed read_timeout write_timeout : Status
  invalid_address invalid_data_size data_corrupted no_device : Status

-- `sts == emb::mem::status::ok`
abbrev pub is_good : Status → Bool
is_good good = true
is_good _ = false

-- `driver`, over a memory of state `M`: the bytes that a read leaves in the buffer come with its
-- status.
pub record Driver (M : Type 0) : Type 0 where
  pub read : ℕ → ℕ → ℕ → M → Status × Bytes
  pub write : ℕ → ℕ → Bytes → M → Status × M
  pub page_bytes : ℕ
  pub page_count : ℕ

-- `_errors`, whose counters are 32 bits wide
pub record Errors : Type 0 where
  pub read : ℕ
  pub write : ℕ
  pub crc_mismatch : ℕ
  pub primary_data_corrupted : ℕ
  pub secondary_data_corrupted : ℕ
  pub fatal : ℕ

abbrev pub no_errors : Errors
no_errors = record {
  read = 0;
  write = 0;
  crc_mismatch = 0;
  primary_data_corrupted = 0;
  secondary_data_corrupted = 0;
  fatal = 0;
}

-- `++counter`
abbrev pub count : ℕ → ℕ
count n = (n + 1) % 2 ^ 32

-- What the reading of one copy comes to, with the bytes in the buffer: an error of the driver, a
-- checksum that does not match, or a copy that is as it was written.
pub data Copy : Type 0 where
  failed : Status → Bytes → Copy
  mismatched : Bytes → Copy
  intact : Bytes → Copy

-- `std::size_t` of a 32-bit target.
abbrev pub size_mod : ℕ
size_mod = 2 ^ 32

module _ {M : Type 0} (driver : Driver M) (calc_crc : Bytes → Bytes) where
  -- The differences are of `std::size_t`, and wrap.
  abbrev pub available_page_bytes : ℕ
  available_page_bytes = (driver.page_bytes + size_mod - 4) % size_mod

  abbrev pub available_page_count : ℕ
  available_page_count = (driver.page_count + size_mod - 2) % size_mod / 2

  -- A write after one that may have failed; `write_end` returns the status of the last one.
  abbrev pub write_next : Status × M → Errors → (M → Status × Errors × M) → Status × Errors × M
  write_next (sts, m) e next =
      if is_good sts then next m else (sts, record e { write = count e.write }, m)

  abbrev pub write_copy : ℕ → Bytes → Errors → (M → Status × Errors × M) → M → Status × Errors × M
  write_copy page buf e next m =
      write_next (driver.write page 0 buf m) e
        (λ m'. write_next (driver.write page (length buf) (calc_crc buf) m') e next)

  unfoldable pub write : ℕ → Bytes → Errors → M → Status × Errors × M
  write page buf e m =
      if not (ltb page available_page_count)
      then (invalid_address, e, m)
      else if not (ltb (length buf) available_page_bytes)
      then (invalid_data_size, e, m)
      else write_copy page buf e
          (write_copy (page + available_page_count) buf e (λ m'. (good, e, m'))) m

  abbrev pub compare_crc : Bytes → Status × Bytes → Copy
  compare_crc buf (sts, stored) =
      if is_good sts
      then (if bytes_eq (calc_crc buf) stored then intact buf else mismatched buf)
      else failed sts buf

  abbrev pub check_copy : ℕ → ℕ → M → Status × Bytes → Copy
  check_copy page len m (sts, buf) =
      if is_good sts then compare_crc buf (driver.read page len 4 m) else failed sts buf

  unfoldable pub read_copy : ℕ → ℕ → M → Copy
  read_copy page len m = check_copy page len m (driver.read page 0 len m)

  -- The counters after one copy is read.
  abbrev pub count_copy : Copy → Errors → Errors
  count_copy (failed _ _) e = record e { read = count e.read }
  count_copy (mismatched _) e = record e { crc_mismatch = count e.crc_mismatch }
  count_copy (intact _) e = e

  -- Both writes that put a copy right again; what they return is not looked at.
  abbrev pub rewrite_copy : ℕ → Bytes → M → M
  rewrite_copy page buf m =
      (driver.write page (length buf) (calc_crc buf) (driver.write page 0 buf m).1).1

  -- `read_end`, for the copies and the number of the page.
  unfoldable pub settle : ℕ → Copy → Copy → Errors → M → Status × Bytes × Errors × M
  settle page (intact buf) (intact backup) e m =
      if bytes_eq (calc_crc buf) (calc_crc backup) then (good, buf, e, m) else (
        good,
        buf,
        record e { secondary_data_corrupted = count e.secondary_data_corrupted },
        rewrite_copy (page + available_page_count) buf m,
      )
  settle page (intact buf) _ e m = (
    good,
    buf,
    record e { secondary_data_corrupted = count e.secondary_data_corrupted },
    rewrite_copy (page + available_page_count) buf m,
  )
  settle page (failed _ _) (intact backup) e m = (
    good,
    backup,
    record e { primary_data_corrupted = count e.primary_data_corrupted },
    rewrite_copy page backup m,
  )
  settle page (mismatched _) (intact backup) e m = (
    good,
    backup,
    record e { primary_data_corrupted = count e.primary_data_corrupted },
    rewrite_copy page backup m,
  )
  settle page (failed _ buf) (failed sts _) e m = (sts, buf, e, m)
  settle page (mismatched buf) (failed sts _) e m = (sts, buf, e, m)
  settle page (failed _ buf) (mismatched _) e m =
      (data_corrupted, buf, record e { fatal = count e.fatal }, m)
  settle page (mismatched buf) (mismatched _) e m =
      (data_corrupted, buf, record e { fatal = count e.fatal }, m)

  -- `read`, with what was in the buffer.
  unfoldable pub read : ℕ → ℕ → Bytes → Errors → M → Status × Bytes × Errors × M
  read page len buf e m =
      if not (ltb page available_page_count)
      then (invalid_address, buf, e, m)
      else if not (ltb len available_page_bytes)
      then (invalid_data_size, buf, e, m)
      else let primary = read_copy page len m in
        let secondary = read_copy (page + available_page_count) len m in
        settle page primary secondary (count_copy secondary (count_copy primary e)) m
