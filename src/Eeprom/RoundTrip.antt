-- ===== src/Eeprom/RoundTrip.antt =====
-- A page that is written is read back.
use emblib.Base.{
  ℕ, ◌+◌, ◌≤◌, ◌<◌, ◌≡◌, ◌≢◌, refl, ap, sym, subst, ◌∙◌, ◌⊎◌, inl, inr, true, false, Bool-cases,
  arith, length, ltb,
}
use emblib.Nvm.{Bytes}
use emblib.Eeprom.{
  Status, good, is_good, Driver, Errors, available_page_count, available_page_bytes, write_next,
  write_copy, write, read,
}
use emblib.Eeprom.Copies.{IsIntact, is_good-true, read_survives}

-- What the storage relies on in a driver: what a good write has written is read without an error,
-- and a write changes nothing on other pages or at other offsets.
pub record DriverLaws {M : Type 0} (driver : Driver M) : Type 0 where
  pub read_back :
      (page off : ℕ) (bs : Bytes) (m : M)
      → (driver.write page off bs m).0 ≡ good
      → driver.read page off (length bs) (driver.write page off bs m).1 ≡ (good, bs)
  pub read_apart :
      (page off : ℕ) (bs : Bytes) (m : M) (page' off' len : ℕ)
      → (page' ≢ page) ⊎ (off' + len ≤ off) ⊎ (off + length bs ≤ off')
      → driver.read page' off' len (driver.write page off bs m).1 ≡ driver.read page' off' len m

module _ {M : Type 0} (driver : Driver M) (calc_crc : Bytes → Bytes) where
  write_next_good :
      (w : Status × M) (e : Errors) (next : M → Status × Errors × M)
      → (write_next driver calc_crc w e next).0 ≡ good
      → (w.0 ≡ good) × (write_next driver calc_crc w e next ≡ next w.1)
  write_next_good (sts, m) e next done = elim (Bool-cases (is_good sts)) [
    | inl fine ↦ (is_good-true sts fine, rw fine refl)
    | inr bad ↦
        let same : sts ≡ good = rw bad at done in
        let wrong : false ≡ true = sym bad ∙ ap is_good same in absurd (cc)
  ]

  write_copy_good :
      (page : ℕ) (buf : Bytes) (e : Errors) (next : M → Status × Errors × M) (m : M)
      → (write_copy driver calc_crc page buf e next m).0 ≡ good
      → ((driver.write page 0 buf m).0 ≡ good)
        × ((driver.write page (length buf) (calc_crc buf) (driver.write page 0 buf m).1).0 ≡ good)
        × (write_copy driver calc_crc page buf e next m
            ≡ next (driver.write page (length buf) (calc_crc buf) (driver.write page 0 buf m).1).1)
  write_copy_good page buf e next m done =
      let w0 = driver.write page 0 buf m in
      let w1 = driver.write page (length buf) (calc_crc buf) w0.1 in
      let behind : M → Status × Errors × M = λ m'.
        write_next driver calc_crc (driver.write page (length buf) (calc_crc buf) m') e next in
      let (good0, same0) = write_next_good w0 e behind done in
      let (good1, same1) = write_next_good w1 e next (ap (λ r. r.0) (sym same0) ∙ done) in
      (good0, good1, same0 ∙ same1)

  module _ (laws : DriverLaws driver) (four : (bs : Bytes) → length (calc_crc bs) ≡ 4) where
    -- The four writes of a page leave its primary copy intact.
    writes_leave-IsIntact :
        (page other : ℕ) (buf : Bytes) (m : M)
        → page ≢ other
        → (driver.write page 0 buf m).0 ≡ good
        → (driver.write page (length buf) (calc_crc buf) (driver.write page 0 buf m).1).0 ≡ good
        → (m3 : M)
        → ((p o n : ℕ)
            → p ≢ other
            → driver.read p o n m3
              ≡ driver.read p o n
                  (driver.write page (length buf) (calc_crc buf) (driver.write page 0 buf m).1).1)
        → IsIntact driver calc_crc page (length buf) m3 buf
    writes_leave-IsIntact page other buf m apart good0 good1 m3 kept =
        let m1 = (driver.write page 0 buf m).1 in
        (
          kept page 0 (length buf) apart
              ∙ laws.read_apart page (length buf) (calc_crc buf) m1 page 0 (length buf)
                  (inr (inl (omega arith)))
              ∙ laws.read_back page 0 buf m good0,
          kept page (length buf) 4 apart
              ∙ ap
                  (λ n.
                    driver.read page (length buf) n
                      (driver.write page (length buf) (calc_crc buf) m1).1)
                  (sym (four buf))
              ∙ laws.read_back page (length buf) (calc_crc buf) m1 good1,
        )

    -- With a driver that reads back what it has written and changes nothing elsewhere, and with
    -- checksums of four bytes: after a write of a page that reports success, a read of the page
    -- reports success and leaves the bytes that were written.
    pub read-write :
        (page : ℕ) (buf scratch : Bytes) (e e' : Errors) (m : M)
        → page < available_page_count driver calc_crc
        → length buf < available_page_bytes driver calc_crc
        → (write driver calc_crc page buf e m).0 ≡ good
        → ((read driver calc_crc page
              (length buf)
              scratch
              e'
              (write driver calc_crc page buf e m).2).0
            ≡ good)
          × ((read driver calc_crc page
                (length buf)
                scratch
                e'
                (write driver calc_crc page buf e m).2).1
              ≡ buf)
    unfolding write
    read-write page buf scratch e e' m inside short done =
        let in_range : ltb page (available_page_count driver calc_crc) ≡ true = ground arith in
        let fits : ltb (length buf) (available_page_bytes driver calc_crc) ≡ true = ground arith in
        let other = page + available_page_count driver calc_crc in
        let m2 = (driver.write page (length buf) (calc_crc buf) (driver.write page 0 buf m).1).1 in
        let m3 = (driver.write other 0 buf m2).1 in
        let m4 = (driver.write other (length buf) (calc_crc buf) m3).1 in
        let finish : M → Status × Errors × M = λ m'. (good, e, m') in
        let backup : M → Status × Errors × M = write_copy driver calc_crc other buf e finish in
        let written : write driver calc_crc page buf e m
            ≡ write_copy driver calc_crc page buf e backup m =
          rw (in_range, fits) refl in
        let (good0, good1, same) =
          write_copy_good page buf e backup m (ap (λ r. r.0) (sym written) ∙ done) in
        let (good2, good3, same') =
          write_copy_good other buf e finish m2 (ap (λ r. r.0) (sym (written ∙ same)) ∙ done) in
        let whole : write driver calc_crc page buf e m ≡ (good, e, m4) = written ∙ same ∙ same' in
        let apart : page ≢ other = omega arith in
        let copy = writes_leave-IsIntact page other buf m apart good0 good1 m4 (λ p o n ne.
          laws.read_apart other (length buf) (calc_crc buf) m3 p o n (inl ne)
          ∙ laws.read_apart other 0 buf m2 p o n (inl ne)) in
        subst
          (λ m'.
            ((read driver calc_crc page (length buf) scratch e' m').0 ≡ good)
            × ((read driver calc_crc page (length buf) scratch e' m').1 ≡ buf))
          (sym (ap (λ r. r.2) whole))
          (read_survives driver calc_crc page (length buf) scratch buf e' m4 inside short
            (inl copy))
