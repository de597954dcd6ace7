-- ===== src/Eeprom/Copies.antt =====
-- What `read` returns of the two copies of a page.
use emblib.Base.{
  ℕ, ◌+◌, ◌<◌, ◌≡◌, ◌≢◌, refl, ap, sym, ◌∙◌, ◌⊎◌, inl, inr, true, false, Bool-cases, [], ◌∷◌, arith,
  ltb, ◌==◌, if◌then◌else◌,
}
use emblib.Nvm.{Bytes, bytes_eq}
use emblib.Nvm.Layout.{bytes_eq_refl}
use emblib.Eeprom.{
  Status, good, is_good, Driver, Errors, Copy, failed, mismatched, intact, available_page_count,
  available_page_bytes, check_copy, compare_crc, read_copy, settle, read,
}

bytes_eq-true : (a b : Bytes) → bytes_eq a b ≡ true → a ≡ b
bytes_eq-true [] [] h = refl
bytes_eq-true [] (b ∷ bs) h = absurd (cc)
bytes_eq-true (a ∷ rest) [] h = absurd (cc)
bytes_eq-true (a ∷ rest) (b ∷ bs) h = elim (Bool-cases (a == b)) [
  | inl same ↦
      let first : a ≡ b = ground arith in
      let others : bytes_eq rest bs ≡ true = rw same at h in
      ap (λ c. c ∷ rest) first ∙ ap (◌∷◌ b) (bytes_eq-true rest bs others)
  | inr differ ↦ let wrong : false ≡ true = rw differ at h in absurd (cc)
]

pub is_good-true : (sts : Status) → is_good sts ≡ true → sts ≡ good
is_good-true good h = refl
is_good-true Status.read_failed h = absurd (cc)
is_good-true Status.write_failed h = absurd (cc)
is_good-true Status.read_timeout h = absurd (cc)
is_good-true Status.write_timeout h = absurd (cc)
is_good-true Status.invalid_address h = absurd (cc)
is_good-true Status.invalid_data_size h = absurd (cc)
is_good-true Status.data_corrupted h = absurd (cc)
is_good-true Status.no_device h = absurd (cc)

is_good-false : (sts : Status) → sts ≡ good → is_good sts ≡ false → ⊥
is_good-false sts h g = let wrong : true ≡ false = ap is_good (sym h) ∙ g in absurd (cc)

module _ {M : Type 0} (driver : Driver M) (calc_crc : Bytes → Bytes) where
  -- A page whose data and whose checksum are read without an error, and match.
  abbrev pub IsIntact : ℕ → ℕ → M → Bytes → Type 0
  IsIntact page len m buf =
      (driver.read page 0 len m ≡ (good, buf)) × (driver.read page len 4 m ≡ (good, calc_crc buf))

  -- What a copy says of its page.
  abbrev CopyOf : ℕ → ℕ → M → Copy → Type 0
  CopyOf page len m (failed sts buf) = is_good sts ≡ false
  CopyOf page len m (mismatched buf) = Unit
  CopyOf page len m (intact buf) = IsIntact page len m buf

  compare_crc-CopyOf :
      (page len : ℕ) (m : M) (buf : Bytes) (r : Status × Bytes)
      → driver.read page 0 len m ≡ (good, buf)
      → driver.read page len 4 m ≡ r
      → CopyOf page len m (compare_crc driver calc_crc buf r)
  compare_crc-CopyOf page len m buf (sts, stored) content sum = elim (Bool-cases (is_good sts)) [
    | inr bad ↦ rw bad bad
    | inl fine ↦ elim (Bool-cases (bytes_eq (calc_crc buf) stored)) [
      | inr differs ↦ rw (fine, differs) tt
      | inl same ↦
          let is : stored ≡ calc_crc buf = sym (bytes_eq-true (calc_crc buf) stored same) in
          let stored_good : driver.read page len 4 m ≡ (good, calc_crc buf) =
            sum ∙ ap (λ s. (s, stored)) (is_good-true sts fine) ∙ ap (λ b. (good, b)) is in
          rw (fine, same) (content, stored_good)
    ]
  ]

  read_copy-CopyOf :
      (page len : ℕ) (m : M) → CopyOf page len m (read_copy driver calc_crc page len m)
  unfolding read_copy
  read_copy-CopyOf page len m = checked (driver.read page 0 len m) refl
    where
      checked :
          (r : Status × Bytes)
          → driver.read page 0 len m ≡ r
          → CopyOf page len m (check_copy driver calc_crc page len m r)
      checked (sts, buf) content = elim (Bool-cases (is_good sts)) [
        | inr bad ↦ rw bad bad
        | inl fine ↦ rw fine (
            compare_crc-CopyOf page len m buf (driver.read page len 4 m)
              (content ∙ ap (λ s. (s, buf)) (is_good-true sts fine)) refl)
      ]

  module _ (page len : ℕ) (m : M) where
    -- The bytes that a result leaves in the buffer are those of an intact copy.
    abbrev FromCopy : Bytes → Type 0
    FromCopy buf =
        IsIntact page len m buf ⊎ IsIntact (page + available_page_count driver calc_crc) len m buf

    settle-FromCopy :
        (primary secondary : Copy) (e : Errors)
        → CopyOf page len m primary
        → CopyOf (page + available_page_count driver calc_crc) len m secondary
        → (settle driver calc_crc page primary secondary e m).0 ≡ good
        → FromCopy (settle driver calc_crc page primary secondary e m).1
    unfolding settle
    settle-FromCopy (intact buf) (intact backup) e p s h =
        elim (Bool-cases (bytes_eq (calc_crc buf) (calc_crc backup))) [
          | inl same ↦ rw same (inl p)
          | inr differ ↦ rw differ (inl p)
        ]
    settle-FromCopy (intact buf) (failed sts b) e p s h = inl p
    settle-FromCopy (intact buf) (mismatched b) e p s h = inl p
    settle-FromCopy (failed sts b) (intact backup) e p s h = inr s
    settle-FromCopy (mismatched b) (intact backup) e p s h = inr s
    settle-FromCopy (failed sts b) (failed sts' b') e p s h = absurd (is_good-false sts' h s)
    settle-FromCopy (mismatched b) (failed sts' b') e p s h = absurd (is_good-false sts' h s)
    settle-FromCopy (failed sts b) (mismatched b') e p s h = absurd (cc)
    settle-FromCopy (mismatched b) (mismatched b') e p s h = absurd (cc)

    -- Where a read of a page reports success, the bytes that it leaves in the buffer are the data of
    -- a copy whose checksum was read and matches, whatever errors the driver has reported.
    pub read_returns_checked :
        (buf : Bytes) (e : Errors)
        → (read driver calc_crc page len buf e m).0 ≡ good
        → FromCopy (read driver calc_crc page len buf e m).1
    unfolding read
    read_returns_checked buf e h =
        elim (Bool-cases (ltb page (available_page_count driver calc_crc))) [
          | inr outside ↦ let wrong = rw outside at h in absurd (cc)
          | inl inside ↦ elim (Bool-cases (ltb len (available_page_bytes driver calc_crc))) [
            | inr long ↦ let wrong = rw (inside, long) at h in absurd (cc)
            | inl short ↦
                rw (inside, short)
                  (settle-FromCopy (read_copy driver calc_crc page len m)
                    (read_copy driver calc_crc (page + available_page_count driver calc_crc) len m)
                    _ (read_copy-CopyOf page len m)
                    (read_copy-CopyOf (page + available_page_count driver calc_crc) len m)
                    (rw (inside, short) at h))
          ]
        ]

  read_copy_intact :
      (page len : ℕ) (m : M) (buf : Bytes)
      → IsIntact page len m buf
      → read_copy driver calc_crc page len m ≡ intact buf
  unfolding read_copy
  read_copy_intact page len m buf (content, sum) =
      ap (check_copy driver calc_crc page len m) content
      ∙ ap (compare_crc driver calc_crc buf) sum
      ∙ ap (λ b. if b then intact buf else mismatched buf) (bytes_eq_refl (calc_crc buf))

  settle_primary :
      (page : ℕ) (buf : Bytes) (secondary : Copy) (e : Errors) (m : M)
      → ((settle driver calc_crc page (intact buf) secondary e m).0 ≡ good)
        × ((settle driver calc_crc page (intact buf) secondary e m).1 ≡ buf)
  unfolding settle
  settle_primary page buf (failed sts b) e m = (refl, refl)
  settle_primary page buf (mismatched b) e m = (refl, refl)
  settle_primary page buf (intact b) e m =
      elim (Bool-cases (bytes_eq (calc_crc buf) (calc_crc b))) [
        | inl same ↦ rw same (refl, refl)
        | inr differ ↦ rw differ (refl, refl)
      ]

  settle_secondary :
      (page : ℕ) (primary : Copy) (buf : Bytes) (e : Errors) (m : M)
      → ((b : Bytes) → primary ≢ intact b)
      → ((settle driver calc_crc page primary (intact buf) e m).0 ≡ good)
        × ((settle driver calc_crc page primary (intact buf) e m).1 ≡ buf)
  unfolding settle
  settle_secondary page (failed sts b) buf e m spoilt = (refl, refl)
  settle_secondary page (mismatched b) buf e m spoilt = (refl, refl)
  settle_secondary page (intact b) buf e m spoilt = absurd (spoilt b refl)

  -- A read of a page in range returns the data of the primary copy where that is intact, and
  -- otherwise the data of the backup where that is intact: one copy is enough.
  pub read_survives :
      (page len : ℕ) (buf kept : Bytes) (e : Errors) (m : M)
      → page < available_page_count driver calc_crc
      → len < available_page_bytes driver calc_crc
      → IsIntact page len m kept
        ⊎ (((b : Bytes) → read_copy driver calc_crc page len m ≢ intact b)
            × IsIntact (page + available_page_count driver calc_crc) len m kept)
      → ((read driver calc_crc page len buf e m).0 ≡ good)
        × ((read driver calc_crc page len buf e m).1 ≡ kept)
  unfolding read
  read_survives page len buf kept e m inside short copies =
      let in_range : ltb page (available_page_count driver calc_crc) ≡ true = ground arith in
      let fits : ltb len (available_page_bytes driver calc_crc) ≡ true = ground arith in
      elim copies [
        | inl primary ↦
            rw (in_range, fits, read_copy_intact page len m kept primary)
              (settle_primary page kept
                (read_copy driver calc_crc (page + available_page_count driver calc_crc) len m) _ m)
        | inr (spoilt, backup) ↦
            rw
              (
                in_range,
                fits,
                read_copy_intact (page + available_page_count driver calc_crc) len m kept backup,
              )
              (settle_secondary page (read_copy driver calc_crc page len m) kept _ m spoilt)
      ]
