-- ===== src/Nvm/Reads.antt =====
-- What `get` of emb/nvm.hpp reads, and which writes leave it.
use emblib.Base.{ℕ, ◌+◌, ◌≤◌, ◌≡◌, refl, ap, sym, ◌∙◌, ◌⊎◌, inl, inr, arith, length, if◌then◌else◌}
use emblib.Base.Expected.{Expected, ok, unexpected}
use emblib.Nvm.{
  Error, hash_mismatch, Bytes, bytes_eq, Parameter, Functions, Storage, entry_size, get, check_hash,
  get_value, check_crc,
}

-- What the registry relies on in a storage: a successful write is read back, and no write changes
-- what is read elsewhere.
pub record StorageLaws {M : Type 0} (storage : Storage M) : Type 0 where
  pub read_back :
      (a : ℕ) (bs : Bytes) (m : M)
      → (storage.write a bs m).0 ≡ ok tt
      → storage.read a (length bs) (storage.write a bs m).1 ≡ ok bs
  pub read_apart :
      (a : ℕ) (bs : Bytes) (m : M) (a' n : ℕ)
      → (a' + n ≤ a) ⊎ (a + length bs ≤ a')
      → storage.read a' n (storage.write a bs m).1 ≡ storage.read a' n m

-- Hashes and checksums have the sizes of their types.
pub record SizeLaws (f : Functions) : Type 0 where
  pub hash_length : (name : Bytes) → length (f.hash name) ≡ f.hash_size
  pub crc_length : (h value : Bytes) → length (f.crc h value) ≡ f.crc_size

pub swap : {A B : Type 0} → A ⊎ B → B ⊎ A
swap (inl a) = inr a
swap (inr b) = inl b

-- A part of a range that is apart from another is apart from it too.
pub part_apart :
    (off size a len x n : ℕ)
    → (off + size ≤ a) ⊎ (a + len ≤ off)
    → off ≤ x
    → x + n ≤ off + size
    → (x + n ≤ a) ⊎ (a + len ≤ x)
part_apart off size a len x n (inl h) low high = inl (omega arith)
part_apart off size a len x n (inr h) low high = inr (omega arith)

module _ {M : Type 0} (f : Functions) (storage : Storage M) where
  -- `get` as a function of its three reads.
  abbrev pub outcome_value :
      Parameter → Expected Error Bytes → Expected Error Bytes → Expected Error Bytes
  outcome_value p (unexpected e) c = unexpected e
  outcome_value p (ok v) c = check_crc f storage p v c

  abbrev pub outcome :
      Parameter
      → Expected Error Bytes
      → Expected Error Bytes
      → Expected Error Bytes
      → Expected Error Bytes
  outcome p (unexpected e) v c = unexpected e
  outcome p (ok h) v c =
      if bytes_eq h (f.hash p.name) then outcome_value p v c else unexpected hash_mismatch

  pub get-outcome :
      (p : Parameter) (off : ℕ) (m : M)
      → get f storage p off m
        ≡ outcome p
            (storage.read off f.hash_size m)
            (storage.read (off + f.hash_size) p.value_size m)
            (storage.read (off + f.hash_size + p.value_size) f.crc_size m)
  unfolding get
  get-outcome p off m = checked (storage.read off f.hash_size m)
    where
      valued :
          (v : Expected Error Bytes) (loc : ℕ)
          → get_value f storage p loc m v ≡ outcome_value p v (storage.read loc f.crc_size m)
      valued (unexpected e) loc = refl
      valued (ok v) loc = refl

      checked :
          (h : Expected Error Bytes)
          → check_hash f storage p (off + f.hash_size) m h
            ≡ outcome p h
                (storage.read (off + f.hash_size) p.value_size m)
                (storage.read (off + f.hash_size + p.value_size) f.crc_size m)
      checked (unexpected e) = refl
      checked (ok h) =
          ap (λ r. if bytes_eq h (f.hash p.name) then r else unexpected hash_mismatch)
            (valued (storage.read (off + f.hash_size) p.value_size m)
              (off + f.hash_size + p.value_size))

  module _ (laws : StorageLaws storage) (sizes : SizeLaws f) where
    -- A write apart from an entry changes nothing for `get`.
    pub write_apart :
        (p : Parameter) (off a : ℕ) (bs : Bytes) (m : M)
        → (off + entry_size f p ≤ a) ⊎ (a + length bs ≤ off)
        → get f storage p off (storage.write a bs m).1 ≡ get f storage p off m
    write_apart p off a bs m apart =
        let m' = (storage.write a bs m).1 in
        let size = entry_size f p in
        let l0 = off + f.hash_size in
        let l1 = l0 + p.value_size in
        let e0 =
          laws.read_apart a bs m off f.hash_size
            (part_apart off size a (length bs) off f.hash_size apart (omega arith) (omega arith)) in
        let e1 =
          laws.read_apart a bs m l0 p.value_size
            (part_apart off size a (length bs) l0 p.value_size apart (omega arith) (omega arith)) in
        let e2 =
          laws.read_apart a bs m l1 f.crc_size
            (part_apart off size a (length bs) l1 f.crc_size apart (omega arith) (omega arith)) in
        get-outcome p off m'
        ∙ ap (λ h. outcome p h (storage.read l0 p.value_size m') (storage.read l1 f.crc_size m')) e0
        ∙ ap (λ v. outcome p (storage.read off f.hash_size m) v (storage.read l1 f.crc_size m')) e1
        ∙ ap (λ c. outcome p (storage.read off f.hash_size m) (storage.read l0 p.value_size m) c) e2
        ∙ sym (get-outcome p off m)
