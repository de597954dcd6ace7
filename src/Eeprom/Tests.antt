-- ===== src/Eeprom/Tests.antt =====
-- Pages of a memory that never fails, and instances of what is proved of the storage.
use emblib.Base.{
  ℕ, zero, suc, ◌+◌, ◌%◌, ◌<◌, ◌≡◌, ◌≢◌, refl, ap, ap₂, ◌∙◌, ◌≤◌, ◌⊎◌, inl, inr, [], ◌∷◌, arith,
  length, ◌==◌, ◌&&◌, if◌then◌else◌,
}
use emblib.Nvm.{Bytes}
use emblib.Eeprom.{good, Driver, no_errors, write, read, read_copy, settle, intact}
use emblib.Eeprom.Copies.{IsIntact, read_returns_checked, read_survives}
use emblib.Eeprom.RoundTrip.{DriverLaws, read-write}

-- A byte for each page and offset.
abbrev Pages : Type 0
Pages = ℕ → ℕ → ℕ

abbrev put_byte : ℕ → ℕ → ℕ → Pages → Pages
put_byte page off b m p o = if p == page && o == off then b else m p o

abbrev put : ℕ → ℕ → Bytes → Pages → Pages
put page off [] m = m
put page off (b ∷ bs) m = put_byte page off b (put page (suc off) bs m)

abbrev get : ℕ → ℕ → ℕ → Pages → Bytes
get page off zero m = []
get page off (suc n) m = m page off ∷ get page (suc off) n m

abbrev pages : Driver Pages
pages = record {
  read = λ page off len m. (good, get page off len m);
  write = λ page off bs m. (good, put page off bs m);
  page_bytes = 16;
  page_count = 6;
}

abbrev sum : Bytes → ℕ
sum [] = 0
sum (b ∷ bs) = (b + sum bs) % 256

abbrev checksum : Bytes → Bytes
checksum bs = sum bs ∷ 0 ∷ 0 ∷ 0 ∷ []

put_elsewhere :
    (page off : ℕ) (bs : Bytes) (m : Pages) (p o : ℕ)
    → (p ≢ page) ⊎ (o < off) ⊎ (off + length bs ≤ o)
    → put page off bs m p o ≡ m p o
put_elsewhere page off [] m p o h = refl
put_elsewhere page off (b ∷ bs) m p o (inl ne) =
    ground (arith, put_elsewhere page (suc off) bs m p o (inl ne))
put_elsewhere page off (b ∷ bs) m p o (inr (inl h)) =
    ground (arith, put_elsewhere page (suc off) bs m p o (inr (inl (omega arith))))
put_elsewhere page off (b ∷ bs) m p o (inr (inr h)) =
    ground (arith, put_elsewhere page (suc off) bs m p o (inr (inr (omega arith))))

same_bytes :
    (page off n : ℕ) (m m' : Pages)
    → ((o : ℕ) → off ≤ o → o < off + n → m page o ≡ m' page o)
    → get page off n m ≡ get page off n m'
same_bytes page off zero m m' h = refl
same_bytes page off (suc n) m m' h =
    ap₂ (◌∷◌) (h off (omega arith) (omega arith))
      (same_bytes page (suc off) n m m' (λ o low high. h o (omega arith) (omega arith)))

get-put :
    (page off : ℕ) (bs : Bytes) (m : Pages) → get page off (length bs) (put page off bs m) ≡ bs
get-put page off [] m = refl
get-put page off (b ∷ bs) m =
    let head : put_byte page off b (put page (suc off) bs m) page off ≡ b = ground arith in
    let tail =
      same_bytes page (suc off) (length bs) (put_byte page off b (put page (suc off) bs m))
        (put page (suc off) bs m) (λ o low high. ground arith) in
    ap₂ (◌∷◌) head (tail ∙ get-put page (suc off) bs m)

pages-DriverLaws : DriverLaws pages
pages-DriverLaws = record {
  read_back = λ page off bs m done. ap (λ b. (good, b)) (get-put page off bs m);
  read_apart = λ page off bs m page' off' len apart.
      ap (λ b. (good, b))
        (same_bytes page' off' len (put page off bs m) m (λ o low high.
          put_elsewhere page off bs m page' o
            (beside page page' off off' len (length bs) o apart low high)));
}
  where
    beside :
        (page page' off off' len n o : ℕ)
        → (page' ≢ page) ⊎ (off' + len ≤ off) ⊎ (off + n ≤ off')
        → off' ≤ o
        → o < off' + len
        → (page' ≢ page) ⊎ (o < off) ⊎ (off + n ≤ o)
    beside page page' off off' len n o (inl h) low high = inl h
    beside page page' off off' len n o (inr (inl h)) low high = inr (inl (omega arith))
    beside page page' off off' len n o (inr (inr h)) low high = inr (inr (omega arith))

abbrev blank : Pages
blank _ _ = 255

abbrev two_bytes : Bytes
two_bytes = 7 ∷ 8 ∷ []

read-write_example :
    ((read pages checksum 1 2
        (0 ∷ 0 ∷ [])
        no_errors
        (write pages checksum 1 two_bytes no_errors blank).2).0
      ≡ good)
    × ((read pages checksum 1 2
          (0 ∷ 0 ∷ [])
          no_errors
          (write pages checksum 1 two_bytes no_errors blank).2).1
        ≡ two_bytes)
unfolding write
read-write_example =
    read-write pages checksum pages-DriverLaws (λ _. refl) 1 two_bytes (0 ∷ 0 ∷ []) no_errors
      no_errors blank (omega arith) (omega arith) refl

-- The pages after a write of page 0 whose primary copy has lost a byte since.
abbrev spoilt : Pages
spoilt = put 0 0 (99 ∷ []) (put 2 0 two_bytes (put 2 2 (checksum two_bytes) blank))

read_returns_checked_example :
    IsIntact pages checksum 0 2 spoilt two_bytes ⊎ IsIntact pages checksum 2 2 spoilt two_bytes
unfolding read read_copy settle
read_returns_checked_example =
    read_returns_checked pages checksum 0 2 spoilt (0 ∷ 0 ∷ []) no_errors refl

spoilt_primary : (b : Bytes) → read_copy pages checksum 0 2 spoilt ≢ intact b
unfolding read_copy
spoilt_primary b h = absurd (cc)

read_survives_example :
    ((read pages checksum 0 2 (0 ∷ 0 ∷ []) no_errors spoilt).0 ≡ good)
    × ((read pages checksum 0 2 (0 ∷ 0 ∷ []) no_errors spoilt).1 ≡ two_bytes)
read_survives_example =
    read_survives pages checksum 0 2 (0 ∷ 0 ∷ []) two_bytes no_errors spoilt (omega arith)
      (omega arith) (inr (spoilt_primary, (refl, refl)))
