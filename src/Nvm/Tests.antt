-- ===== src/Nvm/Tests.antt =====
-- A memory of bytes that never fails, two parameters, and instances of what is proved.
use emblib.Base.{
  ℕ, zero, suc, ◌+◌, ◌%◌, ◌≤◌, ◌<◌, ◌≡◌, refl, ap, ap₂, ◌∙◌, ◌⊎◌, inl, inr, some, [], ◌∷◌, arith,
  length, if◌then◌else◌, ◌==◌,
}
use emblib.Base.Expected.{ok}
use emblib.Nvm.{
  Bytes, Parameter, Functions, Storage, get, set, reset, reset_all, entry_size, offset_of,
  total_size, index_of, names_unique,
}
use emblib.Nvm.Hash.{fnv1a_32, crc32}
use emblib.Nvm.Layout.{parameters_laid_out}
use emblib.Nvm.Reads.{StorageLaws, SizeLaws}
use emblib.Nvm.Registry.{get-set, get-set_apart, get-reset_all}

abbrev Memory : Type 0
Memory = ℕ → ℕ

abbrev put_byte : ℕ → ℕ → Memory → Memory
put_byte a b m k = if a == k then b else m k

abbrev put : ℕ → Bytes → Memory → Memory
put a [] m = m
put a (b ∷ bs) m = put_byte a b (put (suc a) bs m)

abbrev take_bytes : ℕ → ℕ → Memory → Bytes
take_bytes a zero m = []
take_bytes a (suc n) m = m a ∷ take_bytes (suc a) n m

abbrev memory : Storage Memory
memory = record { read = λ a n m. ok (take_bytes a n m); write = λ a bs m. (ok tt, put a bs m) }

put_elsewhere :
    (a : ℕ) (bs : Bytes) (m : Memory) (k : ℕ) → (k < a) ⊎ (a + length bs ≤ k) → put a bs m k ≡ m k
put_elsewhere a [] m k h = refl
put_elsewhere a (b ∷ bs) m k (inl h) =
    ground (arith, put_elsewhere (suc a) bs m k (inl (omega arith)))
put_elsewhere a (b ∷ bs) m k (inr h) =
    ground (arith, put_elsewhere (suc a) bs m k (inr (omega arith)))

same_bytes :
    (a n : ℕ) (m m' : Memory)
    → ((k : ℕ) → a ≤ k → k < a + n → m k ≡ m' k)
    → take_bytes a n m ≡ take_bytes a n m'
same_bytes a zero m m' h = refl
same_bytes a (suc n) m m' h =
    ap₂ (◌∷◌) (h a (omega arith) (omega arith))
      (same_bytes (suc a) n m m' (λ k low high. h k (omega arith) (omega arith)))

take-put : (a : ℕ) (bs : Bytes) (m : Memory) → take_bytes a (length bs) (put a bs m) ≡ bs
take-put a [] m = refl
take-put a (b ∷ bs) m =
    let head : put_byte a b (put (suc a) bs m) a ≡ b = ground arith in
    let tail =
      same_bytes (suc a) (length bs) (put_byte a b (put (suc a) bs m)) (put (suc a) bs m)
        (λ k low high. ground arith) in
    ap₂ (◌∷◌) head (tail ∙ take-put (suc a) bs m)

memory-StorageLaws : StorageLaws memory
memory-StorageLaws = record {
  read_back = λ a bs m done. ap ok (take-put a bs m);
  read_apart = λ a bs m a' n apart. ap ok (
      same_bytes a' n (put a bs m) m
        (λ k low high. put_elsewhere a bs m k (beside a a' n k (length bs) apart low high)));
}
  where
    beside :
        (a a' n k len : ℕ)
        → (a' + n ≤ a) ⊎ (a + len ≤ a')
        → a' ≤ k
        → k < a' + n
        → (k < a) ⊎ (a + len ≤ k)
    beside a a' n k len (inl h) low high = inl (omega arith)
    beside a a' n k len (inr h) low high = inr (omega arith)

-- A hash and a checksum of one byte: sums.
abbrev sum : Bytes → ℕ
sum [] = 0
sum (b ∷ bs) = (b + sum bs) % 256

abbrev sums : Functions
sums = record {
  hash = λ name. sum name ∷ [];
  hash_size = 1;
  crc = λ h v. (sum h + sum v) % 256 ∷ [];
  crc_size = 1;
}

sums-SizeLaws : SizeLaws sums
sums-SizeLaws = record { hash_length = λ _. refl; crc_length = λ _ _. refl }

abbrev gain : Parameter
gain = record { name = 103 ∷ []; value_size = 2; default_value = 1 ∷ 0 ∷ [] }

abbrev limit : Parameter
limit = record { name = 108 ∷ []; value_size = 1; default_value = 9 ∷ [] }

abbrev blank : Memory
blank _ = 255

get-set_example :
    get sums memory gain 4 (set sums memory gain 4 (7 ∷ 8 ∷ []) blank).1 ≡ ok (7 ∷ 8 ∷ [])
unfolding set
get-set_example =
    get-set sums memory memory-StorageLaws sums-SizeLaws gain 4 (7 ∷ 8 ∷ []) blank refl refl

get-set_apart_example :
    get sums memory limit 8 (set sums memory gain 4 (7 ∷ 8 ∷ []) blank).1
    ≡ get sums memory limit 8 blank
get-set_apart_example =
    get-set_apart sums memory memory-StorageLaws sums-SizeLaws limit gain 8 4 (7 ∷ 8 ∷ []) blank
      refl (inr (omega arith))

get-reset_all_example :
    get sums memory limit
      (offset_of sums 4 (gain ∷ limit ∷ []) 1)
      (reset_all sums memory 4 (gain ∷ limit ∷ []) blank).1
    ≡ ok (9 ∷ [])
unfolding reset_all reset set
get-reset_all_example =
    get-reset_all sums memory memory-StorageLaws sums-SizeLaws 4 (gain ∷ limit ∷ []) 1 limit blank
      (refl, (refl, tt)) refl refl

parameters_laid_out_example :
    (index_of sums (gain ∷ limit ∷ []) (103 ∷ []) ≡ some 0)
    × (offset_of sums 4 (gain ∷ limit ∷ []) 0 + entry_size sums gain
        ≤ offset_of sums 4 (gain ∷ limit ∷ []) 1)
    × (offset_of sums 4 (gain ∷ limit ∷ []) 0 + entry_size sums gain
        ≤ 4 + total_size sums (gain ∷ limit ∷ []))
unfolding names_unique
parameters_laid_out_example =
    parameters_laid_out sums 4 (gain ∷ limit ∷ []) 0 1 gain refl refl (omega arith)

-- The published values of both functions: of "a" and of "123456789".
fnv1a_32_of_a : fnv1a_32 (97 ∷ []) ≡ 0xE40C292C
unfolding fnv1a_32
fnv1a_32_of_a = refl

crc32_of_digits : crc32 (49 ∷ 50 ∷ 51 ∷ 52 ∷ []) (53 ∷ 54 ∷ 55 ∷ 56 ∷ 57 ∷ []) ≡ 0xCBF43926
unfolding crc32
crc32_of_digits = refl
