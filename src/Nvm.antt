-- ===== src/Nvm.antt =====
-- emb/nvm.hpp: named parameters in a storage, each with the hash of its name and a checksum. The
-- hash, the checksum and the storage are template parameters of the source and parameters here. A
-- value is the bytes of its object representation, which the storage reads and writes.
pub mod Hash
pub mod Layout
pub mod Reads
pub mod Registry
mod Tests
use emblib.Base.{
  ℕ, zero, suc, ◌+◌, Bool, true, false, Option, none, some, List, [], ◌∷◌, ◌&&◌, ◌==◌, length,
  if◌then◌else◌,
}
use emblib.Base.Expected.{Expected, ok, unexpected}

-- `nvm::error`
pub data Error : Type 0 where
  timeout bus_error invalid_argument access_denied hash_mismatch crc_mismatch : Error

abbrev pub Bytes : Type 0
Bytes = List ℕ

abbrev pub bytes_eq : Bytes → Bytes → Bool
bytes_eq [] [] = true
bytes_eq [] (b ∷ bs) = false
bytes_eq (a ∷ rest) [] = false
bytes_eq (a ∷ rest) (b ∷ bs) = a == b && bytes_eq rest bs

pub record Parameter : Type 0 where
  pub name : Bytes
  pub value_size : ℕ
  pub default_value : Bytes

-- `HashFn` and `CrcFn`, with the sizes of their types.
pub record Functions : Type 0 where
  pub hash : Bytes → Bytes
  pub hash_size : ℕ
  pub crc : Bytes → Bytes → Bytes
  pub crc_size : ℕ

-- `some_storage`: a storage of state `M`. A read leaves its contents as they are.
pub record Storage (M : Type 0) : Type 0 where
  pub read : ℕ → ℕ → M → Expected Error Bytes
  pub write : ℕ → Bytes → M → Expected Error (Unit {0}) × M

-- One step of `index_of`, with what the search of the rest finds.
abbrev pub found : Bool → Option ℕ → Option ℕ
found true rest = some 0
found false none = none
found false (some i) = some (suc i)

module _ (f : Functions) where
  abbrev pub overhead : ℕ
  overhead = f.hash_size + f.crc_size

  abbrev pub entry_size : Parameter → ℕ
  entry_size p = p.value_size + overhead

  -- `index_of`: the first parameter whose name has the hash of the one that is asked for.
  unfoldable pub index_of : List Parameter → Bytes → Option ℕ
  index_of [] name = none
  index_of (p ∷ ps) name = found (bytes_eq (f.hash p.name) (f.hash name)) (index_of ps name)

  -- `offset_of`: the base and the sizes of the entries before the index.
  unfoldable pub offset_of : ℕ → List Parameter → ℕ → ℕ
  offset_of base ps zero = base
  offset_of base [] (suc i) = base
  offset_of base (p ∷ ps) (suc i) = offset_of (base + entry_size p) ps i

  -- `size`
  unfoldable pub total_size : List Parameter → ℕ
  total_size [] = 0
  total_size (p ∷ ps) = entry_size p + total_size ps

  -- `names_unique`
  abbrev pub hash_absent : Bytes → List Parameter → Bool
  hash_absent h [] = true
  hash_absent h (p ∷ ps) = (if bytes_eq h (f.hash p.name) then false else true) && hash_absent h ps

  unfoldable pub names_unique : List Parameter → Bool
  names_unique [] = true
  names_unique (p ∷ ps) = hash_absent (f.hash p.name) ps && names_unique ps

-- `get` and `set` of the parameter `p` at an offset.
module _ {M : Type 0} (f : Functions) (storage : Storage M) where
  abbrev pub check_crc : Parameter → Bytes → Expected Error Bytes → Expected Error Bytes
  check_crc p value (unexpected e) = unexpected e
  check_crc p value (ok stored) =
      if bytes_eq stored (f.crc (f.hash p.name) value) then ok value else unexpected crc_mismatch

  abbrev pub get_value : Parameter → ℕ → M → Expected Error Bytes → Expected Error Bytes
  get_value p crc_loc m (unexpected e) = unexpected e
  get_value p crc_loc m (ok value) = check_crc p value (storage.read crc_loc f.crc_size m)

  abbrev pub check_hash : Parameter → ℕ → M → Expected Error Bytes → Expected Error Bytes
  check_hash p val_loc m (unexpected e) = unexpected e
  check_hash p val_loc m (ok h) =
      if bytes_eq h (f.hash p.name)
      then get_value p (val_loc + p.value_size) m (storage.read val_loc p.value_size m)
      else unexpected hash_mismatch

  unfoldable pub get : Parameter → ℕ → M → Expected Error Bytes
  get p offset m = check_hash p (offset + f.hash_size) m (storage.read offset f.hash_size m)

  -- The write after one that may have failed.
  abbrev pub and_then :
      Expected Error (Unit {0}) × M
      → (M → Expected Error (Unit {0}) × M)
      → Expected Error (Unit {0}) × M
  and_then (unexpected e, m) next = (unexpected e, m)
  and_then (ok _, m) next = next m

  unfoldable pub set : Parameter → ℕ → Bytes → M → Expected Error (Unit {0}) × M
  set p offset value m = and_then (storage.write offset (f.hash p.name) m) (λ m'.
      and_then (storage.write (offset + f.hash_size) value m') (λ m''.
        storage.write (offset + f.hash_size + p.value_size) (f.crc (f.hash p.name) value) m''))

  unfoldable pub reset : Parameter → ℕ → M → Expected Error (Unit {0}) × M
  reset p offset m = set p offset p.default_value m

  -- `reset_all`, from an offset on: the first error ends it.
  unfoldable pub reset_all : ℕ → List Parameter → M → Expected Error (Unit {0}) × M
  reset_all base [] m = (ok tt, m)
  reset_all base (p ∷ ps) m =
      and_then (reset p base m) (λ m'. reset_all (base + entry_size f p) ps m')

  -- `erase`: zeros from an offset on.
  unfoldable pub erase : ℕ → ℕ → M → Expected Error (Unit {0}) × M
  erase off zero m = (ok tt, m)
  erase off (suc n) m = and_then (storage.write off (0 ∷ []) m) (λ m'. erase (suc off) n m')
