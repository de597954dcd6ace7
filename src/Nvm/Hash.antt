-- ===== src/Nvm/Hash.antt =====
-- emb/nvm.hpp: the hash of a name and the checksum of an entry that `layout` takes by default.
use Prim.Native.Nat.{bit_xor}
use emblib.Base.{ℕ, zero, suc, ◌*◌, ◌/◌, ◌%◌, ◌^◌, List, [], ◌∷◌, ◌==◌, if◌then◌else◌}

-- The loop of `fnv1a_32`, from a hash so far.
abbrev pub fnv1a_from : ℕ → List ℕ → ℕ
fnv1a_from h [] = h
fnv1a_from h (c ∷ cs) = fnv1a_from (bit_xor h c * 0x01000193 % 2 ^ 32) cs

unfoldable pub fnv1a_32 : List ℕ → ℕ
fnv1a_32 name = fnv1a_from 0x811C9DC5 name

-- The inner loop of `crc32::update`: `-(crc & 1)` is a mask of all bits or of none.
abbrev pub crc_shift : ℕ → ℕ → ℕ
crc_shift zero crc = crc
crc_shift (suc n) crc = crc_shift n (bit_xor (crc / 2) (if crc % 2 == 1 then 0xEDB88320 else 0))

abbrev pub crc_update : ℕ → ℕ → ℕ
crc_update crc b = crc_shift 8 (bit_xor crc b)

abbrev pub crc_from : ℕ → List ℕ → ℕ
crc_from crc [] = crc
crc_from crc (b ∷ bs) = crc_from (crc_update crc b) bs

-- `crc32` of the bytes of the hash and of the value.
unfoldable pub crc32 : List ℕ → List ℕ → ℕ
crc32 hash value = bit_xor (crc_from (crc_from 0xFFFFFFFF hash) value) 0xFFFFFFFF
