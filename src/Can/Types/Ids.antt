-- ===== src/Can/Types/Ids.antt =====
-- The predefined COB-IDs against the scheme of CiA 301: four bits of function code over seven of
-- node id.
use emblib.Base.{
  ℕ, zero, suc, ◌+◌, ◌*◌, ◌/◌, ◌%◌, ◌<◌, ◌≡◌, refl, ap, ◌∙◌, Option, none, some, List, [], ◌∷◌,
  get_or, arith, ◌==◌, if◌then◌else◌,
}
use emblib.Can.Types.{
  nmt, sync, emcy, time, tpdo, rpdo, tsdo, rsdo, heartbeat, Cob, broadcast, peer, pdo, IsCob,
  a_broadcast, a_peer, a_pdo, nmt_broadcast, sync_broadcast, time_broadcast, tpdo_pdo, rpdo_pdo,
  emcy_peer, tsdo_peer, rsdo_peer, heartbeat_peer, cob_id_of, broadcast_cob_id, peer_cob_id,
  pdo_cob_id, cob_function_code,
}

-- The services in the order of their function codes, for a node id; code 13 is not in use.
abbrev pub services : ℕ → List (Option Cob)
services n =
    some (broadcast nmt)
    ∷ some (if n == 0 then broadcast sync else peer emcy n)
    ∷ some (broadcast time)
    ∷ some (pdo tpdo 1 n)
    ∷ some (pdo rpdo 1 n)
    ∷ some (pdo tpdo 2 n)
    ∷ some (pdo rpdo 2 n)
    ∷ some (pdo tpdo 3 n)
    ∷ some (pdo rpdo 3 n)
    ∷ some (pdo tpdo 4 n)
    ∷ some (pdo rpdo 4 n)
    ∷ some (peer tsdo n)
    ∷ some (peer rsdo n)
    ∷ none
    ∷ some (peer heartbeat n)
    ∷ []

abbrev pub service_of : ℕ → ℕ → Option Cob
service_of code n = get_or (services n) code none

-- An id and the code and node that it is made of.
split :
    (id code n : ℕ)
    → id ≡ code * 128 + n
    → n < 128
    → service_of (id / 128) (id % 128) ≡ service_of code n
split id code n e h =
    let high : id / 128 ≡ code = omega arith in
    let low : id % 128 ≡ n = omega arith in
    ap (λ c. service_of c (id % 128)) high ∙ ap (service_of code) low

-- The COB-ID of a service that the templates admit has eleven bits, and its function code and its
-- node id give back the service, the number of the PDO and the node; so no two share an id.
pub cob_id_decodes :
    (c : Cob)
    → IsCob c
    → (cob_id_of c < 0x800) × (service_of (cob_id_of c / 128) (cob_id_of c % 128) ≡ some c)
unfolding cob_id_of broadcast_cob_id peer_cob_id pdo_cob_id cob_function_code
cob_id_decodes _ (a_broadcast nmt_broadcast) = (omega arith, refl)
cob_id_decodes _ (a_broadcast sync_broadcast) = (omega arith, refl)
cob_id_decodes _ (a_broadcast time_broadcast) = (omega arith, refl)
cob_id_decodes _ (a_peer n emcy_peer h) =
    (omega arith, split (0x80 + n) 1 n (omega arith) (omega arith) ∙ ground arith)
cob_id_decodes _ (a_peer n tsdo_peer h) =
    (omega arith, split (0x580 + n) 11 n (omega arith) (omega arith))
cob_id_decodes _ (a_peer n rsdo_peer h) =
    (omega arith, split (0x600 + n) 12 n (omega arith) (omega arith))
cob_id_decodes _ (a_peer n heartbeat_peer h) =
    (omega arith, split (0x700 + n) 14 n (omega arith) (omega arith))
cob_id_decodes _ (a_pdo (suc zero) n tpdo_pdo i h) =
    (omega arith, split (0x180 + n) 3 n (omega arith) (omega arith))
cob_id_decodes _ (a_pdo (suc (suc zero)) n tpdo_pdo i h) =
    (omega arith, split (0x280 + n) 5 n (omega arith) (omega arith))
cob_id_decodes _ (a_pdo (suc (suc (suc zero))) n tpdo_pdo i h) =
    (omega arith, split (0x380 + n) 7 n (omega arith) (omega arith))
cob_id_decodes _ (a_pdo (suc (suc (suc (suc zero)))) n tpdo_pdo i h) =
    (omega arith, split (0x480 + n) 9 n (omega arith) (omega arith))
cob_id_decodes _ (a_pdo (suc zero) n rpdo_pdo i h) =
    (omega arith, split (0x200 + n) 4 n (omega arith) (omega arith))
cob_id_decodes _ (a_pdo (suc (suc zero)) n rpdo_pdo i h) =
    (omega arith, split (0x300 + n) 6 n (omega arith) (omega arith))
cob_id_decodes _ (a_pdo (suc (suc (suc zero))) n rpdo_pdo i h) =
    (omega arith, split (0x400 + n) 8 n (omega arith) (omega arith))
cob_id_decodes _ (a_pdo (suc (suc (suc (suc zero)))) n rpdo_pdo i h) =
    (omega arith, split (0x500 + n) 10 n (omega arith) (omega arith))
cob_id_decodes _ (a_pdo zero n _ i h) = absurd (omega arith)
cob_id_decodes _ (a_pdo (suc (suc (suc (suc (suc m))))) n _ i h) = absurd (omega arith)
