-- ===== src/Can/Sdo/RoundTrip.antt =====
-- The frames of an expedited SDO transfer and their bytes are the same information.
use emblib.Base.{ℕ, ◌<◌, ◌≡◌, refl, arith}
use emblib.Can.{Payload, bytes}
use emblib.Can.Sdo.{ExpeditedSdo, get_cs_code, to_payload, from_payload}

-- Each field within the width of its bit field.
pub record Fits (s : ExpeditedSdo) : Type 0 where
  pub size_bit : s.data_size_indicated < 2
  pub transfer_bit : s.expedited_transfer < 2
  pub empty_bits : s.data_empty_bytes < 4
  pub reserved_bit : s.reserved < 2
  pub cs_bits : s.cs < 8
  pub index_bits : s.index < 65536
  pub subindex_bits : s.subindex < 256

-- The bytes of the header within a byte; the other four go through as they are.
abbrev pub IsHeader : Payload → Type 0
IsHeader (bytes b0 b1 b2 b3 _ _ _ _) = (b0 < 256) × (b1 < 256) × (b2 < 256) × (b3 < 256)

same_fields :
    {r s : ExpeditedSdo}
    → r.data_size_indicated ≡ s.data_size_indicated
    → r.expedited_transfer ≡ s.expedited_transfer
    → r.data_empty_bytes ≡ s.data_empty_bytes
    → r.reserved ≡ s.reserved
    → r.cs ≡ s.cs
    → r.index ≡ s.index
    → r.subindex ≡ s.subindex
    → r.content ≡ s.content
    → r ≡ s
same_fields a b c d e f g h = λ i. record {
  data_size_indicated = a i;
  expedited_transfer = b i;
  data_empty_bytes = c i;
  reserved = d i;
  cs = e i;
  index = f i;
  subindex = g i;
  content = h i;
}

same_payload :
    {a b c d a' b' c' d' e f g h : ℕ}
    → a ≡ a'
    → b ≡ b'
    → c ≡ c'
    → d ≡ d'
    → bytes a b c d e f g h ≡ bytes a' b' c' d' e f g h
same_payload {e = e} {f = f} {g = g} {h = h} p q r s = λ i. bytes (p i) (q i) (r i) (s i) e f g h

pub frame_survives : (s : ExpeditedSdo) → Fits s → from_payload (to_payload s) ≡ s
unfolding from_payload to_payload
frame_survives s h =
    same_fields (omega (arith, h.size_bit)) (omega (arith, h.size_bit, h.transfer_bit))
      (omega (arith, h.size_bit, h.transfer_bit, h.empty_bits))
      (omega (arith, h.size_bit, h.transfer_bit, h.empty_bits, h.reserved_bit))
      (omega (arith, h.size_bit, h.transfer_bit, h.empty_bits, h.reserved_bit, h.cs_bits))
      (omega arith) refl refl

payload_survives :
    (p : Payload)
    → IsHeader p
    → (to_payload (from_payload p) ≡ p) × (get_cs_code p ≡ (from_payload p).cs)
unfolding from_payload to_payload get_cs_code
payload_survives (bytes a b c d _ _ _ _) h =
    (same_payload (omega arith) (omega arith) (omega arith) refl, refl)

-- A frame whose fields are within their bit fields comes back from its bytes as it was, eight bytes
-- come back as they were from the frame that is read from them, and the command specifier that
-- `get_cs_code` takes from them is the frame's.
pub frames_correspond :
    (s : ExpeditedSdo) (p : Payload)
    → Fits s
    → IsHeader p
    → (from_payload (to_payload s) ≡ s)
      × (to_payload (from_payload p) ≡ p)
      × (get_cs_code p ≡ (from_payload p).cs)
frames_correspond s p h k =
    let (back, code) = payload_survives p k in (frame_survives s h, back, code)

-- What the server reads in a response is what it put there.
pub echoed :
    (s : ExpeditedSdo)
    → s.index < 65536
    → ((from_payload (to_payload s)).index ≡ s.index)
      × ((from_payload (to_payload s)).subindex ≡ s.subindex)
unfolding from_payload to_payload
echoed s h = (omega arith, refl)
