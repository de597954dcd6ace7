-- ===== src/Can/SdoServer/Serves.antt =====
-- Every transfer of emb/can/canopen/detail/sdo_server.hpp comes to a response about its object.
use emblib.Base.{
  ◌<◌, ◌≡◌, refl, sym, subst, ◌⊎◌, inl, inr, true, Bool-cases, Option, none, some, Option-cases,
  List, arith, ◌&&◌, ◌==◌,
}
use emblib.Base.Expected.{Expected, ok, unexpected}
use emblib.Can.{Payload, bytes}
use emblib.Can.Sdo.{
  ExpeditedSdo, from_payload, abort_payload, SdoAbortCode, client_init_write, no_data_available,
  write_to_read_only, client_init_read, server_init_write, server_init_read, cs_abort,
}
use emblib.Can.Sdo.RoundTrip.{Fits, IsHeader, frame_survives}
use emblib.Can.Od.{
  key_eq, OdEntry, OdObject, OdValue, has_read_permission, has_write_permission, make_od_value,
}
use emblib.Can.Dictionary.{find}
use emblib.Can.Dictionary.Find.{In, find-some}
use emblib.Can.SdoServer.{
  read_expedited, write_expedited, restore_default_parameter, restore_found, write_restore_default,
  write_result, read_result, respond, response, transfer, restore_target, key_of,
  restore_default_parameter_key,
}

-- A response about the object of a request: an abort, or the confirmation of the same transfer.
abbrev pub Answers : ExpeditedSdo → ExpeditedSdo → Type 0
Answers request reply =
    (reply.index ≡ request.index)
    × (reply.subindex ≡ request.subindex)
    × ((reply.cs ≡ cs_abort)
        ⊎ ((request.cs ≡ client_init_read) × (reply.cs ≡ server_init_read))
        ⊎ ((request.cs ≡ client_init_write) × (reply.cs ≡ server_init_write)))

-- A request whose index and subindex are of their widths, as `from_payload` reads them.
abbrev pub IsRequest : ExpeditedSdo → Type 0
IsRequest r = (r.index < 65536) × (r.subindex < 256)

-- The result of a transfer that is to become a response.
abbrev pub Confirms : ExpeditedSdo → Expected SdoAbortCode ExpeditedSdo → Type 0
Confirms request (ok reply) = Fits reply × Answers request reply
Confirms request (unexpected code) = Unit

pub from_payload-IsRequest : (p : Payload) → IsHeader p → IsRequest (from_payload p)
unfolding from_payload
from_payload-IsRequest (bytes a b c d _ _ _ _) h = let (p, q, r, t) = h in (omega arith, t)

pub response-Answers :
    (request : ExpeditedSdo) (r : Expected SdoAbortCode ExpeditedSdo)
    → IsRequest request
    → Confirms request r
    → Answers request (from_payload (response request r))
unfolding response
response-Answers request (ok reply) h (fits, answers) =
    subst (Answers request) (sym (frame_survives reply fits)) answers
response-Answers request (unexpected code) h c =
    unfold from_payload abort_payload in (omega arith, refl, inl refl)

module _ {S : Type 0} where
  -- An access that an entry permits has a function behind it.
  pub record IsBacked (object : OdObject S) : Type 0 where
    pub reads :
        has_read_permission object ≡ true
        → (f : S → Expected SdoAbortCode OdValue × S) × (object.read ≡ some f)
    pub writes :
        has_write_permission object ≡ true
        → (f : OdValue → S → Expected SdoAbortCode (Unit {0}) × S) × (object.write ≡ some f)

  abbrev pub AllBacked : List (OdEntry S) → Type 0
  AllBacked es = (e : OdEntry S) → In e es → IsBacked e.object

  -- A transfer goes through, with a result that confirms the request or aborts it.
  abbrev pub Serves : ExpeditedSdo → Option (Expected SdoAbortCode ExpeditedSdo × S) → Type 0
  Serves request o =
      (r : Expected SdoAbortCode ExpeditedSdo × S) × (o ≡ some r) × Confirms request r.0

  read_result-Confirms :
      (request : ExpeditedSdo) (object : OdObject S) (r : Expected SdoAbortCode OdValue × S)
      → IsRequest request
      → request.cs ≡ client_init_read
      → Confirms request (read_result request object r).0
  read_result-Confirms request object (ok value, s) h cs = (
    record {
      size_bit = omega arith;
      transfer_bit = omega arith;
      empty_bits = omega arith;
      reserved_bit = omega arith;
      cs_bits = omega arith;
      index_bits = h.0;
      subindex_bits = h.1;
    },
    (refl, refl, inr (inl (cs, refl))),
  )
  read_result-Confirms request object (unexpected code, s) h cs = tt

  write_result-Confirms :
      (request : ExpeditedSdo) (r : Expected SdoAbortCode (Unit {0}) × S)
      → IsRequest request
      → request.cs ≡ client_init_write
      → Confirms request (write_result request r).0
  write_result-Confirms request (ok u, s) h cs = (
    record {
      size_bit = omega arith;
      transfer_bit = omega arith;
      empty_bits = omega arith;
      reserved_bit = omega arith;
      cs_bits = omega arith;
      index_bits = h.0;
      subindex_bits = h.1;
    },
    (refl, refl, inr (inr (cs, refl))),
  )
  write_result-Confirms request (unexpected code, s) h cs = tt

  read_expedited-Serves :
      (e : OdEntry S) (request : ExpeditedSdo) (s : S)
      → IsBacked e.object
      → IsRequest request
      → request.cs ≡ client_init_read
      → Serves request (read_expedited e request s)
  unfolding read_expedited
  read_expedited-Serves e request s backed h cs = elim (Bool-cases (has_read_permission e.object)) [
    | inl may ↦
        let (f, there) = backed.reads may in
        (
          read_result request e.object (f s),
          rw (may, there),
          read_result-Confirms request e.object (f s) h cs,
        )
    | inr may_not ↦ rw may_not (_, refl, tt)
  ]

  write_expedited-Serves :
      (e : OdEntry S) (request : ExpeditedSdo) (s : S)
      → IsBacked e.object
      → IsRequest request
      → request.cs ≡ client_init_write
      → Serves request (write_expedited e request s)
  unfolding write_expedited
  write_expedited-Serves e request s backed h cs =
      elim (Bool-cases (has_write_permission e.object)) [
        | inl may ↦
            let (f, there) = backed.writes may in
            let r = f (make_od_value request.content e.object.data_type) s in
            (write_result request r, rw (may, there), write_result-Confirms request r h cs)
        | inr may_not ↦ rw may_not (_, refl, tt)
      ]

  restore_found-some :
      (o : Option (OdEntry S)) (s : S)
      → ((e : OdEntry S) → o ≡ some e → IsBacked e.object)
      → (r : Expected SdoAbortCode (Unit {0}) × S) × (restore_found o s ≡ some r)
  restore_found-some none s backed = (_, refl)
  restore_found-some (some e) s backed = elim (Bool-cases (has_write_permission e.object)) [
    | inl may ↦
        let (f, there) = (backed e refl).writes may in
        elim (Option-cases e.object.default_value) [
          | inl absent ↦ ((unexpected no_data_available, s), rw (may, absent))
          | inr (v, present) ↦ (f v s, rw (may, present, there))
        ]
    | inr may_not ↦ ((unexpected write_to_read_only, s), rw may_not)
  ]

  module _ (dictionary : List (OdEntry S)) (request : ExpeditedSdo) (s : S) where
    write_restore_default-Serves :
        AllBacked dictionary
        → IsRequest request
        → request.cs ≡ client_init_write
        → Serves request (write_restore_default dictionary request s)
    unfolding write_restore_default restore_default_parameter
    write_restore_default-Serves backed h cs =
        let target = restore_target request in
        let (r, e) =
          restore_found-some (find dictionary target) s
            (λ e found. backed e (find-some dictionary target e found).0) in
        (write_result request r, rw e, write_result-Confirms request r h cs)

    transfer-Serves :
        (o : Option (OdEntry S))
        → ((e : OdEntry S) → o ≡ some e → IsBacked e.object)
        → IsRequest request
        → Serves request (transfer o request s)
    transfer-Serves none backed h = (_, refl, tt)
    transfer-Serves (some e) backed h = elim (Bool-cases (request.cs == client_init_read)) [
      | inl is ↦
          let cs : request.cs ≡ client_init_read = ground arith in
          rw is (read_expedited-Serves e request s (backed e refl) h cs)
      | inr is_not ↦ elim (Bool-cases (request.cs == client_init_write)) [
        | inl is ↦
            let cs : request.cs ≡ client_init_write = ground arith in
            rw (is_not, is) (write_expedited-Serves e request s (backed e refl) h cs)
        | inr neither ↦ rw (is_not, neither) (_, refl, tt)
      ]
    ]

    pub respond-Serves :
        AllBacked dictionary → IsRequest request → Serves request (respond dictionary request s)
    unfolding respond
    respond-Serves backed h =
        elim (Bool-cases (
          request.cs == client_init_write
          && key_eq (key_of request) restore_default_parameter_key)) [
            | inl is ↦
                let cs : request.cs ≡ client_init_write = ground arith in
                rw is (write_restore_default-Serves backed h cs)
            | inr is_not ↦ rw is_not (
                transfer-Serves (find dictionary (key_of request))
                  (λ e found. backed e (find-some dictionary (key_of request) e found).0) h)
          ]
