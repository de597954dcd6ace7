-- ===== src/Can/SdoServer/Transfers.antt =====
-- What a download leaves behind an entry, and what an upload reads there.
use emblib.Base.{◌≡◌, true, false, some, List, arith, ◌==◌}
use emblib.Base.Expected.{Expected, ok}
use emblib.Can.Sdo.{ExpeditedSdo, SdoAbortCode, client_init_write, client_init_read}
use emblib.Can.Od.{
  OdEntry, OdValue, make_od_value, has_write_permission, has_read_permission, key_eq,
}
use emblib.Can.Od.RoundTrip.{IsRaw, kept_bytes, bytes_survive}
use emblib.Can.Dictionary.{find}
use emblib.Can.SdoServer.{
  respond, read_expedited, write_expedited, restore_default_parameter_key, key_of, to_read_response,
  to_write_response,
}

module _ {S : Type 0} (dictionary : List (OdEntry S)) (e : OdEntry S) where
  -- On an object that is found, is not the one for restoring defaults, may be read and written and
  -- whose functions keep a value that is written: a download is confirmed, and an upload after it
  -- returns the bytes that were sent, as far as the object's type keeps them.
  pub download_upload :
      (download upload : ExpeditedSdo) (s s' s'' : S) (read : S → Expected SdoAbortCode OdValue × S)
      (write : OdValue → S → Expected SdoAbortCode (Unit {0}) × S)
      → download.cs ≡ client_init_write
      → upload.cs ≡ client_init_read
      → key_of download ≡ key_of upload
      → find dictionary (key_of download) ≡ some e
      → key_eq (key_of download) restore_default_parameter_key ≡ false
      → has_write_permission e.object ≡ true
      → has_read_permission e.object ≡ true
      → e.object.write ≡ some write
      → e.object.read ≡ some read
      → write (make_od_value download.content e.object.data_type) s ≡ (ok tt, s')
      → read s' ≡ (ok (make_od_value download.content e.object.data_type), s'')
      → IsRaw download.content
      → (respond dictionary download s ≡ some (ok (to_write_response download), s'))
        × ((reply : ExpeditedSdo) × (respond dictionary upload s' ≡ some (ok reply, s''))
            × (reply.content ≡ kept_bytes e.object.data_type download.content))
  unfolding respond read_expedited write_expedited
  download_upload down up s s' s'' read write dcs ucs same found plain may_write may_read wf rf
        wrote got bytes =
      let w : (down.cs == client_init_write) ≡ true = ground arith in
      let w' : (down.cs == client_init_read) ≡ false = ground arith in
      let u : (up.cs == client_init_write) ≡ false = ground arith in
      let u' : (up.cs == client_init_read) ≡ true = ground arith in
      let found' : find dictionary (key_of up) ≡ some e = rw (← same) found in
      (
        rw (w, plain, found, w', w, may_write, wf, wrote),
        (
          to_read_response up e.object (make_od_value down.content e.object.data_type),
          rw (u, found', u', may_read, rf, got),
          bytes_survive e.object.data_type down.content bytes,
        ),
      )
