-- ===== src/Upload/Backing.antt =====
-- The handler of upload requests keeps every content record with its bytes.
use hackfs_mdc.Base.{false, some, inl, inr, Option-cases, Bool-cases, length}
use hackfs_mdc.Base.Int.{ℤ, pos, ltb_ℤ}
use hackfs_mdc.Go.{ok, err}
use hackfs_mdc.Go.Laws.{Outcome-cases}
use hackfs_mdc.Common.{Error}
use hackfs_mdc.Messages.{UploadRequest, UploadData, ContentData}
use hackfs_mdc.Messages.Envelope.{upload_request_envelope, upload_response_envelope}
use hackfs_mdc.Services.{Services}
use hackfs_mdc.Node.{new_message_data, get_time_stamp_millisecond}
use hackfs_mdc.Textile.{Clients}
use hackfs_mdc.Textile.Promises.{View, Extends, Extends-refl, Extends-trans, Promises}
use hackfs_mdc.Content.{store_content}
use hackfs_mdc.Content.Backing.{IsBacked}
use hackfs_mdc.Content.Evolution.{
  Evolves, same, Evolves-Extends, store_content-Evolves, Evolves-IsBacked,
}
use hackfs_mdc.Serve.{status_internal_server_error}
use hackfs_mdc.Serve.Effects.{new_message_data-Extends, Handling-Evolves}
use hackfs_mdc.Upload.{
  upload_places, upload_response_protocol_name, get_upload_response_with_error, upload_response,
  store_upload, process_upload_request, on_upload_request,
}
use hackfs_mdc.Upload.Handler.{has_upload_data, on_upload_request-Handling}

module _ (env : Services) (clients : Clients env) (view : View env) (law : Promises env view) where
  open env use {World}

  error-Extends :
      (req : UploadRequest) (code : ℤ) (e : Error) (w : World)
      → Extends env view w (get_upload_response_with_error env req code e w).1
  unfolding get_upload_response_with_error
  error-Extends req code e w = elim (Option-cases req.message_data) [
    | inl h ↦ rw (h, get_upload_response_with_error) (Extends-refl env view w)
    | inr (md, h) ↦
        let x = new_message_data-Extends env view law md.id false w in
        elim (Outcome-cases (new_message_data env md.id false w).0) [
          | inl f ↦
              rw (h, get_upload_response_with_error) (rw (f, get_upload_response_with_error) x)
          | inr (d, f) ↦
              rw (h, get_upload_response_with_error) (rw (f, get_upload_response_with_error) x)
        ]
  ]

  success-Extends :
      (req : UploadRequest) (cd : ContentData) (w : World)
      → Extends env view w (upload_response env req cd w).1
  unfolding upload_response
  success-Extends req cd w = elim (Option-cases req.message_data) [
    | inl h ↦ rw (h, upload_response) (Extends-refl env view w)
    | inr (md, h) ↦
        let x = new_message_data-Extends env view law md.id false w in
        elim (Outcome-cases (new_message_data env md.id false w).0) [
          | inl f ↦ rw (h, upload_response) (rw (f, upload_response) x)
          | inr (d, f) ↦ rw (h, upload_response) (rw (f, upload_response) x)
        ]
  ]

  store_upload-Evolves :
      (req : UploadRequest) (t : ℤ) (d : UploadData) (u w : World)
      → Extends env view u w
      → Evolves env clients view law u (store_upload env clients req t d w).1
  unfolding store_upload
  store_upload-Evolves req t d u w x =
      let w1 = (store_content env clients upload_places t d w).1 in
      let e = store_content-Evolves env clients view law upload_places t d u w x in
      let after = λ (v : World). Evolves-Extends env clients view law u w1 v e in
      elim (Outcome-cases (store_content env clients upload_places t d w).0) [
        | inl f ↦ rw (f, store_upload) e
        | inr (err er, f) ↦
            rw (f, store_upload) (after _ (error-Extends req status_internal_server_error er w1))
        | inr (ok cd, f) ↦ rw (f, store_upload) (after _ (success-Extends req cd w1))
      ]

  process_upload_request-Evolves :
      (req : UploadRequest) (u w : World)
      → Extends env view u w
      → Evolves env clients view law u (process_upload_request env clients req w).1
  unfolding process_upload_request get_time_stamp_millisecond
  process_upload_request-Evolves req u w x =
      let v = (env.unix_nano w).1 in
      let y = Extends-trans env view u w v x (law.clock_extends w) in
      elim (Option-cases req.upload_data) [
        | inl e ↦ rw (e, process_upload_request) (same y)
        | inr (d, e) ↦
            let req' = record req { upload_data = some d } in
            elim (Bool-cases (ltb_ℤ (pos (length d.file_bytes)) d.file_size)) [
              | inl short ↦
                  rw (e, process_upload_request)
                    (rw short (
                      same (
                        Extends-trans env view u v _ y
                          (error-Extends req' status_internal_server_error _ v))))
              | inr long ↦
                  rw (e, process_upload_request) (rw long (store_upload-Evolves req' _ d u v y))
            ]
      ]

  -- The handler of upload requests stores at most one upload, and changes nothing else of Textile.
  pub on_upload_request-Evolves :
      (s : env.Stream) (w : World)
      → Evolves env clients view law w (on_upload_request env clients s w).1
  on_upload_request-Evolves s w =
      Handling-Evolves env view law clients (process_upload_request env clients)
        env.unmarshal_upload_request upload_response_protocol_name has_upload_data
        process_upload_request-Evolves s w (on_upload_request env clients s w)
        (on_upload_request-Handling env clients s w)

  -- Whatever a stream carries, and however the handler of upload requests ends, every content
  -- record has its bytes afterwards if it had them before.
  pub on_upload_request-IsBacked :
      (s : env.Stream) (w : World)
      → IsBacked env view w
      → IsBacked env view (on_upload_request env clients s w).1
  on_upload_request-IsBacked s w h =
      Evolves-IsBacked env clients view law w _ (on_upload_request-Evolves s w) h
