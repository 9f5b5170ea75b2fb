-- ===== src/Json/Backing.antt =====
-- The three operations of the JSON protocol keep every content record with its bytes.
use hackfs_mdc.Base.{◌==◌, String, some, inl, inr, Option-cases, Bool-cases, length}
use hackfs_mdc.Base.Int.{ℤ, pos, ltb_ℤ}
use hackfs_mdc.Go.{ok, err}
use hackfs_mdc.Go.Laws.{Outcome-cases}
use hackfs_mdc.Messages.{JsonRequest, UploadData}
use hackfs_mdc.Messages.Envelope.{json_request_envelope, json_response_envelope}
use hackfs_mdc.Services.{Services}
use hackfs_mdc.Node.{get_time_stamp_millisecond}
use hackfs_mdc.Textile.{Clients}
use hackfs_mdc.Textile.Promises.{View, Extends, Extends-refl, Extends-trans, Promises}
use hackfs_mdc.Content.{store_content}
use hackfs_mdc.Content.Backing.{IsBacked}
use hackfs_mdc.Content.Evolution.{
  Evolves, same, Evolves-Extends, store_content-Evolves, Evolves-IsBacked,
}
use hackfs_mdc.Serve.Effects.{Handling-Evolves}
use hackfs_mdc.Json.{
  json_upload_places, json_response_protocol_name, process_json_request_query,
  process_json_request_download, process_json_request_upload, store_json_upload, dispatch,
  process_json_request, on_json_request,
}
use hackfs_mdc.Json.Effects.{
  error-Extends, fail-Extends, reply-Extends, run_query-Extends, find_json-Extends,
}
use hackfs_mdc.Json.Handler.{has_json_data, on_json_request-Handling}

module _ (env : Services) (clients : Clients env) (view : View env) (law : Promises env view) where
  open env use {World}

  store_json_upload-Evolves :
      (req : JsonRequest) (t : ℤ) (d : UploadData) (u w : World)
      → Extends env view u w
      → Evolves env clients view law u (store_json_upload env clients req t d w).1
  unfolding store_json_upload
  store_json_upload-Evolves req t d u w x =
      let storing = store_content env clients json_upload_places t d w in
      let e = store_content-Evolves env clients view law json_upload_places t d u w x in
      let after = λ (v : World). Evolves-Extends env clients view law u storing.1 v e in
      elim (Bool-cases (ltb_ℤ (pos (length d.file_bytes)) d.file_size)) [
        | inl short ↦
            rw (short, store_json_upload)
              (same
                (Extends-trans env view u w _ x (fail-Extends env clients view law req _ _ _ w)))
        | inr long ↦ elim (Outcome-cases storing.0) [
          | inl f ↦ rw (long, store_json_upload) (rw (f, store_json_upload) e)
          | inr (err er, f) ↦
              rw (long, store_json_upload)
                (rw (f, store_json_upload)
                  (after _ (error-Extends env clients view law req _ er storing.1)))
          | inr (ok cd, f) ↦
              rw (long, store_json_upload)
                (rw (f, store_json_upload)
                  (after _ (
                    reply-Extends env clients view law req _ (env.json_marshal_content_data cd)
                      storing.1)))
        ]
      ]

  query-Extends :
      (req : JsonRequest) (w : World)
      → Extends env view w (process_json_request_query env clients req w).1
  unfolding process_json_request_query
  query-Extends req w = elim (Option-cases req.json_data) [
    | inl h ↦ rw (h, process_json_request_query) (Extends-refl env view w)
    | inr (d, h) ↦
        let jq = env.json_unmarshal_query d.json_input in
        elim (Option-cases jq.1) [
          | inr (e, f) ↦
              rw (h, process_json_request_query)
                (rw (f, process_json_request_query) (fail-Extends env clients view law req _ _ _ w))
          | inl f ↦
              rw (h, process_json_request_query)
                (rw (f, process_json_request_query)
                  (run_query-Extends env clients view law req jq.0 w))
        ]
  ]

  download-Extends :
      (req : JsonRequest) (w : World)
      → Extends env view w (process_json_request_download env clients req w).1
  unfolding process_json_request_download
  download-Extends req w = elim (Option-cases req.json_data) [
    | inl h ↦ rw (h, process_json_request_download) (Extends-refl env view w)
    | inr (d, h) ↦
        rw (h, process_json_request_download)
          (find_json-Extends env clients view law (record req { json_data = some d })
            (env.json_unmarshal_download d.json_input).0 w)
  ]

  upload-Evolves :
      (req : JsonRequest) (u w : World)
      → Extends env view u w
      → Evolves env clients view law u (process_json_request_upload env clients req w).1
  unfolding process_json_request_upload
  upload-Evolves req u w x = elim (Option-cases req.json_data) [
    | inl h ↦ rw (h, process_json_request_upload) (same x)
    | inr (d, h) ↦
        rw (h, process_json_request_upload)
          (store_json_upload-Evolves (record req { json_data = some d }) d.received_at
            (env.json_unmarshal_upload d.json_input).0 u w x)
  ]

  dispatch-Evolves :
      (req : JsonRequest) (type : String) (u w : World)
      → Extends env view u w
      → Evolves env clients view law u (dispatch env clients req type w).1
  unfolding dispatch
  dispatch-Evolves req type u w x = elim (Bool-cases (type == "query")) [
    | inl q ↦ rw (q, dispatch) (same (Extends-trans env view u w _ x (query-Extends req w)))
    | inr a ↦ elim (Bool-cases (type == "download")) [
      | inl q ↦ rw (a, q, dispatch) (same (Extends-trans env view u w _ x (download-Extends req w)))
      | inr b ↦ elim (Bool-cases (type == "upload")) [
        | inl q ↦ rw (a, b, q, dispatch) (upload-Evolves req u w x)
        | inr c ↦
            rw (a, b, c, dispatch)
              (same
                (Extends-trans env view u w _ x (fail-Extends env clients view law req _ _ _ w)))
      ]
    ]
  ]

  process_json_request-Evolves :
      (req : JsonRequest) (u w : World)
      → Extends env view u w
      → Evolves env clients view law u (process_json_request env clients req w).1
  unfolding process_json_request get_time_stamp_millisecond
  process_json_request-Evolves req u w x = elim (Option-cases req.json_data) [
    | inl h ↦ rw (h, process_json_request) (same x)
    | inr (d, h) ↦
        rw (h, process_json_request)
          (dispatch-Evolves _ d.type u (env.unix_nano w).1
            (Extends-trans env view u w _ x (law.clock_extends w)))
  ]

  -- The handler of JSON requests stores at most one upload, and changes nothing else of Textile.
  pub on_json_request-Evolves :
      (s : env.Stream) (w : World)
      → Evolves env clients view law w (on_json_request env clients s w).1
  on_json_request-Evolves s w =
      Handling-Evolves env view law clients (process_json_request env clients)
        env.unmarshal_json_request json_response_protocol_name has_json_data
        process_json_request-Evolves s w (on_json_request env clients s w)
        (on_json_request-Handling env clients s w)

  -- Whatever a stream carries, and however the handler of JSON requests ends, every content
  -- record has its bytes afterwards if it had them before.
  pub on_json_request-IsBacked :
      (s : env.Stream) (w : World)
      → IsBacked env view w
      → IsBacked env view (on_json_request env clients s w).1
  on_json_request-IsBacked s w h =
      Evolves-IsBacked env clients view law w _ (on_json_request-Evolves s w) h
