-- ===== src/Host/Dispatch.antt =====
-- The handler that a stream's protocol selects.
use hackfs_mdc.Base.{◌≡◌, inl, inr, String, true, ◌==◌, ==_iff, Bool-cases, arith}
use hackfs_mdc.Go.{Go, pure, ◌>>=◌, ◌>>◌}
use hackfs_mdc.Services.{Services}
use hackfs_mdc.Textile.{Clients}
use hackfs_mdc.Upload.{
  upload_request_protocol_name, upload_response_protocol_name, on_upload_request,
}
use hackfs_mdc.Download.{
  download_request_protocol_name, download_response_protocol_name, on_download_request,
}
use hackfs_mdc.Json.{json_request_protocol_name, json_response_protocol_name, on_json_request}
use hackfs_mdc.Client.{on_upload_response, on_download_response, on_json_response}
use hackfs_mdc.Host.{Node, handle}

same_text : (s t : String) → (s == t) ≡ true → s ≡ t
same_text s t h = ground (arith, ==_iff s t)

module _ (env : Services) (clients : Clients env) (protocol : String) (s : env.Stream)
    (n : Node) where
  pub data Dispatched : Go env.World Node → Type 0 where
    upload :
        protocol ≡ upload_request_protocol_name
        → Dispatched (do on_upload_request env clients s; pure n)
    upload_answer :
        protocol ≡ upload_response_protocol_name
        → Dispatched (do ex ← on_upload_response env n.upload s; pure (record n { upload = ex }))
    download :
        protocol ≡ download_request_protocol_name
        → Dispatched (do on_download_request env clients s; pure n)
    download_answer :
        protocol ≡ download_response_protocol_name
        → Dispatched
            (do ex ← on_download_response env n.download s; pure (record n { download = ex }))
    json :
        protocol ≡ json_request_protocol_name
        → Dispatched (do on_json_request env clients s; pure n)
    json_answer :
        protocol ≡ json_response_protocol_name
        → Dispatched (do ex ← on_json_response env n.json s; pure (record n { json = ex }))
    refused : Dispatched (pure n)

  pub handle-Dispatched : Dispatched (handle env clients protocol s n)
  unfolding handle
  handle-Dispatched = elim (Bool-cases (protocol == upload_request_protocol_name)) [
    | inl a ↦ rw (a, handle) (upload (same_text protocol _ a))
    | inr a ↦ elim (Bool-cases (protocol == upload_response_protocol_name)) [
      | inl b ↦ rw (a, b, handle) (upload_answer (same_text protocol _ b))
      | inr b ↦ elim (Bool-cases (protocol == download_request_protocol_name)) [
        | inl c ↦ rw (a, b, c, handle) (download (same_text protocol _ c))
        | inr c ↦ elim (Bool-cases (protocol == download_response_protocol_name)) [
          | inl d ↦ rw (a, b, c, d, handle) (download_answer (same_text protocol _ d))
          | inr d ↦ elim (Bool-cases (protocol == json_request_protocol_name)) [
            | inl e ↦ rw (a, b, c, d, e, handle) (json (same_text protocol _ e))
            | inr e ↦ elim (Bool-cases (protocol == json_response_protocol_name)) [
              | inl f ↦ rw (a, b, c, d, e, f, handle) (json_answer (same_text protocol _ f))
              | inr f ↦ rw (a, b, c, d, e, f, handle) refused
            ]
          ]
        ]
      ]
    ]
  ]
