-- ===== src/Upload/Handler.antt =====
-- onUploadRequest of backend/pkg/libp2pnode/upload.go, on every branch.
use hackfs_mdc.Base.{
  ◌≡◌, refl, Bool, true, false, none, some, inl, inr, Option-cases, if◌then◌else◌,
}
use hackfs_mdc.Go.{returned, panicked}
use hackfs_mdc.Messages.{UploadRequest}
use hackfs_mdc.Messages.Envelope.{upload_request_envelope, upload_response_envelope}
use hackfs_mdc.Services.{Services}
use hackfs_mdc.Textile.{Clients}
use hackfs_mdc.Serve.Handling.{Handling, serve_request-Handling}
use hackfs_mdc.Upload.{
  upload_response_protocol_name, process_upload_request, on_upload_request,
  compact_log_upload_request,
}

abbrev pub has_upload_data : UploadRequest → Bool
has_upload_data req = elim req.upload_data [ none ↦ false | some d ↦ true ]

module _ (env : Services) where
  compact_log_lem :
      (req : UploadRequest) (w : env.World)
      → compact_log_upload_request env req w
        ≡ (if has_upload_data req then returned tt else panicked, w)
  unfolding compact_log_upload_request
  compact_log_lem req w = elim (Option-cases req.upload_data) [
    | inl h ↦ rw (h, compact_log_upload_request) refl
    | inr (d, h) ↦ rw (h, compact_log_upload_request) refl
  ]

  pub on_upload_request-Handling :
      (clients : Clients env) (s : env.Stream) (w : env.World)
      → Handling env
          (process_upload_request env clients)
          env.unmarshal_upload_request
          upload_response_protocol_name
          has_upload_data
          s
          w
          (on_upload_request env clients s w)
  unfolding on_upload_request
  on_upload_request-Handling clients s w =
      serve_request-Handling env (process_upload_request env clients) env.unmarshal_upload_request
        upload_response_protocol_name has_upload_data (compact_log_upload_request env)
        compact_log_lem s w
