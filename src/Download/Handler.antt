-- ===== src/Download/Handler.antt =====
-- onDownloadRequest of backend/pkg/libp2pnode/download.go, on every branch.
use hackfs_mdc.Base.{refl, true}
use hackfs_mdc.Go.{pure}
use hackfs_mdc.Messages.Envelope.{download_request_envelope, download_response_envelope}
use hackfs_mdc.Services.{Services}
use hackfs_mdc.Textile.{Clients}
use hackfs_mdc.Serve.Handling.{Handling, serve_request-Handling}
use hackfs_mdc.Download.{
  download_response_protocol_name, process_download_request, on_download_request,
}

module _ (env : Services) where
  -- A download request is processed and answered if it is authentic, and changes nothing but its
  -- stream if it is not; one without message data panics, and a stream that cannot be read is
  -- reset. Whether the request could be unmarshalled plays no part.
  pub on_download_request-Handling :
      (clients : Clients env) (s : env.Stream) (w : env.World)
      → Handling env
          (process_download_request env clients)
          env.unmarshal_download_request
          download_response_protocol_name
          (λ _. true)
          s
          w
          (on_download_request env clients s w)
  unfolding on_download_request
  on_download_request-Handling clients s w =
      serve_request-Handling env (process_download_request env clients)
        env.unmarshal_download_request download_response_protocol_name (λ _. true) (λ _. pure tt)
        (λ req w. refl) s w
