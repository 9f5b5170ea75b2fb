-- ===== src/Host.antt =====
-- A node as a whole: NewNode of backend/pkg/libp2pnode/node.go, the constructors of the three protocols
-- (upload.go, download.go, jsonapi.go) with the stream handlers that they set, and runs of them.
pub mod Archive
pub mod Dispatch
pub mod Evolving
pub mod Refinement
pub mod Lookups
pub mod Returning
use hackfs_mdc.Base.{String, List, [], ◌∷◌, ◌==◌, if◌then◌else◌}
use hackfs_mdc.Go.{Go, pure, ◌>>=◌, ◌>>◌}
use hackfs_mdc.Messages.{
  UploadRequest, UploadResponse, DownloadRequest, DownloadResponse, JsonRequest, JsonResponse,
}
use hackfs_mdc.Messages.Envelope.{
  upload_response_envelope, download_response_envelope, json_response_envelope,
}
use hackfs_mdc.Services.{Services}
use hackfs_mdc.Textile.{Clients}
use hackfs_mdc.Upload.{
  upload_request_protocol_name, upload_response_protocol_name, on_upload_request,
}
use hackfs_mdc.Download.{
  download_request_protocol_name, download_response_protocol_name, on_download_request,
}
use hackfs_mdc.Json.{json_request_protocol_name, json_response_protocol_name, on_json_request}
use hackfs_mdc.Client.{
  Exchange, new_exchange, on_upload_response, on_download_response, on_json_response,
}

pub record Node : Type 0 where
  pub upload : Exchange UploadRequest UploadResponse
  pub download : Exchange DownloadRequest DownloadResponse
  pub json : Exchange JsonRequest JsonResponse

abbrev pub new_node : Node
new_node = record { upload = new_exchange; download = new_exchange; json = new_exchange }

module _ (env : Services) (clients : Clients env) where
  open env use {World, Stream}

  -- The handler that is set for the protocol. A stream of another protocol is refused by libp2p.
  unfoldable pub handle : String → Stream → Node → Go World Node
  handle protocol s n =
      if protocol == upload_request_protocol_name
      then (do on_upload_request env clients s; pure n)
      else if protocol == upload_response_protocol_name
      then (do ex ← on_upload_response env n.upload s; pure (record n { upload = ex }))
      else if protocol == download_request_protocol_name
      then (do on_download_request env clients s; pure n)
      else if protocol == download_response_protocol_name
      then (do ex ← on_download_response env n.download s; pure (record n { download = ex }))
      else if protocol == json_request_protocol_name
      then (do on_json_request env clients s; pure n)
      else if protocol == json_response_protocol_name
      then (do ex ← on_json_response env n.json s; pure (record n { json = ex }))
      else pure n

  -- The streams that a node is given, one after another. A panic in a handler ends the program.
  unfoldable pub run : List (String × Stream) → Node → Go World Node
  run [] n = pure n
  run ((protocol, s) ∷ rest) n = do n' ← handle protocol s n; run rest n'
