-- ===== src/Host/Returning.antt =====
-- A node does not panic on messages that have their parts.
use hackfs_mdc.Base.{◌≡◌, String, Option}
use hackfs_mdc.Go.{Go, ok, ◌>>=◌, ◌>>◌}
use hackfs_mdc.Common.{Error}
use hackfs_mdc.Messages.{Bytes}
use hackfs_mdc.Messages.Envelope.{
  Envelope, upload_response_envelope, download_response_envelope, json_response_envelope,
}
use hackfs_mdc.Services.{Services}
use hackfs_mdc.Node.Working.{Working, HasData}
use hackfs_mdc.Upload.{upload_request_protocol_name, upload_response_protocol_name}
use hackfs_mdc.Upload.Returning.{IsComplete as IsUpload}
use hackfs_mdc.Download.{download_request_protocol_name, download_response_protocol_name}
use hackfs_mdc.Download.Returning.{IsComplete as IsDownload}
use hackfs_mdc.Json.{json_request_protocol_name, json_response_protocol_name}
use hackfs_mdc.Json.Returning.{IsComplete as IsJson}
use hackfs_mdc.Host.{Node}
use hackfs_mdc.Host.Dispatch.{upload, upload_answer, download, download_answer, json, json_answer}

module _ (env : Services) where
  open env use {World, Stream}

  -- `P` of the message that is read from the stream, if it can be read.
  abbrev OfMessage :
      {M : Type 0} → (M → Type 0) → (Bytes → M × Option Error) → Stream → World → Type 0
  OfMessage P unmarshal s w =
      (bytes : Bytes) → (env.read_all s w).0 ≡ ok bytes → P (unmarshal bytes).0

  -- A request has its message data and its own data, a response has its message data.
  pub record IsComplete (protocol : String) (s : Stream) (w : World) : Type 0 where
    pub upload :
        protocol ≡ upload_request_protocol_name
        → OfMessage IsUpload env.unmarshal_upload_request s w
    pub download :
        protocol ≡ download_request_protocol_name
        → OfMessage IsDownload env.unmarshal_download_request s w
    pub json :
        protocol ≡ json_request_protocol_name → OfMessage IsJson env.unmarshal_json_request s w
    pub upload_answer :
        protocol ≡ upload_response_protocol_name
        → OfMessage (HasData env) env.unmarshal_upload_response s w
    pub download_answer :
        protocol ≡ download_response_protocol_name
        → OfMessage (HasData env) env.unmarshal_download_response s w
    pub json_answer :
        protocol ≡ json_response_protocol_name
        → OfMessage (HasData env) env.unmarshal_json_response s w
