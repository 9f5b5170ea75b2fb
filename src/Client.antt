-- ===== src/Client.antt =====
-- The requester's side of the three protocols: UploadTo and onUploadResponse of
-- backend/pkg/libp2pnode/upload.go, DownloadFrom and onDownloadResponse of download.go, and
-- SendJsonAPITo and onJsonResponse of jsonapi.go, which are one function of what differs between
-- them. `requests` and the response channel are the state of a protocol object.
pub mod Delivery
pub mod Sending
pub mod Receiving
pub mod Race
use hackfs_mdc.Base.{
  String, Bool, true, false, not, Option, none, some, List, [], ◌∷◌, ◌++◌, ◌==◌, if◌then◌else◌,
}
use hackfs_mdc.Go.{Go, Result, ok, err, returned, pure, call, effect, deref, ◌>>=◌, ◌>>◌}
use hackfs_mdc.Common.{Caller, Error, errorf, in_pkg}
use hackfs_mdc.Messages.{
  Bytes, MessageData, UploadRequest, UploadResponse, UploadData, DownloadRequest, DownloadResponse,
  DownloadData, JsonRequest, JsonResponse, JsonData,
}
use hackfs_mdc.Messages.Envelope.{
  Envelope, upload_request_envelope, upload_response_envelope, download_request_envelope,
  download_response_envelope, json_request_envelope, json_response_envelope,
}
use hackfs_mdc.Services.{Services}
use hackfs_mdc.Node.{
  get_ulid, new_message_data, authenticate_message, sign_proto_message, set_sign,
  send_proto_message,
}
use hackfs_mdc.Upload.{upload_request_protocol_name}
use hackfs_mdc.Download.{download_request_protocol_name}
use hackfs_mdc.Json.{json_request_protocol_name}

-- The map of the requests that wait for a response, and the responses whose handlers wait at the
-- channel, oldest first: the channel has no buffer.
pub record Exchange (Req Resp : Type 0) : Type 0 where
  pub requests : List (String × Req)
  pub channel : List Resp

module _ {Req : Type 0} where
  -- `_, ok := m[id]`
  unfoldable pub has_request : String → List (String × Req) → Bool
  has_request id [] = false
  has_request id ((k, r) ∷ m) = if k == id then true else has_request id m

  -- `delete(m, id)`
  unfoldable pub delete_request : String → List (String × Req) → List (String × Req)
  delete_request id [] = []
  delete_request id ((k, r) ∷ m) =
      let rest = delete_request id m in if k == id then rest else (k, r) ∷ rest

  -- `m[id] = req`
  unfoldable pub store_request : String → Req → List (String × Req) → List (String × Req)
  store_request id req [] = (id, req) ∷ []
  store_request id req ((k, r) ∷ m) =
      if k == id then (id, req) ∷ m else (k, r) ∷ store_request id req m

-- `&XProtocol{requests: make(map…), XResponseCh: make(chan …)}`
abbrev pub new_exchange : {Req Resp : Type 0} → Exchange Req Resp
new_exchange = record { requests = []; channel = [] }

module _ {Req Resp : Type 0} where
  -- A response to a request that waits is handed on, and the request is forgotten. Any other is
  -- dropped.
  unfoldable pub settle : Exchange Req Resp → String → Resp → Exchange Req Resp
  settle ex id resp =
      if has_request id ex.requests
      then record { requests = delete_request id ex.requests; channel = ex.channel ++ resp ∷ [] }
      else ex

  unfoldable pub register : Exchange Req Resp → String → Req → Exchange Req Resp
  register ex id req = record ex { requests = store_request id req ex.requests }

module _ (env : Services) where
  open env use {World, Stream, read_all, reset, close}

  module _ {Req Resp : Type 0} ⦃r : Envelope Resp⦄ where
    unfoldable pub accept_response : Exchange Req Resp → Resp → Go World (Exchange Req Resp)
    accept_response ex resp = do
      checked ← authenticate_message env resp
      elim checked.0 [
        | false ↦ pure ex
        | true ↦ do md ← deref (r.get checked.1); pure (settle ex md.id checked.1)
      ]

    -- As in the request handlers, the error of the unmarshal is dropped.
    unfoldable pub on_response :
        (Bytes → Resp × Option Error) → Exchange Req Resp → Stream → Go World (Exchange Req Resp)
    on_response unmarshal ex s = do
      buf ← call (read_all s)
      elim buf [
        | err x ↦ do effect (reset s); pure ex
        | ok bytes ↦ do effect (close s); accept_response ex (unmarshal bytes).0
      ]

  module _ {Req : Type 0} ⦃q : Envelope Req⦄ where
    -- Up to the end of `sendProtoMessage`: the signed request, if it was sent.
    unfoldable pub transmit :
        Option Caller → String → String → (MessageData → Req) → Go World (Result Error Req)
    transmit caller peer protocol make = do
      ulid ← get_ulid env
      md ← new_message_data env ulid false
      let req = make md
      signed ← sign_proto_message env req
      elim signed [
        | err x ↦ pure (err x)
        | ok signature ↦ do
          req' ← set_sign env signature req
          sent ← send_proto_message env peer protocol req'
          pure (if sent then ok req' else err (errorf caller none "e.node.sendProtoMessage failed"))
      ]

    -- The request is put into the map only after it has been sent.
    unfoldable pub send_request :
        {Resp : Type 0}
        → Option Caller
        → String
        → String
        → (MessageData → Req)
        → Exchange Req Resp
        → Go World (Result Error String × Exchange Req Resp)
    send_request caller peer protocol make ex = do
      sent ← transmit caller peer protocol make
      elim sent [
        | err x ↦ pure (err x, ex)
        | ok req ↦ do md ← deref (q.get req); pure (ok md.id, register ex md.id req)
      ]

  unfoldable pub upload_to :
      String
      → Option UploadData
      → Exchange UploadRequest UploadResponse
      → Go World (Result Error String × Exchange UploadRequest UploadResponse)
  upload_to peer d =
      send_request (in_pkg "libp2pnode.(*UploadProtocol).UploadTo" 243) peer
        upload_request_protocol_name (λ md. record { message_data = some md; upload_data = d })

  unfoldable pub download_from :
      String
      → Option DownloadData
      → Exchange DownloadRequest DownloadResponse
      → Go World (Result Error String × Exchange DownloadRequest DownloadResponse)
  download_from peer d =
      send_request (in_pkg "libp2pnode.(*DownloadProtocol).DownloadFrom" 226) peer
        download_request_protocol_name (λ md. record { message_data = some md; download_data = d })

  unfoldable pub send_json_api_to :
      String
      → Option JsonData
      → Exchange JsonRequest JsonResponse
      → Go World (Result Error String × Exchange JsonRequest JsonResponse)
  send_json_api_to peer d =
      send_request (in_pkg "libp2pnode.(*JsonProtocol).SendJsonAPITo" 292) peer
        json_request_protocol_name (λ md. record { message_data = some md; json_data = d })

  unfoldable pub on_upload_response :
      Exchange UploadRequest UploadResponse
      → Stream
      → Go World (Exchange UploadRequest UploadResponse)
  on_upload_response = on_response env.unmarshal_upload_response

  unfoldable pub on_download_response :
      Exchange DownloadRequest DownloadResponse
      → Stream
      → Go World (Exchange DownloadRequest DownloadResponse)
  on_download_response = on_response env.unmarshal_download_response

  unfoldable pub on_json_response :
      Exchange JsonRequest JsonResponse → Stream → Go World (Exchange JsonRequest JsonResponse)
  on_json_response = on_response env.unmarshal_json_response
