-- ===== src/Examples/Serving.antt =====
-- The server's theorems at concrete requests, streams and responses.
use hackfs_mdc.Base.{◌≡◌, refl, String, true, some, [], ◌∷◌, arith}
use hackfs_mdc.Base.Int.{pos}
use hackfs_mdc.Go.{ok, returned, ◌>>=◌}
use hackfs_mdc.Common.{get_millisecond}
use hackfs_mdc.Messages.{UploadRequest, UploadResponse, UploadData, zero_content_data}
use hackfs_mdc.Messages.Envelope.{
  upload_request_envelope, upload_response_envelope, download_request_envelope,
  download_response_envelope, json_request_envelope, json_response_envelope,
}
use hackfs_mdc.Node
use hackfs_mdc.Node.{set_sign, authenticate_message, sign_proto_message}
use hackfs_mdc.Node.Signing.{authenticate-sign, IsOwn}
use hackfs_mdc.Textile.Promises.{Extends}
use hackfs_mdc.Content.Backing.{IsBacked}
use hackfs_mdc.Serve.{status_internal_server_error}
use hackfs_mdc.Serve.Replies.{IsReply, Returns}
use hackfs_mdc.Serve.Handling.{Handling}
use hackfs_mdc.Upload.{process_upload_request, on_upload_request}
use hackfs_mdc.Upload.Backing.{on_upload_request-IsBacked}
use hackfs_mdc.Upload.Responses.{
  UploadAnswer, process_upload_request_lem, process_upload_request-short,
}
use hackfs_mdc.Download.{
  download_response_protocol_name, process_download_request, on_download_request,
}
use hackfs_mdc.Download.Handler.{on_download_request-Handling}
use hackfs_mdc.Download.Backing.{on_download_request-IsBacked}
use hackfs_mdc.Download.Responses.{DownloadAnswer, process_download_request_lem}
use hackfs_mdc.Json.{on_json_request}
use hackfs_mdc.Json.Backing.{on_json_request-IsBacked}
use hackfs_mdc.Examples.Cloud.{cloud, clients, view, promises, host_keys, Line}
use hackfs_mdc.Examples.Runs.{
  message_data, upload_data, request, download_data, download_request, start, upload_answer,
  reply_data, start-IsBacked,
}

-- A stream from "peer" that carries `request`.
abbrev pub line : Line
line = record { peer = "peer"; incoming = ok (1 ∷ []) }

on_upload_request-IsBacked_example :
    IsBacked
      (cloud request)
      (view request)
      (on_upload_request (cloud request) (clients request) line start).1
on_upload_request-IsBacked_example =
    on_upload_request-IsBacked (cloud request) (clients request) (view request) (promises request)
      line start start-IsBacked

on_download_request-IsBacked_example :
    IsBacked
      (cloud request)
      (view request)
      (on_download_request (cloud request) (clients request) line start).1
on_download_request-IsBacked_example =
    on_download_request-IsBacked (cloud request) (clients request) (view request) (promises request)
      line start start-IsBacked

on_json_request-IsBacked_example :
    IsBacked
      (cloud request)
      (view request)
      (on_json_request (cloud request) (clients request) line start).1
on_json_request-IsBacked_example =
    on_json_request-IsBacked (cloud request) (clients request) (view request) (promises request)
      line start start-IsBacked

on_download_request-Handling_example :
    Handling
      (cloud request)
      (process_download_request (cloud request) (clients request))
      (cloud request).unmarshal_download_request
      download_response_protocol_name
      (λ _. true)
      line
      start
      (on_download_request (cloud request) (clients request) line start)
on_download_request-Handling_example =
    on_download_request-Handling (cloud request) (clients request) line start

pub answer_signed :
    sign_proto_message (cloud request) upload_answer start ≡ (returned (ok (9 ∷ 2 ∷ 0 ∷ [])), start)
unfolding sign_proto_message Node.sign_data
answer_signed = refl

pub answer-IsOwn : IsOwn (cloud request) (reply_data (pos 1))
answer-IsOwn = record { named = refl; keyed = refl; unsigned = refl }

abbrev pub signed_answer : UploadResponse
signed_answer = record upload_answer {
  message_data = some (record (reply_data (pos 1)) { sign = 9 ∷ 2 ∷ 0 ∷ [] });
}

authenticate-sign_example :
    (set_sign (cloud request) (9 ∷ 2 ∷ 0 ∷ []) upload_answer start
      ≡ (returned signed_answer, start))
    × (authenticate_message (cloud request) signed_answer start
        ≡ (returned (true, signed_answer), start))
authenticate-sign_example =
    authenticate-sign (cloud request) (host_keys request) upload_answer (reply_data (pos 1))
      (9 ∷ 2 ∷ 0 ∷ []) start start start refl answer-IsOwn answer_signed

process_upload_request_lem_example :
    let r = process_upload_request (cloud request) (clients request) request start in
    Returns
      (UploadAnswer
        (cloud request)
        (7 ∷ [])
        refl
        (clients request)
        (view request)
        (promises request)
        message_data
        upload_data
        (get_millisecond (pos 1000000000))
        start)
      (Extends (cloud request) (view request) start)
      r.0
      r.1
process_upload_request_lem_example =
    process_upload_request_lem (cloud request) (7 ∷ []) refl (clients request) (view request)
      (promises request) request message_data upload_data start refl refl

process_download_request_lem_example :
    let r = process_download_request (cloud request) (clients request) download_request start in
    Returns
      (DownloadAnswer
        (cloud request)
        (7 ∷ [])
        refl
        (clients request)
        (view request)
        (promises request)
        message_data
        download_data
        (get_millisecond (pos 1000000000))
        start)
      (Extends (cloud request) (view request) start)
      r.0
      r.1
process_download_request_lem_example =
    process_download_request_lem (cloud request) (7 ∷ []) refl (clients request) (view request)
      (promises request) download_request message_data download_data start refl refl

abbrev short_upload : UploadData
short_upload = record upload_data { file_size = pos 5 }

abbrev short_request : UploadRequest
short_request = record request { upload_data = some short_upload }

process_upload_request-short_example :
    (resp : UploadResponse) × (process_upload_request
        (cloud request)
        (clients request)
        short_request
        start
      ≡ (returned resp, record start { clock = 1002000000 }))
    × IsReply (cloud request) "m1" resp.message_data
    × ((text : String) × (resp.response_data
          ≡ some (record { code = status_internal_server_error; err = text })))
    × (resp.content_data ≡ some zero_content_data)
process_upload_request-short_example =
    process_upload_request-short (cloud request) (7 ∷ []) refl (clients request) short_request
      message_data short_upload start refl refl (ground arith)
