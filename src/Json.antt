-- ===== src/Json.antt =====
-- The server's side of backend/pkg/libp2pnode/jsonapi.go.
pub mod Handler
pub mod Effects
pub mod Backing
pub mod Returning
pub mod Replies
pub mod ReadAnswer
pub mod Reads
pub mod Uploads
use hackfs_mdc.Base.{
  ℕ, String, ◌<>◌, Bool, true, false, Option, none, some, length, ◌==◌, if◌then◌else◌,
}
use hackfs_mdc.Base.Int.{ℤ, pos, ltb_ℤ}
use hackfs_mdc.Go.{Go, Result, ok, err, returned, pure, deref, ◌>>=◌, ◌>>◌}
use hackfs_mdc.Common.{Caller, Error, error_text, errorf, in_pkg}
use hackfs_mdc.Messages.{
  Bytes, JsonRequest, JsonResponse, JsonData, ContentData, JsonQuery, DownloadData, UploadData,
  zero_json_data,
}
use hackfs_mdc.Messages.Envelope.{json_request_envelope, json_response_envelope}
use hackfs_mdc.Services.{Services, Found}
use hackfs_mdc.Node.{get_time_stamp_millisecond, new_message_data}
use hackfs_mdc.Textile.{Clients, pull_bytes_from_bucket, query_with_json_api_query}
use hackfs_mdc.Content.{Places, store_content, get_content_data_record_with_download_data}
use hackfs_mdc.Serve.{serve_request, status_ok, status_internal_server_error}
use hackfs_mdc.Download.{size_mismatch}

abbrev pub json_request_protocol_name : String
json_request_protocol_name = "/hackfspay3/jsonrequest/0.0.1"

abbrev pub json_response_protocol_name : String
json_response_protocol_name = "/hackfspay3/jsonresponse/0.0.1"

abbrev in_query : ℕ → Option Caller
in_query = in_pkg "libp2pnode.(*JsonProtocol).processJsonRequestQuery"

abbrev in_download : ℕ → Option Caller
in_download = in_pkg "libp2pnode.(*JsonProtocol).processJsonRequestDownload"

abbrev in_upload : ℕ → Option Caller
in_upload = in_pkg "libp2pnode.(*JsonProtocol).processJsonRequestUpload"

abbrev pub json_upload_places : Places
json_upload_places = record {
  at_push = in_upload 125;
  at_preview = in_upload 131;
  at_insert = in_upload 159;
}

module _ (env : Services) where
  open env use {
    World, string_of_bytes, json_unmarshal_query, json_unmarshal_download, json_unmarshal_upload,
    json_marshal_content_datas, json_marshal_content_data, json_marshal_bytes,
  }

  unfoldable pub get_json_response_with_error : JsonRequest → ℤ → Error → Go World JsonResponse
  get_json_response_with_error req code e = do
    md ← deref req.message_data
    message_data ← new_message_data env md.id false
    pure (record {
      message_data = some message_data;
      response_data = some (record { code = code; err = error_text e });
      json_data = some zero_json_data;
    })

  unfoldable pub get_json_response_with_json_output : JsonRequest → Bytes → Go World JsonResponse
  get_json_response_with_json_output req json_output = do
    md ← deref req.message_data
    message_data ← new_message_data env md.id false
    d ← deref req.json_data
    updated_at ← get_time_stamp_millisecond env
    pure (record {
      message_data = some message_data;
      response_data = some (record { code = status_ok; err = "" });
      json_data = some (record {
        id = "";
        requester_id = d.requester_id;
        type = d.type;
        json_input = "";
        json_output = string_of_bytes json_output;
        received_at = d.received_at;
        updated_at = updated_at;
      });
    })

  unfoldable pub fail : JsonRequest → Option Caller → Option Error → String → Go World JsonResponse
  fail req caller e msg =
      get_json_response_with_error req status_internal_server_error (errorf caller e msg)

  -- The last step of all three operations.
  unfoldable pub reply : JsonRequest → Option Caller → Result Error Bytes → Go World JsonResponse
  reply req caller (err e) = fail req caller (some e) "json.Marshal failed"
  reply req caller (ok json_output) = get_json_response_with_json_output req json_output

  unfoldable pub reply_found : JsonRequest → Found → Go World JsonResponse
  reply_found req (Found.content_datas ds) = reply req (in_query 81) (json_marshal_content_datas ds)
  reply_found req _ = fail req (in_query 77) none "res casting to ContentData failed"

  -- The log line reads the type.
  unfoldable pub inspect_json_request : JsonRequest → Go World (Unit {0})
  inspect_json_request req = do d ← deref req.json_data; pure tt

  module _ (clients : Clients env) where
    unfoldable pub run_json_query : JsonRequest → JsonQuery → Go World JsonResponse
    run_json_query req jq = do
      res ← query_with_json_api_query env clients jq
      elim res.1 [
        | some e ↦ fail req (in_query 73) (some e) "textilehelper.QueryWithJsonApiQuery failed"
        | none ↦ reply_found req res.0
      ]

    unfoldable pub process_json_request_query : JsonRequest → Go World JsonResponse
    process_json_request_query req = do
      d ← deref req.json_data
      let jq = json_unmarshal_query d.json_input
      elim jq.1 [
        | some e ↦ fail req (in_query 69) (some e) "json.Unmarshal failed"
        | none ↦ run_json_query req jq.0
      ]

    unfoldable pub deliver_json : JsonRequest → ContentData → Go World JsonResponse
    deliver_json req content = do
      pulled ← pull_bytes_from_bucket env clients content.bucket_key content.file_name
      elim pulled [
        | err e ↦ fail req (in_download 99) (some e) "textilehelper.PullBytesFromBucket failed"
        | ok bytes ↦
            if ltb_ℤ (pos (length bytes)) content.file_size
            then fail req (in_download 102) none (size_mismatch (length bytes) content.file_size)
            else reply req (in_download 106) (json_marshal_bytes bytes)
      ]

    unfoldable pub find_json : JsonRequest → DownloadData → Go World JsonResponse
    find_json req data' = do
      found ← get_content_data_record_with_download_data env clients data'
      elim found [
        | err e ↦ fail req (in_download 93) (some e) "GetContentDataRecordWithDownloadData failed"
        | ok content ↦ deliver_json req content
      ]

    -- The error of the unmarshal is overwritten by that of the look-up.
    unfoldable pub process_json_request_download : JsonRequest → Go World JsonResponse
    process_json_request_download req = do
      d ← deref req.json_data
      find_json req (json_unmarshal_download d.json_input).0

    unfoldable pub store_json_upload : JsonRequest → ℤ → UploadData → Go World JsonResponse
    store_json_upload req received_at data' =
        if ltb_ℤ (pos (length data'.file_bytes)) data'.file_size
        then fail req (in_upload 118) none "receivedFileSize not match"
        else (do
          stored ← store_content env clients json_upload_places received_at data'
          elim stored [
            | err e ↦ get_json_response_with_error req status_internal_server_error e
            | ok content ↦ reply req (in_upload 164) (json_marshal_content_data content)
          ])

    -- The error of the unmarshal is never tested.
    unfoldable pub process_json_request_upload : JsonRequest → Go World JsonResponse
    process_json_request_upload req = do
      d ← deref req.json_data
      store_json_upload req d.received_at (json_unmarshal_upload d.json_input).0

    unfoldable pub dispatch : JsonRequest → String → Go World JsonResponse
    dispatch req type =
        if type == "query"
        then process_json_request_query req
        else if type == "download"
        then process_json_request_download req
        else if type == "upload"
        then process_json_request_upload req
        else fail req (in_pkg "libp2pnode.(*JsonProtocol).processJsonRequest" 180) none
            ("Not supported Json API type: " <> type)

    -- The time of receipt is written into the request.
    unfoldable pub process_json_request : JsonRequest → Go World JsonResponse
    process_json_request req = do
      d ← deref req.json_data
      received_at ← get_time_stamp_millisecond env
      dispatch (record req { json_data = some (record d { received_at = received_at }) }) d.type

    unfoldable pub on_json_request : env.Stream → Go World (Unit {0})
    on_json_request =
        serve_request env inspect_json_request process_json_request env.unmarshal_json_request
          json_response_protocol_name
