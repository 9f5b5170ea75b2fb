-- ===== src/Examples/Reading.antt =====
-- The theorems on downloads, on JSON requests that read and on responses at concrete inputs.
use hackfs_mdc.Base.{refl, some, [], ◌∷◌}
use hackfs_mdc.Base.Int.{pos}
use hackfs_mdc.Common.{get_millisecond}
use hackfs_mdc.Messages.{JsonRequest, JsonData, DownloadResponse}
use hackfs_mdc.Messages.Envelope.{upload_response_envelope, download_response_envelope}
use hackfs_mdc.Textile.Promises.{Extends}
use hackfs_mdc.Serve.Replies.{Returns}
use hackfs_mdc.Json.{process_json_request}
use hackfs_mdc.Json.ReadAnswer.{ReadAnswer}
use hackfs_mdc.Json.Reads.{process_json_request_read_lem}
use hackfs_mdc.Examples.Cloud.{cloud, clients, view, promises}
use hackfs_mdc.Examples.Runs.{message_data, request, after_upload, download_answer, reply_data}
use hackfs_mdc.Examples.JsonRuns.{json_data}

abbrev read_data : JsonData
read_data = record json_data { type = "download"; json_input = "alice.u0" }

abbrev read_request : JsonRequest
read_request = record { message_data = some message_data; json_data = some read_data }

process_json_request_read_lem_example :
    let r = process_json_request (cloud request) (clients request) read_request after_upload in
    Returns
      (ReadAnswer
        (cloud request)
        (clients request)
        (view request)
        message_data
        (record read_data { received_at = get_millisecond (pos 1005000000) })
        after_upload)
      (Extends (cloud request) (view request) after_upload)
      r.0
      r.1
process_json_request_read_lem_example =
    process_json_request_read_lem (cloud request) (7 ∷ []) refl (clients request) (view request)
      (promises request) read_request message_data read_data after_upload refl refl refl

abbrev signed_download : DownloadResponse
signed_download = record download_answer {
  message_data = some (record (reply_data (pos 1)) { sign = 9 ∷ 4 ∷ 0 ∷ [] });
}
