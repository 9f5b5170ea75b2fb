-- ===== src/Download.antt =====
-- The server's side of backend/pkg/libp2pnode/download.go.
pub mod Responses
pub mod Handler
pub mod Backing
pub mod Returning
pub mod RoundTrip
use hackfs_mdc.Base.{
  ℕ, String, ◌<>◌, Bool, true, false, Option, none, some, length, decimal, if◌then◌else◌,
}
use hackfs_mdc.Base.Int.{ℤ, pos, ltb_ℤ, decimal_ℤ}
use hackfs_mdc.Go.{Go, Result, ok, err, returned, pure, deref, ◌>>=◌, ◌>>◌}
use hackfs_mdc.Common.{Error, error_text, errorf, in_pkg}
use hackfs_mdc.Messages.{
  Bytes, DownloadRequest, DownloadResponse, DownloadData, ContentData, zero_content_data,
  zero_content_delivery_data,
}
use hackfs_mdc.Messages.Envelope.{download_request_envelope, download_response_envelope}
use hackfs_mdc.Services.{Services}
use hackfs_mdc.Node.{get_time_stamp_millisecond, get_ulid, new_message_data}
use hackfs_mdc.Textile.{Clients, pull_bytes_from_bucket}
use hackfs_mdc.Content.{get_content_data_record_with_download_data}
use hackfs_mdc.Serve.{serve_request, status_ok, status_internal_server_error}

abbrev pub download_request_protocol_name : String
download_request_protocol_name = "/hackfspay3/downloadrequest/0.0.1"

abbrev pub download_response_protocol_name : String
download_response_protocol_name = "/hackfspay3/downloadresponse/0.0.1"

unfoldable pub size_mismatch : ℕ → ℤ → String
size_mismatch got expected =
    "bytes size "
    <> decimal got
    <> " not matching the expected size "
    <> decimal_ℤ expected
    <> " in contentData record"

module _ (env : Services) where
  open env use {World}

  unfoldable pub get_download_response_with_error :
      DownloadRequest → ℤ → Error → Go World DownloadResponse
  get_download_response_with_error req code e = do
    md ← deref req.message_data
    message_data ← new_message_data env md.id false
    pure (record {
      message_data = some message_data;
      response_data = some (record { code = code; err = error_text e });
      content_data = some zero_content_data;
      content_delivery_data = some zero_content_delivery_data;
    })

  unfoldable pub download_response :
      DownloadRequest → DownloadData → ℤ → ContentData → Bytes → Go World DownloadResponse
  download_response req d received_at content bytes = do
    md ← deref req.message_data
    message_data ← new_message_data env md.id false
    ulid ← get_ulid env
    updated_at ← get_time_stamp_millisecond env
    pure (record {
      message_data = some message_data;
      response_data = some (record { code = status_ok; err = "" });
      content_data = some content;
      content_delivery_data = some (record {
        id = ulid;
        requester_id = d.requester_id;
        file_bytes = bytes;
        received_at = received_at;
        updated_at = updated_at;
      });
    })

  module _ (clients : Clients env) where
    unfoldable pub deliver :
        DownloadRequest → DownloadData → ℤ → ContentData → Go World DownloadResponse
    deliver req d received_at content = do
      pulled ← pull_bytes_from_bucket env clients content.bucket_key content.file_name
      elim pulled [
        | err e ↦ get_download_response_with_error req status_internal_server_error (
            errorf (in_pkg "libp2pnode.(*DownloadProtocol).processDownloadRequest" 92) (some e)
              "textilehelper.PullBytesFromBucket failed")
        | ok bytes ↦
            if ltb_ℤ (pos (length bytes)) content.file_size
            then get_download_response_with_error req status_internal_server_error (
                errorf (in_pkg "libp2pnode.(*DownloadProtocol).processDownloadRequest" 95) none
                  (size_mismatch (length bytes) content.file_size))
            else download_response req d received_at content bytes
      ]

    unfoldable pub look_up : DownloadRequest → DownloadData → ℤ → Go World DownloadResponse
    look_up req d received_at = do
      found ← get_content_data_record_with_download_data env clients d
      elim found [
        | err e ↦ get_download_response_with_error req status_internal_server_error (
            errorf (in_pkg "libp2pnode.(*DownloadProtocol).processDownloadRequest" 84) (some e)
              "e.GetContentDataRecordWithDownloadData failed")
        | ok content ↦ deliver req d received_at content
      ]

    -- A nil pointer to the download data panics when its first field is read.
    unfoldable pub process_download_request : DownloadRequest → Go World DownloadResponse
    process_download_request req = do
      received_at ← get_time_stamp_millisecond env
      d ← deref req.download_data
      look_up req d received_at

    -- The log line prints the request and reads no field of it.
    unfoldable pub on_download_request : env.Stream → Go World (Unit {0})
    on_download_request =
        serve_request env (λ _. pure tt) process_download_request env.unmarshal_download_request
          download_response_protocol_name
