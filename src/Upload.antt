-- ===== src/Upload.antt =====
-- The server's side of backend/pkg/libp2pnode/upload.go.
pub mod Responses
pub mod Handler
pub mod Backing
pub mod Returning
use hackfs_mdc.Base.{ℕ, String, Bool, true, false, Option, none, some, length, if◌then◌else◌}
use hackfs_mdc.Base.Int.{ℤ, pos, ltb_ℤ}
use hackfs_mdc.Go.{Go, Result, ok, err, returned, pure, deref, ◌>>=◌, ◌>>◌}
use hackfs_mdc.Common.{Error, error_text, errorf, in_pkg}
use hackfs_mdc.Messages.{UploadRequest, UploadResponse, UploadData, ContentData, zero_content_data}
use hackfs_mdc.Messages.Envelope.{upload_request_envelope, upload_response_envelope}
use hackfs_mdc.Services.{Services}
use hackfs_mdc.Node.{get_time_stamp_millisecond, new_message_data}
use hackfs_mdc.Textile.{Clients}
use hackfs_mdc.Content.{Places, store_content}
use hackfs_mdc.Serve.{serve_request, status_ok, status_internal_server_error}

abbrev pub upload_request_protocol_name : String
upload_request_protocol_name = "/hackfspay3/uploadrequest/0.0.2"

abbrev pub upload_response_protocol_name : String
upload_response_protocol_name = "/hackfspay3/uploadresponse/0.0.2"

abbrev pub upload_places : Places
upload_places = record {
  at_push = in_pkg "libp2pnode.(*UploadProtocol).processUploadRequest" 77;
  at_preview = in_pkg "libp2pnode.(*UploadProtocol).processUploadRequest" 83;
  at_insert = in_pkg "libp2pnode.(*UploadProtocol).processUploadRequest" 111;
}

module _ (env : Services) where
  open env use {World}

  unfoldable pub get_upload_response_with_error :
      UploadRequest → ℤ → Error → Go World UploadResponse
  get_upload_response_with_error req code e = do
    md ← deref req.message_data
    message_data ← new_message_data env md.id false
    pure (record {
      message_data = some message_data;
      response_data = some (record { code = code; err = error_text e });
      content_data = some zero_content_data;
    })

  unfoldable pub upload_response : UploadRequest → ContentData → Go World UploadResponse
  upload_response req content = do
    md ← deref req.message_data
    message_data ← new_message_data env md.id false
    pure (record {
      message_data = some message_data;
      response_data = some (record { code = status_ok; err = "" });
      content_data = some content;
    })

  -- CompactLogUploadRequest, for what it reads: fields of the upload data.
  unfoldable pub compact_log_upload_request : UploadRequest → Go World (Unit {0})
  compact_log_upload_request req = do d ← deref req.upload_data; pure tt

  module _ (clients : Clients env) where
    unfoldable pub store_upload : UploadRequest → ℤ → UploadData → Go World UploadResponse
    store_upload req received_at d = do
      stored ← store_content env clients upload_places received_at d
      elim stored [
        | err e ↦ get_upload_response_with_error req status_internal_server_error e
        | ok content ↦ upload_response req content
      ]

    unfoldable pub process_upload_request : UploadRequest → Go World UploadResponse
    process_upload_request req = do
      received_at ← get_time_stamp_millisecond env
      d ← deref req.upload_data
      if ltb_ℤ (pos (length d.file_bytes)) d.file_size
          then get_upload_response_with_error req status_internal_server_error (
              errorf (in_pkg "libp2pnode.(*UploadProtocol).processUploadRequest" 70) none
                "receivedFileSize not match")
          else store_upload req received_at d

    unfoldable pub on_upload_request : env.Stream → Go World (Unit {0})
    on_upload_request =
        serve_request env compact_log_upload_request process_upload_request
          env.unmarshal_upload_request upload_response_protocol_name
