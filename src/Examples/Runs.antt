-- ===== src/Examples/Runs.antt =====
-- The theorems at concrete requests, and a run of the upload handler.
use hackfs_mdc.Base.{◌≡◌, refl, String, true, false, some, [], ◌∷◌, decimal}
use hackfs_mdc.Base.Int.{ℤ, pos}
use hackfs_mdc.Go.{Outcome, returned}
use hackfs_mdc.Common
use hackfs_mdc.Messages.{
  MessageData, UploadRequest, UploadResponse, UploadData, DownloadRequest, DownloadResponse,
  DownloadData, ContentData, ContentDeliveryData,
}
use hackfs_mdc.Node
use hackfs_mdc.Textile
use hackfs_mdc.Preview
use hackfs_mdc.Content
use hackfs_mdc.Content.Backing.{IsBacked}
use hackfs_mdc.Upload
use hackfs_mdc.Download
use hackfs_mdc.Download.RoundTrip.{download-upload}
use hackfs_mdc.Textile.Promises.{Extends-refl}
use hackfs_mdc.Examples.Cloud.{Cloud, cloud, clients, view, promises}

abbrev pub message_data : MessageData
message_data = record {
  client_version = "pay3-server-node/0.0.1";
  timestamp = pos 0;
  id = "m1";
  gossip = false;
  node_id = "host";
  node_pub_key = 7 ∷ [];
  sign = 9 ∷ 1 ∷ 0 ∷ [];
}

abbrev pub upload_data : UploadData
upload_data = record {
  owner_id = "alice";
  file_name = "cat.png";
  file_type = "";
  file_size = pos 2;
  description = "";
  file_bytes = 3 ∷ 4 ∷ [];
  generate_preview = true;
  preview_bytes = [];
}

abbrev pub request : UploadRequest
request = record { message_data = some message_data; upload_data = some upload_data }

abbrev pub download_data : DownloadData
download_data = record {
  requester_id = "bob";
  bucket_key = "alice.u0";
  preview_url = "";
  created_at = pos 0;
}

abbrev pub download_request : DownloadRequest
download_request = record { message_data = some message_data; download_data = some download_data }

abbrev pub start : Cloud
start = record { clock = 1000000000; serial = 0; files = []; records = []; sent = [] }

unfoldable pub uploading : Outcome UploadResponse × Cloud
unfolding Upload.process_upload_request Upload.store_upload Upload.upload_response
    Content.store_content Content.store_named Content.preview_content Content.insert_content
    Textile.insert_to_content_db Textile.first_id Textile.create_bucket_and_push_data
    Textile.create_bucket Textile.push_data Textile.link_bucket Preview.get_preview_from
    Preview.preview_by_media Preview.generate_image_preview_from Preview.generate_preview_from
    Preview.new_bucket_name Preview.get_thumbnail_from_bytes Preview.encode_thumbnail Node.get_ulid
    Node.get_time_stamp_millisecond Node.new_message_data Common.get_millisecond
uploading = Upload.process_upload_request (cloud request) (clients request) request start

abbrev pub content : ContentData
content = record {
  id = "";
  owner_id = "alice";
  file_name = "cat.png";
  file_type = "image";
  file_size = pos 2;
  description = "no description";
  thread_key = "thread";
  bucket_key = "alice.u0";
  encrypted_url = "ipns/alice.u0";
  preview_url = "ipns/alice.u1/thumbnail.jpg";
  received_at = pos 1000;
  updated_at = pos 1003;
}

abbrev pub reply_data : ℤ → MessageData
reply_data t = record message_data { timestamp = t; sign = [] }

abbrev pub upload_answer : UploadResponse
upload_answer = record {
  message_data = some (reply_data (pos 1));
  response_data = some (record { code = pos 200; err = "" });
  content_data = some content;
}

abbrev pub after_upload : Cloud
after_upload = record {
  clock = 1005000000;
  serial = 2;
  files = ("alice.u1", "thumbnail.jpg", 8 ∷ 3 ∷ 4 ∷ []) ∷ ("alice.u0", "cat.png", 3 ∷ 4 ∷ []) ∷ [];
  records = record content { id = "record" } ∷ [];
  sent = [];
}

pub upload_run : uploading ≡ (returned upload_answer, after_upload)
unfolding uploading decimal
upload_run = refl

unfoldable pub downloading : Outcome DownloadResponse × Cloud
unfolding Download.process_download_request Download.look_up Download.deliver
    Download.download_response Content.get_content_data_record_with_download_data
    Content.find_content Content.content_found Content.first_content Textile.query_content_db
    Textile.pull_bytes_from_bucket Node.get_ulid Node.get_time_stamp_millisecond
    Node.new_message_data Common.get_millisecond
downloading =
    Download.process_download_request (cloud request) (clients request) download_request
      after_upload

abbrev pub download_answer : DownloadResponse
download_answer = record {
  message_data = some (reply_data (pos 1));
  response_data = some (record { code = pos 200; err = "" });
  content_data = some (record content { id = "record" });
  content_delivery_data = some (record {
    id = "u2";
    requester_id = "bob";
    file_bytes = 3 ∷ 4 ∷ [];
    received_at = pos 1005;
    updated_at = pos 1008;
  });
}

abbrev pub after_download : Cloud
after_download = record after_upload { clock = 1009000000; serial = 3 }

pub download_run : downloading ≡ (returned download_answer, after_download)
unfolding downloading decimal
download_run = refl

pub start-IsBacked : IsBacked (cloud request) (view request) start
start-IsBacked = record { backed = tt }

download-upload_example :
    (delivery : ContentDeliveryData) × (download_answer.content_delivery_data ≡ some delivery)
    × (delivery.file_bytes ≡ 3 ∷ 4 ∷ [])
    × ((id : String) × (download_answer.content_data ≡ some (record content { id = id })))
unfolding uploading downloading
download-upload_example =
    download-upload (cloud request) (7 ∷ []) refl (clients request) (view request)
      (promises request) request message_data upload_data upload_answer content download_request
      message_data download_data download_answer start after_upload after_upload after_download
      start-IsBacked refl refl upload_run refl refl
      (Extends-refl (cloud request) (view request) after_upload) refl refl refl refl download_run
      refl
