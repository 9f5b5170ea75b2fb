-- ===== src/Examples/Storing.antt =====
-- The theorems on the content store and on Textile at concrete inputs.
use hackfs_mdc.Base.{◌≡◌, ◌≢◌, ◌⊎◌, String, some, [], ◌∷◌}
use hackfs_mdc.Base.Int.{pos}
use hackfs_mdc.Go.{Outcome, Result, returned}
use hackfs_mdc.Go.Laws.{Ends}
use hackfs_mdc.Common
use hackfs_mdc.Common.{Error, get_millisecond}
use hackfs_mdc.Messages.{ContentData, JsonQuery}
use hackfs_mdc.Messages.Envelope.{
  upload_request_envelope, upload_response_envelope, download_request_envelope,
  download_response_envelope, json_request_envelope, json_response_envelope,
}
use hackfs_mdc.Services.{Found}
use hackfs_mdc.Node
use hackfs_mdc.Node.{set_sign, authenticate_message, sign_proto_message, send_proto_message}
use hackfs_mdc.Textile
use hackfs_mdc.Textile.{query_content_db, query_with_json_api_query, content_data_collection_name}
use hackfs_mdc.Textile.Promises.{Extends}
use hackfs_mdc.Textile.Queries.{Asks, query_lem}
use hackfs_mdc.Preview
use hackfs_mdc.Content
use hackfs_mdc.Content.{store_content, get_content_data_record_with_download_data}
use hackfs_mdc.Content.Storing.{IsStored, store_content_lem}
use hackfs_mdc.Upload.{upload_places}
use hackfs_mdc.Examples.Cloud.{Cloud, cloud, clients, view, promises}
use hackfs_mdc.Examples.Runs.{upload_data, request, start, content, after_upload}

-- What storing the upload gives.
storing : Outcome (Result Error ContentData) × Cloud
unfolding Content.store_content Content.store_named Content.preview_content Content.insert_content
    Textile.insert_to_content_db Textile.first_id Textile.create_bucket_and_push_data
    Textile.create_bucket Textile.push_data Textile.link_bucket Preview.get_preview_from
    Preview.preview_by_media Preview.generate_image_preview_from Preview.generate_preview_from
    Preview.new_bucket_name Preview.get_thumbnail_from_bytes Preview.encode_thumbnail Node.get_ulid
    Node.get_time_stamp_millisecond Common.get_millisecond
storing = store_content (cloud request) (clients request) upload_places (pos 1000) upload_data start

abbrev stored_content : ContentData
stored_content = record content { updated_at = pos 1002 }

abbrev after_storing : Cloud
after_storing = record start {
  clock = 1003000000;
  serial = 2;
  files = after_upload.files;
  records = record stored_content { id = "record" } ∷ [];
}

store_content_lem_example :
    Ends
      (IsStored
        (cloud request)
        (clients request)
        (view request)
        (promises request)
        upload_data
        (pos 1000)
        start)
      (Extends (cloud request) (view request) start)
      storing.0
      storing.1
unfolding storing
store_content_lem_example =
    store_content_lem (cloud request) (clients request) (view request) (promises request)
      upload_places (pos 1000) upload_data start

abbrev json_query : JsonQuery
json_query = record {
  collection = "ContentData";
  field_path = "ownerId";
  operation = "Ge";
  value = "alice";
}

query_lem_example :
    ((q : String × String × String) × Asks (cloud request) json_query q
      × (json_query.collection ≡ content_data_collection_name)
      × (query_with_json_api_query (cloud request) (clients request) json_query start
          ≡ query_content_db (cloud request) (clients request) q start))
    ⊎ ((e : Error) × (query_with_json_api_query (cloud request) (clients request) json_query start
          ≡ (returned (Found.nil, some e), start))
        × (((q : String × String × String) → ¬ Asks (cloud request) json_query q)
            ⊎ (json_query.collection ≢ content_data_collection_name)))
query_lem_example = query_lem (cloud request) (clients request) json_query start
