-- ===== src/Messages.antt =====
-- backend/pkg/libp2pnode/pb/p2p.proto: the messages that the nodes exchange, and
-- backend/pkg/models/jsonapi/query.go. A field that holds a pointer is an `Option`: protobuf leaves
-- it nil when the sender did. A nil slice of bytes is the empty list.
pub mod Envelope
use hackfs_mdc.Base.{ℕ, String, Bool, Option, List}
use hackfs_mdc.Base.Int.{ℤ}

abbrev pub Bytes : Type 0
Bytes = List ℕ

pub record MessageData : Type 0 where
  pub client_version : String
  pub timestamp : ℤ
  pub id : String
  pub gossip : Bool
  pub node_id : String
  pub node_pub_key : Bytes
  pub sign : Bytes

pub record ResponseData : Type 0 where
  pub code : ℤ
  pub err : String

pub record UploadData : Type 0 where
  pub owner_id : String
  pub file_name : String
  pub file_type : String
  pub file_size : ℤ
  pub description : String
  pub file_bytes : Bytes
  pub generate_preview : Bool
  pub preview_bytes : Bytes

pub record ContentData : Type 0 where
  pub id : String
  pub owner_id : String
  pub file_name : String
  pub file_type : String
  pub file_size : ℤ
  pub description : String
  pub thread_key : String
  pub bucket_key : String
  pub encrypted_url : String
  pub preview_url : String
  pub received_at : ℤ
  pub updated_at : ℤ

pub record ContentDeliveryData : Type 0 where
  pub id : String
  pub requester_id : String
  pub file_bytes : Bytes
  pub received_at : ℤ
  pub updated_at : ℤ

pub record DownloadData : Type 0 where
  pub requester_id : String
  pub bucket_key : String
  pub preview_url : String
  pub created_at : ℤ

pub record JsonData : Type 0 where
  pub id : String
  pub requester_id : String
  pub type : String
  pub json_input : String
  pub json_output : String
  pub received_at : ℤ
  pub updated_at : ℤ

pub record UploadRequest : Type 0 where
  pub message_data : Option MessageData
  pub upload_data : Option UploadData

pub record UploadResponse : Type 0 where
  pub message_data : Option MessageData
  pub response_data : Option ResponseData
  pub content_data : Option ContentData

pub record DownloadRequest : Type 0 where
  pub message_data : Option MessageData
  pub download_data : Option DownloadData

pub record DownloadResponse : Type 0 where
  pub message_data : Option MessageData
  pub response_data : Option ResponseData
  pub content_data : Option ContentData
  pub content_delivery_data : Option ContentDeliveryData

pub record JsonRequest : Type 0 where
  pub message_data : Option MessageData
  pub json_data : Option JsonData

pub record JsonResponse : Type 0 where
  pub message_data : Option MessageData
  pub response_data : Option ResponseData
  pub json_data : Option JsonData

-- `proto.Message`, for the messages that are signed and sent.
pub data Message : Type 0 where
  upload_request : UploadRequest → Message
  upload_response : UploadResponse → Message
  download_request : DownloadRequest → Message
  download_response : DownloadResponse → Message
  json_request : JsonRequest → Message
  json_response : JsonResponse → Message

-- `&pb.ContentData{}`
abbrev pub zero_content_data : ContentData
zero_content_data = record {
  id = "";
  owner_id = "";
  file_name = "";
  file_type = "";
  file_size = ℤ.pos 0;
  description = "";
  thread_key = "";
  bucket_key = "";
  encrypted_url = "";
  preview_url = "";
  received_at = ℤ.pos 0;
  updated_at = ℤ.pos 0;
}

-- `&pb.ContentDeliveryData{}`
abbrev pub zero_content_delivery_data : ContentDeliveryData
zero_content_delivery_data = record {
  id = "";
  requester_id = "";
  file_bytes = List.[];
  received_at = ℤ.pos 0;
  updated_at = ℤ.pos 0;
}

-- `&pb.JsonData{}`
abbrev pub zero_json_data : JsonData
zero_json_data = record {
  id = "";
  requester_id = "";
  type = "";
  json_input = "";
  json_output = "";
  received_at = ℤ.pos 0;
  updated_at = ℤ.pos 0;
}

-- jsonapi.Query
pub record JsonQuery : Type 0 where
  pub collection : String
  pub field_path : String
  pub operation : String
  pub value : String
