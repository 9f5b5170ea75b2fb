-- ===== src/Services.antt =====
-- What the services call and this repository does not hold: the clock, ULIDs, libp2p, protobuf,
-- JSON, Textile, the image and the video libraries. `World` is the state of all of them.
use hackfs_mdc.Base.{ℕ, String, Bool, Option, List}
use hackfs_mdc.Base.Int.{ℤ}
use hackfs_mdc.Go.{Go, Result}
use hackfs_mdc.Common.{Error}
use hackfs_mdc.Messages.{
  Bytes, Message, UploadRequest, UploadResponse, DownloadRequest, DownloadResponse, JsonRequest,
  JsonResponse, ContentData, DownloadData, UploadData, JsonQuery,
}

-- An `interface{}` that `Find` returns: nil, a `[]*pb.ContentData`, or a value of another type.
pub data Found : Type 0 where
  nil : Found
  content_datas : List ContentData → Found
  other : Found

-- What `mimemagic.Match` finds.
pub record Mime : Type 0 where
  pub media : String
  pub media_type : String

pub record Services : Type 1 where
  pub World : Type 0
  -- time.Now().UnixNano(), and ulid.MustNew(ulid.Timestamp(t), entropy).String() for such a `t`
  pub unix_nano : World → ℤ × World
  pub ulid_must_new : ℤ → Go World String
  -- crypto and peers; the `host_` fields belong to the node's own host
  pub PubKey : Type 0
  pub unmarshal_public_key : Bytes → Result Error PubKey
  pub id_from_public_key : PubKey → Result Error String
  pub key_verify : PubKey → Bytes → Bytes → Result Error Bool
  pub peer_decode : String → Result Error String
  pub peer_encode : String → String
  pub host_id : String
  pub host_pub_key_bytes : Result Error Bytes
  pub host_key_sign : Bytes → World → Result Error Bytes × World
  -- protobuf; an unmarshal fills what it can, also when it fails
  pub proto_marshal : Message → Result Error Bytes
  pub unmarshal_upload_request : Bytes → UploadRequest × Option Error
  pub unmarshal_upload_response : Bytes → UploadResponse × Option Error
  pub unmarshal_download_request : Bytes → DownloadRequest × Option Error
  pub unmarshal_download_response : Bytes → DownloadResponse × Option Error
  pub unmarshal_json_request : Bytes → JsonRequest × Option Error
  pub unmarshal_json_response : Bytes → JsonResponse × Option Error
  -- libp2p streams, to a peer under a protocol's name
  pub Stream : Type 0
  pub new_stream : String → String → World → Result Error Stream × World
  pub write_msg : Stream → Message → World → Option Error × World
  pub full_close : Stream → World → Option Error × World
  pub read_all : Stream → World → Result Error Bytes × World
  pub reset : Stream → World → World
  pub close : Stream → World → World
  pub remote_peer : Stream → String
  -- Textile threads and buckets
  pub ThreadId : Type 0
  pub Context : Type 0
  pub Query : Type 0
  pub thread_id_string : ThreadId → String
  pub new_thread_id_context : Context → ThreadId → Context
  pub where_eq : String → String → Query
  pub where_ge : String → String → Query
  pub where_le : String → String → Query
  pub where_ne : String → String → Query
  pub threads_create :
      Context → ThreadId → String → ContentData → World → (List String × Option Error) × World
  pub threads_find : Context → ThreadId → String → Query → World → (Found × Option Error) × World
  pub buckets_init : Context → String → Bool → World → Result Error String × World
  pub buckets_push_path : Context → String → String → Bytes → World → Option Error × World
  pub buckets_links_ipns : Context → String → World → Result Error String × World
  pub buckets_pull_path : Context → String → String → World → (Bytes × Option Error) × World
  -- encoding/json; an unmarshal fills what it can, also when it fails
  pub string_of_bytes : Bytes → String
  pub json_unmarshal_query : String → JsonQuery × Option Error
  pub json_unmarshal_download : String → DownloadData × Option Error
  pub json_unmarshal_upload : String → UploadData × Option Error
  pub json_marshal_content_datas : List ContentData → Result Error Bytes
  pub json_marshal_content_data : ContentData → Result Error Bytes
  pub json_marshal_bytes : Bytes → Result Error Bytes
  -- previews
  pub mimemagic_match : Bytes → String → Mime
  pub Image : Type 0
  pub image_decode : Bytes → Result Error Image
  pub image_resize : Image → ℕ → ℕ → Image
  pub jpeg_encode : Image → Result Error Bytes
  -- the file system, and the transcoder that runs ffmpeg
  pub Pipe : Type 0
  pub join_path : String → String → String
  pub temp_dir : String → World → Result Error String × World
  pub remove_all : String → World → World
  pub write_file : String → Bytes → World → Option Error × World
  pub transcoder_init : World → Option Error × World
  pub set_input_path : String → World → Option Error × World
  pub create_output_pipe : String → World → Result Error Pipe × World
  pub run_transcoder : World → Option Error × World
  pub read_pipe : Pipe → World → (Bytes × Option Error) × World
  -- whether the goroutine that reads the pipe is the last to assign the shared `err`
  pub reader_assigns_last : World → Bool × World
