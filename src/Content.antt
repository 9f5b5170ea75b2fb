-- ===== src/Content.antt =====
-- The storing of an upload, which processUploadRequest (backend/pkg/libp2pnode/upload.go) and
-- processJsonRequestUpload (backend/pkg/libp2pnode/jsonapi.go) both spell out, and the look-up of a
-- content record (backend/pkg/libp2pnode/download.go).
pub mod Making
pub mod Storing
pub mod Backing
pub mod Evolution
pub mod Lookup
pub mod Clock
pub mod Times
pub mod Returning
use hackfs_mdc.Base.{
  ◌≡◌, arith, ℕ, String, Bool, true, false, not, Option, none, some, List, [], ◌∷◌, is_empty,
  if◌then◌else◌,
}
use hackfs_mdc.Base.Int.{ℤ}
use hackfs_mdc.Go.{Go, Result, ok, err, returned, pure, call, ◌>>=◌}
use hackfs_mdc.Common.{Caller, Error, errorf, in_pkg}
use hackfs_mdc.Messages.{Bytes, UploadData, ContentData, DownloadData}
use hackfs_mdc.Services.{Services, Found}
use hackfs_mdc.Node.{get_time_stamp_millisecond}
use hackfs_mdc.Textile.{
  Clients, create_bucket_and_push_data, insert_to_content_db, query_content_db,
}
use hackfs_mdc.Preview.{new_bucket_name, get_preview_from}

-- Where the three errors of an upload are made.
pub record Places : Type 0 where
  pub at_push : Option Caller
  pub at_preview : Option Caller
  pub at_insert : Option Caller

-- `if len(x) == 0 { x = fallback }`
abbrev pub or_else : String → String → String
or_else x fallback = if is_empty x then fallback else x

pub or_else-filled :
    (x fallback : String) → is_empty fallback ≡ false → is_empty (or_else x fallback) ≡ false
or_else-filled x fallback h = ground arith

-- The bucket's keys and the preview, put together with the upload.
abbrev pub content_of :
    UploadData → String × String × String → String → String → ℤ → ℤ → ContentData
content_of d keys preview_url preview_type received_at updated_at = record {
  id = "";
  owner_id = d.owner_id;
  file_name = d.file_name;
  file_type = or_else preview_type "unknown";
  file_size = d.file_size;
  description = or_else d.description "no description";
  thread_key = keys.0;
  bucket_key = keys.1;
  encrypted_url = keys.2;
  preview_url = preview_url;
  received_at = received_at;
  updated_at = updated_at;
}

unfoldable pub first_content : List ContentData → Result Error ContentData
first_content [] = err (
    errorf (in_pkg "libp2pnode.GetContentDataRecordWithDownloadData" 71) none
      "no ContentData found")
first_content (d ∷ ds) = ok d

-- The checks of a query's answer, after its error.
unfoldable pub content_found : Found → Result Error ContentData
content_found Found.nil =
    err (errorf (in_pkg "libp2pnode.GetContentDataRecordWithDownloadData" 64) none "res is nil")
content_found Found.other = err (
    errorf (in_pkg "libp2pnode.GetContentDataRecordWithDownloadData" 68) none
      "res is not []*pb.ContentData")
content_found (Found.content_datas ds) = first_content ds

module _ (env : Services) (clients : Clients env) where
  open env use {World, where_eq}

  unfoldable pub insert_content : Places → ContentData → Go World (Result Error ContentData)
  insert_content places d = do
    inserted ← insert_to_content_db env clients d
    elim inserted.1 [
      | some e ↦
          pure (err (errorf places.at_insert (some e) "textilehelper.InsertToContentDB failed"))
      | none ↦ pure (ok d)
    ]

  unfoldable pub preview_content :
      Places → ℤ → UploadData → String × String × String → Go World (Result Error ContentData)
  preview_content places received_at d keys = do
    preview ← get_preview_from env clients d
    elim preview.2 [
      | some e ↦ pure (err (errorf places.at_preview (some e) "GetPreviewFrom failed"))
      | none ↦ do
        updated_at ← get_time_stamp_millisecond env
        insert_content places (content_of d keys preview.0 preview.1 received_at updated_at)
    ]

  unfoldable pub store_named :
      Places → ℤ → UploadData → String → Go World (Result Error ContentData)
  store_named places received_at d name = do
    pushed ← create_bucket_and_push_data env clients name d.file_name d.file_bytes true
    elim pushed [
      | err e ↦
          pure (err (errorf places.at_push (some e) "textilehelper.CreateBucketAndPushData failed"))
      | ok keys ↦ preview_content places received_at d keys
    ]

  -- The bytes go into a new private bucket, the preview into another one, and the record of both
  -- into the thread. The first error ends it.
  unfoldable pub store_content : Places → ℤ → UploadData → Go World (Result Error ContentData)
  store_content places received_at d = do
    name ← new_bucket_name env d.owner_id
    store_named places received_at d name

  -- By the bucket's key if there is one, by the preview's URL otherwise; with neither there is no
  -- query and its answer stays nil.
  unfoldable pub find_content : DownloadData → Go World (Found × Option Error)
  find_content d =
      if not (is_empty d.bucket_key)
      then query_content_db env clients (where_eq "bucketKey" d.bucket_key)
      else if not (is_empty d.preview_url)
      then query_content_db env clients (where_eq "previewUrl" d.preview_url)
      else pure (Found.nil, none)

  unfoldable pub get_content_data_record_with_download_data :
      DownloadData → Go World (Result Error ContentData)
  get_content_data_record_with_download_data d = do
    res ← find_content d
    elim res.1 [ some e ↦ pure (err e) | none ↦ pure (content_found res.0) ]
