-- ===== src/Textile.antt =====
-- backend/pkg/textilehelper/textilehelper.go: content records in a Textile thread, content bytes in
-- Textile buckets. The clients that `Setup` makes are a parameter.
pub mod Queries
pub mod Buckets
pub mod Promises
pub mod Returning
pub mod Hub
pub mod Setup
use hackfs_mdc.Base.{
  ℕ, String, ◌<>◌, Bool, true, false, Option, none, some, List, [], ◌∷◌, ◌==◌, if◌then◌else◌,
}
use hackfs_mdc.Go.{Go, Result, ok, err, returned, pure, call, ◌>>=◌}
use hackfs_mdc.Common.{Error, errorf, in_pkg}
use hackfs_mdc.Messages.{Bytes, ContentData, JsonQuery, zero_content_data}
use hackfs_mdc.Services.{Services, Found}

-- models.ContentDataCollectionName, and what `GetCollectionName` of a ContentData gives
abbrev pub content_data_collection_name : String
content_data_collection_name = "ContentData"

-- The part of `Clients` that is no connection.
pub record Clients (env : Services) : Type 0 where
  pub db_thread_id : env.ThreadId
  pub context_with_db_thread_id : env.Context

unfoldable pub first_id : List String → String
first_id [] = ""
first_id (x ∷ xs) = x

unfoldable pub get_instanceable_from_collection : String → Result Error ContentData
get_instanceable_from_collection collection =
    if collection == "ContentData"
    then ok zero_content_data
    else err (
        errorf (in_pkg "textilehelper.GetInstanceableFromCollection" 250) none
          ("Unsupported collection: " <> collection))

module _ (env : Services) where
  open env use {
    World, Context, ThreadId, Query, thread_id_string, new_thread_id_context, where_eq, where_ge,
    where_le, where_ne, threads_create, threads_find, buckets_init, buckets_push_path,
    buckets_links_ipns, buckets_pull_path,
  }

  unfoldable pub get_query_from_json_api_query : JsonQuery → Result Error Query
  get_query_from_json_api_query jq =
      if jq.operation == "Eq"
      then ok (where_eq jq.field_path jq.value)
      else if jq.operation == "Ge"
      then ok (where_ge jq.field_path jq.value)
      else if jq.operation == "Le"
      then ok (where_le jq.field_path jq.value)
      else if jq.operation == "Ne"
      then ok (where_ne jq.field_path jq.value)
      else err (
          errorf (in_pkg "textilehelper.GetQueryFromJsonApiQuery" 241) none
            ("Unsupported operation: " <> jq.operation))

  -- The key of the bucket's root.
  unfoldable pub create_bucket : Context → ThreadId → String → Bool → Go World (Result Error String)
  create_bucket ctx db_id name is_private =
      call (buckets_init (new_thread_id_context ctx db_id) name is_private)

  module _ (clients : Clients env) where
    open clients use {db_thread_id, context_with_db_thread_id}

    -- The ID of the new record, and the error.
    unfoldable pub insert_to_content_db : ContentData → Go World (String × Option Error)
    insert_to_content_db d = do
      created ←
          call
            (threads_create context_with_db_thread_id db_thread_id content_data_collection_name d)
      pure (first_id created.0, created.1)

    unfoldable pub query_content_db : Query → Go World (Found × Option Error)
    query_content_db q =
        call (threads_find context_with_db_thread_id db_thread_id content_data_collection_name q)

    unfoldable pub query_with_json_api_query : JsonQuery → Go World (Found × Option Error)
    query_with_json_api_query jq = elim (get_query_from_json_api_query jq) [
      | err e ↦ pure (
        Found.nil,
        some (
            errorf (in_pkg "textilehelper.QueryWithJsonApiQuery" 257) (some e)
              "GetQueryFromJsonApiQuery failed"),
      )
      | ok q ↦ elim (get_instanceable_from_collection jq.collection) [
        | err e ↦ pure (
          Found.nil,
          some (
              errorf (in_pkg "textilehelper.QueryWithJsonApiQuery" 261) (some e)
                "GetInstanceableFromCollection failed"),
        )
        | ok dummy ↦ call (threads_find context_with_db_thread_id db_thread_id jq.collection q)
      ]
    ]

    unfoldable pub link_bucket : String → Go World (Result Error (String × String × String))
    link_bucket bucket_key = do
      links ← call (buckets_links_ipns context_with_db_thread_id bucket_key)
      elim links [
        | err e ↦ pure (
            err (
              errorf (in_pkg "textilehelper.CreateBucketAndPushData" 282) (some e)
                "clients.Buckets.Links failed"))
        | ok ipns ↦ pure (ok (thread_id_string db_thread_id, bucket_key, ipns))
      ]

    unfoldable pub push_data :
        String → String → Bytes → Go World (Result Error (String × String × String))
    push_data bucket_key bucket_file_name bytes = do
      pushed ← call (buckets_push_path context_with_db_thread_id bucket_key bucket_file_name bytes)
      elim pushed [
        | some e ↦ pure (
            err (
              errorf (in_pkg "textilehelper.CreateBucketAndPushData" 277) (some e)
                "clients.Buckets.PushPath failed"))
        | none ↦ link_bucket bucket_key
      ]

    -- The thread's key, the bucket's key and the IPNS link.
    unfoldable pub create_bucket_and_push_data :
        String → String → Bytes → Bool → Go World (Result Error (String × String × String))
    create_bucket_and_push_data bucket_name bucket_file_name bytes is_private = do
      created ← create_bucket context_with_db_thread_id db_thread_id bucket_name is_private
      elim created [
        | err e ↦ pure (
            err (
              errorf (in_pkg "textilehelper.CreateBucketAndPushData" 272) (some e)
                "CreateBucket failed"))
        | ok bucket_key ↦ push_data bucket_key bucket_file_name bytes
      ]

    unfoldable pub pull_bytes_from_bucket : String → String → Go World (Result Error Bytes)
    pull_bytes_from_bucket bucket_key bucket_file_name = do
      pulled ← call (buckets_pull_path context_with_db_thread_id bucket_key bucket_file_name)
      elim pulled.1 [
        | some e ↦ pure (
            err (
              errorf (in_pkg "textilehelper.PullBytesFromBucket" 292) (some e)
                "clients.Buckets.PullPath failed"))
        | none ↦ pure (ok pulled.0)
      ]
